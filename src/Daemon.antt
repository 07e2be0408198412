-- ===== src/Daemon.antt =====
-- alarm-daemon/src/daemon/alarm_daemon.rs: the state in memory, behind its lock, with the store
-- that each transition is written to. A method returns the new daemon beside its result.
pub mod Laws
pub mod Restart
pub mod Races
use alarm_daemon.Base.{
  ℕ, ◌≡◌, Bool, true, false, Option, none, some, Result, ok, err, if◌then◌else◌,
}
use alarm_daemon.Base.Bytes.{Bytes}
use alarm_daemon.Base.Int.{ℤ}
use alarm_daemon.State.{
  AlarmStatus, disarmed, armed, State, state_disarmed, state_armed, PersistedState, to_persisted,
  StartupRecovery, Transition, no_change, changed, state_eq,
}
use alarm_daemon.Persistence.Codec.{PersistenceError}
use alarm_daemon.Persistence.Redb.{Redb}
use alarm_daemon.Persistence.Store.{Store, load, save, evaluate_recovery}

-- The status and state that a persisted state stands for.
unfoldable pub restored : PersistedState → State
restored p = record {
  status = if p.armed then armed else disarmed;
  next_fire_unix_ms = p.next_fire_unix_ms;
  current_sound = p.current_sound;
}

module _ (R : Redb) where
  pub record AlarmDaemon : Type 0 where
    pub state : State
    pub persistence : Option (Store R)

  -- `AlarmDaemon::new()`
  abbrev pub without_persistence : AlarmDaemon
  without_persistence = record { state = state_disarmed; persistence = none }

  unfoldable pub started :
      Option ℕ
      → Store R × Result PersistenceError PersistedState
      → Result PersistenceError (AlarmDaemon × StartupRecovery)
  started clock (s, ok p) =
      ok (record { state = restored p; persistence = some s }, evaluate_recovery clock p)
  started clock (s, err e) = err e

  unfoldable pub new_persistent :
      Option ℕ → Store R → Result PersistenceError (AlarmDaemon × StartupRecovery)
  unfolding started restored
  new_persistent clock s = started clock (load R s)

  -- The write behind a transition: its failure is logged and nothing else.
  unfoldable pub persist : PersistedState → Option (Store R) → Option (Store R)
  persist snapshot none = none
  persist snapshot (some s) = some (save R snapshot s).0

  unfoldable pub transition_to : State → AlarmDaemon → AlarmDaemon × Transition
  unfolding persist
  transition_to desired d = if state_eq d.state desired then (d, no_change) else (
    record { state = desired; persistence = persist (to_persisted desired) d.persistence },
    changed d.state.status desired.status,
  )

  unfoldable pub arm_with_sound : Bytes → Option ℤ → AlarmDaemon → AlarmDaemon × Transition
  unfolding transition_to state_armed
  arm_with_sound sound_id next_fire = transition_to (state_armed (some sound_id) next_fire)

  -- The two methods that only tests call.
  unfoldable pub arm : AlarmDaemon → AlarmDaemon × Transition
  unfolding transition_to state_armed
  arm = transition_to (state_armed none none)

  unfoldable pub arm_with_next_fire : Option ℤ → AlarmDaemon → AlarmDaemon × Transition
  unfolding transition_to state_armed
  arm_with_next_fire next_fire = transition_to (state_armed none next_fire)

  unfoldable pub disarm : AlarmDaemon → AlarmDaemon × Transition
  unfolding transition_to state_disarmed
  disarm = transition_to state_disarmed

  abbrev pub status : AlarmDaemon → AlarmStatus
  status d = d.state.status

  abbrev pub current_sound : AlarmDaemon → Option Bytes
  current_sound d = d.state.current_sound
