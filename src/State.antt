-- ===== src/State.antt =====
-- alarm-daemon/src/daemon: alarm_status.rs, state.rs, transition.rs, and the two plain records of
-- persistence/persisted_state.rs and persistence/startup_recovery.rs.
use alarm_daemon.Base.{◌≡◌, refl, Bool, true, false, ◌&&◌, Option, none, some, arith}
use alarm_daemon.Base.{◌↔◌}
use alarm_daemon.Base.Bytes.{Bytes, bytes_eq, bytes_eq_iff}
use alarm_daemon.Base.Int.{ℤ}
use alarm_daemon.Base.{◌==◌}
use alarm_daemon.Base.Int

pub data AlarmStatus : Type 0 where
  disarmed armed : AlarmStatus

unfoldable pub is_armed : AlarmStatus → Bool
is_armed armed = true
is_armed disarmed = false

pub record State : Type 0 where
  pub status : AlarmStatus
  pub next_fire_unix_ms : Option ℤ
  pub current_sound : Option Bytes

-- `State::disarmed` and `State::armed`
unfoldable pub state_disarmed : State
state_disarmed = record { status = disarmed; next_fire_unix_ms = none; current_sound = none }

unfoldable pub state_armed : Option Bytes → Option ℤ → State
state_armed sound_id next_fire = record {
  status = armed;
  next_fire_unix_ms = next_fire;
  current_sound = sound_id;
}

pub record PersistedState : Type 0 where
  pub armed : Bool
  pub next_fire_unix_ms : Option ℤ
  pub current_sound : Option Bytes

-- `PersistedState::default()`
abbrev pub default_persisted : PersistedState
default_persisted = record { armed = false; next_fire_unix_ms = none; current_sound = none }

unfoldable pub to_persisted : State → PersistedState
unfolding is_armed
to_persisted s = record {
  armed = is_armed s.status;
  next_fire_unix_ms = s.next_fire_unix_ms;
  current_sound = s.current_sound;
}

pub record StartupRecovery : Type 0 where
  pub missed_while_down : Bool

pub data Transition : Type 0 where
  no_change : Transition
  changed : (from to : AlarmStatus) → Transition

-- The derived `PartialEq` of `AlarmStatus`, `Option<i64>`, `Option<String>` and `State`.
abbrev pub status_eq : AlarmStatus → AlarmStatus → Bool
status_eq disarmed disarmed = true
status_eq armed armed = true
status_eq disarmed armed = false
status_eq armed disarmed = false

int_eq : ℤ → ℤ → Bool
int_eq (Int.pos a) (Int.pos b) = a == b
int_eq (Int.negsuc a) (Int.negsuc b) = a == b
int_eq (Int.pos a) (Int.negsuc b) = false
int_eq (Int.negsuc a) (Int.pos b) = false

option_eq {ℓ} : {A : Type ℓ} → (A → A → Bool) → Option A → Option A → Bool
option_eq eq none none = true
option_eq eq none (some b) = false
option_eq eq (some a) none = false
option_eq eq (some a) (some b) = eq a b

option_eq_iff {ℓ} :
    {A : Type ℓ} (eq : A → A → Bool)
    → ((a b : A) → (eq a b ≡ true) ↔ (a ≡ b))
    → (s t : Option A) → (option_eq eq s t ≡ true) ↔ (s ≡ t)
unfolding option_eq
option_eq_iff eq law none none = (λ _. refl, λ _. refl)
option_eq_iff eq law none (some b) = (λ h. cc, λ h. cc)
option_eq_iff eq law (some a) none = (λ h. cc, λ h. cc)
option_eq_iff eq law (some a) (some b) = (λ h. cc ((law a b).0 h), λ h. (law a b).1 (ground arith))

int_eq_iff : (a b : ℤ) → (int_eq a b ≡ true) ↔ (a ≡ b)
unfolding int_eq
int_eq_iff (Int.pos a) (Int.pos b) = ground arith
int_eq_iff (Int.negsuc a) (Int.negsuc b) = ground arith
int_eq_iff (Int.pos a) (Int.negsuc b) = ground arith
int_eq_iff (Int.negsuc a) (Int.pos b) = ground arith

unfoldable pub state_eq : State → State → Bool
unfolding option_eq int_eq bytes_eq
state_eq s t =
    status_eq s.status t.status
    && (option_eq int_eq s.next_fire_unix_ms t.next_fire_unix_ms
        && option_eq bytes_eq s.current_sound t.current_sound)

pub state_eq_iff : (s t : State) → (state_eq s t ≡ true) ↔ (s ≡ t)
unfolding state_eq
state_eq_iff s t = ground (
  arith,
  option_eq_iff int_eq int_eq_iff s.next_fire_unix_ms t.next_fire_unix_ms,
  option_eq_iff bytes_eq bytes_eq_iff s.current_sound t.current_sound,
)
