-- ===== src/Daemon/Restart.antt =====
-- The daemon across a restart: alarm-daemon/src/daemon/alarm_daemon.rs, `new_persistent` behind any
-- sequence of requests to the process before it.
use alarm_daemon.Base.{
  ℕ, ◌≡◌, ◌↔◌, refl, sym, ◌∙◌, Bool, true, false, ◌&&◌, Option, none, some, List, [], ◌∷◌, arith,
  inl, inr, Result, ok, err, All,
}
use alarm_daemon.Base.Bytes.{Bytes}
use alarm_daemon.Base.Int.{ℤ, ◌≤ℤ◌, leb_ℤ}
use alarm_daemon.State.{State, PersistedState, to_persisted, StartupRecovery}
use alarm_daemon.Persistence.Codec.{PersistenceError}
use alarm_daemon.Persistence.RoundTrip.{InRange}
use alarm_daemon.Persistence.Laws.{IsStorable, SoundFits}
use alarm_daemon.Persistence.Redb.{Redb, IsTransactional}
use alarm_daemon.Persistence.Store.{Store, load, evaluate_recovery, now_ms, is_past}
use alarm_daemon.Persistence.Durable.{stored, IsOpen, answer, Loaded, load-Loaded}
use alarm_daemon.Persistence.Saves.{Holds, save-Holds, not-IsSystem, reopened}
use alarm_daemon.Daemon.{
  AlarmDaemon, restored, started, new_persistent, persist, transition_to, arm_with_sound, disarm,
}
use alarm_daemon.Daemon.Laws.{transition_to_outcome}

to_persisted-restored : (p : PersistedState) → to_persisted (restored p) ≡ p
unfolding to_persisted restored
to_persisted-restored p = ground arith

pub restored-to_persisted : (s : State) → restored (to_persisted s) ≡ s
unfolding to_persisted restored
restored-to_persisted s = ground arith

-- The requests that change the state.
pub data Request : Type 0 where
  arms : Bytes → Option ℤ → Request
  disarms : Request

-- An armed sound is UTF-8 of at most 65,535 bytes, and its fire time an `i64`.
abbrev pub RequestFits : Request → Type 0
RequestFits (arms sound_id next_fire) = SoundFits (some sound_id) × InRange next_fire
RequestFits disarms = Unit {0}

module _ (R : Redb) where
  unfoldable pub serve : Request → AlarmDaemon R → AlarmDaemon R
  unfolding arm_with_sound disarm
  serve (arms sound_id next_fire) d = (arm_with_sound R sound_id next_fire d).0
  serve disarms d = (disarm R d).0

  unfoldable pub serve_all : List Request → AlarmDaemon R → AlarmDaemon R
  unfolding serve
  serve_all [] d = d
  serve_all (r ∷ rs) d = serve_all rs (serve r d)

module _ (R : Redb) (T : IsTransactional R) (sound : ¬ T.Faulty) where
  -- The disk holds what the daemon holds in memory.
  abbrev pub OnDisk : State → Option (Store R) → Type 0
  OnDisk state none = ⊥
  OnDisk state (some s) = Holds R T (to_persisted state) s

  persist-OnDisk :
      (state : State) (old : State) (p : Option (Store R))
      → IsStorable (to_persisted state)
      → OnDisk old p
      → OnDisk state (persist R (to_persisted state) p)
  unfolding persist
  persist-OnDisk state old none h d = d
  persist-OnDisk state old (some s) h d = save-Holds R T (to_persisted state) s sound h d.0

  transition_to-OnDisk :
      (state : State) (d : AlarmDaemon R)
      → IsStorable (to_persisted state)
      → OnDisk d.state d.persistence
      → let d' = (transition_to R state d).0 in OnDisk d'.state d'.persistence
  transition_to-OnDisk state d h on = elim (transition_to_outcome R state d).1 [
    | inl (same, _, e) ↦ rw e on
    | inr (other, _, e) ↦
        rw ((transition_to_outcome R state d).0, e)
          (persist-OnDisk state d.state d.persistence h on)
  ]

  pub serve-OnDisk :
      (r : Request) (d : AlarmDaemon R)
      → RequestFits r
      → OnDisk d.state d.persistence
      → OnDisk (serve R r d).state (serve R r d).persistence
  unfolding serve to_persisted
  serve-OnDisk (arms sound_id next_fire) d h on =
      transition_to-OnDisk _ d (record { in_range = h.1; sound_fits = h.0 }) on
  serve-OnDisk disarms d h on =
      transition_to-OnDisk _ d (record { in_range = tt; sound_fits = tt }) on

  serve_all-OnDisk :
      (rs : List Request) (d : AlarmDaemon R)
      → All RequestFits rs
      → OnDisk d.state d.persistence
      → OnDisk (serve_all R rs d).state (serve_all R rs d).persistence
  unfolding serve_all
  serve_all-OnDisk [] d h on = on
  serve_all-OnDisk (r ∷ rs) d h on = serve_all-OnDisk rs (serve R r d) h.1 (serve-OnDisk r d h.0 on)

  started_from :
      (clock : Option ℕ) (s : Store R) (x : Store R × Result PersistenceError PersistedState)
      (d : AlarmDaemon R) (v : StartupRecovery)
      → Loaded R T s x
      → started R clock x ≡ ok (d, v)
      → OnDisk d.state d.persistence
  unfolding started
  started_from clock s (t, err e) d v l p = cc
  started_from clock s (t, ok p) d v (keeps, inr (x, e, _)) q = cc
  started_from clock s (t, ok p) d v (keeps, inl e) q =
      let same : record { state = restored p; persistence = some t } ≡ d = daemon_of q in
      rw (← same) (keeps.still_open, rw (keeps.same_value, to_persisted-restored p) (sym e))
    where
      daemon_of :
          {a b : AlarmDaemon R} {u w : StartupRecovery}
          → ◌≡◌ {A = Result PersistenceError (AlarmDaemon R × StartupRecovery)}
              (ok (a, u))
              (ok (b, w))
          → a ≡ b
      daemon_of h = cc

  pub started-OnDisk :
      (clock : Option ℕ) (s : Store R) (d : AlarmDaemon R) (v : StartupRecovery)
      → IsOpen R T s
      → new_persistent R clock s ≡ ok (d, v)
      → OnDisk d.state d.persistence
  unfolding new_persistent
  started-OnDisk clock s d v o e = started_from clock s (load R s) d v (load-Loaded R T s o) e

  -- Where a daemon with `state` restarts from its store at `clock`: a new daemon in the same state,
  -- with the recovery flag evaluated on it.
  abbrev pub Resumes : Option ℕ → State → Option (Store R) → Type 0
  Resumes clock state none = ⊥
  Resumes clock state (some store) =
      (d : AlarmDaemon R) × (new_persistent R clock (reopened R store)
        ≡ ok (d, evaluate_recovery clock (to_persisted state)))
      × (d.state ≡ state)

  resume_from :
      (clock : Option ℕ) (state : State) (s : Store R)
      (x : Store R × Result PersistenceError PersistedState)
      → answer R T (stored R T s) ≡ ok (to_persisted state)
      → Loaded R T s x
      → (d : AlarmDaemon R) × (started R clock x
          ≡ ok (d, evaluate_recovery clock (to_persisted state)))
        × (d.state ≡ state)
  unfolding started
  resume_from clock state s (t, r) a (keeps, inl e) = (
    record { state = state; persistence = some t },
    rw (e ∙ a) (rw restored-to_persisted refl),
    refl,
  )
  resume_from clock state s (t, r) a (keeps, inr (x, _, f)) = absurd (not-IsSystem R T sound x f)

  pub OnDisk-Resumes :
      (clock : Option ℕ) (state : State) (p : Option (Store R))
      → OnDisk state p
      → Resumes clock state p
  unfolding new_persistent
  OnDisk-Resumes clock state none on = on
  OnDisk-Resumes clock state (some s) on =
      resume_from clock state (reopened R s) (load R (reopened R s)) on.1
        (load-Loaded R T (reopened R s) tt)

  -- Over a disk that does not fail, let a daemon start on a store whose cached handle, if there is
  -- one, is of its own file, and serve any disarms and any arms for sounds that are UTF-8 of at
  -- most 65,535 bytes, with fire times of 64 bits. The process that is started next on its file
  -- comes up in the very state that the daemon was left in, and with the recovery flag of that
  -- state.
  pub restart :
      (before after : Option ℕ) (s : Store R) (d : AlarmDaemon R) (v : StartupRecovery)
      (rs : List Request)
      → IsOpen R T s
      → new_persistent R before s ≡ ok (d, v)
      → All RequestFits rs
      → let d' = serve_all R rs d in Resumes after d'.state d'.persistence
  restart before after s d v rs o e h =
      let d' = serve_all R rs d in
      OnDisk-Resumes after d'.state d'.persistence
        (serve_all-OnDisk rs d h (started-OnDisk before s d v o e))

recovery_iff :
    (now : ℤ) (armed : Bool) (next_fire : Option ℤ)
    → ((armed && is_past now next_fire) ≡ true)
      ↔ ((armed ≡ true) × ((t : ℤ) × (next_fire ≡ some t) × (t ≤ℤ now)))
recovery_iff now false next_fire = (λ h. cc, λ h. cc (h.0))
recovery_iff now true none = (λ h. cc, λ h. cc (h.1.1))
recovery_iff now true (some t) = (λ h. (refl, (t, refl, ground arith)), λ h. past h.1.0 h.1.1 h.1.2)
  where
    past : (u : ℤ) → some t ≡ some u → u ≤ℤ now → leb_ℤ t now ≡ true
    past u e le = ground arith

-- The flag is set exactly if the state is armed with a fire time that the clock has reached.
pub evaluate_recovery_iff :
    (clock : Option ℕ) (p : PersistedState)
    → ((evaluate_recovery clock p).missed_while_down ≡ true)
      ↔ ((p.armed ≡ true) × ((t : ℤ) × (p.next_fire_unix_ms ≡ some t) × (t ≤ℤ now_ms clock)))
unfolding evaluate_recovery
evaluate_recovery_iff clock p = recovery_iff (now_ms clock) p.armed p.next_fire_unix_ms
