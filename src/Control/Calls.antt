-- ===== src/Control/Calls.antt =====
-- What one call of the bus does: alarm-daemon/src/ipc/control.rs, its methods.
use alarm_daemon.Base.{
  ℕ, zero, suc, ◌*◌, ◌<◌, ◌≡◌, ◌⊎◌, refl, sym, ap, ◌∙◌, Bool, true, false, Option, none, some, List,
  [], ◌∷◌, ◌++◌, arith, ◌==◌, ==_iff, inl, inr, Result, ok, err,
}
use alarm_daemon.Base.Bytes.{Bytes}
use alarm_daemon.State.{
  AlarmStatus, armed, disarmed, State, state_armed, state_disarmed, changed, is_armed,
}
use alarm_daemon.Persistence.Redb.{Redb}
use alarm_daemon.Daemon.{AlarmDaemon, transition_to, arm_with_sound}
use alarm_daemon.Daemon
use alarm_daemon.Daemon.Laws.{transition_to_outcome}
use alarm_daemon.Audio.{AudioError}
use alarm_daemon.Audio.Player.{AlarmAudio}
use alarm_daemon.Sounds.Library.{FileSystem, resolve_path}
use alarm_daemon.Control.{
  BusError, invalid_args, failed, audio, duration_must_be_positive, cannot_snooze, Trigger, discard,
  abort, emit, fire_at, Control, cancel_pending, schedule_resolved, schedule_trigger,
  schedule_trigger_with_delay, announce, silent, stand_down,
}
use alarm_daemon.Control.Methods.{arm, disarm, dismiss, snooze, snooze_sound}

-- At most one task sleeps, and it is the one whose handle is kept.
abbrev pub OneTrigger : Option ℕ → List Trigger → Type 0
OneTrigger task tasks = (tasks ≡ []) ⊎ ((t : Trigger) × (tasks ≡ t ∷ []) × (task ≡ some t.id))

pub discard-one : (t : Trigger) → discard t.id (t ∷ []) ≡ []
unfolding discard
discard-one t = let same : (t.id == t.id) ≡ true = (==_iff t.id t.id).1 refl in rw same refl

abort-nil : (task : Option ℕ) → abort task [] ≡ []
unfolding abort discard
abort-nil none = refl
abort-nil (some id) = refl

pub abort-OneTrigger :
    (task : Option ℕ) (tasks : List Trigger) → OneTrigger task tasks → abort task tasks ≡ []
unfolding abort
abort-OneTrigger task tasks (inl e) = rw e (abort-nil task)
abort-OneTrigger task tasks (inr (t, e, f)) = rw (f, e) (discard-one t)

-- The signals that a change of status asks for.
abbrev pub signals_for : AlarmStatus → AlarmStatus → List Bool
signals_for armed disarmed = false ∷ []
signals_for disarmed armed = true ∷ []
signals_for armed armed = []
signals_for disarmed disarmed = []

emit-changed :
    (from to : AlarmStatus) (signals : List Bool)
    → emit (changed from to) signals ≡ signals_for from to ++ signals
unfolding emit is_armed
emit-changed armed armed s = refl
emit-changed armed disarmed s = refl
emit-changed disarmed armed s = refl
emit-changed disarmed disarmed s = refl

signals_for_same : (s : AlarmStatus) → signals_for s s ≡ []
signals_for_same armed = refl
signals_for_same disarmed = refl

module _ (R : Redb) where
  -- What a transition leaves and announces.
  pub transition_to_signals :
      (s : State) (d : AlarmDaemon R) (signals : List Bool)
      → let (d', t) = transition_to R s d in
        (d'.state ≡ s) × (emit t signals ≡ signals_for d.state.status s.status ++ signals)
  unfolding emit
  transition_to_signals s d signals =
      let (e, other) = transition_to_outcome R s d in
      (
        e,
        elim other [
          | inl (same, t, u) ↦
              let quiet =
                ap (λ x. signals_for x.status s.status ++ signals) same
                ∙ ap (λ l. l ++ signals) (signals_for_same s.status) in
              rw t (sym quiet)
          | inr (n, t, u) ↦ rw t (emit-changed d.state.status s.status signals)
        ],
      )

module _ (R : Redb) (A : AlarmAudio) where
  -- A call that was refused has left everything as it was.
  abbrev pub Refused : BusError → Control R A → Control R A × Result BusError (Unit {0}) → Type 0
  Refused e c (c', r) = (c' ≡ c) × (r ≡ err e)

  -- What cancelling and a transition to `s` leave, with the signals emitted.
  pub record Moved (s : State) (announced : List Bool) (c c' : Control R A) : Type 0 where
    pub state : c'.daemon.state ≡ s
    pub player : c'.player ≡ (A.stop c.player).0
    pub sounds : c'.sounds ≡ c.sounds
    pub delay : c'.trigger_delay ≡ c.trigger_delay
    pub signals : c'.signals ≡ announced ++ c.signals

  -- A scheduled alarm: armed for the sound and the fire time, the player stopped, and one trigger
  -- alone that plays `path` behind `delay_ms`.
  abbrev pub Scheduled :
      (fs : FileSystem) (clock : Option ℕ) (sound_id : Bytes) (delay_ms : ℕ) (announced : List Bool)
      (c : Control R A)
      → Control R A × Result BusError (Unit {0})
      → Type 0
  Scheduled fs clock sound_id delay_ms announced c (c', r) =
      (path : Bytes) × (resolve_path fs c.sounds sound_id ≡ ok path)
      × (r ≡ ok tt)
      × (c'.tasks ≡ record { id = c.next_task; sound_path = path; delay_ms = delay_ms } ∷ [])
      × (c'.trigger_task ≡ some c.next_task)
      × Moved (state_armed (some sound_id) (some (fire_at clock delay_ms))) announced c c'

  module _ (c : Control R A) (one : OneTrigger c.trigger_task c.tasks) where
    -- Where at most one trigger sleeps, disarming, and dismissing alike, empties everything: no
    -- task is left, the player is stopped, the daemon is disarmed without a sound or a fire time,
    -- and `false` is announced exactly if it was armed.
    pub disarm_outcome :
        let (c', r) = disarm R A c in
        (r ≡ ok tt)
        × (c'.tasks ≡ [])
        × (c'.trigger_task ≡ none)
        × (dismiss R A c ≡ disarm R A c)
        × Moved state_disarmed (signals_for c.daemon.state.status disarmed) c c'
    unfolding disarm dismiss stand_down cancel_pending Daemon.disarm state_disarmed
    disarm_outcome =
        let (e, f) = transition_to_signals R state_disarmed c.daemon c.signals in
        (
          refl,
          abort-OneTrigger _ _ one,
          refl,
          refl,
          record { state = e; player = refl; sounds = refl; delay = refl; signals = f },
        )

    module _ (fs : FileSystem) (clock : Option ℕ) (sound_id : Bytes) where
      schedule_announced :
          (delay_ms : ℕ) (path : Bytes)
          → resolve_path fs c.sounds sound_id ≡ ok path
          → Scheduled fs clock sound_id delay_ms
              (signals_for c.daemon.state.status armed)
              c
              (announce R A (schedule_resolved R A clock sound_id delay_ms c (ok path)))
      unfolding announce schedule_resolved cancel_pending arm_with_sound state_armed
      schedule_announced delay_ms path found =
          let s = state_armed (some sound_id) (some (fire_at clock delay_ms)) in
          let (e, f) = transition_to_signals R s c.daemon c.signals in
          let alone =
            ap (λ l. l ++ record { id = c.next_task; sound_path = path; delay_ms = delay_ms } ∷ [])
              (abort-OneTrigger _ _ one) in
          (
            path,
            found,
            refl,
            alone,
            refl,
            record { state = e; player = refl; sounds = refl; delay = refl; signals = f },
          )

      schedule_silent :
          (delay_ms : ℕ) (path : Bytes)
          → resolve_path fs c.sounds sound_id ≡ ok path
          → Scheduled fs clock sound_id delay_ms [] c
              (silent R A (schedule_resolved R A clock sound_id delay_ms c (ok path)))
      unfolding silent schedule_resolved cancel_pending arm_with_sound state_armed
      schedule_silent delay_ms path found =
          let s = state_armed (some sound_id) (some (fire_at clock delay_ms)) in
          let (e, f) = transition_to_signals R s c.daemon c.signals in
          let alone =
            ap (λ l. l ++ record { id = c.next_task; sound_path = path; delay_ms = delay_ms } ∷ [])
              (abort-OneTrigger _ _ one) in
          (
            path,
            found,
            refl,
            alone,
            refl,
            record { state = e; player = refl; sounds = refl; delay = refl; signals = refl },
          )

      arm_resolved :
          (delay_ms : ℕ) (found : Result AudioError Bytes)
          → resolve_path fs c.sounds sound_id ≡ found
          → (let x = announce R A (schedule_resolved R A clock sound_id delay_ms c found) in
              ((e : AudioError) × (resolve_path fs c.sounds sound_id ≡ err e)
                × Refused (invalid_args (audio e)) c x)
              ⊎ Scheduled fs clock sound_id delay_ms (signals_for c.daemon.state.status armed) c x)
      unfolding announce schedule_resolved
      arm_resolved delay_ms (ok path) found = inr (schedule_announced delay_ms path found)
      arm_resolved delay_ms (err e) found = inl (e, found, (refl, refl))

      snooze_resolved :
          (delay_ms : ℕ) (found : Result AudioError Bytes)
          → resolve_path fs c.sounds sound_id ≡ found
          → (let x = silent R A (schedule_resolved R A clock sound_id delay_ms c found) in
              ((e : AudioError) × (resolve_path fs c.sounds sound_id ≡ err e)
                × Refused (invalid_args (audio e)) c x)
              ⊎ Scheduled fs clock sound_id delay_ms [] c x)
      unfolding silent schedule_resolved
      snooze_resolved delay_ms (ok path) found = inr (schedule_silent delay_ms path found)
      snooze_resolved delay_ms (err e) found = inl (e, found, (refl, refl))

      -- Where at most one trigger sleeps, arming for an id that does not resolve answers
      -- `InvalidArgs` with the reason and changes nothing. Otherwise the old playback and trigger
      -- are gone, and the alarm is scheduled for the sound; `true` is announced exactly if the
      -- daemon was disarmed.
      pub arm_outcome :
          ((e : AudioError) × (resolve_path fs c.sounds sound_id ≡ err e)
            × Refused (invalid_args (audio e)) c (arm R A fs clock sound_id c))
          ⊎ Scheduled fs clock sound_id c.trigger_delay
              (signals_for c.daemon.state.status armed)
              c
              (arm R A fs clock sound_id c)
      unfolding arm schedule_trigger schedule_trigger_with_delay
      arm_outcome = arm_resolved c.trigger_delay _ refl

    module _ (fs : FileSystem) (clock : Option ℕ) where
      -- The answers of a snooze for the sound that the daemon has.
      abbrev pub SnoozeAnswer : ℕ → Option Bytes → Control R A × Result BusError (Unit {0}) → Type 0
      SnoozeAnswer duration_s none x = Refused (failed cannot_snooze) c x
      SnoozeAnswer duration_s (some id) x =
          ((e : AudioError) × (resolve_path fs c.sounds id ≡ err e)
            × Refused (invalid_args (audio e)) c x)
          ⊎ Scheduled fs clock id (duration_s * 1000) [] c x

      snooze_sound_answer :
          (duration_s : ℕ) (sound : Option Bytes)
          → SnoozeAnswer duration_s sound (snooze_sound R A fs clock duration_s c sound)
      unfolding snooze_sound schedule_trigger_with_delay
      snooze_sound_answer duration_s none = (refl, refl)
      snooze_sound_answer duration_s (some id) =
          snooze_resolved fs clock id (duration_s * 1000) _ refl

      -- Where at most one trigger sleeps, a snooze of no seconds, without a current sound, or for a
      -- sound that does not resolve is refused and changes nothing; any other schedules the alarm
      -- again for the same sound, after that many seconds, and announces nothing.
      pub snooze_outcome :
          (duration_s : ℕ)
          → (let x = snooze R A fs clock duration_s c in
              ((duration_s ≡ 0) × Refused (invalid_args duration_must_be_positive) c x)
              ⊎ ((0 < duration_s) × SnoozeAnswer duration_s c.daemon.state.current_sound x))
      unfolding snooze
      snooze_outcome zero = inl (refl, (refl, refl))
      snooze_outcome (suc n) =
          let e : (suc n == 0) ≡ false = ground arith in
          inr (omega arith, rw e (snooze_sound_answer (suc n) c.daemon.state.current_sound))
