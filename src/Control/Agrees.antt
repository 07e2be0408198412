-- ===== src/Control/Agrees.antt =====
-- The calls of alarm-daemon/src/ipc/control.rs that change the alarm of Control/Spec.
use alarm_daemon.Base.{
  ℕ, ◌*◌, ◌≡◌, refl, sym, ap, ◌∙◌, Bool, true, false, Option, none, some, List, [], ◌++◌, ◌==◌,
  arith, inl, inr, Result, ok, err,
}
use alarm_daemon.Base.Bytes.{Bytes}
use alarm_daemon.State.{AlarmStatus, armed, disarmed, is_armed, state_armed, state_disarmed}
use alarm_daemon.Persistence.Redb.{Redb}
use alarm_daemon.Audio.{AudioError}
use alarm_daemon.Audio.Player.{AlarmAudio}
use alarm_daemon.Sounds.Library.{FileSystem, SoundLibrary, resolve_path}
use alarm_daemon.Control.{
  BusError, invalid_args, failed, audio, duration_must_be_positive, cannot_snooze, Trigger, Control,
}
use alarm_daemon.Control.Methods.{arm, disarm, snooze}
use alarm_daemon.Control.Calls.{
  OneTrigger, signals_for, Scheduled, Refused, SnoozeAnswer, disarm_outcome, arm_outcome,
  snooze_outcome,
}
use alarm_daemon.Control.Spec.{
  Alarm, arms, snoozes, done, announcing, spec_scheduled, spec_off, spec_snooze, spec_call,
}
use alarm_daemon.Control.Requests.{finished, Pending, Represents, Agrees}

Pending-OneTrigger :
    (waits : Option (Bytes × ℕ)) (task : Option ℕ) (tasks : List Trigger)
    → Pending waits task tasks
    → OneTrigger task tasks
Pending-OneTrigger none task tasks e = inl e
Pending-OneTrigger (some (p, d)) task tasks (id, e, f) = inr (_, e, f)

announcing-signals_for :
    (from to : AlarmStatus) (l : List Bool)
    → signals_for from to ++ l ≡ announcing (is_armed from) (is_armed to) l
unfolding is_armed
announcing-signals_for armed armed l = refl
announcing-signals_for armed disarmed l = refl
announcing-signals_for disarmed armed l = refl
announcing-signals_for disarmed disarmed l = refl

module _ (R : Redb) (A : AlarmAudio) (library : SoundLibrary) (trigger_delay : ℕ) where
  module _ (a : Alarm) (c : Control R A) (h : Represents R A library trigger_delay a c) where
    pub one : OneTrigger c.trigger_task c.tasks
    one = Pending-OneTrigger a.waits_for c.trigger_task c.tasks h.pending

    announced_as :
        (to : AlarmStatus)
        → signals_for c.daemon.state.status to ++ c.signals
          ≡ announcing a.is_on (is_armed to) a.announced
    announced_as to = announcing-signals_for _ to _ ∙ cong2 h.is_on h.signals
      where
        cong2 :
            {b b' : Bool} {l l' : List Bool}
            → b ≡ b'
            → l ≡ l'
            → announcing b (is_armed to) l ≡ announcing b' (is_armed to) l'
        cong2 e f = rw (e, f) refl

    pub off-Agrees : Agrees R A library trigger_delay (spec_off a) (finished R A (disarm R A c))
    unfolding spec_off finished state_disarmed is_armed
    off-Agrees =
        let (r, tasks, task, same, m) = disarm_outcome R A c one in
        (
          record {
            is_on = ap (λ s. is_armed s.status) m.state;
            sound = ap (λ s. s.current_sound) m.state;
            pending = tasks;
            signals = m.signals ∙ announced_as disarmed;
            sounds = m.sounds ∙ h.sounds;
            delay = m.delay ∙ h.delay;
          },
          ap done r,
        )

    Scheduled-Agrees :
        (fs : FileSystem) (clock : Option ℕ) (id path : Bytes) (delay_ms : ℕ)
        (announced : List Bool) (l : List Bool) (x : Control R A × Result BusError (Unit {0}))
        → resolve_path fs library id ≡ ok path
        → announced ++ c.signals ≡ l
        → Scheduled R A fs clock id delay_ms announced c x
        → Agrees R A library trigger_delay
            (spec_scheduled id delay_ms l a (ok path))
            (finished R A x)
    unfolding spec_scheduled finished state_armed is_armed
    Scheduled-Agrees fs clock id path delay_ms announced l x found e
          (path', found', r, tasks, task, m) =
        let same : path' ≡ path =
          let g : ok path' ≡ ok path = sym found' ∙ (rw h.sounds found) in grind arith in
        (
          record {
            is_on = ap (λ s. is_armed s.status) m.state;
            sound = ap (λ s. s.current_sound) m.state;
            pending = (_, rw same at tasks, task);
            signals = m.signals ∙ e;
            sounds = m.sounds ∙ h.sounds;
            delay = m.delay ∙ h.delay;
          },
          ap done r,
        )

    Refused-Agrees :
        (e : BusError) (x : Control R A × Result BusError (Unit {0}))
        → Refused R A e c x
        → Agrees R A library trigger_delay (a, done (err e)) (finished R A x)
    unfolding finished
    Refused-Agrees e x (same, r) = (rw same h, ap done r)

    module _ (fs : FileSystem) (clock : Option ℕ) where
      -- A sound that the code looks up in its own library is the one of the alarm's.
      unresolved-Agrees :
          (id : Bytes) (delay_ms : ℕ) (l : List Bool) (x : Control R A × Result BusError (Unit {0}))
          (e : AudioError)
          → resolve_path fs c.sounds id ≡ err e
          → Refused R A (invalid_args (audio e)) c x
          → Agrees R A library trigger_delay
              (spec_scheduled id delay_ms l a (resolve_path fs library id))
              (finished R A x)
      unfolding spec_scheduled
      unresolved-Agrees id delay_ms l x e found r =
          let found' : resolve_path fs library id ≡ err e = rw h.sounds at found in
          rw found' (Refused-Agrees (invalid_args (audio e)) x r)

      resolved-Agrees :
          (id : Bytes) (delay delay_ms : ℕ) (announced l : List Bool)
          (x : Control R A × Result BusError (Unit {0}))
          → delay ≡ delay_ms
          → announced ++ c.signals ≡ l
          → Scheduled R A fs clock id delay announced c x
          → Agrees R A library trigger_delay
              (spec_scheduled id delay_ms l a (resolve_path fs library id))
              (finished R A x)
      resolved-Agrees id delay delay_ms announced l x d e s =
          let found : resolve_path fs library id ≡ ok s.0 = rw h.sounds at s.1 in
          rw found (Scheduled-Agrees fs clock id s.0 delay_ms announced l x found e (rw d at s))

      pub arm-Agrees :
          (id : Bytes)
          → Agrees R A library trigger_delay
              (spec_call library trigger_delay fs (arms id) a)
              (finished R A (arm R A fs clock id c))
      unfolding spec_call is_armed
      arm-Agrees id = elim (arm_outcome R A c one fs clock id) [
        | inl (e, found, r) ↦ unresolved-Agrees id trigger_delay _ (arm R A fs clock id c) e found r
        | inr s ↦
            resolved-Agrees id c.trigger_delay trigger_delay _ _ (arm R A fs clock id c) h.delay
              (announced_as armed) s
      ]

      snoozed-Agrees :
          (n : ℕ) (sound : Option Bytes) (x : Control R A × Result BusError (Unit {0}))
          → SnoozeAnswer R A c one fs clock n sound x
          → Agrees R A library trigger_delay
              (spec_snooze library trigger_delay fs n a sound)
              (finished R A x)
      unfolding spec_snooze
      snoozed-Agrees n none x r = Refused-Agrees (failed cannot_snooze) x r
      snoozed-Agrees n (some id) x (inl (e, found, r)) =
          unresolved-Agrees id (n * 1000) a.announced x e found r
      snoozed-Agrees n (some id) x (inr s) =
          resolved-Agrees id (n * 1000) (n * 1000) [] a.announced x refl h.signals s

      snoozed-Agrees_as :
          (n : ℕ) (sound sound' : Option Bytes) (x : Control R A × Result BusError (Unit {0}))
          → sound ≡ sound'
          → SnoozeAnswer R A c one fs clock n sound x
          → Agrees R A library trigger_delay
              (spec_snooze library trigger_delay fs n a sound')
              (finished R A x)
      snoozed-Agrees_as n sound sound' x e s = rw (sym e) (snoozed-Agrees n sound x s)

      pub snooze-Agrees :
          (n : ℕ)
          → Agrees R A library trigger_delay
              (spec_call library trigger_delay fs (snoozes n) a)
              (finished R A (snooze R A fs clock n c))
      unfolding spec_call
      snooze-Agrees n = elim (snooze_outcome R A c one fs clock n) [
        | inl (z, r) ↦
            let e : (n == 0) ≡ true = ground arith in
            rw e
              (Refused-Agrees (invalid_args duration_must_be_positive) (snooze R A fs clock n c) r)
        | inr (p, s) ↦
            let e : (n == 0) ≡ false = ground arith in
            rw e (snoozed-Agrees_as n _ a.sound (snooze R A fs clock n c) h.sound s)
      ]
