-- ===== src/Control/Refines.antt =====
-- alarm-daemon/src/ipc/control.rs as an alarm of Control/Spec: the calls that a client makes, in
-- their order, and the moments at which the trigger task wakes.
use alarm_daemon.Base.{
  ℕ, ◌≡◌, refl, ap, ◌∙◌, Option, none, some, List, [], ◌∷◌, arith, Result, ok, err,
}
use alarm_daemon.Base.Bytes.{Bytes}
use alarm_daemon.Persistence.Redb.{Redb}
use alarm_daemon.Audio.{AudioError}
use alarm_daemon.Audio.Decoded.{DecodedSound}
use alarm_daemon.Audio.Player.{AlarmAudio}
use alarm_daemon.Sounds.Library.{FileSystem, SoundLibrary, SoundSummary, resolve_path}
use alarm_daemon.Sounds.Library
use alarm_daemon.Control.{Trigger, Control, discard, fire}
use alarm_daemon.Control.Methods.{list_sounds, or_empty, listed}
use alarm_daemon.Control.Calls.{discard-one}
use alarm_daemon.Control.Spec.{
  Alarm, Call, arms, disarms, dismisses, snoozes, asks_status, asks_sound, asks_sounds, time_passes,
  Answer, done, has_sound, lists, rings, nothing, Request, announcing, spec_scheduled, spec_off,
  spec_snooze, spec_ring, spec_sound, spec_sounds, spec_call, spec_run,
}
use alarm_daemon.Control.Spec
use alarm_daemon.Control.Requests.{wake, answer_call, answer_run, Pending, Represents, Agrees}
use alarm_daemon.Control.Agrees.{off-Agrees, arm-Agrees, snooze-Agrees}

module _ (R : Redb) (A : AlarmAudio) (library : SoundLibrary) (trigger_delay : ℕ) where
  module _ (a : Alarm) (c : Control R A) (h : Represents R A library trigger_delay a c) where
    wake-Agrees :
        (from_path : Bytes → Result AudioError DecodedSound) (waits : Option (Bytes × ℕ))
        (tasks : List Trigger)
        → a.waits_for ≡ waits
        → c.tasks ≡ tasks
        → Pending waits c.trigger_task tasks
        → Agrees R A library trigger_delay (spec_ring a waits) (wake R A from_path c tasks)
    unfolding spec_ring wake fire
    wake-Agrees from_path none [] e f p = (h, refl)
    wake-Agrees from_path none (t ∷ ts) e f p = absurd (ground arith)
    wake-Agrees from_path (some (path, d)) [] e f (id, p, q) = absurd (ground arith)
    wake-Agrees from_path (some (path, d)) (t ∷ ts) e f (id, p, q) =
        let u : Trigger = record { id = id; sound_path = path; delay_ms = d } in
        let same : t ≡ u = grind arith in
        let none_left : discard t.id c.tasks ≡ [] = rw (f ∙ p, same) (discard-one u) in
        (
          record {
            is_on = h.is_on;
            sound = h.sound;
            pending = none_left;
            signals = h.signals;
            sounds = h.sounds;
            delay = h.delay;
          },
          ap (λ v. rings v.sound_path) same,
        )

    pub call-Agrees :
        (q : Request) (call : Call)
        → Agrees R A library trigger_delay
            (spec_call library trigger_delay q.files call a)
            (answer_call R A q call c)
    unfolding spec_call answer_call list_sounds
    call-Agrees q (arms id) = arm-Agrees R A library trigger_delay a c h q.files q.clock id
    call-Agrees q disarms = off-Agrees R A library trigger_delay a c h
    call-Agrees q dismisses = off-Agrees R A library trigger_delay a c h
    call-Agrees q (snoozes n) = snooze-Agrees R A library trigger_delay a c h q.files q.clock n
    call-Agrees q asks_status = (h, ap (λ b. Spec.is_on b) h.is_on)
    call-Agrees q asks_sound = (h, ap has_sound (sound_as _ _ h.sound))
      where
        sound_as : (s t : Option Bytes) → s ≡ t → or_empty R A s ≡ spec_sound t
        sound_as s none e = rw e refl
        sound_as s (some id) e = rw e refl
    call-Agrees q asks_sounds =
        (h, rw h.sounds (ap lists (listed_as (Library.list_sounds q.files library))))
      where
        listed_as : (r : Result AudioError (List SoundSummary)) → listed r ≡ spec_sounds r
        listed_as (ok l) = refl
        listed_as (err e) = refl
    call-Agrees q time_passes = wake-Agrees q.from_path a.waits_for c.tasks refl refl h.pending

  -- Where the control object represents an alarm, any calls, in any order with the moments at which
  -- the trigger wakes, are answered as that alarm answers them, and leave a control object that
  -- represents the alarm they leave: the audio, the store, the task handles and the clock make no
  -- difference to a client whose calls do not overlap.
  pub answer_run-spec_run :
      (requests : List Request) (a : Alarm) (c : Control R A)
      → Represents R A library trigger_delay a c
      → (let (a', answers) = spec_run library trigger_delay requests a in
          let (c', given) = answer_run R A requests c in
          Represents R A library trigger_delay a' c' × (given ≡ answers))
  unfolding spec_run answer_run
  answer_run-spec_run [] a c h = (h, refl)
  answer_run-spec_run (q ∷ qs) a c h =
      let (h', e) = call-Agrees a c h q q.call in
      let (h'', es) = answer_run-spec_run qs _ _ h' in (h'', rw (e, es) refl)
