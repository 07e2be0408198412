-- ===== src/Control/Requests.antt =====
-- Lists of requests to the object of alarm-daemon/src/ipc/control.rs, answered one after the other,
-- and what it means that the object is in the state of an alarm of Control/Spec.
use alarm_daemon.Base.{ℕ, ◌≡◌, Option, none, some, List, [], ◌∷◌, Result}
use alarm_daemon.Base.Bytes.{Bytes}
use alarm_daemon.State.{is_armed}
use alarm_daemon.Persistence.Redb.{Redb}
use alarm_daemon.Audio.{AudioError}
use alarm_daemon.Audio.Decoded.{DecodedSound}
use alarm_daemon.Audio.Player.{AlarmAudio}
use alarm_daemon.Sounds.Library.{SoundLibrary}
use alarm_daemon.Control.{BusError, Trigger, Control, fire}
use alarm_daemon.Control.Methods.{arm, disarm, dismiss, snooze, status, current_sound, list_sounds}
use alarm_daemon.Control.Spec.{
  Alarm, Call, arms, disarms, dismisses, snoozes, asks_status, asks_sound, asks_sounds, time_passes,
  Answer, done, has_sound, lists, rings, nothing, Request, announcing, spec_scheduled, spec_off,
  spec_snooze, spec_ring, spec_sound, spec_sounds, spec_call, spec_run,
}
use alarm_daemon.Control.Spec

module _ (R : Redb) (A : AlarmAudio) where
  unfoldable pub finished : Control R A × Result BusError (Unit {0}) → Control R A × Answer
  finished (c, r) = (c, done r)

  unfoldable pub wake :
      (Bytes → Result AudioError DecodedSound) → Control R A → List Trigger → Control R A × Answer
  unfolding fire
  wake from_path c [] = (c, nothing)
  wake from_path c (t ∷ ts) = (fire R A from_path t c, rings t.sound_path)

  unfoldable pub answer_call : Request → Call → Control R A → Control R A × Answer
  unfolding finished arm disarm dismiss snooze wake list_sounds
  answer_call q (arms id) c = finished (arm R A q.files q.clock id c)
  answer_call q disarms c = finished (disarm R A c)
  answer_call q dismisses c = finished (dismiss R A c)
  answer_call q (snoozes n) c = finished (snooze R A q.files q.clock n c)
  answer_call q asks_status c = (c, Spec.is_on (status R A c))
  answer_call q asks_sound c = (c, has_sound (current_sound R A c))
  answer_call q asks_sounds c = (c, lists (list_sounds R A q.files c))
  answer_call q time_passes c = wake q.from_path c c.tasks

  unfoldable pub answer_run : List Request → Control R A → Control R A × List Answer
  unfolding answer_call
  answer_run [] c = (c, [])
  answer_run (q ∷ qs) c =
      let (c', x) = answer_call q q.call c in let (c'', xs) = answer_run qs c' in (c'', x ∷ xs)

abbrev pub Pending : Option (Bytes × ℕ) → Option ℕ → List Trigger → Type 0
Pending none task tasks = tasks ≡ []
Pending (some (path, delay_ms)) task tasks =
    (id : ℕ) × (tasks ≡ record { id = id; sound_path = path; delay_ms = delay_ms } ∷ [])
    × (task ≡ some id)

module _ (R : Redb) (A : AlarmAudio) (library : SoundLibrary) (trigger_delay : ℕ) where
  -- The control object is in the alarm's state.
  pub record Represents (a : Alarm) (c : Control R A) : Type 0 where
    pub is_on : is_armed c.daemon.state.status ≡ a.is_on
    pub sound : c.daemon.state.current_sound ≡ a.sound
    pub pending : Pending a.waits_for c.trigger_task c.tasks
    pub signals : c.signals ≡ a.announced
    pub sounds : c.sounds ≡ library
    pub delay : c.trigger_delay ≡ trigger_delay

  -- The answers are the same, and so are the states.
  abbrev pub Agrees : Alarm × Answer → Control R A × Answer → Type 0
  Agrees (a, y) (c, x) = Represents a c × (x ≡ y)
