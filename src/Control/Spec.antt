-- ===== src/Control/Spec.antt =====
-- What the interface of alarm-daemon/src/ipc/control.rs promises its clients: one alarm, which is
-- armed or not, has a sound and at most one time to wait for, and says when it changes. There are
-- no tasks, handles, stores or players here.
use alarm_daemon.Base.{
  ℕ, ◌*◌, Bool, true, false, Option, none, some, List, [], ◌∷◌, ◌==◌, if◌then◌else◌, Result, ok,
  err, map,
}
use alarm_daemon.Base.Bytes.{Bytes}
use alarm_daemon.Audio.{AudioError}
use alarm_daemon.Audio.Decoded.{DecodedSound}
use alarm_daemon.Sounds.Library.{FileSystem, SoundLibrary, SoundSummary, resolve_path, list_sounds}
use alarm_daemon.Control.{
  BusError, invalid_args, failed, audio, duration_must_be_positive, cannot_snooze,
}

-- `waits_for` is the file to play and the delay before it; the announcements are newest first.
pub record Alarm : Type 0 where
  pub is_on : Bool
  pub sound : Option Bytes
  pub waits_for : Option (Bytes × ℕ)
  pub announced : List Bool

-- A call, or the end of the time that the alarm waits for.
pub data Call : Type 0 where
  arms : Bytes → Call
  disarms dismisses : Call
  snoozes : ℕ → Call
  asks_status asks_sound asks_sounds : Call
  time_passes : Call

pub data Answer : Type 0 where
  done : Result BusError (Unit {0}) → Answer
  is_on : Bool → Answer
  has_sound : Bytes → Answer
  lists : Result BusError (List Bytes) → Answer
  rings : Bytes → Answer
  nothing : Answer

-- A call with the files, the clock and the decoder that it meets.
pub record Request : Type 0 where
  pub files : FileSystem
  pub clock : Option ℕ
  pub from_path : Bytes → Result AudioError DecodedSound
  pub call : Call

abbrev pub announcing : (was now : Bool) → List Bool → List Bool
announcing true true l = l
announcing false false l = l
announcing true false l = false ∷ l
announcing false true l = true ∷ l

unfoldable pub spec_scheduled :
    (id : Bytes) (delay_ms : ℕ) (announced : List Bool)
    → Alarm
    → Result AudioError Bytes
    → Alarm × Answer
spec_scheduled id delay_ms announced a (err e) = (a, done (err (invalid_args (audio e))))
spec_scheduled id delay_ms announced a (ok path) = (
  record {
    is_on = true;
    sound = some id;
    waits_for = some (path, delay_ms);
    announced = announced;
  },
  done (ok tt),
)

unfoldable pub spec_off : Alarm → Alarm × Answer
spec_off a = (
  record {
    is_on = false;
    sound = none;
    waits_for = none;
    announced = announcing a.is_on false a.announced;
  },
  done (ok tt),
)

abbrev pub spec_sound : Option Bytes → Bytes
spec_sound none = []
spec_sound (some id) = id

abbrev pub spec_sounds : Result AudioError (List SoundSummary) → Result BusError (List Bytes)
spec_sounds (ok sounds) = ok (map (λ s. s.id) sounds)
spec_sounds (err e) = err (failed (audio e))

unfoldable pub spec_ring : Alarm → Option (Bytes × ℕ) → Alarm × Answer
spec_ring a none = (a, nothing)
spec_ring a (some (path, delay_ms)) = (
  record { is_on = a.is_on; sound = a.sound; waits_for = none; announced = a.announced },
  rings path,
)

module _ (library : SoundLibrary) (trigger_delay : ℕ) where
  unfoldable pub spec_snooze : FileSystem → ℕ → Alarm → Option Bytes → Alarm × Answer
  unfolding spec_scheduled
  spec_snooze fs duration_s a none = (a, done (err (failed cannot_snooze)))
  spec_snooze fs duration_s a (some id) =
      spec_scheduled id (duration_s * 1000) a.announced a (resolve_path fs library id)

  unfoldable pub spec_call : FileSystem → Call → Alarm → Alarm × Answer
  unfolding spec_scheduled spec_off spec_snooze spec_ring
  spec_call fs (arms id) a =
      spec_scheduled id trigger_delay (announcing a.is_on true a.announced) a
        (resolve_path fs library id)
  spec_call fs disarms a = spec_off a
  spec_call fs dismisses a = spec_off a
  spec_call fs (snoozes n) a =
      if n == 0
      then (a, done (err (invalid_args duration_must_be_positive)))
      else spec_snooze fs n a a.sound
  spec_call fs asks_status a = (a, is_on a.is_on)
  spec_call fs asks_sound a = (a, has_sound (spec_sound a.sound))
  spec_call fs asks_sounds a = (a, lists (spec_sounds (list_sounds fs library)))
  spec_call fs time_passes a = spec_ring a a.waits_for

  unfoldable pub spec_run : List Request → Alarm → Alarm × List Answer
  unfolding spec_call
  spec_run [] a = (a, [])
  spec_run (r ∷ rs) a =
      let (a', x) = spec_call r.files r.call a in let (a'', xs) = spec_run rs a' in (a'', x ∷ xs)
