-- ===== src/Control/Methods.antt =====
-- The methods of the interface `org.helm.AlarmDaemon.Control`: alarm-daemon/src/ipc/control.rs.
use alarm_daemon.Base.{
  ℕ, ◌*◌, Bool, Option, none, some, List, [], ◌==◌, if◌then◌else◌, Result, ok, err,
}
use alarm_daemon.Base.Bytes.{Bytes}
use alarm_daemon.State.{is_armed}
use alarm_daemon.Persistence.Redb.{Redb}
use alarm_daemon.Daemon
use alarm_daemon.Audio.{AudioError}
use alarm_daemon.Audio.Player.{AlarmAudio}
use alarm_daemon.Sounds.Library
use alarm_daemon.Sounds.Library.{ids}
use alarm_daemon.Control.{
  BusError, invalid_args, failed, audio, duration_must_be_positive, cannot_snooze, Control,
  announce, silent, schedule_trigger, schedule_trigger_with_delay, stand_down,
}

abbrev pub listed : Result AudioError (List Library.SoundSummary) → Result BusError (List Bytes)
listed (ok sounds) = ok (ids sounds)
listed (err e) = err (failed (audio e))

module _ (R : Redb) (A : AlarmAudio) where
  unfoldable pub arm :
      Library.FileSystem → Option ℕ → Bytes → Control R A → Control R A × Result BusError (Unit {0})
  unfolding announce schedule_trigger
  arm fs clock sound_id c = announce R A (schedule_trigger R A fs clock sound_id c)

  unfoldable pub disarm : Control R A → Control R A × Result BusError (Unit {0})
  unfolding stand_down
  disarm = stand_down R A

  unfoldable pub dismiss : Control R A → Control R A × Result BusError (Unit {0})
  unfolding stand_down
  dismiss = stand_down R A

  unfoldable pub snooze_sound :
      Library.FileSystem
      → Option ℕ
      → ℕ
      → Control R A
      → Option Bytes
      → Control R A × Result BusError (Unit {0})
  unfolding silent schedule_trigger_with_delay
  snooze_sound fs clock duration_s c none = (c, err (failed cannot_snooze))
  snooze_sound fs clock duration_s c (some sound_id) =
      silent R A (schedule_trigger_with_delay R A fs clock sound_id (duration_s * 1000) c)

  unfoldable pub snooze :
      Library.FileSystem → Option ℕ → ℕ → Control R A → Control R A × Result BusError (Unit {0})
  unfolding snooze_sound
  snooze fs clock duration_s c =
      if duration_s == 0
      then (c, err (invalid_args duration_must_be_positive))
      else snooze_sound fs clock duration_s c (Daemon.current_sound R c.daemon)

  abbrev pub status : Control R A → Bool
  status c = is_armed (Daemon.status R c.daemon)

  -- An absent sound is the empty string.
  abbrev pub or_empty : Option Bytes → Bytes
  or_empty none = []
  or_empty (some id) = id

  abbrev pub current_sound : Control R A → Bytes
  current_sound c = or_empty (Daemon.current_sound R c.daemon)

  unfoldable pub list_sounds : Library.FileSystem → Control R A → Result BusError (List Bytes)
  list_sounds fs c = listed (Library.list_sounds fs c.sounds)
