-- ===== src/Examples.antt =====
-- Concrete data on which the definitions are run: a store that has no file yet, an alarm, a library
-- with one sound, and a daemon without a store.
pub mod Storage
pub mod Daemons
pub mod Calls
pub mod Listing
pub mod Sound
pub mod Races
pub mod Output
pub mod Served
pub mod Client
pub mod Registry
use alarm_daemon.Base.{
  Bool, true, false, Option, none, some, List, [], ◌∷◌, ◌++◌, Result, ok, err, String,
  if◌then◌else◌, ℕ,
}
use alarm_daemon.Base.Bytes.{Bytes, ascii, bytes_eq}
use alarm_daemon.Base.Int.{pos}
use alarm_daemon.State.{PersistedState}
use alarm_daemon.Persistence.Store.{Store, from_path}
use alarm_daemon.Persistence.Memory.{memory}
use alarm_daemon.Sounds.Library.{FileSystem, SoundLibrary}
use alarm_daemon.Daemon.{AlarmDaemon, without_persistence}
use alarm_daemon.Audio.Player.{fake_audio}
use alarm_daemon.Control.{Control, new_control}

abbrev pub new_store : Store memory
new_store = from_path memory (ascii "alarm.redb") (λ f. none)

abbrev pub bell : Bytes
bell = ascii "builtin:bell"

abbrev pub bell_state : PersistedState
bell_state = record { armed = true; next_fire_unix_ms = some (pos 1000); current_sound = some bell }

abbrev pub library : SoundLibrary
library = record { builtin_dir = ascii "/s"; custom_dir = ascii "/c" }

abbrev entries_of : Bool → Option (List (Result String Bytes))
entries_of true = some (ok (ascii "bell.wav") ∷ [])
entries_of false = some []

-- One file, `/s/bell.wav`, and one outside the library, `/x.wav`.
abbrev pub files : FileSystem
files = record {
  exists =
      λ path. if bytes_eq path (ascii "/s/bell.wav") then true else bytes_eq path (ascii "/x.wav");
  read_dir = λ dir. entries_of (bytes_eq dir (ascii "/s"));
  metadata_len = λ path. ok 44;
  create_dir_all = λ path. ok tt;
}

abbrev pub idle_daemon : AlarmDaemon memory
idle_daemon = without_persistence memory

abbrev pub idle_control : Control memory fake_audio
idle_control = new_control memory fake_audio idle_daemon library [] none
