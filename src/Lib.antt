-- ===== src/Lib.antt =====
-- The alarm daemon, over its Rust sources: the crate alarm-daemon and the client crate beside it.
--
-- The daemon keeps one alarm. A client on the bus arms it for a sound, snoozes, dismisses or disarms
-- it; a task sleeps until the alarm is due and plays the sound; each change of the state is written
-- to a database file, and the next process starts from it.
--
-- The parts, and the files that model them:
--   Base            lists, results, integers of 64 bits, bytes and UTF-8, as the sources use them
--   State           alarm-daemon/src/daemon: alarm_status.rs, state.rs, transition.rs and the records
--                   of persistence/; a Rust enum is a data type, a struct a record
--   Persistence     alarm-daemon/src/daemon/persistence/mod.rs: Codec is the layout of the stored
--                   bytes, Store the file with its cached handle; Redb is the database, a parameter
--   Daemon          alarm-daemon/src/daemon/alarm_daemon.rs: the state and its transitions. Races splits
--                   a transition at the point where the lock is released
--   Audio           alarm-daemon/src/audio: Profile, Ramp (the ramp of the test build), Decoded,
--                   Playback (fill_f32 of cpal_audio.rs), Callback (the closure around it), Worker
--                   (a round of its loop; Main is the thread's life), Player (the trait and the fake)
--   Sounds          alarm-daemon/src/audio/sounds.rs: Library; Registry is what the test build adds to
--                   it, Names the ids made there; Paths is what it uses of std::path
--   Control         alarm-daemon/src/ipc/control.rs: the object on the bus. Spec is the alarm that its
--                   clients see, and Requests says when the object is in that alarm's state. Races
--                   splits the calls at their await points, Overlaps and Orphans follow two calls
--                   that overlap, and Heard and Device an alarm to the buffers of the device
--   Config, Systemd alarm-daemon/src/config.rs and systemd.rs
--   Startup         alarm-daemon/src/main.rs and logging.rs, which put the parts together; Reboot starts
--                   the process anew on its file, and Missed is the flag it then logs
--   Client          alarm-daemon-client/src/client.rs, which calls the methods of Control over a bus;
--                   Calls is a client's calls one after the other, and what it may hear of the alarm
--   Examples        the definitions and theorems on concrete data
--
-- How state is kept: a method of a shared object takes the object's record and returns the new one
-- beside its result. Text and paths are lists of bytes, an f32 is its bit pattern, a duration its
-- milliseconds or nanoseconds. Loops are structural recursion (over packets, entries, frames and
-- requests); the only fuel is that of the hexadecimal digits of an id, 32 as for every number of
-- 128 bits.
--
-- Code outside the repository is a parameter: the database (Persistence/Redb, with what it
-- documents as the laws of IsTransactional), the file system (Sounds.Library.FileSystem, and
-- Sounds.Registry.Files where it is written, with the laws of IsFileSystem), the audio output
-- (Audio.Player.AlarmAudio), the operations on f64 and the product of f32 (Audio.Playback.Floats),
-- the conversion of a sample to the device's own type (Audio.Callback), the demuxer and the decoder
-- (Audio.Decoded.Format), the bus, the clock and the environment's variables. Persistence/Memory
-- has databases that meet the laws, Sounds/Memory a file system.
--
-- Not modelled: the text of log lines, the D-Bus transport and the XML of the interface, the code
-- that only tests build to make fixtures, and a poisoned lock, which the sources ignore. A call of
-- Control runs without interruption in Control and Control.Runs, and step by step in Control.Races.
-- Durations are exact: the panic of Duration::from_secs_f64 after 2^64 seconds of playback is not
-- modelled.
pub mod Base
pub mod State
pub mod Persistence
pub mod Daemon
pub mod Audio
pub mod Sounds
pub mod Control
pub mod Config
pub mod Systemd
pub mod Startup
pub mod Client
pub mod Examples
