-- ===== src/Startup.antt =====
-- alarm-daemon/src/main.rs with logging.rs: how the process starts, says that it is ready, and
-- ends. The bus, the audio output and the signals of the system are parameters.
pub mod Outcome
pub mod Reboot
pub mod Missed
use alarm_daemon.Base.{
  ℕ, Bool, true, false, Option, none, some, List, [], ◌∷◌, ◌++◌, String, Result, ok, err, map_err,
  ◌>>=◌, if◌then◌else◌,
}
use alarm_daemon.Base.Bytes.{Bytes, ascii}
use alarm_daemon.State.{StartupRecovery}
use alarm_daemon.Persistence.Codec.{PersistenceError}
use alarm_daemon.Persistence.Redb.{Redb}
use alarm_daemon.Persistence.Store.{Store, from_path}
use alarm_daemon.Daemon.{AlarmDaemon, new_persistent}
use alarm_daemon.Audio.{AudioError}
use alarm_daemon.Audio.Player.{AlarmAudio}
use alarm_daemon.Sounds.Library.{FileSystem, SoundLibrary, from_env, ensure_dirs}
use alarm_daemon.Control.{Control, new_control}
use alarm_daemon.Config.{BusKind, ConfigError, parse, default_db_path}
use alarm_daemon.Systemd.{spawn_watchdog}

-- The text of `AlarmError::Config`, by what it was made from.
pub data ConfigText : Type 0 where
  bus_kind : ConfigError → ConfigText
  persistence : PersistenceError → ConfigText
  sound_dirs audio_output : AudioError → ConfigText

pub data AlarmError : Type 0 where
  dbus dbus_name io : String → AlarmError
  config : ConfigText → AlarmError

pub data LogBackend : Type 0 where
  journald stderr : LogBackend

-- `logging::init`, on whether `INVOCATION_ID` is set and what opening the journal answers.
unfoldable pub init : Bool → Result String (Unit {0}) → LogBackend
init false layer = stderr
init true (ok _) = journald
init true (err e) = stderr

abbrev pub bus_name : Bytes
bus_name = ascii "org.helm.AlarmDaemon"

abbrev pub object_path : Bytes
object_path = ascii "/org/helm/AlarmDaemon"

abbrev pub control_interface : Bytes
control_interface = ascii "org.helm.AlarmDaemon.Control"

-- The variables of the environment that the process reads, if they are set and text, the delay if
-- it is a `u64`.
pub record Environment : Type 0 where
  pub bus : Option Bytes
  pub db_path : Option Bytes
  pub home : Option Bytes
  pub sound_dir : Option Bytes
  pub custom_sound_dir : Option Bytes
  pub trigger_delay_ms : Option ℕ

-- `std::env::var("ALARM_DAEMON_DB_PATH")`, or the default of the bus.
unfoldable pub db_path_of : Environment → BusKind → Bytes
unfolding default_db_path
db_path_of env kind = elim env.db_path [ some path ↦ path | none ↦ default_db_path kind env.home ]

unfoldable pub sounds_of : Environment → SoundLibrary
unfolding from_env
sounds_of env = from_env env.sound_dir env.custom_sound_dir

-- What `run` tells the service manager, and the task that tells it again at each end of a period.
pub data Notification : Type 0 where
  ready stopping : Notification
  pings_each : ℕ → Notification

abbrev pub watchdog_of : Option ℕ → List Notification
watchdog_of none = []
watchdog_of (some period) = pings_each period ∷ []

pub data ExitCode : Type 0 where
  success failure : ExitCode

-- `main`, on what `run` answered.
unfoldable pub exit_code : Result AlarmError (Unit {0}) → ExitCode
exit_code (ok _) = success
exit_code (err e) = failure

module _ (R : Redb) (A : AlarmAudio) where
  -- `zbus::connection::Builder`, for an object that serves the calls.
  pub record Bus : Type 1 where
    pub Builder : Type 0
    pub Connection : Type 0
    pub builder : BusKind → Result String Builder
    pub name : Bytes → Builder → Result String Builder
    pub serve_at : Bytes → Control R A → Builder → Result String Builder
    pub build : Builder → Result String Connection

  -- What the process meets while it starts.
  pub record System : Type 0 where
    pub world : R.World
    pub clock : Option ℕ
    pub files : FileSystem
    pub output : Result AudioError A.Player

  -- The process once it serves the bus.
  pub record Ready (B : Bus) : Type 0 where
    pub kind : BusKind
    pub recovery : StartupRecovery
    pub control : Control R A
    pub connection : B.Connection

  unfoldable pub open_daemon :
      Environment → System → BusKind → Result AlarmError (AlarmDaemon R × StartupRecovery)
  unfolding db_path_of new_persistent
  open_daemon env system kind =
      map_err (new_persistent R system.clock (from_path R (db_path_of env kind) system.world))
        (λ e. config (persistence e))

  module _ (B : Bus) where
    unfoldable pub connect : BusKind → Control R A → Result AlarmError B.Connection
    connect kind control =
        map_err
          (do
            builder ← B.builder kind
            named ← B.name bus_name builder
            served ← B.serve_at object_path control named
            B.build served)
          dbus

    -- `run` up to the log line that the daemon is ready.
    unfoldable pub start : Environment → System → Result AlarmError (Ready B)
    unfolding open_daemon sounds_of connect ensure_dirs new_control
    start env system = do
      kind ← map_err (parse env.bus) (λ e. config (bus_kind e))
      opened ← open_daemon env system kind
      dirs ← map_err (ensure_dirs system.files (sounds_of env)) (λ e. config (sound_dirs e))
      player ← map_err system.output (λ e. config (audio_output e))
      let control = new_control R A opened.0 (sounds_of env) player env.trigger_delay_ms
      connection ← connect kind control
      ok (record { kind = kind; recovery = opened.1; control = control; connection = connection })

    -- `wait_for_shutdown`, on what installing the two handlers answers and which signal comes
    -- first.
    unfoldable pub wait_for_shutdown :
        (sigint sigterm : Result String (Unit {0})) (interrupted : Bool) → Result AlarmError Bytes
    wait_for_shutdown sigint sigterm interrupted = do
      a ← map_err sigint io
      b ← map_err sigterm io
      ok (if interrupted then ascii "SIGINT" else ascii "SIGTERM")

    -- The end of `run`: the notifications, in their order.
    unfoldable pub shut_down :
        List Notification
        → Result AlarmError Bytes
        → List Notification × Result AlarmError (Unit {0})
    shut_down sent (ok signal) = (sent ++ stopping ∷ [], ok tt)
    shut_down sent (err e) = (sent, err e)

    -- `run` behind `start`: ready, the task that pings, and the wait for a signal.
    unfoldable pub run_ready :
        (watchdog_period : Option ℕ) (signal : Result AlarmError Bytes)
        → Result AlarmError (Ready B)
        → List Notification × Result AlarmError (Unit {0})
    unfolding shut_down
    run_ready watchdog_period signal (err e) = ([], err e)
    run_ready watchdog_period signal (ok r) =
        shut_down (ready ∷ watchdog_of (spawn_watchdog watchdog_period)) signal

    unfoldable pub run :
        Environment
        → System
        → (watchdog_period : Option ℕ) (signal : Result AlarmError Bytes)
        → List Notification × Result AlarmError (Unit {0})
    unfolding run_ready
    run env system watchdog_period signal = run_ready watchdog_period signal (start env system)
