-- ===== src/Examples/Served.antt =====
-- Requests, the start of the process and the client on concrete data.
use alarm_daemon.Base.{ℕ, ◌≡◌, refl, false, none, some, List, [], ◌∷◌, ok, err, arith, true, ◌↔◌}
use alarm_daemon.State.{is_armed, state_disarmed}
use alarm_daemon.Audio.{no_device}
use alarm_daemon.Audio.Player.{fake_audio}
use alarm_daemon.Persistence.Memory.{memory}
use alarm_daemon.Control.{new_control, trigger_delay_of}
use alarm_daemon.Control.Spec.{
  Alarm, Call, arms, disarms, snoozes, asks_status, asks_sound, time_passes, Request, spec_run,
}
use alarm_daemon.Control.Requests.{answer_run, Represents}
use alarm_daemon.Control.Refines.{answer_run-spec_run}
use alarm_daemon.Base.{All, Option}
use alarm_daemon.Base.Bytes.{Bytes, ascii, bytes_eq}
use alarm_daemon.Base.Utf8.{is_utf8}
use alarm_daemon.State.{State, to_persisted}
use alarm_daemon.Persistence.Memory.{memory-IsTransactional, memory_sound}
use alarm_daemon.Persistence.Store.{Store, load, evaluate_recovery}
use alarm_daemon.Daemon.{new_persistent}
use alarm_daemon.Daemon.Restart.{OnDisk, started-OnDisk}
use alarm_daemon.Sounds.Library.{ensure_dirs}
use alarm_daemon.Control.{Control}
use alarm_daemon.Control.Kept.{AsksFit, IsKept, answer_run-IsKept}
use alarm_daemon.Config.{session, parse}
use alarm_daemon.Startup.{Environment, Bus, System, db_path_of, sounds_of, connect, start, Ready}
use alarm_daemon.Base.{◌<◌, ◌≤◌, ◌+◌}
use alarm_daemon.Startup.Missed.{armed_once, answers_of, missed_iff}
use alarm_daemon.Persistence.Laws.{SoundFits}
use alarm_daemon.Sounds.Library.{resolve_path}
use alarm_daemon.Sounds.Paths.{join}
use alarm_daemon.Systemd.{watchdog_loop, due, ping_period_for, watchdog_loop-fed}
use alarm_daemon.Startup.Reboot.{IsServiceable, StartsOn, start-resumes, resumed}
use alarm_daemon.Examples.{bell, library, files, idle_control, new_store}
use alarm_daemon.Examples.Daemons.{first_daemon}

abbrev off : Alarm
off = record { is_on = false; sound = none; waits_for = none; announced = [] }

idle-Represents : Represents memory fake_audio library 3000 off idle_control
unfolding new_control trigger_delay_of is_armed state_disarmed
idle-Represents = record {
  is_on = refl;
  sound = refl;
  pending = refl;
  signals = refl;
  sounds = refl;
  delay = refl;
}

abbrev asked : Call → Request
asked call = record {
  files = files;
  clock = some 5;
  from_path = λ path. err no_device;
  call = call;
}

abbrev evening : List Request
evening =
    asked (arms bell)
    ∷ asked asks_status
    ∷ asked (snoozes 60)
    ∷ asked time_passes
    ∷ asked asks_sound
    ∷ asked disarms
    ∷ []

answer_run-spec_run_example :
    let (a', answers) = spec_run library 3000 evening off in
    let (c', given) = answer_run memory fake_audio evening idle_control in
    Represents memory fake_audio library 3000 a' c' × (given ≡ answers)
answer_run-spec_run_example =
    answer_run-spec_run memory fake_audio library 3000 evening off idle_control idle-Represents

-- The daemon below serves from its own file, and is asked for the sounds above.
abbrev filed_control : Control memory fake_audio
filed_control = new_control memory fake_audio first_daemon library [] none

filed-Represents : Represents memory fake_audio library 3000 off filed_control
unfolding new_control trigger_delay_of is_armed state_disarmed
filed-Represents = record {
  is_on = refl;
  sound = refl;
  pending = refl;
  signals = refl;
  sounds = refl;
  delay = refl;
}

first_start :
    new_persistent memory (some 5) new_store
    ≡ ok (first_daemon, record { missed_while_down = false })
unfolding new_persistent load state_disarmed evaluate_recovery
first_start = refl

filed-IsKept : IsKept memory memory-IsTransactional memory_sound fake_audio filed_control.daemon
unfolding new_control to_persisted state_disarmed
filed-IsKept = record {
  on_disk =
      started-OnDisk memory memory-IsTransactional memory_sound (some 5) new_store first_daemon
        (record { missed_while_down = false }) tt first_start;
  storable = record { in_range = tt; sound_fits = tt };
}

bell_fits : All AsksFit evening
unfolding is_utf8
bell_fits = ((refl, omega arith), (tt, (tt, (tt, (tt, (tt, tt))))))

abbrev session_bus : Bus memory fake_audio
session_bus = record {
  Builder = Unit {0};
  Connection = Unit {0};
  builder = λ kind. ok tt;
  name = λ n b. ok tt;
  serve_at = λ path control b. ok tt;
  build = λ b. ok tt;
}

-- The process is started with the path of the store, in its world.
abbrev path_of : Option (Store memory) → Bytes
path_of none = []
path_of (some s) = s.path

abbrev world_of : Option (Store memory) → memory.World
world_of none = new_store.world
world_of (some s) = s.world

abbrev environment : Option (Store memory) → Environment
environment p = record {
  bus = none;
  db_path = some (path_of p);
  home = none;
  sound_dir = some (ascii "/s");
  custom_sound_dir = some (ascii "/c");
  trigger_delay_ms = none;
}

abbrev rebooted : Option (Store memory) → System memory fake_audio
rebooted p = record { world = world_of p; clock = some 90000; files = files; output = ok [] }

serviceable :
    (p : Option (Store memory))
    → IsServiceable memory fake_audio session_bus (environment p) (rebooted p) session
unfolding parse ensure_dirs connect
serviceable p = record {
  named = refl;
  dirs = refl;
  player = [];
  spawned = refl;
  connected = λ control. (tt, refl);
}

starts_on :
    (state : State) (p : Option (Store memory))
    → OnDisk memory memory-IsTransactional memory_sound state p
    → StartsOn memory fake_audio session_bus (environment p) (rebooted p) p session
unfolding db_path_of
starts_on state none on = on
starts_on state (some s) on = (refl, refl)

abbrev left : Control memory fake_audio
left = (answer_run memory fake_audio evening filed_control).0

start-resumes_example :
    (r : Ready memory fake_audio session_bus) × (start memory fake_audio session_bus
        (environment left.daemon.persistence)
        (rebooted left.daemon.persistence)
      ≡ ok r)
    × Represents memory fake_audio library 3000
        (resumed (spec_run library 3000 evening off).0)
        r.control
    × (r.recovery ≡ evaluate_recovery (some 90000) (to_persisted left.daemon.state))
unfolding trigger_delay_of sounds_of
start-resumes_example =
    start-resumes memory fake_audio session_bus (environment left.daemon.persistence)
      (rebooted left.daemon.persistence) memory-IsTransactional memory_sound library 3000 evening
      off filed_control session filed-Represents filed-IsKept bell_fits
      (starts_on left.daemon.state left.daemon.persistence
        (answer_run-IsKept memory memory-IsTransactional memory_sound fake_audio evening
          filed_control bell_fits filed-IsKept).on_disk)
      (serviceable left.daemon.persistence)

abbrev ten_seconds : ℕ
ten_seconds = 10000000000

watchdog_loop-fed_example :
    (n : ℕ) × (3 < watchdog_loop (due 0 (ping_period_for ten_seconds)) n)
    × (watchdog_loop (due 0 (ping_period_for ten_seconds)) n ≤ 3 + ten_seconds)
watchdog_loop-fed_example =
    watchdog_loop-fed ten_seconds 0 (due 0 (ping_period_for ten_seconds)) (omega arith)
      (λ n. omega arith) (λ n. omega arith) 3 (omega arith)

-- The alarm has been armed at 5, has rung, and is found by a process that starts at 90000.
abbrev rung : Control memory fake_audio
rung =
    (answer_run memory fake_audio (armed_once files 5 (λ path. err no_device) bell true)
      filed_control).0

bell_storable : SoundFits (some bell)
unfolding is_utf8
bell_storable = (refl, omega arith)

rung_fits : All AsksFit (armed_once files 5 (λ path. err no_device) bell true)
rung_fits = (bell_storable, (tt, tt))

bell_found : resolve_path files library bell ≡ ok (ascii "/s/bell.wav")
unfolding resolve_path bytes_eq join
bell_found = refl

missed_iff_example :
    ((answer_run memory fake_audio
        (armed_once files 5 (λ path. err no_device) bell true)
        filed_control).1
      ≡ answers_of (ascii "/s/bell.wav") true)
    × ((r : Ready memory fake_audio session_bus) × (start memory fake_audio session_bus
            (environment rung.daemon.persistence)
            (rebooted rung.daemon.persistence)
          ≡ ok r)
        × ((r.recovery.missed_while_down ≡ true) ↔ (5 + 3000 ≤ 90000)))
missed_iff_example =
    missed_iff memory fake_audio session_bus (environment rung.daemon.persistence)
      (rebooted rung.daemon.persistence) memory-IsTransactional memory_sound library 3000 off
      filed_control session files 5 90000 (λ path. err no_device) bell (ascii "/s/bell.wav") true
      filed-Represents filed-IsKept bell_found bell_storable (omega arith) (omega arith) refl
      (starts_on rung.daemon.state rung.daemon.persistence
        (answer_run-IsKept memory memory-IsTransactional memory_sound fake_audio
          (armed_once files 5 (λ path. err no_device) bell true) filed_control rung_fits
          filed-IsKept).on_disk)
      (serviceable rung.daemon.persistence)
