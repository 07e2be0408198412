-- ===== src/Control.antt =====
-- alarm-daemon/src/ipc/control.rs: the object that serves the bus, with the task that it spawns for
-- each trigger. A call runs from its start to its end, and the task from its sleep on, with
-- nothing in between; the bus, the clock, the disk and the file system are given to each call.
pub mod Methods
pub mod Calls
pub mod Runs
pub mod Races
pub mod Orphans
pub mod Overlaps
pub mod Audible
pub mod Heard
pub mod Device
pub mod Spec
pub mod Requests
pub mod Agrees
pub mod Refines
pub mod Kept
use alarm_daemon.Base.{
  ℕ, ◌+◌, ◌*◌, ◌^◌, Bool, true, false, Option, none, some, List, [], ◌∷◌, ◌++◌, String, ltb, ◌==◌,
  not, if◌then◌else◌, Result, ok, err, map_err, ◌>>=◌, map, suc,
}
use alarm_daemon.Base.Bytes.{Bytes}
use alarm_daemon.Base.Int.{ℤ, pos, i64_max, saturating_add}
use alarm_daemon.State.{AlarmStatus, Transition, no_change, changed, status_eq, is_armed}
use alarm_daemon.Persistence.Redb.{Redb}
use alarm_daemon.Persistence.Store.{now_ms}
use alarm_daemon.Daemon.{AlarmDaemon, arm_with_sound, disarm, status, current_sound}
use alarm_daemon.Audio.{AudioError}
use alarm_daemon.Audio.Float.{f32_one}
use alarm_daemon.Audio.Profile.{immediate, VolumeProfile, new_profile}
use alarm_daemon.Audio.Decoded.{DecodedSound}
use alarm_daemon.Audio.Player.{AlarmAudio}
use alarm_daemon.Sounds.Library.{FileSystem, SoundLibrary, SoundSummary, resolve_path, list_sounds}

-- The errors of a call: the message is the text of an audio error, or one of the two below.
pub data Message : Type 0 where
  audio : AudioError → Message
  duration_must_be_positive cannot_snooze : Message

pub data BusError : Type 0 where
  invalid_args failed : Message → BusError

-- A spawned task that sleeps for `delay_ms` before it plays the file.
pub record Trigger : Type 0 where
  pub id : ℕ
  pub sound_path : Bytes
  pub delay_ms : ℕ

-- `JoinHandle::abort`, which does nothing to a task that has ended.
unfoldable pub discard : ℕ → List Trigger → List Trigger
discard id [] = []
discard id (t ∷ ts) = let rest = discard id ts in if t.id == id then rest else t ∷ rest

unfoldable pub abort : Option ℕ → List Trigger → List Trigger
unfolding discard
abort none tasks = tasks
abort (some id) tasks = discard id tasks

abbrev pub find_trigger : ℕ → List Trigger → Option Trigger
find_trigger id [] = none
find_trigger id (t ∷ ts) = let rest = find_trigger id ts in if t.id == id then some t else rest

-- The value of `ALARM_DAEMON_TRIGGER_DELAY_MS`, if it is a `u64`.
unfoldable pub trigger_delay_of : Option ℕ → ℕ
trigger_delay_of none = 3000
trigger_delay_of (some ms) = ms

-- `now_ms.saturating_add(i64::try_from(delay.as_millis()).unwrap_or(i64::MAX))`
unfoldable pub fire_at : Option ℕ → ℕ → ℤ
fire_at clock delay_ms =
    saturating_add (now_ms clock) (if ltb delay_ms (2 ^ 63) then pos delay_ms else i64_max)

-- The signal of a transition that changed the status, before those emitted earlier. That emitting
-- one failed is logged and nothing else.
unfoldable pub emit : Transition → List Bool → List Bool
emit no_change signals = signals
emit (changed from to) signals = if not (status_eq from to) then is_armed to ∷ signals else signals

module _ (R : Redb) (A : AlarmAudio) where
  pub record Control : Type 0 where
    pub daemon : AlarmDaemon R
    pub sounds : SoundLibrary
    pub player : A.Player
    pub trigger_delay : ℕ
    pub trigger_task : Option ℕ
    pub tasks : List Trigger
    pub next_task : ℕ
    pub signals : List Bool

  -- `Control::new`
  unfoldable pub new_control : AlarmDaemon R → SoundLibrary → A.Player → Option ℕ → Control
  unfolding trigger_delay_of
  new_control daemon sounds player delay_ms = record {
    daemon = daemon;
    sounds = sounds;
    player = player;
    trigger_delay = trigger_delay_of delay_ms;
    trigger_task = none;
    tasks = [];
    next_task = 0;
    signals = [];
  }

  unfoldable pub cancel_pending : Control → Control
  unfolding abort
  cancel_pending c = record {
    daemon = c.daemon;
    sounds = c.sounds;
    player = (A.stop c.player).0;
    trigger_delay = c.trigger_delay;
    trigger_task = none;
    tasks = abort c.trigger_task c.tasks;
    next_task = c.next_task;
    signals = c.signals;
  }

  -- The daemon after a transition, with the signal of it.
  unfoldable pub with_daemon : Control → AlarmDaemon R → List Bool → Control
  with_daemon c daemon signals = record {
    daemon = daemon;
    sounds = c.sounds;
    player = c.player;
    trigger_delay = c.trigger_delay;
    trigger_task = c.trigger_task;
    tasks = c.tasks;
    next_task = c.next_task;
    signals = signals;
  }

  -- `tokio::spawn`, whose task gets the next number.
  unfoldable pub spawn_task : Bytes → ℕ → Control → Control
  spawn_task path delay_ms c = record {
    daemon = c.daemon;
    sounds = c.sounds;
    player = c.player;
    trigger_delay = c.trigger_delay;
    trigger_task = c.trigger_task;
    tasks = c.tasks ++ record { id = c.next_task; sound_path = path; delay_ms = delay_ms } ∷ [];
    next_task = suc c.next_task;
    signals = c.signals;
  }

  -- `*self.trigger_task.lock().await = Some(handle)`
  unfoldable pub keep_handle : ℕ → Control → Control
  keep_handle id c = record {
    daemon = c.daemon;
    sounds = c.sounds;
    player = c.player;
    trigger_delay = c.trigger_delay;
    trigger_task = some id;
    tasks = c.tasks;
    next_task = c.next_task;
    signals = c.signals;
  }

  unfoldable pub spawn_trigger : Bytes → ℕ → Control → Control
  unfolding spawn_task keep_handle
  spawn_trigger path delay_ms c = keep_handle c.next_task (spawn_task path delay_ms c)

  -- `schedule_trigger_with_delay` behind the check of the sound id.
  unfoldable pub schedule_resolved :
      Option ℕ
      → Bytes
      → ℕ
      → Control
      → Result AudioError Bytes
      → Control × Result BusError Transition
  unfolding cancel_pending with_daemon spawn_trigger fire_at
  schedule_resolved clock sound_id delay_ms c (err e) = (c, err (invalid_args (audio e)))
  schedule_resolved clock sound_id delay_ms c (ok path) =
      let c' = cancel_pending c in
      let (d, t) = arm_with_sound R sound_id (some (fire_at clock delay_ms)) c'.daemon in
      (spawn_trigger path delay_ms (with_daemon c' d c'.signals), ok t)

  unfoldable pub schedule_trigger_with_delay :
      FileSystem → Option ℕ → Bytes → ℕ → Control → Control × Result BusError Transition
  unfolding schedule_resolved
  schedule_trigger_with_delay fs clock sound_id delay_ms c =
      schedule_resolved clock sound_id delay_ms c (resolve_path fs c.sounds sound_id)

  unfoldable pub schedule_trigger :
      FileSystem → Option ℕ → Bytes → Control → Control × Result BusError Transition
  unfolding schedule_trigger_with_delay
  schedule_trigger fs clock sound_id c =
      schedule_trigger_with_delay fs clock sound_id c.trigger_delay c

  -- The method `arm` on what `schedule_trigger` answered.
  unfoldable pub announce :
      Control × Result BusError Transition → Control × Result BusError (Unit {0})
  unfolding with_daemon emit
  announce (c, err e) = (c, err e)
  announce (c, ok t) = (with_daemon c c.daemon (emit t c.signals), ok tt)

  -- The method `snooze` on what `schedule_trigger_with_delay` answered.
  unfoldable pub silent :
      Control × Result BusError Transition → Control × Result BusError (Unit {0})
  silent (c, err e) = (c, err e)
  silent (c, ok t) = (c, ok tt)

  -- The common body of the methods `disarm` and `dismiss`.
  unfoldable pub stand_down : Control → Control × Result BusError (Unit {0})
  unfolding cancel_pending with_daemon emit
  stand_down c =
      let c' = cancel_pending c in
      let (d, t) = disarm R c'.daemon in (with_daemon c' d (emit t c'.signals), ok tt)

  -- The task behind its sleep: it decodes the file and plays it once, at full volume.
  unfoldable pub play_decoded : Result AudioError DecodedSound → A.Player → A.Player
  unfolding new_profile
  play_decoded (err e) p = p
  play_decoded (ok sound) p = elim (new_profile f32_one immediate false) [
    | ok profile ↦ (A.play sound profile p).0
    | err e ↦ p
  ]

  unfoldable pub fire : (Bytes → Result AudioError DecodedSound) → Trigger → Control → Control
  unfolding play_decoded discard
  fire from_path t c = record {
    daemon = c.daemon;
    sounds = c.sounds;
    player = play_decoded (from_path t.sound_path) c.player;
    trigger_delay = c.trigger_delay;
    trigger_task = c.trigger_task;
    tasks = discard t.id c.tasks;
    next_task = c.next_task;
    signals = c.signals;
  }
