-- ===== src/Audio/Worker.antt =====
-- The worker thread of alarm-daemon/src/audio/cpal_audio.rs: the output stream that it owns, and
-- one round of its loop. The sound host is a parameter, asked anew at each attempt to open a
-- stream.
pub mod Tracked
pub mod Answers
pub mod Main
use alarm_daemon.Base.{
  ℕ, ◌-◌, ◌≡◌, Bool, true, false, ◌&&◌, Option, none, some, List, [], ◌∷◌, String, leb,
  if◌then◌else◌, Result, ok, err, map_err, ok_or, ◌>>=◌,
}
use alarm_daemon.Base.Bytes.{Bytes, bytes_eq}
use alarm_daemon.Audio.{
  AudioError, no_device, device_config, build_stream, play_stream, worker_unavailable,
}
use alarm_daemon.Audio.Profile.{VolumeProfile}
use alarm_daemon.Audio.Decoded.{DecodedSound}
use alarm_daemon.Audio.Player.{AlarmAudio}
use alarm_daemon.Audio.Playback.{Floats, Shared, new_shared, handle_play, handle_stop}

pub data SampleFormat : Type 0 where
  f32 i16 u16 : SampleFormat
  other_format : String → SampleFormat

pub record StreamConfig : Type 0 where
  pub format : SampleFormat
  pub channels : ℕ
  pub sample_rate : ℕ

-- `cpal`'s host with its devices and streams, and the messages of their errors.
pub record Host : Type 1 where
  pub Device : Type 0
  pub Stream : Type 0
  pub output_devices : Result String (List Device)
  pub name : Device → Option Bytes
  pub default_output_device : Option Device
  pub default_output_config : Device → Result String StreamConfig
  pub build_output_stream : Device → StreamConfig → Result String Stream
  pub play : Stream → Result String (Unit {0})

is_named : Bytes → Option Bytes → Bool
is_named name none = false
is_named name (some n) = bytes_eq n name

module _ (H : Host) where
  -- The text of the error leaves the name of the device out.
  unfoldable pub find_device : Bytes → List H.Device → Result AudioError H.Device
  unfolding is_named
  find_device name [] = err (device_config "output device not found")
  find_device name (d ∷ ds) =
      let rest = find_device name ds in if is_named name (H.name d) then ok d else rest

  unfoldable pub pick_device : Option Bytes → Result AudioError H.Device
  unfolding find_device
  pick_device none = ok_or H.default_output_device no_device
  pick_device (some name) = do
    devices ← map_err H.output_devices device_config
    find_device name devices

  -- `build_typed`, for the three formats that it is called at.
  unfoldable pub build_typed : H.Device → StreamConfig → SampleFormat → Result AudioError H.Stream
  build_typed device config (other_format f) = err (build_stream "unsupported sample format")
  build_typed device config _ = map_err (H.build_output_stream device config) build_stream

  unfoldable pub open_stream : Option Bytes → Result AudioError H.Stream
  unfolding pick_device build_typed
  open_stream device_name = do
    device ← pick_device device_name
    config ← map_err (H.default_output_config device) device_config
    stream ← build_typed device config config.format
    started ← map_err (H.play stream) play_stream
    ok stream

is_ok : {A : Type 0} → Result AudioError A → Bool
is_ok (ok a) = true
is_ok (err e) = false

-- Whether an attempt to open a stream succeeds.
unfoldable pub opens : Host → Option Bytes → Bool
unfolding is_ok open_stream
opens H device_name = is_ok (open_stream H device_name)

pub data Command : Type 0 where
  play : DecodedSound → VolumeProfile → Command
  stop shutdown : Command

-- What `recv_timeout` answers: a command, or that there is none within the interval, or no sender.
pub data Received : Type 0 where
  command : Command → Received
  timeout disconnected : Received

abbrev pub device_retry_interval_ms : ℕ
device_retry_interval_ms = 5000

module _ (N : Floats) where
  -- The worker's variables: what it shares with the callbacks, whether it has a stream, and the
  -- time of its last attempt, in milliseconds.
  pub record Worker : Type 0 where
    pub shared : Shared N
    pub stream : Bool
    pub last_retry : ℕ

  abbrev pub with_lost : Bool → Shared N → Shared N
  with_lost lost sh = record { playback = sh.playback; device_lost = lost }

  -- Before the loop, on what opening the first stream answered: whether there is one.
  unfoldable pub start_worker : Bool → ℕ → Worker
  start_worker built now = record {
    shared = with_lost (if built then false else true) (new_shared N);
    stream = built;
    last_retry = now;
  }

  -- The error callback of a stream.
  unfoldable pub stream_error : Worker → Worker
  stream_error w = record {
    shared = with_lost true w.shared;
    stream = w.stream;
    last_retry = w.last_retry;
  }

  unfoldable pub drop_failed : Worker → Worker
  drop_failed w = record {
    shared = w.shared;
    stream = if w.shared.device_lost && w.stream then false else w.stream;
    last_retry = w.last_retry;
  }

  with_answer :
      Worker → Shared N × Result AudioError (Unit {0}) → Worker × Result AudioError (Unit {0})
  with_answer w (sh, r) = (record { shared = sh; stream = w.stream; last_retry = w.last_retry }, r)

  -- The commands that are answered.
  unfoldable pub handle_command : Command → Worker → Worker × Result AudioError (Unit {0})
  unfolding with_answer handle_play handle_stop
  handle_command (play sound profile) w =
      with_answer w (handle_play N sound profile w.stream w.shared)
  handle_command stop w = with_answer w (handle_stop N w.shared)
  handle_command shutdown w = (w, ok tt)

  -- The attempt to open a stream anew, in two halves: the stream is opened, and the flag is
  -- cleared.
  unfoldable pub reopened_stream : Bool → Worker → Worker
  reopened_stream built w = record { shared = w.shared; stream = built; last_retry = w.last_retry }

  unfoldable pub clear_lost : Bool → ℕ → Worker → Worker
  clear_lost built now w = record {
    shared = if built then with_lost false w.shared else w.shared;
    stream = w.stream;
    last_retry = now;
  }

  unfoldable pub retry : (built : Bool) (now after : ℕ) → Worker → Worker
  unfolding reopened_stream clear_lost
  retry built now after w =
      if w.stream
      then w
      else if leb device_retry_interval_ms (now - w.last_retry)
      then clear_lost built after (reopened_stream built w)
      else w

  -- One round of the loop: nothing if it is left; and the answer of a command.
  unfoldable pub round :
      Received
      → (built : Bool) (now after : ℕ) → Worker
      → Option Worker × Option (Result AudioError (Unit {0}))
  unfolding drop_failed handle_command retry
  round (command shutdown) built now after w = (none, none)
  round disconnected built now after w = (none, none)
  round timeout built now after w = (some (retry built now after (drop_failed w)), none)
  round (command c) built now after w =
      let (w', r) = handle_command c (drop_failed w) in (some (retry built now after w'), some r)

  unfoldable pub acked :
      Option Worker × Option (Result AudioError (Unit {0}))
      → Option Worker × Result AudioError (Unit {0})
  acked (w, some r) = (w, r)
  acked (w, none) = (w, err worker_unavailable)

  -- `send_and_wait`, to a worker that answers in time, or that has ended.
  unfoldable pub send_and_wait :
      (built : Bool) (now after : ℕ)
      → Command
      → Option Worker
      → Option Worker × Result AudioError (Unit {0})
  unfolding round acked
  send_and_wait built now after c none = (none, err worker_unavailable)
  send_and_wait built now after c (some w) = acked (round (command c) built now after w)

  -- `CpalAudio`, with what opening a stream answers and the time of it held fixed.
  abbrev pub cpal_audio : (built : Bool) (now after : ℕ) → AlarmAudio
  cpal_audio built now after = record {
    Player = Option Worker;
    play = λ sound profile w. send_and_wait built now after (play sound profile) w;
    stop = λ w. send_and_wait built now after stop w;
  }
