-- ===== src/Audio.antt =====
-- alarm-daemon/src/audio: the errors of error.rs, which all of the audio code shares.
pub mod Float
pub mod Profile
pub mod Ramp
pub mod Decoded
pub mod Player
pub mod Playback
pub mod Callback
pub mod Worker
use alarm_daemon.Base.{ℕ, String}
use alarm_daemon.Base.Bytes.{Bytes}

-- The `Display` texts of foreign errors are their messages; an `f32` is its bit pattern, a duration
-- its nanoseconds. The last three are of the test build.
pub data AudioError : Type 0 where
  invalid_volume : ℕ → AudioError
  no_device worker_unavailable device_unavailable : AudioError
  device_config build_stream play_stream decode io : String → AudioError
  unknown_sound invalid_sound_id : Bytes → AudioError
  invalid_ramp : ℕ → AudioError
  unsupported_format : String → AudioError
  sound_too_large : (size max : ℕ) → AudioError
