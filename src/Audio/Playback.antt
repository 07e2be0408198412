-- ===== src/Audio/Playback.antt =====
-- The playback of alarm-daemon/src/audio/cpal_audio.rs: the commands on the shared state, and the
-- callback that fills a device's buffer. An `f32` is its bit pattern; the operations on `f64` and
-- the product of two `f32` are a parameter.
pub mod Voiced
pub mod Frames
pub mod Exact
pub mod Once
pub mod Split
pub mod Cursor
use alarm_daemon.Base.{
  ℕ, zero, suc, ◌+◌, ◌-◌, ◌*◌, ◌/◌, ◌%◌, ◌^◌, Bool, true, false, ◌&&◌, ◌||◌, not, Option, none,
  some, List, [], ◌∷◌, ◌++◌, ltb, ◌==◌, if◌then◌else◌, length, replicate, get_elem?, min, Result,
  ok, err,
}
use alarm_daemon.Audio.{AudioError, device_unavailable}
use alarm_daemon.Audio.Float.{f32_zero}
use alarm_daemon.Audio.Profile.{VolumeProfile, gain_at}
use alarm_daemon.Audio.Decoded.{DecodedSound, frames}

-- `f64` with its conversions from `u32` and `usize` and to `usize`, `> 0.0`, `+`, `/`, `%`, and the
-- product of two `f32`.
pub record Floats : Type 1 where
  pub F : Type 0
  pub f64_zero : F
  pub f64_one : F
  pub of_int : ℕ → F
  pub to_usize : F → ℕ
  pub is_positive : F → Bool
  pub add : F → F → F
  pub div : F → F → F
  pub rem : F → F → F
  pub mul_f32 : ℕ → ℕ → ℕ

-- A sample of a frame, with the gain: the product for the source's channel that it takes.
unwrap_sample : Option ℕ → ℕ
unwrap_sample none = f32_zero
unwrap_sample (some s) = s

-- The lengths of `chunks_mut(size)` of a buffer, for a size that is not 0.
unfoldable pub chunks : ℕ → ℕ → List ℕ
chunks n size = replicate (n / size) size ++ (if n % size == 0 then [] else n % size ∷ [])

module _ (N : Floats) where
  pub record Playback : Type 0 where
    pub sound : DecodedSound
    pub profile : VolumeProfile
    pub frames_played : ℕ
    pub cursor_frames : N.F
    pub finished : Bool

  pub record Shared : Type 0 where
    pub playback : Option Playback
    pub device_lost : Bool

  -- `Shared::new`
  abbrev pub new_shared : Shared
  new_shared = record { playback = none; device_lost = false }

  unfoldable pub handle_play :
      DecodedSound → VolumeProfile → Bool → Shared → Shared × Result AudioError (Unit {0})
  handle_play sound profile stream_present sh =
      if not stream_present then (sh, err device_unavailable) else (
        record {
          playback = some (record {
            sound = sound;
            profile = profile;
            frames_played = 0;
            cursor_frames = N.f64_zero;
            finished = false;
          });
          device_lost = sh.device_lost;
        },
        ok tt,
      )

  unfoldable pub handle_stop : Shared → Shared × Result AudioError (Unit {0})
  handle_stop sh = (record { playback = none; device_lost = sh.device_lost }, ok tt)

  -- `samples[ch_out..]` of one frame, from channel `ch_out` on for `n` channels.
  unfoldable pub frame_samples : DecodedSound → (gain src_base ch_out n : ℕ) → List ℕ
  unfolding unwrap_sample
  frame_samples sound gain src_base ch_out zero = []
  frame_samples sound gain src_base ch_out (suc n) =
      N.mul_f32 (unwrap_sample (get_elem? sound.samples (src_base + ch_out % sound.channels))) gain
      ∷ frame_samples sound gain src_base (suc ch_out) n

  -- A frame that sounds, at the cursor and its index.
  unfoldable pub voice : (step : N.F) (n : ℕ) → Playback → N.F → ℕ → Playback × List ℕ
  unfolding frame_samples
  voice step n pb cursor idx = (
    record {
      sound = pb.sound;
      profile = pb.profile;
      frames_played = min (pb.frames_played + 1) (2 ^ 64 - 1);
      cursor_frames = N.add cursor step;
      finished = pb.finished;
    },
    frame_samples pb.sound (gain_at pb.profile.ramp pb.profile.target)
        (min (idx * pb.sound.channels) (2 ^ 64 - 1)) 0 n,
  )

  unfoldable pub finish : Playback → Playback
  finish pb = record {
    sound = pb.sound;
    profile = pb.profile;
    frames_played = pb.frames_played;
    cursor_frames = pb.cursor_frames;
    finished = true;
  }

  -- One round of the loop, for a frame of `n` samples.
  unfoldable pub fill_frame : (step : N.F) (n : ℕ) → Playback → Playback × List ℕ
  unfolding voice finish frames
  fill_frame step n pb =
      let wrapped = N.rem pb.cursor_frames (N.of_int (frames pb.sound)) in
      if pb.finished || (frames pb.sound == 0) || (pb.sound.channels == 0)
      then (pb, replicate n f32_zero)
      else if ltb (N.to_usize pb.cursor_frames) (frames pb.sound)
      then voice step n pb pb.cursor_frames (N.to_usize pb.cursor_frames)
      else if pb.profile.repeat
      then voice step n pb wrapped (N.to_usize wrapped)
      else (finish pb, replicate n f32_zero)

  unfoldable pub fill_frames : N.F → List ℕ → Playback → Playback × List ℕ
  unfolding fill_frame
  fill_frames step [] pb = (pb, [])
  fill_frames step (n ∷ ns) pb =
      let (pb', out) = fill_frame step n pb in
      let (pb'', more) = fill_frames step ns pb' in (pb'', out ++ more)

  unfoldable pub step_of : ℕ → ℕ → N.F
  step_of src_rate dst_rate =
      if N.is_positive (N.of_int dst_rate)
      then N.div (N.of_int src_rate) (N.of_int dst_rate)
      else N.f64_one

  unfoldable pub settle : Playback → Option Playback
  settle pb = if pb.finished && not pb.profile.repeat then none else some pb

  -- `fill_f32` on what the lock guards, for a device with channels.
  unfoldable pub fill_playback :
      (output : List ℕ) (device_channels device_rate : ℕ)
      → Option Playback
      → Option Playback × List ℕ
  unfolding fill_frames step_of settle chunks
  fill_playback output device_channels device_rate none = (none, replicate (length output) f32_zero)
  fill_playback output device_channels device_rate (some pb) =
      let (pb', out) =
        fill_frames (step_of pb.sound.sample_rate device_rate)
          (chunks (length output) device_channels) pb in
      (settle pb', out)

  unfoldable pub fill_f32 : List ℕ → (device_channels device_rate : ℕ) → Shared → Shared × List ℕ
  unfolding fill_playback
  fill_f32 output device_channels device_rate sh =
      let (pb, out) = fill_playback output device_channels device_rate sh.playback in
      if device_channels == 0
      then (sh, output)
      else (record { playback = pb; device_lost = sh.device_lost }, out)
