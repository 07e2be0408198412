-- ===== src/Audio/Playback/Cursor.antt =====
-- The samples that `fill_f32` of alarm-daemon/src/audio/cpal_audio.rs writes, by the cursor alone.
use alarm_daemon.Base.{
  ℕ, ◌+◌, ◌*◌, Option, none, some, List, [], ◌∷◌, ◌++◌, ltb, if◌then◌else◌, replicate,
}
use alarm_daemon.Audio.Float.{f32_zero}
use alarm_daemon.Audio.Profile.{VolumeProfile, gain_at}
use alarm_daemon.Audio.Decoded.{DecodedSound, frames}
use alarm_daemon.Audio.Playback.{Floats, Playback, frame_samples, fill_frames}
use alarm_daemon.Audio.Playback.Voiced.{sum, RemIsBounded}

module _ (N : Floats) (sound : DecodedSound) (profile : VolumeProfile) (step : N.F) where
  -- The frame of the sound that a cursor stands at, and the cursor behind it: its own within the
  -- sound, wrapped around for a sound that repeats, and none past the end of another.
  abbrev pub position : N.F → Option (ℕ × N.F)
  position cursor =
      let wrapped = N.rem cursor (N.of_int (frames sound)) in
      if ltb (N.to_usize cursor) (frames sound)
      then some (N.to_usize cursor, N.add cursor step)
      else if profile.repeat
      then some (N.to_usize wrapped, N.add wrapped step)
      else none

  -- The samples of frames of the given sizes: each is a frame of the sound while there is one, and
  -- silent then.
  abbrev pub samples_at : Option (ℕ × N.F) → (n : ℕ) → (N.F → List ℕ) → List ℕ → List ℕ
  samples_at none n more silence = silence
  samples_at (some (idx, next)) n more silence =
      frame_samples N sound (gain_at profile.ramp profile.target) (idx * sound.channels) 0 n
      ++ more next

  abbrev pub samples_from : List ℕ → N.F → List ℕ
  samples_from [] cursor = []
  samples_from (n ∷ ns) cursor =
      samples_at (position cursor) n (samples_from ns) (replicate (n + sum ns) f32_zero)

module _ (N : Floats) (step : N.F) (bounded : RemIsBounded N) where
  abbrev of_playback : Playback N → List ℕ → List ℕ
  of_playback pb ns = samples_from N pb.sound pb.profile step ns pb.cursor_frames

  then_frames : List ℕ → Playback N × List ℕ → List ℕ
  then_frames ns f = f.1 ++ (fill_frames N step ns f.0).1
