-- ===== src/Audio/Player.antt =====
-- The trait `AlarmAudio` of alarm-daemon/src/audio/mod.rs: an output with its own state, and the
-- recording one of fake.rs.
use alarm_daemon.Base.{ℕ, List, ◌∷◌, Result, ok}
use alarm_daemon.Audio.{AudioError}
use alarm_daemon.Audio.Decoded.{DecodedSound, frames}
use alarm_daemon.Audio.Profile.{VolumeProfile}

pub record AlarmAudio : Type 1 where
  pub Player : Type 0
  pub play : DecodedSound → VolumeProfile → Player → Player × Result AudioError (Unit {0})
  pub stop : Player → Player × Result AudioError (Unit {0})

pub data FakeEvent : Type 0 where
  play : (frame_count channels sample_rate : ℕ) (profile : VolumeProfile) → FakeEvent
  stop : FakeEvent

-- The events are newest first.
abbrev pub fake_audio : AlarmAudio
fake_audio = record {
  Player = List FakeEvent;
  play = λ sound profile events.
      (play (frames sound) sound.channels sound.sample_rate profile ∷ events, ok tt);
  stop = λ events. (stop ∷ events, ok tt);
}
