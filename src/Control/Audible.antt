-- ===== src/Control/Audible.antt =====
-- What is heard of the calls of alarm-daemon/src/ipc/control.rs over the worker of
-- alarm-daemon/src/audio/cpal_audio.rs.
use alarm_daemon.Base.{
  ℕ, zero, suc, ◌<◌, ◌≡◌, refl, ap, ◌∙◌, Bool, true, false, Option, none, some, List, arith, length,
  replicate, Result, ok, if-true, ◌==◌,
}
use alarm_daemon.Base.Bytes.{Bytes}
use alarm_daemon.Persistence.Redb.{Redb}
use alarm_daemon.Audio.{AudioError}
use alarm_daemon.Audio.Float.{f32_zero, f32_one}
use alarm_daemon.Audio.Profile.{VolumeProfile, immediate, new_profile}
use alarm_daemon.Audio.Decoded.{DecodedSound}
use alarm_daemon.Audio.Player.{AlarmAudio}
use alarm_daemon.Audio.Playback.{Floats, Playback, fill_f32, fill_playback}
use alarm_daemon.Audio.Worker.{Worker, cpal_audio, send_and_wait, play, stop}
use alarm_daemon.Audio.Worker.Answers.{
  has_stream, fresh, round_answers, round_stop, send_and_wait-round,
}
use alarm_daemon.Control.{Control, Trigger, fire, play_decoded, cancel_pending, stand_down}
use alarm_daemon.Control.Methods.{disarm}

-- What the task of a trigger plays with.
abbrev pub full_volume : VolumeProfile
full_volume = record { target = f32_one; ramp = immediate; repeat = false }

full_volume_lem : new_profile f32_one immediate false ≡ ok full_volume
unfolding new_profile
full_volume_lem = refl

play_decoded-ok :
    (R : Redb) (A : AlarmAudio) (sound : DecodedSound) (p : A.Player)
    → play_decoded R A (ok sound) p ≡ (A.play sound full_volume p).0
unfolding play_decoded
play_decoded-ok R A sound p = refl

module _ (N : Floats) where
  idle_silence :
      (output : List ℕ) (channels rate : ℕ) (playback : Option (Playback N)) (lost : Bool)
      → 0 < channels
      → playback ≡ none
      → (fill_f32 N output channels rate (record { playback = playback; device_lost = lost })).1
        ≡ replicate (length output) f32_zero
  unfolding fill_f32 fill_playback
  idle_silence output zero rate playback lost h e = absurd (omega arith)
  idle_silence output (suc n) rate playback lost h e =
      let nonzero : (suc n == 0) ≡ false = ground arith in rw (nonzero, e) refl

  module _ (R : Redb) (built : Bool) (now after : ℕ) where
    abbrev pub Cpal : Type 0
    Cpal = Control R (cpal_audio N built now after)

    -- While the worker runs, a `disarm` leaves nothing to play, so whatever buffer the device asks
    -- for next is filled with silence.
    pub disarm-silent :
        (c : Cpal) (w : Worker N) (output : List ℕ) (channels rate : ℕ)
        → c.player ≡ some w
        → 0 < channels
        → (v : Worker N) × ((disarm R (cpal_audio N built now after) c).0.player ≡ some v)
          × ((fill_f32 N output channels rate v.shared).1 ≡ replicate (length output) f32_zero)
    unfolding disarm stand_down cancel_pending send_and_wait
    disarm-silent c w output channels rate e h =
        let (v, ran, quiet) = round_stop N built now after w in
        let sent = send_and_wait-round N built now after stop w v (ok tt) c.player e ran in
        (
          v,
          ap (λ x. x.0) sent,
          idle_silence output channels rate v.shared.playback v.shared.device_lost h quiet,
        )

    -- A trigger that fires while the worker has a stream starts its sound from the first frame, at
    -- full volume and once, if the file decodes.
    pub fire-play :
        (from_path : Bytes → Result AudioError DecodedSound) (t : Trigger) (sound : DecodedSound)
        (c : Cpal) (w : Worker N)
        → from_path t.sound_path ≡ ok sound
        → c.player ≡ some w
        → has_stream N w ≡ true
        → (v : Worker N) × ((fire R (cpal_audio N built now after) from_path t c).player ≡ some v)
          × (v.shared.playback ≡ some (fresh N sound full_volume))
    unfolding fire play_decoded send_and_wait
    fire-play from_path t sound c w e f h =
        let A = cpal_audio N built now after in
        let (v, ran, playing) = (round_answers N sound full_volume built now after w).0 in
        let started =
          if-true (has_stream N w) (some (fresh N sound full_volume)) w.shared.playback h in
        let sent =
          send_and_wait-round N built now after (play sound full_volume) w v _ c.player f ran in
        (
          v,
          ap (λ r. play_decoded R A r c.player) e
              ∙ play_decoded-ok R A sound c.player
              ∙ ap (λ x. x.0) sent,
          playing ∙ started,
        )
