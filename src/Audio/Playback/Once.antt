-- ===== src/Audio/Playback/Once.antt =====
-- A sound from `play` to its end: `handle_play` and `fill_f32` of
-- alarm-daemon/src/audio/cpal_audio.rs, one buffer behind the other.
use alarm_daemon.Base.{
  ℕ, ◌^◌, ◌<◌, ◌≡◌, refl, ap, ◌∙◌, Bool, true, false, ◌&&◌, not, none, some, List, [], ◌∷◌, map,
  ◌==◌, if-false, if-true, arith, length, replicate,
}
use alarm_daemon.Audio.Float.{f32_zero}
use alarm_daemon.Audio.Profile.{VolumeProfile, gain_at}
use alarm_daemon.Audio.Decoded.{DecodedSound, frames, IsPlayable}
use alarm_daemon.Audio.Playback.{
  Floats, chunks, Playback, Shared, handle_play, fill_frames, settle, fill_playback, fill_f32,
  step_of,
}
use alarm_daemon.Audio.Playback.Voiced.{sum, sum-chunks}
use alarm_daemon.Audio.Playback.Exact.{IsExact, at, ended, fill_sound, fill_frames-end}

module _ (N : Floats) where
  -- What a buffer does to a playback.
  abbrev filled : (output : List ℕ) (channels rate : ℕ) → Playback N → Playback N × List ℕ
  filled output channels rate pb =
      fill_frames N (step_of N pb.sound.sample_rate rate) (chunks (length output) channels) pb

  fill_f32-some :
      (output : List ℕ) (channels rate : ℕ) (pb : Playback N) (lost : Bool)
      → 0 < channels
      → let (pb', out) = filled output channels rate pb in
        fill_f32 N output channels rate (record { playback = some pb; device_lost = lost })
        ≡ (record { playback = settle N pb'; device_lost = lost }, out)
  unfolding fill_f32 fill_playback
  fill_f32-some output channels rate pb lost h =
      let nonzero : (channels == 0) ≡ false = ground arith in if-false (channels == 0) _ _ nonzero

module _ (N : Floats) (X : IsExact N) (sound : DecodedSound) (profile : VolumeProfile) where
  own_step :
      0 < sound.sample_rate
      → sound.sample_rate < 2 ^ 53
      → step_of N sound.sample_rate sound.sample_rate ≡ N.f64_one
  unfolding step_of
  own_step h k = rw (X.positive sound.sample_rate h k) (X.div_self sound.sample_rate h k)

  fill_end :
      (playable : IsPlayable sound) (small : length sound.samples < 2 ^ 53)
      (once : profile.repeat ≡ false) (ns : List ℕ)
      → 0 < sum ns
      → fill_frames N N.f64_one ns (at N X sound profile (frames sound))
        ≡ (ended N X sound profile playable small once, replicate (sum ns) f32_zero)
  fill_end playable small once [] h = absurd (omega arith)
  fill_end playable small once (n ∷ ns) h =
      fill_frames-end N X sound profile playable small once n ns

  -- The shared state and the samples behind a buffer.
  behind : Bool → Playback N × List ℕ → Shared N × List ℕ
  behind lost (pb, out) = (record { playback = settle N pb; device_lost = lost }, out)

  module _ (playable : IsPlayable sound) (small : length sound.samples < 2 ^ 53)
      (h : 0 < sound.sample_rate) (k : sound.sample_rate < 2 ^ 53) (lost : Bool) where
    fill_own :
        (output : List ℕ) (i : ℕ)
        → fill_f32 N output sound.channels sound.sample_rate
            (record { playback = some (at N X sound profile i); device_lost = lost })
          ≡ behind lost (
              fill_frames N N.f64_one
                (chunks (length output) sound.channels)
                (at N X sound profile i))
    unfolding behind
    fill_own output i =
        fill_f32-some N output sound.channels sound.sample_rate (at N X sound profile i) lost
          playable.0
        ∙ ap
            (λ step.
              behind lost (
                fill_frames N step (chunks (length output) sound.channels)
                  (at N X sound profile i)))
            (own_step h k)

    first_buffer :
        (output : List ℕ)
        → length output ≡ length sound.samples
        → fill_f32 N output sound.channels sound.sample_rate
            (record { playback = some (at N X sound profile 0); device_lost = lost })
          ≡ (
            record { playback = some (at N X sound profile (frames sound)); device_lost = lost },
            map (λ s. N.mul_f32 s (gain_at profile.ramp profile.target)) sound.samples,
          )
    unfolding behind settle
    first_buffer output same =
        fill_own output 0
        ∙ ap
            (λ n.
              behind lost
                (fill_frames N N.f64_one (chunks n sound.channels) (at N X sound profile 0)))
            same
        ∙ ap (behind lost) (fill_sound N X sound profile playable small)

    next_buffer :
        (more : List ℕ)
        → profile.repeat ≡ false
        → 0 < length more
        → fill_f32 N more sound.channels sound.sample_rate
            (record { playback = some (at N X sound profile (frames sound)); device_lost = lost })
          ≡ (record { playback = none; device_lost = lost }, replicate (length more) f32_zero)
    unfolding behind settle
    next_buffer more once some_more =
        let total = sum-chunks (length more) sound.channels in
        let over =
          fill_end playable small once (chunks (length more) sound.channels)
            (omega (arith, total)) in
        let dropped : (true && not profile.repeat) ≡ true = rw once refl in
        fill_own more (frames sound) ∙ ap (behind lost) over ∙ (λ j. (
          record {
            playback =
                if-true (true && not profile.repeat) none
                  (some (ended N X sound profile playable small once)) dropped j;
            device_lost = lost;
          },
          replicate (total j) f32_zero,
        ))

  -- A sound that does not repeat, on a device of its own rate and channels, with numbers of frames
  -- that an `f64` holds exactly: from `play` on, a buffer of the sound's length is filled with all
  -- its samples in order, each with the profile's gain; the next buffer is silent, and with it the
  -- playback is dropped.
  pub plays_once :
      (sh : Shared N) (output more : List ℕ)
      → IsPlayable sound
      → length sound.samples < 2 ^ 53
      → 0 < sound.sample_rate
      → sound.sample_rate < 2 ^ 53
      → profile.repeat ≡ false
      → length output ≡ length sound.samples
      → 0 < length more
      → let sh1 = (handle_play N sound profile true sh).0 in
        let (sh2, out) = fill_f32 N output sound.channels sound.sample_rate sh1 in
        let (sh3, rest) = fill_f32 N more sound.channels sound.sample_rate sh2 in
        (out ≡ map (λ s. N.mul_f32 s (gain_at profile.ramp profile.target)) sound.samples)
        × (rest ≡ replicate (length more) f32_zero)
        × (sh3.playback ≡ none)
  unfolding handle_play settle
  plays_once sh output more playable small h k once same some_more =
      let lost = sh.device_lost in
      let rate = sound.sample_rate in
      let zero_start = λ (x : N.F). fill_f32 N output sound.channels rate (record {
        playback = some (record {
          sound = sound;
          profile = profile;
          frames_played = 0;
          cursor_frames = x;
          finished = false;
        });
        device_lost = lost;
      }) in
      let first = ap zero_start X.zero_exact ∙ first_buffer playable small h k lost output same in
      let second =
        ap (λ (x : Shared N × List ℕ). fill_f32 N more sound.channels rate x.0) first
        ∙ next_buffer playable small h k lost more once some_more in
      (ap (λ x. x.1) first, ap (λ x. x.1) second, ap (λ x. x.0.playback) second)
