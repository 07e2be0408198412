-- ===== src/Audio/Playback/Exact.antt =====
-- A sound that is played at its own rate, on a device with as many channels: what `fill_f32` of
-- alarm-daemon/src/audio/cpal_audio.rs writes, and when it drops the playback.
use alarm_daemon.Base.{
  ℕ, zero, suc, ◌+◌, ◌-◌, ◌*◌, ◌/◌, ◌%◌, ◌^◌, ◌≤◌, ◌<◌, ◌≡◌, refl, sym, ap, ◌∙◌, true, false, List,
  [], ◌∷◌, ◌++◌, ltb, lt→ltb, ◌==◌, ==_iff, if-false, arith, length, take, drop, take-length,
  replicate, min,
}
use mathlib.Core.List.{append-nil, map-append}
use native.Mathlib.Nat.{div-le_self, mul-le-mul_right, div-add-mod, mul_comm, min-eq_left}
use alarm_daemon.Audio.Float.{f32_zero}
use alarm_daemon.Audio.Profile.{VolumeProfile, gain_at}
use alarm_daemon.Audio.Decoded.{DecodedSound, frames, IsPlayable}
use alarm_daemon.Audio.Playback.{
  Floats, chunks, Playback, frame_samples, voice, finish, fill_frame, fill_frames,
}
use alarm_daemon.Audio.Playback.Voiced.{sum}
use alarm_daemon.Audio.Playback.Frames.{take_add, drop_add, frame_samples-voiced, voiced}

-- Whole numbers below 2^53 are exact in an `f64`.
pub record IsExact (N : Floats) : Type 0 where
  pub zero_exact : N.f64_zero ≡ N.of_int 0
  pub add_one : (n : ℕ) → n < 2 ^ 53 → N.add (N.of_int n) N.f64_one ≡ N.of_int (n + 1)
  pub back : (n : ℕ) → n < 2 ^ 53 → N.to_usize (N.of_int n) ≡ n
  pub div_self : (n : ℕ) → 0 < n → n < 2 ^ 53 → N.div (N.of_int n) (N.of_int n) ≡ N.f64_one
  pub positive : (n : ℕ) → 0 < n → n < 2 ^ 53 → N.is_positive (N.of_int n) ≡ true

replicate_add :
    (a b : ℕ) → replicate a f32_zero ++ replicate b f32_zero ≡ replicate (a + b) f32_zero
replicate_add zero b = ap (λ n. replicate n f32_zero) (omega arith)
replicate_add (suc a) b =
    let e : suc (a + b) ≡ suc a + b = omega arith in
    ap (◌∷◌ f32_zero) (replicate_add a b) ∙ ap (λ n. replicate n f32_zero) e

frames_lt : (n c : ℕ) → 0 < c → n < 2 ^ 53 → n / c < 2 ^ 53
frames_lt n c h small = omega (arith, div-le_self n c)

module _ (N : Floats) (X : IsExact N) (sound : DecodedSound) (profile : VolumeProfile) where
  -- The playback behind its first `i` frames.
  abbrev pub at : ℕ → Playback N
  at i = record {
    sound = sound;
    profile = profile;
    frames_played = i;
    cursor_frames = N.of_int i;
    finished = false;
  }

  abbrev gain : ℕ
  gain = gain_at profile.ramp profile.target

  frame : ℕ → List ℕ
  frame i = frame_samples N sound gain (i * sound.channels) 0 sound.channels

  module _ (playable : IsPlayable sound) (small : length sound.samples < 2 ^ 53) where
    frames_small : frames sound < 2 ^ 53
    unfolding frames
    frames_small = frames_lt (length sound.samples) sound.channels playable.0 small

    fill_frame-at :
        (i : ℕ)
        → i < frames sound
        → fill_frame N N.f64_one sound.channels (at i) ≡ (at (i + 1), frame i)
    unfolding fill_frame voice frame
    fill_frame-at i h =
        let (ch, fits, some_frames, whole) = playable in
        let no_frames : (frames sound == 0) ≡ false = unfold frames in ground arith in
        let no_channels : (sound.channels == 0) ≡ false = ground arith in
        let here : N.to_usize (N.of_int i) ≡ i = X.back i (omega (arith, frames_small)) in
        let inside : ltb i (frames sound) ≡ true = lt→ltb i (frames sound) h in
        let next : N.add (N.of_int i) N.f64_one ≡ N.of_int (i + 1) =
          X.add_one i (omega (arith, frames_small)) in
        let below : i * sound.channels ≤ frames sound * sound.channels =
          mul-le-mul_right sound.channels (omega arith) in
        let base : min (i * sound.channels) (2 ^ 64 - 1) ≡ i * sound.channels =
          min-eq_left (omega (arith, below)) in
        let played : min (i + 1) (2 ^ 64 - 1) ≡ i + 1 = min-eq_left (omega (arith, frames_small)) in
        rw (no_frames, no_channels, here, inside, next, base, played) refl

    -- The samples from frame `i` on, as many as `k` frames have, with the gain.
    stretch : ℕ → ℕ → List ℕ
    stretch i n = voiced N sound gain (take n (drop (i * sound.channels) sound.samples))

    frame-stretch : (i : ℕ) → i < frames sound → frame i ≡ stretch i sound.channels
    unfolding frame stretch
    frame-stretch i h =
        let below : (i + 1) * sound.channels ≤ frames sound * sound.channels =
          mul-le-mul_right sound.channels (omega arith) in
        let split : (i + 1) * sound.channels ≡ i * sound.channels + sound.channels = omega arith in
        let inside =
          frame_samples-voiced N sound gain (i * sound.channels) 0 sound.channels (omega arith)
            (omega (arith, playable.3)) in
        inside
        ∙ ap (λ n. voiced N sound gain (take sound.channels (drop n sound.samples))) (omega arith)

    stretch-add :
        (i k : ℕ)
        → stretch i sound.channels ++ stretch (i + 1) (k * sound.channels)
          ≡ stretch i (suc k * sound.channels)
    unfolding stretch
    stretch-add i k =
        let c = sound.channels in
        let xs = drop (i * c) sound.samples in
        let later : (i + 1) * c ≡ i * c + c = omega arith in
        let more : suc k * c ≡ c + k * c = omega arith in
        let behind : drop ((i + 1) * c) sound.samples ≡ drop c xs =
          ap (λ n. drop n sound.samples) later ∙ sym (drop_add c (i * c) sound.samples) in
        let joined = take_add c (k * c) xs in
        ap (λ (l : List ℕ). voiced N sound gain (take c xs) ++ voiced N sound gain (take (k * c) l))
          behind
        ∙ sym (map-append (λ s. N.mul_f32 s gain) (take c xs) (take (k * c) (drop c xs)))
        ∙ ap (voiced N sound gain) (sym (ap (λ n. take n xs) more ∙ joined))

    reached :
        (i k : ℕ)
        → i + suc k ≤ frames sound
        → ◌≡◌ {A = Playback N × List ℕ}
            (at (i + 1 + k), frame i ++ stretch (i + 1) (k * sound.channels))
            (at (i + suc k), stretch i (suc k * sound.channels))
    reached i k h =
        let count : i + 1 + k ≡ i + suc k = omega arith in
        let out =
          ap (λ l. l ++ stretch (i + 1) (k * sound.channels)) (frame-stretch i (omega arith))
          ∙ stretch-add i k in
        λ j. (at (count j), out j)

    -- `k` frames from frame `i` on.
    fill_frames-at :
        (k i : ℕ)
        → i + k ≤ frames sound
        → fill_frames N N.f64_one (replicate k sound.channels) (at i)
          ≡ (at (i + k), stretch i (k * sound.channels))
    unfolding fill_frames stretch
    fill_frames-at zero i h =
        let same : i ≡ i + 0 = omega arith in
        let nothing : 0 ≡ 0 * sound.channels = omega arith in
        λ j. (
          at (same j),
          voiced N sound gain (take (nothing j) (drop (i * sound.channels) sound.samples)),
        )
    fill_frames-at (suc k) i h =
        rw (fill_frame-at i (omega arith))
          (rw (fill_frames-at k (i + 1) (omega arith)) (reached i k h))

    -- A device's buffer as long as the sound is its frames, and nothing else.
    chunks-sound :
        chunks (length sound.samples) sound.channels ≡ replicate (frames sound) sound.channels
    unfolding chunks frames
    chunks-sound =
        let whole : length sound.samples % sound.channels ≡ 0 = omega (
          arith,
          div-add-mod (length sound.samples) sound.channels,
          mul_comm sound.channels (frames sound),
          playable.3,
        ) in
        let exact : (length sound.samples % sound.channels == 0) ≡ true = (==_iff _ 0).1 whole in
        rw exact (append-nil _)

    -- The whole sound.
    whole_stretch : stretch 0 (frames sound * sound.channels) ≡ voiced N sound gain sound.samples
    unfolding stretch
    whole_stretch =
        let start : 0 * sound.channels ≡ 0 = omega arith in
        ap (λ n. voiced N sound gain (take (frames sound * sound.channels) (drop n sound.samples)))
          start
        ∙ ap (λ n. voiced N sound gain (take n sound.samples)) (sym playable.3)
        ∙ ap (voiced N sound gain) (take-length sound.samples)

    pub fill_sound :
        fill_frames N N.f64_one (chunks (length sound.samples) sound.channels) (at 0)
        ≡ (at (frames sound), voiced N sound gain sound.samples)
    fill_sound =
        let total : 0 + frames sound ≡ frames sound = omega arith in
        let played = fill_frames-at (frames sound) 0 (omega arith) in
        ap (λ ns. fill_frames N N.f64_one ns (at 0)) chunks-sound
        ∙ played
        ∙ (λ j. (at (total j), whole_stretch j))

    module _ (once : profile.repeat ≡ false) where
      -- The playback that has come to its end.
      abbrev pub ended : Playback N
      ended = record {
        sound = sound;
        profile = profile;
        frames_played = frames sound;
        cursor_frames = N.of_int (frames sound);
        finished = true;
      }

      fill_frame-end :
          (n : ℕ) → fill_frame N N.f64_one n (at (frames sound)) ≡ (ended, replicate n f32_zero)
      unfolding fill_frame finish
      fill_frame-end n =
          let no_frames : (frames sound == 0) ≡ false =
            let h = playable.2 in unfold frames in ground arith in
          let no_channels : (sound.channels == 0) ≡ false = let h = playable.0 in ground arith in
          let here : N.to_usize (N.of_int (frames sound)) ≡ frames sound =
            X.back (frames sound) frames_small in
          let outside : ltb (frames sound) (frames sound) ≡ false = ground arith in
          rw (no_frames, no_channels, here, outside) (if-false profile.repeat _ _ once)

      fill_frames-ended :
          (ns : List ℕ) → fill_frames N N.f64_one ns ended ≡ (ended, replicate (sum ns) f32_zero)
      unfolding fill_frames fill_frame
      fill_frames-ended [] = refl
      fill_frames-ended (n ∷ ns) =
          rw (fill_frames-ended ns) (λ j. (ended, replicate_add n (sum ns) j))

      pub fill_frames-end :
          (n : ℕ) (ns : List ℕ)
          → fill_frames N N.f64_one (n ∷ ns) (at (frames sound))
            ≡ (ended, replicate (sum (n ∷ ns)) f32_zero)
      unfolding fill_frames
      fill_frames-end n ns =
          rw (fill_frame-end n)
            (rw (fill_frames-ended ns) (λ j. (ended, replicate_add n (sum ns) j)))
