-- ===== src/Audio/Playback/Frames.antt =====
-- A frame as a stretch of the sound: what the inner loop of `fill_f32` in
-- alarm-daemon/src/audio/cpal_audio.rs writes for a device with as many channels as the sound.
use alarm_daemon.Base.{
  ℕ, zero, suc, ◌+◌, ◌%◌, ◌≤◌, ◌<◌, ◌≡◌, refl, sym, ap, ◌∙◌, some, List, [], ◌∷◌, ◌++◌, map, arith,
  length, take, drop, get_elem?,
}
use native.Mathlib.Nat.{mod-eq_of_lt}
use alarm_daemon.Audio.Decoded.{DecodedSound}
use alarm_daemon.Audio.Playback.{Floats, frame_samples}

module _ {A : Type 0} where
  drop-get_elem? :
      (i : ℕ) (xs : List A)
      → i < length xs
      → (x : A) × (get_elem? xs i ≡ some x) × (drop i xs ≡ x ∷ drop (suc i) xs)
  drop-get_elem? i [] h = absurd (omega arith)
  drop-get_elem? zero (x ∷ xs) h = (x, refl, refl)
  drop-get_elem? (suc i) (x ∷ xs) h = drop-get_elem? i xs (omega arith)

  take-nil : (n : ℕ) → take {A = A} n [] ≡ []
  take-nil zero = refl
  take-nil (suc n) = refl

  drop-nil : (n : ℕ) → drop {A = A} n [] ≡ []
  drop-nil zero = refl
  drop-nil (suc n) = refl

  pub take_add : (a b : ℕ) (xs : List A) → take (a + b) xs ≡ take a xs ++ take b (drop a xs)
  take_add zero b xs = ap (λ n. take n xs) (omega arith)
  take_add (suc a) b [] = take-nil (suc a + b) ∙ sym (take-nil b)
  take_add (suc a) b (x ∷ xs) =
      let e : suc a + b ≡ suc (a + b) = omega arith in
      ap (λ n. take n (x ∷ xs)) e ∙ ap (◌∷◌ x) (take_add a b xs)

  pub drop_add : (a b : ℕ) (xs : List A) → drop a (drop b xs) ≡ drop (b + a) xs
  drop_add a zero xs = ap (λ n. drop n xs) (omega arith)
  drop_add a (suc b) [] = drop-nil a ∙ sym (drop-nil (suc b + a))
  drop_add a (suc b) (x ∷ xs) =
      let e : suc (b + a) ≡ suc b + a = omega arith in drop_add a b xs ∙ ap (λ n. drop n (x ∷ xs)) e

module _ (N : Floats) (sound : DecodedSound) (gain : ℕ) where
  abbrev pub voiced : List ℕ → List ℕ
  voiced samples = map (λ s. N.mul_f32 s gain) samples

  -- From a channel on, a frame is the samples from there on.
  pub frame_samples-voiced :
      (base ch n : ℕ)
      → ch + n ≤ sound.channels
      → base + sound.channels ≤ length sound.samples
      → frame_samples N sound gain base ch n ≡ voiced (take n (drop (base + ch) sound.samples))
  unfolding frame_samples
  frame_samples-voiced base ch zero h k = refl
  frame_samples-voiced base ch (suc n) h k =
      let small : ch % sound.channels ≡ ch = mod-eq_of_lt (omega arith) in
      let (s, e, f) = drop-get_elem? (base + ch) sound.samples (omega arith) in
      let rest = frame_samples-voiced base (suc ch) n (omega arith) k in
      let next : base + suc ch ≡ suc (base + ch) = omega arith in
      rw (small, e, f)
        (ap (◌∷◌ (N.mul_f32 s gain)) (rest ∙ ap (λ i. voiced (take n (drop i sound.samples))) next))
