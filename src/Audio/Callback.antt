-- ===== src/Audio/Callback.antt =====
-- The data callback that `build_typed` of alarm-daemon/src/audio/cpal_audio.rs gives to a stream,
-- for samples of any of the device's types: `cpal::FromSample<f32>` is a parameter.
use mathlib.Core.List.{append-nil}
use alarm_daemon.Base.{
  ℕ, ◌+◌, ◌-◌, ◌*◌, ◌≤◌, ◌<◌, ◌≡◌, refl, sym, ap, ◌∙◌, List, [], ◌∷◌, ◌++◌, map, arith, ltb,
  if◌then◌else◌, Bool-cases, inl, inr, length, length-append, length-replicate, length-take_le,
  replicate, take, drop, All,
}
use alarm_daemon.Audio.Float.{f32_zero}
use alarm_daemon.Audio.Playback.{Floats, Shared, fill_f32}
use alarm_daemon.Audio.Playback.Split.{
  replicate_add, fill_f32-replicate, fill_f32-length, fill_f32-append,
}

-- `scratch.resize(n, 0.0)` where it is shorter.
unfoldable pub grown : ℕ → List ℕ → List ℕ
grown n scratch =
    if ltb (length scratch) n then scratch ++ replicate (n - length scratch) f32_zero else scratch

module _ {ℓ} (N : Floats) {T : Type ℓ} (from_sample : ℕ → T) where
  -- `for (out, src) in data.iter_mut().zip(buf.iter())`
  unfoldable pub convert : List T → List ℕ → List T
  convert [] buf = []
  convert (out ∷ outs) [] = out ∷ outs
  convert (out ∷ outs) (src ∷ buf) = from_sample src ∷ convert outs buf

  -- What the closure keeps between its calls: the scratch buffer, and what is behind the lock.
  abbrev pub Kept : Type 0
  Kept = List ℕ × Shared N

  unfoldable pub data_callback : (channels sample_rate : ℕ) → List T → Kept → Kept × List T
  unfolding grown convert
  data_callback channels sample_rate buffer (scratch, shared) =
      let room = grown (length buffer) scratch in
      let (shared', buf) = fill_f32 N (take (length buffer) room) channels sample_rate shared in
      ((buf ++ drop (length buffer) room, shared'), convert buffer buf)

  -- The calls of the device, one after the other, and all that it gets.
  unfoldable pub stream : (channels sample_rate : ℕ) → List (List T) → Kept → Kept × List T
  unfolding data_callback
  stream channels sample_rate [] kept = (kept, [])
  stream channels sample_rate (buffer ∷ buffers) kept =
      let (kept', out) = data_callback channels sample_rate buffer kept in
      let (kept'', more) = stream channels sample_rate buffers kept' in (kept'', out ++ more)

  convert-map :
      (buffer : List T) (buf : List ℕ)
      → length buf ≡ length buffer
      → convert buffer buf ≡ map from_sample buf
  unfolding convert
  convert-map [] [] e = refl
  convert-map [] (s ∷ buf) e = absurd (omega arith)
  convert-map (b ∷ buffer) [] e = absurd (omega arith)
  convert-map (b ∷ buffer) (s ∷ buf) e =
      ap (◌∷◌ (from_sample s)) (convert-map buffer buf (omega arith))

  map-append :
      (xs ys : List ℕ) → map from_sample (xs ++ ys) ≡ map from_sample xs ++ map from_sample ys
  map-append [] ys = refl
  map-append (x ∷ xs) ys = ap (◌∷◌ (from_sample x)) (map-append xs ys)

  -- Whole frames for the device's channels.
  abbrev pub IsWhole : ℕ → List T → Type 0
  IsWhole channels buffer = (k : ℕ) × (length buffer ≡ k * channels)

  abbrev pub total : List (List T) → ℕ
  total [] = 0
  total (buffer ∷ buffers) = length buffer + total buffers

length-grown : (n : ℕ) (scratch : List ℕ) → n ≤ length (grown n scratch)
unfolding grown
length-grown n scratch = elim (Bool-cases (ltb (length scratch) n)) [
  | inl e ↦ rw e (
      omega (
        arith,
        length-append scratch (replicate (n - length scratch) f32_zero),
        length-replicate (n - length scratch) f32_zero,
      ))
  | inr e ↦ rw e (ground arith)
]

module _ {ℓ} (N : Floats) {T : Type ℓ} (from_sample : ℕ → T) (channels sample_rate : ℕ)
    (h : 0 < channels) where
  abbrev filled : ℕ → Shared N → Shared N × List ℕ
  filled n sh = fill_f32 N (replicate n f32_zero) channels sample_rate sh

  -- One call, whatever the scratch buffer and the device's buffer held.
  data_callback-filled :
      (buffer : List T) (scratch : List ℕ) (sh : Shared N)
      → (let x = data_callback N from_sample channels sample_rate buffer (scratch, sh) in
          let y = filled (length buffer) sh in (x.0.1 ≡ y.0) × (x.1 ≡ map from_sample y.1))
  unfolding data_callback
  data_callback-filled buffer scratch sh =
      let n = length buffer in
      let room = take n (grown n scratch) in
      let size : length room ≡ n = length-take_le n (grown n scratch) (length-grown n scratch) in
      let same = fill_f32-replicate N channels sample_rate h room sh ∙ ap (λ m. filled m sh) size in
      (
        ap (λ r. r.0) same,
        convert-map N from_sample buffer (fill_f32 N room channels sample_rate sh).1
              (fill_f32-length N channels sample_rate h room sh ∙ size)
            ∙ ap (λ r. map from_sample r.1) same,
      )

  filled_twice :
      (n m k : ℕ) (sh : Shared N)
      → n ≡ k * channels
      → (let x = filled n sh in let y = filled m x.0 in filled (n + m) sh ≡ (y.0, x.1 ++ y.1))
  filled_twice n m k sh e =
      ap (λ l. fill_f32 N l channels sample_rate sh) (replicate_add n m f32_zero)
      ∙ fill_f32-append N channels sample_rate h (replicate n f32_zero) (replicate m f32_zero) k sh
          (length-replicate n f32_zero ∙ e)

  -- Whatever sizes a device with channels asks for, of whole frames, in one call or more, and
  -- whatever its buffers and the scratch buffer held before: all that it gets, call by call, is the
  -- samples of one buffer of the whole length, each converted, and the playback behind the calls is
  -- the one behind that buffer.
  pub stream-fill_f32 :
      (buffer : List T) (buffers : List (List T)) (scratch : List ℕ) (sh : Shared N)
      → All (IsWhole N from_sample channels) (buffer ∷ buffers)
      → (let x = stream N from_sample channels sample_rate (buffer ∷ buffers) (scratch, sh) in
          let y =
            fill_f32 N
              (replicate (total N from_sample (buffer ∷ buffers)) f32_zero)
              channels
              sample_rate
              sh in
          (x.0.1 ≡ y.0) × (x.1 ≡ map from_sample y.1))
  unfolding stream
  stream-fill_f32 buffer [] scratch sh whole =
      let (state, out) = data_callback-filled buffer scratch sh in
      let all : length buffer ≡ length buffer + 0 = omega arith in
      let same = ap (λ n. filled n sh) all in
      (state ∙ ap (λ r. r.0) same, append-nil _ ∙ out ∙ ap (λ r. map from_sample r.1) same)
  stream-fill_f32 buffer (next ∷ buffers) scratch sh ((k, e), whole) =
      let n = length buffer in
      let m = total N from_sample (next ∷ buffers) in
      let (kept, out) = data_callback N from_sample channels sample_rate buffer (scratch, sh) in
      let (state, first) = data_callback-filled buffer scratch sh in
      let (state', rest) = stream-fill_f32 next buffers kept.0 kept.1 whole in
      let twice = filled_twice n m k sh e in
      let x = filled n sh in
      (
        state' ∙ ap (λ s. (filled m s).0) state ∙ ap (λ r. r.0) (sym twice),
        ap (λ o. o ++ (stream N from_sample channels sample_rate (next ∷ buffers) kept).1) first
            ∙ ap (λ o. map from_sample x.1 ++ o)
                (rest ∙ ap (λ s. map from_sample (filled m s).1) state)
            ∙ sym (map-append N from_sample x.1 (filled m x.0).1)
            ∙ ap (λ r. map from_sample r.1) (sym twice),
      )
