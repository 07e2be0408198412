-- ===== src/Audio/Playback/Voiced.antt =====
-- What the callback writes: alarm-daemon/src/audio/cpal_audio.rs, `fill_f32`.
use alarm_daemon.Base.{
  ℕ, zero, suc, ◌+◌, ◌-◌, ◌*◌, ◌/◌, ◌%◌, ◌^◌, ◌≤◌, ◌<◌, ◌≡◌, ◌⊎◌, refl, sym, ap, ◌∙◌, Bool, true,
  false, Option, none, some, List, [], ◌∷◌, ◌++◌, ltb, if◌then◌else◌, ltb→lt, if_both, ◌||◌, ◌&&◌,
  not, ◌==◌, ==_iff, arith, length, length-append, length-replicate, replicate, get_elem?, min, All,
  All-append, inl, inr, Bool-cases,
}
use mathlib.Core.Bool.{false≢true}
use native.Mathlib.Nat.{mod-lt, mul-le-mul_right, min-le_left, div-add-mod, mul_comm}
use alarm_daemon.Audio.Float.{f32_zero}
use alarm_daemon.Audio.Profile.{VolumeProfile, gain_at}
use alarm_daemon.Audio.Decoded.{DecodedSound, frames, IsPlayable}
use alarm_daemon.Audio.Playback.{
  Floats, chunks, Playback, frame_samples, voice, finish, fill_frame, fill_frames, settle,
  fill_playback, fill_f32, step_of,
}

abbrev pub sum : List ℕ → ℕ
sum [] = 0
sum (n ∷ ns) = n + sum ns

sum-append : (xs ys : List ℕ) → sum (xs ++ ys) ≡ sum xs + sum ys
sum-append [] ys = omega arith
sum-append (x ∷ xs) ys = omega (arith, sum-append xs ys)

sum-replicate : (n a : ℕ) → sum (replicate n a) ≡ n * a
sum-replicate zero a = omega arith
sum-replicate (suc n) a = omega (arith, sum-replicate n a)

pub sum-chunks : (n size : ℕ) → sum (chunks n size) ≡ n
unfolding chunks
sum-chunks n size = elim (Bool-cases (n % size == 0)) [
  | inl e ↦ rw e (
      omega (
        arith,
        sum-append (replicate (n / size) size) [],
        sum-replicate (n / size) size,
        (==_iff _ 0).0 e,
        div-add-mod n size,
        mul_comm size (n / size),
      ))
  | inr e ↦ rw e (
      omega (
        arith,
        sum-append (replicate (n / size) size) (n % size ∷ []),
        sum-replicate (n / size) size,
        div-add-mod n size,
        mul_comm size (n / size),
      ))
]

get_elem?_lt : (xs : List ℕ) (i : ℕ) → i < length xs → (x : ℕ) × (get_elem? xs i ≡ some x)
get_elem?_lt [] i h = absurd (omega arith)
get_elem?_lt (x ∷ xs) zero h = (x, refl)
get_elem?_lt (x ∷ xs) (suc i) h = get_elem?_lt xs i (omega arith)

All-replicate : (P : ℕ → Type 0) (n a : ℕ) → P a → All P (replicate n a)
All-replicate P zero a p = tt
All-replicate P (suc n) a p = (p, All-replicate P n a p)

-- A frame that starts inside a sound ends inside it.
room_left :
    (idx frame_count channels n : ℕ)
    → idx < frame_count
    → n ≡ frame_count * channels
    → min (idx * channels) (2 ^ 64 - 1) + channels ≤ n
room_left idx frame_count channels n h e =
    let next : (idx + 1) * channels ≤ frame_count * channels =
      mul-le-mul_right channels (omega arith) in
    let split : (idx + 1) * channels ≡ idx * channels + channels = omega arith in
    let low : min (idx * channels) (2 ^ 64 - 1) ≤ idx * channels = min-le_left _ _ in omega arith

and_not-true : (a b : Bool) → (a && not b) ≡ true → b ≡ false
and_not-true true false e = refl
and_not-true true true e = sym e
and_not-true false b e = absurd (false≢true e)

and_not-false : (a b : Bool) → (a && not b) ≡ false → (a ≡ false) ⊎ (b ≡ true)
and_not-false true true e = inr refl
and_not-false true false e = inl e
and_not-false false b e = inl refl

module _ (N : Floats) where
  -- A sample written for a sound: silence, or a sample of the sound with the profile's gain.
  abbrev pub IsVoiced : DecodedSound → VolumeProfile → ℕ → Type 0
  IsVoiced sound profile out =
      (out ≡ f32_zero)
      ⊎ ((i : ℕ) × (s : ℕ) × (get_elem? sound.samples i ≡ some s)
          × (out ≡ N.mul_f32 s (gain_at profile.ramp profile.target)))

  -- `%` by a positive number of frames stays below it.
  abbrev pub RemIsBounded : Type 0
  RemIsBounded = (x : N.F) (n : ℕ) → 0 < n → N.to_usize (N.rem x (N.of_int n)) < n

  module _ (sound : DecodedSound) (profile : VolumeProfile) (gain : ℕ) where
    length-frame_samples : (base ch n : ℕ) → length (frame_samples N sound gain base ch n) ≡ n
    unfolding frame_samples
    length-frame_samples base ch zero = refl
    length-frame_samples base ch (suc n) = ap suc (length-frame_samples base (suc ch) n)

  module _ (sound : DecodedSound) (profile : VolumeProfile) where
    frame_samples-IsVoiced :
        (base ch n : ℕ)
        → 0 < sound.channels
        → base + sound.channels ≤ length sound.samples
        → All
            (IsVoiced sound profile)
            (frame_samples N sound (gain_at profile.ramp profile.target) base ch n)
    unfolding frame_samples
    frame_samples-IsVoiced base ch zero p h = tt
    frame_samples-IsVoiced base ch (suc n) p h =
        let (s, e) =
          get_elem?_lt sound.samples (base + ch % sound.channels) (omega (arith, mod-lt ch p)) in
        (
          inr (base + ch % sound.channels, s, e, rw e refl),
          frame_samples-IsVoiced base (suc ch) n p h,
        )

  -- What one or more rounds leave of a playback, and the `n` samples that they write.
  abbrev pub Filled : Playback N → ℕ → Playback N × List ℕ → Type 0
  Filled pb n (pb', out) =
      (pb'.sound ≡ pb.sound)
      × (pb'.profile ≡ pb.profile)
      × (length out ≡ n)
      × All (IsVoiced pb.sound pb.profile) out

  silent-Filled :
      (n : ℕ) (pb pb' : Playback N)
      → pb'.sound ≡ pb.sound
      → pb'.profile ≡ pb.profile
      → Filled pb n (pb', replicate n f32_zero)
  silent-Filled n pb pb' e f =
      (e, f, length-replicate n f32_zero, All-replicate _ n f32_zero (inl refl))

  module _ (step : N.F) (bounded : RemIsBounded) where
    voice-Filled :
        (n : ℕ) (pb : Playback N) (cursor : N.F) (idx : ℕ)
        → IsPlayable pb.sound
        → length pb.sound.samples < 2 ^ 64
        → idx < frames pb.sound
        → Filled pb n (voice N step n pb cursor idx)
    unfolding voice
    voice-Filled n pb cursor idx (p, q, r, whole) small h =
        let base = min (idx * pb.sound.channels) (2 ^ 64 - 1) in
        let room : base + pb.sound.channels ≤ length pb.sound.samples =
          room_left idx (frames pb.sound) pb.sound.channels (length pb.sound.samples) h whole in
        (
          refl,
          refl,
          length-frame_samples pb.sound pb.profile _ base 0 n,
          frame_samples-IsVoiced pb.sound pb.profile base 0 n p room,
        )

    fill_frame-Filled :
        (n : ℕ) (pb : Playback N)
        → IsPlayable pb.sound
        → length pb.sound.samples < 2 ^ 64
        → Filled pb n (fill_frame N step n pb)
    unfolding fill_frame finish
    fill_frame-Filled n pb playable small =
        let silence = replicate n f32_zero in
        let still = pb.finished || (frames pb.sound == 0) || (pb.sound.channels == 0) in
        let inside = ltb (N.to_usize pb.cursor_frames) (frames pb.sound) in
        let wrapped = N.rem pb.cursor_frames (N.of_int (frames pb.sound)) in
        let here = voice N step n pb pb.cursor_frames (N.to_usize pb.cursor_frames) in
        let again = voice N step n pb wrapped (N.to_usize wrapped) in
        let over : Playback N × List ℕ = (finish N pb, silence) in
        let behind = if pb.profile.repeat then again else over in
        if_both (Filled pb n) still (pb, silence) (if inside then here else behind)
          (λ e. silent-Filled n pb pb refl refl)
          (λ e.
            if_both (Filled pb n) inside here behind
              (λ f. voice-Filled n pb pb.cursor_frames _ playable small (ltb→lt _ _ f))
              (λ f.
                if_both (Filled pb n) pb.profile.repeat again over
                  (λ g.
                    voice-Filled n pb wrapped _ playable small
                      (bounded pb.cursor_frames _ playable.2))
                  (λ g. silent-Filled n pb (finish N pb) refl refl)))

    Filled-append :
        (a b : ℕ) (pb pb' pb'' : Playback N) (xs ys : List ℕ)
        → Filled pb a (pb', xs)
        → Filled pb' b (pb'', ys)
        → Filled pb (a + b) (pb'', xs ++ ys)
    Filled-append a b pb pb' pb'' xs ys (e, f, l, v) (e', f', l', v') = (
      e' ∙ e,
      f' ∙ f,
      omega (arith, length-append xs ys),
      All-append (IsVoiced pb.sound pb.profile) xs ys v (rw (e, f) at v'),
    )

    fill_frames-Filled :
        (ns : List ℕ) (pb : Playback N)
        → IsPlayable pb.sound
        → length pb.sound.samples < 2 ^ 64
        → Filled pb (sum ns) (fill_frames N step ns pb)
    unfolding fill_frames
    fill_frames-Filled [] pb playable small = (refl, refl, refl, tt)
    fill_frames-Filled (n ∷ ns) pb playable small =
        let first = fill_frame-Filled n pb playable small in
        let next = (fill_frame N step n pb).0.sound in
        let playable' : IsPlayable next = rw first.0 playable in
        let small' : length next.samples < 2 ^ 64 = rw first.0 small in
        let rest = fill_frames-Filled ns (fill_frame N step n pb).0 playable' small' in
        let (pb', out) = fill_frame N step n pb in
        let (pb'', more) = fill_frames N step ns pb' in
        Filled-append n (sum ns) pb pb' pb'' out more first rest

  -- A playback that goes on, of the same sound and profile.
  abbrev pub GoesOn : Playback N → Option (Playback N) → Type 0
  GoesOn pb none = pb.profile.repeat ≡ false
  GoesOn pb (some pb') =
      (pb'.sound ≡ pb.sound)
      × (pb'.profile ≡ pb.profile)
      × ((pb'.finished ≡ false) ⊎ (pb.profile.repeat ≡ true))

  settle-GoesOn :
      (pb pb' : Playback N)
      → pb'.sound ≡ pb.sound
      → pb'.profile ≡ pb.profile
      → GoesOn pb (settle N pb')
  unfolding settle
  settle-GoesOn pb pb' e f =
      let same : pb'.profile.repeat ≡ pb.profile.repeat = ap (λ p. p.repeat) f in
      if_both (GoesOn pb) (pb'.finished && not pb'.profile.repeat) none (some pb')
        (λ c. sym same ∙ and_not-true _ _ c)
        (λ c. (
          e,
          f,
          elim (and_not-false pb'.finished pb'.profile.repeat c) [
            | inl g ↦ inl g
            | inr g ↦ inr (sym same ∙ g)
          ],
        ))

  -- For a sound that can be played, and a device with channels, the buffer keeps its length, and
  -- every sample in it is silence or a sample from inside the sound, with the profile's gain; the
  -- device's flag is kept; and the playback keeps its sound and profile, or is dropped, which
  -- happens only to one that does not repeat.
  pub fill_f32-IsVoiced :
      (bounded : RemIsBounded) (output : List ℕ) (device_channels device_rate : ℕ) (pb : Playback N)
      (lost : Bool)
      → 0 < device_channels
      → IsPlayable pb.sound
      → length pb.sound.samples < 2 ^ 64
      → let (sh, out) =
          fill_f32 N output device_channels device_rate
            (record { playback = some pb; device_lost = lost }) in
        (length out ≡ length output)
        × All (IsVoiced pb.sound pb.profile) out
        × (sh.device_lost ≡ lost)
        × GoesOn pb sh.playback
  unfolding fill_f32 fill_playback
  fill_f32-IsVoiced bounded output zero device_rate pb lost h playable small = absurd (omega arith)
  fill_f32-IsVoiced bounded output (suc m) device_rate pb lost h playable small =
      let step = step_of N pb.sound.sample_rate device_rate in
      let (e, f, l, v) =
        fill_frames-Filled step bounded (chunks (length output) (suc m)) pb playable small in
      let nonzero : (suc m == 0) ≡ false = ground arith in
      rw nonzero (l ∙ sum-chunks (length output) (suc m), v, refl, settle-GoesOn pb _ e f)
