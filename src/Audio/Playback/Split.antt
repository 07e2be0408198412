-- ===== src/Audio/Playback/Split.antt =====
-- A buffer of a device and the same samples in two buffers: `fill_f32` of
-- alarm-daemon/src/audio/cpal_audio.rs.
use mathlib.Core.List.{append_assoc, append-nil}
use native.Mathlib.Nat.{mul-add-div_right, mul-add-mod_self_right, zero-div, zero-mod}
use alarm_daemon.Base.{
  ℕ, zero, suc, ◌+◌, ◌*◌, ◌/◌, ◌%◌, ◌<◌, ◌≡◌, refl, sym, ap, ◌∙◌, Bool, true, false, ◌&&◌, not,
  Option, none, some, List, [], ◌∷◌, ◌++◌, ◌==◌, if-false, arith, Bool-cases, inl, inr, length,
  length-append, length-replicate, replicate,
}
use alarm_daemon.Audio.Float.{f32_zero}
use alarm_daemon.Audio.Decoded.{DecodedSound, frames}
use alarm_daemon.Audio.Playback.{
  Floats, chunks, Playback, Shared, frame_samples, voice, finish, fill_frame, fill_frames, settle,
  fill_playback, fill_f32, step_of,
}
use alarm_daemon.Audio.Playback.Voiced.{sum, sum-chunks}

chunks-next : (c m : ℕ) → 0 < c → chunks (c + m) c ≡ c ∷ chunks m c
unfolding chunks
chunks-next c m h =
    let one : c + m ≡ 1 * c + m = omega arith in
    let div : (c + m) / c ≡ suc (m / c) =
      ap (λ n. n / c) one ∙ mul-add-div_right h 1 m ∙ omega arith in
    let rest : (c + m) % c ≡ m % c = ap (λ n. n % c) one ∙ mul-add-mod_self_right 1 c m in
    rw (div, rest) refl

chunks-append : (k c m : ℕ) → 0 < c → chunks (k * c + m) c ≡ replicate k c ++ chunks m c
chunks-append zero c m h = ap (λ n. chunks n c) (omega arith)
chunks-append (suc k) c m h =
    let e : suc k * c + m ≡ c + (k * c + m) = omega arith in
    ap (λ n. chunks n c) e ∙ chunks-next c (k * c + m) h ∙ ap (◌∷◌ c) (chunks-append k c m h)

chunks_none : (c : ℕ) → chunks 0 c ≡ []
unfolding chunks
chunks_none c = rw (zero-div c, zero-mod c) refl

chunks_whole : (k c : ℕ) → 0 < c → chunks (k * c) c ≡ replicate k c
chunks_whole k c h =
    let e : k * c ≡ k * c + 0 = omega arith in
    ap (λ n. chunks n c) e
    ∙ chunks-append k c 0 h
    ∙ ap (λ ns. replicate k c ++ ns) (chunks_none c)
    ∙ append-nil (replicate k c)

pub replicate_add : (m n a : ℕ) → replicate (m + n) a ≡ replicate m a ++ replicate n a
replicate_add zero n a = ap (λ k. replicate k a) (omega arith)
replicate_add (suc m) n a =
    let e : suc m + n ≡ suc (m + n) = omega arith in
    ap (λ k. replicate k a) e ∙ ap (◌∷◌ a) (replicate_add m n a)

module _ (N : Floats) where
  -- Two lists of frames, one behind the other.
  abbrev behind : List ℕ → Playback N × List ℕ → Playback N × List ℕ → Playback N × List ℕ
  behind out (pb, a) (qb, b) = (qb, a ++ b)

  fill_frames-append :
      (step : N.F) (xs ys : List ℕ) (pb : Playback N)
      → (let x = fill_frames N step xs pb in
          let y = fill_frames N step ys x.0 in fill_frames N step (xs ++ ys) pb ≡ (y.0, x.1 ++ y.1))
  unfolding fill_frames
  fill_frames-append step [] ys pb = refl
  fill_frames-append step (n ∷ xs) ys pb =
      let f = fill_frame N step n pb in
      let x = fill_frames N step xs f.0 in
      ap (λ (r : Playback N × List ℕ). (r.0, f.1 ++ r.1)) (fill_frames-append step xs ys f.0)
      ∙ ap (λ out. ((fill_frames N step ys x.0).0, out))
          (sym (append_assoc f.1 x.1 (fill_frames N step ys x.0).1))

  pub fill_frame-finished :
      (step : N.F) (n : ℕ) (pb : Playback N)
      → pb.finished ≡ true
      → fill_frame N step n pb ≡ (pb, replicate n f32_zero)
  unfolding fill_frame
  fill_frame-finished step n pb h = ground arith

  pub fill_frames-finished :
      (step : N.F) (ns : List ℕ) (pb : Playback N)
      → pb.finished ≡ true
      → fill_frames N step ns pb ≡ (pb, replicate (sum ns) f32_zero)
  unfolding fill_frames
  fill_frames-finished step [] pb h = refl
  fill_frames-finished step (n ∷ ns) pb h =
      let zeros = replicate n f32_zero in
      ap
        (λ (f : Playback N × List ℕ).
          ((fill_frames N step ns f.0).0, f.1 ++ (fill_frames N step ns f.0).1))
        (fill_frame-finished step n pb h)
      ∙ ap (λ (r : Playback N × List ℕ). (r.0, zeros ++ r.1)) (fill_frames-finished step ns pb h)
      ∙ ap (λ out. (pb, out)) (sym (replicate_add n (sum ns) f32_zero))

  fill_frame-sound :
      (step : N.F) (n : ℕ) (pb : Playback N) → (fill_frame N step n pb).0.sound ≡ pb.sound
  unfolding fill_frame voice finish
  fill_frame-sound step n pb = ground arith

  fill_frames-sound :
      (step : N.F) (ns : List ℕ) (pb : Playback N) → (fill_frames N step ns pb).0.sound ≡ pb.sound
  unfolding fill_frames
  fill_frames-sound step [] pb = refl
  fill_frames-sound step (n ∷ ns) pb =
      fill_frames-sound step ns (fill_frame N step n pb).0 ∙ fill_frame-sound step n pb

  frame_samples-length :
      (sound : DecodedSound) (gain base ch n : ℕ)
      → length (frame_samples N sound gain base ch n) ≡ n
  unfolding frame_samples
  frame_samples-length sound gain base ch zero = refl
  frame_samples-length sound gain base ch (suc n) =
      ap suc (frame_samples-length sound gain base (suc ch) n)

  voice-length :
      (step : N.F) (n : ℕ) (pb : Playback N) (cursor : N.F) (idx : ℕ)
      → length (voice N step n pb cursor idx).1 ≡ n
  unfolding voice
  voice-length step n pb cursor idx = frame_samples-length pb.sound _ _ 0 n

  fill_frame-length : (step : N.F) (n : ℕ) (pb : Playback N) → length (fill_frame N step n pb).1 ≡ n
  unfolding fill_frame
  fill_frame-length step n pb =
      let wrapped = N.rem pb.cursor_frames (N.of_int (frames pb.sound)) in
      ground (
        arith,
        length-replicate n f32_zero,
        voice-length step n pb pb.cursor_frames (N.to_usize pb.cursor_frames),
        voice-length step n pb wrapped (N.to_usize wrapped),
      )

  fill_frames-length :
      (step : N.F) (ns : List ℕ) (pb : Playback N) → length (fill_frames N step ns pb).1 ≡ sum ns
  unfolding fill_frames
  fill_frames-length step [] pb = refl
  fill_frames-length step (n ∷ ns) pb =
      let f = fill_frame N step n pb in
      omega (
        arith,
        length-append f.1 (fill_frames N step ns f.0).1,
        fill_frame-length step n pb,
        fill_frames-length step ns f.0,
      )

module _ (N : Floats) (channels rate : ℕ) (h : 0 < channels) where
  -- A buffer's old content does not matter where the device has channels.
  fill_playback-replicate :
      (output : List ℕ) (o : Option (Playback N))
      → fill_playback N output channels rate o
        ≡ fill_playback N (replicate (length output) f32_zero) channels rate o
  unfolding fill_playback
  fill_playback-replicate output none =
      ap (λ n. (none, replicate n f32_zero)) (sym (length-replicate (length output) f32_zero))
  fill_playback-replicate output (some pb) =
      ap
        (λ n.
          let x = fill_frames N (step_of N pb.sound.sample_rate rate) (chunks n channels) pb in
          (settle N x.0, x.1))
        (sym (length-replicate (length output) f32_zero))

  fill_playback-length :
      (output : List ℕ) (o : Option (Playback N))
      → length (fill_playback N output channels rate o).1 ≡ length output
  unfolding fill_playback
  fill_playback-length output none = length-replicate (length output) f32_zero
  fill_playback-length output (some pb) =
      fill_frames-length N (step_of N pb.sound.sample_rate rate) (chunks (length output) channels)
        pb
      ∙ sum-chunks (length output) channels

  settle_over :
      (pb : Playback N) → (pb.finished && not pb.profile.repeat) ≡ true → settle N pb ≡ none
  unfolding settle
  settle_over pb e = rw e refl

  settle_on :
      (pb : Playback N) → (pb.finished && not pb.profile.repeat) ≡ false → settle N pb ≡ some pb
  unfolding settle
  settle_on pb e = rw e refl

  over-finished :
      (pb : Playback N) → (pb.finished && not pb.profile.repeat) ≡ true → pb.finished ≡ true
  over-finished pb e = ground arith

  abbrev filled : (n : ℕ) (s : DecodedSound) → Playback N → Playback N × List ℕ
  filled n s pb = fill_frames N (step_of N s.sample_rate rate) (chunks n channels) pb

  -- What a second buffer holds, behind a first one.
  settled-fill :
      (b : List ℕ) (pb : Playback N)
      → (let x = filled (length b) pb.sound pb in
          fill_playback N b channels rate (settle N pb) ≡ (settle N x.0, x.1))
  unfolding fill_playback
  settled-fill b pb = elim (Bool-cases (pb.finished && not pb.profile.repeat)) [
    | inr e ↦ ap (λ o. fill_playback N b channels rate o) (settle_on pb e)
    | inl e ↦
        ap (λ o. fill_playback N b channels rate o) (settle_over pb e)
        ∙ ap (λ n. (none, replicate n f32_zero)) (sym (sum-chunks (length b) channels))
        ∙ ap (λ o. (o, replicate (sum (chunks (length b) channels)) f32_zero))
            (sym (settle_over pb e))
        ∙ ap (λ (x : Playback N × List ℕ). (settle N x.0, x.1))
            (sym (
              fill_frames-finished N (step_of N pb.sound.sample_rate rate)
                (chunks (length b) channels) pb (over-finished pb e)))
  ]

  chunks-both :
      (a b : List ℕ) (k : ℕ)
      → length a ≡ k * channels
      → chunks (length (a ++ b)) channels ≡ chunks (length a) channels ++ chunks (length b) channels
  chunks-both a b k e =
      ap (λ n. chunks n channels) (length-append a b ∙ ap (λ n. n + length b) e)
      ∙ chunks-append k channels (length b) h
      ∙ ap (λ l. l ++ chunks (length b) channels)
          (sym (ap (λ n. chunks n channels) e ∙ chunks_whole k channels h))

  fill_playback-append :
      (a b : List ℕ) (k : ℕ) (o : Option (Playback N))
      → length a ≡ k * channels
      → (let x = fill_playback N a channels rate o in
          let y = fill_playback N b channels rate x.0 in
          fill_playback N (a ++ b) channels rate o ≡ (y.0, x.1 ++ y.1))
  unfolding fill_playback
  fill_playback-append a b k none e =
      ap (λ out. (none, out))
        (ap (λ n. replicate n f32_zero) (length-append a b)
          ∙ replicate_add (length a) (length b) f32_zero)
  fill_playback-append a b k (some pb) e =
      let step = step_of N pb.sound.sample_rate rate in
      let x = filled (length a) pb.sound pb in
      ap (λ (r : Playback N × List ℕ). (settle N r.0, r.1))
        (ap (λ l. fill_frames N step l pb) (chunks-both a b k e)
          ∙ fill_frames-append N step (chunks (length a) channels) (chunks (length b) channels) pb)
      ∙ ap (λ s. let y = filled (length b) s x.0 in (settle N y.0, x.1 ++ y.1))
          (sym (fill_frames-sound N step (chunks (length a) channels) pb))
      ∙ ap (λ (z : Option (Playback N) × List ℕ). (z.0, x.1 ++ z.1)) (sym (settled-fill b x.0))

  pub fill_f32-playback :
      (output : List ℕ) (sh : Shared N)
      → (let x = fill_playback N output channels rate sh.playback in
          fill_f32 N output channels rate sh
          ≡ (record { playback = x.0; device_lost = sh.device_lost }, x.1))
  unfolding fill_f32
  fill_f32-playback output sh =
      let nonzero : (channels == 0) ≡ false = ground arith in if-false (channels == 0) _ _ nonzero

  abbrev with_lost : Bool → Option (Playback N) × List ℕ → Shared N × List ℕ
  with_lost lost (o, out) = (record { playback = o; device_lost = lost }, out)

  pub fill_f32-replicate :
      (output : List ℕ) (sh : Shared N)
      → fill_f32 N output channels rate sh
        ≡ fill_f32 N (replicate (length output) f32_zero) channels rate sh
  fill_f32-replicate output sh =
      fill_f32-playback output sh
      ∙ ap (with_lost sh.device_lost) (fill_playback-replicate output sh.playback)
      ∙ sym (fill_f32-playback (replicate (length output) f32_zero) sh)

  pub fill_f32-length :
      (output : List ℕ) (sh : Shared N)
      → length (fill_f32 N output channels rate sh).1 ≡ length output
  fill_f32-length output sh =
      ap (λ r. length r.1) (fill_f32-playback output sh) ∙ fill_playback-length output sh.playback

  -- A buffer of whole frames and a second one are filled as one buffer is.
  pub fill_f32-append :
      (a b : List ℕ) (k : ℕ) (sh : Shared N)
      → length a ≡ k * channels
      → (let x = fill_f32 N a channels rate sh in
          let y = fill_f32 N b channels rate x.0 in
          fill_f32 N (a ++ b) channels rate sh ≡ (y.0, x.1 ++ y.1))
  fill_f32-append a b k sh e =
      let x = fill_playback N a channels rate sh.playback in
      let at : Shared N = record { playback = x.0; device_lost = sh.device_lost } in
      fill_f32-playback (a ++ b) sh
      ∙ ap (with_lost sh.device_lost) (fill_playback-append a b k sh.playback e)
      ∙ ap (λ (y : Shared N × List ℕ). (y.0, x.1 ++ y.1)) (sym (fill_f32-playback b at))
      ∙ ap (λ (x : Shared N × List ℕ). let y = fill_f32 N b channels rate x.0 in (y.0, x.1 ++ y.1))
          (sym (fill_f32-playback a sh))
