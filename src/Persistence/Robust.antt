-- ===== src/Persistence/Robust.antt =====
-- Decoding any bytes: alarm-daemon/src/daemon/persistence/mod.rs, `decode_state`.
use alarm_daemon.Base.{
  ℕ, zero, suc, ◌+◌, ◌-◌, ◌^◌, ◌≤◌, ◌<◌, ◌≡◌, ◌≢◌, refl, Bool, none, some, [], ◌∷◌, arith, length,
  take, drop, All, Result, ok, err, Option-cases, Result-cases, get_elem?, not, ◌==◌, inl, inr,
  length-take_le, length-drop,
}
use alarm_daemon.Base.Bytes.{Bytes, IsByte, from_le_bytes, from_le_bytes-lt}
use alarm_daemon.Base.Int.{IsI64, of_word, of_word-IsI64}
use alarm_daemon.State.{PersistedState}
use alarm_daemon.Persistence.Codec.{
  PersistenceError, corrupted, next_fire_overflow, sound_len_overflow, sound_body_overflow,
  get_range, checked_add, from_utf8, NextFire, field, ended, read_next_fire, decode_next_fire,
  read_sound, decode_sound, decode_rest, decode_body_v1, decode_state, encode_state,
}
use alarm_daemon.Persistence.RoundTrip.{InRange}
use alarm_daemon.Persistence.Laws.{SoundFits, IsStorable, decode_state-encode_state}

All-take : (n : ℕ) (s : Bytes) → All IsByte s → All IsByte (take n s)
All-take zero s h = tt
All-take (suc n) [] h = tt
All-take (suc n) (b ∷ s) h = (h.0, All-take n s h.1)

All-drop : (n : ℕ) (s : Bytes) → All IsByte s → All IsByte (drop n s)
All-drop zero s h = h
All-drop (suc n) [] h = tt
All-drop (suc n) (b ∷ s) h = All-drop n s h.1

-- A slice that exists has the length asked for, and its elements are bytes.
get_range_slice :
    (s : Bytes) (a b : ℕ) (slice : Bytes)
    → get_range s a b ≡ some slice
    → All IsByte s
    → (length slice ≡ b - a) × (b ≤ length s) × All IsByte slice
unfolding get_range
get_range_slice s a b slice e h = ground (
  arith,
  length-take_le (b - a) (drop a s),
  length-drop a s,
  All-take (b - a) (drop a s) (All-drop a s h),
)

word_IsI64 :
    (word : Bytes) → length word ≡ 8 → All IsByte word → IsI64 (of_word (from_le_bytes word))
word_IsI64 word e h = of_word-IsI64 _ (omega (arith, from_le_bytes-lt 8 word e h))

abbrev NextFireFits : NextFire → Type 0
NextFireFits ended = Unit {0}
NextFireFits (field t c) = InRange t

abbrev pub IsCorrupted : PersistenceError → Type 0
IsCorrupted (corrupted next_fire_overflow) = ⊥
IsCorrupted (corrupted sound_len_overflow) = ⊥
IsCorrupted (corrupted sound_body_overflow) = ⊥
IsCorrupted (corrupted _) = Unit {0}
IsCorrupted _ = ⊥

-- What every answer of a reader meets: `P` of a value, and of an error that it is `Corrupted` and
-- tells of no offset overflow.
abbrev pub Answers : {A : Type 0} → (A → Type 0) → Result PersistenceError A → Type 0
Answers P (ok a) = P a
Answers P (err e) = IsCorrupted e

get_elem?-lt : (s : Bytes) (i : ℕ) → get_elem? s i ≢ none → i < length s
get_elem?-lt [] i h = absurd (h refl)
get_elem?-lt (b ∷ s) zero h = omega arith
get_elem?-lt (b ∷ s) (suc i) h = omega (arith, get_elem?-lt s i h)

module _ (bytes : Bytes) (are_bytes : All IsByte bytes) (short : length bytes < 2 ^ 63) where
  read_next_fire-Answers :
      (c : ℕ) → c ≤ length bytes → Answers NextFireFits (read_next_fire bytes c)
  unfolding read_next_fire checked_add
  read_next_fire-Answers c h = elim (Option-cases (get_range bytes c (c + 8))) [
    | inl e ↦ ground (arith, e)
    | inr (slice, e) ↦
        let (size, _, good) = get_range_slice bytes c (c + 8) slice e are_bytes in
        ground (arith, e, word_IsI64 slice (omega (arith, size)) good)
  ]

  decode_next_fire-Answers : (c : ℕ) → Answers NextFireFits (decode_next_fire bytes c)
  unfolding decode_next_fire
  decode_next_fire-Answers c = ground (arith, read_next_fire-Answers (c + 1), get_elem?-lt bytes c)

  sound_body :
      (c : ℕ) (len_bytes : Bytes)
      → get_range bytes c (c + 2) ≡ some len_bytes
      → from_le_bytes len_bytes < 65536
      → c + 2 ≤ length bytes
      → Answers SoundFits (read_sound bytes c)
  unfolding read_sound checked_add from_utf8
  sound_body c len_bytes e small inside =
      let end = c + 2 + from_le_bytes len_bytes in
      elim (Option-cases (get_range bytes (c + 2) end)) [
        | inl f ↦ ground (arith, e, f)
        | inr (body, f) ↦ ground (arith, e, f, get_range_slice bytes (c + 2) end body f are_bytes)
      ]

  read_sound-Answers : (c : ℕ) → c ≤ length bytes → Answers SoundFits (read_sound bytes c)
  unfolding read_sound checked_add from_utf8
  read_sound-Answers c h = elim (Option-cases (get_range bytes c (c + 2))) [
    | inl e ↦ ground (arith, e)
    | inr (len_bytes, e) ↦
        let (size, inside, good) = get_range_slice bytes c (c + 2) len_bytes e are_bytes in
        let small : from_le_bytes len_bytes < 65536 =
          from_le_bytes-lt 2 len_bytes (omega (arith, size)) good in
        sound_body c len_bytes e small inside
  ]

  decode_sound-Answers : (c : ℕ) → Answers SoundFits (decode_sound bytes c)
  unfolding decode_sound
  decode_sound-Answers c = ground (arith, read_sound-Answers (c + 1), get_elem?-lt bytes c)

  decode_rest-Answers :
      (armed : Bool) (next : NextFire)
      → NextFireFits next
      → Answers IsStorable (decode_rest bytes armed next)
  unfolding decode_rest
  decode_rest-Answers armed ended h = record { in_range = tt; sound_fits = tt }
  decode_rest-Answers armed (field t c) h = ground (arith, decode_sound-Answers c)

decode_body_v1-Answers :
    (bytes : Bytes)
    → All IsByte bytes
    → length bytes < 2 ^ 63
    → Answers IsStorable (decode_body_v1 bytes)
unfolding decode_body_v1
decode_body_v1-Answers [] h short = record { in_range = tt; sound_fits = tt }
decode_body_v1-Answers (b ∷ rest) h short = elim (Result-cases (decode_next_fire (b ∷ rest) 1)) [
  | inl (next, e) ↦ rw e (
      decode_rest-Answers (b ∷ rest) h short (not (b == 0)) next
        (rw e at (decode_next_fire-Answers (b ∷ rest) h short 1)))
  | inr (x, e) ↦ rw e (rw e at (decode_next_fire-Answers (b ∷ rest) h short 1))
]

-- Any bytes whatever, of a length that a slice can have, decode to a state that can be stored again
-- (its fire time an `i64`, its sound UTF-8 of at most 65,535 bytes), or are refused as `Corrupted`.
-- No offset overflows, so none of the three overflow messages is ever given.
pub decode_state-Answers :
    (bytes : Bytes)
    → All IsByte bytes
    → length bytes < 2 ^ 63
    → Answers IsStorable (decode_state bytes)
unfolding decode_state
decode_state-Answers [] h short = decode_body_v1-Answers [] h short
decode_state-Answers (m ∷ []) h short = decode_body_v1-Answers (m ∷ []) h short
decode_state-Answers (m ∷ n ∷ []) h short = decode_body_v1-Answers (m ∷ n ∷ []) h short
decode_state-Answers (m ∷ n ∷ version ∷ body) h short = ground (
  arith,
  decode_body_v1-Answers body h.1.1.1 (omega arith),
  decode_body_v1-Answers (m ∷ n ∷ version ∷ body) h short,
)

-- What was read from any bytes survives being written and read again.
pub decode_state_again :
    (bytes : Bytes) (s : PersistedState)
    → All IsByte bytes
    → length bytes < 2 ^ 63
    → decode_state bytes ≡ ok s
    → decode_state (encode_state s) ≡ ok s
decode_state_again bytes s h short e =
    decode_state-encode_state s (rw e at (decode_state-Answers bytes h short))
