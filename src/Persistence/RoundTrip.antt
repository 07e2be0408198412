-- ===== src/Persistence/RoundTrip.antt =====
-- Reading back what was written: alarm-daemon/src/daemon/persistence/mod.rs, `encode_state` and
-- `decode_state`.
use alarm_daemon.Base.{
  ℕ, ◌+◌, ◌-◌, ◌^◌, ◌≤◌, ◌<◌, ◌≡◌, refl, sym, ◌∙◌, Bool, true, false, not, ◌==◌, Option, none, some,
  [], ◌∷◌, ◌++◌, arith, length, length-append, length-take_le, take, take-append, drop, drop-append,
  get_elem?, get_elem?-append, Result, ok, ◌>>=◌,
}
use mathlib.Core.List.{append-nil, append_assoc}
use alarm_daemon.Base.Bytes.{
  Bytes, to_le_bytes, from_le_bytes, length-to_le_bytes, from_le_bytes-to_le_bytes,
}
use alarm_daemon.Base.Int.{ℤ, IsI64, to_word, of_word, to_word-lt, of_word-to_word}
use alarm_daemon.State.{PersistedState}
use alarm_daemon.Persistence.Codec.{
  PersistenceError, stored_len, encode_next_fire, encode_sound, byte_of_bool, encode_body_v1,
  get_range, checked_add, from_utf8, field, read_next_fire, decode_next_fire, read_sound,
  decode_sound, decode_rest, decode_body_v1,
}

-- A slice between two known parts.
drop-front : (front rest : Bytes) (a : ℕ) → a ≡ length front → drop a (front ++ rest) ≡ rest
drop-front front rest a e = rw e (drop-append front rest)

take-middle : (middle back : Bytes) (n : ℕ) → n ≡ length middle → take n (middle ++ back) ≡ middle
take-middle middle back n e = rw e (take-append middle back)

get_range-append :
    (front middle back : Bytes) (a b : ℕ)
    → a ≡ length front
    → b ≡ length front + length middle
    → get_range (front ++ (middle ++ back)) a b ≡ some middle
unfolding get_range
get_range-append front middle back a b ea eb =
    rw (drop-front front (middle ++ back) a ea, take-middle middle back (b - a) (omega arith))
      (ground (arith, length-append front (middle ++ back), length-append middle back))

-- What the reader makes of a sound that was written: the stored bytes, if they are UTF-8.
unfoldable pub stored_sound : Bytes → Bytes
stored_sound s = take (stored_len s) s

length-stored : (s : Bytes) → length (take (stored_len s) s) ≡ stored_len s
length-stored s = length-take_le (stored_len s) s (ground arith)

checked_add-fits : (a b : ℕ) → a + b < 2 ^ 64 → checked_add a b ≡ some (a + b)
unfolding checked_add
checked_add-fits a b h = ground arith

read_sound_parts :
    (bytes len_bytes body : Bytes) (c : ℕ)
    → c ≤ 32
    → from_le_bytes len_bytes < 65536
    → get_range bytes c (c + 2) ≡ some len_bytes
    → get_range bytes (c + 2) (c + 2 + from_le_bytes len_bytes) ≡ some body
    → read_sound bytes c ≡ (from_utf8 body >>= λ t. ok (some t))
unfolding read_sound
read_sound_parts bytes len_bytes body c hc hl e f = rw (
  checked_add-fits c 2 (omega arith),
  e,
  checked_add-fits (c + 2) (from_le_bytes len_bytes) (omega arith),
  f,
)

stored_len-lt : (s : Bytes) → stored_len s < 65536
stored_len-lt s = ground arith

decode_sound_present :
    (bytes : Bytes) (c : ℕ)
    → get_elem? bytes c ≡ some 1
    → decode_sound bytes c ≡ read_sound bytes (c + 1)
unfolding decode_sound
decode_sound_present bytes c e = rw (e, decode_sound)

decode_sound_absent :
    (bytes : Bytes) (c : ℕ) → get_elem? bytes c ≡ some 0 → decode_sound bytes c ≡ ok none
unfolding decode_sound
decode_sound_absent bytes c e = rw (e, decode_sound)

-- A sound written behind `front` is read from the offset of its tag.
decode_sound-encode_some :
    (front s : Bytes)
    → length front ≤ 16
    → decode_sound (front ++ encode_sound (some s)) (length front)
      ≡ (from_utf8 (stored_sound s) >>= λ t. ok (some t))
unfolding encode_sound stored_sound
decode_sound-encode_some front s small =
    let n = stored_len s in
    let len_bytes = to_le_bytes 2 n in
    let body = take n s in
    let value : from_le_bytes len_bytes ≡ n =
      from_le_bytes-to_le_bytes 2 n (omega (arith, stored_len-lt s)) in
    let size : length len_bytes ≡ 2 = length-to_le_bytes 2 n in
    let first : front ++ 1 ∷ (len_bytes ++ body) ≡ (front ++ 1 ∷ []) ++ (len_bytes ++ body) =
      sym (append_assoc front (1 ∷ []) (len_bytes ++ body)) in
    let second : front ++ 1 ∷ (len_bytes ++ body)
        ≡ ((front ++ 1 ∷ []) ++ len_bytes) ++ (body ++ []) =
      rw (append-nil, append_assoc (front ++ 1 ∷ []) len_bytes body) first in
    decode_sound_present _ (length front) (get_elem?-append front 1 (len_bytes ++ body))
    ∙ read_sound_parts _ len_bytes body (length front + 1) (omega arith)
        (omega (arith, value, stored_len-lt s))
        (rw first (
          get_range-append (front ++ 1 ∷ []) len_bytes body _ _
            (omega (arith, length-append front (1 ∷ [])))
            (omega (arith, length-append front (1 ∷ []), size))))
        (rw second (
          get_range-append ((front ++ 1 ∷ []) ++ len_bytes) body [] _ _
            (omega (
              arith,
              length-append front (1 ∷ []),
              size,
              length-append (front ++ 1 ∷ []) len_bytes,
            ))
            (omega (
              arith,
              length-append front (1 ∷ []),
              size,
              value,
              length-stored s,
              length-append (front ++ 1 ∷ []) len_bytes,
            ))))

decode_sound-encode_none :
    (front : Bytes) → decode_sound (front ++ encode_sound none) (length front) ≡ ok none
unfolding encode_sound
decode_sound-encode_none front = decode_sound_absent _ (length front) (get_elem?-append front 0 [])

-- A fire time that fits its eight bytes.
abbrev pub InRange : Option ℤ → Type 0
InRange none = Unit {0}
InRange (some v) = IsI64 v

read_next_fire_parts :
    (bytes word : Bytes)
    → get_range bytes 2 10 ≡ some word
    → read_next_fire bytes 2 ≡ ok (field (some (of_word (from_le_bytes word))) 10)
unfolding read_next_fire checked_add
read_next_fire_parts bytes word e = rw e

fire_front : ℕ → Option ℤ → Bytes
fire_front b next_fire = b ∷ encode_next_fire next_fire

-- The offset behind a written `next_fire` is where the sound starts.
decode_next_fire-encode :
    (b : ℕ) (next_fire : Option ℤ) (rest : Bytes)
    → InRange next_fire
    → (decode_next_fire (fire_front b next_fire ++ rest) 1
        ≡ ok (field next_fire (length (fire_front b next_fire))))
      × (length (fire_front b next_fire) ≤ 16)
unfolding decode_next_fire encode_next_fire fire_front
decode_next_fire-encode b none rest h = (refl, omega arith)
decode_next_fire-encode b (some v) rest h =
    let word = to_le_bytes 8 (to_word v) in
    let size : length word ≡ 8 = length-to_le_bytes 8 (to_word v) in
    let value : of_word (from_le_bytes word) ≡ v =
      rw (from_le_bytes-to_le_bytes 8 (to_word v) (to_word-lt v)) (of_word-to_word v h) in
    let slice : get_range (b ∷ 1 ∷ (word ++ rest)) 2 10 ≡ some word =
      get_range-append (b ∷ 1 ∷ []) word rest 2 10 refl (omega (arith, size)) in
    (
      rw (read_next_fire_parts (b ∷ 1 ∷ (word ++ rest)) word slice, value, size) refl,
      omega (arith, size),
    )

-- The state that a reader gets from a written one: the same, but for a sound cut at 65,535 bytes,
-- which is an error where the cut is not UTF-8.
unfoldable pub read_back : PersistedState → Result PersistenceError PersistedState
read_back s = elim s.current_sound [
  | none ↦ ok s
  | some sound ↦ from_utf8 (stored_sound sound) >>= λ t. ok (record s { current_sound = some t })
]

byte_of_bool-is_zero : (b : Bool) → not (byte_of_bool b == 0) ≡ b
byte_of_bool-is_zero true = refl
byte_of_bool-is_zero false = refl

decode_rest-encode :
    (front : Bytes) (armed : Bool) (next_fire : Option ℤ) (sound : Option Bytes)
    → length front ≤ 16
    → decode_rest (front ++ encode_sound sound) armed (field next_fire (length front))
      ≡ read_back (record { armed = armed; next_fire_unix_ms = next_fire; current_sound = sound })
unfolding decode_rest read_back
decode_rest-encode front armed next_fire none h = rw (decode_sound-encode_none front)
decode_rest-encode front armed next_fire (some s) h =
    rw (decode_sound-encode_some front s h) (ground arith)

-- On every state with a fire time in range, decoding the body that was encoded gives `read_back`.
pub decode_body_v1-encode_body_v1 :
    (s : PersistedState)
    → InRange s.next_fire_unix_ms
    → decode_body_v1 (encode_body_v1 s) ≡ read_back s
unfolding decode_body_v1 encode_body_v1 fire_front
decode_body_v1-encode_body_v1 s h =
    let b = byte_of_bool s.armed in
    let (next, small) =
      decode_next_fire-encode b s.next_fire_unix_ms (encode_sound s.current_sound) h in
    rw (next, byte_of_bool-is_zero s.armed)
      (decode_rest-encode (fire_front b s.next_fire_unix_ms) s.armed s.next_fire_unix_ms
        s.current_sound small)
