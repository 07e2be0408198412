-- ===== src/Persistence/Codec.antt =====
-- The value layout of alarm-daemon/src/daemon/persistence/mod.rs, and the errors of
-- persistence_error.rs. A byte vector or slice is a list of numbers; an `i64` is an integer whose
-- pattern is written in eight bytes. A usize is below 2 ^ 64.
use alarm_daemon.Base.{
  ℕ, ◌+◌, ◌-◌, ◌^◌, Bool, true, false, ◌&&◌, not, Option, none, some, [], ◌∷◌, ◌++◌, String, ltb,
  leb, ◌==◌, if◌then◌else◌, length, get_elem?, take, drop, Result, ok, err, ok_or, ◌>>=◌,
}
use alarm_daemon.Base.Bytes.{Bytes, ascii, bytes_eq, to_le_bytes, from_le_bytes}
use alarm_daemon.Base.Int.{ℤ, to_word, of_word}
use alarm_daemon.Base.Utf8.{is_utf8}
use alarm_daemon.State.{PersistedState, default_persisted}

-- The messages that `PersistenceError::Corrupted` is built with, the numbers in them kept.
pub data Corruption : Type 0 where
  handle_unavailable next_fire_overflow missing_next_fire : Corruption
  sound_len_overflow missing_sound_len sound_body_overflow missing_sound_body : Corruption
  sound_utf8 : Corruption
  unsupported_version unknown_next_fire_tag unknown_sound_tag : ℕ → Corruption

-- An error of the database library or the system is its message.
pub data PersistenceError : Type 0 where
  io database txn table commit read : String → PersistenceError
  corrupted : Corruption → PersistenceError

abbrev pub schema_magic : Bytes
schema_magic = ascii "AD"

abbrev pub schema_version : ℕ
schema_version = 1

-- The length written for a sound: `u16::try_from(len)`, or `u16::MAX` with a warning.
abbrev pub stored_len : Bytes → ℕ
stored_len s = if leb (length s) 65535 then length s else 65535

unfoldable pub encode_next_fire : Option ℤ → Bytes
encode_next_fire (some v) = 1 ∷ to_le_bytes 8 (to_word v)
encode_next_fire none = 0 ∷ []

unfoldable pub encode_sound : Option Bytes → Bytes
encode_sound (some s) = 1 ∷ to_le_bytes 2 (stored_len s) ++ take (stored_len s) s
encode_sound none = 0 ∷ []

abbrev pub byte_of_bool : Bool → ℕ
byte_of_bool true = 1
byte_of_bool false = 0

unfoldable pub encode_body_v1 : PersistedState → Bytes
unfolding encode_next_fire encode_sound to_le_bytes to_word
encode_body_v1 s =
    byte_of_bool s.armed ∷ encode_next_fire s.next_fire_unix_ms ++ encode_sound s.current_sound

unfoldable pub encode_state : PersistedState → Bytes
unfolding encode_body_v1
encode_state s = schema_magic ++ schema_version ∷ encode_body_v1 s

-- `usize::checked_add`
unfoldable pub checked_add : ℕ → ℕ → Option ℕ
checked_add a b = if ltb (a + b) (2 ^ 64) then some (a + b) else none

-- `slice.get(a..b)`
unfoldable pub get_range : Bytes → ℕ → ℕ → Option Bytes
get_range s a b = if leb a b && leb b (length s) then some (take (b - a) (drop a s)) else none

-- The first `match` of `decode_body_v1`: the input is used up, or a value and the next offset.
pub data NextFire : Type 0 where
  ended : NextFire
  field : Option ℤ → ℕ → NextFire

unfoldable pub read_next_fire : Bytes → ℕ → Result PersistenceError NextFire
read_next_fire bytes cursor = do
  end ← ok_or (checked_add cursor 8) (corrupted next_fire_overflow)
  slice ← ok_or (get_range bytes cursor end) (corrupted missing_next_fire)
  ok (field (some (of_word (from_le_bytes slice))) end)

unfoldable pub decode_next_fire : Bytes → ℕ → Result PersistenceError NextFire
decode_next_fire bytes cursor = elim (get_elem? bytes cursor) [
  | none ↦ ok ended
  | some tag ↦
      if tag == 0
      then ok (field none (cursor + 1))
      else if tag == 1
      then read_next_fire bytes (cursor + 1)
      else err (corrupted (unknown_next_fire_tag tag))
]

-- `String::from_utf8`
unfoldable pub from_utf8 : Bytes → Result PersistenceError Bytes
from_utf8 s = if is_utf8 s then ok s else err (corrupted sound_utf8)

unfoldable pub read_sound : Bytes → ℕ → Result PersistenceError (Option Bytes)
read_sound bytes cursor = do
  len_end ← ok_or (checked_add cursor 2) (corrupted sound_len_overflow)
  len_slice ← ok_or (get_range bytes cursor len_end) (corrupted missing_sound_len)
  body_end ← ok_or (checked_add len_end (from_le_bytes len_slice)) (corrupted sound_body_overflow)
  body ← ok_or (get_range bytes len_end body_end) (corrupted missing_sound_body)
  sound ← from_utf8 body
  ok (some sound)

unfoldable pub decode_sound : Bytes → ℕ → Result PersistenceError (Option Bytes)
decode_sound bytes cursor = elim (get_elem? bytes cursor) [
  | none ↦ ok none
  | some tag ↦
      if tag == 0
      then ok none
      else if tag == 1
      then read_sound bytes (cursor + 1)
      else err (corrupted (unknown_sound_tag tag))
]

unfoldable pub decode_rest : Bytes → Bool → NextFire → Result PersistenceError PersistedState
decode_rest bytes armed ended =
    ok (record { armed = armed; next_fire_unix_ms = none; current_sound = none })
decode_rest bytes armed (field next_fire cursor) = do
  sound ← decode_sound bytes cursor
  ok (record { armed = armed; next_fire_unix_ms = next_fire; current_sound = sound })

unfoldable pub decode_body_v1 : Bytes → Result PersistenceError PersistedState
unfolding decode_rest decode_next_fire read_next_fire decode_sound read_sound of_word from_le_bytes
    checked_add get_range from_utf8 is_utf8
decode_body_v1 [] = ok default_persisted
decode_body_v1 (b ∷ rest) = do
  next ← decode_next_fire (b ∷ rest) 1
  decode_rest (b ∷ rest) (not (b == 0)) next

-- `&bytes[3..]` behind the test for the magic and a version byte.
unfoldable pub decode_versioned : ℕ → Bytes → Result PersistenceError PersistedState
decode_versioned version body =
    if version == schema_version
    then decode_body_v1 body
    else err (corrupted (unsupported_version version))

unfoldable pub decode_state : Bytes → Result PersistenceError PersistedState
unfolding decode_versioned decode_body_v1 bytes_eq
decode_state (m ∷ n ∷ version ∷ body) =
    if bytes_eq (m ∷ n ∷ []) schema_magic
    then decode_versioned version body
    else decode_body_v1 (m ∷ n ∷ version ∷ body)
decode_state bytes = decode_body_v1 bytes
