-- ===== src/Persistence/Laws.antt =====
-- What the stored layout promises: alarm-daemon/src/daemon/persistence/mod.rs.
use alarm_daemon.Base.{
  ◌≤◌, ◌<◌, ◌≡◌, refl, ◌∙◌, Bool, true, false, Option, none, some, arith, length, take, take-length,
  ok, err, ◌>>=◌, if◌then◌else◌,
}
use alarm_daemon.Base.Bytes.{Bytes}
use alarm_daemon.Base.Int.{ℤ}
use alarm_daemon.Base.Utf8.{is_utf8, IsUtf8}
use alarm_daemon.State.{PersistedState}
use alarm_daemon.Persistence.Codec.{
  corrupted, sound_utf8, stored_len, from_utf8, encode_body_v1, encode_state, decode_state,
}
use alarm_daemon.Persistence.RoundTrip.{
  InRange, stored_sound, read_back, decode_body_v1-encode_body_v1,
}

-- A sound that is UTF-8, as each Rust string is, and fits the two bytes of its length.
abbrev pub SoundFits : Option Bytes → Type 0
SoundFits none = Unit {0}
SoundFits (some s) = IsUtf8 s × (length s ≤ 65535)

pub record IsStorable (s : PersistedState) : Type 0 where
  pub in_range : InRange s.next_fire_unix_ms
  pub sound_fits : SoundFits s.current_sound

stored_sound_fits : (s : Bytes) → length s ≤ 65535 → stored_sound s ≡ s
unfolding stored_sound
stored_sound_fits s h = let e : stored_len s ≡ length s = ground arith in rw (e, take-length s)

read_back_sound :
    (armed : Bool) (next_fire : Option ℤ) (sound : Option Bytes)
    → SoundFits sound
    → let s : PersistedState = record {
      armed = armed;
      next_fire_unix_ms = next_fire;
      current_sound = sound;
    } in
      read_back s ≡ ok s
unfolding read_back from_utf8
read_back_sound armed next_fire none h = refl
read_back_sound armed next_fire (some s) h = rw (stored_sound_fits s h.1, h.0)

read_back-IsStorable : (s : PersistedState) → IsStorable s → read_back s ≡ ok s
read_back-IsStorable s h = read_back_sound s.armed s.next_fire_unix_ms s.current_sound h.sound_fits

decode_state-read_back :
    (s : PersistedState) → InRange s.next_fire_unix_ms → decode_state (encode_state s) ≡ read_back s
unfolding decode_state encode_state
decode_state-read_back s h = decode_body_v1-encode_body_v1 s h

-- A state whose fire time is an `i64` and whose sound is UTF-8 of at most 65,535 bytes is read back
-- from its encoding unchanged.
pub decode_state-encode_state :
    (s : PersistedState) → IsStorable s → decode_state (encode_state s) ≡ ok s
decode_state-encode_state s h = decode_state-read_back s h.in_range ∙ read_back-IsStorable s h

legacy_body :
    (armed : Bool) (next_fire : Option ℤ) (sound : Option Bytes)
    → let s : PersistedState = record {
      armed = armed;
      next_fire_unix_ms = next_fire;
      current_sound = sound;
    } in
      InRange next_fire → decode_state (encode_body_v1 s) ≡ read_back s
unfolding decode_state encode_body_v1
legacy_body true none none h = decode_body_v1-encode_body_v1 _ h
legacy_body false none none h = decode_body_v1-encode_body_v1 _ h
legacy_body true none (some s) h = decode_body_v1-encode_body_v1 _ h
legacy_body false none (some s) h = decode_body_v1-encode_body_v1 _ h
legacy_body true (some v) sound h = decode_body_v1-encode_body_v1 _ h
legacy_body false (some v) sound h = decode_body_v1-encode_body_v1 _ h

-- The layout without the "AD" prefix, as v0.1 wrote it, is read back unchanged too: no body starts
-- with the magic, so it is never taken for a versioned value.
pub decode_state-encode_body_v1 :
    (s : PersistedState) → IsStorable s → decode_state (encode_body_v1 s) ≡ ok s
decode_state-encode_body_v1 s h =
    legacy_body s.armed s.next_fire_unix_ms s.current_sound h.in_range ∙ read_back-IsStorable s h

stored_sound_long : (s : Bytes) → 65535 < length s → stored_sound s ≡ take 65535 s
unfolding stored_sound
stored_sound_long s h = let e : stored_len s ≡ 65535 = ground arith in rw e

checked_sound :
    (s : PersistedState) (cut : Bytes)
    → ◌>>=◌ {B = PersistedState} (from_utf8 cut) (λ t. ok (record s { current_sound = some t })) ≡ (
        if is_utf8 cut
        then ok (record s { current_sound = some cut })
        else err (corrupted sound_utf8))
unfolding from_utf8
checked_sound s cut = ground arith

-- A longer sound is cut to 65,535 bytes on its way to the disk. If the cut is UTF-8 it is what is
-- read back, and the rest of the state is as it was; if it falls inside a character, the value that
-- was written cannot be read any more.
pub encode_state_long_sound :
    (armed : Bool) (next_fire : Option ℤ) (sound : Bytes)
    → InRange next_fire
    → 65535 < length sound
    → decode_state (
        encode_state
          (record { armed = armed; next_fire_unix_ms = next_fire; current_sound = some sound }))
      ≡ (if is_utf8 (take 65535 sound)
          then ok (record {
            armed = armed;
            next_fire_unix_ms = next_fire;
            current_sound = some (take 65535 sound);
          })
          else err (corrupted sound_utf8))
unfolding read_back
encode_state_long_sound armed next_fire sound h long =
    decode_state-read_back _ h
    ∙ rw (stored_sound_long sound long) (
        checked_sound
          (record { armed = armed; next_fire_unix_ms = next_fire; current_sound = none })
          (take 65535 sound))
