-- ===== src/Examples/Sound.antt =====
-- The decoding, the playback and the volume of a sound on concrete data.
use alarm_daemon.Base.{
  ℕ, ◌+◌, ◌/◌, ◌%◌, ◌≡◌, ◌⊎◌, refl, true, false, some, List, [], ◌∷◌, arith, Result, ok, ltb,
  String, ◌≤◌, ◌<◌, ◌*◌, if◌then◌else◌,
}
use alarm_daemon.Audio.Float.{f32_zero, f32_one, f32_le, is_nan, in_unit}
use alarm_daemon.Audio.Profile.{immediate}
use alarm_daemon.Audio.Decoded.{
  DecodedSound, Track, Format, Packet, packet, reset_required, decoded, corrupt, decode_source,
  IsPlayable, heard, decode_source-heard,
}
use alarm_daemon.Audio.Playback.{Floats, Playback}
use alarm_daemon.Audio.Ramp.{
  linear, second, ends_at, Floats32, IsRounding, ramp_gain, ramp_gain_bounds,
}

-- A mono track of two packets around a corrupt one and a packet of another track.
abbrev pub tone_track : Track
tone_track = record { id = 7; sample_rate = some 8000; channels = some 1 }

abbrev pub tone_packets : List Packet
tone_packets =
    packet 7 (decoded (5 ∷ 6 ∷ []))
    ∷ packet 7 (corrupt "bad")
    ∷ packet 8 (decoded (1 ∷ []))
    ∷ packet 7 (decoded (9 ∷ []))
    ∷ reset_required
    ∷ packet 7 (decoded (2 ∷ []))
    ∷ []

abbrev pub tone_probe : Result String Format
tone_probe =
    ok (record { default_track = some tone_track; decoder = ok tt; packets = tone_packets })

abbrev pub tone : DecodedSound
tone = record { samples = 5 ∷ 6 ∷ 9 ∷ []; channels = 1; sample_rate = 8000 }

tone_decodes : decode_source tone_probe ≡ ok tone
unfolding decode_source
tone_decodes = refl

decode_source-heard_example :
    IsPlayable tone
    × ((f : Format) × (t : Track) × (tone_probe ≡ ok f)
        × (f.default_track ≡ some t)
        × (t.sample_rate ≡ some tone.sample_rate)
        × (t.channels ≡ some tone.channels)
        × (tone.samples ≡ heard t.id f.packets))
decode_source-heard_example = decode_source-heard tone tone_probe tone_decodes

pub tone-IsPlayable : IsPlayable tone
tone-IsPlayable = decode_source-heard_example.0

-- Whole numbers in the place of floats.
abbrev pub whole : Floats
whole = record {
  F = ℕ;
  f64_zero = 0;
  f64_one = 1;
  of_int = λ n. n;
  to_usize = λ n. n;
  is_positive = λ n. ltb 0 n;
  add = λ a b. a + b;
  div = λ a b. a / b;
  rem = λ a b. a % b;
  mul_f32 = λ a b. a;
}

abbrev tone_playback : Playback whole
tone_playback = record {
  sound = tone;
  profile = record { target = f32_one; ramp = immediate; repeat = true };
  frames_played = 0;
  cursor_frames = 2;
  finished = false;
}

abbrev buffer : List ℕ
buffer = 0 ∷ 0 ∷ 0 ∷ 0 ∷ 0 ∷ []

-- Floats of which each duration is its own pattern, a quotient is 0 or 1, and a product its first
-- factor.
abbrev steps : Floats32
steps = record {
  as_secs = λ d. if ltb d 0x7f000000 then d else 0x7f000000;
  div = λ a b. if ltb a b then f32_zero else f32_one;
  mul = λ x y. x;
}

quotient_one :
    (a b : ℕ) → b ≤ a → f32_le f32_one (steps.div (steps.as_secs a) (steps.as_secs b)) ≡ true
unfolding f32_le is_nan
quotient_one a b h = ground arith

steps-IsRounding : IsRounding steps
unfolding f32_le is_nan in_unit
steps-IsRounding = record {
  bits = λ x y. ground arith;
  quotient = λ a b h. ground arith;
  quotient_one = λ a b h long. quotient_one a b h;
  product = λ x y h k. ground arith;
  product_one = λ x h. refl;
}

abbrev half : ℕ
half = 0x3f000000

half-in_unit : in_unit half ≡ true
unfolding in_unit f32_le is_nan
half-in_unit = refl

ramp_gain_bounds_example :
    (in_unit (ramp_gain steps (linear (5 * second)) half (3 * second)) ≡ true)
    × ((3 * second < ends_at (linear (5 * second)))
        ⊎ (ramp_gain steps (linear (5 * second)) half (3 * second) ≡ half))
ramp_gain_bounds_example =
    ramp_gain_bounds steps steps-IsRounding half (3 * second) half-in_unit (linear (5 * second))
