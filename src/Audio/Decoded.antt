-- ===== src/Audio/Decoded.antt =====
-- alarm-daemon/src/audio/decoded.rs over the demuxer and the decoder of `symphonia`, which are a
-- parameter: a source is given with all that they answer about it. A sample is an `f32` pattern.
use alarm_daemon.Base.{
  ℕ, ◌*◌, ◌/◌, ◌%◌, ◌≤◌, ◌<◌, ◌≡◌, refl, ap, ◌∙◌, ◌&&◌, Option, none, some, List, [], ◌∷◌, ◌++◌,
  String, arith, ltb, leb, ◌==◌, ==_iff, Bool-cases, if◌then◌else◌, length, Result, ok, err,
  map_err, ok_or, bind_ok, map_err_ok, ok_or-some, ◌>>=◌, inl, inr, sym, zero, suc,
}
use native.Mathlib.Nat.{div-add-mod, mul_comm}
use mathlib.Core.List.{append-nil, append_assoc}
use alarm_daemon.Base.Bytes.{Bytes}
use alarm_daemon.Audio.{AudioError, io, decode}

pub record DecodedSound : Type 0 where
  pub samples : List ℕ
  pub channels : ℕ
  pub sample_rate : ℕ

unfoldable pub frames : DecodedSound → ℕ
frames d = length d.samples / d.channels

-- A codec's answer for one packet: its samples, a corrupt packet, or another error.
pub data Decoding : Type 0 where
  decoded : List ℕ → Decoding
  corrupt fatal : String → Decoding

-- An answer of `next_packet`; the list of them ends where the stream does.
pub data Packet : Type 0 where
  packet : ℕ → Decoding → Packet
  reset_required : Packet
  failed : String → Packet

pub record Track : Type 0 where
  pub id : ℕ
  pub sample_rate : Option ℕ
  pub channels : Option ℕ

pub record Format : Type 0 where
  pub default_track : Option Track
  pub decoder : Result String (Unit {0})
  pub packets : List Packet

-- `channels.map(count).and_then(u16::try_from).filter(> 0)`
abbrev pub valid_channels : Option ℕ → Option ℕ
valid_channels none = none
valid_channels (some n) = if ltb 0 n && leb n 65535 then some n else none

unfoldable pub decode_packets : ℕ → List ℕ → List Packet → Result AudioError (List ℕ)
decode_packets track samples [] = ok samples
decode_packets track samples (reset_required ∷ rest) = ok samples
decode_packets track samples (failed e ∷ rest) = err (decode e)
decode_packets track samples (packet t (decoded s) ∷ rest) =
    decode_packets track (if t == track then samples ++ s else samples) rest
decode_packets track samples (packet t (corrupt e) ∷ rest) = decode_packets track samples rest
decode_packets track samples (packet t (fatal e) ∷ rest) =
    let more = decode_packets track samples rest in if t == track then err (decode e) else more

abbrev check_samples : List ℕ → ℕ → ℕ → Result AudioError DecodedSound
check_samples [] channels rate = err (decode "decoded zero samples")
check_samples (s ∷ ss) channels rate =
    if length (s ∷ ss) % channels == 0
    then ok (record { samples = s ∷ ss; channels = channels; sample_rate = rate })
    else err (decode "not a multiple of the channels")

-- `DecodedSound::decode` on what the probe answered.
unfoldable pub decode_source : Result String Format → Result AudioError DecodedSound
unfolding decode_packets
decode_source probed = do
  format ← map_err probed decode
  track ← ok_or format.default_track (decode "no default track")
  rate ← ok_or track.sample_rate (decode "unknown sample rate")
  channels ← ok_or (valid_channels track.channels) (decode "unknown or invalid channel layout")
  decoder ← map_err format.decoder decode
  samples ← decode_packets track.id [] format.packets
  check_samples samples channels rate

-- `File::open`, and the probe on a file with the hint of its extension.
pub record Codecs : Type 0 where
  pub open_file : Bytes → Result String (Unit {0})
  pub probe : Bytes → Option Bytes → Result String Format

-- `DecodedSound::from_path`; the hint is the extension, if it is text.
unfoldable pub from_path : Codecs → (Bytes → Option Bytes) → Bytes → Result AudioError DecodedSound
unfolding decode_source
from_path c extension path = do
  file ← map_err (c.open_file path) io
  decode_source (c.probe path (extension path))

-- `DecodedSound::from_bytes`, over the probe of a buffer.
unfoldable pub from_bytes :
    (Bytes → Option Bytes → Result String Format)
    → Bytes
    → Option Bytes
    → Result AudioError DecodedSound
unfolding decode_source
from_bytes probe contents extension = decode_source (probe contents extension)

-- What a listener gets of the packets: those of the track up to the first reset, less the corrupt
-- ones.
abbrev pub heard : ℕ → List Packet → List ℕ
heard track [] = []
heard track (packet t (decoded s) ∷ rest) =
    if t == track then s ++ heard track rest else heard track rest
heard track (packet t _ ∷ rest) = heard track rest
heard track (reset_required ∷ rest) = []
heard track (failed e ∷ rest) = []

decode_packets-heard :
    (track : ℕ) (samples out : List ℕ) (packets : List Packet)
    → decode_packets track samples packets ≡ ok out
    → out ≡ samples ++ heard track packets
unfolding decode_packets
decode_packets-heard track samples out [] e = grind (arith, append-nil samples)
decode_packets-heard track samples out (reset_required ∷ rest) e = grind (arith, append-nil samples)
decode_packets-heard track samples out (failed x ∷ rest) e = ground arith
decode_packets-heard track samples out (packet t (decoded s) ∷ rest) e =
    elim (Bool-cases (t == track)) [
      | inl h ↦
          let e' : decode_packets track (samples ++ s) rest ≡ ok out = rw h at e in
          let more = decode_packets-heard track (samples ++ s) out rest e' in
          rw h (cc (more, append_assoc samples s (heard track rest)))
      | inr h ↦
          let e' : decode_packets track samples rest ≡ ok out = rw h at e in
          rw h (decode_packets-heard track samples out rest e')
    ]
decode_packets-heard track samples out (packet t (corrupt x) ∷ rest) e =
    decode_packets-heard track samples out rest e
decode_packets-heard track samples out (packet t (fatal x) ∷ rest) e =
    elim (Bool-cases (t == track)) [
      | inl h ↦ let impossible : err (decode x) ≡ ok out = rw h at e in absurd (ground arith)
      | inr h ↦
          let e' : decode_packets track samples rest ≡ ok out = rw h at e in
          decode_packets-heard track samples out rest e'
    ]

-- A sound that can be played: channels that fit 16 bits, and whole frames, at least one.
abbrev pub IsPlayable : DecodedSound → Type 0
IsPlayable d =
    (0 < d.channels)
    × (d.channels ≤ 65535)
    × (0 < frames d)
    × (length d.samples ≡ frames d * d.channels)

pos_factor : (a c : ℕ) → 0 < a * c → 0 < a
pos_factor zero c h = absurd (omega arith)
pos_factor (suc a) c h = omega arith

whole_frames : (n c : ℕ) → 0 < n → n % c ≡ 0 → (n ≡ n / c * c) × (0 < n / c)
whole_frames n c h e =
    let whole : n ≡ n / c * c = omega (arith, div-add-mod n c, mul_comm c (n / c)) in
    (whole, pos_factor (n / c) c (omega arith))

ok_injective :
    (a b : DecodedSound) → (let r : Result AudioError DecodedSound = ok a in r ≡ ok b) → a ≡ b
ok_injective a b e = ground arith

module _ (d : DecodedSound) where
  check_samples_lem :
      (samples : List ℕ) (channels rate : ℕ)
      → 0 < channels
      → channels ≤ 65535
      → check_samples samples channels rate ≡ ok d
      → IsPlayable d × (d.samples ≡ samples) × (d.channels ≡ channels) × (d.sample_rate ≡ rate)
  unfolding frames
  check_samples_lem [] channels rate h k e = absurd (ground arith)
  check_samples_lem (s ∷ ss) channels rate h k e =
      elim (Bool-cases (length (s ∷ ss) % channels == 0)) [
        | inl b ↦
            let made = ok_injective _ d (rw b at e) in
            let whole = whole_frames (length (s ∷ ss)) channels (omega arith) ((==_iff _ 0).0 b) in
            rw (sym made) ((h, k, whole.1, whole.0), refl, refl, refl)
        | inr b ↦ absurd (
            let e' : err (decode "not a multiple of the channels") ≡ ok d = rw b at e in
            ground arith)
      ]

  valid_channels_lem :
      (given : Option ℕ) (channels : ℕ)
      → valid_channels given ≡ some channels
      → (0 < channels) × (channels ≤ 65535) × (given ≡ some channels)
  valid_channels_lem none channels e = absurd (ground arith)
  valid_channels_lem (some n) channels e = elim (Bool-cases (ltb 0 n && leb n 65535)) [
    | inl b ↦
        let same : some n ≡ some channels = rw b at e in
        let equal : n ≡ channels = grind arith in
        let low : 0 < n = ground arith in
        let high : n ≤ 65535 = ground arith in (omega arith, omega arith, same)
    | inr b ↦ absurd (let e' : none ≡ some channels = rw b at e in ground arith)
  ]

  -- A sound that decodes has channels that fit 16 bits and at least one whole frame, and its
  -- samples are those of the default track's packets, in order, up to the end of the stream or its
  -- first reset, without the corrupt ones.
  pub decode_source-heard :
      (probed : Result String Format)
      → decode_source probed ≡ ok d
      → IsPlayable d
        × ((f : Format) × (t : Track) × (probed ≡ ok f)
            × (f.default_track ≡ some t)
            × (t.sample_rate ≡ some d.sample_rate)
            × (t.channels ≡ some d.channels)
            × (d.samples ≡ heard t.id f.packets))
  unfolding decode_source
  decode_source-heard probed e =
      let (f, e1, r1) = bind_ok (map_err probed decode) _ d e in
      let (t, e2, r2) = bind_ok (ok_or f.default_track (decode "no default track")) _ d r1 in
      let (rate, e3, r3) = bind_ok (ok_or t.sample_rate (decode "unknown sample rate")) _ d r2 in
      let (channels, e4, r4) =
        bind_ok (ok_or (valid_channels t.channels) (decode "unknown or invalid channel layout")) _ d
          r3 in
      let fits = valid_channels_lem t.channels channels (ok_or-some _ _ channels e4) in
      let (u, e5, r5) = bind_ok (map_err f.decoder decode) _ d r4 in
      let (samples, e6, r6) = bind_ok (decode_packets t.id [] f.packets) _ d r5 in
      let (playable, same, same_channels, same_rate) =
        check_samples_lem samples channels rate fits.0 fits.1 r6 in
      let heard_samples = decode_packets-heard t.id [] samples f.packets e6 in
      (
        playable,
        (
          f,
          t,
          map_err_ok probed decode f e1,
          ok_or-some _ _ t e2,
          ok_or-some _ _ rate e3 ∙ sym (ap some same_rate),
          fits.2 ∙ sym (ap some same_channels),
          same ∙ heard_samples,
        ),
      )
