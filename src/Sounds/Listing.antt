-- ===== src/Sounds/Listing.antt =====
-- The listing of alarm-daemon/src/audio/sounds.rs, `list_sounds`: its order, and that what it lists
-- can be played.
use alarm_daemon.Base.{
  ℕ, ◌≡◌, ◌⊎◌, refl, true, Option, none, some, List, [], ◌∷◌, String, arith, All, Result, ok, err,
  ◌>>=◌, Bool-cases, Option-cases, Result-cases, inl, inr,
}
use mathlib.Core.Option.{none-ne-some}
use alarm_daemon.Base.Utf8.{is_utf8}
use alarm_daemon.Base.Bytes.{Bytes, ascii, bytes_eq, bytes_eq_iff}
use alarm_daemon.Audio.{AudioError}
use alarm_daemon.Sounds.Paths.{join, file_name, stem_and_ext, to_str}
use alarm_daemon.Sounds.Library.{
  FileSystem, SoundLibrary, SoundSource, builtin, custom, SoundSummary, prefix_of, sound_id, insert,
  SoundFormat, format_of, utf8_ext, collect_named, collect_entry, collect_entries, collect,
  list_sounds, format_from_path,
}

bytes_eq_some :
    (ext : Bytes) (f : SoundFormat)
    → format_of (some ext) ≡ some f
    → (ext ≡ ascii "wav") ⊎ (ext ≡ ascii "flac")
bytes_eq_some ext f e = elim (Bool-cases (bytes_eq ext (ascii "wav"))) [
  | inl w ↦ inl ((bytes_eq_iff ext (ascii "wav")).0 w)
  | inr w ↦ elim (Bool-cases (bytes_eq ext (ascii "flac"))) [
    | inl x ↦ inr ((bytes_eq_iff ext (ascii "flac")).0 x)
    | inr x ↦ absurd (none-ne-some f (rw (w, x) at e))
  ]
]

format_cases :
    (o : Option Bytes) (f : SoundFormat)
    → format_of (utf8_ext o) ≡ some f
    → (ext : Bytes) × (o ≡ some ext) × ((ext ≡ ascii "wav") ⊎ (ext ≡ ascii "flac"))
format_cases none f e = cc
format_cases (some ext) f e = elim (Bool-cases (is_utf8 ext)) [
  | inl u ↦ (ext, refl, bytes_eq_some ext f (rw u at e))
  | inr u ↦ absurd (none-ne-some f (rw u at e))
]

abbrev pub OkEntry : (Bytes → Type 0) → Result String Bytes → Type 0
OkEntry Q (ok name) = Q name
OkEntry Q (err e) = Unit {0}

-- The entries that a directory was read to have, if it could be read.
abbrev pub AllEntries : (Bytes → Type 0) → Option (List (Result String Bytes)) → Type 0
AllEntries Q none = Unit {0}
AllEntries Q (some entries) = All (OkEntry Q) entries

pub ok_injective :
    {ts us : List SoundSummary}
    → ◌≡◌ {A = Result AudioError (List SoundSummary)} (ok ts) (ok us)
    → ts ≡ us
ok_injective e = cc

module _ (fs : FileSystem) where
  -- What one directory entry does to the listing: nothing, or its summary goes in.
  abbrev pub Collected :
      Bytes → SoundSource → Bytes → List SoundSummary → List SoundSummary → Type 0
  Collected dir source name ts us =
      (us ≡ ts)
      ⊎ ((stem ext : Bytes) × (len : ℕ) × (stem_and_ext (file_name (join dir name))
            ≡ (stem, some ext))
          × ((ext ≡ ascii "wav") ⊎ (ext ≡ ascii "flac"))
          × (is_utf8 stem ≡ true)
          × (us
              ≡ insert
                  (record {
                    id = sound_id (prefix_of source) stem;
                    name = stem;
                    source = source;
                    bytes = len;
                  })
                  ts))

  named_cases :
      (source : SoundSource) (path stem : Bytes) (ts us : List SoundSummary)
      → collect_named fs source path (to_str stem) ts ≡ ok us
      → (us ≡ ts)
        ⊎ ((len : ℕ) × (is_utf8 stem ≡ true)
            × (us
                ≡ insert
                    (record {
                      id = sound_id (prefix_of source) stem;
                      name = stem;
                      source = source;
                      bytes = len;
                    })
                    ts))
  unfolding collect_named
  named_cases source path stem ts us e = elim (Bool-cases (is_utf8 stem)) [
    | inr u ↦ inl (ground arith)
    | inl u ↦ elim (Result-cases (fs.metadata_len path)) [
      | inl (len, m) ↦ inr (len, u, ground arith)
      | inr (x, m) ↦ ground arith
    ]
  ]

  pub collect_entry-Collected :
      (dir : Bytes) (source : SoundSource) (name : Bytes) (ts us : List SoundSummary)
      → collect_entry fs dir source (ok name) ts ≡ ok us
      → Collected dir source name ts us
  unfolding collect_entry format_from_path
  collect_entry-Collected dir source name ts us e =
      let parts = stem_and_ext (file_name (join dir name)) in
      elim (Option-cases (format_of (utf8_ext parts.1))) [
        | inl n ↦ inl (ground arith)
        | inr (f, h) ↦
            let (ext, is_ext, known) = format_cases parts.1 f h in
            elim (named_cases source (join dir name) parts.0 ts us (ground arith)) [
              | inl same ↦ inl same
              | inr (len, u, put) ↦
                  inr (parts.0, ext, len, (λ i. (parts.0, is_ext i)), known, u, put)
            ]
      ]

  -- What every entry keeps, `collect` keeps.
  module _ (P : List SoundSummary → Type 0) (Q : Bytes → Type 0) (dir : Bytes)
      (source : SoundSource)
      (keep : (name : Bytes) (ts us : List SoundSummary)
        → Q name
        → Collected dir source name ts us
        → P ts
        → P us) where
    pub collect_entries_keeps :
        (entries : List (Result String Bytes)) (ts us : List SoundSummary)
        → All (OkEntry Q) entries
        → collect_entries fs dir source entries ts ≡ ok us
        → P ts
        → P us
    unfolding collect_entries
    collect_entries_keeps [] ts us h e p = rw (← ok_injective e) p
    collect_entries_keeps (err x ∷ entries) ts us h e p = unfold collect_entry in cc
    collect_entries_keeps (ok name ∷ entries) ts us h e p =
        elim (Result-cases (collect_entry fs dir source (ok name) ts)) [
          | inr (x, f) ↦ cc (rw f at e)
          | inl (vs, f) ↦
              collect_entries_keeps entries vs us h.1 (rw f at e)
                (keep name ts vs h.0 (collect_entry-Collected dir source name ts vs f) p)
        ]

    pub collect_keeps :
        (ts us : List SoundSummary)
        → AllEntries Q (fs.read_dir dir)
        → collect fs dir source ts ≡ ok us
        → P ts
        → P us
    unfolding collect
    collect_keeps ts us h e p = elim (Option-cases (fs.read_dir dir)) [
      | inl n ↦ rw (← ok_injective (rw (n, collect) at e)) p
      | inr (entries, n) ↦ collect_entries_keeps entries ts us (rw n at h) (rw (n, collect) at e) p
    ]

  -- What every entry of both directories keeps holds of the listing.
  pub list_sounds_keeps :
      (lib : SoundLibrary) (P : List SoundSummary → Type 0) (Q S : Bytes → Type 0)
      (l : List SoundSummary)
      → ((name : Bytes) (ts us : List SoundSummary)
          → Q name
          → Collected lib.builtin_dir builtin name ts us
          → P ts
          → P us)
      → ((name : Bytes) (ts us : List SoundSummary)
          → S name
          → Collected lib.custom_dir custom name ts us
          → P ts
          → P us)
      → AllEntries Q (fs.read_dir lib.builtin_dir)
      → AllEntries S (fs.read_dir lib.custom_dir)
      → P []
      → list_sounds fs lib ≡ ok l
      → P l
  unfolding list_sounds
  list_sounds_keeps lib P Q S l keep more h k p e =
      elim (Result-cases (collect fs lib.builtin_dir builtin [])) [
        | inr (x, f) ↦ cc (rw (f, ◌>>=◌) at e)
        | inl (ts, f) ↦
            collect_keeps P S lib.custom_dir custom more ts l k (rw (f, ◌>>=◌) at e)
              (collect_keeps P Q lib.builtin_dir builtin keep [] ts h f p)
      ]
