-- ===== src/Sounds/Complete.antt =====
-- What `list_sounds` of alarm-daemon/src/audio/sounds.rs leaves out: no sound file that it was
-- shown.
use alarm_daemon.Base.{
  ◌≡◌, ◌⊎◌, refl, sym, ap, ◌∙◌, true, String, some, List, [], ◌∷◌, arith, Result, ok, err, ◌>>=◌,
  Result-cases, inl, inr,
}
use alarm_daemon.Base.Bytes.{Bytes, ascii, bytes_eq}
use alarm_daemon.Base.Utf8.{is_utf8}
use alarm_daemon.Audio.{AudioError, io}
use alarm_daemon.Sounds.Paths.{join, file_name, stem_and_ext, to_str}
use alarm_daemon.Sounds.Library.{
  FileSystem, SoundLibrary, SoundSource, builtin, custom, SoundSummary, SoundFormat, format_of,
  utf8_ext, format_from_path, prefix_of, sound_id, collect_named, collect_entry, collect_entries,
  collect, list_sounds,
}
use alarm_daemon.Sounds.Resolve.{dir_of}
use alarm_daemon.Sounds.Order.{Has, Has-insert, Has-insert_self}
use alarm_daemon.Sounds.Listing.{Collected, ok_injective, collect_entries_keeps, collect_keeps}
use alarm_daemon.Sounds.Playable.{AnyName, All-any, any_entries}

-- A name is among the entries that could be read.
abbrev pub HasEntry : Bytes → List (Result String Bytes) → Type 0
HasEntry name [] = ⊥
HasEntry name (e ∷ es) = (e ≡ ok name) ⊎ HasEntry name es

format_known :
    (ext : Bytes)
    → (ext ≡ ascii "wav") ⊎ (ext ≡ ascii "flac")
    → (f : SoundFormat) × (format_of (utf8_ext (some ext)) ≡ some f)
format_known ext (inl e) = rw e (unfold bytes_eq is_utf8 in (SoundFormat.wav, refl))
format_known ext (inr e) = rw e (unfold bytes_eq is_utf8 in (SoundFormat.flac, refl))

module _ (fs : FileSystem) where
  named-Has :
      (source : SoundSource) (path stem : Bytes) (ts us : List SoundSummary)
      → is_utf8 stem ≡ true
      → collect_named fs source path (to_str stem) ts ≡ ok us
      → Has (sound_id (prefix_of source) stem) us
  unfolding collect_named
  named-Has source path stem ts us u e = elim (Result-cases (fs.metadata_len path)) [
    | inr (x, m) ↦ absurd (
        let no : ◌≡◌ {A = Result AudioError (List SoundSummary)} (err (io x)) (ok us) =
          rw (u, m) at e in
        ground arith)
    | inl (len, m) ↦ rw (← ok_injective (rw (u, m) at e)) (Has-insert_self _ ts)
  ]

  -- The path of an entry has a stem that is text and an extension that is known.
  abbrev pub IsSound : Bytes → Bytes → Bytes → Type 0
  IsSound dir name stem =
      (is_utf8 stem ≡ true)
      × ((ext : Bytes) × (stem_and_ext (file_name (join dir name)) ≡ (stem, some ext))
          × ((ext ≡ ascii "wav") ⊎ (ext ≡ ascii "flac")))

  entry-Has :
      (dir : Bytes) (source : SoundSource) (name stem : Bytes) (ts us : List SoundSummary)
      → IsSound dir name stem
      → collect_entry fs dir source (ok name) ts ≡ ok us
      → Has (sound_id (prefix_of source) stem) us
  unfolding collect_entry format_from_path
  entry-Has dir source name stem ts us (u, (ext, parts, known)) e =
      let x = stem_and_ext (file_name (join dir name)) in
      let (f, is) = format_known ext known in
      let has_format : format_of (utf8_ext x.1) ≡ some f =
        ap (λ y. format_of (utf8_ext y.1)) parts ∙ is in
      let named : collect_named fs source (join dir name) (to_str x.0) ts ≡ ok us = ground arith in
      named-Has source (join dir name) stem ts us u
        (ap (λ y. collect_named fs source (join dir name) (to_str y.0) ts) (sym parts) ∙ named)

  Collected-Has :
      (id dir : Bytes) (source : SoundSource) (name : Bytes) (ts us : List SoundSummary)
      → Unit {0}
      → Collected fs dir source name ts us
      → Has id ts
      → Has id us
  Collected-Has id dir source name ts us q (inl same) h = rw same h
  Collected-Has id dir source name ts us q (inr (stem, ext, len, _, _, _, put)) h =
      rw put (Has-insert id _ ts h)

  entries-Has :
      (dir : Bytes) (source : SoundSource) (name stem : Bytes)
      (entries : List (Result String Bytes)) (ts us : List SoundSummary)
      → IsSound dir name stem
      → HasEntry name entries
      → collect_entries fs dir source entries ts ≡ ok us
      → Has (sound_id (prefix_of source) stem) us
  unfolding collect_entries
  entries-Has dir source name stem [] ts us s h e = absurd h
  entries-Has dir source name stem (x ∷ entries) ts us s h e =
      elim (Result-cases (collect_entry fs dir source x ts)) [
        | inr (y, f) ↦ cc (rw f at e)
        | inl (vs, f) ↦ elim h [
          | inl here ↦
              collect_entries_keeps fs (Has (sound_id (prefix_of source) stem)) AnyName dir source
                (Collected-Has (sound_id (prefix_of source) stem) dir source) entries vs us
                (All-any entries) (rw f at e)
                (entry-Has dir source name stem ts vs s (rw here at f))
          | inr later ↦ entries-Has dir source name stem entries vs us s later (rw f at e)
        ]
      ]

  collect-Has :
      (dir : Bytes) (source : SoundSource) (name stem : Bytes)
      (entries : List (Result String Bytes)) (ts us : List SoundSummary)
      → IsSound dir name stem
      → fs.read_dir dir ≡ some entries
      → HasEntry name entries
      → collect fs dir source ts ≡ ok us
      → Has (sound_id (prefix_of source) stem) us
  unfolding collect
  collect-Has dir source name stem entries ts us s r h e =
      entries-Has dir source name stem entries ts us s h (rw (r, collect) at e)

  -- A listing that is given has an id for every sound file among the entries that were read of
  -- either directory: the id of the directory's prefix and the file's stem. What the other entries
  -- are makes no difference.
  pub list_sounds_complete :
      (lib : SoundLibrary) (source : SoundSource) (name stem : Bytes)
      (entries : List (Result String Bytes)) (l : List SoundSummary)
      → IsSound (dir_of lib source) name stem
      → fs.read_dir (dir_of lib source) ≡ some entries
      → HasEntry name entries
      → list_sounds fs lib ≡ ok l
      → Has (sound_id (prefix_of source) stem) l
  unfolding list_sounds
  list_sounds_complete lib builtin name stem entries l s r h e =
      elim (Result-cases (collect fs lib.builtin_dir builtin [])) [
        | inr (x, f) ↦ cc (rw (f, ◌>>=◌) at e)
        | inl (ts, f) ↦
            collect_keeps fs (Has (sound_id (prefix_of builtin) stem)) AnyName lib.custom_dir custom
              (Collected-Has (sound_id (prefix_of builtin) stem) lib.custom_dir custom) ts l
              (any_entries (fs.read_dir lib.custom_dir)) (rw (f, ◌>>=◌) at e)
              (collect-Has lib.builtin_dir builtin name stem entries [] ts s r h f)
      ]
  list_sounds_complete lib custom name stem entries l s r h e =
      elim (Result-cases (collect fs lib.builtin_dir builtin [])) [
        | inr (x, f) ↦ cc (rw (f, ◌>>=◌) at e)
        | inl (ts, f) ↦
            collect-Has lib.custom_dir custom name stem entries ts l s r h (rw (f, ◌>>=◌) at e)
      ]
