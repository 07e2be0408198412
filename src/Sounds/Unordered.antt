-- ===== src/Sounds/Unordered.antt =====
-- `list_sounds` of alarm-daemon/src/audio/sounds.rs as a function of what the directories hold,
-- whatever order they are read in.
use alarm_daemon.Base.{
  ℕ, ◌≡◌, ◌↔◌, Option-cases, refl, sym, String, Option, none, some, List, [], ◌∷◌, All, Result, ok,
  err, inl, inr,
}
use alarm_daemon.Base.Bytes.{Bytes}
use alarm_daemon.Sounds.Library.{
  FileSystem, SoundLibrary, SoundSource, builtin, custom, SoundSummary, prefix_of, sound_id, insert,
  list_sounds, collect, collect_entries, collect_entry, collect_named, format_from_path,
}
use alarm_daemon.Sounds.Paths.{join}
use alarm_daemon.Sounds.Resolve.{dir_of}
use alarm_daemon.Sounds.Order.{Has}
use alarm_daemon.Sounds.Members.{Has-insert_inv}
use alarm_daemon.Sounds.Listing.{OkEntry, AllEntries, Collected, list_sounds_keeps}
use alarm_daemon.Sounds.Complete.{HasEntry, IsSound, list_sounds_complete}

-- A name is among the entries of a directory that could be read.
abbrev pub InDir : Bytes → Option (List (Result String Bytes)) → Type 0
InDir name none = ⊥
InDir name (some entries) = HasEntry name entries

entry_in :
    (entries : List (Result String Bytes)) → All (OkEntry (λ name. HasEntry name entries)) entries
entry_in entries = among entries (λ name h. h)
  where
    among :
        (es : List (Result String Bytes))
        → ((name : Bytes) → HasEntry name es → HasEntry name entries)
        → All (OkEntry (λ name. HasEntry name entries)) es
    among [] f = tt
    among (ok name ∷ es) f = (f name (inl refl), among es (λ n h. f n (inr h)))
    among (err e ∷ es) f = (tt, among es (λ n h. f n (inr h)))

entries_in : (o : Option (List (Result String Bytes))) → AllEntries (λ name. InDir name o) o
entries_in none = tt
entries_in (some entries) = entry_in entries

module _ (fs : FileSystem) (lib : SoundLibrary) where
  -- A sound file of one of the two directories has the id.
  abbrev pub IsOffered : Bytes → Type 0
  IsOffered id =
      (source : SoundSource) × (name stem : Bytes) × (id ≡ sound_id (prefix_of source) stem)
      × InDir name (fs.read_dir (dir_of lib source))
      × IsSound fs (dir_of lib source) name stem

  entry-IsOffered :
      (source : SoundSource) (name : Bytes) (ts us : List SoundSummary)
      → InDir name (fs.read_dir (dir_of lib source))
      → Collected fs (dir_of lib source) source name ts us
      → ((id : Bytes) → Has id ts → IsOffered id)
      → (id : Bytes) → Has id us
      → IsOffered id
  entry-IsOffered source name ts us i (inl same) f id h = f id (rw same at h)
  entry-IsOffered source name ts us i (inr (stem, ext, len, e, known, text, put)) f id h =
      elim (Has-insert_inv id _ ts (rw put at h)) [
        | inl new ↦ (source, name, stem, sym new, i, (text, (ext, e, known)))
        | inr old ↦ f id old
      ]

  offered :
      (l : List SoundSummary) → list_sounds fs lib ≡ ok l → (id : Bytes) → Has id l → IsOffered id
  offered l e =
      list_sounds_keeps fs lib (λ ts. (id : Bytes) → Has id ts → IsOffered id)
        (λ name. InDir name (fs.read_dir lib.builtin_dir))
        (λ name. InDir name (fs.read_dir lib.custom_dir)) l (entry-IsOffered builtin)
        (entry-IsOffered custom) (entries_in (fs.read_dir lib.builtin_dir))
        (entries_in (fs.read_dir lib.custom_dir)) (λ id h. absurd h) e

  offered_listed :
      (l : List SoundSummary) → list_sounds fs lib ≡ ok l → (id : Bytes) → IsOffered id → Has id l
  offered_listed l e id (source, name, stem, same, i, s) =
      rw same (go (fs.read_dir (dir_of lib source)) refl i)
    where
      go :
          (o : Option (List (Result String Bytes)))
          → fs.read_dir (dir_of lib source) ≡ o
          → InDir name o
          → Has (sound_id (prefix_of source) stem) l
      go none r h = absurd h
      go (some entries) r h = list_sounds_complete fs lib source name stem entries l s r h e

  -- A listing that is given has an id exactly if a sound file among the entries that were read of
  -- either directory has it: the id of the directory's prefix and the file's stem.
  pub list_sounds_iff :
      (l : List SoundSummary) → list_sounds fs lib ≡ ok l → (id : Bytes) → Has id l ↔ IsOffered id
  list_sounds_iff l e id = (offered l e id, offered_listed l e id)

-- An entry that can be read, with its metadata.
abbrev pub CanRead : FileSystem → Bytes → Result String Bytes → Type 0
CanRead fs dir (err e) = ⊥
CanRead fs dir (ok name) = (len : ℕ) × (fs.metadata_len (join dir name) ≡ ok len)

abbrev pub AllRead : FileSystem → Bytes → Option (List (Result String Bytes)) → Type 0
AllRead fs dir none = Unit {0}
AllRead fs dir (some entries) = All (CanRead fs dir) entries

module _ (fs : FileSystem) where
  named_total :
      (source : SoundSource) (path : Bytes) (stem : Option Bytes) (len : ℕ) (ts : List SoundSummary)
      → fs.metadata_len path ≡ ok len
      → (us : List SoundSummary) × (collect_named fs source path stem ts ≡ ok us)
  unfolding collect_named
  named_total source path none len ts m = (ts, refl)
  named_total source path (some stem) len ts m =
      let s : SoundSummary = record {
        id = sound_id (prefix_of source) stem;
        name = stem;
        source = source;
        bytes = len;
      } in
      (insert s ts, rw (m, collect_named) refl)

  entry_total :
      (dir : Bytes) (source : SoundSource) (entry : Result String Bytes) (ts : List SoundSummary)
      → CanRead fs dir entry
      → (us : List SoundSummary) × (collect_entry fs dir source entry ts ≡ ok us)
  unfolding collect_entry
  entry_total dir source (err e) ts h = absurd h
  entry_total dir source (ok name) ts (len, m) =
      elim (Option-cases (format_from_path (join dir name))) [
        | inl n ↦ (ts, rw (n, collect_entry) refl)
        | inr (f, n) ↦ rw (n, collect_entry) (named_total source (join dir name) _ len ts m)
      ]

  entries_total :
      (dir : Bytes) (source : SoundSource) (entries : List (Result String Bytes))
      (ts : List SoundSummary)
      → All (CanRead fs dir) entries
      → (us : List SoundSummary) × (collect_entries fs dir source entries ts ≡ ok us)
  unfolding collect_entries
  entries_total dir source [] ts h = (ts, refl)
  entries_total dir source (x ∷ entries) ts h =
      let (vs, e) = entry_total dir source x ts h.0 in
      rw e (entries_total dir source entries vs h.1)

  collect_total :
      (dir : Bytes) (source : SoundSource) (ts : List SoundSummary)
      (o : Option (List (Result String Bytes)))
      → fs.read_dir dir ≡ o
      → AllRead fs dir o
      → (us : List SoundSummary) × (collect fs dir source ts ≡ ok us)
  unfolding collect
  collect_total dir source ts none r h = (ts, rw (r, collect) refl)
  collect_total dir source ts (some entries) r h =
      rw (r, collect) (entries_total dir source entries ts h)

  -- Both directories can be read in full, or are not there.
  pub record IsReadable (lib : SoundLibrary) : Type 0 where
    pub all_builtin : AllRead fs lib.builtin_dir (fs.read_dir lib.builtin_dir)
    pub all_custom : AllRead fs lib.custom_dir (fs.read_dir lib.custom_dir)

  pub list_sounds_total :
      (lib : SoundLibrary) → IsReadable lib → (l : List SoundSummary) × (list_sounds fs lib ≡ ok l)
  unfolding list_sounds
  list_sounds_total lib h =
      let (ts, e) = collect_total lib.builtin_dir builtin [] _ refl h.all_builtin in
      rw e (collect_total lib.custom_dir custom ts _ refl h.all_custom)

-- The directories of two moments hold the same names, whatever their order and however often each
-- is read.
abbrev pub SameNames : SoundLibrary → FileSystem → FileSystem → Type 0
SameNames lib fs fs' =
    (source : SoundSource) (name : Bytes)
    → InDir name (fs.read_dir (dir_of lib source)) ↔ InDir name (fs'.read_dir (dir_of lib source))
