-- ===== src/Sounds/Playable.antt =====
-- What `list_sounds` of alarm-daemon/src/audio/sounds.rs promises its callers: an order, and ids
-- that `resolve_path` accepts.
use alarm_daemon.Base.{
  ◌≡◌, ◌⊎◌, refl, ap, ◌∙◌, true, String, Option, none, some, List, [], ◌∷◌, ◌++◌, arith, All,
  Result, ok, err, inl, inr,
}
use alarm_daemon.Base.Bytes.{Bytes, ascii}
use alarm_daemon.Sounds.Paths.{
  NoSlash, join, file_name, stem_and_ext, file_name-join, stem_and_ext-append,
}
use alarm_daemon.Sounds.Library.{
  FileSystem, SoundLibrary, SoundSource, builtin, custom, SoundSummary, prefix_of, sound_id,
  bytes_lt, list_sounds, resolve_path,
}
use alarm_daemon.Sounds.Resolve.{dir_of, file_of, Plays, resolve_path-sound_id, resolve_in_cases}
use alarm_daemon.Sounds.Order.{Above, IsSorted, insert-IsSorted, insert-All}
use alarm_daemon.Sounds.Listing.{OkEntry, AllEntries, Collected, list_sounds_keeps}

-- An id is made of its source's prefix and its name.
abbrev pub IsNamed : SoundSummary → Type 0
IsNamed s = s.id ≡ sound_id (prefix_of s.source) s.name

abbrev pub AnyName : Bytes → Type 0
AnyName name = Unit {0}

pub All-any : (entries : List (Result String Bytes)) → All (OkEntry AnyName) entries
All-any [] = tt
All-any (ok name ∷ entries) = (tt, All-any entries)
All-any (err e ∷ entries) = (tt, All-any entries)

pub any_entries : (o : Option (List (Result String Bytes))) → AllEntries AnyName o
any_entries none = tt
any_entries (some entries) = All-any entries

abbrev pub IsFrom : SoundSource → SoundSummary → Type 0
IsFrom source s = s.source ≡ source

-- A custom id is not below a built-in one.
custom_last :
    (t x : SoundSummary)
    → IsNamed t
    → IsNamed x
    → t.source ≡ custom
    → x.source ≡ builtin
    → ¬ (bytes_lt t.id x.id ≡ true)
custom_last t x nt nx st sx h =
    let e : t.id ≡ sound_id (prefix_of custom) t.name =
      nt ∙ ap (λ (o : SoundSource). sound_id (prefix_of o) t.name) st in
    let f : x.id ≡ sound_id (prefix_of builtin) x.name =
      nx ∙ ap (λ (o : SoundSource). sound_id (prefix_of o) x.name) sx in
    unfold bytes_lt in cc (rw (e, f) at h)

abbrev pub BuiltinsFirst : List SoundSummary → Type 0
BuiltinsFirst l =
    (b c : List SoundSummary) × (l ≡ b ++ c) × All (IsFrom builtin) b × All (IsFrom custom) c

put_custom :
    (t : SoundSummary) (b c : List SoundSummary)
    → IsNamed t
    → t.source ≡ custom
    → All IsNamed (b ++ c)
    → Above t.id (b ++ c)
    → All (IsFrom builtin) b
    → All (IsFrom custom) c
    → BuiltinsFirst (t ∷ (b ++ c))
put_custom t [] c n e ns a hb hc = ([], t ∷ c, refl, tt, (e, hc))
put_custom t (x ∷ b) c n e ns a hb hc = absurd (custom_last t x n ns.0 e hb.0 a)

source_cases : (o : SoundSource) → (o ≡ builtin) ⊎ (o ≡ custom)
source_cases builtin = inl refl
source_cases custom = inr refl

builtins_first : (l : List SoundSummary) → IsSorted l → All IsNamed l → BuiltinsFirst l
builtins_first [] h n = ([], [], refl, tt, tt)
builtins_first (t ∷ ts) h n =
    let (b, c, e, hb, hc) = builtins_first ts h.1 n.1 in
    elim (source_cases t.source) [
      | inl s ↦ (t ∷ b, c, ap (◌∷◌ t) e, (s, hb), hc)
      | inr s ↦ rw e (put_custom t b c n.0 s (rw e at n.1) (rw e at h.0) hb hc)
    ]

module _ (fs : FileSystem) (lib : SoundLibrary) where
  entry_ordered :
      (source : SoundSource) (name : Bytes) (ts us : List SoundSummary)
      → Unit {0}
      → Collected fs (dir_of lib source) source name ts us
      → IsSorted ts × All IsNamed ts
      → IsSorted us × All IsNamed us
  entry_ordered source name ts us q (inl same) p = rw same p
  entry_ordered source name ts us q (inr (stem, ext, len, _, _, _, put)) p =
      rw put (insert-IsSorted _ ts p.0, insert-All IsNamed _ ts refl p.1)

  -- A listing that is given is strictly sorted by id, so no id stands in it twice; each id is its
  -- source's prefix with the name; and all built-in sounds stand before all custom ones.
  pub list_sounds_order :
      (l : List SoundSummary)
      → list_sounds fs lib ≡ ok l
      → IsSorted l × All IsNamed l × BuiltinsFirst l
  list_sounds_order l e =
      let (sorted, named) =
        list_sounds_keeps fs lib (λ ts. IsSorted ts × All IsNamed ts) AnyName AnyName l
          (entry_ordered builtin) (entry_ordered custom) (any_entries (fs.read_dir lib.builtin_dir))
          (any_entries (fs.read_dir lib.custom_dir)) (tt, tt) e in
      (sorted, named, builtins_first l sorted named)

  -- A directory entry: a name without a slash, and the file is there.
  abbrev pub IsEntry : SoundSource → Bytes → Type 0
  IsEntry source name = NoSlash name × (fs.exists (join (dir_of lib source) name) ≡ true)

  abbrev pub Resolves : SoundSummary → Type 0
  Resolves s = (path : Bytes) × (resolve_path fs lib s.id ≡ ok path) × (fs.exists path ≡ true)

  Plays-exists :
      (source : SoundSource) (name path : Bytes)
      → Plays fs lib source name path
      → fs.exists path ≡ true
  Plays-exists source name path (inl (e, h)) = h
  Plays-exists source name path (inr (e, h, n)) = h

  there :
      (source : SoundSource) (name stem ext : Bytes)
      → IsEntry source name
      → stem_and_ext (file_name (join (dir_of lib source) name)) ≡ (stem, some ext)
      → fs.exists (file_of lib source stem ext) ≡ true
  there source name stem ext h e =
      let is_name : name ≡ stem ++ b'.' ∷ ext =
        stem_and_ext-append name stem ext (rw (file_name-join (dir_of lib source) name h.0) at e) in
      rw is_name at h.1

  pub stem_resolves :
      (source : SoundSource) (stem ext : Bytes)
      → fs.exists (file_of lib source stem ext) ≡ true
      → (ext ≡ ascii "wav") ⊎ (ext ≡ ascii "flac")
      → (path : Bytes) × (resolve_path fs lib (sound_id (prefix_of source) stem) ≡ ok path)
        × (fs.exists path ≡ true)
  stem_resolves source stem ext h known = elim (resolve_in_cases fs lib source stem) [
    | inl (path, e, p) ↦
        (path, resolve_path-sound_id fs lib source stem ∙ e, Plays-exists source stem path p)
    | inr (e, no_wav, no_flac) ↦ ground arith
  ]

  entry-Resolves :
      (source : SoundSource) (name : Bytes) (ts us : List SoundSummary)
      → IsEntry source name
      → Collected fs (dir_of lib source) source name ts us
      → All Resolves ts
      → All Resolves us
  entry-Resolves source name ts us q (inl same) p = rw same p
  entry-Resolves source name ts us q (inr (stem, ext, len, e, known, _, put)) p = rw put (
      insert-All Resolves _ ts
        (stem_resolves source stem ext (there source name stem ext q e) known) p)

  -- Where the entries that the directories were read to have are there, every sound that is listed
  -- resolves to a file that exists.
  pub list_sounds_resolve :
      (l : List SoundSummary)
      → AllEntries (IsEntry builtin) (fs.read_dir lib.builtin_dir)
      → AllEntries (IsEntry custom) (fs.read_dir lib.custom_dir)
      → list_sounds fs lib ≡ ok l
      → All Resolves l
  list_sounds_resolve l h k e =
      list_sounds_keeps fs lib (All Resolves) (IsEntry builtin) (IsEntry custom) l
        (entry-Resolves builtin) (entry-Resolves custom) h k tt e
