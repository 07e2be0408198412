-- ===== src/Sounds/Memory.antt =====
-- A file system in memory that meets the assumptions, and never fails: its files with their
-- contents, and one directory, `/c`.
use mathlib.Core.Path.{subst}
use alarm_daemon.Base.{
  ℕ, ◌≡◌, ◌≢◌, refl, sym, ap, ◌∙◌, Bool, true, false, Option, none, some, List, [], ◌∷◌, ◌++◌,
  String, arith, length, if◌then◌else◌, Bool-cases, inl, inr, Result, ok, err,
}
use alarm_daemon.Base.Bytes.{
  Bytes, ascii, bytes_eq, bytes_eq_iff, strip_prefix, strip_prefix-append,
}
use alarm_daemon.Sounds.Paths.{NoSlash, join}
use alarm_daemon.Sounds.Library.{FileSystem}
use alarm_daemon.Sounds.Complete.{HasEntry}
use alarm_daemon.Sounds.Registry.{Files}
use alarm_daemon.Sounds.Registered.{IsFileSystem}

abbrev pub Kept : Type 0
Kept = List (Bytes × Bytes)

abbrev pub content : Kept → Bytes → Option Bytes
content [] p = none
content ((q, c) ∷ w) p = let rest = content w p in if bytes_eq q p then some c else rest

abbrev pub without : Bytes → Kept → Kept
without p [] = []
without p ((q, c) ∷ w) = let rest = without p w in if bytes_eq q p then rest else (q, c) ∷ rest

abbrev present : Option Bytes → Bool
present none = false
present (some c) = true

abbrev size_of : Option Bytes → Result String ℕ
size_of none = err "no such file"
size_of (some c) = ok (length c)

-- The entries of the directory.
abbrev add_entry : Option Bytes → List (Result String Bytes) → List (Result String Bytes)
add_entry none entries = entries
add_entry (some name) entries = ok name ∷ entries

abbrev pub entries_of : Kept → List (Result String Bytes)
entries_of [] = []
entries_of ((q, c) ∷ w) = add_entry (strip_prefix (ascii "/c/") q) (entries_of w)

abbrev move : Kept → Bytes → Bytes → Option Bytes → Kept × Result String (Unit {0})
move w p q none = (w, err "no such file")
move w p q (some c) = ((q, c) ∷ without p w, ok tt)

abbrev remove : Kept → Bytes → Option Bytes → Kept × Result String (Unit {0})
remove w p none = (w, err "no such file")
remove w p (some c) = (without p w, ok tt)

abbrev pub shown : Kept → FileSystem
shown w = record {
  exists = λ p. present (content w p);
  read_dir = λ d. if bytes_eq d (ascii "/c") then some (entries_of w) else none;
  metadata_len = λ p. size_of (content w p);
  create_dir_all = λ d. ok tt;
}

abbrev pub memory_files : Files
memory_files = record {
  World = Kept;
  view = shown;
  create_dir_all = λ w d. (w, ok tt);
  write = λ w p c. ((p, c) ∷ w, ok tt);
  rename = λ w p q. move w p q (content w p);
  remove_file = λ w p. remove w p (content w p);
}

same_bytes : (p : Bytes) → bytes_eq p p ≡ true
same_bytes p = (bytes_eq_iff p p).1 refl

content-first : (w : Kept) (p c : Bytes) → content ((p, c) ∷ w) p ≡ some c
content-first w p c = rw (same_bytes p) refl

content-without : (w : Kept) (p : Bytes) → content (without p w) p ≡ none
content-without [] p = refl
content-without ((q, c) ∷ w) p = elim (Bool-cases (bytes_eq q p)) [
  | inl e ↦ rw e (content-without w p)
  | inr e ↦ rw (e, e) (content-without w p)
]

content-without-none :
    (w : Kept) (p q : Bytes) → content w q ≡ none → content (without p w) q ≡ none
content-without-none [] p q h = refl
content-without-none ((r, c) ∷ w) p q h = elim (Bool-cases (bytes_eq r q)) [
  | inl e ↦ absurd (let no = rw e at h in cc)
  | inr e ↦ elim (Bool-cases (bytes_eq r p)) [
    | inl f ↦ rw f (content-without-none w p q (rw e at h))
    | inr f ↦ rw (f, e) (content-without-none w p q (rw e at h))
  ]
]

HasEntry-add_entry :
    (name : Bytes) (o : Option Bytes) (entries : List (Result String Bytes))
    → HasEntry name entries
    → HasEntry name (add_entry o entries)
HasEntry-add_entry name none entries h = h
HasEntry-add_entry name (some n) entries h = inr h

content-HasEntry :
    (w : Kept) (name x : Bytes)
    → content w (ascii "/c/" ++ name) ≡ some x
    → HasEntry name (entries_of w)
content-HasEntry [] name x h = cc
content-HasEntry ((q, c) ∷ w) name x h = elim (Bool-cases (bytes_eq q (ascii "/c/" ++ name))) [
  | inl e ↦
      rw ((bytes_eq_iff q (ascii "/c/" ++ name)).0 e, strip_prefix-append (ascii "/c/") name)
        (inl refl)
  | inr e ↦
      HasEntry-add_entry name (strip_prefix (ascii "/c/") q) _
        (content-HasEntry w name x (rw e at h))
]

present-some : (o : Option Bytes) → present o ≡ true → (c : Bytes) × (o ≡ some c)
present-some none e = cc
present-some (some c) e = (c, refl)

present-none : (o : Option Bytes) → present o ≡ false → o ≡ none
present-none none e = refl
present-none (some c) e = cc

move_lem :
    (w : Kept) (p q : Bytes) (o : Option Bytes)
    → (move w p q o).1 ≡ ok tt
    → content (move w p q o).0 q ≡ o
move_lem w p q none e = absurd (ground arith)
move_lem w p q (some c) e = content-first (without p w) q c

move_fault :
    (w : Kept) (p q x : Bytes) (o : Option Bytes) (e : String)
    → o ≡ some x
    → (move w p q o).1 ≢ err e
move_fault w p q x none e h k = cc
move_fault w p q x (some c) e h k = ground arith

remove_lem :
    (w : Kept) (p : Bytes) (o : Option Bytes)
    → (remove w p o).1 ≡ ok tt
    → present (content (remove w p o).0 p) ≡ false
remove_lem w p none e = absurd (ground arith)
remove_lem w p (some c) e = ap present (content-without w p)

remove_keeps :
    (w : Kept) (p q : Bytes) (o : Option Bytes)
    → present (content w q) ≡ false
    → present (content (remove w p o).0 q) ≡ false
remove_keeps w p q none h = h
remove_keeps w p q (some c) h = ap present (content-without-none w p q (present-none _ h))

remove_fault :
    (w : Kept) (p : Bytes) (o : Option Bytes) (e : String)
    → present o ≡ true
    → (remove w p o).1 ≢ err e
remove_fault w p none e h k = cc
remove_fault w p (some c) e h k = ground arith

joined : (name : Bytes) → NoSlash name → join (ascii "/c") name ≡ ascii "/c/" ++ name
unfolding join
joined [] h = refl
joined (b ∷ s) h = ground arith

listed :
    (w : Kept) (d name x : Bytes) (entries : List (Result String Bytes))
    → content w (join d name) ≡ some x
    → NoSlash name
    → (shown w).read_dir d ≡ some entries
    → HasEntry name entries
listed w d name x entries held plain read = elim (Bool-cases (bytes_eq d (ascii "/c"))) [
  | inr e ↦ absurd (
      let no : ◌≡◌ {A = Option (List (Result String Bytes))} none (some entries) = rw e at read in
      cc)
  | inl e ↦
      let all : ◌≡◌ {A = Option (List (Result String Bytes))} (some (entries_of w)) (some entries) =
        rw e at read in
      let in_dir : join d name ≡ ascii "/c/" ++ name =
        ap (λ d. join d name) ((bytes_eq_iff d (ascii "/c")).0 e) ∙ joined name plain in
      let has = content-HasEntry w name x (ap (content w) (sym in_dir) ∙ held) in
      let same : entries_of w ≡ entries = cc in subst (HasEntry name) same has
]

pub memory_files-IsFileSystem : IsFileSystem memory_files
memory_files-IsFileSystem = record {
  Faulty = ⊥;
  Dir = λ w d. Unit {0};
  content = content;
  dir_fault = λ w d e h. cc;
  write_fault = λ w d name x e _ _ h. cc;
  rename_fault = λ w d name other x e _ _ h k. move_fault w (join d name) (join d other) x _ e h k;
  remove_fault = λ w p e h k. remove_fault w p (content w p) e h k;
  dir_made = λ w d h. tt;
  written = λ w p x h. content-first w p x;
  renamed = λ w p q h. move_lem w p q (content w p) h;
  there = λ w p x h. ap present h;
  listed = λ w d name x entries h plain read _. listed w d name x entries h plain read;
  removed = λ w p h. remove_lem w p (content w p) h;
  removes_only = λ w p q h. remove_keeps w p q (content w p) h;
}

pub memory_files_sound : ¬ memory_files-IsFileSystem.Faulty
unfolding memory_files-IsFileSystem
memory_files_sound = λ x. x
