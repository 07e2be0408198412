-- ===== src/Sounds/Paths.antt =====
-- `std::path` as sounds.rs and decoded.rs use it, on the bytes of a path.
use alarm_daemon.Base.{
  ◌≡◌, refl, Bool, true, false, Option, none, some, [], ◌∷◌, ◌++◌, arith, ◌==◌, if◌then◌else◌,
  Option-cases, Bool-cases, ◌≢◌, inl, inr, ℕ, ◌-◌, ◌||◌, length, take, length-append, take-append,
  sym, ap, ◌∙◌,
}
use mathlib.Core.List.{append_assoc}
use alarm_daemon.Base.Bytes.{Bytes, ascii, bytes_eq}
use alarm_daemon.Base.Utf8.{is_utf8}

abbrev is_absolute : Bytes → Bool
is_absolute [] = false
is_absolute (b ∷ s) = b == b'/'

ends_with_slash : Bytes → Bool
ends_with_slash [] = false
ends_with_slash (b ∷ []) = b == b'/'
ends_with_slash (b ∷ c ∷ s) = ends_with_slash (c ∷ s)

-- `Path::join`: an absolute path replaces the directory.
unfoldable pub join : Bytes → Bytes → Bytes
unfolding ends_with_slash
join dir path = if is_absolute path then path else elim dir [
  | [] ↦ path
  | d ∷ ds ↦ if ends_with_slash (d ∷ ds) then (d ∷ ds) ++ path else (d ∷ ds) ++ b'/' ∷ path
]

-- The bytes behind the last slash.
last_part : Bytes → Bytes → Bytes
last_part part [] = part
last_part part (b ∷ s) = let next = s in last_part (if b == b'/' then next else part) s

unfoldable pub file_name : Bytes → Bytes
unfolding last_part
file_name path = last_part path path

-- A name split at its last dot.
unfoldable pub split_dot : Bytes → Option (Bytes × Bytes)
split_dot [] = none
split_dot (b ∷ s) = elim (split_dot s) [
  | some (stem, ext) ↦ some (b ∷ stem, ext)
  | none ↦ if b == b'.' then some ([], s) else none
]

-- `Path::file_stem` and `Path::extension` of a file name: a leading dot splits nothing off.
unfoldable pub stem_and_ext : Bytes → Bytes × Option Bytes
unfolding split_dot bytes_eq
stem_and_ext name = if bytes_eq name (ascii "..") then (name, none) else elim (split_dot name) [
  | none ↦ (name, none)
  | some ([], ext) ↦ (name, none)
  | some (b ∷ stem, ext) ↦ (b ∷ stem, some ext)
]

-- `OsStr::to_str`
abbrev pub to_str : Bytes → Option Bytes
to_str s = if is_utf8 s then some s else none

split_dot-append :
    (name stem ext : Bytes) → split_dot name ≡ some (stem, ext) → name ≡ stem ++ b'.' ∷ ext
unfolding split_dot
split_dot-append [] stem ext e = cc
split_dot-append (b ∷ s) stem ext e = elim (Option-cases (split_dot s)) [
  | inl n ↦ ground arith
  | inr ((t, x), h) ↦ ground (arith, split_dot-append s t x h)
]

-- A name with an extension is its stem, a dot and the extension.
pub stem_and_ext-append :
    (name stem ext : Bytes) → stem_and_ext name ≡ (stem, some ext) → name ≡ stem ++ b'.' ∷ ext
unfolding stem_and_ext
stem_and_ext-append name stem ext e = ground (arith, split_dot-append name stem ext)

abbrev pub NoSlash : Bytes → Type 0
NoSlash [] = Unit {0}
NoSlash (b ∷ s) = (b ≢ b'/') × NoSlash s

last_part-NoSlash : (part s : Bytes) → NoSlash s → last_part part s ≡ part
unfolding last_part
last_part-NoSlash part [] h = refl
last_part-NoSlash part (b ∷ s) h = ground (arith, last_part-NoSlash part s)

last_part-slash : (part s name : Bytes) → NoSlash name → last_part part (s ++ b'/' ∷ name) ≡ name
unfolding last_part
last_part-slash part [] name h = last_part-NoSlash name name h
last_part-slash part (b ∷ s) name h =
    last_part-slash (if b == b'/' then s ++ b'/' ∷ name else part) s name h

last_part-ended :
    (part s name : Bytes)
    → ends_with_slash s ≡ true
    → NoSlash name
    → last_part part (s ++ name) ≡ name
unfolding last_part ends_with_slash
last_part-ended part [] name e h = cc
last_part-ended part (b ∷ []) name e h = rw (last_part, e) (last_part-NoSlash name name h)
last_part-ended part (b ∷ c ∷ s) name e h =
    last_part-ended (if b == b'/' then c ∷ s ++ name else part) (c ∷ s) name e h

not-absolute : (name : Bytes) → NoSlash name → is_absolute name ≡ false
not-absolute [] h = refl
not-absolute (b ∷ s) h = ground arith

-- The last part of a path joined from a directory and a plain name is the name.
pub file_name-join : (dir name : Bytes) → NoSlash name → file_name (join dir name) ≡ name
unfolding file_name join
file_name-join [] name h = rw (not-absolute name h) (last_part-NoSlash name name h)
file_name-join (d ∷ ds) name h = elim (Bool-cases (ends_with_slash (d ∷ ds))) [
  | inl e ↦ rw (not-absolute name h, e) (last_part-ended _ (d ∷ ds) name e h)
  | inr e ↦ rw (not-absolute name h, e) (last_part-slash _ (d ∷ ds) name h)
]

-- `Path::with_extension`, of a path that does not end in a slash.
unfoldable pub with_extension : Bytes → Bytes → Bytes
with_extension path ext =
    let name = file_name path in
    if length name == 0 || bytes_eq name (ascii "..")
    then path
    else take (length path - length name) path ++ ((stem_and_ext name).0 ++ b'.' ∷ ext)

split_dot-at :
    (stem ext : Bytes) → split_dot ext ≡ none → split_dot (stem ++ b'.' ∷ ext) ≡ some (stem, ext)
unfolding split_dot
split_dot-at [] ext h = rw (h, split_dot) refl
split_dot-at (b ∷ stem) ext h = rw (split_dot-at stem ext h) refl

-- A stem that starts with no dot, and an extension without one, are told apart again.
pub stem_and_ext-at :
    (b : ℕ) (stem ext : Bytes)
    → b ≢ b'.'
    → split_dot ext ≡ none
    → stem_and_ext ((b ∷ stem) ++ b'.' ∷ ext) ≡ (b ∷ stem, some ext)
unfolding stem_and_ext bytes_eq
stem_and_ext-at b stem ext h e = rw (split_dot-at (b ∷ stem) ext e) (ground arith)

-- What stands in front of a plain name that is joined to a directory.
front : Bytes → Bytes
front [] = []
front (d ∷ ds) = if ends_with_slash (d ∷ ds) then d ∷ ds else (d ∷ ds) ++ b'/' ∷ []

join-front : (dir name : Bytes) → NoSlash name → join dir name ≡ front dir ++ name
unfolding join front
join-front [] name h = rw (not-absolute name h) refl
join-front (d ∷ ds) name h = elim (Bool-cases (ends_with_slash (d ∷ ds))) [
  | inl e ↦ rw (not-absolute name h, e) refl
  | inr e ↦ rw (not-absolute name h, e) (sym (append_assoc (d ∷ ds) (b'/' ∷ []) name))
]

kept :
    (b : ℕ) (s : Bytes) → b ≢ b'.' → (length (b ∷ s) == 0 || bytes_eq (b ∷ s) (ascii "..")) ≡ false
unfolding bytes_eq
kept b s h = ground arith

front_kept : (f name : Bytes) → take (length (f ++ name) - length name) (f ++ name) ≡ f
front_kept f name =
    let e : length (f ++ name) - length name ≡ length f = omega (arith, length-append f name) in
    ap (λ n. take n (f ++ name)) e ∙ take-append f name

-- In a directory, another extension makes another name of the same stem.
pub with_extension-join :
    (dir : Bytes) (b : ℕ) (stem old new : Bytes)
    → b ≢ b'.'
    → split_dot old ≡ none
    → NoSlash ((b ∷ stem) ++ b'.' ∷ old)
    → NoSlash ((b ∷ stem) ++ b'.' ∷ new)
    → with_extension (join dir ((b ∷ stem) ++ b'.' ∷ old)) new ≡ join dir ((b ∷ stem) ++ b'.' ∷ new)
unfolding with_extension
with_extension-join dir b stem old new h e k l =
    let name = (b ∷ stem) ++ b'.' ∷ old in
    rw
      (
        file_name-join dir name k,
        kept b (stem ++ b'.' ∷ old) h,
        stem_and_ext-at b stem old h e,
        join-front dir name k,
        front_kept (front dir) name,
        join-front dir ((b ∷ stem) ++ b'.' ∷ new) l,
      )
      refl
