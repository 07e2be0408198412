-- ===== src/Sounds/Library.antt =====
-- The sound library of alarm-daemon/src/audio/sounds.rs over a file system that is a parameter.
use alarm_daemon.Base.{
  ℕ, Bool, true, false, Option, none, some, List, [], ◌∷◌, ◌++◌, String, ◌==◌, if◌then◌else◌, ltb,
  Result, ok, err, map_err, ◌>>=◌, map,
}
use alarm_daemon.Base.Bytes.{Bytes, ascii, bytes_eq, strip_prefix}
use alarm_daemon.Audio.{AudioError, io, unknown_sound, invalid_sound_id}
use alarm_daemon.Sounds.Paths.{join, file_name, stem_and_ext, to_str}

-- `Path::exists`, `fs::read_dir` (the names of the entries), `fs::metadata` (the length) and
-- `fs::create_dir_all`, at the moment of a call.
pub record FileSystem : Type 0 where
  pub exists : Bytes → Bool
  pub read_dir : Bytes → Option (List (Result String Bytes))
  pub metadata_len : Bytes → Result String ℕ
  pub create_dir_all : Bytes → Result String (Unit {0})

pub data SoundFormat : Type 0 where
  wav flac : SoundFormat

pub data SoundSource : Type 0 where
  builtin custom : SoundSource

pub record SoundSummary : Type 0 where
  pub id : Bytes
  pub name : Bytes
  pub source : SoundSource
  pub bytes : ℕ

pub record SoundLibrary : Type 0 where
  pub builtin_dir : Bytes
  pub custom_dir : Bytes

abbrev pub default_builtin_sound_dir : Bytes
default_builtin_sound_dir = ascii "/usr/share/helm/sounds"

abbrev pub default_custom_sound_dir : Bytes
default_custom_sound_dir = ascii "/var/lib/helm/sounds"

abbrev unwrap_or {ℓ} : {A : Type ℓ} → Option A → A → A
unwrap_or none a = a
unwrap_or (some a) b = a

-- The values of `ALARM_DAEMON_SOUND_DIR` and `ALARM_DAEMON_CUSTOM_SOUND_DIR`, if they are set.
unfoldable pub from_env : Option Bytes → Option Bytes → SoundLibrary
from_env sound_dir custom_sound_dir = record {
  builtin_dir = unwrap_or sound_dir default_builtin_sound_dir;
  custom_dir = unwrap_or custom_sound_dir default_custom_sound_dir;
}

abbrev pub format_of : Option Bytes → Option SoundFormat
format_of none = none
format_of (some ext) =
    if bytes_eq ext (ascii "wav")
    then some wav
    else if bytes_eq ext (ascii "flac")
    then some flac
    else none

abbrev pub utf8_ext : Option Bytes → Option Bytes
utf8_ext none = none
utf8_ext (some ext) = to_str ext

-- `SoundFormat::from_path`
unfoldable pub format_from_path : Bytes → Option SoundFormat
format_from_path path = format_of (utf8_ext (stem_and_ext (file_name path)).1)

abbrev pub prefix_of : SoundSource → Bytes
prefix_of builtin = ascii "builtin"
prefix_of custom = ascii "custom"

-- `format!("{prefix}:{name}")` and `format!("{name}.{ext}")`
abbrev pub sound_id : Bytes → Bytes → Bytes
sound_id prefix name = prefix ++ b':' ∷ name

abbrev pub with_ext : Bytes → Bytes → Bytes
with_ext name ext = name ++ b'.' ∷ ext

-- The order of `String`, which is that of its bytes, and a `BTreeMap` as its sorted entries.
unfoldable pub bytes_lt : Bytes → Bytes → Bool
bytes_lt s [] = false
bytes_lt [] (b ∷ t) = true
bytes_lt (a ∷ s) (b ∷ t) =
    let rest = bytes_lt s t in if ltb a b then true else if a == b then rest else false

unfoldable pub insert : SoundSummary → List SoundSummary → List SoundSummary
insert s [] = s ∷ []
insert s (t ∷ ts) =
    let later = insert s ts in
    if bytes_lt s.id t.id then s ∷ t ∷ ts else if bytes_eq s.id t.id then s ∷ ts else t ∷ later

abbrev pub ids : List SoundSummary → List Bytes
ids sounds = map (λ s. s.id) sounds

module _ (fs : FileSystem) where
  unfoldable pub resolve_exts : Bytes → Bytes → Bytes → List Bytes → Result AudioError Bytes
  resolve_exts dir prefix name [] = err (unknown_sound (sound_id prefix name))
  resolve_exts dir prefix name (ext ∷ exts) =
      let path = join dir (with_ext name ext) in
      let rest = resolve_exts dir prefix name exts in if fs.exists path then ok path else rest

  unfoldable pub resolve_in : Bytes → Bytes → Bytes → Result AudioError Bytes
  unfolding resolve_exts
  resolve_in dir prefix name = resolve_exts dir prefix name (ascii "wav" ∷ ascii "flac" ∷ [])

  unfoldable pub resolve_custom : SoundLibrary → Bytes → Result AudioError Bytes
  unfolding resolve_in strip_prefix
  resolve_custom lib id = elim (strip_prefix (ascii "custom:") id) [
    | some name ↦ resolve_in lib.custom_dir (ascii "custom") name
    | none ↦ err (invalid_sound_id id)
  ]

  unfoldable pub resolve_path : SoundLibrary → Bytes → Result AudioError Bytes
  unfolding resolve_in resolve_custom strip_prefix
  resolve_path lib id = elim (strip_prefix (ascii "builtin:") id) [
    | some name ↦ resolve_in lib.builtin_dir (ascii "builtin") name
    | none ↦ resolve_custom lib id
  ]

  unfoldable pub ensure_dirs : SoundLibrary → Result AudioError (Unit {0})
  ensure_dirs lib = map_err (fs.create_dir_all lib.custom_dir) io

  -- The rest of one round of `collect`: the stem is text, and the file has a length.
  unfoldable pub collect_named :
      SoundSource → Bytes → Option Bytes → List SoundSummary → Result AudioError (List SoundSummary)
  unfolding insert
  collect_named source path none sounds = ok sounds
  collect_named source path (some stem) sounds = do
    len ← map_err (fs.metadata_len path) io
    ok (
        insert
          (record {
            id = sound_id (prefix_of source) stem;
            name = stem;
            source = source;
            bytes = len;
          })
          sounds)

  unfoldable pub collect_entry :
      Bytes
      → SoundSource
      → Result String Bytes
      → List SoundSummary
      → Result AudioError (List SoundSummary)
  unfolding collect_named format_from_path
  collect_entry dir source (err e) sounds = err (io e)
  collect_entry dir source (ok name) sounds =
      let path = join dir name in
      elim (format_from_path path) [
        | none ↦ ok sounds
        | some format ↦ collect_named source path (to_str (stem_and_ext (file_name path)).0) sounds
      ]

  unfoldable pub collect_entries :
      Bytes
      → SoundSource
      → List (Result String Bytes)
      → List SoundSummary
      → Result AudioError (List SoundSummary)
  unfolding collect_entry
  collect_entries dir source [] sounds = ok sounds
  collect_entries dir source (entry ∷ entries) sounds = do
    more ← collect_entry dir source entry sounds
    collect_entries dir source entries more

  unfoldable pub collect :
      Bytes → SoundSource → List SoundSummary → Result AudioError (List SoundSummary)
  unfolding collect_entries
  collect dir source sounds = elim (fs.read_dir dir) [
    | none ↦ ok sounds
    | some entries ↦ collect_entries dir source entries sounds
  ]

  unfoldable pub list_sounds : SoundLibrary → Result AudioError (List SoundSummary)
  unfolding collect
  list_sounds lib = do
    sounds ← collect lib.builtin_dir builtin []
    collect lib.custom_dir custom sounds
