-- ===== src/Sounds/Registry.antt =====
-- Sounds that are registered and removed again: `test_helpers` of alarm-daemon/src/audio/sounds.rs,
-- which the test build has, over a file system that can be written and that is a parameter.
use alarm_daemon.Base.{
  ℕ, ◌*◌, Bool, true, false, ◌&&◌, Option, none, some, List, [], ◌∷◌, ◌++◌, String, if◌then◌else◌,
  ltb, leb, length, take, drop, Result, ok, err, map_err,
}
use alarm_daemon.Base.Bytes.{Bytes, ascii, bytes_eq, strip_prefix}
use alarm_daemon.Audio.{
  AudioError, io, unknown_sound, invalid_sound_id, unsupported_format, sound_too_large,
}
use alarm_daemon.Audio.Decoded.{DecodedSound, Format, from_bytes}
use alarm_daemon.Sounds.Paths.{join, with_extension}
use alarm_daemon.Sounds.Library.{
  FileSystem, SoundLibrary, SoundFormat, wav, flac, sound_id, with_ext, resolve_path,
}
use alarm_daemon.Sounds.Names.{make_custom_id}

-- What a world shows to the calls that read it, and `fs::create_dir_all`, `fs::write`, `fs::rename`
-- and `fs::remove_file`.
pub record Files : Type 1 where
  pub World : Type 0
  pub view : World → FileSystem
  pub create_dir_all : World → Bytes → World × Result String (Unit {0})
  pub write : World → Bytes → Bytes → World × Result String (Unit {0})
  pub rename : World → Bytes → Bytes → World × Result String (Unit {0})
  pub remove_file : World → Bytes → World × Result String (Unit {0})

abbrev pub max_custom_sound_bytes : ℕ
max_custom_sound_bytes = 5 * 1024 * 1024

-- `SoundFormat::extension`
unfoldable pub extension : SoundFormat → Bytes
extension wav = ascii "wav"
extension flac = ascii "flac"

unfoldable pub sniff_format : Bytes → Result AudioError SoundFormat
unfolding bytes_eq
sniff_format contents =
    if leb 12 (length contents)
      && (bytes_eq (take 4 contents) (ascii "RIFF")
          && bytes_eq (take 4 (drop 8 contents)) (ascii "WAVE"))
    then ok wav
    else if leb 4 (length contents) && bytes_eq (take 4 contents) (ascii "fLaC")
    then ok flac
    else err (unsupported_format "expected WAV (RIFF/WAVE) or FLAC (fLaC)")

module _ (F : Files) where
  open F use {World}

  abbrev pub M : Type 0 → Type 0
  M A = World → World × Result AudioError A

  abbrev pub bind_to :
      {A B : Type 0} → World × Result AudioError A → (A → M B) → World × Result AudioError B
  bind_to (w, ok a) f = f a w
  bind_to (w, err e) f = (w, err e)

  infixl 5 ◌>>=◌ ◌>>◌
  abbrev pub ◌>>=◌ : {A B : Type 0} → M A → (A → M B) → M B
  ◌>>=◌ m f w = bind_to (m w) f

  abbrev pub ◌>>◌ : {B : Type 0} → M (Unit {0}) → M B → M B
  ◌>>◌ m k w = bind_to (m w) (λ _. k)

  -- A result, and `?` on a call that changes the world.
  abbrev pub lift : {A : Type 0} → Result AudioError A → M A
  lift r w = (w, r)

  abbrev pub try_io : (World → World × Result String (Unit {0})) → M (Unit {0})
  try_io f w = let (w', r) = f w in (w', map_err r io)

  -- `register_sound` behind its checks: the sound is written beside its place, and moved there.
  unfoldable pub store_sound : SoundLibrary → SoundFormat → Bytes → Bytes → M Bytes
  unfolding extension with_extension join
  store_sound lib format id contents =
      let path = join lib.custom_dir (with_ext id (extension format)) in
      let tmp = with_extension path (extension format ++ ascii ".tmp") in
      do
        try_io (λ w. F.write w tmp contents)
        try_io (λ w. F.rename w tmp path)
        lift (ok (sound_id (ascii "custom") id))

  unfoldable pub register_sound :
      (Bytes → Option Bytes → Result String Format)
      → SoundLibrary
      → Option ℕ
      → Bytes
      → Bytes
      → M Bytes
  unfolding sniff_format from_bytes make_custom_id store_sound extension
  register_sound probe lib now name contents =
      if ltb max_custom_sound_bytes (length contents)
      then lift (err (sound_too_large (length contents) max_custom_sound_bytes))
      else do
        format ← lift (sniff_format contents)
        sound ← lift (from_bytes probe contents (some (extension format)))
        try_io (λ w. F.create_dir_all w lib.custom_dir)
        store_sound lib format (make_custom_id now name) contents

  -- The rest of the loop over the extensions, behind one whose file is there or is not.
  abbrev pub remove_if : Bool → Bytes → (Bool → M Bool) → Bool → M Bool
  remove_if true path rest removed = do try_io (λ w. F.remove_file w path); rest true
  remove_if false path rest removed = rest removed

  unfoldable pub remove_exts : SoundLibrary → Bytes → List Bytes → Bool → M Bool
  unfolding join
  remove_exts lib name [] removed w = (w, ok removed)
  remove_exts lib name (ext ∷ exts) removed w =
      let path = join lib.custom_dir (with_ext name ext) in
      remove_if ((F.view w).exists path) path (remove_exts lib name exts) removed w

  abbrev pub if_removed : Bytes → Bool → M (Unit {0})
  if_removed id true = lift (ok tt)
  if_removed id false = lift (err (unknown_sound id))

  unfoldable pub unregister_sound : SoundLibrary → Bytes → M (Unit {0})
  unfolding strip_prefix remove_exts
  unregister_sound lib id = elim (strip_prefix (ascii "custom:") id) [
    | none ↦ lift (err (invalid_sound_id id))
    | some name ↦ do
      removed ← remove_exts lib name (ascii "wav" ∷ ascii "flac" ∷ []) false
      if_removed id removed
  ]

  -- `load_decoded`, over `DecodedSound::from_path`.
  unfoldable pub load_decoded :
      (Bytes → Result AudioError DecodedSound) → SoundLibrary → Bytes → M DecodedSound
  unfolding resolve_path
  load_decoded from_path lib id w =
      (do path ← lift (resolve_path (F.view w) lib id); lift (from_path path)) w
