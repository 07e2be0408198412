-- ===== src/Sounds/Resolve.antt =====
-- How a sound id finds its file: alarm-daemon/src/audio/sounds.rs, `resolve_path`.
use alarm_daemon.Base.{◌≡◌, ◌⊎◌, refl, ◌∙◌, true, false, ◌∷◌, ok, err, Bool-cases, inl, inr}
use alarm_daemon.Base.Bytes.{Bytes, ascii, strip_prefix}
use alarm_daemon.Audio.{unknown_sound}
use alarm_daemon.Sounds.Paths.{join}
use alarm_daemon.Sounds.Library.{
  FileSystem, SoundLibrary, SoundSource, builtin, custom, prefix_of, sound_id, with_ext,
  resolve_exts, resolve_in, resolve_custom, resolve_path,
}

abbrev pub dir_of : SoundLibrary → SoundSource → Bytes
dir_of lib builtin = lib.builtin_dir
dir_of lib custom = lib.custom_dir

abbrev pub file_of : SoundLibrary → SoundSource → Bytes → Bytes → Bytes
file_of lib source name ext = join (dir_of lib source) (with_ext name ext)

module _ (fs : FileSystem) (lib : SoundLibrary) where
  -- An id that names a source resolves in that source's directory.
  pub resolve_path-sound_id :
      (source : SoundSource) (name : Bytes)
      → resolve_path fs lib (sound_id (prefix_of source) name)
        ≡ resolve_in fs (dir_of lib source) (prefix_of source) name
  unfolding resolve_path resolve_custom
  resolve_path-sound_id builtin name = unfold strip_prefix in refl
  resolve_path-sound_id custom name = unfold strip_prefix in refl

  -- The file that a name plays: its WAV, or its FLAC where there is no WAV.
  abbrev pub Plays : SoundSource → Bytes → Bytes → Type 0
  Plays source name path =
      ((path ≡ file_of lib source name (ascii "wav")) × (fs.exists path ≡ true))
      ⊎ ((path ≡ file_of lib source name (ascii "flac"))
          × (fs.exists path ≡ true)
          × (fs.exists (file_of lib source name (ascii "wav")) ≡ false))

  pub resolve_in_cases :
      (source : SoundSource) (name : Bytes)
      → ((path : Bytes) × (resolve_in fs (dir_of lib source) (prefix_of source) name ≡ ok path)
          × Plays source name path)
        ⊎ ((resolve_in fs (dir_of lib source) (prefix_of source) name
              ≡ err (unknown_sound (sound_id (prefix_of source) name)))
            × (fs.exists (file_of lib source name (ascii "wav")) ≡ false)
            × (fs.exists (file_of lib source name (ascii "flac")) ≡ false))
  unfolding resolve_in resolve_exts
  resolve_in_cases source name =
      elim (Bool-cases (fs.exists (file_of lib source name (ascii "wav")))) [
        | inl w ↦ inl (file_of lib source name (ascii "wav"), rw (w, resolve_exts), inl (refl, w))
        | inr w ↦ elim (Bool-cases (fs.exists (file_of lib source name (ascii "flac")))) [
          | inl f ↦
              inl
                (file_of lib source name (ascii "flac"), rw (w, resolve_exts, f), inr (refl, f, w))
          | inr f ↦ inr (rw (w, resolve_exts, f), w, f)
        ]
      ]

  -- A name that starts with a slash leaves the library: whatever its directories are, such an id
  -- resolves to the absolute path that the client wrote, if a file with the extension is there.
  pub resolve_path_absolute :
      (source : SoundSource) (name : Bytes)
      → fs.exists (b'/' ∷ with_ext name (ascii "wav")) ≡ true
      → resolve_path fs lib (sound_id (prefix_of source) (b'/' ∷ name))
        ≡ ok (b'/' ∷ with_ext name (ascii "wav"))
  unfolding resolve_in resolve_exts join
  resolve_path_absolute source name h = resolve_path-sound_id source (b'/' ∷ name) ∙ rw h refl
