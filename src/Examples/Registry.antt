-- ===== src/Examples/Registry.antt =====
-- A sound that is registered and removed on concrete data.
use alarm_daemon.Base.{
  ◌≡◌, refl, true, some, List, [], ◌∷◌, ◌++◌, String, arith, Option, Result, ok,
}
use alarm_daemon.Base.Bytes.{Bytes, ascii, bytes_eq, strip_prefix}
use alarm_daemon.Audio.Decoded.{Format, from_bytes, decode_source}
use alarm_daemon.Sounds.Paths.{join, with_extension, file_name, stem_and_ext}
use alarm_daemon.Sounds.Library.{wav, SoundSummary, list_sounds, resolve_path}
use alarm_daemon.Sounds.Order.{Has}
use alarm_daemon.Sounds.Unordered.{IsReadable}
use alarm_daemon.Sounds.Names.{make_custom_id, clean, hex}
use alarm_daemon.Sounds.Registry.{
  extension, sniff_format, store_sound, register_sound, unregister_sound,
}
use alarm_daemon.Sounds.Offered.{Registered, register_sound-Registered_offered}
use alarm_daemon.Sounds.Removed.{Gone, unregister_sound-register_sound}
use alarm_daemon.Sounds.Memory.{
  Kept, shown, memory_files, memory_files-IsFileSystem, memory_files_sound,
}
use alarm_daemon.Examples.{library}
use alarm_daemon.Examples.Sound.{tone, tone_probe}

abbrev any_probe : Bytes → Option Bytes → Result String Format
any_probe contents hint = tone_probe

abbrev tiny_wav : Bytes
tiny_wav = ascii "RIFF" ++ 4 ∷ 0 ∷ 0 ∷ 0 ∷ ascii "WAVE"

abbrev no_files : Kept
no_files = []

abbrev chime : Bytes
chime = ascii "custom:my_chime-1f"

abbrev chime_file : Kept
chime_file = (ascii "/c/my_chime-1f.wav", tiny_wav) ∷ []

sniffed : sniff_format tiny_wav ≡ ok wav
unfolding sniff_format bytes_eq
sniffed = refl

decodes : from_bytes any_probe tiny_wav (some (extension wav)) ≡ ok tone
unfolding from_bytes decode_source
decodes = refl

unregister_sound-register_sound_example :
    (w' w'' : Kept) × (r : Bytes) × (register_sound memory_files any_probe library
        (some 31)
        (ascii "My_Chime!")
        tiny_wav
        no_files
      ≡ (w', ok r))
    × ((path : Bytes) × (resolve_path (shown w') library r ≡ ok path)
        × ((shown w').exists path ≡ true))
    × (unregister_sound memory_files library r w' ≡ (w'', ok tt))
    × Gone memory_files memory_files-IsFileSystem memory_files_sound library w'' r
unregister_sound-register_sound_example =
    unregister_sound-register_sound memory_files memory_files-IsFileSystem memory_files_sound
      library any_probe (some 31) (ascii "My_Chime!") tiny_wav wav tone no_files (omega arith)
      sniffed decodes

registered :
    register_sound memory_files any_probe library (some 31) (ascii "My_Chime!") tiny_wav no_files
    ≡ (chime_file, ok chime)
unfolding register_sound sniff_format from_bytes decode_source store_sound extension bytes_eq
    make_custom_id with_extension join file_name stem_and_ext clean hex
registered = refl

chime-IsReadable : IsReadable (shown chime_file) library
unfolding bytes_eq join strip_prefix
chime-IsReadable = record { all_builtin = tt; all_custom = ((12, refl), tt) }

chime_entries :
    (shown chime_file).read_dir library.custom_dir ≡ some (ok (ascii "my_chime-1f.wav") ∷ [])
unfolding bytes_eq strip_prefix
chime_entries = refl

register_sound-Registered_offered_example :
    Registered memory_files memory_files-IsFileSystem library any_probe tiny_wav chime_file chime
    × ((path : Bytes) × (resolve_path (shown chime_file) library chime ≡ ok path)
        × ((shown chime_file).exists path ≡ true))
    × ((l : List SoundSummary) × (list_sounds (shown chime_file) library ≡ ok l) × Has chime l)
register_sound-Registered_offered_example =
    register_sound-Registered_offered memory_files memory_files-IsFileSystem library any_probe
      (some 31) (ascii "My_Chime!") tiny_wav no_files chime_file chime
      (ok (ascii "my_chime-1f.wav") ∷ []) registered chime-IsReadable chime_entries
