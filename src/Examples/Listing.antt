-- ===== src/Examples/Listing.antt =====
-- The sounds of a library on concrete data.
use alarm_daemon.Base.{
  ◌≡◌, refl, true, false, some, List, [], ◌∷◌, arith, Result, ok, All, String, Bool, Option, ◌↔◌,
}
use alarm_daemon.Base.Bytes.{Bytes, ascii, bytes_eq}
use alarm_daemon.Base.Utf8.{is_utf8}
use alarm_daemon.Sounds.Paths.{stem_and_ext, file_name, join, NoSlash}
use alarm_daemon.Sounds.Listing.{AllEntries}
use alarm_daemon.Sounds.Library.{
  builtin, custom, prefix_of, sound_id, with_ext, resolve_path, list_sounds, SoundSummary,
  FileSystem,
}
use alarm_daemon.Sounds.Resolve.{resolve_path_absolute}
use alarm_daemon.Sounds.Order.{IsSorted}
use alarm_daemon.Sounds.Order.{Has}
use alarm_daemon.Sounds.Unordered.{IsOffered, list_sounds_iff}
use alarm_daemon.Sounds.Playable.{
  IsEntry, IsNamed, BuiltinsFirst, Resolves, list_sounds_order, list_sounds_resolve,
}
use alarm_daemon.Examples.{bell, library, files}

resolve_path_absolute_example :
    resolve_path files library (sound_id (prefix_of builtin) (b'/' ∷ ascii "x"))
    ≡ ok (b'/' ∷ with_ext (ascii "x") (ascii "wav"))
unfolding bytes_eq
resolve_path_absolute_example = resolve_path_absolute files library builtin (ascii "x") refl

abbrev listing : List SoundSummary
listing = record { id = bell; name = ascii "bell"; source = builtin; bytes = 44 } ∷ []

listed : list_sounds files library ≡ ok listing
unfolding list_sounds bytes_eq stem_and_ext file_name join is_utf8
listed = refl

list_sounds_order_example : IsSorted listing × All IsNamed listing × BuiltinsFirst listing
list_sounds_order_example = list_sounds_order files library listing listed

bell_wav-NoSlash : NoSlash (ascii "bell.wav")
bell_wav-NoSlash = (
  omega arith,
  (
    omega arith,
    (omega arith, (omega arith, (omega arith, (omega arith, (omega arith, (omega arith, tt)))))),
  ),
)

builtin_entries : AllEntries (IsEntry files library builtin) (files.read_dir library.builtin_dir)
unfolding bytes_eq join
builtin_entries = ((bell_wav-NoSlash, refl), tt)

custom_entries : AllEntries (IsEntry files library custom) (files.read_dir library.custom_dir)
unfolding bytes_eq
custom_entries = tt

list_sounds_resolve_example : All (Resolves files library) listing
list_sounds_resolve_example =
    list_sounds_resolve files library listing builtin_entries custom_entries listed

list_sounds_iff_example : Has bell listing ↔ IsOffered files library bell
list_sounds_iff_example = list_sounds_iff files library listing listed bell

-- The same directory, read twice over at another moment, its file grown.
abbrev entries_later : Bool → Option (List (Result String Bytes))
entries_later true = some (ok (ascii "bell.wav") ∷ ok (ascii "bell.wav") ∷ [])
entries_later false = some []

abbrev files_later : FileSystem
files_later = record {
  exists = files.exists;
  read_dir = λ dir. entries_later (bytes_eq dir (ascii "/s"));
  metadata_len = λ path. ok 55;
  create_dir_all = λ path. ok tt;
}
