-- ===== src/Sounds/Offered.antt =====
-- What `register_sound` of alarm-daemon/src/audio/sounds.rs leaves behind, over what a file system
-- documents.
use alarm_daemon.Base.{
  ◌++◌, ℕ, ◌≤◌, ◌≡◌, refl, sym, ap, ◌∙◌, true, Option, some, List, String, arith, ltb, length, All,
  Bool-cases, map_err_ok, inl, inr, Result, ok, err,
}
use alarm_daemon.Base.Bytes.{Bytes, ascii}
use alarm_daemon.Audio.{AudioError, io}
use alarm_daemon.Audio.Decoded.{DecodedSound, Format, from_bytes}
use alarm_daemon.Sounds.Paths.{with_extension}
use alarm_daemon.Sounds.Library.{
  SoundLibrary, SoundFormat, custom, SoundSummary, prefix_of, sound_id, with_ext, list_sounds,
  resolve_path,
}
use alarm_daemon.Sounds.Resolve.{file_of}
use alarm_daemon.Sounds.Order.{Has}
use alarm_daemon.Sounds.Playable.{stem_resolves}
use alarm_daemon.Sounds.Complete.{list_sounds_complete}
use alarm_daemon.Sounds.Unordered.{CanRead, IsReadable, list_sounds_total}
use alarm_daemon.Sounds.Names.{IsPlain, make_custom_id, make_custom_id-IsPlain}
use alarm_daemon.Sounds.Registry.{
  Files, max_custom_sound_bytes, extension, sniff_format, M, bind_to, try_io, store_sound,
  register_sound,
}
use alarm_daemon.Sounds.Registered.{
  IsFileSystem, extension-NoSlash, plain-NoSlash, known, plain-IsSound,
}

module _ (F : Files) where
  -- What an answer tells of the steps behind it, and how the steps go on.
  bind_to_ok :
      {A B : Type 0} (x : F.World × Result AudioError A) (f : A → M F B) (w' : F.World) (b : B)
      → bind_to F x f ≡ (w', ok b)
      → (a : A) × (x.1 ≡ ok a) × (f a x.0 ≡ (w', ok b))
  bind_to_ok (w, ok a) f w' b e = (a, refl, e)
  bind_to_ok (w, err x) f w' b e =
      absurd
        (let no : ◌≡◌ {A = Result AudioError _} (err x) (ok b) = ap (λ p. p.1) e in ground arith)

  pub bind_to_run :
      {A B : Type 0} (x : F.World × Result AudioError A) (f : A → M F B) (a : A)
      → x.1 ≡ ok a
      → bind_to F x f ≡ f a x.0
  bind_to_run (w, ok b) f a e = let same : b ≡ a = grind arith in ap (λ c. f c w) same
  bind_to_run (w, err x) f a e = absurd (ground arith)

module _ (F : Files) (L : IsFileSystem F) (lib : SoundLibrary) where
  abbrev pub place : SoundFormat → Bytes → Bytes
  place f id = file_of lib custom id (extension f)

  abbrev pub beside : SoundFormat → Bytes → Bytes
  beside f id = with_extension (place f id) (extension f ++ ascii ".tmp")

  pub store_sound-content :
      (f : SoundFormat) (id contents : Bytes) (w w' : F.World) (r : Bytes)
      → store_sound F lib f id contents w ≡ (w', ok r)
      → (r ≡ sound_id (prefix_of custom) id) × (L.content w' (place f id) ≡ some contents)
  unfolding store_sound
  store_sound-content f id contents w w' r e =
      let (_, e1, f1) =
        bind_to_ok F (try_io F (λ w. F.write w (beside f id) contents) w) _ w' r e in
      let w1 = (F.write w (beside f id) contents).0 in
      let (_, e2, f2) =
        bind_to_ok F (try_io F (λ w. F.rename w (beside f id) (place f id)) w1) _ w' r f1 in
      let at_end : (F.rename w1 (beside f id) (place f id)).0 ≡ w' = ap (λ p. p.0) f2 in
      let named : ◌≡◌ {A = Result AudioError Bytes} (ok (sound_id (prefix_of custom) id)) (ok r) =
        ap (λ p. p.1) f2 in
      (
        grind arith,
        ap (λ v. L.content v (place f id)) (sym at_end)
            ∙ L.renamed w1 (beside f id) (place f id) (map_err_ok _ io tt e2)
            ∙ L.written w (beside f id) contents (map_err_ok _ io tt e1),
      )

  -- A registered sound: its id is `custom:` and a plain name, and what was given, which is not too
  -- large, has a known format and decodes, is the content of the file of that name.
  abbrev pub Registered :
      (probe : Bytes → Option Bytes → Result String Format)
      → (contents : Bytes) → F.World
      → Bytes
      → Type 0
  Registered probe contents w r =
      (id : Bytes) × (f : SoundFormat) × (r ≡ sound_id (prefix_of custom) id)
      × IsPlain id
      × (length contents ≤ max_custom_sound_bytes)
      × (sniff_format contents ≡ ok f)
      × ((d : DecodedSound) × (from_bytes probe contents (some (extension f)) ≡ ok d))
      × (L.content w (file_of lib custom id (extension f)) ≡ some contents)

  pub register_sound-Registered :
      (probe : Bytes → Option Bytes → Result String Format) (now : Option ℕ) (name contents : Bytes)
      (w w' : F.World) (r : Bytes)
      → register_sound F probe lib now name contents w ≡ (w', ok r)
      → Registered probe contents w' r
  unfolding register_sound
  register_sound-Registered probe now name contents w w' r e =
      elim (Bool-cases (ltb max_custom_sound_bytes (length contents))) [
        | inl big ↦ absurd (
            let e' = rw big at e in
            let no : ◌≡◌ {A = Result AudioError Bytes} (err _) (ok r) = ap (λ p. p.1) e' in
            ground arith)
        | inr small ↦
            let e' = rw small at e in
            let (f, e1, f1) = bind_to_ok F (w, sniff_format contents) _ w' r e' in
            let (d, e2, f2) =
              bind_to_ok F (w, from_bytes probe contents (some (extension f))) _ w' r f1 in
            let (_, e3, f3) =
              bind_to_ok F (try_io F (λ w. F.create_dir_all w lib.custom_dir) w) _ w' r f2 in
            let (named, held) =
              store_sound-content f (make_custom_id now name) contents
                ((F.create_dir_all w lib.custom_dir).0) w' r f3 in
            (
              make_custom_id now name,
              f,
              named,
              make_custom_id-IsPlain now name,
              (ground arith),
              e1,
              (d, e2),
              held,
            )
      ]

  pub Registered-Resolves :
      (probe : Bytes → Option Bytes → Result String Format) (contents : Bytes) (w : F.World)
      (r : Bytes)
      → Registered probe contents w r
      → (path : Bytes) × (resolve_path (F.view w) lib r ≡ ok path) × ((F.view w).exists path ≡ true)
  Registered-Resolves probe contents w r (id, f, named, plain, _, _, _, held) = rw named (
      stem_resolves (F.view w) lib custom id (extension f) (L.there w (place f id) contents held)
        (known f))

  Registered-Has :
      (probe : Bytes → Option Bytes → Result String Format) (contents : Bytes) (w : F.World)
      (r : Bytes) (entries : List (Result String Bytes)) (l : List SoundSummary)
      → Registered probe contents w r
      → (F.view w).read_dir lib.custom_dir ≡ some entries
      → All (CanRead (F.view w) lib.custom_dir) entries
      → list_sounds (F.view w) lib ≡ ok l
      → Has r l
  Registered-Has probe contents w r entries l (id, f, named, plain, _, _, _, held) read can e =
      let name = with_ext id (extension f) in
      rw named (
        list_sounds_complete (F.view w) lib custom name id entries l
          (plain-IsSound (F.view w) lib.custom_dir id f plain) read
          (L.listed w lib.custom_dir name contents entries held
            (plain-NoSlash id _ plain (extension-NoSlash f)) read can)
          e)

  -- On a file system that keeps its promises, and may fail: where a sound is registered, its id is
  -- `custom:` and a plain name of lower-case letters, digits, dashes and underscores; what was
  -- given is no larger than the limit, is WAV or FLAC by its first bytes, decodes, and is the
  -- content of that name's file in the custom directory; the id resolves to a file that exists; and
  -- where the directories can be read, the listing has it.
  pub register_sound-Registered_offered :
      (probe : Bytes → Option Bytes → Result String Format) (now : Option ℕ) (name contents : Bytes)
      (w w' : F.World) (r : Bytes) (entries : List (Result String Bytes))
      → register_sound F probe lib now name contents w ≡ (w', ok r)
      → IsReadable (F.view w') lib
      → (F.view w').read_dir lib.custom_dir ≡ some entries
      → Registered probe contents w' r
        × ((path : Bytes) × (resolve_path (F.view w') lib r ≡ ok path)
            × ((F.view w').exists path ≡ true))
        × ((l : List SoundSummary) × (list_sounds (F.view w') lib ≡ ok l) × Has r l)
  register_sound-Registered_offered probe now name contents w w' r entries e readable read =
      let h = register_sound-Registered probe now name contents w w' r e in
      let (l, listed) = list_sounds_total (F.view w') lib readable in
      (
        h,
        Registered-Resolves probe contents w' r h,
        (
          l,
          listed,
          Registered-Has probe contents w' r entries l h read (rw read at readable.all_custom)
              listed,
        ),
      )
