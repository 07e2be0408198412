-- ===== src/Sounds/Accepted.antt =====
-- `register_sound` of alarm-daemon/src/audio/sounds.rs, where no call of the file system fails.
use alarm_daemon.Base.{
  ℕ, ◌≤◌, ◌≡◌, sym, ap, ◌∙◌, false, Option, some, ◌++◌, String, arith, ltb, length, Result-cases,
  map_err, inl, inr, Result, ok,
}
use alarm_daemon.Base.Bytes.{Bytes, ascii}
use alarm_daemon.Audio.{io}
use alarm_daemon.Audio.Decoded.{DecodedSound, Format, from_bytes}
use alarm_daemon.Sounds.Library.{SoundLibrary, SoundFormat, custom, prefix_of, sound_id, with_ext}
use alarm_daemon.Sounds.Names.{IsPlain, make_custom_id, make_custom_id-IsPlain}
use alarm_daemon.Sounds.Registry.{
  Files, max_custom_sound_bytes, extension, sniff_format, try_io, store_sound, register_sound,
}
use alarm_daemon.Sounds.Registered.{
  IsFileSystem, extension-NoSlash, tmp-NoSlash, plain-NoSlash, tmp_path,
}
use alarm_daemon.Sounds.Offered.{bind_to_run, place, beside}

module _ (F : Files) (L : IsFileSystem F) (sound : ¬ L.Faulty) (lib : SoundLibrary) where
  made : (w : F.World) (d : Bytes) → (F.create_dir_all w d).1 ≡ ok tt
  made w d = elim (Result-cases (F.create_dir_all w d).1) [
    | inl (_, e) ↦ e
    | inr (x, e) ↦ absurd (sound (L.dir_fault w d x e))
  ]

  wrote :
      (w : F.World) (f : SoundFormat) (id contents : Bytes)
      → L.Dir w lib.custom_dir
      → IsPlain id
      → (F.write w (beside F L lib f id) contents).1 ≡ ok tt
  wrote w f id contents dir plain =
      elim (Result-cases (F.write w (beside F L lib f id) contents).1) [
        | inl (_, e) ↦ e
        | inr (x, e) ↦ absurd (
            sound (
              L.write_fault w lib.custom_dir (with_ext id (extension f ++ ascii ".tmp")) contents x
                dir (plain-NoSlash id _ plain (tmp-NoSlash f))
                (ap (λ p. (F.write w p contents).1) (sym (tmp_path lib.custom_dir id f plain))
                  ∙ e)))
      ]

  moved :
      (w : F.World) (f : SoundFormat) (id contents : Bytes)
      → L.content w (beside F L lib f id) ≡ some contents
      → IsPlain id
      → (F.rename w (beside F L lib f id) (place F L lib f id)).1 ≡ ok tt
  moved w f id contents held plain =
      let same = tmp_path lib.custom_dir id f plain in
      elim (Result-cases (F.rename w (beside F L lib f id) (place F L lib f id)).1) [
        | inl (_, e) ↦ e
        | inr (x, e) ↦ absurd (
            sound (
              L.rename_fault w lib.custom_dir (with_ext id (extension f ++ ascii ".tmp"))
                (with_ext id (extension f)) contents x (plain-NoSlash id _ plain (tmp-NoSlash f))
                (plain-NoSlash id _ plain (extension-NoSlash f))
                (ap (L.content w) (sym same) ∙ held)
                (ap (λ p. (F.rename w p (place F L lib f id)).1) (sym same) ∙ e)))
      ]

  store_sound_total :
      (f : SoundFormat) (id contents : Bytes) (w : F.World)
      → L.Dir w lib.custom_dir
      → IsPlain id
      → (w' : F.World) × (store_sound F lib f id contents w
          ≡ (w', ok (sound_id (prefix_of custom) id)))
  unfolding store_sound
  store_sound_total f id contents w dir plain =
      let w1 = (F.write w (beside F L lib f id) contents).0 in
      let e1 = wrote w f id contents dir plain in
      let e2 = moved w1 f id contents (L.written w (beside F L lib f id) contents e1) plain in
      (
        (F.rename w1 (beside F L lib f id) (place F L lib f id)).0,
        bind_to_run F (try_io F (λ w. F.write w (beside F L lib f id) contents) w) _ tt
              (ap (λ r. map_err r io) e1)
            ∙ bind_to_run F
                (try_io F (λ w. F.rename w (beside F L lib f id) (place F L lib f id)) w1) _ tt
                (ap (λ r. map_err r io) e2),
      )

  pub register_sound_total :
      (probe : Bytes → Option Bytes → Result String Format) (now : Option ℕ) (name contents : Bytes)
      (f : SoundFormat) (d : DecodedSound) (w : F.World)
      → length contents ≤ max_custom_sound_bytes
      → sniff_format contents ≡ ok f
      → from_bytes probe contents (some (extension f)) ≡ ok d
      → (w' : F.World) × (register_sound F probe lib now name contents w
          ≡ (w', ok (sound_id (prefix_of custom) (make_custom_id now name))))
  unfolding register_sound
  register_sound_total probe now name contents f d w small sniffed decodes =
      let fits : ltb max_custom_sound_bytes (length contents) ≡ false = ground arith in
      let e = made w lib.custom_dir in
      let (w', stored) =
        store_sound_total f (make_custom_id now name) contents (F.create_dir_all w lib.custom_dir).0
          (L.dir_made w lib.custom_dir e) (make_custom_id-IsPlain now name) in
      (
        w',
        rw fits (
            bind_to_run F (w, sniff_format contents) _ f sniffed
            ∙ bind_to_run F (w, from_bytes probe contents (some (extension f))) _ d decodes
            ∙ bind_to_run F (try_io F (λ w. F.create_dir_all w lib.custom_dir) w) _ tt
                (ap (λ r. map_err r io) e)
            ∙ stored),
      )
