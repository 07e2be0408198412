-- ===== src/Sounds/Removed.antt =====
-- A sound that is registered and removed again: `register_sound` and `unregister_sound` of
-- alarm-daemon/src/audio/sounds.rs, where no call of the file system fails.
use alarm_daemon.Base.{
  ℕ, ◌≤◌, ◌≡◌, ◌⊎◌, refl, sym, ap, ◌∙◌, Bool, true, false, Option, some, List, [], ◌∷◌, String,
  length, All, Bool-cases, Result-cases, map_err, inl, inr, Result, ok, err,
}
use mathlib.Core.Path.{subst}
use alarm_daemon.Base.Bytes.{Bytes, ascii, strip_prefix}
use alarm_daemon.Audio.{AudioError, io, unknown_sound}
use alarm_daemon.Audio.Decoded.{DecodedSound, Format, from_bytes}
use alarm_daemon.Sounds.Library.{
  SoundLibrary, SoundFormat, wav, flac, custom, prefix_of, sound_id, resolve_path, resolve_in,
  resolve_exts,
}
use alarm_daemon.Sounds.Resolve.{file_of, resolve_path-sound_id}
use alarm_daemon.Sounds.Names.{make_custom_id}
use alarm_daemon.Sounds.Registry.{
  Files, max_custom_sound_bytes, extension, sniff_format, bind_to, try_io, register_sound,
  remove_exts, if_removed, unregister_sound,
}
use alarm_daemon.Sounds.Registered.{IsFileSystem}
use alarm_daemon.Sounds.Accepted.{register_sound_total}
use alarm_daemon.Sounds.Offered.{bind_to_run, register_sound-Registered, Registered-Resolves}

module _ (F : Files) (L : IsFileSystem F) (sound : ¬ L.Faulty) (lib : SoundLibrary) where
  abbrev pub there_at : F.World → Bytes → Bytes → Bool
  there_at w name ext = (F.view w).exists (file_of lib custom name ext)

  -- What the loop over the extensions comes to: no file of the name is left, no other appears, and
  -- the answer is whether one was removed.
  abbrev Cleared : Bytes → List Bytes → Bool → F.World → F.World × Result AudioError Bool → Type 0
  Cleared name exts removed w x =
      (w' : F.World) × (b : Bool) × (x ≡ (w', ok b))
      × All (λ ext. there_at w' name ext ≡ false) exts
      × ((q : Bytes) → (F.view w).exists q ≡ false → (F.view w').exists q ≡ false)
      × ((b ≡ true) ⊎ ((b ≡ removed) × All (λ ext. there_at w name ext ≡ false) exts))

  remove_exts-Cleared :
      (name : Bytes) (exts : List Bytes) (removed : Bool) (w : F.World)
      → Cleared name exts removed w (remove_exts F lib name exts removed w)
  unfolding remove_exts
  remove_exts-Cleared name [] removed w = (w, removed, refl, tt, (λ q h. h), inr (refl, tt))
  remove_exts-Cleared name (ext ∷ exts) removed w =
      let p = file_of lib custom name ext in
      let v = (F.remove_file w p).0 in
      elim (Bool-cases (there_at w name ext)) [
        | inr gone ↦
            let (w', b, e, none_left, keeps, told) = remove_exts-Cleared name exts removed w in
            (
              w',
              b,
              rw gone e,
              (keeps p gone, none_left),
              keeps,
              elim told [ inl t ↦ inl t | inr (t, a) ↦ inr (t, (gone, a)) ],
            )
        | inl present ↦ elim (Result-cases (F.remove_file w p).1) [
          | inr (x, e) ↦ absurd (sound (L.remove_fault w p x present e))
          | inl (_, e) ↦
              let (w', b, f, none_left, keeps, told) = remove_exts-Cleared name exts true v in
              (
                w',
                b,
                rw present (
                    bind_to_run F (try_io F (λ w. F.remove_file w p) w) _ tt
                      (ap (λ r. map_err r io) e)
                    ∙ f),
                (keeps p (L.removed w p e), none_left),
                (λ q h. keeps q (L.removes_only w p q h)),
                elim told [ inl t ↦ inl t | inr (t, a) ↦ inl t ],
              )
        ]
      ]

  abbrev both : List Bytes
  both = ascii "wav" ∷ ascii "flac" ∷ []

  unregister_steps :
      (name : Bytes) (w : F.World)
      → unregister_sound F lib (sound_id (prefix_of custom) name) w
        ≡ bind_to F
            (remove_exts F lib name both false w)
            (if_removed F (sound_id (prefix_of custom) name))
  unfolding unregister_sound
  unregister_steps name w = unfold strip_prefix in refl

  unresolved :
      (name : Bytes) (w : F.World)
      → All (λ ext. there_at w name ext ≡ false) both
      → resolve_path (F.view w) lib (sound_id (prefix_of custom) name)
        ≡ err (unknown_sound (sound_id (prefix_of custom) name))
  unfolding resolve_in resolve_exts
  unresolved name w (no_wav, (no_flac, _)) =
      resolve_path-sound_id (F.view w) lib custom name ∙ rw (no_wav, no_flac) refl

  unregister_again :
      (name : Bytes) (w : F.World)
      → All (λ ext. there_at w name ext ≡ false) both
      → unregister_sound F lib (sound_id (prefix_of custom) name) w
        ≡ (w, err (unknown_sound (sound_id (prefix_of custom) name)))
  unfolding remove_exts
  unregister_again name w (no_wav, (no_flac, _)) =
      unregister_steps name w ∙ rw (no_wav, no_flac) refl

  left_none :
      (name : Bytes) (w : F.World) (f : SoundFormat)
      → there_at w name (extension f) ≡ true
      → ¬ All (λ ext. there_at w name ext ≡ false) both
  unfolding extension
  left_none name w wav h (no_wav, _) = cc
  left_none name w flac h (_, (no_flac, _)) = cc

  -- What is left of a sound that has been removed: its id is unknown, to `resolve_path` and to
  -- another `unregister_sound`.
  abbrev pub Gone : F.World → Bytes → Type 0
  Gone w r =
      (resolve_path (F.view w) lib r ≡ err (unknown_sound r))
      × (unregister_sound F lib r w ≡ (w, err (unknown_sound r)))

  unregister_known :
      (name : Bytes) (f : SoundFormat) (w : F.World)
      → there_at w name (extension f) ≡ true
      → (w' : F.World) × (unregister_sound F lib (sound_id (prefix_of custom) name) w ≡ (w', ok tt))
        × Gone w' (sound_id (prefix_of custom) name)
  unregister_known name f w h =
      let (w', b, e, none_left, _, told) = remove_exts-Cleared name both false w in
      let yes : b ≡ true = elim told [ inl t ↦ t | inr (_, a) ↦ absurd (left_none name w f h a) ] in
      (
        w',
        unregister_steps name w
            ∙ ap (λ x. bind_to F x (if_removed F (sound_id (prefix_of custom) name)))
                (e ∙ ap (λ c. (w', ok c)) yes),
        (unresolved name w' none_left, unregister_again name w' none_left),
      )

  -- Where no call of the file system fails: a sound that is no larger than the limit, that is WAV
  -- or FLAC by its first bytes and that decodes is registered, under an id that resolves;
  -- `unregister_sound` then accepts the id, and behind it the id no longer resolves, and removing
  -- it again is refused and changes nothing.
  pub unregister_sound-register_sound :
      (probe : Bytes → Option Bytes → Result String Format) (now : Option ℕ) (name contents : Bytes)
      (f : SoundFormat) (d : DecodedSound) (w : F.World)
      → length contents ≤ max_custom_sound_bytes
      → sniff_format contents ≡ ok f
      → from_bytes probe contents (some (extension f)) ≡ ok d
      → (w' w'' : F.World) × (r : Bytes) × (register_sound F probe lib now name contents w
          ≡ (w', ok r))
        × ((path : Bytes) × (resolve_path (F.view w') lib r ≡ ok path)
            × ((F.view w').exists path ≡ true))
        × (unregister_sound F lib r w' ≡ (w'', ok tt))
        × Gone w'' r
  unregister_sound-register_sound probe now name contents f d w small sniffed decodes =
      let (w', e) =
        register_sound_total F L sound lib probe now name contents f d w small sniffed decodes in
      let h = register_sound-Registered F L lib probe now name contents w w' _ e in
      let (id, g, named, _, _, _, _, held) = h in
      let (w'', removed, gone) = unregister_known id g w' (L.there w' _ contents held) in
      (
        w',
        w'',
        sound_id (prefix_of custom) (make_custom_id now name),
        e,
        Registered-Resolves F L lib probe contents w' _ h,
        ap (λ r. unregister_sound F lib r w') named ∙ removed,
        subst (λ r. Gone w'' r) (sym named) gone,
      )
