-- ===== src/Sounds/Registered.antt =====
-- The file system below `register_sound` of alarm-daemon/src/audio/sounds.rs, and the names of the
-- files that it writes there.
use alarm_daemon.Base.{
  ℕ, ◌≡◌, ◌≢◌, ◌⊎◌, refl, ap, ◌∙◌, true, false, Option, none, some, List, [], ◌∷◌, ◌++◌, String,
  arith, All, inl, inr, Result, ok, err,
}
use alarm_daemon.Base.Bytes.{Bytes, ascii}
use alarm_daemon.Base.Utf8.{ascii-IsUtf8}
use alarm_daemon.Sounds.Paths.{
  NoSlash, join, split_dot, stem_and_ext, with_extension, file_name-join, stem_and_ext-at,
  with_extension-join,
}
use alarm_daemon.Sounds.Library.{FileSystem, SoundFormat, wav, flac, with_ext}
use alarm_daemon.Sounds.Complete.{HasEntry, IsSound}
use alarm_daemon.Sounds.Unordered.{CanRead}
use alarm_daemon.Sounds.Names.{IsPlain, IsIdByte, IdBytes-NoSlash, IdBytes-ascii}
use alarm_daemon.Sounds.Registry.{Files, extension}

-- What a file system documents. `content w p` is what the file at `p` holds. `Faulty` says that
-- some call may fail: for a full disk, for missing rights, for a directory in the place of a file.
pub record IsFileSystem (F : Files) : Type 1 where
  pub Faulty : Type 0
  pub Dir : F.World → Bytes → Type 0
  pub content : F.World → Bytes → Option Bytes
  pub dir_fault : (w : F.World) (d : Bytes) (e : String) → (F.create_dir_all w d).1 ≡ err e → Faulty
  pub write_fault :
      (w : F.World) (d name x : Bytes) (e : String)
      → Dir w d
      → NoSlash name
      → (F.write w (join d name) x).1 ≡ err e
      → Faulty
  pub rename_fault :
      (w : F.World) (d name other x : Bytes) (e : String)
      → NoSlash name
      → NoSlash other
      → content w (join d name) ≡ some x
      → (F.rename w (join d name) (join d other)).1 ≡ err e
      → Faulty
  pub remove_fault :
      (w : F.World) (p : Bytes) (e : String)
      → (F.view w).exists p ≡ true
      → (F.remove_file w p).1 ≡ err e
      → Faulty
  pub dir_made :
      (w : F.World) (d : Bytes) → (F.create_dir_all w d).1 ≡ ok tt → Dir (F.create_dir_all w d).0 d
  pub written :
      (w : F.World) (p x : Bytes) → (F.write w p x).1 ≡ ok tt → content (F.write w p x).0 p ≡ some x
  pub renamed :
      (w : F.World) (p q : Bytes)
      → (F.rename w p q).1 ≡ ok tt
      → content (F.rename w p q).0 q ≡ content w p
  pub there : (w : F.World) (p x : Bytes) → content w p ≡ some x → (F.view w).exists p ≡ true
  pub listed :
      (w : F.World) (d name x : Bytes) (entries : List (Result String Bytes))
      → content w (join d name) ≡ some x
      → NoSlash name
      → (F.view w).read_dir d ≡ some entries
      → All (CanRead (F.view w) d) entries
      → HasEntry name entries
  pub removed :
      (w : F.World) (p : Bytes)
      → (F.remove_file w p).1 ≡ ok tt
      → (F.view (F.remove_file w p).0).exists p ≡ false
  pub removes_only :
      (w : F.World) (p q : Bytes)
      → (F.view w).exists q ≡ false
      → (F.view (F.remove_file w p).0).exists q ≡ false

NoSlash-append : (s t : Bytes) → NoSlash s → NoSlash t → NoSlash (s ++ t)
NoSlash-append [] t h k = k
NoSlash-append (b ∷ s) t h k = (h.0, NoSlash-append s t h.1 k)

-- The two names of a sound while it is written and where it stands.
pub extension-NoSlash : (f : SoundFormat) → NoSlash (b'.' ∷ extension f)
unfolding extension
extension-NoSlash wav = (omega arith, (omega arith, (omega arith, (omega arith, tt))))
extension-NoSlash flac =
    (omega arith, (omega arith, (omega arith, (omega arith, (omega arith, tt)))))

pub tmp-NoSlash : (f : SoundFormat) → NoSlash (b'.' ∷ extension f ++ ascii ".tmp")
tmp-NoSlash f =
    NoSlash-append (b'.' ∷ extension f) (ascii ".tmp") (extension-NoSlash f)
      (omega arith, (omega arith, (omega arith, (omega arith, tt))))

extension_undotted : (f : SoundFormat) → split_dot (extension f) ≡ none
unfolding extension split_dot
extension_undotted wav = refl
extension_undotted flac = refl

pub known : (f : SoundFormat) → (extension f ≡ ascii "wav") ⊎ (extension f ≡ ascii "flac")
unfolding extension
known wav = inl refl
known flac = inr refl

pub plain-NoSlash : (id t : Bytes) → IsPlain id → NoSlash t → NoSlash (id ++ t)
plain-NoSlash [] t h k = absurd h
plain-NoSlash (b ∷ s) t h k = NoSlash-append (b ∷ s) t (IdBytes-NoSlash (b ∷ s) h) k

undotted : (b : ℕ) → IsIdByte b → b ≢ b'.'
undotted b h e = ground arith

pub tmp_path :
    (dir id : Bytes) (f : SoundFormat)
    → IsPlain id
    → with_extension (join dir (with_ext id (extension f))) (extension f ++ ascii ".tmp")
      ≡ join dir (with_ext id (extension f ++ ascii ".tmp"))
tmp_path dir [] f h = absurd h
tmp_path dir (b ∷ s) f h =
    with_extension-join dir b s (extension f) (extension f ++ ascii ".tmp") (undotted b h.0)
      (extension_undotted f) (plain-NoSlash (b ∷ s) _ h (extension-NoSlash f))
      (plain-NoSlash (b ∷ s) _ h (tmp-NoSlash f))

pub plain-IsSound :
    (fs : FileSystem) (dir id : Bytes) (f : SoundFormat)
    → IsPlain id
    → IsSound fs dir (with_ext id (extension f)) id
plain-IsSound fs dir [] f h = absurd h
plain-IsSound fs dir (b ∷ s) f h = (
  ascii-IsUtf8 (b ∷ s) (IdBytes-ascii (b ∷ s) h),
  (
    extension f,
    ap stem_and_ext (file_name-join dir _ (plain-NoSlash (b ∷ s) _ h (extension-NoSlash f)))
        ∙ stem_and_ext-at b s (extension f) (undotted b h.0) (extension_undotted f),
    known f,
  ),
)
