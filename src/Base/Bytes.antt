-- ===== src/Base/Bytes.antt =====
-- Byte strings: the bytes of an ASCII literal, equality of byte strings, little-endian numbers.
use Prim.Native.Nat.{ℕ, zero, suc, ◌+◌, ◌*◌, ◌/◌, ◌%◌, ◌^◌, ◌<◌}
use Prim.Native.Char.{code}
use Prim.Native.String.{String}
use mathlib.Core.Path.{◌≡◌, refl, ap}
use mathlib.Core.Logic.{◌↔◌}
use mathlib.Core.Bool.{Bool, true, false, ◌&&◌}
use mathlib.Core.Option.{Option, none, some}
use mathlib.Core.List.{List, [], ◌∷◌, ◌++◌}
use native.Mathlib.Omega.{arith}
use alarm_daemon.Base.Tests.{◌==◌, if◌then◌else◌}
use alarm_daemon.Base.Lists.{length, All}

-- A Rust `String`, `&str`, `OsStr` or `Vec<u8>` as its bytes.
abbrev pub Bytes : Type 0
Bytes = List ℕ

abbrev pub IsByte : ℕ → Type 0
IsByte b = b < 256

-- The bytes of an ASCII literal.
abbrev pub ascii : String → Bytes
ascii String.[] = []
ascii (String.◌∷◌ c s) = code c ∷ ascii s

unfoldable pub bytes_eq : Bytes → Bytes → Bool
bytes_eq [] [] = true
bytes_eq [] (_ ∷ _) = false
bytes_eq (_ ∷ _) [] = false
bytes_eq (a ∷ s) (b ∷ t) = (a == b) && bytes_eq s t

bytes_eq_sound : (s t : Bytes) → bytes_eq s t ≡ true → s ≡ t
unfolding bytes_eq
bytes_eq_sound [] [] h = refl
bytes_eq_sound [] (b ∷ t) h = cc
bytes_eq_sound (a ∷ s) [] h = cc
bytes_eq_sound (a ∷ s) (b ∷ t) h = ground (arith, bytes_eq_sound s t)

bytes_eq_refl : (s : Bytes) → bytes_eq s s ≡ true
unfolding bytes_eq
bytes_eq_refl [] = refl
bytes_eq_refl (a ∷ s) = ground (arith, bytes_eq_refl s)

pub bytes_eq_iff : (s t : Bytes) → (bytes_eq s t ≡ true) ↔ (s ≡ t)
bytes_eq_iff s t = (bytes_eq_sound s t, λ e. rw e (bytes_eq_refl t))

-- `strip_prefix`
unfoldable pub strip_prefix : Bytes → Bytes → Option Bytes
strip_prefix [] s = some s
strip_prefix (p ∷ ps) [] = none
strip_prefix (p ∷ ps) (b ∷ s) = let rest = strip_prefix ps s in if p == b then rest else none

pub strip_prefix-append : (p s : Bytes) → strip_prefix p (p ++ s) ≡ some s
unfolding strip_prefix
strip_prefix-append [] s = refl
strip_prefix-append (a ∷ p) s = ground (arith, strip_prefix-append p s)

pub strip_prefix-eq-some : (p s t : Bytes) → strip_prefix p s ≡ some t → s ≡ p ++ t
unfolding strip_prefix
strip_prefix-eq-some [] s t h = cc
strip_prefix-eq-some (a ∷ p) [] t h = cc
strip_prefix-eq-some (a ∷ p) (b ∷ s) t h = ground (arith, strip_prefix-eq-some p s t)

-- The lowest `n` bytes of `w`, least significant first, and back: `to_le_bytes`, `from_le_bytes`.
unfoldable pub to_le_bytes : ℕ → ℕ → Bytes
to_le_bytes zero w = []
to_le_bytes (suc n) w = (w % 256) ∷ to_le_bytes n (w / 256)

unfoldable pub from_le_bytes : Bytes → ℕ
from_le_bytes [] = 0
from_le_bytes (b ∷ s) = b + 256 * from_le_bytes s

pub length-to_le_bytes : (n w : ℕ) → length (to_le_bytes n w) ≡ n
unfolding to_le_bytes
length-to_le_bytes zero w = refl
length-to_le_bytes (suc n) w = ap suc (length-to_le_bytes n (w / 256))

pub to_le_bytes-IsByte : (n w : ℕ) → All IsByte (to_le_bytes n w)
unfolding to_le_bytes
to_le_bytes-IsByte zero w = tt
to_le_bytes-IsByte (suc n) w = (omega arith, to_le_bytes-IsByte n (w / 256))

pub from_le_bytes-to_le_bytes : (n w : ℕ) → w < 256 ^ n → from_le_bytes (to_le_bytes n w) ≡ w
unfolding to_le_bytes from_le_bytes
from_le_bytes-to_le_bytes zero w h = omega arith
from_le_bytes-to_le_bytes (suc n) w h = omega (arith, from_le_bytes-to_le_bytes n (w / 256))

pub from_le_bytes-lt : (n : ℕ) (s : Bytes) → length s ≡ n → All IsByte s → from_le_bytes s < 256 ^ n
unfolding from_le_bytes
from_le_bytes-lt zero [] e h = omega arith
from_le_bytes-lt (suc n) [] e h = absurd (omega arith)
from_le_bytes-lt zero (b ∷ s) e h = absurd (omega arith)
from_le_bytes-lt (suc n) (b ∷ s) e h = omega (arith, from_le_bytes-lt n s (omega arith) h.1)
