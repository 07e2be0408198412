-- ===== src/Base/Utf8.antt =====
-- `str::from_utf8`: the well-formed byte sequences of Unicode.
use Prim.Native.Nat.{ℕ, ◌-◌, ◌<◌}
use mathlib.Core.Path.{◌≡◌, refl}
use mathlib.Core.Bool.{Bool, true, false, ◌&&◌}
use mathlib.Core.List.{[], ◌∷◌, ◌++◌}
use native.Mathlib.Omega.{arith}
use alarm_daemon.Base.Tests.{ltb, leb, if◌then◌else◌}
use alarm_daemon.Base.Lists.{All}
use alarm_daemon.Base.Bytes.{Bytes}

abbrev between : ℕ → ℕ → ℕ → Bool
between lo hi b = leb lo b && leb b hi

-- What a lead byte lets follow: nothing, one to three continuation bytes whose first lies in a
-- range, or nothing valid.
pub data Lead : Type 0 where
  single invalid : Lead
  multi : ℕ → ℕ → ℕ → Lead

unfoldable pub lead : ℕ → Lead
lead b =
    if leb b 0x7f
    then single
    else if ltb b 0xc2
    then invalid
    else if leb b 0xdf
    then multi 0 0x80 0xbf
    else if leb b 0xe0
    then multi 1 0xa0 0xbf
    else if leb b 0xec
    then multi 1 0x80 0xbf
    else if leb b 0xed
    then multi 1 0x80 0x9f
    else if leb b 0xef
    then multi 1 0x80 0xbf
    else if leb b 0xf0
    then multi 2 0x90 0xbf
    else if leb b 0xf3
    then multi 2 0x80 0xbf
    else if leb b 0xf4
    then multi 2 0x80 0x8f
    else invalid

-- The bytes still due in the current character: the range of the next, and how many come after it.
pub data Due : Type 0 where
  boundary : Due
  due : ℕ → ℕ → ℕ → Due

-- The state after one more byte, if the byte is allowed.
abbrev after_one : ℕ → Due
after_one n = if ltb 0 n then due (n - 1) 0x80 0xbf else boundary

abbrev after_lead : Lead → Due
after_lead single = boundary
after_lead invalid = due 0 1 0
after_lead (multi n lo hi) = due n lo hi

scan : Due → Bytes → Bool
scan boundary [] = true
scan (due n lo hi) [] = false
scan boundary (b ∷ s) = scan (after_lead (lead b)) s
scan (due n lo hi) (b ∷ s) = between lo hi b && scan (after_one n) s

-- Whether `String::from_utf8` accepts the bytes.
unfoldable pub is_utf8 : Bytes → Bool
unfolding scan lead
is_utf8 s = scan boundary s

abbrev pub IsUtf8 : Bytes → Type 0
IsUtf8 s = is_utf8 s ≡ true

-- A valid string may be put in front of another, and the whole is valid if the other is.
scan-append : (d : Due) (s t : Bytes) → scan d s ≡ true → scan d (s ++ t) ≡ scan boundary t
unfolding scan
scan-append boundary [] t h = refl
scan-append (due n lo hi) [] t h = cc
scan-append boundary (b ∷ s) t h = scan-append (after_lead (lead b)) s t h
scan-append (due n lo hi) (b ∷ s) t h = ground (arith, scan-append (after_one n) s t)

pub is_utf8-append : (s t : Bytes) → IsUtf8 s → is_utf8 (s ++ t) ≡ is_utf8 t
unfolding is_utf8
is_utf8-append s t h = scan-append boundary s t h

scan_ascii : (s : Bytes) → All (λ b. b < 128) s → scan boundary s ≡ true
unfolding scan lead
scan_ascii [] h = refl
scan_ascii (b ∷ s) h = ground (arith, scan_ascii s h.1)

-- ASCII is valid.
pub ascii-IsUtf8 : (s : Bytes) → All (λ b. b < 128) s → IsUtf8 s
unfolding is_utf8
ascii-IsUtf8 s h = scan_ascii s h

is_utf8_examples :
    (is_utf8 (0x61 ∷ 0xc3 ∷ 0xa9 ∷ 0xf0 ∷ 0x9f ∷ 0x98 ∷ 0x80 ∷ []) ≡ true)
    × (is_utf8 (0x61 ∷ 0xc3 ∷ []) ≡ false)
    × (is_utf8 (0xed ∷ 0xa0 ∷ 0x80 ∷ []) ≡ false)
unfolding is_utf8
is_utf8_examples = (refl, refl, refl)
