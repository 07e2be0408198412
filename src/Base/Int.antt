-- ===== src/Base/Int.antt =====
-- Signed 64-bit integers over the native numbers: the integer, its two's complement pattern, and
-- the order on integers.
use Prim.Native.Nat.{ℕ, suc, ◌+◌, ◌-◌, ◌%◌, ◌^◌, ◌≤◌, ◌<◌}
use mathlib.Core.Path.{◌≡◌}
use mathlib.Core.Bool.{Bool}
use native.Mathlib.Omega.{arith}
use alarm_daemon.Base.Tests.{ltb, leb, if◌then◌else◌}

-- `negsuc n` is -(n + 1).
pub data ℤ : Type 0 where
  pos : ℕ → ℤ
  negsuc : ℕ → ℤ

abbrev pub pos_part : ℤ → ℕ
pos_part (pos n) = n
pos_part (negsuc n) = 0

abbrev pub neg_part : ℤ → ℕ
neg_part (pos n) = 0
neg_part (negsuc n) = suc n

abbrev pub sub_ℕ : ℕ → ℕ → ℤ
sub_ℕ a b = if leb b a then pos (a - b) else negsuc (b - a - 1)

infixl 65 ◌+ℤ◌
infix 50 ◌≤ℤ◌
abbrev pub ◌+ℤ◌ : ℤ → ℤ → ℤ
a +ℤ b = sub_ℕ (pos_part a + pos_part b) (neg_part a + neg_part b)

abbrev pub ◌≤ℤ◌ : ℤ → ℤ → Type 0
a ≤ℤ b = pos_part a + neg_part b ≤ pos_part b + neg_part a

abbrev pub leb_ℤ : ℤ → ℤ → Bool
leb_ℤ a b = leb (pos_part a + neg_part b) (pos_part b + neg_part a)

-- The range of an `i64`.
abbrev pub IsI64 : ℤ → Type 0
IsI64 (pos n) = n < 2 ^ 63
IsI64 (negsuc n) = n < 2 ^ 63

abbrev pub i64_max : ℤ
i64_max = pos (2 ^ 63 - 1)

abbrev pub i64_min : ℤ
i64_min = negsuc (2 ^ 63 - 1)

-- The 64-bit pattern of an `i64`, and the integer that a pattern stands for.
unfoldable pub to_word : ℤ → ℕ
to_word (pos n) = n % 2 ^ 64
to_word (negsuc n) = 2 ^ 64 - 1 - n % 2 ^ 64

unfoldable pub of_word : ℕ → ℤ
of_word w = if ltb w (2 ^ 63) then pos w else negsuc (2 ^ 64 - 1 - w)

pub to_word-lt : (z : ℤ) → to_word z < 2 ^ 64
unfolding to_word
to_word-lt (pos n) = omega arith
to_word-lt (negsuc n) = omega arith

pub of_word-to_word : (z : ℤ) → IsI64 z → of_word (to_word z) ≡ z
unfolding to_word of_word
of_word-to_word (pos n) h = ground arith
of_word-to_word (negsuc n) h = ground arith

pub of_word-IsI64 : (w : ℕ) → w < 2 ^ 64 → IsI64 (of_word w)
unfolding of_word
of_word-IsI64 w h = ground arith

-- `i64::saturating_add`
unfoldable pub saturating_add : ℤ → ℤ → ℤ
saturating_add a b =
    let s = a +ℤ b in if leb_ℤ i64_max s then i64_max else if leb_ℤ s i64_min then i64_min else s

pub saturating_add-IsI64 : (a b : ℤ) → IsI64 (saturating_add a b)
unfolding saturating_add
saturating_add-IsI64 (pos a) (pos b) = ground arith
saturating_add-IsI64 (pos a) (negsuc b) = ground arith
saturating_add-IsI64 (negsuc a) (pos b) = ground arith
saturating_add-IsI64 (negsuc a) (negsuc b) = ground arith
