-- ===== src/Audio/Float.antt =====
-- `f32` as its IEEE 754 bit pattern, with the tests and the order that the audio code uses. Sums,
-- products and conversions are parameters where the code needs them.
use alarm_daemon.Base.{
  ℕ, ◌/◌, ◌%◌, ◌^◌, ◌≤◌, ◌<◌, ◌≡◌, ◌↔◌, ◌⊎◌, Bool, true, false, ◌&&◌, not, arith, ltb, leb, ◌==◌,
  if◌then◌else◌,
}

-- Sign, exponent and mantissa of a pattern.
abbrev sign : ℕ → ℕ
sign x = x / 2 ^ 31

abbrev magnitude : ℕ → ℕ
magnitude x = x % 2 ^ 31

-- The patterns of 0.0, 1.0 and positive infinity.
abbrev pub f32_zero : ℕ
f32_zero = 0

abbrev pub f32_one : ℕ
f32_one = 0x3f800000

abbrev infinity : ℕ
infinity = 0x7f800000

unfoldable pub is_nan : ℕ → Bool
is_nan x = ltb infinity (magnitude x)

unfoldable pub is_finite : ℕ → Bool
is_finite x = ltb (magnitude x) infinity

-- `a <= b` and `a < b`: false if either is no number; the two zeros are equal.
unfoldable pub f32_le : ℕ → ℕ → Bool
unfolding is_nan
f32_le a b =
    not (is_nan a)
    && (not (is_nan b)
        && (if sign a == 0
            then (if sign b == 0
                then leb (magnitude a) (magnitude b)
                else magnitude a == 0 && magnitude b == 0)
            else (if sign b == 0 then true else leb (magnitude b) (magnitude a))))

unfoldable pub f32_lt : ℕ → ℕ → Bool
unfolding is_nan f32_le
f32_lt a b = not (is_nan a) && (not (is_nan b) && not (f32_le b a))

-- `f32::clamp`
unfoldable pub clamp : ℕ → ℕ → ℕ → ℕ
unfolding f32_lt
clamp x lo hi = if f32_lt x lo then lo else if f32_lt hi x then hi else x

-- The range `0.0..=1.0`
unfoldable pub in_unit : ℕ → Bool
unfolding f32_le
in_unit x = f32_le f32_zero x && f32_le x f32_one

-- The patterns of the unit range are those up to 1.0, and that of -0.0.
pub in_unit_iff : (x : ℕ) → x < 2 ^ 32 → (in_unit x ≡ true) ↔ ((x ≤ f32_one) ⊎ (x ≡ 2 ^ 31))
unfolding in_unit
in_unit_iff x h = ground arith

-- Clamping to the unit range gives a number of the range unless it is given no number.
pub clamp-in_unit : (x : ℕ) → is_nan x ≡ false → in_unit (clamp x f32_zero f32_one) ≡ true
unfolding clamp in_unit is_nan
clamp-in_unit x h = ground arith

-- A number of the range is left as it is.
pub clamp_id : (x : ℕ) → in_unit x ≡ true → clamp x f32_zero f32_one ≡ x
unfolding clamp in_unit
clamp_id x h = ground arith
