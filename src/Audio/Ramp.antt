-- ===== src/Audio/Ramp.antt =====
-- The linear ramp of alarm-daemon/src/audio/profile.rs, which the test build has beside the
-- immediate one. A duration is its nanoseconds; the operations on `f32` are a parameter.
use alarm_daemon.Base.{
  ℕ, ◌*◌, ◌^◌, ◌≤◌, ◌<◌, ◌≡◌, ◌⊎◌, refl, ap, ◌∙◌, true, false, ◌||◌, arith, if◌then◌else◌, ltb,
  ltb→lt, Bool-cases, inl, inr, Result, ok, err,
}
use alarm_daemon.Audio.{AudioError, invalid_ramp}
use alarm_daemon.Audio.Float.{
  f32_zero, f32_one, is_nan, in_unit, clamp, f32_le, f32_lt, clamp-in_unit, clamp_id,
}

abbrev pub second : ℕ
second = 10 ^ 9

abbrev pub min_ramp : ℕ
min_ramp = 2 * second

abbrev pub max_ramp : ℕ
max_ramp = 10 * second

pub data Ramp : Type 0 where
  immediate : Ramp
  linear : (duration : ℕ) → Ramp

-- `Ramp::linear`
unfoldable pub new_linear : ℕ → Result AudioError Ramp
new_linear duration =
    if ltb duration min_ramp || ltb max_ramp duration
    then err (invalid_ramp duration)
    else ok (linear duration)

-- `Duration::as_secs_f32`, and the quotient and the product of two `f32`.
pub record Floats32 : Type 0 where
  pub as_secs : ℕ → ℕ
  pub div : ℕ → ℕ → ℕ
  pub mul : ℕ → ℕ → ℕ

-- What IEEE 754 says of them: a duration is a number, a quotient of one by a positive one too, and
-- at least 1 where the first is no shorter; a product of numbers of the unit range is a number, and
-- 1 is neutral.
pub record IsRounding (N : Floats32) : Type 0 where
  pub bits : (x y : ℕ) → N.div x y < 2 ^ 32
  pub quotient :
      (a b : ℕ)
      → f32_le (N.as_secs b) f32_zero ≡ false
      → is_nan (N.div (N.as_secs a) (N.as_secs b)) ≡ false
  pub quotient_one :
      (a b : ℕ)
      → b ≤ a
      → f32_le (N.as_secs b) f32_zero ≡ false
      → f32_le f32_one (N.div (N.as_secs a) (N.as_secs b)) ≡ true
  pub product : (x y : ℕ) → in_unit x ≡ true → in_unit y ≡ true → is_nan (N.mul x y) ≡ false
  pub product_one : (x : ℕ) → in_unit x ≡ true → N.mul x f32_one ≡ x

-- When a ramp is over.
abbrev pub ends_at : Ramp → ℕ
ends_at immediate = 0
ends_at (linear duration) = duration

module _ (N : Floats32) where
  -- `gain_at`, of the test build.
  unfoldable pub ramp_gain : Ramp → (target elapsed : ℕ) → ℕ
  unfolding clamp f32_le
  ramp_gain immediate target elapsed = clamp target f32_zero f32_one
  ramp_gain (linear duration) target elapsed =
      let t = clamp target f32_zero f32_one in
      let full = N.as_secs duration in
      let frac = clamp (N.div (N.as_secs elapsed) full) f32_zero f32_one in
      if f32_le full f32_zero then t else clamp (N.mul t frac) f32_zero f32_one

-- A ramp is made of the durations from two to ten seconds, and of no other.
pub new_linear_outcome :
    (duration : ℕ)
    → ((min_ramp ≤ duration) × (duration ≤ max_ramp) × (new_linear duration ≡ ok (linear duration)))
      ⊎ (((duration < min_ramp) ⊎ (max_ramp < duration))
          × (new_linear duration ≡ err (invalid_ramp duration)))
unfolding new_linear
new_linear_outcome duration = ground arith

clamp_above : (x : ℕ) → x < 2 ^ 32 → f32_le f32_one x ≡ true → clamp x f32_zero f32_one ≡ f32_one
unfolding clamp f32_le f32_lt is_nan
clamp_above x b h = ground arith

module _ (N : Floats32) (L : IsRounding N) (target elapsed : ℕ)
    (volume : in_unit target ≡ true) where
  product_unit :
      (duration : ℕ)
      → f32_le (N.as_secs duration) f32_zero ≡ false
      → in_unit (
          clamp
            (N.mul target (clamp (N.div (N.as_secs elapsed) (N.as_secs duration)) f32_zero f32_one))
            f32_zero
            f32_one)
        ≡ true
  product_unit duration long =
      let frac = clamp (N.div (N.as_secs elapsed) (N.as_secs duration)) f32_zero f32_one in
      clamp-in_unit (N.mul target frac) (
        L.product target frac volume (
          clamp-in_unit (N.div (N.as_secs elapsed) (N.as_secs duration))
            (L.quotient elapsed duration long)))

  product_full :
      (duration : ℕ)
      → duration ≤ elapsed
      → f32_le (N.as_secs duration) f32_zero ≡ false
      → clamp
          (N.mul target (clamp (N.div (N.as_secs elapsed) (N.as_secs duration)) f32_zero f32_one))
          f32_zero
          f32_one
        ≡ target
  product_full duration over long =
      let whole =
        clamp_above (N.div (N.as_secs elapsed) (N.as_secs duration)) (L.bits _ _)
          (L.quotient_one elapsed duration over long) in
      ap (λ x. clamp (N.mul target x) f32_zero f32_one) whole
      ∙ ap (λ x. clamp x f32_zero f32_one) (L.product_one target volume)
      ∙ clamp_id target volume

  -- For a volume of the unit range: whatever the ramp, the gain is in the unit range at every
  -- moment, and it is the volume itself from the ramp's end on: at once for an immediate ramp,
  -- behind its duration for a linear one.
  pub ramp_gain_bounds :
      (ramp : Ramp)
      → (in_unit (ramp_gain N ramp target elapsed) ≡ true)
        × ((elapsed < ends_at ramp) ⊎ (ramp_gain N ramp target elapsed ≡ target))
  unfolding ramp_gain
  ramp_gain_bounds immediate = (rw (clamp_id target volume) volume, inr (clamp_id target volume))
  ramp_gain_bounds (linear duration) = elim (Bool-cases (f32_le (N.as_secs duration) f32_zero)) [
    | inl e ↦ (rw (e, clamp_id target volume) volume, inr (rw (e, clamp_id target volume) refl))
    | inr e ↦
        rw (e, clamp_id target volume)
          (
            product_unit duration e,
            elim (Bool-cases (ltb elapsed duration)) [
              | inl early ↦ inl (ltb→lt elapsed duration early)
              | inr late ↦ inr (product_full duration (ground arith) e)
            ],
          )
  ]
