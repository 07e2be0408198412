-- ===== src/Audio/Profile.antt =====
-- alarm-daemon/src/audio/profile.rs. The linear ramp, which is built for tests only, is in
-- Audio/Ramp.
use alarm_daemon.Base.{
  ℕ, ◌≡◌, ◌⊎◌, Bool, true, false, ◌||◌, not, arith, if◌then◌else◌, Result, ok, err, Bool-cases, inl,
  inr,
}
use alarm_daemon.Audio.{AudioError, invalid_volume}
use alarm_daemon.Audio.Float.{
  f32_zero, f32_one, is_finite, is_nan, in_unit, clamp, clamp-in_unit, clamp_id,
}

pub data Ramp : Type 0 where
  immediate : Ramp

pub record VolumeProfile : Type 0 where
  pub target : ℕ
  pub ramp : Ramp
  pub repeat : Bool

-- `VolumeProfile::new`
unfoldable pub new_profile : ℕ → Ramp → Bool → Result AudioError VolumeProfile
unfolding is_finite in_unit
new_profile target ramp repeat =
    if not (is_finite target) || not (in_unit target)
    then err (invalid_volume target)
    else ok (record { target = target; ramp = ramp; repeat = repeat })

-- `gain_at`; the time played does not matter to an immediate ramp.
unfoldable pub gain_at : Ramp → ℕ → ℕ
unfolding clamp
gain_at immediate target = clamp target f32_zero f32_one

-- A profile is built exactly for the volumes of the unit range, and plays at the volume asked for;
-- any other volume is refused with its value.
pub new_profile_outcome :
    (target : ℕ) (ramp : Ramp) (repeat : Bool)
    → ((in_unit target ≡ true)
        × (new_profile target ramp repeat
            ≡ ok (record { target = target; ramp = ramp; repeat = repeat }))
        × (gain_at ramp target ≡ target))
      ⊎ ((in_unit target ≡ false) × (new_profile target ramp repeat ≡ err (invalid_volume target)))
unfolding new_profile gain_at
new_profile_outcome target immediate repeat = elim (Bool-cases (in_unit target)) [
  | inl e ↦ inl (e, unfold in_unit is_finite is_nan in ground arith, clamp_id target e)
  | inr e ↦ inr (e, ground arith)
]

-- The gain is in the unit range for every target but a NaN.
pub gain_at-in_unit :
    (ramp : Ramp) (target : ℕ) → is_nan target ≡ false → in_unit (gain_at ramp target) ≡ true
unfolding gain_at
gain_at-in_unit immediate target h = clamp-in_unit target h
