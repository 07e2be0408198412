-- ===== src/Systemd.antt =====
-- alarm-daemon/src/systemd.rs: the period of the watchdog's pings. A duration is its nanoseconds.
use alarm_daemon.Base.{
  ℕ, zero, suc, ◌+◌, ◌*◌, ◌/◌, ◌-◌, ◌^◌, ◌≤◌, ◌<◌, ◌⊎◌, inl, inr, Option, none, some, ltb, ltb→lt,
  Bool-cases, if◌then◌else◌, arith, Bool, String, Result, ok, err,
}

abbrev pub millisecond : ℕ
millisecond = 1000000

-- `(watchdog_period / 2).max(Duration::from_millis(1))`
unfoldable pub ping_period_for : ℕ → ℕ
ping_period_for watchdog_period =
    if ltb (watchdog_period / 2) millisecond then millisecond else watchdog_period / 2

-- `u64::try_from(d.as_millis()).unwrap_or(u64::MAX)`
unfoldable pub u64_ms : ℕ → ℕ
u64_ms d = if ltb (d / millisecond) (2 ^ 64) then d / millisecond else 2 ^ 64 - 1

-- `spawn_watchdog`: the period of the task it spawns, if the watchdog is enabled.
unfoldable pub spawn_watchdog : Option ℕ → Option ℕ
unfolding ping_period_for
spawn_watchdog none = none
spawn_watchdog (some watchdog_period) = some (ping_period_for watchdog_period)

-- The period is never below a millisecond. From a timeout of two milliseconds on, two periods fit
-- into the timeout, and nothing is lost to rounding but one nanosecond.
pub ping_period_for_bounds :
    (watchdog_period : ℕ)
    → (millisecond ≤ ping_period_for watchdog_period)
      × ((watchdog_period < 2 * millisecond)
          ⊎ ((2 * ping_period_for watchdog_period ≤ watchdog_period)
              × (watchdog_period ≤ 2 * ping_period_for watchdog_period + 1)))
unfolding ping_period_for
ping_period_for_bounds w = ground arith

-- The level that `notify_one` logs the outcome of a notification at.
pub data Level : Type 0 where
  debug warn : Level

-- `notify_one`, on what `sd_notify` answers and whether `NOTIFY_SOCKET` is set.
unfoldable pub notify_one : Result String (Unit {0}) → Bool → Level
notify_one (ok _) under = debug
notify_one (err e) under = if under then warn else debug

-- `watchdog_loop`, on the times at which the ticks of its interval come: the time of a ping. The
-- first tick is consumed without one.
unfoldable pub watchdog_loop : (tick : ℕ → ℕ) → ℕ → ℕ
watchdog_loop tick n = tick (suc n)

-- When an interval that starts at a time is due again.
abbrev pub due : (start period : ℕ) → ℕ → ℕ
due start period zero = start
due start period (suc n) = due start period n + period

-- The period that the clock is in.
due_around :
    (start period later : ℕ)
    → 0 < period
    → (n : ℕ) × (due start period n ≤ start + later) × (start + later < due start period (suc n))
due_around start period zero h = (0, omega arith, omega arith)
due_around start period (suc k) h =
    let (n, low, high) = due_around start period k h in
    elim (split (start + suc k) (due start period (suc n))) [
      | inl early ↦ (n, omega arith, early)
      | inr late ↦ (suc n, late, omega arith)
    ]
  where
    split : (a b : ℕ) → (a < b) ⊎ (b ≤ a)
    split a b = elim (Bool-cases (ltb a b)) [
      | inl e ↦ inl (ltb→lt a b e)
      | inr e ↦ inr (ground arith)
    ]

-- An interval may tick late, never early. Where the timeout is of two milliseconds at least and no
-- tick is later than a period, a ping follows every moment from the start on within the timeout.
pub watchdog_loop-fed :
    (watchdog_period start : ℕ) (tick : ℕ → ℕ)
    → 2 * millisecond ≤ watchdog_period
    → ((n : ℕ) → due start (ping_period_for watchdog_period) n ≤ tick n)
    → ((n : ℕ)
        → tick n ≤ due start (ping_period_for watchdog_period) n + ping_period_for watchdog_period)
    → (now : ℕ) → start ≤ now
    → (n : ℕ) × (now < watchdog_loop tick n) × (watchdog_loop tick n ≤ now + watchdog_period)
unfolding watchdog_loop
watchdog_loop-fed w start tick wide early late now h =
    let (n, low, high) =
      due_around start (ping_period_for w) (now - start)
        (let b = (ping_period_for_bounds w).0 in omega arith) in
    let fits : 2 * ping_period_for w ≤ w = elim (ping_period_for_bounds w).1 [
      | inl narrow ↦ absurd (omega arith)
      | inr b ↦ b.0
    ] in
    let e = early (suc n) in let l = late (suc n) in (n, omega arith, omega arith)
