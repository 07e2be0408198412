-- ===== src/Startup/Outcome.antt =====
-- What the service manager sees of a run of alarm-daemon/src/main.rs.
use alarm_daemon.Base.{
  ℕ, ◌≡◌, ◌⊎◌, refl, Option, [], ◌∷◌, ◌++◌, inl, inr, Result, ok, err, Result-cases,
}
use alarm_daemon.Base.Bytes.{Bytes}
use alarm_daemon.Persistence.Redb.{Redb}
use alarm_daemon.Audio.Player.{AlarmAudio}
use alarm_daemon.Startup.{
  Environment, Bus, System, Ready, AlarmError, success, failure, exit_code, ready, stopping,
  watchdog_of, start, run_ready, shut_down, run,
}
use alarm_daemon.Systemd.{spawn_watchdog}

module _ (R : Redb) (A : AlarmAudio) (B : Bus R A) (env : Environment) (system : System R A) where
  module _ (watchdog_period : Option ℕ) (signal : Result AlarmError Bytes) where
    -- Of a run that does not get to serve the bus the service manager hears nothing, and it exits
    -- with failure. Any other is announced as ready, with the pings if there is a watchdog; it is
    -- announced as stopping, last, exactly if a signal was waited for without an error, and exits
    -- with success exactly then.
    pub run_outcome :
        let (sent, r) = run R A B env system watchdog_period signal in
        let begun = ready ∷ watchdog_of (spawn_watchdog watchdog_period) in
        ((e : AlarmError) × (start R A B env system ≡ err e)
          × (sent ≡ [])
          × (exit_code r ≡ failure))
        ⊎ ((p : Ready R A B) × (start R A B env system ≡ ok p)
            × (((name : Bytes) × (signal ≡ ok name)
                  × (sent ≡ begun ++ stopping ∷ [])
                  × (exit_code r ≡ success))
                ⊎ ((e : AlarmError) × (signal ≡ err e) × (sent ≡ begun) × (exit_code r ≡ failure))))
    unfolding run run_ready shut_down exit_code
    run_outcome = elim (Result-cases (start R A B env system)) [
      | inr (e, f) ↦ inl (e, f, rw f refl, rw f refl)
      | inl (p, f) ↦ elim (Result-cases signal) [
        | inl (name, g) ↦ inr (p, f, inl (name, g, rw (f, g) refl, rw (f, g) refl))
        | inr (e, g) ↦ inr (p, f, inr (e, g, rw (f, g) refl, rw (f, g) refl))
      ]
    ]
