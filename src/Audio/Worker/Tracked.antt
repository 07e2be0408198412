-- ===== src/Audio/Worker/Tracked.antt =====
-- The flag of a lost device: the worker of alarm-daemon/src/audio/cpal_audio.rs, from its start on.
use alarm_daemon.Base.{
  ℕ, ◌-◌, ◌≡◌, ◌⊎◌, refl, sym, ◌∙◌, Bool, true, false, ◌&&◌, not, none, some, List, arith, leb,
  ◌==◌, if◌then◌else◌, if_both, Result, inl, inr,
}
use mathlib.Core.Bool.{false≢true}
use alarm_daemon.Audio.{AudioError}
use alarm_daemon.Audio.Playback.{Floats, Shared, fill_f32}
use alarm_daemon.Audio.Worker.{
  Command, play, stop, shutdown, Received, command, timeout, disconnected, Worker, start_worker,
  stream_error, drop_failed, handle_command, reopened_stream, clear_lost, retry, round,
  device_retry_interval_ms,
}

module _ (N : Floats) where
  -- A worker without a stream knows that its device is lost.
  abbrev pub IsTracked : Worker N → Type 0
  IsTracked w = (w.stream ≡ true) ⊎ (w.shared.device_lost ≡ true)

  -- A round, the error callback of a stream, or the filling of a buffer.
  pub data Step : Worker N → Worker N → Type 0 where
    round_by :
        (r : Received) (built : Bool) (now after : ℕ) (w w' : Worker N)
        → (round N r built now after w).0 ≡ some w'
        → Step w w'
    failed_by : (w : Worker N) → Step w (stream_error N w)
    filled_by :
        (output : List ℕ) (channels rate : ℕ) (w : Worker N)
        → Step w (record {
          shared = (fill_f32 N output channels rate w.shared).0;
          stream = w.stream;
          last_retry = w.last_retry;
        })

  pub data Steps : Worker N → Worker N → Type 0 where
    done : (w : Worker N) → Steps w w
    next : (u v w : Worker N) → Step u v → Steps v w → Steps u w

  start_worker-IsTracked : (built : Bool) (now : ℕ) → IsTracked (start_worker N built now)
  unfolding start_worker
  start_worker-IsTracked true now = inl refl
  start_worker-IsTracked false now = inr refl

  drop_failed-IsTracked : (w : Worker N) → IsTracked w → IsTracked (drop_failed N w)
  unfolding drop_failed
  drop_failed-IsTracked w h = tracked w.shared.device_lost w.stream h
    where
      tracked :
          (lost stream : Bool)
          → (stream ≡ true) ⊎ (lost ≡ true)
          → ((if lost && stream then false else stream) ≡ true) ⊎ (lost ≡ true)
      tracked true stream h = inr refl
      tracked false stream h = h

  retry-IsTracked :
      (built : Bool) (now after : ℕ) (w : Worker N)
      → IsTracked w
      → IsTracked (retry N built now after w)
  unfolding retry
  retry-IsTracked built now after w h =
      if_both IsTracked w.stream w _ (λ e. h)
        (λ e.
          if_both IsTracked (leb device_retry_interval_ms (now - w.last_retry)) _ w
            (λ f. retried built e h) (λ f. h))
    where
      retried :
          (b : Bool)
          → w.stream ≡ false
          → IsTracked w
          → IsTracked (clear_lost N b after (reopened_stream N b w))
      retried true e h = inl refl
      retried false e (inl s) = absurd (false≢true (sym e ∙ s))
      retried false e (inr l) = inr l

  handle_command-device_lost :
      (c : Command) (w : Worker N)
      → let w' = (handle_command N c w).0 in
        (w'.stream ≡ w.stream) × (w'.shared.device_lost ≡ w.shared.device_lost)
  unfolding handle_command
  handle_command-device_lost (play sound profile) w = (
    refl,
    if_both
        (λ (x : Shared N × Result AudioError (Unit {0})). x.0.device_lost ≡ w.shared.device_lost)
        (not w.stream) _ _ (λ e. refl) (λ e. refl),
  )
  handle_command-device_lost stop w = (refl, refl)
  handle_command-device_lost shutdown w = (refl, refl)

  handle_command-IsTracked :
      (c : Command) (w : Worker N) → IsTracked w → IsTracked (handle_command N c w).0
  handle_command-IsTracked c w h =
      let (s, l) = handle_command-device_lost c w in
      elim h [ inl e ↦ inl (s ∙ e) | inr e ↦ inr (l ∙ e) ]

  some_injective : (w w' : Worker N) → some w ≡ some w' → w ≡ w'
  some_injective w w' e = grind arith

  round-IsTracked :
      (r : Received) (built : Bool) (now after : ℕ) (w w' : Worker N)
      → IsTracked w
      → (round N r built now after w).0 ≡ some w'
      → IsTracked w'
  unfolding round
  round-IsTracked (command (play sound profile)) built now after w w' h e =
      rw (← some_injective _ w' e) (
        retry-IsTracked built now after _ (
          handle_command-IsTracked (play sound profile) (drop_failed N w)
            (drop_failed-IsTracked w h)))
  round-IsTracked (command stop) built now after w w' h e = rw (← some_injective _ w' e) (
      retry-IsTracked built now after _
        (handle_command-IsTracked stop (drop_failed N w) (drop_failed-IsTracked w h)))
  round-IsTracked (command shutdown) built now after w w' h e =
      absurd (let f : none ≡ some w' = e in ground arith)
  round-IsTracked timeout built now after w w' h e =
      rw (← some_injective _ w' e) (retry-IsTracked built now after _ (drop_failed-IsTracked w h))
  round-IsTracked disconnected built now after w w' h e =
      absurd (let f : none ≡ some w' = e in ground arith)

  fill_f32-device_lost :
      (output : List ℕ) (channels rate : ℕ) (sh : Shared N)
      → (fill_f32 N output channels rate sh).0.device_lost ≡ sh.device_lost
  unfolding fill_f32
  fill_f32-device_lost output channels rate sh =
      if_both (λ (x : Shared N × List ℕ). x.0.device_lost ≡ sh.device_lost) (channels == 0) _ _
        (λ e. refl) (λ e. refl)

  Step-IsTracked : (w w' : Worker N) → Step w w' → IsTracked w → IsTracked w'
  unfolding stream_error
  Step-IsTracked w w' (round_by r built now after _ _ e) h =
      round-IsTracked r built now after w w' h e
  Step-IsTracked w w' (failed_by _) h = inr refl
  Step-IsTracked w w' (filled_by output channels rate _) (inl e) = inl e
  Step-IsTracked w w' (filled_by output channels rate _) (inr e) =
      inr (fill_f32-device_lost output channels rate w.shared ∙ e)

  Steps-IsTracked : (w w' : Worker N) → Steps w w' → IsTracked w → IsTracked w'
  Steps-IsTracked w w' (done _) h = h
  Steps-IsTracked w w' (next _ v _ s rest) h = Steps-IsTracked v w' rest (Step-IsTracked w v s h)

  -- From its start on, whatever rounds, failing streams and buffers follow, a worker without a
  -- stream has the flag of a lost device set.
  pub started-IsTracked :
      (built : Bool) (now : ℕ) (w : Worker N) → Steps (start_worker N built now) w → IsTracked w
  started-IsTracked built now w s =
      Steps-IsTracked (start_worker N built now) w s (start_worker-IsTracked built now)
