-- ===== src/Audio/Worker/Main.antt =====
-- The life of the worker thread of alarm-daemon/src/audio/cpal_audio.rs: `CpalAudio::spawn`, the
-- loop of `worker_main`, and the drop of the last handle.
use alarm_daemon.Base.{
  ℕ, suc, ◌≡◌, ◌++◌, refl, ap, Bool, Option, none, some, List, [], ◌∷◌, String, length, Result, ok,
  err,
}
use alarm_daemon.Audio.{AudioError, io}
use alarm_daemon.Audio.Playback.{Floats}
use alarm_daemon.Audio.Worker.{
  play, stop, shutdown, Received, command, timeout, disconnected, Worker, start_worker, round,
}

-- What one round meets: what is received, whether an attempt to open a stream succeeds, and the
-- times of its two looks at the clock.
pub record Input : Type 0 where
  pub received : Received
  pub built : Bool
  pub now : ℕ
  pub after : ℕ

module _ (N : Floats) where
  -- `CpalAudio::spawn`, on what spawning the thread answers.
  unfoldable pub spawn :
      Result String (Unit {0}) → (built : Bool) (now : ℕ) → Result AudioError (Worker N)
  unfolding start_worker
  spawn (ok _) built now = ok (start_worker N built now)
  spawn (err e) built now = err (io e)

  abbrev pub then_round :
      Option (Worker N) × Option (Result AudioError (Unit {0}))
      → (Worker N → List (Result AudioError (Unit {0})) × Option (Worker N))
      → List (Result AudioError (Unit {0})) × Option (Worker N)
  then_round (none, r) k = ([], none)
  then_round (some w, none) k = k w
  then_round (some w, some r) k = let (rs, v) = k w in (r ∷ rs, v)

  -- The loop, with the answers that it gave: no worker is left once it is left.
  unfoldable pub worker_main :
      List Input → Worker N → List (Result AudioError (Unit {0})) × Option (Worker N)
  unfolding round
  worker_main [] w = ([], some w)
  worker_main (i ∷ is) w = then_round (round N i.received i.built i.now i.after w) (worker_main is)

  -- The drop of `Inner`: the thread is told to end, and waited for.
  unfoldable pub drop_inner :
      (built : Bool) (now after : ℕ) → Worker N → List Input → Option (Worker N)
  unfolding worker_main
  drop_inner built now after w pending =
      (worker_main
        (pending
          ++ record { received = command shutdown; built = built; now = now; after = after } ∷ [])
        w).1

-- The commands to be answered, up to the end of the loop, and whether it ends.
abbrev asked_in : Received → ℕ → ℕ
asked_in (command (play sound profile)) n = suc n
asked_in (command stop) n = suc n
asked_in (command shutdown) n = 0
asked_in timeout n = n
asked_in disconnected n = 0

abbrev pub asked : List Input → ℕ
asked [] = 0
asked (i ∷ is) = asked_in i.received (asked is)

module _ (N : Floats) where
  -- Every command received before the loop ends is answered, once, whatever the devices do.
  pub worker_main-answers :
      (is : List Input) (w : Worker N) → length (worker_main N is w).0 ≡ asked is
  unfolding worker_main round
  worker_main-answers [] w = refl
  worker_main-answers (i ∷ is) w = answers i.received (λ v. worker_main-answers is v)
    where
      answers :
          (r : Received)
          → ((v : Worker N) → length (worker_main N is v).0 ≡ asked is)
          → length (then_round N (round N r i.built i.now i.after w) (worker_main N is)).0
            ≡ asked_in r (asked is)
      answers (command (play sound profile)) more = ap suc (more _)
      answers (command stop) more = ap suc (more _)
      answers (command shutdown) more = refl
      answers timeout more = more _
      answers disconnected more = refl

  -- The drop of the last handle ends the worker, whatever is queued before it.
  pub drop_inner-ends :
      (built : Bool) (now after : ℕ) (w : Worker N) (pending : List Input)
      → drop_inner N built now after w pending ≡ none
  unfolding drop_inner worker_main round
  drop_inner-ends built now after w [] = refl
  drop_inner-ends built now after w (i ∷ is) =
      ends i.received (λ v. drop_inner-ends built now after v is)
    where
      ends :
          (r : Received)
          → ((v : Worker N) → drop_inner N built now after v is ≡ none)
          → (then_round N (round N r i.built i.now i.after w) (
              worker_main N (
                is
                ++ record { received = command shutdown; built = built; now = now; after = after }
                  ∷ []))).1
            ≡ none
      ends (command (play sound profile)) more = more _
      ends (command stop) more = more _
      ends (command shutdown) more = refl
      ends timeout more = more _
      ends disconnected more = refl
