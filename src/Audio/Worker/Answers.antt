-- ===== src/Audio/Worker/Answers.antt =====
-- What a round answers and when it tries again: the worker of alarm-daemon/src/audio/cpal_audio.rs.
use alarm_daemon.Base.{
  ℕ, ◌-◌, ◌≤◌, ◌<◌, ◌≡◌, ◌⊎◌, refl, ap, ◌∙◌, Bool, true, false, ◌&&◌, Option, none, some, leb,
  leb→le, leb→lt, if-false, if-true, arith, if◌then◌else◌, if_both, Result, ok, err, inl, inr,
  Bool-cases,
}
use alarm_daemon.Audio.{AudioError, device_unavailable}
use alarm_daemon.Audio.Profile.{VolumeProfile}
use alarm_daemon.Audio.Decoded.{DecodedSound}
use alarm_daemon.Audio.Playback.{Floats, Playback, Shared, handle_play, handle_stop}
use alarm_daemon.Audio.Worker.{
  Command, play, stop, command, Worker, stream_error, drop_failed, handle_command, reopened_stream,
  clear_lost, retry, round, acked, send_and_wait, device_retry_interval_ms,
}

module _ (N : Floats) where
  -- The stream that a worker has once it has dropped a failed one.
  abbrev pub has_stream : Worker N → Bool
  has_stream w = if w.shared.device_lost && w.stream then false else w.stream

  abbrev pub fresh : DecodedSound → VolumeProfile → Playback N
  fresh sound profile = record {
    sound = sound;
    profile = profile;
    frames_played = 0;
    cursor_frames = N.f64_zero;
    finished = false;
  }

  retry-playback :
      (built : Bool) (now after : ℕ) (w : Worker N)
      → (retry N built now after w).shared.playback ≡ w.shared.playback
  unfolding retry
  retry-playback built now after w =
      if_both same w.stream w _ (λ e. refl)
        (λ e.
          if_both same (leb device_retry_interval_ms (now - w.last_retry)) _ w (λ f. kept built)
            (λ f. refl))
    where
      same : Worker N → Type 0
      same v = v.shared.playback ≡ w.shared.playback

      kept :
          (b : Bool)
          → (clear_lost N b after (reopened_stream N b w)).shared.playback ≡ w.shared.playback
      kept true = refl
      kept false = refl

  handle_play_answer :
      (sound : DecodedSound) (profile : VolumeProfile) (stream : Bool) (sh : Shared N)
      → let (sh', r) = handle_play N sound profile stream sh in
        (r ≡ (if stream then ok tt else err device_unavailable))
        × (sh'.playback ≡ (if stream then some (fresh sound profile) else sh.playback))
  unfolding handle_play
  handle_play_answer sound profile true sh = (refl, refl)
  handle_play_answer sound profile false sh = (refl, refl)

  retry_now :
      (built : Bool) (now after : ℕ) (w : Worker N) (due : Bool)
      → w.stream ≡ false
      → leb device_retry_interval_ms (now - w.last_retry) ≡ due
      → retry N built now after w
        ≡ (if due then clear_lost N built after (reopened_stream N built w) else w)
  unfolding retry
  retry_now built now after w due e f =
      let tried = clear_lost N built after (reopened_stream N built w) in
      let open_again = leb device_retry_interval_ms (now - w.last_retry) in
      if-false w.stream w (if open_again then tried else w) e
      ∙ ap (λ (b : Bool). if b then tried else w) f

  retry_good :
      (built : Bool) (now after : ℕ) (w : Worker N)
      → w.stream ≡ true
      → retry N built now after w ≡ w
  unfolding retry
  retry_good built now after w e = if-true w.stream w _ e

  cleared_lost :
      (built : Bool) (after : ℕ) (w : Worker N)
      → (clear_lost N built after (reopened_stream N built w)).shared.device_lost
        ≡ (if built then false else w.shared.device_lost)
  unfolding clear_lost reopened_stream
  cleared_lost true after w = refl
  cleared_lost false after w = refl

  module _ (built : Bool) (now after : ℕ) where
    pub round_stop :
        (w : Worker N)
        → (v : Worker N) × (round N (command stop) built now after w ≡ (some v, some (ok tt)))
          × (v.shared.playback ≡ none)
    unfolding round handle_command handle_stop
    round_stop w =
        let u = (handle_command N stop (drop_failed N w)).0 in
        (retry N built now after u, refl, retry-playback built now after u)

    -- A `stop` leaves a good stream alone.
    pub round_stop_stream :
        (w : Worker N)
        → has_stream w ≡ true
        → (v : Worker N) × (round N (command stop) built now after w ≡ (some v, some (ok tt)))
          × (has_stream v ≡ true)
    unfolding round handle_command handle_stop drop_failed
    round_stop_stream w h =
        let u = (handle_command N stop (drop_failed N w)).0 in
        (
          retry N built now after u,
          refl,
          keeps u (stopped w.shared.device_lost w.stream h).0
              (stopped w.shared.device_lost w.stream h).1,
        )
      where
        stopped :
            (lost stream : Bool)
            → (if lost && stream then false else stream) ≡ true
            → ((if lost && stream then false else stream) ≡ true) × (lost ≡ false)
        stopped true true e = absurd (ground arith)
        stopped true false e = absurd (ground arith)
        stopped false stream e = (e, refl)

        good :
            (lost stream : Bool)
            → stream ≡ true
            → lost ≡ false
            → (if lost && stream then false else stream) ≡ true
        good lost stream e f = rw (e, f) refl

        keeps :
            (u : Worker N)
            → u.stream ≡ true
            → u.shared.device_lost ≡ false
            → has_stream (retry N built now after u) ≡ true
        keeps u e f =
            ap (λ v. has_stream v) (retry_good built now after u e)
            ∙ good u.shared.device_lost u.stream e f

    -- A command is answered by the round that it is received in.
    pub send_and_wait-round :
        (c : Command) (w v : Worker N) (r : Result AudioError (Unit {0}))
        (player : Option (Worker N))
        → player ≡ some w
        → round N (command c) built now after w ≡ (some v, some r)
        → send_and_wait N built now after c player ≡ (some v, r)
    unfolding send_and_wait
    send_and_wait-round c w v r player e ran = rw e (ap (acked N) ran)

  pub round_answers :
      (sound : DecodedSound) (profile : VolumeProfile) (built : Bool) (now after : ℕ) (w : Worker N)
      → ((v : Worker N) × (round N (command (play sound profile)) built now after w
            ≡ (some v, some (if has_stream w then ok tt else err device_unavailable)))
          × (v.shared.playback
              ≡ (if has_stream w then some (fresh sound profile) else w.shared.playback)))
        × ((v : Worker N) × (round N (command stop) built now after w ≡ (some v, some (ok tt)))
            × (v.shared.playback ≡ none))
  unfolding round handle_command drop_failed
  round_answers sound profile built now after w =
      let u = (handle_command N (play sound profile) (drop_failed N w)).0 in
      let (answer, playing) = handle_play_answer sound profile (has_stream w) w.shared in
      (
        (
          retry N built now after u,
          ap (λ (r : Result AudioError (Unit {0})). (some (retry N built now after u), some r))
              answer,
          retry-playback built now after u ∙ playing,
        ),
        round_stop built now after w,
      )

  -- A worker without a stream, in a round without a command: less than five seconds behind its last
  -- attempt it is left as it is; from then on it tries again, and either has a stream and no lost
  -- device, or has neither changed but for the time of the attempt. What is played is kept.
  pub retry_outcome :
      (built : Bool) (now after : ℕ) (w : Worker N)
      → w.stream ≡ false
      → let v = retry N built now after w in
        (v.shared.playback ≡ w.shared.playback)
        × (((now - w.last_retry < 5000) × (v ≡ w))
            ⊎ ((5000 ≤ now - w.last_retry)
                × (v.last_retry ≡ after)
                × (v.stream ≡ built)
                × (v.shared.device_lost ≡ (if built then false else w.shared.device_lost))))
  unfolding clear_lost reopened_stream
  retry_outcome built now after w e = (
    retry-playback built now after w,
    elim (Bool-cases (leb device_retry_interval_ms (now - w.last_retry))) [
      | inl f ↦
          let tried = retry_now built now after w true e f in
          inr (
            leb→le _ _ f,
            ap (λ v. v.last_retry) tried,
            ap (λ v. v.stream) tried,
            ap (λ v. v.shared.device_lost) tried ∙ cleared_lost built after w,
          )
      | inr f ↦ inl (leb→lt _ _ f, retry_now built now after w false e f)
    ],
  )

  -- The flag is cleared only after the new stream has been opened: an error that the new stream
  -- reports in between is forgotten, and the worker holds on to a stream that has failed.
  pub clear_lost-stream_error :
      (now : ℕ) (w : Worker N)
      → let v = clear_lost N true now (stream_error N (reopened_stream N true w)) in
        (v ≡ clear_lost N true now (reopened_stream N true w))
        × (has_stream v ≡ true)
        × (v.shared.device_lost ≡ false)
  unfolding clear_lost stream_error reopened_stream
  clear_lost-stream_error now w = (refl, refl, refl)
