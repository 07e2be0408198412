-- ===== src/Examples/Output.antt =====
-- The audio worker and the playback on concrete data.
use alarm_daemon.Base.{
  ℕ, suc, ◌≡◌, refl, true, false, none, some, List, [], ◌∷◌, map, arith, length, replicate, Result,
  ok, inl,
}
use native.Mathlib.Nat.{div_self as quotient_self}
use alarm_daemon.Base.Bytes.{Bytes, ascii, bytes_eq}
use alarm_daemon.Audio.{AudioError}
use alarm_daemon.Audio.Float.{f32_zero}
use alarm_daemon.Audio.Profile.{gain_at}
use alarm_daemon.Audio.Decoded.{DecodedSound}
use alarm_daemon.Audio.Playback.{Shared, new_shared, handle_play, fill_f32}
use alarm_daemon.Audio.Playback.Exact.{IsExact}
use alarm_daemon.Audio.Playback.Once.{plays_once}
use alarm_daemon.Audio.Callback.{stream, stream-fill_f32}
use alarm_daemon.Audio.Worker.{stop, command, Worker, start_worker, stream_error, cpal_audio}
use alarm_daemon.Audio.Worker.Tracked.{IsTracked, failed_by, Steps, done, next, started-IsTracked}
use alarm_daemon.Audio.Worker.{Received, timeout, shutdown}
use alarm_daemon.Audio.Worker.Main.{
  Input, worker_main, asked, worker_main-answers, drop_inner, drop_inner-ends,
}
use alarm_daemon.Audio.Worker.Answers.{has_stream}
use alarm_daemon.Persistence.Memory.{memory}
use alarm_daemon.Control.{Control, new_control}
use alarm_daemon.Control.Methods.{arm, disarm}
use alarm_daemon.Control.Audible.{disarm-silent, full_volume}
use alarm_daemon.Control.Device.{Plays, armed_alarm-Plays}
use alarm_daemon.Control.Requests.{wake}
use alarm_daemon.Sounds.Library.{resolve_path}
use alarm_daemon.Sounds.Paths.{join}
use alarm_daemon.Examples.{library, idle_daemon, files, bell}
use alarm_daemon.Examples.Sound.{whole, tone, tone-IsPlayable}

whole-IsExact : IsExact whole
whole-IsExact = record {
  zero_exact = refl;
  add_one = λ n h. refl;
  back = λ n h. refl;
  div_self = λ n h k. quotient_self h;
  positive = λ n h k. ground arith;
}

abbrev nothing_shared : Shared whole
nothing_shared = new_shared whole

abbrev three : List ℕ
three = 0 ∷ 0 ∷ 0 ∷ []

plays_once_example :
    let sh1 = (handle_play whole tone full_volume true nothing_shared).0 in
    let (sh2, out) = fill_f32 whole three tone.channels tone.sample_rate sh1 in
    let (sh3, rest) = fill_f32 whole three tone.channels tone.sample_rate sh2 in
    (out ≡ map (λ s. whole.mul_f32 s (gain_at full_volume.ramp full_volume.target)) tone.samples)
    × (rest ≡ replicate (length three) f32_zero)
    × (sh3.playback ≡ none)
plays_once_example =
    plays_once whole whole-IsExact tone full_volume nothing_shared three three tone-IsPlayable
      (omega arith) (omega arith) (omega arith) refl refl (omega arith)

abbrev lost_worker : Worker whole
lost_worker = start_worker whole false 0

abbrev lost_later : Steps whole lost_worker (stream_error whole lost_worker)
lost_later =
    next lost_worker (stream_error whole lost_worker) (stream_error whole lost_worker)
      (failed_by lost_worker) (done (stream_error whole lost_worker))

started-IsTracked_example : IsTracked whole (stream_error whole lost_worker)
started-IsTracked_example =
    started-IsTracked whole false 0 (stream_error whole lost_worker) lost_later

abbrev good_worker : Worker whole
good_worker = start_worker whole true 0

abbrev cpal_control : Control memory (cpal_audio whole true 0 0)
cpal_control =
    new_control memory (cpal_audio whole true 0 0) idle_daemon library (some good_worker) none

cpal_running : cpal_control.player ≡ some good_worker
unfolding new_control
cpal_running = refl

disarm-silent_example :
    (v : Worker whole) × ((disarm memory (cpal_audio whole true 0 0) cpal_control).0.player
      ≡ some v)
    × ((fill_f32 whole three 1 8000 v.shared).1 ≡ replicate (length three) f32_zero)
disarm-silent_example =
    disarm-silent whole memory true 0 0 cpal_control good_worker three 1 8000 cpal_running
      (omega arith)

abbrev decodes_tone : Bytes → Result AudioError DecodedSound
decodes_tone path = ok tone

good_stream : has_stream whole good_worker ≡ true
unfolding start_worker
good_stream = refl

abbrev arriving : Received → Input
arriving r = record { received = r; built = true; now = 9000; after = 9001 }

abbrev arrivals : List Input
arrivals =
    arriving (command stop)
    ∷ arriving timeout
    ∷ arriving (command stop)
    ∷ arriving (command shutdown)
    ∷ arriving (command stop)
    ∷ []

worker_main-answers_example : length (worker_main whole arrivals good_worker).0 ≡ asked arrivals
worker_main-answers_example = worker_main-answers whole arrivals good_worker

drop_inner-ends_example : drop_inner whole true 9000 9001 good_worker arrivals ≡ none
drop_inner-ends_example = drop_inner-ends whole true 9000 9001 good_worker arrivals

-- A device of 16 bits asks for one frame, and for two more than the tone has left.
abbrev asked_for : List (List ℕ)
asked_for = (7 ∷ 7 ∷ 7 ∷ 7 ∷ []) ∷ []

abbrev playing : Shared whole
playing = (handle_play whole tone full_volume true nothing_shared).0

stream-fill_f32_example :
    let x = stream whole suc 1 8000 ((7 ∷ []) ∷ asked_for) (5 ∷ 5 ∷ [], playing) in
    let y = fill_f32 whole (replicate 5 f32_zero) 1 8000 playing in
    (x.0.1 ≡ y.0) × (x.1 ≡ map suc y.1)
stream-fill_f32_example =
    stream-fill_f32 whole suc 1 8000 (omega arith) (7 ∷ []) asked_for (5 ∷ 5 ∷ []) playing
      ((1, refl), ((4, refl), tt))

-- It asks for the tone in two calls, and then for two frames.
abbrev last_two : List ℕ
last_two = 3 ∷ 3 ∷ []

armed_alarm-Plays_example :
    let A = cpal_audio whole true 0 0 in
    let c' = (arm memory A files (some 5) bell cpal_control).0 in
    Plays whole whole-IsExact memory true 0 0 suc tone tone-IsPlayable
      (omega arith)
      (omega arith)
      (omega arith)
      (7 ∷ [])
      (last_two ∷ [])
      ((1, refl), ((2, refl), tt))
      refl
      last_two
      []
      ((2, refl), tt)
      (omega arith)
      (5 ∷ 5 ∷ [])
      (ascii "/s/bell.wav")
      (wake memory A decodes_tone c' c'.tasks)
unfolding new_control resolve_path bytes_eq join
armed_alarm-Plays_example =
    armed_alarm-Plays whole whole-IsExact memory true 0 0 suc tone tone-IsPlayable (omega arith)
      (omega arith) (omega arith) (7 ∷ []) (last_two ∷ []) ((1, refl), ((2, refl), tt)) refl
      last_two [] ((2, refl), tt) (omega arith) (5 ∷ 5 ∷ []) cpal_control good_worker files (some 5)
      bell (ascii "/s/bell.wav") decodes_tone refl (inl refl) refl refl good_stream
