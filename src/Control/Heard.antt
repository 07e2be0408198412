-- ===== src/Control/Heard.antt =====
-- An alarm from its arming to the device: alarm-daemon/src/ipc/control.rs over the worker and the
-- callback of alarm-daemon/src/audio/cpal_audio.rs.
use alarm_daemon.Base.{
  ℕ, ◌^◌, ◌<◌, ◌≡◌, refl, sym, ap, ◌∙◌, Bool, true, Option, some, List, [], ◌∷◌, map, arith, length,
  replicate, Result, ok, err, inl, inr,
}
use alarm_daemon.Base.Bytes.{Bytes}
use alarm_daemon.Persistence.Redb.{Redb}
use alarm_daemon.Audio.{AudioError}
use alarm_daemon.Audio.Float.{f32_one, f32_zero}
use alarm_daemon.Audio.Profile.{gain_at, immediate}
use alarm_daemon.Audio.Decoded.{DecodedSound, IsPlayable}
use alarm_daemon.Audio.Playback.{Floats, Shared, fill_f32, handle_play}
use alarm_daemon.Audio.Playback.Exact.{IsExact}
use alarm_daemon.Audio.Playback.Once.{plays_once}
use alarm_daemon.Audio.Worker.{Worker, cpal_audio, stop}
use alarm_daemon.Audio.Worker.Answers.{has_stream, fresh, round_stop_stream, send_and_wait-round}
use alarm_daemon.Sounds.Library.{FileSystem, resolve_path}
use alarm_daemon.Control.{Trigger}
use alarm_daemon.Control.Methods.{arm}
use alarm_daemon.Control.Calls.{OneTrigger, arm_outcome}
use alarm_daemon.Control.Spec.{Answer, rings}
use alarm_daemon.Control.Requests.{wake}
use alarm_daemon.Control.Audible.{Cpal, full_volume, fire-play}

module _ (N : Floats) (X : IsExact N) where
  full_gain : gain_at immediate f32_one ≡ f32_one
  unfolding gain_at
  full_gain = refl

  as_played :
      (sound : DecodedSound) (sh : Shared N)
      → sh.playback ≡ some (fresh N sound full_volume)
      → sh ≡ (handle_play N sound full_volume true sh).0
  unfolding handle_play
  as_played sound sh e = λ i. record { playback = e i; device_lost = sh.device_lost }

  -- What is heard of a worker that has just begun to play at full volume.
  heard_from :
      (sound : DecodedSound) (sh : Shared N) (output more : List ℕ)
      → IsPlayable sound
      → length sound.samples < 2 ^ 53
      → 0 < sound.sample_rate
      → sound.sample_rate < 2 ^ 53
      → length output ≡ length sound.samples
      → 0 < length more
      → sh.playback ≡ some (fresh N sound full_volume)
      → (let (sh', out) = fill_f32 N output sound.channels sound.sample_rate sh in
          let (sh'', rest) = fill_f32 N more sound.channels sound.sample_rate sh' in
          (out ≡ map (λ s. N.mul_f32 s f32_one) sound.samples)
          × (rest ≡ replicate (length more) f32_zero))
  heard_from sound sh output more playable small h k same some_more playing =
      let begun : sh ≡ (handle_play N sound full_volume true sh).0 = as_played sound sh playing in
      let (first, second, _) =
        plays_once N X sound full_volume sh output more playable small h k refl same some_more in
      let heard = λ (x : Shared N). fill_f32 N output sound.channels sound.sample_rate x in
      (
        ap (λ x. (heard x).1) begun
            ∙ first
            ∙ ap (λ g. map (λ s. N.mul_f32 s g) sound.samples) full_gain,
        ap (λ x. (fill_f32 N more sound.channels sound.sample_rate (heard x).0).1) begun ∙ second,
      )

module _ (N : Floats) (X : IsExact N) (R : Redb) (built : Bool) (now after : ℕ) where
  armed_player :
      (c : Cpal N R built now after) (w : Worker N) (fs : FileSystem) (clock : Option ℕ)
      (id path : Bytes)
      → OneTrigger c.trigger_task c.tasks
      → resolve_path fs c.sounds id ≡ ok path
      → c.player ≡ some w
      → has_stream N w ≡ true
      → (let c' = (arm R (cpal_audio N built now after) fs clock id c).0 in
          (v : Worker N) × (c'.player ≡ some v)
          × (has_stream N v ≡ true)
          × (c'.tasks
              ≡ record { id = c.next_task; sound_path = path; delay_ms = c.trigger_delay } ∷ []))
  armed_player c w fs clock id path one found runs good =
      let A = cpal_audio N built now after in
      elim (arm_outcome R A c one fs clock id) [
        | inl (e, missing, _) ↦
            absurd (let no : err e ≡ ok path = sym missing ∙ found in ground arith)
        | inr (path', found', _, alone, _, m) ↦
            let same : path' ≡ path =
              let p : ok path' ≡ ok path = sym found' ∙ found in grind arith in
            let (v, ran, still) = round_stop_stream N built now after w good in
            let sent = send_and_wait-round N built now after stop w v (ok tt) c.player runs ran in
            (v, m.player ∙ ap (λ x. x.0) sent, still, rw same at alone)
      ]

  -- The file is rung, and the device's next buffers hold the sound at full volume, and silence.
  abbrev pub Rings :
      (path : Bytes) (sound : DecodedSound) (output more : List ℕ)
      → Cpal N R built now after × Answer
      → Type 0
  Rings path sound output more (c, said) =
      (said ≡ rings path)
      × ((v : Worker N) × (c.player ≡ some v)
          × (let (sh, out) = fill_f32 N output sound.channels sound.sample_rate v.shared in
              let rest = (fill_f32 N more sound.channels sound.sample_rate sh).1 in
              (out ≡ map (λ s. N.mul_f32 s f32_one) sound.samples)
              × (rest ≡ replicate (length more) f32_zero)))

  module _ (sound : DecodedSound) (output more : List ℕ) (playable : IsPlayable sound)
      (small : length sound.samples < 2 ^ 53) (h : 0 < sound.sample_rate)
      (k : sound.sample_rate < 2 ^ 53) (same : length output ≡ length sound.samples)
      (some_more : 0 < length more) (path : Bytes)
      (from_path : Bytes → Result AudioError DecodedSound)
      (decoded : from_path path ≡ ok sound) where
    woken :
        (id delay_ms : ℕ) (c : Cpal N R built now after) (v : Worker N) (tasks : List Trigger)
        → tasks ≡ record { id = id; sound_path = path; delay_ms = delay_ms } ∷ []
        → c.player ≡ some v
        → has_stream N v ≡ true
        → Rings path sound output more (wake R (cpal_audio N built now after) from_path c tasks)
    unfolding wake
    woken id delay_ms c v tasks alone runs good =
        let t : Trigger = record { id = id; sound_path = path; delay_ms = delay_ms } in
        let (u, plays, playing) =
          fire-play N R built now after from_path t sound c v decoded runs good in
        rw alone (
          refl,
          (
            u,
            plays,
            heard_from N X sound u.shared output more playable small h k same some_more playing,
          ),
        )

    -- Let the worker run with a good stream and at most one trigger sleep. Arming for a sound that
    -- resolves, to a file that decodes, and the waking of its trigger make the device play it: for
    -- a sound of the device's own rate and channels, with numbers of frames that an `f64` holds
    -- exactly, the next buffer of the sound's length holds all its samples in their order at full
    -- volume, and the buffer behind it is silent.
    pub armed_alarm-Rings :
        (c : Cpal N R built now after) (w : Worker N) (fs : FileSystem) (clock : Option ℕ)
        (id : Bytes)
        → OneTrigger c.trigger_task c.tasks
        → resolve_path fs c.sounds id ≡ ok path
        → c.player ≡ some w
        → has_stream N w ≡ true
        → (let A = cpal_audio N built now after in
            let c' = (arm R A fs clock id c).0 in
            Rings path sound output more (wake R A from_path c' c'.tasks))
    armed_alarm-Rings c w fs clock id one found runs good =
        let c' = (arm R (cpal_audio N built now after) fs clock id c).0 in
        let (v, runs', good', alone) = armed_player c w fs clock id path one found runs good in
        woken c.next_task c.trigger_delay c' v c'.tasks alone runs' good'
