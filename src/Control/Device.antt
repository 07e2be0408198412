-- ===== src/Control/Device.antt =====
-- An alarm from its arming to the buffers that the device asks for: alarm-daemon/src/ipc/control.rs
-- over the worker and the data callback of alarm-daemon/src/audio/cpal_audio.rs.
use alarm_daemon.Base.{
  ℕ, ◌^◌, ◌<◌, ◌≡◌, ap, ◌∙◌, Bool, true, Option, some, List, ◌∷◌, map, arith, length,
  length-replicate, replicate, Result, ok, All,
}
use alarm_daemon.Base.Bytes.{Bytes}
use alarm_daemon.Persistence.Redb.{Redb}
use alarm_daemon.Audio.{AudioError}
use alarm_daemon.Audio.Float.{f32_one, f32_zero}
use alarm_daemon.Audio.Decoded.{DecodedSound, IsPlayable}
use alarm_daemon.Audio.Playback.{Floats, Shared, fill_f32}
use alarm_daemon.Audio.Playback.Exact.{IsExact}
use alarm_daemon.Audio.Callback.{stream, IsWhole, total, stream-fill_f32}
use alarm_daemon.Audio.Worker.{Worker, cpal_audio}
use alarm_daemon.Audio.Worker.Answers.{has_stream}
use alarm_daemon.Sounds.Library.{FileSystem, resolve_path}
use alarm_daemon.Control.Methods.{arm}
use alarm_daemon.Control.Calls.{OneTrigger}
use alarm_daemon.Control.Spec.{Answer, rings}
use alarm_daemon.Control.Requests.{wake}
use alarm_daemon.Control.Audible.{Cpal}
use alarm_daemon.Control.Heard.{armed_alarm-Rings}

module _ {ℓ} (N : Floats) (X : IsExact N) (R : Redb) (built : Bool) (now after : ℕ) {T : Type ℓ}
    (from_sample : ℕ → T) (sound : DecodedSound) (playable : IsPlayable sound)
    (small : length sound.samples < 2 ^ 53) (h : 0 < sound.sample_rate)
    (k : sound.sample_rate < 2 ^ 53) (first : List T) (buffers : List (List T))
    (whole : All (IsWhole N from_sample sound.channels) (first ∷ buffers))
    (same : total N from_sample (first ∷ buffers) ≡ length sound.samples) (next : List T)
    (later : List (List T)) (whole' : All (IsWhole N from_sample sound.channels) (next ∷ later))
    (some_more : 0 < total N from_sample (next ∷ later)) (scratch : List ℕ) where
  -- What the device gets of a stream's state in its calls, and in those behind them.
  abbrev Sounds : Shared N → Type ℓ
  Sounds sh =
      let (kept, out) =
        stream N from_sample sound.channels sound.sample_rate (first ∷ buffers) (scratch, sh) in
      let rest = (stream N from_sample sound.channels sound.sample_rate (next ∷ later) kept).1 in
      (out ≡ map from_sample (map (λ s. N.mul_f32 s f32_one) sound.samples))
      × (rest ≡ map from_sample (replicate (total N from_sample (next ∷ later)) f32_zero))

  abbrev silence : List (List T) → List ℕ
  silence buffers = replicate (total N from_sample buffers) f32_zero

  fill-Sounds :
      (sh : Shared N)
      → (let (sh', out) =
            fill_f32 N (silence (first ∷ buffers)) sound.channels sound.sample_rate sh in
          let rest = (fill_f32 N (silence (next ∷ later)) sound.channels sound.sample_rate sh').1 in
          (out ≡ map (λ s. N.mul_f32 s f32_one) sound.samples)
          × (rest ≡ replicate (length (silence (next ∷ later))) f32_zero))
      → Sounds sh
  fill-Sounds sh (all, none_left) =
      let kept =
        (stream N from_sample sound.channels sound.sample_rate (first ∷ buffers) (scratch, sh)).0 in
      let (state, out) =
        stream-fill_f32 N from_sample sound.channels sound.sample_rate playable.0 first buffers
          scratch sh whole in
      let (_, rest) =
        stream-fill_f32 N from_sample sound.channels sound.sample_rate playable.0 next later kept.0
          kept.1 whole' in
      (
        out ∙ ap (map from_sample) all,
        rest
            ∙ ap
                (λ s.
                  map from_sample
                    (fill_f32 N (silence (next ∷ later)) sound.channels sound.sample_rate s).1)
                state
            ∙ ap (map from_sample)
                (none_left ∙ ap (λ n. replicate n f32_zero) (length-replicate _ f32_zero)),
      )

  -- The file is rung, and the device gets the sound, and silence behind it.
  abbrev pub Plays : Bytes → Cpal N R built now after × Answer → Type ℓ
  Plays path (c, said) =
      (said ≡ rings path) × ((v : Worker N) × (c.player ≡ some v) × Sounds v.shared)

  -- Let the worker run with a good stream and at most one trigger sleep. Arming for a sound that
  -- resolves, to a file that decodes, and the waking of its trigger make the device play it,
  -- whatever sizes it asks for and whatever its buffers held before: for a sound of the device's
  -- own rate and channels, with numbers of frames that an `f64` holds exactly, calls for whole
  -- frames of the sound's length get all its samples in their order at full volume, converted to
  -- the device's type, and the calls behind them get silence.
  pub armed_alarm-Plays :
      (c : Cpal N R built now after) (w : Worker N) (fs : FileSystem) (clock : Option ℕ)
      (id path : Bytes) (from_path : Bytes → Result AudioError DecodedSound)
      → from_path path ≡ ok sound
      → OneTrigger c.trigger_task c.tasks
      → resolve_path fs c.sounds id ≡ ok path
      → c.player ≡ some w
      → has_stream N w ≡ true
      → (let A = cpal_audio N built now after in
          let c' = (arm R A fs clock id c).0 in Plays path (wake R A from_path c' c'.tasks))
  armed_alarm-Plays c w fs clock id path from_path decoded one found runs good =
      let (said, (v, plays, heard)) =
        armed_alarm-Rings N X R built now after sound (silence (first ∷ buffers))
          (silence (next ∷ later)) playable small h k (length-replicate _ f32_zero ∙ same)
          (omega (arith, length-replicate (total N from_sample (next ∷ later)) f32_zero)) path
          from_path decoded c w fs clock id one found runs good in
      (said, (v, plays, fill-Sounds v.shared heard))
