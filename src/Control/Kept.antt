-- ===== src/Control/Kept.antt =====
-- What the calls of alarm-daemon/src/ipc/control.rs leave on the disk.
use alarm_daemon.Base.{
  ℕ, ◌*◌, ◌≡◌, ◌⊎◌, refl, Option, none, some, List, [], ◌∷◌, ◌==◌, Bool-cases, All, inl, inr,
  Result, ok, err,
}
use alarm_daemon.Base.Bytes.{Bytes}
use alarm_daemon.Base.Int.{saturating_add-IsI64}
use alarm_daemon.State.{to_persisted, state_armed, state_disarmed}
use alarm_daemon.Persistence.Redb.{Redb, IsTransactional}
use alarm_daemon.Persistence.RoundTrip.{InRange}
use alarm_daemon.Persistence.Laws.{IsStorable, SoundFits}
use alarm_daemon.Daemon.{AlarmDaemon, arm_with_sound}
use alarm_daemon.Daemon
use alarm_daemon.Daemon.Laws.{transition_to_outcome}
use alarm_daemon.Daemon.Restart.{serve, OnDisk, serve-OnDisk, RequestFits}
use alarm_daemon.Daemon.Restart
use alarm_daemon.Audio.{AudioError}
use alarm_daemon.Audio.Decoded.{DecodedSound}
use alarm_daemon.Audio.Player.{AlarmAudio}
use alarm_daemon.Sounds.Library.{FileSystem, resolve_path}
use alarm_daemon.Control.{
  Trigger, Control, fire_at, fire, announce, silent, schedule_resolved, schedule_trigger,
  schedule_trigger_with_delay, stand_down, cancel_pending,
}
use alarm_daemon.Control.Methods.{arm, disarm, dismiss, snooze, snooze_sound}
use alarm_daemon.Control.Spec.{
  Call, arms, disarms, dismisses, snoozes, asks_status, asks_sound, asks_sounds, time_passes,
  Request,
}
use alarm_daemon.Control.Requests.{wake, answer_call, answer_run}

-- A sound that a client arms is UTF-8 of at most 65,535 bytes.
abbrev pub CallFits : Call → Type 0
CallFits (arms sound_id) = SoundFits (some sound_id)
CallFits _ = Unit {0}

abbrev pub AsksFit : Request → Type 0
AsksFit q = CallFits q.call

fire_at-InRange : (clock : Option ℕ) (delay_ms : ℕ) → InRange (some (fire_at clock delay_ms))
unfolding fire_at
fire_at-InRange clock delay_ms = saturating_add-IsI64 _ _

module _ (R : Redb) where
  serve-IsStorable :
      (r : Restart.Request) (d : AlarmDaemon R)
      → RequestFits r
      → IsStorable (to_persisted (serve R r d).state)
  unfolding serve to_persisted arm_with_sound Daemon.disarm
  serve-IsStorable (Restart.arms sound_id next_fire) d h =
      rw ((transition_to_outcome R (state_armed (some sound_id) next_fire) d).0)
        (record { in_range = h.1; sound_fits = h.0 })
  serve-IsStorable Restart.disarms d h =
      rw ((transition_to_outcome R state_disarmed d).0) (record { in_range = tt; sound_fits = tt })

  -- A daemon as it was, or one that served one request for a state that can be stored.
  abbrev Served : AlarmDaemon R → AlarmDaemon R → Type 0
  Served d d' = (d' ≡ d) ⊎ ((r : Restart.Request) × RequestFits r × (d' ≡ serve R r d))

  module _ (A : AlarmAudio) (c : Control R A) where
    announce-Served :
        (clock : Option ℕ) (id : Bytes) (delay_ms : ℕ) (found : Result AudioError Bytes)
        → SoundFits (some id)
        → Served c.daemon (announce R A (schedule_resolved R A clock id delay_ms c found)).0.daemon
    unfolding announce schedule_resolved cancel_pending serve
    announce-Served clock id delay_ms (err e) h = inl refl
    announce-Served clock id delay_ms (ok path) h =
        inr (
          Restart.arms id (some (fire_at clock delay_ms)),
          (h, fire_at-InRange clock delay_ms),
          refl,
        )

    silent-Served :
        (clock : Option ℕ) (id : Bytes) (delay_ms : ℕ) (found : Result AudioError Bytes)
        → SoundFits (some id)
        → Served c.daemon (silent R A (schedule_resolved R A clock id delay_ms c found)).0.daemon
    unfolding silent schedule_resolved cancel_pending serve
    silent-Served clock id delay_ms (err e) h = inl refl
    silent-Served clock id delay_ms (ok path) h =
        inr (
          Restart.arms id (some (fire_at clock delay_ms)),
          (h, fire_at-InRange clock delay_ms),
          refl,
        )

    snooze_sound-Served :
        (fs : FileSystem) (clock : Option ℕ) (n : ℕ) (sound : Option Bytes)
        → SoundFits sound
        → Served c.daemon (snooze_sound R A fs clock n c sound).0.daemon
    unfolding snooze_sound schedule_trigger_with_delay
    snooze_sound-Served fs clock n none h = inl refl
    snooze_sound-Served fs clock n (some id) h =
        silent-Served clock id (n * 1000) (resolve_path fs c.sounds id) h

    snooze-Served :
        (fs : FileSystem) (clock : Option ℕ) (n : ℕ)
        → SoundFits c.daemon.state.current_sound
        → Served c.daemon (snooze R A fs clock n c).0.daemon
    unfolding snooze
    snooze-Served fs clock n h = elim (Bool-cases (n == 0)) [
      | inl e ↦ rw e (inl refl)
      | inr e ↦ rw e (snooze_sound-Served fs clock n c.daemon.state.current_sound h)
    ]

    disarm-Served : Served c.daemon (disarm R A c).0.daemon
    unfolding disarm stand_down cancel_pending serve
    disarm-Served = inr (Restart.disarms, tt, refl)

    wake-Served :
        (from_path : Bytes → Result AudioError DecodedSound) (tasks : List Trigger)
        → Served c.daemon (wake R A from_path c tasks).0.daemon
    unfolding wake fire
    wake-Served from_path [] = inl refl
    wake-Served from_path (t ∷ ts) = inl refl

    answer_call-Served :
        (q : Request) (call : Call)
        → CallFits call
        → SoundFits c.daemon.state.current_sound
        → Served c.daemon (answer_call R A q call c).0.daemon
    unfolding answer_call arm schedule_trigger schedule_trigger_with_delay dismiss
    answer_call-Served q (arms id) h k =
        announce-Served q.clock id c.trigger_delay (resolve_path q.files c.sounds id) h
    answer_call-Served q disarms h k = disarm-Served
    answer_call-Served q dismisses h k = disarm-Served
    answer_call-Served q (snoozes n) h k = snooze-Served q.files q.clock n k
    answer_call-Served q asks_status h k = inl refl
    answer_call-Served q asks_sound h k = inl refl
    answer_call-Served q asks_sounds h k = inl refl
    answer_call-Served q time_passes h k = wake-Served q.from_path c.tasks

module _ (R : Redb) (T : IsTransactional R) (sound : ¬ T.Faulty) (A : AlarmAudio) where
  -- The disk holds the daemon's state, and can.
  pub record IsKept (d : AlarmDaemon R) : Type 0 where
    pub on_disk : OnDisk R T sound d.state d.persistence
    pub storable : IsStorable (to_persisted d.state)

  Served-IsKept : (d d' : AlarmDaemon R) → Served R d d' → IsKept d → IsKept d'
  Served-IsKept d d' (inl e) h = rw e h
  Served-IsKept d d' (inr (r, fits, e)) h = rw e (record {
    on_disk = serve-OnDisk R T sound r d fits h.on_disk;
    storable = serve-IsStorable R r d fits;
  })

  storable_sound : (d : AlarmDaemon R) → IsKept d → SoundFits d.state.current_sound
  unfolding to_persisted
  storable_sound d h = h.storable.sound_fits

  -- Over a disk that does not fail, after any requests that arm sounds which can be stored, the
  -- disk holds the state that the daemon has.
  pub answer_run-IsKept :
      (requests : List Request) (c : Control R A)
      → All AsksFit requests
      → IsKept c.daemon
      → IsKept (answer_run R A requests c).0.daemon
  unfolding answer_run
  answer_run-IsKept [] c h k = k
  answer_run-IsKept (q ∷ qs) c h k = answer_run-IsKept qs (answer_call R A q q.call c).0 h.1 (
      Served-IsKept c.daemon _ (answer_call-Served R A c q q.call h.0 (storable_sound c.daemon k))
        k)
