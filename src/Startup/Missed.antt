-- ===== src/Startup/Missed.antt =====
-- The flag `missed_while_down` of alarm-daemon/src/daemon/persistence/mod.rs, from the call that
-- arms an alarm to the start of the next process of alarm-daemon/src/main.rs.
use alarm_daemon.Base.{
  ℕ, ◌+◌, ◌^◌, ◌≤◌, ◌<◌, ◌≡◌, ◌↔◌, refl, sym, ap, ◌∙◌, Bool, true, false, Option, some, List, [],
  ◌∷◌, arith, Result, ok, err, All, inl, inr,
}
use alarm_daemon.Base.Bytes.{Bytes}
use alarm_daemon.Base.Int.{pos, of_word, saturating_add}
use alarm_daemon.State.{to_persisted, state_armed}
use alarm_daemon.Persistence.Redb.{Redb, IsTransactional}
use alarm_daemon.Persistence.Store.{evaluate_recovery, now_ms}
use alarm_daemon.Persistence.Laws.{SoundFits}
use alarm_daemon.Audio.{AudioError}
use alarm_daemon.Audio.Decoded.{DecodedSound}
use alarm_daemon.Audio.Player.{AlarmAudio}
use alarm_daemon.Sounds.Library.{FileSystem, SoundLibrary, resolve_path}
use alarm_daemon.Control.{Control, fire_at, fire, Trigger}
use alarm_daemon.Control.Calls.{OneTrigger, arm_outcome}
use alarm_daemon.Control.Methods.{arm}
use alarm_daemon.Control.Spec.{
  Alarm, arms, time_passes, Request, Answer, done, rings, spec_run, spec_call, spec_scheduled,
  spec_ring,
}
use alarm_daemon.Control.Requests.{answer_run, answer_call, finished, wake, Represents}
use alarm_daemon.Control.Refines.{answer_run-spec_run}
use alarm_daemon.Control.Agrees
use alarm_daemon.Control.Kept.{AsksFit, IsKept}
use alarm_daemon.Config.{BusKind}
use alarm_daemon.Startup.{Environment, Bus, System, Ready, start}
use alarm_daemon.Startup.Reboot.{IsServiceable, StartsOn, start-resumes}

-- In the range of the clock nothing saturates: the fire time is the moment of the call and the
-- delay.
pub fire_at_exact :
    (ms delay_ms : ℕ)
    → ms + delay_ms + 1 < 2 ^ 63
    → fire_at (some ms) delay_ms ≡ pos (ms + delay_ms)
unfolding fire_at now_ms of_word saturating_add
fire_at_exact ms delay_ms h = ground arith

now_ms_exact : (ms : ℕ) → ms < 2 ^ 63 → now_ms (some ms) ≡ pos ms
unfolding now_ms of_word
now_ms_exact ms h = ground arith

missed_at :
    (id : Bytes) (ms delay_ms now : ℕ)
    → ms + delay_ms + 1 < 2 ^ 63
    → now < 2 ^ 63
    → (let p = to_persisted (state_armed (some id) (some (fire_at (some ms) delay_ms))) in
        ((evaluate_recovery (some now) p).missed_while_down ≡ true) ↔ (ms + delay_ms ≤ now))
unfolding evaluate_recovery to_persisted state_armed
missed_at id ms delay_ms now h k =
    rw (fire_at_exact ms delay_ms h, now_ms_exact now k) ((λ e. ground arith), (λ e. ground arith))

module _ (R : Redb) (A : AlarmAudio) where
  wake_state :
      (from_path : Bytes → Result AudioError DecodedSound) (c : Control R A) (tasks : List Trigger)
      → (wake R A from_path c tasks).0.daemon.state ≡ c.daemon.state
  unfolding wake fire
  wake_state from_path c [] = refl
  wake_state from_path c (t ∷ ts) = refl

  arm_state :
      (c : Control R A) (fs : FileSystem) (clock : Option ℕ) (id path : Bytes)
      → OneTrigger c.trigger_task c.tasks
      → resolve_path fs c.sounds id ≡ ok path
      → (arm R A fs clock id c).0.daemon.state
        ≡ state_armed (some id) (some (fire_at clock c.trigger_delay))
  arm_state c fs clock id path h found = elim (arm_outcome R A c h fs clock id) [
    | inl (e, missing, _) ↦ absurd (let no : err e ≡ ok path = sym missing ∙ found in ground arith)
    | inr (_, _, _, _, _, m) ↦ m.state
  ]

-- An alarm is armed, and its trigger wakes, or not.
abbrev pub armed_once :
    (files : FileSystem) (ms : ℕ) (from_path : Bytes → Result AudioError DecodedSound) (id : Bytes)
    (rang : Bool)
    → List Request
armed_once files ms from_path id false =
    record { files = files; clock = some ms; from_path = from_path; call = arms id } ∷ []
armed_once files ms from_path id true =
    record { files = files; clock = some ms; from_path = from_path; call = arms id }
    ∷ record { files = files; clock = some ms; from_path = from_path; call = time_passes }
    ∷ []

abbrev pub answers_of : Bytes → Bool → List Answer
answers_of path false = done (ok tt) ∷ []
answers_of path true = done (ok tt) ∷ rings path ∷ []

armed_once_fits :
    (files : FileSystem) (ms : ℕ) (from_path : Bytes → Result AudioError DecodedSound) (id : Bytes)
    (rang : Bool)
    → SoundFits (some id)
    → All AsksFit (armed_once files ms from_path id rang)
armed_once_fits files ms from_path id false k = (k, tt)
armed_once_fits files ms from_path id true k = (k, (tt, tt))

module _ (R : Redb) (A : AlarmAudio) (library : SoundLibrary) (trigger_delay : ℕ) (a : Alarm)
    (c : Control R A) (h : Represents R A library trigger_delay a c) (files : FileSystem) (ms : ℕ)
    (from_path : Bytes → Result AudioError DecodedSound) (id path : Bytes)
    (found : resolve_path files library id ≡ ok path) where
  once :
      (arm R A files (some ms) id c).0.daemon.state
      ≡ state_armed (some id) (some (fire_at (some ms) trigger_delay))
  once =
      arm_state R A c files (some ms) id path (Agrees.one R A library trigger_delay a c h)
        (ap (λ l. resolve_path files l id) h.sounds ∙ found)
      ∙ ap (λ d. state_armed (some id) (some (fire_at (some ms) d))) h.delay

  armed_state :
      (rang : Bool)
      → (answer_run R A (armed_once files ms from_path id rang) c).0.daemon.state
        ≡ state_armed (some id) (some (fire_at (some ms) trigger_delay))
  unfolding answer_run answer_call finished
  armed_state false = once
  armed_state true = wake_state R A from_path _ _ ∙ once

  spec_answers :
      (rang : Bool)
      → (spec_run library trigger_delay (armed_once files ms from_path id rang) a).1
        ≡ answers_of path rang
  unfolding spec_run spec_call spec_scheduled spec_ring
  spec_answers false = rw found refl
  spec_answers true = rw found refl

-- Over a disk that does not fail, let an alarm be armed at `ms`, by a control object that
-- represents an alarm and is kept on the disk, for a sound that resolves and can be stored, and let
-- its trigger wake and ring, or not. A process that is started on the file at `now`, and that its
-- system can serve, says that the alarm was missed exactly if the fire time, `ms` and the trigger
-- delay, has come by then: it says so of an alarm that has rung, too.
pub missed_iff :
    (R : Redb) (A : AlarmAudio) (B : Bus R A) (env : Environment) (system : System R A)
    (T : IsTransactional R) (sound : ¬ T.Faulty) (library : SoundLibrary) (trigger_delay : ℕ)
    (a : Alarm) (c : Control R A) (kind : BusKind) (files : FileSystem) (ms now : ℕ)
    (from_path : Bytes → Result AudioError DecodedSound) (id path : Bytes) (rang : Bool)
    → Represents R A library trigger_delay a c
    → IsKept R T sound A c.daemon
    → resolve_path files library id ≡ ok path
    → SoundFits (some id)
    → ms + trigger_delay + 1 < 2 ^ 63
    → now < 2 ^ 63
    → system.clock ≡ some now
    → StartsOn R A B env system
        (answer_run R A (armed_once files ms from_path id rang) c).0.daemon.persistence
        kind
    → IsServiceable R A B env system kind
    → ((answer_run R A (armed_once files ms from_path id rang) c).1 ≡ answers_of path rang)
      × ((r : Ready R A B) × (start R A B env system ≡ ok r)
          × ((r.recovery.missed_while_down ≡ true) ↔ (ms + trigger_delay ≤ now)))
missed_iff R A B env system T sound library trigger_delay a c kind files ms now from_path id path
      rang h kept found storable early late clock on able =
    let requests = armed_once files ms from_path id rang in
    let (r, e, _, v) =
      start-resumes R A B env system T sound library trigger_delay requests a c kind h kept
        (armed_once_fits files ms from_path id rang storable) on able in
    let state = armed_state R A library trigger_delay a c h files ms from_path id path found rang in
    (
      (answer_run-spec_run R A library trigger_delay requests a c h).1
          ∙ spec_answers R A library trigger_delay a c h files ms from_path id path found rang,
      (r, e, rw (v, clock, state) (missed_at id ms trigger_delay now early late)),
    )
