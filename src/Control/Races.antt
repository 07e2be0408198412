-- ===== src/Control/Races.antt =====
-- Calls of alarm-daemon/src/ipc/control.rs that overlap. The bus runs each call as a task of its
-- own; between its await points, which the phases below name, other calls run.
use alarm_daemon.Base.{
  ℕ, suc, ◌≡◌, refl, ap, ◌∙◌, Bool, true, false, Option, some, List, [], ◌∷◌, ◌++◌, arith, ok, ◌==◌,
  ==_iff,
}
use alarm_daemon.Base.Bytes.{Bytes}
use alarm_daemon.Base.Int.{ℤ}
use alarm_daemon.State.{armed, disarmed, State, state_armed, state_disarmed, Transition}
use alarm_daemon.Persistence.Redb.{Redb}
use alarm_daemon.Daemon.{AlarmDaemon, arm_with_sound, transition_to}
use alarm_daemon.Daemon
use alarm_daemon.Daemon.Laws.{transition_to_outcome}
use alarm_daemon.Audio.Player.{AlarmAudio}
use alarm_daemon.Control.{
  Trigger, discard, abort, emit, fire_at, Control, cancel_pending, with_daemon, spawn_task,
  keep_handle, announce, schedule_resolved, stand_down,
}
use alarm_daemon.Control.Methods.{disarm}
use alarm_daemon.Control.Calls.{OneTrigger, abort-OneTrigger, transition_to_signals, signals_for}

-- What an `arm` has made sure of when it first waits: the sound, its file, the delay and the time.
pub record Plan : Type 0 where
  pub sound_id : Bytes
  pub path : Bytes
  pub delay_ms : ℕ
  pub fire_time : ℤ

-- Where a call stands: what it does next, with what it still needs.
pub data Phase : Type 0 where
  to_cancel to_arm : Plan → Phase
  to_spawn : Plan → Transition → Phase
  to_keep : (id : ℕ) → Transition → Phase
  to_cancel_for_disarm to_disarm : Phase
  to_announce : Transition → Phase
  returned : Phase

abbrev pub trigger_of : Plan → ℕ → Trigger
trigger_of p id = record { id = id; sound_path = p.path; delay_ms = p.delay_ms }

discard-newer :
    (p q : Plan) (id : ℕ)
    → discard (suc id) (trigger_of p id ∷ trigger_of q (suc id) ∷ []) ≡ trigger_of p id ∷ []
unfolding discard
discard-newer p q id =
    let older : (id == suc id) ≡ false = ground arith in
    let newer : (suc id == suc id) ≡ true = (==_iff (suc id) (suc id)).1 refl in
    rw (older, newer) refl

-- An `arm` waits behind its transition while a `disarm` runs from its start to its end.
abbrev pub disarmed_within : List Bool
disarmed_within = true ∷ true ∷ false ∷ false ∷ false ∷ true ∷ true ∷ true ∷ []

-- Two calls of `arm`, one phase of each in turn.
abbrev pub side_by_side : List Bool
side_by_side = true ∷ false ∷ true ∷ false ∷ true ∷ true ∷ false ∷ false ∷ true ∷ false ∷ []

module _ (R : Redb) (A : AlarmAudio) where
  -- One phase of a call, as far as its next await point.
  unfoldable pub advance : Phase → Control R A → Control R A × Phase
  unfolding cancel_pending with_daemon spawn_task keep_handle emit
  advance (to_cancel p) c = (cancel_pending R A c, to_arm p)
  advance (to_arm p) c =
      let (d, t) = arm_with_sound R p.sound_id (some p.fire_time) c.daemon in
      (with_daemon R A c d c.signals, to_spawn p t)
  advance (to_spawn p t) c = (spawn_task R A p.path p.delay_ms c, to_keep c.next_task t)
  advance (to_keep id t) c = (keep_handle R A id c, to_announce t)
  advance to_cancel_for_disarm c = (cancel_pending R A c, to_disarm)
  advance to_disarm c =
      let (d, t) = Daemon.disarm R c.daemon in (with_daemon R A c d c.signals, to_announce t)
  advance (to_announce t) c = (with_daemon R A c c.daemon (emit t c.signals), returned)
  advance returned c = (c, returned)

  -- Two calls, and the turns that they take: `true` for the first of them.
  pub record Pair : Type 0 where
    pub control : Control R A
    pub first : Phase
    pub second : Phase

  turn_first : Phase → Control R A × Phase → Pair
  turn_first second (c, p) = record { control = c; first = p; second = second }

  turn_second : Phase → Control R A × Phase → Pair
  turn_second first (c, p) = record { control = c; first = first; second = p }

  unfoldable pub turn : Bool → Pair → Pair
  unfolding advance turn_first turn_second
  turn true s = turn_first s.second (advance s.first s.control)
  turn false s = turn_second s.first (advance s.second s.control)

  unfoldable pub turns : List Bool → Pair → Pair
  unfolding turn
  turns [] s = s
  turns (b ∷ bs) s = turns bs (turn b s)

  abbrev pub begin : Control R A → Phase → Phase → Pair
  begin c first second = record { control = c; first = first; second = second }

  -- The calls that take turns are those of the bus: an `arm` that has resolved its sound, and a
  -- `disarm`, each left alone for all its phases, end as the whole call does.
  pub turns_alone :
      (clock : Option ℕ) (p : Plan) (c : Control R A)
      → p.fire_time ≡ fire_at clock p.delay_ms
      → (turns (true ∷ true ∷ true ∷ true ∷ true ∷ []) (begin c (to_cancel p) returned)
          ≡ begin
              (announce R A (schedule_resolved R A clock p.sound_id p.delay_ms c (ok p.path))).0
              returned
              returned)
        × (turns (false ∷ false ∷ false ∷ []) (begin c returned to_cancel_for_disarm)
            ≡ begin (disarm R A c).0 returned returned)
  unfolding turns announce schedule_resolved disarm stand_down cancel_pending
  turns_alone clock p c e = (rw e refl, refl)

  -- Let the daemon be disarmed, with at most one trigger asleep, the one whose handle is kept. If a
  -- `disarm` then runs while an `arm` waits behind its transition, both calls return, the daemon is
  -- disarmed, and the trigger of the `arm` sleeps: the alarm will sound although it was disarmed
  -- last, and the last signal says that it is armed.
  pub disarmed_alarm_sleeps :
      (c : Control R A) (p : Plan)
      → OneTrigger c.trigger_task c.tasks
      → c.daemon.state.status ≡ disarmed
      → let s = turns disarmed_within (begin c (to_cancel p) to_cancel_for_disarm) in
        (s.first ≡ returned)
        × (s.second ≡ returned)
        × (s.control.daemon.state ≡ state_disarmed)
        × (s.control.tasks
            ≡ record { id = c.next_task; sound_path = p.path; delay_ms = p.delay_ms } ∷ [])
        × (s.control.signals ≡ true ∷ false ∷ c.signals)
  unfolding turns arm_with_sound Daemon.disarm state_disarmed state_armed abort
  disarmed_alarm_sleeps c p one off =
      let (d, t) = arm_with_sound R p.sound_id (some p.fire_time) c.daemon in
      let (was, loud) =
        transition_to_signals R (state_armed (some p.sound_id) (some p.fire_time)) c.daemon
          (false ∷ c.signals) in
      let (now, quiet) = transition_to_signals R state_disarmed d c.signals in
      (
        refl,
        refl,
        now,
        rw (abort-OneTrigger c.trigger_task c.tasks one) refl,
        ap (emit t) (quiet ∙ ap (λ (x : State). signals_for x.status disarmed ++ c.signals) was)
            ∙ loud
            ∙ ap (λ st. signals_for st armed ++ false ∷ c.signals) off,
      )

  -- If two calls of `arm` overlap, both triggers sleep, but only the handle of the later one is
  -- kept: a `disarm` that runs alone afterwards leaves the first trigger asleep.
  pub lost_handle :
      (c : Control R A) (p q : Plan)
      → OneTrigger c.trigger_task c.tasks
      → let s = turns side_by_side (begin c (to_cancel p) (to_cancel q)) in
        (s.first ≡ returned)
        × (s.second ≡ returned)
        × ((disarm R A s.control).0.daemon.state ≡ state_disarmed)
        × ((disarm R A s.control).0.tasks
            ≡ record { id = c.next_task; sound_path = p.path; delay_ms = p.delay_ms } ∷ [])
  unfolding turns arm_with_sound disarm stand_down cancel_pending abort Daemon.disarm state_disarmed
  lost_handle c p q one = (
    refl,
    refl,
    (transition_to_outcome R state_disarmed _).0,
    rw (abort-OneTrigger c.trigger_task c.tasks one) (discard-newer p q c.next_task),
  )
