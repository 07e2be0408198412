-- ===== src/Control/Runs.antt =====
-- Sequences of calls and of triggers that fire: alarm-daemon/src/ipc/control.rs, for one `Control`
-- from its construction on, with every answer of the outside world left open.
use alarm_daemon.Base.{
  ℕ, ◌≡◌, ◌≢◌, ◌⊎◌, refl, sym, ap, ◌∙◌, Bool, ◌==◌, Bool-cases, Option, none, some, List, [], ◌∷◌,
  ◌++◌, arith, inl, inr, Result,
}
use alarm_daemon.Base.Bytes.{Bytes}
use mathlib.Core.Bool.{false≢true}
use alarm_daemon.State.{AlarmStatus, armed, disarmed, State, state_armed, state_disarmed, is_armed}
use alarm_daemon.Persistence.Redb.{Redb}
use alarm_daemon.Daemon.{AlarmDaemon}
use alarm_daemon.Audio.{AudioError}
use alarm_daemon.Audio.Decoded.{DecodedSound}
use alarm_daemon.Audio.Player.{AlarmAudio}
use alarm_daemon.Sounds.Library.{FileSystem, SoundLibrary}
use alarm_daemon.Control.{
  BusError, fire_at, Control, Trigger, discard, find_trigger, fire, new_control,
}
use alarm_daemon.Control.Methods.{arm, disarm, dismiss, snooze}
use alarm_daemon.Control.Calls.{
  OneTrigger, signals_for, discard-one, Moved, Scheduled, SnoozeAnswer, disarm_outcome, arm_outcome,
  snooze_outcome,
}

-- What a follower of the signals (newest first) knows, who asked for the status at the start.
abbrev pub followed : Bool → List Bool → Bool
followed start [] = start
followed start (b ∷ bs) = b

-- No signal repeats what was known before it.
abbrev pub Alternates : Bool → List Bool → Type 0
Alternates start [] = Unit {0}
Alternates start (b ∷ bs) = (b ≢ followed start bs) × Alternates start bs

-- A disarmed state has no sound.
abbrev pub IsSettled : State → Type 0
IsSettled s = (s.status ≡ armed) ⊎ (s.current_sound ≡ none)

follows :
    (start : Bool) (from to : AlarmStatus) (signals : List Bool)
    → followed start signals ≡ is_armed from
    → Alternates start signals
    → (followed start (signals_for from to ++ signals) ≡ is_armed to)
      × Alternates start (signals_for from to ++ signals)
unfolding is_armed
follows start armed armed signals e h = (e, h)
follows start disarmed disarmed signals e h = (e, h)
follows start armed disarmed signals e h = (refl, ((λ p. false≢true (p ∙ e)), h))
follows start disarmed armed signals e h = (refl, ((λ p. false≢true (sym (p ∙ e))), h))

settled_armed :
    (s : State) (id : Bytes) → IsSettled s → s.current_sound ≡ some id → s.status ≡ armed
settled_armed s id (inl e) f = e
settled_armed s id (inr e) f = absurd (let no : none ≡ some id = sym e ∙ f in ground arith)

found_only : (id : ℕ) (u t : Trigger) → find_trigger id (u ∷ []) ≡ some t → u ≡ t
found_only id u t e = elim (Bool-cases (u.id == id)) [
  | inl b ↦ let e' : some u ≡ some t = rw b at e in grind arith
  | inr b ↦ absurd (let e' : none ≡ some t = rw b at e in ground arith)
]

discard-nil : (id : ℕ) → discard id [] ≡ []
unfolding discard
discard-nil id = refl

discard_found :
    (task : Option ℕ) (id : ℕ) (tasks : List Trigger) (t : Trigger)
    → OneTrigger task tasks
    → find_trigger id tasks ≡ some t
    → discard t.id tasks ≡ []
discard_found task id tasks t (inl e) f = rw e (discard-nil t.id)
discard_found task id tasks t (inr (u, e, g)) f =
    let same : u ≡ t = found_only id u t (rw e at f) in rw (e, sym same) (discard-one u)

module _ (R : Redb) (A : AlarmAudio) where
  -- One call, or the firing of a trigger that still sleeps.
  pub data Step : Control R A → Control R A → Type 1 where
    armed_by :
        (fs : FileSystem) (clock : Option ℕ) (sound_id : Bytes) (c : Control R A)
        → Step c (arm R A fs clock sound_id c).0
    disarmed_by : (c : Control R A) → Step c (disarm R A c).0
    dismissed_by : (c : Control R A) → Step c (dismiss R A c).0
    snoozed_by :
        (fs : FileSystem) (clock : Option ℕ) (duration_s : ℕ) (c : Control R A)
        → Step c (snooze R A fs clock duration_s c).0
    fired :
        (from_path : Bytes → Result AudioError DecodedSound) (id : ℕ) (t : Trigger)
        (c : Control R A)
        → find_trigger id c.tasks ≡ some t
        → Step c (fire R A from_path t c)

  -- Some number of steps, the first of them first.
  pub data Steps : Control R A → Control R A → Type 1 where
    done : (c : Control R A) → Steps c c
    next : (c c' c'' : Control R A) → Step c c' → Steps c' c'' → Steps c c''

  -- The daemon that serves the bus, for a follower of its signals from `start` on.
  pub record IsSound (start : Bool) (c : Control R A) : Type 0 where
    pub one : OneTrigger c.trigger_task c.tasks
    pub pending_is_armed : (c.tasks ≡ []) ⊎ (c.daemon.state.status ≡ armed)
    pub settled : IsSettled c.daemon.state
    pub known : followed start c.signals ≡ is_armed c.daemon.state.status
    pub alternates : Alternates start c.signals

  pub new_control-IsSound :
      (d : AlarmDaemon R) (sounds : SoundLibrary) (p : A.Player) (delay_ms : Option ℕ)
      → IsSettled d.state
      → IsSound (is_armed d.state.status) (new_control R A d sounds p delay_ms)
  unfolding new_control
  new_control-IsSound d sounds p delay_ms h = record {
    one = inl refl;
    pending_is_armed = inl refl;
    settled = h;
    known = refl;
    alternates = tt;
  }

  module _ (start : Bool) (c c' : Control R A) (h : IsSound start c) where
    Moved-IsSound :
        (s : State)
        → OneTrigger c'.trigger_task c'.tasks
        → (c'.tasks ≡ []) ⊎ (s.status ≡ armed)
        → IsSettled s
        → Moved R A s (signals_for c.daemon.state.status s.status) c c'
        → IsSound start c'
    Moved-IsSound s one pending settled m =
        let (known, alternates) =
          follows start c.daemon.state.status s.status c.signals h.known h.alternates in
        record {
          one = one;
          pending_is_armed = rw m.state pending;
          settled = rw m.state settled;
          known = rw (m.state, m.signals) known;
          alternates = rw m.signals alternates;
        }

    same-IsSound : c' ≡ c → IsSound start c'
    same-IsSound e = rw e h

  module _ (start : Bool) (c : Control R A) (h : IsSound start c) where
    disarm-IsSound : IsSound start (disarm R A c).0
    unfolding state_disarmed
    disarm-IsSound =
        let (r, e, f, same, m) = disarm_outcome R A c h.one in
        Moved-IsSound start c _ h state_disarmed (inl e) (inl e) (inr refl) m

    dismiss-IsSound : IsSound start (dismiss R A c).0
    dismiss-IsSound = let (r, e, f, same, m) = disarm_outcome R A c h.one in rw same disarm-IsSound

    module _ (fs : FileSystem) (clock : Option ℕ) where
      Scheduled-IsSound :
          (id : Bytes) (delay_ms : ℕ) (announced : List Bool)
          (x : Control R A × Result BusError (Unit {0}))
          → signals_for c.daemon.state.status armed ≡ announced
          → Scheduled R A fs clock id delay_ms announced c x
          → IsSound start x.0
      unfolding state_armed
      Scheduled-IsSound id delay_ms announced x e (path, found, r, alone, task, m) =
          Moved-IsSound start c x.0 h (state_armed (some id) (some (fire_at clock delay_ms)))
            (inr (_, alone, task)) (inr refl) (inl refl) (rw e m)

      arm-IsSound : (id : Bytes) → IsSound start (arm R A fs clock id c).0
      arm-IsSound id = elim (arm_outcome R A c h.one fs clock id) [
        | inl (e, f, (same, r)) ↦ same-IsSound start c _ h same
        | inr s ↦ Scheduled-IsSound id c.trigger_delay _ (arm R A fs clock id c) refl s
      ]

      snoozed-IsSound :
          (duration_s : ℕ) (sound : Option Bytes) (x : Control R A × Result BusError (Unit {0}))
          → c.daemon.state.current_sound ≡ sound
          → SnoozeAnswer R A c h.one fs clock duration_s sound x
          → IsSound start x.0
      snoozed-IsSound duration_s none x e (same, r) = same-IsSound start c x.0 h same
      snoozed-IsSound duration_s (some id) x e (inl (f, g, (same, r))) =
          same-IsSound start c x.0 h same
      snoozed-IsSound duration_s (some id) x e (inr s) =
          let quiet : signals_for c.daemon.state.status armed ≡ [] =
            ap (λ st. signals_for st armed) (settled_armed c.daemon.state id h.settled e) in
          Scheduled-IsSound id _ [] x quiet s

      snooze-IsSound : (duration_s : ℕ) → IsSound start (snooze R A fs clock duration_s c).0
      snooze-IsSound duration_s = elim (snooze_outcome R A c h.one fs clock duration_s) [
        | inl (z, (same, r)) ↦ same-IsSound start c _ h same
        | inr (p, s) ↦ snoozed-IsSound duration_s _ (snooze R A fs clock duration_s c) refl s
      ]

    fire-IsSound :
        (from_path : Bytes → Result AudioError DecodedSound) (id : ℕ) (t : Trigger)
        → find_trigger id c.tasks ≡ some t
        → IsSound start (fire R A from_path t c)
    unfolding fire
    fire-IsSound from_path id t e =
        let none_left : discard t.id c.tasks ≡ [] =
          discard_found c.trigger_task id c.tasks t h.one e in
        record {
          one = inl none_left;
          pending_is_armed = inl none_left;
          settled = h.settled;
          known = h.known;
          alternates = h.alternates;
        }

  Step-IsSound :
      (start : Bool) (c c' : Control R A) → Step c c' → IsSound start c → IsSound start c'
  Step-IsSound start c c' (armed_by fs clock id _) h = arm-IsSound start c h fs clock id
  Step-IsSound start c c' (disarmed_by _) h = disarm-IsSound start c h
  Step-IsSound start c c' (dismissed_by _) h = dismiss-IsSound start c h
  Step-IsSound start c c' (snoozed_by fs clock n _) h = snooze-IsSound start c h fs clock n
  Step-IsSound start c c' (fired from_path id t _ e) h = fire-IsSound start c h from_path id t e

  -- From a control object that is sound on, every sequence of calls and firing triggers ends in a
  -- sound one: at most one trigger sleeps, it is the one whose handle is kept, and it sleeps only
  -- while the daemon is armed; a disarmed daemon has no sound; and whoever follows the signals
  -- knows the status, and never hears a signal that says what was known.
  pub steps-IsSound :
      (start : Bool) (c c' : Control R A) → Steps c c' → IsSound start c → IsSound start c'
  steps-IsSound start c c' (done _) h = h
  steps-IsSound start c c' (next _ d _ s rest) h =
      steps-IsSound start d c' rest (Step-IsSound start c d s h)
