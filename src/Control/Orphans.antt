-- ===== src/Control/Orphans.antt =====
-- A trigger whose handle has been lost: what the calls of alarm-daemon/src/ipc/control.rs can still
-- do to it.
use alarm_daemon.Base.{
  ℕ, ◌*◌, ◌<◌, ◌≡◌, ◌≢◌, ◌⊎◌, sym, ap, ◌∙◌, Option, none, some, List, [], ◌∷◌, ◌++◌, ◌==◌, ==_iff,
  Bool-cases, arith, inl, inr, Result, ok, err, All, All-append,
}
use mathlib.Core.Path.{subst}
use alarm_daemon.Base.Bytes.{Bytes}
use alarm_daemon.State.{Transition}
use alarm_daemon.Persistence.Redb.{Redb}
use alarm_daemon.Audio.{AudioError}
use alarm_daemon.Audio.Decoded.{DecodedSound}
use alarm_daemon.Audio.Player.{AlarmAudio}
use alarm_daemon.Sounds.Library.{FileSystem, resolve_path}
use alarm_daemon.Control.{
  BusError, Trigger, Control, discard, abort, announce, silent, schedule_resolved, schedule_trigger,
  schedule_trigger_with_delay, cancel_pending, stand_down, fire, find_trigger,
}
use alarm_daemon.Control.Methods.{arm, disarm, dismiss, snooze, snooze_sound}
use alarm_daemon.Control.Runs.{
  Step, Steps, armed_by, disarmed_by, dismissed_by, snoozed_by, fired, done, next,
}

-- A task sleeps.
abbrev pub Sleeps : Trigger → List Trigger → Type 0
Sleeps t [] = ⊥
Sleeps t (u ∷ us) = (u ≡ t) ⊎ Sleeps t us

Sleeps-discard :
    (t : Trigger) (id : ℕ) (ts : List Trigger) → id ≢ t.id → Sleeps t ts → Sleeps t (discard id ts)
unfolding discard
Sleeps-discard t id [] other h = absurd h
Sleeps-discard t id (u ∷ us) other (inl same) = elim (Bool-cases (u.id == id)) [
  | inl e ↦ absurd (other (sym ((==_iff u.id id).0 e) ∙ ap (λ v. v.id) same))
  | inr e ↦ rw (e, discard) (inl same)
]
Sleeps-discard t id (u ∷ us) other (inr m) =
    let rest = Sleeps-discard t id us other m in
    elim (Bool-cases (u.id == id)) [
      | inl e ↦ rw (e, discard) rest
      | inr e ↦ rw (e, discard) (inr rest)
    ]

Sleeps-abort :
    (t : Trigger) (task : Option ℕ) (ts : List Trigger)
    → task ≢ some t.id
    → Sleeps t ts
    → Sleeps t (abort task ts)
unfolding abort
Sleeps-abort t none ts other h = h
Sleeps-abort t (some id) ts other h = Sleeps-discard t id ts (λ e. other (ap some e)) h

pub Sleeps-append : (t : Trigger) (ts us : List Trigger) → Sleeps t ts → Sleeps t (ts ++ us)
Sleeps-append t [] us h = absurd h
Sleeps-append t (u ∷ ts) us (inl e) = inl e
Sleeps-append t (u ∷ ts) us (inr m) = inr (Sleeps-append t ts us m)

All-discard : (P : Trigger → Type 0) (id : ℕ) (ts : List Trigger) → All P ts → All P (discard id ts)
unfolding discard
All-discard P id [] h = tt
All-discard P id (u ∷ us) h =
    let rest = All-discard P id us h.1 in
    elim (Bool-cases (u.id == id)) [
      | inl e ↦ rw (e, discard) rest
      | inr e ↦ rw (e, discard) (h.0, rest)
    ]

pub All-abort :
    (P : Trigger → Type 0) (task : Option ℕ) (ts : List Trigger) → All P ts → All P (abort task ts)
unfolding abort
All-abort P none ts h = h
All-abort P (some id) ts h = All-discard P id ts h

All-find_trigger :
    (P : Trigger → Type 0) (id : ℕ) (ts : List Trigger) (u : Trigger)
    → All P ts
    → find_trigger id ts ≡ some u
    → P u
All-find_trigger P id [] u h e = cc
All-find_trigger P id (v ∷ vs) u h e = elim (Bool-cases (v.id == id)) [
  | inl same ↦ let f : some v ≡ some u = rw same at e in let g : v ≡ u = cc in subst P g h.0
  | inr other ↦ All-find_trigger P id vs u h.1 (rw other at e)
]

module _ (R : Redb) (A : AlarmAudio) (t : Trigger) where
  -- A trigger of another number, or this one.
  abbrev pub IsOther : Trigger → Type 0
  IsOther u = (u.id ≢ t.id) ⊎ (u ≡ t)

  -- A trigger sleeps, and no other one of its number, the control object does not have its handle,
  -- and its number is used.
  pub record IsOrphan (c : Control R A) : Type 0 where
    pub asleep : Sleeps t c.tasks
    pub alone : All IsOther c.tasks
    pub unhandled : c.trigger_task ≢ some t.id
    pub used : t.id < c.next_task

  pub none-ne-handle : none ≢ some t.id
  none-ne-handle e = cc

  module _ (c : Control R A) (h : IsOrphan c) where
    scheduled-IsOrphan :
        (clock : Option ℕ) (id : Bytes) (delay_ms : ℕ) (found : Result AudioError Bytes)
        → IsOrphan (schedule_resolved R A clock id delay_ms c found).0
    unfolding schedule_resolved cancel_pending
    scheduled-IsOrphan clock id delay_ms (err e) = h
    scheduled-IsOrphan clock id delay_ms (ok path) = record {
      asleep = Sleeps-append t _ _ (Sleeps-abort t c.trigger_task c.tasks h.unhandled h.asleep);
      alone =
          All-append IsOther _ _ (All-abort IsOther c.trigger_task c.tasks h.alone)
            (inl (λ e. let u = h.used in omega arith), tt);
      unhandled = λ e. newer c.next_task e h.used;
      used = let u = h.used in omega arith;
    }
      where
        newer : (n : ℕ) → ◌≡◌ {A = Option ℕ} (some n) (some t.id) → ¬ (t.id < n)
        newer n e lt = ground arith

    off-IsOrphan : IsOrphan (stand_down R A c).0
    unfolding stand_down cancel_pending
    off-IsOrphan = record {
      asleep = Sleeps-abort t c.trigger_task c.tasks h.unhandled h.asleep;
      alone = All-abort IsOther c.trigger_task c.tasks h.alone;
      unhandled = none-ne-handle;
      used = h.used;
    }

  announce-IsOrphan :
      (x : Control R A × Result BusError Transition) → IsOrphan x.0 → IsOrphan (announce R A x).0
  unfolding announce
  announce-IsOrphan (c, err e) h = h
  announce-IsOrphan (c, ok x) h = record {
    asleep = h.asleep;
    alone = h.alone;
    unhandled = h.unhandled;
    used = h.used;
  }

  silent-IsOrphan :
      (x : Control R A × Result BusError Transition) → IsOrphan x.0 → IsOrphan (silent R A x).0
  unfolding silent
  silent-IsOrphan (c, err e) h = h
  silent-IsOrphan (c, ok x) h = h

  snooze_sound-IsOrphan :
      (fs : FileSystem) (clock : Option ℕ) (n : ℕ) (c : Control R A) (sound : Option Bytes)
      → IsOrphan c
      → IsOrphan (snooze_sound R A fs clock n c sound).0
  unfolding snooze_sound schedule_trigger_with_delay
  snooze_sound-IsOrphan fs clock n c none h = h
  snooze_sound-IsOrphan fs clock n c (some id) h =
      silent-IsOrphan _ (scheduled-IsOrphan c h clock id (n * 1000) (resolve_path fs c.sounds id))

  snooze-IsOrphan :
      (fs : FileSystem) (clock : Option ℕ) (n : ℕ) (c : Control R A)
      → IsOrphan c
      → IsOrphan (snooze R A fs clock n c).0
  unfolding snooze
  snooze-IsOrphan fs clock n c h = elim (Bool-cases (n == 0)) [
    | inl e ↦ rw e h
    | inr e ↦ rw e (snooze_sound-IsOrphan fs clock n c c.daemon.state.current_sound h)
  ]

  -- The step is the firing of this trigger.
  abbrev pub IsFiring : {c c' : Control R A} → Step R A c c' → Type 0
  IsFiring (fired from_path id u _ _) = u ≡ t
  IsFiring _ = ⊥

  -- One of the steps of the run is the firing of this trigger, which is an orphan until then.
  abbrev pub FiresIn : {c c' : Control R A} → Steps R A c c' → Type 0
  FiresIn (done _) = ⊥
  FiresIn (next _ d _ s rest) = IsFiring s ⊎ (IsOrphan d × FiresIn rest)

  fire-IsOrphan :
      (from_path : Bytes → Result AudioError DecodedSound) (u : Trigger) (c : Control R A)
      → u.id ≢ t.id
      → IsOrphan c
      → IsOrphan (fire R A from_path u c)
  unfolding fire
  fire-IsOrphan from_path u c other h = record {
    asleep = Sleeps-discard t u.id c.tasks other h.asleep;
    alone = All-discard IsOther u.id c.tasks h.alone;
    unhandled = h.unhandled;
    used = h.used;
  }

  -- An orphan stays one, or the step is its firing.
  Step-IsOrphan : (c c' : Control R A) (s : Step R A c c') → IsOrphan c → IsOrphan c' ⊎ IsFiring s
  unfolding arm schedule_trigger schedule_trigger_with_delay disarm dismiss
  Step-IsOrphan c c' (armed_by fs clock id _) h = inl (
      announce-IsOrphan _
        (scheduled-IsOrphan c h clock id c.trigger_delay (resolve_path fs c.sounds id)))
  Step-IsOrphan c c' (disarmed_by _) h = inl (off-IsOrphan c h)
  Step-IsOrphan c c' (dismissed_by _) h = inl (off-IsOrphan c h)
  Step-IsOrphan c c' (snoozed_by fs clock n _) h = inl (snooze-IsOrphan fs clock n c h)
  Step-IsOrphan c c' (fired from_path id u _ e) h =
      elim (All-find_trigger IsOther id c.tasks u h.alone e) [
        | inl other ↦ inl (fire-IsOrphan from_path u c other h)
        | inr same ↦ inr same
      ]

  -- From an orphan on, in whatever calls are made, it sleeps on unless it fires.
  pub steps-IsOrphan :
      (c c' : Control R A) (s : Steps R A c c') → IsOrphan c → IsOrphan c' ⊎ FiresIn s
  steps-IsOrphan c c' (done _) h = inl h
  steps-IsOrphan c c' (next _ d _ s rest) h = elim (Step-IsOrphan c d s h) [
    | inl k ↦ elim (steps-IsOrphan d c' rest k) [
      | inl still ↦ inl still
      | inr later ↦ inr (inr (k, later))
    ]
    | inr now ↦ inr (inl now)
  ]
