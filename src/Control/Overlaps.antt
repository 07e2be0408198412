-- ===== src/Control/Overlaps.antt =====
-- Two calls of `arm` that overlap, in any order of their phases: alarm-daemon/src/ipc/control.rs.
pub mod Stages
pub mod Turns
pub mod Lost
use alarm_daemon.Base.{
  ℕ, zero, suc, ◌≤◌, ◌<◌, ◌≡◌, ◌≢◌, ◌⊎◌, refl, sym, ap, ◌∙◌, Bool, true, false, Option, none, some,
  List, [], ◌∷◌, ◌++◌, arith, inl, inr, All, All-append, replicate,
}
use mathlib.Core.Path.{subst}
use alarm_daemon.Base.Bytes.{Bytes}
use alarm_daemon.State.{Transition}
use alarm_daemon.Persistence.Redb.{Redb}
use alarm_daemon.Daemon.{AlarmDaemon}
use alarm_daemon.Audio.Player.{AlarmAudio}
use alarm_daemon.Control.{
  Trigger, Control, cancel_pending, with_daemon, spawn_task, keep_handle, abort,
}
use alarm_daemon.Control.Calls.{OneTrigger, abort-OneTrigger}
use alarm_daemon.Control.Races.{
  Plan, Phase, to_cancel, to_arm, to_spawn, to_keep, to_cancel_for_disarm, to_disarm, to_announce,
  returned, trigger_of, advance, Pair, turn, turns, begin,
}
use alarm_daemon.Control.Runs.{Steps}
use alarm_daemon.Control.Orphans.{
  Sleeps, Sleeps-append, IsOther, IsOrphan, none-ne-handle, FiresIn, steps-IsOrphan,
}

Sleeps-last : (t : Trigger) (ts : List Trigger) → Sleeps t (ts ++ t ∷ [])
Sleeps-last t [] = inl refl
Sleeps-last t (u ∷ ts) = inr (Sleeps-last t ts)

-- A call that has spawned its task, and not kept its handle.
abbrev pub id_of : Phase → Option ℕ
id_of (to_keep id _) = some id
id_of _ = none

-- A call that has kept its handle.
abbrev pub Late : Phase → Type 0
Late (to_announce _) = Unit {0}
Late returned = Unit {0}
Late _ = ⊥

abbrev pub Apart : Option ℕ → Option ℕ → Type 0
Apart i j = (i ≡ none) ⊎ (j ≡ none) ⊎ (i ≢ j)

module _ (R : Redb) (A : AlarmAudio) where
  abbrev pub IsOlder : Control R A → Trigger → Type 0
  IsOlder c u = u.id < c.next_task

  -- A call of `arm` that has cancelled, and not kept its handle: its trigger, if it has been
  -- spawned, is an orphan so far.
  abbrev pub Own : Plan → Phase → Control R A → Type 0
  Own p (to_arm r) c = r ≡ p
  Own p (to_spawn r _) c = r ≡ p
  Own p (to_keep id _) c = IsOrphan R A (trigger_of p id) c
  Own p _ c = ⊥

  -- The trigger of the handle.
  pub record IsKept (t : Trigger) (c : Control R A) : Type 0 where
    pub asleep : Sleeps t c.tasks
    pub alone : All (IsOther R A t) c.tasks
    pub handled : c.trigger_task ≡ some t.id
    pub used : t.id < c.next_task

  -- The steps that change neither the tasks nor the handle.
  module _ (c : Control R A) (d : AlarmDaemon R) (signals : List Bool) where
    pub IsOrphan-with_daemon :
        (t : Trigger) → IsOrphan R A t c → IsOrphan R A t (with_daemon R A c d signals)
    unfolding with_daemon
    IsOrphan-with_daemon t h = record {
      asleep = h.asleep;
      alone = h.alone;
      unhandled = h.unhandled;
      used = h.used;
    }

    pub IsKept-with_daemon : (t : Trigger) → IsKept t c → IsKept t (with_daemon R A c d signals)
    unfolding with_daemon
    IsKept-with_daemon t h = record {
      asleep = h.asleep;
      alone = h.alone;
      handled = h.handled;
      used = h.used;
    }

    pub Own-with_daemon : (p : Plan) (f : Phase) → Own p f c → Own p f (with_daemon R A c d signals)
    Own-with_daemon p (to_cancel r) h = absurd h
    Own-with_daemon p (to_arm r) h = h
    Own-with_daemon p (to_spawn r t) h = h
    Own-with_daemon p (to_keep id t) h = IsOrphan-with_daemon (trigger_of p id) h
    Own-with_daemon p to_cancel_for_disarm h = absurd h
    Own-with_daemon p to_disarm h = absurd h
    Own-with_daemon p (to_announce t) h = absurd h
    Own-with_daemon p returned h = absurd h

  -- A task is spawned.
  module _ (c : Control R A) (path : Bytes) (delay_ms : ℕ) where
    abbrev pub spawned : Control R A
    spawned = spawn_task R A path delay_ms c

    alone-spawned :
        (t : Trigger)
        → t.id < c.next_task
        → All (IsOther R A t) c.tasks
        → All (IsOther R A t) spawned.tasks
    unfolding spawn_task
    alone-spawned t h a = All-append (IsOther R A t) _ _ a (inl (λ e. omega arith), tt)

    IsOrphan-spawned : (t : Trigger) → IsOrphan R A t c → IsOrphan R A t spawned
    unfolding spawn_task
    IsOrphan-spawned t h = record {
      asleep = Sleeps-append t c.tasks _ h.asleep;
      alone = alone-spawned t h.used h.alone;
      unhandled = h.unhandled;
      used = let u = h.used in omega arith;
    }

    pub IsKept-spawned : (t : Trigger) → IsKept t c → IsKept t spawned
    unfolding spawn_task
    IsKept-spawned t h = record {
      asleep = Sleeps-append t c.tasks _ h.asleep;
      alone = alone-spawned t h.used h.alone;
      handled = h.handled;
      used = let u = h.used in omega arith;
    }

    pub Own-spawned : (p : Plan) (f : Phase) → Own p f c → Own p f spawned
    Own-spawned p (to_cancel r) h = absurd h
    Own-spawned p (to_arm r) h = h
    Own-spawned p (to_spawn r t) h = h
    Own-spawned p (to_keep id t) h = IsOrphan-spawned (trigger_of p id) h
    Own-spawned p to_cancel_for_disarm h = absurd h
    Own-spawned p to_disarm h = absurd h
    Own-spawned p (to_announce t) h = absurd h
    Own-spawned p returned h = absurd h

    pub IsOlder-spawned : All (IsOlder c) c.tasks → All (IsOlder spawned) spawned.tasks
    unfolding spawn_task
    IsOlder-spawned h = All-append (IsOlder spawned) _ _ (more c.tasks h) (omega arith, tt)
      where
        more : (ts : List Trigger) → All (IsOlder c) ts → All (λ u. u.id < suc c.next_task) ts
        more [] h = tt
        more (u ∷ us) h = (let e = h.0 in omega arith, more us h.1)

    abbrev new_trigger : Trigger
    new_trigger = record { id = c.next_task; sound_path = path; delay_ms = delay_ms }

    pub new-IsOrphan :
        All (IsOlder c) c.tasks
        → c.trigger_task ≢ some c.next_task
        → IsOrphan R A new_trigger spawned
    unfolding spawn_task
    new-IsOrphan older free = record {
      asleep = Sleeps-last new_trigger c.tasks;
      alone = All-append (IsOther R A new_trigger) _ _ (others c.tasks older) (inr refl, tt);
      unhandled = free;
      used = omega arith;
    }
      where
        others : (ts : List Trigger) → All (IsOlder c) ts → All (IsOther R A new_trigger) ts
        others [] h = tt
        others (u ∷ us) h = (inl (λ e. let k = h.0 in omega arith), others us h.1)
