-- ===== src/Control/Overlaps/Lost.antt =====
-- The trigger that two overlapping calls of `arm` lose: alarm-daemon/src/ipc/control.rs.
use alarm_daemon.Base.{
  ℕ, zero, suc, ◌≤◌, ◌≡◌, ◌⊎◌, refl, Bool, true, false, List, [], ◌∷◌, ◌++◌, arith, inl, inr,
  replicate,
}
use mathlib.Core.Path.{subst}
use alarm_daemon.Persistence.Redb.{Redb}
use alarm_daemon.Audio.Player.{AlarmAudio}
use alarm_daemon.Control.{Control, cancel_pending, with_daemon, spawn_task, abort}
use alarm_daemon.Control.Calls.{OneTrigger, abort-OneTrigger}
use alarm_daemon.Control.Races.{
  Plan, Phase, to_cancel, returned, trigger_of, Pair, turn, turns, begin,
}
use alarm_daemon.Control.Runs.{Steps}
use alarm_daemon.Control.Orphans.{IsOrphan, FiresIn, steps-IsOrphan}
use alarm_daemon.Control.Overlaps.{Own}
use alarm_daemon.Control.Overlaps.Stages.{IsReady, HasOrphan, Overlaps, swapped, Overlaps-swapped}
use alarm_daemon.Control.Overlaps.Turns.{ready-turn, late-turn, behind-turn, over-turn}

module _ (R : Redb) (A : AlarmAudio) where
  first-Overlaps :
      (p q : Plan) (s : Pair R A) → Overlaps R A p q s → Overlaps R A p q (turn R A true s)
  first-Overlaps p q s (inl h) = ready-turn R A p q s.first s.second s.control h
  first-Overlaps p q s (inr (inl h)) = late-turn R A p q s.first s.second s.control h
  first-Overlaps p q s (inr (inr (inl h))) = behind-turn R A p q s.first s.second s.control h
  first-Overlaps p q s (inr (inr (inr h))) = over-turn R A p q s.first s.second s.control h

  turn-Overlaps :
      (p q : Plan) (b : Bool) (s : Pair R A) → Overlaps R A p q s → Overlaps R A p q (turn R A b s)
  turn-Overlaps p q true s h = first-Overlaps p q s h
  turn-Overlaps p q false s h =
      unfold turn in
      Overlaps-swapped R A q p (turn R A true (swapped R A s))
        (first-Overlaps q p (swapped R A s) (Overlaps-swapped R A p q s h))

  turns-Overlaps :
      (p q : Plan) (bs : List Bool) (s : Pair R A)
      → Overlaps R A p q s
      → Overlaps R A p q (turns R A bs s)
  unfolding turns
  turns-Overlaps p q [] s h = h
  turns-Overlaps p q (b ∷ bs) s h = turns-Overlaps p q bs (turn R A b s) (turn-Overlaps p q b s h)

  not-Own : (p : Plan) (f : Phase) (c : Control R A) → f ≡ returned → ¬ Own R A p f c
  not-Own p f c e h = subst (λ (x : Phase). Own R A p x c) e h

  -- Once both calls have returned, the trigger of one of them is an orphan.
  returned-HasOrphan :
      (p q : Plan) (s : Pair R A)
      → s.first ≡ returned
      → s.second ≡ returned
      → Overlaps R A p q s
      → HasOrphan R A p s.control ⊎ HasOrphan R A q s.control
  returned-HasOrphan p q s e f (inl h) = absurd (not-Own p s.first s.control e h.own_first)
  returned-HasOrphan p q s e f (inr (inl h)) = absurd (not-Own q s.second s.control f h.own)
  returned-HasOrphan p q s e f (inr (inr (inl h))) = absurd (not-Own p s.first s.control e h.own)
  returned-HasOrphan p q s e f (inr (inr (inr h))) = h.lost

  -- The first call cancels, takes `k` turns more, of which it has two before it keeps its handle,
  -- and the second one cancels.
  abbrev pub both_cancelled : Control R A → Plan → Plan → ℕ → Pair R A
  both_cancelled c p q k =
      turns R A (true ∷ replicate k true ++ false ∷ []) (begin R A c (to_cancel p) (to_cancel q))

  cancelled-IsReady :
      (c : Control R A) (p q : Plan) (k : ℕ)
      → OneTrigger c.trigger_task c.tasks
      → k ≤ 2
      → IsReady R A p q (both_cancelled c p q k)
  unfolding turns cancel_pending with_daemon spawn_task abort
  cancelled-IsReady c p q zero one h = record {
    no_handle = refl;
    older = rw (abort-OneTrigger c.trigger_task c.tasks one) tt;
    own_first = refl;
    own_second = refl;
    apart = inl refl;
  }
  cancelled-IsReady c p q (suc zero) one h = record {
    no_handle = refl;
    older = rw (abort-OneTrigger c.trigger_task c.tasks one) tt;
    own_first = refl;
    own_second = refl;
    apart = inl refl;
  }
  cancelled-IsReady c p q (suc (suc zero)) one h = record {
    no_handle = refl;
    older = rw (abort-OneTrigger c.trigger_task c.tasks one) (omega arith, tt);
    own_first = record {
      asleep = rw (abort-OneTrigger c.trigger_task c.tasks one) (inl refl);
      alone = rw (abort-OneTrigger c.trigger_task c.tasks one) (inr refl, tt);
      unhandled = λ e. cc;
      used = omega arith;
    };
    own_second = refl;
    apart = inr (inl refl);
  }
  cancelled-IsReady c p q (suc (suc (suc k))) one h = absurd (omega arith)

  -- Its sleeping at the end of a run, or its firing in it, with the trigger that is lost.
  abbrev pub IsOutOfReach : {c c' : Control R A} → Plan → Steps R A c c' → Type 0
  IsOutOfReach {c} {c'} p run =
      (id : ℕ) × IsOrphan R A (trigger_of p id) c
      × (IsOrphan R A (trigger_of p id) c' ⊎ FiresIn R A (trigger_of p id) run)

  HasOrphan-IsOutOfReach :
      (p : Plan) (c c' : Control R A) (run : Steps R A c c')
      → HasOrphan R A p c
      → IsOutOfReach p run
  HasOrphan-IsOutOfReach p c c' run (id, h) =
      (id, h, steps-IsOrphan R A (trigger_of p id) c c' run h)

  -- Where at most one trigger sleeps, the one whose handle is kept, let two calls of `arm` overlap:
  -- the second cancels before the first has kept its handle, so behind its cancelling and 0 to 2
  -- turns more; whatever turns they take from there, until both have returned. Then the trigger of
  -- one of the two sleeps without a handle. And whatever calls are made after that, one after the
  -- other, to disarm, dismiss, snooze or arm anew, and whatever triggers fire: it still sleeps so
  -- at the end of that run, or it is fired in the course of it, having slept so until then.
  pub lost_for_good :
      (c : Control R A) (p q : Plan) (k : ℕ) (later : List Bool) (c' : Control R A)
      → OneTrigger c.trigger_task c.tasks
      → k ≤ 2
      → (turns R A later (both_cancelled c p q k)).first ≡ returned
      → (turns R A later (both_cancelled c p q k)).second ≡ returned
      → (run : Steps R A (turns R A later (both_cancelled c p q k)).control c')
      → IsOutOfReach p run ⊎ IsOutOfReach q run
  lost_for_good c p q k later c' one h e f run =
      let s = turns R A later (both_cancelled c p q k) in
      let stands = turns-Overlaps p q later _ (inl (cancelled-IsReady c p q k one h)) in
      elim (returned-HasOrphan p q s e f stands) [
        | inl lost ↦ inl (HasOrphan-IsOutOfReach p s.control c' run lost)
        | inr lost ↦ inr (HasOrphan-IsOutOfReach q s.control c' run lost)
      ]
