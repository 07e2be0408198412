-- ===== src/Control/Overlaps/Stages.antt =====
-- Where two calls of `arm` that overlap stand: alarm-daemon/src/ipc/control.rs.
use alarm_daemon.Base.{
  ℕ, ◌<◌, ◌≡◌, ◌≢◌, ◌⊎◌, refl, sym, ◌∙◌, Option, none, some, arith, inl, inr, All,
}
use alarm_daemon.Persistence.Redb.{Redb}
use alarm_daemon.Audio.Player.{AlarmAudio}
use alarm_daemon.Control.{Trigger, Control, keep_handle}
use alarm_daemon.Control.Races.{
  Plan, Phase, to_cancel, to_arm, to_spawn, to_keep, to_cancel_for_disarm, to_disarm, to_announce,
  returned, trigger_of, Pair,
}
use alarm_daemon.Control.Orphans.{Sleeps, IsOther, IsOrphan}
use alarm_daemon.Control.Overlaps.{id_of, Late, Apart, IsOlder, Own, IsKept}

module _ (R : Redb) (A : AlarmAudio) where
  -- Neither call has kept its handle.
  pub record IsReady (p q : Plan) (s : Pair R A) : Type 0 where
    pub no_handle : s.control.trigger_task ≡ none
    pub older : All (IsOlder R A s.control) s.control.tasks
    pub own_first : Own R A p s.first s.control
    pub own_second : Own R A q s.second s.control
    pub apart : Apart (id_of s.first) (id_of s.second)

  -- The call that stands at `f` has kept its handle, and the one at `g` has not.
  pub record IsAhead (p q : Plan) (f g : Phase) (c : Control R A) : Type 0 where
    pub late : Late f
    pub older : All (IsOlder R A c) c.tasks
    pub id : ℕ
    pub kept : IsKept R A (trigger_of p id) c
    pub own : Own R A q g c
    pub apart : id_of g ≢ some id

  -- Both have, and the trigger of one of them is an orphan.
  abbrev pub HasOrphan : Plan → Control R A → Type 0
  HasOrphan p c = (id : ℕ) × IsOrphan R A (trigger_of p id) c

  pub record IsOver (p q : Plan) (s : Pair R A) : Type 0 where
    pub late_first : Late s.first
    pub late_second : Late s.second
    pub lost : HasOrphan p s.control ⊎ HasOrphan q s.control

  abbrev pub Overlaps : Plan → Plan → Pair R A → Type 0
  Overlaps p q s =
      IsReady p q s
      ⊎ IsAhead p q s.first s.second s.control
      ⊎ IsAhead q p s.second s.first s.control
      ⊎ IsOver p q s

  -- The same two calls, the second of them first.
  abbrev pub swapped : Pair R A → Pair R A
  swapped s = record { control = s.control; first = s.second; second = s.first }

  Apart-sym : (i j : Option ℕ) → Apart i j → Apart j i
  Apart-sym i j (inl e) = inr (inl e)
  Apart-sym i j (inr (inl e)) = inl e
  Apart-sym i j (inr (inr n)) = inr (inr (λ e. n (sym e)))

  pub Overlaps-swapped : (p q : Plan) (s : Pair R A) → Overlaps p q s → Overlaps q p (swapped s)
  Overlaps-swapped p q s (inl h) = inl (record {
    no_handle = h.no_handle;
    older = h.older;
    own_first = h.own_second;
    own_second = h.own_first;
    apart = Apart-sym _ _ h.apart;
  })
  Overlaps-swapped p q s (inr (inl h)) = inr (inr (inl h))
  Overlaps-swapped p q s (inr (inr (inl h))) = inr (inl h)
  Overlaps-swapped p q s (inr (inr (inr h))) = inr (
      inr (
        inr (record {
          late_first = h.late_second;
          late_second = h.late_first;
          lost = elim h.lost [ inl l ↦ inr l | inr l ↦ inl l ];
        })))

  -- The number of a call's own trigger is used.
  Own-used :
      (q : Plan) (g : Phase) (c : Control R A)
      → Own R A q g c
      → (id_of g ≡ none) ⊎ ((j : ℕ) × (id_of g ≡ some j) × (j < c.next_task))
  Own-used q (to_cancel r) c h = inl refl
  Own-used q (to_arm r) c h = inl refl
  Own-used q (to_spawn r t) c h = inl refl
  Own-used q (to_keep id t) c h = inr (id, refl, h.used)
  Own-used q to_cancel_for_disarm c h = inl refl
  Own-used q to_disarm c h = inl refl
  Own-used q (to_announce t) c h = inl refl
  Own-used q returned c h = inl refl

  pub some-ne : (i j : ℕ) → j < i → ◌≢◌ {A = Option ℕ} (some i) (some j)
  some-ne i j h e = ground arith

  -- A number that is not used yet is not that of a call.
  pub fresh-Apart :
      (q : Plan) (g : Phase) (c : Control R A) → Own R A q g c → Apart (some c.next_task) (id_of g)
  fresh-Apart q g c h = elim (Own-used q g c h) [
    | inl e ↦ inr (inl e)
    | inr (j, e, k) ↦ inr (inr (λ f. some-ne c.next_task j k (f ∙ e)))
  ]

  -- A handle of another number is kept.
  pub IsOrphan-keep_handle :
      (c : Control R A) (id : ℕ) (t : Trigger)
      → ◌≢◌ {A = Option ℕ} (some id) (some t.id)
      → Sleeps t c.tasks
      → All (IsOther R A t) c.tasks
      → t.id < c.next_task
      → IsOrphan R A t (keep_handle R A id c)
  unfolding keep_handle
  IsOrphan-keep_handle c id t other asleep alone used = record {
    asleep = asleep;
    alone = alone;
    unhandled = other;
    used = used;
  }

  pub Own-keep_handle :
      (q : Plan) (g : Phase) (c : Control R A) (id : ℕ)
      → id_of g ≢ some id
      → Own R A q g c
      → Own R A q g (keep_handle R A id c)
  Own-keep_handle q (to_cancel r) c id n h = absurd h
  Own-keep_handle q (to_arm r) c id n h = h
  Own-keep_handle q (to_spawn r t) c id n h = h
  Own-keep_handle q (to_keep j t) c id n h =
      IsOrphan-keep_handle c id (trigger_of q j) (λ e. n (sym e)) h.asleep h.alone h.used
  Own-keep_handle q to_cancel_for_disarm c id n h = absurd h
  Own-keep_handle q to_disarm c id n h = absurd h
  Own-keep_handle q (to_announce t) c id n h = absurd h
  Own-keep_handle q returned c id n h = absurd h

  pub Apart-some : (id : ℕ) (j : Option ℕ) → Apart (some id) j → j ≢ some id
  Apart-some id j (inl e) f = absurd (let no : some id ≡ none = e in cc)
  Apart-some id j (inr (inl e)) f = absurd (let no : none ≡ some id = sym e ∙ f in cc)
  Apart-some id j (inr (inr n)) f = n (sym f)
