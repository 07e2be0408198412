-- ===== src/Daemon/Races.antt =====
-- Transitions of alarm-daemon/src/daemon/alarm_daemon.rs that overlap. `transition_to` releases the
-- lock on the state before it writes, so the write of one may come behind the write of a later one.
use alarm_daemon.Base.{
  ◌≡◌, ◌≢◌, refl, ap, some, List, [], ◌∷◌, ◌++◌, inl, inr, if◌then◌else◌, Bool-cases, if_both,
}
use alarm_daemon.State.{
  State, PersistedState, to_persisted, Transition, no_change, changed, state_eq, state_eq_iff,
}
use alarm_daemon.Persistence.Redb.{Redb, IsTransactional}
use alarm_daemon.Persistence.Laws.{IsStorable}
use alarm_daemon.Persistence.Store.{Store, save}
use alarm_daemon.Persistence.Durable.{IsOpen}
use alarm_daemon.Persistence.Saves.{Holds, save-Holds}
use alarm_daemon.Daemon.Laws.{transition_other}
use alarm_daemon.Daemon.{AlarmDaemon, transition_to, persist}

module _ (R : Redb) where
  -- The daemon and its store, with the snapshots that are still to be written, the oldest first.
  pub record Shared : Type 0 where
    pub state : State
    pub store : Store R
    pub unwritten : List PersistedState

  -- `transition_to` up to `drop(state)`: the new state, and a snapshot of it.
  unfoldable pub swap : State → Shared → Shared × Transition
  swap desired d = if state_eq d.state desired then (d, no_change) else (
    record {
      state = desired;
      store = d.store;
      unwritten = d.unwritten ++ to_persisted desired ∷ [];
    },
    changed d.state.status desired.status,
  )

  -- The rest of it: the blocking save of one snapshot, `rest` being the others.
  unfoldable pub write : PersistedState → List PersistedState → Shared → Shared
  write snapshot rest d = record {
    state = d.state;
    store = (save R snapshot d.store).0;
    unwritten = rest;
  }

  -- All snapshots written in their order.
  write_all : List PersistedState → Store R → Store R
  write_all [] s = s
  write_all (p ∷ ps) s = write_all ps (save R p s).0

  -- One half of some transition: to a state that can be stored, or the write of any snapshot.
  pub data Step : Shared → Shared → Type 0 where
    swapped :
        (desired : State) (d : Shared)
        → IsStorable (to_persisted desired)
        → Step d (swap desired d).0
    written :
        (p : PersistedState) (before after : List PersistedState) (d : Shared)
        → d.unwritten ≡ before ++ p ∷ after
        → Step d (write p (before ++ after) d)

  pub data Steps : Shared → Shared → Type 0 where
    done : (d : Shared) → Steps d d
    next : (d e f : Shared) → Step d e → Steps e f → Steps d f

  -- A run in which each write is that of the oldest snapshot.
  abbrev pub IsOldest : (d e : Shared) → Step d e → Type 0
  IsOldest d e (swapped desired _ h) = Unit {0}
  IsOldest d e (written p before after _ h) = before ≡ []

  abbrev pub InOrder : (d e : Shared) → Steps d e → Type 0
  InOrder d e (done _) = Unit {0}
  InOrder d f (next _ e _ s rest) = IsOldest d e s × InOrder e f rest

  -- The state, the snapshots and the answer of a first half that changes the state.
  abbrev after_swap : State → Shared → Shared
  after_swap desired d = record {
    state = desired;
    store = d.store;
    unwritten = d.unwritten ++ to_persisted desired ∷ [];
  }

  swap_other :
      (desired : State) (d : Shared)
      → d.state ≢ desired
      → swap desired d ≡ (after_swap desired d, changed d.state.status desired.status)
  unfolding swap
  swap_other desired d n = elim (Bool-cases (state_eq d.state desired)) [
    | inl e ↦ absurd (n ((state_eq_iff d.state desired).0 e))
    | inr e ↦ rw e
  ]

  swapped_other :
      (desired : State) (d : Shared)
      → IsStorable (to_persisted desired)
      → d.state ≢ desired
      → Step d (after_swap desired d)
  swapped_other desired d h n =
      let e : (swap desired d).0 ≡ after_swap desired d = ap (λ x. x.0) (swap_other desired d n) in
      rw e at (swapped desired d h)

  -- A transition to another state is its two halves, one behind the other: it ends in their state
  -- and their store, and what the second half writes is the one snapshot that the first has taken.
  pub transition_to-write :
      (desired : State) (d : AlarmDaemon R) (s : Store R)
      → d.persistence ≡ some s
      → d.state ≢ desired
      → let d' = (swap desired (record { state = d.state; store = s; unwritten = [] })).0 in
        let e = write (to_persisted desired) [] d' in
        (transition_to R desired d ≡ (
          record { state = e.state; persistence = some e.store },
          changed d.state.status desired.status,
        ))
        × (d'.unwritten ≡ to_persisted desired ∷ [])
  unfolding write persist
  transition_to-write desired d s p n =
      let start : Shared = record { state = d.state; store = s; unwritten = [] } in
      rw (transition_other R desired d n, swap_other desired start n, p, persist) (refl, refl)

  write_all-append :
      (ps : List PersistedState) (q : PersistedState) (s : Store R)
      → write_all (ps ++ q ∷ []) s ≡ (save R q (write_all ps s)).0
  unfolding write_all
  write_all-append [] q s = refl
  write_all-append (p ∷ ps) q s = write_all-append ps q (save R p s).0

module _ (R : Redb) (T : IsTransactional R) (sound : ¬ T.Faulty) where
  -- Once the snapshots are written in their order, the disk holds what memory does.
  abbrev CatchesUp : Shared R → Type 0
  CatchesUp d = Holds R T (to_persisted d.state) (write_all R d.unwritten d.store)

  swap-CatchesUp :
      (desired : State) (d : Shared R)
      → IsStorable (to_persisted desired)
      → CatchesUp d
      → CatchesUp (swap R desired d).0
  unfolding swap
  swap-CatchesUp desired d h c =
      if_both (λ (x : Shared R × Transition). CatchesUp x.0) (state_eq d.state desired) _ _ (λ e. c)
        (λ e.
          rw (write_all-append R d.unwritten (to_persisted desired) d.store)
            (save-Holds R T (to_persisted desired) _ sound h c.0))

  oldest_written :
      (state : State) (p : PersistedState) (before after unwritten : List PersistedState)
      (store : Store R)
      → unwritten ≡ before ++ p ∷ after
      → before ≡ []
      → Holds R T (to_persisted state) (write_all R unwritten store)
      → Holds R T (to_persisted state) (write_all R (before ++ after) (save R p store).0)
  unfolding write_all
  oldest_written state p before after unwritten store h o c =
      let c' : Holds R T (to_persisted state) (write_all R (p ∷ after) store) = rw (h, o) at c in
      rw o c'

  all_written :
      (unwritten : List PersistedState) (store : Store R)
      → unwritten ≡ []
      → write_all R unwritten store ≡ store
  unfolding write_all
  all_written unwritten store e = rw e refl

  Step-CatchesUp : (d e : Shared R) (s : Step R d e) → IsOldest R d e s → CatchesUp d → CatchesUp e
  unfolding write write_all
  Step-CatchesUp d e (swapped desired _ h) o c = swap-CatchesUp desired d h c
  Step-CatchesUp d e (written p before after _ h) o c =
      oldest_written d.state p before after d.unwritten d.store h o c

  Steps-CatchesUp : (d e : Shared R) (s : Steps R d e) → InOrder R d e s → CatchesUp d → CatchesUp e
  Steps-CatchesUp d e (done _) o c = c
  Steps-CatchesUp d e (next _ f _ s rest) o c =
      Steps-CatchesUp f e rest o.1 (Step-CatchesUp d f s o.0 c)

  -- Over a disk that does not fail, take any run of the halves of transitions, in which only states
  -- that can be stored are swapped in (a sound of UTF-8 of at most 65,535 bytes, a fire time of 64
  -- bits), that starts with nothing left to be written and with the disk, under a cached handle, if
  -- there is one, of the store's own file, holding what memory does. If each write is that of the
  -- oldest snapshot, then the disk again holds what memory does whenever nothing is left to be
  -- written, however the halves alternate.
  pub InOrder-Holds :
      (d e : Shared R) (s : Steps R d e)
      → InOrder R d e s
      → d.unwritten ≡ []
      → Holds R T (to_persisted d.state) d.store
      → e.unwritten ≡ []
      → Holds R T (to_persisted e.state) e.store
  unfolding write_all
  InOrder-Holds d e s o n h m =
      let c = Steps-CatchesUp d e s o (rw (all_written d.unwritten d.store n) h) in
      rw (all_written e.unwritten e.store m) at c

  -- Where two transitions overlap, the later one may be written first. Over a disk that does not
  -- fail, from every state `d` with nothing to be written, on a store whose cached handle, if there
  -- is one, is of its own file, and for two states that can be stored, the first other than that of
  -- `d` and the second other than the first: some order of the halves of the two transitions ends
  -- with nothing to be written, the second state in memory, and the first one on disk.
  pub overlap_loses :
      (d : Shared R) (s t : State)
      → d.unwritten ≡ []
      → IsOpen R T d.store
      → IsStorable (to_persisted s)
      → IsStorable (to_persisted t)
      → d.state ≢ s
      → s ≢ t
      → (e : Shared R) × Steps R d e
        × (e.unwritten ≡ [])
        × (e.state ≡ t)
        × Holds R T (to_persisted s) e.store
  unfolding write
  overlap_loses d s t n o hs ht ds st =
      let d1 = after_swap R s d in
      let d2 = after_swap R t d1 in
      let two : d2.unwritten ≡ (to_persisted s ∷ []) ++ to_persisted t ∷ [] = rw n refl in
      let d3 = write R (to_persisted t) ((to_persisted s ∷ []) ++ []) d2 in
      let d4 = write R (to_persisted s) ([] ++ []) d3 in
      let run = next d d1 d4 (swapped_other R s d hs ds) (
        next d1 d2 d4 (swapped_other R t d1 ht st) (
          next d2 d3 d4 (written (to_persisted t) (to_persisted s ∷ []) [] d2 two)
            (next d3 d4 d4 (written (to_persisted s) [] [] d3 refl) (done d4)))) in
      let later = save-Holds R T (to_persisted t) d.store sound ht o in
      (d4, run, refl, refl, save-Holds R T (to_persisted s) _ sound hs later.0)
