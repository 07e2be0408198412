-- ===== src/Daemon/Laws.antt =====
-- What one transition does: alarm-daemon/src/daemon/alarm_daemon.rs, `transition_to`.
use alarm_daemon.Base.{◌≡◌, ◌≢◌, ◌⊎◌, refl, some, Bool-cases, inl, inr, err, sym, ◌∙◌}
use mathlib.Core.Bool.{false≢true}
use alarm_daemon.State.{State, to_persisted, no_change, changed, state_eq, state_eq_iff}
use alarm_daemon.Persistence.Codec.{PersistenceError}
use alarm_daemon.Persistence.Redb.{Redb, IsTransactional}
use alarm_daemon.Persistence.Store.{Store, save}
use alarm_daemon.Persistence.Durable.{stored, IsOpen}
use alarm_daemon.Persistence.Saves.{save-Saved}
use alarm_daemon.Daemon.{AlarmDaemon, persist, transition_to}

module _ (R : Redb) where
  transition_same :
      (s : State) (d : AlarmDaemon R) → d.state ≡ s → transition_to R s d ≡ (d, no_change)
  unfolding transition_to
  transition_same s d e = rw ((state_eq_iff d.state s).1 e)

  pub transition_other :
      (s : State) (d : AlarmDaemon R)
      → d.state ≢ s
      → transition_to R s d ≡ (
        record { state = s; persistence = persist R (to_persisted s) d.persistence },
        changed d.state.status s.status,
      )
  unfolding transition_to
  transition_other s d n = elim (Bool-cases (state_eq d.state s)) [
    | inl e ↦ absurd (n ((state_eq_iff d.state s).0 e))
    | inr e ↦ rw e
  ]

  -- A transition always ends in the state asked for. It answers `no_change`, and leaves daemon and
  -- store alone, exactly if that was the state already; otherwise it answers the old and the new
  -- status, and the new state has been handed to the store.
  pub transition_to_outcome :
      (s : State) (d : AlarmDaemon R)
      → let (d', t) = transition_to R s d in
        (d'.state ≡ s)
        × (((d.state ≡ s) × (t ≡ no_change) × (d' ≡ d))
            ⊎ ((d.state ≢ s)
                × (t ≡ changed d.state.status s.status)
                × (d'.persistence ≡ persist R (to_persisted s) d.persistence)))
  transition_to_outcome s d = elim (Bool-cases (state_eq d.state s)) [
    | inl e ↦
        let same : d.state ≡ s = (state_eq_iff d.state s).0 e in
        rw (transition_same s d same) (same, inl (same, refl, refl))
    | inr e ↦
        let other : d.state ≢ s = λ p. false≢true (sym e ∙ (state_eq_iff d.state s).1 p) in
        rw (transition_other s d other) (refl, inr (other, refl, refl))
  ]

  -- A transition asked for twice changes nothing the second time: the daemon, its store and the
  -- disk are as the first left them, also where the first could not be written.
  pub transition_to-transition_to :
      (s : State) (d : AlarmDaemon R)
      → let d' = (transition_to R s d).0 in transition_to R s d' ≡ (d', no_change)
  transition_to-transition_to s d = transition_same s _ (transition_to_outcome s d).0

module _ (R : Redb) (T : IsTransactional R) where
  -- A transition whose write fails is acknowledged like any other, while the disk keeps the old
  -- value; and asking for it again does not write it either.
  pub transition_to_lost :
      (s : State) (d : AlarmDaemon R) (store t : Store R) (e : PersistenceError)
      → d.persistence ≡ some store
      → IsOpen R T store
      → d.state ≢ s
      → save R (to_persisted s) store ≡ (t, err e)
      → let (d', r) = transition_to R s d in
        (r ≡ changed d.state.status s.status)
        × (d'.state ≡ s)
        × (d'.persistence ≡ some t)
        × (stored R T t ≡ stored R T store)
        × (transition_to R s d' ≡ (d', no_change))
  unfolding persist
  transition_to_lost s d store t e has o other failed =
      let kept : stored R T t ≡ stored R T store =
        (rw failed at (save-Saved R T (to_persisted s) store o)).0.same_value in
      rw (transition_other R s d other)
        (refl, refl, rw (has, persist, failed), kept, transition_same R s _ refl)
