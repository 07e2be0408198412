-- ===== src/Persistence/Saves.antt =====
-- What `save` of alarm-daemon/src/daemon/persistence/mod.rs leaves on disk, and what the next
-- `load` makes of it.
use alarm_daemon.Base.{
  ◌≡◌, ◌⊎◌, refl, ap, ◌∙◌, Option, none, some, Result, ok, err, Result-cases, inl, inr,
}
use alarm_daemon.State.{PersistedState}
use alarm_daemon.Persistence.Codec.{
  PersistenceError, io, database, txn, table, commit, read, corrupted, encode_state,
}
use alarm_daemon.Persistence.Laws.{IsStorable, decode_state-encode_state}
use alarm_daemon.Persistence.Redb.{Redb, IsTransactional}
use alarm_daemon.Persistence.Store.{Store, state_table, state_key, lock_db, load, save, write_state}
use alarm_daemon.Persistence.Store
use alarm_daemon.Persistence.Durable.{
  IsSystem, stored, IsOpen, Keeps, Keeps-trans, still, Locked, lock_db-Locked, IsFor-some,
  load-Loaded, answer,
}

module _ (R : Redb) where
  -- The store as the next process finds it: the same file, not opened yet.
  abbrev pub reopened : Store R → Store R
  reopened s = record s { db = none }

module _ (R : Redb) (T : IsTransactional R) where
  -- The stored value is the encoding of the new state; or there is an error of the system or of the
  -- database, and the old value is there still.
  abbrev pub Saved :
      PersistedState → Store R → Store R × Result PersistenceError (Unit {0}) → Type 0
  Saved state s (t, ok _) =
      (t.path ≡ s.path) × IsOpen R T t × (stored R T t ≡ some (encode_state state))
  Saved state s (t, err e) = Keeps R T s t × IsSystem R T e

  commit-Saved :
      (state : PersistedState) (s : Store R) (h : R.Handle) {x y : R.WriteTxn} {t : R.WriteTable}
      → T.file h ≡ s.path
      → IsOpen R T s
      → R.begin_write s.world h ≡ ok x
      → R.open_table_mut x state_table ≡ ok t
      → R.insert t state_key (encode_state state) ≡ ok y
      → Saved state s (Store.try_io R (λ w. R.commit w y) commit s)
  commit-Saved state s h {y = y} f o e e2 e3 = elim (Result-cases (R.commit s.world y).1) [
    | inl (u, c) ↦
        rw c (refl, o, rw (← f) (T.commit_writes s.world h state_table state_key _ e e2 e3 c))
    | inr (x, c) ↦ rw c (
      record {
        same_path = refl;
        same_value = T.commit_aborts s.world y x s.path state_table state_key c;
        still_open = o;
      },
      T.commit_fault s.world y x c,
    )
  ]

  write_state-Saved :
      (state : PersistedState) (s : Store R) (h : R.Handle)
      → T.file h ≡ s.path
      → IsOpen R T s
      → Saved state s (write_state R state (some h) s)
  unfolding write_state
  write_state-Saved state s h f o = elim (Result-cases (R.begin_write s.world h)) [
    | inr (x, e) ↦ rw (e, write_state) (still R T s o, T.begin_write_fault s.world h x e)
    | inl (x, e) ↦ elim (Result-cases (R.open_table_mut x state_table)) [
      | inr (y, e2) ↦
          rw (e, write_state, e2) (still R T s o, T.open_table_mut_fault x state_table y e2)
      | inl (t, e2) ↦ elim (Result-cases (R.insert t state_key (encode_state state))) [
        | inr (y, e3) ↦
            rw (e, write_state, e2, e3)
              (still R T s o, T.insert_fault t state_key (encode_state state) y e3)
        | inl (y, e3) ↦ rw (e, write_state, e2, e3) (commit-Saved state s h f o e e2 e3)
      ]
    ]
  ]

  Saved-Keeps :
      (state : PersistedState) (s t : Store R) (x : Store R × Result PersistenceError (Unit {0}))
      → Keeps R T s t
      → Saved state t x
      → Saved state s x
  Saved-Keeps state s t (u, ok _) k v = (v.0 ∙ k.same_path, v.1, v.2)
  Saved-Keeps state s t (u, err e) k v = (Keeps-trans R T k v.0, v.1)

  write_after :
      (state : PersistedState) (s : Store R)
      (x : Store R × Result PersistenceError (Option R.Handle))
      → Locked R T s x
      → Saved state s (Store.bind_to R x (write_state R state))
  write_after state s (t, ok none) l = absurd l
  write_after state s (t, ok (some h)) l =
      let f : T.file h ≡ t.path = IsFor-some R T t.db h t.path l.1 l.0.still_open in
      Saved-Keeps state s t (write_state R state (some h) t) l.0
        (write_state-Saved state t h f l.0.still_open)
  write_after state s (t, err e) l = l

  -- A save that succeeds leaves the encoding of the new state on disk. One that fails does so with
  -- an error of the system or of the database, and leaves the old value there.
  pub save-Saved :
      (state : PersistedState) (s : Store R) → IsOpen R T s → Saved state s (save R state s)
  unfolding save
  save-Saved state s h = write_after state s (lock_db R s) (lock_db-Locked R T s h)

  -- What a load answers where the encoding of `state` is stored.
  abbrev pub Recovers : PersistedState → Result PersistenceError PersistedState → Type 0
  Recovers state r = (r ≡ ok state) ⊎ ((e : PersistenceError) × (r ≡ err e) × IsSystem R T e)

  pub not-IsSystem : ¬ T.Faulty → (e : PersistenceError) → ¬ IsSystem R T e
  not-IsSystem sound (io x) f = sound f
  not-IsSystem sound (database x) f = sound f
  not-IsSystem sound (txn x) f = sound f
  not-IsSystem sound (table x) f = sound f
  not-IsSystem sound (commit x) f = sound f
  not-IsSystem sound (read x) f = sound f
  not-IsSystem sound (corrupted x) f = f

  -- For a state that can be stored (a sound, if any, of UTF-8 of at most 65,535 bytes, and a fire
  -- time, if any, of 64 bits) and a store whose cached handle, if there is one, is of its own file:
  -- after a save that succeeded, a new process reads back the very state that was saved, unless the
  -- system or the database fails it.
  pub load-save :
      (state : PersistedState) (s t : Store R)
      → IsStorable state
      → IsOpen R T s
      → save R state s ≡ (t, ok tt)
      → Recovers state (load R (reopened R t)).1
  load-save state s t h o e =
      let on_disk : stored R T t ≡ some (encode_state state) = (rw e at (save-Saved state s o)).2 in
      elim (load-Loaded R T (reopened R t) tt).1 [
        | inl found ↦ inl (found ∙ ap (answer R T) on_disk ∙ decode_state-encode_state state h)
        | inr failed ↦ inr failed
      ]

  -- Where nothing fails, the new process reads back the state, and no error.
  pub load-save_sound_disk :
      (state : PersistedState) (s t : Store R)
      → ¬ T.Faulty
      → IsStorable state
      → IsOpen R T s
      → save R state s ≡ (t, ok tt)
      → (load R (reopened R t)).1 ≡ ok state
  load-save_sound_disk state s t sound h o e = elim (load-save state s t h o e) [
    | inl found ↦ found
    | inr (x, _, fault) ↦ absurd (not-IsSystem sound x fault)
  ]

  -- The store's file holds a state that a load will answer.
  abbrev pub Holds : PersistedState → Store R → Type 0
  Holds state s = IsOpen R T s × (answer R T (stored R T s) ≡ ok state)

  Saved-Holds :
      (state : PersistedState) (s : Store R) (x : Store R × Result PersistenceError (Unit {0}))
      → ¬ T.Faulty
      → IsStorable state
      → Saved state s x
      → Holds state x.0
  Saved-Holds state s (t, ok u) sound h v =
      (v.1, ap (answer R T) v.2 ∙ decode_state-encode_state state h)
  Saved-Holds state s (t, err e) sound h v = absurd (not-IsSystem sound e v.1)

  -- Over a disk that does not fail, a save leaves the state that it was given.
  pub save-Holds :
      (state : PersistedState) (s : Store R)
      → ¬ T.Faulty
      → IsStorable state
      → IsOpen R T s
      → Holds state (save R state s).0
  save-Holds state s sound h o = Saved-Holds state s (save R state s) sound h (save-Saved state s o)
