-- ===== src/Persistence/Durable.antt =====
-- What `lock_db`, `load` and `save` of alarm-daemon/src/daemon/persistence/mod.rs do to the stored
-- value, over any transactional database.
use alarm_daemon.Base.{
  ◌≡◌, ◌⊎◌, refl, ap, ◌∙◌, Option, none, some, String, Result, ok, err, arith, Option-cases,
  Result-cases, Bool-cases, inl, inr,
}
use alarm_daemon.Base.Bytes.{Bytes}
use alarm_daemon.State.{PersistedState, default_persisted}
use alarm_daemon.Persistence.Codec.{PersistenceError, io, txn, table, read, corrupted, decode_state}
use alarm_daemon.Persistence.Redb.{Redb, IsTransactional, TableError, table_does_not_exist, other}
use alarm_daemon.Persistence.Store.{
  Store, parent, make_parent, create_db, lock_with, state_table, state_key, lock_db, load, save,
  read_state, read_table, read_key,
}
use alarm_daemon.Persistence.Store

module _ (R : Redb) (T : IsTransactional R) where
  -- An error of the system or of the database, as against stored bytes that make no sense. It is
  -- had only where some call may fail.
  abbrev pub IsSystem : PersistenceError → Type 0
  IsSystem (corrupted _) = ⊥
  IsSystem _ = T.Faulty

  -- The value on disk under the daemon's key.
  abbrev pub stored : Store R → Option Bytes
  stored s = T.committed s.world s.path state_table state_key

  abbrev pub IsFor : Option R.Handle → Bytes → Type 0
  IsFor none path = Unit {0}
  IsFor (some h) path = T.file h ≡ path

  -- The cached handle, if there is one, is of the store's own file.
  abbrev pub IsOpen : Store R → Type 0
  IsOpen s = IsFor s.db s.path

  -- The path and the stored value are left alone, and the handle stays a handle of the file.
  pub record Keeps (s t : Store R) : Type 0 where
    pub same_path : t.path ≡ s.path
    pub same_value : stored t ≡ stored s
    pub still_open : IsOpen t

  abbrev pub Locked : Store R → Store R × Result PersistenceError (Option R.Handle) → Type 0
  Locked s (t, ok none) = ⊥
  Locked s (t, ok (some h)) = Keeps s t × (t.db ≡ some h)
  Locked s (t, err e) = Keeps s t × IsSystem e

  abbrev Made : Store R → Store R × Result PersistenceError (Unit {0}) → Type 0
  Made s (t, ok _) = Keeps s t
  Made s (t, err e) = Keeps s t × IsSystem e

  Made-dir :
      (s : Store R) (dir : Bytes)
      → IsOpen s
      → Made s (Store.try_io R (λ w. R.create_dir_all w dir) io s)
  Made-dir s dir h = elim (Result-cases (R.create_dir_all s.world dir).1) [
    | inl (u, e) ↦ ground (arith, T.dir_keeps s.world dir s.path state_table state_key)
    | inr (x, e) ↦
        ground
          (arith, T.dir_keeps s.world dir s.path state_table state_key, T.dir_fault s.world dir x e)
  ]

  make_parent-Made : (s : Store R) → IsOpen s → Made s (make_parent R s)
  unfolding make_parent
  make_parent-Made s h = elim (Option-cases (parent s.path)) [
    | inl e ↦ rw (e, make_parent) (ground arith)
    | inr (dir, e) ↦ rw (e, make_parent) (Made-dir s dir h)
  ]

  create_db-Locked : (s : Store R) → IsOpen s → Locked s (create_db R s)
  unfolding create_db
  create_db-Locked s h = elim (Result-cases (R.create s.world s.path).1) [
    | inl (handle, e) ↦ ground (
      arith,
      T.create_keeps s.world s.path s.path state_table state_key,
      T.created_file s.world s.path handle e,
    )
    | inr (x, e) ↦ ground (
      arith,
      T.create_keeps s.world s.path s.path state_table state_key,
      T.create_fault s.world s.path x e,
    )
  ]

  pub still : (s : Store R) → IsOpen s → Keeps s s
  still s h = record { same_path = refl; same_value = refl; still_open = h }

  pub Keeps-trans : {s t u : Store R} → Keeps s t → Keeps t u → Keeps s u
  Keeps-trans a b = record {
    same_path = b.same_path ∙ a.same_path;
    same_value = b.same_value ∙ a.same_value;
    still_open = b.still_open;
  }

  pub Locked-Keeps :
      (s t : Store R) (x : Store R × Result PersistenceError (Option R.Handle))
      → Keeps s t
      → Locked t x
      → Locked s x
  Locked-Keeps s t (u, ok none) a l = l
  Locked-Keeps s t (u, ok (some h)) a l = (Keeps-trans a l.0, l.1)
  Locked-Keeps s t (u, err e) a l = (Keeps-trans a l.0, l.1)

  create_after :
      (s : Store R) (x : Store R × Result PersistenceError (Unit {0}))
      → Made s x
      → Locked s (Store.bind_to R x (λ _. create_db R))
  create_after s (t, ok _) m = Locked-Keeps s t (create_db R t) m (create_db-Locked t m.still_open)
  create_after s (t, err e) m = m

  lock_with-Locked :
      (db : Option R.Handle) (s : Store R) → s.db ≡ db → IsOpen s → Locked s (lock_with R db s)
  unfolding lock_with
  lock_with-Locked none s e h = create_after s (make_parent R s) (make_parent-Made s h)
  lock_with-Locked (some handle) s e h =
      (record { same_path = refl; same_value = refl; still_open = h }, e)

  pub lock_db-Locked : (s : Store R) → IsOpen s → Locked s (lock_db R s)
  unfolding lock_db
  lock_db-Locked s h = lock_with-Locked s.db s refl h

  -- Reading through a handle of the file answers what the file holds under the key, and changes
  -- nothing.
  abbrev pub answer : Option Bytes → Result PersistenceError PersistedState
  answer none = ok default_persisted
  answer (some bytes) = decode_state bytes

  abbrev pub Read : Store R → Store R × Result PersistenceError PersistedState → Type 0
  Read s (t, r) =
      (t ≡ s) × ((r ≡ answer (stored s)) ⊎ ((e : PersistenceError) × (r ≡ err e) × IsSystem e))

  stored_at :
      (s : Store R) (h : R.Handle)
      → T.file h ≡ s.path
      → T.committed s.world (T.file h) state_table state_key ≡ stored s
  stored_at s h f = rw f

  pub IsFor-some :
      (db : Option R.Handle) (h : R.Handle) (path : Bytes)
      → db ≡ some h
      → IsFor db path
      → T.file h ≡ path
  IsFor-some db h path e f = rw e at f

  read_key-Read :
      (s : Store R) (h : R.Handle) (x : R.ReadTxn) (t : R.Table) (r : Result String (Option Bytes))
      → T.file h ≡ s.path
      → R.begin_read s.world h ≡ ok x
      → R.open_table x state_table ≡ ok t
      → R.get t state_key ≡ r
      → Read s (read_key R t s)
  unfolding read_key
  read_key-Read s h x t (ok none) f b o g =
      rw (g, read_key)
        (
          refl,
          inl (ap answer (T.read_value s.world h state_table state_key b o g ∙ stored_at s h f)),
        )
  read_key-Read s h x t (ok (some v)) f b o g =
      rw (g, read_key)
        (
          refl,
          inl (ap answer (T.read_value s.world h state_table state_key b o g ∙ stored_at s h f)),
        )
  read_key-Read s h x t (err e) f b o g =
      rw (g, read_key) (refl, inr (read e, refl, T.get_fault t state_key e g))

  read_table-Read :
      (s : Store R) (h : R.Handle) (x : R.ReadTxn) (r : Result TableError R.Table)
      → T.file h ≡ s.path
      → R.begin_read s.world h ≡ ok x
      → R.open_table x state_table ≡ r
      → Read s (read_table R r s)
  unfolding read_table
  read_table-Read s h x (ok t) f b o = read_key-Read s h x t (R.get t state_key) f b o refl
  read_table-Read s h x (err table_does_not_exist) f b o =
      let nothing : T.committed s.world s.path state_table state_key ≡ none =
        rw (← f) (T.read_missing s.world h state_table state_key b o) in
      (refl, inl (rw nothing))
  read_table-Read s h x (err (other e)) f b o =
      (refl, inr (table e, refl, T.open_table_fault x state_table e o))

  read_state-Read :
      (s : Store R) (h : R.Handle) → T.file h ≡ s.path → Read s (read_state R (some h) s)
  unfolding read_state
  read_state-Read s h f = elim (Result-cases (R.begin_read s.world h)) [
    | inl (x, e) ↦ rw (e, read_state) (read_table-Read s h x (R.open_table x state_table) f e refl)
    | inr (x, e) ↦ rw (e, read_state) (refl, inr (txn x, refl, T.begin_read_fault s.world h x e))
  ]

  abbrev pub Loaded : Store R → Store R × Result PersistenceError PersistedState → Type 0
  Loaded s (t, r) =
      Keeps s t × ((r ≡ answer (stored s)) ⊎ ((e : PersistenceError) × (r ≡ err e) × IsSystem e))

  read_after :
      (s : Store R) (x : Store R × Result PersistenceError (Option R.Handle))
      → Locked s x
      → Loaded s (Store.bind_to R x (read_state R))
  read_after s (t, ok none) l = absurd l
  read_after s (t, ok (some h)) l =
      let f : T.file h ≡ t.path = IsFor-some t.db h t.path l.1 l.0.still_open in
      let (same, answered) = read_state-Read t h f in (rw same l.0, rw (← l.0.same_value) answered)
  read_after s (t, err e) l = (l.0, inr (e, refl, l.1))

  -- A load leaves the stored value as it is. It answers what is stored under the key (the default
  -- state where nothing is), or fails with an error of the system or of the database.
  pub load-Loaded : (s : Store R) → IsOpen s → Loaded s (load R s)
  unfolding load
  load-Loaded s h = elim (Bool-cases (R.exists s.world s.path)) [
    | inl e ↦ rw (e, load) (read_after s (lock_db R s) (lock_db-Locked s h))
    | inr e ↦
        rw (e, load)
          (
            record { same_path = refl; same_value = refl; still_open = h },
            inl (rw (T.missing_file s.world s.path state_table state_key e)),
          )
  ]
