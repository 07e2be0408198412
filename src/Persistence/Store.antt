-- ===== src/Persistence/Store.antt =====
-- `Persistence` of alarm-daemon/src/daemon/persistence/mod.rs: the lazily opened database handle,
-- and `lock_db`, `load` and `save` as steps on it and on the world that the database lives in.
use mathlib.Core.List.{reverse}
use alarm_daemon.Base.{
  ℕ, Bool, false, Option, none, some, [], ◌∷◌, String, Result, ok, err, map_err, ◌==◌,
  if◌then◌else◌, ◌&&◌, ◌%◌, ◌^◌,
}
use alarm_daemon.Base.Bytes.{Bytes}
use alarm_daemon.Base.Int.{ℤ, leb_ℤ, of_word}
use alarm_daemon.State.{PersistedState, StartupRecovery, default_persisted}
use alarm_daemon.Persistence.Codec.{
  PersistenceError, io, database, txn, table, commit, read, corrupted, handle_unavailable,
  encode_state, decode_state,
}
use alarm_daemon.Persistence.Redb.{Redb, TableError, table_does_not_exist, other}

abbrev pub state_table : String
state_table = "state"

abbrev pub state_key : String
state_key = "v1"

-- `Path::parent`: nothing for the root and for the empty path.
skip_slashes : Bytes → Bytes
skip_slashes [] = []
skip_slashes (b ∷ s) = let rest = skip_slashes s in if b == b'/' then rest else b ∷ s

skip_name : Bytes → Bytes
skip_name [] = []
skip_name (b ∷ s) = let rest = skip_name s in if b == b'/' then b ∷ s else rest

parent_of : Bytes → Bytes → Option Bytes
parent_of [] _ = none
parent_of (b ∷ s) [] = some []
parent_of (b ∷ s) (c ∷ t) = elim (reverse (skip_slashes (c ∷ t))) [
  | [] ↦ some (b'/' ∷ [])
  | d ∷ dir ↦ some (d ∷ dir)
]

unfoldable pub parent : Bytes → Option Bytes
unfolding skip_slashes skip_name parent_of
parent path = let name = skip_slashes (reverse path) in parent_of name (skip_name name)

module _ (R : Redb) where
  open R use {World, Handle}

  -- A `Persistence`, its `Mutex<Option<Database>>` opened up, with the world around it.
  pub record Store : Type 0 where
    pub path : Bytes
    pub db : Option Handle
    pub world : World

  -- `Persistence::from_path`, in a world that it leaves alone.
  abbrev pub from_path : Bytes → World → Store
  from_path path world = record { path = path; db = none; world = world }

  abbrev pub M : Type 0 → Type 0
  M A = Store → Store × Result PersistenceError A

  abbrev pub bind_to :
      {A B : Type 0}
      → Store × Result PersistenceError A
      → (A → M B)
      → Store × Result PersistenceError B
  bind_to (s, ok a) f = f a s
  bind_to (s, err e) f = (s, err e)

  infixl 5 ◌>>=◌ ◌>>◌
  abbrev pub ◌>>=◌ : {A B : Type 0} → M A → (A → M B) → M B
  ◌>>=◌ m f s = bind_to (m s) f

  abbrev pub ◌>>◌ : {B : Type 0} → M (Unit {0}) → M B → M B
  ◌>>◌ m k s = bind_to (m s) (λ _. k)

  abbrev pub pure : {A : Type 0} → A → M A
  pure a s = (s, ok a)

  -- `?` on a fallible call that leaves the world alone, and on one that may change it.
  abbrev pub try : {A : Type 0} → (World → Result PersistenceError A) → M A
  try f s = (s, f s.world)

  abbrev pub try_io :
      {A : Type 0} → (World → World × Result String A) → (String → PersistenceError) → M A
  try_io f e s = let (w, r) = f s.world in (record s { world = w }, map_err r e)

  unfoldable pub make_parent : M (Unit {0})
  make_parent s = elim (parent s.path) [
    | none ↦ (s, ok tt)
    | some dir ↦ try_io (λ w. R.create_dir_all w dir) io s
  ]

  unfoldable pub create_db : M (Option Handle)
  create_db s = (try_io (λ w. R.create w s.path) database >>= cache) s
    where
      cache : Handle → M (Option Handle)
      cache h s = (record s { db = some h }, ok (some h))

  unfoldable pub lock_with : Option Handle → M (Option Handle)
  lock_with (some h) = pure (some h)
  lock_with none = do make_parent; create_db

  -- The guard's content once `lock_db` returns.
  unfoldable pub lock_db : M (Option Handle)
  unfolding lock_with make_parent create_db
  lock_db s = lock_with s.db s

  unfoldable pub read_key : R.Table → M PersistedState
  read_key t = do
    raw ← try (λ _. map_err (R.get t state_key) read)
    elim raw [ none ↦ pure default_persisted | some bytes ↦ try (λ _. decode_state bytes) ]

  unfoldable pub read_table : Result TableError R.Table → M PersistedState
  read_table (ok t) = read_key t
  read_table (err table_does_not_exist) = pure default_persisted
  read_table (err (other e)) = try (λ _. err (table e))

  unfoldable pub read_state : Option Handle → M PersistedState
  read_state none = pure default_persisted
  read_state (some h) = do
    x ← try (λ w. map_err (R.begin_read w h) txn)
    read_table (R.open_table x state_table)

  unfoldable pub load : M PersistedState
  unfolding read_state read_table read_key
  load s =
      if R.exists s.world s.path
      then (do guard ← lock_db; read_state guard) s
      else (s, ok default_persisted)

  unfoldable pub write_state : PersistedState → Option Handle → M (Unit {0})
  write_state state none = try (λ _. err (corrupted handle_unavailable))
  write_state state (some h) = do
    x ← try (λ w. map_err (R.begin_write w h) txn)
    t ← try (λ _. map_err (R.open_table_mut x state_table) table)
    y ← try (λ _. map_err (R.insert t state_key (encode_state state)) read)
    try_io (λ w. R.commit w y) commit

  unfoldable pub save : PersistedState → M (Unit {0})
  unfolding write_state
  save state = do guard ← lock_db; write_state state guard

-- The clock in milliseconds since the epoch, nothing if it stands before: `duration_since`,
-- `unwrap_or_default` and `as_millis() as i64`, which keeps the lowest 64 bits.
unfoldable pub now_ms : Option ℕ → ℤ
unfolding of_word
now_ms none = of_word 0
now_ms (some ms) = of_word (ms % 2 ^ 64)

-- `is_some_and(|t| t <= now_ms)`
abbrev pub is_past : ℤ → Option ℤ → Bool
is_past now none = false
is_past now (some t) = leb_ℤ t now

unfoldable pub evaluate_recovery : Option ℕ → PersistedState → StartupRecovery
unfolding now_ms
evaluate_recovery clock state = record {
  missed_while_down = state.armed && is_past (now_ms clock) state.next_fire_unix_ms;
}
