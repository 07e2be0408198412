-- ===== src/Persistence/Redb.antt =====
-- The database library `redb` and the file system below it, as the daemon calls them: a parameter.
use alarm_daemon.Base.{◌≡◌, Bool, false, Option, none, some, String, Result, ok, err}
use alarm_daemon.Base.Bytes.{Bytes}

-- `redb::TableError`, its other variants by their message.
pub data TableError : Type 0 where
  table_does_not_exist : TableError
  other : String → TableError

pub record Redb : Type 1 where
  pub World : Type 0
  pub Handle : Type 0
  pub ReadTxn : Type 0
  pub Table : Type 0
  pub WriteTxn : Type 0
  pub WriteTable : Type 0
  -- `Path::exists`, `fs::create_dir_all`, `Database::create`
  pub exists : World → Bytes → Bool
  pub create_dir_all : World → Bytes → World × Result String (Unit {0})
  pub create : World → Bytes → World × Result String Handle
  pub begin_read : World → Handle → Result String ReadTxn
  pub open_table : ReadTxn → String → Result TableError Table
  pub get : Table → String → Result String (Option Bytes)
  pub begin_write : World → Handle → Result String WriteTxn
  pub open_table_mut : WriteTxn → String → Result String WriteTable
  pub insert : WriteTable → String → Bytes → Result String WriteTxn
  pub commit : World → WriteTxn → World × Result String (Unit {0})

-- What redb documents: a read transaction sees what was committed last, and a commit is atomic.
-- `committed w f t k` is the value that file `f` holds for key `k` of table `t`.
-- `Faulty` says that some call may fail: nothing in a run over a sound disk.
pub record IsTransactional (R : Redb) : Type 1 where
  pub Faulty : Type 0
  pub dir_fault : (w : R.World) (d : Bytes) (e : String) → (R.create_dir_all w d).1 ≡ err e → Faulty
  pub create_fault : (w : R.World) (f : Bytes) (e : String) → (R.create w f).1 ≡ err e → Faulty
  pub begin_read_fault :
      (w : R.World) (h : R.Handle) (e : String) → R.begin_read w h ≡ err e → Faulty
  pub open_table_fault :
      (x : R.ReadTxn) (t : String) (e : String) → R.open_table x t ≡ err (other e) → Faulty
  pub get_fault : (t : R.Table) (k : String) (e : String) → R.get t k ≡ err e → Faulty
  pub begin_write_fault :
      (w : R.World) (h : R.Handle) (e : String) → R.begin_write w h ≡ err e → Faulty
  pub open_table_mut_fault :
      (x : R.WriteTxn) (t : String) (e : String) → R.open_table_mut x t ≡ err e → Faulty
  pub insert_fault :
      (t : R.WriteTable) (k : String) (v : Bytes) (e : String) → R.insert t k v ≡ err e → Faulty
  pub commit_fault : (w : R.World) (y : R.WriteTxn) (e : String) → (R.commit w y).1 ≡ err e → Faulty
  pub committed : R.World → Bytes → String → String → Option Bytes
  pub file : R.Handle → Bytes
  pub missing_file :
      (w : R.World) (f : Bytes) (t k : String) → R.exists w f ≡ false → committed w f t k ≡ none
  pub dir_keeps :
      (w : R.World) (d f : Bytes) (t k : String)
      → committed (R.create_dir_all w d).0 f t k ≡ committed w f t k
  pub create_keeps :
      (w : R.World) (g f : Bytes) (t k : String)
      → committed (R.create w g).0 f t k ≡ committed w f t k
  pub created_file : (w : R.World) (g : Bytes) (h : R.Handle) → (R.create w g).1 ≡ ok h → file h ≡ g
  pub read_value :
      (w : R.World) (h : R.Handle) (t k : String) {x : R.ReadTxn} {table : R.Table}
      {v : Option Bytes}
      → R.begin_read w h ≡ ok x
      → R.open_table x t ≡ ok table
      → R.get table k ≡ ok v
      → v ≡ committed w (file h) t k
  pub read_missing :
      (w : R.World) (h : R.Handle) (t k : String) {x : R.ReadTxn}
      → R.begin_read w h ≡ ok x
      → R.open_table x t ≡ err table_does_not_exist
      → committed w (file h) t k ≡ none
  pub commit_writes :
      (w : R.World) (h : R.Handle) (t k : String) (v : Bytes) {x y : R.WriteTxn}
      {table : R.WriteTable}
      → R.begin_write w h ≡ ok x
      → R.open_table_mut x t ≡ ok table
      → R.insert table k v ≡ ok y
      → (R.commit w y).1 ≡ ok tt
      → committed (R.commit w y).0 (file h) t k ≡ some v
  pub commit_aborts :
      (w : R.World) (y : R.WriteTxn) (e : String) (f : Bytes) (t k : String)
      → (R.commit w y).1 ≡ err e
      → committed (R.commit w y).0 f t k ≡ committed w f t k
