-- ===== src/Persistence/Memory.antt =====
-- A database in memory that meets the assumptions, and never fails: the witnesses run on it.
use Prim.Native.String.{String}
use text.Mathlib.Text.{◌==◌ as str_eq}
use text.Mathlib.TextPositions.{eq_refl}
use alarm_daemon.Base.{
  ◌≡◌, refl, Bool, true, false, ◌&&◌, Option, none, some, Result, ok, err, if◌then◌else◌,
  Bool-cases, inl, inr, ap, sym, ◌∙◌,
}
use alarm_daemon.Base.Bytes.{Bytes, bytes_eq, bytes_eq_iff}
use alarm_daemon.Persistence.Redb.{Redb, IsTransactional, TableError}

abbrev pub Cells : Type 0
Cells = String → String → Option Bytes

-- The files that there are, with their tables.
abbrev pub Disk : Type 0
Disk = Bytes → Option Cells

abbrev pub lookup : Option Cells → String → String → Option Bytes
lookup none t k = none
lookup (some c) t k = c t k

abbrev present : Option Cells → Bool
present none = false
present (some c) = true

abbrev created : Option Cells → Option Cells
created none = some (λ _ _. none)
created (some c) = some c

abbrev put : Disk → Bytes → Option Cells → Disk
put d f c g = if bytes_eq f g then c else d g

abbrev pub memory : Redb
memory = record {
  World = Disk;
  Handle = Bytes;
  ReadTxn = Option Cells;
  Table = String → Option Bytes;
  WriteTxn = Bytes × Cells;
  WriteTable = record { file : Bytes; cells : Cells; name : String };
  exists = λ d f. present (d f);
  create_dir_all = λ d f. (d, ok tt);
  create = λ d f. (put d f (created (d f)), ok f);
  begin_read = λ d h. ok (d h);
  open_table = λ c t. ok (lookup c t);
  get = λ c k. ok (c k);
  begin_write = λ d h. ok (h, lookup (d h));
  open_table_mut = λ x t. ok (record { file = x.0; cells = x.1; name = t });
  insert =
      λ t k v. ok (t.file, λ u j. if str_eq t.name u && str_eq k j then some v else t.cells u j);
  commit = λ d y. (put d y.0 (some y.1), ok tt);
}

created-lookup : (c : Option Cells) (t k : String) → lookup (created c) t k ≡ lookup c t k
created-lookup none t k = refl
created-lookup (some c) t k = refl

create_keeps :
    (d : Disk) (g f : Bytes) (t k : String)
    → lookup (put d g (created (d g)) f) t k ≡ lookup (d f) t k
create_keeps d g f t k = elim (Bool-cases (bytes_eq g f)) [
  | inl e ↦ rw (e, (bytes_eq_iff g f).0 e) (created-lookup (d f) t k)
  | inr e ↦ rw e
]

missing : (c : Option Cells) (t k : String) → present c ≡ false → lookup c t k ≡ none
missing none t k e = refl
missing (some c) t k e = cc

ok_injective : {A : Type 0} {a b : A} → ◌≡◌ {A = Result String A} (ok a) (ok b) → a ≡ b
ok_injective e = cc

table_injective : {A : Type 0} {a b : A} → ◌≡◌ {A = Result TableError A} (ok a) (ok b) → a ≡ b
table_injective e = cc

abbrev write : Bytes → Cells → String → String → Bytes → Bytes × Cells
write h c t k v = (h, λ u j. if str_eq t u && str_eq k j then some v else c u j)

written :
    (d : Disk) (h : Bytes) (c : Cells) (t k : String) (v : Bytes)
    → let y = write h c t k v in lookup (put d y.0 (some y.1) h) t k ≡ some v
written d h c t k v = rw ((bytes_eq_iff h h).1 refl, eq_refl t, eq_refl k)

commit_lem :
    (d : Disk) (h : Bytes) (t k : String) (v : Bytes) {x y : Bytes × Cells}
    {table : memory.WriteTable}
    → memory.begin_write d h ≡ ok x
    → memory.open_table_mut x t ≡ ok table
    → memory.insert table k v ≡ ok y
    → lookup (put d y.0 (some y.1) h) t k ≡ some v
commit_lem d h t k v p q r =
    rw (← ok_injective r, ← ok_injective q, ← ok_injective p) (written d h (lookup (d h)) t k v)

pub memory-IsTransactional : IsTransactional memory
memory-IsTransactional = record {
  Faulty = ⊥;
  dir_fault = λ w d e h. cc;
  create_fault = λ w f e h. cc;
  begin_read_fault = λ w h e p. cc;
  open_table_fault = λ x t e p. cc;
  get_fault = λ t k e p. cc;
  begin_write_fault = λ w h e p. cc;
  open_table_mut_fault = λ x t e p. cc;
  insert_fault = λ t k v e p. cc;
  commit_fault = λ w y e p. cc;
  committed = λ d f t k. lookup (d f) t k;
  file = λ h. h;
  missing_file = λ w f t k e. missing (w f) t k e;
  dir_keeps = λ w d f t k. refl;
  create_keeps = λ w g f t k. create_keeps w g f t k;
  created_file = λ w g h e. cc;
  read_value = λ w h t k p q r.
      sym (ok_injective r)
      ∙ ap (λ (c : String → Option Bytes). c k) (sym (table_injective q))
      ∙ ap (λ (c : Option Cells). lookup c t k) (sym (ok_injective p));
  read_missing = λ w h t k p q. cc;
  commit_writes = λ w h t k v p q r e. commit_lem w h t k v p q r;
  commit_aborts = λ w y e f t k p. cc;
}

pub memory_sound : ¬ memory-IsTransactional.Faulty
unfolding memory-IsTransactional
memory_sound = λ x. x

-- The same database over a disk that refuses each commit.
abbrev pub refusing : Redb
refusing = record memory { commit = λ d y. (d, err "disk full") }

pub refusing-IsTransactional : IsTransactional refusing
unfolding memory-IsTransactional
refusing-IsTransactional = record {
  Faulty = Unit {0};
  dir_fault = λ w d e h. tt;
  create_fault = λ w f e h. tt;
  begin_read_fault = λ w h e p. tt;
  open_table_fault = λ x t e p. tt;
  get_fault = λ t k e p. tt;
  begin_write_fault = λ w h e p. tt;
  open_table_mut_fault = λ x t e p. tt;
  insert_fault = λ t k v e p. tt;
  commit_fault = λ w y e p. tt;
  committed = memory-IsTransactional.committed;
  file = memory-IsTransactional.file;
  missing_file = memory-IsTransactional.missing_file;
  dir_keeps = memory-IsTransactional.dir_keeps;
  create_keeps = memory-IsTransactional.create_keeps;
  created_file = memory-IsTransactional.created_file;
  read_value = memory-IsTransactional.read_value;
  read_missing = memory-IsTransactional.read_missing;
  commit_writes = λ w h t k v p q r e. cc;
  commit_aborts = λ w y e f t k p. refl;
}

pub memory_empty :
    (f : Bytes) (t k : String) → memory-IsTransactional.committed (λ g. none) f t k ≡ none
unfolding memory-IsTransactional
memory_empty f t k = refl
