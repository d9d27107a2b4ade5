-- ===== src/Db/Open.antt =====
-- Opening a replica in db/mod.rs, and bringing a table into replication. The columns of a table in
-- `_p2p_synced_table` are kept as a list and not as its JSON.
pub mod Resumed
pub mod Registered
use orgsync.Base.{
  ℕ, ◌+◌, Bool, true, false, not, Option, none, some, List, [], ◌∷◌, ◌++◌, map, Bytes, codes, keep,
  any, put, ltb, above, ◌==◌, if◌then◌else◌, nat_ord, list_ord, pair_ord,
}
use orgsync.Error.{Result, ok, err, schema, ◌>>=◌}
use orgsync.Hlc.{Hlc, zero_hlc, from_hex}
use orgsync.Db.{TableSpec, LocalOp, upserted, Db}
use orgsync.Db.Tables.{ChangeRow, CellKey, CellRow, RowKey, Crdt}

-- What SQLite tells about the app's tables: the columns of a table with their place in the primary
-- key, the keys of the rows of a table, and the app's schema being laid out.
pub record Catalog (App : Type 0) : Type 0 where
  pub table_info : App → Bytes → List (Bytes × ℕ)
  pub row_keys : App → TableSpec → List Bytes
  pub app_schema : App → App

-- The file of a replica, without `_p2p_meta` and `_p2p_peer`.
pub record File (App : Type 0) : Type 0 where
  pub synced : List (Bytes × TableSpec)
  pub guard : ℕ
  pub local_ops : List LocalOp
  pub next_op : ℕ
  pub crdt : Crdt
  pub app : App

abbrev greater : Option Bytes → Bytes → Bytes
greater none h = h
greater (some m) h = if above h m then h else m

-- `SELECT MAX(hlc) .. WHERE origin = ?1`.
unfoldable pub max_hlc_of : Bytes → List ChangeRow → Option Bytes
max_hlc_of device [] = none
max_hlc_of device (row ∷ log) =
    let rest = max_hlc_of device log in
    if row.origin == device then some (greater rest row.hlc) else rest

-- The clock resumes from it.
unfoldable pub resumed : Option Bytes → Hlc
resumed none = zero_hlc
resumed (some h) = elim (from_hex h) [ none ↦ zero_hlc | some stamp ↦ stamp ]

abbrev is_key : Bytes × ℕ → Bool
is_key column = ltb 0 column.1

-- The only column of the primary key, or an error.
unfoldable pub only_key : List (Bytes × ℕ) → Result Bytes
only_key (key ∷ []) = ok key.0
only_key _ = err schema

abbrev names : List (Bytes × ℕ) → List Bytes
names = map (λ c. c.0)

abbrev other_cols : Bytes → List (Bytes × ℕ) → List Bytes
other_cols pk info = keep (λ (c : Bytes). not (c == pk)) (names info)

-- What `register_table` asks of the table before it writes anything.
unfoldable pub check_table : Bytes → Bytes → List (Bytes × ℕ) → Result TableSpec
unfolding only_key
check_table tbl pk_col [] = err schema
check_table tbl pk_col (column ∷ info) = do
  found ← only_key (keep is_key (column ∷ info))
  if not (found == pk_col)
      then err schema
      else ok (record { name = tbl; pk_col = found; cols = other_cols found (column ∷ info) })

-- `EXISTS (SELECT 1 FROM _p2p_cell ..)`.
unfoldable pub has_cells : Crdt → Bytes → Bytes → Bool
has_cells db tbl pk = any (λ (c : CellKey × CellRow). c.0.1 == (tbl, pk)) db.cells

module _ {App : Type 0} where
  abbrev pub staged_op : Db App → Bytes → Bytes → LocalOp
  staged_op db tbl pk = record { id = db.next_op; tbl = tbl; pk = pk; op = upserted }

  -- `INSERT INTO _p2p_local_ops ..` of one row.
  abbrev pub stage : Db App → Bytes → Bytes → Db App
  stage db tbl pk = record db {
    local_ops = db.local_ops ++ (staged_op db tbl pk ∷ []);
    next_op = db.next_op + 1;
  }

  -- Rows that are there already and have no cell are staged.
  unfoldable pub adopt : Db App → Bytes → List Bytes → Db App
  unfolding has_cells
  adopt db tbl [] = db
  adopt db tbl (pk ∷ keys) =
      let staged = adopt (stage db tbl pk) tbl keys in
      let passed = adopt db tbl keys in if has_cells db.crdt tbl pk then passed else staged

  module _ (cat : Catalog App) where
    unfoldable pub register_table : Db App → Bytes → Bytes → Result (Db App)
    unfolding check_table adopt
    register_table db tbl pk_col = do
      spec ← check_table tbl pk_col (cat.table_info db.app tbl)
      let adopted = adopt db tbl (cat.row_keys db.app spec)
      ok (record adopted { tables = put tbl spec adopted.tables })

    -- The replica before the tables that ship with the node are registered.
    unfoldable pub loaded : File App → Bytes → ℕ → Db App
    unfolding max_hlc_of resumed
    loaded file device readings = record {
      device_id = device;
      signer = none;
      require_signatures = false;
      clock = resumed (max_hlc_of device (map (λ e. e.1) file.crdt.changes));
      readings = readings;
      tables = file.synced;
      guard = file.guard;
      local_ops = file.local_ops;
      next_op = file.next_op;
      crdt = file.crdt;
      app = cat.app_schema file.app;
    }

    -- `readings` is the number of readings of the clock so far.
    unfoldable pub from_connection : File App → Bytes → ℕ → Result (Db App)
    unfolding loaded register_table
    from_connection file device readings = do
      db ← register_table (loaded file device readings) (codes "messages") (codes "id")
      register_table db (codes "records") (codes "id")

    -- `open_authenticated`, for the secret of a device with this id.
    unfoldable pub open_authenticated : File App → Bytes → Bytes → ℕ → Result (Db App)
    unfolding from_connection
    open_authenticated file device secret readings = do
      db ← from_connection file device readings
      ok (record db { signer = some secret; require_signatures = true })
