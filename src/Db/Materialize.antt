-- ===== src/Db/Materialize.antt =====
-- `materialize` of db/mod.rs: an app row is rebuilt from the replicated state.
use orgsync.Base.{
  Bool, true, false, Option, none, some, List, [], ◌∷◌, Bytes, any, find, ◌==◌, above,
  if◌then◌else◌, nat_ord, list_ord, pair_ord,
}
use orgsync.Error.{Result, ok, ◌>>=◌}
use orgsync.Value.{SqlValue, from_storage}
use orgsync.Db.{TableSpec, Env, Db, write_row, erase_row}
use orgsync.Db.Tables.{CellKey, RowKey, CellRow, Tombstone}

abbrev pub Stamp : Type 0
Stamp = Bytes × Bytes

-- `SELECT … FROM _p2p_cell WHERE tbl = ? AND pk = ?`, with the column of each.
unfoldable pub row_cells : RowKey → List (CellKey × CellRow) → List (Bytes × CellRow)
row_cells k [] = []
row_cells k (((tbl, (pk, col)), c) ∷ cells) =
    let rest = row_cells k cells in if (tbl, pk) == k then (col, c) ∷ rest else rest

-- `Iterator::max` over the stamps of the cells.
unfoldable pub max_stamp : List (Bytes × CellRow) → Option Stamp
max_stamp [] = none
max_stamp ((col, c) ∷ cells) = elim (max_stamp cells) [
  | none ↦ some (c.hlc, c.origin)
  | some m ↦ some (if above {K = Stamp} (c.hlc, c.origin) m then (c.hlc, c.origin) else m)
]

-- A row is deleted only while its tombstone outranks every surviving cell.
abbrev pub is_deleted : Option Tombstone → Option Stamp → Bool
is_deleted (some t) (some m) = above {K = Stamp} (t.hlc, t.origin) m
is_deleted (some t) none = true
is_deleted none m = false

-- Only the columns of this build are written, each with its value decoded.
unfoldable pub known_cols : List Bytes → List (Bytes × CellRow) → Result (List (Bytes × SqlValue))
known_cols known [] = ok []
known_cols known ((col, c) ∷ cells) =
    let rest = known_cols known cells in
    if any (λ k. k == col) known
    then (do value ← from_storage c.vtype c.val; cols ← rest; ok ((col, value) ∷ cols))
    else rest

abbrev pub is_nothing : Option Tombstone → List (Bytes × CellRow) → Bool
is_nothing none [] = true
is_nothing _ _ = false

module _ {App : Type 0} (env : Env App) where
  unfoldable pub materialize : Db App → TableSpec → Bytes → Result (Db App)
  materialize db spec pk =
      let key : RowKey = (spec.name, pk) in
      let tomb = find key db.crdt.tombstones in
      let cells = row_cells key db.crdt.cells in
      if is_nothing tomb cells
      then ok db
      else if is_deleted tomb (max_stamp cells)
      then erase_row env db spec pk
      else (do cols ← known_cols spec.cols cells; write_row env db spec pk cols)
