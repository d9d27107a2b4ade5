-- ===== src/Db/Local.antt =====
-- `flush_local` of db/mod.rs: staged edits become changes of this device.
pub mod Steps
pub mod Authored
pub mod Flushed
pub mod Whole
use orgsync.Base.{
  ℕ, ◌+◌, Bool, true, false, Option, none, some, List, [], ◌∷◌, ◌++◌, Bytes, keep, find, put, any,
  max, ltb, is_gt, above, ◌==◌, if◌then◌else◌, nat_ord, list_ord, pair_ord,
}
use orgsync.Hlc
use orgsync.Hlc.{Hlc, compare_hlc}
use orgsync.Value.{SqlValue, null, to_storage}
use orgsync.Change.{ChangeKind, cell, deletion, ChangeRecord, sign_with}
use orgsync.Db.{TableSpec, Env, LocalOpKind, upserted, deleted, LocalOp, Db}
use orgsync.Db.Tables.{Crdt, RowKey, CellKey, store_change, upsert, cell_matches, bump_vv}

-- `max_id`.
unfoldable pub max_id : List LocalOp → ℕ
max_id [] = 0
max_id (op ∷ staged) = max op.id (max_id staged)

-- The rows in the order in which they were first staged.
unfoldable pub first_seen : List RowKey → List LocalOp → List RowKey
first_seen seen [] = []
first_seen seen (op ∷ staged) =
    let known = first_seen seen staged in
    let new = first_seen ((op.tbl, op.pk) ∷ seen) staged in
    if any (λ (k : RowKey). k == (op.tbl, op.pk)) seen then known else (op.tbl, op.pk) ∷ new

-- The last staged operation of each row.
unfoldable pub final_ops : List (RowKey × LocalOpKind) → List LocalOp → List (RowKey × LocalOpKind)
final_ops ops [] = ops
final_ops ops (op ∷ staged) = final_ops (put {K = RowKey} (op.tbl, op.pk) op.op ops) staged

abbrev pub final_op : List (RowKey × LocalOpKind) → RowKey → LocalOpKind
final_op ops key = elim (find key ops) [ none ↦ upserted | some op ↦ op ]

module _ {App : Type 0} (env : Env App) where
  -- A change of this device: stamped, signed if there is a key, stored and merged.
  unfoldable pub authored : Db App → Bytes → Bytes → Bytes → SqlValue → ChangeKind → ChangeRecord
  authored db tbl pk col value kind =
      let rec : ChangeRecord = record {
        tbl = tbl;
        pk = pk;
        col = col;
        value = value;
        hlc = Hlc.tick (env.now_ms db.readings) db.clock;
        origin = db.device_id;
        kind = kind;
        sig = [];
      } in
      elim db.signer [ none ↦ rec | some secret ↦ sign_with env.crypto secret rec ]

  unfoldable pub author : Db App → ChangeRecord → Db App
  author db rec = record db {
    clock = rec.hlc;
    readings = db.readings + 1;
    crdt = upsert (store_change db.crdt rec).0 rec;
  }

  -- The columns of a row, in the order of the table's.
  unfoldable pub flush_cols :
      Db App → Bytes → Bytes → List (Bytes × SqlValue) → List Bytes → Db App × List ChangeRecord
  unfolding authored author
  flush_cols db tbl pk values [] = (db, [])
  flush_cols db tbl pk values (col ∷ cols) = elim (find col values) [
    | none ↦ flush_cols db tbl pk values cols
    | some v ↦
        let (vtype, raw) = to_storage v in
        let same = flush_cols db tbl pk values cols in
        let rec = authored db tbl pk col v cell in
        let rest = flush_cols (author db rec) tbl pk values cols in
        if cell_matches db.crdt (tbl, (pk, col)) vtype raw then same else (rest.0, rec ∷ rest.1)
  ]

  -- A row that is there is replicated as it is, whatever was staged last.
  unfoldable pub flush_row : Db App → TableSpec → RowKey → LocalOpKind → Db App × List ChangeRecord
  unfolding flush_cols
  flush_row db spec (tbl, pk) op = elim (env.app_tables.read_row db.app spec pk) [
    | some values ↦ flush_cols db tbl pk values spec.cols
    | none ↦ elim op [
      | upserted ↦ (db, [])
      | deleted ↦ let rec = authored db tbl pk [] null deletion in (author db rec, rec ∷ [])
    ]
  ]

  unfoldable pub flush_rows :
      Db App → List (RowKey × LocalOpKind) → List RowKey → Db App × List ChangeRecord
  unfolding flush_row
  flush_rows db ops [] = (db, [])
  flush_rows db ops ((tbl, pk) ∷ order) = elim (find tbl db.tables) [
    | none ↦ flush_rows db ops order
    | some spec ↦
        let one = flush_row db spec (tbl, pk) (final_op ops (tbl, pk)) in
        let rest = flush_rows one.0 ops order in (rest.0, one.1 ++ rest.1)
  ]

  -- The greatest stamp of the changes.
  unfoldable pub max_hlc : Hlc → List ChangeRecord → Hlc
  max_hlc m [] = m
  max_hlc m (rec ∷ out) = max_hlc (if is_gt (compare_hlc m rec.hlc) then m else rec.hlc) out

  unfoldable pub bump_own : Db App → List ChangeRecord → Db App
  unfolding max_hlc
  bump_own db [] = db
  bump_own db (rec ∷ out) = record db { crdt = bump_vv db.crdt db.device_id (max_hlc rec.hlc out) }

  -- With nothing staged nothing is done.
  unfoldable pub flush_staged : Db App → List LocalOp → Db App × List ChangeRecord
  unfolding max_id first_seen final_ops flush_rows bump_own
  flush_staged db [] = (db, [])
  flush_staged db (op ∷ staged) =
      let all = op ∷ staged in
      let last = max_id all in
      let (db', out) = flush_rows db (final_ops [] all) (first_seen [] all) in
      (
        bump_own (record db' { local_ops = keep (λ (o : LocalOp). ltb last o.id) db'.local_ops })
            out,
        out,
      )

  unfoldable pub flush_local : Db App → Db App × List ChangeRecord
  unfolding flush_staged
  flush_local db = flush_staged db db.local_ops
