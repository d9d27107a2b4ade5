-- ===== src/Db/Tables.antt =====
-- The replication tables of db/schema.rs, and the helpers of db/mod.rs that write them. A
-- statement on them is a function on the tables; SQLite's own failures are not modelled.
pub mod Merge
pub mod Members
use orgsync.Base.{
  ℕ, ◌+◌, Bool, true, false, ◌&&◌, Option, none, some, List, [], ◌∷◌, Bytes, any, find, put, ◌==◌,
  above, if◌then◌else◌, nat_ord, list_ord, pair_ord,
}
use orgsync.Hlc.{Hlc, to_hex}
use orgsync.Value.{to_storage}
use orgsync.Change.{ChangeRecord, cell, deletion, as_i64, incoming_wins}

-- A row of `_p2p_change` without its `seq`.
pub record ChangeRow : Type 0 where
  pub tbl : Bytes
  pub pk : Bytes
  pub col : Bytes
  pub val : Option Bytes
  pub vtype : ℕ
  pub hlc : Bytes
  pub origin : Bytes
  pub kind : ℕ
  pub sig : Bytes

-- A row of `_p2p_cell` without its primary key.
pub record CellRow : Type 0 where
  pub val : Option Bytes
  pub vtype : ℕ
  pub hlc : Bytes
  pub origin : Bytes

-- A row of `_p2p_tombstone` without its primary key.
pub record Tombstone : Type 0 where
  pub hlc : Bytes
  pub origin : Bytes

-- Table and primary key of a row, and a column of it.
abbrev pub RowKey : Type 0
RowKey = Bytes × Bytes

abbrev pub CellKey : Type 0
CellKey = Bytes × RowKey

-- The tables that hold the replicated state. The log has its newest row in front; `next_seq` is
-- SQLite's AUTOINCREMENT.
pub record Crdt : Type 0 where
  pub changes : List (ℕ × ChangeRow)
  pub next_seq : ℕ
  pub cells : List (CellKey × CellRow)
  pub tombstones : List (RowKey × Tombstone)
  pub vv : List (Bytes × Bytes)

abbrev pub empty : Crdt
empty = record { changes = []; next_seq = 1; cells = []; tombstones = []; vv = [] }

-- The row that a record is stored as.
unfoldable pub change_row : ChangeRecord → ChangeRow
change_row rec =
    let (vtype, raw) = to_storage rec.value in
    record {
      tbl = rec.tbl;
      pk = rec.pk;
      col = rec.col;
      val = raw;
      vtype = vtype;
      hlc = to_hex rec.hlc;
      origin = rec.origin;
      kind = as_i64 rec.kind;
      sig = rec.sig;
    }

-- The unique index `_p2p_change_ident` has this row's `(origin, hlc)` already.
abbrev pub same_ident : ChangeRow → ℕ × ChangeRow → Bool
same_ident row held = (held.1.hlc == row.hlc) && (held.1.origin == row.origin)

-- The number of rows inserted comes back: 0 for a change that is held already.
unfoldable pub store_change : Crdt → ChangeRecord → Crdt × ℕ
store_change db rec =
    let row = change_row rec in
    if any (same_ident row) db.changes
    then (db, 0)
    else (record db { changes = (db.next_seq, row) ∷ db.changes; next_seq = db.next_seq + 1 }, 1)

abbrev write_cell : Crdt → ChangeRecord → Crdt
write_cell db rec =
    let (vtype, raw) = to_storage rec.value in
    record db {
      cells =
          put (rec.tbl, (rec.pk, rec.col))
            (record { val = raw; vtype = vtype; hlc = to_hex rec.hlc; origin = rec.origin })
            db.cells;
    }

unfoldable pub upsert_cell : Crdt → ChangeRecord → Crdt × Bool
upsert_cell db rec = elim (find {K = CellKey} (rec.tbl, (rec.pk, rec.col)) db.cells) [
  | none ↦ (write_cell db rec, true)
  | some old ↦
      if incoming_wins (to_hex rec.hlc) rec.origin old.hlc old.origin
      then (write_cell db rec, true)
      else (db, false)
]

abbrev write_tombstone : Crdt → ChangeRecord → Crdt
write_tombstone db rec = record db {
  tombstones =
      put (rec.tbl, rec.pk) (record { hlc = to_hex rec.hlc; origin = rec.origin }) db.tombstones;
}

unfoldable pub upsert_tombstone : Crdt → ChangeRecord → Crdt × Bool
upsert_tombstone db rec = elim (find {K = RowKey} (rec.tbl, rec.pk) db.tombstones) [
  | none ↦ (write_tombstone db rec, true)
  | some old ↦
      if incoming_wins (to_hex rec.hlc) rec.origin old.hlc old.origin
      then (write_tombstone db rec, true)
      else (db, false)
]

-- What a record does to the tables, once its row is known to be new.
unfoldable pub upsert : Crdt → ChangeRecord → Crdt
upsert db rec = elim rec.kind [
  | deletion ↦ (upsert_tombstone db rec).0
  | cell ↦ (upsert_cell db rec).0
]

-- One turn of the loop of `apply_remote` on the replication tables: a change that is held is
-- passed over.
unfoldable pub ingest : Crdt → ChangeRecord → Crdt
unfolding upsert
ingest db rec =
    let (db', inserted) = store_change db rec in if inserted == 0 then db' else upsert db' rec

-- The loop of `apply_remote` on the replication tables alone.
unfoldable pub ingest_all : Crdt → List ChangeRecord → Crdt
ingest_all crdt [] = crdt
ingest_all crdt (rec ∷ changes) = ingest_all (ingest crdt rec) changes

abbrev same_bytes : Option Bytes → Option Bytes → Bool
same_bytes none none = true
same_bytes (some a) (some b) = a == b
same_bytes _ _ = false

-- Whether the held cell has this type and these bytes.
unfoldable pub cell_matches : Crdt → CellKey → ℕ → Option Bytes → Bool
cell_matches db key vtype raw = elim (find key db.cells) [
  | none ↦ false
  | some c ↦ (c.vtype == vtype) && same_bytes c.val raw
]

unfoldable pub bump_vv : Crdt → Bytes → Hlc → Crdt
bump_vv db origin hlc = record db {
  vv =
      put origin
        (elim (find origin db.vv) [
          | none ↦ to_hex hlc
          | some held ↦ if above held (to_hex hlc) then held else to_hex hlc
        ])
        db.vv;
}
