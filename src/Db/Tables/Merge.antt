-- ===== src/Db/Tables/Merge.antt =====
-- Each cell and each tombstone is the last writer's among all the changes in the log.
use orgsync.Base.{
  ◌+◌, ◌≡◌, refl, ap, ◌∙◌, Bool, false, ◌&&◌, Option, none, some, List, ◌∷◌, map, Bytes, any, find,
  find-put, find_held, ◌==◌, ==_iff, above, winner, better, if◌then◌else◌, nat_ord, list_ord,
  pair_ord, arith, ◌⊎◌, inl, inr, Bool-cases,
}
use mathlib.Core.Option
use orgsync.Change.{ChangeKind, ChangeRecord, cell, deletion}
use orgsync.Db.Tables.{
  ChangeRow, CellRow, Tombstone, RowKey, CellKey, Crdt, change_row, same_ident, store_change,
  upsert_cell, upsert_tombstone, upsert, ingest,
}

-- The rows of the log.
abbrev pub rows : Crdt → List ChangeRow
rows db = map (λ e. e.1) db.changes

abbrev pub stamp : ChangeRow → Bytes × Bytes
stamp r = (r.hlc, r.origin)

abbrev pub at_cell : CellKey → ChangeRow → Bool
at_cell k r = (r.kind == 0) && ((r.tbl, (r.pk, r.col)) == k)

abbrev pub at_row : RowKey → ChangeRow → Bool
at_row k r = (r.kind == 1) && ((r.tbl, r.pk) == k)

abbrev pub cell_of : ChangeRow → CellRow
cell_of r = record { val = r.val; vtype = r.vtype; hlc = r.hlc; origin = r.origin }

abbrev pub tombstone_of : ChangeRow → Tombstone
tombstone_of r = record { hlc = r.hlc; origin = r.origin }

-- The specification of the state: every cell and tombstone is its last writer's.
pub record IsMerged (db : Crdt) : Type 0 where
  pub cells :
      (k : CellKey) → find k db.cells ≡ Option.map cell_of (winner stamp (at_cell k) (rows db))
  pub tombstones :
      (k : RowKey)
      → find k db.tombstones ≡ Option.map tombstone_of (winner stamp (at_row k) (rows db))

abbrev cell_key : ChangeRecord → CellKey
cell_key rec = (rec.tbl, (rec.pk, rec.col))

abbrev row_key : ChangeRecord → RowKey
row_key rec = (rec.tbl, rec.pk)

find-upsert_cell :
    (db : Crdt) (rec : ChangeRecord) (j : CellKey) (w : Option ChangeRow)
    → find (cell_key rec) db.cells ≡ Option.map cell_of w
    → find j (upsert_cell db rec).0.cells ≡ (
        if cell_key rec == j
        then some (cell_of (better stamp (change_row rec) w))
        else find j db.cells)
unfolding upsert_cell change_row
find-upsert_cell db rec j none held = rw (held, upsert_cell) (find-put (cell_key rec) j _ db.cells)
find-upsert_cell db rec j (some w) held =
    elim (Bool-cases (above (stamp (change_row rec)) (stamp w))) [
      | inl wins ↦ rw (held, upsert_cell, wins) (find-put (cell_key rec) j _ db.cells)
      | inr loses ↦ rw (held, upsert_cell, loses) (find_held (cell_key rec) j db.cells held)
    ]

find-upsert_tombstone :
    (db : Crdt) (rec : ChangeRecord) (j : RowKey) (w : Option ChangeRow)
    → find (row_key rec) db.tombstones ≡ Option.map tombstone_of w
    → find j (upsert_tombstone db rec).0.tombstones ≡ (
        if row_key rec == j
        then some (tombstone_of (better stamp (change_row rec) w))
        else find j db.tombstones)
unfolding upsert_tombstone change_row
find-upsert_tombstone db rec j none held =
    rw (held, upsert_tombstone) (find-put (row_key rec) j _ db.tombstones)
find-upsert_tombstone db rec j (some w) held =
    elim (Bool-cases (above (stamp (change_row rec)) (stamp w))) [
      | inl wins ↦ rw (held, upsert_tombstone, wins) (find-put (row_key rec) j _ db.tombstones)
      | inr loses ↦
          rw (held, upsert_tombstone, loses) (find_held (row_key rec) j db.tombstones held)
    ]

kind-cases : (k : ChangeKind) → (k ≡ cell) ⊎ (k ≡ deletion)
kind-cases cell = inl refl
kind-cases deletion = inr refl

-- What the upserts leave alone.
pub changes-upsert : (db : Crdt) (rec : ChangeRecord) → (upsert db rec).changes ≡ db.changes
unfolding upsert upsert_cell upsert_tombstone
changes-upsert db rec = ground arith

cells-upsert_tombstone :
    (db : Crdt) (rec : ChangeRecord) → (upsert_tombstone db rec).0.cells ≡ db.cells
unfolding upsert_tombstone
cells-upsert_tombstone db rec = ground arith

tombstones-upsert_cell :
    (db : Crdt) (rec : ChangeRecord) → (upsert_cell db rec).0.tombstones ≡ db.tombstones
unfolding upsert_cell
tombstones-upsert_cell db rec = ground arith

upsert_of_cell :
    (db : Crdt) (rec : ChangeRecord) → rec.kind ≡ cell → upsert db rec ≡ (upsert_cell db rec).0
unfolding upsert
upsert_of_cell db rec e = ground arith

upsert_of_deletion :
    (db : Crdt) (rec : ChangeRecord)
    → rec.kind ≡ deletion
    → upsert db rec ≡ (upsert_tombstone db rec).0
unfolding upsert
upsert_of_deletion db rec e = ground arith

module _ (rec : ChangeRecord) where
  at_cell_of_cell :
      (k : CellKey) → rec.kind ≡ cell → at_cell k (change_row rec) ≡ (cell_key rec == k)
  unfolding change_row
  at_cell_of_cell k e = rw e

  at_cell_of_deletion : (k : CellKey) → rec.kind ≡ deletion → at_cell k (change_row rec) ≡ false
  unfolding change_row
  at_cell_of_deletion k e = rw e

  at_row_of_cell : (k : RowKey) → rec.kind ≡ cell → at_row k (change_row rec) ≡ false
  unfolding change_row
  at_row_of_cell k e = rw e

  at_row_of_deletion :
      (k : RowKey) → rec.kind ≡ deletion → at_row k (change_row rec) ≡ (row_key rec == k)
  unfolding change_row
  at_row_of_deletion k e = rw e

-- The last writer after one more row.
winner_cons :
    (p : ChangeRow → Bool) (r : ChangeRow) (l : List ChangeRow)
    → winner stamp p (r ∷ l)
      ≡ (if p r then some (better stamp r (winner stamp p l)) else winner stamp p l)
unfolding winner
winner_cons p r l = refl

-- The tables with the row of a new record in the log.
abbrev pub logged : Crdt → ChangeRecord → Crdt
logged db rec = record db {
  changes = (db.next_seq, change_row rec) ∷ db.changes;
  next_seq = db.next_seq + 1;
}

-- One more row in front of the log, put into the cell or the tombstone that it is about.
module _ (db : Crdt) (rec : ChangeRecord) (merged : IsMerged db) where
  cells_of_cell :
      (k : CellKey)
      → rec.kind ≡ cell
      → find k (upsert (logged db rec) rec).cells
        ≡ Option.map cell_of (winner stamp (at_cell k) (change_row rec ∷ rows db))
  cells_of_cell k e =
      ap (λ (d : Crdt). find k d.cells) (upsert_of_cell (logged db rec) rec e)
      ∙ find-upsert_cell (logged db rec) rec k _ (merged.cells (cell_key rec))
      ∙ elim (Bool-cases (cell_key rec == k)) [
        | inl same ↦
            rw (same, winner_cons, at_cell_of_cell rec k e, same, (==_iff (cell_key rec) k).0 same)
        | inr other ↦ rw (other, winner_cons, at_cell_of_cell rec k e, other) (merged.cells k)
      ]

  tombstones_of_deletion :
      (k : RowKey)
      → rec.kind ≡ deletion
      → find k (upsert (logged db rec) rec).tombstones
        ≡ Option.map tombstone_of (winner stamp (at_row k) (change_row rec ∷ rows db))
  tombstones_of_deletion k e =
      ap (λ (d : Crdt). find k d.tombstones) (upsert_of_deletion (logged db rec) rec e)
      ∙ find-upsert_tombstone (logged db rec) rec k _ (merged.tombstones (row_key rec))
      ∙ elim (Bool-cases (row_key rec == k)) [
        | inl same ↦
            rw
              (same, winner_cons, at_row_of_deletion rec k e, same, (==_iff (row_key rec) k).0 same)
        | inr other ↦
            rw (other, winner_cons, at_row_of_deletion rec k e, other) (merged.tombstones k)
      ]

  cells_of_deletion :
      (k : CellKey)
      → rec.kind ≡ deletion
      → find k (upsert (logged db rec) rec).cells
        ≡ Option.map cell_of (winner stamp (at_cell k) (change_row rec ∷ rows db))
  cells_of_deletion k e =
      ap (λ (d : Crdt). find k d.cells) (upsert_of_deletion (logged db rec) rec e)
      ∙ ap (find k) (cells-upsert_tombstone (logged db rec) rec)
      ∙ rw (winner_cons, at_cell_of_deletion rec k e) (merged.cells k)

  tombstones_of_cell :
      (k : RowKey)
      → rec.kind ≡ cell
      → find k (upsert (logged db rec) rec).tombstones
        ≡ Option.map tombstone_of (winner stamp (at_row k) (change_row rec ∷ rows db))
  tombstones_of_cell k e =
      ap (λ (d : Crdt). find k d.tombstones) (upsert_of_cell (logged db rec) rec e)
      ∙ ap (find k) (tombstones-upsert_cell (logged db rec) rec)
      ∙ rw (winner_cons, at_row_of_cell rec k e) (merged.tombstones k)

  pub upsert-IsMerged : IsMerged (upsert (logged db rec) rec)
  upsert-IsMerged = elim (kind-cases rec.kind) [
    | inl e ↦ record {
      cells = λ k. rw (changes-upsert (logged db rec) rec) (cells_of_cell k e);
      tombstones = λ k. rw (changes-upsert (logged db rec) rec) (tombstones_of_cell k e);
    }
    | inr e ↦ record {
      cells = λ k. rw (changes-upsert (logged db rec) rec) (cells_of_deletion k e);
      tombstones = λ k. rw (changes-upsert (logged db rec) rec) (tombstones_of_deletion k e);
    }
  ]

-- Storing a change and resolving it keeps every cell and tombstone its last writer's.
pub ingest-IsMerged : (db : Crdt) (rec : ChangeRecord) → IsMerged db → IsMerged (ingest db rec)
unfolding ingest store_change
ingest-IsMerged db rec merged = elim (Bool-cases (any (same_ident (change_row rec)) db.changes)) [
  | inl held ↦ rw held merged
  | inr new ↦ rw new (upsert-IsMerged db rec merged)
]
