-- ===== src/Db/Apply/Frame.antt =====
-- What the parts of `apply_remote` leave alone, and what they do to the replication tables.
use orgsync.Base.{
  ℕ, ◌≡◌, refl, ap, ◌∙◌, List, [], ◌∷◌, Bytes, ◌==◌, nat_ord, find, sort_by, arith, Bool-cases,
  Option-cases, ◌⊎◌, inl, inr, list_ord, pair_ord,
}
use orgsync.Error.{Error, Result, ok, err, ok_of_bind}
use orgsync.Hlc.{Hlc}
use orgsync.Value.{SqlValue}
use orgsync.Change.{ChangeRecord, order_key}
use orgsync.Db.{TableSpec, Env, Db, write_row, erase_row}
use orgsync.Db.Tables.{Crdt, RowKey, store_change, ingest, ingest_all, bump_vv}
use orgsync.Db.Materialize.{row_cells, max_stamp, is_deleted, known_cols, is_nothing, materialize}
use orgsync.Db.Apply.{
  Batch, no_outcome, merge_passed, screen, mark, turn, turns, materialize_all, bump_all,
  merge_sorted, apply_remote,
}

-- The log, the cells and the tombstones, which is all but the version vector.
pub record SameTables (a b : Crdt) : Type 0 where
  pub changes : a.changes ≡ b.changes
  pub next_seq : a.next_seq ≡ b.next_seq
  pub cells : a.cells ≡ b.cells
  pub tombstones : a.tombstones ≡ b.tombstones

-- Everything that materialising rows does not touch while the guard is set.
pub record SameBut {App : Type 0} (a b : Db App) : Type 0 where
  pub crdt : a.crdt ≡ b.crdt
  pub tables : a.tables ≡ b.tables
  pub guard : a.guard ≡ b.guard
  pub local_ops : a.local_ops ≡ b.local_ops
  pub clock : a.clock ≡ b.clock
  pub device_id : a.device_id ≡ b.device_id
  pub require_signatures : a.require_signatures ≡ b.require_signatures

pub SameBut-refl : {App : Type 0} (a : Db App) → SameBut a a
SameBut-refl a = record {
  crdt = refl;
  tables = refl;
  guard = refl;
  local_ops = refl;
  clock = refl;
  device_id = refl;
  require_signatures = refl;
}

Result-cases {ℓ} :
    {A : Type ℓ} (r : Result A) → ((a : A) × (r ≡ ok a)) ⊎ ((e : Error) × (r ≡ err e))
Result-cases (ok a) = inl (a, refl)
Result-cases (err e) = inr (e, refl)

pub SameBut-trans : {App : Type 0} {a b c : Db App} → SameBut a b → SameBut b c → SameBut a c
SameBut-trans p q = record {
  crdt = p.crdt ∙ q.crdt;
  tables = p.tables ∙ q.tables;
  guard = p.guard ∙ q.guard;
  local_ops = p.local_ops ∙ q.local_ops;
  clock = p.clock ∙ q.clock;
  device_id = p.device_id ∙ q.device_id;
  require_signatures = p.require_signatures ∙ q.require_signatures;
}

module _ {App : Type 0} (env : Env App) where
  db-mark : (b : Batch App) (rec : ChangeRecord) → (mark env b rec).db ≡ b.db
  unfolding mark
  db-mark b rec = ground arith

  crdt-turn : (b : Batch App) (rec : ChangeRecord) → (turn env b rec).db.crdt ≡ ingest b.db.crdt rec
  unfolding turn ingest
  crdt-turn b rec = elim (Bool-cases ((store_change b.db.crdt rec).1 == 0)) [
    | inl held ↦ rw (held, turn) (unfold store_change in ground arith)
    | inr new ↦ rw (new, turn, db-mark)
  ]

  pub crdt-turns :
      (b : Batch App) (sorted : List ChangeRecord)
      → (turns env b sorted).db.crdt ≡ ingest_all b.db.crdt sorted
  unfolding turns ingest_all
  crdt-turns b [] = refl
  crdt-turns b (rec ∷ sorted) =
      crdt-turns (turn env b rec) sorted ∙ ap (λ (c : Crdt). ingest_all c sorted) (crdt-turn b rec)

  -- The loop stages nothing and keeps the guard.
  pub turn-keeps :
      (b : Batch App) (rec : ChangeRecord)
      → ((turn env b rec).db.guard ≡ b.db.guard)
        × ((turn env b rec).db.local_ops ≡ b.db.local_ops)
        × ((turn env b rec).db.require_signatures ≡ b.db.require_signatures)
        × ((turn env b rec).db.device_id ≡ b.db.device_id)
  unfolding turn
  turn-keeps b rec = elim (Bool-cases ((store_change b.db.crdt rec).1 == 0)) [
    | inl held ↦ rw (held, turn) (refl, refl, refl, refl)
    | inr new ↦ rw (new, turn, db-mark) (refl, refl, refl, refl)
  ]

  pub turns-keeps :
      (b : Batch App) (sorted : List ChangeRecord)
      → ((turns env b sorted).db.guard ≡ b.db.guard)
        × ((turns env b sorted).db.local_ops ≡ b.db.local_ops)
        × ((turns env b sorted).db.require_signatures ≡ b.db.require_signatures)
        × ((turns env b sorted).db.device_id ≡ b.db.device_id)
  unfolding turns
  turns-keeps b [] = (refl, refl, refl, refl)
  turns-keeps b (rec ∷ sorted) =
      let (g, l, r, d) = turn-keeps b rec in
      let (gs, ls, rs, ds) = turns-keeps (turn env b rec) sorted in (gs ∙ g, ls ∙ l, rs ∙ r, ds ∙ d)

  write_row-SameBut :
      (db : Db App) (spec : TableSpec) (pk : Bytes) (cols : List (Bytes × SqlValue)) {db' : Db App}
      → db.guard ≡ 1
      → write_row env db spec pk cols ≡ ok db'
      → SameBut db' db
  unfolding write_row
  write_row-SameBut db spec pk cols set e = ground arith

  erase_row-SameBut :
      (db : Db App) (spec : TableSpec) (pk : Bytes) {db' : Db App}
      → db.guard ≡ 1
      → erase_row env db spec pk ≡ ok db'
      → SameBut db' db
  unfolding erase_row
  erase_row-SameBut db spec pk set e = ground arith

  materialize-SameBut :
      (db : Db App) (spec : TableSpec) (pk : Bytes) {db' : Db App}
      → db.guard ≡ 1
      → materialize env db spec pk ≡ ok db'
      → SameBut db' db
  unfolding materialize
  materialize-SameBut db spec pk {db'} set e =
      let key : RowKey = (spec.name, pk) in
      let tomb = find key db.crdt.tombstones in
      let cells = row_cells key db.crdt.cells in
      elim (Bool-cases (is_nothing tomb cells)) [
        | inl nothing ↦ let same : ok db ≡ ok db' = rw nothing at e in ground arith
        | inr something ↦ elim (Bool-cases (is_deleted tomb (max_stamp cells))) [
          | inl gone ↦ erase_row-SameBut db spec pk set (rw (something, gone) at e)
          | inr kept ↦
              let (cols, _, written) =
                ok_of_bind (known_cols spec.cols cells) (λ cols. write_row env db spec pk cols)
                  (rw (something, kept) at e) in
              write_row-SameBut db spec pk cols set written
        ]
      ]

  pub materialize_all-SameBut :
      (db : Db App) (dirty : List RowKey) → db.guard ≡ 1 → SameBut (materialize_all env db dirty) db
  unfolding materialize_all
  materialize_all-SameBut db [] set = SameBut-refl db
  materialize_all-SameBut db ((tbl, pk) ∷ dirty) set = elim (Option-cases (find tbl db.tables)) [
    | inl unknown ↦ rw (unknown, materialize_all) (materialize_all-SameBut db dirty set)
    | inr (spec, known) ↦ elim (Result-cases (materialize env db spec pk)) [
      | inl (db', done) ↦
          rw (known, materialize_all, done)
            (let one = materialize-SameBut db spec pk set done in
              SameBut-trans (materialize_all-SameBut db' dirty (one.guard ∙ set)) one)
      | inr (e, failed) ↦ rw (known, materialize_all, failed) (materialize_all-SameBut db dirty set)
    ]
  ]

  bump_all-keeps :
      (crdt : Crdt) (vv : List (Bytes × Hlc))
      → ((bump_all env crdt vv).changes ≡ crdt.changes)
        × ((bump_all env crdt vv).next_seq ≡ crdt.next_seq)
        × ((bump_all env crdt vv).cells ≡ crdt.cells)
        × ((bump_all env crdt vv).tombstones ≡ crdt.tombstones)
  unfolding bump_all bump_vv
  bump_all-keeps crdt [] = (refl, refl, refl, refl)
  bump_all-keeps crdt ((origin, hlc) ∷ vv) = bump_all-keeps (bump_vv crdt origin hlc) vv

  merge_sorted-SameTables :
      (db : Db App) (sorted : List ChangeRecord) (rejected : ℕ)
      → SameTables
          (merge_sorted env db sorted rejected).0.crdt
          (ingest_all db.crdt (sort_by order_key sorted))
  unfolding merge_sorted
  merge_sorted-SameTables db sorted rejected =
      let start : Batch App = record {
        db = record db { guard = 1 };
        outcome = record no_outcome { rejected = rejected };
        dirty = [];
        vv_max = [];
      } in
      let done = turns env start (sort_by order_key sorted) in
      let db' = materialize_all env done.db done.dirty in
      let merged : db'.crdt ≡ ingest_all db.crdt (sort_by order_key sorted) =
        (materialize_all-SameBut done.db done.dirty
          (turns-keeps start (sort_by order_key sorted)).0).crdt
        ∙ crdt-turns start (sort_by order_key sorted) in
      let (changes, next_seq, cells, tombstones) = bump_all-keeps db'.crdt done.vv_max in
      record {
        changes = changes ∙ ap (λ (c : Crdt). c.changes) merged;
        next_seq = next_seq ∙ ap (λ (c : Crdt). c.next_seq) merged;
        cells = cells ∙ ap (λ (c : Crdt). c.cells) merged;
        tombstones = tombstones ∙ ap (λ (c : Crdt). c.tombstones) merged;
      }

  merge_passed-SameTables :
      (db : Db App) (passed : List ChangeRecord) (rejected : ℕ)
      → SameTables
          (merge_passed env db passed rejected).0.crdt
          (ingest_all db.crdt (sort_by order_key passed))
  unfolding merge_passed
  merge_passed-SameTables db [] rejected =
      unfold ingest_all sort_by in
      record { changes = refl; next_seq = refl; cells = refl; tombstones = refl }
  merge_passed-SameTables db (rec ∷ rest) rejected =
      merge_sorted-SameTables db (rec ∷ rest) rejected

  -- The replication tables after `apply_remote`: the changes that pass, in sorted order, ingested.
  pub apply_remote-SameTables :
      (db : Db App) (changes : List ChangeRecord)
      → SameTables
          (apply_remote env db changes).0.crdt
          (ingest_all db.crdt (sort_by order_key (screen env db changes).0))
  unfolding apply_remote
  apply_remote-SameTables db changes =
      let (passed, rejected) = screen env db changes in merge_passed-SameTables db passed rejected

  merge_passed-keeps :
      (db : Db App) (passed : List ChangeRecord) (rejected : ℕ)
      → let after = (merge_passed env db passed rejected).0 in
        (after.local_ops ≡ db.local_ops)
        × (after.require_signatures ≡ db.require_signatures)
        × (after.device_id ≡ db.device_id)
        × (db.guard ≡ 0 → after.guard ≡ 0)
  unfolding merge_passed merge_sorted
  merge_passed-keeps db [] rejected = (refl, refl, refl, λ down. down)
  merge_passed-keeps db (rec ∷ rest) rejected =
      let start : Batch App = record {
        db = record db { guard = 1 };
        outcome = record no_outcome { rejected = rejected };
        dirty = [];
        vv_max = [];
      } in
      let sorted = sort_by order_key (rec ∷ rest) in
      let (guard, ops, flag, device) = turns-keeps start sorted in
      let done = turns env start sorted in
      let rows = materialize_all-SameBut done.db done.dirty guard in
      (rows.local_ops ∙ ops, rows.require_signatures ∙ flag, rows.device_id ∙ device, λ down. refl)

  -- Applying changes from a peer stages none of them as a local edit, and leaves the capture
  -- triggers standing again.
  pub local_ops-apply_remote :
      (db : Db App) (changes : List ChangeRecord)
      → db.guard ≡ 0
      → ((apply_remote env db changes).0.local_ops ≡ db.local_ops)
        × ((apply_remote env db changes).0.guard ≡ 0)
  unfolding apply_remote
  local_ops-apply_remote db changes down =
      let (passed, rejected) = screen env db changes in
      let (ops, _, _, guard) = merge_passed-keeps db passed rejected in (ops, guard down)

  pub require_signatures-apply_remote :
      (db : Db App) (changes : List ChangeRecord)
      → (apply_remote env db changes).0.require_signatures ≡ db.require_signatures
  unfolding apply_remote
  require_signatures-apply_remote db changes =
      let (passed, rejected) = screen env db changes in (merge_passed-keeps db passed rejected).1

  pub device_id-apply_remote :
      (db : Db App) (changes : List ChangeRecord)
      → (apply_remote env db changes).0.device_id ≡ db.device_id
  unfolding apply_remote
  device_id-apply_remote db changes =
      let (passed, rejected) = screen env db changes in (merge_passed-keeps db passed rejected).2
