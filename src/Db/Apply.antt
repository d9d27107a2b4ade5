-- ===== src/Db/Apply.antt =====
-- `apply_remote` of db/mod.rs: changes from a peer are stored and merged.
pub mod Frame
use orgsync.Base.{
  ℕ, ◌+◌, Bool, true, false, ◌&&◌, ◌||◌, Option, none, some, List, [], ◌∷◌, Bytes, length, find,
  put, sort_by, set_insert, ◌==◌, is_gt, if◌then◌else◌, nat_ord, list_ord, pair_ord,
}
use orgsync.Error.{Result, ok, err}
use orgsync.Hlc
use orgsync.Hlc.{Hlc, zero_hlc, compare_hlc}
use orgsync.Change.{ChangeRecord, order_key, verify_author}
use orgsync.Db.{Env, Db}
use orgsync.Db.Tables.{Crdt, RowKey, store_change, upsert, bump_vv}
use orgsync.Db.Materialize.{materialize}

pub record ApplyOutcome : Type 0 where
  pub applied : ℕ
  pub duplicates : ℕ
  pub deferred : ℕ
  pub rejected : ℕ
  pub tables_touched : List Bytes

abbrev pub no_outcome : ApplyOutcome
no_outcome = record { applied = 0; duplicates = 0; deferred = 0; rejected = 0; tables_touched = [] }

-- The local variables of the loop over the sorted changes.
pub record Batch (App : Type 0) : Type 0 where
  pub db : Db App
  pub outcome : ApplyOutcome
  pub dirty : List RowKey
  pub vv_max : List (Bytes × Hlc)

abbrev pub is_blank : Bytes → Bool
is_blank s = length s == 0

abbrev pub is_ok : Result (Unit {0}) → Bool
is_ok (ok u) = true
is_ok (err e) = false

module _ {App : Type 0} (env : Env App) where
  -- Whether the loop that screens authorship lets a change through, and whether it counts the
  -- change as rejected.
  unfoldable pub is_screened : Db App → ChangeRecord → Bool
  is_screened db rec =
      if is_blank rec.origin || is_blank rec.tbl
      then false
      else if db.require_signatures
      then is_ok (verify_author env.crypto rec)
      else true

  unfoldable pub is_rejected : Db App → ChangeRecord → Bool
  is_rejected db rec =
      if is_blank rec.origin || is_blank rec.tbl
      then false
      else if db.require_signatures
      then (if is_ok (verify_author env.crypto rec) then false else true)
      else false

  -- The first loop: the changes that pass, in their order, and the number of rejected ones.
  unfoldable pub screen : Db App → List ChangeRecord → List ChangeRecord × ℕ
  unfolding is_screened is_rejected
  screen db [] = ([], 0)
  screen db (rec ∷ changes) =
      let (sorted, rejected) = screen db changes in
      (
        (if is_screened db rec then rec ∷ sorted else sorted),
        (if is_rejected db rec then rejected + 1 else rejected),
      )

  -- A table that this build knows is touched; for any other the change is only kept.
  unfoldable pub mark : Batch App → ChangeRecord → Batch App
  mark b rec = elim (find rec.tbl b.db.tables) [
    | none ↦ record b { outcome = record (b.outcome) { deferred = b.outcome.deferred + 1 } }
    | some spec ↦ record b {
      outcome = record (b.outcome) { tables_touched = set_insert rec.tbl b.outcome.tables_touched };
      dirty = set_insert (rec.tbl, rec.pk) b.dirty;
    }
  ]

  -- `entry(origin).or_insert(ZERO)`, raised to the stamp.
  unfoldable pub raise_vv : List (Bytes × Hlc) → ChangeRecord → List (Bytes × Hlc)
  raise_vv vv rec =
      let e : Hlc = elim (find rec.origin vv) [ none ↦ zero_hlc | some h ↦ h ] in
      put rec.origin (if is_gt (compare_hlc rec.hlc e) then rec.hlc else e) vv

  -- One turn of the second loop.
  unfoldable pub turn : Batch App → ChangeRecord → Batch App
  turn b rec =
      let (crdt, inserted) = store_change b.db.crdt rec in
      if inserted == 0
      then record b { outcome = record (b.outcome) { duplicates = b.outcome.duplicates + 1 } }
      else mark
          (record b {
            outcome = record (b.outcome) { applied = b.outcome.applied + 1 };
            db = record (b.db) {
              clock = Hlc.observe (env.now_ms b.db.readings) b.db.clock rec.hlc;
              readings = b.db.readings + 1;
              crdt = upsert crdt rec;
            };
            vv_max = raise_vv b.vv_max rec;
          })
          rec

  unfoldable pub turns : Batch App → List ChangeRecord → Batch App
  turns b [] = b
  turns b (rec ∷ sorted) = turns (turn b rec) sorted

  -- A row that cannot be materialised is left as it is.
  unfoldable pub materialize_all : Db App → List RowKey → Db App
  materialize_all db [] = db
  materialize_all db ((tbl, pk) ∷ dirty) =
      materialize_all
        (elim (find tbl db.tables) [
          | none ↦ db
          | some spec ↦ elim (materialize env db spec pk) [ ok db' ↦ db' | err e ↦ db ]
        ])
        dirty

  unfoldable pub bump_all : Crdt → List (Bytes × Hlc) → Crdt
  bump_all crdt [] = crdt
  bump_all crdt ((origin, hlc) ∷ vv) = bump_all (bump_vv crdt origin hlc) vv

  -- The transaction, on the changes that passed.
  unfoldable pub merge_sorted : Db App → List ChangeRecord → ℕ → Db App × ApplyOutcome
  merge_sorted db sorted rejected =
      let start : Batch App = record {
        db = record db { guard = 1 };
        outcome = record no_outcome { rejected = rejected };
        dirty = [];
        vv_max = [];
      } in
      let done = turns start (sort_by order_key sorted) in
      let db' = materialize_all done.db done.dirty in
      (record db' { crdt = bump_all db'.crdt done.vv_max; guard = 0 }, done.outcome)

  -- With nothing left to merge the database is not touched.
  unfoldable pub merge_passed : Db App → List ChangeRecord → ℕ → Db App × ApplyOutcome
  merge_passed db [] rejected = (db, record no_outcome { rejected = rejected })
  merge_passed db (rec ∷ rest) rejected = merge_sorted db (rec ∷ rest) rejected

  unfoldable pub apply_remote : Db App → List ChangeRecord → Db App × ApplyOutcome
  unfolding merge_passed
  apply_remote db changes =
      let (passed, rejected) = screen db changes in merge_passed db passed rejected
