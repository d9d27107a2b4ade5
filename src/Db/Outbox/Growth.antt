-- ===== src/Db/Outbox/Growth.antt =====
-- The log only grows: whatever is applied or flushed, new rows are put in front of the old ones,
-- with greater numbers.
use mathlib.Core.List.{append_assoc}
use orgsync.Base.{
  ◌≡◌, refl, sym, ap, ◌∙◌, inl, inr, List, [], ◌∷◌, ◌++◌, arith, Bool-cases, any, of_if, keep, ltb,
  ◌==◌, sort_by, nat_ord, list_ord, pair_ord,
}
use orgsync.Change.{ChangeRecord, order_key}
use orgsync.Db.{Env, LocalOp, Db}
use orgsync.Db.Tables.{
  Crdt, change_row, same_ident, store_change, upsert, upsert_cell, upsert_tombstone, ingest,
  ingest_all, bump_vv,
}
use orgsync.Db.Tables.Merge.{changes-upsert}
use orgsync.Db.Apply.{screen, apply_remote}
use orgsync.Db.Apply.Frame.{apply_remote-SameTables}
use orgsync.Db.Local.{
  author, max_id, first_seen, final_ops, flush_rows, bump_own, flush_staged, flush_local,
}
use orgsync.Db.Local.Flushed.{Authors-SameSelf}
use orgsync.Db.Local.Steps.{Authors, flush_rows-Authors}
use orgsync.Db.Outbox.Span.{Log, Span, Span-append}

-- The one log is the other with newer rows in front.
abbrev pub Extends : Crdt → Crdt → Type 0
Extends a b = (ext : Log) × (b.changes ≡ ext ++ a.changes) × Span a.next_seq b.next_seq ext

pub Extends-same : (a b : Crdt) → b.changes ≡ a.changes → b.next_seq ≡ a.next_seq → Extends a b
Extends-same a b e n = ([], e, omega arith)

pub Extends-trans : (a b c : Crdt) → Extends a b → Extends b c → Extends a c
Extends-trans a b c (ext, e, s) (more, f, t) = (
  more ++ ext,
  f ∙ ap (λ l. more ++ l) e ∙ sym (append_assoc more ext a.changes),
  Span-append a.next_seq b.next_seq c.next_seq more ext s t,
)

next_seq-upsert : (db : Crdt) (rec : ChangeRecord) → (upsert db rec).next_seq ≡ db.next_seq
unfolding upsert upsert_cell upsert_tombstone
next_seq-upsert db rec = ground arith

store_change-Extends : (db : Crdt) (rec : ChangeRecord) → Extends db (store_change db rec).0
unfolding store_change
store_change-Extends db rec = elim (Bool-cases (any (same_ident (change_row rec)) db.changes)) [
  | inl held ↦ rw held (Extends-same db db refl refl)
  | inr new ↦ rw new ((db.next_seq, change_row rec) ∷ [], refl, (omega arith, omega arith))
]

written-Extends : (db : Crdt) (rec : ChangeRecord) → Extends db (upsert (store_change db rec).0 rec)
written-Extends db rec =
    let stored = (store_change db rec).0 in
    Extends-trans db stored (upsert stored rec) (store_change-Extends db rec) (
      Extends-same stored (upsert stored rec) (changes-upsert stored rec)
        (next_seq-upsert stored rec))

ingest-Extends : (db : Crdt) (rec : ChangeRecord) → Extends db (ingest db rec)
unfolding ingest
ingest-Extends db rec =
    of_if (λ (c : Crdt). Extends db c) ((store_change db rec).1 == 0) (store_change-Extends db rec)
      (written-Extends db rec)

ingest_all-Extends : (db : Crdt) (l : List ChangeRecord) → Extends db (ingest_all db l)
unfolding ingest_all
ingest_all-Extends db [] = Extends-same db db refl refl
ingest_all-Extends db (rec ∷ l) =
    Extends-trans db (ingest db rec) (ingest_all (ingest db rec) l) (ingest-Extends db rec)
      (ingest_all-Extends (ingest db rec) l)

module _ {App : Type 0} (env : Env App) where
  pub apply_remote-Extends :
      (db : Db App) (changes : List ChangeRecord)
      → Extends db.crdt (apply_remote env db changes).0.crdt
  apply_remote-Extends db changes =
      let sorted = sort_by order_key (screen env db changes).0 in
      let same = apply_remote-SameTables env db changes in
      Extends-trans db.crdt (ingest_all db.crdt sorted) (apply_remote env db changes).0.crdt
        (ingest_all-Extends db.crdt sorted)
        (Extends-same (ingest_all db.crdt sorted) (apply_remote env db changes).0.crdt same.changes
          same.next_seq)

  Authors-Extends :
      (db db' : Db App) (out : List ChangeRecord)
      → Authors env db out db'
      → Extends db.crdt db'.crdt
  unfolding author
  Authors-Extends db db' [] e =
      Extends-same db.crdt db'.crdt (ap (λ (d : Db App). d.crdt.changes) e)
        (ap (λ (d : Db App). d.crdt.next_seq) e)
  Authors-Extends db db' (rec ∷ out) (next, a) =
      Extends-trans db.crdt (author env db rec).crdt db'.crdt (written-Extends db.crdt rec)
        (Authors-Extends (author env db rec) db' out a)

  bump_own-Extends :
      (db : Db App) (out : List ChangeRecord) → Extends db.crdt (bump_own env db out).crdt
  unfolding bump_own bump_vv
  bump_own-Extends db [] = Extends-same db.crdt db.crdt refl refl
  bump_own-Extends db (rec ∷ out) =
      Extends-same db.crdt (bump_own env db (rec ∷ out)).crdt refl refl

  flush_staged-Extends :
      (db : Db App) (staged : List LocalOp) → Extends db.crdt (flush_staged env db staged).0.crdt
  unfolding flush_staged
  flush_staged-Extends db [] = Extends-same db.crdt db.crdt refl refl
  flush_staged-Extends db (op ∷ staged) =
      let all = op ∷ staged in
      let flushed = flush_rows env db (final_ops [] all) (first_seen [] all) in
      let last = max_id all in
      let cut : Db App = record (flushed.0) {
        local_ops = keep (λ (o : LocalOp). ltb last o.id) flushed.0.local_ops;
      } in
      Extends-trans db.crdt cut.crdt (bump_own env cut flushed.1).crdt
        (Authors-Extends db flushed.0 flushed.1
          (flush_rows-Authors env db (final_ops [] all) (first_seen [] all)))
        (bump_own-Extends cut flushed.1)

  pub flush_local-Extends : (db : Db App) → Extends db.crdt (flush_local env db).0.crdt
  unfolding flush_local
  flush_local-Extends db = flush_staged-Extends db db.local_ops

  device_id-bump_own :
      (db : Db App) (out : List ChangeRecord) → (bump_own env db out).device_id ≡ db.device_id
  unfolding bump_own
  device_id-bump_own db [] = refl
  device_id-bump_own db (rec ∷ out) = refl

  device_id-flush_staged :
      (db : Db App) (staged : List LocalOp)
      → (flush_staged env db staged).0.device_id ≡ db.device_id
  unfolding flush_staged
  device_id-flush_staged db [] = refl
  device_id-flush_staged db (op ∷ staged) =
      let all = op ∷ staged in
      let flushed = flush_rows env db (final_ops [] all) (first_seen [] all) in
      let last = max_id all in
      let cut : Db App = record (flushed.0) {
        local_ops = keep (λ (o : LocalOp). ltb last o.id) flushed.0.local_ops;
      } in
      device_id-bump_own cut flushed.1
      ∙ (Authors-SameSelf env db flushed.0 flushed.1
          (flush_rows-Authors env db (final_ops [] all) (first_seen [] all))).device_id

  pub device_id-flush_local : (db : Db App) → (flush_local env db).0.device_id ≡ db.device_id
  unfolding flush_local
  device_id-flush_local db = device_id-flush_staged db db.local_ops
