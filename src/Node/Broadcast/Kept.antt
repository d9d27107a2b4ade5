-- ===== src/Node/Broadcast/Kept.antt =====
-- No handler of the node takes anything out of the log, or changes whose replica it is.
use orgsync.Base.{
  ℕ, ◌≡◌, refl, Bool, not, of_if, inl, inr, List, Bytes, find, keep, Option-cases, some, ◌==◌,
  nat_ord, list_ord,
}
use orgsync.Error.{Result, ok, err}
use orgsync.Value.{SqlValue}
use orgsync.Change.{ChangeRecord}
use orgsync.Identity.Crl.{RevocationList}
use orgsync.Identity.Cert
use orgsync.Identity.Cert.{DeviceCert}
use orgsync.Enroll.{merge_crl}
use orgsync.Db.{TableSpec, Env, Db, LocalOpKind, upserted, deleted, capture, write_row, erase_row}
use orgsync.Db.Apply.Frame.{device_id-apply_remote}
use orgsync.Db.Local.{flush_local}
use orgsync.Db.Outbox.Growth.{
  Extends, Extends-same, apply_remote-Extends, flush_local-Extends, device_id-flush_local,
}
use orgsync.Node.{
  Runtime, Req, hello, sync, push, Resp, hello_back, page, pushed, denied, Effect, contains,
  is_held, is_nil, protocol_version, apply, judged, accept_peer, on_request, on_response, on_gossip,
  on_response_sent, on_established, on_closed,
}
use orgsync.Node.Gate.{
  Event, requested, answered, gossiped, response_sent, established, closed, step,
}
use orgsync.Node.Broadcast.{after}

module _ {App : Type 0} where
  -- The later database has the rows of the earlier one, with newer ones in front, and is the same
  -- device's.
  pub record Keeps (db db' : Db App) : Type 0 where
    pub log : Extends db.crdt db'.crdt
    pub device_id : db'.device_id ≡ db.device_id

  pub Keeps-refl : (db : Db App) → Keeps db db
  Keeps-refl db = record { log = Extends-same db.crdt db.crdt refl refl; device_id = refl }

module _ {App : Type 0} (env : Env App) where
  pub flush_local-Keeps : (db : Db App) → Keeps db (flush_local env db).0
  flush_local-Keeps db = record {
    log = flush_local-Extends env db;
    device_id = device_id-flush_local env db;
  }

  apply-Keeps :
      (n : Runtime App) (peer : Bytes) (changes : List ChangeRecord)
      → Keeps n.db (apply env n peer changes).0.db
  unfolding apply
  apply-Keeps n peer changes =
      let kept = keep (λ (c : ChangeRecord). not (contains c.origin n.readonly_origins)) changes in
      record {
        log = apply_remote-Extends env n.db kept;
        device_id = device_id-apply_remote env n.db kept;
      }

  judged-Keeps :
      (n : Runtime App) (peer : Bytes) (cert : DeviceCert) (replicates : Bool) (since : ℕ)
      (r : Result (Unit {0}))
      → Keeps n.db (judged env n peer cert replicates since r).0.db
  unfolding judged
  judged-Keeps n peer cert replicates since (err _) = Keeps-refl n.db
  judged-Keeps n peer cert replicates since (ok _) = Keeps-refl n.db

  accept_peer-Keeps :
      (n : Runtime App) (peer : Bytes) (cert : DeviceCert) (crl : RevocationList)
      (replicates : Bool) (now since : ℕ)
      → Keeps n.db (accept_peer env n peer cert crl replicates now since).0.db
  unfolding accept_peer
  accept_peer-Keeps n peer cert crl replicates now since =
      let e = (merge_crl env.crypto n.enrollment crl).0 in
      judged-Keeps (record n { enrollment = e }) peer cert replicates since
        (Cert.verify env.crypto cert e.org_id (some peer) (some e.crl) now)

  request-Keeps :
      (n : Runtime App) (peer : Bytes) (req : Req) (now since : ℕ)
      → Keeps n.db (on_request env n peer req now since).0.db
  unfolding on_request
  request-Keeps n peer (hello proto cert crl replicates) now since =
      let r = accept_peer env n peer cert crl replicates now since in
      let kept = accept_peer-Keeps n peer cert crl replicates now since in
      of_if (λ (x : Runtime App × (Resp × List Effect)). Keeps n.db x.0.db)
        (proto == protocol_version)
        (of_if (λ (x : Runtime App × (Resp × List Effect)). Keeps n.db x.0.db) r.1.0 kept kept)
        (Keeps-refl n.db)
  request-Keeps n peer (sync vv limit) now since =
      of_if (λ (r : Runtime App × (Resp × List Effect)). Keeps n.db r.0.db)
        (not (is_held (find peer n.authed))) (Keeps-refl n.db)
        (of_if (λ (r : Runtime App × (Resp × List Effect)). Keeps n.db r.0.db) (not n.replicate)
          (Keeps-refl n.db) (Keeps-refl n.db))
  request-Keeps n peer (push changes) now since =
      of_if (λ (r : Runtime App × (Resp × List Effect)). Keeps n.db r.0.db)
        (not (is_held (find peer n.authed))) (Keeps-refl n.db)
        (of_if (λ (r : Runtime App × (Resp × List Effect)). Keeps n.db r.0.db) (not n.replicate)
          (Keeps-refl n.db) (apply-Keeps n peer changes))

  response-Keeps :
      (n : Runtime App) (peer : Bytes) (resp : Resp) (now since : ℕ)
      → Keeps n.db (on_response env n peer resp now since).0.db
  unfolding on_response
  response-Keeps n peer (hello_back proto cert crl replicates) now since =
      let r = accept_peer env n peer cert crl replicates now since in
      let kept = accept_peer-Keeps n peer cert crl replicates now since in
      of_if (λ (x : Runtime App × List Effect). Keeps n.db x.0.db) (proto == protocol_version)
        (of_if (λ (x : Runtime App × List Effect). Keeps n.db x.0.db) r.1.0 kept kept)
        (Keeps-refl n.db)
  response-Keeps n peer (page changes has_more) now since =
      of_if (λ (r : Runtime App). Keeps n.db r.db) (is_nil changes) (Keeps-refl n.db)
        (apply-Keeps n peer changes)
  response-Keeps n peer (pushed applied rejected) now since = Keeps-refl n.db
  response-Keeps n peer denied now since = Keeps-refl n.db

  pub step-Keeps : (n : Runtime App) (ev : Event env) → Keeps n.db (step env n ev).db
  unfolding step on_gossip on_response_sent on_established on_closed
  step-Keeps n (requested peer req now since) = request-Keeps n peer req now since
  step-Keeps n (answered peer resp now since) = response-Keeps n peer resp now since
  step-Keeps n (gossiped source changes) =
      of_if (λ (r : Runtime App × List Effect). Keeps n.db r.0.db)
        (not (is_held (find source n.authed))) (Keeps-refl n.db)
        (of_if (λ (r : Runtime App × List Effect). Keeps n.db r.0.db) (not n.replicate)
          (Keeps-refl n.db) (apply-Keeps n source changes))
  step-Keeps n (response_sent peer) =
      of_if (λ (r : Runtime App × List Effect). Keeps n.db r.0.db) (contains peer n.deny)
        (Keeps-refl n.db) (Keeps-refl n.db)
  step-Keeps n (established peer) =
      of_if (λ (r : Runtime App × List Effect). Keeps n.db r.0.db) (contains peer n.greeted)
        (Keeps-refl n.db) (Keeps-refl n.db)
  step-Keeps n (closed peer) = Keeps-refl n.db

  captured-Keeps :
      (db : Db App) (app : App) (tbl pk : Bytes) (op : LocalOpKind)
      → Keeps db (capture (record db { app = app }) tbl pk op)
  unfolding capture
  captured-Keeps db app tbl pk op =
      of_if (λ (d : Db App). Keeps db d) (db.guard == 0)
        (record { log = Extends-same db.crdt db.crdt refl refl; device_id = refl })
        (record { log = Extends-same db.crdt db.crdt refl refl; device_id = refl })

  pub write_row-Keeps :
      (db : Db App) (spec : TableSpec) (pk : Bytes) (cols : List (Bytes × SqlValue))
      → Keeps db (after env db (write_row env db spec pk cols))
  unfolding write_row
  write_row-Keeps db spec pk cols =
      elim (Option-cases (env.app_tables.upsert_row db.app spec pk cols)) [
        | inl bad ↦ rw (bad, write_row) (Keeps-refl db)
        | inr (app, fine) ↦ rw (fine, write_row) (captured-Keeps db app spec.name pk upserted)
      ]

  pub erase_row-Keeps :
      (db : Db App) (spec : TableSpec) (pk : Bytes)
      → Keeps db (after env db (erase_row env db spec pk))
  unfolding erase_row
  erase_row-Keeps db spec pk = elim (Option-cases (env.app_tables.delete_row db.app spec pk)) [
    | inl bad ↦ rw (bad, erase_row) (Keeps-refl db)
    | inr (app, fine) ↦ elim (Option-cases (env.app_tables.read_row db.app spec pk)) [
      | inl gone ↦
          rw (fine, erase_row, gone)
            (record { log = Extends-same db.crdt db.crdt refl refl; device_id = refl })
      | inr (row, there) ↦ rw (fine, erase_row, there) (captured-Keeps db app spec.name pk deleted)
    ]
  ]
