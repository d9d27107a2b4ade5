-- ===== src/Node/Broadcast.antt =====
-- The sending side of rust/p2p-core/src/net/node.rs: local edits are flushed and broadcast, and
-- anti-entropy is asked for. An effect `try_publish` stands for the attempt to encode a chunk and to
-- hand it to gossipsub, of which nobody may hear: `attempt` says what comes of it, and nothing in the
-- node depends on that. An address that is dialled at the app's word is left out.
pub mod Sent
pub mod Kept
pub mod Account
pub mod Delivered
pub mod Drained
use orgsync.Base.{
  ℕ, zero, suc, Bool, true, false, not, List, [], ◌∷◌, ◌++◌, map, Bytes, keep, take, drop, length,
  ℤ, if◌then◌else◌,
}
use orgsync.Error.{Result, ok, err}
use orgsync.Change.{ChangeRecord}
use orgsync.Db.{TableSpec, Env, Db, write_row, erase_row}
use orgsync.Value.{SqlValue}
use orgsync.Db.Local.{flush_local}
use orgsync.Db.Outbox.{Meta, unbroadcast_local, mark_broadcast}
use orgsync.Node.{
  Runtime, AuthedPeer, Effect, send, try_publish, local_changes, failed, push, max_sync_changes,
  request_sync,
}
use orgsync.Node.Gate.{Event, step}

abbrev pub max_push_changes : ℕ
max_push_changes = 200

-- `slice::chunks` for a positive size: no more pieces than entries.
unfoldable pub chunks_from : ℕ → ℕ → List ChangeRecord → List (List ChangeRecord)
chunks_from zero size l = []
chunks_from (suc fuel) size [] = []
chunks_from (suc fuel) size (c ∷ l) = take size (c ∷ l) ∷ chunks_from fuel size (drop size (c ∷ l))

unfoldable pub chunks : ℕ → List ChangeRecord → List (List ChangeRecord)
unfolding chunks_from
chunks size l = chunks_from (length l) size l

-- What an attempt comes to, by what postcard and gossipsub return: the source logs either error and
-- goes on.
pub data Attempt : Type 0 where
  encode_failed : Attempt
  publish_skipped : Attempt
  handed_over : Attempt

abbrev handed : Result (Unit {0}) → Attempt
handed (ok _) = handed_over
handed (err _) = publish_skipped

unfoldable pub attempt :
    (List ChangeRecord → Result Bytes) → (Bytes → Result (Unit {0})) → List ChangeRecord → Attempt
attempt encode publish chunk = elim (encode chunk) [
  | ok bytes ↦ handed (publish bytes)
  | err e ↦ encode_failed
]

-- One piece: pushed to each of the peers, then the attempt to publish it.
unfoldable pub send_chunk : List Bytes → List ChangeRecord → List Effect
send_chunk [] chunk = try_publish chunk ∷ []
send_chunk (peer ∷ peers) chunk = send peer (push chunk) ∷ send_chunk peers chunk

unfoldable pub send_chunks : List Bytes → List (List ChangeRecord) → List Effect
unfolding send_chunk
send_chunks peers [] = []
send_chunks peers (chunk ∷ rest) = send_chunk peers chunk ++ send_chunks peers rest

-- The peers that hold data of the organisation.
abbrev pub replicating : List (Bytes × AuthedPeer) → List Bytes
replicating authed = map (λ e. e.0) (keep (λ (e : Bytes × AuthedPeer). e.1.replicates) authed)

module _ {App : Type 0} where
  unfoldable pub broadcast : Runtime App → List ChangeRecord → List Effect
  unfolding chunks send_chunks
  broadcast n changes = send_chunks (replicating n.authed) (chunks max_push_changes changes)

  -- What is done with the page of the outbox.
  unfoldable pub push_page :
      Runtime App → Meta → Result (List ChangeRecord × ℤ) → Meta × List Effect
  unfolding broadcast mark_broadcast
  push_page n meta (err _) = (meta, failed ∷ [])
  push_page n meta (ok ([], high)) = (meta, [])
  push_page n meta (ok (c ∷ changes, high)) =
      (mark_broadcast meta high, local_changes (length (c ∷ changes)) ∷ broadcast n (c ∷ changes))

  module _ (env : Env App) where
    unfoldable pub flush_and_push : Runtime App → Meta → Runtime App × (Meta × List Effect)
    unfolding push_page
    flush_and_push n meta =
        if not n.replicate
        then (n, (meta, []))
        else (let n' = record n { db = (flush_local env n.db).0 } in
            (n', push_page n' meta (unbroadcast_local n'.db meta max_sync_changes)))

    unfoldable pub request_each : Runtime App → List (Bytes × AuthedPeer) → List Effect
    request_each n [] = []
    request_each n ((peer, info) ∷ authed) = request_sync env n peer ++ request_each n authed

    unfoldable pub request_sync_from_all : Runtime App → List Effect
    unfolding request_each
    request_sync_from_all n = if not n.replicate then [] else request_each n n.authed

    -- What comes to the node from the network, from the app and from its two timers.
    pub data Activity : Type 0 where
      heard : (ev : Event env) → Activity
      wrote : (spec : TableSpec) (pk : Bytes) (cols : List (Bytes × SqlValue)) → Activity
      erased : (spec : TableSpec) (pk : Bytes) → Activity
      executed : Activity
      changed : Activity
      ticked : Activity

    abbrev after : Db App → Result (Db App) → Db App
    after db (ok db') = db'
    after db (err e) = db

    -- One activity, with what a flush sends for it. A statement of the app that fails leaves the
    -- database as it was, and `executed` is the flush of `Db::execute`, which drains what was staged
    -- but sends nothing.
    unfoldable pub act : Runtime App → Meta → Activity → Runtime App × (Meta × List Effect)
    unfolding flush_and_push step
    act n meta (heard ev) = (step env n ev, (meta, []))
    act n meta (wrote spec pk cols) =
        (record n { db = after n.db (write_row env n.db spec pk cols) }, (meta, []))
    act n meta (erased spec pk) =
        (record n { db = after n.db (erase_row env n.db spec pk) }, (meta, []))
    act n meta executed = (record n { db = (flush_local env n.db).0 }, (meta, []))
    act n meta changed = flush_and_push n meta
    act n meta ticked = flush_and_push n meta

    -- A run of the node, with all that its flushes send.
    unfoldable pub life : Runtime App → Meta → List Activity → Runtime App × (Meta × List Effect)
    unfolding act
    life n meta [] = (n, (meta, []))
    life n meta (a ∷ rest) =
        let (n', r) = act n meta a in let (n'', s) = life n' r.0 rest in (n'', (s.0, r.1 ++ s.1))
