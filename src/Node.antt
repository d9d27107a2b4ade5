-- ===== src/Node.antt =====
-- rust/p2p-core/src/net/node.rs and proto.rs: the trust gate and the protocol handlers of the node
-- runtime, as functions on its state that give back what goes out. Dialling, addresses, discovery
-- and the texts of reasons and log lines are not modelled.
pub mod Gate
pub mod Gated
pub mod Guard
pub mod Readonly
pub mod Broadcast
pub mod Peers
pub mod Lingering
pub mod Saving
use orgsync.Base.{
  ℕ, Bool, true, false, not, Option, none, some, List, [], ◌∷◌, ◌++◌, Bytes, any, keep, find, put,
  delete, length, map, ltb, min, ◌==◌, if◌then◌else◌, nat_ord, list_ord,
}
use orgsync.Error.{Result, ok, err, ◌>>=◌}
use orgsync.Change.{ChangeRecord, VersionVector}
use orgsync.Identity.{Role, as_str, may_write}
use orgsync.Identity.Crl.{RevocationList}
use orgsync.Identity.Cert
use orgsync.Identity.Cert.{DeviceCert}
use orgsync.Enroll.{Enrollment, merge_crl}
use orgsync.Db.{Env, Db}
use orgsync.Db.Apply.{ApplyOutcome, apply_remote}
use orgsync.Db.Sync.{version_vector, changes_since}

abbrev pub protocol_version : ℕ
protocol_version = 1

abbrev pub max_sync_changes : ℕ
max_sync_changes = 500

pub data Req : Type 0 where
  hello : (proto : ℕ) (cert : DeviceCert) (crl : RevocationList) (replicates : Bool) → Req
  sync : (vv : VersionVector) (limit : ℕ) → Req
  push : (changes : List ChangeRecord) → Req

pub data Resp : Type 0 where
  hello_back : (proto : ℕ) (cert : DeviceCert) (crl : RevocationList) (replicates : Bool) → Resp
  page : (changes : List ChangeRecord) (has_more : Bool) → Resp
  pushed : (applied rejected : ℕ) → Resp
  denied : Resp

pub record AuthedPeer : Type 0 where
  pub user_id : Bytes
  pub display_name : Bytes
  pub role : Role
  pub since_ms : ℕ
  pub replicates : Bool

-- What goes out: requests and disconnections to the swarm, and events to the app.
-- `try_publish` is the attempt to encode a chunk and to hand it to gossipsub: whether it succeeds or
-- not is only logged by the source, and not said here.
pub data Effect : Type 0 where
  send : (peer : Bytes) (req : Req) → Effect
  disconnect : (peer : Bytes) → Effect
  peer_connected : (peer : Bytes) → Effect
  peer_disconnected : (peer : Bytes) → Effect
  peer_rejected : (peer : Bytes) → Effect
  synced : (peer : Bytes) (applied : ℕ) (tables : List Bytes) → Effect
  try_publish : (changes : List ChangeRecord) → Effect
  local_changes : (count : ℕ) → Effect
  failed : Effect

-- The struct `Runtime`, with the peers to deny without their reasons.
pub record Runtime (App : Type 0) : Type 0 where
  pub db : Db App
  pub enrollment : Enrollment
  pub replicate : Bool
  pub authed : List (Bytes × AuthedPeer)
  pub greeted : List Bytes
  pub readonly_origins : List Bytes
  pub deny : List Bytes

abbrev pub contains : Bytes → List Bytes → Bool
contains peer l = any (λ (p : Bytes). p == peer) l

abbrev pub without : Bytes → List Bytes → List Bytes
without peer l = keep (λ (p : Bytes). not (p == peer)) l

abbrev pub is_held {ℓ} : {A : Type ℓ} → Option A → Bool
is_held none = false
is_held (some a) = true

abbrev pub is_nil : List ChangeRecord → Bool
is_nil [] = true
is_nil (c ∷ changes) = false

module _ {App : Type 0} (env : Env App) where
  unfoldable pub request_sync : Runtime App → Bytes → List Effect
  request_sync n peer = if not n.replicate then [] else elim (find peer n.authed) [
    | none ↦ []
    | some info ↦
        if info.replicates
        then send peer (sync (version_vector n.db.crdt) max_sync_changes) ∷ []
        else []
  ]

  -- Changes by a device that is enrolled read-only are dropped, whoever hands them on.
  unfoldable pub apply :
      Runtime App → Bytes → List ChangeRecord → Runtime App × (ApplyOutcome × List Effect)
  apply n peer changes =
      let kept = keep (λ (c : ChangeRecord). not (contains c.origin n.readonly_origins)) changes in
      let (db, out) = apply_remote env n.db kept in
      (
        record n { db = db },
        (out, if out.applied == 0 then [] else synced peer out.applied out.tables_touched ∷ []),
      )

  abbrev pub authed_of : DeviceCert → Bool → ℕ → AuthedPeer
  authed_of cert replicates now = record {
    user_id = cert.claims.user_id;
    display_name = cert.claims.display_name;
    role = cert.claims.role;
    since_ms = now;
    replicates = replicates;
  }

  -- The peer is taken in, and remembered as read-only or not.
  unfoldable pub admit : Runtime App → Bytes → DeviceCert → Bool → ℕ → Runtime App × List Effect
  admit n peer cert replicates now = (
    record n {
      authed = put peer (authed_of cert replicates now) n.authed;
      readonly_origins =
          if may_write cert.claims.role
          then without peer n.readonly_origins
          else peer ∷ n.readonly_origins;
    },
    if is_held (find peer n.authed) then [] else peer_connected peer ∷ [],
  )

  -- What comes of the judgement on the certificate.
  unfoldable pub judged :
      Runtime App
      → Bytes
      → DeviceCert
      → Bool
      → ℕ
      → Result (Unit {0})
      → Runtime App × (Bool × List Effect)
  unfolding admit
  judged n peer cert replicates since (err _) = (n, (false, []))
  judged n peer cert replicates since (ok _) =
      let r = admit n peer cert replicates since in (r.0, (true, r.1))

  -- The trust gate. A newer revocation list is adopted before the certificate is judged, and kept
  -- also when the certificate is refused. The clock is read for the check and for the entry.
  unfoldable pub accept_peer :
      Runtime App
      → Bytes
      → DeviceCert
      → RevocationList
      → Bool
      → ℕ
      → ℕ
      → Runtime App × (Bool × List Effect)
  unfolding judged
  accept_peer n peer cert crl replicates now since =
      let e = (merge_crl env.crypto n.enrollment crl).0 in
      judged (record n { enrollment = e }) peer cert replicates since
        (Cert.verify env.crypto cert e.org_id (some peer) (some e.crl) now)

  abbrev pub own_hello : Runtime App → Resp
  own_hello n = hello_back protocol_version n.enrollment.cert n.enrollment.crl n.replicate

  unfoldable pub refuse : Runtime App → Bytes → Runtime App × (Resp × List Effect)
  refuse n peer = (record n { deny = peer ∷ without peer n.deny }, (denied, []))

  -- Storage that fails is an empty page.
  unfoldable pub serve : Runtime App → VersionVector → ℕ → Resp
  serve n vv limit =
      let l = min limit max_sync_changes in
      elim (changes_since n.db.crdt vv l) [
        | ok changes ↦ page changes (length changes == l)
        | err _ ↦ page [] false
      ]

  -- A request, with its reply and what else goes out.
  unfoldable pub on_request : Runtime App → Bytes → Req → ℕ → ℕ → Runtime App × (Resp × List Effect)
  unfolding accept_peer refuse serve apply
  on_request n peer (hello proto cert crl replicates) now since =
      if proto == protocol_version
      then (let (n', r) = accept_peer n peer cert crl replicates now since in
          if r.0 then (n', (own_hello n', r.1)) else refuse n' peer)
      else refuse n peer
  on_request n peer (sync vv limit) now since =
      if not (is_held (find peer n.authed))
      then (n, (denied, []))
      else if not n.replicate
      then (n, (page [] false, []))
      else (n, (serve n vv limit, []))
  on_request n peer (push changes) now since =
      if not (is_held (find peer n.authed))
      then (n, (denied, []))
      else if not n.replicate
      then (n, (pushed 0 0, []))
      else (let (n', r) = apply n peer changes in (n', (pushed r.0.applied r.0.rejected, r.1)))

  abbrev pub reject : Bytes → List Effect
  reject peer = peer_rejected peer ∷ disconnect peer ∷ []

  -- A reply to a request of ours.
  unfoldable pub on_response : Runtime App → Bytes → Resp → ℕ → ℕ → Runtime App × List Effect
  unfolding accept_peer apply request_sync
  on_response n peer (hello_back proto cert crl replicates) now since =
      if proto == protocol_version
      then (let (n', r) = accept_peer n peer cert crl replicates now since in
          if r.0 then (n', r.1 ++ request_sync n' peer) else (n', reject peer))
      else (n, reject peer)
  on_response n peer (page changes has_more) now since =
      let (n', r) = apply n peer changes in
      let now_held : Runtime App = if is_nil changes then n else n' in
      let out : List Effect = if is_nil changes then [] else r.1 in
      (now_held, if has_more then out ++ request_sync now_held peer else out)
  on_response n peer (pushed applied rejected) now since = (n, [])
  on_response n peer denied now since = (n, reject peer)

  -- A broadcast is honoured only from a peer that has been let in.
  unfoldable pub on_gossip : Runtime App → Bytes → List ChangeRecord → Runtime App × List Effect
  unfolding apply
  on_gossip n source changes =
      if not (is_held (find source n.authed))
      then (n, [])
      else if not n.replicate
      then (n, [])
      else (let (n', r) = apply n source changes in (n', r.1))

  -- A refusal has reached the wire.
  unfoldable pub on_response_sent : Runtime App → Bytes → Runtime App × List Effect
  on_response_sent n peer =
      if contains peer n.deny
      then (record n { deny = without peer n.deny }, reject peer)
      else (n, [])

  unfoldable pub on_established : Runtime App → Bytes → Runtime App × List Effect
  on_established n peer = if contains peer n.greeted then (n, []) else (
    record n { greeted = peer ∷ n.greeted },
    send peer (hello protocol_version n.enrollment.cert n.enrollment.crl n.replicate) ∷ [],
  )

  -- The last connection to a peer has gone.
  unfoldable pub on_closed : Runtime App → Bytes → Runtime App × List Effect
  on_closed n peer = (
    record n { greeted = without peer n.greeted; authed = delete peer n.authed },
    if is_held (find peer n.authed) then peer_disconnected peer ∷ [] else [],
  )
