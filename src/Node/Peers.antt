-- ===== src/Node/Peers.antt =====
-- What a node remembers of its peers from session to session: the table `_p2p_peer` of
-- db/mod.rs, `Node::spawn` and the end of `accept_peer` of net/node.rs. The column of the
-- certificate holds it as a record and not as its JSON.
pub mod Remembered
use orgsync.Base.{
  ℕ, Bool, true, false, Option, none, some, List, [], ◌∷◌, map, Bytes, keep, find, put, ◌==◌,
  if◌then◌else◌, nat_ord, list_ord,
}
use orgsync.Error.{Result, ok, err, ◌>>=◌}
use orgsync.Identity.{readonly, as_str}
use orgsync.Identity.Crl.{RevocationList}
use orgsync.Identity.Cert.{DeviceCert}
use orgsync.Enroll.{Enrollment, validate}
use orgsync.Db.{Env, Db}
use orgsync.Node.{Runtime, Effect, accept_peer}

-- A row of `_p2p_peer` without its key.
pub record PeerRow : Type 0 where
  pub user_id : Bytes
  pub display_name : Bytes
  pub role : Bytes
  pub serial : ℕ
  pub last_seen_ms : ℕ
  pub cert : Option DeviceCert

abbrev pub PeerTable : Type 0
PeerTable = List (Bytes × PeerRow)

-- `INSERT .. ON CONFLICT(peer_id) DO UPDATE` of all columns.
unfoldable pub record_peer : PeerTable → Bytes → PeerRow → PeerTable
record_peer table peer row = put peer row table

abbrev has_role : Bytes → Bytes × PeerRow → Bool
has_role role e = e.1.role == role

unfoldable pub devices_with_role : PeerTable → Bytes → List Bytes
devices_with_role table role = map (λ e. e.0) (keep (has_role role) table)

-- A peer that is not in the table is not put there.
unfoldable pub touch_peer : PeerTable → Bytes → ℕ → PeerTable
touch_peer table peer now = elim (find peer table) [
  | none ↦ table
  | some row ↦ put peer (record row { last_seen_ms = now }) table
]

abbrev pub row_of_cert : DeviceCert → ℕ → PeerRow
row_of_cert cert now = record {
  user_id = cert.claims.user_id;
  display_name = cert.claims.display_name;
  role = as_str cert.claims.role;
  serial = cert.claims.serial;
  last_seen_ms = now;
  cert = some cert;
}

-- Read-only devices from previous sessions.
unfoldable pub db_readonly_origins : PeerTable → List Bytes
unfolding devices_with_role
db_readonly_origins table = devices_with_role table (as_str readonly)

module _ {App : Type 0} (env : Env App) where
  -- A node starts if its enrolment holds for its key at the time and its swarm can be built. What
  -- `build_swarm` of libp2p comes to is an argument.
  unfoldable pub spawn :
      Enrollment → Bytes → Db App → Bool → PeerTable → ℕ → Result (Unit {0}) → Result (Runtime App)
  unfolding db_readonly_origins
  spawn enrollment secret db replicate table now swarm = do
    fine ← validate env.crypto enrollment secret now
    built ← swarm
    ok (record {
      db = db;
      enrollment = enrollment;
      replicate = replicate;
      authed = [];
      greeted = [];
      readonly_origins = db_readonly_origins table;
      deny = [];
    })

  -- `accept_peer` with the table: a peer that is accepted is recorded. The clock is read three
  -- times.
  unfoldable pub accept_and_record :
      Runtime App
      → PeerTable
      → Bytes
      → DeviceCert
      → RevocationList
      → Bool
      → ℕ
      → ℕ
      → ℕ
      → Runtime App × (PeerTable × Bool)
  unfolding record_peer
  accept_and_record n table peer cert crl replicates now since seen =
      let (n', r) = accept_peer env n peer cert crl replicates now since in
      (n', (if r.0 then record_peer table peer (row_of_cert cert seen) else table, r.0))
