-- ===== src/Mobile.antt =====
-- rust/p2p-mobile/src/lib.rs: the client that an app holds, and the device key on disk. The handle of
-- a node is its runtime and the commands that wait in its channel; a listener only hears events, so
-- it is left out, as are the runtime threads, the two switches of the network, and failures of the
-- file system.
pub mod Json
pub mod Data
pub mod Frame
pub mod Enrolled
use orgsync.Base.{
  ℕ, Bool, true, false, Option, none, some, List, [], ◌∷◌, ◌++◌, map, Bytes, codes, length,
  if◌then◌else◌, nat_ord, list_ord,
}
use orgsync.Error
use orgsync.Error.{Result, ok, err}
use orgsync.Crypto.{Crypto}
use orgsync.Value.{SqlValue, int, text}
use orgsync.Identity.{from_secret}
use orgsync.Enroll.{EnrollRequest, EnrollResponse, Enrollment, build_enroll_request, accept}
use orgsync.Enroll.Saved.{EnrollmentJson, save, load}
use orgsync.Db.{TableSpec, Env, Db, write_row, erase_row}
use orgsync.Db.Local.{flush_local}
use orgsync.Db.Outbox.{Meta}
use orgsync.Db.Open.{Catalog, File, open_authenticated, register_table}
use orgsync.Node.{Runtime, Effect}
use orgsync.Node.Gate.{Event, step}
use orgsync.Node.Broadcast.{flush_and_push, request_sync_from_all}
use orgsync.Node.Saving.{greeting, keep_enrollment}
use orgsync.Node.Peers.{PeerTable, spawn}
use orgsync.Mobile.Json.{
  P2pResult, done, raised, failed, not_enrolled, not_running, Serde, array, value_to_json,
  parse_params,
}

-- The file `device.key`, if it is there.
abbrev pub KeyFile : Type 0
KeyFile = Option Bytes

-- The secret that is drawn on the first run is written down.
unfoldable pub load_or_create_identity : Crypto → KeyFile → Bytes → P2pResult (Bytes × KeyFile)
unfolding from_secret
load_or_create_identity c none drawn = done (drawn, some drawn)
load_or_create_identity c (some raw) drawn = elim (from_secret c raw) [
  | ok secret ↦ done (secret, some raw)
  | err e ↦ raised failed
]

pub data Command : Type 0 where
  local_changed : Command
  sync_now : Command

-- The replica is the node's while one runs.
pub data Slot (App : Type 0) : Type 0 where
  idle : (db : Db App) → Slot App
  running : (node : Runtime App) (waiting : List Command) → Slot App

-- `P2pClient`, with the tables `_p2p_meta` and `_p2p_peer` of its file.
pub record Client (App : Type 0) : Type 0 where
  pub secret : Bytes
  pub slot : Slot App
  pub meta : Meta
  pub peers : PeerTable

module _ {App : Type 0} where
  abbrev pub db_of : Slot App → Db App
  db_of (idle db) = db
  db_of (running node waiting) = node.db

  abbrev pub with_db : Db App → Slot App → Slot App
  with_db db (idle old) = idle db
  with_db db (running node waiting) = running (record node { db = db }) waiting

  abbrev pub is_running : Client App → Bool
  is_running c = elim c.slot [ idle db ↦ false | running node waiting ↦ true ]

  -- `handle` and the sending of a command to it.
  abbrev pub queue : Slot App → Command → P2pResult (Slot App)
  queue (idle db) cmd = raised not_running
  queue (running node waiting) cmd = done (running node (waiting ++ (cmd ∷ [])))

  module _ (env : Env App) (cat : Catalog App) (j : EnrollmentJson) where
    -- `P2pClient::new`, on what is in the data directory.
    unfoldable pub new :
        KeyFile → File App → Meta → PeerTable → Bytes → ℕ → P2pResult (Client App × KeyFile)
    unfolding load_or_create_identity open_authenticated
    new key file meta peers drawn readings = elim (load_or_create_identity env.crypto key drawn) [
      | raised e ↦ raised e
      | done r ↦
          elim (open_authenticated cat file (env.crypto.peer_id (env.crypto.public r.0)) r.0
            readings) [
              | err e ↦ raised failed
              | ok db ↦
                  done (record { secret = r.0; slot = idle db; meta = meta; peers = peers }, r.1)
            ]
    ]

    abbrev pub held : Result (Option Enrollment) → Bool
    held (ok (some e)) = true
    held _ = false

    unfoldable pub is_enrolled : Client App → Bool
    unfolding load
    is_enrolled c = held (load j c.meta)

    abbrev pub begin_enrollment : Client App → Bytes → Bytes → Bytes → ℕ → EnrollRequest
    begin_enrollment c code device_name platform now =
        build_enroll_request env.crypto c.secret code device_name platform now

    abbrev pub completed : Client App → Result Enrollment → Client App × P2pResult Enrollment
    completed c (err e) = (c, raised failed)
    completed c (ok e) = (record c { meta = save j c.meta e }, done e)

    -- The reply has been read from its JSON.
    unfoldable pub complete_enrollment :
        Client App → EnrollResponse → ℕ → Client App × P2pResult Enrollment
    unfolding accept save
    complete_enrollment c resp now = completed c (accept env.crypto resp c.secret now)

    abbrev pub spawned : Client App → Result (Runtime App) → Client App × P2pResult (Unit {0})
    spawned c (err e) = (c, raised failed)
    spawned c (ok node) = (record c { slot = running node [] }, done tt)

    abbrev pub started :
        Client App
        → Db App
        → ℕ
        → Result (Unit {0})
        → Result (Option Enrollment)
        → Client App × P2pResult (Unit {0})
    started c db now swarm (err e) = (c, raised failed)
    started c db now swarm (ok none) = (c, raised not_enrolled)
    started c db now swarm (ok (some e)) =
        spawned c (spawn env e c.secret db true c.peers now swarm)

    -- `swarm` is what `build_swarm` comes to.
    unfoldable pub start : Client App → ℕ → Result (Unit {0}) → Client App × P2pResult (Unit {0})
    unfolding load spawn
    start c now swarm = elim c.slot [
      | running node waiting ↦ (c, done tt)
      | idle db ↦ started c db now swarm (load j c.meta)
    ]

    -- `on_command` for these two.
    unfoldable pub obey : Runtime App → Meta → Command → Runtime App × (Meta × List Effect)
    unfolding flush_and_push request_sync_from_all
    obey node meta sync_now = (node, (meta, request_sync_from_all env node))
    obey node meta local_changed = flush_and_push env node meta

    unfoldable pub obey_all : Runtime App → Meta → List Command → Runtime App × (Meta × List Effect)
    unfolding obey
    obey_all node meta [] = (node, (meta, []))
    obey_all node meta (cmd ∷ rest) =
        let (node', r) = obey node meta cmd in
        let (node'', q) = obey_all node' r.0 rest in (node'', (q.0, r.1 ++ q.1))

    -- The node takes the first command of its channel.
    unfoldable pub turn : Client App → Client App × List Effect
    unfolding obey
    turn c = elim c.slot [
      | idle db ↦ (c, [])
      | running node waiting ↦ elim waiting [
        | [] ↦ (c, [])
        | cmd ∷ rest ↦
            let (node', r) = obey node c.meta cmd in
            (record c { slot = running node' rest; meta = r.0 }, r.1)
      ]
    ]

    -- What comes from the network.
    unfoldable pub hear : Client App → Event env → Client App
    unfolding step keep_enrollment
    hear c ev = elim c.slot [
      | idle db ↦ c
      | running node waiting ↦ record c {
        slot = running (step env node ev) waiting;
        meta = keep_enrollment env j c.meta node.enrollment (greeting env j ev);
      }
    ]

    -- The command to shut down comes behind those that wait.
    unfoldable pub stop : Client App → Client App × List Effect
    unfolding obey_all
    stop c = elim c.slot [
      | idle db ↦ (c, [])
      | running node waiting ↦
          let (node', r) = obey_all node c.meta waiting in
          (record c { slot = idle node'.db; meta = r.0 }, r.1)
    ]

    abbrev pub asked_sync : Client App → P2pResult (Slot App) → Client App × P2pResult (Unit {0})
    asked_sync c (raised e) = (c, raised e)
    asked_sync c (done slot) = (record c { slot = slot }, done tt)

    unfoldable pub ask_sync : Client App → Client App × P2pResult (Unit {0})
    ask_sync c = asked_sync c (queue c.slot sync_now)
