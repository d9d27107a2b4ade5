-- ===== src/Mobile/Data.antt =====
-- The calls of rust/p2p-mobile/src/lib.rs that write: statements, messages and tables. What SQLite
-- does with a statement is a parameter, and the statement may write any table of the file.
use orgsync.Base.{ℕ, Option, none, some, List, [], ◌∷◌, ◌++◌, map, Bytes, codes, nat_ord, list_ord}
use orgsync.Error.{Result, ok, err}
use orgsync.Value.{SqlValue, int, text}
use orgsync.Enroll.{Enrollment}
use orgsync.Enroll.Saved.{EnrollmentJson, load}
use orgsync.Db.{Env, Db}
use orgsync.Db.Local.{flush_local}
use orgsync.Db.Open.{Catalog, File, register_table}
use orgsync.Db.Outbox.{Meta}
use orgsync.Node.Peers.{PeerTable}
use orgsync.Mobile.Json.{
  P2pResult, done, raised, failed, not_enrolled, Serde, array, value_to_json, parse_params,
}
use orgsync.Mobile.{Client, Slot, local_changed, db_of, with_db, queue}

-- The tables of the file of a device.
abbrev pub Files : Type 0 → Type 0
Files App = File App × (Meta × PeerTable)

-- What SQLite does with a statement and its values: the tables after it, and the number of rows, or
-- none where it fails.
abbrev pub Sql : Type 0 → Type 0
Sql App = Bytes → List SqlValue → Files App → Files App × Option ℕ

module _ {App : Type 0} where
  abbrev pub file_of : Db App → File App
  file_of db = record {
    synced = db.tables;
    guard = db.guard;
    local_ops = db.local_ops;
    next_op = db.next_op;
    crdt = db.crdt;
    app = db.app;
  }

  abbrev pub with_file : Db App → File App → Db App
  with_file db file = record db {
    tables = file.synced;
    guard = file.guard;
    local_ops = file.local_ops;
    next_op = file.next_op;
    crdt = file.crdt;
    app = file.app;
  }

  abbrev pub files_of : Client App → Files App
  files_of c = (file_of (db_of c.slot), (c.meta, c.peers))

  abbrev pub with_files : Client App → Files App → Client App
  with_files c files = record c {
    slot = with_db (with_file (db_of c.slot) files.0) c.slot;
    meta = files.1.0;
    peers = files.1.1;
  }

  module _ (env : Env App) (cat : Catalog App) (j : EnrollmentJson) where
    abbrev or_held : Slot App → P2pResult (Slot App) → Slot App
    or_held slot (raised e) = slot
    or_held slot (done slot') = slot'

    -- What the statement has staged is flushed, and the node is told.
    abbrev pub flushed : Client App → Client App
    flushed c =
        let slot = with_db (flush_local env (db_of c.slot)).0 c.slot in
        record c { slot = or_held slot (queue slot local_changed) }

    abbrev pub executed : Client App → Files App × Option ℕ → Client App × P2pResult ℕ
    executed c (files, none) = (with_files c files, raised failed)
    executed c (files, some affected) = (flushed (with_files c files), done affected)

    module _ (serde : Serde) (run_sql : Sql App) where
      abbrev pub with_params :
          Client App → Bytes → P2pResult (List SqlValue) → Client App × P2pResult ℕ
      with_params c sql (raised e) = (c, raised e)
      with_params c sql (done params) = executed c (run_sql sql params (files_of c))

      unfoldable pub execute : Client App → Bytes → Bytes → Client App × P2pResult ℕ
      unfolding parse_params flush_local
      execute c sql params = with_params c sql (parse_params env.crypto serde params)

      abbrev pub insert_message : Bytes
      insert_message =
          codes "INSERT INTO messages (id, room, author, author_name, body, sent_at_ms)"
          ++ (10 ∷ codes "             VALUES (?1, ?2, ?3, ?4, ?5, ?6)")

      -- The values of a new message.
      abbrev pub message : Client App → Enrollment → Bytes → Bytes → Bytes → ℕ → List SqlValue
      message c e id room body now =
          text id
          ∷ text room
          ∷ text (env.crypto.peer_id (env.crypto.public c.secret))
          ∷ text e.cert.claims.display_name
          ∷ text body
          ∷ int now
          ∷ []

      abbrev pub as_text : List SqlValue → Bytes
      as_text l = serde.to_string (array (serde.of_items (map (value_to_json env.crypto serde) l)))

      abbrev pub sent : Bytes → Client App × P2pResult ℕ → Client App × P2pResult Bytes
      sent id (c, done affected) = (c, done id)
      sent id (c, raised e) = (c, raised e)

      abbrev pub sending :
          Client App
          → Bytes
          → Bytes
          → Bytes
          → ℕ
          → Result (Option Enrollment)
          → Client App × P2pResult Bytes
      sending c room body id now (err e) = (c, raised failed)
      sending c room body id now (ok none) = (c, raised not_enrolled)
      sending c room body id now (ok (some e)) =
          sent id (execute c insert_message (as_text (message c e id room body now)))

      -- 16 bytes are drawn for the id.
      unfoldable pub send_message :
          Client App → Bytes → Bytes → Bytes → ℕ → Client App × P2pResult Bytes
      unfolding load execute
      send_message c room body raw now =
          sending c room body (env.crypto.hex_encode raw) now (load j c.meta)

    abbrev pub registered : Client App → Result (Db App) → Client App × P2pResult (Unit {0})
    registered c (err e) = (c, raised failed)
    registered c (ok db) = (record c { slot = with_db db c.slot }, done tt)

    unfoldable pub register : Client App → Bytes → Bytes → Client App × P2pResult (Unit {0})
    unfolding register_table
    register c table pk_column = registered c (register_table cat (db_of c.slot) table pk_column)
