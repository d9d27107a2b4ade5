-- ===== src/Mobile/Frame.antt =====
-- What the calls of an app keep of the metadata table.
use orgsync.Base.{
  ℕ, ◌≡◌, refl, ap, ◌∙◌, true, false, inl, inr, Option, none, some, List, [], ◌∷◌, Bytes, find,
  find-put_other, compare_list, ℤ, print_int, ◌==◌, Bool-cases, nat_ord, list_ord,
}
use orgsync.Error.{Result, ok, err}
use orgsync.Change.{ChangeRecord}
use orgsync.Value.{SqlValue}
use orgsync.Enroll.{Enrollment}
use orgsync.Enroll.Saved.{EnrollmentJson, meta_key, load, load_raw}
use orgsync.Db.{Env, Db}
use orgsync.Db.Local.{flush_local}
use orgsync.Db.Open.{Catalog}
use orgsync.Db.Outbox.{Meta, set_meta, get_meta, broadcast_seq, mark_broadcast, unbroadcast_local}
use orgsync.Node.{Runtime, max_sync_changes}
use orgsync.Node.Broadcast.{flush_and_push, push_page}
use orgsync.Node.Peers.{PeerTable, spawn}
use orgsync.Mobile.Json.{P2pResult, done, raised, Serde, parse_params}
use orgsync.Mobile.{
  Client, Command, local_changed, sync_now, Slot, idle, running, spawned, started, obey, obey_all,
  start, turn, stop, asked_sync,
}
use orgsync.Mobile.Data.{
  Files, Sql, files_of, as_text, message, insert_message, sent, sending, executed, with_params,
  execute, registered,
}

module _ (j : EnrollmentJson) where
  load-mark_broadcast : (meta : Meta) (seq : ℤ) → load j (mark_broadcast meta seq) ≡ load j meta
  unfolding load get_meta set_meta mark_broadcast
  load-mark_broadcast meta seq =
      let apart : (broadcast_seq == meta_key) ≡ false = unfold compare_list in refl in
      ap (load_raw j) (find-put_other broadcast_seq meta_key (print_int seq) meta apart)

  module _ {App : Type 0} (env : Env App) (cat : Catalog App) where
    load-push_page :
        (n : Runtime App) (meta : Meta) (page : Result (List ChangeRecord × ℤ))
        → load j (push_page n meta page).0 ≡ load j meta
    unfolding push_page
    load-push_page n meta (err e) = refl
    load-push_page n meta (ok ([], high)) = refl
    load-push_page n meta (ok (c ∷ changes, high)) = load-mark_broadcast meta high

    load-flush_and_push :
        (n : Runtime App) (meta : Meta) → load j (flush_and_push env n meta).1.0 ≡ load j meta
    unfolding flush_and_push
    load-flush_and_push n meta = elim (Bool-cases n.replicate) [
      | inr holds_none ↦ rw holds_none
      | inl holds ↦
          let n' = record n { db = (flush_local env n.db).0 } in
          rw holds (load-push_page n' meta (unbroadcast_local n'.db meta max_sync_changes))
    ]

    load-obey :
        (n : Runtime App) (meta : Meta) (cmd : Command)
        → load j (obey env cat j n meta cmd).1.0 ≡ load j meta
    unfolding obey
    load-obey n meta sync_now = refl
    load-obey n meta local_changed = load-flush_and_push n meta

    load-obey_all :
        (n : Runtime App) (meta : Meta) (waiting : List Command)
        → load j (obey_all env cat j n meta waiting).1.0 ≡ load j meta
    unfolding obey_all
    load-obey_all n meta [] = refl
    load-obey_all n meta (cmd ∷ rest) =
        let r = obey env cat j n meta cmd in load-obey_all r.0 r.1.0 rest ∙ load-obey n meta cmd

    spawned-meta :
        (c : Client App) (r : Result (Runtime App)) → (spawned env cat j c r).0.meta ≡ c.meta
    spawned-meta c (err e) = refl
    spawned-meta c (ok n) = refl

    started-meta :
        (c : Client App) (db : Db App) (now : ℕ) (swarm : Result (Unit {0}))
        (r : Result (Option Enrollment))
        → (started env cat j c db now swarm r).0.meta ≡ c.meta
    started-meta c db now swarm (err e) = refl
    started-meta c db now swarm (ok none) = refl
    started-meta c db now swarm (ok (some e)) =
        spawned-meta c (spawn env e c.secret db true c.peers now swarm)

    pub asked_sync-meta :
        (c : Client App) (r : P2pResult (Slot App)) → (asked_sync env cat j c r).0.meta ≡ c.meta
    asked_sync-meta c (raised e) = refl
    asked_sync-meta c (done slot) = refl

    pub registered-meta :
        (c : Client App) (r : Result (Db App)) → (registered env cat j c r).0.meta ≡ c.meta
    registered-meta c (err e) = refl
    registered-meta c (ok db) = refl

    pub start-meta :
        (secret : Bytes) (slot : Slot App) (meta : Meta) (peers : PeerTable) (now : ℕ)
        (swarm : Result (Unit {0}))
        → let c : Client App = record {
          secret = secret;
          slot = slot;
          meta = meta;
          peers = peers;
        } in
          (start env cat j c now swarm).0.meta ≡ meta
    unfolding start
    start-meta secret (running node waiting) meta peers now swarm = refl
    start-meta secret (idle db) meta peers now swarm =
        let c : Client App = record {
          secret = secret;
          slot = idle db;
          meta = meta;
          peers = peers;
        } in
        started-meta c db now swarm (load j meta)

    pub load-turn :
        (secret : Bytes) (slot : Slot App) (meta : Meta) (peers : PeerTable)
        → let c : Client App = record {
          secret = secret;
          slot = slot;
          meta = meta;
          peers = peers;
        } in
          load j (turn env cat j c).0.meta ≡ load j meta
    unfolding turn
    load-turn secret (idle db) meta peers = refl
    load-turn secret (running node []) meta peers = refl
    load-turn secret (running node (cmd ∷ rest)) meta peers = load-obey node meta cmd

    pub load-stop :
        (secret : Bytes) (slot : Slot App) (meta : Meta) (peers : PeerTable)
        → let c : Client App = record {
          secret = secret;
          slot = slot;
          meta = meta;
          peers = peers;
        } in
          load j (stop env cat j c).0.meta ≡ load j meta
    unfolding stop
    load-stop secret (idle db) meta peers = refl
    load-stop secret (running node waiting) meta peers = load-obey_all node meta waiting

    executed-meta :
        (c : Client App) (r : Files App × Option ℕ) → (executed env cat j c r).0.meta ≡ r.0.1.0
    executed-meta c (files, none) = refl
    executed-meta c (files, some affected) = refl

    module _ (serde : Serde) (run_sql : Sql App) where
      -- The statement leaves the row with the enrolment alone, whatever its values are.
      abbrev pub Spares : Bytes → Type 0
      Spares sql =
          (params : List SqlValue) (files : Files App)
          → find meta_key (run_sql sql params files).0.1.0 ≡ find meta_key files.1.0

      load-with_params :
          (c : Client App) (sql : Bytes) (r : P2pResult (List SqlValue))
          → Spares sql
          → load j (with_params env cat j serde run_sql c sql r).0.meta ≡ load j c.meta
      unfolding load get_meta
      load-with_params c sql (raised e) spared = refl
      load-with_params c sql (done params) spared =
          ap (λ (m : Meta). load_raw j (find meta_key m))
            (executed-meta c (run_sql sql params (files_of c)))
          ∙ ap (load_raw j) (spared params (files_of c))

      pub load-execute :
          (c : Client App) (sql params : Bytes)
          → Spares sql
          → load j (execute env cat j serde run_sql c sql params).0.meta ≡ load j c.meta
      unfolding execute
      load-execute c sql params = load-with_params c sql (parse_params env.crypto serde params)

      sent-meta :
          (id : Bytes) (r : Client App × P2pResult ℕ)
          → (sent env cat j serde run_sql id r).0.meta ≡ r.0.meta
      sent-meta id (c, done affected) = refl
      sent-meta id (c, raised e) = refl

      pub load-sending :
          (c : Client App) (room body id : Bytes) (now : ℕ) (r : Result (Option Enrollment))
          → Spares (insert_message env cat j serde run_sql)
          → load j (sending env cat j serde run_sql c room body id now r).0.meta ≡ load j c.meta
      load-sending c room body id now (err e) spared = refl
      load-sending c room body id now (ok none) spared = refl
      load-sending c room body id now (ok (some e)) spared =
          let params =
            as_text env cat j serde run_sql
              (message env cat j serde run_sql c e id room body now) in
          let sql = insert_message env cat j serde run_sql in
          ap (load j) (sent-meta id (execute env cat j serde run_sql c sql params))
          ∙ load-execute c sql params spared
