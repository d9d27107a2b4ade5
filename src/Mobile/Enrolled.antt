-- ===== src/Mobile/Enrolled.antt =====
-- A device that has joined stays joined, whatever the app calls.
use orgsync.Base.{
  ℕ, ◌≡◌, ◌≢◌, ap, ◌∙◌, true, inl, inr, Option, none, some, List, [], ◌∷◌, Bytes, Bool-cases,
  nat_ord, list_ord,
}
use orgsync.Error.{Result, ok, err}
use orgsync.Enroll.{EnrollResponse, Enrollment, accept, merge_crl}
use orgsync.Enroll.Saved.{EnrollmentJson, load}
use orgsync.Db.{Env, Db}
use orgsync.Db.Open.{Catalog, register_table}
use orgsync.Db.Outbox.{Meta}
use orgsync.Identity.Crl.{RevocationList}
use orgsync.Node.{Runtime}
use orgsync.Node.Gate.{Event}
use orgsync.Node.Peers.{PeerTable, spawn}
use orgsync.Node.Saving.{greeting, keep_enrollment, load-save}
use orgsync.Mobile.Json.{raised, not_enrolled, Serde}
use orgsync.Mobile.{
  Client, sync_now, Slot, idle, running, db_of, queue, held, is_enrolled, completed, spawned,
  started, complete_enrollment, start, turn, hear, stop, ask_sync,
}
use orgsync.Mobile.Data.{Sql, insert_message, send_message, execute, register}
use orgsync.Mobile.Frame.{
  start-meta, load-turn, load-stop, asked_sync-meta, registered-meta, Spares, load-execute,
  load-sending,
}

module _ (j : EnrollmentJson) where
  module _ {App : Type 0} (env : Env App) (cat : Catalog App) where
    -- What an app calls, and what the node does meanwhile.
    pub data Call : Type 0 where
      completes : (resp : EnrollResponse) (now : ℕ) → Call
      starts : (now : ℕ) (swarm : Result (Unit {0})) → Call
      turns : Call
      hears : (ev : Event env) → Call
      stops : Call
      syncs : Call
      executes : (sql params : Bytes) → Call
      sends : (room body raw : Bytes) (now : ℕ) → Call
      registers : (table pk_column : Bytes) → Call

    module _ (serde : Serde) (run_sql : Sql App) where
      unfoldable pub call : Client App → Call → Client App
      unfolding complete_enrollment start turn hear stop ask_sync execute register send_message
      call c (completes resp now) = (complete_enrollment env cat j c resp now).0
      call c (starts now swarm) = (start env cat j c now swarm).0
      call c turns = (turn env cat j c).0
      call c (hears ev) = hear env cat j c ev
      call c stops = (stop env cat j c).0
      call c syncs = (ask_sync env cat j c).0
      call c (executes sql params) = (execute env cat j serde run_sql c sql params).0
      call c (sends room body raw now) =
          (send_message env cat j serde run_sql c room body raw now).0
      call c (registers table pk_column) = (register env cat j c table pk_column).0

      unfoldable pub calls : Client App → List Call → Client App
      unfolding call
      calls c [] = c
      calls c (x ∷ rest) = calls (call c x) rest

      -- The statement of the call, if it makes one, leaves the row with the enrolment alone.
      abbrev pub IsSparing : Call → Type 0
      IsSparing (executes sql params) = Spares j env cat serde run_sql sql
      IsSparing (sends room body raw now) =
          Spares j env cat serde run_sql (insert_message env cat j serde run_sql)
      IsSparing _ = Unit {0}

      abbrev pub AreSparing : List Call → Type 0
      AreSparing [] = Unit {0}
      AreSparing (x ∷ rest) = IsSparing x × AreSparing rest

      abbrev IsJoined : Client App → Type 0
      IsJoined c = is_enrolled env cat j c ≡ true

      completed-IsJoined :
          (c : Client App) (r : Result Enrollment)
          → IsJoined c
          → IsJoined (completed env cat j c r).0
      unfolding is_enrolled
      completed-IsJoined c (err e) here = here
      completed-IsJoined c (ok e) here = ap (held env cat j) (load-save env j c.meta e)

      by_load : (a b : Client App) → load j a.meta ≡ load j b.meta → IsJoined b → IsJoined a
      unfolding is_enrolled
      by_load a b same here = ap (held env cat j) same ∙ here

      kept-IsJoined :
          (c : Client App) (e : Enrollment) (o : Option RevocationList)
          → IsJoined c
          → IsJoined (record c { meta = keep_enrollment env j c.meta e o })
      unfolding keep_enrollment is_enrolled
      kept-IsJoined c e none here = here
      kept-IsJoined c e (some crl) here = elim (Bool-cases (merge_crl env.crypto e crl).1) [
        | inl adopted ↦
            rw adopted (ap (held env cat j) (load-save env j c.meta (merge_crl env.crypto e crl).0))
        | inr stale ↦ rw stale here
      ]

      hear-IsJoined :
          (secret : Bytes) (slot : Slot App) (meta : Meta) (peers : PeerTable) (ev : Event env)
          → let c : Client App = record {
            secret = secret;
            slot = slot;
            meta = meta;
            peers = peers;
          } in
            IsJoined c → IsJoined (hear env cat j c ev)
      unfolding hear is_enrolled
      hear-IsJoined secret (idle db) meta peers ev here = here
      hear-IsJoined secret (running node waiting) meta peers ev here =
          let c : Client App = record {
            secret = secret;
            slot = running node waiting;
            meta = meta;
            peers = peers;
          } in
          kept-IsJoined c node.enrollment (greeting env j ev) here

      call-IsJoined : (c : Client App) (x : Call) → IsSparing x → IsJoined c → IsJoined (call c x)
      unfolding call complete_enrollment ask_sync execute register send_message
      call-IsJoined c (completes resp now) spared here =
          completed-IsJoined c (accept env.crypto resp c.secret now) here
      call-IsJoined c (starts now swarm) spared here =
          by_load (start env cat j c now swarm).0 c
            (ap (load j) (start-meta j env cat c.secret c.slot c.meta c.peers now swarm)) here
      call-IsJoined c turns spared here =
          by_load (turn env cat j c).0 c (load-turn j env cat c.secret c.slot c.meta c.peers) here
      call-IsJoined c (hears ev) spared here = hear-IsJoined c.secret c.slot c.meta c.peers ev here
      call-IsJoined c stops spared here =
          by_load (stop env cat j c).0 c (load-stop j env cat c.secret c.slot c.meta c.peers) here
      call-IsJoined c syncs spared here =
          by_load (ask_sync env cat j c).0 c
            (ap (load j) (asked_sync-meta j env cat c (queue c.slot sync_now))) here
      call-IsJoined c (executes sql params) spared here =
          by_load (execute env cat j serde run_sql c sql params).0 c
            (load-execute j env cat serde run_sql c sql params spared) here
      call-IsJoined c (sends room body raw now) spared here =
          by_load (send_message env cat j serde run_sql c room body raw now).0 c
            (load-sending j env cat serde run_sql c room body (env.crypto.hex_encode raw) now
              (load j c.meta) spared)
            here
      call-IsJoined c (registers table pk_column) spared here =
          by_load (register env cat j c table pk_column).0 c
            (ap (load j)
              (registered-meta j env cat c (register_table cat (db_of c.slot) table pk_column)))
            here

      calls-IsJoined :
          (c : Client App) (l : List Call) → AreSparing l → IsJoined c → IsJoined (calls c l)
      unfolding calls
      calls-IsJoined c [] spared here = here
      calls-IsJoined c (x ∷ rest) (spared, later) here =
          calls-IsJoined (call c x) rest later (call-IsJoined c x spared here)

      spawned_lem :
          (c : Client App) (r : Result (Runtime App))
          → (spawned env cat j c r).1 ≢ raised not_enrolled
      spawned_lem c (err e) = λ bad. cc
      spawned_lem c (ok n) = λ bad. cc

      started_lem :
          (c : Client App) (db : Db App) (now : ℕ) (swarm : Result (Unit {0}))
          (r : Result (Option Enrollment))
          → held env cat j r ≡ true
          → (started env cat j c db now swarm r).1 ≢ raised not_enrolled
      started_lem c db now swarm (err e) here = λ bad. cc
      started_lem c db now swarm (ok none) here = λ bad. cc
      started_lem c db now swarm (ok (some e)) here =
          spawned_lem c (spawn env e c.secret db true c.peers now swarm)

      start_lem :
          (secret : Bytes) (slot : Slot App) (meta : Meta) (peers : PeerTable) (now : ℕ)
          (swarm : Result (Unit {0}))
          → let c : Client App = record {
            secret = secret;
            slot = slot;
            meta = meta;
            peers = peers;
          } in
            IsJoined c → (start env cat j c now swarm).1 ≢ raised not_enrolled
      unfolding start is_enrolled
      start_lem secret (running node waiting) meta peers now swarm here = λ bad. cc
      start_lem secret (idle db) meta peers now swarm here =
          let c : Client App = record {
            secret = secret;
            slot = idle db;
            meta = meta;
            peers = peers;
          } in
          started_lem c db now swarm (load j meta) here

      -- A device that has joined is still joined after any calls of the app whose SQL statements leave
      -- the row of the enrolment in `_p2p_meta` alone, with anything that the node sends and hears
      -- between them; and starting then fails for other reasons at most.
      pub calls-is_enrolled :
          (c : Client App) (l : List Call) (now : ℕ) (swarm : Result (Unit {0}))
          → AreSparing l
          → is_enrolled env cat j c ≡ true
          → (is_enrolled env cat j (calls c l) ≡ true)
            × ((start env cat j (calls c l) now swarm).1 ≢ raised not_enrolled)
      calls-is_enrolled c l now swarm spared here =
          let end = calls c l in
          let kept = calls-IsJoined c l spared here in
          (kept, start_lem end.secret end.slot end.meta end.peers now swarm kept)
