-- ===== src/Cli/Peer/Joined.antt =====
-- A peer that has enrolled can run.
use orgsync.Base.{
  ℕ, ◌+◌, ◌%◌, ◌^◌, ◌<◌, ◌≤◌, ◌≡◌, refl, sym, ap, ◌∙◌, true, false, none, some, [], Bytes, nat_ord,
  list_ord,
}
use orgsync.Error.{Error, ok, err, ok_of_bind}
use orgsync.Hlc.{max_clock_drift_ms}
use orgsync.Identity.Crl.{is_revoked}
use orgsync.Identity.Cert.{check_crl}
use orgsync.Identity.Cert.Issued.{verify_again}
use orgsync.Enroll.{EnrollResponse, Enrollment, accept, validate}
use orgsync.Enroll.Accepted.{accept_sound}
use orgsync.Enroll.Saved.{EnrollmentJson, save, load}
use orgsync.Db.{Env, Db}
use orgsync.Db.Outbox.{Meta}
use orgsync.Node.{Runtime}
use orgsync.Node.Peers.{PeerTable, spawn, db_readonly_origins}
use orgsync.Node.Saving.{load-save}
use orgsync.Cli.Peer.{enroll, run_peer}

-- A time at which the certificate is valid.
pub record IsInTime (e : Enrollment) (now : ℕ) : Type 0 where
  pub started : e.cert.claims.issued_at_ms ≤ (now + max_clock_drift_ms) % 2 ^ 64
  pub unexpired : now < e.cert.claims.expires_at_ms

module _ {App : Type 0} (env : Env App) (j : EnrollmentJson) where
  accepted-validate :
      (response : EnrollResponse) (secret : Bytes) (now later : ℕ) (e : Enrollment)
      → accept env.crypto response secret now ≡ ok e
      → is_revoked e.crl e.cert.claims.serial ≡ false
      → IsInTime e later
      → validate env.crypto e secret later ≡ ok tt
  unfolding validate check_crl
  accepted-validate response secret now later e taken clean time =
      let (joined, _) = accept_sound env.crypto response secret now e taken in
      verify_again env.crypto e.cert e.org_id (some (env.crypto.peer_id (env.crypto.public secret)))
        none (some e.crl) now later joined.certified time.started time.unexpired (rw clean)

  enroll_steps :
      (meta meta' : Meta) (response : EnrollResponse) (secret : Bytes) (now : ℕ) (e : Enrollment)
      → enroll env.crypto j meta response secret now ≡ ok (meta', e)
      → (accept env.crypto response secret now ≡ ok e) × (load j meta' ≡ ok (some e))
  unfolding enroll
  enroll_steps meta meta' response secret now e h =
      let (e', taken, done) =
        ok_of_bind (accept env.crypto response secret now)
          (λ (k : Enrollment). ok (save j meta k, k)) h in
      let same : e' ≡ e = cc in
      let kept : save j meta e' ≡ meta' = cc in
      (
        taken ∙ ap (λ (k : Enrollment). ok k) same,
        ap (load j) (sym kept)
            ∙ load-save env j meta e'
            ∙ ap (λ (k : Enrollment). ok (some k)) same,
      )

  run_peer_intro :
      (meta : Meta) (secret : Bytes) (db : Db App) (peers : PeerTable) (now spawn_now : ℕ)
      (e : Enrollment)
      → load j meta ≡ ok (some e)
      → validate env.crypto e secret now ≡ ok tt
      → validate env.crypto e secret spawn_now ≡ ok tt
      → (n : Runtime App) × (run_peer env j meta secret db peers now spawn_now (ok tt) ≡ ok n)
        × (n.enrollment ≡ e)
  unfolding run_peer spawn
  run_peer_intro meta secret db peers now spawn_now e stored usable again = (
    record {
      db = db;
      enrollment = e;
      replicate = true;
      authed = [];
      greeted = [];
      readonly_origins = db_readonly_origins peers;
      deny = [];
    },
    rw (stored, usable, again),
    refl,
  )

  run_peer_fails :
      (meta : Meta) (secret : Bytes) (db : Db App) (peers : PeerTable) (now spawn_now : ℕ)
      (e : Enrollment) (bad : Error)
      → load j meta ≡ ok (some e)
      → validate env.crypto e secret now ≡ ok tt
      → validate env.crypto e secret spawn_now ≡ ok tt
      → run_peer env j meta secret db peers now spawn_now (err bad) ≡ err bad
  unfolding run_peer spawn
  run_peer_fails meta secret db peers now spawn_now e bad stored usable again =
      rw (stored, usable, again) refl

  -- A peer whose enrolment has been accepted and saved comes, at any times at which its certificate
  -- is valid, as far as the building of its swarm, if the list that came with the reply does not
  -- revoke it: when the swarm can be built the node starts with that enrolment, and when it cannot
  -- the run ends with that error.
  pub run_peer-enroll :
      (meta meta' : Meta) (response : EnrollResponse) (secret : Bytes) (now : ℕ) (e : Enrollment)
      (db : Db App) (peers : PeerTable) (start_now spawn_now : ℕ)
      → enroll env.crypto j meta response secret now ≡ ok (meta', e)
      → is_revoked e.crl e.cert.claims.serial ≡ false
      → IsInTime e start_now
      → IsInTime e spawn_now
      → ((n : Runtime App) × (run_peer env j meta' secret db peers start_now spawn_now (ok tt)
            ≡ ok n)
          × (n.enrollment ≡ e))
        × ((bad : Error)
            → run_peer env j meta' secret db peers start_now spawn_now (err bad) ≡ err bad)
  run_peer-enroll meta meta' response secret now e db peers start_now spawn_now joined clean first
        second =
      let (taken, stored) = enroll_steps meta meta' response secret now e joined in
      let usable = accepted-validate response secret now start_now e taken clean first in
      let again = accepted-validate response secret now spawn_now e taken clean second in
      (
        run_peer_intro meta' secret db peers start_now spawn_now e stored usable again,
        λ bad. run_peer_fails meta' secret db peers start_now spawn_now e bad stored usable again,
      )
