-- ===== src/Tests/Terminal.antt =====
-- A peer in a terminal that enrols and runs.
use orgsync.Base.{◌≡◌, ap, ◌∙◌, false, [], arith}
use orgsync.Error.{Error, err, ok}
use orgsync.Identity.Crl.{is_revoked}
use orgsync.Identity.Cert.{issue_cert}
use orgsync.Node.{Runtime}
use orgsync.Enroll.Saved.{save}
use orgsync.Cli.Peer.{enroll, run_peer}
use orgsync.Cli.Peer.Joined.{IsInTime, run_peer-enroll}
use orgsync.Tests.Toy.{toy, world, Rows}
use orgsync.Tests.Trust.{list, joined, reply, accepted, clean, own_serial}
use orgsync.Tests.Network.{node}
use orgsync.Tests.Calls.{stored}

enrolled : enroll toy stored [] reply [] 600 ≡ ok (save stored [] joined, joined)
unfolding enroll
enrolled = rw accepted

unlisted : is_revoked joined.crl joined.cert.claims.serial ≡ false
unlisted = ap (is_revoked list) own_serial ∙ clean

soon : IsInTime joined 610
unfolding issue_cert
soon = record { started = omega arith; unexpired = omega arith }

later : IsInTime joined 611
unfolding issue_cert
later = record { started = omega arith; unexpired = omega arith }

run_peer-enroll_example :
    ((n : Runtime Rows) × (run_peer world stored
          (save stored [] joined)
          []
          node.db
          []
          610
          611
          (ok tt)
        ≡ ok n)
      × (n.enrollment ≡ joined))
    × ((bad : Error)
        → run_peer world stored (save stored [] joined) [] node.db [] 610 611 (err bad) ≡ err bad)
run_peer-enroll_example =
    run_peer-enroll world stored [] (save stored [] joined) reply [] 600 joined node.db [] 610 611
      enrolled unlisted soon later
