-- ===== src/Node/Peers/Remembered.antt =====
-- A device does not forget over a restart which peers are read-only.
use orgsync.Base.{
  ℕ, ◌≡◌, refl, sym, ap, ap₂, ◌∙◌, Bool, true, false, not, ◌&&◌, inl, inr, Option, none, some, List,
  [], ◌∷◌, Bytes, Memᴰ, keep, any, find, find-put, put, IsKeyed, put-IsKeyed, Bool-cases, ◌==◌,
  ==_iff, compare_list, arith, if◌then◌else◌, nat_ord, list_ord, pair_ord,
}
use orgsync.Error.{Result, ok, err, ok_of_bind}
use orgsync.Identity.{Role, admin, member, readonly, as_str, may_write}
use orgsync.Identity.Crl.{RevocationList}
use orgsync.Identity.Cert
use orgsync.Identity.Cert.{DeviceCert}
use orgsync.Enroll.{Enrollment, merge_crl, validate}
use orgsync.Db.{Env, Db}
use orgsync.Node.{Runtime, contains, without, judged, admit, accept_peer}
use orgsync.Node.Peers.{
  PeerRow, PeerTable, record_peer, devices_with_role, row_of_cert, db_readonly_origins, spawn,
  accept_and_record,
}

-- Whether the table has the peer with the role.
abbrev holds_role : Bytes → Option PeerRow → Bool
holds_role role none = false
holds_role role (some row) = row.role == role

find_absent :
    (p : Bytes) (t : PeerTable)
    → ((x : Bytes × PeerRow) → Memᴰ x t → (x.0 == p) ≡ false)
    → find p t ≡ none
unfolding find
find_absent p [] absent = refl
find_absent p ((j, w) ∷ t) absent =
    let other : (j == p) ≡ false = absent (j, w) (Memᴰ.head refl) in
    rw other (find_absent p t (λ x m. absent x (Memᴰ.tail m)))

contains-devices_with_role :
    (role p : Bytes) (t : PeerTable)
    → IsKeyed t
    → contains p (devices_with_role t role) ≡ holds_role role (find p t)
unfolding devices_with_role find keep any
contains-devices_with_role role p [] keyed = refl
contains-devices_with_role role p ((j, w) ∷ t) (first, keyed) =
    let rest = contains-devices_with_role role p t keyed in
    elim (Bool-cases (j == p)) [
      | inr other ↦ elim (Bool-cases (w.role == role)) [
        | inl has ↦ rw (other, has, other) rest
        | inr lacks ↦ rw (other, lacks) rest
      ]
      | inl same ↦ elim (Bool-cases (w.role == role)) [
        | inl has ↦ rw (same, has, same)
        | inr lacks ↦
            let gone : find p t ≡ none =
              find_absent p t (λ x m. ap (λ k. x.0 == k) (sym ((==_iff j p).0 same)) ∙ first x m) in
            rw (same, lacks) (rest ∙ ap (holds_role role) gone)
      ]
    ]

contains-recorded :
    (role peer p : Bytes) (row : PeerRow) (t : PeerTable)
    → IsKeyed t
    → contains p (devices_with_role (put peer row t) role)
      ≡ (if peer == p then row.role == role else contains p (devices_with_role t role))
contains-recorded role peer p row t keyed =
    contains-devices_with_role role p (put peer row t) (put-IsKeyed peer row t keyed)
    ∙ ap (holds_role role) (find-put peer p row t)
    ∙ elim (Bool-cases (peer == p)) [
      | inl hit ↦ rw hit
      | inr miss ↦ rw miss (sym (contains-devices_with_role role p t keyed))
    ]

contains-without :
    (peer p : Bytes) (l : List Bytes)
    → contains p (without peer l) ≡ (if peer == p then false else contains p l)
unfolding keep any
contains-without peer p [] = ground arith
contains-without peer p (q ∷ l) =
    let rest = contains-without peer p l in
    elim (Bool-cases (q == peer)) [
      | inl same ↦
          let at : (q == p) ≡ (peer == p) = ap (λ k. k == p) ((==_iff q peer).0 same) in
          rw same (rest ∙ ground arith)
      | inr other ↦ rw other (elim (Bool-cases (peer == p)) [
        | inl hit ↦
            let apart : (q == p) ≡ false = ap (λ k. q == k) (sym ((==_iff peer p).0 hit)) ∙ other in
            rw (apart, hit) (rest ∙ ground arith)
        | inr miss ↦ rw miss (ap (λ b. if q == p then true else b) (rest ∙ ground arith))
      ])
    ]

-- The node and the table agree about who is read-only.
pub record IsRemembered {App : Type 0} (n : Runtime App) (table : PeerTable) : Type 0 where
  pub keyed : IsKeyed table
  pub agree : (p : Bytes) → contains p n.readonly_origins ≡ contains p (db_readonly_origins table)

-- Among the three roles, those that may not write are the read-only one.
role-readonly : (r : Role) → (as_str r == as_str readonly) ≡ not (may_write r)
unfolding compare_list
role-readonly admin = refl
role-readonly member = refl
role-readonly readonly = refl

-- A hello of a peer, with the readings of the clock.
pub record Hello : Type 0 where
  pub peer : Bytes
  pub cert : DeviceCert
  pub crl : RevocationList
  pub replicates : Bool
  pub now : ℕ
  pub since : ℕ
  pub seen : ℕ

module _ {App : Type 0} (env : Env App) where
  -- The read-only devices after a judgement.
  readonly-judged :
      (n : Runtime App) (peer p : Bytes) (cert : DeviceCert) (replicates : Bool) (since : ℕ)
      (r : Result (Unit {0}))
      → let j = judged env n peer cert replicates since r in
        contains p j.0.readonly_origins ≡ (
          if j.1.0 && (peer == p)
          then not (may_write cert.claims.role)
          else contains p n.readonly_origins)
  unfolding judged admit
  readonly-judged n peer p cert replicates since (err e) = refl
  readonly-judged n peer p cert replicates since (ok u) =
      elim (Bool-cases (may_write cert.claims.role)) [
        | inl writes ↦ rw writes (contains-without peer p n.readonly_origins)
        | inr reads ↦ rw reads (unfold any in refl)
      ]

  unfoldable pub meet : Runtime App → PeerTable → List Hello → Runtime App × PeerTable
  meet n table [] = (n, table)
  meet n table (h ∷ hellos) =
      let (n', r) =
        accept_and_record env n table h.peer h.cert h.crl h.replicates h.now h.since h.seen in
      meet n' r.0 hellos

  recorded-IsRemembered :
      (n : Runtime App) (table : PeerTable) (peer : Bytes) (cert : DeviceCert) (replicates : Bool)
      (since seen : ℕ) (r : Result (Unit {0}))
      → IsRemembered n table
      → let j = judged env n peer cert replicates since r in
        IsRemembered j.0 (if j.1.0 then record_peer table peer (row_of_cert cert seen) else table)
  unfolding judged admit record_peer db_readonly_origins
  recorded-IsRemembered n table peer cert replicates since seen (err e) known = known
  recorded-IsRemembered n table peer cert replicates since seen (ok u) known =
      let row = row_of_cert cert seen in
      let after = put-IsKeyed peer row table known.keyed in
      record {
        keyed = after;
        agree = λ p.
            readonly-judged n peer p cert replicates since (ok u)
            ∙ ap₂ (λ x y. if peer == p then x else y) (sym (role-readonly cert.claims.role))
                (known.agree p)
            ∙ sym (contains-recorded (as_str readonly) peer p row table known.keyed);
      }

  accept_and_record-IsRemembered :
      (n : Runtime App) (table : PeerTable) (h : Hello)
      → IsRemembered n table
      → let r =
          accept_and_record env n table h.peer h.cert h.crl h.replicates h.now h.since h.seen in
        IsRemembered r.0 r.1.0
  unfolding accept_and_record accept_peer
  accept_and_record-IsRemembered n table h known =
      let e = (merge_crl env.crypto n.enrollment h.crl).0 in
      recorded-IsRemembered (record n { enrollment = e }) table h.peer h.cert h.replicates h.since
        h.seen (Cert.verify env.crypto h.cert e.org_id (some h.peer) (some e.crl) h.now)
        (record { keyed = known.keyed; agree = known.agree })

  meet-IsRemembered :
      (n : Runtime App) (table : PeerTable) (hellos : List Hello)
      → IsRemembered n table
      → let r = meet n table hellos in IsRemembered r.0 r.1
  unfolding meet
  meet-IsRemembered n table [] known = known
  meet-IsRemembered n table (h ∷ hellos) known =
      let r = accept_and_record env n table h.peer h.cert h.crl h.replicates h.now h.since h.seen in
      meet-IsRemembered r.0 r.1.0 hellos (accept_and_record-IsRemembered n table h known)

  readonly-spawn :
      (e : Enrollment) (secret : Bytes) (db : Db App) (replicate : Bool) (table : PeerTable)
      (now : ℕ) (swarm : Result (Unit {0})) {n : Runtime App}
      → spawn env e secret db replicate table now swarm ≡ ok n
      → n.readonly_origins ≡ db_readonly_origins table
  unfolding spawn
  readonly-spawn e secret db replicate table now swarm started =
      let (fine, valid, rest) = ok_of_bind (validate env.crypto e secret now) _ started in
      let (built, fit, last) = ok_of_bind swarm _ rest in ground arith

  -- A node that is started again, from the table that a session has left behind, takes exactly those
  -- peers for read-only that the session did at its end, whatever hellos it had accepted and refused.
  pub spawn-meet :
      (e e' : Enrollment) (secret : Bytes) (db db' : Db App) (replicate : Bool) (table : PeerTable)
      (now later : ℕ) (swarm swarm' : Result (Unit {0})) (hellos : List Hello) {n n' : Runtime App}
      → IsKeyed table
      → spawn env e secret db replicate table now swarm ≡ ok n
      → spawn env e' secret db' replicate (meet n table hellos).1 later swarm' ≡ ok n'
      → (p : Bytes)
      → contains p n'.readonly_origins ≡ contains p (meet n table hellos).0.readonly_origins
  spawn-meet e e' secret db db' replicate table now later swarm swarm' hellos {n} {n'} keyed first
        again p =
      let r = meet n table hellos in
      let known = meet-IsRemembered n table hellos (record {
        keyed = keyed;
        agree = λ q.
            ap (λ l. contains q l) (readonly-spawn e secret db replicate table now swarm first);
      }) in
      ap (λ l. contains p l) (readonly-spawn e' secret db' replicate r.1 later swarm' again)
      ∙ sym (known.agree p)
