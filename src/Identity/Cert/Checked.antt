-- ===== src/Identity/Cert/Checked.antt =====
-- The checks that an accepted certificate has passed, and that they suffice.
use orgsync.Base.{
  ℕ, ◌+◌, ◌%◌, ◌^◌, ◌<◌, ◌≤◌, ◌≡◌, subst, not-false, true, false, not, Option, inl, inr, Bytes, leb,
  ltb, ◌==◌, ==_iff, Bool-cases, nat_ord, list_ord, arith,
}
use orgsync.Error.{ok, err, rejected, crypto, ok_of_bind}
use orgsync.Crypto.{Crypto}
use orgsync.Hlc.{max_clock_drift_ms}
use orgsync.Identity.{org_id_from_public, ed25519_public}
use orgsync.Identity.Crl.{RevocationList}
use orgsync.Identity.Crl.Signed.{ed25519_public-ok}
use orgsync.Identity.Cert.{DeviceCert, signing_bytes, check_peer, check_crl, check_claims, verify}

-- What an accepted certificate has been checked for, with two of the checks as the code makes them.
pub record IsChecked (c : Crypto) (cert : DeviceCert) (org : Bytes) (crl : Option RevocationList)
    (now : ℕ) : Type 0 where
  pub pinned : org_id_from_public c cert.org_pub ≡ org
  pub named : cert.claims.org_id ≡ org
  pub signed : c.verify cert.org_pub (signing_bytes cert.claims) cert.signature ≡ true
  pub unexpired : now < cert.claims.expires_at_ms
  pub started : cert.claims.issued_at_ms ≤ (now + max_clock_drift_ms) % 2 ^ 64
  pub listed : check_crl cert crl ≡ ok tt

check_claims_sound :
    (c : Crypto) (cert : DeviceCert) (peer : Option Bytes) (crl : Option RevocationList) (now : ℕ)
    (key : Bytes)
    → check_claims c cert peer crl now key ≡ ok tt
    → (c.verify key (signing_bytes cert.claims) cert.signature ≡ true)
      × (now < cert.claims.expires_at_ms)
      × (cert.claims.issued_at_ms ≤ (now + max_clock_drift_ms) % 2 ^ 64)
      × (check_peer c cert peer ≡ ok tt)
      × (check_crl cert crl ≡ ok tt)
unfolding check_claims
check_claims_sound c cert peer crl now key h =
    elim (Bool-cases (not (c.verify key (signing_bytes cert.claims) cert.signature))) [
      | inl forged ↦ let no : err rejected ≡ ok tt = rw forged at h in absurd (cc)
      | inr signed ↦ elim (Bool-cases (leb cert.claims.expires_at_ms now)) [
        | inl expired ↦ let no : err rejected ≡ ok tt = rw (signed, expired) at h in absurd (cc)
        | inr alive ↦
            elim (Bool-cases (ltb ((now + max_clock_drift_ms) % 2 ^ 64) cert.claims.issued_at_ms)) [
              | inl early ↦
                  let no : err rejected ≡ ok tt = rw (signed, alive, early) at h in absurd (cc)
              | inr started ↦
                  let (_, bound, listed) =
                    ok_of_bind (check_peer c cert peer) (λ u. check_crl cert crl)
                      (rw (signed, alive, started) at h) in
                  (not-false signed, ground arith, ground arith, ground arith, listed)
            ]
      ]
    ]

pub verify-IsChecked :
    (c : Crypto) (cert : DeviceCert) (org : Bytes) (peer : Option Bytes)
    (crl : Option RevocationList) (now : ℕ)
    → verify c cert org peer crl now ≡ ok tt
    → IsChecked c cert org crl now × (check_peer c cert peer ≡ ok tt)
unfolding verify
verify-IsChecked c cert org peer crl now h =
    elim (Bool-cases (not (org_id_from_public c cert.org_pub == org))) [
      | inl foreign ↦ let no : err rejected ≡ ok tt = rw foreign at h in absurd (cc)
      | inr pinned ↦ elim (Bool-cases (not (cert.claims.org_id == org))) [
        | inl other ↦ let no : err rejected ≡ ok tt = rw (pinned, other) at h in absurd (cc)
        | inr named ↦
            let (key, parsed, checked) =
              ok_of_bind (ed25519_public c cert.org_pub) (check_claims c cert peer crl now)
                (rw (pinned, named) at h) in
            let same = ed25519_public-ok c cert.org_pub parsed in
            let (signed, alive, started, bound, listed) =
              check_claims_sound c cert peer crl now key checked in
            (
              record {
                pinned = (==_iff (org_id_from_public c cert.org_pub) org).0 (not-false pinned);
                named = (==_iff cert.claims.org_id org).0 (not-false named);
                signed =
                    subst (λ k. c.verify k (signing_bytes cert.claims) cert.signature ≡ true) same
                      signed;
                unexpired = alive;
                started = started;
                listed = listed;
              },
              bound,
            )
      ]
    ]

pub verify_intro :
    (c : Crypto) (cert : DeviceCert) (org : Bytes) (peer : Option Bytes)
    (crl : Option RevocationList) (now : ℕ)
    → c.is_public_key cert.org_pub ≡ true
    → IsChecked c cert org crl now
    → check_peer c cert peer ≡ ok tt
    → verify c cert org peer crl now ≡ ok tt
unfolding verify check_claims ed25519_public
verify_intro c cert org peer crl now key t bound =
    let pinned = (==_iff (org_id_from_public c cert.org_pub) org).1 t.pinned in
    let named = (==_iff cert.claims.org_id org).1 t.named in
    let alive : leb cert.claims.expires_at_ms now ≡ false = ground (arith, t.unexpired) in
    let started : ltb ((now + max_clock_drift_ms) % 2 ^ 64) cert.claims.issued_at_ms ≡ false =
      ground (arith, t.started) in
    rw (pinned, named, key, t.signed, alive, started, bound, t.listed)

pub verify-key :
    (c : Crypto) (cert : DeviceCert) (org : Bytes) (peer : Option Bytes)
    (crl : Option RevocationList) (now : ℕ)
    → verify c cert org peer crl now ≡ ok tt
    → c.is_public_key cert.org_pub ≡ true
unfolding verify ed25519_public
verify-key c cert org peer crl now h = elim (Bool-cases (c.is_public_key cert.org_pub)) [
  | inl key ↦ key
  | inr bad ↦ elim (Bool-cases (not (org_id_from_public c cert.org_pub == org))) [
    | inl foreign ↦ let no : err rejected ≡ ok tt = rw foreign at h in absurd (cc)
    | inr pinned ↦ elim (Bool-cases (not (cert.claims.org_id == org))) [
      | inl other ↦ let no : err rejected ≡ ok tt = rw (pinned, other) at h in absurd (cc)
      | inr named ↦ let no : err crypto ≡ ok tt = rw (pinned, named, bad) at h in absurd (cc)
    ]
  ]
]
