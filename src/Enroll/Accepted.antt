-- ===== src/Enroll/Accepted.antt =====
-- What a device holds after it has joined, and as revocation lists reach it.
use orgsync.Base.{
  ℕ, ◌≤◌, ◌<◌, ◌≡◌, ◌≢◌, refl, ap, ◌∙◌, sym, not-false, subst, true, false, not, some, none, inl,
  inr, List, [], ◌∷◌, Memᴰ, Bytes, leb, ◌==◌, ==_iff, Bool-cases, nat_ord, list_ord, arith,
}
use orgsync.Error.{Result, ok, err, rejected, ◌>>=◌, ok_of_bind}
use orgsync.Crypto.{Crypto, Lawful}
use orgsync.Identity.{org_id, org_id_from_public}
use orgsync.Identity.Crl
use orgsync.Identity.Crl.{RevocationList, sign_crl}
use orgsync.Identity.Crl.Signed.{verify-sign_crl}
use orgsync.Identity.Cert
use orgsync.Identity.Cert.Issued.{revoked_refused}
use orgsync.Enroll.{
  EnrollResponse, Enrollment, key_of_hex, accept_with, accept, validate, is_err, merge_crl,
}

ok_of_is_err : (r : Result (Unit {0})) → is_err r ≡ false → r ≡ ok tt
ok_of_is_err (ok u) h = refl
ok_of_is_err (err e) h = absurd (cc)

module _ (c : Crypto) where
  -- The certificate was good when it was taken, for the device's own key, and the list is one that
  -- the organisation stands behind.
  pub record IsJoined (e : Enrollment) (secret : Bytes) (now : ℕ) : Type 0 where
    pub own : e.cert.claims.device_pub ≡ c.public secret
    pub certified :
        Cert.verify c e.cert e.org_id (some (c.peer_id (c.public secret))) none now ≡ ok tt
    pub listed : Crl.verify c e.crl e.org_id ≡ ok tt

  accept_with_sound :
      (resp : EnrollResponse) (secret : Bytes) (now : ℕ) (org_pub : Bytes) (e : Enrollment)
      → accept_with c resp secret now org_pub ≡ ok e
      → IsJoined e secret now × (e.org_id ≡ org_id_from_public c org_pub)
  unfolding accept_with
  accept_with_sound resp secret now org_pub e h =
      elim (Bool-cases (not (org_id_from_public c org_pub == resp.org.org_id))) [
        | inl foreign ↦ let no : err rejected ≡ ok e = rw foreign at h in absurd (cc)
        | inr pinned ↦ elim (Bool-cases (not (resp.cert.claims.device_pub == c.public secret))) [
          | inl other ↦ let no : err rejected ≡ ok e = rw (pinned, other) at h in absurd (cc)
          | inr own ↦
              let taken : Enrollment = record {
                org_id = resp.org.org_id;
                org_name = resp.org.name;
                cert = resp.cert;
                crl = resp.crl;
                bootstrap = resp.org.bootstrap;
              } in
              let (_, certified, rest) =
                ok_of_bind
                  (Cert.verify c resp.cert resp.org.org_id (some (c.peer_id (c.public secret))) none
                    now)
                  (λ u. Crl.verify c resp.crl resp.org.org_id >>= λ v. ok taken)
                  (rw (pinned, own) at h) in
              let (_, listed, done) =
                ok_of_bind (Crl.verify c resp.crl resp.org.org_id) (λ v. ok taken) rest in
              let same : taken ≡ e = cc in
              subst (λ e. IsJoined e secret now × (e.org_id ≡ org_id_from_public c org_pub)) same
                (
                  record {
                    own = (==_iff resp.cert.claims.device_pub (c.public secret)).0 (not-false own);
                    certified = certified;
                    listed = listed;
                  },
                  sym (
                      (==_iff (org_id_from_public c org_pub) resp.org.org_id).0 (not-false pinned)),
                )
        ]
      ]

  -- A reply that is accepted leaves the device with a certificate for its own key that verified,
  -- a revocation list that verified, and an organisation that is the hash of the key in the reply.
  pub accept_sound :
      (resp : EnrollResponse) (secret : Bytes) (now : ℕ) (e : Enrollment)
      → accept c resp secret now ≡ ok e
      → IsJoined e secret now
        × ((org_pub : Bytes) × (key_of_hex c resp.org.org_pub ≡ ok org_pub)
            × (e.org_id ≡ org_id_from_public c org_pub))
  unfolding accept
  accept_sound resp secret now e h =
      let (org_pub, parsed, rest) =
        ok_of_bind (key_of_hex c resp.org.org_pub) (accept_with c resp secret now) h in
      let (joined, hashed) = accept_with_sound resp secret now org_pub e rest in
      (joined, (org_pub, parsed, hashed))

  -- The lists that arrive one after the other.
  unfoldable pub merge_all : Enrollment → List RevocationList → Enrollment
  merge_all e [] = e
  merge_all e (incoming ∷ lists) = merge_all (merge_crl c e incoming).0 lists

  -- What no list changes, and what only grows.
  pub record IsLater (e' e : Enrollment) : Type 0 where
    pub org_id : e'.org_id ≡ e.org_id
    pub org_name : e'.org_name ≡ e.org_name
    pub cert : e'.cert ≡ e.cert
    pub bootstrap : e'.bootstrap ≡ e.bootstrap
    pub updated_at_ms : e.crl.updated_at_ms ≤ e'.crl.updated_at_ms

  IsLater-refl : (e : Enrollment) → IsLater e e
  IsLater-refl e = record {
    org_id = refl;
    org_name = refl;
    cert = refl;
    bootstrap = refl;
    updated_at_ms = omega arith;
  }

  merge_crl-keeps :
      (e : Enrollment) (incoming : RevocationList)
      → Crl.verify c e.crl e.org_id ≡ ok tt
      → IsLater (merge_crl c e incoming).0 e
        × (Crl.verify c (merge_crl c e incoming).0.crl (merge_crl c e incoming).0.org_id ≡ ok tt)
  unfolding merge_crl
  merge_crl-keeps e incoming good =
      let stale = leb incoming.updated_at_ms e.crl.updated_at_ms in
      elim (Bool-cases stale) [
        | inl old ↦ rw old (IsLater-refl e, good)
        | inr new ↦ elim (Bool-cases (is_err (Crl.verify c incoming e.org_id))) [
          | inl bad ↦ rw (new, bad) (IsLater-refl e, good)
          | inr fine ↦
              rw (new, fine)
                (
                  record {
                    org_id = refl;
                    org_name = refl;
                    cert = refl;
                    bootstrap = refl;
                    updated_at_ms = ground arith;
                  },
                  ok_of_is_err (Crl.verify c incoming e.org_id) fine,
                )
        ]
      ]

  -- Whatever lists arrive, in whatever order: the one that is held verifies for the organisation and
  -- is never older than before, and nothing else of the enrolment changes.
  pub merge_all-keeps :
      (e : Enrollment) (lists : List RevocationList)
      → Crl.verify c e.crl e.org_id ≡ ok tt
      → IsLater (merge_all e lists) e
        × (Crl.verify c (merge_all e lists).crl (merge_all e lists).org_id ≡ ok tt)
  unfolding merge_all
  merge_all-keeps e [] good = (IsLater-refl e, good)
  merge_all-keeps e (incoming ∷ lists) good =
      let (one, good') = merge_crl-keeps e incoming good in
      let (all, good'') = merge_all-keeps (merge_crl c e incoming).0 lists good' in
      (
        record {
          org_id = all.org_id ∙ one.org_id;
          org_name = all.org_name ∙ one.org_name;
          cert = all.cert ∙ one.cert;
          bootstrap = all.bootstrap ∙ one.bootstrap;
          updated_at_ms = omega (arith, all.updated_at_ms, one.updated_at_ms);
        },
        good'',
      )

  merge_crl-newer :
      (e : Enrollment) (incoming : RevocationList)
      → leb incoming.updated_at_ms e.crl.updated_at_ms ≡ false
      → is_err (Crl.verify c incoming e.org_id) ≡ false
      → merge_crl c e incoming ≡ (record e { crl = incoming }, true)
  unfolding merge_crl
  merge_crl-newer e incoming new fine = rw (new, fine)

  -- A device that is handed a newer list of its organisation with its own serial on it takes the
  -- list, and from then on finds its own enrolment refused.
  pub validate-merge_crl :
      (inner : Bytes) (revoked : List ℕ) (updated_at_ms : ℕ) (e : Enrollment) (secret : Bytes)
      (now : ℕ)
      → Lawful c
      → e.org_id ≡ org_id c inner
      → e.crl.updated_at_ms < updated_at_ms
      → Memᴰ e.cert.claims.serial revoked
      → let (e', adopted) = merge_crl c e (sign_crl c inner revoked updated_at_ms) in
        (adopted ≡ true) × (validate c e' secret now ≢ ok tt)
  unfolding validate sign_crl
  validate-merge_crl inner revoked updated_at_ms e secret now law org newer mine =
      let crl = sign_crl c inner revoked updated_at_ms in
      let good : Crl.verify c crl e.org_id ≡ ok tt =
        ap (Crl.verify c crl) org ∙ (verify-sign_crl c inner revoked updated_at_ms law).0 in
      let new : leb updated_at_ms e.crl.updated_at_ms ≡ false = ground arith in
      let fine : is_err (Crl.verify c crl e.org_id) ≡ false = ap is_err good in
      let taken : merge_crl c e crl ≡ (record e { crl = crl }, true) =
        merge_crl-newer e crl new fine in
      (
        ap (λ r. r.1) taken,
        λ valid.
            revoked_refused c inner revoked updated_at_ms e.cert e.org_id
              (some (c.peer_id (c.public secret))) now law mine
              (subst (λ (e' : Enrollment). validate c e' secret now ≡ ok tt) (ap (λ r. r.0) taken)
                valid),
      )
