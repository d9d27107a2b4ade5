-- ===== src/Node/Gated.antt =====
-- One step of the trust gate: who is let in by it, and that the organisation stays.
use orgsync.Base.{
  ℕ, ◌≡◌, refl, sym, ap, ◌∙◌, Bool, not, of_if, true, ◌⊎◌, inl, inr, some, List, Bytes, find,
  find-put, ◌==◌, ==_iff, Bool-cases, nat_ord, list_ord, pair_ord, arith,
}
use orgsync.Error.{Result, ok, err}
use orgsync.Change.{ChangeRecord}
use orgsync.Identity.Crl.{RevocationList}
use orgsync.Identity.Cert
use orgsync.Identity.Cert.{DeviceCert}
use orgsync.Enroll.{Enrollment, merge_crl}
use orgsync.Db.{Env}
use orgsync.Node.{
  Runtime, AuthedPeer, Req, hello, sync, push, Resp, hello_back, page, pushed, denied,
  protocol_version, apply, authed_of, accept_peer, refuse, on_request, on_response, judged, Effect,
  on_gossip, is_held, is_nil,
}
use orgsync.Node.Gate.{NoOne, IsAccepted, IsAcceptedRequest, IsAcceptedResponse}

some-injective {ℓ} : {A : Type ℓ} {a b : A} → some a ≡ some b → a ≡ b
some-injective e = cc

org_id-merge_crl :
    {App : Type 0} (env : Env App) (e : Enrollment) (crl : RevocationList)
    → (merge_crl env.crypto e crl).0.org_id ≡ e.org_id
unfolding merge_crl
org_id-merge_crl env e crl = ground arith

module _ {App : Type 0} (env : Env App) where
  -- Who is in after a step was in before it or has been let in by it, for which `In` stands.
  pub record IsGated (n m : Runtime App) (In : Bytes → AuthedPeer → Type 0) : Type 0 where
    pub org_id : m.enrollment.org_id ≡ n.enrollment.org_id
    pub admitted :
        (p : Bytes) (info : AuthedPeer)
        → find p m.authed ≡ some info
        → (find p n.authed ≡ some info) ⊎ In p info

  pub IsGated_same :
      (n m : Runtime App) (In : Bytes → AuthedPeer → Type 0)
      → m.enrollment ≡ n.enrollment
      → m.authed ≡ n.authed
      → IsGated n m In
  IsGated_same n m In e l = record {
    org_id = ap (λ (k : Enrollment). k.org_id) e;
    admitted = λ p info h. inl (ap (find p) (sym l) ∙ h);
  }

  IsGated_later :
      (n m k : Runtime App) (In : Bytes → AuthedPeer → Type 0)
      → k.enrollment ≡ m.enrollment
      → k.authed ≡ m.authed
      → IsGated n m In
      → IsGated n k In
  IsGated_later n m k In e l g = record {
    org_id = ap (λ (x : Enrollment). x.org_id) e ∙ g.org_id;
    admitted = λ p info h. g.admitted p info (ap (find p) (sym l) ∙ h);
  }

  module _ (n : Runtime App) (peer : Bytes) (cert : DeviceCert) (crl : RevocationList)
      (replicates : Bool) (now since : ℕ) where
    abbrev Judged : Bytes → AuthedPeer → Type 0
    Judged p info = IsAccepted env n p info peer protocol_version cert crl replicates now since

    -- With the certificate accepted, the peer is let in.
    judged-IsGated :
        (e : Enrollment) (r : Result (Unit {0}))
        → e.org_id ≡ n.enrollment.org_id
        → Cert.verify env.crypto cert n.enrollment.org_id
            (some peer)
            (some (merge_crl env.crypto n.enrollment crl).0.crl)
            now
          ≡ r
        → IsGated n (judged env (record n { enrollment = e }) peer cert replicates since r).0 Judged
    unfolding judged
    judged-IsGated e (err _) same h = record { org_id = same; admitted = λ p info held. inl held }
    judged-IsGated e (ok _) same h = record {
      org_id = same;
      admitted = λ p info held. elim (Bool-cases (peer == p)) [
        | inl here ↦
            let entry : some (authed_of env cert replicates since) ≡ some info =
              rw (find-put peer p (authed_of env cert replicates since) n.authed, here) at held in
            let at : peer ≡ p = (==_iff peer p).0 here in
            inr (
              at,
              refl,
              ap
                    (λ k.
                      Cert.verify env.crypto cert n.enrollment.org_id (some k)
                        (some (merge_crl env.crypto n.enrollment crl).0.crl) now)
                    (sym at)
                  ∙ h,
              some-injective (sym entry),
            )
        | inr apart ↦
            inl (rw (find-put peer p (authed_of env cert replicates since) n.authed, apart) at held)
      ];
    }

    accept_peer-IsGated : IsGated n (accept_peer env n peer cert crl replicates now since).0 Judged
    unfolding accept_peer
    accept_peer-IsGated =
        let e = (merge_crl env.crypto n.enrollment crl).0 in
        let same : e.org_id ≡ n.enrollment.org_id = org_id-merge_crl env n.enrollment crl in
        judged-IsGated e (Cert.verify env.crypto cert e.org_id (some peer) (some e.crl) now) same
          (ap (λ o. Cert.verify env.crypto cert o (some peer) (some e.crl) now) (sym same))

    -- In a version of the protocol.
    in_version :
        (proto : ℕ) (m : Runtime App)
        → (proto == protocol_version) ≡ true
        → IsGated n m Judged
        → IsGated n m (λ p info. IsAccepted env n p info peer proto cert crl replicates now since)
    in_version proto m spoken g = record {
      org_id = g.org_id;
      admitted = λ p info held. elim (g.admitted p info held) [
        | inl before ↦ inl before
        | inr (at, _, proven, entry) ↦
            inr (at, (==_iff proto protocol_version).0 spoken, proven, entry)
      ];
    }

  apply-IsGated :
      (n : Runtime App) (peer : Bytes) (changes : List ChangeRecord)
      (In : Bytes → AuthedPeer → Type 0)
      → IsGated n (apply env n peer changes).0 In
  unfolding apply
  apply-IsGated n peer changes In = IsGated_same n (apply env n peer changes).0 In refl refl

  pub request-IsGated :
      (n : Runtime App) (peer : Bytes) (req : Req) (now since : ℕ)
      → IsGated n
          (on_request env n peer req now since).0
          (λ p info. IsAcceptedRequest env n p info peer req now since)
  unfolding on_request
  request-IsGated n peer (hello proto cert crl replicates) now since =
      let r = accept_peer env n peer cert crl replicates now since in
      let In : Bytes → AuthedPeer → Type 0 =
        λ p info. IsAccepted env n p info peer proto cert crl replicates now since in
      elim (Bool-cases (proto == protocol_version)) [
        | inl spoken ↦
            let gated =
              in_version n peer cert crl replicates now since proto r.0 spoken
                (accept_peer-IsGated n peer cert crl replicates now since) in
            elim (Bool-cases r.1.0) [
              | inl fine ↦ rw (spoken, fine) gated
              | inr bad ↦
                  rw (spoken, bad) (IsGated_later n r.0 (refuse env r.0 peer).0 In refl refl gated)
            ]
        | inr foreign ↦ rw foreign (IsGated_same n (refuse env n peer).0 In refl refl)
      ]
  request-IsGated n peer (sync vv limit) now since =
      let In = NoOne in
      let same = IsGated_same n n In refl refl in
      of_if (λ (r : Runtime App × (Resp × List Effect)). IsGated n r.0 In)
        (not (is_held (find peer n.authed))) same
        (of_if (λ (r : Runtime App × (Resp × List Effect)). IsGated n r.0 In) (not n.replicate) same
          same)
  request-IsGated n peer (push changes) now since =
      let In = NoOne in
      let same = IsGated_same n n In refl refl in
      of_if (λ (r : Runtime App × (Resp × List Effect)). IsGated n r.0 In)
        (not (is_held (find peer n.authed))) same
        (of_if (λ (r : Runtime App × (Resp × List Effect)). IsGated n r.0 In) (not n.replicate) same
          (apply-IsGated n peer changes In))

  pub response-IsGated :
      (n : Runtime App) (peer : Bytes) (resp : Resp) (now since : ℕ)
      → IsGated n
          (on_response env n peer resp now since).0
          (λ p info. IsAcceptedResponse env n p info peer resp now since)
  unfolding on_response
  response-IsGated n peer (hello_back proto cert crl replicates) now since =
      let r = accept_peer env n peer cert crl replicates now since in
      let In : Bytes → AuthedPeer → Type 0 =
        λ p info. IsAccepted env n p info peer proto cert crl replicates now since in
      elim (Bool-cases (proto == protocol_version)) [
        | inl spoken ↦
            let gated =
              in_version n peer cert crl replicates now since proto r.0 spoken
                (accept_peer-IsGated n peer cert crl replicates now since) in
            elim (Bool-cases r.1.0) [
              | inl fine ↦ rw (spoken, fine) gated
              | inr bad ↦ rw (spoken, bad) gated
            ]
        | inr foreign ↦ rw foreign (IsGated_same n n In refl refl)
      ]
  response-IsGated n peer (page changes has_more) now since =
      let In = NoOne in
      of_if (λ m. IsGated n m In) (is_nil changes) (IsGated_same n n In refl refl)
        (apply-IsGated n peer changes In)
  response-IsGated n peer (pushed applied rejected) now since = IsGated_same n n NoOne refl refl
  response-IsGated n peer denied now since = IsGated_same n n NoOne refl refl

  -- A step by gossip, too.
  pub gossip-IsGated :
      (n : Runtime App) (source : Bytes) (changes : List ChangeRecord)
      → IsGated n (on_gossip env n source changes).0 NoOne
  unfolding on_gossip
  gossip-IsGated n source changes =
      let In = NoOne in
      let same = IsGated_same n n In refl refl in
      of_if (λ (r : Runtime App × List Effect). IsGated n r.0 In)
        (not (is_held (find source n.authed))) same
        (of_if (λ (r : Runtime App × List Effect). IsGated n r.0 In) (not n.replicate) same
          (apply-IsGated n source changes In))
