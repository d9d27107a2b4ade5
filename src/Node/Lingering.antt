-- ===== src/Node/Lingering.antt =====
-- How long a peer is let in, and what a refusal leaves behind.
use orgsync.Base.{
  ℕ, ◌≡◌, ◌≢◌, refl, ap, ◌∙◌, Bool, true, false, not, of_if, inl, inr, Option, none, some, List, [],
  ◌∷◌, Bytes, find, find-put, find-delete, if◌then◌else◌, ◌==◌, Bool-cases, nat_ord, list_ord,
}
use orgsync.Error.{Result, ok, err}
use orgsync.Change.{ChangeRecord}
use orgsync.Identity.Crl.{RevocationList}
use orgsync.Identity.Cert
use orgsync.Identity.Cert.{DeviceCert}
use orgsync.Enroll.{merge_crl}
use orgsync.Db.{Env}
use orgsync.Node.{
  Runtime, AuthedPeer, Req, hello, sync, push, Resp, hello_back, page, pushed, denied, Effect,
  protocol_version, authed_of, judged, admit, accept_peer, refuse, apply, on_request, on_response,
  on_gossip, on_response_sent, on_established, on_closed, is_held, is_nil, contains,
}
use orgsync.Node.Gate.{
  Event, requested, answered, gossiped, response_sent, established, closed, step, run,
}

module _ {App : Type 0} (env : Env App) where
  abbrev pub is_in : Bytes → Runtime App → Bool
  is_in p n = is_held (find p n.authed)

  -- The last connection to the peer does not close.
  abbrev pub StaysConnected : Bytes → List (Event env) → Type 0
  StaysConnected p [] = Unit {0}
  StaysConnected p (closed peer ∷ events) = ((peer == p) ≡ false) × StaysConnected p events
  StaysConnected p (ev ∷ events) = StaysConnected p events

  judged-in :
      (p : Bytes) (n : Runtime App) (peer : Bytes) (cert : DeviceCert) (replicates : Bool)
      (since : ℕ) (r : Result (Unit {0}))
      → is_in p n ≡ true
      → is_in p (judged env n peer cert replicates since r).0 ≡ true
  unfolding judged admit
  judged-in p n peer cert replicates since (err e) here = here
  judged-in p n peer cert replicates since (ok u) here =
      ap is_held (find-put peer p (authed_of env cert replicates since) n.authed)
      ∙ of_if (λ (o : Option AuthedPeer). is_held o ≡ true) (peer == p) refl here

  accept-in :
      (p : Bytes) (n : Runtime App) (peer : Bytes) (cert : DeviceCert) (crl : RevocationList)
      (replicates : Bool) (now since : ℕ)
      → is_in p n ≡ true
      → is_in p (accept_peer env n peer cert crl replicates now since).0 ≡ true
  unfolding accept_peer
  accept-in p n peer cert crl replicates now since here =
      let e = (merge_crl env.crypto n.enrollment crl).0 in
      judged-in p (record n { enrollment = e }) peer cert replicates since
        (Cert.verify env.crypto cert e.org_id (some peer) (some e.crl) now) here

  abbrev After : Bytes → Runtime App × (Resp × List Effect) → Type 0
  After p r = is_in p r.0 ≡ true

  request-in :
      (p : Bytes) (n : Runtime App) (peer : Bytes) (req : Req) (now since : ℕ)
      → is_in p n ≡ true
      → is_in p (on_request env n peer req now since).0 ≡ true
  unfolding on_request refuse apply
  request-in p n peer (hello proto cert crl replicates) now since here =
      let r = accept_peer env n peer cert crl replicates now since in
      let kept = accept-in p n peer cert crl replicates now since here in
      elim (Bool-cases (proto == protocol_version)) [
        | inl spoken ↦ elim (Bool-cases r.1.0) [
          | inl fine ↦ rw (spoken, fine) kept
          | inr bad ↦ rw (spoken, bad) kept
        ]
        | inr foreign ↦ rw foreign here
      ]
  request-in p n peer (sync vv limit) now since here =
      of_if (After p) (not (is_in peer n)) here (of_if (After p) (not n.replicate) here here)
  request-in p n peer (push changes) now since here =
      of_if (After p) (not (is_in peer n)) here (of_if (After p) (not n.replicate) here here)

  response-in :
      (p : Bytes) (n : Runtime App) (peer : Bytes) (resp : Resp) (now since : ℕ)
      → is_in p n ≡ true
      → is_in p (on_response env n peer resp now since).0 ≡ true
  unfolding on_response apply
  response-in p n peer (hello_back proto cert crl replicates) now since here =
      let r = accept_peer env n peer cert crl replicates now since in
      let kept = accept-in p n peer cert crl replicates now since here in
      elim (Bool-cases (proto == protocol_version)) [
        | inl spoken ↦ elim (Bool-cases r.1.0) [
          | inl fine ↦ rw (spoken, fine) kept
          | inr bad ↦ rw (spoken, bad) kept
        ]
        | inr foreign ↦ rw foreign here
      ]
  response-in p n peer (page changes has_more) now since here =
      of_if (λ (m : Runtime App). is_in p m ≡ true) (is_nil changes) here here
  response-in p n peer (pushed applied rejected) now since here = here
  response-in p n peer denied now since here = here

  abbrev Then : Bytes → Runtime App × List Effect → Type 0
  Then p r = is_in p r.0 ≡ true

  step-in :
      (p : Bytes) (n : Runtime App) (ev : Event env)
      → StaysConnected p (ev ∷ [])
      → is_in p n ≡ true
      → is_in p (step env n ev) ≡ true
  unfolding step on_gossip on_response_sent on_established on_closed apply
  step-in p n (requested peer req now since) stays here = request-in p n peer req now since here
  step-in p n (answered peer resp now since) stays here = response-in p n peer resp now since here
  step-in p n (gossiped source changes) stays here =
      of_if (Then p) (not (is_in source n)) here (of_if (Then p) (not n.replicate) here here)
  step-in p n (response_sent peer) stays here = of_if (Then p) (contains peer n.deny) here here
  step-in p n (established peer) stays here = of_if (Then p) (contains peer n.greeted) here here
  step-in p n (closed peer) (other, _) here =
      ap is_held (find-delete peer p n.authed)
      ∙ ap (λ b. is_held (if◌then◌else◌ {A = Option AuthedPeer} b none (find p n.authed))) other
      ∙ here

  run-in :
      (p : Bytes) (n : Runtime App) (events : List (Event env))
      → StaysConnected p events
      → is_in p n ≡ true
      → is_in p (run env n events) ≡ true
  unfolding run
  run-in p n [] stays here = here
  run-in p n (requested peer req now since ∷ events) stays here =
      run-in p (step env n (requested peer req now since)) events stays
        (step-in p n (requested peer req now since) tt here)
  run-in p n (answered peer resp now since ∷ events) stays here =
      run-in p (step env n (answered peer resp now since)) events stays
        (step-in p n (answered peer resp now since) tt here)
  run-in p n (gossiped source changes ∷ events) stays here =
      run-in p (step env n (gossiped source changes)) events stays
        (step-in p n (gossiped source changes) tt here)
  run-in p n (response_sent peer ∷ events) stays here =
      run-in p (step env n (response_sent peer)) events stays
        (step-in p n (response_sent peer) tt here)
  run-in p n (established peer ∷ events) stays here =
      run-in p (step env n (established peer)) events stays (step-in p n (established peer) tt here)
  run-in p n (closed peer ∷ events) (other, stays) here =
      run-in p (step env n (closed peer)) events stays (step-in p n (closed peer) (other, tt) here)

  push_answered :
      (p : Bytes) (n : Runtime App) (changes : List ChangeRecord) (now since : ℕ)
      → is_in p n ≡ true
      → (on_request env n p (push changes) now since).1.0 ≢ denied
  unfolding on_request
  push_answered p n changes now since here bad = elim (Bool-cases n.replicate) [
    | inl holds ↦ let no_reply = rw (here, holds) at bad in absurd (cc)
    | inr holds_none ↦ let no_reply = rw (here, holds_none) at bad in absurd (cc)
  ]

  -- A peer that has been let in stays so until the last connection to it closes, and its pushes are
  -- not denied: whatever the node hears meanwhile, a list that revokes the peer's certificate and a
  -- hello that is refused included.
  pub run-is_in :
      (p : Bytes) (n : Runtime App) (events : List (Event env)) (changes : List ChangeRecord)
      (now since : ℕ)
      → StaysConnected p events
      → is_in p n ≡ true
      → (is_in p (run env n events) ≡ true)
        × ((on_request env (run env n events) p (push changes) now since).1.0 ≢ denied)
  run-is_in p n events changes now since stays here =
      let kept = run-in p n events stays here in
      (kept, push_answered p (run env n events) changes now since kept)
