-- ===== src/Node/Saving.antt =====
-- The end of `merge_crl` in `accept_peer` of rust/p2p-core/src/net/node.rs: a newer list that a
-- peer has shown is written to the database with the enrolment.
use orgsync.Base.{
  ℕ, ◌≡◌, refl, sym, ap, ◌∙◌, Bool, true, false, not, of_if, inl, inr, Option, none, some, List, [],
  ◌∷◌, Bytes, find, find-put_self, if◌then◌else◌, ◌==◌, Bool-cases, nat_ord, list_ord, arith,
}
use orgsync.Error.{Result, ok, err}
use orgsync.Identity.Crl.{RevocationList}
use orgsync.Identity.Cert
use orgsync.Identity.Cert.{DeviceCert}
use orgsync.Enroll.{Enrollment, merge_crl}
use orgsync.Enroll.Saved.{EnrollmentJson, meta_key, save, load, load_raw, read}
use orgsync.Db.{Env}
use orgsync.Db.Outbox.{Meta, set_meta, get_meta}
use orgsync.Node.{
  Runtime, hello, sync, push, Resp, hello_back, page, pushed, denied, Effect, protocol_version,
  judged, admit, accept_peer, refuse, apply, on_request, on_response, on_gossip, on_response_sent,
  on_established, on_closed, is_held, is_nil, contains,
}
use orgsync.Node.Gate.{
  Event, requested, answered, gossiped, response_sent, established, closed, step,
}

module _ {App : Type 0} (env : Env App) (j : EnrollmentJson) where
  abbrev shown : ℕ → RevocationList → Option RevocationList
  shown proto crl = if proto == protocol_version then some crl else none

  -- The list that an event brings before the trust gate.
  abbrev pub greeting : Event env → Option RevocationList
  greeting (requested peer (hello proto cert crl replicates) now since) = shown proto crl
  greeting (answered peer (hello_back proto cert crl replicates) now since) = shown proto crl
  greeting _ = none

  abbrev pub merged : Enrollment → Option RevocationList → Enrollment
  merged e none = e
  merged e (some crl) = (merge_crl env.crypto e crl).0

  unfoldable pub keep_enrollment : Meta → Enrollment → Option RevocationList → Meta
  unfolding merge_crl save
  keep_enrollment meta e none = meta
  keep_enrollment meta e (some crl) =
      let (e', adopted) = merge_crl env.crypto e crl in if adopted then save j meta e' else meta

  -- The events of the network, with what is written to `_p2p_meta`.
  unfoldable pub run_saving : Runtime App → Meta → List (Event env) → Runtime App × Meta
  unfolding step keep_enrollment
  run_saving n meta [] = (n, meta)
  run_saving n meta (ev ∷ events) =
      run_saving (step env n ev) (keep_enrollment meta n.enrollment (greeting ev)) events

  pub load-save : (meta : Meta) (e : Enrollment) → load j (save j meta e) ≡ ok (some e)
  unfolding load save set_meta get_meta
  load-save meta e =
      ap (load_raw j) (find-put_self meta_key (j.to_string e) meta)
      ∙ ap (read j) (j.from_str-to_string e)

  -- A list that is not adopted changes nothing.
  merged_stale :
      (e : Enrollment) (crl : RevocationList)
      → (merge_crl env.crypto e crl).1 ≡ false
      → (merge_crl env.crypto e crl).0 ≡ e
  unfolding merge_crl
  merged_stale e crl stale = ground arith

  pub load-keep_enrollment :
      (meta : Meta) (e : Enrollment) (o : Option RevocationList)
      → load j meta ≡ ok (some e)
      → load j (keep_enrollment meta e o) ≡ ok (some (merged e o))
  unfolding keep_enrollment load merge_crl
  load-keep_enrollment meta e none here = here
  load-keep_enrollment meta e (some crl) here = elim (Bool-cases (merge_crl env.crypto e crl).1) [
    | inl adopted ↦ rw adopted (load-save meta (merge_crl env.crypto e crl).0)
    | inr stale ↦
        rw stale (here ∙ ap (λ (k : Enrollment). ok (some k)) (sym (merged_stale e crl stale)))
  ]

  judged-enrollment :
      (n : Runtime App) (peer : Bytes) (cert : DeviceCert) (replicates : Bool) (since : ℕ)
      (r : Result (Unit {0}))
      → (judged env n peer cert replicates since r).0.enrollment ≡ n.enrollment
  unfolding judged admit
  judged-enrollment n peer cert replicates since (err e) = refl
  judged-enrollment n peer cert replicates since (ok u) = refl

  accept-enrollment :
      (n : Runtime App) (peer : Bytes) (cert : DeviceCert) (crl : RevocationList)
      (replicates : Bool) (now since : ℕ)
      → (accept_peer env n peer cert crl replicates now since).0.enrollment
        ≡ (merge_crl env.crypto n.enrollment crl).0
  unfolding accept_peer
  accept-enrollment n peer cert crl replicates now since =
      let e = (merge_crl env.crypto n.enrollment crl).0 in
      judged-enrollment (record n { enrollment = e }) peer cert replicates since
        (Cert.verify env.crypto cert e.org_id (some peer) (some e.crl) now)

  -- As the version is spoken or not.
  shown_lem :
      (n : Runtime App) (proto : ℕ) (crl : RevocationList) (spoken : Bool)
      → (proto == protocol_version) ≡ spoken
      → merged n.enrollment (if spoken then some crl else none)
        ≡ merged n.enrollment (shown proto crl)
  shown_lem n proto crl spoken e =
      ap (λ b. merged n.enrollment (if◌then◌else◌ {A = Option RevocationList} b (some crl) none))
        (sym e)

  heard :
      (n : Runtime App) (peer : Bytes) (proto : ℕ) (cert : DeviceCert) (crl : RevocationList)
      (replicates : Bool) (now since : ℕ)
      → (proto == protocol_version) ≡ true
      → ((on_request env n peer (hello proto cert crl replicates) now since).0.enrollment
          ≡ (merge_crl env.crypto n.enrollment crl).0)
        × ((on_response env n peer (hello_back proto cert crl replicates) now since).0.enrollment
            ≡ (merge_crl env.crypto n.enrollment crl).0)
  unfolding on_request on_response refuse
  heard n peer proto cert crl replicates now since spoken =
      let r = accept_peer env n peer cert crl replicates now since in
      let kept = accept-enrollment n peer cert crl replicates now since in
      (
        elim (Bool-cases r.1.0) [
          | inl fine ↦ rw (spoken, fine) kept
          | inr bad ↦ rw (spoken, bad) kept
        ],
        elim (Bool-cases r.1.0) [
          | inl fine ↦ rw (spoken, fine) kept
          | inr bad ↦ rw (spoken, bad) kept
        ],
      )

  unheard :
      (n : Runtime App) (peer : Bytes) (proto : ℕ) (cert : DeviceCert) (crl : RevocationList)
      (replicates : Bool) (now since : ℕ)
      → (proto == protocol_version) ≡ false
      → ((on_request env n peer (hello proto cert crl replicates) now since).0.enrollment
          ≡ n.enrollment)
        × ((on_response env n peer (hello_back proto cert crl replicates) now since).0.enrollment
            ≡ n.enrollment)
  unfolding on_request on_response refuse
  unheard n peer proto cert crl replicates now since foreign = (rw foreign, rw foreign)

  step-enrollment :
      (n : Runtime App) (ev : Event env)
      → (step env n ev).enrollment ≡ merged n.enrollment (greeting ev)
  unfolding step on_request on_response on_gossip on_response_sent on_established on_closed apply
      refuse
  step-enrollment n (requested peer (hello proto cert crl replicates) now since) =
      elim (Bool-cases (proto == protocol_version)) [
        | inl spoken ↦
            (heard n peer proto cert crl replicates now since spoken).0
            ∙ shown_lem n proto crl true spoken
        | inr foreign ↦
            (unheard n peer proto cert crl replicates now since foreign).0
            ∙ shown_lem n proto crl false foreign
      ]
  step-enrollment n (requested peer (sync vv limit) now since) =
      of_if (λ (r : Runtime App × (Resp × List Effect)). r.0.enrollment ≡ n.enrollment)
        (not (is_held (find peer n.authed))) refl
        (of_if (λ (r : Runtime App × (Resp × List Effect)). r.0.enrollment ≡ n.enrollment)
          (not n.replicate) refl refl)
  step-enrollment n (requested peer (push changes) now since) =
      of_if (λ (r : Runtime App × (Resp × List Effect)). r.0.enrollment ≡ n.enrollment)
        (not (is_held (find peer n.authed))) refl
        (of_if (λ (r : Runtime App × (Resp × List Effect)). r.0.enrollment ≡ n.enrollment)
          (not n.replicate) refl refl)
  step-enrollment n (answered peer (hello_back proto cert crl replicates) now since) =
      elim (Bool-cases (proto == protocol_version)) [
        | inl spoken ↦
            (heard n peer proto cert crl replicates now since spoken).1
            ∙ shown_lem n proto crl true spoken
        | inr foreign ↦
            (unheard n peer proto cert crl replicates now since foreign).1
            ∙ shown_lem n proto crl false foreign
      ]
  step-enrollment n (answered peer (page changes has_more) now since) =
      of_if (λ (m : Runtime App). m.enrollment ≡ n.enrollment) (is_nil changes) refl refl
  step-enrollment n (answered peer (pushed applied rejected) now since) = refl
  step-enrollment n (answered peer denied now since) = refl
  step-enrollment n (gossiped source changes) =
      of_if (λ (r : Runtime App × List Effect). r.0.enrollment ≡ n.enrollment)
        (not (is_held (find source n.authed))) refl
        (of_if (λ (r : Runtime App × List Effect). r.0.enrollment ≡ n.enrollment) (not n.replicate)
          refl refl)
  step-enrollment n (response_sent peer) =
      of_if (λ (r : Runtime App × List Effect). r.0.enrollment ≡ n.enrollment)
        (contains peer n.deny) refl refl
  step-enrollment n (established peer) =
      of_if (λ (r : Runtime App × List Effect). r.0.enrollment ≡ n.enrollment)
        (contains peer n.greeted) refl refl
  step-enrollment n (closed peer) = refl

  -- The enrolment that is stored is at all times the one that the node judges by, if it is so at the
  -- start: whatever the node hears from its peers, a newer list among it is not lost by a restart.
  pub load-run_saving :
      (n : Runtime App) (meta : Meta) (events : List (Event env))
      → load j meta ≡ ok (some n.enrollment)
      → let r = run_saving n meta events in load j r.1 ≡ ok (some r.0.enrollment)
  unfolding run_saving
  load-run_saving n meta [] here = here
  load-run_saving n meta (ev ∷ events) here =
      load-run_saving (step env n ev) (keep_enrollment meta n.enrollment (greeting ev)) events (
        load-keep_enrollment meta n.enrollment (greeting ev) here
        ∙ ap (λ (k : Enrollment). ok (some k)) (sym (step-enrollment n ev)))
