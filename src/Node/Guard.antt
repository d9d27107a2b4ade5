-- ===== src/Node/Guard.antt =====
-- The trust gate over any sequence of events.
use orgsync.Base.{
  ◌≡◌, refl, ◌∙◌, ap, ◌⊎◌, some, inl, inr, List, [], ◌∷◌, ◌++◌, Bytes, find, find-delete, ◌==◌,
  Bool-cases, nat_ord, list_ord, arith,
}
use orgsync.Db.{Env}
use orgsync.Node.{Runtime, AuthedPeer, contains, on_response_sent, on_established, on_closed}
use orgsync.Node.Gate.{
  Event, requested, answered, gossiped, response_sent, established, closed, step, run, NoOne,
  IsLettingIn,
}
use orgsync.Node.Gated.{IsGated, IsGated_same, request-IsGated, response-IsGated, gossip-IsGated}

module _ {App : Type 0} (env : Env App) where
  sent-IsGated :
      (n : Runtime App) (peer : Bytes) → IsGated env n (on_response_sent env n peer).0 NoOne
  unfolding on_response_sent
  sent-IsGated n peer = elim (Bool-cases (contains peer n.deny)) [
    | inl refused ↦ rw refused (record { org_id = refl; admitted = λ p info held. inl held })
    | inr served ↦ rw served (IsGated_same env n n NoOne refl refl)
  ]

  established-IsGated :
      (n : Runtime App) (peer : Bytes) → IsGated env n (on_established env n peer).0 NoOne
  unfolding on_established
  established-IsGated n peer = elim (Bool-cases (contains peer n.greeted)) [
    | inl again ↦ rw again (IsGated_same env n n NoOne refl refl)
    | inr first ↦ rw first (record { org_id = refl; admitted = λ p info held. inl held })
  ]

  -- Who is left was in before.
  closed-IsGated : (n : Runtime App) (peer : Bytes) → IsGated env n (on_closed env n peer).0 NoOne
  unfolding on_closed
  closed-IsGated n peer = record {
    org_id = refl;
    admitted = λ p info held. elim (Bool-cases (peer == p)) [
      | inl same ↦ absurd (ground (arith, find-delete peer p n.authed, same, held))
      | inr apart ↦ inl (rw (find-delete peer p n.authed, apart) at held)
    ];
  }

  step-IsGated :
      (n : Runtime App) (ev : Event env)
      → IsGated env n (step env n ev) (λ p info. IsLettingIn env n p info ev)
  unfolding step
  step-IsGated n (requested peer req now since) = request-IsGated env n peer req now since
  step-IsGated n (answered peer resp now since) = response-IsGated env n peer resp now since
  step-IsGated n (gossiped source changes) = gossip-IsGated env n source changes
  step-IsGated n (response_sent peer) = sent-IsGated n peer
  step-IsGated n (established peer) = established-IsGated n peer
  step-IsGated n (closed peer) = closed-IsGated n peer

  -- One of the events lets the peer in, in the state that the events before it have led to, and in
  -- that state the node is of the same organisation as at the start.
  abbrev pub IsLetIn : Runtime App → List (Event env) → Bytes → AuthedPeer → Type 0
  IsLetIn n events p info =
      (before : List (Event env)) × (ev : Event env) × (after : List (Event env)) × (events
        ≡ before ++ (ev ∷ after))
      × ((run env n before).enrollment.org_id ≡ n.enrollment.org_id)
      × IsLettingIn env (run env n before) p info ev

  -- A peer that is let in after any events in any order was so at the start, with the same entry, or
  -- one of the events has let it in: a hello or the reply to one, from that very peer, in this version
  -- of the protocol, whose certificate verified for the node's organisation and for the peer, at
  -- the time of the event and under the revocation list that the node held then with the greeting's
  -- own merged into it; and the entry, with its role, is made of that certificate.
  pub run-IsLetIn :
      (n : Runtime App) (events : List (Event env)) (p : Bytes) (info : AuthedPeer)
      → find p (run env n events).authed ≡ some info
      → (find p n.authed ≡ some info) ⊎ IsLetIn n events p info
  unfolding run
  run-IsLetIn n [] p info held = inl held
  run-IsLetIn n (ev ∷ events) p info held =
      let gated = step-IsGated n ev in
      elim (run-IsLetIn (step env n ev) events p info held) [
        | inl soon ↦ elim (gated.admitted p info soon) [
          | inl first ↦ inl first
          | inr now ↦ inr ([], ev, events, refl, refl, now)
        ]
        | inr (before, x, after, split, org, there) ↦
            inr (ev ∷ before, x, after, ap (λ l. ev ∷ l) split, org ∙ gated.org_id, there)
      ]
