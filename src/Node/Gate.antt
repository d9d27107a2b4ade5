-- ===== src/Node/Gate.antt =====
-- What reaches the node over time, and the greetings by which a peer is let in.
use orgsync.Base.{ℕ, ◌≡◌, Bool, some, List, [], ◌∷◌, Bytes, nat_ord, list_ord, pair_ord}
use orgsync.Error.{ok}
use orgsync.Change.{ChangeRecord}
use orgsync.Identity.Crl.{RevocationList}
use orgsync.Identity.Cert
use orgsync.Identity.Cert.{DeviceCert}
use orgsync.Enroll.{merge_crl}
use orgsync.Db.{Env}
use orgsync.Node.{
  Runtime, AuthedPeer, Req, hello, sync, push, Resp, hello_back, page, pushed, denied,
  protocol_version, authed_of, on_request, on_response, on_gossip, on_response_sent, on_established,
  on_closed,
}

-- Nobody is let in.
abbrev pub NoOne : Bytes → AuthedPeer → Type 0
NoOne p info = ⊥

module _ {App : Type 0} (env : Env App) where
  -- What reaches the node from the network.
  pub data Event : Type 0 where
    requested : (peer : Bytes) (req : Req) (now since : ℕ) → Event
    answered : (peer : Bytes) (resp : Resp) (now since : ℕ) → Event
    gossiped : (source : Bytes) (changes : List ChangeRecord) → Event
    response_sent : (peer : Bytes) → Event
    established : (peer : Bytes) → Event
    closed : (peer : Bytes) → Event

  unfoldable pub step : Runtime App → Event → Runtime App
  step n (requested peer req now since) = (on_request env n peer req now since).0
  step n (answered peer resp now since) = (on_response env n peer resp now since).0
  step n (gossiped source changes) = (on_gossip env n source changes).0
  step n (response_sent peer) = (on_response_sent env n peer).0
  step n (established peer) = (on_established env n peer).0
  step n (closed peer) = (on_closed env n peer).0

  unfoldable pub run : Runtime App → List Event → Runtime App
  unfolding step
  run n [] = n
  run n (ev ∷ events) = run (step n ev) events

  -- A greeting of the peer `p` that makes its entry `info`: in this version of the protocol, with a
  -- certificate that verifies for the node's organisation and for the peer, at the time and under
  -- the list that the node holds with the greeting's merged into it.
  abbrev pub IsAccepted :
      Runtime App
      → Bytes
      → AuthedPeer
      → Bytes
      → ℕ
      → DeviceCert
      → RevocationList
      → Bool
      → ℕ
      → ℕ
      → Type 0
  IsAccepted n p info peer proto cert crl replicates now since =
      (peer ≡ p)
      × (proto ≡ protocol_version)
      × (Cert.verify env.crypto cert n.enrollment.org_id (some p)
            (some (merge_crl env.crypto n.enrollment crl).0.crl) now
          ≡ ok tt)
      × (info ≡ authed_of env cert replicates since)

  abbrev pub IsAcceptedRequest : Runtime App → Bytes → AuthedPeer → Bytes → Req → ℕ → ℕ → Type 0
  IsAcceptedRequest n p info peer (hello proto cert crl replicates) now since =
      IsAccepted n p info peer proto cert crl replicates now since
  IsAcceptedRequest n p info peer (sync vv limit) now since = ⊥
  IsAcceptedRequest n p info peer (push changes) now since = ⊥

  abbrev pub IsAcceptedResponse : Runtime App → Bytes → AuthedPeer → Bytes → Resp → ℕ → ℕ → Type 0
  IsAcceptedResponse n p info peer (hello_back proto cert crl replicates) now since =
      IsAccepted n p info peer proto cert crl replicates now since
  IsAcceptedResponse n p info peer (page changes has_more) now since = ⊥
  IsAcceptedResponse n p info peer (pushed applied rejected) now since = ⊥
  IsAcceptedResponse n p info peer denied now since = ⊥

  -- The event that finds the node in this state is such a greeting.
  abbrev pub IsLettingIn : Runtime App → Bytes → AuthedPeer → Event → Type 0
  IsLettingIn n p info (requested peer req now since) =
      IsAcceptedRequest n p info peer req now since
  IsLettingIn n p info (answered peer resp now since) =
      IsAcceptedResponse n p info peer resp now since
  IsLettingIn n p info (gossiped source changes) = ⊥
  IsLettingIn n p info (response_sent peer) = ⊥
  IsLettingIn n p info (established peer) = ⊥
  IsLettingIn n p info (closed peer) = ⊥
