-- ===== src/Tests/Sessions.antt =====
-- A node over two sessions, and a server that strangers talk to.
use orgsync.Base.{
  ◌≡◌, refl, true, false, some, none, [], ◌∷◌, List, codes, compare_list, nat_ord, list_ord,
}
use orgsync.Error.{ok}
use orgsync.Enroll.{validate, build_enroll_request}
use orgsync.Node.{Runtime, contains}
use orgsync.Node.Peers.{PeerTable, db_readonly_origins, spawn}
use orgsync.Node.Peers.Remembered.{Hello, meet, spawn-meet}
use orgsync.Seed.Token.{random_token, invite_code_display}
use orgsync.Http.{given_token, token_matches}
use orgsync.Http.Handlers.{AppState}
use orgsync.Http.Handlers.Serve.{HttpRequest, reads, post_enroll, post_invite, post_revoke, serve}
use orgsync.Http.Handlers.Gate.{IsUnharmed, serve-IsUnharmed}
use orgsync.Tests.Toy.{toy, world, Rows}
use orgsync.Tests.Trust.{key, list, cert, joined, cert_holds}
use orgsync.Tests.Network.{node}
use orgsync.Tests.Server.{start, row, raw}

abbrev remembered : PeerTable
remembered =
    (
      codes "tv",
      record {
        user_id = codes "ann";
        display_name = codes "tv";
        role = codes "readonly";
        serial = 4;
        last_seen_ms = 20;
        cert = none;
      },
    )
    ∷ []

abbrev started : PeerTable → Runtime Rows
started table = record node { readonly_origins = db_readonly_origins table }

spawned :
    (table : PeerTable) → spawn world joined [] node.db true table 600 (ok tt) ≡ ok (started table)
unfolding spawn validate
spawned table = rw cert_holds refl

abbrev hellos : List Hello
hellos =
    record {
      peer = key;
      cert = cert;
      crl = list;
      replicates = true;
      now = 600;
      since = 601;
      seen = 602;
    }
    ∷ record {
      peer = codes "tv";
      cert = cert;
      crl = list;
      replicates = true;
      now = 603;
      since = 604;
      seen = 605;
    }
    ∷ []

abbrev evening : PeerTable
evening = (meet world (started remembered) remembered hellos).1

spawn-meet_example :
    contains (codes "tv") (started evening).readonly_origins
    ≡ contains (codes "tv") (meet world (started remembered) remembered hellos).0.readonly_origins
spawn-meet_example =
    spawn-meet world joined joined [] node.db node.db true remembered 600 600 (ok tt) (ok tt) hellos
      ((λ x m. elim m [ ]), tt) (spawned remembered) (spawned evening) (codes "tv")

abbrev state : AppState
state = record { store = start; bootstrap = []; cert_ttl_ms = 1000 }

abbrev visits : List HttpRequest
visits =
    reads
    ∷ post_enroll
        (build_enroll_request toy (codes "dev") (invite_code_display (random_token raw))
          (codes "phone") (codes "ios") 100)
        100 100
    ∷ post_invite (some (codes "Bearer guess"))
        (record { user_id = codes "eve"; display_name = none; role = none; ttl_hours = none })
        (1 ∷ []) 110
    ∷ post_revoke none 1 120 121
    ∷ []

guess_wrong : token_matches (given_token (some (codes "Bearer guess"))) (codes "secret") ≡ false
unfolding token_matches compare_list
guess_wrong = refl

none_wrong : token_matches (given_token none) (codes "secret") ≡ false
unfolding token_matches compare_list
none_wrong = refl

serve-IsUnharmed_example : IsUnharmed row start (serve toy state visits).store
serve-IsUnharmed_example =
    serve-IsUnharmed toy state row visits refl (tt, (tt, (guess_wrong, (none_wrong, tt))))
