-- ===== src/Tests/Serving.antt =====
-- A server from its first start on.
use orgsync.Base.{
  ◌++◌, ◌≡◌, refl, true, false, some, none, Option, [], ◌∷◌, List, Bytes, codes, Memᴰ, compare_list,
  arith,
}
use mathlib.Core.List.Memᴰ
use orgsync.Error.{ok}
use orgsync.Identity.{admin, member, org_id, from_secret}
use orgsync.Identity.Crl.{RevocationList}
use orgsync.Identity.Cert
use orgsync.Enroll.{Enrollment, validate}
use orgsync.Seed.{Store, init, crl}
use orgsync.Seed.Run.{Op, invite_op, revoke_op, run}
use orgsync.Seed.Main.{IpAddr, p2p_part, announce_addrs, learn_all, own_enrollment, is_advertisable}
use orgsync.Seed.Main.Announced.{IsEndingIn, IsNamed, IsExtended, bootstrap_lem}
use orgsync.Seed.Main.Trusted.{server_trusted}
use orgsync.Tests.Toy.{toy, toy-Lawful, zeros}

abbrev nothing : Store
nothing = record { org = none; invites = []; devices = [] }

abbrev fresh : Store
fresh = record nothing {
  org = some (record {
    org_id = org_id toy (codes "org");
    org_key = codes "org";
    node_key = zeros 32;
    name = codes "acme";
    admin_token = codes "secret";
    next_serial = 1;
    crl_updated_at_ms = 0;
    created_at_ms = 5;
  });
}

initialised : init toy nothing (codes "org") (zeros 32) (codes "secret") (codes "acme") 5 ≡ ok fresh
unfolding init
initialised = refl

key_read : from_secret toy (zeros 32) ≡ ok (zeros 32)
unfolding from_secret
key_read = refl

abbrev ops : List Op
ops = invite_op (3 ∷ []) (codes "ann") (codes "Ann") member 1000 10 ∷ revoke_op 0 11 12 ∷ []

server_trusted_example :
    (e : Enrollment) × (list : RevocationList) × (own_enrollment toy (run toy fresh ops) 365 20
      ≡ ok e)
    × (e.org_id ≡ org_id toy (codes "org"))
    × (e.cert.claims.role ≡ admin)
    × (validate toy e (zeros 32) 30 ≡ ok tt)
    × (crl toy (run toy (run toy fresh ops) []) ≡ ok list)
    × (Cert.verify toy e.cert e.org_id (some (toy.peer_id (toy.public (zeros 32)))) (some list) 30
        ≡ ok tt)
server_trusted_example =
    server_trusted toy (codes "org") (zeros 32) (codes "acme") nothing fresh (codes "secret") 5 365
      20 30 ops [] toy-Lawful refl initialised key_read (omega arith) (omega arith)

abbrev no_ip : Bytes → Option IpAddr
no_ip host = none

abbrev lan : Bytes
lan = codes "/ip4/192.168.1.20/tcp/4001" ++ (p2p_part ++ codes "me")

lan_only : (x : Bytes) → Memᴰ x (lan ∷ []) → IsEndingIn (codes "me") x
lan_only x m = (codes "/ip4/192.168.1.20/tcp/4001", Memᴰ.eq_of_singleton m)

bootstrap_lem_example :
    let announced = announce_addrs no_ip 4001 4001 (codes "me") (codes "seed.acme.org" ∷ []) in
    IsExtended announced (learn_all announced (lan ∷ [])) (lan ∷ [])
    × ((x : Bytes)
        → Memᴰ x (learn_all announced (lan ∷ []))
        → IsNamed (codes "seed.acme.org" ∷ []) (codes "me") x)
bootstrap_lem_example =
    bootstrap_lem no_ip 4001 4001 (codes "me") (codes "seed.acme.org" ∷ []) (lan ∷ []) lan_only

-- The cases of the source's own tests.
announced_host :
    announce_addrs no_ip 4001 4001 (codes "me") (codes "seed.acme.org" ∷ [])
    ≡ codes "/dns4/seed.acme.org/udp/4001/quic-v1/p2p/me"
      ∷ codes "/dns4/seed.acme.org/tcp/4001/p2p/me"
      ∷ []
unfolding announce_addrs
announced_host = refl

loopback : is_advertisable (codes "/ip4/127.0.0.1/tcp/4001") ≡ false
unfolding is_advertisable compare_list
loopback = refl

unspecified_v6 : is_advertisable (codes "/ip6/::/tcp/4001") ≡ true
unfolding is_advertisable compare_list
unspecified_v6 = refl
