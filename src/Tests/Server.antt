-- ===== src/Tests/Server.antt =====
-- A server with one invite, and a device that is known to it.
use orgsync.Base.{
  ℕ, ◌<◌, ◌≡◌, ◌≢◌, ◌↔◌, refl, sym, ap, ◌∙◌, true, false, none, some, [], ◌∷◌, Bytes, codes, Memᴰ,
  find, put, any, compare_list, arith, nat_ord, list_ord,
}
use mathlib.Core.List.Memᴰ
use orgsync.Error.{ok, err, other}
use orgsync.Identity.{org_id, org_from_bytes, device_pub_to_peer_id}
use orgsync.Identity.Crl
use orgsync.Identity.Crl.{RevocationList, is_revoked, empty_crl}
use orgsync.Identity.Cert.{DeviceCert, peer_id}
use orgsync.Enroll.{build_enroll_request, accept}
use orgsync.Seed.{
  Org, Invite, Device, Store, Request, cert_of, record_device, redeem_invite, revoke, revoke_rows,
  crl, published, revoked_serials,
}
use orgsync.Seed.Token.{random_token, invite_code_display}
use orgsync.Seed.Run.{run, revoke_op}
use orgsync.Seed.Spent.{redeem_once}
use orgsync.Seed.Serial.{IsConsistent}
use orgsync.Seed.Fresh.{redeem_serials}
use orgsync.Seed.Revoked.{IsWithdrawn, crl_lem}
use orgsync.Seed.Reenrolled.{reenrolled}
use orgsync.Seed.Joining.{reply_of, joined, honest, joins}
use orgsync.Http.{token_matches}
use orgsync.Http.Token.{token_matches_lem}
use orgsync.Tests.Toy.{toy, toy-Lawful, zeros}

abbrev pub raw : Bytes
raw = 0 ∷ 31 ∷ 200 ∷ []

abbrev pub row : Org
row = record {
  org_id = zeros 32;
  org_key = codes "org";
  node_key = codes "node";
  name = codes "acme";
  admin_token = codes "secret";
  next_serial = 2;
  crl_updated_at_ms = 0;
  created_at_ms = 1;
}

abbrev pub invite : Invite
invite = record {
  user_id = codes "ann";
  display_name = codes "Ann";
  role = codes "member";
  created_at_ms = 1;
  expires_at_ms = 500;
  used_at_ms = none;
  used_by = none;
}

abbrev pub known : Device
known = record {
  serial = 1;
  device_pub = zeros 32;
  user_id = codes "ann";
  display_name = codes "phone";
  role = codes "member";
  platform = codes "ios";
  enrolled_at_ms = 2;
  expires_at_ms = 9000;
  revoked_at_ms = some 50;
}

abbrev pub start : Store
start = record {
  org = some row;
  invites = (random_token raw, invite) ∷ (random_token (7 ∷ []), invite) ∷ [];
  devices = (zeros 32, known) ∷ [];
}

start-IsConsistent : IsConsistent start
start-IsConsistent org e = record {
  keyed = ((λ x m. elim m [ ]), tt);
  bound = λ x m. ground (arith, Memᴰ.eq_of_singleton m);
  distinct = λ x y mx my same.
      ap (λ (z : Bytes × Device). z.0) (Memᴰ.eq_of_singleton mx)
      ∙ sym (ap (λ (z : Bytes × Device). z.0) (Memᴰ.eq_of_singleton my));
}

abbrev asked : Request
asked = honest toy (codes "dev") raw (codes "phone") (codes "ios") 100 1000

abbrev cert : DeviceCert
cert = cert_of toy (codes "org") (zeros 32) asked invite 2 100

abbrev after : Store
after = record_device start row asked invite (zeros 32) (zeros 32) cert 100

redeemed : redeem_invite toy start asked 100 100 ≡ ok (after, cert)
unfolding redeem_invite build_enroll_request find compare_list random_token invite_code_display
    org_from_bytes device_pub_to_peer_id any
redeemed = refl

joins_example :
    (s' : Store) × (cert' : DeviceCert) × (redeem_invite toy start asked 100 100 ≡ ok (s', cert'))
    × (cert'.claims.serial ≡ 2)
    × (accept toy
          (reply_of toy
            (codes "org")
            cert'
            (empty_crl (org_id toy (codes "org")))
            (codes "acme")
            [])
          (codes "dev")
          150
        ≡ ok (
            joined toy
              (codes "org")
              cert'
              (empty_crl (org_id toy (codes "org")))
              (codes "acme")
              []))
joins_example =
    joins toy (codes "dev") raw (codes "phone") (codes "ios") 100 1000 start row (codes "org")
      invite (empty_crl (org_id toy (codes "org"))) (codes "acme") [] 100 100 150 toy-Lawful
      start-IsConsistent refl (unfold org_from_bytes in refl)
      (unfold find compare_list random_token in refl) refl (omega arith) (omega arith)
      (unfold Crl.verify in refl) (omega arith) (omega arith)

redeem_once_example :
    redeem_invite toy (run toy after (revoke_op 2 300 301 ∷ [])) asked 310 310 ≢ ok (after, cert)
redeem_once_example =
    redeem_once toy start asked asked 100 100 310 310 after cert (revoke_op 2 300 301 ∷ [])
      (after, cert) redeemed refl

abbrev asked_again : Request
asked_again = honest toy (codes "dev") (7 ∷ []) (codes "laptop") (codes "mac") 120 1000

abbrev cert_again : DeviceCert
cert_again = cert_of toy (codes "org") (zeros 32) asked_again invite 3 120

abbrev row_after : Org
row_after = record row { next_serial = 3 }

abbrev again : Store
again = record_device after row_after asked_again invite (zeros 32) (zeros 32) cert_again 120

redeemed_again : redeem_invite toy (run toy after []) asked_again 120 120 ≡ ok (again, cert_again)
unfolding run redeem_invite build_enroll_request find put compare_list random_token
    invite_code_display org_from_bytes device_pub_to_peer_id any
redeemed_again = refl

redeem_serials_example : (cert.claims.serial < cert_again.claims.serial) × IsConsistent again
redeem_serials_example =
    redeem_serials toy start asked asked_again 100 100 120 120 after again cert cert_again []
      start-IsConsistent redeemed redeemed_again

abbrev list : RevocationList
list = published toy (codes "org") 0 (revoked_serials start)

listed : crl toy start ≡ ok list
unfolding crl org_from_bytes
listed = refl

crl_lem_example :
    ((org : Org) × (inner : Bytes) × (start.org ≡ some org)
      × (org_from_bytes toy org.org_key ≡ ok inner)
      × (Crl.verify toy list (org_id toy inner) ≡ ok tt))
    × ((serial : ℕ) → (is_revoked list serial ≡ true) ↔ IsWithdrawn start.devices serial)
crl_lem_example = crl_lem toy start list toy-Lawful listed

abbrev busy : Store
busy = record start { devices = (zeros 32, record known { revoked_at_ms = none }) ∷ [] }

abbrev withdrawn : Store
withdrawn = record busy {
  devices = revoke_rows 1 200 busy.devices;
  org = some (record row { crl_updated_at_ms = 201 });
}

withdrawn_now : revoke busy 1 200 201 ≡ ok withdrawn
unfolding revoke any
withdrawn_now = refl

abbrev list_now : RevocationList
list_now = published toy (codes "org") 201 (revoked_serials withdrawn)

listed_now : crl toy withdrawn ≡ ok list_now
unfolding crl org_from_bytes
listed_now = refl

abbrev list_after : RevocationList
list_after = published toy (codes "org") 0 (revoked_serials after)

listed_after : crl toy after ≡ ok list_after
unfolding crl org_from_bytes record_device
listed_after = refl

peer_after : peer_id toy cert ≡ ok (zeros 32)
unfolding cert_of device_pub_to_peer_id
peer_after = refl

reenrolled_example : (is_revoked list_after 1 ≡ false) × (revoke after 1 600 601 ≡ err other)
reenrolled_example =
    reenrolled toy start asked 100 100 after cert (zeros 32) known list_after 600 601 toy-Lawful
      start-IsConsistent (Memᴰ.head refl) redeemed peer_after listed_after

one_byte : (x : ℕ) → Memᴰ x (codes "k") → 1 < x
one_byte x m = omega (arith, Memᴰ.eq_of_singleton m)

token_matches_lem_example : (token_matches (codes "k") (codes "k") ≡ true) ↔ (codes "k" ≡ codes "k")
token_matches_lem_example =
    token_matches_lem (codes "k") (codes "k") one_byte (λ y m. omega (arith, one_byte y m))
