-- ===== src/Tests/Trust.antt =====
-- Certificates and revocation lists of a small organisation.
use orgsync.Base.{
  ℕ, ◌≡◌, ◌≢◌, ◌↔◌, ◌<◌, refl, true, false, some, none, [], ◌∷◌, Bytes, codes, Memᴰ, sort_by,
  insert_sorted, compare_list, arith, nat_ord, list_ord,
}
use orgsync.Error.{ok}
use orgsync.Identity.{member, org_id, org_id_from_public}
use orgsync.Identity.Crl
use orgsync.Identity.Crl.{RevocationList, is_revoked, sign_crl, empty_crl, dedup, search}
use orgsync.Identity.Crl.Signed.{verify-sign_crl}
use orgsync.Identity.Cert
use orgsync.Identity.Cert.{CertClaims, DeviceCert, check_peer, issue_cert}
use orgsync.Identity.Cert.Content.{IsSized}
use orgsync.Identity.Cert.Issued.{
  IsTrusted, verify_sound, verify-issue_cert, verify_issued, revoked_refused,
}
use orgsync.Enroll.{Enrollment, EnrollResponse, accept, key_of_hex}
use orgsync.Enroll.Accepted.{IsJoined, accept_sound, IsLater, merge_all, merge_all-keeps}
use orgsync.Tests.Toy.{toy, toy-Lawful, zeros}

abbrev pub org : Bytes
org = codes "org"

abbrev pub key : Bytes
key = zeros 32

abbrev pub list : RevocationList
list = sign_crl toy org (9 ∷ 3 ∷ 9 ∷ []) 100

abbrev pub cert : DeviceCert
cert = issue_cert toy org key (codes "ann") (codes "phone") member 7 1000 500

verify-sign_crl_example :
    (Crl.verify toy list (org_id toy org) ≡ ok tt)
    × ((serial : ℕ) → (is_revoked list serial ≡ true) ↔ Memᴰ serial (9 ∷ 3 ∷ 9 ∷ []))
verify-sign_crl_example = verify-sign_crl toy org (9 ∷ 3 ∷ 9 ∷ []) 100 toy-Lawful

pub clean : is_revoked list 7 ≡ false
unfolding is_revoked sign_crl sort_by insert_sorted
clean = refl

pub cert_holds :
    Cert.verify toy cert (org_id toy org) (some (toy.peer_id key)) (some list) 600 ≡ ok tt
cert_holds =
    verify-issue_cert toy org key (codes "ann") (codes "phone") member 7 1000 500 600 list
      toy-Lawful refl (omega arith) (omega arith) clean

verify-issue_cert_example :
    Cert.verify toy cert (org_id toy org) (some (toy.peer_id key)) (some list) 600 ≡ ok tt
verify-issue_cert_example =
    verify-issue_cert toy org key (codes "ann") (codes "phone") member 7 1000 500 600 list
      toy-Lawful refl (omega arith) (omega arith) clean

verify_sound_example : IsTrusted toy cert (org_id toy org) (some (toy.peer_id key)) (some list) 600
verify_sound_example =
    verify_sound toy cert (org_id toy org) (some (toy.peer_id key)) (some list) 600 cert_holds

abbrev lost : DeviceCert
lost = issue_cert toy org key (codes "bob") (codes "tablet") member 3 1000 500

lost_serial : lost.claims.serial ≡ 3
unfolding issue_cert
lost_serial = refl

revoked_refused_example :
    Cert.verify toy lost (org_id toy org) (some (toy.peer_id key)) (some list) 600 ≢ ok tt
revoked_refused_example =
    revoked_refused toy org (9 ∷ 3 ∷ 9 ∷ []) 100 lost (org_id toy org) (some (toy.peer_id key)) 600
      toy-Lawful (Memᴰ.tail (Memᴰ.head lost_serial))

abbrev claims : CertClaims
claims = record {
  org_id = codes "o";
  device_pub = key;
  user_id = codes "ann";
  display_name = codes "phone";
  role = member;
  issued_at_ms = 500;
  expires_at_ms = 1500;
  serial = 7;
}

claims-IsSized : IsSized claims
claims-IsSized = record {
  org_id = omega arith;
  device_pub = refl;
  user_id = omega arith;
  display_name = omega arith;
  issued_at_ms = omega arith;
  expires_at_ms = omega arith;
  serial = omega arith;
}

abbrev pub reply : EnrollResponse
reply = record {
  cert = cert;
  crl = list;
  org = record { org_id = org_id toy org; org_pub = zeros 32; name = org; bootstrap = [] };
}

abbrev pub joined : Enrollment
joined = record { org_id = org_id toy org; org_name = org; cert = cert; crl = list; bootstrap = [] }

pub accepted : accept toy reply [] 600 ≡ ok joined
unfolding accept issue_cert compare_list sign_crl
accepted =
    let certified : Cert.verify toy cert (org_id toy org) (some (toy.peer_id key)) none 600
        ≡ ok tt =
      verify_issued toy org key (codes "ann") (codes "phone") member 7 1000 500 600 none toy-Lawful
        refl (omega arith) (omega arith) (unfold Cert.check_crl in refl) in
    rw (certified, verify-sign_crl_example.0)

accept_sound_example :
    IsJoined toy joined [] 600
    × ((org_pub : Bytes) × (key_of_hex toy (zeros 32) ≡ ok org_pub)
        × (org_id toy org ≡ org_id_from_public toy org_pub))
accept_sound_example = accept_sound toy reply [] 600 joined accepted

abbrev pub newer : RevocationList
newer = sign_crl toy org (7 ∷ []) 200

merge_all-keeps_example :
    IsLater toy (merge_all toy joined (newer ∷ list ∷ [])) joined
    × (Crl.verify toy
          (merge_all toy joined (newer ∷ list ∷ [])).crl
          (merge_all toy joined (newer ∷ list ∷ [])).org_id
        ≡ ok tt)
merge_all-keeps_example = merge_all-keeps toy joined (newer ∷ list ∷ []) verify-sign_crl_example.0

pub own_serial : cert.claims.serial ≡ 7
unfolding issue_cert
own_serial = refl

older : list.updated_at_ms < 200
unfolding sign_crl
older = omega arith
