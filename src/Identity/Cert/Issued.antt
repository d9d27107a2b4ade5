-- ===== src/Identity/Cert/Issued.antt =====
-- Which certificates are accepted.
use orgsync.Base.{
  ℕ, ◌+◌, ◌%◌, ◌^◌, ◌<◌, ◌≤◌, ◌≡◌, ◌≢◌, refl, true, false, Option, none, some, inl, inr, List, Memᴰ,
  Bytes, ◌==◌, ==_iff, Bool-cases, nat_ord, list_ord,
}
use orgsync.Error.{ok, err, rejected, crypto}
use orgsync.Crypto.{Crypto, Lawful}
use orgsync.Hlc.{max_clock_drift_ms, saturating_add64}
use orgsync.Identity.{Role, org_id_from_public, org_id, ed25519_public, device_pub_to_peer_id}
use orgsync.Identity.Crl.{RevocationList, is_revoked, sign_crl}
use orgsync.Identity.Crl.Signed.{verify-sign_crl}
use orgsync.Identity.Cert.Checked.{verify-IsChecked, verify_intro, verify-key}
use orgsync.Identity.Cert.{DeviceCert, signing_bytes, check_peer, check_crl, verify, issue_cert}

-- The list that is held, if there is one, does not find the serial.
abbrev pub IsUnlisted : DeviceCert → Option RevocationList → Type 0
IsUnlisted cert none = Unit
IsUnlisted cert (some list) = is_revoked list cert.claims.serial ≡ false

-- The peer that is named, if one is, is the one whose public key the certificate holds.
abbrev pub IsFor : Crypto → DeviceCert → Option Bytes → Type 0
IsFor c cert none = Unit
IsFor c cert (some peer) =
    (c.is_public_key cert.claims.device_pub ≡ true) × (c.peer_id cert.claims.device_pub ≡ peer)

-- What an accepted certificate is.
pub record IsTrusted (c : Crypto) (cert : DeviceCert) (org : Bytes) (peer : Option Bytes)
    (crl : Option RevocationList) (now : ℕ) : Type 0 where
  pub pinned : org_id_from_public c cert.org_pub ≡ org
  pub named : cert.claims.org_id ≡ org
  pub signed : c.verify cert.org_pub (signing_bytes cert.claims) cert.signature ≡ true
  pub unexpired : now < cert.claims.expires_at_ms
  pub started : cert.claims.issued_at_ms ≤ (now + max_clock_drift_ms) % 2 ^ 64
  pub unlisted : IsUnlisted cert crl
  pub owned : IsFor c cert peer

check_crl-IsUnlisted :
    (cert : DeviceCert) (crl : Option RevocationList)
    → check_crl cert crl ≡ ok tt
    → IsUnlisted cert crl
unfolding check_crl
check_crl-IsUnlisted cert none h = tt
check_crl-IsUnlisted cert (some list) h = elim (Bool-cases (is_revoked list cert.claims.serial)) [
  | inl hit ↦ let no : err rejected ≡ ok tt = rw hit at h in absurd (cc)
  | inr clean ↦ clean
]

check_peer-IsFor :
    (c : Crypto) (cert : DeviceCert) (peer : Option Bytes)
    → check_peer c cert peer ≡ ok tt
    → IsFor c cert peer
unfolding check_peer device_pub_to_peer_id ed25519_public
check_peer-IsFor c cert none h = tt
check_peer-IsFor c cert (some peer) h = elim (Bool-cases (c.is_public_key cert.claims.device_pub)) [
  | inl key ↦ elim (Bool-cases (c.peer_id cert.claims.device_pub == peer)) [
    | inl same ↦ (key, (==_iff (c.peer_id cert.claims.device_pub) peer).0 same)
    | inr apart ↦ let no : err rejected ≡ ok tt = rw (key, apart) at h in absurd (cc)
  ]
  | inr bad ↦ let no : err crypto ≡ ok tt = rw bad at h in absurd (cc)
]

-- An accepted certificate is signed by the organisation key that it carries, which hashes to the
-- organisation that is asked for and named in it, holds at the time as the clock drift allows, has a
-- serial that the list which is given, if one is, does not find, and holds a public key that is
-- valid and hashes to the peer that is named, if one is.
pub verify_sound :
    (c : Crypto) (cert : DeviceCert) (org : Bytes) (peer : Option Bytes)
    (crl : Option RevocationList) (now : ℕ)
    → verify c cert org peer crl now ≡ ok tt
    → IsTrusted c cert org peer crl now
verify_sound c cert org peer crl now h =
    let (t, bound) = verify-IsChecked c cert org peer crl now h in
    record {
      pinned = t.pinned;
      named = t.named;
      signed = t.signed;
      unexpired = t.unexpired;
      started = t.started;
      unlisted = check_crl-IsUnlisted cert crl t.listed;
      owned = check_peer-IsFor c cert peer bound;
    }

-- What has been accepted is accepted again in its time, with any list that lets it through.
pub verify_again :
    (c : Crypto) (cert : DeviceCert) (org : Bytes) (peer : Option Bytes)
    (crl crl' : Option RevocationList) (now later : ℕ)
    → verify c cert org peer crl now ≡ ok tt
    → cert.claims.issued_at_ms ≤ (later + max_clock_drift_ms) % 2 ^ 64
    → later < cert.claims.expires_at_ms
    → check_crl cert crl' ≡ ok tt
    → verify c cert org peer crl' later ≡ ok tt
verify_again c cert org peer crl crl' now later h started alive listed =
    let (t, bound) = verify-IsChecked c cert org peer crl now h in
    verify_intro c cert org peer crl' later (verify-key c cert org peer crl now h)
      (record {
        pinned = t.pinned;
        named = t.named;
        signed = t.signed;
        unexpired = alive;
        started = started;
        listed = listed;
      })
      bound

-- What is issued is accepted wherever the list that is held lets it through.
pub verify_issued :
    (c : Crypto) (inner device_pub user_id display_name : Bytes) (role : Role)
    (serial valid_for_ms issued now : ℕ) (crl : Option RevocationList)
    → Lawful c
    → c.is_public_key device_pub ≡ true
    → issued ≤ (now + max_clock_drift_ms) % 2 ^ 64
    → now < saturating_add64 issued valid_for_ms
    → let cert =
        issue_cert c inner device_pub user_id display_name role serial valid_for_ms issued in
      check_crl cert crl ≡ ok tt
      → verify c cert (org_id c inner) (some (c.peer_id device_pub)) crl now ≡ ok tt
unfolding issue_cert check_peer device_pub_to_peer_id ed25519_public
verify_issued c inner device_pub user_id display_name role serial valid_for_ms issued now crl law
      key started alive listed =
    let cert = issue_cert c inner device_pub user_id display_name role serial valid_for_ms issued in
    let own : (c.peer_id device_pub == c.peer_id device_pub) ≡ true =
      (==_iff (c.peer_id device_pub) (c.peer_id device_pub)).1 refl in
    let bound : check_peer c cert (some (c.peer_id device_pub)) ≡ ok tt = rw (key, own) in
    verify_intro c cert (org_id c inner) (some (c.peer_id device_pub)) crl now
      (law.public-accepted inner)
      (record {
        pinned = refl;
        named = refl;
        signed = law.verify-sign inner (signing_bytes cert.claims);
        unexpired = alive;
        started = started;
        listed = listed;
      })
      bound

-- A certificate that the organisation issues for a device is accepted from that device, from
-- the moment of issue as the clock drift allows until it expires, with every revocation list that
-- does not have its serial.
pub verify-issue_cert :
    (c : Crypto) (inner device_pub user_id display_name : Bytes) (role : Role)
    (serial valid_for_ms issued now : ℕ) (crl : RevocationList)
    → Lawful c
    → c.is_public_key device_pub ≡ true
    → issued ≤ (now + max_clock_drift_ms) % 2 ^ 64
    → now < saturating_add64 issued valid_for_ms
    → is_revoked crl serial ≡ false
    → verify c
        (issue_cert c inner device_pub user_id display_name role serial valid_for_ms issued)
        (org_id c inner)
        (some (c.peer_id device_pub))
        (some crl)
        now
      ≡ ok tt
unfolding issue_cert check_crl
verify-issue_cert c inner device_pub user_id display_name role serial valid_for_ms issued now crl
      law key started alive clean =
    verify_issued c inner device_pub user_id display_name role serial valid_for_ms issued now
      (some crl) law key started alive (rw clean)

-- A certificate whose serial is among those that a signed list revokes is accepted from nobody,
-- at no time, by a device that holds the list.
pub revoked_refused :
    (c : Crypto) (inner : Bytes) (revoked : List ℕ) (updated_at_ms : ℕ) (cert : DeviceCert)
    (org : Bytes) (peer : Option Bytes) (now : ℕ)
    → Lawful c
    → Memᴰ cert.claims.serial revoked
    → verify c cert org peer (some (sign_crl c inner revoked updated_at_ms)) now ≢ ok tt
unfolding check_crl
revoked_refused c inner revoked updated_at_ms cert org peer now law m accepted =
    let crl = sign_crl c inner revoked updated_at_ms in
    let hit : is_revoked crl cert.claims.serial ≡ true =
      ((verify-sign_crl c inner revoked updated_at_ms law).1 cert.claims.serial).1 m in
    let trusted = (verify-IsChecked c cert org peer (some crl) now accepted).0 in
    let no : err rejected ≡ ok tt = rw hit at trusted.listed in cc
