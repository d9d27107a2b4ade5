-- ===== src/Identity/Cert.antt =====
-- `CertClaims` and `DeviceCert` of identity.rs, and `OrgKeypair::issue_cert`.
pub mod Content
pub mod Checked
pub mod Issued
use orgsync.Base.{
  ℕ, ◌+◌, ◌%◌, ◌^◌, Bool, true, false, not, Option, none, some, [], ◌∷◌, ◌++◌, Bytes, le_bytes, ltb,
  leb, ◌==◌, if◌then◌else◌, nat_ord, list_ord,
}
use orgsync.Error.{Result, ok, err, rejected, ◌>>=◌}
use orgsync.Crypto.{Crypto}
use orgsync.Hlc.{max_clock_drift_ms, saturating_add64}
use orgsync.Change.{framed}
use orgsync.Identity.{
  cert_domain, Role, as_u8, org_id_from_public, org_id, ed25519_public, device_pub_to_peer_id,
}
use orgsync.Identity.Crl.{RevocationList, is_revoked}

pub record CertClaims : Type 0 where
  pub org_id : Bytes
  pub device_pub : Bytes
  pub user_id : Bytes
  pub display_name : Bytes
  pub role : Role
  pub issued_at_ms : ℕ
  pub expires_at_ms : ℕ
  pub serial : ℕ

unfoldable pub signing_bytes : CertClaims → Bytes
signing_bytes claims =
    cert_domain
    ++ (framed claims.org_id
        ++ (claims.device_pub
            ++ (framed claims.user_id
                ++ (framed claims.display_name
                    ++ ((as_u8 claims.role ∷ [])
                        ++ (le_bytes 8 claims.issued_at_ms
                            ++ (le_bytes 8 claims.expires_at_ms ++ le_bytes 8 claims.serial)))))))

pub record DeviceCert : Type 0 where
  pub claims : CertClaims
  pub org_pub : Bytes
  pub signature : Bytes

abbrev pub peer_id : Crypto → DeviceCert → Result Bytes
peer_id c cert = device_pub_to_peer_id c cert.claims.device_pub

-- The last two checks, which are made only where the caller names a peer or a list.
unfoldable pub check_peer : Crypto → DeviceCert → Option Bytes → Result (Unit {0})
check_peer c cert none = ok tt
check_peer c cert (some peer) = do
  cert_peer ← peer_id c cert
  if cert_peer == peer then ok tt else err rejected

unfoldable pub check_crl : DeviceCert → Option RevocationList → Result (Unit {0})
check_crl cert none = ok tt
check_crl cert (some crl) = if is_revoked crl cert.claims.serial then err rejected else ok tt

-- The checks from the signature on, with the key of the organisation. The addition of the drift is
-- on u64 and wraps in a release build.
unfoldable pub check_claims :
    Crypto → DeviceCert → Option Bytes → Option RevocationList → ℕ → Bytes → Result (Unit {0})
unfolding signing_bytes check_peer check_crl
check_claims c cert expected_peer crl now org_key =
    if not (c.verify org_key (signing_bytes cert.claims) cert.signature)
    then err rejected
    else if leb cert.claims.expires_at_ms now
    then err rejected
    else if ltb ((now + max_clock_drift_ms) % 2 ^ 64) cert.claims.issued_at_ms
    then err rejected
    else do bound ← check_peer c cert expected_peer; check_crl cert crl

unfoldable pub verify :
    Crypto → DeviceCert → Bytes → Option Bytes → Option RevocationList → ℕ → Result (Unit {0})
unfolding check_claims ed25519_public
verify c cert expected_org expected_peer crl now =
    if not (org_id_from_public c cert.org_pub == expected_org)
    then err rejected
    else if not (cert.claims.org_id == expected_org)
    then err rejected
    else do
      org_key ← ed25519_public c cert.org_pub
      check_claims c cert expected_peer crl now org_key

-- The certificate of a device, by the secret of the organisation and at the time that the clock
-- shows.
unfoldable pub issue_cert : Crypto → Bytes → Bytes → Bytes → Bytes → Role → ℕ → ℕ → ℕ → DeviceCert
unfolding signing_bytes
issue_cert c inner device_pub user_id display_name role serial valid_for_ms now =
    let claims : CertClaims = record {
      org_id = org_id c inner;
      device_pub = device_pub;
      user_id = user_id;
      display_name = display_name;
      role = role;
      issued_at_ms = now;
      expires_at_ms = saturating_add64 now valid_for_ms;
      serial = serial;
    } in
    record {
      claims = claims;
      org_pub = c.public inner;
      signature = c.sign inner (signing_bytes claims);
    }
