-- ===== src/Enroll.antt =====
-- rust/p2p-core/src/enroll.rs: joining an organisation. The JSON of requests and replies is not
-- modelled.
pub mod Accepted
pub mod Saved
use orgsync.Base.{
  ℕ, ◌-◌, Bool, true, false, not, ◌&&◌, ◌||◌, Option, none, some, List, [], ◌∷◌, Bytes, length, leb,
  ◌==◌, if◌then◌else◌, nat_ord, list_ord,
}
use orgsync.Error.{Result, ok, err, crypto, rejected, ◌>>=◌}
use orgsync.Crypto.{Crypto}
use orgsync.Identity.{org_id_from_public}
use orgsync.Identity.Crl
use orgsync.Identity.Crl.{RevocationList}
use orgsync.Identity.Cert
use orgsync.Identity.Cert.{DeviceCert}
use orgsync.Identity.Proof.{sign_enrollment}

pub record EnrollRequest : Type 0 where
  pub invite_token : Bytes
  pub device_name : Bytes
  pub platform : Bytes
  pub device_pub : Bytes
  pub at_ms : ℕ
  pub proof : Bytes

pub record OrgInfo : Type 0 where
  pub org_id : Bytes
  pub org_pub : Bytes
  pub name : Bytes
  pub bootstrap : List Bytes

pub record EnrollResponse : Type 0 where
  pub cert : DeviceCert
  pub crl : RevocationList
  pub org : OrgInfo

pub record Enrollment : Type 0 where
  pub org_id : Bytes
  pub org_name : Bytes
  pub cert : DeviceCert
  pub crl : RevocationList
  pub bootstrap : List Bytes

-- `is_ascii_alphanumeric`; the bytes of a character outside ASCII are none of these.
abbrev pub is_digit : ℕ → Bool
is_digit b = leb b'0' b && leb b b'9'

abbrev pub is_upper : ℕ → Bool
is_upper b = leb b'A' b && leb b b'Z'

abbrev pub is_lower : ℕ → Bool
is_lower b = leb b'a' b && leb b b'z'

-- `to_uppercase` of an ASCII letter or digit.
abbrev pub to_upper : ℕ → ℕ
to_upper b = if is_lower b then b - 32 else b

unfoldable pub normalize_invite_code : Bytes → Bytes
normalize_invite_code [] = []
normalize_invite_code (b ∷ raw) =
    let rest = normalize_invite_code raw in
    if is_digit b || (is_upper b || is_lower b) then to_upper b ∷ rest else rest

abbrev pub is_err : Result (Unit {0}) → Bool
is_err (ok u) = false
is_err (err e) = true

module _ (c : Crypto) where
  -- The secret of the device, and the time that the clock shows.
  unfoldable pub build_enroll_request : Bytes → Bytes → Bytes → Bytes → ℕ → EnrollRequest
  unfolding normalize_invite_code sign_enrollment
  build_enroll_request secret raw_token device_name platform now =
      let invite_token = normalize_invite_code raw_token in
      record {
        invite_token = invite_token;
        device_name = device_name;
        platform = platform;
        device_pub = c.hex_encode (c.public secret);
        at_ms = now;
        proof = c.hex_encode (sign_enrollment c secret invite_token device_name now);
      }

  -- `hex::decode` into an array of 32 bytes.
  unfoldable pub key_of_hex : Bytes → Result Bytes
  key_of_hex text = elim (c.hex_decode text) [
    | none ↦ err crypto
    | some bytes ↦ if length bytes == 32 then ok bytes else err crypto
  ]

  -- The checks on a reply after its key has been read.
  unfoldable pub accept_with : EnrollResponse → Bytes → ℕ → Bytes → Result Enrollment
  accept_with resp secret now org_pub =
      if not (org_id_from_public c org_pub == resp.org.org_id)
      then err rejected
      else if not (resp.cert.claims.device_pub == c.public secret)
      then err rejected
      else do
        certified ←
            Cert.verify c resp.cert resp.org.org_id (some (c.peer_id (c.public secret))) none now
        listed ← Crl.verify c resp.crl resp.org.org_id
        ok (record {
          org_id = resp.org.org_id;
          org_name = resp.org.name;
          cert = resp.cert;
          crl = resp.crl;
          bootstrap = resp.org.bootstrap;
        })

  unfoldable pub accept : EnrollResponse → Bytes → ℕ → Result Enrollment
  unfolding key_of_hex accept_with
  accept resp secret now = do
    org_pub ← key_of_hex resp.org.org_pub
    accept_with resp secret now org_pub

  unfoldable pub validate : Enrollment → Bytes → ℕ → Result (Unit {0})
  validate e secret now =
      Cert.verify c e.cert e.org_id (some (c.peer_id (c.public secret))) (some e.crl) now

  unfoldable pub merge_crl : Enrollment → RevocationList → Enrollment × Bool
  merge_crl e incoming =
      if leb incoming.updated_at_ms e.crl.updated_at_ms
      then (e, false)
      else if is_err (Crl.verify c incoming e.org_id)
      then (e, false)
      else (record e { crl = incoming }, true)
