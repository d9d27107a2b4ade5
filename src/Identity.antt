-- ===== src/Identity.antt =====
-- rust/p2p-core/src/identity.rs: roles, keys and the organisation's id. The device's key pair and
-- the organisation's are secrets here; generating one is a parameter where it is used.
pub mod Crl
pub mod Cert
pub mod Proof
use orgsync.Base.{
  ℕ, Bool, true, false, Option, none, some, ◌++◌, Bytes, codes, length, ◌==◌, if◌then◌else◌,
  nat_ord, list_ord,
}
use orgsync.Error.{Result, ok, err, crypto, ◌>>=◌}
use orgsync.Crypto.{Crypto}

abbrev pub cert_domain : Bytes
cert_domain = codes "p2p-org-devcert-v1"

abbrev pub crl_domain : Bytes
crl_domain = codes "p2p-org-crl-v1"

abbrev pub enroll_domain : Bytes
enroll_domain = codes "p2p-org-enroll-request-v1"

pub data Role : Type 0 where
  admin : Role
  member : Role
  readonly : Role

abbrev pub as_u8 : Role → ℕ
as_u8 admin = 0
as_u8 member = 1
as_u8 readonly = 2

abbrev pub from_u8 : ℕ → Option Role
from_u8 v =
    if v == 0
    then some admin
    else if v == 1
    then some member
    else if v == 2
    then some readonly
    else none

abbrev pub as_str : Role → Bytes
as_str admin = codes "admin"
as_str member = codes "member"
as_str readonly = codes "readonly"

-- Any other text is a member.
abbrev pub from_str_lossy : Bytes → Role
from_str_lossy s =
    if s == codes "admin" then admin else if s == codes "readonly" then readonly else member

abbrev pub may_write : Role → Bool
may_write admin = true
may_write member = true
may_write readonly = false

module _ (c : Crypto) where
  abbrev pub org_id_from_public : Bytes → Bytes
  org_id_from_public org_pub = c.hex_encode (c.blake3 org_pub)

  unfoldable pub ed25519_public : Bytes → Result Bytes
  ed25519_public bytes = if c.is_public_key bytes then ok bytes else err crypto

  unfoldable pub device_pub_to_peer_id : Bytes → Result Bytes
  unfolding ed25519_public
  device_pub_to_peer_id device_pub = do key ← ed25519_public device_pub; ok (c.peer_id key)

  -- `OrgKeypair::from_bytes`, `public_bytes` and `org_id`.
  unfoldable pub org_from_bytes : Bytes → Result Bytes
  org_from_bytes bytes = elim (c.decode_keypair bytes) [ none ↦ err crypto | some inner ↦ ok inner ]

  abbrev pub org_id : Bytes → Bytes
  org_id inner = org_id_from_public (c.public inner)

  -- `DeviceIdentity::from_secret`.
  unfoldable pub from_secret : Bytes → Result Bytes
  from_secret secret =
      if length secret == 32
      then elim (c.decode_secret secret) [ none ↦ err crypto | some sk ↦ ok sk ]
      else err crypto
