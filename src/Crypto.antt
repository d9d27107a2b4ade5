-- ===== src/Crypto.antt =====
-- What the code calls of libp2p, ed25519, blake3 and hex, as an interface. Keys, peer ids and
-- signatures are byte vectors; a PeerId is the bytes of its text form, which is how the code stores
-- it, and a key pair is its secret.
use orgsync.Base.{ℕ, Bool, true, ◌≡◌, Option, some, Bytes, length}

pub record Crypto : Type 0 where
  -- `ed25519::PublicKey::try_from_bytes`: the keys that are accepted.
  pub is_public_key : Bytes → Bool
  -- `verify` of a public key, on a message and a signature.
  pub verify : Bytes → Bytes → Bytes → Bool
  -- The public key of a secret, and a signature made with it.
  pub public : Bytes → Bytes
  pub sign : Bytes → Bytes → Bytes
  -- `to_peer_id` of a public key, in its text form.
  pub peer_id : Bytes → Bytes
  -- `parse::<PeerId>()` and `Multihash::from_bytes`: the code and the digest.
  pub multihash : Bytes → Option (ℕ × Bytes)
  -- `PublicKey::try_decode_protobuf`.
  pub decode_key : Bytes → Option Bytes
  pub blake3 : Bytes → Bytes
  -- `ed25519::Keypair::try_from_bytes` and `to_bytes`, and `SecretKey::try_from_bytes`.
  pub decode_keypair : Bytes → Option Bytes
  pub encode_keypair : Bytes → Bytes
  pub decode_secret : Bytes → Option Bytes
  -- `hex::encode` and `hex::decode`.
  pub hex_encode : Bytes → Bytes
  pub hex_decode : Bytes → Option Bytes

-- The documented behaviour of these libraries that the theorems use.
pub record Lawful (c : Crypto) : Type 0 where
  pub verify-sign :
      (secret message : Bytes) → c.verify (c.public secret) message (c.sign secret message) ≡ true
  pub public-accepted : (secret : Bytes) → c.is_public_key (c.public secret) ≡ true
  -- An Ed25519 key is inlined in its PeerId, under the identity code.
  pub inlined :
      (key : Bytes)
      → c.is_public_key key ≡ true
      → (digest : Bytes) × (c.multihash (c.peer_id key) ≡ some (0, digest))
        × (c.decode_key digest ≡ some key)
  pub public-length : (secret : Bytes) → length (c.public secret) ≡ 32
  pub signature_nonempty : (secret message : Bytes) → length (c.sign secret message) ≡ 64
  pub decode-encode_keypair :
      (secret : Bytes) → c.decode_keypair (c.encode_keypair secret) ≡ some secret
  pub hex_decode-encode : (b : Bytes) → c.hex_decode (c.hex_encode b) ≡ some b
