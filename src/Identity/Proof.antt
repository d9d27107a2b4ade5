-- ===== src/Identity/Proof.antt =====
-- The proof of possession of a device key, in a request to enrol.
use orgsync.Base.{
  ℕ, ◌<◌, ◌^◌, ◌≡◌, refl, ◌++◌, Bytes, length, le_bytes, le_bytes-injective, if◌then◌else◌,
}
use orgsync.Error.{Result, ok, err, rejected, ◌>>=◌}
use orgsync.Crypto.{Crypto, Lawful}
use orgsync.Change.{framed}
use orgsync.Change.Signing.{append_split, framed_split}
use orgsync.Identity.{enroll_domain, ed25519_public}

-- What a device signs.
unfoldable pub proof_bytes : Bytes → Bytes → Bytes → ℕ → Bytes
proof_bytes device_pub invite_token device_name at_ms =
    enroll_domain
    ++ (framed invite_token ++ (framed device_name ++ (device_pub ++ le_bytes 8 at_ms)))

unfoldable pub sign_enrollment : Crypto → Bytes → Bytes → Bytes → ℕ → Bytes
unfolding proof_bytes
sign_enrollment c secret invite_token device_name at_ms =
    c.sign secret (proof_bytes (c.public secret) invite_token device_name at_ms)

unfoldable pub verify_enrollment_proof :
    Crypto → Bytes → Bytes → Bytes → ℕ → Bytes → Result (Unit {0})
unfolding proof_bytes ed25519_public
verify_enrollment_proof c device_pub invite_token device_name at_ms signature = do
  key ← ed25519_public c device_pub
  if c.verify key (proof_bytes device_pub invite_token device_name at_ms) signature
      then ok tt
      else err rejected

-- The proof that a device makes with its own key is accepted.
pub verify-sign_enrollment :
    (c : Crypto) (secret invite_token device_name : Bytes) (at_ms : ℕ)
    → Lawful c
    → verify_enrollment_proof c
        (c.public secret)
        invite_token
        device_name
        at_ms
        (sign_enrollment c secret invite_token device_name at_ms)
      ≡ ok tt
unfolding verify_enrollment_proof sign_enrollment ed25519_public
verify-sign_enrollment c secret invite_token device_name at_ms law = rw (
  law.public-accepted secret,
  law.verify-sign secret (proof_bytes (c.public secret) invite_token device_name at_ms),
)

-- Two requests with the same bytes to sign ask for the same: a proof cannot be carried over to
-- another invite, device name, key or time.
pub proof_bytes-injective :
    (key key' token token' name name' : Bytes) (at at' : ℕ)
    → length token < 2 ^ 32
    → length token' < 2 ^ 32
    → length name < 2 ^ 32
    → length name' < 2 ^ 32
    → length key ≡ length key'
    → at < 2 ^ 64
    → at' < 2 ^ 64
    → proof_bytes key token name at ≡ proof_bytes key' token' name' at'
    → (key ≡ key') × (token ≡ token') × (name ≡ name') × (at ≡ at')
unfolding proof_bytes
proof_bytes-injective key key' token token' name name' at at' ht ht' hn hn' hk ha ha' e =
    let (_, e₁) = append_split enroll_domain enroll_domain _ _ refl e in
    let (token_same, e₂) = framed_split token token' _ _ ht ht' e₁ in
    let (name_same, e₃) = framed_split name name' _ _ hn hn' e₂ in
    let (key_same, e₄) = append_split key key' _ _ hk e₃ in
    (key_same, token_same, name_same, le_bytes-injective 8 at at' ha ha' e₄)
