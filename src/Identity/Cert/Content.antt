-- ===== src/Identity/Cert/Content.antt =====
-- No two different claims have the same bytes to sign, so a certificate's signature covers one
-- statement only.
use orgsync.Base.{◌<◌, ◌^◌, ◌≡◌, refl, [], ◌∷◌, length, le_bytes-injective, arith}
use orgsync.Change.Signing.{append_split, fixed_split, framed_split}
use orgsync.Identity.{cert_domain, Role, admin, member, readonly, as_u8}
use orgsync.Identity.Cert.{CertClaims, signing_bytes}

-- The sizes that the Rust types promise, and texts shorter than four gigabytes.
pub record IsSized (claims : CertClaims) : Type 0 where
  pub org_id : length claims.org_id < 2 ^ 32
  pub device_pub : length claims.device_pub ≡ 32
  pub user_id : length claims.user_id < 2 ^ 32
  pub display_name : length claims.display_name < 2 ^ 32
  pub issued_at_ms : claims.issued_at_ms < 2 ^ 64
  pub expires_at_ms : claims.expires_at_ms < 2 ^ 64
  pub serial : claims.serial < 2 ^ 64

as_u8-injective : (a b : Role) → as_u8 a ≡ as_u8 b → a ≡ b
as_u8-injective admin admin e = refl
as_u8-injective member member e = refl
as_u8-injective readonly readonly e = refl
as_u8-injective a b e = absurd (omega arith)

-- Two claims with the same bytes to sign are the same claims.
pub claims-injective :
    (a b : CertClaims) → IsSized a → IsSized b → signing_bytes a ≡ signing_bytes b → a ≡ b
unfolding signing_bytes
claims-injective a b va vb e =
    let (_, e₁) = append_split cert_domain cert_domain _ _ refl e in
    let (org, e₂) = framed_split a.org_id b.org_id _ _ va.org_id vb.org_id e₁ in
    let (key, e₃) =
      append_split a.device_pub b.device_pub _ _ (omega (arith, va.device_pub, vb.device_pub)) e₂ in
    let (user, e₄) = framed_split a.user_id b.user_id _ _ va.user_id vb.user_id e₃ in
    let (name, e₅) =
      framed_split a.display_name b.display_name _ _ va.display_name vb.display_name e₄ in
    let (role, e₆) = append_split (as_u8 a.role ∷ []) (as_u8 b.role ∷ []) _ _ refl e₅ in
    let (issued, e₇) =
      fixed_split 8 a.issued_at_ms b.issued_at_ms _ _ va.issued_at_ms vb.issued_at_ms e₆ in
    let (expires, e₈) =
      fixed_split 8 a.expires_at_ms b.expires_at_ms _ _ va.expires_at_ms vb.expires_at_ms e₇ in
    let serial = le_bytes-injective 8 a.serial b.serial va.serial vb.serial e₈ in
    let same = as_u8-injective a.role b.role (ground arith) in
    λ i. record {
      org_id = org i;
      device_pub = key i;
      user_id = user i;
      display_name = name i;
      role = same i;
      issued_at_ms = issued i;
      expires_at_ms = expires i;
      serial = serial i;
    }
