-- ===== src/Identity/Crl.antt =====
-- `RevocationList` of identity.rs, and `OrgKeypair::sign_crl`.
pub mod Search
pub mod Signed
use orgsync.Base.{
  ℕ, zero, suc, ◌-◌, ◌/◌, ◌%◌, ◌^◌, Bool, true, false, not, ◌&&◌, ◌||◌, List, [], ◌∷◌, ◌++◌, Bytes,
  length, take, drop, le_bytes, sort_by, above, ltb, ◌==◌, if◌then◌else◌, nat_ord, list_ord, leb,
}
use orgsync.Error.{Result, ok, err, rejected, ◌>>=◌}
use orgsync.Crypto.{Crypto}
use orgsync.Change.{framed}
use orgsync.Identity.{crl_domain, org_id_from_public, org_id, ed25519_public}

pub record RevocationList : Type 0 where
  pub org_id : Bytes
  pub updated_at_ms : ℕ
  pub revoked : List ℕ
  pub org_pub : Bytes
  pub signature : Bytes

abbrev zeros : ℕ → Bytes
zeros zero = []
zeros (suc n) = 0 ∷ zeros n

abbrev pub empty_crl : Bytes → RevocationList
empty_crl org = record {
  org_id = org;
  updated_at_ms = 0;
  revoked = [];
  org_pub = zeros 32;
  signature = [];
}

unfoldable pub serial_bytes : List ℕ → Bytes
serial_bytes [] = []
serial_bytes (s ∷ revoked) = le_bytes 8 s ++ serial_bytes revoked

unfoldable pub signing_bytes : RevocationList → Bytes
signing_bytes crl =
    crl_domain
    ++ (framed crl.org_id
        ++ (le_bytes 8 crl.updated_at_ms
            ++ (le_bytes 4 (length crl.revoked % 2 ^ 32) ++ serial_bytes crl.revoked)))

-- `slice::binary_search(..).is_ok()`: the slice is halved until one entry is left. Every round but
-- the last shortens the slice, so its length is fuel enough.
unfoldable pub search : ℕ → ℕ → List ℕ → Bool
search serial zero slice = false
search serial (suc fuel) [] = false
search serial (suc fuel) (first ∷ rest) =
    let size = suc (length rest) in
    let lower = search serial fuel (take (size - size / 2) (first ∷ rest)) in
    let upper = search serial fuel (drop (size / 2) (first ∷ rest)) in
    if leb size 1 then first == serial else elim (drop (size / 2) (first ∷ rest)) [
      | [] ↦ false
      | mid ∷ _ ↦ if above mid serial then lower else upper
    ]

unfoldable pub is_revoked : RevocationList → ℕ → Bool
unfolding search
is_revoked crl serial = search serial (length crl.revoked) crl.revoked

-- `windows(2).all(|w| w[0] < w[1])`.
unfoldable pub is_ascending : List ℕ → Bool
is_ascending [] = true
is_ascending (a ∷ []) = true
is_ascending (a ∷ b ∷ l) = ltb a b && is_ascending (b ∷ l)

abbrev pub is_empty : List ℕ → Bool
is_empty [] = true
is_empty (s ∷ revoked) = false

-- The list with which a device starts carries no authority and is let through.
unfoldable pub verify : Crypto → RevocationList → Bytes → Result (Unit {0})
unfolding signing_bytes is_ascending ed25519_public
verify c crl expected_org =
    if (crl.updated_at_ms == 0) && is_empty crl.revoked
    then ok tt
    else if not (crl.org_id == expected_org)
        || not (org_id_from_public c crl.org_pub == expected_org)
    then err rejected
    else if not (is_ascending crl.revoked)
    then err rejected
    else do
      key ← ed25519_public c crl.org_pub
      if c.verify key (signing_bytes crl) crl.signature then ok tt else err rejected

-- `Vec::dedup`: of equal neighbours the first is kept.
unfoldable pub dedup : List ℕ → List ℕ
dedup [] = []
dedup (a ∷ []) = a ∷ []
dedup (a ∷ b ∷ l) = let rest = dedup (b ∷ l) in if a == b then rest else a ∷ rest

abbrev unsigned : Crypto → Bytes → List ℕ → ℕ → RevocationList
unsigned c inner revoked updated_at_ms = record {
  org_id = org_id c inner;
  updated_at_ms = updated_at_ms;
  revoked = dedup (sort_by (λ s. s) revoked);
  org_pub = c.public inner;
  signature = [];
}

unfoldable pub sign_crl : Crypto → Bytes → List ℕ → ℕ → RevocationList
unfolding dedup signing_bytes
sign_crl c inner revoked updated_at_ms =
    let crl = unsigned c inner revoked updated_at_ms in
    record crl { signature = c.sign inner (signing_bytes crl) }
