-- ===== src/Change/Author.antt =====
-- Signing a change and checking its author.
use orgsync.Base.{
  ◌≡◌, ◌<◌, true, inl, inr, length, Bytes, Bool-cases, arith, ◌==◌, nat_ord, ap, if◌then◌else◌,
}
use orgsync.Error.{ok, err, rejected, ok_of_bind}
use orgsync.Crypto.{Crypto, Lawful}
use orgsync.Change.{ChangeRecord, signing_bytes, sign_with, verify_author, peer_public_key}

-- What a device signs under its own peer id is accepted as its own.
pub verify_author-sign_with :
    (c : Crypto) (secret : Bytes) (rec : ChangeRecord)
    → Lawful c
    → rec.origin ≡ c.peer_id (c.public secret)
    → verify_author c (sign_with c secret rec) ≡ ok tt
unfolding verify_author sign_with signing_bytes
verify_author-sign_with c secret rec law own =
    let (digest, parsed, decoded) = law.inlined (c.public secret) (law.public-accepted secret) in
    ground (
      arith,
      ap c.multihash own,
      parsed,
      decoded,
      law.signature_nonempty secret (signing_bytes rec),
      law.verify-sign secret (signing_bytes rec),
    )

-- An accepted change is signed, over its whole content, by the key inside its origin.
pub verify_author_sound :
    (c : Crypto) (rec : ChangeRecord)
    → verify_author c rec ≡ ok tt
    → (key : Bytes) × (peer_public_key c rec.origin ≡ ok key)
      × (c.verify key (signing_bytes rec) rec.sig ≡ true)
      × (0 < length rec.sig)
unfolding verify_author
verify_author_sound c rec h = elim (Bool-cases (length rec.sig == 0)) [
  | inl unsigned ↦ let refused : err rejected ≡ ok tt = rw unsigned at h in cc
  | inr signed ↦
      let (key, parsed, checked) =
        ok_of_bind (peer_public_key c rec.origin)
          (λ key. if c.verify key (signing_bytes rec) rec.sig then ok tt else err rejected)
          (rw signed at h) in
      (key, parsed, ground arith, ground arith)
]
