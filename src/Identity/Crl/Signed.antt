-- ===== src/Identity/Crl/Signed.antt =====
-- What a revocation list revokes, for the lists that are signed and those that are accepted.
use orgsync.Base.{
  ℕ, ◌≡◌, ◌↔◌, refl, sym, ap, ◌∙◌, subst, true, false, ◌⊎◌, not, ◌&&◌, ◌||◌, inl, inr, List, [],
  ◌∷◌, Memᴰ, Bytes, length, ltb, sort_by, sort_by-IsSorted, mem-sort_by, mem-sort_by_intro, above,
  not_above_trans, ◌==◌, ==_iff, Bool-cases, nat_ord, list_ord, if◌then◌else◌, arith,
}
use mathlib.Core.List.Memᴰ
use orgsync.Error.{ok, err, rejected, ok_of_bind}
use orgsync.Crypto.{Crypto, Lawful}
use orgsync.Identity.{org_id_from_public, org_id, ed25519_public}
use orgsync.Identity.Crl.{
  RevocationList, signing_bytes, is_revoked, is_ascending, is_empty, verify, dedup, sign_crl,
  unsigned,
}
use orgsync.Identity.Crl.Search.{Sorted, search_sound, search_complete}

is_ascending-Sorted : (l : List ℕ) → is_ascending l ≡ true → Sorted l
unfolding is_ascending
is_ascending-Sorted [] h = tt
is_ascending-Sorted (a ∷ []) h = ((λ x m. elim m [ ]), tt)
is_ascending-Sorted (a ∷ b ∷ l) h =
    let (first, rest) = is_ascending-Sorted (b ∷ l) (ground arith) in
    let step : above a b ≡ false = ground arith in
    (
      (λ x m. elim (Memᴰ.cases_cons m) [
        | inl e ↦ ap (above a) e ∙ step
        | inr t ↦ not_above_trans a b x step (first x t)
      ]),
      (first, rest),
    )

mem-dedup : (l : List ℕ) (x : ℕ) → Memᴰ x (dedup l) → Memᴰ x l
unfolding dedup
mem-dedup [] x m = m
mem-dedup (a ∷ []) x m = m
mem-dedup (a ∷ b ∷ l) x m = elim (Bool-cases (a == b)) [
  | inl same ↦ Memᴰ.tail (mem-dedup (b ∷ l) x (rw same at m))
  | inr new ↦ elim (Memᴰ.cases_cons (rw new at m)) [
    | inl e ↦ Memᴰ.head e
    | inr t ↦ Memᴰ.tail (mem-dedup (b ∷ l) x t)
  ]
]

mem-dedup_intro : (l : List ℕ) (x : ℕ) → Memᴰ x l → Memᴰ x (dedup l)
unfolding dedup
mem-dedup_intro [] x m = m
mem-dedup_intro (a ∷ []) x m = m
mem-dedup_intro (a ∷ b ∷ l) x m = elim (Bool-cases (a == b)) [
  | inl same ↦ rw same (elim (Memᴰ.cases_cons m) [
    | inl e ↦ mem-dedup_intro (b ∷ l) x (Memᴰ.head (e ∙ (==_iff a b).0 same))
    | inr t ↦ mem-dedup_intro (b ∷ l) x t
  ])
  | inr new ↦ rw new (elim (Memᴰ.cases_cons m) [
    | inl e ↦ Memᴰ.head e
    | inr t ↦ Memᴰ.tail (mem-dedup_intro (b ∷ l) x t)
  ])
]

-- The head of the deduplicated list is the head.
dedup_head : (b : ℕ) (l : List ℕ) → (r : List ℕ) × (dedup (b ∷ l) ≡ b ∷ r)
unfolding dedup
dedup_head b [] = ([], refl)
dedup_head b (c ∷ l) = elim (Bool-cases (b == c)) [
  | inl same ↦
      let (r, e) = dedup_head c l in (r, rw same (e ∙ ap (λ z. z ∷ r) (sym ((==_iff b c).0 same))))
  | inr new ↦ (dedup (c ∷ l), rw new)
]

is_ascending-dedup : (l : List ℕ) → Sorted l → is_ascending (dedup l) ≡ true
unfolding dedup is_ascending
is_ascending-dedup [] s = refl
is_ascending-dedup (a ∷ []) s = refl
is_ascending-dedup (a ∷ b ∷ l) (first, s) =
    let ih = is_ascending-dedup (b ∷ l) s in
    elim (Bool-cases (a == b)) [
      | inl same ↦ rw same ih
      | inr new ↦
          let (r, e) = dedup_head b l in
          let under : above a b ≡ false = first b (Memᴰ.head refl) in
          let step : ltb a b ≡ true = ground arith in
          let rest : is_ascending (b ∷ r) ≡ true = ap is_ascending (sym e) ∙ ih in
          rw (new, e) (ground arith)
    ]

is_empty-nil : (l : List ℕ) → is_empty l ≡ true → l ≡ []
is_empty-nil [] h = refl
is_empty-nil (a ∷ l) h = absurd (cc)

pub ed25519_public-ok :
    (c : Crypto) (bytes : Bytes) {key : Bytes} → ed25519_public c bytes ≡ ok key → key ≡ bytes
unfolding ed25519_public
ed25519_public-ok c bytes h = ground arith

-- The list names the organisation, and the signature is by the key that hashes to its id.
abbrev pub IsSignedFor : Crypto → RevocationList → Bytes → Type 0
IsSignedFor c crl org =
    (crl.org_id ≡ org)
    × (org_id_from_public c crl.org_pub ≡ org)
    × (c.verify crl.org_pub (signing_bytes crl) crl.signature ≡ true)

verify-cases :
    (c : Crypto) (crl : RevocationList) (org : Bytes)
    → verify c crl org ≡ ok tt
    → (crl.revoked ≡ []) ⊎ ((is_ascending crl.revoked ≡ true) × IsSignedFor c crl org)
unfolding verify
verify-cases c crl org h = elim (Bool-cases ((crl.updated_at_ms == 0) && is_empty crl.revoked)) [
  | inl start ↦ inl (is_empty-nil crl.revoked (ground arith))
  | inr later ↦
      let other = not (crl.org_id == org) || not (org_id_from_public c crl.org_pub == org) in
      elim (Bool-cases other) [
        | inl foreign ↦ let no : err rejected ≡ ok tt = rw (later, foreign) at h in absurd (cc)
        | inr ours ↦ elim (Bool-cases (is_ascending crl.revoked)) [
          | inr loose ↦ let no : err rejected ≡ ok tt = rw (later, ours, loose) at h in absurd (cc)
          | inl tight ↦
              let (key, parsed, checked) =
                ok_of_bind (ed25519_public c crl.org_pub)
                  (λ key.
                    if c.verify key (signing_bytes crl) crl.signature then ok tt else err rejected)
                  (rw (later, ours, tight) at h) in
              let same = ed25519_public-ok c crl.org_pub parsed in
              let signed : c.verify key (signing_bytes crl) crl.signature ≡ true = ground arith in
              inr (
                tight,
                (
                  (==_iff crl.org_id org).0 (ground arith),
                  (==_iff (org_id_from_public c crl.org_pub) org).0 (ground arith),
                  subst (λ k. c.verify k (signing_bytes crl) crl.signature ≡ true) same signed,
                ),
              )
        ]
      ]
]

revoked_iff :
    (crl : RevocationList) (serial : ℕ)
    → Sorted crl.revoked
    → (is_revoked crl serial ≡ true) ↔ Memᴰ serial crl.revoked
unfolding is_revoked
revoked_iff crl serial s = (
  search_sound serial (length crl.revoked) crl.revoked,
  search_complete serial (length crl.revoked) crl.revoked s (omega arith),
)

-- A list that `verify` accepts for an organisation revokes exactly the serials in it, and, if there
-- are any, it names that organisation and is signed by its key.
pub verify_lem :
    (c : Crypto) (crl : RevocationList) (org : Bytes)
    → verify c crl org ≡ ok tt
    → ((serial : ℕ) → (is_revoked crl serial ≡ true) ↔ Memᴰ serial crl.revoked)
      × ((serial : ℕ) → Memᴰ serial crl.revoked → IsSignedFor c crl org)
verify_lem c crl org h = elim (verify-cases c crl org h) [
  | inl none ↦
      ((λ serial. revoked_iff crl serial (rw none tt)), (λ serial m. elim (rw none at m) [ ]))
  | inr (tight, signed) ↦ (
    (λ serial. revoked_iff crl serial (is_ascending-Sorted crl.revoked tight)),
    (λ serial m. signed),
  )
]

verify_intro :
    (c : Crypto) (crl : RevocationList) (org : Bytes)
    → is_ascending crl.revoked ≡ true
    → c.is_public_key crl.org_pub ≡ true
    → IsSignedFor c crl org
    → verify c crl org ≡ ok tt
unfolding verify ed25519_public
verify_intro c crl org tight key (named, hashed, signed) =
    let same = (==_iff crl.org_id org).1 named in
    let pinned = (==_iff (org_id_from_public c crl.org_pub) org).1 hashed in
    elim (Bool-cases ((crl.updated_at_ms == 0) && is_empty crl.revoked)) [
      | inl start ↦ rw start
      | inr later ↦ rw (later, same, pinned, tight, key, signed)
    ]

signed_by :
    (c : Crypto) (inner : Bytes) (revoked : List ℕ) (at : ℕ)
    → Lawful c
    → IsSignedFor c (sign_crl c inner revoked at) (org_id c inner)
unfolding sign_crl signing_bytes
signed_by c inner revoked at law =
    (refl, refl, law.verify-sign inner (signing_bytes (unsigned c inner revoked at)))

-- The list that `sign_crl` makes is accepted for the organisation, and revokes exactly the serials
-- that it was given.
pub verify-sign_crl :
    (c : Crypto) (inner : Bytes) (revoked : List ℕ) (updated_at_ms : ℕ)
    → Lawful c
    → let crl = sign_crl c inner revoked updated_at_ms in
      (verify c crl (org_id c inner) ≡ ok tt)
      × ((serial : ℕ) → (is_revoked crl serial ≡ true) ↔ Memᴰ serial revoked)
unfolding sign_crl
verify-sign_crl c inner revoked updated_at_ms law =
    let tight = is_ascending-dedup (sort_by (λ s. s) revoked) (sort_by-IsSorted (λ s. s) revoked) in
    let crl = sign_crl c inner revoked updated_at_ms in
    (
      verify_intro c crl (org_id c inner) tight (law.public-accepted inner)
          (signed_by c inner revoked updated_at_ms law),
      λ serial.
          let (hit, found) = revoked_iff crl serial (is_ascending-Sorted crl.revoked tight) in
          (
            λ h. mem-sort_by (λ s. s) revoked (mem-dedup (sort_by (λ s. s) revoked) serial (hit h)),
            λ m. found (
                mem-dedup_intro (sort_by (λ s. s) revoked) serial
                  (mem-sort_by_intro (λ s. s) revoked m)),
          ),
    )
