-- ===== src/Seed/Revoked.antt =====
-- What the list that the server publishes revokes.
use orgsync.Base.{
  ℕ, ◌≡◌, ◌↔◌, refl, sym, ap, ◌∙◌, subst, true, false, inl, inr, some, List, [], ◌∷◌, Bytes, Memᴰ,
  any, keep, mem-keep, keep_holds, mem-keep_intro, mem-sort_by, mem-sort_by_intro, ==_iff,
  Bool-cases, nat_ord, list_ord, arith,
}
use mathlib.Core.List.Memᴰ
use orgsync.Error.{ok, err, other, ok_of_bind}
use orgsync.Crypto.{Crypto, Lawful}
use orgsync.Identity.{org_id, org_from_bytes}
use orgsync.Identity.Crl
use orgsync.Identity.Crl.{RevocationList, empty_crl, is_revoked, sign_crl}
use orgsync.Identity.Crl.Signed.{verify_lem, verify-sign_crl}
use orgsync.Seed.{
  Org, Device, Store, is_active, is_withdrawn, org_row, revoke_rows, revoke, revoked_serials,
  published, crl, touch_crl,
}

-- Some device in the table has this serial and is marked as revoked.
abbrev pub IsWithdrawn : List (Bytes × Device) → ℕ → Type 0
IsWithdrawn devices serial =
    (x : Bytes × Device) × Memᴰ x devices × (is_withdrawn x ≡ true) × (x.1.serial ≡ serial)

mem-revoked_serials :
    (s : Store) (serial : ℕ) → Memᴰ serial (revoked_serials s) ↔ IsWithdrawn s.devices serial
unfolding revoked_serials
mem-revoked_serials s serial =
    let marked = keep is_withdrawn s.devices in
    (
      λ m.
          let (x, mx, e) =
            Memᴰ.of_map (λ (row : Bytes × Device). row.1.serial) marked
              (mem-sort_by (λ k. k) _ m) in
          (x, mem-keep is_withdrawn s.devices mx, keep_holds is_withdrawn s.devices mx, e),
      λ w.
          let (x, mx, mark, e) = w in
          mem-sort_by_intro (λ k. k) _
            (Memᴰ.cast (sym e) (
              Memᴰ.map (λ (row : Bytes × Device). row.1.serial)
                (mem-keep_intro is_withdrawn mx mark))),
    )

pub published_lem :
    (c : Crypto) (inner : Bytes) (at : ℕ) (l : List ℕ)
    → Lawful c
    → (Crl.verify c (published c inner at l) (org_id c inner) ≡ ok tt)
      × ((serial : ℕ) → (is_revoked (published c inner at l) serial ≡ true) ↔ Memᴰ serial l)
unfolding published Crl.verify
published_lem c inner at [] law =
    let good : Crl.verify c (empty_crl (org_id c inner)) (org_id c inner) ≡ ok tt = refl in
    (good, (verify_lem c (empty_crl (org_id c inner)) (org_id c inner) good).0)
published_lem c inner at (k ∷ rest) law = verify-sign_crl c inner (k ∷ rest) at law

ok-injective {ℓ} : {A : Type ℓ} {a b : A} → ok a ≡ ok b → a ≡ b
ok-injective e = cc

from_ok :
    (c : Crypto) (inner : Bytes) (at : ℕ) (l : List ℕ) (list : RevocationList)
    → ok (published c inner at l) ≡ ok list
    → list ≡ published c inner at l
from_ok c inner at l list h = cc

pub crl_published :
    (c : Crypto) (s : Store) (list : RevocationList)
    → crl c s ≡ ok list
    → (org : Org) × (inner : Bytes) × (s.org ≡ some org)
      × (org_from_bytes c org.org_key ≡ ok inner)
      × (list ≡ published c inner org.crl_updated_at_ms (revoked_serials s))
unfolding crl
crl_published c s list h =
    let (org, held, h₁) = ok_of_bind (org_row s) _ h in
    let (inner, key, h₂) = ok_of_bind (org_from_bytes c org.org_key) _ h₁ in
    (
      org,
      inner,
      ground arith,
      key,
      from_ok c inner org.crl_updated_at_ms (revoked_serials s) list h₂,
    )

-- The list that the server publishes is accepted under the organisation key in its own row, and
-- revokes exactly the serials of the devices that its table has marked as revoked.
pub crl_lem :
    (c : Crypto) (s : Store) (list : RevocationList)
    → Lawful c
    → crl c s ≡ ok list
    → ((org : Org) × (inner : Bytes) × (s.org ≡ some org)
        × (org_from_bytes c org.org_key ≡ ok inner)
        × (Crl.verify c list (org_id c inner) ≡ ok tt))
      × ((serial : ℕ) → (is_revoked list serial ≡ true) ↔ IsWithdrawn s.devices serial)
crl_lem c s list law h =
    let (org, inner, held, key, same) = crl_published c s list h in
    let (good, exact) = published_lem c inner org.crl_updated_at_ms (revoked_serials s) law in
    (
      (org, inner, held, key, subst (λ l. Crl.verify c l (org_id c inner) ≡ ok tt) (sym same) good),
      λ serial.
          let (hit, found) = exact serial in
          let (rows, back) = mem-revoked_serials s serial in
          (
            λ r. rows (hit (subst (λ l. is_revoked l serial ≡ true) same r)),
            λ w. subst (λ l. is_revoked l serial ≡ true) (sym same) (found (back w)),
          ),
    )

revoke_rows-marks :
    (serial now : ℕ) (devices : List (Bytes × Device))
    → any (is_active serial) devices ≡ true
    → IsWithdrawn (revoke_rows serial now devices) serial
unfolding revoke_rows any
revoke_rows-marks serial now [] h = absurd (cc)
revoke_rows-marks serial now ((peer, d) ∷ devices) h =
    elim (Bool-cases (is_active serial (peer, d))) [
      | inl active ↦
          let marked : Device = record d { revoked_at_ms = some now } in
          let same : d.serial ≡ serial = (==_iff d.serial serial).0 (ground arith) in
          rw active ((peer, marked), Memᴰ.head refl, refl, same)
      | inr idle ↦
          let (x, mx, mark, e) = revoke_rows-marks serial now devices (rw idle at h) in
          (x, Memᴰ.tail mx, mark, e)
    ]

revoke_rows-keeps :
    (serial now k : ℕ) (devices : List (Bytes × Device))
    → IsWithdrawn devices k
    → IsWithdrawn (revoke_rows serial now devices) k
unfolding revoke_rows
revoke_rows-keeps serial now k [] (x, mx, mark, e) = elim mx [ ]
revoke_rows-keeps serial now k ((peer, d) ∷ devices) (x, mx, mark, e) = elim (Memᴰ.cases_cons mx) [
  | inl here ↦
      let marked : is_withdrawn (peer, d) ≡ true = ap is_withdrawn (sym here) ∙ mark in
      let same : d.serial ≡ k = ap (λ (y : Bytes × Device). y.1.serial) (sym here) ∙ e in
      let idle : is_active serial (peer, d) ≡ false = ground arith in
      rw idle ((peer, d), Memᴰ.head refl, marked, same)
  | inr t ↦
      let (y, my, mark', e') = revoke_rows-keeps serial now k devices (x, t, mark, e) in
      (y, Memᴰ.tail my, mark', e')
]

revoke-withdraws :
    (s : Store) (serial now list_now : ℕ) (s' : Store)
    → revoke s serial now list_now ≡ ok s'
    → (any (is_active serial) s.devices ≡ true) × (s'.devices ≡ revoke_rows serial now s.devices)
unfolding revoke
revoke-withdraws s serial now list_now s' h = elim (Bool-cases (any (is_active serial) s.devices)) [
  | inl there ↦
      let done : ok (record {
        org = touch_crl s.org list_now;
        invites = s.invites;
        devices = revoke_rows serial now s.devices;
      })
          ≡ ok s' =
        rw there at h in
      (there, ap (λ (k : Store). k.devices) (ok-injective (sym done)))
  | inr nobody ↦ let no : err other ≡ ok s' = rw nobody at h in absurd (cc)
]

-- After a serial has been revoked, the published list has it, and still has every serial that was
-- revoked before.
pub crl-revoke :
    (c : Crypto) (s : Store) (serial now list_now : ℕ) (s' : Store) (list : RevocationList)
    → Lawful c
    → revoke s serial now list_now ≡ ok s'
    → crl c s' ≡ ok list
    → (is_revoked list serial ≡ true)
      × ((k : ℕ) → IsWithdrawn s.devices k → is_revoked list k ≡ true)
crl-revoke c s serial now list_now s' list law done h =
    let (there, rows) = revoke-withdraws s serial now list_now s' done in
    let (_, exact) = crl_lem c s' list law h in
    (
      (exact serial).1 (
          subst (λ l. IsWithdrawn l serial) (sym rows)
            (revoke_rows-marks serial now s.devices there)),
      λ k w.
          (exact k).1
            (subst (λ l. IsWithdrawn l k) (sym rows) (revoke_rows-keeps serial now k s.devices w)),
    )
