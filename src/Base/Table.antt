-- ===== src/Base/Table.antt =====
-- A table with a primary key: `SELECT` of one row, and `INSERT … ON CONFLICT DO UPDATE`. Maps of
-- the standard library are such tables too.
use mathlib.Core.Path.{◌≡◌, refl, sym, ap, ◌∙◌, subst}
use mathlib.Core.Logic.{◌⊎◌, inl, inr}
use mathlib.Core.Bool.{false}
use mathlib.Core.Option.{Option, none, some}
use mathlib.Core.List.{List, [], ◌∷◌, Memᴰ}
use mathlib.Core.List.Memᴰ
use native.Mathlib.Omega.{arith}
use orgsync.Base.Tests.{if◌then◌else◌, Bool-cases}
use orgsync.Base.Order.{Ord, ◌==◌, ==_iff}

module _ {ℓ κ} {K : Type ℓ} {V : Type κ} ⦃o : Ord K⦄ where
  unfoldable pub find : K → List (K × V) → Option V
  find k [] = none
  find k ((j, v) ∷ t) = let rest = find k t in if j == k then some v else rest

  -- The row is written in its place; a new one goes to the end.
  unfoldable pub put : K → V → List (K × V) → List (K × V)
  put k v [] = (k, v) ∷ []
  put k v ((j, w) ∷ t) = let rest = put k v t in if j == k then (j, v) ∷ t else (j, w) ∷ rest

  unfoldable pub delete : K → List (K × V) → List (K × V)
  delete k [] = []
  delete k ((j, w) ∷ t) = let rest = delete k t in if j == k then rest else (j, w) ∷ rest

  pub find-put :
      (k j : K) (v : V) (t : List (K × V))
      → find j (put k v t) ≡ (if k == j then some v else find j t)
  unfolding find put
  find-put k j v [] = refl
  find-put k j v ((i, w) ∷ t) = ground (
    arith,
    find-put k j v t,
    o.cmp_eq i k,
    o.cmp_eq i j,
    o.cmp_eq k j,
    o.cmp_refl i,
    o.cmp_refl k,
    o.cmp_refl j,
  )

  pub find-put_self : (k : K) (v : V) (t : List (K × V)) → find k (put k v t) ≡ some v
  find-put_self k v t =
      find-put k k v t ∙ ap (λ b. if b then some v else find k t) ((==_iff k k).1 refl)

  pub find-put_other :
      (k j : K) (v : V) (t : List (K × V)) → (k == j) ≡ false → find j (put k v t) ≡ find j t
  find-put_other k j v t other = find-put k j v t ∙ ap (λ b. if b then some v else find j t) other

  pub find-delete :
      (k j : K) (t : List (K × V)) → find j (delete k t) ≡ (if k == j then none else find j t)
  unfolding find delete
  find-delete k j [] = ground arith
  find-delete k j ((i, w) ∷ t) = ground (
    arith,
    find-delete k j t,
    o.cmp_eq i k,
    o.cmp_eq i j,
    o.cmp_eq k j,
    o.cmp_refl i,
    o.cmp_refl k,
    o.cmp_refl j,
  )

  -- A row that is there, read at any key.
  pub find_held :
      (k j : K) {v : V} (t : List (K × V))
      → find k t ≡ some v
      → find j t ≡ (if k == j then some v else find j t)
  find_held k j t e = elim (Bool-cases (k == j)) [
    | inl same ↦ rw same (ap (λ (i : K). find i t) (sym ((==_iff k j).0 same)) ∙ e)
    | inr other ↦ rw other
  ]

  -- No key stands twice, as a primary key promises.
  abbrev pub IsKeyed : List (K × V) → Type (ℓ ⊔ κ)
  IsKeyed [] = Unit
  IsKeyed ((j, w) ∷ t) = ((x : K × V) → Memᴰ x t → (x.0 == j) ≡ false) × IsKeyed t

  pub mem_of_find : (k : K) {v : V} (t : List (K × V)) → find k t ≡ some v → Memᴰ (k, v) t
  unfolding find
  mem_of_find k [] e = absurd (cc)
  mem_of_find k {v} ((j, w) ∷ t) e = elim (Bool-cases (j == k)) [
    | inl same ↦
        let found : some w ≡ some v = rw same at e in
        let value : v ≡ w = cc in Memᴰ.head (λ i. (sym ((==_iff j k).0 same) i, value i))
    | inr other ↦ Memᴰ.tail (mem_of_find k t (rw other at e))
  ]

  -- A row of the table after a write is the row written or one of another key.
  pub mem-put :
      (k : K) (v : V) (t : List (K × V)) (x : K × V)
      → IsKeyed t
      → Memᴰ x (put k v t)
      → ((x.0 ≡ k) × (x.1 ≡ v)) ⊎ (Memᴰ x t × ((x.0 == k) ≡ false))
  unfolding put
  mem-put k v [] x keyed m = elim (Memᴰ.cases_cons m) [
    | inl e ↦ inl (ap (λ y. y.0) e, ap (λ y. y.1) e)
    | inr t ↦ elim t [ ]
  ]
  mem-put k v ((j, w) ∷ t) x (first, keyed) m = elim (Bool-cases (j == k)) [
    | inl same ↦ elim (Memᴰ.cases_cons (rw same at m)) [
      | inl e ↦ inl (ap (λ y. y.0) e ∙ (==_iff j k).0 same, ap (λ y. y.1) e)
      | inr old ↦
          inr (Memᴰ.tail old, subst (λ i. (x.0 == i) ≡ false) ((==_iff j k).0 same) (first x old))
    ]
    | inr other ↦ elim (Memᴰ.cases_cons (rw other at m)) [
      | inl e ↦ inr (Memᴰ.head e, ap (λ (y : K × V). y.0 == k) e ∙ other)
      | inr rest ↦ elim (mem-put k v t x keyed rest) [
        | inl new ↦ inl new
        | inr (old, apart) ↦ inr (Memᴰ.tail old, apart)
      ]
    ]
  ]

  pub put-IsKeyed : (k : K) (v : V) (t : List (K × V)) → IsKeyed t → IsKeyed (put k v t)
  unfolding put
  put-IsKeyed k v [] keyed = ((λ x m. elim m [ ]), tt)
  put-IsKeyed k v ((j, w) ∷ t) (first, keyed) = elim (Bool-cases (j == k)) [
    | inl same ↦ rw same (first, keyed)
    | inr other ↦ rw other (
      (λ x m. elim (mem-put k v t x keyed m) [
        | inl (here, _) ↦ ap (λ (i : K). i == j) here ∙ ground (arith, o.cmp_flip j k, other)
        | inr (old, _) ↦ first x old
      ]),
      put-IsKeyed k v t keyed,
    )
  ]
