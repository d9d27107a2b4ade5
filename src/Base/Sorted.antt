-- ===== src/Base/Sorted.antt =====
-- Sorted lists, and the prefixes that a LIMIT cuts off them.
use Prim.Native.Nat.{ℕ, zero, suc, ◌≤◌}
use mathlib.Core.Path.{◌≡◌, refl, ap, ◌∙◌}
use mathlib.Core.Logic.{inl, inr}
use mathlib.Core.Bool.{true, false}
use mathlib.Core.List.{List, [], ◌∷◌, Memᴰ}
use mathlib.Core.List.Memᴰ
use native.Mathlib.Omega.{arith}
use orgsync.Base.Tests.{Bool-cases}
use orgsync.Base.Order.{Ord, above, not_above_of_above, not_above_trans}
use orgsync.Base.Lists.{length, take}
use orgsync.Base.Sort.{insert_sorted, sort_by, mem-insert_sorted}

module _ {ℓ} {A : Type ℓ} where
  pub mem-take : {x : A} (n : ℕ) (l : List A) → Memᴰ x (take n l) → Memᴰ x l
  mem-take zero l m = elim m [ ]
  mem-take (suc n) [] m = m
  mem-take (suc n) (a ∷ l) m = elim (Memᴰ.cases_cons m) [
    | inl e ↦ Memᴰ.head e
    | inr t ↦ Memᴰ.tail (mem-take n l t)
  ]

  pub take_all : (n : ℕ) (l : List A) → length l ≤ n → take n l ≡ l
  take_all zero [] h = refl
  take_all zero (a ∷ l) h = absurd (omega arith)
  take_all (suc n) [] h = refl
  take_all (suc n) (a ∷ l) h = ap (λ r. a ∷ r) (take_all n l (omega arith))

module _ {ℓ κ} {A : Type ℓ} {K : Type κ} ⦃o : Ord K⦄ (key : A → K) where
  -- No entry is above a later one.
  abbrev pub IsSorted : List A → Type (ℓ ⊔ κ)
  IsSorted [] = Unit
  IsSorted (a ∷ l) = ((x : A) → Memᴰ x l → above (key a) (key x) ≡ false) × IsSorted l

  insert_sorted-IsSorted : (a : A) (l : List A) → IsSorted l → IsSorted (insert_sorted key a l)
  unfolding insert_sorted
  insert_sorted-IsSorted a [] s = ((λ x m. elim m [ ]), s)
  insert_sorted-IsSorted a (b ∷ l) (first, s) = elim (Bool-cases (above (key a) (key b))) [
    | inl over ↦ rw over (
      (λ x m. elim (mem-insert_sorted key a l m) [
        | inl e ↦ ap (λ y. above (key b) (key y)) e ∙ not_above_of_above (key a) (key b) over
        | inr t ↦ first x t
      ]),
      insert_sorted-IsSorted a l s,
    )
    | inr under ↦ rw under (
      (λ x m. elim (Memᴰ.cases_cons m) [
        | inl e ↦ ap (λ y. above (key a) (key y)) e ∙ under
        | inr t ↦ not_above_trans (key a) (key b) (key x) under (first x t)
      ]),
      (first, s),
    )
  ]

  pub sort_by-IsSorted : (l : List A) → IsSorted (sort_by key l)
  unfolding sort_by
  sort_by-IsSorted [] = tt
  sort_by-IsSorted (a ∷ l) = insert_sorted-IsSorted a (sort_by key l) (sort_by-IsSorted l)

  length-insert_sorted : (a : A) (l : List A) → length (insert_sorted key a l) ≡ suc (length l)
  unfolding insert_sorted
  length-insert_sorted a [] = refl
  length-insert_sorted a (b ∷ l) = ground (arith, length-insert_sorted a l)

  pub length-sort_by : (l : List A) → length (sort_by key l) ≡ length l
  unfolding sort_by
  length-sort_by [] = refl
  length-sort_by (a ∷ l) = length-insert_sorted a (sort_by key l) ∙ ap suc (length-sort_by l)

  -- A prefix of a sorted list has everything below an entry of it.
  pub mem-take_of_above :
      {r s : A} (n : ℕ) (l : List A)
      → IsSorted l
      → Memᴰ s (take n l)
      → Memᴰ r l
      → above (key s) (key r) ≡ true
      → Memᴰ r (take n l)
  mem-take_of_above zero l sorted ms mr h = elim ms [ ]
  mem-take_of_above (suc n) [] sorted ms mr h = mr
  mem-take_of_above {r} {s} (suc n) (a ∷ l) (first, sorted) ms mr h = elim (Memᴰ.cases_cons mr) [
    | inl e ↦ Memᴰ.head e
    | inr tr ↦ elim (Memᴰ.cases_cons ms) [
      | inl e ↦
          let under : above (key s) (key r) ≡ false =
            ap (λ y. above (key y) (key r)) e ∙ first r tr in
          absurd (cc)
      | inr ts ↦ Memᴰ.tail (mem-take_of_above n l sorted ts tr h)
    ]
  ]
