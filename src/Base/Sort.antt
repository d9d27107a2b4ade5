-- ===== src/Base/Sort.antt =====
-- `sort_by` of the standard library, which is stable, and the ordered sets of keys.
use mathlib.Core.Path.{◌≡◌}
use mathlib.Core.Logic.{◌⊎◌, inl, inr}
use mathlib.Core.List.{List, [], ◌∷◌, Memᴰ}
use mathlib.Core.List.Memᴰ
use orgsync.Base.Tests.{if◌then◌else◌, Bool-cases}
use orgsync.Base.Order.{Ord, ◌==◌, above}

module _ {ℓ κ} {A : Type ℓ} {K : Type κ} ⦃o : Ord K⦄ (key : A → K) where
  -- In front of the first entry that is not smaller.
  unfoldable pub insert_sorted : A → List A → List A
  insert_sorted a [] = a ∷ []
  insert_sorted a (b ∷ l) =
      let rest = insert_sorted a l in if above (key a) (key b) then b ∷ rest else a ∷ b ∷ l

  unfoldable pub sort_by : List A → List A
  unfolding insert_sorted
  sort_by [] = []
  sort_by (a ∷ l) = insert_sorted a (sort_by l)

  pub mem-insert_sorted :
      {x : A} (a : A) (l : List A) → Memᴰ x (insert_sorted a l) → (x ≡ a) ⊎ Memᴰ x l
  unfolding insert_sorted
  mem-insert_sorted a [] m = Memᴰ.cases_cons m
  mem-insert_sorted {x} a (b ∷ l) m = elim (Bool-cases (above (key a) (key b))) [
    | inl over ↦ elim (Memᴰ.cases_cons (rw over at m)) [
      | inl e ↦ inr (Memᴰ.head e)
      | inr t ↦ elim (mem-insert_sorted a l t) [ inl e ↦ inl e | inr r ↦ inr (Memᴰ.tail r) ]
    ]
    | inr under ↦ Memᴰ.cases_cons (rw under at m)
  ]

  pub mem-insert_sorted_intro :
      {x : A} (a : A) (l : List A) → (x ≡ a) ⊎ Memᴰ x l → Memᴰ x (insert_sorted a l)
  unfolding insert_sorted
  mem-insert_sorted_intro a [] (inl e) = Memᴰ.head e
  mem-insert_sorted_intro a [] (inr m) = elim m [ ]
  mem-insert_sorted_intro {x} a (b ∷ l) (inl e) = elim (Bool-cases (above (key a) (key b))) [
    | inl over ↦ rw over (Memᴰ.tail (mem-insert_sorted_intro a l (inl e)))
    | inr under ↦ rw under (Memᴰ.head e)
  ]
  mem-insert_sorted_intro {x} a (b ∷ l) (inr m) = elim (Bool-cases (above (key a) (key b))) [
    | inl over ↦ rw over (elim (Memᴰ.cases_cons m) [
      | inl e ↦ Memᴰ.head e
      | inr t ↦ Memᴰ.tail (mem-insert_sorted_intro a l (inr t))
    ])
    | inr under ↦ rw under (Memᴰ.tail m)
  ]

  pub mem-sort_by : {x : A} (l : List A) → Memᴰ x (sort_by l) → Memᴰ x l
  unfolding sort_by
  mem-sort_by [] m = m
  mem-sort_by (a ∷ l) m = elim (mem-insert_sorted a (sort_by l) m) [
    | inl e ↦ Memᴰ.head e
    | inr t ↦ Memᴰ.tail (mem-sort_by l t)
  ]

  pub mem-sort_by_intro : {x : A} (l : List A) → Memᴰ x l → Memᴰ x (sort_by l)
  unfolding sort_by
  mem-sort_by_intro [] m = m
  mem-sort_by_intro (a ∷ l) m =
      mem-insert_sorted_intro a (sort_by l)
        (elim (Memᴰ.cases_cons m) [ inl e ↦ inl e | inr t ↦ inr (mem-sort_by_intro l t) ])

module _ {κ} {K : Type κ} ⦃o : Ord K⦄ where
  -- `BTreeSet::insert`.
  unfoldable pub set_insert : K → List K → List K
  set_insert k [] = k ∷ []
  set_insert k (j ∷ l) =
      let rest = set_insert k l in
      if k == j then j ∷ l else if above k j then j ∷ rest else k ∷ j ∷ l
