-- ===== src/Identity/Crl/Search.antt =====
-- The binary search finds exactly the serials of a sorted list.
use orgsync.Base.{
  ℕ, zero, suc, ◌-◌, ◌/◌, ◌≤◌, ◌≡◌, refl, sym, ap, ◌∙◌, subst, true, false, ◌⊎◌, inl, inr, List, [],
  ◌∷◌, Memᴰ, length, length-take-le, take, drop, IsSorted, above, above_irrefl, eq_of_not_above,
  ◌==◌, ==_iff, mem-take, Bool-cases, nat_ord, leb, arith,
}
use mathlib.Core.List.Memᴰ
use orgsync.Identity.Crl.{search}

abbrev pub Sorted : List ℕ → Type 0
Sorted l = IsSorted (λ (s : ℕ). s) l

module _ {ℓ} {A : Type ℓ} where
  mem-drop : {x : A} (n : ℕ) (l : List A) → Memᴰ x (drop n l) → Memᴰ x l
  mem-drop zero l m = m
  mem-drop (suc n) [] m = m
  mem-drop (suc n) (a ∷ l) m = Memᴰ.tail (mem-drop n l m)

  mem_split : {x : A} (n : ℕ) (l : List A) → Memᴰ x l → Memᴰ x (take n l) ⊎ Memᴰ x (drop n l)
  mem_split zero l m = inr m
  mem_split (suc n) [] m = inr m
  mem_split (suc n) (a ∷ l) m = elim (Memᴰ.cases_cons m) [
    | inl e ↦ inl (Memᴰ.head e)
    | inr t ↦ elim (mem_split n l t) [ inl i ↦ inl (Memᴰ.tail i) | inr o ↦ inr o ]
  ]

  mem-take_more : {x : A} (n m : ℕ) (l : List A) → n ≤ m → Memᴰ x (take n l) → Memᴰ x (take m l)
  mem-take_more zero m l h i = elim i [ ]
  mem-take_more (suc n) zero l h i = absurd (omega arith)
  mem-take_more (suc n) (suc m) [] h i = i
  mem-take_more (suc n) (suc m) (a ∷ l) h i = elim (Memᴰ.cases_cons i) [
    | inl e ↦ Memᴰ.head e
    | inr t ↦ Memᴰ.tail (mem-take_more n m l (omega arith) t)
  ]

  length-drop : (n : ℕ) (l : List A) → length (drop n l) ≡ length l - n
  length-drop zero l = omega arith
  length-drop (suc n) [] = omega arith
  length-drop (suc n) (a ∷ l) = omega (arith, length-drop n l)

take-Sorted : (n : ℕ) (l : List ℕ) → Sorted l → Sorted (take n l)
take-Sorted zero l s = tt
take-Sorted (suc n) [] s = s
take-Sorted (suc n) (a ∷ l) (first, s) = ((λ x m. first x (mem-take n l m)), take-Sorted n l s)

drop-Sorted : (n : ℕ) (l : List ℕ) → Sorted l → Sorted (drop n l)
drop-Sorted zero l s = s
drop-Sorted (suc n) [] s = s
drop-Sorted (suc n) (a ∷ l) (first, s) = drop-Sorted n l s

-- What stands before the cut is not above what stands behind it.
take_under_drop :
    (n : ℕ) (l : List ℕ)
    → Sorted l
    → (x y : ℕ) → Memᴰ x (take n l)
    → Memᴰ y (drop n l)
    → above x y ≡ false
take_under_drop zero l s x y mx my = elim mx [ ]
take_under_drop (suc n) [] s x y mx my = elim mx [ ]
take_under_drop (suc n) (a ∷ l) (first, s) x y mx my = elim (Memᴰ.cases_cons mx) [
  | inl e ↦ ap (λ z. above z y) e ∙ first y (mem-drop n l my)
  | inr t ↦ take_under_drop n l s x y t my
]

List-cases : (l : List ℕ) → (l ≡ []) ⊎ ((a : ℕ) × (r : List ℕ) × (l ≡ a ∷ r))
List-cases [] = inl refl
List-cases (a ∷ r) = inr (a, r, refl)

-- A hit is an entry.
pub search_sound : (serial fuel : ℕ) (l : List ℕ) → search serial fuel l ≡ true → Memᴰ serial l
unfolding search
search_sound serial zero l h = absurd (cc)
search_sound serial (suc fuel) [] h = absurd (cc)
search_sound serial (suc fuel) (first ∷ rest) h =
    let size = suc (length rest) in
    let half = size / 2 in
    elim (Bool-cases (leb size 1)) [
      | inl one ↦ Memᴰ.head (sym ((==_iff first serial).0 (rw one at h)))
      | inr more ↦ elim (List-cases (drop half (first ∷ rest))) [
        | inl none_left ↦ absurd (ground arith)
        | inr (mid, r, e) ↦ elim (Bool-cases (above mid serial)) [
          | inl over ↦
              mem-take (size - half) (first ∷ rest)
                (search_sound serial fuel (take (size - half) (first ∷ rest)) (ground arith))
          | inr under ↦
              mem-drop half (first ∷ rest)
                (search_sound serial fuel (drop half (first ∷ rest)) (ground arith))
        ]
      ]
    ]

single :
    (serial first : ℕ) (rest : List ℕ)
    → length rest ≡ 0
    → Memᴰ serial (first ∷ rest)
    → (first == serial) ≡ true
single serial first [] h m = elim (Memᴰ.cases_cons m) [
  | inl e ↦ (==_iff first serial).1 (sym e)
  | inr t ↦ elim t [ ]
]
single serial first (a ∷ rest) h m = absurd (omega arith)

-- Below the middle entry a serial stands before the cut.
below_mid :
    (serial n : ℕ) (l : List ℕ) (mid : ℕ) (r : List ℕ)
    → Sorted l
    → drop n l ≡ mid ∷ r
    → above mid serial ≡ true
    → Memᴰ serial l
    → Memᴰ serial (take n l)
below_mid serial n l mid r s e over m = elim (mem_split n l m) [
  | inl i ↦ i
  | inr o ↦
      let ordered : Sorted (mid ∷ r) = subst (λ k. Sorted k) e (drop-Sorted n l s) in
      elim (Memᴰ.cases_cons (rw e at o)) [
        | inl same ↦
            let no : above mid serial ≡ false = ap (λ z. above mid z) same ∙ above_irrefl mid in
            absurd (cc)
        | inr t ↦ let no : above mid serial ≡ false = ordered.0 serial t in absurd (cc)
      ]
]

not_below_mid :
    (serial n : ℕ) (l : List ℕ) (mid : ℕ) (r : List ℕ)
    → Sorted l
    → drop n l ≡ mid ∷ r
    → above mid serial ≡ false
    → Memᴰ serial l
    → Memᴰ serial (drop n l)
not_below_mid serial n l mid r s e under m = elim (mem_split n l m) [
  | inl i ↦
      let no = take_under_drop n l s serial mid i (rw e (Memᴰ.head refl)) in
      rw e (Memᴰ.head (eq_of_not_above serial mid no under))
  | inr o ↦ o
]

-- An entry is hit, on as much fuel as the slice is long.
pub search_complete :
    (serial fuel : ℕ) (l : List ℕ)
    → Sorted l
    → length l ≤ fuel
    → Memᴰ serial l
    → search serial fuel l ≡ true
unfolding search
search_complete serial zero [] s h m = elim m [ ]
search_complete serial zero (a ∷ l) s h m = absurd (omega arith)
search_complete serial (suc fuel) [] s h m = elim m [ ]
search_complete serial (suc fuel) (first ∷ rest) s h m =
    let l = first ∷ rest in
    let size = suc (length rest) in
    let half = size / 2 in
    elim (Bool-cases (leb size 1)) [
      | inl one ↦ rw one (single serial first rest (ground arith) m)
      | inr more ↦ elim (List-cases (drop half l)) [
        | inl none_left ↦ absurd (ground (arith, length-drop half l, ap length none_left))
        | inr (mid, r, e) ↦ elim (Bool-cases (above mid serial)) [
          | inl over ↦
              let low : Memᴰ serial (take half l) = below_mid serial half l mid r s e over m in
              let found =
                search_complete serial fuel (take (size - half) l) (take-Sorted (size - half) l s)
                  (ground (arith, length-take-le (size - half) l))
                  (mem-take_more half (size - half) l (omega arith) low) in
              rw (more, e, over) found
          | inr under ↦
              let high : Memᴰ serial (drop half l) =
                not_below_mid serial half l mid r s e under m in
              let found =
                search_complete serial fuel (drop half l) (drop-Sorted half l s)
                  (ground (arith, length-drop half l)) high in
              ground arith
        ]
      ]
    ]
