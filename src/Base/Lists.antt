-- ===== src/Base/Lists.antt =====
-- Lists: membership as a family by recursion, so that proofs can take it apart, and lengths,
-- prefixes and filters over the native numbers.
use Prim.Native.Nat.{ℕ, zero, suc, ◌+◌, ◌≤◌}
use mathlib.Core.Path.{◌≡◌, refl, sym, ap, ◌∙◌}
use mathlib.Core.Logic.{◌⊎◌, inl, inr}
use mathlib.Core.Bool.{Bool, true, false}
use mathlib.Core.List.{List, [], ◌∷◌, ◌++◌, Memᴰ}
use mathlib.Core.List.Memᴰ
use native.Mathlib.Omega.{arith}
use orgsync.Base.Tests.{if◌then◌else◌, Bool-cases}

module _ {ℓ} {A : Type ℓ} where
  abbrev pub length : List A → ℕ
  length [] = 0
  length (x ∷ xs) = suc (length xs)

  abbrev pub take : ℕ → List A → List A
  take zero xs = []
  take (suc n) [] = []
  take (suc n) (x ∷ xs) = x ∷ take n xs

  abbrev pub drop : ℕ → List A → List A
  drop zero xs = xs
  drop (suc n) [] = []
  drop (suc n) (x ∷ xs) = drop n xs

  -- `Iterator::filter`.
  unfoldable pub keep : (A → Bool) → List A → List A
  keep p [] = []
  keep p (x ∷ xs) = let rest = keep p xs in if p x then x ∷ rest else rest

  -- `Iterator::any`.
  unfoldable pub any : (A → Bool) → List A → Bool
  any p [] = false
  any p (x ∷ xs) = let rest = any p xs in if p x then true else rest

  pub length-append : (xs ys : List A) → length (xs ++ ys) ≡ length xs + length ys
  length-append [] ys = omega arith
  length-append (x ∷ xs) ys = omega (arith, length-append xs ys)

  pub length-take-le : (n : ℕ) (xs : List A) → length (take n xs) ≤ n
  length-take-le zero xs = omega arith
  length-take-le (suc n) [] = omega arith
  length-take-le (suc n) (x ∷ xs) = omega (arith, length-take-le n xs)

  pub take-drop : (n : ℕ) (l : List A) → take n l ++ drop n l ≡ l
  take-drop zero l = refl
  take-drop (suc n) [] = refl
  take-drop (suc n) (x ∷ l) = ap (λ r. x ∷ r) (take-drop n l)

  pub length-drop-le : (n : ℕ) (l : List A) → length (drop n l) ≤ length l
  length-drop-le zero l = omega arith
  length-drop-le (suc n) [] = omega arith
  length-drop-le (suc n) (x ∷ l) = omega (arith, length-drop-le n l)

  pub List-cases : (l : List A) → (l ≡ []) ⊎ ((x : A) × (r : List A) × (l ≡ x ∷ r))
  List-cases [] = inl refl
  List-cases (x ∷ r) = inr (x, r, refl)

  pub mem-keep : (p : A → Bool) {a : A} (xs : List A) → Memᴰ a (keep p xs) → Memᴰ a xs
  unfolding keep
  mem-keep p [] m = m
  mem-keep p (x ∷ xs) m = elim (Bool-cases (p x)) [
    | inl holds ↦ elim (Memᴰ.cases_cons (rw holds at m)) [
      | inl e ↦ Memᴰ.head e
      | inr t ↦ Memᴰ.tail (mem-keep p xs t)
    ]
    | inr fails ↦ Memᴰ.tail (mem-keep p xs (rw fails at m))
  ]

  pub keep_holds : (p : A → Bool) {a : A} (xs : List A) → Memᴰ a (keep p xs) → p a ≡ true
  unfolding keep
  keep_holds p [] m = elim m [ ]
  keep_holds p (x ∷ xs) m = elim (Bool-cases (p x)) [
    | inl holds ↦ elim (Memᴰ.cases_cons (rw holds at m)) [
      | inl e ↦ ap p e ∙ holds
      | inr t ↦ keep_holds p xs t
    ]
    | inr fails ↦ keep_holds p xs (rw fails at m)
  ]

  pub mem-keep_intro :
      (p : A → Bool) {a : A} {xs : List A} → Memᴰ a xs → p a ≡ true → Memᴰ a (keep p xs)
  unfolding keep
  mem-keep_intro p (Memᴰ.head {x = x} e) h = rw (sym (ap p e) ∙ h) (Memᴰ.head e)
  mem-keep_intro p (Memᴰ.tail {x = x} m) h = elim (Bool-cases (p x)) [
    | inl holds ↦ rw holds (Memᴰ.tail (mem-keep_intro p m h))
    | inr fails ↦ rw fails (mem-keep_intro p m h)
  ]

  pub any_of_mem : (p : A → Bool) {a : A} {xs : List A} → Memᴰ a xs → p a ≡ true → any p xs ≡ true
  unfolding any
  any_of_mem p (Memᴰ.head {x = x} e) h = rw (sym (ap p e) ∙ h)
  any_of_mem p (Memᴰ.tail {x = x} m) h = ground (arith, any_of_mem p m h)

  pub mem_of_any :
      (p : A → Bool) (xs : List A) → any p xs ≡ true → (a : A) × Memᴰ a xs × (p a ≡ true)
  unfolding any
  mem_of_any p [] h = absurd (cc)
  mem_of_any p (x ∷ xs) h = elim (Bool-cases (p x)) [
    | inl holds ↦ (x, Memᴰ.head refl, holds)
    | inr fails ↦ let (a, m, e) = mem_of_any p xs (rw fails at h) in (a, Memᴰ.tail m, e)
  ]
