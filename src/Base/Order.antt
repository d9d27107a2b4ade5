-- ===== src/Base/Order.antt =====
-- Rust's `Ord`: a three-way comparison with the laws of a total order. Its `==` is `cmp = eq`.
use Prim.Native.Nat.{ℕ, compare, Ordering}
use Prim.Native.Nat.Ordering.{lt, eq, gt}
use mathlib.Core.Path.{◌≡◌, refl}
use mathlib.Core.Logic.{◌↔◌}
use mathlib.Core.Bool.{Bool, true, false}
use mathlib.Core.List.{List, [], ◌∷◌}
use native.Mathlib.Omega.{arith}

-- The comparison the other way round.
abbrev pub flip : Ordering → Ordering
flip lt = gt
flip eq = eq
flip gt = lt

-- `Ordering::then`: the second comparison decides where the first is a tie.
abbrev pub then_cmp : Ordering → Ordering → Ordering
then_cmp lt o = lt
then_cmp eq o = o
then_cmp gt o = gt

pub record Ord {ℓ} (K : Type ℓ) : Type ℓ where
  pub cmp : K → K → Ordering
  pub cmp_refl : (a : K) → cmp a a ≡ eq
  pub cmp_eq : (a b : K) → cmp a b ≡ eq → a ≡ b
  pub cmp_flip : (a b : K) → cmp b a ≡ flip (cmp a b)
  pub cmp_trans : (a b c : K) → cmp a b ≡ lt → cmp b c ≡ lt → cmp a c ≡ lt

abbrev pub is_eq : Ordering → Bool
is_eq eq = true
is_eq _ = false

abbrev pub is_gt : Ordering → Bool
is_gt gt = true
is_gt _ = false

abbrev pub is_lt : Ordering → Bool
is_lt lt = true
is_lt _ = false

module _ {ℓ} {K : Type ℓ} ⦃o : Ord K⦄ where
  infix 50 ◌==◌
  abbrev pub ◌==◌ : K → K → Bool
  a == b = is_eq (o.cmp a b)

  -- `a > b`.
  abbrev pub above : K → K → Bool
  above a b = is_gt (o.cmp a b)

  pub ==_iff : (a b : K) → ((a == b) ≡ true) ↔ (a ≡ b)
  ==_iff a b = ground (arith, o.cmp_eq a b, o.cmp_refl a)

  -- The order without ties, downwards.
  pub above_trans : (a b c : K) → above a b ≡ true → above b c ≡ true → above a c ≡ true
  above_trans a b c =
      ground (arith, o.cmp_trans c b a, o.cmp_flip a b, o.cmp_flip b c, o.cmp_flip a c)

  pub above_irrefl : (a : K) → above a a ≡ false
  above_irrefl a = ground (arith, o.cmp_refl a)

  -- `a ≤ b` and `b ≤ c` give `a ≤ c`, with `≤` as "not above".
  pub not_above_trans : (a b c : K) → above a b ≡ false → above b c ≡ false → above a c ≡ false
  not_above_trans a b c = ground (
    arith,
    o.cmp_trans a b c,
    o.cmp_flip a c,
    o.cmp_eq a b,
    o.cmp_eq b c,
    o.cmp_refl a,
    o.cmp_flip b c,
  )

  pub not_above_of_above : (a b : K) → above a b ≡ true → above b a ≡ false
  not_above_of_above a b = ground (arith, o.cmp_flip a b)

  pub eq_of_not_above : (a b : K) → above a b ≡ false → above b a ≡ false → a ≡ b
  eq_of_not_above a b = ground (arith, o.cmp_flip a b, o.cmp_eq a b)

pub compare_refl : (a : ℕ) → compare a a ≡ eq
compare_refl a = ground arith

pub compare-eq : (a b : ℕ) → compare a b ≡ eq → a ≡ b
compare-eq a b = ground arith

pub compare-flip : (a b : ℕ) → compare b a ≡ flip (compare a b)
compare-flip a b = ground arith

pub compare_trans : (a b c : ℕ) → compare a b ≡ lt → compare b c ≡ lt → compare a c ≡ lt
compare_trans a b c = ground arith

instance abbrev pub nat_ord : Ord ℕ
nat_ord = record {
  cmp = compare;
  cmp_refl = compare_refl;
  cmp_eq = compare-eq;
  cmp_flip = compare-flip;
  cmp_trans = compare_trans;
}

module _ {ℓ} {A : Type ℓ} ⦃a : Ord A⦄ where
  -- Slices and strings compare lexicographically.
  unfoldable pub compare_list : List A → List A → Ordering
  compare_list [] [] = eq
  compare_list [] (y ∷ ys) = lt
  compare_list (x ∷ xs) [] = gt
  compare_list (x ∷ xs) (y ∷ ys) = then_cmp (a.cmp x y) (compare_list xs ys)

  pub compare_list_refl : (xs : List A) → compare_list xs xs ≡ eq
  unfolding compare_list
  compare_list_refl [] = refl
  compare_list_refl (x ∷ xs) = ground (arith, a.cmp_refl x, compare_list_refl xs)

  pub compare_list-eq : (xs ys : List A) → compare_list xs ys ≡ eq → xs ≡ ys
  unfolding compare_list
  compare_list-eq [] [] = ground arith
  compare_list-eq [] (y ∷ ys) = ground arith
  compare_list-eq (x ∷ xs) [] = ground arith
  compare_list-eq (x ∷ xs) (y ∷ ys) = ground (arith, a.cmp_eq x y, compare_list-eq xs ys)

  pub compare_list-flip : (xs ys : List A) → compare_list ys xs ≡ flip (compare_list xs ys)
  unfolding compare_list
  compare_list-flip [] [] = refl
  compare_list-flip [] (y ∷ ys) = refl
  compare_list-flip (x ∷ xs) [] = refl
  compare_list-flip (x ∷ xs) (y ∷ ys) = ground (arith, a.cmp_flip x y, compare_list-flip xs ys)

  pub compare_list_trans :
      (xs ys zs : List A)
      → compare_list xs ys ≡ lt
      → compare_list ys zs ≡ lt
      → compare_list xs zs ≡ lt
  unfolding compare_list
  compare_list_trans [] [] zs = ground arith
  compare_list_trans [] (y ∷ ys) [] = ground arith
  compare_list_trans [] (y ∷ ys) (z ∷ zs) = ground arith
  compare_list_trans (x ∷ xs) [] zs = ground arith
  compare_list_trans (x ∷ xs) (y ∷ ys) [] = ground arith
  compare_list_trans (x ∷ xs) (y ∷ ys) (z ∷ zs) = ground (
    arith,
    a.cmp_trans x y z,
    a.cmp_eq x y,
    a.cmp_eq y z,
    a.cmp_refl x,
    compare_list_trans xs ys zs,
  )

  instance abbrev pub list_ord : Ord (List A)
  list_ord = record {
    cmp = compare_list;
    cmp_refl = compare_list_refl;
    cmp_eq = compare_list-eq;
    cmp_flip = compare_list-flip;
    cmp_trans = compare_list_trans;
  }

module _ {ℓ κ} {A : Type ℓ} {B : Type κ} ⦃a : Ord A⦄ ⦃b : Ord B⦄ where
  abbrev pub compare_pair : A × B → A × B → Ordering
  compare_pair x y = then_cmp (a.cmp x.0 y.0) (b.cmp x.1 y.1)

  pub compare_pair_refl : (x : A × B) → compare_pair x x ≡ eq
  compare_pair_refl x = ground (arith, a.cmp_refl x.0, b.cmp_refl x.1)

  pub compare_pair-eq : (x y : A × B) → compare_pair x y ≡ eq → x ≡ y
  compare_pair-eq x y = ground (arith, a.cmp_eq x.0 y.0, b.cmp_eq x.1 y.1)

  pub compare_pair-flip : (x y : A × B) → compare_pair y x ≡ flip (compare_pair x y)
  compare_pair-flip x y = ground (arith, a.cmp_flip x.0 y.0, b.cmp_flip x.1 y.1)

  pub compare_pair_trans :
      (x y z : A × B) → compare_pair x y ≡ lt → compare_pair y z ≡ lt → compare_pair x z ≡ lt
  compare_pair_trans x y z =
      ground (
        arith,
        a.cmp_trans x.0 y.0 z.0,
        a.cmp_eq x.0 y.0,
        a.cmp_eq y.0 z.0,
        b.cmp_trans x.1 y.1 z.1,
      )

  -- Tuples compare lexicographically.
  instance abbrev pub pair_ord : Ord (A × B)
  pair_ord = record {
    cmp = compare_pair;
    cmp_refl = compare_pair_refl;
    cmp_eq = compare_pair-eq;
    cmp_flip = compare_pair-flip;
    cmp_trans = compare_pair_trans;
  }
