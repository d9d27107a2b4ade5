-- ===== src/Http/Token.antt =====
-- The comparison of tokens tells exactly the right one.
use Prim.Native.Nat.{bit_or, bit_xor, digits, differ, bit_or-bitwise, bit_xor-bitwise}
use orgsync.Base.{
  ℕ, zero, suc, ◌/◌, ◌%◌, ◌≤◌, ◌<◌, ◌≡◌, ◌↔◌, refl, sym, ap, ap₂, subst, ◌∙◌, max, true, [], ◌∷◌,
  Bytes, Memᴰ, length, ==_iff, nat_ord, arith,
}
use orgsync.Http.{differences, token_matches}

differ-zero : (a b : ℕ) → differ a b ≡ 0 → a ≡ b
differ-zero zero b e = sym e
differ-zero (suc a) zero e = absurd (omega arith)
differ-zero (suc a) (suc b) e = ap suc (differ-zero a b e)

differ_same : (a : ℕ) → differ a a ≡ 0
differ_same zero = refl
differ_same (suc a) = differ_same a

xor_digits : (n a b : ℕ) → a ≤ n → digits (λ b. b) differ n a b ≡ 0 → a ≡ b
xor_digits zero zero b h e = sym e
xor_digits zero (suc a) b h e = absurd (omega arith)
xor_digits (suc n) zero b h e = sym e
xor_digits (suc n) (suc a) b h e =
    let low : differ (suc a % 2) (b % 2) ≡ 0 = omega arith in
    let high : digits (λ b. b) differ n (suc a / 2) (b / 2) ≡ 0 = omega arith in
    let rest = xor_digits n (suc a / 2) (b / 2) (omega arith) high in
    let same = differ-zero (suc a % 2) (b % 2) low in omega (arith, rest, same)

or_digits : (n a b : ℕ) → a ≤ n → digits (λ b. b) max n a b ≡ 0 → (a ≡ 0) × (b ≡ 0)
or_digits zero zero b h e = (refl, e)
or_digits zero (suc a) b h e = absurd (omega arith)
or_digits (suc n) zero b h e = (refl, e)
or_digits (suc n) (suc a) b h e =
    let low : max (suc a % 2) (b % 2) ≡ 0 = omega arith in
    let high : digits (λ b. b) max n (suc a / 2) (b / 2) ≡ 0 = omega arith in
    let (rest, other) = or_digits n (suc a / 2) (b / 2) (omega arith) high in
    absurd (omega (arith, rest, low))

same_digits : (n a : ℕ) → a ≤ n → digits (λ b. b) differ n a a ≡ 0
same_digits zero zero h = refl
same_digits zero (suc a) h = absurd (omega arith)
same_digits (suc n) zero h = refl
same_digits (suc n) (suc a) h =
    omega (arith, same_digits n (suc a / 2) (omega arith), differ_same (suc a % 2))

eq_of_xor : (a b : ℕ) → bit_xor a b ≡ 0 → a ≡ b
eq_of_xor a b e = xor_digits a a b (omega arith) (sym (λ i. bit_xor-bitwise a b i) ∙ e)

zero_of_or : (a b : ℕ) → bit_or a b ≡ 0 → (a ≡ 0) × (b ≡ 0)
zero_of_or a b e = or_digits a a b (omega arith) (sym (λ i. bit_or-bitwise a b i) ∙ e)

xor_self : (a : ℕ) → bit_xor a a ≡ 0
xor_self a = (λ i. bit_xor-bitwise a a i) ∙ same_digits a a (omega arith)

-- Nothing but equal texts leaves no difference.
no_difference :
    (diff : ℕ) (a b : Bytes)
    → ((x : ℕ) → Memᴰ x a → 1 < x)
    → ((y : ℕ) → Memᴰ y b → 0 < y)
    → differences diff a b ≡ 0
    → (diff ≡ 0) × (a ≡ b)
unfolding differences
no_difference diff [] [] va vb e = (e, refl)
no_difference diff [] (y ∷ b) va vb e =
    let (or_zero, _) =
      no_difference (bit_or diff (bit_xor 0 y)) [] b va (λ z m. vb z (Memᴰ.tail m)) e in
    let (_, xor_zero) = zero_of_or diff (bit_xor 0 y) or_zero in
    absurd (omega (arith, eq_of_xor 0 y xor_zero, vb y (Memᴰ.head refl)))
no_difference diff (x ∷ a) [] va vb e =
    let (or_zero, _) =
      no_difference (bit_or diff (bit_xor x 1)) a [] (λ z m. va z (Memᴰ.tail m)) vb e in
    let (_, xor_zero) = zero_of_or diff (bit_xor x 1) or_zero in
    absurd (omega (arith, eq_of_xor x 1 xor_zero, va x (Memᴰ.head refl)))
no_difference diff (x ∷ a) (y ∷ b) va vb e =
    let (or_zero, rest) =
      no_difference (bit_or diff (bit_xor x y)) a b (λ z m. va z (Memᴰ.tail m))
        (λ z m. vb z (Memᴰ.tail m)) e in
    let (clean, xor_zero) = zero_of_or diff (bit_xor x y) or_zero in
    (clean, ap₂ ◌∷◌ (eq_of_xor x y xor_zero) rest)

differences_same : (a : Bytes) → differences 0 a a ≡ 0
unfolding differences
differences_same [] = refl
differences_same (x ∷ a) = ap (λ d. differences (bit_or 0 d) a a) (xor_self x) ∙ differences_same a

matches_itself : (token : Bytes) → token_matches token token ≡ true
unfolding token_matches
matches_itself token =
    let start : bit_xor (length token) (length token) % 256 ≡ 0 =
      omega (arith, xor_self (length token)) in
    (==_iff (differences (bit_xor (length token) (length token) % 256) token token) 0).1
      (ap (λ d. differences d token token) start ∙ differences_same token)

-- A header carries visible characters only, and a token that is drawn has no zero byte: then the
-- comparison holds exactly for the expected token.
pub token_matches_lem :
    (given expected : Bytes)
    → ((x : ℕ) → Memᴰ x given → 1 < x)
    → ((y : ℕ) → Memᴰ y expected → 0 < y)
    → (token_matches given expected ≡ true) ↔ (given ≡ expected)
unfolding token_matches
token_matches_lem given expected va vb = (
  λ h.
      (no_difference (bit_xor (length given) (length expected) % 256) given expected va vb (
        (==_iff (differences (bit_xor (length given) (length expected) % 256) given expected) 0).0
          h)).1,
  λ e. subst (λ t. token_matches given t ≡ true) e (matches_itself given),
)
