-- ===== src/Base/Decimal.antt =====
-- The decimal form of an i64 and of a u64, as `to_string` prints it and `parse` reads it.
use Prim.Native.Nat.{ℕ, zero, suc, ◌+◌, ◌-◌, ◌*◌, ◌/◌, ◌%◌, ◌^◌, ◌<◌, ◌≤◌}
use mathlib.Core.Path.{◌≡◌, refl, ap, ◌∙◌}
use mathlib.Core.Logic.{inl, inr}
use mathlib.Core.Bool.{true, false, ◌&&◌}
use mathlib.Core.Option.{Option, none, some}
use mathlib.Core.List.{[], ◌∷◌, ◌++◌}
use native.Mathlib.Omega.{arith}
use native.Mathlib.Nat.{pow-zero, pow-suc}
use orgsync.Base.Tests.{if◌then◌else◌, ltb, leb, Bool-cases}
use orgsync.Base.Order.{◌==◌, nat_ord}
use orgsync.Base.ByteLists.{Bytes}

-- `negsuc n` is -(n + 1).
pub data ℤ : Type 0 where
  pos : ℕ → ℤ
  negsuc : ℕ → ℤ

abbrev pub i64_max : ℕ
i64_max = 2 ^ 63 - 1

-- The range of an i64.
abbrev pub IsI64 : ℤ → Type 0
IsI64 (pos n) = n ≤ i64_max
IsI64 (negsuc n) = n ≤ i64_max

-- The digits of a number below 10 ^ fuel, without leading zeros.
unfoldable pub digits : ℕ → ℕ → Bytes
digits zero n = []
digits (suc fuel) n = elim (ltb n 10) [
  | true ↦ (b'0' + n) ∷ []
  | false ↦ digits fuel (n / 10) ++ ((b'0' + n % 10) ∷ [])
]

-- Twenty digits are enough for 64 bits.
unfoldable pub print_nat : ℕ → Bytes
unfolding digits
print_nat n = digits 20 n

unfoldable pub print_int : ℤ → Bytes
unfolding print_nat
print_int (pos n) = print_nat n
print_int (negsuc n) = b'-' ∷ print_nat (n + 1)

-- The number that decimal digits spell behind `acc`.
unfoldable pub read_digits : ℕ → Bytes → Option ℕ
read_digits acc [] = some acc
read_digits acc (c ∷ s) = elim (leb b'0' c && leb c b'9') [
  | true ↦ read_digits (acc * 10 + (c - b'0')) s
  | false ↦ none
]

-- At least one digit.
unfoldable pub read_nat : Bytes → Option ℕ
unfolding read_digits
read_nat [] = none
read_nat (c ∷ s) = read_digits 0 (c ∷ s)

abbrev within : ℕ → Option ℕ → Option ℤ
within bound none = none
within bound (some n) = if leb n bound then some (pos n) else none

abbrev negated : Option ℕ → Option ℤ
negated none = none
negated (some zero) = some (pos 0)
negated (some (suc n)) = if leb n i64_max then some (negsuc n) else none

-- `parse::<i64>`: a sign may stand in front, and a value out of range is an error.
unfoldable pub parse_i64 : Bytes → Option ℤ
unfolding read_nat
parse_i64 [] = none
parse_i64 (c ∷ s) =
    if c == b'-'
    then negated (read_nat s)
    else if c == b'+'
    then within i64_max (read_nat s)
    else within i64_max (read_nat (c ∷ s))

read_digits-append :
    (acc : ℕ) (s t : Bytes) {n : ℕ}
    → read_digits acc s ≡ some n
    → read_digits acc (s ++ t) ≡ read_digits n t
unfolding read_digits
read_digits-append acc [] t h = ground arith
read_digits-append acc (c ∷ s) t {n} h =
    ground (arith, read_digits-append (acc * 10 + (c - b'0')) s t {n = n})

read_nothing : (acc : ℕ) → read_digits acc [] ≡ some acc
unfolding read_digits
read_nothing acc = refl

read_one : (acc d : ℕ) → d < 10 → read_digits acc ((b'0' + d) ∷ []) ≡ some (acc * 10 + d)
unfolding read_digits
read_one acc d h = ground arith

read_digits-digits : (fuel n : ℕ) → n < 10 ^ fuel → read_digits 0 (digits fuel n) ≡ some n
unfolding digits
read_digits-digits zero n h = read_nothing 0 ∙ ap some (omega (arith, pow-zero 10))
read_digits-digits (suc fuel) n h = elim (Bool-cases (ltb n 10)) [
  | inl one ↦ rw (one, digits) (read_one 0 n (ground arith) ∙ ap some (omega arith))
  | inr more ↦
      rw (more, digits)
        (read_digits-append 0 (digits fuel (n / 10)) ((b'0' + n % 10) ∷ [])
            (read_digits-digits fuel (n / 10) (omega (arith, pow-suc 10 fuel)))
          ∙ read_one (n / 10) (n % 10) (omega arith)
          ∙ ap some (omega arith))
]

-- The first character is a digit.
digits_first :
    (fuel n : ℕ) → (c : ℕ) × (s : Bytes) × (digits (suc fuel) n ≡ c ∷ s) × (b'0' ≤ c) × (c ≤ b'9')
unfolding digits
digits_first zero n = elim (Bool-cases (ltb n 10)) [
  | inl one ↦ (b'0' + n, [], rw (one, digits), omega arith, ground arith)
  | inr more ↦ (b'0' + n % 10, [], rw (more, digits), omega arith, omega arith)
]
digits_first (suc fuel) n = elim (Bool-cases (ltb n 10)) [
  | inl one ↦ (b'0' + n, [], rw (one, digits), omega arith, ground arith)
  | inr more ↦
      let (c, s, e, low, high) = digits_first fuel (n / 10) in
      (c, s ++ ((b'0' + n % 10) ∷ []), rw (more, digits, e), low, high)
]

read_nat-cons : (c : ℕ) (s t : Bytes) → t ≡ c ∷ s → read_nat t ≡ read_digits 0 t
unfolding read_nat
read_nat-cons c s t e = rw e

read_nat-print_nat : (n : ℕ) → n < 2 ^ 64 → read_nat (print_nat n) ≡ some n
unfolding print_nat
read_nat-print_nat n h =
    let (c, s, e, _, _) = digits_first 19 n in
    read_nat-cons c s (digits 20 n) e ∙ read_digits-digits 20 n (omega arith)

parse_unsigned :
    (c : ℕ) (s t : Bytes) → t ≡ c ∷ s → b'0' ≤ c → parse_i64 t ≡ within i64_max (read_nat t)
unfolding parse_i64
parse_unsigned c s t e low =
    let no_minus : (c == b'-') ≡ false = ground arith in
    let no_plus : (c == b'+') ≡ false = ground arith in rw (e, parse_i64, no_minus, no_plus)

-- Every i64 is read back from its decimal form.
pub parse_i64-print_int : (i : ℤ) → IsI64 i → parse_i64 (print_int i) ≡ some i
unfolding print_int
parse_i64-print_int (pos n) fits =
    let (c, s, e, low, _) = digits_first 19 n in
    parse_unsigned c s (print_nat n) (unfold print_nat in e) low
    ∙ ap (within i64_max) (read_nat-print_nat n (omega arith))
    ∙ ground arith
parse_i64-print_int (negsuc n) fits =
    unfold parse_i64 in ap negated (read_nat-print_nat (n + 1) (omega arith)) ∙ ground arith
