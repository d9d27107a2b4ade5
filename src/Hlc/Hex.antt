-- ===== src/Hlc/Hex.antt =====
-- The hexadecimal form of a stamp: it reads back, and it sorts as the stamp does.
use orgsync.Base.{
  ℕ, zero, suc, ◌+◌, ◌*◌, ◌/◌, ◌%◌, ◌^◌, ◌≤◌, ◌<◌, compare, ◌≡◌, refl, sym, ap, ap₂, ◌∙◌, true,
  false, some, [], ◌∷◌, ◌++◌, Bytes, length, length-append, take, drop, ltb, ◌==◌, then_cmp,
  compare_list, compare_list-append, arith, nat_ord,
}
use orgsync.Hlc.{
  Hlc, IsValid, compare_hlc, hex_digit, hex_padded, to_hex, hex_value, from_digits,
  from_str_radix16, from_hex,
}
use native.Mathlib.Nat.{pow-suc, div-add-mod, mod-lt, mul-le-mul_left}
use mathlib.Core.List.{append-nil}

lt→ltb : (a b : ℕ) → a < b → ltb a b ≡ true
lt→ltb a b h = ground arith

hex_value-hex_digit : (d : ℕ) → d < 16 → hex_value (hex_digit d) ≡ some d
unfolding hex_value hex_digit
hex_value-hex_digit d h = ground arith

-- A digit is never the sign that `from_str_radix` reads over.
hex_digit-ne-plus : (d : ℕ) → d < 16 → (hex_digit d == b'+') ≡ false
unfolding hex_digit
hex_digit-ne-plus d h = ground arith

length-hex_padded : (w n : ℕ) → length (hex_padded w n) ≡ w
unfolding hex_padded
length-hex_padded zero n = refl
length-hex_padded (suc w) n = ap suc (length-hex_padded w (n % 16 ^ w))

pos_pow16 : (w : ℕ) → 0 < 16 ^ w
pos_pow16 zero = omega arith
pos_pow16 (suc w) = omega (arith, pow-suc 16 w, pos_pow16 w)

top_digit : (w n : ℕ) → n < 16 ^ suc w → n / 16 ^ w < 16
top_digit w n h = grind (arith, pow-suc 16 w)

from_digits_step :
    (bits acc c d : ℕ) (cs : Bytes)
    → hex_value c ≡ some d
    → acc * 16 + d < 2 ^ bits
    → from_digits bits acc (c ∷ cs) ≡ from_digits bits (acc * 16 + d) cs
unfolding from_digits
from_digits_step bits acc c d cs e h = ground arith

-- One digit moved from the number to the accumulator.
shift_digit : (acc w n : ℕ) → (acc * 16 + n / 16 ^ w) * 16 ^ w + n % 16 ^ w ≡ acc * 16 ^ suc w + n
shift_digit acc w n = omega (arith, ap (λ (t : ℕ). acc * t) (pow-suc 16 w), div-add-mod n (16 ^ w))

le-mul_pos : (a q : ℕ) → 0 < q → a ≤ a * q
le-mul_pos a q h = omega (arith, mul-le-mul_left a h)

from_digits-hex_padded :
    (bits w acc n : ℕ) (rest : Bytes)
    → n < 16 ^ w
    → acc * 16 ^ w + n < 2 ^ bits
    → from_digits bits acc (hex_padded w n ++ rest) ≡ from_digits bits (acc * 16 ^ w + n) rest
unfolding hex_padded
from_digits-hex_padded bits zero acc n rest h fits =
    ap (λ (k : ℕ). from_digits bits k rest) (omega arith)
from_digits-hex_padded bits (suc w) acc n rest h fits =
    let q = 16 ^ w in
    let d = n / q in
    let whole : (acc * 16 + d) * q + n % q ≡ acc * 16 ^ suc w + n = shift_digit acc w n in
    let small : acc * 16 + d < 2 ^ bits =
      omega (arith, whole, le-mul_pos (acc * 16 + d) q (pos_pow16 w)) in
    from_digits_step bits acc (hex_digit d) d (hex_padded w (n % q) ++ rest)
      (hex_value-hex_digit d (top_digit w n h)) small
    ∙ from_digits-hex_padded bits w (acc * 16 + d) (n % q) rest (mod-lt n (pos_pow16 w))
        (omega (arith, whole))
    ∙ ap (λ (k : ℕ). from_digits bits k rest) whole

compare-hex_digit : (x y : ℕ) → x < 16 → y < 16 → compare (hex_digit x) (hex_digit y) ≡ compare x y
unfolding hex_digit
compare-hex_digit x y hx hy = ground arith

lift_lt : (q x y r s : ℕ) → x < y → r < q → q * x + r < q * y + s
lift_lt q x y r s h hr = omega (arith, mul-le-mul_left q h)

compare_split :
    (q x y r s : ℕ)
    → r < q
    → s < q
    → compare (q * x + r) (q * y + s) ≡ then_cmp (compare x y) (compare r s)
compare_split q x y r s hr hs = ground (arith, lift_lt q x y r s, lift_lt q y x s r)

compare_div_mod :
    (q a b : ℕ) → 0 < q → then_cmp (compare (a / q) (b / q)) (compare (a % q) (b % q)) ≡ compare a b
compare_div_mod q a b h =
    sym (compare_split q (a / q) (b / q) (a % q) (b % q) (mod-lt a h) (mod-lt b h))
    ∙ ap₂ compare (div-add-mod a q) (div-add-mod b q)

compare-hex_padded :
    (w a b : ℕ)
    → a < 16 ^ w
    → b < 16 ^ w
    → compare_list (hex_padded w a) (hex_padded w b) ≡ compare a b
unfolding compare_list hex_padded
compare-hex_padded zero a b ha hb = ground arith
compare-hex_padded (suc w) a b ha hb = ground (
  arith,
  compare-hex_digit (a / 16 ^ w) (b / 16 ^ w) (top_digit w a ha) (top_digit w b hb),
  compare-hex_padded w (a % 16 ^ w) (b % 16 ^ w) (mod-lt a (pos_pow16 w)) (mod-lt b (pos_pow16 w)),
  compare_div_mod (16 ^ w) a b (pos_pow16 w),
)

pub length-to_hex : (h : Hlc) → length (to_hex h) ≡ 24
unfolding to_hex
length-to_hex h = omega (
  arith,
  length-append (hex_padded 16 h.wall_ms) (hex_padded 8 h.counter),
  length-hex_padded 16 h.wall_ms,
  length-hex_padded 8 h.counter,
)

-- The hexadecimal forms of two stamps compare as the stamps do.
pub compare-to_hex :
    (a b : Hlc) → IsValid a → IsValid b → compare_list (to_hex a) (to_hex b) ≡ compare_hlc a b
unfolding to_hex compare_hlc
compare-to_hex a b va vb = rw (
  compare_list-append _ _ _ _
      (length-hex_padded 16 a.wall_ms ∙ sym (length-hex_padded 16 b.wall_ms)),
  compare-hex_padded 16 a.wall_ms b.wall_ms va.wall_ms vb.wall_ms,
  compare-hex_padded 8 a.counter b.counter va.counter vb.counter,
)

take-append : (n : ℕ) (xs ys : Bytes) → length xs ≡ n → take n (xs ++ ys) ≡ xs
take-append zero [] ys h = refl
take-append zero (x ∷ xs) ys h = absurd (omega arith)
take-append (suc n) [] ys h = absurd (omega arith)
take-append (suc n) (x ∷ xs) ys h = ap (◌∷◌ x) (take-append n xs ys (omega arith))

drop-append : (n : ℕ) (xs ys : Bytes) → length xs ≡ n → drop n (xs ++ ys) ≡ ys
drop-append zero [] ys h = refl
drop-append zero (x ∷ xs) ys h = absurd (omega arith)
drop-append (suc n) [] ys h = absurd (omega arith)
drop-append (suc n) (x ∷ xs) ys h = drop-append n xs ys (omega arith)

take_all : (n : ℕ) (xs : Bytes) → length xs ≡ n → take n xs ≡ xs
take_all zero [] h = refl
take_all zero (x ∷ xs) h = absurd (omega arith)
take_all (suc n) [] h = absurd (omega arith)
take_all (suc n) (x ∷ xs) h = ap (◌∷◌ x) (take_all n xs (omega arith))

from_digits_nil : (bits n : ℕ) → from_digits bits n [] ≡ some n
unfolding from_digits
from_digits_nil bits n = refl

from_digits_all :
    (bits w n : ℕ) → n < 16 ^ w → n < 2 ^ bits → from_digits bits 0 (hex_padded w n) ≡ some n
from_digits_all bits w n h fits =
    ap (from_digits bits 0) (sym (append-nil (hex_padded w n)))
    ∙ from_digits-hex_padded bits w 0 n [] h (omega arith)
    ∙ from_digits_nil bits (0 * 16 ^ w + n)
    ∙ ap some (omega arith)

from_str_radix16-hex_padded :
    (bits w n : ℕ)
    → n < 16 ^ suc (suc w)
    → n < 2 ^ bits
    → from_str_radix16 bits (hex_padded (suc (suc w)) n) ≡ some n
unfolding hex_padded from_str_radix16
from_str_radix16-hex_padded bits w n h fits =
    rw (hex_digit-ne-plus (n / 16 ^ suc w) (top_digit (suc w) n h))
      (from_digits_all bits (suc (suc w)) n h fits)

-- A stamp is read back from its hexadecimal form.
pub from_hex-to_hex : (h : Hlc) → IsValid h → from_hex (to_hex h) ≡ some h
unfolding from_hex
from_hex-to_hex h v =
    let wall = hex_padded 16 h.wall_ms in
    let counter = hex_padded 8 h.counter in
    let first : take 16 (to_hex h) ≡ wall =
      unfold to_hex in take-append 16 wall counter (length-hex_padded 16 h.wall_ms) in
    let second : take 8 (drop 16 (to_hex h)) ≡ counter =
      unfold to_hex in
      rw (drop-append 16 wall counter (length-hex_padded 16 h.wall_ms))
        (take_all 8 counter (length-hex_padded 8 h.counter)) in
    ground (
      arith,
      length-to_hex h,
      ap (from_str_radix16 64) first,
      ap (from_str_radix16 32) second,
      from_str_radix16-hex_padded 64 14 h.wall_ms v.wall_ms v.wall_ms,
      from_str_radix16-hex_padded 32 6 h.counter v.counter v.counter,
    )
