-- ===== src/Base/ByteLists.antt =====
-- Text and byte vectors, as lists of byte values. A Rust string is its UTF-8 bytes: they are what
-- `Ord` on strings, SQLite's default collation and the signatures read.
use Prim.Native.Nat.{ℕ, zero, suc, ◌+◌, ◌*◌, ◌/◌, ◌%◌, ◌^◌, ◌<◌}
use Prim.Native.Char.{code}
use Prim.Native.String.{String}
use mathlib.Core.Path.{◌≡◌, refl, ap}
use mathlib.Core.List.{List, [], ◌∷◌, ◌++◌}
use native.Mathlib.Omega.{arith}
use native.Mathlib.Nat.{pow-suc}
use orgsync.Base.Lists.{length}
use orgsync.Base.Order.{then_cmp, compare_list, nat_ord}

abbrev pub Bytes : Type 0
Bytes = List ℕ

-- A literal of the source, which is ASCII throughout.
abbrev pub codes : String → Bytes
codes String.[] = []
codes (String.◌∷◌ c s) = code c ∷ codes s

-- `to_le_bytes` of an integer of `w` bytes.
unfoldable pub le_bytes : ℕ → ℕ → Bytes
le_bytes zero n = []
le_bytes (suc w) n = n % 256 ∷ le_bytes w (n / 256)

-- `from_le_bytes`.
unfoldable pub from_le : Bytes → ℕ
from_le [] = 0
from_le (b ∷ bs) = b + 256 * from_le bs

pub length-le_bytes : (w n : ℕ) → length (le_bytes w n) ≡ w
unfolding le_bytes
length-le_bytes zero n = refl
length-le_bytes (suc w) n = ap suc (length-le_bytes w (n / 256))

pub from_le-le_bytes : (w n : ℕ) → n < 256 ^ w → from_le (le_bytes w n) ≡ n
unfolding from_le le_bytes
from_le-le_bytes zero n h = omega arith
from_le-le_bytes (suc w) n h =
    omega (arith, from_le-le_bytes w (n / 256) (omega (arith, pow-suc 256 w)))

pub le_bytes-injective :
    (w a b : ℕ) → a < 256 ^ w → b < 256 ^ w → le_bytes w a ≡ le_bytes w b → a ≡ b
le_bytes-injective w a b ha hb e =
    omega (arith, from_le-le_bytes w a ha, from_le-le_bytes w b hb, ap from_le e)

-- Lists that agree in length up to a cut are compared part by part.
pub compare_list-append :
    (xs xs' ys ys' : Bytes)
    → length xs ≡ length xs'
    → compare_list (xs ++ ys) (xs' ++ ys') ≡ then_cmp (compare_list xs xs') (compare_list ys ys')
unfolding compare_list
compare_list-append [] [] ys ys' h = refl
compare_list-append [] (x' ∷ xs') ys ys' h = absurd (omega arith)
compare_list-append (x ∷ xs) [] ys ys' h = absurd (omega arith)
compare_list-append (x ∷ xs) (x' ∷ xs') ys ys' h = ground (arith, compare_list-append xs xs' ys ys')
