-- ===== src/Hlc.antt =====
-- rust/p2p-core/src/hlc.rs: the hybrid logical clock, its hexadecimal form, and the order on stamps.
pub mod Hex
pub mod Progress
use orgsync.Base.{
  ℕ, zero, suc, ◌+◌, ◌-◌, ◌*◌, ◌/◌, ◌%◌, ◌^◌, ◌<◌, max, compare, Ordering, ◌≡◌, Bool, true, ◌&&◌,
  Option, none, some, List, [], ◌∷◌, ◌++◌, Bytes, length, take, drop, ltb, leb, ◌==◌, if◌then◌else◌,
  then_cmp, nat_ord,
}

-- How far ahead of our own clock a remote timestamp is absorbed.
abbrev pub max_clock_drift_ms : ℕ
max_clock_drift_ms = 60000

abbrev pub u32_max : ℕ
u32_max = 2 ^ 32 - 1

abbrev pub u64_max : ℕ
u64_max = 2 ^ 64 - 1

pub record Hlc : Type 0 where
  pub wall_ms : ℕ
  pub counter : ℕ

-- The machine widths of the two fields.
pub record IsValid (h : Hlc) : Type 0 where
  pub wall_ms : h.wall_ms < 2 ^ 64
  pub counter : h.counter < 2 ^ 32

abbrev pub zero_hlc : Hlc
zero_hlc = record { wall_ms = 0; counter = 0 }

-- The derived `Ord`: lexicographic in the order of the fields.
unfoldable pub compare_hlc : Hlc → Hlc → Ordering
compare_hlc a b = then_cmp (compare a.wall_ms b.wall_ms) (compare a.counter b.counter)

-- `saturating_add` on u32 and u64, and `saturating_mul`.
abbrev pub saturating_add32 : ℕ → ℕ → ℕ
saturating_add32 a b = if ltb u32_max (a + b) then u32_max else a + b

abbrev pub saturating_add64 : ℕ → ℕ → ℕ
saturating_add64 a b = if ltb u64_max (a + b) then u64_max else a + b

abbrev pub saturating_mul64 : ℕ → ℕ → ℕ
saturating_mul64 a b = if ltb u64_max (a * b) then u64_max else a * b

-- A lower-case hexadecimal digit.
unfoldable pub hex_digit : ℕ → ℕ
hex_digit d = if ltb d 10 then b'0' + d else b'a' + d - 10

-- `{:0wx}` of a number that has at most `w` digits.
unfoldable pub hex_padded : ℕ → ℕ → Bytes
hex_padded zero n = []
hex_padded (suc w) n = hex_digit (n / 16 ^ w) ∷ hex_padded w (n % 16 ^ w)

unfoldable pub to_hex : Hlc → Bytes
to_hex h = hex_padded 16 h.wall_ms ++ hex_padded 8 h.counter

-- The value of a digit of either case.
unfoldable pub hex_value : ℕ → Option ℕ
hex_value c =
    if leb b'0' c && leb c b'9'
    then some (c - b'0')
    else if leb b'a' c && leb c b'f'
    then some (c - b'a' + 10)
    else if leb b'A' c && leb c b'F'
    then some (c - b'A' + 10)
    else none

-- The loop of `from_str_radix(_, 16)`: an intermediate result over `bits` bits is an error.
unfoldable pub from_digits : ℕ → ℕ → Bytes → Option ℕ
from_digits bits acc [] = some acc
from_digits bits acc (c ∷ cs) = elim (hex_value c) [
  | none ↦ none
  | some d ↦ elim (ltb (acc * 16 + d) (2 ^ bits)) [
    | true ↦ from_digits bits (acc * 16 + d) cs
    | _ ↦ none
  ]
]

-- `from_str_radix(_, 16)`: a leading `+` is read over, unless nothing follows it.
unfoldable pub from_str_radix16 : ℕ → Bytes → Option ℕ
from_str_radix16 bits [] = none
from_str_radix16 bits (c ∷ []) = from_digits bits 0 (c ∷ [])
from_str_radix16 bits (c ∷ c' ∷ cs) =
    if c == b'+' then from_digits bits 0 (c' ∷ cs) else from_digits bits 0 (c ∷ c' ∷ cs)

-- The source slices the text at byte 16; where that is inside a character it panics, and where
-- it is not, a byte that is no digit gives `None`, as here.
unfoldable pub from_hex : Bytes → Option Hlc
from_hex s =
    if length s == 24
    then elim (from_str_radix16 64 (take 16 s)) [
      | none ↦ none
      | some w ↦ elim (from_str_radix16 32 (take 8 (drop 16 s))) [
        | none ↦ none
        | some c ↦ some (record { wall_ms = w; counter = c })
      ]
    ]
    else none

-- `HybridClock::tick`: the state is `last`, and `phys` is the reading of the system clock. The
-- result is both the new state and the stamp that is returned.
unfoldable pub tick : ℕ → Hlc → Hlc
tick phys last =
    if ltb last.wall_ms phys
    then record { wall_ms = phys; counter = 0 }
    else record { wall_ms = last.wall_ms; counter = saturating_add32 last.counter 1 }

-- The branch of `HybridClock::observe` for a plausible stamp.
unfoldable pub absorb : ℕ → Hlc → Hlc → Hlc
absorb phys last remote =
    let max_wall = max (max phys last.wall_ms) remote.wall_ms in
    if (max_wall == last.wall_ms) && (max_wall == remote.wall_ms)
    then record {
      wall_ms = max_wall;
      counter = saturating_add32 (max last.counter remote.counter) 1;
    }
    else if max_wall == last.wall_ms
    then record { wall_ms = max_wall; counter = saturating_add32 last.counter 1 }
    else if max_wall == remote.wall_ms
    then record { wall_ms = max_wall; counter = saturating_add32 remote.counter 1 }
    else record { wall_ms = max_wall; counter = 0 }

-- `HybridClock::observe`: beyond the drift window only our own clock moves.
unfoldable pub observe : ℕ → Hlc → Hlc → Hlc
unfolding absorb
observe phys last remote =
    if ltb (saturating_add64 phys max_clock_drift_ms) remote.wall_ms
    then (if ltb last.wall_ms phys
        then record { wall_ms = phys; counter = 0 }
        else record { wall_ms = last.wall_ms; counter = saturating_add32 last.counter 1 })
    else absorb phys last remote
