-- ===== src/Value.antt =====
-- rust/p2p-core/src/db/value.rs: a SQLite value and its storage form. An i64 is its two's complement
-- pattern and an f64 its bit pattern, both below 2 ^ 64.
pub mod Storage
use orgsync.Base.{
  ℕ, zero, suc, ◌-◌, ◌^◌, ◌<◌, ◌≡◌, Bool, true, false, ◌&&◌, Option, none, some, List, [], ◌∷◌,
  Bytes, length, le_bytes, from_le, ltb, leb, ◌==◌, if◌then◌else◌, nat_ord,
}
use orgsync.Error.{Result, ok, err, codec}

abbrev pub t_null : ℕ
t_null = 0

abbrev pub t_int : ℕ
t_int = 1

abbrev pub t_real : ℕ
t_real = 2

abbrev pub t_text : ℕ
t_text = 3

abbrev pub t_blob : ℕ
t_blob = 4

pub data SqlValue : Type 0 where
  null : SqlValue
  int : ℕ → SqlValue
  real : ℕ → SqlValue
  text : Bytes → SqlValue
  blob : Bytes → SqlValue

-- Whether bytes are UTF-8: `more` continuation bytes are due, the next of them in `lo..=hi`.
unfoldable pub utf8_from : ℕ → ℕ → ℕ → Bytes → Bool
utf8_from more lo hi [] = more == 0
utf8_from zero lo hi (b ∷ bs) = elim (ltb b 0x80) [
  | true ↦ utf8_from 0 0 0 bs
  | false ↦ elim (leb 0xc2 b && leb b 0xdf) [
    | true ↦ utf8_from 1 0x80 0xbf bs
    | false ↦ elim (leb 0xe0 b && leb b 0xef) [
      | true ↦ utf8_from 2 (if b == 0xe0 then 0xa0 else 0x80) (if b == 0xed then 0x9f else 0xbf) bs
      | false ↦ elim (leb 0xf0 b && leb b 0xf4) [
        | true ↦
            utf8_from 3 (if b == 0xf0 then 0x90 else 0x80) (if b == 0xf4 then 0x8f else 0xbf) bs
        | false ↦ false
      ]
    ]
  ]
]
utf8_from (suc more) lo hi (b ∷ bs) = elim (leb lo b && leb b hi) [
  | true ↦ utf8_from more 0x80 0xbf bs
  | false ↦ false
]

-- `String::from_utf8` succeeds.
unfoldable pub is_utf8 : Bytes → Bool
unfolding utf8_from
is_utf8 = utf8_from 0 0 0

unfoldable pub to_storage : SqlValue → ℕ × Option Bytes
to_storage null = (t_null, none)
to_storage (int i) = (t_int, some (le_bytes 8 i))
to_storage (real f) = (t_real, some (le_bytes 8 f))
to_storage (text s) = (t_text, some s)
to_storage (blob b) = (t_blob, some b)

-- `try_into` an array of eight bytes, and the number that they stand for.
abbrev eight : (ℕ → SqlValue) → Option Bytes → Result SqlValue
eight make none = err codec
eight make (some b) = if length b == 8 then ok (make (from_le b)) else err codec

abbrev from_text : Option Bytes → Result SqlValue
from_text none = err codec
from_text (some b) = if is_utf8 b then ok (text b) else err codec

abbrev from_blob : Option Bytes → Result SqlValue
from_blob none = ok (blob [])
from_blob (some b) = ok (blob b)

unfoldable pub from_storage : ℕ → Option Bytes → Result SqlValue
from_storage vtype raw =
    if vtype == t_null
    then ok null
    else if vtype == t_int
    then eight int raw
    else if vtype == t_real
    then eight real raw
    else if vtype == t_text
    then from_text raw
    else if vtype == t_blob
    then from_blob raw
    else err codec

-- What the Rust type promises of a value.
abbrev pub IsValue : SqlValue → Type 0
IsValue null = Unit {0}
IsValue (int i) = i < 2 ^ 64
IsValue (real f) = f < 2 ^ 64
IsValue (text s) = is_utf8 s ≡ true
IsValue (blob b) = Unit {0}
