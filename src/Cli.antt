-- ===== src/Cli.antt =====
-- rust/p2p-cli/src/main.rs: how a value and a message are printed, and which messages `run --watch`
-- prints. The table `messages` is as the node's own statements write it: a row has its id, a text,
-- and a time from 0 on. How an f64 is printed is a parameter.
pub mod Watched
pub mod Peer
use orgsync.Base.{
  ℕ, ◌-◌, ◌^◌, Bool, true, false, Option, none, some, List, [], ◌∷◌, ◌++◌, map, Bytes, codes,
  length, ltb, sort_by, ◌==◌, if◌then◌else◌, ℤ, pos, negsuc, print_nat, print_int, nat_ord,
  list_ord, pair_ord,
}
use orgsync.Value.{SqlValue, null, int, real, text, blob}

-- An i64 of its two's complement pattern.
abbrev pub signed : ℕ → ℤ
signed n = if ltb n (2 ^ 63) then pos n else negsuc (2 ^ 64 - 1 - n)

-- A row of `messages` without its id.
pub record Message : Type 0 where
  pub author_name : SqlValue
  pub body : SqlValue
  pub sent_at_ms : ℕ

abbrev pub Messages : Type 0
Messages = List (Bytes × Message)

-- `ORDER BY sent_at_ms, id`.
abbrev pub order_key : Bytes × Message → ℕ × Bytes
order_key m = (m.1.sent_at_ms, m.0)

unfoldable pub in_order : Messages → Messages
in_order table = sort_by order_key table

abbrev pub last_id : Option Bytes → Messages → Option Bytes
last_id last [] = last
last_id last (m ∷ rows) = last_id (some m.0) rows

unfoldable pub last_message_id : Messages → Option Bytes
unfolding in_order
last_message_id table = last_id none (in_order table)

abbrev pub or_else : Option Bytes → Option Bytes → Option Bytes
or_else none after = after
or_else (some id) after = some id

module _ (print_f64 : ℕ → Bytes) where
  unfoldable pub render : SqlValue → Bytes
  unfolding print_int print_nat
  render null = codes "NULL"
  render (int i) = print_int (signed i)
  render (real f) = print_f64 f
  render (text s) = s
  render (blob b) = codes "<" ++ (print_nat (length b) ++ codes " bytes>")

  unfoldable pub format_message : SqlValue → SqlValue → Bytes
  unfolding render
  format_message author body = codes "<" ++ (render author ++ (codes "> " ++ render body))

  abbrev pub line : Bytes × Message → Bytes
  line m = format_message m.1.author_name m.1.body

  -- The loop over the rows: whether the last printed one has been reached, and the last id.
  unfoldable pub scan : Option Bytes → Bool → Option Bytes → Messages → List Bytes × Option Bytes
  unfolding format_message
  scan after reached last [] = ([], last)
  scan after true last (m ∷ rows) =
      let (lines, last') = scan after true (some m.0) rows in (line m ∷ lines, last')
  scan none false last (m ∷ rows) = scan none false last rows
  scan (some id) false last (m ∷ rows) =
      let passed = scan (some id) false last rows in
      let found = scan (some id) true last rows in if m.0 == id then found else passed

  abbrev is_none : Option Bytes → Bool
  is_none none = true
  is_none (some id) = false

  unfoldable pub print_new_messages : Messages → Option Bytes → List Bytes × Option Bytes
  unfolding scan in_order
  print_new_messages table after =
      let (lines, last) = scan after (is_none after) after (in_order table) in
      (lines, or_else last after)
