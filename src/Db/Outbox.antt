-- ===== src/Db/Outbox.antt =====
-- The outbox of db/mod.rs: the changes of this device that have not been broadcast yet, behind a
-- high-water mark that is kept as text in `_p2p_meta`.
pub mod Span
pub mod Cut
pub mod Growth
pub mod Marked
use orgsync.Base.{
  ℕ, Bool, true, ◌&&◌, Option, none, some, List, [], ◌∷◌, map, max, Bytes, codes, keep, take, find,
  put, sort_by, ltb, ℤ, pos, negsuc, print_int, parse_i64, ◌==◌, nat_ord, list_ord,
}
use orgsync.Error.{Result, ok, err, ◌>>=◌}
use orgsync.Change.{ChangeRecord}
use orgsync.Db.{Db}
use orgsync.Db.Tables.{ChangeRow, Crdt}
use orgsync.Db.Sync.{records_of}

-- The table `_p2p_meta`.
abbrev pub Meta : Type 0
Meta = List (Bytes × Bytes)

unfoldable pub set_meta : Meta → Bytes → Bytes → Meta
set_meta meta k v = put k v meta

unfoldable pub get_meta : Meta → Bytes → Option Bytes
get_meta meta k = find k meta

abbrev pub broadcast_seq : Bytes
broadcast_seq = codes "broadcast_seq"

-- A mark that is missing or does not parse is 0.
unfoldable pub watermark : Meta → ℤ
unfolding get_meta
watermark meta = elim (get_meta meta broadcast_seq) [
  | none ↦ pos 0
  | some v ↦ elim (parse_i64 v) [ none ↦ pos 0 | some w ↦ w ]
]

-- `seq > ?2`; a row of the log has a positive number.
unfoldable pub is_past : ℤ → ℕ → Bool
is_past (pos w) seq = ltb w seq
is_past (negsuc w) seq = true

unfoldable pub is_unsent : Bytes → ℤ → ℕ × ChangeRow → Bool
unfolding is_past
is_unsent device mark e = (e.1.origin == device) && is_past mark e.0

abbrev pub seq_of : ℕ × ChangeRow → ℕ
seq_of e = e.0

-- The rows that the query selects.
unfoldable pub outbox : Crdt → Bytes → ℤ → ℕ → List (ℕ × ChangeRow)
unfolding is_unsent
outbox crdt device mark limit =
    take limit (sort_by seq_of (keep (is_unsent device mark) crdt.changes))

-- `high.max(seq)`, from the mark on.
unfoldable pub high : ℤ → List (ℕ × ChangeRow) → ℤ
high mark [] = mark
high (pos w) ((seq, row) ∷ rows) = high (pos (max w seq)) rows
high (negsuc w) ((seq, row) ∷ rows) = high (pos seq) rows

unfoldable pub unbroadcast_local :
    {App : Type 0} → Db App → Meta → ℕ → Result (List ChangeRecord × ℤ)
unfolding watermark outbox high
unbroadcast_local db meta limit =
    let mark = watermark meta in
    let rows = outbox db.crdt db.device_id mark limit in
    do out ← records_of (map (λ e. e.1) rows); ok (out, high mark rows)

unfoldable pub mark_broadcast : Meta → ℤ → Meta
unfolding set_meta
mark_broadcast meta seq = set_meta meta broadcast_seq (print_int seq)
