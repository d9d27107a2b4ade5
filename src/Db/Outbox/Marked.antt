-- ===== src/Db/Outbox/Marked.antt =====
-- One page of the outbox, taken and marked.
use orgsync.Base.{
  ℕ, ◌≤◌, ◌<◌, ◌≡◌, refl, ap, ◌∙◌, true, some, List, [], ◌∷◌, map, Bytes, Memᴰ, take, find,
  find-put, compare_list, max, ℤ, pos, IsI64, print_int, parse_i64, parse_i64-print_int, arith,
  nat_ord, list_ord,
}
use orgsync.Error.{Result, ok, err, ◌>>=◌}
use orgsync.Change.{ChangeRecord}
use orgsync.Db.{Db}
use orgsync.Db.Tables.{ChangeRow, Crdt}
use orgsync.Db.Sync.{records_of}
use orgsync.Db.Outbox.{
  Meta, set_meta, broadcast_seq, watermark, is_past, is_unsent, outbox, high, unbroadcast_local,
  mark_broadcast,
}
use orgsync.Db.Outbox.Span.{Log, Span, picked, sort_by-Span}
use orgsync.Db.Outbox.Cut.{high_first}

-- The log of these tables is numbered as SQLite numbers it.
abbrev pub IsLog : Crdt → Type 0
IsLog db = Span 0 db.next_seq db.changes

-- No number that is given out from now on is up to the mark.
abbrev pub IsBehind : ℤ → ℕ → Type 0
IsBehind w next = (seq : ℕ) → next ≤ seq → is_past w seq ≡ true

mark_of :
    (meta : Meta) (v : Bytes) (w : ℤ)
    → find broadcast_seq meta ≡ some v
    → parse_i64 v ≡ some w
    → watermark meta ≡ w
unfolding watermark
mark_of meta v w there e = rw (there, watermark, e)

watermark-put :
    (meta : Meta) (w : ℤ) (v : Bytes)
    → parse_i64 v ≡ some w
    → watermark (set_meta meta broadcast_seq v) ≡ w
unfolding watermark set_meta compare_list
watermark-put meta w v e =
    mark_of (set_meta meta broadcast_seq v) v w (find-put broadcast_seq broadcast_seq v meta) e

-- The mark that is written is the mark that is read.
pub watermark-mark_broadcast :
    (meta : Meta) (w : ℤ) → IsI64 w → watermark (mark_broadcast meta w) ≡ w
unfolding mark_broadcast
watermark-mark_broadcast meta w fits =
    watermark-put meta w (print_int w) (parse_i64-print_int w fits)

high_below :
    (b m : ℕ) (rows : Log)
    → m < b
    → ((e : ℕ × ChangeRow) → Memᴰ e rows → e.0 < b)
    → (top : ℕ) × (high (pos m) rows ≡ pos top) × (top < b)
unfolding high
high_below b m [] low less = (m, refl, low)
high_below b m ((seq, row) ∷ rows) low less =
    let here = less (seq, row) (Memᴰ.head refl) in
    high_below b (max m seq) rows (omega arith) (λ e t. less e (Memᴰ.tail t))

-- The highest number of a page that is not empty.
pub high_of_page :
    (w : ℤ) (b : ℕ) (e : ℕ × ChangeRow) (rows : Log)
    → is_past w e.0 ≡ true
    → ((x : ℕ × ChangeRow) → Memᴰ x (e ∷ rows) → x.0 < b)
    → (top : ℕ) × (high w (e ∷ rows) ≡ pos top) × (top < b)
high_of_page w b e rows past less =
    let (top, at, low) =
      high_below b e.0 rows (less e (Memᴰ.head refl)) (λ x t. less x (Memᴰ.tail t)) in
    (top, high_first w e rows past ∙ at, low)

pub outbox-picked :
    (db : Crdt) (device : Bytes) (w : ℤ) (limit : ℕ)
    → IsLog db
    → outbox db device w limit ≡ take limit (picked (is_unsent device w) db.changes)
unfolding outbox
outbox-picked db device w limit log =
    ap (take limit) (sort_by-Span (is_unsent device w) 0 db.next_seq db.changes log)

parts_of :
    (r : Result (List ChangeRecord)) (w : ℤ) {out : List ChangeRecord} {top : ℤ}
    → ◌>>=◌ {U = List ChangeRecord × ℤ} r (λ recs. ok (recs, w)) ≡ ok (out, top)
    → (r ≡ ok out) × (top ≡ w)
parts_of (ok recs) w e = ground arith
parts_of (err k) w e = absurd (cc)

-- What a page that was read is made of.
pub unbroadcast_parts :
    {App : Type 0} (db : Db App) (meta : Meta) (limit : ℕ) {out : List ChangeRecord} {top : ℤ}
    → unbroadcast_local db meta limit ≡ ok (out, top)
    → let rows = outbox db.crdt db.device_id (watermark meta) limit in
      (records_of (map (λ e. e.1) rows) ≡ ok out) × (top ≡ high (watermark meta) rows)
unfolding unbroadcast_local
unbroadcast_parts db meta limit e =
    let mark = watermark meta in
    let rows = outbox db.crdt db.device_id mark limit in
    parts_of (records_of (map (λ e. e.1) rows)) (high mark rows) e
