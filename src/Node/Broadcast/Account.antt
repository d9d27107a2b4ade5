-- ===== src/Node/Broadcast/Account.antt =====
-- The account of a device's own changes: those sent, those waiting behind the mark, and new ones.
use mathlib.Core.List.{reverse, append_assoc, append-nil, map-append}
use orgsync.Base.{
  ℕ, ◌^◌, ◌≤◌, ◌<◌, ◌≡◌, refl, sym, ap, ◌∙◌, subst, Bool, true, inl, inr, List, [], ◌∷◌, ◌++◌, map,
  Bytes, Memᴰ, keep, take, drop, ◌==◌, ℤ, pos, IsI64, mem-take, take-drop, List-cases, arith,
  nat_ord, list_ord,
}
use orgsync.Error.{Result, ok, ok_of_bind}
use orgsync.Change.{ChangeRecord}
use orgsync.Db.{Db}
use orgsync.Db.Tables.{ChangeRow}
use orgsync.Db.Sync.{record_of, records_of}
use orgsync.Db.Outbox.{Meta, watermark, is_past, is_unsent, high, unbroadcast_local, mark_broadcast}
use orgsync.Db.Outbox.Span.{
  Log, Span, Span-le, Span-append, Span-mem, picked, picked-append, picked-Rising, mem-picked,
  picked_past,
}
use orgsync.Db.Outbox.Cut.{picked-high}
use orgsync.Db.Outbox.Marked.{
  IsLog, IsBehind, watermark-mark_broadcast, high_of_page, outbox-picked, unbroadcast_parts,
}
use orgsync.Node.Broadcast.Kept.{Keeps}

abbrev pub by_device : Bytes → ℕ × ChangeRow → Bool
by_device device e = e.1.origin == device

abbrev pub rows_of : Log → List ChangeRow
rows_of = map (λ e. e.1)

-- The changes of this device in its log, oldest first, and those of them behind the mark.
abbrev pub own : {App : Type 0} → Db App → List ChangeRow
own db = rows_of (picked (by_device db.device_id) db.crdt.changes)

abbrev pub waiting : {App : Type 0} → Db App → Meta → List ChangeRow
waiting db meta = rows_of (picked (is_unsent db.device_id (watermark meta)) db.crdt.changes)

ok_front :
    (a x y : List ChangeRecord)
    → ◌≡◌ {A = Result (List ChangeRecord)} (ok a) (ok x)
    → ◌≡◌ {A = Result (List ChangeRecord)} (ok (a ++ y)) (ok (x ++ y))
ok_front a x y e = let same : a ≡ x = cc in ap (λ l. ok (l ++ y)) same

records_of-append :
    (a b : List ChangeRow) {x y : List ChangeRecord}
    → records_of a ≡ ok x
    → records_of b ≡ ok y
    → records_of (a ++ b) ≡ ok (x ++ y)
unfolding records_of
records_of-append [] b {x} {y} e f = f ∙ ok_front [] x y e
records_of-append (row ∷ a) b {x} {y} e f =
    let (rec, decoded, next) = ok_of_bind (record_of row) _ e in
    let (out, rest, last) = ok_of_bind (records_of a) _ next in
    rw (decoded, records_of-append a b rest f) (ok_front (rec ∷ out) x y last)

keep_same :
    (p q : ℕ × ChangeRow → Bool) (l : Log)
    → ((e : ℕ × ChangeRow) → Memᴰ e l → p e ≡ q e)
    → keep p l ≡ keep q l
unfolding keep
keep_same p q [] h = refl
keep_same p q (e ∷ l) h =
    let here = h e (Memᴰ.head refl) in
    let rest = keep_same p q l (λ x m. h x (Memᴰ.tail m)) in ground arith

unsent_of_past :
    (device : Bytes) (w : ℤ) (e : ℕ × ChangeRow)
    → is_past w e.0 ≡ true
    → is_unsent device w e ≡ by_device device e
unfolding is_unsent
unsent_of_past device w e h = ground arith

-- What is sent and what is waiting account for what was waiting and what is new.
pub record Delivers {App : Type 0} (db : Db App) (meta : Meta) (db' : Db App) (meta' : Meta)
    (out : List ChangeRecord) : Type 0 where
  pub sent : List ChangeRow
  pub later : List ChangeRow
  pub decoded : records_of sent ≡ ok out
  pub authored : own db' ≡ own db ++ later
  pub accounted : sent ++ waiting db' meta' ≡ waiting db meta ++ later

-- What holds between any two activities.
pub record IsReady {App : Type 0} (db : Db App) (meta : Meta) : Type 0 where
  pub log : IsLog db.crdt
  pub behind : IsBehind (watermark meta) db.crdt.next_seq

module _ {App : Type 0} where
  pub Delivers-refl : (db : Db App) (meta : Meta) → Delivers db meta db meta []
  unfolding records_of
  Delivers-refl db meta = record {
    sent = [];
    later = [];
    decoded = refl;
    authored = sym (append-nil (own db));
    accounted = sym (append-nil (waiting db meta));
  }

  pub Delivers-trans :
      (db₁ db₂ db₃ : Db App) (m₁ m₂ m₃ : Meta) (x y : List ChangeRecord)
      → Delivers db₁ m₁ db₂ m₂ x
      → Delivers db₂ m₂ db₃ m₃ y
      → Delivers db₁ m₁ db₃ m₃ (x ++ y)
  Delivers-trans db₁ db₂ db₃ m₁ m₂ m₃ x y p q = record {
    sent = p.sent ++ q.sent;
    later = p.later ++ q.later;
    decoded = records_of-append p.sent q.sent p.decoded q.decoded;
    authored =
        q.authored ∙ ap (λ l. l ++ q.later) p.authored ∙ append_assoc (own db₁) p.later q.later;
    accounted =
        append_assoc p.sent q.sent (waiting db₃ m₃)
        ∙ ap (λ l. p.sent ++ l) q.accounted
        ∙ sym (append_assoc p.sent (waiting db₂ m₂) q.later)
        ∙ ap (λ l. l ++ q.later) p.accounted
        ∙ append_assoc (waiting db₁ m₁) p.later q.later;
  }

  -- The log has grown.
  pub grown :
      (db db' : Db App) (meta : Meta)
      → IsReady db meta
      → Keeps db db'
      → Delivers db meta db' meta [] × IsReady db' meta
  unfolding records_of
  grown db db' meta ready kept =
      let (ext, log, span) = kept.log in
      let device = db.device_id in
      let w = watermark meta in
      let new = rows_of (picked (by_device device) ext) in
      let all = λ (p : ℕ × ChangeRow → Bool).
        ap (λ l. rows_of (picked p l)) log
        ∙ ap rows_of (picked-append p ext db.crdt.changes)
        ∙ map-append (λ (e : ℕ × ChangeRow). e.1) (picked p db.crdt.changes) (picked p ext) in
      let fresh : keep (is_unsent device w) ext ≡ keep (by_device device) ext =
        keep_same (is_unsent device w) (by_device device) ext (λ e m.
          unsent_of_past device w e
            (ready.behind e.0 (Span-mem db.crdt.next_seq db'.crdt.next_seq ext span m).0)) in
      (
        record {
          sent = [];
          later = new;
          decoded = refl;
          authored =
              ap (λ d. rows_of (picked (by_device d) db'.crdt.changes)) kept.device_id
              ∙ all (by_device device);
          accounted =
              ap (λ d. rows_of (picked (is_unsent d w) db'.crdt.changes)) kept.device_id
              ∙ all (is_unsent device w)
              ∙ ap (λ l. waiting db meta ++ rows_of (reverse l)) fresh;
        },
        record {
          log =
              subst (λ l. Span 0 db'.crdt.next_seq l) (sym log)
                (Span-append 0 db.crdt.next_seq db'.crdt.next_seq ext db.crdt.changes ready.log
                  span);
          behind = λ seq h.
              ready.behind seq (omega (arith, Span-le db.crdt.next_seq db'.crdt.next_seq ext span));
        },
      )

  -- The mark after a page is below the next number.
  page_top :
      (db : Db App) (meta : Meta) (limit : ℕ) (c : ChangeRecord) (changes : List ChangeRecord)
      → IsReady db meta
      → let w = watermark meta in
        let rows = take limit (picked (is_unsent db.device_id w) db.crdt.changes) in
        records_of (rows_of rows) ≡ ok (c ∷ changes)
        → (m : ℕ) × (high w rows ≡ pos m) × (m < db.crdt.next_seq)
  unfolding records_of
  page_top db meta limit c changes ready decoded =
      let device = db.device_id in
      let w = watermark meta in
      let l = db.crdt.changes in
      let p = picked (is_unsent device w) l in
      elim (List-cases (take limit p)) [
        | inl none_left ↦ absurd (let no = rw none_left at decoded in cc)
        | inr (e, rows, page) ↦
            let there = λ (x : ℕ × ChangeRow) (m : Memᴰ x (e ∷ rows)).
              mem-take limit p (subst (λ r. Memᴰ x r) (sym page) m) in
            rw page (
              high_of_page w db.crdt.next_seq e rows
                (picked_past device w l (there e (Memᴰ.head refl)))
                (λ x m.
                  (Span-mem 0 db.crdt.next_seq l ready.log
                    (mem-picked (is_unsent device w) l (there x m))).1))
      ]

  -- What waits once a page has been marked.
  pub waiting-marked :
      (db : Db App) (meta : Meta) (limit : ℕ) (c : ChangeRecord) (changes : List ChangeRecord)
      (top : ℤ)
      → IsReady db meta
      → db.crdt.next_seq ≤ 2 ^ 63
      → unbroadcast_local db meta limit ≡ ok (c ∷ changes, top)
      → let w = watermark meta in
        let p = picked (is_unsent db.device_id w) db.crdt.changes in
        (records_of (rows_of (take limit p)) ≡ ok (c ∷ changes))
        × (waiting db (mark_broadcast meta top) ≡ rows_of (drop limit p))
        × IsReady db (mark_broadcast meta top)
  unfolding is_past
  waiting-marked db meta limit c changes top ready room read =
      let device = db.device_id in
      let w = watermark meta in
      let l = db.crdt.changes in
      let p = picked (is_unsent device w) l in
      let (decoded, at) = unbroadcast_parts db meta limit read in
      let page = outbox-picked db.crdt device w limit ready.log in
      let sent : records_of (rows_of (take limit p)) ≡ ok (c ∷ changes) =
        subst (λ r. records_of (rows_of r) ≡ ok (c ∷ changes)) page decoded in
      let (m, highest, low) = page_top db meta limit c changes ready sent in
      let mark : watermark (mark_broadcast meta top) ≡ high w (take limit p) =
        watermark-mark_broadcast meta top
          (subst IsI64 (sym (at ∙ ap (high w) page ∙ highest)) (omega arith))
        ∙ at
        ∙ ap (high w) page in
      (
        sent,
        ap (λ v. rows_of (picked (is_unsent device v) l)) mark
            ∙ ap rows_of (
                picked-high device w limit l
                  (picked-Rising device w 0 db.crdt.next_seq l ready.log)),
        record {
          log = ready.log;
          behind = λ seq h. ap (λ v. is_past v seq) (mark ∙ highest) ∙ ground arith;
        },
      )

  -- A page has been sent and marked.
  pub marked :
      (db : Db App) (meta : Meta) (limit : ℕ) (c : ChangeRecord) (changes : List ChangeRecord)
      (top : ℤ)
      → IsReady db meta
      → db.crdt.next_seq ≤ 2 ^ 63
      → unbroadcast_local db meta limit ≡ ok (c ∷ changes, top)
      → Delivers db meta db (mark_broadcast meta top) (c ∷ changes)
        × IsReady db (mark_broadcast meta top)
  marked db meta limit c changes top ready room read =
      let p = picked (is_unsent db.device_id (watermark meta)) db.crdt.changes in
      let (decoded, rest, next) = waiting-marked db meta limit c changes top ready room read in
      (
        record {
          sent = rows_of (take limit p);
          later = [];
          decoded = decoded;
          authored = sym (append-nil (own db));
          accounted =
              ap (λ r. rows_of (take limit p) ++ r) rest
              ∙ sym (map-append (λ (e : ℕ × ChangeRow). e.1) (take limit p) (drop limit p))
              ∙ ap rows_of (take-drop limit p)
              ∙ sym (append-nil (waiting db meta));
        },
        next,
      )
