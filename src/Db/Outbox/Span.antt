-- ===== src/Db/Outbox/Span.antt =====
-- Logs with descending numbers, and the rows picked from them in the order of the numbers.
use mathlib.Core.List.{reverse, reverse-append, reverse-cons, append-nil}
use orgsync.Base.{
  ℕ, ◌≤◌, ◌<◌, ◌≡◌, refl, sym, ap, ◌∙◌, Bool, true, inl, inr, List, [], ◌∷◌, ◌++◌, Bytes, keep,
  sort_by, insert_sorted, above, ℤ, pos, arith, Bool-cases, nat_ord, list_ord, Memᴰ, mem-keep,
  keep_holds, mem-sort_by, subst,
}
use mathlib.Core.List.Memᴰ
use orgsync.Db.Tables.{ChangeRow}
use orgsync.Db.Outbox.{is_past, is_unsent, seq_of, high}

abbrev pub Log : Type 0
Log = List (ℕ × ChangeRow)

-- The numbers descend, from below `hi` down to `lo` at least.
abbrev pub Span : ℕ → ℕ → Log → Type 0
Span lo hi [] = lo ≤ hi
Span lo hi (e ∷ l) = (e.0 < hi) × Span lo e.0 l

pub Span-le : (lo hi : ℕ) (l : Log) → Span lo hi l → lo ≤ hi
Span-le lo hi [] h = h
Span-le lo hi (e ∷ l) (below, s) = omega (arith, Span-le lo e.0 l s)

pub Span-append :
    (lo mid hi : ℕ) (ext l : Log) → Span lo mid l → Span mid hi ext → Span lo hi (ext ++ l)
Span-append lo mid hi [] [] s h = omega arith
Span-append lo mid hi [] (e ∷ l) (below, s) h = (omega arith, s)
Span-append lo mid hi (e ∷ ext) l s (below, t) = (below, Span-append lo mid e.0 ext l s t)

pub Span-mem :
    (lo hi : ℕ) (l : Log) {e : ℕ × ChangeRow} → Span lo hi l → Memᴰ e l → (lo ≤ e.0) × (e.0 < hi)
Span-mem lo hi (x ∷ l) {e} (below, s) m = elim (Memᴰ.cases_cons m) [
  | inl same ↦
      let at : e.0 ≡ x.0 = ap seq_of same in (omega (arith, Span-le lo x.0 l s), omega arith)
  | inr t ↦ let (low, high) = Span-mem lo x.0 l s t in (low, omega arith)
]
Span-mem lo hi [] s m = elim m [ ]

-- The rows that a test picks, oldest first.
abbrev pub picked : (ℕ × ChangeRow → Bool) → Log → Log
picked p l = reverse (keep p l)

keep-append : (p : ℕ × ChangeRow → Bool) (ext l : Log) → keep p (ext ++ l) ≡ keep p ext ++ keep p l
unfolding keep
keep-append p [] l = refl
keep-append p (e ∷ ext) l = ground (arith, keep-append p ext l)

pub picked-append :
    (p : ℕ × ChangeRow → Bool) (ext l : Log) → picked p (ext ++ l) ≡ picked p l ++ picked p ext
picked-append p ext l = ap reverse (keep-append p ext l) ∙ reverse-append (keep p ext) (keep p l)

insert_last :
    (e : ℕ × ChangeRow) (l : Log)
    → ((x : ℕ × ChangeRow) → Memᴰ x l → x.0 < e.0)
    → insert_sorted seq_of e l ≡ l ++ (e ∷ [])
unfolding insert_sorted
insert_last e [] less = refl
insert_last e (x ∷ l) less =
    let over : above e.0 x.0 ≡ true = let h = less x (Memᴰ.head refl) in ground arith in
    rw over (ap (λ r. x ∷ r) (insert_last e l (λ y m. less y (Memᴰ.tail m))))

-- The query's `ORDER BY seq` on such a log.
pub sort_by-Span :
    (p : ℕ × ChangeRow → Bool) (lo hi : ℕ) (l : Log)
    → Span lo hi l
    → sort_by seq_of (keep p l) ≡ picked p l
unfolding sort_by keep
sort_by-Span p lo hi [] s = refl
sort_by-Span p lo hi (e ∷ l) (below, s) = elim (Bool-cases (p e)) [
  | inr out ↦ rw out (sort_by-Span p lo e.0 l s)
  | inl kept ↦ rw kept (
      insert_last e (sort_by seq_of (keep p l))
        (λ x m. (Span-mem lo e.0 l s (mem-keep p l (mem-sort_by seq_of (keep p l) m))).1)
      ∙ ap (λ r. r ++ (e ∷ [])) (sort_by-Span p lo e.0 l s)
      ∙ sym (reverse-cons e (keep p l)))
]

-- The numbers rise, and all are past the mark.
abbrev pub Rising : ℤ → Log → Type 0
Rising w [] = Unit {0}
Rising w (e ∷ l) = (is_past w e.0 ≡ true) × Rising (pos e.0) l

Rising-snoc :
    (w : ℤ) (l : Log) (e : ℕ × ChangeRow)
    → Rising w l
    → is_past w e.0 ≡ true
    → ((x : ℕ × ChangeRow) → Memᴰ x l → x.0 < e.0)
    → Rising w (l ++ (e ∷ []))
unfolding is_past
Rising-snoc w [] e r past less = (past, tt)
Rising-snoc w (x ∷ l) e (first, r) past less = (
  first,
  Rising-snoc (pos x.0) l e r (let h = less x (Memᴰ.head refl) in ground arith)
      (λ y m. less y (Memᴰ.tail m)),
)

pub keep-reverse : (p : ℕ × ChangeRow → Bool) (l : Log) → keep p (reverse l) ≡ reverse (keep p l)
unfolding keep
keep-reverse p [] = refl
keep-reverse p (e ∷ l) =
    ap (keep p) (reverse-cons e l)
    ∙ keep-append p (reverse l) (e ∷ [])
    ∙ ap (λ r. r ++ keep p (e ∷ [])) (keep-reverse p l)
    ∙ elim (Bool-cases (p e)) [
      | inl kept ↦ rw kept (sym (reverse-cons e (keep p l)))
      | inr out ↦ rw out (append-nil (reverse (keep p l)))
    ]

mem-reverse : {x : ℕ × ChangeRow} (l : Log) → Memᴰ x (reverse l) → Memᴰ x l
mem-reverse [] m = m
mem-reverse {x} (e ∷ l) m =
    elim (Memᴰ.append_cases (reverse l) (subst (λ r. Memᴰ x r) (reverse-cons e l) m)) [
      | inl old ↦ Memᴰ.tail (mem-reverse l old)
      | inr new ↦ elim (Memᴰ.cases_cons new) [ inl same ↦ Memᴰ.head same | inr t ↦ elim t [ ] ]
    ]

past_of_unsent :
    (device : Bytes) (w : ℤ) (e : ℕ × ChangeRow)
    → is_unsent device w e ≡ true
    → is_past w e.0 ≡ true
unfolding is_unsent
past_of_unsent device w e h = ground arith

pub picked-Rising :
    (device : Bytes) (w : ℤ) (lo hi : ℕ) (l : Log)
    → Span lo hi l
    → Rising w (picked (is_unsent device w) l)
unfolding keep
picked-Rising device w lo hi [] s = tt
picked-Rising device w lo hi (e ∷ l) (below, s) = elim (Bool-cases (is_unsent device w e)) [
  | inr out ↦ rw out (picked-Rising device w lo e.0 l s)
  | inl kept ↦ rw kept (
      subst (λ r. Rising w r) (sym (reverse-cons e (keep (is_unsent device w) l)))
        (Rising-snoc w (picked (is_unsent device w) l) e (picked-Rising device w lo e.0 l s)
          (past_of_unsent device w e kept)
          (λ x m.
            (Span-mem lo e.0 l s
              (mem-keep (is_unsent device w) l (mem-reverse (keep (is_unsent device w) l) m))).1)))
]

pub mem-picked :
    (p : ℕ × ChangeRow → Bool) (l : Log) {e : ℕ × ChangeRow} → Memᴰ e (picked p l) → Memᴰ e l
mem-picked p l m = mem-keep p l (mem-reverse (keep p l) m)

pub picked_past :
    (device : Bytes) (w : ℤ) (l : Log) {e : ℕ × ChangeRow}
    → Memᴰ e (picked (is_unsent device w) l)
    → is_past w e.0 ≡ true
picked_past device w l {e} m =
    past_of_unsent device w e
      (keep_holds (is_unsent device w) l (mem-reverse (keep (is_unsent device w) l) m))
