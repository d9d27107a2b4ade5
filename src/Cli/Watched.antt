-- ===== src/Cli/Watched.antt =====
-- Which messages are printed as they arrive.
use orgsync.Base.{
  ℕ, ◌≡◌, refl, sym, ap, ◌∙◌, subst, Bool, true, false, inl, inr, ◌⊎◌, Option, some, List, [], ◌∷◌,
  map, keep, Bytes, Memᴰ, IsKeyed, IsSorted, sort_by, insert_sorted, mem-insert_sorted, mem-sort_by,
  mem-sort_by_intro, sort_by-IsSorted, above, above_irrefl, eq_of_not_above, any, any_of_mem,
  mem_of_any, Bool-cases, ◌==◌, ==_iff, nat_ord, list_ord, pair_ord,
}
use mathlib.Core.List.Memᴰ
use orgsync.Cli.{
  Message, Messages, order_key, in_order, last_id, or_else, line, scan, print_new_messages,
}

apart_sym : (a b : Bytes) → (a == b) ≡ false → (b == a) ≡ false
apart_sym a b h = elim (Bool-cases (b == a)) [
  | inr other ↦ other
  | inl same ↦ absurd (cc (h, (==_iff a b).1 (sym ((==_iff b a).0 same))))
]

insert_sorted-IsKeyed :
    (m : Bytes × Message) (l : Messages)
    → ((x : Bytes × Message) → Memᴰ x l → (x.0 == m.0) ≡ false)
    → IsKeyed l
    → IsKeyed (insert_sorted order_key m l)
unfolding insert_sorted
insert_sorted-IsKeyed m [] apart keyed = (apart, tt)
insert_sorted-IsKeyed m (b ∷ l) apart (first, keyed) =
    elim (Bool-cases (above (order_key m) (order_key b))) [
      | inr here ↦ rw here (apart, (first, keyed))
      | inl later ↦ rw later (
        λ x mx. elim (mem-insert_sorted order_key m l mx) [
          | inl same ↦
              ap (λ (y : Bytes × Message). y.0 == b.0) same
              ∙ apart_sym b.0 m.0 (apart b (Memᴰ.head refl))
          | inr old ↦ first x old
        ],
        insert_sorted-IsKeyed m l (λ x mx. apart x (Memᴰ.tail mx)) keyed,
      )
    ]

sort_by-IsKeyed : (l : Messages) → IsKeyed l → IsKeyed (sort_by order_key l)
unfolding sort_by
sort_by-IsKeyed [] keyed = keyed
sort_by-IsKeyed (m ∷ l) (first, keyed) =
    insert_sorted-IsKeyed m (sort_by order_key l) (λ x mx. first x (mem-sort_by order_key l mx))
      (sort_by-IsKeyed l keyed)

abbrev pub is_after : Bytes × Message → Bytes × Message → Bool
is_after m x = above (order_key x) (order_key m)

keep_all :
    (m : Bytes × Message) (l : Messages)
    → ((x : Bytes × Message) → Memᴰ x l → is_after m x ≡ true)
    → keep (is_after m) l ≡ l
unfolding keep
keep_all m [] h = refl
keep_all m (x ∷ l) h =
    rw (h x (Memᴰ.head refl)) (ap (λ r. x ∷ r) (keep_all m l (λ y my. h y (Memᴰ.tail my))))

behind :
    (m y : Bytes × Message)
    → above (order_key m) (order_key y) ≡ false
    → (y.0 == m.0) ≡ false
    → is_after m y ≡ true
behind m y least apart = elim (Bool-cases (is_after m y)) [
  | inl after ↦ after
  | inr tied ↦
      let same : order_key m ≡ order_key y =
        eq_of_not_above (order_key m) (order_key y) least tied in
      let hit : (y.0 == m.0) ≡ true = (==_iff y.0 m.0).1 (ap (λ (k : ℕ × Bytes). k.1) (sym same)) in
      absurd (cc (hit, apart))
]

or_else-last :
    (id : Bytes) (rows : Messages)
    → or_else (last_id (some id) rows) (some id) ≡ last_id (some id) rows
or_else-last id [] = refl
or_else-last id (m ∷ rows) = later m.0 rows
  where
    later :
        (k : Bytes) (rows : Messages)
        → or_else (last_id (some k) rows) (some id) ≡ last_id (some k) rows
    later k [] = refl
    later k (m ∷ rows) = later m.0 rows

module _ (print_f64 : ℕ → Bytes) where
  -- Behind the last printed row everything is printed.
  scan_reached :
      (after last : Option Bytes) (l : Messages)
      → scan print_f64 after true last l ≡ (map (line print_f64) l, last_id last l)
  unfolding scan
  scan_reached after last [] = refl
  scan_reached after last (m ∷ l) =
      ap (λ (r : List Bytes × Option Bytes). (line print_f64 m ∷ r.0, r.1))
        (scan_reached after (some m.0) l)

  scan_absent :
      (id : Bytes) (last : Option Bytes) (l : Messages)
      → ((x : Bytes × Message) → Memᴰ x l → (x.0 == id) ≡ false)
      → scan print_f64 (some id) false last l ≡ ([], last)
  unfolding scan
  scan_absent id last [] apart = refl
  scan_absent id last (m ∷ l) apart =
      rw (apart m (Memᴰ.head refl)) (scan_absent id last l (λ x mx. apart x (Memᴰ.tail mx)))

  scan_present :
      (m : Bytes × Message) (last : Option Bytes) (l : Messages)
      → IsSorted order_key l
      → IsKeyed l
      → Memᴰ m l
      → scan print_f64 (some m.0) false last l
        ≡ (map (line print_f64) (keep (is_after m) l), last_id last (keep (is_after m) l))
  unfolding scan keep
  scan_present m last [] sorted keyed here = elim here [ ]
  scan_present m last (x ∷ l) (least, sorted) (first, keyed) here = elim (Memᴰ.cases_cons here) [
    | inl same ↦
        let found : (x.0 == m.0) ≡ true =
          (==_iff x.0 m.0).1 (ap (λ (y : Bytes × Message). y.0) (sym same)) in
        let all : keep (is_after m) l ≡ l = keep_all m l (λ y my.
          behind m y (ap (λ z. above (order_key z) (order_key y)) same ∙ least y my)
            (ap (λ (z : Bytes × Message). y.0 == z.0) same ∙ first y my)) in
        let self : is_after m x ≡ false = ap (is_after m) (sym same) ∙ above_irrefl (order_key m) in
        rw (found, self, all) (scan_reached (some m.0) last l)
    | inr later ↦
        let other : (x.0 == m.0) ≡ false = apart_sym m.0 x.0 (first m later) in
        rw (other, least m later) (scan_present m last l sorted keyed later)
  ]

  absent_lem :
      (table : Messages) (id : Bytes)
      → ((x : Bytes × Message) → Memᴰ x table → (x.0 == id) ≡ false)
      → print_new_messages print_f64 table (some id) ≡ ([], some id)
  unfolding print_new_messages in_order
  absent_lem table id absent =
      let run =
        scan_absent id (some id) (sort_by order_key table)
          (λ x mx. absent x (mem-sort_by order_key table mx)) in
      rw run

  present_lem :
      (table : Messages) (m : Bytes × Message)
      → IsKeyed table
      → Memᴰ m table
      → let rest = keep (is_after m) (in_order table) in
        print_new_messages print_f64 table (some m.0)
        ≡ (map (line print_f64) rest, last_id (some m.0) rest)
  unfolding print_new_messages in_order
  present_lem table m keyed here =
      let rest = keep (is_after m) (sort_by order_key table) in
      let run =
        scan_present m (some m.0) (sort_by order_key table) (sort_by-IsSorted order_key table)
          (sort_by-IsKeyed table keyed) (mem-sort_by_intro order_key table here) in
      rw run (ap (λ (o : Option Bytes). (map (line print_f64) rest, o)) (or_else-last m.0 rest))

  -- What is printed when the last printed message has this id. Either it is in the table no more:
  -- then nothing is printed and the place stays. Or it is there: then exactly the messages behind it by time and id are
  -- printed, in this order, so that a new message of an earlier time is not; and the place moves to
  -- the last of them.
  pub print_new_messages_lem :
      (table : Messages) (id : Bytes)
      → IsKeyed table
      → ((any (λ (x : Bytes × Message). x.0 == id) table ≡ false)
          × (print_new_messages print_f64 table (some id) ≡ ([], some id)))
        ⊎ ((m : Bytes × Message) × Memᴰ m table
            × (m.0 ≡ id)
            × (print_new_messages print_f64 table (some id) ≡ (
              map (line print_f64) (keep (is_after m) (in_order table)),
              last_id (some id) (keep (is_after m) (in_order table)),
            )))
  print_new_messages_lem table id keyed =
      elim (Bool-cases (any (λ (x : Bytes × Message). x.0 == id) table)) [
        | inr none_there ↦ inl (
          none_there,
          absent_lem table id (λ x mx. elim (Bool-cases (x.0 == id)) [
            | inr other ↦ other
            | inl hit ↦
                absurd (cc (none_there, any_of_mem (λ (y : Bytes × Message). y.0 == id) mx hit))
          ]),
        )
        | inl there ↦
            let (m, here, hit) = mem_of_any (λ (x : Bytes × Message). x.0 == id) table there in
            let named : m.0 ≡ id = (==_iff m.0 id).0 hit in
            inr (
              m,
              here,
              named,
              subst
                  (λ i. print_new_messages print_f64 table (some i) ≡ (
                    map (line print_f64) (keep (is_after m) (in_order table)),
                    last_id (some i) (keep (is_after m) (in_order table)),
                  ))
                  named (present_lem table m keyed here),
            )
      ]
