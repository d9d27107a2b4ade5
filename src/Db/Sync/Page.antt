-- ===== src/Db/Sync/Page.antt =====
-- What a page of changes holds.
use orgsync.Base.{
  ◌≡◌, sym, subst, List, map, Memᴰ, ℕ, ◌≤◌, ◌<◌, ◌⊎◌, inl, inr, true, keep, mem-keep, keep_holds,
  mem-keep_intro, length, sort_by, mem-sort_by, mem-sort_by_intro, mem-take, take_all,
  mem-take_of_above, sort_by-IsSorted, length-sort_by, above, nat_ord, list_ord, pair_ord, arith,
  ltb, Bool-cases,
}
use orgsync.Error.{ok}
use orgsync.Change.{ChangeRecord, VersionVector}
use orgsync.Db.Tables.{ChangeRow, Crdt, change_row}
use orgsync.Db.Tables.Merge.{rows}
use orgsync.Db.Sync.{is_missing, page_key, page, changes_since}
use orgsync.Db.Sync.Decode.{IsStored, records_of-IsStored}

-- The rows that a peer with this vector lacks.
abbrev pub missing : Crdt → VersionVector → List ChangeRow
missing db vv = keep (is_missing vv) (rows db)

pub mem-page :
    (db : Crdt) (vv : VersionVector) (limit : ℕ) (x : ChangeRow)
    → Memᴰ x (page db vv limit)
    → Memᴰ x (missing db vv)
unfolding page
mem-page db vv limit x m =
    mem-sort_by page_key (missing db vv) (mem-take limit (sort_by page_key (missing db vv)) m)

-- A page is cut off in the order of the stamps.
mem-page_of_above :
    (db : Crdt) (vv : VersionVector) (limit : ℕ) (x y : ChangeRow)
    → Memᴰ y (page db vv limit)
    → Memᴰ x (missing db vv)
    → above (page_key y) (page_key x) ≡ true
    → Memᴰ x (page db vv limit)
unfolding page
mem-page_of_above db vv limit x y my mx h =
    mem-take_of_above page_key limit (sort_by page_key (missing db vv))
      (sort_by-IsSorted page_key (missing db vv)) my (mem-sort_by_intro page_key (missing db vv) mx)
      h

mem-page_short :
    (db : Crdt) (vv : VersionVector) (limit : ℕ) (x : ChangeRow)
    → length (missing db vv) ≤ limit
    → Memᴰ x (missing db vv)
    → Memᴰ x (page db vv limit)
unfolding page
mem-page_short db vv limit x short m =
    let fits : length (sort_by page_key (missing db vv)) ≤ limit =
      rw (length-sort_by page_key (missing db vv)) short in
    rw (take_all limit (sort_by page_key (missing db vv)) fits)
      (mem-sort_by_intro page_key (missing db vv) m)

-- The answer to a peer's version vector, on a log of stored rows: it decodes; every change in it
-- is in the log with a stamp above what the vector names for its origin; every such change whose
-- stamp is before that of a change in it is in it as well; and all are, unless there
-- are more than the limit.
pub changes_since_lem :
    (db : Crdt) (vv : VersionVector) (limit : ℕ)
    → ((x : ChangeRow) → Memᴰ x (rows db) → IsStored x)
    → (out : List ChangeRecord) × (changes_since db vv limit ≡ ok out)
      × ((x : ChangeRow)
          → Memᴰ x (map change_row out)
          → Memᴰ x (rows db) × (is_missing vv x ≡ true))
      × ((x y : ChangeRow)
          → Memᴰ y (map change_row out)
          → Memᴰ x (rows db)
          → is_missing vv x ≡ true
          → above (page_key y) (page_key x) ≡ true
          → Memᴰ x (map change_row out))
      × ((x : ChangeRow)
          → Memᴰ x (rows db)
          → is_missing vv x ≡ true
          → Memᴰ x (map change_row out) ⊎ (limit < length (missing db vv)))
unfolding changes_since
changes_since_lem db vv limit stored =
    let sound = λ (x : ChangeRow) (m : Memᴰ x (page db vv limit)). mem-page db vv limit x m in
    let (out, decoded, same) =
      records_of-IsStored (page db vv limit)
        (λ x m. stored x (mem-keep (is_missing vv) (rows db) (sound x m))) in
    let back = λ (x : ChangeRow) (m : Memᴰ x (map change_row out)). subst (λ l. Memᴰ x l) same m in
    let forth =
      λ (x : ChangeRow) (m : Memᴰ x (page db vv limit)). subst (λ l. Memᴰ x l) (sym same) m in
    (
      out,
      decoded,
      λ x m. (
        mem-keep (is_missing vv) (rows db) (sound x (back x m)),
        keep_holds (is_missing vv) (rows db) (sound x (back x m)),
      ),
      λ x y my mx miss h. forth x (
          mem-page_of_above db vv limit x y (back y my) (mem-keep_intro (is_missing vv) mx miss) h),
      λ x mx miss. elim (Bool-cases (ltb limit (length (missing db vv)))) [
        | inl more ↦ inr (ground arith)
        | inr fits ↦ inl (
            forth x (
              mem-page_short db vv limit x (ground arith) (mem-keep_intro (is_missing vv) mx miss)))
      ],
    )
