-- ===== src/Db/Tables/Members.antt =====
-- Which rows the log holds after changes have been ingested.
use orgsync.Base.{
  ◌≡◌, refl, sym, ap, true, false, ◌⊎◌, inl, inr, List, [], ◌∷◌, map, any, mem_of_any, ==_iff,
  UniqueKeys, Bool-cases, Memᴰ, nat_ord, list_ord, pair_ord, arith,
}
use mathlib.Core.List.Memᴰ
use orgsync.Change.{ChangeRecord}
use orgsync.Db.Tables.{ChangeRow, Crdt, same_ident, change_row, store_change, ingest, ingest_all}
use orgsync.Db.Tables.Merge.{IsMerged, rows, stamp, logged, changes-upsert, ingest-IsMerged}

-- All rows of one list are among those of the other.
abbrev pub Within : List ChangeRow → List ChangeRow → Type 0
Within l u = (x : ChangeRow) → Memᴰ x l → Memᴰ x u

pub changes-ingest_new :
    (db : Crdt) (rec : ChangeRecord)
    → any (same_ident (change_row rec)) db.changes ≡ false
    → rows (ingest db rec) ≡ change_row rec ∷ rows db
unfolding ingest store_change
changes-ingest_new db rec new = rw new (ap (map (λ e. e.1)) (changes-upsert (logged db rec) rec))

ingest_held :
    (db : Crdt) (rec : ChangeRecord)
    → any (same_ident (change_row rec)) db.changes ≡ true
    → ingest db rec ≡ db
unfolding ingest store_change
ingest_held db rec held = rw held

-- A row of the same origin and stamp is in the log already.
pub stamp_of_held :
    (db : Crdt) (row : ChangeRow)
    → any (same_ident row) db.changes ≡ true
    → (y : ChangeRow) × Memᴰ y (rows db) × (stamp y ≡ stamp row)
stamp_of_held db row held =
    let (e, m, same) = mem_of_any (same_ident row) db.changes held in
    let hlc : e.1.hlc ≡ row.hlc = (==_iff e.1.hlc row.hlc).0 (ground arith) in
    let origin : e.1.origin ≡ row.origin = (==_iff e.1.origin row.origin).0 (ground arith) in
    (e.1, Memᴰ.map (λ e. e.1) m, λ i. (hlc i, origin i))

mem-ingest :
    (db : Crdt) (rec : ChangeRecord) (x : ChangeRow)
    → Memᴰ x (rows (ingest db rec))
    → (x ≡ change_row rec) ⊎ Memᴰ x (rows db)
mem-ingest db rec x m = elim (Bool-cases (any (same_ident (change_row rec)) db.changes)) [
  | inl held ↦ inr (rw (ingest_held db rec held) at m)
  | inr new ↦ Memᴰ.cases_cons (rw (changes-ingest_new db rec new) at m)
]

mem-ingest_old :
    (db : Crdt) (rec : ChangeRecord) (x : ChangeRow)
    → Memᴰ x (rows db)
    → Memᴰ x (rows (ingest db rec))
mem-ingest_old db rec x m = elim (Bool-cases (any (same_ident (change_row rec)) db.changes)) [
  | inl held ↦ rw (ingest_held db rec held) m
  | inr new ↦ rw (changes-ingest_new db rec new) (Memᴰ.tail m)
]

-- Where no two different rows share origin and stamp, an ingested change is in the log.
mem-ingest_self :
    (u : List ChangeRow) (db : Crdt) (rec : ChangeRecord)
    → UniqueKeys stamp u
    → Within (rows db) u
    → Memᴰ (change_row rec) u
    → Memᴰ (change_row rec) (rows (ingest db rec))
mem-ingest_self u db rec unique within known =
    elim (Bool-cases (any (same_ident (change_row rec)) db.changes)) [
      | inl held ↦
          let (y, m, same) = stamp_of_held db (change_row rec) held in
          rw (ingest_held db rec held)
            (Memᴰ.cast (sym (unique y (change_row rec) (within y m) known same)) m)
      | inr new ↦ rw (changes-ingest_new db rec new) (Memᴰ.head refl)
    ]

-- The log gains only ingested changes.
pub mem-ingest_all :
    (db : Crdt) (l : List ChangeRecord) (x : ChangeRow)
    → Memᴰ x (rows (ingest_all db l))
    → Memᴰ x (map change_row l) ⊎ Memᴰ x (rows db)
unfolding ingest_all
mem-ingest_all db [] x m = inr m
mem-ingest_all db (rec ∷ l) x m = elim (mem-ingest_all (ingest db rec) l x m) [
  | inl t ↦ inl (Memᴰ.tail t)
  | inr h ↦ elim (mem-ingest db rec x h) [ inl e ↦ inl (Memᴰ.head e) | inr old ↦ inr old ]
]

-- The log loses nothing, and gains every ingested change.
pub mem-ingest_all_intro :
    (u : List ChangeRow) (db : Crdt) (l : List ChangeRecord) (x : ChangeRow)
    → UniqueKeys stamp u
    → Within (rows db) u
    → Within (map change_row l) u
    → Memᴰ x (map change_row l) ⊎ Memᴰ x (rows db)
    → Memᴰ x (rows (ingest_all db l))
unfolding ingest_all
mem-ingest_all_intro u db [] x unique w wl (inl m) = elim m [ ]
mem-ingest_all_intro u db [] x unique w wl (inr m) = m
mem-ingest_all_intro u db (rec ∷ l) x unique w wl m =
    let self = mem-ingest_self u db rec unique w (wl (change_row rec) (Memᴰ.head refl)) in
    mem-ingest_all_intro u (ingest db rec) l x unique
      (λ y my. elim (mem-ingest db rec y my) [ inl e ↦ wl y (Memᴰ.head e) | inr old ↦ w y old ])
      (λ y my. wl y (Memᴰ.tail my))
      (elim m [
        | inl ml ↦ elim (Memᴰ.cases_cons ml) [ inl e ↦ inr (Memᴰ.cast e self) | inr t ↦ inl t ]
        | inr old ↦ inr (mem-ingest_old db rec x old)
      ])

pub ingest_all-IsMerged :
    (db : Crdt) (l : List ChangeRecord) → IsMerged db → IsMerged (ingest_all db l)
unfolding ingest_all
ingest_all-IsMerged db [] merged = merged
ingest_all-IsMerged db (rec ∷ l) merged =
    ingest_all-IsMerged (ingest db rec) l (ingest-IsMerged db rec merged)
