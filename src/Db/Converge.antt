-- ===== src/Db/Converge.antt =====
-- Convergence: replicas that have been given the same changes hold the same cells and tombstones,
-- whatever the order, the batches, the repeats and the clocks.
use orgsync.Base.{
  ◌≡◌, refl, sym, ap, ap₂, ◌∙◌, ◌⊎◌, inl, inr, List, [], ◌∷◌, ◌++◌, map, find, sort_by, mem-sort_by,
  mem-sort_by_intro, winner, winner-SameMembers, SameMembers, UniqueKeys, Memᴰ, nat_ord, list_ord,
  pair_ord, arith,
}
use mathlib.Core.Option
use mathlib.Core.List.Memᴰ
use orgsync.Change.{ChangeRecord, order_key}
use orgsync.Db.{Env, Db}
use orgsync.Db.Tables.{ChangeRow, Crdt, CellKey, RowKey, empty, change_row, ingest_all}
use orgsync.Db.Tables.Merge.{IsMerged, rows, stamp, at_cell, at_row, cell_of, tombstone_of}
use orgsync.Db.Tables.Members.{Within, mem-ingest_all, mem-ingest_all_intro, ingest_all-IsMerged}
use orgsync.Db.Apply.{is_screened, screen, apply_remote}
use orgsync.Db.Apply.Frame.{SameTables, apply_remote-SameTables, require_signatures-apply_remote}

module _ {App : Type 0} (env : Env App) where
  -- Batches applied one after the other.
  unfoldable pub receive : Db App → List (List ChangeRecord) → Db App
  receive db [] = db
  receive db (changes ∷ batches) = receive (apply_remote env db changes).0 batches

  -- The rows of the changes that pass the screening, out of all batches.
  unfoldable pub accepted : Db App → List (List ChangeRecord) → List ChangeRow
  accepted db [] = []
  accepted db (changes ∷ batches) = map change_row (screen env db changes).0 ++ accepted db batches

pub IsMerged-SameTables : {a b : Crdt} → SameTables a b → IsMerged b → IsMerged a
IsMerged-SameTables {a} {b} same merged = record {
  cells = λ k.
      ap (find k) same.cells
      ∙ merged.cells k
      ∙ sym
          (ap (λ l. Option.map cell_of (winner stamp (at_cell k) (map (λ e. e.1) l))) same.changes);
  tombstones = λ k.
      ap (find k) same.tombstones
      ∙ merged.tombstones k
      ∙ sym (
          ap (λ l. Option.map tombstone_of (winner stamp (at_row k) (map (λ e. e.1) l)))
            same.changes);
}

abbrev sorted_rows : List ChangeRecord → List ChangeRow
sorted_rows l = map change_row (sort_by order_key l)

mem-sorted_rows :
    (l : List ChangeRecord) (x : ChangeRow) → Memᴰ x (sorted_rows l) → Memᴰ x (map change_row l)
mem-sorted_rows l x m =
    let (rec, mr, e) = Memᴰ.of_map change_row (sort_by order_key l) m in
    Memᴰ.cast (sym e) (Memᴰ.map change_row (mem-sort_by order_key l mr))

mem-sorted_rows_intro :
    (l : List ChangeRecord) (x : ChangeRow) → Memᴰ x (map change_row l) → Memᴰ x (sorted_rows l)
mem-sorted_rows_intro l x m =
    let (rec, mr, e) = Memᴰ.of_map change_row l m in
    Memᴰ.cast (sym e) (Memᴰ.map change_row (mem-sort_by_intro order_key l mr))

module _ {App : Type 0} (env : Env App) where
  is_screened_same :
      (a b : Db App) (rec : ChangeRecord)
      → a.require_signatures ≡ b.require_signatures
      → is_screened env a rec ≡ is_screened env b rec
  unfolding is_screened
  is_screened_same a b rec e = ground arith

  screen_same :
      (a b : Db App) (l : List ChangeRecord)
      → a.require_signatures ≡ b.require_signatures
      → (screen env a l).0 ≡ (screen env b l).0
  unfolding screen
  screen_same a b [] e = refl
  screen_same a b (rec ∷ l) e = rw (is_screened_same a b rec e, screen_same a b l e)

  accepted_same :
      (a b : Db App) (batches : List (List ChangeRecord))
      → a.require_signatures ≡ b.require_signatures
      → accepted env a batches ≡ accepted env b batches
  unfolding accepted
  accepted_same a b [] e = refl
  accepted_same a b (l ∷ batches) e =
      ap₂ ◌++◌ (ap (map change_row) (screen_same a b l e)) (accepted_same a b batches e)

  accepted_later :
      (db : Db App) (l : List ChangeRecord) (batches : List (List ChangeRecord))
      → accepted env (apply_remote env db l).0 batches ≡ accepted env db batches
  accepted_later db l batches =
      accepted_same (apply_remote env db l).0 db batches (require_signatures-apply_remote env db l)

  rows-apply_remote :
      (db : Db App) (l : List ChangeRecord)
      → rows (apply_remote env db l).0.crdt
        ≡ rows (ingest_all db.crdt (sort_by order_key (screen env db l).0))
  rows-apply_remote db l = ap (map (λ e. e.1)) (apply_remote-SameTables env db l).changes

  -- However changes arrive, every cell and tombstone is its last writer's.
  pub receive-IsMerged :
      (db : Db App) (batches : List (List ChangeRecord))
      → IsMerged db.crdt
      → IsMerged (receive env db batches).crdt
  unfolding receive
  receive-IsMerged db [] merged = merged
  receive-IsMerged db (l ∷ batches) merged = receive-IsMerged (apply_remote env db l).0 batches (
      IsMerged-SameTables (apply_remote-SameTables env db l)
        (ingest_all-IsMerged db.crdt (sort_by order_key (screen env db l).0) merged))

  mem-receive :
      (db : Db App) (batches : List (List ChangeRecord)) (x : ChangeRow)
      → Memᴰ x (rows (receive env db batches).crdt)
      → Memᴰ x (accepted env db batches) ⊎ Memᴰ x (rows db.crdt)
  unfolding receive accepted
  mem-receive db [] x m = inr m
  mem-receive db (l ∷ batches) x m =
      let passed = (screen env db l).0 in
      elim (mem-receive (apply_remote env db l).0 batches x m) [
        | inl later ↦
            inl (
              Memᴰ.append_right (map change_row passed) (rw (accepted_later db l batches) at later))
        | inr now ↦
            elim (mem-ingest_all db.crdt (sort_by order_key passed) x
              (rw (rows-apply_remote db l) at now)) [
                | inl t ↦ inl (Memᴰ.append_left _ (mem-sorted_rows passed x t))
                | inr old ↦ inr old
              ]
      ]

  mem-receive_intro :
      (u : List ChangeRow) (db : Db App) (batches : List (List ChangeRecord)) (x : ChangeRow)
      → UniqueKeys stamp u
      → Within (rows db.crdt) u
      → Within (accepted env db batches) u
      → Memᴰ x (accepted env db batches) ⊎ Memᴰ x (rows db.crdt)
      → Memᴰ x (rows (receive env db batches).crdt)
  unfolding receive accepted
  mem-receive_intro u db [] x unique w wa (inl m) = elim m [ ]
  mem-receive_intro u db [] x unique w wa (inr m) = m
  mem-receive_intro u db (l ∷ batches) x unique w wa m =
      let passed = (screen env db l).0 in
      let first : Within (sorted_rows passed) u =
        λ y my. wa y (Memᴰ.append_left (accepted env db batches) (mem-sorted_rows passed y my)) in
      let next = (apply_remote env db l).0 in
      let kept : Within (rows next.crdt) u = λ y my.
        elim (mem-ingest_all db.crdt (sort_by order_key passed) y
          (rw (rows-apply_remote db l) at my)) [ inl t ↦ first y t | inr old ↦ w y old ] in
      let arrives : Memᴰ x (sorted_rows passed) ⊎ Memᴰ x (rows db.crdt) → Memᴰ x (rows next.crdt) =
        λ h.
          rw (rows-apply_remote db l)
            (mem-ingest_all_intro u db.crdt (sort_by order_key passed) x unique w first h) in
      mem-receive_intro u next batches x unique kept
        (λ y my.
          wa y (Memᴰ.append_right (map change_row passed) (rw (accepted_later db l batches) at my)))
        (elim m [
          | inl new ↦ elim (Memᴰ.append_cases (map change_row passed) new) [
            | inl now ↦ inr (arrives (inl (mem-sorted_rows_intro passed x now)))
            | inr later ↦ inl (rw (accepted_later db l batches) later)
          ]
          | inr old ↦ inr (arrives (inr old))
        ])

-- A replica that holds nothing yet.
abbrev pub IsFresh : {App : Type 0} → Db App → Type 0
IsFresh db = db.crdt ≡ empty

IsMerged-empty : IsMerged empty
unfolding find winner
IsMerged-empty = record { cells = λ k. refl; tombstones = λ k. refl }

module _ {App : Type 0} (env : Env App) (db : Db App) (batches : List (List ChangeRecord)) where
  -- The log of a replica that began empty holds exactly the changes that passed.
  rows-receive :
      IsFresh db
      → UniqueKeys stamp (accepted env db batches)
      → SameMembers (rows (receive env db batches).crdt) (accepted env db batches)
  rows-receive fresh unique =
      let none_yet : (x : ChangeRow) → ¬ Memᴰ x (rows db.crdt) =
        λ x m. Memᴰ.not-nil (rw fresh at m) in
      (
        λ x m. elim (mem-receive env db batches x m) [
          | inl new ↦ new
          | inr old ↦ absurd (none_yet x old)
        ],
        λ x m.
            mem-receive_intro env (accepted env db batches) db batches x unique
              (λ y my. absurd (none_yet y my)) (λ y my. my) (inl m),
      )

-- Two replicas that began empty and were sent the same changes, in any order, in any batches and
-- any number of times, hold the same value and stamp in every cell and the same tombstones, if no
-- two different changes share origin and stamp.
pub convergence :
    {App App' : Type 0} (env : Env App) (env' : Env App') (db : Db App) (db' : Db App')
    (batches batches' : List (List ChangeRecord))
    → IsFresh db
    → IsFresh db'
    → UniqueKeys stamp (accepted env db batches)
    → SameMembers (accepted env db batches) (accepted env' db' batches')
    → ((k : CellKey)
        → find k (receive env db batches).crdt.cells
          ≡ find k (receive env' db' batches').crdt.cells)
      × ((k : RowKey)
          → find k (receive env db batches).crdt.tombstones
            ≡ find k (receive env' db' batches').crdt.tombstones)
convergence env env' db db' batches batches' fresh fresh' unique (there, back) =
    let unique' : UniqueKeys stamp (accepted env' db' batches') =
      λ a b ma mb. unique a b (back a ma) (back b mb) in
    let (l₁, l₂) = rows-receive env db batches fresh unique in
    let (r₁, r₂) = rows-receive env' db' batches' fresh' unique' in
    let unique_rows : UniqueKeys stamp (rows (receive env db batches).crdt) =
      λ a b ma mb. unique a b (l₁ a ma) (l₁ b mb) in
    let same : SameMembers (rows (receive env db batches).crdt)
        (rows (receive env' db' batches').crdt) =
      (λ x m. r₂ x (there x (l₁ x m)), λ x m. l₂ x (back x (r₁ x m))) in
    let merged = receive-IsMerged env db batches (rw fresh IsMerged-empty) in
    let merged' = receive-IsMerged env' db' batches' (rw fresh' IsMerged-empty) in
    (
      λ k.
          merged.cells k
          ∙ ap (Option.map cell_of) (winner-SameMembers stamp (at_cell k) _ _ unique_rows same)
          ∙ sym (merged'.cells k),
      λ k.
          merged.tombstones k
          ∙ ap (Option.map tombstone_of) (winner-SameMembers stamp (at_row k) _ _ unique_rows same)
          ∙ sym (merged'.tombstones k),
    )
