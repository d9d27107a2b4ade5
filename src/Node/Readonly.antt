-- ===== src/Node/Readonly.antt =====
-- The writes of read-only devices.
use orgsync.Base.{
  ◌≡◌, sym, ap, ◌∙◌, subst, false, not, ◌⊎◌, inl, inr, List, [], ◌∷◌, map, Bytes, Memᴰ, keep,
  keep_holds, sort_by, mem-sort_by, Bool-cases, nat_ord, list_ord, pair_ord, arith,
}
use mathlib.Core.List.Memᴰ
use orgsync.Change.{ChangeRecord, order_key}
use orgsync.Db.{Env, Db}
use orgsync.Db.Tables.{ChangeRow, change_row}
use orgsync.Db.Tables.Merge.{rows}
use orgsync.Db.Tables.Members.{mem-ingest_all}
use orgsync.Db.Apply.{is_screened, screen, apply_remote}
use orgsync.Db.Apply.Frame.{apply_remote-SameTables}
use orgsync.Node.{Runtime, contains, apply}

module _ {App : Type 0} (env : Env App) where
  mem-screen :
      (db : Db App) (l : List ChangeRecord) (rec : ChangeRecord)
      → Memᴰ rec (screen env db l).0
      → Memᴰ rec l
  unfolding screen
  mem-screen db [] rec m = m
  mem-screen db (c ∷ l) rec m = elim (Bool-cases (is_screened env db c)) [
    | inl passes ↦ elim (Memᴰ.cases_cons (rw passes at m)) [
      | inl e ↦ Memᴰ.head e
      | inr t ↦ Memᴰ.tail (mem-screen db l rec t)
    ]
    | inr fails ↦ Memᴰ.tail (mem-screen db l rec (rw fails at m))
  ]

  -- The log gains only what was handed over.
  rows-apply_remote :
      (db : Db App) (changes : List ChangeRecord) (x : ChangeRow)
      → Memᴰ x (rows (apply_remote env db changes).0.crdt)
      → ((rec : ChangeRecord) × Memᴰ rec changes × (x ≡ change_row rec)) ⊎ Memᴰ x (rows db.crdt)
  rows-apply_remote db changes x m =
      let passed = (screen env db changes).0 in
      let log = ap (map (λ e. e.1)) (apply_remote-SameTables env db changes).changes in
      elim (mem-ingest_all db.crdt (sort_by order_key passed) x (subst (λ l. Memᴰ x l) log m)) [
        | inl new ↦
            let (rec, mr, e) = Memᴰ.of_map change_row (sort_by order_key passed) new in
            inl (rec, mem-screen db changes rec (mem-sort_by order_key passed mr), sym e)
        | inr old ↦ inr old
      ]

  -- Whoever hands changes on, a row that they add to the log is of a device that the node does not
  -- know as read-only.
  pub apply-readonly :
      (n : Runtime App) (peer : Bytes) (changes : List ChangeRecord) (x : ChangeRow)
      → Memᴰ x (rows (apply env n peer changes).0.db.crdt)
      → (contains x.origin n.readonly_origins ≡ false) ⊎ Memᴰ x (rows n.db.crdt)
  unfolding apply change_row
  apply-readonly n peer changes x m =
      let allowed = λ (c : ChangeRecord). not (contains c.origin n.readonly_origins) in
      elim (rows-apply_remote n.db (keep allowed changes) x m) [
        | inl (rec, mr, e) ↦
            let free : contains rec.origin n.readonly_origins ≡ false =
              ground (arith, keep_holds allowed changes mr) in
            inl (ap (λ (y : ChangeRow). contains y.origin n.readonly_origins) e ∙ free)
        | inr old ↦ inr old
      ]
