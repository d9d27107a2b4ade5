-- ===== src/Db/Local/Steps.antt =====
-- Flushing is a sequence of changes that the device authors, one from the state that the last left.
use orgsync.Base.{
  ◌≡◌, refl, subst, ◌⊎◌, inl, inr, List, [], ◌∷◌, ◌++◌, Bytes, find, Bool-cases, Option-cases,
  nat_ord, list_ord, pair_ord,
}
use orgsync.Value.{SqlValue, null, to_storage}
use orgsync.Change.{ChangeKind, cell, deletion, ChangeRecord}
use orgsync.Db.{TableSpec, Env, LocalOpKind, upserted, deleted, Db}
use orgsync.Db.Tables.{RowKey, cell_matches}
use orgsync.Db.Local.{authored, author, flush_cols, flush_row, flush_rows, final_op}

op-cases : (op : LocalOpKind) → (op ≡ upserted) ⊎ (op ≡ deleted)
op-cases upserted = inl refl
op-cases deleted = inr refl

module _ {App : Type 0} (env : Env App) where
  -- What a record may be: the next change of the device in this state.
  abbrev pub IsNext : Db App → ChangeRecord → Type 0
  IsNext db rec =
      (tbl : Bytes) × (pk : Bytes) × (col : Bytes) × (value : SqlValue) × (kind : ChangeKind) × (rec
        ≡ authored env db tbl pk col value kind)

  -- From the one state to the other by authoring these changes.
  abbrev pub Authors : Db App → List ChangeRecord → Db App → Type 0
  Authors db [] db' = db' ≡ db
  Authors db (rec ∷ out) db' = IsNext db rec × Authors (author env db rec) out db'

  Authors-append :
      (db mid db' : Db App) (out more : List ChangeRecord)
      → Authors db out mid
      → Authors mid more db'
      → Authors db (out ++ more) db'
  Authors-append db mid db' [] more e a = subst (λ d. Authors d more db') e a
  Authors-append db mid db' (rec ∷ out) more (next, a) b =
      (next, Authors-append (author env db rec) mid db' out more a b)

  flush_cols-Authors :
      (db : Db App) (tbl pk : Bytes) (values : List (Bytes × SqlValue)) (cols : List Bytes)
      → let r = flush_cols env db tbl pk values cols in Authors db r.1 r.0
  unfolding flush_cols
  flush_cols-Authors db tbl pk values [] = refl
  flush_cols-Authors db tbl pk values (col ∷ cols) = elim (Option-cases (find col values)) [
    | inl absent ↦ rw (absent, flush_cols) (flush_cols-Authors db tbl pk values cols)
    | inr (v, there) ↦
        elim (Bool-cases
          (cell_matches db.crdt (tbl, (pk, col)) (to_storage v).0 (to_storage v).1)) [
            | inl same ↦ rw (there, flush_cols, same) (flush_cols-Authors db tbl pk values cols)
            | inr changed ↦
                let rec = authored env db tbl pk col v cell in
                rw (there, flush_cols, changed)
                  (
                    (tbl, pk, col, v, cell, refl),
                    flush_cols-Authors (author env db rec) tbl pk values cols,
                  )
          ]
  ]

  flush_row-Authors :
      (db : Db App) (spec : TableSpec) (key : RowKey) (op : LocalOpKind)
      → let r = flush_row env db spec key op in Authors db r.1 r.0
  unfolding flush_row
  flush_row-Authors db spec (tbl, pk) op =
      elim (Option-cases (env.app_tables.read_row db.app spec pk)) [
        | inr (values, there) ↦
            rw (there, flush_row) (flush_cols-Authors db tbl pk values spec.cols)
        | inl gone ↦ elim (op-cases op) [
          | inl up ↦ rw (gone, flush_row, up) refl
          | inr down ↦ rw (gone, flush_row, down) ((tbl, pk, [], null, deletion, refl), refl)
        ]
      ]

  pub flush_rows-Authors :
      (db : Db App) (ops : List (RowKey × LocalOpKind)) (order : List RowKey)
      → let r = flush_rows env db ops order in Authors db r.1 r.0
  unfolding flush_rows
  flush_rows-Authors db ops [] = refl
  flush_rows-Authors db ops ((tbl, pk) ∷ order) = elim (Option-cases (find tbl db.tables)) [
    | inl unknown ↦ rw (unknown, flush_rows) (flush_rows-Authors db ops order)
    | inr (spec, known) ↦
        let one = flush_row env db spec (tbl, pk) (final_op ops (tbl, pk)) in
        let rest = flush_rows env one.0 ops order in
        rw (known, flush_rows)
          (Authors-append db one.0 rest.0 one.1 rest.1
            (flush_row-Authors db spec (tbl, pk) (final_op ops (tbl, pk)))
            (flush_rows-Authors one.0 ops order))
  ]
