-- ===== src/Db/Open/Registered.antt =====
-- Bringing a table into replication.
use orgsync.Base.{
  ℕ, ◌≡◌, refl, sym, ap, ◌∙◌, true, false, ◌⊎◌, inl, inr, some, List, [], ◌∷◌, Bytes, Memᴰ, find,
  find-put_self, find-put_other, put, keep, ==_iff, ◌==◌, Bool-cases, arith, nat_ord, list_ord,
  pair_ord,
}
use mathlib.Core.List.Memᴰ
use orgsync.Error.{ok, err, schema}
use orgsync.Db.{TableSpec, upserted, LocalOp, Db}
use orgsync.Db.Open.{
  Catalog, is_key, only_key, other_cols, check_table, has_cells, staged_op, stage, adopt,
  register_table,
}

-- An operation that stages this row.
abbrev pub IsStaged : Bytes → Bytes → LocalOp → Type 0
IsStaged tbl pk op = (op.tbl ≡ tbl) × (op.pk ≡ pk) × (op.op ≡ upserted)

module _ {App : Type 0} where
  -- What registering a table leaves alone.
  pub record SameReplica (a b : Db App) : Type 0 where
    pub device_id : a.device_id ≡ b.device_id
    pub signer : a.signer ≡ b.signer
    pub require_signatures : a.require_signatures ≡ b.require_signatures
    pub readings : a.readings ≡ b.readings
    pub clock : a.clock ≡ b.clock
    pub crdt : a.crdt ≡ b.crdt
    pub app : a.app ≡ b.app
    pub guard : a.guard ≡ b.guard

  adopt-SameReplica :
      (db : Db App) (tbl : Bytes) (keys : List Bytes) → SameReplica (adopt db tbl keys) db
  unfolding adopt
  adopt-SameReplica db tbl [] = record {
    device_id = refl;
    signer = refl;
    require_signatures = refl;
    readings = refl;
    clock = refl;
    crdt = refl;
    app = refl;
    guard = refl;
  }
  adopt-SameReplica db tbl (pk ∷ keys) = elim (Bool-cases (has_cells db.crdt tbl pk)) [
    | inl held ↦ rw held (adopt-SameReplica db tbl keys)
    | inr bare ↦ rw bare (
        let rest = adopt-SameReplica (stage db tbl pk) tbl keys in
        record {
          device_id = rest.device_id;
          signer = rest.signer;
          require_signatures = rest.require_signatures;
          readings = rest.readings;
          clock = rest.clock;
          crdt = rest.crdt;
          app = rest.app;
          guard = rest.guard;
        })
  ]

  -- Staged edits stay staged.
  mem-adopt_old :
      (db : Db App) (tbl : Bytes) (keys : List Bytes) {op : LocalOp}
      → Memᴰ op db.local_ops
      → Memᴰ op (adopt db tbl keys).local_ops
  unfolding adopt
  mem-adopt_old db tbl [] m = m
  mem-adopt_old db tbl (pk ∷ keys) m = elim (Bool-cases (has_cells db.crdt tbl pk)) [
    | inl held ↦ rw held (mem-adopt_old db tbl keys m)
    | inr bare ↦ rw bare (mem-adopt_old (stage db tbl pk) tbl keys (Memᴰ.append_left _ m))
  ]

  mem-adopt_new :
      (db : Db App) (tbl : Bytes) (keys : List Bytes) {pk : Bytes}
      → Memᴰ pk keys
      → has_cells db.crdt tbl pk ≡ false
      → (op : LocalOp) × Memᴰ op (adopt db tbl keys).local_ops × IsStaged tbl pk op
  unfolding adopt
  mem-adopt_new db tbl [] m none_held = elim m [ ]
  mem-adopt_new db tbl (key ∷ keys) {pk} m none_held = elim (Memᴰ.cases_cons m) [
    | inl same ↦
        let bare : has_cells db.crdt tbl key ≡ false =
          ap (has_cells db.crdt tbl) (sym same) ∙ none_held in
        rw bare (
          staged_op db tbl key,
          mem-adopt_old (stage db tbl key) tbl keys
              (Memᴰ.append_right db.local_ops (Memᴰ.head refl)),
          (refl, sym same, refl),
        )
    | inr t ↦ elim (Bool-cases (has_cells db.crdt tbl key)) [
      | inl held ↦ rw held (mem-adopt_new db tbl keys t none_held)
      | inr bare ↦ rw bare (mem-adopt_new (stage db tbl key) tbl keys t none_held)
    ]
  ]

  -- Nothing else is staged.
  mem-adopt :
      (db : Db App) (tbl : Bytes) (keys : List Bytes) {op : LocalOp}
      → Memᴰ op (adopt db tbl keys).local_ops
      → Memᴰ op db.local_ops
        ⊎ (Memᴰ op.pk keys × IsStaged tbl op.pk op × (has_cells db.crdt tbl op.pk ≡ false))
  unfolding adopt
  mem-adopt db tbl [] m = inl m
  mem-adopt db tbl (key ∷ keys) {op} m = elim (Bool-cases (has_cells db.crdt tbl key)) [
    | inl held ↦ elim (mem-adopt db tbl keys (rw held at m)) [
      | inl old ↦ inl old
      | inr (mk, staged, bare) ↦ inr (Memᴰ.tail mk, staged, bare)
    ]
    | inr bare ↦ elim (mem-adopt (stage db tbl key) tbl keys (rw bare at m)) [
      | inr (mk, staged, none_held) ↦ inr (Memᴰ.tail mk, staged, none_held)
      | inl old ↦ elim (Memᴰ.append_cases db.local_ops old) [
        | inl before ↦ inl before
        | inr now ↦
            let at : op ≡ staged_op db tbl key = Memᴰ.eq_of_singleton now in
            let pk : op.pk ≡ key = ap (λ (o : LocalOp). o.pk) at in
            inr (
              Memᴰ.head pk,
              (ap (λ (o : LocalOp). o.tbl) at, refl, ap (λ (o : LocalOp). o.op) at),
              ap (has_cells db.crdt tbl) pk ∙ bare,
            )
      ]
    ]
  ]

-- What holds of a replica once a table has been brought in.
pub record IsRegistered {App : Type 0} (cat : Catalog App) (tbl pk_col : Bytes) (db db' : Db App)
    (spec : TableSpec) : Type 0 where
  pub known : find tbl db'.tables ≡ some spec
  pub others : (k : Bytes) → (tbl == k) ≡ false → find k db'.tables ≡ find k db.tables
  pub same : SameReplica db' db
  pub kept : (op : LocalOp) → Memᴰ op db.local_ops → Memᴰ op db'.local_ops
  pub adopted :
      (pk : Bytes)
      → Memᴰ pk (cat.row_keys db.app spec)
      → has_cells db.crdt tbl pk ≡ false
      → (op : LocalOp) × Memᴰ op db'.local_ops × IsStaged tbl pk op
  pub no_other :
      (op : LocalOp)
      → Memᴰ op db'.local_ops
      → Memᴰ op db.local_ops
        ⊎ (Memᴰ op.pk (cat.row_keys db.app spec)
            × IsStaged tbl op.pk op
            × (has_cells db.crdt tbl op.pk ≡ false))

-- The specification of a table with this primary key.
abbrev pub spec_of : Bytes → Bytes → List (Bytes × ℕ) → TableSpec
spec_of tbl pk_col info = record { name = tbl; pk_col = pk_col; cols = other_cols pk_col info }

-- The primary key is this one column.
abbrev pub HasKey : Bytes → List (Bytes × ℕ) → Type 0
HasKey pk_col info = (column : Bytes × ℕ) × (keep is_key info ≡ column ∷ []) × (column.0 ≡ pk_col)

-- What a table comes to, by what its primary key is made of.
abbrev Checked : Bytes → Bytes → List (Bytes × ℕ) → Type 0
Checked tbl pk_col info =
    (HasKey pk_col info × (check_table tbl pk_col info ≡ ok (spec_of tbl pk_col info)))
    ⊎ ((¬ HasKey pk_col info) × (check_table tbl pk_col info ≡ err schema))

named :
    (tbl pk_col found : Bytes) (info : List (Bytes × ℕ))
    → found ≡ pk_col
    → ok (spec_of tbl found info) ≡ ok (spec_of tbl pk_col info)
named tbl pk_col found info e = ap (λ k. ok (spec_of tbl k info)) e

check_keys :
    (tbl pk_col : Bytes) (c : Bytes × ℕ) (info keys : List (Bytes × ℕ))
    → keep is_key (c ∷ info) ≡ keys
    → Checked tbl pk_col (c ∷ info)
unfolding check_table only_key
check_keys tbl pk_col c info [] e =
    inr ((λ (column, one, _). let bad = sym e ∙ one in absurd (cc)), rw e)
check_keys tbl pk_col c info (k ∷ []) e = elim (Bool-cases (k.0 == pk_col)) [
  | inl same ↦
      let at : k.0 ≡ pk_col = (==_iff k.0 pk_col).0 same in
      inl ((k, e, at), rw (e, same) (named tbl pk_col k.0 (c ∷ info) at))
  | inr other ↦ inr (
    (λ (column, one, at).
        let first : k ≡ column = let both = sym e ∙ one in cc in
        let hit : (k.0 == pk_col) ≡ true =
          (==_iff k.0 pk_col).1 (ap (λ (x : Bytes × ℕ). x.0) first ∙ at) in
        absurd (ground arith)),
    rw (e, other),
  )
]
check_keys tbl pk_col c info (k ∷ k' ∷ keys) e =
    inr ((λ (column, one, _). let bad = sym e ∙ one in absurd (cc)), rw e)

check_table_lem : (tbl pk_col : Bytes) (info : List (Bytes × ℕ)) → Checked tbl pk_col info
unfolding check_table keep
check_table_lem tbl pk_col [] = inr ((λ (column, one, _). absurd (cc)), refl)
check_table_lem tbl pk_col (c ∷ info) = check_keys tbl pk_col c info (keep is_key (c ∷ info)) refl

tables-adopt :
    {App : Type 0} (db : Db App) (tbl : Bytes) (keys : List Bytes)
    → (adopt db tbl keys).tables ≡ db.tables
unfolding adopt
tables-adopt db tbl [] = refl
tables-adopt db tbl (pk ∷ keys) = elim (Bool-cases (has_cells db.crdt tbl pk)) [
  | inl held ↦ rw held (tables-adopt db tbl keys)
  | inr bare ↦ rw bare (tables-adopt (stage db tbl pk) tbl keys)
]

module _ {App : Type 0} (cat : Catalog App) where
  -- Registering succeeds exactly when the table is there with this one column as its primary key,
  -- and else it is the error about the schema. After it the table is known with its other columns,
  -- every row of it that has no cell is staged, nothing else is, and the rest of the replica is as
  -- it was.
  pub register_table_lem :
      (db : Db App) (tbl pk_col : Bytes)
      → let info = cat.table_info db.app tbl in
        (HasKey pk_col info
          × ((db' : Db App) × (register_table cat db tbl pk_col ≡ ok db')
              × IsRegistered cat tbl pk_col db db' (spec_of tbl pk_col info)))
        ⊎ ((¬ HasKey pk_col info) × (register_table cat db tbl pk_col ≡ err schema))
  unfolding register_table
  register_table_lem db tbl pk_col =
      let info = cat.table_info db.app tbl in
      let spec = spec_of tbl pk_col info in
      elim (check_table_lem tbl pk_col info) [
        | inr (unfit, e) ↦ inr (unfit, rw e)
        | inl (yes_key, e) ↦
            let keys = cat.row_keys db.app spec in
            let adopted = adopt db tbl keys in
            let same = adopt-SameReplica db tbl keys in
            inl (
              yes_key,
              (
                record adopted { tables = put tbl spec adopted.tables },
                rw e,
                record {
                  known = find-put_self tbl spec adopted.tables;
                  others = λ k other.
                      find-put_other tbl k spec adopted.tables other
                      ∙ ap (find k) (tables-adopt db tbl keys);
                  same = record {
                    device_id = same.device_id;
                    signer = same.signer;
                    require_signatures = same.require_signatures;
                    readings = same.readings;
                    clock = same.clock;
                    crdt = same.crdt;
                    app = same.app;
                    guard = same.guard;
                  };
                  kept = λ op m. mem-adopt_old db tbl keys m;
                  adopted = λ pk m none_held. mem-adopt_new db tbl keys m none_held;
                  no_other = λ op m. mem-adopt db tbl keys m;
                },
              ),
            )
      ]
