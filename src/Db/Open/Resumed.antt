-- ===== src/Db/Open/Resumed.antt =====
-- A reopened replica resumes its clock where its own changes ended.
use orgsync.Base.{
  ℕ, ◌≡◌, refl, sym, ap, ◌∙◌, subst, true, false, ◌⊎◌, inl, inr, none, some, List, [], ◌∷◌, Bytes,
  codes, Memᴰ, find, compare_list, above, above_irrefl, not_above_of_above, not_above_trans, ==_iff,
  ◌==◌, Bool-cases, arith, nat_ord, list_ord, pair_ord,
}
use mathlib.Core.List.Memᴰ
use orgsync.Error.{ok}
use orgsync.Hlc
use orgsync.Hlc.{Hlc, zero_hlc, to_hex, from_hex}
use orgsync.Hlc.Hex.{from_hex-to_hex}
use orgsync.Db.{LocalOp, Env, Db}
use orgsync.Db.Tables.{ChangeRow, Crdt, change_row}
use orgsync.Db.Tables.Merge.{IsMerged, rows}
use orgsync.Db.Sync.Decode.{IsStored}
use orgsync.Db.Local.Authored.{IsSound}
use orgsync.Db.Open.Registered.{SameReplica, IsRegistered, HasKey, spec_of, register_table_lem}
use orgsync.Db.Open.{
  Catalog, File, max_hlc_of, resumed, register_table, loaded, from_connection, open_authenticated,
}

-- The last change of the device, and none of its changes is above it.
record IsLast (device : Bytes) (log : List ChangeRow) (row : ChangeRow) : Type 0 where
  logged : Memᴰ row log
  mine : row.origin ≡ device
  last : (x : ChangeRow) → Memᴰ x log → x.origin ≡ device → above x.hlc row.hlc ≡ false

abbrev HasNone : Bytes → List ChangeRow → Type 0
HasNone device log = (x : ChangeRow) → Memᴰ x log → ¬ (x.origin ≡ device)

abbrev Found : Bytes → List ChangeRow → Type 0
Found device log =
    ((max_hlc_of device log ≡ none) × HasNone device log)
    ⊎ ((row : ChangeRow) × (max_hlc_of device log ≡ some row.hlc) × IsLast device log row)

module _ (device : Bytes) (row : ChangeRow) (log : List ChangeRow) where
  skipped : (row.origin == device) ≡ false → Found device log → Found device (row ∷ log)
  unfolding max_hlc_of
  skipped other (inl (e, none_there)) = inl (
    rw other e,
    λ x m mine. elim (Memᴰ.cases_cons m) [
      | inl same ↦
          let at : row.origin ≡ device = ap (λ (y : ChangeRow). y.origin) (sym same) ∙ mine in
          absurd (ground (arith, (==_iff row.origin device).1 at, other))
      | inr t ↦ none_there x t mine
    ],
  )
  skipped other (inr (last, e, l)) = inr (
    last,
    rw other e,
    record {
      logged = Memᴰ.tail l.logged;
      mine = l.mine;
      last = λ x mx at. elim (Memᴰ.cases_cons mx) [
        | inl same ↦
            let here : row.origin ≡ device = ap (λ (y : ChangeRow). y.origin) (sym same) ∙ at in
            absurd (ground (arith, (==_iff row.origin device).1 here, other))
        | inr t ↦ l.last x t at
      ];
    },
  )

  taken : (row.origin == device) ≡ true → Found device log → Found device (row ∷ log)
  unfolding max_hlc_of
  taken own (inl (e, none_there)) = inr (
    row,
    rw (own, e),
    record {
      logged = Memᴰ.head refl;
      mine = (==_iff row.origin device).0 own;
      last = λ x m mine. elim (Memᴰ.cases_cons m) [
        | inl same ↦ ap (λ (y : ChangeRow). above y.hlc row.hlc) same ∙ above_irrefl row.hlc
        | inr t ↦ absurd (none_there x t mine)
      ];
    },
  )
  taken own (inr (last, e, l)) = elim (Bool-cases (above row.hlc last.hlc)) [
    | inl higher ↦ inr (
      row,
      rw (own, e, higher),
      record {
        logged = Memᴰ.head refl;
        mine = (==_iff row.origin device).0 own;
        last = λ x mx at. elim (Memᴰ.cases_cons mx) [
          | inl same ↦ ap (λ (y : ChangeRow). above y.hlc row.hlc) same ∙ above_irrefl row.hlc
          | inr t ↦
              not_above_trans x.hlc last.hlc row.hlc (l.last x t at)
                (not_above_of_above row.hlc last.hlc higher)
        ];
      },
    )
    | inr lower ↦ inr (
      last,
      rw (own, e, lower),
      record {
        logged = Memᴰ.tail l.logged;
        mine = l.mine;
        last = λ x mx at. elim (Memᴰ.cases_cons mx) [
          | inl same ↦ ap (λ (y : ChangeRow). above y.hlc last.hlc) same ∙ lower
          | inr t ↦ l.last x t at
        ];
      },
    )
  ]

max_hlc_of_lem : (device : Bytes) (log : List ChangeRow) → Found device log
unfolding max_hlc_of
max_hlc_of_lem device [] = inl (refl, λ x m mine. elim m [ ])
max_hlc_of_lem device (row ∷ log) = elim (Bool-cases (row.origin == device)) [
  | inl own ↦ taken device row log own (max_hlc_of_lem device log)
  | inr other ↦ skipped device row log other (max_hlc_of_lem device log)
]

-- The clock that is resumed.
resumed-IsValid :
    (device : Bytes) (log : List ChangeRow)
    → ((x : ChangeRow) → Memᴰ x log → IsStored x)
    → let clock = resumed (max_hlc_of device log) in
      Hlc.IsValid clock
      × ((x : ChangeRow) → Memᴰ x log → x.origin ≡ device → above x.hlc (to_hex clock) ≡ false)
unfolding resumed change_row
resumed-IsValid device log stored = elim (max_hlc_of_lem device log) [
  | inl (e, none_there) ↦ rw e (omega arith, λ x m mine. absurd (none_there x m mine))
  | inr (row, e, l) ↦
      let (rec, valid, same) = stored row l.logged in
      let at : row.hlc ≡ to_hex rec.hlc = ap (λ (y : ChangeRow). y.hlc) same in
      rw (e, at, resumed, from_hex-to_hex rec.hlc valid.hlc)
        (valid.hlc, λ x m mine. ap (above x.hlc) (sym at) ∙ l.last x m mine)
]

-- Tables of the app that can be brought in.
abbrev pub IsLaidOut : {App : Type 0} → Catalog App → App → Type 0
IsLaidOut cat app =
    HasKey (codes "id") (cat.table_info app (codes "messages"))
    × HasKey (codes "id") (cat.table_info app (codes "records"))

module _ {App : Type 0} (env : Env App) (cat : Catalog App) where
  loaded-IsSound :
      (file : File App) (device : Bytes) (readings : ℕ)
      → IsMerged file.crdt
      → ((x : ChangeRow) → Memᴰ x (rows file.crdt) → IsStored x)
      → IsSound env (loaded cat file device readings)
  unfolding loaded
  loaded-IsSound file device readings merged stored =
      let (valid, behind) = resumed-IsValid device (rows file.crdt) stored in
      record { clock = valid; behind = behind; merged = merged }

  SameReplica-IsSound : (a b : Db App) → SameReplica a b → IsSound env b → IsSound env a
  SameReplica-IsSound a b same sound = record {
    clock = subst Hlc.IsValid (sym same.clock) sound.clock;
    behind = λ x m mine.
        ap (λ (h : Hlc). above x.hlc (to_hex h)) same.clock
        ∙ sound.behind x (subst (λ (c : Crdt). Memᴰ x (rows c)) same.crdt m)
            (mine ∙ same.device_id);
    merged = subst IsMerged (sym same.crdt) sound.merged;
  }

  -- What a reopened replica is.
  pub record IsReopened (file : File App) (device secret : Bytes) (db : Db App) : Type 0 where
    pub sound : IsSound env db
    pub crdt : db.crdt ≡ file.crdt
    pub app : db.app ≡ cat.app_schema file.app
    pub guard : db.guard ≡ file.guard
    pub messages :
        find (codes "messages") db.tables
        ≡ some (
            spec_of
              (codes "messages")
              (codes "id")
              (cat.table_info (cat.app_schema file.app) (codes "messages")))
    pub records :
        find (codes "records") db.tables
        ≡ some (
            spec_of
              (codes "records")
              (codes "id")
              (cat.table_info (cat.app_schema file.app) (codes "records")))
    pub tables :
        (k : Bytes)
        → (codes "messages" == k) ≡ false
        → (codes "records" == k) ≡ false
        → find k db.tables ≡ find k file.synced
    pub device_id : db.device_id ≡ device
    pub signer : db.signer ≡ some secret
    pub require_signatures : db.require_signatures ≡ true
    pub staged : (op : LocalOp) → Memᴰ op file.local_ops → Memᴰ op db.local_ops

  registered :
      (db : Db App) (tbl : Bytes)
      → HasKey (codes "id") (cat.table_info db.app tbl)
      → (db' : Db App) × (register_table cat db tbl (codes "id") ≡ ok db')
        × IsRegistered cat tbl
            (codes "id")
            db
            db'
            (spec_of tbl (codes "id") (cat.table_info db.app tbl))
  registered db tbl key = elim (register_table_lem cat db tbl (codes "id")) [
    | inl (_, (db', e, r)) ↦ (db', e, r)
    | inr (unfit, _) ↦ absurd (unfit key)
  ]

  -- The file of a replica opens, if its app tables can be laid out and its log is of stored rows that
  -- its cells and tombstones agree with. Then the log, cells, tombstones and vector are the file's,
  -- its app rows are the file's with the app's schema laid out, the guard is the file's, the
  -- messages and records tables are known as they are laid out and every other table as in the file,
  -- edits that were staged are still staged, it signs with its secret and demands signatures, and its
  -- clock is behind no change of the device in the log.
  pub open_authenticated_lem :
      (file : File App) (device secret : Bytes) (readings : ℕ)
      → IsLaidOut cat (cat.app_schema file.app)
      → IsMerged file.crdt
      → ((x : ChangeRow) → Memᴰ x (rows file.crdt) → IsStored x)
      → (db : Db App) × (open_authenticated cat file device secret readings ≡ ok db)
        × IsReopened file device secret db
  unfolding open_authenticated from_connection loaded compare_list
  open_authenticated_lem file device secret readings (messages, records) merged stored =
      let start = loaded cat file device readings in
      let (one, e, r) = registered start (codes "messages") messages in
      let s = r.same in
      let (two, f, q) = registered one (codes "records") (
        subst (λ app. HasKey (codes "id") (cat.table_info app (codes "records"))) (sym s.app)
          records) in
      let t = q.same in
      let sound =
        SameReplica-IsSound two one t
          (SameReplica-IsSound one start s (loaded-IsSound file device readings merged stored)) in
      (
        record two { signer = some secret; require_signatures = true },
        rw (e, f),
        record {
          sound = record { clock = sound.clock; behind = sound.behind; merged = sound.merged };
          crdt = t.crdt ∙ s.crdt;
          app = t.app ∙ s.app;
          guard = t.guard ∙ s.guard;
          messages = q.others (codes "messages") refl ∙ r.known;
          records =
              q.known
              ∙ ap
                  (λ app.
                    some (
                      spec_of (codes "records") (codes "id")
                        (cat.table_info app (codes "records"))))
                  s.app;
          tables = λ k not_messages not_records. q.others k not_records ∙ r.others k not_messages;
          device_id = t.device_id ∙ s.device_id;
          signer = refl;
          require_signatures = refl;
          staged = λ op m. q.kept op (r.kept op m);
        },
      )
