-- ===== src/Db/Local/Authored.antt =====
-- The changes that a flush authors: stamped in order, accepted by every peer, and in the log.
use orgsync.Base.{
  ◌^◌, ◌<◌, ◌≡◌, refl, sym, ap, ◌∙◌, subst, true, false, inl, inr, some, ◌∷◌, Bytes, Memᴰ, any,
  above, above_irrefl, not_above_of_above, not_above_trans, lt, compare_list-flip, Bool-cases,
  Option-cases, nat_ord, list_ord, pair_ord, arith,
}
use mathlib.Core.List.Memᴰ
use orgsync.Error.{ok}
use orgsync.Crypto.{Lawful}
use orgsync.Hlc
use orgsync.Hlc.{Hlc, u32_max, compare_hlc, to_hex}
use orgsync.Hlc.Hex.{compare-to_hex}
use orgsync.Hlc.Progress.{HasRoom, compare-tick, tick-IsValid}
use orgsync.Value.{SqlValue}
use orgsync.Change.{ChangeKind, ChangeRecord, sign_with, verify_author}
use orgsync.Change.Author.{verify_author-sign_with}
use orgsync.Db.{Env, Db}
use orgsync.Db.Tables.{ChangeRow, Crdt, change_row, same_ident, store_change, upsert, ingest}
use orgsync.Db.Tables.Merge.{IsMerged, rows, ingest-IsMerged}
use orgsync.Db.Tables.Members.{stamp_of_held, changes-ingest_new}
use orgsync.Db.Local.{authored, author}
use orgsync.Db.Local.Steps.{IsNext}

ingest_new :
    (crdt : Crdt) (rec : ChangeRecord)
    → any (same_ident (change_row rec)) crdt.changes ≡ false
    → ingest crdt rec ≡ upsert (store_change crdt rec).0 rec
unfolding ingest store_change
ingest_new crdt rec new = rw new

-- A later stamp has the greater hexadecimal form.
above-to_hex :
    (a b : Hlc)
    → Hlc.IsValid a
    → Hlc.IsValid b
    → compare_hlc a b ≡ lt
    → above (to_hex b) (to_hex a) ≡ true
above-to_hex a b va vb h =
    ground (arith, compare_list-flip (to_hex a) (to_hex b), compare-to_hex a b va vb, h)

module _ {App : Type 0} (env : Env App) where
  -- The clock is not behind any change of this device in the log, and the tables hold what the log
  -- says.
  pub record IsSound (db : Db App) : Type 0 where
    pub clock : Hlc.IsValid db.clock
    pub behind :
        (x : ChangeRow)
        → Memᴰ x (rows db.crdt)
        → x.origin ≡ db.device_id
        → above x.hlc (to_hex db.clock) ≡ false
    pub merged : IsMerged db.crdt

  authored-stamp :
      (db : Db App) (tbl pk col : Bytes) (value : SqlValue) (kind : ChangeKind)
      → let rec = authored env db tbl pk col value kind in
        (rec.origin ≡ db.device_id) × (rec.hlc ≡ Hlc.tick (env.now_ms db.readings) db.clock)
  unfolding authored sign_with
  authored-stamp db tbl pk col value kind = elim (Option-cases db.signer) [
    | inl unsigned ↦ rw (unsigned, authored) (refl, refl)
    | inr (secret, signed) ↦ rw (signed, authored) (refl, refl)
  ]

  pub next-stamp :
      (db : Db App) (rec : ChangeRecord)
      → IsNext env db rec
      → (rec.origin ≡ db.device_id) × (rec.hlc ≡ Hlc.tick (env.now_ms db.readings) db.clock)
  next-stamp db rec (tbl, pk, col, value, kind, e) =
      let (origin, hlc) = authored-stamp db tbl pk col value kind in
      (ap (λ (r : ChangeRecord). r.origin) e ∙ origin, ap (λ (r : ChangeRecord). r.hlc) e ∙ hlc)

  authored-signed :
      (db : Db App) (secret tbl pk col : Bytes) (value : SqlValue) (kind : ChangeKind)
      → Lawful env.crypto
      → db.signer ≡ some secret
      → db.device_id ≡ env.crypto.peer_id (env.crypto.public secret)
      → verify_author env.crypto (authored env db tbl pk col value kind) ≡ ok tt
  unfolding authored
  authored-signed db secret tbl pk col value kind law key own =
      rw (key, authored) (verify_author-sign_with env.crypto secret _ law own)

  pub next-signed :
      (db : Db App) (rec : ChangeRecord) (secret : Bytes)
      → Lawful env.crypto
      → db.signer ≡ some secret
      → db.device_id ≡ env.crypto.peer_id (env.crypto.public secret)
      → IsNext env db rec
      → verify_author env.crypto rec ≡ ok tt
  next-signed db rec secret law key own (tbl, pk, col, value, kind, e) =
      ap (verify_author env.crypto) e ∙ authored-signed db secret tbl pk col value kind law key own

  row-stamp : (rec : ChangeRecord) → above (change_row rec).hlc (to_hex rec.hlc) ≡ false
  unfolding change_row
  row-stamp rec = above_irrefl (to_hex rec.hlc)

  -- A stamp beyond the clock is in the log under no change of this device.
  not_held :
      (db : Db App) (rec : ChangeRecord)
      → IsSound db
      → rec.origin ≡ db.device_id
      → above (to_hex rec.hlc) (to_hex db.clock) ≡ true
      → any (same_ident (change_row rec)) db.crdt.changes ≡ false
  unfolding change_row
  not_held db rec sound origin over =
      elim (Bool-cases (any (same_ident (change_row rec)) db.crdt.changes)) [
        | inr new ↦ new
        | inl held ↦
            let (y, m, same) = stamp_of_held db.crdt (change_row rec) held in
            let mine : y.origin ≡ db.device_id = ap (λ s. s.1) same ∙ origin in
            let at : y.hlc ≡ to_hex rec.hlc = ap (λ s. s.0) same in
            let no : above y.hlc (to_hex db.clock) ≡ true =
              ap (λ h. above h (to_hex db.clock)) at ∙ over in
            absurd (ground (arith, sound.behind y m mine, no))
      ]

  pub author-IsSound :
      (db : Db App) (rec : ChangeRecord)
      → IsSound db
      → env.now_ms db.readings < 2 ^ 64
      → HasRoom db.clock
      → IsNext env db rec
      → IsSound (author env db rec)
        × (rows (author env db rec).crdt ≡ change_row rec ∷ rows db.crdt)
        × (compare_hlc db.clock rec.hlc ≡ lt)
  unfolding author
  author-IsSound db rec sound time room next =
      let (origin, hlc) = next-stamp db rec next in
      let later : compare_hlc db.clock rec.hlc ≡ lt =
        ap (compare_hlc db.clock) hlc ∙ compare-tick (env.now_ms db.readings) db.clock (inl room) in
      let valid : Hlc.IsValid rec.hlc =
        subst Hlc.IsValid (sym hlc)
          (tick-IsValid (env.now_ms db.readings) db.clock time sound.clock) in
      let over : above (to_hex rec.hlc) (to_hex db.clock) ≡ true =
        above-to_hex db.clock rec.hlc sound.clock valid later in
      let fresh = not_held db rec sound origin over in
      let same = ingest_new db.crdt rec fresh in
      let log = ap rows (sym same) ∙ changes-ingest_new db.crdt rec fresh in
      (
        record {
          clock = valid;
          behind = λ x m mine. elim (Memᴰ.cases_cons (subst (λ l. Memᴰ x l) log m)) [
            | inl e ↦ ap (λ (y : ChangeRow). above y.hlc (to_hex rec.hlc)) e ∙ row-stamp rec
            | inr old ↦
                not_above_trans x.hlc (to_hex db.clock) (to_hex rec.hlc) (sound.behind x old mine)
                  (not_above_of_above (to_hex rec.hlc) (to_hex db.clock) over)
          ];
          merged = subst IsMerged same (ingest-IsMerged db.crdt rec sound.merged);
        },
        log,
        later,
      )
