-- ===== src/Db/Sync/Gap.antt =====
-- A change that is pushed raises the version vector past what the replica has not been sent.
use orgsync.Base.{
  ℕ, ◌≡◌, refl, sym, ap, ◌∙◌, true, false, inl, inr, none, some, List, [], ◌∷◌, Bytes, Memᴰ, any,
  find, put, find-put, sort_by, insert_sorted, is_gt, above, ◌==◌, ==_iff, Bool-cases, Option-cases,
  if◌then◌else◌, keep_holds, nat_ord, list_ord, pair_ord, arith,
}
use orgsync.Hlc
use orgsync.Hlc.{Hlc, zero_hlc, compare_hlc, to_hex, from_hex}
use orgsync.Hlc.Hex.{from_hex-to_hex}
use orgsync.Change.{ChangeRecord, VersionVector, get, observe}
use orgsync.Db.{Env, Db}
use orgsync.Db.Tables.{
  ChangeRow, Crdt, change_row, same_ident, store_change, upsert, upsert_cell, upsert_tombstone,
  ingest, ingest_all, bump_vv,
}
use orgsync.Db.Apply.{
  Batch, no_outcome, is_screened, screen, mark, raise_vv, turn, turns, materialize_all, bump_all,
  merge_sorted, merge_passed, apply_remote,
}
use orgsync.Db.Apply.Frame.{turns-keeps, materialize_all-SameBut, crdt-turns}
use orgsync.Db.Sync.{vector_of, version_vector, ask, asked, is_missing, page}
use orgsync.Db.Tables.Merge.{rows}
use orgsync.Db.Sync.Page.{mem-page}

-- The greater of a stamp and zero.
abbrev raised : Hlc → Hlc
raised h = if is_gt (compare_hlc h zero_hlc) then h else zero_hlc

raised_same : (h : Hlc) → raised h ≡ h
unfolding compare_hlc
raised_same h = elim (Bool-cases (is_gt (compare_hlc h zero_hlc))) [
  | inl over ↦ rw over
  | inr under ↦
      let wall : 0 ≡ h.wall_ms = ground arith in
      let counter : 0 ≡ h.counter = ground arith in
      rw under (λ i. record { wall_ms = wall i; counter = counter i })
]

find-ask :
    (vv : VersionVector) (o : Bytes) (h : Hlc)
    → find o vv ≡ some h
    → find o (ask vv) ≡ some (to_hex h)
unfolding find
find-ask [] o h e = absurd (cc)
find-ask ((j, k) ∷ vv) o h e = elim (Bool-cases (j == o)) [
  | inl same ↦
      let found : some k ≡ some h = rw same at e in
      let value : k ≡ h = cc in rw same (ap (λ z. some (to_hex z)) value)
  | inr other ↦ rw other (find-ask vv o h (rw other at e))
]

find-observe_self :
    (vv : VersionVector) (o : Bytes) (h : Hlc) → find o vv ≡ none → find o (observe vv o h) ≡ some h
unfolding observe get
find-observe_self vv o h e =
    let own = (==_iff o o).1 refl in rw (find-put, own, e, get) (ap some (raised_same h))

find-observe_other :
    (vv : VersionVector) (o j : Bytes) (h : Hlc)
    → (j == o) ≡ false
    → find o (observe vv j h) ≡ find o vv
unfolding observe
find-observe_other vv o j h apart = rw (find-put, apart)

vector_of-put :
    (vv : VersionVector) (rows : List (Bytes × Bytes)) (o t : Bytes) (h : Hlc)
    → find o vv ≡ none
    → find o rows ≡ none
    → from_hex t ≡ some h
    → find o (vector_of vv (put o t rows)) ≡ some h
unfolding vector_of put find
vector_of-put vv [] o t h fresh absent read = rw (read, vector_of) (find-observe_self vv o h fresh)
vector_of-put vv ((j, w) ∷ rows) o t h fresh absent read = elim (Bool-cases (j == o)) [
  | inl same ↦ let no : some w ≡ none = rw same at absent in absurd (cc)
  | inr apart ↦ elim (Option-cases (from_hex w)) [
    | inl junk ↦
        rw (apart, junk, vector_of) (vector_of-put vv rows o t h fresh (rw apart at absent) read)
    | inr (k, good) ↦
        rw (apart, good, vector_of)
          (vector_of-put (observe vv j k) rows o t h (find-observe_other vv o j k apart ∙ fresh)
            (rw apart at absent) read)
  ]
]

asked-held : (vv : VersionVector) (o : Bytes) (h : Hlc) → find o vv ≡ some h → asked vv o ≡ to_hex h
asked-held vv o h e = ground (arith, find-ask vv o h e)

vv-ingest : (crdt : Crdt) (rec : ChangeRecord) → (ingest crdt rec).vv ≡ crdt.vv
unfolding ingest store_change upsert upsert_cell upsert_tombstone
vv-ingest crdt rec = ground arith

module _ {App : Type 0} (env : Env App) where
  vv_max-mark : (b : Batch App) (rec : ChangeRecord) → (mark env b rec).vv_max ≡ b.vv_max
  unfolding mark
  vv_max-mark b rec = ground arith

  vv_max-turn :
      (b : Batch App) (rec : ChangeRecord)
      → any (same_ident (change_row rec)) b.db.crdt.changes ≡ false
      → (turn env b rec).vv_max ≡ raise_vv env b.vv_max rec
  unfolding turn store_change
  vv_max-turn b rec new = rw (new, vv_max-mark)

  abbrev start : Db App → ℕ → Batch App
  start db rejected = record {
    db = record db { guard = 1 };
    outcome = record no_outcome { rejected = rejected };
    dirty = [];
    vv_max = [];
  }

  vv_max-turns :
      (db : Db App) (n : ℕ) (rec : ChangeRecord)
      → any (same_ident (change_row rec)) db.crdt.changes ≡ false
      → (turns env (start db n) (rec ∷ [])).vv_max ≡ (rec.origin, rec.hlc) ∷ []
  unfolding turns raise_vv find put
  vv_max-turns db n rec new =
      vv_max-turn (start db n) rec new ∙ ap (λ h. (rec.origin, h) ∷ []) (raised_same rec.hlc)

  vv-turns :
      (db : Db App) (n : ℕ) (rec : ChangeRecord)
      → (turns env (start db n) (rec ∷ [])).db.crdt.vv ≡ db.crdt.vv
  vv-turns db n rec =
      ap (λ (c : Crdt). c.vv) (crdt-turns env (start db n) (rec ∷ []))
      ∙ unfold ingest_all in vv-ingest db.crdt rec

  vv-bump :
      (crdt : Crdt) (o : Bytes) (h : Hlc)
      → find o crdt.vv ≡ none
      → (bump_all env crdt ((o, h) ∷ [])).vv ≡ put o (to_hex h) crdt.vv
  unfolding bump_all bump_vv
  vv-bump crdt o h absent = rw (absent, bump_vv)

  -- The vector's row of the origin is the stamp of the change.
  vv-merge_sorted :
      (db : Db App) (n : ℕ) (rec : ChangeRecord)
      → any (same_ident (change_row rec)) db.crdt.changes ≡ false
      → find rec.origin db.crdt.vv ≡ none
      → (merge_sorted env db (rec ∷ []) n).0.crdt.vv ≡ put rec.origin (to_hex rec.hlc) db.crdt.vv
  unfolding merge_sorted sort_by insert_sorted
  vv-merge_sorted db n rec new absent =
      let done = turns env (start db n) (rec ∷ []) in
      let db' = materialize_all env done.db done.dirty in
      let kept : db'.crdt ≡ done.db.crdt =
        (materialize_all-SameBut env done.db done.dirty
          (turns-keeps env (start db n) (rec ∷ [])).0).crdt in
      let vv : db'.crdt.vv ≡ db.crdt.vv = ap (λ (c : Crdt). c.vv) kept ∙ vv-turns db n rec in
      let raise : done.vv_max ≡ (rec.origin, rec.hlc) ∷ [] = vv_max-turns db n rec new in
      ap (λ m. (bump_all env db'.crdt m).vv) raise
      ∙ vv-bump db'.crdt rec.origin rec.hlc (ap (find rec.origin) vv ∙ absent)
      ∙ ap (put rec.origin (to_hex rec.hlc)) vv

  vv-apply_remote :
      (b : Db App) (rec : ChangeRecord)
      → is_screened env b rec ≡ true
      → any (same_ident (change_row rec)) b.crdt.changes ≡ false
      → find rec.origin b.crdt.vv ≡ none
      → (apply_remote env b (rec ∷ [])).0.crdt.vv ≡ put rec.origin (to_hex rec.hlc) b.crdt.vv
  unfolding apply_remote screen merge_passed
  vv-apply_remote b rec screened new absent =
      rw screened (vv-merge_sorted b (screen env b (rec ∷ [])).1 rec new absent)

  -- A new change, of an origin that the replica's version vector does not name yet, is pushed to it
  -- alone. No peer's answer to the vector that it has then holds a change of that origin up to the
  -- pushed one, whether or not the replica has it.
  pub page-pushed :
      (b : Db App) (rec : ChangeRecord) (a : Crdt) (limit : ℕ) (x : ChangeRow)
      → Hlc.IsValid rec.hlc
      → is_screened env b rec ≡ true
      → any (same_ident (change_row rec)) b.crdt.changes ≡ false
      → find rec.origin b.crdt.vv ≡ none
      → x.origin ≡ rec.origin
      → above x.hlc (to_hex rec.hlc) ≡ false
      → ¬ (Memᴰ x (page a (version_vector (apply_remote env b (rec ∷ [])).0.crdt) limit))
  unfolding version_vector
  page-pushed b rec a limit x valid screened new absent same under m =
      let vv = version_vector (apply_remote env b (rec ∷ [])).0.crdt in
      let named : find rec.origin vv ≡ some rec.hlc =
        ap (λ l. find rec.origin (vector_of [] l)) (vv-apply_remote b rec screened new absent)
        ∙ vector_of-put [] b.crdt.vv rec.origin (to_hex rec.hlc) rec.hlc (unfold find in refl)
            absent (from_hex-to_hex rec.hlc valid) in
      let wanted : is_missing vv x ≡ true =
        keep_holds (is_missing vv) (rows a) (mem-page a vv limit x m) in
      let limit_is : asked vv x.origin ≡ to_hex rec.hlc =
        ap (asked vv) same ∙ asked-held vv rec.origin rec.hlc named in
      let over : above x.hlc (to_hex rec.hlc) ≡ true = ap (above x.hlc) (sym limit_is) ∙ wanted in
      cc
