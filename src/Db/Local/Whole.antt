-- ===== src/Db/Local/Whole.antt =====
-- `flush_local` as a whole.
use orgsync.Base.{
  ℕ, ◌+◌, ◌^◌, ◌<◌, ◌≤◌, ◌≡◌, refl, sym, ap, ◌∙◌, subst, false, some, List, [], ◌∷◌, map, Bytes,
  Memᴰ, length, keep, ltb, above, nat_ord, list_ord, pair_ord, arith,
}
use orgsync.Error.{ok}
use orgsync.Crypto.{Lawful}
use orgsync.Hlc
use orgsync.Hlc.{Hlc, u32_max, to_hex}
use orgsync.Hlc.Progress.{Ascending}
use orgsync.Change.{ChangeRecord, verify_author}
use orgsync.Db.{Env, LocalOp, Db}
use orgsync.Db.Tables.{change_row, bump_vv}
use orgsync.Db.Tables.Merge.{rows}
use orgsync.Db.Apply.Frame.{SameTables}
use orgsync.Db.Converge.{IsMerged-SameTables}
use orgsync.Db.Local.{
  max_id, first_seen, final_ops, flush_rows, bump_own, flush_staged, flush_local,
}
use orgsync.Db.Local.Steps.{Authors, flush_rows-Authors}
use orgsync.Db.Local.Authored.{IsSound}
use orgsync.Db.Local.Flushed.{Authors-SameSelf, Authors-signed, Authors-IsLogged}

-- Every staged operation is up to the greatest id.
nothing_left :
    (n : ℕ) (staged : List LocalOp)
    → max_id staged ≤ n
    → keep (λ (o : LocalOp). ltb n o.id) staged ≡ []
unfolding max_id keep
nothing_left n [] h = refl
nothing_left n (op ∷ staged) h =
    let done : ltb n op.id ≡ false = ground arith in rw done (nothing_left n staged (omega arith))

module _ {App : Type 0} (env : Env App) where
  -- The end of the flush: only the staged operations and the version vector change.
  record SameLog (db' db : Db App) : Type 0 where
    tables : SameTables db'.crdt db.crdt
    clock : db'.clock ≡ db.clock
    device_id : db'.device_id ≡ db.device_id

  bump_own-SameLog : (db : Db App) (out : List ChangeRecord) → SameLog (bump_own env db out) db
  unfolding bump_own bump_vv
  bump_own-SameLog db [] = record {
    tables = record { changes = refl; next_seq = refl; cells = refl; tombstones = refl };
    clock = refl;
    device_id = refl;
  }
  bump_own-SameLog db (rec ∷ out) = record {
    tables = record { changes = refl; next_seq = refl; cells = refl; tombstones = refl };
    clock = refl;
    device_id = refl;
  }

  local_ops-bump_own :
      (db : Db App) (out : List ChangeRecord) → (bump_own env db out).local_ops ≡ db.local_ops
  unfolding bump_own
  local_ops-bump_own db [] = refl
  local_ops-bump_own db (rec ∷ out) = refl

  SameLog-refl : (db : Db App) → SameLog db db
  SameLog-refl db = record {
    tables = record { changes = refl; next_seq = refl; cells = refl; tombstones = refl };
    clock = refl;
    device_id = refl;
  }

  IsSound-SameLog : (mid db' : Db App) → IsSound env mid → SameLog db' mid → IsSound env db'
  IsSound-SameLog mid db' sound same =
      let log : rows db'.crdt ≡ rows mid.crdt = ap (map (λ e. e.1)) same.tables.changes in
      record {
        clock = subst Hlc.IsValid (sym same.clock) sound.clock;
        behind = λ x m mine.
            ap (λ (h : Hlc). above x.hlc (to_hex h)) same.clock
            ∙ sound.behind x (subst (λ l. Memᴰ x l) log m) (mine ∙ same.device_id);
        merged = IsMerged-SameTables same.tables sound.merged;
      }

  -- What a flush leaves behind.
  pub record IsFlushed (db db' : Db App) (out : List ChangeRecord) : Type 0 where
    pub local_ops : db'.local_ops ≡ []
    pub sound : IsSound env db'
    pub ascending : Ascending db.clock (map (λ (r : ChangeRecord). r.hlc) out)
    pub each :
        (rec : ChangeRecord)
        → Memᴰ rec out
        → (rec.origin ≡ db.device_id)
          × (verify_author env.crypto rec ≡ ok tt)
          × Memᴰ (change_row rec) (rows db'.crdt)

  finish :
      (db mid db' : Db App) (out : List ChangeRecord) (secret : Bytes)
      → Lawful env.crypto
      → db.signer ≡ some secret
      → db.device_id ≡ env.crypto.peer_id (env.crypto.public secret)
      → IsSound env db
      → ((k : ℕ) → env.now_ms k < 2 ^ 64)
      → db.clock.counter + length out < u32_max
      → Authors env db out mid
      → SameLog db' mid
      → db'.local_ops ≡ []
      → IsFlushed db db' out
  finish db mid db' out secret law key own sound time room steps same empty =
      let logged = Authors-IsLogged env db mid out sound time room steps in
      let log : rows db'.crdt ≡ rows mid.crdt = ap (map (λ e. e.1)) same.tables.changes in
      record {
        local_ops = empty;
        sound = IsSound-SameLog mid db' logged.sound same;
        ascending = logged.ascending;
        each = λ rec m.
            let (origin, signed) = Authors-signed env db mid out secret law key own steps rec m in
            (origin, signed, subst (λ l. Memᴰ (change_row rec) l) (sym log) (logged.new rec m));
      }

  staged-IsFlushed :
      (db : Db App) (staged : List LocalOp) (secret : Bytes)
      → db.local_ops ≡ staged
      → Lawful env.crypto
      → db.signer ≡ some secret
      → db.device_id ≡ env.crypto.peer_id (env.crypto.public secret)
      → IsSound env db
      → ((k : ℕ) → env.now_ms k < 2 ^ 64)
      → db.clock.counter + length (flush_staged env db staged).1 < u32_max
      → IsFlushed db (flush_staged env db staged).0 (flush_staged env db staged).1
  unfolding flush_staged
  staged-IsFlushed db [] secret same law key own sound time room =
      finish db db db [] secret law key own sound time room refl (SameLog-refl db) same
  staged-IsFlushed db (op ∷ staged) secret same law key own sound time room =
      let all = op ∷ staged in
      let last = max_id all in
      let flushed = flush_rows env db (final_ops [] all) (first_seen [] all) in
      let mid = flushed.0 in
      let steps = flush_rows-Authors env db (final_ops [] all) (first_seen [] all) in
      let kept = keep (λ (o : LocalOp). ltb last o.id) mid.local_ops in
      let cut : Db App = record mid { local_ops = kept } in
      let bumped = bump_own-SameLog cut flushed.1 in
      let unchanged : mid.local_ops ≡ all =
        (Authors-SameSelf env db mid flushed.1 steps).local_ops ∙ same in
      let empty : kept ≡ [] =
        ap (keep (λ (o : LocalOp). ltb last o.id)) unchanged
        ∙ nothing_left last all (omega arith) in
      finish db mid (bump_own env cut flushed.1) flushed.1 secret law key own sound time room steps
        (record { tables = bumped.tables; clock = bumped.clock; device_id = bumped.device_id })
        (local_ops-bump_own cut flushed.1 ∙ empty)

  -- A device that signs with the key behind its own id flushes its staged edits: none is left
  -- staged; the changes that come back are its own, have stamps that ascend from its clock, are
  -- accepted by every peer's check of authorship, and are all in its log; its cells and tombstones
  -- are still what the log says, and its clock is behind none of its changes. For that its clock must
  -- not have been behind before, and its counter must have room for the changes.
  pub flush_local_lem :
      (db : Db App) (secret : Bytes)
      → Lawful env.crypto
      → db.signer ≡ some secret
      → db.device_id ≡ env.crypto.peer_id (env.crypto.public secret)
      → IsSound env db
      → ((k : ℕ) → env.now_ms k < 2 ^ 64)
      → db.clock.counter + length (flush_local env db).1 < u32_max
      → IsFlushed db (flush_local env db).0 (flush_local env db).1
  unfolding flush_local
  flush_local_lem db secret law key own sound time room =
      staged-IsFlushed db db.local_ops secret refl law key own sound time room
