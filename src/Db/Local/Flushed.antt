-- ===== src/Db/Local/Flushed.antt =====
-- What holds after any sequence of changes that the device authors.
use orgsync.Base.{
  ℕ, ◌+◌, ◌^◌, ◌<◌, ◌≤◌, ◌≡◌, refl, sym, ap, ◌∙◌, subst, inl, inr, some, List, [], ◌∷◌, map, Bytes,
  Memᴰ, length, nat_ord, list_ord, pair_ord, arith,
}
use mathlib.Core.List.Memᴰ
use orgsync.Error.{ok}
use orgsync.Crypto.{Lawful}
use orgsync.Hlc
use orgsync.Hlc.{Hlc, u32_max}
use orgsync.Hlc.Progress.{Ascending}
use orgsync.Change.{ChangeRecord, verify_author}
use orgsync.Db.{Env, Db}
use orgsync.Db.Tables.{ChangeRow, change_row}
use orgsync.Db.Tables.Merge.{rows}
use orgsync.Db.Local.{author}
use orgsync.Db.Local.Steps.{Authors}
use orgsync.Db.Local.Authored.{IsSound, next-stamp, next-signed, author-IsSound}

counter-tick : (phys : ℕ) (last : Hlc) → (Hlc.tick phys last).counter ≤ last.counter + 1
unfolding Hlc.tick
counter-tick phys last = ground arith

module _ {App : Type 0} (env : Env App) where
  -- What the steps leave alone.
  pub record SameSelf (db' db : Db App) : Type 0 where
    pub device_id : db'.device_id ≡ db.device_id
    pub signer : db'.signer ≡ db.signer
    pub local_ops : db'.local_ops ≡ db.local_ops

  pub Authors-SameSelf :
      (db db' : Db App) (out : List ChangeRecord) → Authors env db out db' → SameSelf db' db
  unfolding author
  Authors-SameSelf db db' [] e = record {
    device_id = ap (λ (d : Db App). d.device_id) e;
    signer = ap (λ (d : Db App). d.signer) e;
    local_ops = ap (λ (d : Db App). d.local_ops) e;
  }
  Authors-SameSelf db db' (rec ∷ out) (next, a) =
      let rest = Authors-SameSelf (author env db rec) db' out a in
      record { device_id = rest.device_id; signer = rest.signer; local_ops = rest.local_ops }

  -- Every change is of this device and is accepted as such.
  pub Authors-signed :
      (db db' : Db App) (out : List ChangeRecord) (secret : Bytes)
      → Lawful env.crypto
      → db.signer ≡ some secret
      → db.device_id ≡ env.crypto.peer_id (env.crypto.public secret)
      → Authors env db out db'
      → (rec : ChangeRecord) → Memᴰ rec out
      → (rec.origin ≡ db.device_id) × (verify_author env.crypto rec ≡ ok tt)
  unfolding author
  Authors-signed db db' [] secret law key own e rec m = elim m [ ]
  Authors-signed db db' (r ∷ out) secret law key own (next, a) rec m = elim (Memᴰ.cases_cons m) [
    | inl e ↦ (
      ap (λ (k : ChangeRecord). k.origin) e ∙ (next-stamp env db r next).0,
      ap (verify_author env.crypto) e ∙ next-signed env db r secret law key own next,
    )
    | inr t ↦ Authors-signed (author env db r) db' out secret law key own a rec t
  ]

  -- The stamps ascend from the clock, and the log loses nothing and gains every change.
  pub record IsLogged (db db' : Db App) (out : List ChangeRecord) : Type 0 where
    pub sound : IsSound env db'
    pub ascending : Ascending db.clock (map (λ (r : ChangeRecord). r.hlc) out)
    pub old : (x : ChangeRow) → Memᴰ x (rows db.crdt) → Memᴰ x (rows db'.crdt)
    pub new : (rec : ChangeRecord) → Memᴰ rec out → Memᴰ (change_row rec) (rows db'.crdt)

  clock-author : (db : Db App) (r : ChangeRecord) → (author env db r).clock ≡ r.hlc
  unfolding author
  clock-author db r = refl

  pub Authors-IsLogged :
      (db db' : Db App) (out : List ChangeRecord)
      → IsSound env db
      → ((k : ℕ) → env.now_ms k < 2 ^ 64)
      → db.clock.counter + length out < u32_max
      → Authors env db out db'
      → IsLogged db db' out
  Authors-IsLogged db db' [] sound time room e = record {
    sound = subst (IsSound env) (sym e) sound;
    ascending = tt;
    old = λ x m. subst (λ (d : Db App). Memᴰ x (rows d.crdt)) (sym e) m;
    new = λ rec m. elim m [ ];
  }
  Authors-IsLogged db db' (r ∷ out) sound time room (next, a) =
      let (sound', log, later) =
        author-IsSound env db r sound (time db.readings) (omega arith) next in
      let raised : r.hlc.counter ≤ db.clock.counter + 1 =
        subst (λ (h : Hlc). h.counter ≤ db.clock.counter + 1) (sym (next-stamp env db r next).1)
          (counter-tick (env.now_ms db.readings) db.clock) in
      let rest =
        Authors-IsLogged (author env db r) db' out sound' time
          (omega (arith, ap (λ (h : Hlc). h.counter) (clock-author db r), raised, room)) a in
      record {
        sound = rest.sound;
        ascending = (
          later,
          subst (λ h. Ascending h (map (λ (k : ChangeRecord). k.hlc) out)) (clock-author db r)
              rest.ascending,
        );
        old = λ x m. rest.old x (subst (λ l. Memᴰ x l) (sym log) (Memᴰ.tail m));
        new = λ rec m. elim (Memᴰ.cases_cons m) [
          | inl e ↦
              rest.old (change_row rec)
                (subst (λ l. Memᴰ (change_row rec) l) (sym log) (Memᴰ.head (ap change_row e)))
          | inr t ↦ rest.new rec t
        ];
      }
