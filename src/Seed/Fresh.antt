-- ===== src/Seed/Fresh.antt =====
-- What every request keeps of the serials.
use orgsync.Base.{
  ℕ, ◌+◌, ◌<◌, ◌≤◌, ◌≡◌, refl, sym, ap, subst, inl, inr, some, none, Option, List, [], ◌∷◌, Bytes,
  any, find, Bool-cases, nat_ord, list_ord, arith,
}
use orgsync.Error.{Result, ok, err}
use orgsync.Crypto.{Crypto}
use orgsync.Identity.{Role}
use orgsync.Identity.Cert.{DeviceCert}
use orgsync.Identity.Cert.{issue_cert}
use orgsync.Seed.Token.{random_token}
use orgsync.Seed.{
  Org, Invite, Store, Request, is_some, is_active, touch_crl, create_invite, cert_of, put_device,
  new_device, record_device, redeem_invite, revoke_rows, revoke,
}
use orgsync.Seed.Redeemed.{IsRedeemed, redeem_steps}
use orgsync.Seed.Run.{Op, invite_op, redeem_op, revoke_op, or_same, or_same_pair, step, run}
use orgsync.Seed.Serial.{IsNumbered, IsConsistent, put_device-IsNumbered, revoke_rows-IsNumbered}

-- The serials are consistent, and the next one is at least this.
pub record IsAfter (least : ℕ) (s : Store) : Type 0 where
  pub consistent : IsConsistent s
  pub least_next : (org : Org) → s.org ≡ some org → least ≤ org.next_serial

invite-IsAfter :
    (least : ℕ) (s : Store) (raw user_id display_name : Bytes) (role : Role) (ttl_ms now : ℕ)
    → IsAfter least s
    → IsAfter least (or_same s (create_invite s raw user_id display_name role ttl_ms now))
unfolding create_invite
invite-IsAfter least s raw user_id display_name role ttl_ms now a =
    elim (Bool-cases (is_some (find (random_token raw) s.invites))) [
      | inl taken ↦ rw taken a
      | inr new ↦ rw new (record { consistent = a.consistent; least_next = a.least_next })
    ]

pub org_of_touch :
    (o : Option Org) (now : ℕ) (org : Org)
    → touch_crl o now ≡ some org
    → (old : Org) × (o ≡ some old) × (old.next_serial ≡ org.next_serial)
org_of_touch none now org h = absurd (cc)
org_of_touch (some old) now org h = (old, refl, ground arith)

revoke-IsAfter :
    (least : ℕ) (s : Store) (serial now list_now : ℕ)
    → IsAfter least s
    → IsAfter least (or_same s (revoke s serial now list_now))
unfolding revoke
revoke-IsAfter least s serial now list_now a =
    elim (Bool-cases (any (is_active serial) s.devices)) [
      | inr nobody ↦ rw nobody a
      | inl there ↦ rw there (record {
        consistent = λ org h.
            let (old, held, same) = org_of_touch s.org list_now org h in
            subst (λ next. IsNumbered next (revoke_rows serial now s.devices)) same
              (revoke_rows-IsNumbered serial now old.next_serial s.devices (a.consistent old held));
        least_next = λ org h.
            let (old, held, same) = org_of_touch s.org list_now org h in
            omega (arith, a.least_next old held, same);
      })
    ]

record_device-IsAfter :
    (least : ℕ) (s : Store) (org : Org) (r : Request) (invite : Invite) (device_pub peer : Bytes)
    (cert : DeviceCert) (now : ℕ)
    → s.org ≡ some org
    → IsAfter least s
    → IsAfter least (record_device s org r invite device_pub peer cert now)
      × ((o : Org)
          → (record_device s org r invite device_pub peer cert now).org ≡ some o
          → o.next_serial ≡ org.next_serial + 1)
unfolding record_device
record_device-IsAfter least s org r invite device_pub peer cert now held a =
    let next = λ (o : Org) (h : some (record org { next_serial = org.next_serial + 1 }) ≡ some o).
      let e : org.next_serial + 1 ≡ o.next_serial = ground arith in e in
    (
      record {
        consistent = λ o h.
            subst (λ n. IsNumbered n (put_device s.devices peer (new_device org r invite cert now)))
              (next o h)
              (put_device-IsNumbered org.next_serial s.devices peer
                (new_device org r invite cert now) refl refl (a.consistent org held));
        least_next = λ o h. omega (arith, a.least_next org held, next o h);
      },
      λ o h. sym (next o h),
    )

module _ (c : Crypto) where
  redeem-IsAfter :
      (least : ℕ) (s : Store) (r : Request) (now issue_now : ℕ)
      → IsAfter least s
      → IsAfter least (or_same_pair s (redeem_invite c s r now issue_now))
  redeem-IsAfter least s r now issue_now a = go (redeem_invite c s r now issue_now) refl
    where
      go :
          (out : Result (Store × DeviceCert))
          → redeem_invite c s r now issue_now ≡ out
          → IsAfter least (or_same_pair s out)
      go (err e) h = a
      go (ok (s', cert)) h =
          let d = redeem_steps c s r now issue_now s' cert h in
          subst (IsAfter least) (sym d.recorded)
            (record_device-IsAfter least s d.org r d.invite d.device_pub d.peer cert now d.org_held
              a).0

  step-IsAfter : (least : ℕ) (s : Store) (op : Op) → IsAfter least s → IsAfter least (step c s op)
  unfolding step
  step-IsAfter least s (invite_op raw user_id display_name role ttl_ms now) a =
      invite-IsAfter least s raw user_id display_name role ttl_ms now a
  step-IsAfter least s (redeem_op r now issue_now) a = redeem-IsAfter least s r now issue_now a
  step-IsAfter least s (revoke_op serial now list_now) a =
      revoke-IsAfter least s serial now list_now a

  pub run-IsAfter :
      (least : ℕ) (s : Store) (ops : List Op) → IsAfter least s → IsAfter least (run c s ops)
  unfolding run
  run-IsAfter least s [] a = a
  run-IsAfter least s (op ∷ ops) a = run-IsAfter least (step c s op) ops (step-IsAfter least s op a)

  issued_serial :
      (s : Store) (r : Request) (now issue_now : ℕ) (s' : Store) (cert : DeviceCert)
      (d : IsRedeemed c s r now issue_now s' cert)
      → cert.claims.serial ≡ d.org.next_serial
  unfolding cert_of issue_cert
  issued_serial s r now issue_now s' cert d = ap (λ (k : DeviceCert). k.claims.serial) d.issued

  -- From consistent tables on, whatever the server does between two redemptions, the later
  -- certificate has a greater serial than the earlier, and the tables stay consistent.
  pub redeem_serials :
      (s : Store) (r r' : Request) (now issue_now now' issue_now' : ℕ) (s' s'' : Store)
      (cert cert' : DeviceCert) (ops : List Op)
      → IsConsistent s
      → redeem_invite c s r now issue_now ≡ ok (s', cert)
      → redeem_invite c (run c s' ops) r' now' issue_now' ≡ ok (s'', cert')
      → (cert.claims.serial < cert'.claims.serial) × IsConsistent s''
  redeem_serials s r r' now issue_now now' issue_now' s' s'' cert cert' ops good first second =
      let d = redeem_steps c s r now issue_now s' cert first in
      let start : IsAfter 0 s = record { consistent = good; least_next = λ org h. omega arith } in
      let (kept, next) =
        record_device-IsAfter 0 s d.org r d.invite d.device_pub d.peer cert now d.org_held start in
      let raised : IsAfter (d.org.next_serial + 1) s' =
        subst (IsAfter (d.org.next_serial + 1)) (sym d.recorded)
          (record { consistent = kept.consistent; least_next = λ o h. omega (arith, next o h) }) in
      let later = run-IsAfter (d.org.next_serial + 1) s' ops raised in
      let d' = redeem_steps c (run c s' ops) r' now' issue_now' s'' cert' second in
      let (end, _) =
        record_device-IsAfter (d.org.next_serial + 1) (run c s' ops) d'.org r' d'.invite
          d'.device_pub d'.peer cert' now' d'.org_held later in
      (
        omega (
          arith,
          issued_serial s r now issue_now s' cert d,
          issued_serial (run c s' ops) r' now' issue_now' s'' cert' d',
          later.least_next d'.org d'.org_held,
        ),
        subst IsConsistent (sym d'.recorded) end.consistent,
      )
