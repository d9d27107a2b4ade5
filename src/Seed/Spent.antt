-- ===== src/Seed/Spent.antt =====
-- An invite is redeemed at most once.
use orgsync.Base.{
  ℕ, ◌≡◌, ◌≢◌, refl, sym, ap, ◌∙◌, subst, true, false, inl, inr, some, List, [], ◌∷◌, Bytes, any,
  find, find-put, ◌==◌, ==_iff, Bool-cases, nat_ord, list_ord, arith,
}
use orgsync.Error.{Result, ok, err, other}
use orgsync.Crypto.{Crypto}
use orgsync.Identity.{Role}
use orgsync.Identity.Cert.{DeviceCert}
use orgsync.Enroll.{normalize_invite_code}
use orgsync.Seed.{
  Org, Invite, Store, is_active, Request, is_some, create_invite, check_invite, record_device,
  redeem_invite, revoke,
}
use orgsync.Seed.Token.{random_token}
use orgsync.Seed.Redeemed.{redeem_steps}
use orgsync.Seed.Run.{Op, invite_op, redeem_op, revoke_op, or_same, or_same_pair, step, run}

-- The invite is there and has been used.
abbrev pub IsSpent : Bytes → Store → Type 0
IsSpent token s = (i : Invite) × (find token s.invites ≡ some i) × (is_some i.used_at_ms ≡ true)

create_invite-IsSpent :
    (token : Bytes) (s : Store) (raw user_id display_name : Bytes) (role : Role) (ttl_ms now : ℕ)
    → IsSpent token s
    → IsSpent token (or_same s (create_invite s raw user_id display_name role ttl_ms now))
unfolding create_invite
create_invite-IsSpent token s raw user_id display_name role ttl_ms now (i, held, used) =
    elim (Bool-cases (is_some (find (random_token raw) s.invites))) [
      | inl taken ↦ rw taken (i, held, used)
      | inr new ↦
          let apart : (random_token raw == token) ≡ false =
            ground (arith, ==_iff (random_token raw) token, ap is_some held) in
          rw (new, find-put, apart) (i, held, used)
    ]

put-IsSpent :
    (token : Bytes) (s : Store) (org : Org) (r : Request) (invite : Invite)
    (device_pub peer : Bytes) (cert : DeviceCert) (now : ℕ)
    → IsSpent token s
    → IsSpent token (record_device s org r invite device_pub peer cert now)
unfolding record_device
put-IsSpent token s org r invite device_pub peer cert now (i, held, used) =
    elim (Bool-cases (normalize_invite_code r.token == token)) [
      | inl same ↦
          (record invite { used_at_ms = some now; used_by = some peer }, rw (find-put, same), refl)
      | inr apart ↦ rw (find-put, apart) (i, held, used)
    ]

-- The invite that is redeemed is spent.
redeemed-IsSpent :
    (s : Store) (org : Org) (r : Request) (invite : Invite) (device_pub peer : Bytes)
    (cert : DeviceCert) (now : ℕ)
    → IsSpent
        (normalize_invite_code r.token)
        (record_device s org r invite device_pub peer cert now)
unfolding record_device
redeemed-IsSpent s org r invite device_pub peer cert now =
    let own = (==_iff (normalize_invite_code r.token) (normalize_invite_code r.token)).1 refl in
    (record invite { used_at_ms = some now; used_by = some peer }, rw (find-put, own), refl)

check_invite_spent :
    (s : Store) (token : Bytes) (now : ℕ) → IsSpent token s → check_invite s token now ≡ err other
unfolding check_invite
check_invite_spent s token now (i, held, used) = rw (held, check_invite, used)

revoke-IsSpent :
    (token : Bytes) (s : Store) (serial now list_now : ℕ)
    → IsSpent token s
    → IsSpent token (or_same s (revoke s serial now list_now))
unfolding revoke
revoke-IsSpent token s serial now list_now (i, held, used) =
    elim (Bool-cases (any (is_active serial) s.devices)) [
      | inl there ↦ rw there (i, held, used)
      | inr nobody ↦ rw nobody (i, held, used)
    ]

module _ (c : Crypto) where
  redeem_invite-IsSpent :
      (token : Bytes) (s : Store) (r : Request) (now issue_now : ℕ)
      → IsSpent token s
      → IsSpent token (or_same_pair s (redeem_invite c s r now issue_now))
  redeem_invite-IsSpent token s r now issue_now spent = go (redeem_invite c s r now issue_now) refl
    where
      go :
          (out : Result (Store × DeviceCert))
          → redeem_invite c s r now issue_now ≡ out
          → IsSpent token (or_same_pair s out)
      go (err e) h = spent
      go (ok (s', cert)) h =
          let done = redeem_steps c s r now issue_now s' cert h in
          subst (IsSpent token) (sym done.recorded)
            (put-IsSpent token s done.org r done.invite done.device_pub done.peer cert now spent)

  step-IsSpent :
      (token : Bytes) (s : Store) (op : Op) → IsSpent token s → IsSpent token (step c s op)
  unfolding step
  step-IsSpent token s (invite_op raw user_id display_name role ttl_ms now) spent =
      create_invite-IsSpent token s raw user_id display_name role ttl_ms now spent
  step-IsSpent token s (redeem_op r now issue_now) spent =
      redeem_invite-IsSpent token s r now issue_now spent
  step-IsSpent token s (revoke_op serial now list_now) spent =
      revoke-IsSpent token s serial now list_now spent

  run-IsSpent :
      (token : Bytes) (s : Store) (ops : List Op) → IsSpent token s → IsSpent token (run c s ops)
  unfolding run
  run-IsSpent token s [] spent = spent
  run-IsSpent token s (op ∷ ops) spent =
      run-IsSpent token (step c s op) ops (step-IsSpent token s op spent)

  -- After an invite has been redeemed, and whatever the server does next, a request with the same
  -- code, in whatever spelling, is refused.
  pub redeem_once :
      (s : Store) (r r' : Request) (now issue_now now' issue_now' : ℕ) (s' : Store)
      (cert : DeviceCert) (ops : List Op) (out : Store × DeviceCert)
      → redeem_invite c s r now issue_now ≡ ok (s', cert)
      → normalize_invite_code r'.token ≡ normalize_invite_code r.token
      → redeem_invite c (run c s' ops) r' now' issue_now' ≢ ok out
  redeem_once s r r' now issue_now now' issue_now' s' cert ops out first same again =
      let done = redeem_steps c s r now issue_now s' cert first in
      let spent = run-IsSpent (normalize_invite_code r.token) s' ops (
        subst (IsSpent (normalize_invite_code r.token)) (sym done.recorded)
          (redeemed-IsSpent s done.org r done.invite done.device_pub done.peer cert now)) in
      let second = redeem_steps c (run c s' ops) r' now' issue_now' out.0 out.1 again in
      let refused =
        check_invite_spent (run c s' ops) (normalize_invite_code r'.token) now'
          (subst (λ t. IsSpent t (run c s' ops)) (sym same) spent) in
      let no : err other ≡ ok second.invite = sym refused ∙ second.invited in cc
