-- ===== src/Http/Handlers/Gate.antt =====
-- Without the admin's token nobody mints an invite or publishes a revocation.
use orgsync.Base.{
  ℕ, ◌+◌, ◌≡◌, refl, sym, ap, ◌∙◌, subst, false, inl, inr, Option, some, List, [], ◌∷◌, Bytes, find,
  find-put, ◌==◌, ==_iff, Bool-cases, Option-cases, arith, nat_ord, list_ord,
}
use orgsync.Error.{Result, ok, err, other}
use orgsync.Crypto.{Crypto}
use orgsync.Enroll.{normalize_invite_code}
use orgsync.Identity.Cert.{DeviceCert}
use orgsync.Seed.{Org, Invite, Store, Request, check_invite, record_device, redeem_invite}
use orgsync.Seed.Redeemed.{redeem_steps}
use orgsync.Seed.Joining.{request_of}
use orgsync.Http.{given_token, token_matches}
use orgsync.Http.Handlers.{
  AppState, refused, unauthorized, require_admin, after_redeem, enroll, create_invite, revoke,
}
use orgsync.Http.Handlers.Serve.{
  HttpRequest, reads, post_enroll, post_invite, post_revoke, route, serve, IsOutsider, AllOutsiders,
}

-- What an invite is worth is in the table already.
pub record SameInvite (i' i : Invite) : Type 0 where
  pub user_id : i'.user_id ≡ i.user_id
  pub display_name : i'.display_name ≡ i.display_name
  pub role : i'.role ≡ i.role
  pub expires_at_ms : i'.expires_at_ms ≡ i.expires_at_ms

-- The organisation's row is the same but for the next serial, and every invite was there before.
pub record IsUnharmed (org : Org) (s s' : Store) : Type 0 where
  pub org' : Org
  pub held : s'.org ≡ some org'
  pub same : org' ≡ record org { next_serial = org'.next_serial }
  pub invites :
      (token : Bytes) (i' : Invite)
      → find token s'.invites ≡ some i'
      → (i : Invite) × (find token s.invites ≡ some i) × SameInvite i' i

SameInvite-refl : (i : Invite) → SameInvite i i
SameInvite-refl i = record {
  user_id = refl;
  display_name = refl;
  role = refl;
  expires_at_ms = refl;
}

IsUnharmed-refl : (org : Org) (s : Store) → s.org ≡ some org → IsUnharmed org s s
IsUnharmed-refl org s held = record {
  org' = org;
  held = held;
  same = refl;
  invites = λ token i e. (i, e, SameInvite-refl i);
}

IsUnharmed-trans :
    (org mid : Org) (a b d : Store)
    → mid ≡ record org { next_serial = mid.next_serial }
    → ((token : Bytes) (i' : Invite)
        → find token b.invites ≡ some i'
        → (i : Invite) × (find token a.invites ≡ some i) × SameInvite i' i)
    → IsUnharmed mid b d
    → IsUnharmed org a d
IsUnharmed-trans org mid a b d same earlier q = record {
  org' = q.org';
  held = q.held;
  same = q.same ∙ ap (λ (o : Org). record o { next_serial = q.org'.next_serial }) same;
  invites = λ token i'' e.
      let (i', e', s') = q.invites token i'' e in
      let (i, e, s) = earlier token i' e' in
      (
        i,
        e,
        record {
          user_id = s'.user_id ∙ s.user_id;
          display_name = s'.display_name ∙ s.display_name;
          role = s'.role ∙ s.role;
          expires_at_ms = s'.expires_at_ms ∙ s.expires_at_ms;
        },
      );
}

found_of_check :
    (s : Store) (token : Bytes) (now : ℕ) (invite : Invite)
    → check_invite s token now ≡ ok invite
    → find token s.invites ≡ some invite
unfolding check_invite
found_of_check s token now invite h = elim (Option-cases (find token s.invites)) [
  | inl missing ↦ let bad : err other ≡ ok invite = rw (missing, check_invite) at h in absurd (cc)
  | inr (i, held) ↦
      let passed = rw (held, check_invite) at h in
      let same : i ≡ invite = ground arith in held ∙ ap some same
]

worn :
    (used i' invite : Invite) → some used ≡ some i' → SameInvite used invite → SameInvite i' invite
worn used i' invite e same = let at : used ≡ i' = cc in subst (λ i. SameInvite i invite) at same

record_device-IsUnharmed :
    (s : Store) (org : Org) (r : Request) (invite : Invite) (device_pub peer : Bytes)
    (cert : DeviceCert) (now : ℕ)
    → find (normalize_invite_code r.token) s.invites ≡ some invite
    → IsUnharmed org s (record_device s org r invite device_pub peer cert now)
unfolding record_device
record_device-IsUnharmed s org r invite device_pub peer cert now held =
    let code = normalize_invite_code r.token in
    let used : Invite = record invite { used_at_ms = some now; used_by = some peer } in
    record {
      org' = record org { next_serial = org.next_serial + 1 };
      held = refl;
      same = refl;
      invites = λ token i' e. elim (Bool-cases (code == token)) [
        | inl same ↦
            let new : some used ≡ some i' = rw (find-put code token used s.invites, same) at e in
            (
              invite,
              ap (λ t. find t s.invites) (sym ((==_iff code token).0 same)) ∙ held,
              worn used i' invite new (record {
                user_id = refl;
                display_name = refl;
                role = refl;
                expires_at_ms = refl;
              }),
            )
        | inr apart ↦ (i', rw (find-put code token used s.invites, apart) at e, SameInvite-refl i')
      ];
    }

-- The header is tested against the token of the organisation.
require_admin-outsider :
    (s : Store) (org : Org) (header : Option Bytes)
    → s.org ≡ some org
    → token_matches (given_token header) org.admin_token ≡ false
    → require_admin s header ≡ refused unauthorized
unfolding require_admin
require_admin-outsider s org header held out = rw (held, out)

module _ (c : Crypto) where
  redeemed-IsUnharmed :
      (state : AppState) (org : Org) (r : Request) (now issue_now : ℕ)
      (out : Result (Store × DeviceCert))
      → state.store.org ≡ some org
      → redeem_invite c state.store r now issue_now ≡ out
      → IsUnharmed org state.store (after_redeem c state out).0.store
  unfolding after_redeem
  redeemed-IsUnharmed state org r now issue_now (err e) held h =
      IsUnharmed-refl org state.store held
  redeemed-IsUnharmed state org r now issue_now (ok (s', cert)) held h =
      let d = redeem_steps c state.store r now issue_now s' cert h in
      let there =
        found_of_check state.store (normalize_invite_code r.token) now d.invite d.invited in
      let same : d.org ≡ org = let both = sym d.org_held ∙ held in cc in
      subst (λ (o : Org). IsUnharmed o state.store s') same
        (subst (λ s. IsUnharmed d.org state.store s) (sym d.recorded)
          (record_device-IsUnharmed state.store d.org r d.invite d.device_pub d.peer cert now
            there))

  route-IsUnharmed :
      (state : AppState) (org : Org) (req : HttpRequest)
      → state.store.org ≡ some org
      → IsOutsider org.admin_token req
      → IsUnharmed org state.store (route c state req).store
  unfolding route enroll create_invite revoke
  route-IsUnharmed state org reads held out = IsUnharmed-refl org state.store held
  route-IsUnharmed state org (post_enroll req now issue_now) held out =
      redeemed-IsUnharmed state org (request_of req state.cert_ttl_ms) now issue_now
        (redeem_invite c state.store (request_of req state.cert_ttl_ms) now issue_now) held refl
  route-IsUnharmed state org (post_invite header body raw now) held out =
      rw (route, create_invite, require_admin-outsider state.store org header held out)
        (IsUnharmed-refl org state.store held)
  route-IsUnharmed state org (post_revoke header serial now list_now) held out =
      rw (route, revoke, require_admin-outsider state.store org header held out)
        (IsUnharmed-refl org state.store held)

  -- Whatever requests the server answers, if none of them carries the admin's token: the row of the
  -- organisation is at the end what it was, but for the next serial, so the time that its list of
  -- revocations carries and its token are the same; and each invite in the table was there before, for
  -- the same person, role and time.
  pub serve-IsUnharmed :
      (state : AppState) (org : Org) (reqs : List HttpRequest)
      → state.store.org ≡ some org
      → AllOutsiders org.admin_token reqs
      → IsUnharmed org state.store (serve c state reqs).store
  unfolding serve
  serve-IsUnharmed state org [] held out = IsUnharmed-refl org state.store held
  serve-IsUnharmed state org (req ∷ rest) held (first, others) =
      let one = route-IsUnharmed state org req held first in
      let token : one.org'.admin_token ≡ org.admin_token =
        ap (λ (o : Org). o.admin_token) one.same in
      IsUnharmed-trans org one.org' state.store (route c state req).store
        (serve c state (req ∷ rest)).store one.same one.invites
        (serve-IsUnharmed (route c state req) one.org' rest one.held
          (subst (λ t. AllOutsiders t rest) (sym token) others))
