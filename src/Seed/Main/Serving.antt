-- ===== src/Seed/Main/Serving.antt =====
-- What every request keeps of a server's tables: its keys, its name, and serials from 1 on.
use orgsync.Base.{
  ℕ, ◌+◌, ◌<◌, ◌≡◌, refl, sym, ap, ◌∙◌, subst, false, inl, inr, some, List, [], ◌∷◌, Bytes, Memᴰ,
  any, find, Bool-cases, arith, nat_ord, list_ord,
}
use orgsync.Error.{Result, ok, err, other}
use orgsync.Crypto.{Crypto, Lawful}
use orgsync.Identity.{Role, org_id}
use orgsync.Identity.Crl.{RevocationList, is_revoked}
use orgsync.Identity.Cert.{DeviceCert}
use orgsync.Seed.{
  Org, Invite, Device, Store, Request, is_some, is_active, init, create_invite, new_device,
  record_device, redeem_invite, revoke, crl, touch_crl,
}
use orgsync.Seed.Token.{random_token}
use orgsync.Seed.Redeemed.{redeem_steps}
use orgsync.Seed.Run.{Op, invite_op, redeem_op, revoke_op, or_same, or_same_pair, step, run}
use orgsync.Seed.Serial.{
  IsNumbered, mem-put_device, put_device-IsNumbered, mem-revoke_rows, revoke_rows-IsNumbered,
}
use orgsync.Seed.Revoked.{crl_lem}
use orgsync.Seed.Main.{server_serial}

-- Tables of the organisation with these keys and this name, whose devices have serials of their own
-- from 1 on.
pub record IsServing (key node title : Bytes) (s : Store) : Type 0 where
  pub org : Org
  pub held : s.org ≡ some org
  pub org_key : org.org_key ≡ key
  pub node_key : org.node_key ≡ node
  pub name : org.name ≡ title
  pub next : 0 < org.next_serial
  pub numbered : IsNumbered org.next_serial s.devices
  pub positive : (x : Bytes × Device) → Memᴰ x s.devices → 0 < x.1.serial

some-injective {ℓ} : {A : Type ℓ} {a b : A} → some a ≡ some b → a ≡ b
some-injective e = cc

module _ (key node title : Bytes) where
  invite-IsServing :
      (s : Store) (raw user_id display_name : Bytes) (role : Role) (ttl_ms now : ℕ)
      → IsServing key node title s
      → IsServing key node title
          (or_same s (create_invite s raw user_id display_name role ttl_ms now))
  unfolding create_invite
  invite-IsServing s raw user_id display_name role ttl_ms now a =
      elim (Bool-cases (is_some (find (random_token raw) s.invites))) [
        | inl taken ↦ rw taken a
        | inr new ↦ rw new (record {
          org = a.org;
          held = a.held;
          org_key = a.org_key;
          node_key = a.node_key;
          name = a.name;
          next = a.next;
          numbered = a.numbered;
          positive = a.positive;
        })
      ]

  revoke-IsServing :
      (s : Store) (serial now list_now : ℕ)
      → IsServing key node title s
      → IsServing key node title (or_same s (revoke s serial now list_now))
  unfolding revoke
  revoke-IsServing s serial now list_now a = elim (Bool-cases (any (is_active serial) s.devices)) [
    | inr nobody ↦ rw nobody a
    | inl there ↦ rw there (record {
      org = record a.org { crl_updated_at_ms = list_now };
      held = ap (λ o. touch_crl o list_now) a.held;
      org_key = a.org_key;
      node_key = a.node_key;
      name = a.name;
      next = a.next;
      numbered = revoke_rows-IsNumbered serial now a.org.next_serial s.devices a.numbered;
      positive = λ x m.
          let (y, my, key, same) = mem-revoke_rows serial now s.devices x m in
          omega (arith, a.positive y my, same);
    })
  ]

  record_device-IsServing :
      (s : Store) (org : Org) (r : Request) (invite : Invite) (device_pub peer : Bytes)
      (cert : DeviceCert) (now : ℕ)
      → s.org ≡ some org
      → IsServing key node title s
      → IsServing key node title (record_device s org r invite device_pub peer cert now)
  unfolding record_device
  record_device-IsServing s org r invite device_pub peer cert now held a =
      let same : a.org ≡ org = some-injective (sym a.held ∙ held) in
      let row = new_device org r invite cert now in
      let numbered : IsNumbered org.next_serial s.devices =
        subst (λ (o : Org). IsNumbered o.next_serial s.devices) same a.numbered in
      let next : 0 < org.next_serial = subst (λ (o : Org). 0 < o.next_serial) same a.next in
      record {
        org = record org { next_serial = org.next_serial + 1 };
        held = refl;
        org_key = ap (λ (o : Org). o.org_key) (sym same) ∙ a.org_key;
        node_key = ap (λ (o : Org). o.node_key) (sym same) ∙ a.node_key;
        name = ap (λ (o : Org). o.name) (sym same) ∙ a.name;
        next = omega arith;
        numbered = put_device-IsNumbered org.next_serial s.devices peer row refl refl numbered;
        positive = λ x m. elim (mem-put_device s.devices peer row x numbered.keyed refl m) [
          | inl (_, serial, _) ↦ omega (arith, serial, next)
          | inr (old, _) ↦ a.positive x old
        ];
      }

  module _ (c : Crypto) where
    redeemed-IsServing :
        (s : Store) (r : Request) (now issue_now : ℕ) (out : Result (Store × DeviceCert))
        → redeem_invite c s r now issue_now ≡ out
        → IsServing key node title s
        → IsServing key node title (or_same_pair s out)
    redeemed-IsServing s r now issue_now (err e) h a = a
    redeemed-IsServing s r now issue_now (ok (s', cert)) h a =
        let d = redeem_steps c s r now issue_now s' cert h in
        subst (IsServing key node title) (sym d.recorded)
          (record_device-IsServing s d.org r d.invite d.device_pub d.peer cert now d.org_held a)

    pub run-IsServing :
        (s : Store) (ops : List Op)
        → IsServing key node title s
        → IsServing key node title (run c s ops)
    unfolding run step
    run-IsServing s [] a = a
    run-IsServing s (invite_op raw user_id display_name role ttl_ms now ∷ ops) a =
        run-IsServing (or_same s (create_invite s raw user_id display_name role ttl_ms now)) ops
          (invite-IsServing s raw user_id display_name role ttl_ms now a)
    run-IsServing s (redeem_op r now issue_now ∷ ops) a =
        let out = redeem_invite c s r now issue_now in
        run-IsServing (or_same_pair s out) ops (redeemed-IsServing s r now issue_now out refl a)
    run-IsServing s (revoke_op serial now list_now ∷ ops) a =
        run-IsServing (or_same s (revoke s serial now list_now)) ops
          (revoke-IsServing s serial now list_now a)

    -- Serial 0 is on no list that is published.
    pub unlisted :
        (s : Store) (list : RevocationList)
        → Lawful c
        → IsServing key node title s
        → crl c s ≡ ok list
        → is_revoked list server_serial ≡ false
    unlisted s list law a h = elim (Bool-cases (is_revoked list server_serial)) [
      | inr clean ↦ clean
      | inl hit ↦
          let (x, mx, mark, zeroth) = ((crl_lem c s list law h).1 server_serial).0 hit in
          absurd (omega (arith, a.positive x mx, zeroth))
    ]

ok-injective {ℓ} : {A : Type ℓ} {a b : A} → ok a ≡ ok b → a ≡ b
ok-injective e = cc

none-IsNumbered : IsNumbered 1 []
none-IsNumbered = record {
  keyed = tt;
  bound = λ x m. elim m [ ];
  distinct = λ x y mx my same. elim mx [ ];
}

-- The tables that `init` lays out over empty ones.
pub init-IsServing :
    (c : Crypto) (s s' : Store) (org_secret node_secret admin_token name : Bytes) (now : ℕ)
    → s.devices ≡ []
    → init c s org_secret node_secret admin_token name now ≡ ok s'
    → IsServing (c.encode_keypair org_secret) node_secret name s'
unfolding init
init-IsServing c s s' org_secret node_secret admin_token name now empty h =
    elim (Bool-cases (is_some s.org)) [
      | inl taken ↦ let no : err other ≡ ok s' = rw taken at h in absurd (cc)
      | inr free ↦
          let done : ok (initial s) ≡ ok s' = rw free at h in
          subst (IsServing (c.encode_keypair org_secret) node_secret name) (ok-injective done)
            (record {
              org = row;
              held = refl;
              org_key = refl;
              node_key = refl;
              name = refl;
              next = omega arith;
              numbered = subst (IsNumbered 1) (sym empty) none-IsNumbered;
              positive = λ x m. elim (subst (λ l. Memᴰ x l) empty m) [ ];
            })
    ]
  where
    row : Org
    row = record {
      org_id = org_id c org_secret;
      org_key = c.encode_keypair org_secret;
      node_key = node_secret;
      name = name;
      admin_token = admin_token;
      next_serial = 1;
      crl_updated_at_ms = 0;
      created_at_ms = now;
    }

    initial : Store → Store
    initial s = record s { org = some row }
