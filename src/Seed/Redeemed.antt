-- ===== src/Seed/Redeemed.antt =====
-- What a redemption that succeeds has gone through.
use orgsync.Base.{
  ℕ, ◌≡◌, refl, sym, ap, ◌∙◌, subst, false, inl, inr, some, Bytes, any, Bool-cases, if◌then◌else◌,
  nat_ord, list_ord, arith,
}
use orgsync.Error.{Result, ok, err, sqlite, ok_of_bind}
use orgsync.Crypto.{Crypto}
use orgsync.Identity.{org_from_bytes}
use orgsync.Identity.Cert.{DeviceCert, peer_id}
use orgsync.Enroll.{normalize_invite_code}
use orgsync.Seed.{
  Org, Invite, Store, Request, has_serial, org_row, check_request, check_invite, cert_of,
  record_device, redeem_invite,
}

pub record IsRedeemed (c : Crypto) (s : Store) (r : Request) (now issue_now : ℕ) (s' : Store)
    (cert : DeviceCert) : Type 0 where
  pub device_pub : Bytes
  pub invite : Invite
  pub org : Org
  pub inner : Bytes
  pub peer : Bytes
  pub requested : check_request c r now ≡ ok device_pub
  pub invited : check_invite s (normalize_invite_code r.token) now ≡ ok invite
  pub org_held : s.org ≡ some org
  pub key_held : org_from_bytes c org.org_key ≡ ok inner
  pub issued : cert ≡ cert_of c inner device_pub r invite org.next_serial issue_now
  pub peer_held : peer_id c cert ≡ ok peer
  pub fresh : any (has_serial org.next_serial) s.devices ≡ false
  pub recorded : s' ≡ record_device s org r invite device_pub peer cert now

org_of_row : (s : Store) {org : Org} → org_row s ≡ ok org → s.org ≡ some org
org_of_row s h = ground arith

finish :
    (c : Crypto) (s : Store) (r : Request) (now issue_now : ℕ) (s' : Store) (cert : DeviceCert)
    (device_pub : Bytes) (invite : Invite) (org : Org) (inner peer : Bytes) (made : DeviceCert)
    → check_request c r now ≡ ok device_pub
    → check_invite s (normalize_invite_code r.token) now ≡ ok invite
    → s.org ≡ some org
    → org_from_bytes c org.org_key ≡ ok inner
    → made ≡ cert_of c inner device_pub r invite org.next_serial issue_now
    → peer_id c made ≡ ok peer
    → if◌then◌else◌ {A = Result (Store × DeviceCert)}
        (any (has_serial org.next_serial) s.devices)
        (err sqlite)
        (ok (record_device s org r invite device_pub peer made now, made))
      ≡ ok (s', cert)
    → IsRedeemed c s r now issue_now s' cert
finish c s r now issue_now s' cert device_pub invite org inner peer made requested invited org_held
      key_held issued peer_held h =
    elim (Bool-cases (any (has_serial org.next_serial) s.devices)) [
      | inl taken ↦
          let no : ◌≡◌ {A = Result (Store × DeviceCert)} (err sqlite) (ok (s', cert)) =
            rw taken at h in
          absurd (cc)
      | inr fresh ↦
          let done : ◌≡◌ {A = Result (Store × DeviceCert)}
              (ok (record_device s org r invite device_pub peer made now, made)) (ok (s', cert)) =
            rw fresh at h in
          let same : made ≡ cert = cc in
          let store : record_device s org r invite device_pub peer made now ≡ s' = cc in
          record {
            device_pub = device_pub;
            invite = invite;
            org = org;
            inner = inner;
            peer = peer;
            requested = requested;
            invited = invited;
            org_held = org_held;
            key_held = key_held;
            issued = sym same ∙ issued;
            peer_held = subst (λ k. peer_id c k ≡ ok peer) same peer_held;
            fresh = fresh;
            recorded =
                sym store ∙ ap (λ k. record_device s org r invite device_pub peer k now) same;
          }
    ]

pub redeem_steps :
    (c : Crypto) (s : Store) (r : Request) (now issue_now : ℕ) (s' : Store) (cert : DeviceCert)
    → redeem_invite c s r now issue_now ≡ ok (s', cert)
    → IsRedeemed c s r now issue_now s' cert
unfolding redeem_invite
redeem_steps c s r now issue_now s' cert h =
    let (device_pub, requested, h₁) = ok_of_bind (check_request c r now) _ h in
    let (invite, invited, h₂) =
      ok_of_bind (check_invite s (normalize_invite_code r.token) now) _ h₁ in
    let (org, org_held, h₃) = ok_of_bind (org_row s) _ h₂ in
    let (inner, key_held, h₄) = ok_of_bind (org_from_bytes c org.org_key) _ h₃ in
    let cert' = cert_of c inner device_pub r invite org.next_serial issue_now in
    let (peer, peer_held, h₅) = ok_of_bind (peer_id c cert') _ h₄ in
    finish c s r now issue_now s' cert device_pub invite org inner peer cert' requested invited
      (org_of_row s org_held) key_held refl peer_held h₅
