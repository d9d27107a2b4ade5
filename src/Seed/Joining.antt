-- ===== src/Seed/Joining.antt =====
-- An honest device that holds a code joins: the server redeems its request, and the device accepts
-- the reply.
use orgsync.Base.{
  ℕ, ◌+◌, ◌%◌, ◌^◌, ◌<◌, ◌≤◌, ◌≡◌, refl, sym, ap, ◌∙◌, subst, true, false, inl, inr, some, none,
  List, Bytes, any, mem_of_any, find, length, ltb, ◌==◌, ==_iff, Bool-cases, nat_ord, list_ord,
  arith,
}
use orgsync.Error.{ok}
use orgsync.Crypto.{Crypto, Lawful}
use orgsync.Hlc.{max_clock_drift_ms, saturating_add64}
use orgsync.Identity.{org_id, org_from_bytes, device_pub_to_peer_id, ed25519_public, from_str_lossy}
use orgsync.Identity.Crl
use orgsync.Identity.Crl.{RevocationList}
use orgsync.Identity.Cert
use orgsync.Identity.Cert.{DeviceCert, check_crl, issue_cert, peer_id}
use orgsync.Identity.Cert.Issued.{verify_issued}
use orgsync.Identity.Proof.{sign_enrollment, verify_enrollment_proof, verify-sign_enrollment}
use orgsync.Enroll.{
  EnrollRequest, EnrollResponse, Enrollment, normalize_invite_code, build_enroll_request,
  key_of_hex, accept_with, accept,
}
use orgsync.Seed.{
  enroll_skew_ms, abs_diff, is_some, has_serial, Org, Invite, Store, Request, org_row,
  check_request, check_invite, name_of, cert_of, record_device, redeem_invite,
}
use orgsync.Seed.Token.{random_token, invite_code_display, normalize-display}
use orgsync.Seed.Serial.{IsNumbered, IsConsistent}

-- The arguments that the handler of `POST /v1/enroll` passes on.
abbrev pub request_of : EnrollRequest → ℕ → Request
request_of e cert_ttl_ms = record {
  token = e.invite_token;
  device_pub_hex = e.device_pub;
  device_name = e.device_name;
  platform = e.platform;
  at_ms = e.at_ms;
  proof_hex = e.proof;
  cert_ttl_ms = cert_ttl_ms;
}

-- The reply of that handler.
abbrev pub reply_of :
    Crypto → Bytes → DeviceCert → RevocationList → Bytes → List Bytes → EnrollResponse
reply_of c inner cert list name bootstrap = record {
  cert = cert;
  crl = list;
  org = record {
    org_id = org_id c inner;
    org_pub = c.hex_encode (c.public inner);
    name = name;
    bootstrap = bootstrap;
  };
}

-- What the device then keeps.
abbrev pub joined : Crypto → Bytes → DeviceCert → RevocationList → Bytes → List Bytes → Enrollment
joined c inner cert list name bootstrap = record {
  org_id = org_id c inner;
  org_name = name;
  cert = cert;
  crl = list;
  bootstrap = bootstrap;
}

key_of_hex-public :
    (c : Crypto) (secret : Bytes)
    → Lawful c
    → key_of_hex c (c.hex_encode (c.public secret)) ≡ ok (c.public secret)
unfolding key_of_hex
key_of_hex-public c secret law =
    let size : (length (c.public secret) == 32) ≡ true =
      (==_iff (length (c.public secret)) 32).1 (law.public-length secret) in
    rw (law.hex_decode-encode (c.public secret), key_of_hex, size)

accept_intro :
    (c : Crypto) (inner : Bytes) (cert : DeviceCert) (list : RevocationList) (name : Bytes)
    (bootstrap : List Bytes) (secret : Bytes) (now : ℕ)
    → Lawful c
    → cert.claims.device_pub ≡ c.public secret
    → Cert.verify c cert (org_id c inner) (some (c.peer_id (c.public secret))) none now ≡ ok tt
    → Crl.verify c list (org_id c inner) ≡ ok tt
    → accept c (reply_of c inner cert list name bootstrap) secret now
      ≡ ok (joined c inner cert list name bootstrap)
unfolding accept accept_with
accept_intro c inner cert list name bootstrap secret now law own certified listed =
    let same = (==_iff (org_id c inner) (org_id c inner)).1 refl in
    let key = (==_iff cert.claims.device_pub (c.public secret)).1 own in
    rw (key_of_hex-public c inner law, same, key, certified, listed)

-- A code as the device was told it: the stored one in its grouped form.
abbrev pub shown : Bytes → Bytes
shown raw = invite_code_display (random_token raw)

check_request_intro :
    (c : Crypto) (r : Request) (now : ℕ) (device_pub proof : Bytes)
    → ltb enroll_skew_ms (abs_diff r.at_ms now) ≡ false
    → key_of_hex c r.device_pub_hex ≡ ok device_pub
    → c.hex_decode r.proof_hex ≡ some proof
    → verify_enrollment_proof c device_pub
        (normalize_invite_code r.token)
        r.device_name
        r.at_ms
        proof
      ≡ ok tt
    → check_request c r now ≡ ok device_pub
unfolding check_request
check_request_intro c r now device_pub proof near key decoded proven =
    rw (near, key, decoded, proven)

check_invite_intro :
    (s : Store) (token : Bytes) (now : ℕ) (invite : Invite)
    → find token s.invites ≡ some invite
    → is_some invite.used_at_ms ≡ false
    → now ≤ invite.expires_at_ms
    → check_invite s token now ≡ ok invite
unfolding check_invite
check_invite_intro s token now invite held unused alive =
    let fresh : ltb invite.expires_at_ms now ≡ false = ground arith in
    rw (held, check_invite, unused, fresh)

-- Consistent tables have the next serial free.
next_is_free :
    (s : Store) (org : Org)
    → IsNumbered org.next_serial s.devices
    → any (has_serial org.next_serial) s.devices ≡ false
next_is_free s org n = elim (Bool-cases (any (has_serial org.next_serial) s.devices)) [
  | inl taken ↦
      let (x, mx, e) = mem_of_any (has_serial org.next_serial) s.devices taken in
      let same = (==_iff x.1.serial org.next_serial).0 e in
      absurd (omega (arith, n.bound x mx, same))
  | inr free ↦ free
]

redeem_intro :
    (c : Crypto) (s : Store) (r : Request) (now issue_now : ℕ) (device_pub : Bytes)
    (invite : Invite) (org : Org) (inner : Bytes)
    → check_request c r now ≡ ok device_pub
    → check_invite s (normalize_invite_code r.token) now ≡ ok invite
    → s.org ≡ some org
    → org_from_bytes c org.org_key ≡ ok inner
    → c.is_public_key device_pub ≡ true
    → any (has_serial org.next_serial) s.devices ≡ false
    → let cert = cert_of c inner device_pub r invite org.next_serial issue_now in
      redeem_invite c s r now issue_now
      ≡ ok (record_device s org r invite device_pub (c.peer_id device_pub) cert now, cert)
unfolding redeem_invite cert_of issue_cert device_pub_to_peer_id ed25519_public
redeem_intro c s r now issue_now device_pub invite org inner requested invited held key accepted
      free =
    let row : org_row s ≡ ok org = rw held in rw (requested, invited, row, key, accepted, free)

module _ (c : Crypto) (secret raw device_name platform : Bytes) (at_ms cert_ttl_ms : ℕ) where
  abbrev pub honest : Request
  honest =
      request_of (build_enroll_request c secret (shown raw) device_name platform at_ms) cert_ttl_ms

  honest_token : normalize_invite_code honest.token ≡ random_token raw
  unfolding build_enroll_request
  honest_token = let (read, again) = normalize-display raw in ap normalize_invite_code read ∙ again

  honest_request :
      (now : ℕ)
      → Lawful c
      → abs_diff at_ms now ≤ enroll_skew_ms
      → check_request c honest now ≡ ok (c.public secret)
  unfolding build_enroll_request
  honest_request now law near =
      let token = normalize_invite_code (shown raw) in
      let proof = sign_enrollment c secret token device_name at_ms in
      let same : token ≡ normalize_invite_code honest.token =
        (normalize-display raw).0 ∙ sym honest_token in
      check_request_intro c honest now (c.public secret) proof (ground arith)
        (key_of_hex-public c secret law) (law.hex_decode-encode proof)
        (subst (λ t. verify_enrollment_proof c (c.public secret) t device_name at_ms proof ≡ ok tt)
          same (verify-sign_enrollment c secret token device_name at_ms law))

  -- A device asks with a code that is in the table, unused and not expired, at a time that is near
  -- the server's: the server redeems it, with the next serial, and the device accepts the reply,
  -- with any revocation list that verifies, while the certificate is valid by the device's clock.
  pub joins :
      (s : Store) (org : Org) (inner : Bytes) (invite : Invite) (list : RevocationList)
      (name : Bytes) (bootstrap : List Bytes) (now issue_now later : ℕ)
      → Lawful c
      → IsConsistent s
      → s.org ≡ some org
      → org_from_bytes c org.org_key ≡ ok inner
      → find (random_token raw) s.invites ≡ some invite
      → is_some invite.used_at_ms ≡ false
      → now ≤ invite.expires_at_ms
      → abs_diff at_ms now ≤ enroll_skew_ms
      → Crl.verify c list (org_id c inner) ≡ ok tt
      → issue_now ≤ (later + max_clock_drift_ms) % 2 ^ 64
      → later < saturating_add64 issue_now cert_ttl_ms
      → (s' : Store) × (cert : DeviceCert) × (redeem_invite c s honest now issue_now
          ≡ ok (s', cert))
        × (cert.claims.serial ≡ org.next_serial)
        × (accept c (reply_of c inner cert list name bootstrap) secret later
            ≡ ok (joined c inner cert list name bootstrap))
  unfolding cert_of issue_cert
  joins s org inner invite list name bootstrap now issue_now later law good held key found unused
        alive near listed started unexpired =
      let cert = cert_of c inner (c.public secret) honest invite org.next_serial issue_now in
      let accepted = law.public-accepted secret in
      let invited : check_invite s (normalize_invite_code honest.token) now ≡ ok invite =
        ap (λ t. check_invite s t now) honest_token
        ∙ check_invite_intro s (random_token raw) now invite found unused alive in
      let certified : Cert.verify c cert (org_id c inner) (some (c.peer_id (c.public secret))) none
            later
          ≡ ok tt =
        verify_issued c inner (c.public secret) invite.user_id (name_of honest invite)
          (from_str_lossy invite.role) org.next_serial cert_ttl_ms issue_now later none law accepted
          started unexpired (unfold check_crl in refl) in
      (
        record_device s org honest invite (c.public secret) (c.peer_id (c.public secret)) cert now,
        cert,
        redeem_intro c s honest now issue_now (c.public secret) invite org inner
            (honest_request now law near) invited held key accepted
            (next_is_free s org (good org held)),
        refl,
        accept_intro c inner cert list name bootstrap secret later law refl certified listed,
      )
