-- ===== src/Seed/Main/Trusted.antt =====
-- The server's own certificate: no list that it ever publishes has its serial on it.
use orgsync.Base.{
  ℕ, ◌+◌, ◌%◌, ◌^◌, ◌<◌, ◌≤◌, ◌≡◌, refl, ap, ◌∙◌, false, some, List, [], ◌++◌, Bytes, codes,
  nat_ord, list_ord,
}
use orgsync.Error.{ok}
use orgsync.Crypto.{Crypto, Lawful}
use orgsync.Hlc.{max_clock_drift_ms, saturating_add64, saturating_mul64}
use orgsync.Identity.{admin, org_id, org_from_bytes, from_secret}
use orgsync.Identity.Crl.{RevocationList, is_revoked}
use orgsync.Identity.Cert
use orgsync.Identity.Cert.{DeviceCert, issue_cert}
use orgsync.Identity.Cert.Issued.{verify-issue_cert}
use orgsync.Enroll.{Enrollment, validate}
use orgsync.Seed.{Org, Store, org_row, init, crl, published, revoked_serials}
use orgsync.Http.Handlers.{org_keypair, org_name}
use orgsync.Seed.Run.{Op, run}
use orgsync.Seed.Main.{day_ms, server_serial, node_identity, own_enrollment}
use orgsync.Seed.Main.Serving.{IsServing, run-IsServing, unlisted, init-IsServing}

org_from_bytes-encode :
    (c : Crypto) (inner : Bytes) → Lawful c → org_from_bytes c (c.encode_keypair inner) ≡ ok inner
unfolding org_from_bytes
org_from_bytes-encode c inner law = rw (law.decode-encode_keypair inner, org_from_bytes)

crl_intro :
    (c : Crypto) (s : Store) (org : Org) (inner : Bytes)
    → s.org ≡ some org
    → org_from_bytes c org.org_key ≡ ok inner
    → crl c s ≡ ok (published c inner org.crl_updated_at_ms (revoked_serials s))
unfolding crl
crl_intro c s org inner held key = rw (held, key)

-- What the server makes for itself from its row.
abbrev own : Crypto → Org → Bytes → Bytes → RevocationList → ℕ → ℕ → Enrollment
own c org inner identity list cert_days issued = record {
  org_id = org_id c inner;
  org_name = org.name;
  cert =
      issue_cert c inner (c.public identity) (codes "seed-server")
        (org.name ++ codes " seed server") admin server_serial (saturating_mul64 cert_days day_ms)
        issued;
  crl = list;
  bootstrap = [];
}

own_enrollment_intro :
    (c : Crypto) (s : Store) (org : Org) (inner identity : Bytes) (list : RevocationList)
    (cert_days issued : ℕ)
    → s.org ≡ some org
    → from_secret c org.node_key ≡ ok identity
    → org_from_bytes c org.org_key ≡ ok inner
    → crl c s ≡ ok list
    → own_enrollment c s cert_days issued ≡ ok (own c org inner identity list cert_days issued)
unfolding own_enrollment node_identity
own_enrollment_intro c s org inner identity list cert_days issued held node key listed =
    let row : org_row s ≡ ok org = rw held in
    let pair : org_keypair c s ≡ ok inner = rw (held, key) in
    let named : org_name c s ≡ ok org.name = rw held in rw (listed, row, node, pair, named)

module _ (c : Crypto) (org_secret node_secret name : Bytes) where
  listed :
      (s : Store)
      → Lawful c
      → IsServing (c.encode_keypair org_secret) node_secret name s
      → (list : RevocationList) × (crl c s ≡ ok list)
  listed s law a = (
    published c org_secret a.org.crl_updated_at_ms (revoked_serials s),
    crl_intro c s a.org org_secret a.held
        (ap (org_from_bytes c) a.org_key ∙ org_from_bytes-encode c org_secret law),
  )

  -- A server that has been initialised over tables without devices, and has answered any requests
  -- since, makes itself an enrolment as an admin whenever it is started, and the enrolment holds for
  -- its node. Whatever it answers afterwards, its certificate is accepted under the list that it
  -- publishes then, while the certificate is in its time.
  pub server_trusted :
      (s s₀ : Store) (admin_token : Bytes) (now cert_days issued later : ℕ) (ops ops' : List Op)
      → Lawful c
      → s.devices ≡ []
      → init c s org_secret node_secret admin_token name now ≡ ok s₀
      → from_secret c node_secret ≡ ok node_secret
      → issued ≤ (later + max_clock_drift_ms) % 2 ^ 64
      → later < saturating_add64 issued (saturating_mul64 cert_days day_ms)
      → let before = run c s₀ ops in
        (e : Enrollment) × (list : RevocationList) × (own_enrollment c before cert_days issued
          ≡ ok e)
        × (e.org_id ≡ org_id c org_secret)
        × (e.cert.claims.role ≡ admin)
        × (validate c e node_secret later ≡ ok tt)
        × (crl c (run c before ops') ≡ ok list)
        × (Cert.verify c e.cert e.org_id (some (c.peer_id (c.public node_secret))) (some list) later
            ≡ ok tt)
  unfolding issue_cert validate
  server_trusted s s₀ admin_token now cert_days issued later ops ops' law empty made key started
        alive =
      let a =
        run-IsServing (c.encode_keypair org_secret) node_secret name c s₀ ops
          (init-IsServing c s s₀ org_secret node_secret admin_token name now empty made) in
      let a' =
        run-IsServing (c.encode_keypair org_secret) node_secret name c (run c s₀ ops) ops' a in
      let (own_list, own_listed) = listed (run c s₀ ops) law a in
      let (list, then_listed) = listed (run c (run c s₀ ops) ops') law a' in
      let accepted = λ (l : RevocationList) (clean : is_revoked l server_serial ≡ false).
        verify-issue_cert c org_secret (c.public node_secret) (codes "seed-server")
          (a.org.name ++ codes " seed server") admin server_serial
          (saturating_mul64 cert_days day_ms) issued later l law (law.public-accepted node_secret)
          started alive clean in
      (
        own c a.org org_secret node_secret own_list cert_days issued,
        list,
        own_enrollment_intro c (run c s₀ ops) a.org org_secret node_secret own_list cert_days issued
            a.held (ap (from_secret c) a.node_key ∙ key)
            (ap (org_from_bytes c) a.org_key ∙ org_from_bytes-encode c org_secret law) own_listed,
        refl,
        refl,
        accepted own_list (
            unlisted (c.encode_keypair org_secret) node_secret name c (run c s₀ ops) own_list law a
              own_listed),
        then_listed,
        accepted list (
            unlisted (c.encode_keypair org_secret) node_secret name c (run c (run c s₀ ops) ops')
              list law a' then_listed),
      )
