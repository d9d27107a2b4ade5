-- ===== src/Seed.antt =====
-- rust/seed-server/src/store.rs: the organisation's key, the invites and the devices. A call that
-- fails leaves the tables as they were, as its transaction does; the texts of failures are not
-- modelled, nor failures of SQLite other than of a uniqueness constraint. Columns are as wide as
-- the u64 that is stored in them.
pub mod Token
pub mod Redeemed
pub mod Run
pub mod Spent
pub mod Serial
pub mod Fresh
pub mod Revoked
pub mod Reenrolled
pub mod Joining
pub mod Main
use orgsync.Base.{
  ℕ, ◌+◌, ◌-◌, Bool, true, false, ◌||◌, Option, none, some, List, [], ◌∷◌, Bytes, any, find, put,
  keep, map, sort_by, ltb, length, ◌==◌, if◌then◌else◌, nat_ord, list_ord,
}
use orgsync.Error.{Result, ok, err, sqlite, other, ◌>>=◌}
use orgsync.Crypto.{Crypto}
use orgsync.Hlc.{saturating_add64}
use orgsync.Identity.{Role, as_str, from_str_lossy, org_id, org_from_bytes}
use orgsync.Identity.Crl.{RevocationList, empty_crl, sign_crl}
use orgsync.Identity.Cert.{DeviceCert, issue_cert, peer_id}
use orgsync.Identity.Proof.{verify_enrollment_proof}
use orgsync.Enroll.{normalize_invite_code, key_of_hex}
use orgsync.Seed.Token.{random_token}

abbrev pub enroll_skew_ms : ℕ
enroll_skew_ms = 300000

-- The row of the table `org`.
pub record Org : Type 0 where
  pub org_id : Bytes
  pub org_key : Bytes
  pub node_key : Bytes
  pub name : Bytes
  pub admin_token : Bytes
  pub next_serial : ℕ
  pub crl_updated_at_ms : ℕ
  pub created_at_ms : ℕ

-- A row of the table `invite` without its key, the token.
pub record Invite : Type 0 where
  pub user_id : Bytes
  pub display_name : Bytes
  pub role : Bytes
  pub created_at_ms : ℕ
  pub expires_at_ms : ℕ
  pub used_at_ms : Option ℕ
  pub used_by : Option Bytes

-- A row of the table `device` without the peer id, which is unique.
pub record Device : Type 0 where
  pub serial : ℕ
  pub device_pub : Bytes
  pub user_id : Bytes
  pub display_name : Bytes
  pub role : Bytes
  pub platform : Bytes
  pub enrolled_at_ms : ℕ
  pub expires_at_ms : ℕ
  pub revoked_at_ms : Option ℕ

pub record Store : Type 0 where
  pub org : Option Org
  pub invites : List (Bytes × Invite)
  pub devices : List (Bytes × Device)

-- What a request to enrol carries, as the handler passes it on.
pub record Request : Type 0 where
  pub token : Bytes
  pub device_pub_hex : Bytes
  pub device_name : Bytes
  pub platform : Bytes
  pub at_ms : ℕ
  pub proof_hex : Bytes
  pub cert_ttl_ms : ℕ

abbrev pub abs_diff : ℕ → ℕ → ℕ
abs_diff a b = (a - b) + (b - a)

abbrev pub is_some {ℓ} : {A : Type ℓ} → Option A → Bool
is_some none = false
is_some (some a) = true

abbrev pub has_serial : ℕ → Bytes × Device → Bool
has_serial serial row = row.1.serial == serial

abbrev pub is_active : ℕ → Bytes × Device → Bool
is_active serial row = if is_some row.1.revoked_at_ms then false else row.1.serial == serial

abbrev pub is_withdrawn : Bytes × Device → Bool
is_withdrawn row = is_some row.1.revoked_at_ms

-- The secrets and the admin token are drawn by the caller, here and below.
unfoldable pub init : Crypto → Store → Bytes → Bytes → Bytes → Bytes → ℕ → Result Store
init c s org_secret node_secret admin_token name now =
    if is_some s.org
    then err other
    else ok (record s {
      org = some (record {
        org_id = org_id c org_secret;
        org_key = c.encode_keypair org_secret;
        node_key = node_secret;
        name = name;
        admin_token = admin_token;
        next_serial = 1;
        crl_updated_at_ms = 0;
        created_at_ms = now;
      });
    })

-- The query for the row of `org`.
abbrev pub org_row : Store → Result Org
org_row s = elim s.org [ none ↦ err other | some org ↦ ok org ]

unfoldable pub create_invite : Store → Bytes → Bytes → Bytes → Role → ℕ → ℕ → Result Store
create_invite s raw user_id display_name role ttl_ms now =
    let token = random_token raw in
    if is_some (find token s.invites)
    then err sqlite
    else ok (record s {
      invites =
          put token
            (record {
              user_id = user_id;
              display_name = display_name;
              role = as_str role;
              created_at_ms = now;
              expires_at_ms = saturating_add64 now ttl_ms;
              used_at_ms = none;
              used_by = none;
            })
            s.invites;
    })

-- What `redeem_invite` asks of a request before it looks at the tables.
unfoldable pub check_request : Crypto → Request → ℕ → Result Bytes
unfolding normalize_invite_code key_of_hex verify_enrollment_proof
check_request c r now = if ltb enroll_skew_ms (abs_diff r.at_ms now) then err other else do
  device_pub ← key_of_hex c r.device_pub_hex
  proof ← elim (c.hex_decode r.proof_hex) [ none ↦ err other | some bytes ↦ ok bytes ]
  proven ←
      verify_enrollment_proof c device_pub (normalize_invite_code r.token) r.device_name r.at_ms
        proof
  ok device_pub

-- The invite, if it may still be redeemed.
unfoldable pub check_invite : Store → Bytes → ℕ → Result Invite
check_invite s token now = elim (find token s.invites) [
  | none ↦ err other
  | some invite ↦
      if is_some invite.used_at_ms
      then err other
      else if ltb invite.expires_at_ms now
      then err other
      else ok invite
]

-- `INSERT .. ON CONFLICT(peer_id) DO UPDATE`.
unfoldable pub put_device : List (Bytes × Device) → Bytes → Device → List (Bytes × Device)
put_device devices peer row = elim (find peer devices) [
  | none ↦ put peer row devices
  | some old ↦
      put peer
        (record old {
          serial = row.serial;
          display_name = row.display_name;
          role = row.role;
          platform = row.platform;
          enrolled_at_ms = row.enrolled_at_ms;
          expires_at_ms = row.expires_at_ms;
          revoked_at_ms = none;
        })
        devices
]

abbrev pub name_of : Request → Invite → Bytes
name_of r invite = if length r.device_name == 0 then invite.display_name else r.device_name

-- The certificate that an invite is worth. The clock is read once more to issue it.
unfoldable pub cert_of : Crypto → Bytes → Bytes → Request → Invite → ℕ → ℕ → DeviceCert
unfolding issue_cert
cert_of c inner device_pub r invite serial issue_now =
    issue_cert c inner device_pub invite.user_id (name_of r invite) (from_str_lossy invite.role)
      serial r.cert_ttl_ms issue_now

-- The values that are inserted for the device.
abbrev pub new_device : Org → Request → Invite → DeviceCert → ℕ → Device
new_device org r invite cert now = record {
  serial = org.next_serial;
  device_pub = r.device_pub_hex;
  user_id = invite.user_id;
  display_name = name_of r invite;
  role = invite.role;
  platform = r.platform;
  enrolled_at_ms = now;
  expires_at_ms = cert.claims.expires_at_ms;
  revoked_at_ms = none;
}

-- The tables once the certificate has been made.
unfoldable pub record_device :
    Store → Org → Request → Invite → Bytes → Bytes → DeviceCert → ℕ → Store
unfolding normalize_invite_code put_device
record_device s org r invite device_pub peer cert now = record {
  org = some (record org { next_serial = org.next_serial + 1 });
  invites =
      put (normalize_invite_code r.token)
        (record invite { used_at_ms = some now; used_by = some peer }) s.invites;
  devices = put_device s.devices peer (new_device org r invite cert now);
}

unfoldable pub redeem_invite : Crypto → Store → Request → ℕ → ℕ → Result (Store × DeviceCert)
unfolding check_request check_invite cert_of record_device
redeem_invite c s r now issue_now = do
  device_pub ← check_request c r now
  invite ← check_invite s (normalize_invite_code r.token) now
  org ← org_row s
  inner ← org_from_bytes c org.org_key
  let cert = cert_of c inner device_pub r invite org.next_serial issue_now
  peer ← peer_id c cert
  if any (has_serial org.next_serial) s.devices
      then err sqlite
      else ok (record_device s org r invite device_pub peer cert now, cert)

-- `UPDATE device SET revoked_at_ms = ..`.
unfoldable pub revoke_rows : ℕ → ℕ → List (Bytes × Device) → List (Bytes × Device)
revoke_rows serial now [] = []
revoke_rows serial now ((peer, d) ∷ devices) =
    let rest = revoke_rows serial now devices in
    (peer, if is_active serial (peer, d) then record d { revoked_at_ms = some now } else d) ∷ rest

abbrev pub touch_crl : Option Org → ℕ → Option Org
touch_crl none now = none
touch_crl (some org) now = some (record org { crl_updated_at_ms = now })

-- The clock is read once for the device and once for the list.
unfoldable pub revoke : Store → ℕ → ℕ → ℕ → Result Store
unfolding revoke_rows
revoke s serial now list_now =
    if any (is_active serial) s.devices
    then ok
        (record s { devices = revoke_rows serial now s.devices; org = touch_crl s.org list_now })
    else err other

-- The serials that are revoked, in order.
unfoldable pub revoked_serials : Store → List ℕ
revoked_serials s = sort_by (λ k. k) (map (λ row. row.1.serial) (keep is_withdrawn s.devices))

-- The list that is made of them. With none it is the empty list, which is not signed.
unfoldable pub published : Crypto → Bytes → ℕ → List ℕ → RevocationList
published c inner updated_at_ms [] = empty_crl (org_id c inner)
published c inner updated_at_ms (k ∷ rest) = sign_crl c inner (k ∷ rest) updated_at_ms

unfoldable pub crl : Crypto → Store → Result RevocationList
unfolding revoked_serials published
crl c s = do
  org ← org_row s
  inner ← org_from_bytes c org.org_key
  ok (published c inner org.crl_updated_at_ms (revoked_serials s))
