-- ===== src/Http/Handlers.antt =====
-- The handlers of rust/seed-server/src/http.rs, on the server's tables. A handler gives back the
-- tables and its reply; the texts of errors, JSON and routing are not modelled. The listings of
-- store.rs that they return are here too.
pub mod Gate
pub mod Serve
use orgsync.Base.{
  ℕ, ◌+◌, ◌-◌, ◌*◌, Bool, true, false, ◌&&◌, ◌||◌, Option, none, some, List, [], ◌∷◌, map, Bytes,
  codes, take, sort_by, ltb, leb, length, ◌==◌, if◌then◌else◌, nat_ord, list_ord,
}
use orgsync.Error.{Result, ok, err}
use orgsync.Crypto.{Crypto}
use orgsync.Hlc.{u64_max, saturating_add64, saturating_mul64}
use orgsync.Identity.{Role, as_str, org_id, org_from_bytes, from_str_lossy}
use orgsync.Identity.Crl.{RevocationList}
use orgsync.Identity.Cert.{DeviceCert}
use orgsync.Enroll.{OrgInfo, EnrollRequest, EnrollResponse}
use orgsync.Seed
use orgsync.Seed.{Org, Invite, Device, Store, org_row, redeem_invite}
use orgsync.Seed.Token.{random_token}
use orgsync.Seed.Joining.{request_of, reply_of}
use orgsync.Http.{given_token, token_matches}

-- The `status` of an `ApiError`.
pub data Status : Type 0 where
  bad_request : Status
  unauthorized : Status
  internal : Status

pub data ApiResult {ℓ} (T : Type ℓ) : Type ℓ where
  done : T → ApiResult T
  refused : Status → ApiResult T

-- `?` in a handler: an error of the tables is internal, unless the handler names another.
abbrev pub or_status {ℓ} : {T : Type ℓ} → Status → Result T → ApiResult T
or_status status (ok t) = done t
or_status status (err e) = refused status

infixl 5 ◌>>=◌
abbrev pub ◌>>=◌ {ℓ κ} : {T : Type ℓ} {U : Type κ} → ApiResult T → (T → ApiResult U) → ApiResult U
◌>>=◌ (refused s) rest = refused s
◌>>=◌ (done t) rest = rest t

pub record AppState : Type 0 where
  pub store : Store
  pub bootstrap : List Bytes
  pub cert_ttl_ms : ℕ

abbrev pub hour_ms : ℕ
hour_ms = 3600000

abbrev is_ascii_white : ℕ → Bool
is_ascii_white b = (leb 9 b && leb b 13) || b == 32

abbrev is_white3 : ℕ → ℕ → ℕ → Bool
is_white3 a b c =
    (a == 0xe1 && (b == 0x9a && c == 0x80))
    || ((a == 0xe2 && (b == 0x80 && ((leb 0x80 c && leb c 0x8a) || (leb 0xa8 c && leb c 0xa9))))
        || ((a == 0xe2 && (b == 0x80 && c == 0xaf))
            || ((a == 0xe2 && (b == 0x81 && c == 0x9f))
                || (a == 0xe3 && (b == 0x80 && c == 0x80)))))

-- Whether nothing is left of a text after `trim`: it has only characters of White_Space, in UTF-8.
unfoldable pub is_blank_text : Bytes → Bool
is_blank_text [] = true
is_blank_text (b ∷ []) = is_ascii_white b
is_blank_text (b ∷ b' ∷ []) = elim (is_ascii_white b) [
  | true ↦ is_ascii_white b'
  | false ↦ b == 0xc2 && (b' == 0x85 || b' == 0xa0)
]
is_blank_text (b ∷ b' ∷ b'' ∷ s) = elim (is_ascii_white b) [
  | true ↦ is_blank_text (b' ∷ b'' ∷ s)
  | false ↦ elim (b == 0xc2 && (b' == 0x85 || b' == 0xa0)) [
    | true ↦ is_blank_text (b'' ∷ s)
    | false ↦ elim (is_white3 b b' b'') [ true ↦ is_blank_text s | false ↦ false ]
  ]
]

unfoldable pub require_admin : Store → Option Bytes → ApiResult (Unit {0})
unfolding token_matches
require_admin s header = do
  org ← or_status internal (org_row s)
  if token_matches (given_token header) org.admin_token then done tt else refused unauthorized

module _ (c : Crypto) where
  abbrev pub org_keypair : Store → Result Bytes
  org_keypair s = elim (org_row s) [ err e ↦ err e | ok org ↦ org_from_bytes c org.org_key ]

  abbrev pub org_name : Store → Result Bytes
  org_name s = elim (org_row s) [ err e ↦ err e | ok org ↦ ok org.name ]

  unfoldable pub org_info : AppState → ApiResult OrgInfo
  org_info state = do
    org ← or_status internal (org_keypair state.store)
    name ← or_status internal (org_name state.store)
    done (record {
      org_id = org_id c org;
      org_pub = c.hex_encode (c.public org);
      name = name;
      bootstrap = state.bootstrap;
    })

  unfoldable pub crl : AppState → ApiResult RevocationList
  crl state = or_status internal (Seed.crl c state.store)

  -- What is replied once the invite has been redeemed.
  unfoldable pub enrolled : AppState → DeviceCert → ApiResult EnrollResponse
  enrolled state cert = do
    org ← or_status internal (org_keypair state.store)
    list ← or_status internal (Seed.crl c state.store)
    name ← or_status internal (org_name state.store)
    done (reply_of c org cert list name state.bootstrap)

  -- What comes of redeeming: an error is the caller's, and later ones leave the device recorded.
  unfoldable pub after_redeem :
      AppState → Result (Store × DeviceCert) → AppState × ApiResult EnrollResponse
  unfolding enrolled
  after_redeem state (err e) = (state, refused bad_request)
  after_redeem state (ok (store, cert)) =
      let state' = record state { store = store } in (state', enrolled state' cert)

  unfoldable pub enroll : AppState → EnrollRequest → ℕ → ℕ → AppState × ApiResult EnrollResponse
  unfolding after_redeem
  enroll state req now issue_now =
      after_redeem state
        (redeem_invite c state.store (request_of req state.cert_ttl_ms) now issue_now)

-- The body of a request for an invite; what it leaves out has its default.
pub record CreateInvite : Type 0 where
  pub user_id : Bytes
  pub display_name : Option Bytes
  pub role : Option Bytes
  pub ttl_hours : Option ℕ

abbrev pub or_default {ℓ} : {A : Type ℓ} → A → Option A → A
or_default a none = a
or_default a (some b) = b

pub record InviteCreated : Type 0 where
  pub invite_code : Bytes
  pub user_id : Bytes
  pub role : Bytes
  pub expires_at_ms : ℕ

abbrev pub display_of : CreateInvite → Bytes
display_of body =
    let name = or_default [] body.display_name in if length name == 0 then body.user_id else name

abbrev pub role_of : CreateInvite → Role
role_of body = from_str_lossy (or_default (codes "member") body.role)

abbrev pub ttl_of : CreateInvite → ℕ
ttl_of body = saturating_mul64 (or_default 24 body.ttl_hours) hour_ms

-- The reply shows the row that was inserted.
abbrev pub created : Bytes → Bytes → ℕ → ℕ → Role → InviteCreated
created token user_id now ttl_ms role = record {
  invite_code = token;
  user_id = user_id;
  role = as_str role;
  expires_at_ms = saturating_add64 now ttl_ms;
}

abbrev after_create :
    AppState → CreateInvite → Bytes → ℕ → Result Store → AppState × ApiResult InviteCreated
after_create state body raw now (err e) = (state, refused internal)
after_create state body raw now (ok store) = (
  record state { store = store },
  done (created (random_token raw) body.user_id now (ttl_of body) (role_of body)),
)

-- The bytes of the token are drawn, and the clock is read once.
unfoldable pub create_invite :
    AppState → Option Bytes → CreateInvite → Bytes → ℕ → AppState × ApiResult InviteCreated
unfolding require_admin is_blank_text
create_invite state header body raw now = elim (require_admin state.store header) [
  | refused status ↦ (state, refused status)
  | done u ↦
      if is_blank_text body.user_id
      then (state, refused bad_request)
      else after_create state body raw now (
          Seed.create_invite state.store raw body.user_id (display_of body) (role_of body)
            (ttl_of body) now)
]

-- `ORDER BY serial`.
unfoldable pub devices : Store → List (Bytes × Device)
devices s = sort_by (λ (e : Bytes × Device). e.1.serial) s.devices

abbrev pub newest_first : Bytes × Invite → ℕ
newest_first e = u64_max - e.1.created_at_ms

-- `ORDER BY created_at_ms DESC LIMIT 200`.
unfoldable pub invites : Store → List (Bytes × Invite)
invites s = take 200 (sort_by newest_first s.invites)

unfoldable pub list_invites : AppState → Option Bytes → ApiResult (List (Bytes × Invite))
unfolding require_admin invites
list_invites state header = do admin ← require_admin state.store header; done (invites state.store)

unfoldable pub list_devices : AppState → Option Bytes → ApiResult (List (Bytes × Device))
unfolding require_admin devices
list_devices state header = do admin ← require_admin state.store header; done (devices state.store)

module _ (c : Crypto) where
  abbrev after_revoke : AppState → Result Store → AppState × ApiResult RevocationList
  after_revoke state (err e) = (state, refused bad_request)
  after_revoke state (ok store) =
      (record state { store = store }, or_status internal (Seed.crl c store))

  unfoldable pub revoke : AppState → Option Bytes → ℕ → ℕ → ℕ → AppState × ApiResult RevocationList
  unfolding require_admin
  revoke state header serial now list_now = elim (require_admin state.store header) [
    | refused status ↦ (state, refused status)
    | done u ↦ after_revoke state (Seed.revoke state.store serial now list_now)
  ]
