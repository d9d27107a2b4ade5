-- ===== src/Seed/Main.antt =====
-- rust/seed-server/src/main.rs: the commands, the addresses that are announced, and the enrolment
-- that the server makes for itself. What is drawn and read of the clock is passed in; parsing an IP
-- address, printing and the HTTP listener are left out.
pub mod Marks
pub mod Announced
pub mod Serving
pub mod Trusted
use orgsync.Base.{
  ℕ, ◌*◌, Bool, true, false, not, ◌&&◌, ◌||◌, Option, none, some, List, [], ◌∷◌, ◌++◌, Bytes, codes,
  any, take, length, ltb, ◌==◌, if◌then◌else◌, print_nat, nat_ord, list_ord,
}
use orgsync.Error.{Result, ok, err, ◌>>=◌}
use orgsync.Crypto.{Crypto}
use orgsync.Hlc.{saturating_mul64}
use orgsync.Identity.{Role, admin, from_str_lossy, org_id, org_from_bytes, from_secret}
use orgsync.Identity.Cert.{issue_cert}
use orgsync.Enroll.{Enrollment}
use orgsync.Seed.{Org, Device, Store, org_row, init, create_invite, revoke, crl}
use orgsync.Http.Handlers.{org_keypair, org_name, devices, hour_ms}
use orgsync.Seed.Token.{random_token, invite_code_display}

abbrev pub day_ms : ℕ
day_ms = 24 * 3600000

-- Devices start at 1.
abbrev pub server_serial : ℕ
server_serial = 0

-- An IP address with its text.
pub data IpAddr : Type 0 where
  v4 : (text : Bytes) → IpAddr
  v6 : (text : Bytes) → IpAddr

-- `str::contains` for a text that is not empty.
unfoldable pub has_text : Bytes → Bytes → Bool
has_text needle [] = false
has_text needle (b ∷ s) =
    let rest = has_text needle s in take (length needle) (b ∷ s) == needle || rest

abbrev pub starts_with_slash : Bytes → Bool
starts_with_slash [] = false
starts_with_slash (b ∷ s) = b == b'/'

abbrev pub p2p_part : Bytes
p2p_part = codes "/p2p/"

abbrev pub prefix_of : Bytes → Option IpAddr → Bytes
prefix_of host none = codes "/dns4/" ++ host
prefix_of host (some (v4 text)) = codes "/ip4/" ++ text
prefix_of host (some (v6 text)) = codes "/ip6/" ++ text

abbrev quic_addr : Bytes → ℕ → Bytes → Bytes
quic_addr prefix port peer_id =
    prefix ++ (codes "/udp/" ++ (print_nat port ++ (codes "/quic-v1" ++ (p2p_part ++ peer_id))))

abbrev tcp_addr : Bytes → ℕ → Bytes → Bytes
tcp_addr prefix port peer_id =
    prefix ++ (codes "/tcp/" ++ (print_nat port ++ (p2p_part ++ peer_id)))

module _ (parse_ip : Bytes → Option IpAddr) (quic_port tcp_port : ℕ) (peer_id : Bytes) where
  -- What one host adds.
  unfoldable pub announce : Bytes → List Bytes
  unfolding has_text print_nat
  announce host =
      if starts_with_slash host
      then (if has_text p2p_part host then host else host ++ (p2p_part ++ peer_id)) ∷ []
      else (let prefix = prefix_of host (parse_ip host) in
          quic_addr prefix quic_port peer_id ∷ tcp_addr prefix tcp_port peer_id ∷ [])

  unfoldable pub announce_addrs : List Bytes → List Bytes
  unfolding announce
  announce_addrs [] = []
  announce_addrs (host ∷ hosts) = announce host ++ announce_addrs hosts

unfoldable pub is_advertisable : Bytes → Bool
unfolding has_text
is_advertisable addr =
    not (has_text (codes "/ip4/127.") addr)
    && (not (has_text (codes "/ip6/::1") addr) && not (has_text (codes "/ip4/0.0.0.0") addr))

-- The event `Listening`.
unfoldable pub learn : List Bytes → Bytes → List Bytes
unfolding is_advertisable
learn bootstrap addr =
    if is_advertisable addr
    then (if any (λ (b : Bytes). b == addr) bootstrap then bootstrap else bootstrap ++ (addr ∷ []))
    else bootstrap

unfoldable pub learn_all : List Bytes → List Bytes → List Bytes
unfolding learn
learn_all bootstrap [] = bootstrap
learn_all bootstrap (addr ∷ addrs) = learn_all (learn bootstrap addr) addrs

-- The commands but `run`.
pub data Cmd : Type 0 where
  init_cmd : (org_name : Bytes) → Cmd
  invite_cmd : (user : Bytes) (name : Option Bytes) (role : Bytes) (hours : ℕ) → Cmd
  devices_cmd : Cmd
  revoke_cmd : (serial : ℕ) → Cmd
  token_cmd : Cmd

-- What is printed, without the layout.
pub data Printed : Type 0 where
  created : (name org_id peer admin_token : Bytes) → Printed
  invited : (code : Bytes) → Printed
  listed : (devices : List (Bytes × Device)) → Printed
  revoked : (serial : ℕ) → Printed
  printed_token : (admin_token : Bytes) → Printed

-- What a command draws, and its readings of the clock.
pub record Draws : Type 0 where
  pub org_secret : Bytes
  pub node_secret : Bytes
  pub raw : Bytes
  pub now : ℕ
  pub list_now : ℕ

abbrev pub display_name : Bytes → Option Bytes → Bytes
display_name user none = user
display_name user (some name) = name

abbrev with_code : Bytes → Result Store → Result (Store × Printed)
with_code raw (ok s) = ok (s, invited (invite_code_display (random_token raw)))
with_code raw (err e) = err e

module _ (c : Crypto) where
  unfoldable pub node_identity : Store → Result Bytes
  unfolding from_secret
  node_identity s = do org ← org_row s; from_secret c org.node_key

  abbrev pub admin_token_of : Store → Result Bytes
  admin_token_of s = do org ← org_row s; ok org.admin_token

  -- The enrolment of the server's own node, with a certificate that it signs itself. The clock is
  -- read once.
  unfoldable pub own_enrollment : Store → ℕ → ℕ → Result Enrollment
  unfolding node_identity issue_cert
  own_enrollment s cert_days now = do
    identity ← node_identity s
    inner ← org_keypair c s
    name ← org_name c s
    list ← crl c s
    ok (record {
      org_id = org_id c inner;
      org_name = name;
      cert =
          issue_cert c inner (c.public identity) (codes "seed-server")
            (name ++ codes " seed server") admin server_serial (saturating_mul64 cert_days day_ms)
            now;
      crl = list;
      bootstrap = [];
    })

  unfoldable pub command : Store → Cmd → Draws → Result (Store × Printed)
  unfolding init node_identity create_invite invite_code_display random_token revoke devices
  command s (init_cmd name) d = do
    s' ← init c s d.org_secret d.node_secret (random_token d.raw) name d.now
    identity ← node_identity s'
    ok (
      s',
      created name (org_id c d.org_secret) (c.peer_id (c.public identity)) (random_token d.raw),
    )
  command s (invite_cmd user name role hours) d = with_code d.raw (
      create_invite s d.raw user (display_name user name) (from_str_lossy role)
        (saturating_mul64 hours hour_ms) d.now)
  command s devices_cmd d = ok (s, listed (devices s))
  command s (revoke_cmd serial) d = do
    s' ← revoke s serial d.now d.list_now
    ok (s', revoked serial)
  command s token_cmd d = do token ← admin_token_of s; ok (s, printed_token token)
