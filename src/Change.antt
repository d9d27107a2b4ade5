-- ===== src/Change.antt =====
-- rust/p2p-core/src/db/change.rs: the unit of replication, its signature, the version vector, and
-- the decision between an incoming change and the one held. The serde codec is not modelled.
pub mod Signing
pub mod Author
use orgsync.Base.{
  ℕ, ◌%◌, ◌^◌, ◌<◌, Bool, true, false, Option, none, some, List, [], ◌∷◌, ◌++◌, Bytes, codes,
  length, le_bytes, ◌==◌, above, find, put, if◌then◌else◌, nat_ord, list_ord, pair_ord, gt, is_gt,
}
use orgsync.Error.{Result, ok, err, rejected, crypto, ◌>>=◌}
use orgsync.Crypto.{Crypto}
use orgsync.Hlc.{Hlc, zero_hlc, compare_hlc, to_hex}
use orgsync.Value.{SqlValue, to_storage}

pub data ChangeKind : Type 0 where
  cell : ChangeKind
  deletion : ChangeKind

abbrev pub as_i64 : ChangeKind → ℕ
as_i64 cell = 0
as_i64 deletion = 1

abbrev pub from_i64 : ℕ → ChangeKind
from_i64 v = if v == 1 then deletion else cell

pub record ChangeRecord : Type 0 where
  pub tbl : Bytes
  pub pk : Bytes
  pub col : Bytes
  pub value : SqlValue
  pub hlc : Hlc
  pub origin : Bytes
  pub kind : ChangeKind
  pub sig : Bytes

-- Changes sort by the hexadecimal stamp, and by the origin where stamps are equal.
abbrev pub order_key : ChangeRecord → Bytes × Bytes
order_key c = (to_hex c.hlc, c.origin)

-- What `put_str` appends: the length in four bytes, and the bytes.
unfoldable pub framed : Bytes → Bytes
framed s = le_bytes 4 (length s % 2 ^ 32) ++ s

abbrev pub unwrap_or_default : Option Bytes → Bytes
unwrap_or_default none = []
unwrap_or_default (some b) = b

abbrev pub change_domain : Bytes
change_domain = codes "p2p-change-v1"

unfoldable pub signing_bytes : ChangeRecord → Bytes
signing_bytes c =
    let (vtype, stored) = to_storage c.value in
    let raw = unwrap_or_default stored in
    change_domain
    ++ (framed c.tbl
        ++ (framed c.pk
            ++ (framed c.col
                ++ ((as_i64 c.kind % 256 ∷ [])
                    ++ (le_bytes 8 vtype
                        ++ (framed raw
                            ++ (le_bytes 8 c.hlc.wall_ms
                                ++ (le_bytes 4 c.hlc.counter ++ framed c.origin))))))))

-- `peer_public_key_from_str` of identity.rs: a peer id that hashes its key is refused.
unfoldable pub peer_public_key : Crypto → Bytes → Result Bytes
peer_public_key c peer = elim (c.multihash peer) [
  | none ↦ err crypto
  | some (code, digest) ↦
      if code == 0
      then elim (c.decode_key digest) [ none ↦ err crypto | some key ↦ ok key ]
      else err crypto
]

unfoldable pub sign_with : Crypto → Bytes → ChangeRecord → ChangeRecord
sign_with c secret rec = record rec { sig = c.sign secret (signing_bytes rec) }

unfoldable pub verify_author : Crypto → ChangeRecord → Result (Unit {0})
unfolding peer_public_key
verify_author c rec = if length rec.sig == 0 then err rejected else do
  key ← peer_public_key c rec.origin
  if c.verify key (signing_bytes rec) rec.sig then ok tt else err rejected

-- `VersionVector`: the highest stamp held from each device.
abbrev pub VersionVector : Type 0
VersionVector = List (Bytes × Hlc)

unfoldable pub get : VersionVector → Bytes → Hlc
get vv origin = elim (find origin vv) [ none ↦ zero_hlc | some h ↦ h ]

unfoldable pub observe : VersionVector → Bytes → Hlc → VersionVector
unfolding get
observe vv origin hlc =
    let e = get vv origin in put origin (if is_gt (compare_hlc hlc e) then hlc else e) vv

-- Last writer wins, on the hexadecimal stamps with the origin for ties.
abbrev pub incoming_wins : Bytes → Bytes → Bytes → Bytes → Bool
incoming_wins new_hlc new_origin old_hlc old_origin =
    above {K = Bytes × Bytes} (new_hlc, new_origin) (old_hlc, old_origin)
