-- ===== src/Db/Sync.antt =====
-- Anti-entropy in db/mod.rs: the version vector of a replica, and the changes that a peer with a
-- given vector lacks.
pub mod Decode
pub mod Page
pub mod Gap
use orgsync.Base.{
  ℕ, Bool, Option, none, some, List, [], ◌∷◌, map, Bytes, keep, take, find, sort_by, above, nat_ord,
  list_ord, pair_ord,
}
use orgsync.Error.{Result, ok, err, ◌>>=◌}
use orgsync.Hlc.{Hlc, zero_hlc, to_hex, from_hex}
use orgsync.Value.{from_storage}
use orgsync.Change.{ChangeRecord, VersionVector, from_i64, observe}
use orgsync.Db.{Env, Db}
use orgsync.Db.Tables.{ChangeRow, Crdt}
use orgsync.Db.Apply.{apply_remote}

-- `version_vector`: rows that do not read as a stamp are passed over.
unfoldable pub vector_of : VersionVector → List (Bytes × Bytes) → VersionVector
vector_of vv [] = vv
vector_of vv ((origin, hlc) ∷ rows) =
    vector_of (elim (from_hex hlc) [ none ↦ vv | some h ↦ observe vv origin h ]) rows

unfoldable pub version_vector : Crdt → VersionVector
unfolding vector_of
version_vector db = vector_of [] db.vv

-- The temporary table `_p2p_ask`.
abbrev pub ask : VersionVector → List (Bytes × Bytes)
ask = map (λ e. (e.0, to_hex e.1))

-- `COALESCE(a.hlc, '')` of the left join.
abbrev pub asked : VersionVector → Bytes → Bytes
asked vv origin = elim (find origin (ask vv)) [ none ↦ [] | some h ↦ h ]

-- `WHERE c.hlc > COALESCE(a.hlc, '')`.
abbrev pub is_missing : VersionVector → ChangeRow → Bool
is_missing vv row = above row.hlc (asked vv row.origin)

-- `ORDER BY c.hlc, c.origin`.
abbrev pub page_key : ChangeRow → Bytes × Bytes
page_key row = (row.hlc, row.origin)

-- The rows that the query selects, with its LIMIT.
unfoldable pub page : Crdt → VersionVector → ℕ → List ChangeRow
page db peer_vv limit =
    take limit (sort_by page_key (keep (is_missing peer_vv) (map (λ e. e.1) db.changes)))

-- The record of a row.
unfoldable pub record_of : ChangeRow → Result ChangeRecord
record_of row = do
  value ← from_storage row.vtype row.val
  ok (record {
    tbl = row.tbl;
    pk = row.pk;
    col = row.col;
    value = value;
    hlc = elim (from_hex row.hlc) [ none ↦ zero_hlc | some h ↦ h ];
    origin = row.origin;
    kind = from_i64 row.kind;
    sig = row.sig;
  })

-- The loop over the rows; the first that does not decode ends it.
unfoldable pub records_of : List ChangeRow → Result (List ChangeRecord)
unfolding record_of
records_of [] = ok []
records_of (row ∷ rows) =
    let rest = records_of rows in do rec ← record_of row; out ← rest; ok (rec ∷ out)

unfoldable pub changes_since : Crdt → VersionVector → ℕ → Result (List ChangeRecord)
unfolding page records_of
changes_since db peer_vv limit = records_of (page db peer_vv limit)

-- One exchange of the protocol: `b` asks `a` with its own vector, and applies the page.
unfoldable pub sync_page : {App : Type 0} → Env App → Crdt → Db App → ℕ → Db App
sync_page env a b limit = elim (changes_since a (version_vector b.crdt) limit) [
  | ok changes ↦ (apply_remote env b changes).0
  | err e ↦ b
]
