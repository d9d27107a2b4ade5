-- ===== src/Db/Sync/Decode.antt =====
-- A stored row is read back as the record that it was.
use orgsync.Base.{◌≡◌, refl, ap₂, sym, List, [], ◌∷◌, map, Memᴰ, arith}
use orgsync.Error.{ok}
use orgsync.Hlc
use orgsync.Hlc.{to_hex, from_hex}
use orgsync.Hlc.Hex.{from_hex-to_hex}
use orgsync.Value.{IsValue}
use orgsync.Value.Storage.{from_storage-to_storage}
use orgsync.Change.{ChangeKind, cell, deletion, ChangeRecord, as_i64, from_i64}
use orgsync.Db.Tables.{ChangeRow, change_row}
use orgsync.Db.Sync.{record_of, records_of}

-- The numbers and the text of a record are what their Rust types promise.
pub record IsRecord (rec : ChangeRecord) : Type 0 where
  pub value : IsValue rec.value
  pub hlc : Hlc.IsValid rec.hlc

-- A row that was written by `store_change`.
abbrev pub IsStored : ChangeRow → Type 0
IsStored row = (rec : ChangeRecord) × IsRecord rec × (row ≡ change_row rec)

from_i64-as_i64 : (k : ChangeKind) → from_i64 (as_i64 k) ≡ k
from_i64-as_i64 cell = refl
from_i64-as_i64 deletion = refl

pub record_of-change_row : (rec : ChangeRecord) → IsRecord rec → record_of (change_row rec) ≡ ok rec
unfolding record_of change_row
record_of-change_row rec v = ground (
  arith,
  from_storage-to_storage rec.value v.value,
  from_hex-to_hex rec.hlc v.hlc,
  from_i64-as_i64 rec.kind,
)

-- Stored rows decode, to records that are stored as these rows.
pub records_of-IsStored :
    (rows : List ChangeRow)
    → ((x : ChangeRow) → Memᴰ x rows → IsStored x)
    → (out : List ChangeRecord) × (records_of rows ≡ ok out) × (map change_row out ≡ rows)
unfolding records_of
records_of-IsStored [] stored = ([], refl, refl)
records_of-IsStored (row ∷ rows) stored =
    let (rec, valid, e) = stored row (Memᴰ.head refl) in
    let (out, decoded, same) = records_of-IsStored rows (λ x m. stored x (Memᴰ.tail m)) in
    (rec ∷ out, rw (e, record_of-change_row rec valid, decoded), ap₂ ◌∷◌ (sym e) same)
