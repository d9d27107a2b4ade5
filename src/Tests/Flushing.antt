-- ===== src/Tests/Flushing.antt =====
-- A device that writes, and one that asks for what it lacks.
use orgsync.Base.{
  ◌+◌, ◌<◌, ◌≡◌, refl, true, false, some, List, [], ◌∷◌, map, codes, Memᴰ, length, above, find,
  winner, any, compare_list, ◌⊎◌, arith, nat_ord, list_ord, pair_ord,
}
use mathlib.Core.List.Memᴰ
use orgsync.Error.{ok}
use orgsync.Value.{text, is_utf8}
use orgsync.Change.{ChangeRecord}
use orgsync.Db.{upserted, Db}
use orgsync.Db.Tables.{ChangeRow, Crdt, change_row, empty, cell_matches}
use orgsync.Db.Tables.Merge.{rows}
use orgsync.Db.Local.{flush_local}
use orgsync.Db.Local.Authored.{IsSound}
use orgsync.Db.Local.Whole.{IsFlushed, flush_local_lem}
use orgsync.Hlc.{hex_digit, hex_padded, to_hex}
use orgsync.Db.Apply.{is_screened, apply_remote}
use orgsync.Db.Sync.Gap.{page-pushed}
use orgsync.Db.Sync.{page, version_vector, is_missing, page_key, changes_since}
use orgsync.Db.Sync.Decode.{IsRecord, IsStored}
use orgsync.Db.Sync.Page.{missing, changes_since_lem}
use orgsync.Tests.Toy.{toy-Lawful, world, replica, Rows, zeros}
use orgsync.Tests.Merging.{hello}

abbrev edited : Db Rows
edited = record (replica (zeros 32)) {
  signer = some [];
  app = ((codes "messages", codes "m1"), (codes "body", text (codes "hello")) ∷ []) ∷ [];
  local_ops = record { id = 1; tbl = codes "messages"; pk = codes "m1"; op = upserted } ∷ [];
  next_op = 2;
}

edited-IsSound : IsSound world edited
unfolding find winner
edited-IsSound = record {
  clock = omega arith;
  behind = λ x m mine. elim m [ ];
  merged = record { cells = λ k. refl; tombstones = λ k. refl };
}

room : edited.clock.counter + length (flush_local world edited).1 < 5
unfolding flush_local find any compare_list cell_matches
room = omega arith

flush_local_lem_example :
    IsFlushed world edited (flush_local world edited).0 (flush_local world edited).1
flush_local_lem_example =
    flush_local_lem world edited [] toy-Lawful refl refl edited-IsSound (λ k. omega arith)
      (omega (arith, room))

abbrev pub stored : Crdt
stored = record empty { changes = (1, change_row hello) ∷ []; next_seq = 2 }

hello-IsRecord : IsRecord hello
unfolding is_utf8
hello-IsRecord = record { value = refl; hlc = omega arith }

pub stored-IsStored : (x : ChangeRow) → Memᴰ x (rows stored) → IsStored x
stored-IsStored x m = (hello, hello-IsRecord, Memᴰ.eq_of_singleton m)

changes_since_lem_example :
    (out : List ChangeRecord) × (changes_since stored [] 500 ≡ ok out)
    × ((x : ChangeRow)
        → Memᴰ x (map change_row out)
        → Memᴰ x (rows stored) × (is_missing [] x ≡ true))
    × ((x y : ChangeRow)
        → Memᴰ y (map change_row out)
        → Memᴰ x (rows stored)
        → is_missing [] x ≡ true
        → above (page_key y) (page_key x) ≡ true
        → Memᴰ x (map change_row out))
    × ((x : ChangeRow)
        → Memᴰ x (rows stored)
        → is_missing [] x ≡ true
        → Memᴰ x (map change_row out) ⊎ (500 < length (missing stored [])))
changes_since_lem_example = changes_since_lem stored [] 500 stored-IsStored

-- The change that the same device made before.
abbrev missed : ChangeRecord
missed = record hello { hlc = record { wall_ms = 999; counter = 7 } }

abbrev full : Crdt
full = record empty { changes = (2, change_row hello) ∷ (1, change_row missed) ∷ []; next_seq = 3 }

earlier : above (change_row missed).hlc (to_hex hello.hlc) ≡ false
unfolding change_row to_hex hex_padded hex_digit compare_list
earlier = refl

page-pushed_example : ¬ (
    Memᴰ (change_row missed) (
      page full
        (version_vector (apply_remote world (replica (codes "laptop")) (hello ∷ [])).0.crdt)
        500))
unfolding change_row
page-pushed_example =
    page-pushed world (replica (codes "laptop")) hello full 500 (change_row missed) (omega arith)
      (unfold is_screened in refl) (unfold any in refl) (unfold find in refl) refl earlier
