-- ===== src/Tests/Merging.antt =====
-- Changes on their way through replicas.
use orgsync.Base.{
  ◌≡◌, ◌≢◌, refl, sym, ap, ◌∙◌, inl, inr, List, [], ◌∷◌, codes, find, winner, UniqueKeys,
  SameMembers, Memᴰ, arith, nat_ord, list_ord, pair_ord,
}
use mathlib.Core.List.Memᴰ
use orgsync.Hlc.{hex_digit, hex_padded, to_hex}
use orgsync.Value.{text, is_utf8, to_storage}
use orgsync.Change.{ChangeRecord, cell}
use orgsync.Change.Signing.{IsSignable, SameContent, signing_bytes-injective}
use orgsync.Db.{Db}
use orgsync.Db.Tables.{CellKey, RowKey, change_row}
use orgsync.Db.Tables.Merge.{IsMerged, stamp}
use orgsync.Db.Apply.{screen, apply_remote}
use orgsync.Db.Apply.Frame.{local_ops-apply_remote}
use orgsync.Db.Converge.{receive, accepted, receive-IsMerged, convergence}
use orgsync.Tests.Toy.{world, replica, Rows, zeros}

abbrev pub hello : ChangeRecord
hello = record {
  tbl = codes "messages";
  pk = codes "m1";
  col = codes "body";
  value = text (codes "hello");
  hlc = record { wall_ms = 1000; counter = 1 };
  origin = codes "phone";
  kind = cell;
  sig = [];
}

abbrev hi : ChangeRecord
hi = record hello { value = text (codes "hi"); hlc = record { wall_ms = 1000; counter = 2 } }

hello-IsSignable : IsSignable hello
unfolding to_storage is_utf8
hello-IsSignable = record {
  tbl = omega arith;
  pk = omega arith;
  col = omega arith;
  raw = omega arith;
  origin = omega arith;
  value = refl;
  hlc = omega arith;
}

signing_bytes-injective_example : SameContent hello hello
signing_bytes-injective_example =
    signing_bytes-injective hello hello hello-IsSignable hello-IsSignable refl

abbrev own : ChangeRecord
own = record hello { origin = zeros 32 }

abbrev phone : Db Rows
phone = replica (codes "phone")

abbrev laptop : Db Rows
laptop = replica (codes "laptop")

abbrev in_order : List (List ChangeRecord)
in_order = (hello ∷ []) ∷ (hi ∷ []) ∷ []

abbrev reversed : List (List ChangeRecord)
reversed = (hi ∷ hello ∷ []) ∷ (hello ∷ []) ∷ []

local_ops-apply_remote_example :
    ((apply_remote world phone (hi ∷ hello ∷ [])).0.local_ops ≡ [])
    × ((apply_remote world phone (hi ∷ hello ∷ [])).0.guard ≡ 0)
local_ops-apply_remote_example = local_ops-apply_remote world phone (hi ∷ hello ∷ []) refl

stamps_differ : stamp (change_row hello) ≢ stamp (change_row hi)
unfolding change_row to_hex hex_padded hex_digit
stamps_differ e = ground arith

unique_in_order : UniqueKeys stamp (accepted world phone in_order)
unfolding accepted screen
unique_in_order a b ma mb e = elim (Memᴰ.cases_cons ma) [
  | inl a₁ ↦ elim (Memᴰ.cases_cons mb) [
    | inl b₁ ↦ a₁ ∙ sym b₁
    | inr t ↦ absurd (stamps_differ (ap stamp (sym a₁) ∙ e ∙ ap stamp (Memᴰ.eq_of_singleton t)))
  ]
  | inr s ↦ elim (Memᴰ.cases_cons mb) [
    | inl b₁ ↦
        absurd (stamps_differ (ap stamp (sym b₁) ∙ sym e ∙ ap stamp (Memᴰ.eq_of_singleton s)))
    | inr t ↦ Memᴰ.eq_of_singleton s ∙ sym (Memᴰ.eq_of_singleton t)
  ]
]

same_changes : SameMembers (accepted world phone in_order) (accepted world laptop reversed)
unfolding accepted screen
same_changes = (
  λ x m. elim (Memᴰ.cases_cons m) [
    | inl e ↦ Memᴰ.tail (Memᴰ.head e)
    | inr t ↦ Memᴰ.head (Memᴰ.eq_of_singleton t)
  ],
  λ x m. elim (Memᴰ.cases_cons m) [
    | inl e ↦ Memᴰ.tail (Memᴰ.head e)
    | inr t ↦ elim (Memᴰ.cases_cons t) [
      | inl e ↦ Memᴰ.head e
      | inr u ↦ Memᴰ.head (Memᴰ.eq_of_singleton u)
    ]
  ],
)

convergence_example :
    ((k : CellKey)
      → find k (receive world phone in_order).crdt.cells
        ≡ find k (receive world laptop reversed).crdt.cells)
    × ((k : RowKey)
        → find k (receive world phone in_order).crdt.tombstones
          ≡ find k (receive world laptop reversed).crdt.tombstones)
convergence_example =
    convergence world world phone laptop in_order reversed refl refl unique_in_order same_changes

receive-IsMerged_example : IsMerged (receive world phone reversed).crdt
receive-IsMerged_example =
    receive-IsMerged world phone reversed
      (unfold find winner in record { cells = λ k. refl; tombstones = λ k. refl })
