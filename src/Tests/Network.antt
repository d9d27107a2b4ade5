-- ===== src/Tests/Network.antt =====
-- A node that is spoken to.
use orgsync.Base.{
  nat_ord, list_ord, true, ap, ◌∙◌, find-put_self, ◌≡◌, some, false, true, ◌⊎◌, refl, [], ◌∷◌, List,
  codes, Memᴰ, find, keep, any, compare_list, sort_by, insert_sorted, put,
}
use orgsync.Change.{ChangeRecord}
use orgsync.Db.Tables.{change_row, store_change, bump_vv, upsert, upsert_cell}
use orgsync.Db.Apply.{
  apply_remote, screen, merge_sorted, bump_all, turns, turn, mark, raise_vv, materialize_all,
}
use orgsync.Db.Tables.Merge.{rows}
use orgsync.Identity.Crl.{sign_crl}
use orgsync.Node.{
  Runtime, AuthedPeer, authed_of, hello, contains, apply, on_request, accept_peer, judged, admit,
}
use orgsync.Enroll.{merge_crl}
use orgsync.Node.Gate.{Event, requested, step, run}
use orgsync.Node.Guard.{IsLetIn, run-IsLetIn}
use orgsync.Node.Readonly.{apply-readonly}
use orgsync.Tests.Toy.{world, replica, Rows}
use orgsync.Tests.Trust.{cert_holds, key, list, cert, joined}
use orgsync.Tests.Merging.{hello as greeting}

abbrev pub node : Runtime Rows
node = record {
  db = replica (codes "laptop");
  enrollment = joined;
  replicate = true;
  authed = [];
  greeted = [];
  readonly_origins = codes "tv" ∷ [];
  deny = [];
}

abbrev traffic : List (Event world)
traffic = requested key (hello 1 cert list true) 600 601 ∷ []

abbrev info : AuthedPeer
info = authed_of world cert true 601

accepted : (accept_peer world node key cert list true 600 601).1.0 ≡ true
unfolding accept_peer merge_crl judged sign_crl
accepted = ap (λ r. (judged world node key cert true 601 r).1.0) cert_holds

entered : find key (accept_peer world node key cert list true 600 601).0.authed ≡ some info
unfolding accept_peer merge_crl judged admit sign_crl
entered =
    ap (λ r. find key (judged world node key cert true 601 r).0.authed) cert_holds
    ∙ find-put_self key info []

greeted : find key (on_request world node key (hello 1 cert list true) 600 601).0.authed ≡ some info
unfolding on_request
greeted = rw accepted entered

let_in : find key (run world node traffic).authed ≡ some info
unfolding run step
let_in = greeted

run-IsLetIn_example : (find key node.authed ≡ some info) ⊎ IsLetIn world node traffic key info
run-IsLetIn_example = run-IsLetIn world node traffic key info let_in

-- For a table that this build does not know, so that it is only kept.
abbrev kept : ChangeRecord
kept = record greeting { tbl = codes "notes" }

landed : Memᴰ (change_row kept) (rows (apply world node key (kept ∷ [])).0.db.crdt)
unfolding apply apply_remote screen keep any compare_list merge_sorted bump_all turns sort_by
    insert_sorted turn store_change mark find raise_vv put bump_vv materialize_all upsert
    upsert_cell
landed = Memᴰ.head refl

apply-readonly_example :
    (contains (codes "phone") (codes "tv" ∷ []) ≡ false)
    ⊎ Memᴰ (change_row kept) (rows node.db.crdt)
unfolding change_row
apply-readonly_example = apply-readonly world node key (kept ∷ []) (change_row kept) landed
