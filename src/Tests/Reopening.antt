-- ===== src/Tests/Reopening.antt =====
-- A replica whose file is opened again.
use orgsync.Base.{
  ◌≡◌, refl, ◌⊎◌, [], ◌∷◌, codes, map, keep, find, winner, any, Memᴰ, subst, nat_ord, list_ord,
  pair_ord,
}
use orgsync.Error.{ok, err, schema}
use orgsync.Db.{Db}
use orgsync.Db.Tables.{change_row, ingest, empty}
use orgsync.Db.Tables.Merge.{IsMerged, rows, ingest-IsMerged}
use orgsync.Db.Tables.Members.{changes-ingest_new}
use orgsync.Db.Open.{Catalog, File, open_authenticated, register_table}
use orgsync.Db.Open.Registered.{HasKey, IsRegistered, spec_of, register_table_lem}
use orgsync.Db.Open.Resumed.{IsReopened, open_authenticated_lem}
use orgsync.Tests.Toy.{world, replica, Rows, zeros}
use orgsync.Tests.Merging.{hello}
use orgsync.Tests.Flushing.{stored-IsStored}

abbrev pub catalog : Catalog Rows
catalog = record {
  table_info = λ app tbl. (codes "id", 1) ∷ (codes "body", 0) ∷ [];
  row_keys = λ app spec. map (λ e. e.0.1) app;
  app_schema = λ app. app;
}

empty-IsMerged : IsMerged empty
unfolding find winner
empty-IsMerged = record { cells = λ k. refl; tombstones = λ k. refl }

abbrev file : File Rows
file = record {
  synced = [];
  guard = 0;
  local_ops = [];
  next_op = 1;
  crdt = ingest empty hello;
  app = [];
}

logged : rows (ingest empty hello) ≡ change_row hello ∷ []
logged = changes-ingest_new empty hello (unfold any in refl)

open_authenticated_lem_example :
    (db : Db Rows) × (open_authenticated catalog file (codes "phone") (zeros 32) 0 ≡ ok db)
    × IsReopened world catalog file (codes "phone") (zeros 32) db
unfolding keep
open_authenticated_lem_example =
    open_authenticated_lem world catalog file (codes "phone") (zeros 32) 0
      (((codes "id", 1), refl, refl), ((codes "id", 1), refl, refl))
      (ingest-IsMerged empty hello empty-IsMerged)
      (λ x m. stored-IsStored x (subst (λ l. Memᴰ x l) logged m))

register_table_lem_example :
    (HasKey (codes "id") (catalog.table_info [] (codes "messages"))
      × ((db' : Db Rows) × (register_table catalog
              (replica (codes "phone"))
              (codes "messages")
              (codes "id")
            ≡ ok db')
          × IsRegistered catalog
              (codes "messages")
              (codes "id")
              (replica (codes "phone"))
              db'
              (spec_of (codes "messages") (codes "id") (catalog.table_info [] (codes "messages")))))
    ⊎ ((¬ HasKey (codes "id") (catalog.table_info [] (codes "messages")))
        × (register_table catalog (replica (codes "phone")) (codes "messages") (codes "id")
            ≡ err schema))
register_table_lem_example =
    register_table_lem catalog (replica (codes "phone")) (codes "messages") (codes "id")
