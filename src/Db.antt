-- ===== src/Db.antt =====
-- rust/p2p-core/src/db/mod.rs: the replica, what its methods use of the outside, and the capture
-- triggers of db/schema.rs.
pub mod Tables
pub mod Materialize
pub mod Apply
pub mod Converge
pub mod Sync
pub mod Local
pub mod Outbox
pub mod Open
use orgsync.Base.{
  ℕ, ◌+◌, Bool, true, false, Option, none, some, List, [], ◌∷◌, ◌++◌, Bytes, ◌==◌, if◌then◌else◌,
  nat_ord,
}
use orgsync.Error.{Result, ok, err, sqlite}
use orgsync.Crypto.{Crypto}
use orgsync.Hlc.{Hlc}
use orgsync.Value.{SqlValue}
use orgsync.Db.Tables.{Crdt}

pub record TableSpec : Type 0 where
  pub name : Bytes
  pub pk_col : Bytes
  pub cols : List Bytes

-- The app's own tables, as the replica uses them: a statement of SQLite on a table that the app
-- has laid out, which may fail on a constraint. A row is its columns with their values.
pub record AppTables (App : Type 0) : Type 0 where
  pub read_row : App → TableSpec → Bytes → Option (List (Bytes × SqlValue))
  pub upsert_row : App → TableSpec → Bytes → List (Bytes × SqlValue) → Option App
  pub delete_row : App → TableSpec → Bytes → Option App

-- The outside of a replica: the libraries, the app's tables, and the system clock as the sequence
-- of its readings.
pub record Env (App : Type 0) : Type 0 where
  pub crypto : Crypto
  pub app_tables : AppTables App
  pub now_ms : ℕ → ℕ

-- The `op` column of `_p2p_local_ops`.
pub data LocalOpKind : Type 0 where
  upserted : LocalOpKind
  deleted : LocalOpKind

pub record LocalOp : Type 0 where
  pub id : ℕ
  pub tbl : Bytes
  pub pk : Bytes
  pub op : LocalOpKind

-- The struct `Db` with the tables of its file. `readings` counts the readings of the clock.
pub record Db (App : Type 0) : Type 0 where
  pub device_id : Bytes
  pub signer : Option Bytes
  pub require_signatures : Bool
  pub clock : Hlc
  pub readings : ℕ
  pub tables : List (Bytes × TableSpec)
  pub guard : ℕ
  pub local_ops : List LocalOp
  pub next_op : ℕ
  pub crdt : Crdt
  pub app : App

module _ {App : Type 0} where
  -- A capture trigger: it stages the row unless the guard is set.
  unfoldable pub capture : Db App → Bytes → Bytes → LocalOpKind → Db App
  capture db tbl pk op =
      if db.guard == 0
      then record db {
        local_ops = db.local_ops ++ (record { id = db.next_op; tbl = tbl; pk = pk; op = op } ∷ []);
        next_op = db.next_op + 1;
      }
      else db

  module _ (env : Env App) where
    -- A row is written, and the insert or the update trigger fires.
    unfoldable pub write_row :
        Db App → TableSpec → Bytes → List (Bytes × SqlValue) → Result (Db App)
    unfolding capture
    write_row db spec pk cols = elim (env.app_tables.upsert_row db.app spec pk cols) [
      | none ↦ err sqlite
      | some app ↦ ok (capture (record db { app = app }) spec.name pk upserted)
    ]

    -- A row is deleted; the delete trigger fires only if it was there.
    unfoldable pub erase_row : Db App → TableSpec → Bytes → Result (Db App)
    unfolding capture
    erase_row db spec pk = elim (env.app_tables.delete_row db.app spec pk) [
      | none ↦ err sqlite
      | some app ↦
          let db' = record db { app = app } in
          elim (env.app_tables.read_row db.app spec pk) [
            | none ↦ ok db'
            | some row ↦ ok (capture db' spec.name pk deleted)
          ]
    ]
