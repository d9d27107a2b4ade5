-- ===== src/Node/Broadcast/Delivered.antt =====
-- The outbox over the life of a node: each change of the device is tried once and in order.
use orgsync.Base.{List}
use orgsync.Db.{Env, Db}
use orgsync.Db.Outbox.{Meta}
use orgsync.Node.{Runtime, Effect}
use orgsync.Node.Broadcast.Sent.{tried}
use orgsync.Node.Broadcast.Account.{Delivers, IsReady}

module _ {App : Type 0} (env : Env App) where
  -- What an activity does for the account.
  abbrev Accounts : Db App → Meta → Runtime App × (Meta × List Effect) → Type 0
  Accounts db meta r = Delivers db meta r.0.db r.1.0 (tried r.1.1) × IsReady r.0.db r.1.0
