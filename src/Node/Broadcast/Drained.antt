-- ===== src/Node/Broadcast/Drained.antt =====
-- With nothing new to send, the timer empties the outbox.
use orgsync.Base.{ℕ, zero, suc, List, [], ◌∷◌, Memᴰ}
use mathlib.Core.List.Memᴰ
use orgsync.Db.{Env, Db}
use orgsync.Node.Broadcast.{Activity, ticked}

-- Ticks of the flush timer, and nothing else.
pub ticks : {App : Type 0} (env : Env App) → ℕ → List (Activity env)
ticks env zero = []
ticks env (suc k) = ticked ∷ ticks env k
