-- ===== src/Tests/Sending.antt =====
-- A node that sends what its device has written.
use orgsync.Base.{◌≤◌, ◌<◌, ◌≡◌, [], ◌∷◌, List, Bytes, codes, Memᴰ, length, nat_ord, list_ord}
use orgsync.Change.{ChangeRecord}
use orgsync.Db.Outbox.{Meta}
use orgsync.Node.{Runtime, Req, send, try_publish, push}
use orgsync.Node.Gate.{closed}
use orgsync.Node.Broadcast.{
  Activity, heard, executed, ticked, broadcast, replicating, max_push_changes,
}
use orgsync.Node.Broadcast.Sent.{tried, broadcast_lem}
use orgsync.Tests.Toy.{world, replica, Rows}
use orgsync.Tests.Merging.{hello}
use orgsync.Tests.Network.{node}
use orgsync.Tests.Flushing.{stored}

abbrev sender : Runtime Rows
sender = record node { db = record (replica (codes "phone")) { crdt = stored } }

abbrev fresh_meta : Meta
fresh_meta = []

abbrev day : List (Activity world)
day = executed ∷ heard (closed (codes "stranger")) ∷ ticked ∷ []

broadcast_lem_example :
    (tried (broadcast sender (hello ∷ [])) ≡ hello ∷ [])
    × ((chunk : List ChangeRecord)
        → Memᴰ (try_publish chunk) (broadcast sender (hello ∷ []))
        → (0 < length chunk)
          × (length chunk ≤ max_push_changes)
          × ((peer : Bytes)
              → Memᴰ peer (replicating sender.authed)
              → Memᴰ (send peer (push chunk)) (broadcast sender (hello ∷ []))))
    × ((peer : Bytes) (req : Req)
        → Memᴰ (send peer req) (broadcast sender (hello ∷ []))
        → Memᴰ peer (replicating sender.authed))
broadcast_lem_example = broadcast_lem sender (hello ∷ [])
