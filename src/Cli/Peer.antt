-- ===== src/Cli/Peer.antt =====
-- Joining and running in rust/p2p-cli/src/main.rs, after the server's reply and up to the events.
pub mod Joined
use orgsync.Base.{
  ℕ, Bool, true, false, Option, none, some, List, [], ◌∷◌, ◌++◌, Bytes, codes, ◌==◌, if◌then◌else◌,
  nat_ord,
}
use orgsync.Error.{Result, ok, err, other, ◌>>=◌}
use orgsync.Crypto.{Crypto}
use orgsync.Enroll.{
  EnrollRequest, EnrollResponse, Enrollment, build_enroll_request, accept, validate,
}
use orgsync.Enroll.Saved.{EnrollmentJson, save, load}
use orgsync.Db.{Env, Db}
use orgsync.Db.Outbox.{Meta}
use orgsync.Node.{Runtime}
use orgsync.Node.Peers.{PeerTable, spawn}

-- `trim_end_matches('/')`.
unfoldable pub trim_slashes : Bytes → Bytes
trim_slashes [] = []
trim_slashes (b ∷ s) = elim (trim_slashes s) [
  | [] ↦ if b == b'/' then [] else b ∷ []
  | x ∷ rest ↦ b ∷ x ∷ rest
]

abbrev pub enroll_url : Bytes → Bytes
enroll_url url = trim_slashes url ++ codes "/v1/enroll"

module _ (c : Crypto) (j : EnrollmentJson) where
  abbrev pub request : Bytes → Bytes → Bytes → ℕ → EnrollRequest
  request secret code name now = build_enroll_request c secret code name (codes "desktop") now

  -- `enroll`, from the reply on.
  unfoldable pub enroll : Meta → EnrollResponse → Bytes → ℕ → Result (Meta × Enrollment)
  unfolding accept save
  enroll meta response secret now = do
    enrollment ← accept c response secret now
    ok (save j meta enrollment, enrollment)

  abbrev name_or : Result (Option Enrollment) → Bytes
  name_or (ok (some e)) = e.cert.claims.display_name
  name_or _ = codes "desktop"

  unfoldable pub whoami_name : Meta → Bytes
  unfolding load
  whoami_name meta = name_or (load j meta)

abbrev pub enrolled : Option Enrollment → Result Enrollment
enrolled none = err other
enrolled (some e) = ok e

-- `run`, up to the node. The clock is read by `validate` and again by `spawn`;
-- `swarm` is what `build_swarm` comes to.
unfoldable pub run_peer :
    {App : Type 0}
    → Env App
    → EnrollmentJson
    → Meta
    → Bytes
    → Db App
    → PeerTable
    → ℕ
    → ℕ
    → Result (Unit {0})
    → Result (Runtime App)
unfolding load validate spawn
run_peer env j meta secret db peers now spawn_now swarm = do
  stored ← load j meta
  enrollment ← enrolled stored
  usable ← validate env.crypto enrollment secret now
  spawn env enrollment secret db true peers spawn_now swarm
