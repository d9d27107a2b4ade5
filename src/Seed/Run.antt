-- ===== src/Seed/Run.antt =====
-- The server's tables over time: requests one after the other, the failed ones included.
use orgsync.Base.{ℕ, List, [], ◌∷◌, Bytes}
use orgsync.Error.{Result, ok, err}
use orgsync.Crypto.{Crypto}
use orgsync.Identity.{Role}
use orgsync.Identity.Cert.{DeviceCert}
use orgsync.Seed.{Store, Request, create_invite, redeem_invite, revoke}

pub data Op : Type 0 where
  invite_op : (raw user_id display_name : Bytes) (role : Role) (ttl_ms now : ℕ) → Op
  redeem_op : (r : Request) (now issue_now : ℕ) → Op
  revoke_op : (serial now list_now : ℕ) → Op

abbrev pub or_same : Store → Result Store → Store
or_same s (ok s') = s'
or_same s (err e) = s

abbrev pub or_same_pair : Store → Result (Store × DeviceCert) → Store
or_same_pair s (ok r) = r.0
or_same_pair s (err e) = s

module _ (c : Crypto) where
  unfoldable pub step : Store → Op → Store
  step s (invite_op raw user_id display_name role ttl_ms now) =
      or_same s (create_invite s raw user_id display_name role ttl_ms now)
  step s (redeem_op r now issue_now) = or_same_pair s (redeem_invite c s r now issue_now)
  step s (revoke_op serial now list_now) = or_same s (revoke s serial now list_now)

  unfoldable pub run : Store → List Op → Store
  unfolding step
  run s [] = s
  run s (op ∷ ops) = run (step s op) ops
