-- ===== src/Error.antt =====
-- rust/p2p-core/src/error.rs: the error type and `Result`. The message texts are not modelled.
use orgsync.Base.{◌≡◌, refl}

pub data Error : Type 0 where
  sqlite io codec crypto rejected not_enrolled schema network not_running other : Error

pub data Result {ℓ} (T : Type ℓ) : Type ℓ where
  ok : T → Result T
  err : Error → Result T

-- The operator `?`: an error ends the function.
infixl 5 ◌>>=◌
abbrev pub ◌>>=◌ {ℓ κ} : {T : Type ℓ} {U : Type κ} → Result T → (T → Result U) → Result U
◌>>=◌ (err e) rest = err e
◌>>=◌ (ok t) rest = rest t

-- A chain that succeeds has succeeded at each step.
pub ok_of_bind {ℓ κ} :
    {T : Type ℓ} {U : Type κ} (first : Result T) (rest : T → Result U) {u : U}
    → (first >>= rest) ≡ ok u
    → (t : T) × (first ≡ ok t) × (rest t ≡ ok u)
ok_of_bind (err e) rest done = cc
ok_of_bind (ok t) rest done = (t, refl, done)
