-- ===== src/Http.antt =====
-- rust/seed-server/src/http.rs: the admin's token. The routes, the JSON and the texts of errors are
-- not modelled.
pub mod Token
pub mod Handlers
use orgsync.Base.{
  ℕ, ◌%◌, Bool, true, false, Option, none, some, [], ◌∷◌, ◌++◌, Bytes, codes, length, take, drop,
  ◌==◌, if◌then◌else◌, nat_ord, list_ord,
}
use Prim.Native.Nat.{bit_or, bit_xor}
use orgsync.Error.{Result, ok, err, other, ◌>>=◌}
use orgsync.Seed.{Store, org_row}

-- The loop over the positions of the longer text: what is missing of the given one reads as 0, and
-- of the expected one as 1.
unfoldable pub differences : ℕ → Bytes → Bytes → ℕ
differences diff [] [] = diff
differences diff [] (y ∷ b) = differences (bit_or diff (bit_xor 0 y)) [] b
differences diff (x ∷ a) [] = differences (bit_or diff (bit_xor x 1)) a []
differences diff (x ∷ a) (y ∷ b) = differences (bit_or diff (bit_xor x y)) a b

unfoldable pub token_matches : Bytes → Bytes → Bool
unfolding differences
token_matches given expected =
    differences (bit_xor (length given) (length expected) % 256) given expected == 0

abbrev pub bearer : Bytes
bearer = codes "Bearer "

-- The header after `to_str`; no token is the empty one.
abbrev pub given_token : Option Bytes → Bytes
given_token none = []
given_token (some v) = if take 7 v == bearer then drop 7 v else []
