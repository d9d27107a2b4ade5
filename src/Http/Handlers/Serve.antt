-- ===== src/Http/Handlers/Serve.antt =====
-- The server as a sequence of requests.
use orgsync.Base.{ℕ, Option, List, [], ◌∷◌, Bytes, false, ◌≡◌}
use orgsync.Crypto.{Crypto}
use orgsync.Enroll.{EnrollRequest}
use orgsync.Http.{given_token, token_matches}
use orgsync.Http.Handlers.{AppState, CreateInvite, enroll, create_invite, revoke}

-- The routes, with what the handler draws and reads of the clock. Those that only read are one.
pub data HttpRequest : Type 0 where
  reads : HttpRequest
  post_enroll : (req : EnrollRequest) (now issue_now : ℕ) → HttpRequest
  post_invite : (header : Option Bytes) (body : CreateInvite) (raw : Bytes) (now : ℕ) → HttpRequest
  post_revoke : (header : Option Bytes) (serial now list_now : ℕ) → HttpRequest

module _ (c : Crypto) where
  unfoldable pub route : AppState → HttpRequest → AppState
  unfolding enroll create_invite revoke
  route state reads = state
  route state (post_enroll req now issue_now) = (enroll c state req now issue_now).0
  route state (post_invite header body raw now) = (create_invite state header body raw now).0
  route state (post_revoke header serial now list_now) =
      (revoke c state header serial now list_now).0

  unfoldable pub serve : AppState → List HttpRequest → AppState
  unfolding route
  serve state [] = state
  serve state (req ∷ rest) = serve (route state req) rest

-- A request that does not carry the admin's token.
abbrev pub IsOutsider : Bytes → HttpRequest → Type 0
IsOutsider token reads = Unit {0}
IsOutsider token (post_enroll req now issue_now) = Unit {0}
IsOutsider token (post_invite header body raw now) =
    token_matches (given_token header) token ≡ false
IsOutsider token (post_revoke header serial now list_now) =
    token_matches (given_token header) token ≡ false

abbrev pub AllOutsiders : Bytes → List HttpRequest → Type 0
AllOutsiders token [] = Unit {0}
AllOutsiders token (req ∷ rest) = IsOutsider token req × AllOutsiders token rest
