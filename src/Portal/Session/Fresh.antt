-- ===== src/Portal/Session/Fresh.antt =====
-- What becomes of a session of the management portal (apps/management-portal/src/lib/auth.ts) whose
-- renewals hold an access token and nothing else, as the hub's /auth/refresh answers
-- (`refresh` of apps/coordination-hub/src/auth/auth.service.ts).
use qr_blockchain_anticounte.Prelude.{ℕ, Str, ◌≡◌, Option, none, some, List, [], ◌∷◌}
use qr_blockchain_anticounte.Portal.Session.{Jwt, not_a_number, HubTokens, jwt}

-- A renewal, where the hub gives one, has no refresh token and no lifetime.
unfoldable pub AccessOnly : (Option Str → Option HubTokens) → Type 0
AccessOnly hub =
    (t : Option Str) (r : HubTokens)
    → hub t ≡ some r
    → (r.refresh_token ≡ none) × (r.access_token_expires_in_sec ≡ none)

-- NextAuth asks for the token: the times before and after a call of the hub, and what the hub would answer.
pub record Ask : Type 0 where
  pub now : ℕ
  pub later : ℕ
  pub hub : Option Str → Option HubTokens

abbrev pub ask : Ask → Jwt → Jwt
ask a token = jwt a.now a.later a.hub token none

unfoldable pub ask_each : List Ask → Jwt → Jwt
ask_each [] token = token
ask_each (a ∷ as_) token = ask_each as_ (ask a token)

-- neither fresh at any time nor to be renewed
record IsSpent (token : Jwt) : Type 0 where
  pub expiry : token.access_expires_at_ms ≡ some not_a_number
  pub refresh : token.refresh_token ≡ none
