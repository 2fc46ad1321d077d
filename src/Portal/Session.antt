-- ===== src/Portal/Session.antt =====
-- The management portal's session, apps/management-portal/src/lib/auth.ts: the tokens that NextAuth
-- keeps, and their renewal. The hub's answers are arguments: nothing stands for a call that throws.
pub mod Fresh
use qr_blockchain_anticounte.Prelude.{
  ℕ, ◌+◌, ◌-◌, ◌*◌, Str, codes, str_eq, Option, none, some, Bool, true, false, not, ◌&&◌, ltb, ◌==◌,
  if◌then◌else◌, get_or, or_else, [], ◌∷◌,
}

-- `accessExpiresAtMs`: a time, or NaN, which the cookie keeps as null
pub data Expiry : Type 0 where
  at_ms : ℕ → Expiry
  not_a_number : Expiry

pub record Jwt : Type 0 where
  pub access_token : Option Str
  pub refresh_token : Option Str
  pub access_expires_at_ms : Option Expiry
  pub email : Option Str
  pub producer_id : Option Str
  pub error : Bool

-- The bundle that the portal expects of /auth/login and /auth/refresh; a field that the hub leaves out
-- is none.
pub record HubTokens : Type 0 where
  pub access_token : Option Str
  pub refresh_token : Option Str
  pub access_token_expires_in_sec : Option ℕ
  pub email : Option Str
  pub producer_id : Option Str

abbrev pub skew_ms : ℕ
skew_ms = 60_000

-- `token.accessExpiresAtMs && Date.now() < token.accessExpiresAtMs - 60_000`, where a difference below
-- zero is smaller than every time
abbrev pub is_fresh : (now : ℕ) → Option Expiry → Bool
is_fresh now (some (at_ms t)) = not (t == 0) && ltb now (t - skew_ms)
is_fresh now _ = false

-- `Date.now() + sec * 1000`
abbrev pub expiry : (now : ℕ) → Option ℕ → Expiry
expiry now none = not_a_number
expiry now (some sec) = at_ms (now + sec * 1000)

-- a text that is there and not empty
abbrev pub is_text : Option Str → Bool
is_text none = false
is_text (some []) = false
is_text (some (c ∷ s)) = true

abbrev pub renewed : (now : ℕ) → Jwt → Option HubTokens → Jwt
renewed now token none = record token { error = true }
renewed now token (some r) = record token {
  access_token = r.access_token;
  refresh_token = r.refresh_token;
  access_expires_at_ms = some (expiry now r.access_token_expires_in_sec);
  error = false;
}

-- `now` is the time before the call of the hub and `later` the one after it; the hub is called with the
-- refresh token only.
unfoldable pub refresh_access_token_if_needed :
    (now later : ℕ) → (hub_refresh : Option Str → Option HubTokens) → Jwt → Jwt
refresh_access_token_if_needed now later hub_refresh token =
    if is_fresh now token.access_expires_at_ms
    then token
    else if not (is_text token.refresh_token)
    then record token { error = true }
    else renewed later token (hub_refresh token.refresh_token)

pub record User : Type 0 where
  pub id : Option Str
  pub email : Option Str
  pub access_token : Option Str
  pub refresh_token : Option Str
  pub access_expires_at_ms : Expiry
  pub producer_id : Option Str

pub record Credentials : Type 0 where
  pub email : Option Str
  pub password : Option Str

-- the user of a test run, and the user that the hub's answer makes
abbrev pub bypass_user : (now : ℕ) → (email : Option Str) → User
bypass_user now email = record {
  id = some (codes "producer-1");
  email = email;
  access_token = some (codes "e2e-access");
  refresh_token = some (codes "e2e-refresh");
  access_expires_at_ms = at_ms (now + 3_600_000);
  producer_id = some (codes "producer-1");
}

abbrev pub user_from : (now : ℕ) → HubTokens → User
user_from now r = record {
  id = r.producer_id;
  email = r.email;
  access_token = r.access_token;
  refresh_token = r.refresh_token;
  access_expires_at_ms = expiry now r.access_token_expires_in_sec;
  producer_id = r.producer_id;
}

abbrev pub user_of : (now : ℕ) → Option HubTokens → Option User
user_of now none = none
user_of now (some r) = some (user_from now r)

unfoldable pub authorize :
    (bypass : Bool)
    → (now : ℕ) → (hub_login : Credentials → Option HubTokens) → Option Credentials
    → Option User
authorize bypass now hub_login none = none
authorize bypass now hub_login (some c) =
    if not (is_text c.email && is_text c.password)
    then none
    else if bypass
    then some (bypass_user now c.email)
    else user_of now (hub_login c)

-- The guard at the start of the module: the bypass never runs in production.
abbrev pub may_start : (bypass is_production : Bool) → Bool
may_start bypass is_production = not (bypass && is_production)

abbrev pub signed_in : Jwt → User → Jwt
signed_in token u = record token {
  access_token = u.access_token;
  refresh_token = u.refresh_token;
  access_expires_at_ms = some u.access_expires_at_ms;
  email = u.email;
  producer_id = u.producer_id;
}

unfoldable pub jwt :
    (now later : ℕ) → (hub_refresh : Option Str → Option HubTokens) → Jwt → Option User → Jwt
jwt now later hub_refresh token (some u) = signed_in token u
jwt now later hub_refresh token none = refresh_access_token_if_needed now later hub_refresh token

pub record Session : Type 0 where
  pub access_token : Str
  pub refresh_token : Str
  pub access_expires_at_ms : Expiry
  pub email : Str
  pub producer_id : Str
  pub error : Bool

unfoldable pub session : (session_email : Option Str) → Jwt → Session
session session_email token = record {
  access_token = get_or [] token.access_token;
  refresh_token = get_or [] token.refresh_token;
  access_expires_at_ms = get_or (at_ms 0) token.access_expires_at_ms;
  email = get_or [] (or_else token.email session_email);
  producer_id = get_or [] token.producer_id;
  error = token.error;
}
