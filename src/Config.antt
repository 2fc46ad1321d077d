-- ===== src/Config.antt =====
-- apps/coordination-hub/src/config/env.schema.ts: the hub's settings, read from the environment. What
-- zod does with a text (`z.coerce.number().int()` and `z.string().url()`) is a parameter, and so is
-- what the file system answers.
pub mod Loading
pub mod Reading
pub mod Bounds
use qr_blockchain_anticounte.Prelude.{
  ℕ, zero, suc, Str, codes, str_eq, starts_with, Option, none, some, List, [], ◌∷◌, reverse, Bool,
  true, false, ◌&&◌, ◌||◌, not, ltb, leb, ◌==◌, if◌then◌else◌, get_or, length, every, filter_by,
  map, strip_0x,
}
use qr_blockchain_anticounte.Hex.{is_hex_digit}

-- `String.prototype.trim`
abbrev is_space : ℕ → Bool
is_space c =
    (leb 9 c && leb c 13)
    || c == 32
    || c == 160
    || c == 5760
    || (leb 8192 c && leb c 8202)
    || c == 8232
    || c == 8233
    || c == 8239
    || c == 8287
    || c == 12288
    || c == 65279

unfoldable pub trim_start : Str → Str
trim_start [] = []
trim_start (c ∷ s) = if is_space c then trim_start s else c ∷ s

unfoldable pub trim : Str → Str
unfolding trim_start
trim s = reverse (trim_start (reverse (trim_start s)))

-- What `existsSync` and `readFileSync` find at a path.
pub data FileState : Type 0 where
  missing unreadable : FileState
  content : Str → FileState

unfoldable pub read_contract_address_file : FileState → Option Str
unfolding trim
read_contract_address_file missing = none
read_contract_address_file unreadable = none
read_contract_address_file (content raw) =
    let text = trim raw in if ltb 0 (length text) then some text else none

abbrev pub default_contract_address_file : Str
default_contract_address_file = codes "/contracts-out/address.txt"

-- `process.env`
abbrev pub Source : Type 0
Source = Str → Option Str

abbrev pub set_variable : Str → Option Str → Source → Source
set_variable name value source k = if str_eq k name then value else source k

-- `!merged.CONTRACT_ADDRESS || merged.CONTRACT_ADDRESS.trim() === ''`
abbrev pub is_blank : Option Str → Bool
is_blank none = true
is_blank (some s) = length (trim s) == 0

unfoldable pub merged : Source → (file : FileState) → Source
merged source file =
    if is_blank (source (codes "CONTRACT_ADDRESS"))
    then set_variable (codes "CONTRACT_ADDRESS") (read_contract_address_file file) source
    else source

pub data NodeEnv : Type 0 where
  development test production : NodeEnv

pub data LogLevel : Type 0 where
  fatal error warn info debug trace : LogLevel

pub data Network : Type 0 where
  hardhat amoy mainnet : Network

pub data IpfsProvider : Type 0 where
  local pinata mock : IpfsProvider

pub record Settings : Type 0 where
  pub node_env : NodeEnv
  pub port : ℕ
  pub log_level : LogLevel
  pub expose_swagger : Bool
  pub cors_origins : List Str
  pub jwt_secret : Option Str
  pub jwt_expires_in : Str
  pub refresh_secret : Option Str
  pub refresh_expires_in : Str
  pub wallet_encryption_kek : Option Str
  pub mongo_uri : Str
  pub network : Network
  pub rpc_url : Str
  pub contract_address : Option Str
  pub system_wallet_private_key : Option Str
  pub tx_confirmations : ℕ
  pub tx_timeout_seconds : ℕ
  pub ipfs_provider : IpfsProvider
  pub ipfs_api_url : Str
  pub ipfs_gateway_url : Str
  pub pinata_jwt : Option Str
  pub rate_limit_login_per_15m : ℕ
  pub rate_limit_register_per_hour : ℕ
  pub rate_limit_scan_private_per_min : ℕ
  pub rate_limit_auth_generic_per_min : ℕ
  pub daily_salt_rotate_hour_utc : ℕ
  pub daily_salt_secret : Option Str
  pub log_public_scans : Bool

-- a check of a setting that may be absent
abbrev pub given : (Str → Bool) → Option Str → Bool
given check none = true
given check (some s) = check s

-- A value, or the issue that zod reports for the variable.
pub data Parsed (A : Type 0) : Type 0 where
  valid : A → Parsed A
  issue : (path : Str) → Parsed A

-- `z.enum([…]).default(…)`
abbrev pub choice : {A : Type 0} → List (Str × A) → Str → Option A
choice [] s = none
choice ((k, a) ∷ ks) s = if str_eq k s then some a else choice ks s

abbrev pub node_envs : Str → Option NodeEnv
node_envs = choice (
    (codes "development", development)
    ∷ (codes "test", test)
    ∷ (codes "production", production)
    ∷ [])

abbrev pub or_issue : {A : Type 0} → Str → Option A → Parsed A
or_issue path none = issue path
or_issue path (some a) = valid a

-- A variable with a default, and an optional one, under a check of its text.
abbrev pub defaulted : {A : Type 0} → Source → Str → A → (Str → Option A) → Parsed A
defaulted source name d check = elim (source name) [
  | none ↦ valid d
  | some s ↦ or_issue name (check s)
]

abbrev pub optional : Source → Str → (Str → Bool) → Parsed (Option Str)
optional source name check = elim (source name) [
  | none ↦ valid none
  | some s ↦ if check s then valid (some s) else issue name
]

-- `booleanish`, on a text
abbrev pub booleanish : Str → Option Bool
booleanish s =
    if str_eq s (codes "true")
    then some true
    else if str_eq s (codes "false")
    then some false
    else none

-- `split(',')`, the current part in reverse
unfoldable pub split_commas : Str → (part : Str) → List Str
split_commas [] part = reverse part ∷ []
split_commas (c ∷ s) part =
    let rest = split_commas s [] in
    let more = split_commas s (c ∷ part) in if c == b',' then reverse part ∷ rest else more

abbrev pub origins : Str → List Str
origins s = filter_by (λ o. not (length o == 0)) (map trim (split_commas s []))

abbrev is_base64_unit : ℕ → Bool
is_base64_unit c =
    (leb b'A' c && leb c b'Z')
    || (leb b'a' c && leb c b'z')
    || (leb b'0' c && leb c b'9')
    || c == b'+'
    || c == b'/'

abbrev without_one : Str → Str
without_one [] = []
without_one (c ∷ s) = if c == b'=' then s else c ∷ s

-- `/^[A-Za-z0-9+/]+={0,2}$/`: at most two `=` are taken from the end
unfoldable pub is_base64 : Str → Bool
is_base64 s =
    let body = without_one (without_one (reverse s)) in
    not (length body == 0) && every is_base64_unit body

-- `/^0x[a-fA-F0-9]{40}$/` and `/^(0x)?[a-fA-F0-9]{64}$/`
unfoldable pub is_address : Str → Bool
unfolding is_hex_digit
is_address s = starts_with s (codes "0x") && length s == 42 && every is_hex_digit (strip_0x s)

unfoldable pub is_private_key : Str → Bool
unfolding is_hex_digit
is_private_key s = length (strip_0x s) == 64 && every is_hex_digit (strip_0x s)
