-- ===== src/Config/Loading.antt =====
-- `EnvSchema` and `loadEnv` of apps/coordination-hub/src/config/env.schema.ts.
use qr_blockchain_anticounte.Prelude.{
  ℕ, Str, codes, Option, none, some, List, [], ◌∷◌, ◌++◌, Bool, true, ltb, leb, if◌then◌else◌,
  length,
}
use qr_blockchain_anticounte.Config.{
  FileState, Source, merged, Settings, Parsed, valid, issue, choice, defaulted, optional,
  booleanish, origins, is_base64, is_address, is_private_key, node_envs, NodeEnv, development,
  LogLevel, fatal, error, warn, info, debug, trace, Network, hardhat, amoy, mainnet, IpfsProvider,
  local, pinata, mock,
}

-- The settings, or all the issues: `EnvValidationError`.
pub data Checked (A : Type 0) : Type 0 where
  passed : A → Checked A
  failed : (issues : List Str) → Checked A

infixl 5 ◌<*>◌
abbrev pub ◌<*>◌ : {A B : Type 0} → Checked (A → B) → Parsed A → Checked B
passed f <*> valid a = passed (f a)
passed f <*> issue path = failed (path ∷ [])
failed es <*> valid a = failed es
failed es <*> issue path = failed (es ++ path ∷ [])

abbrev pub make :
    NodeEnv
    → ℕ
    → LogLevel
    → Bool
    → List Str
    → Option Str
    → Str
    → Option Str
    → Str
    → Option Str
    → Str
    → Network
    → Str
    → Option Str
    → Option Str
    → ℕ
    → ℕ
    → IpfsProvider
    → Str
    → Str
    → Option Str
    → ℕ
    → ℕ
    → ℕ
    → ℕ
    → ℕ
    → Option Str
    → Bool
    → Settings
make node_env port log_level expose_swagger cors_origins jwt_secret jwt_expires_in refresh_secret
      refresh_expires_in wallet_encryption_kek mongo_uri network rpc_url contract_address
      system_wallet_private_key tx_confirmations tx_timeout_seconds ipfs_provider ipfs_api_url
      ipfs_gateway_url pinata_jwt rate_limit_login_per_15m rate_limit_register_per_hour
      rate_limit_scan_private_per_min rate_limit_auth_generic_per_min daily_salt_rotate_hour_utc
      daily_salt_secret log_public_scans =
    record {
      node_env = node_env;
      port = port;
      log_level = log_level;
      expose_swagger = expose_swagger;
      cors_origins = cors_origins;
      jwt_secret = jwt_secret;
      jwt_expires_in = jwt_expires_in;
      refresh_secret = refresh_secret;
      refresh_expires_in = refresh_expires_in;
      wallet_encryption_kek = wallet_encryption_kek;
      mongo_uri = mongo_uri;
      network = network;
      rpc_url = rpc_url;
      contract_address = contract_address;
      system_wallet_private_key = system_wallet_private_key;
      tx_confirmations = tx_confirmations;
      tx_timeout_seconds = tx_timeout_seconds;
      ipfs_provider = ipfs_provider;
      ipfs_api_url = ipfs_api_url;
      ipfs_gateway_url = ipfs_gateway_url;
      pinata_jwt = pinata_jwt;
      rate_limit_login_per_15m = rate_limit_login_per_15m;
      rate_limit_register_per_hour = rate_limit_register_per_hour;
      rate_limit_scan_private_per_min = rate_limit_scan_private_per_min;
      rate_limit_auth_generic_per_min = rate_limit_auth_generic_per_min;
      daily_salt_rotate_hour_utc = daily_salt_rotate_hour_utc;
      daily_salt_secret = daily_salt_secret;
      log_public_scans = log_public_scans;
    }

-- `number`: the text as an integer from 0 on, if it is one; `is_url`: zod's check of an address.
module _ (number : Str → Option ℕ) (is_url : Str → Bool) where
  abbrev pub checked_by : (ℕ → Bool) → Option ℕ → Option ℕ
  checked_by ok none = none
  checked_by ok (some n) = if ok n then some n else none

  abbrev pub positive : Str → Option ℕ
  positive s = checked_by (λ n. ltb 0 n) (number s)

  abbrev pub hour : Str → Option ℕ
  hour s = checked_by (λ n. leb n 23) (number s)

  abbrev pub url : Str → Option Str
  url s = if is_url s then some s else none

  unfoldable pub parse_env : Source → Checked Settings
  parse_env source =
      passed make
      <*> defaulted source (codes "NODE_ENV") development node_envs
      <*> defaulted source (codes "PORT") 3000 positive
      <*> defaulted source (codes "LOG_LEVEL") info (
          choice (
            (codes "fatal", fatal)
            ∷ (codes "error", error)
            ∷ (codes "warn", warn)
            ∷ (codes "info", info)
            ∷ (codes "debug", debug)
            ∷ (codes "trace", trace)
            ∷ []))
      <*> defaulted source (codes "EXPOSE_SWAGGER") true booleanish
      <*> defaulted source (codes "CORS_ORIGINS")
          (origins (codes "http://localhost:3001,http://localhost:3002")) (λ s. some (origins s))
      <*> optional source (codes "JWT_SECRET") (λ s. leb 32 (length s))
      <*> defaulted source (codes "JWT_EXPIRES_IN") (codes "24h") some
      <*> optional source (codes "REFRESH_SECRET") (λ s. leb 32 (length s))
      <*> defaulted source (codes "REFRESH_EXPIRES_IN") (codes "30d") some
      <*> optional source (codes "WALLET_ENCRYPTION_KEK") is_base64
      <*> defaulted source (codes "MONGO_URI") (codes "mongodb://localhost:27017/qr_bc") some
      <*> defaulted source (codes "NETWORK") hardhat (
          choice
            ((codes "hardhat", hardhat) ∷ (codes "amoy", amoy) ∷ (codes "mainnet", mainnet) ∷ []))
      <*> defaulted source (codes "RPC_URL") (codes "http://localhost:8545") url
      <*> optional source (codes "CONTRACT_ADDRESS") is_address
      <*> optional source (codes "SYSTEM_WALLET_PRIVATE_KEY") is_private_key
      <*> defaulted source (codes "TX_CONFIRMATIONS") 1 number
      <*> defaulted source (codes "TX_TIMEOUT_SECONDS") 60 positive
      <*> defaulted source (codes "IPFS_PROVIDER") local
          (choice ((codes "local", local) ∷ (codes "pinata", pinata) ∷ (codes "mock", mock) ∷ []))
      <*> defaulted source (codes "IPFS_API_URL") (codes "http://localhost:5001") url
      <*> defaulted source (codes "IPFS_GATEWAY_URL") (codes "http://localhost:8080") url
      <*> optional source (codes "PINATA_JWT") (λ _. true)
      <*> defaulted source (codes "RATE_LIMIT_LOGIN_PER_15M") 5 positive
      <*> defaulted source (codes "RATE_LIMIT_REGISTER_PER_HOUR") 3 positive
      <*> defaulted source (codes "RATE_LIMIT_SCAN_PRIVATE_PER_MIN") 60 positive
      <*> defaulted source (codes "RATE_LIMIT_AUTH_GENERIC_PER_MIN") 600 positive
      <*> defaulted source (codes "DAILY_SALT_ROTATE_HOUR_UTC") 0 hour
      <*> optional source (codes "DAILY_SALT_SECRET") (λ s. leb 16 (length s))
      <*> defaulted source (codes "LOG_PUBLIC_SCANS") true booleanish

  unfoldable pub load_env : Source → (file : FileState) → Checked Settings
  load_env source file = parse_env (merged source file)
