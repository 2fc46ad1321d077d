-- ===== src/Config/Bounds.antt =====
-- What the settings that `loadEnv` returns satisfy (apps/coordination-hub/src/config/env.schema.ts).
use qr_blockchain_anticounte.Prelude.{
  ℕ, Str, codes, str_eq, ◌≡◌, ◌∙◌, refl, Option, none, some, Bool, true, ltb, leb, length, arith,
  Bool-cases, inl, inr, if◌then◌else◌,
}
use qr_blockchain_anticounte.Config.{
  FileState, Source, merged, Settings, Parsed, valid, issue, is_address, is_private_key, is_base64,
  or_issue, is_blank, given, read_contract_address_file,
}
use qr_blockchain_anticounte.Config.Loading.{passed, load_env, checked_by}
use qr_blockchain_anticounte.Config.Reading.{parse_env-IsRead}

module _ (number : Str → Option ℕ) (is_url : Str → Bool) where
  accepted :
      (name : Str) (d : ℕ) (test : ℕ → Bool) (o : Option Str) (n : ℕ)
      → test d ≡ true
      → (elim o as (λ _. Parsed ℕ) [
        | none ↦ valid d
        | some s ↦ or_issue name (checked_by number is_url test (number s))
      ])
        ≡ valid n
      → test n ≡ true
  accepted name d test none n h e = ground (arith, h, e)
  accepted name d test (some s) n h e = checked (number s) e
    where
      checked :
          (o : Option ℕ) → or_issue name (checked_by number is_url test o) ≡ valid n → test n ≡ true
      checked none e = absurd (cc e)
      checked (some m) e = elim (Bool-cases (test m)) [
        | inl t ↦ ground (arith, t, e)
        | inr t ↦ absurd (ground (arith, t, e))
      ]

  given_text :
      (name : Str) (check : Str → Bool) (o p : Option Str)
      → (elim o as (λ _. Parsed (Option Str)) [
        | none ↦ valid none
        | some s ↦ if check s then valid (some s) else issue name
      ])
        ≡ valid p
      → given check p ≡ true
  given_text name check none p e = ground (arith, e)
  given_text name check (some s) p e = elim (Bool-cases (check s)) [
    | inl t ↦ ground (arith, t, e)
    | inr t ↦ absurd (ground (arith, t, e))
  ]

  read_text :
      (name : Str) (check : Str → Bool) (o p : Option Str)
      → (elim o as (λ _. Parsed (Option Str)) [
        | none ↦ valid none
        | some s ↦ if check s then valid (some s) else issue name
      ])
        ≡ valid p
      → p ≡ o
  read_text name check none p e = ground (arith, e)
  read_text name check (some s) p e = elim (Bool-cases (check s)) [
    | inl t ↦ ground (arith, t, e)
    | inr t ↦ absurd (ground (arith, t, e))
  ]

  from_file :
      (source : Source) (file : FileState)
      → is_blank (source (codes "CONTRACT_ADDRESS")) ≡ true
      → merged source file (codes "CONTRACT_ADDRESS") ≡ read_contract_address_file file
  unfolding merged str_eq
  from_file source file h = ground (arith, h)

  -- The bounds that the rest of the hub relies on.
  pub record IsSafe (s : Settings) : Type 0 where
    pub port : ltb 0 s.port ≡ true
    pub timeout : ltb 0 s.tx_timeout_seconds ≡ true
    pub logins : ltb 0 s.rate_limit_login_per_15m ≡ true
    pub scans : ltb 0 s.rate_limit_scan_private_per_min ≡ true
    pub registrations : ltb 0 s.rate_limit_register_per_hour ≡ true
    pub generic : ltb 0 s.rate_limit_auth_generic_per_min ≡ true
    pub rotation : leb s.daily_salt_rotate_hour_utc 23 ≡ true
    pub address : given is_address s.contract_address ≡ true
    pub key : given is_private_key s.system_wallet_private_key ≡ true
    pub jwt : given (λ z. leb 32 (length z)) s.jwt_secret ≡ true
    pub refresh : given (λ z. leb 32 (length z)) s.refresh_secret ≡ true
    pub kek : given is_base64 s.wallet_encryption_kek ≡ true
    pub salt : given (λ z. leb 16 (length z)) s.daily_salt_secret ≡ true

  -- Settings that `load_env` returns are within bounds: the port, the timeout of transactions and the four
  -- rate limits are positive and the rotation hour is one of the day; and where they are set, the
  -- contract's address, the system wallet's key and the key that encrypts wallets have the right form,
  -- the two secrets of tokens have 32 characters at least and the salt's secret 16.
  pub load_env-IsSafe :
      (source : Source) (file : FileState) (s : Settings)
      → load_env number is_url source file ≡ passed s
      → IsSafe s
  unfolding load_env
  load_env-IsSafe source file s e =
      let env = merged source file in
      let r = parse_env-IsRead number is_url env s e in
      record {
        port = accepted (codes "PORT") 3000 (λ n. ltb 0 n) (env (codes "PORT")) s.port refl r.port;
        timeout =
            accepted (codes "TX_TIMEOUT_SECONDS") 60 (λ n. ltb 0 n)
              (env (codes "TX_TIMEOUT_SECONDS")) s.tx_timeout_seconds refl r.tx_timeout_seconds;
        logins =
            accepted (codes "RATE_LIMIT_LOGIN_PER_15M") 5 (λ n. ltb 0 n)
              (env (codes "RATE_LIMIT_LOGIN_PER_15M")) s.rate_limit_login_per_15m refl
              r.rate_limit_login_per_15m;
        scans =
            accepted (codes "RATE_LIMIT_SCAN_PRIVATE_PER_MIN") 60 (λ n. ltb 0 n)
              (env (codes "RATE_LIMIT_SCAN_PRIVATE_PER_MIN")) s.rate_limit_scan_private_per_min refl
              r.rate_limit_scan_private_per_min;
        registrations =
            accepted (codes "RATE_LIMIT_REGISTER_PER_HOUR") 3 (λ n. ltb 0 n)
              (env (codes "RATE_LIMIT_REGISTER_PER_HOUR")) s.rate_limit_register_per_hour refl
              r.rate_limit_register_per_hour;
        generic =
            accepted (codes "RATE_LIMIT_AUTH_GENERIC_PER_MIN") 600 (λ n. ltb 0 n)
              (env (codes "RATE_LIMIT_AUTH_GENERIC_PER_MIN")) s.rate_limit_auth_generic_per_min refl
              r.rate_limit_auth_generic_per_min;
        rotation =
            accepted (codes "DAILY_SALT_ROTATE_HOUR_UTC") 0 (λ n. leb n 23)
              (env (codes "DAILY_SALT_ROTATE_HOUR_UTC")) s.daily_salt_rotate_hour_utc refl
              r.daily_salt_rotate_hour_utc;
        address =
            given_text (codes "CONTRACT_ADDRESS") is_address (env (codes "CONTRACT_ADDRESS"))
              s.contract_address r.contract_address;
        key =
            given_text (codes "SYSTEM_WALLET_PRIVATE_KEY") is_private_key
              (env (codes "SYSTEM_WALLET_PRIVATE_KEY")) s.system_wallet_private_key
              r.system_wallet_private_key;
        jwt =
            given_text (codes "JWT_SECRET") (λ z. leb 32 (length z)) (env (codes "JWT_SECRET"))
              s.jwt_secret r.jwt_secret;
        refresh =
            given_text (codes "REFRESH_SECRET") (λ z. leb 32 (length z))
              (env (codes "REFRESH_SECRET")) s.refresh_secret r.refresh_secret;
        kek =
            given_text (codes "WALLET_ENCRYPTION_KEK") is_base64
              (env (codes "WALLET_ENCRYPTION_KEK")) s.wallet_encryption_kek r.wallet_encryption_kek;
        salt =
            given_text (codes "DAILY_SALT_SECRET") (λ z. leb 16 (length z))
              (env (codes "DAILY_SALT_SECRET")) s.daily_salt_secret r.daily_salt_secret;
      }

  -- When the environment names no contract, or a blank one, the address of the settings is that of the
  -- deployer's file, without the spaces around it; the settings have none exactly when the file has none.
  pub load_env-address_of_file :
      (source : Source) (file : FileState) (s : Settings)
      → is_blank (source (codes "CONTRACT_ADDRESS")) ≡ true
      → load_env number is_url source file ≡ passed s
      → s.contract_address ≡ read_contract_address_file file
  unfolding load_env
  load_env-address_of_file source file s h e =
      let env = merged source file in
      read_text (codes "CONTRACT_ADDRESS") is_address (env (codes "CONTRACT_ADDRESS"))
        s.contract_address (parse_env-IsRead number is_url env s e).contract_address
      ∙ from_file source file h
