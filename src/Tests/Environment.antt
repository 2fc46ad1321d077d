-- ===== src/Tests/Environment.antt =====
-- The settings of an environment with no variables and the deployer's file.
use qr_blockchain_anticounte.Prelude.{codes, ◌≡◌, refl, some, none, [], ◌∷◌, ◌++◌, true}
use qr_blockchain_anticounte.Fixtures.{copies}
use qr_blockchain_anticounte.Config.{
  FileState, content, Source, Settings, merged, read_contract_address_file, trim, trim_start,
  is_address, split_commas, development, info, hardhat, local,
}
use qr_blockchain_anticounte.Config.Loading.{passed, load_env, parse_env}
use qr_blockchain_anticounte.Config.Bounds.{IsSafe, load_env-IsSafe, load_env-address_of_file}
use qr_blockchain_anticounte.Tests.Scans.{running}

abbrev deployed : FileState
deployed = content (codes " 0x" ++ (copies 40 b'a' ++ 10 ∷ []))

abbrev nothing_set : Source
nothing_set _ = none

abbrev loaded : Settings
loaded = record {
  node_env = development;
  port = 3000;
  log_level = info;
  expose_swagger = true;
  cors_origins = codes "http://localhost:3001" ∷ codes "http://localhost:3002" ∷ [];
  jwt_secret = none;
  jwt_expires_in = codes "24h";
  refresh_secret = none;
  refresh_expires_in = codes "30d";
  wallet_encryption_kek = none;
  mongo_uri = codes "mongodb://localhost:27017/qr_bc";
  network = hardhat;
  rpc_url = codes "http://localhost:8545";
  contract_address = some (codes "0x" ++ copies 40 b'a');
  system_wallet_private_key = none;
  tx_confirmations = 1;
  tx_timeout_seconds = 60;
  ipfs_provider = local;
  ipfs_api_url = codes "http://localhost:5001";
  ipfs_gateway_url = codes "http://localhost:8080";
  pinata_jwt = none;
  rate_limit_login_per_15m = 5;
  rate_limit_register_per_hour = 3;
  rate_limit_scan_private_per_min = 60;
  rate_limit_auth_generic_per_min = 600;
  daily_salt_rotate_hour_utc = 0;
  daily_salt_secret = none;
  log_public_scans = true;
}

loaded_run : load_env (λ s. none) (λ _. true) nothing_set deployed ≡ passed loaded
unfolding running load_env parse_env merged read_contract_address_file trim trim_start is_address
    split_commas
loaded_run = refl

load_env-IsSafe_example : IsSafe (λ s. none) (λ _. true) loaded
load_env-IsSafe_example =
    load_env-IsSafe (λ s. none) (λ _. true) nothing_set deployed loaded loaded_run

load_env-address_of_file_example : loaded.contract_address ≡ read_contract_address_file deployed
load_env-address_of_file_example =
    load_env-address_of_file (λ s. none) (λ _. true) nothing_set deployed loaded refl loaded_run
