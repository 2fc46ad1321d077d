-- ===== src/Fixtures.antt =====
-- A concrete outside, configuration and state on which the methods run: a network, database and chain
-- that answer, and toy stand-ins for the cryptographic functions of libraries.
use qr_blockchain_anticounte.Prelude.{
  ℕ, zero, suc, ◌+◌, ◌*◌, ◌%◌, Str, codes, ◌++◌, Option, none, some, List, [], ◌∷◌, true, false,
  length, drop, ◌==◌, str_eq, if◌then◌else◌,
}
use qr_blockchain_anticounte.Errors.{plain_error}
use qr_blockchain_anticounte.Dates.{decimal}
use qr_blockchain_anticounte.Hex.{hex_of_bytes, pairs_to_bytes, hex_to_bytes, is_phi, bytes_to_hex}
use qr_blockchain_anticounte.Registry.{
  Storage, Revert, project_already_exists, project_does_not_exist, unauthorized_producer,
  batch_too_large, empty_batch, duplicate_product_hash, product_does_not_exist,
  product_already_redeemed,
}
use qr_blockchain_anticounte.Documents.{ProducerDoc, ProjectDoc, harvesting, pos}
use qr_blockchain_anticounte.World.{Outside, Env, World, up, ErrorDescription}
use qr_blockchain_anticounte.Scan.{ScanPrivateDto, ScanContext}

abbrev pub copies : ℕ → ℕ → List ℕ
copies zero b = []
copies (suc n) b = b ∷ copies n b

abbrev pub total_of : List ℕ → ℕ
total_of [] = 0
total_of (b ∷ bs) = b + total_of bs

abbrev pub big_endian : List ℕ → ℕ → ℕ
big_endian [] acc = acc
big_endian (b ∷ bs) acc = big_endian bs (acc * 256 + b)

abbrev pub word_of : Str → Option ℕ
word_of text = if is_phi text then some (big_endian (hex_to_bytes text) 0) else none

-- a revert as data: its kind, then its arguments
abbrev pub revert_text : Revert → Str
revert_text (project_already_exists phi) = 0 ∷ phi ∷ []
revert_text (project_does_not_exist phi) = 1 ∷ phi ∷ []
revert_text (unauthorized_producer phi caller) = 2 ∷ phi ∷ caller ∷ []
revert_text (batch_too_large size) = 3 ∷ size ∷ []
revert_text empty_batch = 4 ∷ []
revert_text (duplicate_product_hash phi h) = 5 ∷ phi ∷ h ∷ []
revert_text (product_does_not_exist phi h) = 6 ∷ phi ∷ h ∷ []
revert_text (product_already_redeemed phi h) = 7 ∷ phi ∷ h ∷ []

abbrev pub hex_text : ℕ → Str
hex_text n = codes "0x" ++ decimal n

abbrev pub parsed_text : Str → Option ErrorDescription
parsed_text [] = none
parsed_text (k ∷ []) = some (record { name = codes "EmptyBatch"; args = [] })
parsed_text (k ∷ a ∷ []) =
    if k == 0
    then some (record { name = codes "ProjectAlreadyExists"; args = decimal a ∷ [] })
    else if k == 1
    then some (record { name = codes "ProjectDoesNotExist"; args = decimal a ∷ [] })
    else some (record { name = codes "BatchTooLarge"; args = (a ∷ []) ∷ [] })
parsed_text (k ∷ a ∷ b ∷ s) =
    if k == 2
    then some (record { name = codes "UnauthorizedProducer"; args = decimal a ∷ hex_text b ∷ [] })
    else if k == 5
    then some (record { name = codes "DuplicateProductHash"; args = decimal a ∷ decimal b ∷ [] })
    else if k == 6
    then some (record { name = codes "ProductDoesNotExist"; args = decimal a ∷ decimal b ∷ [] })
    else some (record { name = codes "ProductAlreadyRedeemed"; args = decimal a ∷ decimal b ∷ [] })

abbrev pub first_unit : Str → ℕ
first_unit [] = 0
first_unit (a ∷ s) = a

abbrev pub calm : Outside
calm = record {
  clock = λ t. 1_700_000_000_000 + t;
  block_time = λ t. 1_700_000_000 + t;
  others = λ _. [];
  net = λ _. up;
  has_receipt = λ _. true;
  has_block = λ _. true;
  db = λ _. none;
  tx_hash = λ _. bytes_to_hex (copies 32 9);
  random = λ _ n. copies n 7;
  sha256 = λ bs. total_of bs % 256;
  digest_hex = λ n. hex_of_bytes (copies 31 0 ++ n ∷ []);
  noble_bytes_to_hex = hex_of_bytes;
  noble_hex_to_bytes = pairs_to_bytes;
  sha256_hex = λ _. codes "5a17";
  bytes32 = word_of;
  invalid_argument = plain_error (codes "invalid BytesLike value");
  address_text = hex_text;
  to_number = first_unit;
  revert_error =
      λ r. record (plain_error (codes "execution reverted")) { data_of = some (revert_text r) };
  mined_revert = plain_error (codes "transaction execution reverted");
  parse_error = parsed_text;
  word_text = decimal;
  is_object_id = λ s. length s == 24;
  new_id = λ _. codes "0123456789abcdef01234567";
  number_text = λ n. n ∷ [];
  wallet_address = λ _. some 11;
  new_private_key = λ _. bytes_to_hex (copies 32 1);
  to_base64 = λ bs. bs;
  from_base64 = λ s. s;
  gcm_encrypt = λ _ _ bs. copies 16 0 ++ bs;
  gcm_decrypt = λ _ _ bs. some (drop 16 bs);
  bcrypt_hash = λ _ password _. password;
  bcrypt_compare = str_eq;
  jwt_sign = λ _ _ _ _. codes "token";
  jwt_verify = λ _ _ _. none;
}

abbrev pub settings : Env
settings = record {
  contract_address = some (codes "0xC0");
  system_wallet_private_key = some (codes "0x01");
  daily_salt_rotate_hour_utc = 0;
  daily_salt_secret = some (codes "salt");
  log_public_scans = true;
  wallet_encryption_kek = some (codes "kek");
  is_production = false;
  jwt_secret = none;
  refresh_secret = none;
  jwt_expires_in = codes "15m";
  refresh_expires_in = codes "7d";
}

-- project 5 of the account 11, with the products 3 and 4
abbrev pub stocked : Storage
stocked = record {
  projects = λ k. record { producer_address = 11; exists = k == 5 };
  products = λ k g. record {
    exists = if k == 5 then (if g == 3 then true else g == 4) else false;
    redeemed = false;
  };
  total_redeemed = 0;
  events = [];
}

abbrev pub farmer : ProducerDoc
farmer = record {
  id = codes "0123456789abcdef01234567";
  email = codes "farmer@example.org";
  password_hash = codes "right";
  wallet_address = codes "0x11";
  encrypted_private_key = copies 16 0;
  encryption_iv = [];
  encryption_auth_tag = copies 32 1;
  failed_login_attempts = 0;
  last_failed_login_at = none;
  locked_until = none;
  created_at = 0;
  updated_at = 0;
}

abbrev pub start : World
start = record {
  tick = 0;
  registry = stocked;
  contract = true;
  contract_generation = 1;
  view_cache = [];
  cache_hits = 0;
  cache_misses = 0;
  kek = copies 32 2;
  logs = [];
  projects = [];
  producers = farmer ∷ [];
  audit = [];
}

abbrev pub phi_text : Str
phi_text = bytes_to_hex (copies 31 0 ++ 5 ∷ [])

abbrev pub scan_input : ScanPrivateDto
scan_input = record { project_id = phi_text; secret_id = bytes_to_hex (1 ∷ 2 ∷ []) }

abbrev pub anonymous : ScanContext
anonymous = record { ip = none; user_agent = none }

-- a project of the farmer
abbrev pub field : ProjectDoc
field = record {
  id = codes "aaaaaaaaaaaaaaaaaaaaaaaa";
  project_id = phi_text;
  owner_producer_id = farmer.id;
  cooperative_name = codes "North";
  vegetable_type = codes "Cabbage";
  cultivation_location = record {
    address = codes "Road 1";
    province = codes "North";
    coordinates = none;
  };
  start_date = 0;
  harvest_date = 1;
  cultivation_area = pos 1;
  expected_output = pos 1;
  description = [];
  cultivation_activities = [];
  certifications = [];
  image_urls = [];
  status = harvesting;
  is_deleted = false;
  deleted_at = none;
  tx_hash_register_project = none;
  created_at = 0;
  updated_at = 0;
}

abbrev pub planted : World
planted = record start { projects = field ∷ [] }
