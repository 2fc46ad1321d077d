-- ===== src/World/State.antt =====
-- The records of the hub's configuration, of the outside, and of its mutable state.
use qr_blockchain_anticounte.Prelude.{ℕ, Str, Bool, Option, List}
use qr_blockchain_anticounte.Errors.{JsError}
use qr_blockchain_anticounte.Registry.{Storage, Tx, Revert}
use qr_blockchain_anticounte.Documents.{ProjectDoc, ProducerDoc, AuditEntry}

-- The settings that the modelled code reads (apps/coordination-hub/src/config/env.schema.ts).
pub record Env : Type 0 where
  pub contract_address : Option Str
  pub system_wallet_private_key : Option Str
  pub daily_salt_rotate_hour_utc : ℕ
  pub daily_salt_secret : Option Str
  pub log_public_scans : Bool
  pub wallet_encryption_kek : Option Str
  pub is_production : Bool
  pub jwt_secret : Option Str
  pub refresh_secret : Option Str
  pub jwt_expires_in : Str
  pub refresh_expires_in : Str

-- A call reaches the endpoint and is answered; or fails there; or is carried out, and the answer lost.
pub data Net : Type 0 where
  up : Net
  fail : JsError → Net
  lost : JsError → Net

pub record ErrorDescription : Type 0 where
  pub name : Str
  pub args : List Str

-- apps/coordination-hub/src/auth/strategies/jwt.strategy.ts
pub record JwtPayload : Type 0 where
  pub producer_id : Str
  pub email : Str
  pub wallet_address : Str

pub record Outside : Type 0 where
  -- `Date.now()`, and the timestamp of the block that is mined, at a tick
  pub clock : ℕ → ℕ
  pub block_time : ℕ → ℕ
  pub others : ℕ → List Tx
  pub net : ℕ → Net
  -- does `wait` have the receipt, and does the node know the block
  pub has_receipt : ℕ → Bool
  pub has_block : ℕ → Bool
  -- what the database answers: an error, or it does as told
  pub db : ℕ → Option JsError
  pub tx_hash : ℕ → Str
  pub random : (tick length : ℕ) → List ℕ
  -- SHA-256 as a 256-bit word, and noble's hexadecimal of that word
  pub sha256 : List ℕ → ℕ
  pub digest_hex : ℕ → Str
  -- noble's `bytesToHex` and `hexToBytes`
  pub noble_bytes_to_hex : List ℕ → Str
  pub noble_hex_to_bytes : Str → List ℕ
  -- `createHash('sha256').update(text).digest('hex')`
  pub sha256_hex : Str → Str
  -- ethers: its coder of a bytes32 argument and the error that it throws, an address and an
  -- unsigned number as text, the error for a call that the node's estimate says reverts, the error
  -- of `wait` for a transaction that was mined and reverted, and `Interface.parseError`
  pub bytes32 : Str → Option ℕ
  pub invalid_argument : JsError
  pub address_text : ℕ → Str
  pub to_number : Str → ℕ
  pub revert_error : Revert → JsError
  pub mined_revert : JsError
  pub parse_error : Str → Option ErrorDescription
  pub word_text : ℕ → Str
  -- mongoose: `Types.ObjectId.isValid`, and the id of a new document
  pub is_object_id : Str → Bool
  pub new_id : (tick : ℕ) → Str
  pub number_text : ℕ → Str
  -- ethers' `new Wallet(key)`: the address, or it throws; and `Wallet.createRandom()`: a private key
  pub wallet_address : Str → Option ℕ
  pub new_private_key : (tick : ℕ) → Str
  -- `Buffer.from(bytes).toString('base64')` and back, and noble's AES-256-GCM under a key and an IV:
  -- the ciphertext followed by the 16 bytes of the tag, and decryption, which throws on a bad tag
  pub to_base64 : List ℕ → Str
  pub from_base64 : Str → List ℕ
  pub gcm_encrypt : (key iv plaintext : List ℕ) → List ℕ
  pub gcm_decrypt : (key iv ciphertext : List ℕ) → Option (List ℕ)
  -- bcryptjs: a hash with a random salt, and the comparison
  pub bcrypt_hash : (tick : ℕ) → (password : Str) → (rounds : ℕ) → Str
  pub bcrypt_compare : (password hashed : Str) → Bool
  -- Nest's JwtService: `sign` at a time, and `verifyAsync`, which throws on a bad or expired token
  pub jwt_sign : (now : ℕ) → JwtPayload → (secret expires_in : Str) → Str
  pub jwt_verify : (now : ℕ) → (token secret : Str) → Option JwtPayload

pub record VerifyProductResult : Type 0 where
  pub exists : Bool
  pub redeemed : Bool
  pub producer : Str

-- a value of the cache, `unknown` in the source
pub data CacheValue : Type 0 where
  product : VerifyProductResult → CacheValue
  flag : Bool → CacheValue
  total : ℕ → CacheValue

pub record CacheEntry : Type 0 where
  pub value : CacheValue
  pub expires_at : ℕ

pub data OutcomeStatus : Type 0 where
  authentic already_verified counterfeit : OutcomeStatus

pub record VerificationLog : Type 0 where
  pub phi : Str
  pub h : Str
  pub outcome : OutcomeStatus
  pub tx_hash : Option Str
  pub scanned_at : ℕ
  pub ip_hash : Str
  pub user_agent_summary : Option Str

pub record World : Type 0 where
  pub tick : ℕ
  pub registry : Storage
  -- EthersContractService
  pub contract : Bool
  pub contract_generation : ℕ
  pub view_cache : List (Str × CacheEntry)
  pub cache_hits : ℕ
  pub cache_misses : ℕ
  -- WalletService
  pub kek : List ℕ
  -- the collection verificationLogs, oldest first
  pub logs : List VerificationLog
  -- the collections projects, producers and auditLogs
  pub projects : List ProjectDoc
  pub producers : List ProducerDoc
  pub audit : List AuditEntry
