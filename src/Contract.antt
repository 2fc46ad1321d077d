-- ===== src/Contract.antt =====
-- apps/coordination-hub/src/blockchain/ethers-contract.service.ts: the hub's client of the registry,
-- with its cache of view calls and its retry after an error of the RPC layer.
mod Reverts
mod Chain
pub mod Mapping
pub mod Cache
pub mod Growth
pub mod Redemption
pub mod Registration
pub mod Registered
pub mod Runs
pub mod Service
pub mod Redeeming
unfoldable pub use Reverts.*
unfoldable pub use Chain.*
use qr_blockchain_anticounte.Prelude.{
  ℕ, ◌+◌, ◌/◌, Str, codes, ◌++◌, str_eq, includes, Option, none, some, List, [], ◌∷◌, Bool, true,
  false, not, ltb, ◌==◌, if◌then◌else◌, get_or, filter_by, length,
}
use qr_blockchain_anticounte.Errors.{Err, js, domain, plain_error, Domain}
use qr_blockchain_anticounte.Registry.{
  Storage, Tx, tx_register_project, tx_register_batch, tx_redeem, verify_product, project_exists,
  ProductView,
}
use qr_blockchain_anticounte.World.{
  Outside, Env, World, M, Result, ok, err, pure, throw, catching, modify, gets, throw_unless, ◌>>=◌,
  ◌>>◌, CacheEntry, CacheValue, product, flag, total, VerifyProductResult,
}
use qr_blockchain_anticounte.Wallet.{EncryptedKey, with_wallet, is_set, or_throw}

pub record RedeemResult : Type 0 where
  pub tx_hash : Str
  pub block_number : ℕ
  pub timestamp : ℕ

abbrev pub view_cache_ttl_ms : ℕ
view_cache_ttl_ms = 5_000

-- `Map.get` and `Map.set`: a key that is there keeps its place
unfoldable pub cache_get : Str → List (Str × CacheEntry) → Option CacheEntry
cache_get k [] = none
cache_get k ((j, e) ∷ m) = if str_eq j k then some e else cache_get k m

unfoldable pub cache_set : Str → CacheEntry → List (Str × CacheEntry) → List (Str × CacheEntry)
cache_set k e [] = (k, e) ∷ []
cache_set k e ((j, d) ∷ m) = if str_eq j k then (j, e) ∷ m else (j, d) ∷ cache_set k e m

-- Without a phi the whole cache is cleared; with one, each key that contains it is deleted.
unfoldable pub invalidate_cache : Str → World → World
invalidate_cache phi w = record w {
  view_cache =
      if length phi == 0 then [] else filter_by (λ kv. not (includes kv.0 phi)) w.view_cache;
}

abbrev pub live_value : Option CacheEntry → (now : ℕ) → Option CacheValue
live_value none now = none
live_value (some e) now = if ltb now e.expires_at then some e.value else none

abbrev pub count_hit : World → World
count_hit w = record w { cache_hits = w.cache_hits + 1 }

abbrev pub count_miss : World → World
count_miss w = record w { cache_misses = w.cache_misses + 1 }

abbrev pub store_value : Str → CacheValue → (now : ℕ) → World → World
store_value key value now w = record w {
  view_cache =
      cache_set key (record { value = value; expires_at = now + view_cache_ttl_ms }) w.view_cache;
}

-- A hit returns what is cached, a miss runs the call and stores its value for five seconds from the
-- moment before the call.
abbrev pub hit_or_miss : Str → (now : ℕ) → M CacheValue → Option CacheValue → M CacheValue
hit_or_miss key now fn (some v) = do modify count_hit; pure v
hit_or_miss key now fn none = do
  modify count_miss
  value ← fn
  modify (store_value key value now)
  pure value

-- `cached.value as T`: at a value of another kind JavaScript reads missing fields, and a non-empty
-- object counts as true.
abbrev pub as_product : CacheValue → VerifyProductResult
as_product (product r) = r
as_product _ = record { exists = false; redeemed = false; producer = codes "undefined" }

abbrev pub as_flag : CacheValue → Bool
as_flag (flag b) = b
as_flag (product _) = true
as_flag (total n) = not (n == 0)

abbrev pub as_total : CacheValue → ℕ
as_total (total n) = n
as_total _ = 0

abbrev pub verify_key : (phi h : Str) → Str
verify_key phi h = codes "verify:" ++ (phi ++ (codes ":" ++ h))

abbrev pub project_key : (phi : Str) → Str
project_key phi = codes "projectExists:" ++ phi

module _ (x : Outside) (env : Env) where
  unfoldable pub cached_view : Str → M CacheValue → M CacheValue
  cached_view key fn w =
      let now = x.clock w.tick in
      hit_or_miss key now fn (live_value (cache_get key w.view_cache) now) w

  unfoldable pub require_contract : M (Unit {0})
  require_contract w =
      throw_unless w.contract
        (js (plain_error (codes "Contract not initialised — set CONTRACT_ADDRESS in env"))) w

  unfoldable pub reinit_contract : M (Unit {0})
  reinit_contract w =
      if is_set env.contract_address
      then (
        ok tt,
        record w {
          contract = true;
          contract_generation = w.contract_generation + 1;
          view_cache = [];
        },
      )
      else (ok tt, w)

  unfoldable pub on_module_init : M (Unit {0})
  on_module_init = reinit_contract

  -- `fn`, and once more after a new contract object if the first run failed in the RPC layer.
  unfoldable pub with_retry_on_rpc_error : {A : Type 0} → M A → M A
  with_retry_on_rpc_error fn =
      catching fn (λ e. if is_rpc_error e then reinit_contract >> fn else throw e)

  -- `catch (err) { throw tryMapRevertToDomainError(err) ?? err; }`
  abbrev pub mapped : Err → Option Domain → Err
  mapped e none = e
  mapped e (some d) = domain d

  unfoldable pub mapping_reverts : {A : Type 0} → M A → M A
  mapping_reverts m = catching m (λ e. throw (mapped e (try_map_revert_to_domain_error x e)))

  -- the answer of `verifyProduct`, with the address as text
  abbrev pub view_result : ProductView → VerifyProductResult
  view_result v = record {
    exists = v.exists;
    redeemed = v.redeemed;
    producer = x.address_text v.producer;
  }

  unfoldable pub fetch_product : (phi h : Str) → M CacheValue
  fetch_product phi h = with_retry_on_rpc_error (do
    require_contract
    mapping_reverts (do
      p ← encode_bytes32 x phi
      g ← encode_bytes32 x h
      eth_call x (λ s. product (view_result (verify_product p g s)))))

  unfoldable pub verify_product_call : (phi h : Str) → M VerifyProductResult
  verify_product_call phi h = do
    v ← cached_view (verify_key phi h) (fetch_product phi h)
    pure (as_product v)

  unfoldable pub fetch_exists : (phi : Str) → M CacheValue
  fetch_exists phi = with_retry_on_rpc_error (do
    require_contract
    mapping_reverts (do p ← encode_bytes32 x phi; eth_call x (λ s. flag (project_exists p s))))

  unfoldable pub project_exists_call : (phi : Str) → M Bool
  project_exists_call phi = do
    v ← cached_view (project_key phi) (fetch_exists phi)
    pure (as_flag v)

  unfoldable pub total_redeemed_call : M ℕ
  total_redeemed_call = do
    v ← cached_view (codes "totalRedeemed") (
        with_retry_on_rpc_error
          (do require_contract; mapping_reverts (eth_call x (λ s. total s.total_redeemed))))
    pure (as_total v)

  -- What `redeemProduct` does with the receipt.
  unfoldable pub finish_redemption : (phi : Str) → Option Receipt → M RedeemResult
  finish_redemption phi r = do
    receipt ← or_throw r (codes "transaction receipt missing")
    block ← get_block x receipt.block_number
    modify (invalidate_cache phi)
    now ← gets (λ w. x.clock w.tick)
    pure (record {
      tx_hash = receipt.hash;
      block_number = receipt.block_number;
      timestamp = get_or (now / 1000) block;
    })

  -- Its `try` block.
  unfoldable pub submit_redemption : (phi : Str) → (sid : List ℕ) → M RedeemResult
  submit_redemption phi sid = do
    p ← encode_bytes32 x phi
    send_transaction x (tx_redeem p sid)
    r ← wait_receipt x (tx_redeem p sid)
    finish_redemption phi r

  -- The body that is retried: the system wallet pays, so anybody's scan redeems.
  unfoldable pub redeem_attempt : (phi : Str) → (sid : List ℕ) → M RedeemResult
  redeem_attempt phi sid = do
    require_contract
    throw_unless (is_set env.system_wallet_private_key)
        (js (plain_error (codes "System wallet not initialised — set SYSTEM_WALLET_PRIVATE_KEY")))
    mapping_reverts (submit_redemption phi sid)

  unfoldable pub redeem_product_call : (phi : Str) → (sid : List ℕ) → M RedeemResult
  redeem_product_call phi sid = with_retry_on_rpc_error (redeem_attempt phi sid)

  -- The `try` block of `signAndSend`, for the transaction that the method and its arguments make.
  unfoldable pub finish_signed : (phi : Str) → Option Receipt → M Str
  finish_signed phi r = do
    receipt ← or_throw r (codes "transaction receipt missing")
    modify (λ w. if length phi == 0 then w else invalidate_cache phi w)
    pure receipt.hash

  unfoldable pub submit_signed : (phi : Str) → Tx → M Str
  submit_signed phi t = do send_transaction x t; r ← wait_receipt x t; finish_signed phi r

  unfoldable pub sign_and_send : EncryptedKey → (phi : Str) → (ℕ → M Tx) → M Str
  sign_and_send owner_key phi build = with_retry_on_rpc_error (
      with_wallet x owner_key
        (λ sender. do require_contract; mapping_reverts (build sender >>= submit_signed phi)))

  unfoldable pub register_project_call : (phi : Str) → EncryptedKey → M Str
  register_project_call phi owner_key =
      sign_and_send owner_key phi
        (λ sender. do p ← encode_bytes32 x phi; pure (tx_register_project sender p))

  -- the coder takes the hashes one by one
  unfoldable pub encode_all : List Str → M (List ℕ)
  encode_all [] = pure []
  encode_all (h ∷ hs) = do g ← encode_bytes32 x h; gs ← encode_all hs; pure (g ∷ gs)

  unfoldable pub register_batch_call : (phi : Str) → List Str → EncryptedKey → M Str
  register_batch_call phi hashes owner_key = sign_and_send owner_key phi (λ sender. do
    p ← encode_bytes32 x phi
    gs ← encode_all hashes
    pure (tx_register_batch sender p gs))
