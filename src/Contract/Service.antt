-- ===== src/Contract/Service.antt =====
-- The rest of apps/coordination-hub/src/blockchain: what the contract service says of its cache, the
-- decoding of an event, the system wallet, the provider, and the stub of contract.service.ts.
use qr_blockchain_anticounte.Prelude.{
  ℕ, ◌+◌, ◌==◌, Str, codes, ◌++◌, str_eq, starts_with, Option, none, some, List, [], ◌∷◌, Bool,
  if◌then◌else◌, length,
}
use qr_blockchain_anticounte.Errors.{js, plain_error}
use qr_blockchain_anticounte.World.{
  Outside, World, M, throw, pure, ErrorDescription, VerifyProductResult,
}
use qr_blockchain_anticounte.Contract.{RedeemResult, arg}

-- The hit rate is a fraction, kept as its two terms; without calls it is 0.
pub record CacheStats : Type 0 where
  pub hits : ℕ
  pub misses : ℕ
  pub size : ℕ
  pub hit_rate : ℕ × ℕ

unfoldable pub cache_stats : World → CacheStats
cache_stats w =
    let sum = w.cache_hits + w.cache_misses in
    record {
      hits = w.cache_hits;
      misses = w.cache_misses;
      size = length w.view_cache;
      hit_rate = if sum == 0 then (0, 1) else (w.cache_hits, sum);
    }

abbrev pub contract_generation_count : World → ℕ
contract_generation_count w = w.contract_generation

pub record DecodedEvent : Type 0 where
  pub phi : Str
  pub h : Str
  pub producer : Str
  pub timestamp : ℕ

-- `parsed` is what ethers' `interface.parseLog` gives of the log: nothing when it is of another
-- contract or when it throws, else the event's name and arguments.
unfoldable pub decode_product_redeemed :
    Outside → (parsed : Option ErrorDescription) → Option DecodedEvent
decode_product_redeemed x none = none
decode_product_redeemed x (some p) =
    if str_eq p.name (codes "ProductRedeemed")
    then some (record {
      phi = arg 0 p.args;
      h = arg 1 p.args;
      producer = arg 2 p.args;
      timestamp = x.to_number (arg 3 p.args);
    })
    else none

-- `onModuleInit` of the system wallet: the key with its prefix, for ethers' Wallet
unfoldable pub system_wallet_key : Option Str → Option Str
system_wallet_key none = none
system_wallet_key (some []) = none
system_wallet_key (some (c ∷ s)) =
    if starts_with (c ∷ s) (codes "0x") then some (c ∷ s) else some (codes "0x" ++ (c ∷ s))

abbrev pub get_signer : {A : Type 0} → Option A → M A
get_signer none =
    throw (js (plain_error (codes "System wallet not initialised — set SYSTEM_WALLET_PRIVATE_KEY")))
get_signer (some a) = pure a

-- The stub: every call throws.
abbrev pub not_implemented : {A : Type 0} → M A
not_implemented =
    throw (js (plain_error (codes "ContractService not yet implemented — wired in T-019")))

-- The abstract class, as the operations that the other services call.
pub record ContractService : Type 0 where
  pub register_project : (phi : Str) → M Str
  pub register_batch : (phi : Str) → List Str → M Str
  pub redeem_product : (phi : Str) → List ℕ → M RedeemResult
  pub verify_product : (phi h : Str) → M VerifyProductResult
  pub project_exists : (phi : Str) → M Bool
  pub total_redeemed : M ℕ

abbrev pub stub : ContractService
stub = record {
  register_project = λ _. not_implemented;
  register_batch = λ _ _. not_implemented;
  redeem_product = λ _ _. not_implemented;
  verify_product = λ _ _. not_implemented;
  project_exists = λ _. not_implemented;
  total_redeemed = not_implemented;
}
