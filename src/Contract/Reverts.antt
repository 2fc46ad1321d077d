-- ===== src/Contract/Reverts.antt =====
-- `tryMapRevertToDomainError` (apps/coordination-hub/src/blockchain/exceptions.ts) and `isRpcError`
-- (blockchain/ethers-contract.service.ts).
use qr_blockchain_anticounte.Prelude.{
  ℕ, zero, suc, Str, codes, Option, none, some, List, [], ◌∷◌, Bool, false, ◌||◌, str_eq, includes,
  to_lower_case, get_or, or_else, if◌then◌else◌,
}
use qr_blockchain_anticounte.Errors.{
  Domain, JsError, Err, domain, http, js, on_chain_project_already_exists,
  on_chain_project_does_not_exist, on_chain_unauthorized_producer, on_chain_batch_too_large,
  on_chain_empty_batch, on_chain_duplicate_product_hash, on_chain_product_does_not_exist,
  on_chain_product_already_redeemed,
}
use qr_blockchain_anticounte.World.{Outside, ErrorDescription}

-- `String(parsed.args[i])`
abbrev pub arg : ℕ → List Str → Str
arg n [] = codes "undefined"
arg zero (a ∷ _) = a
arg (suc n) (_ ∷ as_) = arg n as_

-- `carrier.data ?? carrier.error?.data ?? carrier.info?.error?.data`
abbrev pub revert_data : JsError → Option Str
revert_data e = or_else e.data_of (or_else e.error_data e.info_error_data)

-- The `switch` on the name of the decoded error.
unfoldable pub exception_of : Outside → ErrorDescription → Option Domain
exception_of x d =
    if str_eq d.name (codes "ProjectAlreadyExists")
    then some (on_chain_project_already_exists (arg 0 d.args))
    else if str_eq d.name (codes "ProjectDoesNotExist")
    then some (on_chain_project_does_not_exist (arg 0 d.args))
    else if str_eq d.name (codes "UnauthorizedProducer")
    then some (on_chain_unauthorized_producer (arg 0 d.args) (arg 1 d.args))
    else if str_eq d.name (codes "BatchTooLarge")
    then some (on_chain_batch_too_large (x.to_number (arg 0 d.args)))
    else if str_eq d.name (codes "EmptyBatch")
    then some on_chain_empty_batch
    else if str_eq d.name (codes "DuplicateProductHash")
    then some (on_chain_duplicate_product_hash (arg 0 d.args) (arg 1 d.args))
    else if str_eq d.name (codes "ProductDoesNotExist")
    then some (on_chain_product_does_not_exist (arg 0 d.args) (arg 1 d.args))
    else if str_eq d.name (codes "ProductAlreadyRedeemed")
    then some (on_chain_product_already_redeemed (arg 0 d.args) (arg 1 d.args))
    else none

abbrev pub then_exception : Outside → Option ErrorDescription → Option Domain
then_exception x none = none
then_exception x (some d) = exception_of x d

abbrev pub then_parse : Outside → Option Str → Option Domain
then_parse x none = none
then_parse x (some data_text) = then_exception x (x.parse_error data_text)

-- An exception of the hub or of Nest has none of the three fields.
unfoldable pub try_map_revert_to_domain_error : Outside → Err → Option Domain
try_map_revert_to_domain_error x (domain _) = none
try_map_revert_to_domain_error x (http _) = none
try_map_revert_to_domain_error x (js e) = then_parse x (revert_data e)

-- `e.code === '…'`
abbrev pub code_is : Option Str → Str → Bool
code_is none s = false
code_is (some c) s = str_eq c s

unfoldable pub is_rpc_code : Option Str → Bool
is_rpc_code c =
    code_is c (codes "NETWORK_ERROR")
    || code_is c (codes "ECONNREFUSED")
    || code_is c (codes "TIMEOUT")
    || code_is c (codes "SERVER_ERROR")
    || code_is c (codes "BAD_DATA")

unfoldable pub is_rpc_message : Str → Bool
is_rpc_message msg =
    includes msg (codes "could not detect network")
    || includes msg (codes "connection refused")
    || includes msg (codes "fetch failed")
    || includes msg (codes "socket hang up")
    || includes msg (codes "network")

-- The codes of the hub's own exceptions are none of the five, and their texts name no network.
unfoldable pub is_rpc_error : Err → Bool
is_rpc_error (domain _) = false
is_rpc_error (http _) = false
is_rpc_error (js e) =
    is_rpc_code e.code
    || is_rpc_message (to_lower_case (get_or [] (or_else e.short_message e.message)))
