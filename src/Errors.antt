-- ===== src/Errors.antt =====
-- The exceptions of the hub: the subclasses of DomainException
-- (apps/coordination-hub/src/common/exceptions/domain.exception.ts, blockchain/exceptions.ts,
-- projects/exceptions.ts, auth/exceptions.ts, activities and certifications, uploads), with their
-- codes and HTTP statuses, and the errors that libraries throw. Message texts are not modelled.
use qr_blockchain_anticounte.Prelude.{ℕ, Str, codes, Option, none, some}

pub data Domain : Type 0 where
  on_chain_project_already_exists : (phi : Str) → Domain
  on_chain_project_does_not_exist : (phi : Str) → Domain
  on_chain_unauthorized_producer : (phi caller : Str) → Domain
  on_chain_batch_too_large : (size : ℕ) → Domain
  on_chain_empty_batch : Domain
  on_chain_duplicate_product_hash : (phi h : Str) → Domain
  on_chain_product_does_not_exist : (phi h : Str) → Domain
  on_chain_product_already_redeemed : (phi h : Str) → Domain
  project_not_found : (phi : Str) → Domain
  project_access_forbidden : Domain
  phi_collision : Domain
  on_chain_registration_failed : (reason : Str) → Domain
  email_exists : (email : Str) → Domain
  invalid_credentials : Domain
  account_locked : (unlock_at : ℕ) → Domain
  invalid_refresh_token : Domain
  activity_not_found : (id : Str) → Domain
  certification_not_found : (id : Str) → Domain
  unsupported_media_type : (detected : Option Str) → Domain
  payload_too_large : (size : ℕ) → Domain

-- `code` of each class
unfoldable pub code_of : Domain → Str
code_of (on_chain_project_already_exists _) = codes "ON_CHAIN_PROJECT_ALREADY_EXISTS"
code_of (on_chain_project_does_not_exist _) = codes "ON_CHAIN_PROJECT_DOES_NOT_EXIST"
code_of (on_chain_unauthorized_producer _ _) = codes "ON_CHAIN_UNAUTHORIZED_PRODUCER"
code_of (on_chain_batch_too_large _) = codes "ON_CHAIN_BATCH_TOO_LARGE"
code_of on_chain_empty_batch = codes "ON_CHAIN_EMPTY_BATCH"
code_of (on_chain_duplicate_product_hash _ _) = codes "ON_CHAIN_DUPLICATE_PRODUCT_HASH"
code_of (on_chain_product_does_not_exist _ _) = codes "ON_CHAIN_PRODUCT_DOES_NOT_EXIST"
code_of (on_chain_product_already_redeemed _ _) = codes "ON_CHAIN_PRODUCT_ALREADY_REDEEMED"
code_of (project_not_found _) = codes "PROJECT_NOT_FOUND"
code_of project_access_forbidden = codes "PROJECT_ACCESS_FORBIDDEN"
code_of phi_collision = codes "PHI_COLLISION"
code_of (on_chain_registration_failed _) = codes "ON_CHAIN_REGISTRATION_FAILED"
code_of (email_exists _) = codes "EMAIL_EXISTS"
code_of invalid_credentials = codes "INVALID_CREDENTIALS"
code_of (account_locked _) = codes "ACCOUNT_LOCKED"
code_of invalid_refresh_token = codes "INVALID_REFRESH_TOKEN"
code_of (activity_not_found _) = codes "ACTIVITY_NOT_FOUND"
code_of (certification_not_found _) = codes "CERTIFICATION_NOT_FOUND"
code_of (unsupported_media_type _) = codes "UNSUPPORTED_MEDIA_TYPE"
code_of (payload_too_large _) = codes "PAYLOAD_TOO_LARGE"

-- the HTTP status that each class passes to its base class
unfoldable pub status_of : Domain → ℕ
status_of (on_chain_project_already_exists _) = 409
status_of (on_chain_project_does_not_exist _) = 404
status_of (on_chain_unauthorized_producer _ _) = 403
status_of (on_chain_batch_too_large _) = 400
status_of on_chain_empty_batch = 400
status_of (on_chain_duplicate_product_hash _ _) = 409
status_of (on_chain_product_does_not_exist _ _) = 404
status_of (on_chain_product_already_redeemed _ _) = 409
status_of (project_not_found _) = 404
status_of project_access_forbidden = 403
status_of phi_collision = 503
status_of (on_chain_registration_failed _) = 502
status_of (email_exists _) = 409
status_of invalid_credentials = 401
status_of (account_locked _) = 423
status_of invalid_refresh_token = 401
status_of (activity_not_found _) = 404
status_of (certification_not_found _) = 404
status_of (unsupported_media_type _) = 415
status_of (payload_too_large _) = 413

-- An error object of a library, by the fields that the hub reads: those of `RevertCarrier` and those
-- that `isRpcError` casts to.
pub record JsError : Type 0 where
  pub code : Option Str
  pub short_message : Option Str
  pub message : Option Str
  pub data_of : Option Str
  pub error_data : Option Str
  pub info_error_data : Option Str

-- `new Error(message)`
abbrev pub plain_error : Str → JsError
plain_error m = record {
  code = none;
  short_message = none;
  message = some m;
  data_of = none;
  error_data = none;
  info_error_data = none;
}

-- What a call of the hub can throw; `http` is one of Nest's own HttpExceptions.
pub data Err : Type 0 where
  domain : Domain → Err
  http : (status : ℕ) → Err
  js : JsError → Err
