-- ===== src/ErrorFilter/Codes.antt =====
-- What the code INTERNAL_ERROR of a response means, and what such a response discloses
-- (apps/coordination-hub/src/common/filters/http-exception.filter.ts).
use qr_blockchain_anticounte.Prelude.{
  Str, codes, ◌++◌, str_eq, str_eq_iff, ◌≡◌, refl, Option, none, false, arith, get_or,
}
use qr_blockchain_anticounte.Errors.{
  Domain, code_of, on_chain_project_already_exists, on_chain_project_does_not_exist,
  on_chain_unauthorized_producer, on_chain_batch_too_large, on_chain_empty_batch,
  on_chain_duplicate_product_hash, on_chain_product_does_not_exist,
  on_chain_product_already_redeemed, project_not_found, project_access_forbidden, phi_collision,
  on_chain_registration_failed, email_exists, invalid_credentials, account_locked,
  invalid_refresh_token, activity_not_found, certification_not_found, unsupported_media_type,
  payload_too_large,
}
use qr_blockchain_anticounte.Dates.{decimal}
use qr_blockchain_anticounte.ErrorFilter.{
  Thrown, domain_thrown, http_thrown, error_thrown, other_thrown, Envelope, respond, internal_error,
  internal_message, http_code,
}

-- It is neither an exception of the hub nor one of Nest.
pub data IsUnexpected : Thrown → Type 0 where
  an_error : (message : Str) → IsUnexpected (error_thrown message)
  another : IsUnexpected other_thrown

code_of_lem : (d : Domain) → str_eq (code_of d) internal_error ≡ false
unfolding code_of str_eq
code_of_lem (on_chain_project_already_exists _) = refl
code_of_lem (on_chain_project_does_not_exist _) = refl
code_of_lem (on_chain_unauthorized_producer _ _) = refl
code_of_lem (on_chain_batch_too_large _) = refl
code_of_lem on_chain_empty_batch = refl
code_of_lem (on_chain_duplicate_product_hash _ _) = refl
code_of_lem (on_chain_product_does_not_exist _ _) = refl
code_of_lem (on_chain_product_already_redeemed _ _) = refl
code_of_lem (project_not_found _) = refl
code_of_lem project_access_forbidden = refl
code_of_lem phi_collision = refl
code_of_lem (on_chain_registration_failed _) = refl
code_of_lem (email_exists _) = refl
code_of_lem invalid_credentials = refl
code_of_lem (account_locked _) = refl
code_of_lem invalid_refresh_token = refl
code_of_lem (activity_not_found _) = refl
code_of_lem (certification_not_found _) = refl
code_of_lem (unsupported_media_type _) = refl
code_of_lem (payload_too_large _) = refl

http_prefix_lem : (s : Str) → str_eq (codes "HTTP_" ++ s) internal_error ≡ false
unfolding str_eq
http_prefix_lem s = refl

-- what a response to an unexpected error is
abbrev pub unexpected_response : (request_id : Option Str) → Envelope
unexpected_response request_id = record {
  status = 500;
  code = internal_error;
  message = internal_message;
  details = none;
  request_id = get_or (codes "unknown") request_id;
}

-- A response with the code INTERNAL_ERROR is the answer to an error that is neither one of the hub's
-- exceptions nor one of Nest's; and then it is always the same response, with the status 500 and
-- without the error's message, so nothing of the error is disclosed.
pub respond-internal_error :
    (t : Thrown) (request_id : Option Str)
    → (respond t request_id).code ≡ internal_error
    → IsUnexpected t × (respond t request_id ≡ unexpected_response request_id)
unfolding respond
respond-internal_error (domain_thrown d m x) request_id h =
    absurd (ground (arith, code_of_lem d, str_eq_iff (code_of d) internal_error, h))
respond-internal_error (http_thrown status body) request_id h = absurd (
    ground (
      arith,
      http_prefix_lem (decimal status),
      str_eq_iff (codes "HTTP_" ++ decimal status) internal_error,
      str_eq_iff (http_code body) internal_error,
      h,
    ))
respond-internal_error (error_thrown m) request_id h = (an_error m, refl)
respond-internal_error other_thrown request_id h = (another, refl)
