-- ===== src/Portal/Client/Errors.antt =====
-- From the hub's exception to the portal's error, through the response between them
-- (common/filters/http-exception.filter.ts of the hub, lib/api-client.ts of the portals).
use qr_blockchain_anticounte.Prelude.{
  Str, codes, ◌≡◌, refl, Option, none, some, true, leb, get_or, arith,
}
use qr_blockchain_anticounte.Errors.{
  Domain, code_of, status_of, on_chain_project_already_exists, on_chain_project_does_not_exist,
  on_chain_unauthorized_producer, on_chain_batch_too_large, on_chain_empty_batch,
  on_chain_duplicate_product_hash, on_chain_product_does_not_exist,
  on_chain_product_already_redeemed, project_not_found, project_access_forbidden, phi_collision,
  on_chain_registration_failed, email_exists, invalid_credentials, account_locked,
  invalid_refresh_token, activity_not_found, certification_not_found, unsupported_media_type,
  payload_too_large,
}
use qr_blockchain_anticounte.ErrorFilter.{domain_thrown, Envelope, respond}
use qr_blockchain_anticounte.Portal.Client.{
  Response, thrown, handle, handle_scan, hub_api_error, HubApiError,
}

-- The JSON of an error response, as the client reads it.
abbrev pub sent : {A : Type 0} → Envelope → Response A
sent e = record {
  status = e.status;
  json = none;
  error =
      some
        (record { code = some e.code; message = some e.message; request_id = some e.request_id });
}

abbrev pub read_back : Envelope → HubApiError
read_back e = record {
  status = e.status;
  code = e.code;
  request_id = some e.request_id;
  message = e.message;
}

-- The statuses of the hub's exceptions are those of errors.
pub status_of_lem : (d : Domain) → (leb 400 (status_of d) ≡ true) × (leb (status_of d) 599 ≡ true)
unfolding status_of
status_of_lem (on_chain_project_already_exists _) = (refl, refl)
status_of_lem (on_chain_project_does_not_exist _) = (refl, refl)
status_of_lem (on_chain_unauthorized_producer _ _) = (refl, refl)
status_of_lem (on_chain_batch_too_large _) = (refl, refl)
status_of_lem on_chain_empty_batch = (refl, refl)
status_of_lem (on_chain_duplicate_product_hash _ _) = (refl, refl)
status_of_lem (on_chain_product_does_not_exist _ _) = (refl, refl)
status_of_lem (on_chain_product_already_redeemed _ _) = (refl, refl)
status_of_lem (project_not_found _) = (refl, refl)
status_of_lem project_access_forbidden = (refl, refl)
status_of_lem phi_collision = (refl, refl)
status_of_lem (on_chain_registration_failed _) = (refl, refl)
status_of_lem (email_exists _) = (refl, refl)
status_of_lem invalid_credentials = (refl, refl)
status_of_lem (account_locked _) = (refl, refl)
status_of_lem invalid_refresh_token = (refl, refl)
status_of_lem (activity_not_found _) = (refl, refl)
status_of_lem (certification_not_found _) = (refl, refl)
status_of_lem (unsupported_media_type _) = (refl, refl)
status_of_lem (payload_too_large _) = (refl, refl)

module _ {A : Type 0} where
  handled :
      (e : Envelope)
      → leb 400 e.status ≡ true
      → (handle {A = A} (sent e) ≡ thrown (read_back e))
        × (handle_scan {A = A} (sent e) ≡ thrown (read_back e))
  unfolding handle handle_scan hub_api_error
  handled e h = (ground (arith, h), ground (arith, h))

  -- An exception of the hub reaches the code of either portal as an error with the exception's own
  -- status and code, its message, and the identifier of the request.
  pub handle-respond :
      (d : Domain) (message : Str) (details request_id : Option Str)
      → let e = respond (domain_thrown d message details) request_id in
        let seen : HubApiError = record {
          status = status_of d;
          code = code_of d;
          request_id = some (get_or (codes "unknown") request_id);
          message = message;
        } in
        (handle {A = A} (sent e) ≡ thrown seen) × (handle_scan {A = A} (sent e) ≡ thrown seen)
  unfolding respond
  handle-respond d message details request_id =
      handled (respond (domain_thrown d message details) request_id) (status_of_lem d).0
