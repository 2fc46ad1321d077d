-- ===== src/Tests/Pages.antt =====
-- The portals' libraries on concrete inputs.
use qr_blockchain_anticounte.Documents.{pos, negsuc}
use qr_blockchain_anticounte.Prelude.{
  ℕ, Str, codes, ◌≡◌, refl, some, none, Option, [], ◌∷◌, true, false,
}
use qr_blockchain_anticounte.Fixtures.{scan_input}
use qr_blockchain_anticounte.Errors.{project_access_forbidden, status_of, code_of}
use qr_blockchain_anticounte.ErrorFilter.{respond, domain_thrown}
use qr_blockchain_anticounte.Projects.{CreateProjectDto}
use qr_blockchain_anticounte.Requests.{create_project_is_accepted}
use qr_blockchain_anticounte.Scan.{counterfeit_outcome}
use qr_blockchain_anticounte.Portal.Client.{HubApiError, handle, handle_scan, thrown}
use qr_blockchain_anticounte.Portal.Client.Errors.{sent, handle-respond}
use qr_blockchain_anticounte.Portal.Session.{Jwt, HubTokens, at_ms}
use qr_blockchain_anticounte.Portal.Session.Fresh.{Ask}
use qr_blockchain_anticounte.Portal.Form.{
  ProjectForm, form_is_accepted, to_create_payload, to_create_payload-accepted,
}
use qr_blockchain_anticounte.Portal.Scanner.{Hook, mounted, effect, settle, succeeded, valid_inputs}
use qr_blockchain_anticounte.Portal.Scanner.Once.{scan_private_is_accepted-valid_inputs}
use qr_blockchain_anticounte.Hex.{is_secret_id}
use qr_blockchain_anticounte.Tests.Scans.{running}

handle-respond_example :
    let e =
      respond (domain_thrown project_access_forbidden (codes "No") none) (some (codes "r1")) in
    let seen : HubApiError = record {
      status = status_of project_access_forbidden;
      code = code_of project_access_forbidden;
      request_id = some (codes "r1");
      message = codes "No";
    } in
    (handle {A = ℕ} (sent e) ≡ thrown seen) × (handle_scan {A = ℕ} (sent e) ≡ thrown seen)
handle-respond_example =
    handle-respond project_access_forbidden (codes "No") none (some (codes "r1"))

-- what the hub's answer to a renewal holds
abbrev access_alone : HubTokens
access_alone = record {
  access_token = some (codes "a2");
  refresh_token = none;
  access_token_expires_in_sec = none;
  email = none;
  producer_id = none;
}

abbrev renewing : Ask
renewing = record { now = 2000; later = 2005; hub = λ _. some access_alone }

abbrev following : Ask
following = record { now = 3000; later = 3005; hub = λ _. none }

abbrev old_token : Jwt
old_token = record {
  access_token = some (codes "a1");
  refresh_token = some (codes "r1");
  access_expires_at_ms = some (at_ms 1000);
  email = some (codes "farmer@example.org");
  producer_id = none;
  error = false;
}

abbrev autumn : ProjectForm
autumn = record {
  cooperative_name = codes "North";
  vegetable_type = codes "Cabbage";
  address = codes "Road 1";
  province = codes "North";
  lat = some (pos 10_762_622);
  lng = some (negsuc 106_660_171);
  start_date = codes "1";
  harvest_date = codes "12";
  cultivation_area = pos 3;
  expected_output = pos 4;
  description = none;
  status = none;
}

abbrev as_length : Str → Option ℕ
as_length [] = none
as_length (c ∷ []) = some 1
as_length (c ∷ d ∷ s) = some 2

autumn_accepted : form_is_accepted as_length autumn ≡ true
unfolding form_is_accepted
autumn_accepted = refl

to_create_payload-accepted_example :
    (p : CreateProjectDto) × (to_create_payload as_length autumn ≡ some p)
    × (create_project_is_accepted p ≡ true)
to_create_payload-accepted_example =
    to_create_payload-accepted as_length autumn autumn_accepted refl refl

-- a render, a second one, and the answer
abbrev answered_hook : Hook
answered_hook =
    settle (succeeded (counterfeit_outcome (codes "No"))) (effect true (effect true mounted))

scan_private_is_accepted-valid_inputs_example : valid_inputs scan_input ≡ true
unfolding running is_secret_id
scan_private_is_accepted-valid_inputs_example =
    scan_private_is_accepted-valid_inputs scan_input refl
