-- ===== src/Portal/Client.antt =====
-- The client of the hub, apps/management-portal/src/lib/api-client.ts, sub-resource-api.ts, batch-api.ts
-- and verifications-api.ts, and apps/dapp-portal/src/lib/api-client.ts: requests, and what becomes of a
-- response. `stringify` is JSON.stringify, `encode` what URLSearchParams does with a value.
pub mod Errors
use qr_blockchain_anticounte.Prelude.{
  ℕ, Str, codes, ◌++◌, str_eq, to_lower_case, Option, none, some, List, [], ◌∷◌, Bool, true, false,
  not, ◌&&◌, leb, ◌==◌, if◌then◌else◌, get_or, length, take, or_else, is_some,
}
use qr_blockchain_anticounte.Dates.{decimal}

pub record ErrorFields : Type 0 where
  pub code : Option Str
  pub message : Option Str
  pub request_id : Option Str

-- A response: its status, what its JSON is if it has one, and the `error` object in it, if any.
pub record Response (A : Type 0) : Type 0 where
  pub status : ℕ
  pub json : Option A
  pub error : Option ErrorFields

pub record HubApiError : Type 0 where
  pub status : ℕ
  pub code : Str
  pub request_id : Option Str
  pub message : Str

-- `undefined`, the value, a value that is no JSON, or the error that is thrown
pub data Handled (A : Type 0) : Type 0 where
  nothing : Handled A
  value : A → Handled A
  no_json : Handled A
  thrown : HubApiError → Handled A

abbrev pub is_ok : (status : ℕ) → Bool
is_ok status = leb 200 status && leb status 299

abbrev pub no_fields : ErrorFields
no_fields = record { code = none; message = none; request_id = none }

unfoldable pub hub_api_error :
    (status : ℕ) → (code : Str) → (request_id message : Option Str) → HubApiError
hub_api_error status code request_id message = record {
  status = status;
  code = code;
  request_id = request_id;
  message = get_or (codes "Hub returned " ++ (decimal status ++ (codes " " ++ code))) message;
}

abbrev pub failure : {A : Type 0} → Response A → Handled A
failure res =
    let body = get_or no_fields res.error in
    thrown
      (hub_api_error res.status (get_or (codes "UNKNOWN") body.code) body.request_id body.message)

abbrev pub parsed : {A : Type 0} → Option A → Handled A
parsed none = no_json
parsed (some a) = value a

-- `handle` of the management portal; that of the consumer portal has no case for 204.
unfoldable pub handle : {A : Type 0} → Response A → Handled A
handle res =
    if res.status == 204 then nothing else if is_ok res.status then parsed res.json else failure res

unfoldable pub handle_scan : {A : Type 0} → Response A → Handled A
handle_scan res = if is_ok res.status then parsed res.json else failure res

pub data Method : Type 0 where
  get post patch delete : Method

pub data Body : Type 0 where
  no_body : Body
  text_body : Str → Body
  form_data : Body

pub record Request : Type 0 where
  pub method : Method
  pub path : Str
  pub headers : List (Str × Str)
  pub body : Body

-- `Headers`: names are compared without their case
unfoldable pub has_header : Str → List (Str × Str) → Bool
has_header name [] = false
has_header name ((k, v) ∷ hs) =
    if str_eq (to_lower_case k) (to_lower_case name) then true else has_header name hs

unfoldable pub set_header : Str → Str → List (Str × Str) → List (Str × Str)
set_header name text [] = (name, text) ∷ []
set_header name text ((k, v) ∷ hs) =
    if str_eq (to_lower_case k) (to_lower_case name)
    then (k, text) ∷ hs
    else (k, v) ∷ set_header name text hs

unfoldable pub get_header : Str → List (Str × Str) → Option Str
get_header name [] = none
get_header name ((k, v) ∷ hs) =
    if str_eq (to_lower_case k) (to_lower_case name) then some v else get_header name hs

abbrev pub with_token : Option Str → List (Str × Str) → List (Str × Str)
with_token none hs = hs
with_token (some []) hs = hs
with_token (some (c ∷ t)) hs = set_header (codes "Authorization") (codes "Bearer " ++ (c ∷ t)) hs

-- an empty text is no body for `init.body &&`
abbrev pub with_type : Body → List (Str × Str) → List (Str × Str)
with_type no_body hs = hs
with_type form_data hs = hs
with_type (text_body []) hs = hs
with_type (text_body (c ∷ s)) hs =
    if has_header (codes "Content-Type") hs
    then hs
    else set_header (codes "Content-Type") (codes "application/json") hs

unfoldable pub hub_fetch : Request → (access_token : Option Str) → Request
hub_fetch r access_token = record r {
  headers =
      with_type r.body (
        with_token access_token (set_header (codes "Accept") (codes "application/json") r.headers));
}

abbrev pub plain : Method → Str → Body → Request
plain m path body = record { method = m; path = path; headers = []; body = body }

pub record ListProjectsParams : Type 0 where
  pub q : Option Str
  pub status : Option Str
  pub page : Option ℕ
  pub page_size : Option ℕ

-- `if (params.q) qs.set(…)`: an empty text and 0 are left out
abbrev pub text_param : Str → Option Str → List (Str × Str)
text_param name none = []
text_param name (some []) = []
text_param name (some (c ∷ s)) = (name, c ∷ s) ∷ []

abbrev pub number_param : Str → Option ℕ → List (Str × Str)
number_param name none = []
number_param name (some n) = if n == 0 then [] else (name, decimal n) ∷ []

unfoldable pub query_pairs : ListProjectsParams → List (Str × Str)
query_pairs p =
    text_param (codes "q") p.q
    ++ (text_param (codes "status") p.status
        ++ (number_param (codes "page") p.page ++ number_param (codes "pageSize") p.page_size))

module _ (encode : Str → Str) where
  unfoldable pub query_text : List (Str × Str) → Str
  query_text [] = []
  query_text ((k, v) ∷ []) = encode k ++ (codes "=" ++ encode v)
  query_text ((k, v) ∷ kv ∷ kvs) =
      encode k ++ (codes "=" ++ (encode v ++ (codes "&" ++ query_text (kv ∷ kvs))))

  unfoldable pub list_projects : (token : Str) → ListProjectsParams → Request
  list_projects token params =
      let qs = query_text (query_pairs params) in
      hub_fetch
        (plain get (codes "/projects" ++ (if length qs == 0 then [] else codes "?" ++ qs)) no_body)
        (some token)

abbrev pub project_path : (phi : Str) → Str
project_path phi = codes "/projects/" ++ phi

module _ {Payload : Type 0} (stringify : Payload → Str) where
  abbrev pub json_body : Payload → Body
  json_body p = text_body (stringify p)

  abbrev pub create_project : (token : Str) → Payload → Request
  create_project token p = hub_fetch (plain post (codes "/projects") (json_body p)) (some token)

  abbrev pub update_project : (token phi : Str) → Payload → Request
  update_project token phi p = hub_fetch (plain patch (project_path phi) (json_body p)) (some token)

  abbrev pub create_sub : (token phi kind : Str) → Payload → Request
  create_sub token phi kind p =
      hub_fetch (plain post (project_path phi ++ (codes "/" ++ kind)) (json_body p)) (some token)

abbrev pub get_project : (token phi : Str) → Request
get_project token phi = hub_fetch (plain get (project_path phi) no_body) (some token)

abbrev pub delete_project : (token phi : Str) → Request
delete_project token phi = hub_fetch (plain delete (project_path phi) no_body) (some token)

-- activities and certifications are the two kinds
abbrev pub list_subs : (token phi kind : Str) → Request
list_subs token phi kind =
    hub_fetch (plain get (project_path phi ++ (codes "/" ++ kind)) no_body) (some token)

abbrev pub delete_sub : (token phi kind id : Str) → Request
delete_sub token phi kind id =
    hub_fetch
      (plain delete (project_path phi ++ (codes "/" ++ (kind ++ (codes "/" ++ id)))) no_body)
      (some token)

abbrev pub get_verification_stats : (token phi : Str) → Request
get_verification_stats token phi =
    hub_fetch (plain get (project_path phi ++ codes "/verifications/stats") no_body) (some token)
