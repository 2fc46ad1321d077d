-- ===== src/Tests/Hub.antt =====
-- The view cache, the mapping of errors, projects, secrets and error responses on concrete inputs.
use qr_blockchain_anticounte.Prelude.{
  count, List, ◌≡◌, ◌⊎◌, refl, ℕ, Str, codes, some, none, [], ◌∷◌, arith, true,
}
use qr_blockchain_anticounte.Fixtures.{
  calm, settings, start, planted, field, farmer, phi_text, copies, revert_text, parsed_text,
}
use qr_blockchain_anticounte.Errors.{Err, js, domain, project_not_found}
use qr_blockchain_anticounte.Documents.{planting}
use qr_blockchain_anticounte.Registry.{
  Revert, project_exists, project_already_exists, project_does_not_exist, unauthorized_producer,
  batch_too_large, empty_batch, duplicate_product_hash, product_does_not_exist,
  product_already_redeemed,
}
use qr_blockchain_anticounte.World.{err, World, Result, ok, ticked, flag, CacheValue}
use qr_blockchain_anticounte.Contract.{
  cache_get, invalidate_cache, verify_key, project_key, cached_view, fetch_exists, count_hit,
  live_value, try_map_revert_to_domain_error,
}
use qr_blockchain_anticounte.Contract.Cache.{cache_get-invalidate_cache, cached_view-again}
use qr_blockchain_anticounte.Contract.Mapping.{
  IsEthers, IsExact, try_map-revert_error, exception_for, described,
}
use qr_blockchain_anticounte.Hex.{bytes_to_hex, hex_to_bytes, is_secret_id}
use qr_blockchain_anticounte.Projects.{
  find_live, find_owned_by_producer, find_public, is_live, replace_doc, soft_delete,
  project_is_valid, UpdateProjectDto,
}
use qr_blockchain_anticounte.Projects.Store.{Stored}
use qr_blockchain_anticounte.Projects.Deletion.{marked_deleted, soft_delete-missing}
use qr_blockchain_anticounte.Projects.Ownership.{
  Owned, Refused, performed, updated, performed-Owned,
}
use qr_blockchain_anticounte.Activities.{
  CreateActivityDto, new_activity, with_activity, add_activity, list_activities,
}
use qr_blockchain_anticounte.Activities.RoundTrip.{list_activities-add_activity}
use qr_blockchain_anticounte.Hashing.{generate_sid, hash_sid_text, sid_string_to_bytes}
use qr_blockchain_anticounte.Hashing.Secrets.{IsNoble, hash_sid_text-generate_sid}
use qr_blockchain_anticounte.Scan.{hash_sid}
use qr_blockchain_anticounte.Hex.RoundTrip.{IsBytes, pairs_to_bytes-hex_of_bytes}
use qr_blockchain_anticounte.Batches.{hash_sids, entries_from}
use qr_blockchain_anticounte.Batches.Entries.{Paired, entries_from-hash_sids}
use qr_blockchain_anticounte.ErrorFilter.{respond, error_thrown, internal_error}
use qr_blockchain_anticounte.ErrorFilter.Codes.{
  IsUnexpected, respond-internal_error, unexpected_response,
}
use qr_blockchain_anticounte.Tests.Scans.{running}

cache_get-invalidate_cache_example :
    (cache_get
        (verify_key (codes "0xab") (codes "0x1"))
        (invalidate_cache (codes "0xab") start).view_cache
      ≡ none)
    × (cache_get (project_key (codes "0xab")) (invalidate_cache (codes "0xab") start).view_cache
        ≡ none)
cache_get-invalidate_cache_example = cache_get-invalidate_cache (codes "0xab") (codes "0x1") start

abbrev viewed : Result CacheValue × World
viewed =
    cached_view calm settings (project_key phi_text) (fetch_exists calm settings phi_text) start

view_run : viewed ≡ (ok (flag true), viewed.1)
unfolding running fetch_exists project_exists
view_run = refl

view_time : viewed.1.tick ≡ 1
unfolding running fetch_exists project_exists
view_time = refl

view_missed :
    live_value (cache_get (project_key phi_text) start.view_cache) (calm.clock start.tick) ≡ none
unfolding running
view_missed = refl

cached_view-again_example :
    cached_view calm settings (project_key phi_text) (fetch_exists calm settings phi_text) viewed.1
    ≡ (ok (flag true), count_hit viewed.1)
cached_view-again_example =
    cached_view-again calm settings (project_key phi_text) (fetch_exists calm settings phi_text)
      (fetch_exists calm settings phi_text) (flag true) start viewed.1 view_missed view_run
      (omega (arith, view_time))

text_parsed : (r : Revert) → parsed_text (revert_text r) ≡ some (described calm r)
text_parsed (project_already_exists phi) = refl
text_parsed (project_does_not_exist phi) = refl
text_parsed (unauthorized_producer phi caller) = refl
text_parsed (batch_too_large size) = refl
text_parsed empty_batch = refl
text_parsed (duplicate_product_hash phi h) = refl
text_parsed (product_does_not_exist phi h) = refl
text_parsed (product_already_redeemed phi h) = refl

calm-IsEthers : IsEthers calm
calm-IsEthers = record {
  data_of = revert_text;
  carried = λ _. refl;
  parsed = text_parsed;
  numbers = λ _ _. refl;
}

try_map-revert_error_example :
    try_map_revert_to_domain_error calm (js (calm.revert_error (batch_too_large 501)))
    ≡ some (exception_for calm (batch_too_large 501))
unfolding IsExact
try_map-revert_error_example =
    try_map-revert_error calm calm-IsEthers (batch_too_large 501) (ground arith)

pub field-Stored : Stored phi_text planted.projects field
unfolding running find_live
field-Stored = record { live = refl; stored = refl }

no_change : UpdateProjectDto
no_change = record {
  cooperative_name = none;
  vegetable_type = none;
  cultivation_location = none;
  start_date = none;
  harvest_date = none;
  cultivation_area = none;
  expected_output = none;
  description = none;
  status = none;
}

performed-Owned_example :
    Owned calm settings (codes "other") phi_text planted
    ⊎ ((e : Err) × Refused calm settings (codes "other") phi_text planted e
        × (performed calm settings (codes "other") phi_text (updated no_change) planted
            ≡ (some e, ticked planted)))
performed-Owned_example =
    performed-Owned calm settings (codes "other") phi_text (updated no_change) planted

abbrev sowing : CreateActivityDto
sowing = record {
  type = planting;
  activity_date = 5;
  name = codes "Sowing";
  description = [];
  materials = none;
  note = none;
}

abbrev sown_id : Str
sown_id = calm.new_id 1

sown_valid : project_is_valid (with_activity (new_activity sown_id sowing) field) ≡ true
unfolding running project_is_valid
sown_valid = refl

list_activities-add_activity_example :
    let r = add_activity calm settings farmer.id phi_text sowing planted in
    (r.0 ≡ ok sown_id)
    × ((list_activities calm settings farmer.id phi_text r.1).0
        ≡ ok (new_activity sown_id sowing ∷ []))
list_activities-add_activity_example =
    list_activities-add_activity calm settings (λ _. refl) phi_text sowing field planted
      field-Stored sown_valid

planted_valid : project_is_valid field ≡ true
unfolding running project_is_valid
planted_valid = refl

planted_once : count (is_live phi_text) planted.projects ≡ 1
unfolding running
planted_once = refl

soft_delete-missing_example :
    let r = soft_delete calm settings farmer.id phi_text planted in
    (r.0 ≡ ok tt)
    × (r.1.projects
        ≡ replace_doc (marked_deleted calm settings (λ _. refl) field planted) planted.projects)
    × ((find_owned_by_producer calm settings farmer.id phi_text r.1).0
        ≡ err (domain (project_not_found phi_text)))
    × ((find_public calm settings phi_text r.1).0 ≡ err (domain (project_not_found phi_text)))
soft_delete-missing_example =
    soft_delete-missing calm settings (λ _. refl) phi_text farmer.id field planted field-Stored
      planted_once planted_valid

sevens : (n : ℕ) → IsBytes (copies n 7)
sevens ℕ.zero = tt
sevens (ℕ.suc n) = (omega arith, sevens n)

calm-IsNoble : IsNoble calm
calm-IsNoble = record { written = λ bs h. refl; read_back = pairs_to_bytes-hex_of_bytes }

hash_sid_text-generate_sid_example :
    (sid : Str) × (generate_sid calm 32 start ≡ (ok sid, ticked start))
    × (is_secret_id sid ≡ true)
    × (hash_sid_text calm sid (ticked start)
        ≡ (ok (hash_sid calm settings (hex_to_bytes sid)), ticked start))
hash_sid_text-generate_sid_example =
    hash_sid_text-generate_sid calm settings calm-IsNoble 32 start (sevens 32) refl (omega arith)

failed_code : (respond (error_thrown (codes "secret")) none).code ≡ internal_error
unfolding respond
failed_code = refl

respond-internal_error_example :
    IsUnexpected (error_thrown (codes "secret"))
    × (respond (error_thrown (codes "secret")) none ≡ unexpected_response none)
respond-internal_error_example =
    respond-internal_error (error_thrown (codes "secret")) none failed_code

abbrev secrets : List Str
secrets = bytes_to_hex (1 ∷ 2 ∷ []) ∷ bytes_to_hex (9 ∷ []) ∷ []

abbrev secret_hashes : List Str
secret_hashes = hash_sid calm settings (1 ∷ 2 ∷ []) ∷ hash_sid calm settings (9 ∷ []) ∷ []

hashes_run :
    hash_sids calm settings (λ t. t) (λ _. []) (λ _. []) secrets start ≡ (ok secret_hashes, start)
unfolding running hash_sids hash_sid_text sid_string_to_bytes
hashes_run = refl

entries_from-hash_sids_example :
    Paired calm settings
      (λ t. t)
      (λ _. [])
      (λ _. [])
      start
      secrets
      (entries_from 0 secrets secret_hashes)
entries_from-hash_sids_example =
    entries_from-hash_sids calm settings (λ t. t) (λ _. []) (λ _. []) 0 secrets secret_hashes start
      start hashes_run
