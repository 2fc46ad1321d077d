-- ===== src/Handlers.antt =====
-- The controllers of the hub, apps/coordination-hub/src/**/*.controller.ts: each validates the request
-- through the pipe and calls a service. `producer_id` is that of the token that the guard of Passport has
-- let through; the throttles are the framework's.
use qr_blockchain_anticounte.Prelude.{
  ℕ, Str, codes, ◌++◌, Option, none, some, List, [], ◌∷◌, Bool, map, if◌then◌else◌, get_or, or_else,
  take, length,
}
use qr_blockchain_anticounte.Dates.{decimal}
use qr_blockchain_anticounte.Documents.{CultivationActivity, Certification}
use qr_blockchain_anticounte.World.{Outside, Env, M, pure, ◌>>=◌, ◌>>◌}
use qr_blockchain_anticounte.Hex.{is_phi}
use qr_blockchain_anticounte.Config.{split_commas, trim}
use qr_blockchain_anticounte.Requests.{
  transform, Credentials, read_register, read_login, refresh_is_accepted, scan_private_is_accepted,
  create_project_is_accepted, update_project_is_accepted, list_query_is_accepted, batch_is_accepted,
  create_activity_is_accepted, update_activity_is_accepted, create_certification_is_accepted,
  update_certification_is_accepted,
}
use qr_blockchain_anticounte.Auth.{AuthEnvelope, register, login, refresh}
use qr_blockchain_anticounte.Projects.{
  CreateProjectDto, UpdateProjectDto, ListProjectsQuery, create, list_projects, find_public, update,
  soft_delete,
}
use qr_blockchain_anticounte.Projects.Metadata.{ProjectMetadata, to_project_metadata}
use qr_blockchain_anticounte.Scan.{
  ScanContext, ScanPrivateDto, VerificationOutcome, public_scan, private_scan,
}
use qr_blockchain_anticounte.Activities.{
  CreateActivityDto, UpdateActivityDto, add_activity, update_activity, remove_activity,
  list_activities,
}
use qr_blockchain_anticounte.Certifications.{
  CreateCertificationDto, UpdateCertificationDto, add_certification, update_certification,
  remove_certification, list_certifications,
}
use qr_blockchain_anticounte.Batches.{BatchManifest, ZipEntry, generate}

-- A request whose schema is checked in place.
unfoldable pub piped : {A : Type 0} → (accepted : Bool) → M A → M A
piped accepted m = transform (if accepted then some tt else none) >> m

-- The headers that a scan reads: the first x-forwarded-for, the socket's address, and the user agent.
pub record ScanHeaders : Type 0 where
  pub forwarded : Option Str
  pub remote_address : Option Str
  pub user_agent : Option Str

abbrev pub first_part : List Str → Option Str
first_part [] = none
first_part (p ∷ ps) = some (trim p)

abbrev pub forwarded_ip : Option Str → Option Str
forwarded_ip none = none
forwarded_ip (some s) = first_part (split_commas s [])

unfoldable pub ip_of : ScanHeaders → Str
ip_of h = get_or (codes "unknown") (or_else (forwarded_ip h.forwarded) h.remote_address)

abbrev pub context_of : ScanHeaders → ScanContext
context_of h = record { ip = some (ip_of h); user_agent = h.user_agent }

pub record ProjectList : Type 0 where
  pub items : List ProjectMetadata
  pub page : ℕ
  pub page_size : ℕ
  pub total : ℕ

pub record BatchAnswer : Type 0 where
  pub headers : List (Str × Str)
  pub body : List ℕ

module _ (x : Outside) (env : Env) where
  module _ (fallback : Str) where
    unfoldable pub scan_public : ScanHeaders → (phi : Str) → M ProjectMetadata
    scan_public headers phi =
        piped (is_phi phi) (public_scan x env fallback phi (context_of headers))

    unfoldable pub scan_private : ScanHeaders → ScanPrivateDto → M VerificationOutcome
    scan_private headers dto =
        piped (scan_private_is_accepted dto) (private_scan x env fallback dto (context_of headers))

  module _ (is_email : Str → Bool) where
    unfoldable pub auth_register : Credentials → M AuthEnvelope
    auth_register c = do
      dto ← transform (read_register is_email c)
      register x env dto.email dto.password

    unfoldable pub auth_login : Credentials → M AuthEnvelope
    auth_login c = do dto ← transform (read_login is_email c); login x env dto.email dto.password

  unfoldable pub auth_refresh : (refresh_token : Str) → M Str
  auth_refresh refresh_token =
      piped (refresh_is_accepted refresh_token) (refresh x env refresh_token)

  module _ (producer_id : Str) where
    unfoldable pub projects_create : CreateProjectDto → M ProjectMetadata
    projects_create dto =
        piped (create_project_is_accepted dto)
          (do doc ← create x env producer_id dto; pure (to_project_metadata doc))

    unfoldable pub projects_list : ListProjectsQuery → M ProjectList
    projects_list query = piped (list_query_is_accepted query) (do
      result ← list_projects x env producer_id query
      pure (record {
        items = map to_project_metadata result.items;
        page = result.page;
        page_size = result.page_size;
        total = result.total;
      }))

    unfoldable pub projects_update : (phi : Str) → UpdateProjectDto → M ProjectMetadata
    projects_update phi dto = piped (is_phi phi) (
        piped (update_project_is_accepted dto)
          (do doc ← update x env producer_id phi dto; pure (to_project_metadata doc)))

    unfoldable pub projects_soft_delete : (phi : Str) → M (Unit {0})
    projects_soft_delete phi = piped (is_phi phi) (soft_delete x env producer_id phi)

    unfoldable pub activities_list : (phi : Str) → M (List CultivationActivity)
    activities_list phi = piped (is_phi phi) (list_activities x env producer_id phi)

    unfoldable pub activities_add : (phi : Str) → CreateActivityDto → M Str
    activities_add phi dto =
        piped (is_phi phi)
          (piped (create_activity_is_accepted dto) (add_activity x env producer_id phi dto))

    unfoldable pub activities_update : (phi id : Str) → UpdateActivityDto → M (Unit {0})
    activities_update phi id dto =
        piped (is_phi phi)
          (piped (update_activity_is_accepted dto) (update_activity x env producer_id phi id dto))

    unfoldable pub activities_remove : (phi id : Str) → M (Unit {0})
    activities_remove phi id = piped (is_phi phi) (remove_activity x env producer_id phi id)

    module _ (is_url : Str → Bool) where
      unfoldable pub certifications_add : (phi : Str) → CreateCertificationDto → M Str
      certifications_add phi dto = piped (is_phi phi) (
          piped (create_certification_is_accepted is_url dto)
            (add_certification x env producer_id phi dto))

      unfoldable pub certifications_update : (phi id : Str) → UpdateCertificationDto → M (Unit {0})
      certifications_update phi id dto = piped (is_phi phi) (
          piped (update_certification_is_accepted is_url dto)
            (update_certification x env producer_id phi id dto))

      unfoldable pub batches_create :
          (to_png : Str → List ℕ) (build_zip : List ZipEntry → List ℕ)
          (to_json : BatchManifest → List ℕ)
          → (phi : Str) → (n : ℕ) → (dapp_base_url : Option Str) → M BatchAnswer
      batches_create to_png build_zip to_json phi n base = piped (is_phi phi) (
          piped (batch_is_accepted is_url n base) (do
            batch ← generate x env to_png build_zip to_json producer_id phi n base
            pure (record {
              headers =
                  (codes "Content-Type", codes "application/zip")
                  ∷ (
                    codes "Content-Disposition",
                    codes "attachment; filename=\"batch-" ++ (take 10 phi ++ codes ".zip\""),
                  )
                  ∷ (codes "Content-Length", decimal (length batch.zip_buffer))
                  ∷ [];
              body = batch.zip_buffer;
            })))

    unfoldable pub certifications_list : (phi : Str) → M (List Certification)
    certifications_list phi = piped (is_phi phi) (list_certifications x env producer_id phi)

    unfoldable pub certifications_remove : (phi id : Str) → M (Unit {0})
    certifications_remove phi id =
        piped (is_phi phi) (remove_certification x env producer_id phi id)

  unfoldable pub projects_find_public : (phi : Str) → M ProjectMetadata
  projects_find_public phi =
      piped (is_phi phi) (do doc ← find_public x env phi; pure (to_project_metadata doc))
