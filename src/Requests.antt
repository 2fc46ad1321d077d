-- ===== src/Requests.antt =====
-- The schemas of requests, apps/coordination-hub/src/**/dto/*.dto.ts, and the pipe that applies them
-- (common/pipes/zod-validation.pipe.ts). A request's fields are read already: dates are their
-- milliseconds, numbers are whole; `is_url` and `is_email` are zod's checks of a text.
pub mod Tiers
use qr_blockchain_anticounte.Prelude.{
  ℕ, Str, Option, none, some, List, [], ◌∷◌, Bool, true, false, ◌&&◌, leb, ltb, ◌==◌, length, every,
  to_lower_case, get_or, if◌then◌else◌, codes,
}
use qr_blockchain_anticounte.Errors.{http}
use qr_blockchain_anticounte.World.{M, pure, throw}
use qr_blockchain_anticounte.Hex.{is_phi, is_secret_id}
use qr_blockchain_anticounte.Documents.{
  CultivationLocation, Coordinates, is_positive, within, max_lat, max_lng,
}
use qr_blockchain_anticounte.Projects.{CreateProjectDto, UpdateProjectDto, ListProjectsQuery, fits}
use qr_blockchain_anticounte.Activities.{CreateActivityDto, UpdateActivityDto}
use qr_blockchain_anticounte.Certifications.{CreateCertificationDto, UpdateCertificationDto}
use qr_blockchain_anticounte.Scan.{ScanPrivateDto}

-- a check of an optional field
abbrev pub if_given : {A : Type 0} → (A → Bool) → Option A → Bool
if_given check none = true
if_given check (some a) = check a

-- `!(start && end) || end >= start`; a Date object counts as true
abbrev pub in_order : (start end_ : Option ℕ) → Bool
in_order (some a) (some b) = leb a b
in_order _ _ = true

abbrev pub coordinates_are_accepted : Coordinates → Bool
coordinates_are_accepted c = within max_lat c.lat && within max_lng c.lng

abbrev pub location_is_accepted : CultivationLocation → Bool
location_is_accepted l =
    fits 200 l.address && fits 100 l.province && if_given coordinates_are_accepted l.coordinates

unfoldable pub create_project_is_accepted : CreateProjectDto → Bool
create_project_is_accepted p =
    fits 200 p.cooperative_name
    && fits 100 p.vegetable_type
    && location_is_accepted p.cultivation_location
    && is_positive p.cultivation_area
    && is_positive p.expected_output
    && leb (length p.description) 5000
    && leb p.start_date p.harvest_date

unfoldable pub update_project_is_accepted : UpdateProjectDto → Bool
update_project_is_accepted p =
    if_given (fits 200) p.cooperative_name
    && if_given (fits 100) p.vegetable_type
    && if_given location_is_accepted p.cultivation_location
    && if_given is_positive p.cultivation_area
    && if_given is_positive p.expected_output
    && if_given (λ s. leb (length s) 5000) p.description
    && in_order p.start_date p.harvest_date

unfoldable pub list_query_is_accepted : ListProjectsQuery → Bool
list_query_is_accepted q = ltb 0 q.page && ltb 0 q.page_size && leb q.page_size 100

unfoldable pub create_activity_is_accepted : CreateActivityDto → Bool
create_activity_is_accepted a =
    fits 100 a.name
    && leb (length a.description) 2000
    && if_given (every (fits 100)) a.materials
    && if_given (λ s. leb (length s) 500) a.note

unfoldable pub update_activity_is_accepted : UpdateActivityDto → Bool
update_activity_is_accepted a =
    if_given (fits 100) a.name
    && if_given (λ s. leb (length s) 2000) a.description
    && if_given (every (fits 100)) a.materials
    && if_given (λ s. leb (length s) 500) a.note

module _ (is_url : Str → Bool) where
  unfoldable pub create_certification_is_accepted : CreateCertificationDto → Bool
  create_certification_is_accepted c =
      fits 100 c.name
      && fits 200 c.issuer
      && if_given (λ s. is_url s && leb (length s) 500) c.document_url
      && if_given (λ e. leb c.issue_date e) c.expiry_date

  unfoldable pub update_certification_is_accepted : UpdateCertificationDto → Bool
  update_certification_is_accepted c =
      if_given (fits 100) c.name
      && if_given (fits 200) c.issuer
      && if_given (λ s. is_url s && leb (length s) 500) c.document_url
      && in_order c.issue_date c.expiry_date

  -- `CreateBatchDtoSchema`
  abbrev pub batch_is_accepted : (n : ℕ) → (dapp_base_url : Option Str) → Bool
  batch_is_accepted n base = leb 1 n && leb n 500 && if_given is_url base

pub record Credentials : Type 0 where
  pub email : Str
  pub password : Str

-- What the schemas of `auth.dto.ts` give for an e-mail address and a password.
module _ (is_email : Str → Bool) where
  abbrev pub lowered : Credentials → Credentials
  lowered c = record c { email = to_lower_case c.email }

  unfoldable pub read_register : Credentials → Option Credentials
  read_register c =
      if is_email c.email && (leb 8 (length c.password) && leb (length c.password) 128)
      then some (lowered c)
      else none

  unfoldable pub read_login : Credentials → Option Credentials
  read_login c =
      if is_email c.email && (leb 1 (length c.password) && leb (length c.password) 128)
      then some (lowered c)
      else none

abbrev pub refresh_is_accepted : (refresh_token : Str) → Bool
refresh_is_accepted t = leb 20 (length t)

abbrev pub scan_private_is_accepted : ScanPrivateDto → Bool
scan_private_is_accepted s = is_phi s.project_id && is_secret_id s.secret_id

-- `ZodValidationPipe.transform`, for what `safeParse` gives; the exception is a 400.
unfoldable pub transform : {A : Type 0} → (parsed : Option A) → M A
transform none = throw (http 400)
transform (some a) = pure a
