-- ===== src/Projects/Schema.antt =====
-- The schema of a project with its validators, the request types, and queries over the collection
-- (apps/coordination-hub/src/projects/project.schema.ts, dto/project.dto.ts and projects.service.ts).
use qr_blockchain_anticounte.Prelude.{
  ℕ, Str, codes, str_eq, Option, none, some, List, [], ◌∷◌, ◌++◌, Bool, true, false, not, ◌&&◌,
  find, every, length, ltb, leb, if◌then◌else◌, get_or,
}
use qr_blockchain_anticounte.Errors.{JsError}
use qr_blockchain_anticounte.Documents.{
  CultivationActivity, Certification, ProjectDoc, ProjectStatus, in_progress, harvesting, finished,
  CultivationLocation, Coordinates, ℤ, is_nonnegative, within, max_lat, max_lng,
}
use qr_blockchain_anticounte.World.{World}
use qr_blockchain_anticounte.Hex.{is_phi}

pub record CreateProjectDto : Type 0 where
  pub cooperative_name : Str
  pub vegetable_type : Str
  pub cultivation_location : CultivationLocation
  pub start_date : ℕ
  pub harvest_date : ℕ
  pub cultivation_area : ℤ
  pub expected_output : ℤ
  pub description : Str

pub record UpdateProjectDto : Type 0 where
  pub cooperative_name : Option Str
  pub vegetable_type : Option Str
  pub cultivation_location : Option CultivationLocation
  pub start_date : Option ℕ
  pub harvest_date : Option ℕ
  pub cultivation_area : Option ℤ
  pub expected_output : Option ℤ
  pub description : Option Str
  pub status : Option ProjectStatus

pub record ListProjectsQuery : Type 0 where
  pub page : ℕ
  pub page_size : ℕ
  pub status : Option ProjectStatus

abbrev pub max_phi_retries : ℕ
max_phi_retries = 3

abbrev pub same_project_status : ProjectStatus → ProjectStatus → Bool
same_project_status in_progress in_progress = true
same_project_status harvesting harvesting = true
same_project_status finished finished = true
same_project_status _ _ = false

-- `['harvesting', 'finished'].includes(status)`
abbrev pub is_public_status : ProjectStatus → Bool
is_public_status in_progress = false
is_public_status harvesting = true
is_public_status finished = true

-- a required string of at most n units
abbrev pub fits : (n : ℕ) → Str → Bool
fits n s = leb 1 (length s) && leb (length s) n

abbrev pub optional_phi : Option Str → Bool
optional_phi none = true
optional_phi (some s) = is_phi s

abbrev optional_fits : (n : ℕ) → Option Str → Bool
optional_fits n none = true
optional_fits n (some s) = leb (length s) n

-- The validators of the embedded schemas.
abbrev pub activity_is_valid : CultivationActivity → Bool
activity_is_valid a = fits 100 a.name && leb (length a.description) 2000 && optional_fits 500 a.note

abbrev pub certification_is_valid : Certification → Bool
certification_is_valid c = fits 100 c.name && fits 200 c.issuer && optional_fits 500 c.document_url

-- The validators of the schema of a location.
abbrev pub coordinates_are_valid : Option Coordinates → Bool
coordinates_are_valid none = true
coordinates_are_valid (some c) = within max_lat c.lat && within max_lng c.lng

abbrev pub location_is_valid : CultivationLocation → Bool
location_is_valid l =
    fits 200 l.address && fits 100 l.province && coordinates_are_valid l.coordinates

-- The validators of the Project schema.
unfoldable pub project_is_valid : ProjectDoc → Bool
unfolding is_phi every
project_is_valid d =
    is_phi d.project_id
    && fits 200 d.cooperative_name
    && fits 100 d.vegetable_type
    && location_is_valid d.cultivation_location
    && is_nonnegative d.cultivation_area
    && is_nonnegative d.expected_output
    && leb (length d.description) 5000
    && every activity_is_valid d.cultivation_activities
    && every certification_is_valid d.certifications
    && optional_phi d.tx_hash_register_project

-- `findOne({ projectId: phi, isDeleted: false })`
abbrev pub is_live : Str → ProjectDoc → Bool
is_live phi d = str_eq d.project_id phi && not d.is_deleted

unfoldable pub find_live : Str → List ProjectDoc → Option ProjectDoc
unfolding find
find_live phi ds = find (is_live phi) ds

-- `doc.save()` writes the document back in place.
unfoldable pub replace_doc : ProjectDoc → List ProjectDoc → List ProjectDoc
replace_doc d [] = []
replace_doc d (e ∷ es) = if str_eq e.id d.id then d ∷ es else e ∷ replace_doc d es

-- `Object.assign(doc, dto)`: the fields that the request gives
unfoldable pub assign_project : ProjectDoc → UpdateProjectDto → ProjectDoc
assign_project d u = record d {
  cooperative_name = get_or d.cooperative_name u.cooperative_name;
  vegetable_type = get_or d.vegetable_type u.vegetable_type;
  cultivation_location = get_or d.cultivation_location u.cultivation_location;
  start_date = get_or d.start_date u.start_date;
  harvest_date = get_or d.harvest_date u.harvest_date;
  cultivation_area = get_or d.cultivation_area u.cultivation_area;
  expected_output = get_or d.expected_output u.expected_output;
  description = get_or d.description u.description;
  status = get_or d.status u.status;
}

-- `sort({ createdAt: -1 })`
unfoldable pub insert_newest : ProjectDoc → List ProjectDoc → List ProjectDoc
insert_newest d [] = d ∷ []
insert_newest d (e ∷ es) =
    if ltb d.created_at e.created_at then e ∷ insert_newest d es else d ∷ e ∷ es

unfoldable pub newest_first : List ProjectDoc → List ProjectDoc
unfolding insert_newest
newest_first [] = []
newest_first (d ∷ ds) = insert_newest d (newest_first ds)

abbrev pub wanted : (producer_id : Str) → Option ProjectStatus → ProjectDoc → Bool
wanted producer_id none d = str_eq d.owner_producer_id producer_id && not d.is_deleted
wanted producer_id (some s) d =
    str_eq d.owner_producer_id producer_id && not d.is_deleted && same_project_status d.status s

pub record ProjectPage : Type 0 where
  pub items : List ProjectDoc
  pub total : ℕ
  pub page : ℕ
  pub page_size : ℕ

-- `err instanceof Error ? err.message : 'unknown'`
abbrev pub reason_of : JsError → Str
reason_of e = get_or (codes "unknown") e.message

-- No document has the phi, deleted or not.
unfoldable pub is_new_phi : Str → List ProjectDoc → Bool
unfolding every
is_new_phi phi ds = every (λ d. not (str_eq d.project_id phi)) ds

abbrev pub write_project : ProjectDoc → World → World
write_project d w = record w { projects = replace_doc d w.projects }

abbrev pub append_project : ProjectDoc → World → World
append_project d w = record w { projects = w.projects ++ d ∷ [] }
