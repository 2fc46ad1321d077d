-- ===== src/Projects/Metadata.antt =====
-- `toProjectMetadata` (apps/coordination-hub/src/projects/project.schema.ts): what the API returns of a
-- project, in the shapes of packages/shared/src/types.ts.
use qr_blockchain_anticounte.Prelude.{ℕ, Str, Option, none, some, List, [], ◌∷◌, map}
use qr_blockchain_anticounte.Documents.{
  ℤ, ProjectDoc, ProjectStatus, ActivityType, CultivationActivity, Certification,
  CultivationLocation,
}
use qr_blockchain_anticounte.Logs.{truthy}

pub record ActivityView : Type 0 where
  pub type : ActivityType
  pub activity_date : ℕ
  pub name : Str
  pub description : Str
  pub materials : Option (List Str)
  pub note : Option Str

pub record CertificationView : Type 0 where
  pub name : Str
  pub issuer : Str
  pub issue_date : ℕ
  pub expiry_date : Option ℕ
  pub document_url : Option Str

pub record ProjectMetadata : Type 0 where
  pub project_id : Str
  pub cooperative_name : Str
  pub vegetable_type : Str
  pub cultivation_location : CultivationLocation
  pub start_date : ℕ
  pub harvest_date : ℕ
  pub cultivation_area : ℤ
  pub expected_output : ℤ
  pub description : Str
  pub cultivation_activities : List ActivityView
  pub certifications : List CertificationView
  pub image_urls : List Str
  pub status : ProjectStatus
  pub owner_producer_id : Str
  pub created_at : ℕ
  pub updated_at : ℕ
  pub id : Str
  pub tx_hash_register_project : Option Str

-- an empty list of materials is left out
abbrev pub non_empty : Option (List Str) → Option (List Str)
non_empty none = none
non_empty (some []) = none
non_empty (some (m ∷ ms)) = some (m ∷ ms)

abbrev pub activity_view : CultivationActivity → ActivityView
activity_view a = record {
  type = a.type;
  activity_date = a.activity_date;
  name = a.name;
  description = a.description;
  materials = non_empty a.materials;
  note = truthy a.note;
}

abbrev pub certification_view : Certification → CertificationView
certification_view c = record {
  name = c.name;
  issuer = c.issuer;
  issue_date = c.issue_date;
  expiry_date = c.expiry_date;
  document_url = truthy c.document_url;
}

unfoldable pub to_project_metadata : ProjectDoc → ProjectMetadata
to_project_metadata d = record {
  project_id = d.project_id;
  cooperative_name = d.cooperative_name;
  vegetable_type = d.vegetable_type;
  cultivation_location = d.cultivation_location;
  start_date = d.start_date;
  harvest_date = d.harvest_date;
  cultivation_area = d.cultivation_area;
  expected_output = d.expected_output;
  description = d.description;
  cultivation_activities = map activity_view d.cultivation_activities;
  certifications = map certification_view d.certifications;
  image_urls = d.image_urls;
  status = d.status;
  owner_producer_id = d.owner_producer_id;
  created_at = d.created_at;
  updated_at = d.updated_at;
  id = d.id;
  tx_hash_register_project = truthy d.tx_hash_register_project;
}
