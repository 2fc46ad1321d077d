-- ===== src/Documents.antt =====
-- The documents of the hub's collections: projects/project.schema.ts, producers/producer.schema.ts and
-- observability/audit-log.service.ts of apps/coordination-hub/src. A Date is its milliseconds since
-- 1970. An area or an output is a whole number of some fixed unit, a coordinate one of millionths of a
-- degree, since the code only copies and compares them.
use qr_blockchain_anticounte.Prelude.{ℕ, ◌+◌, Str, Option, List, Bool, true, false, ltb, leb}

-- `negsuc n` is -(n + 1)
pub data ℤ : Type 0 where
  pos : ℕ → ℤ
  negsuc : ℕ → ℤ

-- `n > 0` and `n >= 0`
abbrev pub is_positive : ℤ → Bool
is_positive (pos n) = ltb 0 n
is_positive (negsuc n) = false

abbrev pub is_nonnegative : ℤ → Bool
is_nonnegative (pos n) = true
is_nonnegative (negsuc n) = false

-- `-limit <= n && n <= limit`
abbrev pub within : (limit : ℕ) → ℤ → Bool
within limit (pos n) = leb n limit
within limit (negsuc n) = leb (n + 1) limit

-- 90 and 180 degrees
abbrev pub max_lat : ℕ
max_lat = 90_000_000

abbrev pub max_lng : ℕ
max_lng = 180_000_000

pub data ProjectStatus : Type 0 where
  in_progress harvesting finished : ProjectStatus

pub data ActivityType : Type 0 where
  land_preparation planting fertilizing pest_control harvesting_work other : ActivityType

pub record CultivationActivity : Type 0 where
  pub id : Str
  pub type : ActivityType
  pub activity_date : ℕ
  pub name : Str
  pub description : Str
  pub materials : Option (List Str)
  pub note : Option Str

pub record Certification : Type 0 where
  pub id : Str
  pub name : Str
  pub issuer : Str
  pub issue_date : ℕ
  pub expiry_date : Option ℕ
  pub document_url : Option Str

pub record Coordinates : Type 0 where
  pub lat : ℤ
  pub lng : ℤ

pub record CultivationLocation : Type 0 where
  pub address : Str
  pub province : Str
  pub coordinates : Option Coordinates

pub record ProjectDoc : Type 0 where
  pub id : Str
  pub project_id : Str
  pub owner_producer_id : Str
  pub cooperative_name : Str
  pub vegetable_type : Str
  pub cultivation_location : CultivationLocation
  pub start_date : ℕ
  pub harvest_date : ℕ
  pub cultivation_area : ℤ
  pub expected_output : ℤ
  pub description : Str
  pub cultivation_activities : List CultivationActivity
  pub certifications : List Certification
  pub image_urls : List Str
  pub status : ProjectStatus
  pub is_deleted : Bool
  pub deleted_at : Option ℕ
  pub tx_hash_register_project : Option Str
  pub created_at : ℕ
  pub updated_at : ℕ

pub record ProducerDoc : Type 0 where
  pub id : Str
  pub email : Str
  pub password_hash : Str
  pub wallet_address : Str
  pub encrypted_private_key : Str
  pub encryption_iv : Str
  pub encryption_auth_tag : Str
  pub failed_login_attempts : ℕ
  pub last_failed_login_at : Option ℕ
  pub locked_until : Option ℕ
  pub created_at : ℕ
  pub updated_at : ℕ

pub data AuditAction : Type 0 where
  project_create project_update project_delete batch_register product_redeem : AuditAction
  login_success login_failure register_success : AuditAction

pub record AuditEntry : Type 0 where
  pub actor : Str
  pub action : AuditAction
  pub target : Option Str
  pub timestamp : ℕ
