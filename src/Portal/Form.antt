-- ===== src/Portal/Form.antt =====
-- The form of a project, apps/management-portal/src/lib/project-schema.ts, and the estimate of a batch,
-- batch-api.ts. The dates of the form are texts, which `parse_date` reads as `new Date(…)` does: none is
-- an invalid date; the payload's dates are milliseconds, of which `toISOString` is a text that the hub
-- reads back.
use qr_blockchain_anticounte.Prelude.{
  ℕ, Str, ◌≡◌, refl, Option, none, some, [], Bool, true, false, ◌&&◌, leb, length, get_or, arith,
}
use qr_blockchain_anticounte.Documents.{
  ℤ, Coordinates, ProjectStatus, is_positive, is_nonnegative, within, max_lat, max_lng,
}
use qr_blockchain_anticounte.Projects.{CreateProjectDto, fits}
use qr_blockchain_anticounte.Requests.{create_project_is_accepted}

pub record ProjectForm : Type 0 where
  pub cooperative_name : Str
  pub vegetable_type : Str
  pub address : Str
  pub province : Str
  pub lat : Option ℤ
  pub lng : Option ℤ
  pub start_date : Str
  pub harvest_date : Str
  pub cultivation_area : ℤ
  pub expected_output : ℤ
  pub description : Option Str
  pub status : Option ProjectStatus

-- `v === undefined || (v >= -limit && v <= limit)`
abbrev pub is_undefined_or_within : (limit : ℕ) → Option ℤ → Bool
is_undefined_or_within limit none = true
is_undefined_or_within limit (some v) = within limit v

-- both dates are valid, and the harvest is not before the start
abbrev pub dates_in_order : Option ℕ → Option ℕ → Bool
dates_in_order (some a) (some b) = leb a b
dates_in_order _ _ = false

-- both coordinates, or none
abbrev pub coordinates_of : Option ℤ → Option ℤ → Option Coordinates
coordinates_of (some a) (some b) = some (record { lat = a; lng = b })
coordinates_of _ _ = none

module _ (parse_date : Str → Option ℕ) where
  -- `ProjectFormSchema`
  unfoldable pub form_is_accepted : ProjectForm → Bool
  form_is_accepted f =
      fits 200 f.cooperative_name
      && fits 100 f.vegetable_type
      && fits 200 f.address
      && fits 100 f.province
      && is_undefined_or_within max_lat f.lat
      && is_undefined_or_within max_lng f.lng
      && leb 1 (length f.start_date)
      && leb 1 (length f.harvest_date)
      && is_nonnegative f.cultivation_area
      && is_nonnegative f.expected_output
      && leb (length (get_or [] f.description)) 5000
      && dates_in_order (parse_date f.start_date) (parse_date f.harvest_date)

  -- `toISOString` of an invalid date throws
  abbrev pub payload_of : ProjectForm → Option ℕ → Option ℕ → Option CreateProjectDto
  payload_of f (some start) (some harvest) = some (record {
    cooperative_name = f.cooperative_name;
    vegetable_type = f.vegetable_type;
    cultivation_location = record {
      address = f.address;
      province = f.province;
      coordinates = coordinates_of f.lat f.lng;
    };
    start_date = start;
    harvest_date = harvest;
    cultivation_area = f.cultivation_area;
    expected_output = f.expected_output;
    description = get_or [] f.description;
  })
  payload_of f _ _ = none

  unfoldable pub to_create_payload : ProjectForm → Option CreateProjectDto
  to_create_payload f = payload_of f (parse_date f.start_date) (parse_date f.harvest_date)

  payload_accepted :
      (f : ProjectForm) (a b : Option ℕ)
      → parse_date f.start_date ≡ a
      → parse_date f.harvest_date ≡ b
      → form_is_accepted f ≡ true
      → is_positive f.cultivation_area ≡ true
      → is_positive f.expected_output ≡ true
      → (p : CreateProjectDto) × (payload_of f a b ≡ some p) × (create_project_is_accepted p ≡ true)
  unfolding form_is_accepted create_project_is_accepted
  payload_accepted f (some a) (some b) ea eb h area output =
      (_, refl, ground (arith, h, ea, eb, area, output))
  payload_accepted f (some a) none ea eb h area output = absurd (ground (arith, h, ea, eb))
  payload_accepted f none b ea eb h area output = absurd (ground (arith, h, ea))

  -- A form that the portal accepts, and whose area and output are positive, which it leaves to the hub,
  -- makes a payload that the hub's schema accepts.
  pub to_create_payload-accepted :
      (f : ProjectForm)
      → form_is_accepted f ≡ true
      → is_positive f.cultivation_area ≡ true
      → is_positive f.expected_output ≡ true
      → (p : CreateProjectDto) × (to_create_payload f ≡ some p)
        × (create_project_is_accepted p ≡ true)
  unfolding to_create_payload
  to_create_payload-accepted f h area output =
      payload_accepted f (parse_date f.start_date) (parse_date f.harvest_date) refl refl h area
        output
