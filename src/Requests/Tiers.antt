-- ===== src/Requests/Tiers.antt =====
-- The two tiers of validation agree: what a request's schema accepts, the validators of the database
-- (apps/coordination-hub/src/projects/project.schema.ts) accept in the document that is saved.
use qr_blockchain_anticounte.Prelude.{
  ℕ, Str, ◌≡◌, refl, Option, none, some, List, [], ◌∷◌, ◌++◌, Bool, true, ◌&&◌, leb, length, every,
  get_or, arith, sym, ap, ◌∙◌,
}
use qr_blockchain_anticounte.Documents.{
  ProjectDoc, CultivationActivity, Certification, CultivationLocation, Coordinates, ℤ, pos, negsuc,
  is_positive, is_nonnegative,
}
use qr_blockchain_anticounte.Projects.{
  CreateProjectDto, UpdateProjectDto, project_is_valid, assign_project, new_project,
  coordinates_are_valid, location_is_valid, activity_is_valid, certification_is_valid, fits,
  optional_phi,
}
use qr_blockchain_anticounte.Activities.{
  CreateActivityDto, UpdateActivityDto, new_activity, with_activity, assign_activity,
  changed_activity, activity_id,
}
use qr_blockchain_anticounte.Certifications.{
  CreateCertificationDto, UpdateCertificationDto, new_certification, with_certification,
  assign_certification, changed_certification, certification_id,
}
use qr_blockchain_anticounte.Subdocs.{change_sub}
use qr_blockchain_anticounte.World.{Outside, Env}
use qr_blockchain_anticounte.Hex.{is_phi}
use qr_blockchain_anticounte.Requests.{
  if_given, coordinates_are_accepted, location_is_accepted, create_project_is_accepted,
  update_project_is_accepted, create_activity_is_accepted, update_activity_is_accepted,
  create_certification_is_accepted, update_certification_is_accepted,
}

every-append :
    {A : Type 0} (p : A → Bool) (xs : List A) (a : A)
    → every p xs ≡ true
    → p a ≡ true
    → every p (xs ++ a ∷ []) ≡ true
unfolding every
every-append p [] a h k = ground (arith, k)
every-append p (x ∷ xs) a h k = ground (arith, h, every-append p xs a, k)

every-change_sub :
    {A : Type 0} (id_of : A → Str) (id : Str) (f : A → A) (p : A → Bool) (xs : List A)
    → ((a : A) → p a ≡ true → p (f a) ≡ true)
    → every p xs ≡ true
    → every p (change_sub id_of id f xs) ≡ true
unfolding every change_sub
every-change_sub id_of id f p [] k h = refl
every-change_sub id_of id f p (a ∷ xs) k h =
    ground (arith, h, k a, every-change_sub id_of id f p xs k)

get_or_kept :
    {A : Type 0} (p : A → Bool) (d : A) (o : Option A)
    → p d ≡ true
    → if_given p o ≡ true
    → p (get_or d o) ≡ true
get_or_kept p d none h k = h
get_or_kept p d (some a) h k = k

if_given_weaker :
    {A : Type 0} (p q : A → Bool) (o : Option A)
    → ((a : A) → p a ≡ true → q a ≡ true)
    → if_given p o ≡ true
    → if_given q o ≡ true
if_given_weaker p q none k h = refl
if_given_weaker p q (some a) k h = k a h

positive-nonnegative : (n : ℤ) → is_positive n ≡ true → is_nonnegative n ≡ true
positive-nonnegative (pos n) h = refl
positive-nonnegative (negsuc n) h = absurd (cc h)

-- the ranges of the two tiers are the same
coordinates_agree :
    (o : Option Coordinates) → if_given coordinates_are_accepted o ≡ coordinates_are_valid o
coordinates_agree none = refl
coordinates_agree (some c) = refl

location-accepted :
    (l : CultivationLocation) → location_is_accepted l ≡ true → location_is_valid l ≡ true
location-accepted l h =
    sym (ap (λ c. fits 200 l.address && fits 100 l.province && c) (coordinates_agree l.coordinates))
    ∙ h

-- A project that is created from an accepted request, with an identifier and a transaction hash of 32
-- bytes in hexadecimal, passes the database's validators: those of its texts, and the ranges of its
-- numbers and its coordinates.
pub new_project-accepted :
    (x : Outside) (env : Env) (phi owner tx_hash id : Str) (now : ℕ) (dto : CreateProjectDto)
    → create_project_is_accepted dto ≡ true
    → is_phi phi ≡ true
    → is_phi tx_hash ≡ true
    → project_is_valid (new_project x env phi owner tx_hash id now dto) ≡ true
unfolding create_project_is_accepted project_is_valid every
new_project-accepted x env phi owner tx_hash id now dto h p t = ground (
  arith,
  h,
  p,
  t,
  location-accepted dto.cultivation_location,
  positive-nonnegative dto.cultivation_area,
  positive-nonnegative dto.expected_output,
)

-- the same checks, where six of the ten are of new values
checks_kept :
    (p c v l n o s acts certs tx c' v' l' n' o' s' : Bool)
    → (c ≡ true → c' ≡ true)
    → (v ≡ true → v' ≡ true)
    → (l ≡ true → l' ≡ true)
    → (n ≡ true → n' ≡ true)
    → (o ≡ true → o' ≡ true)
    → (s ≡ true → s' ≡ true)
    → p && c && v && l && n && o && s && acts && certs && tx ≡ true
    → p && c' && v' && l' && n' && o' && s' && acts && certs && tx ≡ true
checks_kept p c v l n o s acts certs tx c' v' l' n' o' s' f g k i j m h =
    ground (arith, h, f, g, k, i, j, m)

-- the checks of an update that the database repeats
record Repeated (u : UpdateProjectDto) : Type 0 where
  pub cooperative : if_given (fits 200) u.cooperative_name ≡ true
  pub vegetable : if_given (fits 100) u.vegetable_type ≡ true
  pub location : if_given location_is_accepted u.cultivation_location ≡ true
  pub area : if_given is_positive u.cultivation_area ≡ true
  pub output : if_given is_positive u.expected_output ≡ true
  pub description : if_given (λ s. leb (length s) 5000) u.description ≡ true

update_project-Repeated : (u : UpdateProjectDto) → update_project_is_accepted u ≡ true → Repeated u
unfolding update_project_is_accepted
update_project-Repeated u k = record {
  cooperative = ground (arith, k);
  vegetable = ground (arith, k);
  location = ground (arith, k);
  area = ground (arith, k);
  output = ground (arith, k);
  description = ground (arith, k);
}

assign_project-accepted :
    (d : ProjectDoc) (u : UpdateProjectDto)
    → project_is_valid d ≡ true
    → update_project_is_accepted u ≡ true
    → project_is_valid (assign_project d u) ≡ true
unfolding project_is_valid every assign_project
assign_project-accepted d u h k =
    let r = update_project-Repeated u k in
    checks_kept (is_phi d.project_id) (fits 200 d.cooperative_name) (fits 100 d.vegetable_type)
      (location_is_valid d.cultivation_location) (is_nonnegative d.cultivation_area)
      (is_nonnegative d.expected_output) (leb (length d.description) 5000)
      (every activity_is_valid d.cultivation_activities)
      (every certification_is_valid d.certifications) (optional_phi d.tx_hash_register_project)
      (fits 200 (get_or d.cooperative_name u.cooperative_name))
      (fits 100 (get_or d.vegetable_type u.vegetable_type))
      (location_is_valid (get_or d.cultivation_location u.cultivation_location))
      (is_nonnegative (get_or d.cultivation_area u.cultivation_area))
      (is_nonnegative (get_or d.expected_output u.expected_output))
      (leb (length (get_or d.description u.description)) 5000)
      (λ e. get_or_kept (fits 200) d.cooperative_name u.cooperative_name e r.cooperative)
      (λ e. get_or_kept (fits 100) d.vegetable_type u.vegetable_type e r.vegetable)
      (λ e. get_or_kept location_is_valid d.cultivation_location u.cultivation_location e (
        if_given_weaker location_is_accepted location_is_valid u.cultivation_location
          location-accepted r.location))
      (λ e.
        get_or_kept is_nonnegative d.cultivation_area u.cultivation_area e (
          if_given_weaker is_positive is_nonnegative u.cultivation_area positive-nonnegative
            r.area))
      (λ e. get_or_kept is_nonnegative d.expected_output u.expected_output e (
        if_given_weaker is_positive is_nonnegative u.expected_output positive-nonnegative r.output))
      (λ e. get_or_kept (λ s. leb (length s) 5000) d.description u.description e r.description) h

assign_activity-accepted :
    (u : UpdateActivityDto) (a : CultivationActivity)
    → update_activity_is_accepted u ≡ true
    → activity_is_valid a ≡ true
    → activity_is_valid (assign_activity u a) ≡ true
unfolding update_activity_is_accepted
assign_activity-accepted u a k h = ground (
  arith,
  h,
  k,
  get_or_kept (fits 100) a.name u.name,
  get_or_kept (λ s. leb (length s) 2000) a.description u.description,
)

assign_certification-accepted :
    (is_url : Str → Bool) (u : UpdateCertificationDto) (c : Certification)
    → update_certification_is_accepted is_url u ≡ true
    → certification_is_valid c ≡ true
    → certification_is_valid (assign_certification u c) ≡ true
unfolding update_certification_is_accepted
assign_certification-accepted is_url u c k h =
    ground
      (arith, h, k, get_or_kept (fits 100) c.name u.name, get_or_kept (fits 200) c.issuer u.issuer)

-- A request that changes a document that is there.
pub data Change : Type 0 where
  project_updated : UpdateProjectDto → Change
  activity_added : (id : Str) → CreateActivityDto → Change
  activity_updated : (id : Str) → UpdateActivityDto → Change
  certification_added : (id : Str) → CreateCertificationDto → Change
  certification_updated : (id : Str) → UpdateCertificationDto → Change

abbrev pub is_accepted : (is_url : Str → Bool) → Change → Bool
is_accepted is_url (project_updated u) = update_project_is_accepted u
is_accepted is_url (activity_added id a) = create_activity_is_accepted a
is_accepted is_url (activity_updated id u) = update_activity_is_accepted u
is_accepted is_url (certification_added id c) = create_certification_is_accepted is_url c
is_accepted is_url (certification_updated id u) = update_certification_is_accepted is_url u

abbrev pub changed : Change → ProjectDoc → ProjectDoc
changed (project_updated u) d = assign_project d u
changed (activity_added id a) d = with_activity (new_activity id a) d
changed (activity_updated id u) d = changed_activity id u d
changed (certification_added id c) d = with_certification (new_certification id c) d
changed (certification_updated id u) d = changed_certification id u d

-- From a document that passes the database's validators, an accepted request to update it, or to add or
-- update one of its activities or certifications, makes one that passes them again: the second tier
-- refuses nothing that the first has let through.
pub project_is_valid-changed :
    (is_url : Str → Bool) (c : Change) (d : ProjectDoc)
    → project_is_valid d ≡ true
    → is_accepted is_url c ≡ true
    → project_is_valid (changed c d) ≡ true
unfolding project_is_valid create_activity_is_accepted create_certification_is_accepted
project_is_valid-changed is_url (project_updated u) d h k = assign_project-accepted d u h k
project_is_valid-changed is_url (activity_added id a) d h k =
    ground
      (arith, h, k, every-append activity_is_valid d.cultivation_activities (new_activity id a))
project_is_valid-changed is_url (activity_updated id u) d h k = ground (
  arith,
  h,
  every-change_sub activity_id id (assign_activity u) activity_is_valid d.cultivation_activities
      (λ a. assign_activity-accepted u a k),
)
project_is_valid-changed is_url (certification_added id c) d h k =
    ground
      (arith, h, k, every-append certification_is_valid d.certifications (new_certification id c))
project_is_valid-changed is_url (certification_updated id u) d h k = ground (
  arith,
  h,
  every-change_sub certification_id id (assign_certification u) certification_is_valid
      d.certifications (λ c. assign_certification-accepted is_url u c k),
)
