-- ===== src/Projects/Ownership.antt =====
-- Only its owner gets at a project: the lookup that all calls on a project's record begin with
-- (apps/coordination-hub/src/projects/projects.service.ts, activities/activities.service.ts and
-- certifications/certifications.service.ts).
use qr_blockchain_anticounte.Prelude.{
  Str, str_eq, str_eq_iff, ◌≡◌, ◌≢◌, ◌⊎◌, inl, inr, Option, none, some, Bool-cases, Option-cases,
  arith,
}
use qr_blockchain_anticounte.Errors.{
  Err, JsError, domain, js, project_access_forbidden, project_not_found,
}
use qr_blockchain_anticounte.Documents.{ProjectDoc}
use qr_blockchain_anticounte.World.{Outside, Env, World, Result, ok, err, ticked, db_read}
use qr_blockchain_anticounte.Projects.{
  find_live, find_owned_by_producer, update, soft_delete, UpdateProjectDto,
}
use qr_blockchain_anticounte.Activities.{
  CreateActivityDto, UpdateActivityDto, add_activity, update_activity, remove_activity,
  list_activities,
}
use qr_blockchain_anticounte.Certifications.{
  CreateCertificationDto, UpdateCertificationDto, add_certification, update_certification,
  remove_certification, list_certifications,
}

-- A call that is for the owner of a project.
pub data OwnerCall : Type 0 where
  updated : UpdateProjectDto → OwnerCall
  deleted activities_listed certifications_listed : OwnerCall
  activity_added : CreateActivityDto → OwnerCall
  activity_updated : (id : Str) → UpdateActivityDto → OwnerCall
  activity_removed : (id : Str) → OwnerCall
  certification_added : CreateCertificationDto → OwnerCall
  certification_updated : (id : Str) → UpdateCertificationDto → OwnerCall
  certification_removed : (id : Str) → OwnerCall

-- the error of a run, if it ends with one, and the state that it leaves
abbrev pub ending : {A : Type 0} → Result A × World → Option Err × World
ending (ok a, w) = (none, w)
ending (err e, w) = (some e, w)

module _ (x : Outside) (env : Env) (producer_id phi : Str) where
  abbrev pub performed : OwnerCall → World → Option Err × World
  performed (updated dto) w = ending (update x env producer_id phi dto w)
  performed deleted w = ending (soft_delete x env producer_id phi w)
  performed activities_listed w = ending (list_activities x env producer_id phi w)
  performed certifications_listed w = ending (list_certifications x env producer_id phi w)
  performed (activity_added dto) w = ending (add_activity x env producer_id phi dto w)
  performed (activity_updated id dto) w = ending (update_activity x env producer_id phi id dto w)
  performed (activity_removed id) w = ending (remove_activity x env producer_id phi id w)
  performed (certification_added dto) w = ending (add_certification x env producer_id phi dto w)
  performed (certification_updated id dto) w =
      ending (update_certification x env producer_id phi id dto w)
  performed (certification_removed id) w = ending (remove_certification x env producer_id phi id w)

  -- The producer owns the live project, and the database answers.
  pub record Owned (w : World) : Type 0 where
    pub doc : ProjectDoc
    pub answers : x.db w.tick ≡ none
    pub live : find_live phi w.projects ≡ some doc
    pub owner : doc.owner_producer_id ≡ producer_id

  -- Why a call is refused, and with which error.
  pub data Refused (w : World) : Err → Type 0 where
    unavailable : (e : JsError) → x.db w.tick ≡ some e → Refused w (js e)
    missing : find_live phi w.projects ≡ none → Refused w (domain (project_not_found phi))
    foreign :
        (d : ProjectDoc)
        → find_live phi w.projects ≡ some d
        → d.owner_producer_id ≢ producer_id
        → Refused w (domain project_access_forbidden)

  looked_up :
      (w : World)
      → Owned w
        ⊎ ((e : Err) × Refused w e
            × (find_owned_by_producer x env producer_id phi w ≡ (err e, ticked w)))
  unfolding find_owned_by_producer db_read
  looked_up w = elim (Option-cases (x.db w.tick)) [
    | inr (j, down) ↦ inr (js j, unavailable j down, ground (arith, down))
    | inl up ↦ elim (Option-cases (find_live phi w.projects)) [
      | inl gone ↦ inr (domain (project_not_found phi), missing gone, ground (arith, up, gone))
      | inr (d, found) ↦ elim (Bool-cases (str_eq d.owner_producer_id producer_id)) [
        | inl same ↦ inl (record {
          doc = d;
          answers = up;
          live = found;
          owner = ground (arith, same, str_eq_iff d.owner_producer_id producer_id);
        })
        | inr other ↦ inr (
          domain project_access_forbidden,
          foreign d found (ground (arith, other, str_eq_iff d.owner_producer_id producer_id)),
          ground (arith, up, found, other),
        )
      ]
    ]
  ]

  all_stopped :
      (c : OwnerCall) (w : World) (e : Err)
      → find_owned_by_producer x env producer_id phi w ≡ (err e, ticked w)
      → performed c w ≡ (some e, ticked w)
  unfolding update soft_delete add_activity update_activity remove_activity list_activities
      add_certification update_certification remove_certification list_certifications
  all_stopped (updated dto) w e h = ground (arith, h)
  all_stopped deleted w e h = ground (arith, h)
  all_stopped activities_listed w e h = ground (arith, h)
  all_stopped certifications_listed w e h = ground (arith, h)
  all_stopped (activity_added dto) w e h = ground (arith, h)
  all_stopped (activity_updated id dto) w e h = ground (arith, h)
  all_stopped (activity_removed id) w e h = ground (arith, h)
  all_stopped (certification_added dto) w e h = ground (arith, h)
  all_stopped (certification_updated id dto) w e h = ground (arith, h)
  all_stopped (certification_removed id) w e h = ground (arith, h)

  -- A producer that calls the update or the deletion of a project, or any operation on its activities or
  -- certifications, the listings included, owns the live project, or the call ends with an error and leaves the state as
  -- it was but for the count of calls. The error is the database's own when it does not answer,
  -- PROJECT_NOT_FOUND when no live project has the identifier, and PROJECT_ACCESS_FORBIDDEN when another
  -- producer owns it.
  pub performed-Owned :
      (c : OwnerCall) (w : World)
      → Owned w ⊎ ((e : Err) × Refused w e × (performed c w ≡ (some e, ticked w)))
  performed-Owned c w = elim (looked_up w) [
    | inl o ↦ inl o
    | inr (e, why, h) ↦ inr (e, why, all_stopped c w e h)
  ]
