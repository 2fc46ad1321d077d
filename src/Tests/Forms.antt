-- ===== src/Tests/Forms.antt =====
-- Requests that the schemas accept, and the farmer's project.
use qr_blockchain_anticounte.Prelude.{codes, ◌≡◌, refl, true, some, none}
use qr_blockchain_anticounte.Fixtures.{calm, settings, farmer, field, phi_text}
use qr_blockchain_anticounte.Projects.{project_is_valid, new_project}
use qr_blockchain_anticounte.Requests.Tiers.{
  changed, activity_updated, project_is_valid-changed, new_project-accepted,
}
use qr_blockchain_anticounte.Requests.{create_project_is_accepted, update_activity_is_accepted}
use qr_blockchain_anticounte.Activities.{UpdateActivityDto}
use qr_blockchain_anticounte.Tests.Scans.{running}
use qr_blockchain_anticounte.Tests.Calm.{spring}

field_valid : project_is_valid field ≡ true
unfolding running project_is_valid
field_valid = refl

spring_accepted : create_project_is_accepted spring ≡ true
unfolding create_project_is_accepted
spring_accepted = refl

abbrev sprayed : UpdateActivityDto
sprayed = record {
  type = none;
  activity_date = none;
  name = some (codes "Spraying");
  description = none;
  materials = none;
  note = none;
}

sprayed_accepted : update_activity_is_accepted sprayed ≡ true
unfolding update_activity_is_accepted
sprayed_accepted = refl

project_is_valid-changed_example :
    project_is_valid (changed (activity_updated (codes "a1") sprayed) field) ≡ true
project_is_valid-changed_example =
    project_is_valid-changed (λ _. true) (activity_updated (codes "a1") sprayed) field field_valid
      sprayed_accepted

new_project-accepted_example :
    project_is_valid (new_project calm settings phi_text farmer.id phi_text farmer.id 0 spring)
    ≡ true
unfolding running
new_project-accepted_example =
    new_project-accepted calm settings phi_text farmer.id phi_text farmer.id 0 spring
      spring_accepted refl refl
