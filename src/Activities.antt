-- ===== src/Activities.antt =====
-- apps/coordination-hub/src/activities/activities.service.ts: the cultivation activities that a
-- producer keeps in a project of its own.
pub mod RoundTrip
use qr_blockchain_anticounte.Prelude.{
  ℕ, Str, Option, none, some, List, [], ◌∷◌, ◌++◌, get_or, or_else,
}
use qr_blockchain_anticounte.Errors.{domain, activity_not_found}
use qr_blockchain_anticounte.Documents.{ProjectDoc, CultivationActivity, ActivityType}
use qr_blockchain_anticounte.World.{Outside, Env, M, ok, err, pure, throw, ◌>>=◌, ◌>>◌, ticked}
use qr_blockchain_anticounte.Projects.{find_owned_by_producer, save_project}
use qr_blockchain_anticounte.Subdocs.{sub_by_id, change_sub, remove_sub}

pub record CreateActivityDto : Type 0 where
  pub type : ActivityType
  pub activity_date : ℕ
  pub name : Str
  pub description : Str
  pub materials : Option (List Str)
  pub note : Option Str

pub record UpdateActivityDto : Type 0 where
  pub type : Option ActivityType
  pub activity_date : Option ℕ
  pub name : Option Str
  pub description : Option Str
  pub materials : Option (List Str)
  pub note : Option Str

abbrev pub activity_id : CultivationActivity → Str
activity_id a = a.id

abbrev pub new_activity : (id : Str) → CreateActivityDto → CultivationActivity
new_activity id dto = record {
  id = id;
  type = dto.type;
  activity_date = dto.activity_date;
  name = dto.name;
  description = dto.description;
  materials = some (get_or [] dto.materials);
  note = dto.note;
}

-- `Object.assign(subdoc, dto)`
abbrev pub assign_activity : UpdateActivityDto → CultivationActivity → CultivationActivity
assign_activity u a = record a {
  type = get_or a.type u.type;
  activity_date = get_or a.activity_date u.activity_date;
  name = get_or a.name u.name;
  description = get_or a.description u.description;
  materials = or_else u.materials a.materials;
  note = or_else u.note a.note;
}

abbrev pub with_activity : CultivationActivity → ProjectDoc → ProjectDoc
with_activity a d = record d { cultivation_activities = d.cultivation_activities ++ a ∷ [] }

abbrev pub changed_activity : (id : Str) → UpdateActivityDto → ProjectDoc → ProjectDoc
changed_activity id u d = record d {
  cultivation_activities = change_sub activity_id id (assign_activity u) d.cultivation_activities;
}

abbrev pub without_activity : (id : Str) → ProjectDoc → ProjectDoc
without_activity id d = record d {
  cultivation_activities = remove_sub activity_id id d.cultivation_activities;
}

module _ (x : Outside) (env : Env) where
  -- the id that mongoose gives a new embedded document
  unfoldable pub fresh_id : M Str
  fresh_id w = (ok (x.new_id w.tick), ticked w)

  unfoldable pub add_activity : (producer_id phi : Str) → CreateActivityDto → M Str
  add_activity producer_id phi dto = do
    doc ← find_owned_by_producer x env producer_id phi
    id ← fresh_id
    save_project x env (with_activity (new_activity id dto) doc)
    pure id

  abbrev pub found_activity : (id : Str) → Option CultivationActivity → M (Unit {0})
  found_activity id none = throw (domain (activity_not_found id))
  found_activity id (some _) = pure tt

  unfoldable pub update_activity :
      (producer_id phi activity : Str) → UpdateActivityDto → M (Unit {0})
  update_activity producer_id phi activity dto = do
    doc ← find_owned_by_producer x env producer_id phi
    found_activity activity (sub_by_id activity_id activity doc.cultivation_activities)
    save_project x env (changed_activity activity dto doc)
    pure tt

  unfoldable pub remove_activity : (producer_id phi activity : Str) → M (Unit {0})
  remove_activity producer_id phi activity = do
    doc ← find_owned_by_producer x env producer_id phi
    found_activity activity (sub_by_id activity_id activity doc.cultivation_activities)
    save_project x env (without_activity activity doc)
    pure tt

  unfoldable pub list_activities : (producer_id phi : Str) → M (List CultivationActivity)
  list_activities producer_id phi = do
    doc ← find_owned_by_producer x env producer_id phi
    pure doc.cultivation_activities
