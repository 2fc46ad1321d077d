-- ===== src/Activities/RoundTrip.antt =====
-- What the listing of a project's activities shows after an addition
-- (apps/coordination-hub/src/activities/activities.service.ts).
use qr_blockchain_anticounte.Prelude.{ℕ, ◌+◌, Str, ◌≡◌, refl, none, [], ◌∷◌, ◌++◌, true, arith}
use qr_blockchain_anticounte.Documents.{ProjectDoc}
use qr_blockchain_anticounte.World.{Outside, Env, World, ok, ticked}
use qr_blockchain_anticounte.Projects.{project_is_valid, write_project}
use qr_blockchain_anticounte.Projects.Store.{Stored, find_live-is_live}
use qr_blockchain_anticounte.Projects.Access.{find_owned_of_owner, save_project-Stored}
use qr_blockchain_anticounte.Activities.{
  CreateActivityDto, new_activity, with_activity, add_activity, list_activities, fresh_id,
}

module _ (x : Outside) (env : Env) (quiet : (t : ℕ) → x.db t ≡ none) where
  -- When the database always answers, and the owner adds an activity to a live project that its own id
  -- finds, which the validators accept, then the addition returns the new activity's id, and a listing right
  -- after it shows the activities that were there, followed by the new one under that id.
  pub list_activities-add_activity :
      (phi : Str) (dto : CreateActivityDto) (d : ProjectDoc) (w : World)
      → Stored phi w.projects d
      → project_is_valid (with_activity (new_activity (x.new_id (w.tick + 1)) dto) d) ≡ true
      → let r = add_activity x env d.owner_producer_id phi dto w in
        (r.0 ≡ ok (x.new_id (w.tick + 1)))
        × ((list_activities x env d.owner_producer_id phi r.1).0
            ≡ ok (d.cultivation_activities ++ new_activity (x.new_id (w.tick + 1)) dto ∷ []))
  unfolding add_activity list_activities fresh_id
  list_activities-add_activity phi dto d w s valid =
      let a = new_activity (x.new_id (w.tick + 1)) dto in
      let v = ticked (ticked w) in
      let looked = find_owned_of_owner x env phi d w (quiet w.tick) s.live in
      let (ran, after) =
        save_project-Stored x env phi d (with_activity a d) v (quiet v.tick) s refl
          (find_live-is_live phi w.projects d s.live) valid in
      let saved = record (with_activity a d) { updated_at = x.clock v.tick } in
      let again =
        find_owned_of_owner x env phi saved (write_project saved (ticked v)) (quiet (v.tick + 1))
          after.live in
      (ground (arith, looked, ran), ground (arith, looked, ran, again))
