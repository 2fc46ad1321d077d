-- ===== src/Projects/Access.antt =====
-- Who reads and changes a project (apps/coordination-hub/src/projects/projects.service.ts).
use qr_blockchain_anticounte.Prelude.{Str, str_eq_refl, ◌≡◌, none, some, true, arith}
use qr_blockchain_anticounte.Documents.{ProjectDoc}
use qr_blockchain_anticounte.World.{Outside, Env, World, ok, ticked, db_read, db_write}
use qr_blockchain_anticounte.Projects.{
  find_live, is_live, find_owned_by_producer, save_project, project_is_valid, write_project,
}
use qr_blockchain_anticounte.Projects.Store.{Stored, replaced-Stored}

module _ (x : Outside) (env : Env) where
  pub find_owned_of_owner :
      (phi : Str) (d : ProjectDoc) (w : World)
      → x.db w.tick ≡ none
      → find_live phi w.projects ≡ some d
      → find_owned_by_producer x env d.owner_producer_id phi w ≡ (ok d, ticked w)
  unfolding find_owned_by_producer db_read
  find_owned_of_owner phi d w up found = ground (arith, up, found, str_eq_refl d.owner_producer_id)

  -- A saved document is the one that its identifier finds from then on.
  pub save_project-Stored :
      (phi : Str) (d d' : ProjectDoc) (w : World)
      → x.db w.tick ≡ none
      → Stored phi w.projects d
      → d'.id ≡ d.id
      → is_live phi d' ≡ true
      → project_is_valid d' ≡ true
      → (save_project x env d' w ≡ (
        ok (record d' { updated_at = x.clock w.tick }),
        write_project (record d' { updated_at = x.clock w.tick }) (ticked w),
      ))
        × Stored phi
            (write_project (record d' { updated_at = x.clock w.tick }) (ticked w)).projects
            (record d' { updated_at = x.clock w.tick })
  unfolding save_project db_write
  save_project-Stored phi d d' w up s same live valid = (
    ground (arith, up, valid),
    replaced-Stored d (record d' { updated_at = x.clock w.tick }) same phi w.projects live s,
  )
