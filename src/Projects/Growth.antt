-- ===== src/Projects/Growth.antt =====
-- The queries of the collection of projects leave the registry alone.
use qr_blockchain_anticounte.Prelude.{Str, str_eq, Option, none, some, if◌then◌else◌}
use qr_blockchain_anticounte.Errors.{domain, project_not_found, project_access_forbidden}
use qr_blockchain_anticounte.Documents.{ProjectDoc}
use qr_blockchain_anticounte.World.{Outside, Env, M, pure, throw, db_read}
use qr_blockchain_anticounte.World.Laws.{
  Grows, bind-Grows, pure-Grows, throw-Grows, db_read-Grows, if-Grows,
}
use qr_blockchain_anticounte.Projects.{find_owned_by_producer, find_live}

module _ (x : Outside) (env : Env) where
  pub find_owned_by_producer-Grows :
      (producer_id phi : Str) → Grows (find_owned_by_producer x env producer_id phi)
  unfolding find_owned_by_producer
  find_owned_by_producer-Grows producer_id phi =
      bind-Grows (db_read x (λ w. find_live phi w.projects)) _ (db_read-Grows x _) λ doc. owned doc
    where
      owned :
          (doc : Option ProjectDoc)
          → Grows (elim doc as (λ _. M ProjectDoc) [
            | none ↦ throw (domain (project_not_found phi))
            | some d ↦
                if str_eq d.owner_producer_id producer_id
                then pure d
                else throw (domain project_access_forbidden)
          ])
      owned none = throw-Grows ProjectDoc _
      owned (some d) =
          if-Grows {A = ProjectDoc} _ (pure d) _ (pure-Grows d) (throw-Grows ProjectDoc _)
