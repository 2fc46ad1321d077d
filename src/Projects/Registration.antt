-- ===== src/Projects/Registration.antt =====
-- A project that is created is on the chain
-- (apps/coordination-hub/src/projects/projects.service.ts).
use qr_blockchain_anticounte.Prelude.{ℕ, zero, suc, Str, codes, ◌≡◌, refl, sym, subst, false, not}
use qr_blockchain_anticounte.Errors.{Err, js, plain_error}
use qr_blockchain_anticounte.Documents.{ProjectDoc}
use qr_blockchain_anticounte.Registry.{Storage}
use qr_blockchain_anticounte.Registry.Monotone.{Extends-refl}
use qr_blockchain_anticounte.World.{
  Outside, Env, World, M, pure, throw, ◌>>=◌, ◌>>◌, gets, throw_unless, catching, db_read, db_write,
}
use qr_blockchain_anticounte.World.Laws.{
  Grows, bind-Grows, pure-Grows, throw-Grows, gets-Grows, db_read-Grows, db_write-Grows,
  throw_unless-Grows, if-Grows, catching-Grows,
}
use qr_blockchain_anticounte.World.Reaching.{
  Reaches, IsClosed, later-Reaches, here-Reaches, catching-Reaches, throw-Reaches, both-Reaches,
  weaken-Reaches, pure-Reaches, value-IsClosed,
}
use qr_blockchain_anticounte.Wallet.{EncryptedKey}
use qr_blockchain_anticounte.Producers.{find_by_id}
use qr_blockchain_anticounte.Producers.Growth.{find_by_id-Grows}
use qr_blockchain_anticounte.Contract.{project_exists_call, register_project_call}
use qr_blockchain_anticounte.Contract.Growth.{project_exists_call-Grows}
use qr_blockchain_anticounte.Contract.Registered.{
  Created, Created-IsClosed, register_project_call-Created, register_project_call-Grows,
}
use qr_blockchain_anticounte.Projects.{
  CreateProjectDto, create, insert_project, generate_unique_phi, random_phi, new_project,
  project_is_valid, is_new_phi, append_project, wrap_registration, owner_key_of, max_phi_retries,
}

module _ (x : Outside) (env : Env) where
  random_phi-Grows : Grows (random_phi x env)
  unfolding random_phi
  random_phi-Grows = record { grows = λ w. Extends-refl w.registry }

  generate_unique_phi-Grows : (rounds : ℕ) → Grows (generate_unique_phi x env rounds)
  unfolding generate_unique_phi
  generate_unique_phi-Grows zero = throw-Grows Str _
  generate_unique_phi-Grows (suc rounds) =
      let again = generate_unique_phi-Grows rounds in
      bind-Grows (random_phi x env) _ random_phi-Grows λ phi.
        bind-Grows (db_read x (λ w. not (is_new_phi phi w.projects))) _ (db_read-Grows x _) λ there.
          if-Grows {A = Str} there (generate_unique_phi x env rounds) _ again (
            bind-Grows (catching (project_exists_call x env phi) (λ _. pure false)) _
              (catching-Grows (project_exists_call x env phi) (λ _. pure false)
                (project_exists_call-Grows x env phi) (λ _. pure-Grows false))
              λ on_chain.
                if-Grows {A = Str} on_chain (generate_unique_phi x env rounds) (pure phi) again
                  (pure-Grows phi))

  abbrev Binds : ProjectDoc → Storage → Storage → Type 0
  Binds d s s' = Created x d.project_id s s'

  Binds-IsClosed : IsClosed Binds
  Binds-IsClosed = record {
    before = λ d g k. (Created-IsClosed x {A = ProjectDoc} d.project_id).before d g k;
    after = λ d k g. (Created-IsClosed x {A = ProjectDoc} d.project_id).after d k g;
  }

  module _ (phi owner : Str) (dto : CreateProjectDto) where
    abbrev Names : ProjectDoc → Type 0
    Names d = d.project_id ≡ phi

    abbrev duplicate : Err
    duplicate = js (plain_error (codes "E11000 duplicate key error"))

    -- the insertion of the document of a moment
    abbrev inserting : ProjectDoc → M ProjectDoc
    inserting doc = do
      throw_unless (project_is_valid doc) (js (plain_error (codes "Project validation failed")))
      unique ← gets (λ w. is_new_phi phi w.projects)
      throw_unless unique duplicate
      db_write x (append_project doc)
      pure doc

    inserting-Grows : (doc : ProjectDoc) → Grows (inserting doc)
    inserting-Grows doc = bind-Grows (throw_unless _ _) _ (throw_unless-Grows _ _) λ _.
        bind-Grows (gets (λ w. is_new_phi phi w.projects)) _ (gets-Grows _) λ unique.
          bind-Grows (throw_unless unique duplicate) _ (throw_unless-Grows unique duplicate) λ _.
            bind-Grows (db_write x (append_project doc)) (λ _. pure doc)
              (db_write-Grows x _ (λ w. refl)) λ _. pure-Grows doc

    inserting-Names : (doc : ProjectDoc) → Names doc → Reaches (λ d _ _. Names d) (inserting doc)
    inserting-Names doc named =
        let closed = value-IsClosed Names in
        later-Reaches _ closed (throw_unless _ _) _ (throw_unless-Grows _ _) λ _.
          later-Reaches _ closed (gets (λ w. is_new_phi phi w.projects)) _ (gets-Grows _) λ unique.
            later-Reaches _ closed (throw_unless unique duplicate) _
              (throw_unless-Grows unique duplicate)
              λ _.
                later-Reaches _ closed (db_write x (append_project doc)) (λ _. pure doc)
                  (db_write-Grows x _ (λ w. refl)) λ _. pure-Reaches _ doc (λ s. named)

    abbrev doc_at : (tx_hash : Str) → World → ProjectDoc
    doc_at tx_hash v = new_project x env phi owner tx_hash (x.new_id v.tick) (x.clock v.tick) dto

    insert_project-Grows : (tx_hash : Str) → Grows (insert_project x env phi owner tx_hash dto)
    unfolding insert_project
    insert_project-Grows tx_hash = record {
      grows = λ v. (inserting-Grows (doc_at tx_hash v)).grows v;
    }

    insert_project-Names :
        (tx_hash : Str) → Reaches (λ d _ _. Names d) (insert_project x env phi owner tx_hash dto)
    unfolding insert_project
    insert_project-Names tx_hash = record {
      reaches = λ w d w' e. (inserting-Names (doc_at tx_hash w) refl).reaches w d w' e;
    }

    module _ (key : EncryptedKey) where
      abbrev registering : M Str
      registering =
          catching (register_project_call x env phi key) (λ e. throw (wrap_registration x env e))

      abbrev storing : Str → M ProjectDoc
      storing tx_hash = insert_project x env phi owner tx_hash dto

      registering-Grows : Grows registering
      registering-Grows =
          catching-Grows (register_project_call x env phi key) _
            (register_project_call-Grows x env phi key) (λ e. throw-Grows Str _)

      registering-Created : Reaches (λ _. Created x phi) registering
      registering-Created =
          catching-Reaches _ (Created-IsClosed x phi) (register_project_call x env phi key) _
            (register_project_call-Grows x env phi key)
            (register_project_call-Created x env phi key) (λ e. throw-Reaches _ _)

      tail-Binds : Reaches Binds (registering >>= storing)
      tail-Binds =
          weaken-Reaches _ (λ d s s'. Created x phi s s' × Names d) (registering >>= storing)
            (λ d s s' (k, named). subst (λ z. Created x z s s') (sym named) k)
            (both-Reaches _ _ (registering >>= storing)
              (here-Reaches (Created x phi) (Created-IsClosed x phi) registering storing
                registering-Created insert_project-Grows)
              (later-Reaches _ (value-IsClosed Names) registering storing registering-Grows
                insert_project-Names))

  -- A project that `create` returns is on the chain: its identifier codes a word under which there was
  -- no project when the call began, and under which a project is bound to a producer when it ends.
  pub create-Created :
      (producer_id : Str) (dto : CreateProjectDto)
      → Reaches (λ d. Created x d.project_id) (create x env producer_id dto)
  unfolding create
  create-Created producer_id dto =
      later-Reaches _ Binds-IsClosed (find_by_id x producer_id) _ (find_by_id-Grows x producer_id)
        λ producer.
          later-Reaches _ Binds-IsClosed (generate_unique_phi x env max_phi_retries) _
            (generate_unique_phi-Grows max_phi_retries)
            λ phi. tail-Binds phi producer.id dto (owner_key_of x env producer)
