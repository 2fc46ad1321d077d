-- ===== src/Projects.antt =====
-- apps/coordination-hub/src/projects/projects.service.ts: the operations on the
-- off-chain record of a project, kept in step with the registry. Schema has its data.
mod Schema
pub mod Metadata
pub mod Store
pub mod Access
pub mod Ownership
pub mod Deletion
pub mod Growth
pub mod Registration
unfoldable pub use Schema.*
use qr_blockchain_anticounte.Prelude.{
  ℕ, zero, suc, ◌+◌, ◌-◌, ◌*◌, Str, codes, str_eq, none, some, [], ◌∷◌, ◌++◌, true, false, not,
  ◌&&◌, ◌||◌, filter_by, length, take, drop, ◌==◌, if◌then◌else◌,
}
use qr_blockchain_anticounte.Errors.{
  Err, domain, http, js, plain_error, project_not_found, project_access_forbidden, phi_collision,
  on_chain_registration_failed,
}
use qr_blockchain_anticounte.Documents.{ProjectDoc, in_progress, ProducerDoc}
use qr_blockchain_anticounte.World.{
  Outside, Env, M, ok, pure, throw, catching, gets, throw_unless, db_read, db_write, ticked, ◌>>=◌,
  ◌>>◌,
}
use qr_blockchain_anticounte.Hex.{bytes_to_hex}
use qr_blockchain_anticounte.Wallet.{EncryptedKey}
use qr_blockchain_anticounte.Producers.{find_by_id}
use qr_blockchain_anticounte.Contract.{project_exists_call, register_project_call}

module _ (x : Outside) (env : Env) where
  unfoldable pub save_project : ProjectDoc → M ProjectDoc
  save_project d v =
      (do
        throw_unless (project_is_valid d) (js (plain_error (codes "Project validation failed")))
        db_write x (write_project (record d { updated_at = x.clock v.tick }))
        pure (record d { updated_at = x.clock v.tick }))
        v

  unfoldable pub find_owned_by_producer : (producer_id phi : Str) → M ProjectDoc
  find_owned_by_producer producer_id phi = do
    doc ← db_read x (λ w. find_live phi w.projects)
    elim doc [
      | none ↦ throw (domain (project_not_found phi))
      | some d ↦
          if str_eq d.owner_producer_id producer_id
          then pure d
          else throw (domain project_access_forbidden)
    ]

  -- An error of the registry counts as "exists".
  unfoldable pub find_public : (phi : Str) → M ProjectDoc
  find_public phi = do
    doc ← db_read x (λ w. find_live phi w.projects)
    elim doc [
      | none ↦ throw (domain (project_not_found phi))
      | some d ↦
          if not (is_public_status d.status) then throw (domain (project_not_found phi)) else do
            exists_on_chain ← catching (project_exists_call x env phi) (λ _. pure true)
            if exists_on_chain then pure d else throw (domain (project_not_found phi))
    ]

  unfoldable pub update : (producer_id phi : Str) → UpdateProjectDto → M ProjectDoc
  update producer_id phi dto = do
    doc ← find_owned_by_producer producer_id phi
    save_project (assign_project doc dto)

  unfoldable pub soft_delete : (producer_id phi : Str) → M (Unit {0})
  soft_delete producer_id phi = do
    doc ← find_owned_by_producer producer_id phi
    now ← gets (λ w. x.clock w.tick)
    save_project (record doc { is_deleted = true; deleted_at = some now })
    pure tt

  unfoldable pub list_projects : (producer_id : Str) → ListProjectsQuery → M ProjectPage
  list_projects producer_id query = do
    found ← db_read x (λ w. newest_first (filter_by (wanted producer_id query.status) w.projects))
    counted ← db_read x (λ w. length (filter_by (wanted producer_id query.status) w.projects))
    pure (record {
      items = take query.page_size (drop ((query.page - 1) * query.page_size) found);
      total = counted;
      page = query.page;
      page_size = query.page_size;
    })

  -- `randomPhi`
  unfoldable pub random_phi : M Str
  random_phi w = (ok (bytes_to_hex (x.random w.tick 32)), ticked w)

  -- The rounds of `generateUniquePhi` that are left; an error of the probe counts as "free".
  unfoldable pub generate_unique_phi : (rounds : ℕ) → M Str
  generate_unique_phi zero = throw (domain phi_collision)
  generate_unique_phi (suc rounds) =
      let again = generate_unique_phi rounds in
      do
        phi ← random_phi
        db_exists ← db_read x (λ w. not (is_new_phi phi w.projects))
        if db_exists then again else do
          chain_exists ← catching (project_exists_call x env phi) (λ _. pure false)
          if chain_exists then again else pure phi

  -- what `create` throws when `registerProject` fails
  abbrev pub wrap_registration : Err → Err
  wrap_registration (domain d) = domain d
  wrap_registration (http s) = domain (on_chain_registration_failed (codes "http"))
  wrap_registration (js e) = domain (on_chain_registration_failed (reason_of e))

  abbrev pub new_project : (phi owner tx_hash id : Str) → (now : ℕ) → CreateProjectDto → ProjectDoc
  new_project phi owner tx_hash id now dto = record {
    id = id;
    project_id = phi;
    owner_producer_id = owner;
    cooperative_name = dto.cooperative_name;
    vegetable_type = dto.vegetable_type;
    cultivation_location = dto.cultivation_location;
    start_date = dto.start_date;
    harvest_date = dto.harvest_date;
    cultivation_area = dto.cultivation_area;
    expected_output = dto.expected_output;
    description = dto.description;
    cultivation_activities = [];
    certifications = [];
    image_urls = [];
    status = in_progress;
    is_deleted = false;
    deleted_at = none;
    tx_hash_register_project = some tx_hash;
    created_at = now;
    updated_at = now;
  }

  -- `projectModel.create`: the validators, the unique index on projectId, the insertion
  unfoldable pub insert_project : (phi owner tx_hash : Str) → CreateProjectDto → M ProjectDoc
  insert_project phi owner tx_hash dto v =
      let doc = new_project phi owner tx_hash (x.new_id v.tick) (x.clock v.tick) dto in
      (do
        throw_unless (project_is_valid doc) (js (plain_error (codes "Project validation failed")))
        unique ← gets (λ w. is_new_phi phi w.projects)
        throw_unless unique (js (plain_error (codes "E11000 duplicate key error")))
        db_write x (append_project doc)
        pure doc)
        v

  abbrev pub owner_key_of : ProducerDoc → EncryptedKey
  owner_key_of p = record {
    ciphertext = p.encrypted_private_key;
    iv = p.encryption_iv;
    auth_tag = p.encryption_auth_tag;
  }

  -- The registry first; the document is written only after the transaction has been confirmed.
  unfoldable pub create : (producer_id : Str) → CreateProjectDto → M ProjectDoc
  create producer_id dto = do
    producer ← find_by_id x producer_id
    phi ← generate_unique_phi max_phi_retries
    tx_hash ←
        catching (register_project_call x env phi (owner_key_of producer))
          (λ e. throw (wrap_registration e))
    insert_project phi producer.id tx_hash dto
