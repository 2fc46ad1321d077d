-- ===== src/Batches.antt =====
-- apps/coordination-hub/src/projects/batches/batches.service.ts: a batch of secrets, registered on the
-- chain and packed for the producer. Rendering a QR code, packing a ZIP and writing JSON are the
-- libraries' and parameters; the metadata of an audit entry is not modelled.
pub mod Entries
pub mod Growth
pub mod Registration
use qr_blockchain_anticounte.Prelude.{
  ℕ, zero, suc, ◌+◌, Str, codes, ◌++◌, Option, none, some, List, [], ◌∷◌, map, length, ◌==◌,
  if◌then◌else◌,
}
use qr_blockchain_anticounte.Documents.{ProducerDoc, AuditEntry, AuditAction, batch_register}
use qr_blockchain_anticounte.World.{
  Outside, Env, World, M, pure, throw, catching, gets, db_write, ◌>>=◌, ◌>>◌,
}
use qr_blockchain_anticounte.Dates.{decimal}
use qr_blockchain_anticounte.Hashing.{generate_sid, hash_sid_text}
use qr_blockchain_anticounte.Logs.{truthy}
use qr_blockchain_anticounte.Producers.{find_by_id}
use qr_blockchain_anticounte.Projects.{find_owned_by_producer, owner_key_of}
use qr_blockchain_anticounte.Contract.{register_batch_call}

pub record BatchManifestEntry : Type 0 where
  pub filename : Str
  pub secret_id : Str
  pub hash : Str

-- `generatedAt` is kept as its time
pub record BatchManifest : Type 0 where
  pub phi : Str
  pub count : ℕ
  pub generated_at : ℕ
  pub tx_hash : Option Str
  pub public_qr_target : Str
  pub entries : List BatchManifestEntry

pub record ZipEntry : Type 0 where
  pub name : Str
  pub data_of : List ℕ

pub record GeneratedBatch : Type 0 where
  pub zip_buffer : List ℕ
  pub manifest : BatchManifest
  pub tx_hash : Option Str

-- `padStart(3, '0')`
abbrev pub pad_3 : Str → Str
pad_3 [] = codes "000"
pad_3 (a ∷ []) = codes "00" ++ a ∷ []
pad_3 (a ∷ b ∷ []) = codes "0" ++ a ∷ b ∷ []
pad_3 (a ∷ b ∷ c ∷ s) = a ∷ b ∷ c ∷ s

-- `replace(/\/$/, '')`
unfoldable pub without_last_slash : Str → Str
without_last_slash [] = []
without_last_slash (a ∷ []) = if a == b'/' then [] else a ∷ []
without_last_slash (a ∷ b ∷ s) = a ∷ without_last_slash (b ∷ s)

-- an empty base counts as none
unfoldable pub public_target : (base : Option Str) → (phi : Str) → Str
public_target none phi = codes "qrbc://public/" ++ phi
public_target (some []) phi = codes "qrbc://public/" ++ phi
public_target (some (c ∷ base)) phi = without_last_slash (c ∷ base) ++ (codes "/projects/" ++ phi)

unfoldable pub private_target : (base : Option Str) → (phi sid : Str) → Str
private_target none phi sid = codes "qrbc://scan/" ++ (phi ++ (codes "/" ++ sid))
private_target (some []) phi sid = codes "qrbc://scan/" ++ (phi ++ (codes "/" ++ sid))
private_target (some (c ∷ base)) phi sid =
    without_last_slash (c ∷ base) ++ (codes "/scan/" ++ (phi ++ (codes "/" ++ sid)))

-- The entries from an index on, the secrets and their hashes in the same order.
unfoldable pub entries_from : (index : ℕ) → (sids hashes : List Str) → List BatchManifestEntry
entries_from i [] hashes = []
entries_from i (s ∷ sids) [] = []
entries_from i (s ∷ sids) (h ∷ hashes) =
    record {
      filename = codes "private_" ++ (pad_3 (decimal (i + 1)) ++ codes ".png");
      secret_id = s;
      hash = h;
    }
    ∷ entries_from (i + 1) sids hashes

abbrev pub append_audit : AuditEntry → World → World
append_audit e w = record w { audit = w.audit ++ e ∷ [] }

module _ (x : Outside) (env : Env) (to_png : Str → List ℕ) (build_zip : List ZipEntry → List ℕ)
    (to_json : BatchManifest → List ℕ) where
  -- `audit.record` of apps/coordination-hub/src/observability/audit-log.service.ts
  unfoldable pub audit_record : (actor : Str) → AuditAction → (target : Str) → M (Unit {0})
  audit_record actor action target v =
      db_write x
        (append_audit (record {
          actor = actor;
          action = action;
          target = if length target == 0 then none else some target;
          timestamp = x.clock v.tick;
        }))
        v

  unfoldable pub generate_sids : (n : ℕ) → M (List Str)
  generate_sids zero = pure []
  generate_sids (suc n) = do s ← generate_sid x 32; rest ← generate_sids n; pure (s ∷ rest)

  unfoldable pub hash_sids : List Str → M (List Str)
  hash_sids [] = pure []
  hash_sids (s ∷ sids) = do h ← hash_sid_text x s; rest ← hash_sids sids; pure (h ∷ rest)

  unfoldable pub private_png : (base : Option Str) → (phi : Str) → BatchManifestEntry → ZipEntry
  private_png base phi e = record {
    name = e.filename;
    data_of = to_png (private_target base phi e.secret_id);
  }

  -- what is packed
  unfoldable pub packed : (base : Option Str) → BatchManifest → List ZipEntry
  packed base m =
      record { name = codes "public.png"; data_of = to_png m.public_qr_target }
      ∷ (map (private_png base m.phi) m.entries
          ++ record { name = codes "manifest.json"; data_of = to_json m } ∷ [])

  -- A failed registration is recorded and thrown again.
  unfoldable pub register_or_audit : ProducerDoc → (phi : Str) → (hashes : List Str) → M Str
  register_or_audit producer phi hashes =
      catching (register_batch_call x env phi hashes (owner_key_of x env producer))
        (λ e. audit_record producer.id batch_register phi >> throw e)

  abbrev pub manifest_of :
      (phi : Str)
      → (n : ℕ) → (base : Option Str) → (sids hashes : List Str) → (tx_hash : Str) → (now : ℕ)
      → BatchManifest
  manifest_of phi n base sids hashes tx_hash now = record {
    phi = phi;
    count = n;
    generated_at = now;
    tx_hash = truthy (some tx_hash);
    public_qr_target = public_target base phi;
    entries = entries_from 0 sids hashes;
  }

  abbrev pub packed_batch : (base : Option Str) → (tx_hash : Str) → BatchManifest → GeneratedBatch
  packed_batch base tx_hash manifest = record {
    zip_buffer = build_zip (packed base manifest);
    manifest = manifest;
    tx_hash = truthy (some tx_hash);
  }

  -- What follows the registration.
  unfoldable pub pack_batch :
      ProducerDoc
      → (phi : Str) → (n : ℕ) → (base : Option Str) → (sids hashes : List Str) → (tx_hash : Str)
      → M GeneratedBatch
  pack_batch producer phi n base sids hashes tx_hash = do
    now ← gets (λ w. x.clock w.tick)
    audit_record producer.id batch_register phi
    pure (packed_batch base tx_hash (manifest_of phi n base sids hashes tx_hash now))

  unfoldable pub generate :
      (producer_id phi : Str) → (n : ℕ) → (dapp_base_url : Option Str) → M GeneratedBatch
  generate producer_id phi n base = do
    producer ← find_by_id x producer_id
    find_owned_by_producer x env producer_id phi
    sids ← generate_sids n
    hashes ← hash_sids sids
    tx_hash ← register_or_audit producer phi hashes
    pack_batch producer phi n base sids hashes tx_hash
