-- ===== src/Batches/Registration.antt =====
-- A batch that is handed to the producer is on the chain
-- (apps/coordination-hub/src/projects/batches/batches.service.ts).
use qr_blockchain_anticounte.Prelude.{
  ℕ, ◌+◌, Str, codes, ◌++◌, ◌≡◌, refl, sym, ap, subst, Option, some, true, List, [], ◌∷◌, arith,
  All,
}
use qr_blockchain_anticounte.Documents.{ProducerDoc, batch_register}
use qr_blockchain_anticounte.Registry.{Storage}
use qr_blockchain_anticounte.Registry.Monotone.{Extends}
use qr_blockchain_anticounte.World.{Outside, Env, World, M, ok, throw, ◌>>=◌, gets}
use qr_blockchain_anticounte.World.Laws.{Grows, bind-Grows, throw-Grows, gets-Grows, catching-Grows}
use qr_blockchain_anticounte.World.Reaching.{
  Reaches, IsClosed, later-Reaches, here-Reaches, catching-Reaches, throw-Reaches, given-Reaches,
  both-Reaches, weaken-Reaches, pure-Reaches, value-IsClosed,
}
use qr_blockchain_anticounte.Batches.Entries.{sid_bytes}
use qr_blockchain_anticounte.Hashing.{hash_sid_text}
use qr_blockchain_anticounte.Producers.{find_by_id}
use qr_blockchain_anticounte.Producers.Growth.{find_by_id-Grows}
use qr_blockchain_anticounte.Projects.{find_owned_by_producer, owner_key_of}
use qr_blockchain_anticounte.Projects.Growth.{find_owned_by_producer-Grows}
use qr_blockchain_anticounte.Contract.{register_batch_call}
use qr_blockchain_anticounte.Contract.Registered.{
  Holds, Holds-IsClosed, register_batch_call-Holds, register_batch_call-Grows,
}
use qr_blockchain_anticounte.Batches.{
  BatchManifestEntry, BatchManifest, ZipEntry, GeneratedBatch, entries_from, generate_sids,
  hash_sids, register_or_audit, audit_record, pack_batch, packed_batch, manifest_of, generate,
}
use qr_blockchain_anticounte.Batches.Growth.{
  audit_record-Grows, generate_sids-Grows, hash_sids-Grows, pack_batch-Grows,
}
use qr_blockchain_anticounte.Batches.Entries.{entries_from-hash_sids, hash_of_hashed}

-- noble's hexadecimal of a digest is the text that ethers' coder reads as that word.
pub record IsDigest (x : Outside) : Type 0 where
  pub word :
      (bs : List ℕ) → x.bytes32 (codes "0x" ++ x.digest_hex (x.sha256 bs)) ≡ some (x.sha256 bs)

module _ (x : Outside) (env : Env) (to_png : Str → List ℕ) (build_zip : List ZipEntry → List ℕ)
    (to_json : BatchManifest → List ℕ) where
  -- the products of the entries' secrets are on the chain, under the project
  pub record OnChain (phi : Str) (es : List BatchManifestEntry) (s : Storage) : Type 0 where
    pub word : ℕ
    pub coded : x.bytes32 phi ≡ some word
    pub project : (s.projects word).exists ≡ true
    pub products :
        All
          (λ (e : BatchManifestEntry).
            (s.products word (x.sha256 (sid_bytes x e.secret_id))).exists ≡ true)
          es

  entries_products :
      (digest : IsDigest x) (p i : ℕ) (sids hashes : List Str) (w : World) (s : Storage)
      → All
          (λ (e : BatchManifestEntry). hash_sid_text x e.secret_id w ≡ (ok e.hash, w))
          (entries_from i sids hashes)
      → All
          (λ (h : Str). (g : ℕ) × (x.bytes32 h ≡ some g) × ((s.products p g).exists ≡ true))
          hashes
      → All
          (λ (e : BatchManifestEntry).
            (s.products p (x.sha256 (sid_bytes x e.secret_id))).exists ≡ true)
          (entries_from i sids hashes)
  unfolding entries_from
  entries_products digest p i [] hashes w s r a = tt
  entries_products digest p i (sid ∷ sids) [] w s r a = tt
  entries_products digest p i (sid ∷ sids) (h ∷ hashes) w s (e, r) ((g, coded, there), a) = (
    ground (
      arith,
      digest.word (sid_bytes x sid),
      ap x.bytes32 (hash_of_hashed x sid h w w e),
      coded,
      there,
    ),
    entries_products digest p (i + 1) sids hashes w s r a,
  )

  kept_entries :
      (p : ℕ) (es : List BatchManifestEntry) {s s' : Storage}
      → Extends s s'
      → All
          (λ (e : BatchManifestEntry).
            (s.products p (x.sha256 (sid_bytes x e.secret_id))).exists ≡ true)
          es
      → All
          (λ (e : BatchManifestEntry).
            (s'.products p (x.sha256 (sid_bytes x e.secret_id))).exists ≡ true)
          es
  kept_entries p [] g a = tt
  kept_entries p (e ∷ es) g (k, a) = (g.kept p _ k, kept_entries p es g a)

  abbrev registered : ProducerDoc → (phi : Str) → List Str → M Str
  registered = register_or_audit x env to_png build_zip to_json

  register_or_audit-Grows :
      (producer : ProducerDoc) (phi : Str) (hashes : List Str)
      → Grows (registered producer phi hashes)
  unfolding register_or_audit
  register_or_audit-Grows producer phi hashes =
      catching-Grows (register_batch_call x env phi hashes (owner_key_of x env producer)) _
        (register_batch_call-Grows x env phi hashes _)
        λ e.
          bind-Grows (audit_record x env to_png build_zip to_json producer.id batch_register phi)
            (λ _. throw e)
            (audit_record-Grows x env to_png build_zip to_json producer.id batch_register phi)
            (λ _. throw-Grows _ e)

  register_or_audit-Holds :
      (producer : ProducerDoc) (phi : Str) (hashes : List Str)
      → Reaches (λ _ _ s'. Holds x phi hashes s') (registered producer phi hashes)
  unfolding register_or_audit
  register_or_audit-Holds producer phi hashes =
      let call = register_batch_call x env phi hashes (owner_key_of x env producer) in
      catching-Reaches _ (Holds-IsClosed x phi hashes) call _
        (register_batch_call-Grows x env phi hashes _)
        (register_batch_call-Holds x env phi hashes _)
        λ e.
          later-Reaches _ (Holds-IsClosed x phi hashes)
            (audit_record x env to_png build_zip to_json producer.id batch_register phi)
            (λ _. throw e)
            (audit_record-Grows x env to_png build_zip to_json producer.id batch_register phi)
            (λ _. throw-Reaches _ e)

  module _ (digest : IsDigest x) where
    abbrev Answers : (phi : Str) → GeneratedBatch → Storage → Storage → Type 0
    Answers phi g s s' = OnChain phi g.manifest.entries s'

    Answers-IsClosed : (phi : Str) → IsClosed (Answers phi)
    Answers-IsClosed phi = record {
      before = λ a g k. k;
      after = λ a k g. record {
        word = k.word;
        coded = k.coded;
        project = ground (arith, g.bound k.word k.project, k.project);
        products = kept_entries k.word a.manifest.entries g k.products;
      };
    }

    module _ (producer : ProducerDoc) (phi : Str) (n : ℕ) (base : Option Str)
        (sids hashes : List Str) where
      abbrev pack : Str → M GeneratedBatch
      pack = pack_batch x env to_png build_zip to_json producer phi n base sids hashes

      abbrev Lists : GeneratedBatch → Type 0
      Lists g = g.manifest.entries ≡ entries_from 0 sids hashes

      pack-Lists : (tx_hash : Str) → Reaches (λ g _ _. Lists g) (pack tx_hash)
      unfolding pack_batch
      pack-Lists tx_hash =
          later-Reaches _ (value-IsClosed Lists) (gets (λ w. x.clock w.tick)) _ (gets-Grows _)
            λ now.
              later-Reaches _ (value-IsClosed Lists)
                (audit_record x env to_png build_zip to_json producer.id batch_register phi) _
                (audit_record-Grows x env to_png build_zip to_json producer.id batch_register phi)
                λ _.
                  pure-Reaches _
                    (packed_batch x env to_png build_zip to_json base tx_hash (
                      manifest_of x env to_png build_zip to_json phi n base sids hashes tx_hash
                        now))
                    (λ s. refl)

      finish-Answers :
          (w w' : World)
          → hash_sids x env to_png build_zip to_json sids w ≡ (ok hashes, w')
          → Reaches (Answers phi) (registered producer phi hashes >>= pack)
      finish-Answers w w' run =
          let paired =
            entries_from-hash_sids x env to_png build_zip to_json 0 sids hashes w w' run in
          let grows = register_or_audit-Grows producer phi hashes in
          weaken-Reaches _ (λ g s s'. Holds x phi hashes s' × Lists g)
            (registered producer phi hashes >>= pack)
            (λ g s s' (k, lists). record {
              word = k.word;
              coded = k.coded;
              project = k.project;
              products =
                  subst
                    (λ es.
                      All
                        (λ (e : BatchManifestEntry).
                          (s'.products k.word (x.sha256 (sid_bytes x e.secret_id))).exists ≡ true)
                        es)
                    (sym lists)
                    (entries_products digest k.word 0 sids hashes w s' paired.right k.products);
            })
            (both-Reaches _ _ (registered producer phi hashes >>= pack)
              (here-Reaches (λ _ s'. Holds x phi hashes s') (Holds-IsClosed x phi hashes)
                (registered producer phi hashes) pack (register_or_audit-Holds producer phi hashes)
                (pack_batch-Grows x env to_png build_zip to_json producer phi n base sids hashes))
              (later-Reaches _ (value-IsClosed Lists) (registered producer phi hashes) pack grows
                pack-Lists))

    -- A batch that `generate` returns is on the chain: its project is registered, and so is the product of
    -- each secret of its manifest, under the hash that the contract computes of that secret. Errors,
    -- retries and other users' transactions included.
    pub generate-OnChain :
        (producer_id phi : Str) (n : ℕ) (base : Option Str)
        → Reaches
            (λ g _ s'. OnChain phi g.manifest.entries s')
            (generate x env to_png build_zip to_json producer_id phi n base)
    unfolding generate
    generate-OnChain producer_id phi n base =
        let closed = Answers-IsClosed phi in
        later-Reaches _ closed (find_by_id x producer_id) _ (find_by_id-Grows x producer_id)
          λ producer.
            later-Reaches _ closed (find_owned_by_producer x env producer_id phi) _
              (find_owned_by_producer-Grows x env producer_id phi)
              λ _.
                later-Reaches _ closed (generate_sids x env to_png build_zip to_json n) _
                  (generate_sids-Grows x env to_png build_zip to_json n)
                  λ sids.
                    given-Reaches _ closed (hash_sids x env to_png build_zip to_json sids)
                      (λ hashes.
                        registered producer phi hashes
                        >>= pack_batch x env to_png build_zip to_json producer phi n base sids
                            hashes)
                      (hash_sids-Grows x env to_png build_zip to_json sids)
                      λ hashes w w' run. finish-Answers producer phi n base sids hashes w w' run
