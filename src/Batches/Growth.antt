-- ===== src/Batches/Growth.antt =====
-- The steps of a batch's generation leave the registry alone, but for the registration
-- (apps/coordination-hub/src/projects/batches/batches.service.ts).
use qr_blockchain_anticounte.Prelude.{ℕ, zero, suc, Str, refl, Option, List, [], ◌∷◌}
use qr_blockchain_anticounte.Documents.{ProducerDoc, AuditAction}
use qr_blockchain_anticounte.Registry.Monotone.{Extends-refl}
use qr_blockchain_anticounte.World.{Outside, Env, throw_unless}
use qr_blockchain_anticounte.World.Laws.{
  Grows, bind-Grows, pure-Grows, gets-Grows, db_write-Grows, throw_unless-Grows,
}
use qr_blockchain_anticounte.Hashing.{draw_sid, hash_sid_text, generate_sid, sid_string_to_bytes}
use qr_blockchain_anticounte.Batches.{
  BatchManifest, ZipEntry, generate_sids, hash_sids, audit_record, pack_batch,
}

module _ (x : Outside) (env : Env) (to_png : Str → List ℕ) (build_zip : List ZipEntry → List ℕ)
    (to_json : BatchManifest → List ℕ) where
  pub audit_record-Grows :
      (actor : Str) (a : AuditAction) (target : Str)
      → Grows (audit_record x env to_png build_zip to_json actor a target)
  unfolding audit_record
  audit_record-Grows actor a target = record {
    grows = λ v. (db_write-Grows x _ (λ w. refl)).grows v;
  }

  pub generate_sid-Grows : (n : ℕ) → Grows (generate_sid x n)
  unfolding generate_sid
  generate_sid-Grows n =
      bind-Grows (throw_unless _ _) (λ _. draw_sid x n) (throw_unless-Grows _ _)
        λ _. record { grows = λ v. Extends-refl v.registry }

  pub generate_sids-Grows : (n : ℕ) → Grows (generate_sids x env to_png build_zip to_json n)
  unfolding generate_sids
  generate_sids-Grows zero = pure-Grows []
  generate_sids-Grows (suc n) = bind-Grows (generate_sid x 32) _ (generate_sid-Grows 32) λ s.
      bind-Grows (generate_sids x env to_png build_zip to_json n) _ (generate_sids-Grows n)
        λ rest. pure-Grows (s ∷ rest)

  pub hash_sid_text-Grows : (s : Str) → Grows (hash_sid_text x s)
  unfolding hash_sid_text sid_string_to_bytes
  hash_sid_text-Grows s = search (bind-Grows, throw_unless-Grows, pure-Grows) depth 7

  pub hash_sids-Grows : (sids : List Str) → Grows (hash_sids x env to_png build_zip to_json sids)
  unfolding hash_sids
  hash_sids-Grows [] = pure-Grows []
  hash_sids-Grows (s ∷ sids) = bind-Grows (hash_sid_text x s) _ (hash_sid_text-Grows s) λ h.
      bind-Grows (hash_sids x env to_png build_zip to_json sids) _ (hash_sids-Grows sids)
        λ rest. pure-Grows (h ∷ rest)

  pub pack_batch-Grows :
      (producer : ProducerDoc) (phi : Str) (n : ℕ) (base : Option Str) (sids hashes : List Str)
      (tx_hash : Str)
      → Grows (pack_batch x env to_png build_zip to_json producer phi n base sids hashes tx_hash)
  unfolding pack_batch
  pack_batch-Grows producer phi n base sids hashes tx_hash =
      search (bind-Grows, gets-Grows, audit_record-Grows, pure-Grows) depth 7
