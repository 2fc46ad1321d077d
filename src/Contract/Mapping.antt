-- ===== src/Contract/Mapping.antt =====
-- Each error of the contract becomes the exception of the same name
-- (apps/coordination-hub/src/blockchain/exceptions.ts), on what ethers documents of a reverted call.
use qr_blockchain_anticounte.Prelude.{ℕ, ◌≤◌, Str, codes, str_eq, ◌≡◌, refl, some, [], ◌∷◌}
use qr_blockchain_anticounte.Errors.{
  Domain, js, on_chain_project_already_exists, on_chain_project_does_not_exist,
  on_chain_unauthorized_producer, on_chain_batch_too_large, on_chain_empty_batch,
  on_chain_duplicate_product_hash, on_chain_product_does_not_exist,
  on_chain_product_already_redeemed,
}
use qr_blockchain_anticounte.Registry.{
  Revert, project_already_exists, project_does_not_exist, unauthorized_producer, batch_too_large,
  empty_batch, duplicate_product_hash, product_does_not_exist, product_already_redeemed,
}
use qr_blockchain_anticounte.World.{Outside, ErrorDescription}
use qr_blockchain_anticounte.Contract.{revert_data, exception_of, try_map_revert_to_domain_error}

-- `Number.MAX_SAFE_INTEGER`
abbrev pub max_safe_integer : ℕ
max_safe_integer = 9_007_199_254_740_991

-- the number that an error reports, if there is one, is read exactly
unfoldable pub IsExact : Revert → Type 0
IsExact (batch_too_large size) = size ≤ max_safe_integer
IsExact _ = Unit

module _ (x : Outside) where
  -- the name and the arguments of a custom error, as ethers prints them
  abbrev pub described : Revert → ErrorDescription
  described (project_already_exists phi) = record {
    name = codes "ProjectAlreadyExists";
    args = x.word_text phi ∷ [];
  }
  described (project_does_not_exist phi) = record {
    name = codes "ProjectDoesNotExist";
    args = x.word_text phi ∷ [];
  }
  described (unauthorized_producer phi caller) = record {
    name = codes "UnauthorizedProducer";
    args = x.word_text phi ∷ x.address_text caller ∷ [];
  }
  described (batch_too_large size) = record {
    name = codes "BatchTooLarge";
    args = x.number_text size ∷ [];
  }
  described empty_batch = record { name = codes "EmptyBatch"; args = [] }
  described (duplicate_product_hash phi h) = record {
    name = codes "DuplicateProductHash";
    args = x.word_text phi ∷ x.word_text h ∷ [];
  }
  described (product_does_not_exist phi h) = record {
    name = codes "ProductDoesNotExist";
    args = x.word_text phi ∷ x.word_text h ∷ [];
  }
  described (product_already_redeemed phi h) = record {
    name = codes "ProductAlreadyRedeemed";
    args = x.word_text phi ∷ x.word_text h ∷ [];
  }

  -- The error that ethers throws for a reverted call carries the data of the revert in one of the
  -- three places, parsing that data gives the error back, and `Number` reads a printed safe integer.
  pub record IsEthers : Type 0 where
    pub data_of : Revert → Str
    pub carried : (r : Revert) → revert_data (x.revert_error r) ≡ some (data_of r)
    pub parsed : (r : Revert) → x.parse_error (data_of r) ≡ some (described r)
    pub numbers : (n : ℕ) → n ≤ max_safe_integer → x.to_number (x.number_text n) ≡ n

  -- the exception that stands for an error of the contract
  abbrev pub exception_for : Revert → Domain
  exception_for (project_already_exists phi) = on_chain_project_already_exists (x.word_text phi)
  exception_for (project_does_not_exist phi) = on_chain_project_does_not_exist (x.word_text phi)
  exception_for (unauthorized_producer phi caller) =
      on_chain_unauthorized_producer (x.word_text phi) (x.address_text caller)
  exception_for (batch_too_large size) = on_chain_batch_too_large size
  exception_for empty_batch = on_chain_empty_batch
  exception_for (duplicate_product_hash phi h) =
      on_chain_duplicate_product_hash (x.word_text phi) (x.word_text h)
  exception_for (product_does_not_exist phi h) =
      on_chain_product_does_not_exist (x.word_text phi) (x.word_text h)
  exception_for (product_already_redeemed phi h) =
      on_chain_product_already_redeemed (x.word_text phi) (x.word_text h)

  exception_of-described :
      ((n : ℕ) → n ≤ max_safe_integer → x.to_number (x.number_text n) ≡ n)
      → (r : Revert) → IsExact r
      → exception_of x (described r) ≡ some (exception_for r)
  unfolding exception_of str_eq IsExact
  exception_of-described numbers (project_already_exists phi) exact = refl
  exception_of-described numbers (project_does_not_exist phi) exact = refl
  exception_of-described numbers (unauthorized_producer phi caller) exact = refl
  exception_of-described numbers (batch_too_large size) exact = rw (numbers size exact) refl
  exception_of-described numbers empty_batch exact = refl
  exception_of-described numbers (duplicate_product_hash phi h) exact = refl
  exception_of-described numbers (product_does_not_exist phi h) exact = refl
  exception_of-described numbers (product_already_redeemed phi h) exact = refl

  -- If ethers' error for a reverted call carries the data of the revert, parsing the data gives the
  -- error back, and `Number` reads a printed integer of at most 2^53 - 1 as itself, then each of the eight custom errors of the contract, thrown by ethers for a call that would revert,
  -- is turned into the exception of that error with its arguments, where the size that BatchTooLarge
  -- reports is at most 2^53 - 1.
  pub try_map-revert_error :
      IsEthers
      → (r : Revert) → IsExact r
      → try_map_revert_to_domain_error x (js (x.revert_error r)) ≡ some (exception_for r)
  unfolding try_map_revert_to_domain_error
  try_map-revert_error laws r exact =
      rw (laws.carried r) (rw (laws.parsed r) (exception_of-described laws.numbers r exact))
