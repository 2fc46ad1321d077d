-- ===== src/Tests/Chain.antt =====
-- The contract on a small storage, and the theorems about it there.
use qr_blockchain_anticounte.Prelude.{◌≡◌, refl, List, [], ◌∷◌, arith}
use qr_blockchain_anticounte.Fixtures.{calm, stocked}
use qr_blockchain_anticounte.Registry.{
  Storage, Tx, tx_register_project, tx_register_batch, tx_redeem, initial, register_batch,
  register_hashes, redeem_hash, done, reverted, apply_all, apply_tx, execute, redeem_product,
  register_project, settle, product_already_redeemed, product_does_not_exist,
  duplicate_product_hash, unauthorized_producer,
}
use qr_blockchain_anticounte.Registry.Monotone.{Extends, apply_all-Extends}
use qr_blockchain_anticounte.Registry.Invariant.{IsValid, initial-IsValid, apply_all-IsValid}
use qr_blockchain_anticounte.Registry.Batch.{
  Allowed, Registered, register_batch-done, register_batch_of_Allowed,
}
use qr_blockchain_anticounte.Registry.Redeem.{Redeemed, redeem_hash-done, redeem_once}

running : Unit {0}
unfolding register_batch register_hashes redeem_hash register_project apply_all apply_tx execute
    redeem_product
running = tt

abbrev history : List Tx
history =
    tx_register_project 11 5
    ∷ tx_register_batch 11 5 (3 ∷ 4 ∷ [])
    ∷ tx_redeem 5 (1 ∷ 2 ∷ [])
    ∷ tx_register_batch 12 5 (8 ∷ [])
    ∷ []

-- the third transaction redeems, and the fourth, of another account, changes nothing
history_run : (apply_all calm.sha256 history 9 initial).total_redeemed ≡ 1
unfolding running
history_run = refl

abbrev after_redeem : Storage
after_redeem = settle (redeem_hash 5 3 9 stocked) stocked

redeem_run : redeem_hash 5 3 9 stocked ≡ done after_redeem
unfolding running
redeem_run = refl

abbrev after_batch : Storage
after_batch = settle (register_batch 11 5 (7 ∷ 8 ∷ []) stocked) stocked

batch_run : register_batch 11 5 (7 ∷ 8 ∷ []) stocked ≡ done after_batch
unfolding running
batch_run = refl

refused_runs :
    (redeem_hash 5 9 9 stocked ≡ reverted (product_does_not_exist 5 9))
    × (register_batch 12 5 (7 ∷ []) stocked ≡ reverted (unauthorized_producer 5 12))
    × (register_batch 11 5 (7 ∷ 7 ∷ []) stocked ≡ reverted (duplicate_product_hash 5 7))
unfolding running
refused_runs = (refl, refl, refl)

redeem_once_example :
    redeem_hash 5 3 20 (apply_all calm.sha256 history 10 after_redeem)
    ≡ reverted (product_already_redeemed 5 3)
redeem_once_example = redeem_once calm.sha256 5 3 9 stocked history 10 20 redeem_run

redeem_hash-done_example : Redeemed 5 3 9 stocked after_redeem
redeem_hash-done_example = redeem_hash-done 5 3 9 stocked redeem_run

apply_all-IsValid_example : IsValid (apply_all calm.sha256 history 9 initial)
apply_all-IsValid_example = apply_all-IsValid calm.sha256 history 9 initial initial-IsValid

apply_all-Extends_example : Extends stocked (apply_all calm.sha256 history 9 stocked)
apply_all-Extends_example = apply_all-Extends calm.sha256 history 9 stocked

register_batch-done_example :
    Allowed 11 5 (7 ∷ 8 ∷ []) stocked × Registered 5 (7 ∷ 8 ∷ []) stocked after_batch
register_batch-done_example = register_batch-done 11 5 (7 ∷ 8 ∷ []) stocked batch_run

small_batch : Allowed 11 5 (7 ∷ 8 ∷ []) stocked
small_batch = record {
  exists = refl;
  bound = refl;
  some_hash = omega arith;
  small = omega arith;
  fresh = (refl, refl, (refl, refl, tt));
}

register_batch_of_Allowed_example :
    (s' : Storage) × (register_batch 11 5 (7 ∷ 8 ∷ []) stocked ≡ done s')
register_batch_of_Allowed_example = register_batch_of_Allowed 11 5 (7 ∷ 8 ∷ []) stocked small_batch
