-- ===== src/Registry/Redeem.antt =====
-- When `redeemProduct` succeeds, and that it does so once for a product.
use qr_blockchain_anticounte.Prelude.{ℕ, ◌≡◌, ◌+◌, ◌%◌, ◌^◌, true, false, List, ◌∷◌, arith}
use qr_blockchain_anticounte.Registry.{
  Storage, done, reverted, product_already_redeemed, product_redeemed, redeem_hash, Tx, apply_all,
}
use qr_blockchain_anticounte.Registry.Monotone.{Extends, apply_all-Extends}

pub record Redeemed (phi h now : ℕ) (s s' : Storage) : Type 0 where
  pub project : (s.projects phi).exists ≡ true
  pub registered : (s.products phi h).exists ≡ true
  pub unspent : (s.products phi h).redeemed ≡ false
  pub spent : (s'.products phi h).redeemed ≡ true
  pub counted : s'.total_redeemed ≡ (s.total_redeemed + 1) % 2 ^ 256
  pub logged : s'.events ≡ product_redeemed phi h (s.projects phi).producer_address now ∷ s.events

-- A redemption succeeds only for a registered product of a registered project that was not redeemed;
-- it marks the product, counts it, and emits the event with the bound producer and the block's time.
pub redeem_hash-done :
    (phi h now : ℕ) (s : Storage) {s' : Storage}
    → redeem_hash phi h now s ≡ done s'
    → Redeemed phi h now s s'
unfolding redeem_hash
redeem_hash-done phi h now s e = record {
  project = ground arith;
  registered = ground arith;
  unspent = ground arith;
  spent = ground arith;
  counted = ground arith;
  logged = ground arith;
}

-- The product is registered in a project and has been redeemed.
pub record Spent (phi h : ℕ) (s : Storage) : Type 0 where
  pub project : (s.projects phi).exists ≡ true
  pub registered : (s.products phi h).exists ≡ true
  pub redeemed : (s.products phi h).redeemed ≡ true

pub Extends-Spent : (phi h : ℕ) {s s' : Storage} → Extends s s' → Spent phi h s → Spent phi h s'
Extends-Spent phi h g p = record {
  project = ground (arith, g.bound phi p.project, p.project);
  registered = g.kept phi h p.registered;
  redeemed = g.spent phi h p.registered p.redeemed;
}

pub redeem_hash_of_Spent :
    (phi h now : ℕ) (s : Storage)
    → Spent phi h s
    → redeem_hash phi h now s ≡ reverted (product_already_redeemed phi h)
unfolding redeem_hash
redeem_hash_of_Spent phi h now s p = ground (arith, p.project, p.registered, p.redeemed)

pub redeem_hash-Spent :
    (phi h now : ℕ) (s : Storage) {s' : Storage}
    → redeem_hash phi h now s ≡ done s'
    → Spent phi h s'
unfolding redeem_hash
redeem_hash-Spent phi h now s e = record {
  project = ground arith;
  registered = ground arith;
  redeemed = ground arith;
}

-- Non-replayability: after a successful redemption, whatever transactions any accounts have mined in
-- between, another redemption of the product reverts with ProductAlreadyRedeemed.
pub redeem_once :
    (sha256 : List ℕ → ℕ) (phi h now : ℕ) (s : Storage) {s' : Storage} (ts : List Tx)
    (then later : ℕ)
    → redeem_hash phi h now s ≡ done s'
    → redeem_hash phi h later (apply_all sha256 ts then s')
      ≡ reverted (product_already_redeemed phi h)
redeem_once sha256 phi h now s {s'} ts then later e =
    redeem_hash_of_Spent phi h later (apply_all sha256 ts then s')
      (Extends-Spent phi h (apply_all-Extends sha256 ts then s') (redeem_hash-Spent phi h now s e))
