-- ===== src/Registry/Status.antt =====
-- The abstract view of the registry, one status for each product, as the paper's algorithms see it.
use qr_blockchain_anticounte.Prelude.{ℕ, ◌≡◌, refl, true, false, if◌then◌else◌, arith}
use qr_blockchain_anticounte.Registry.{Storage, Mined, done, reverted, redeem_hash}
use qr_blockchain_anticounte.Registry.Invariant.{IsValid}

pub data Status : Type 0 where
  unknown fresh used : Status

abbrev pub status : (phi h : ℕ) → Storage → Status
status phi h s =
    if (s.products phi h).exists
    then (if (s.products phi h).redeemed then used else fresh)
    else unknown

-- A redemption of a fresh product of a valid storage is mined, and uses the product up.
pub record Redeems (phi h now : ℕ) (s : Storage) : Type 0 where
  pub after : Storage
  pub mined : redeem_hash phi h now s ≡ done after
  pub used_up : status phi h after ≡ used

mined-Redeems :
    (phi h now : ℕ) (s : Storage) (m : Mined)
    → (s.products phi h).exists ≡ true
    → (s.products phi h).redeemed ≡ false
    → (s.projects phi).exists ≡ true
    → redeem_hash phi h now s ≡ m
    → Redeems phi h now s
unfolding redeem_hash
mined-Redeems phi h now s (done s') a b c e = record {
  after = s';
  mined = e;
  used_up = ground (arith, a, b, c, e);
}
mined-Redeems phi h now s (reverted r) a b c e = absurd (ground (arith, a, b, c, e))

status-fresh :
    (phi h : ℕ) (s : Storage)
    → status phi h s ≡ fresh
    → ((s.products phi h).exists ≡ true) × ((s.products phi h).redeemed ≡ false)
status-fresh phi h s e = ground (arith, e)

pub redeem_hash-Redeems :
    (phi h now : ℕ) (s : Storage) → IsValid s → status phi h s ≡ fresh → Redeems phi h now s
redeem_hash-Redeems phi h now s v e =
    let (there, unspent) = status-fresh phi h s e in
    mined-Redeems phi h now s (redeem_hash phi h now s) there unspent (v.owned phi h there) refl
