-- ===== src/Registry/Invariant.antt =====
-- The storage invariant of the registry, and that every transaction keeps it.
use qr_blockchain_anticounte.Prelude.{
  ℕ, ◌==◌, ◌≡◌, ◌%◌, ◌^◌, refl, subst, Bool, true, false, List, [], ◌∷◌, ◌&&◌, arith, Bool-cases,
  inl, inr, count, if◌then◌else◌, length,
}
use qr_blockchain_anticounte.Registry.{
  Storage, Event, product_redeemed, products_registered, Mined, done, reverted, Tx,
  tx_register_project, tx_register_batch, tx_redeem, register_project, register_hashes,
  register_batch, redeem_hash, redeem_product, execute, settle, apply_tx, apply_all, set_product,
  then_emit, initial,
}

abbrev pub is_redemption : Event → Bool
is_redemption (product_redeemed _ _ _ _) = true
is_redemption _ = false

abbrev pub is_redemption_of : ℕ → ℕ → Event → Bool
is_redemption_of phi h (product_redeemed k g _ _) = (k == phi) && (g == h)
is_redemption_of phi h _ = false

pub record IsValid (s : Storage) : Type 0 where
  -- the counter is the number of redemption events, as a 256-bit word
  pub counted : s.total_redeemed ≡ count is_redemption s.events % 2 ^ 256
  -- a product has one redemption event if it is redeemed, and none if it is not
  pub once :
      (phi h : ℕ)
      → count (is_redemption_of phi h) s.events ≡ (if (s.products phi h).redeemed then 1 else 0)
  pub real : (phi h : ℕ) → (s.products phi h).redeemed ≡ true → (s.products phi h).exists ≡ true
  pub owned : (phi h : ℕ) → (s.products phi h).exists ≡ true → (s.projects phi).exists ≡ true

pub initial-IsValid : IsValid initial
initial-IsValid = record {
  counted = refl;
  once = λ _ _. refl;
  real = λ _ _ e. cc;
  owned = λ _ _ e. cc;
}

-- The storage after a call, whatever it answers, is valid.
abbrev Keeps : Storage → Mined → Type 0
Keeps s m = IsValid (settle m s)

register_project-IsValid :
    (sender phi : ℕ) (s : Storage) → IsValid s → Keeps s (register_project sender phi s)
unfolding register_project
register_project-IsValid sender phi s v = elim (Bool-cases (s.projects phi).exists) [
  | inl e ↦ rw e v
  | inr e ↦ rw e (record {
    counted = omega (arith, v.counted);
    once = λ k h. ground (arith, v.once k h);
    real = v.real;
    owned = λ k h x. ground (arith, v.owned k h x);
  })
]

fresh-IsValid :
    (phi h : ℕ) (s : Storage)
    → (s.projects phi).exists ≡ true
    → (s.products phi h).exists ≡ false
    → IsValid s
    → IsValid (set_product phi h (record { exists = true; redeemed = false }) s)
fresh-IsValid phi h s p new v = record {
  counted = v.counted;
  once = λ k g. ground (arith, v.once k g, v.real k g);
  real = λ k g x. ground (arith, v.real k g);
  owned = λ k g x. ground (arith, v.owned k g);
}

register_hashes-IsValid :
    (phi : ℕ) (hs : List ℕ) (s : Storage) {s' : Storage}
    → (s.projects phi).exists ≡ true
    → IsValid s
    → register_hashes phi hs s ≡ done s'
    → IsValid s'
unfolding register_hashes
register_hashes-IsValid phi [] s p v e = subst (λ m. Keeps s m) e v
register_hashes-IsValid phi (h ∷ hs) s p v e = elim (Bool-cases (s.products phi h).exists) [
  | inl old ↦ absurd (ground (arith, old))
  | inr new ↦ register_hashes-IsValid phi hs _ p (fresh-IsValid phi h s p new v) (rw new at e)
]

hashes_then_emit-IsValid :
    (phi : ℕ) (hs : List ℕ) (n : ℕ) (s : Storage)
    → (s.projects phi).exists ≡ true
    → IsValid s
    → Keeps s (then_emit (products_registered phi n) (register_hashes phi hs s))
hashes_then_emit-IsValid phi hs n s p v = go (register_hashes phi hs s) refl
  where
    go :
        (m : Mined)
        → register_hashes phi hs s ≡ m
        → Keeps s (then_emit (products_registered phi n) m)
    go (reverted r) e = v
    go (done s') e =
        let x = register_hashes-IsValid phi hs s p v e in
        record {
          counted = ground (arith, x.counted);
          once = λ k h. ground (arith, x.once k h);
          real = x.real;
          owned = x.owned;
        }

register_batch-IsValid :
    (sender phi : ℕ) (hs : List ℕ) (s : Storage)
    → IsValid s
    → Keeps s (register_batch sender phi hs s)
unfolding register_batch
register_batch-IsValid sender phi hs s v =
    ground (arith, v, hashes_then_emit-IsValid phi hs (length hs) s)

redeem_hash-IsValid : (phi h now : ℕ) (s : Storage) → IsValid s → Keeps s (redeem_hash phi h now s)
unfolding redeem_hash
redeem_hash-IsValid phi h now s v = elim (Bool-cases (s.projects phi).exists) [
  | inr e ↦ rw e v
  | inl e ↦ rw e (elim (Bool-cases (s.products phi h).exists) [
    | inr f ↦ rw f v
    | inl f ↦ rw f (elim (Bool-cases (s.products phi h).redeemed) [
      | inl g ↦ rw g v
      | inr g ↦ rw g (record {
        counted = omega (arith, v.counted);
        once = λ k j. ground (arith, v.once k j);
        real = λ k j x. ground (arith, v.real k j);
        owned = λ k j x. ground (arith, v.owned k j);
      })
    ])
  ])
]

module _ (sha256 : List ℕ → ℕ) where
  -- A mined or reverted transaction keeps the invariant.
  pub apply_tx-IsValid :
      (t : Tx) (now : ℕ) (s : Storage) → IsValid s → IsValid (apply_tx sha256 t now s)
  unfolding apply_tx execute redeem_product
  apply_tx-IsValid (tx_register_project sender phi) now s v =
      register_project-IsValid sender phi s v
  apply_tx-IsValid (tx_register_batch sender phi hs) now s v =
      register_batch-IsValid sender phi hs s v
  apply_tx-IsValid (tx_redeem phi sid) now s v = redeem_hash-IsValid phi (sha256 sid) now s v

  -- From a valid storage any list of transactions of any accounts leads to a valid storage: the
  -- counter is the number of redemption events as a 256-bit word, a product has exactly one such
  -- event if it is redeemed and none otherwise, a redeemed product is registered, and a registered
  -- product's project exists.
  pub apply_all-IsValid :
      (ts : List Tx) (now : ℕ) (s : Storage) → IsValid s → IsValid (apply_all sha256 ts now s)
  unfolding apply_all
  apply_all-IsValid [] now s v = v
  apply_all-IsValid (t ∷ ts) now s v =
      apply_all-IsValid ts now (apply_tx sha256 t now s) (apply_tx-IsValid t now s v)
