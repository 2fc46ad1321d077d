-- ===== src/Registry/Monotone.antt =====
-- What no transaction can undo: a project's producer, the existence of a product, its redemption.
use qr_blockchain_anticounte.Prelude.{
  ℕ, ◌≡◌, refl, ◌∙◌, ap, subst, true, false, List, [], ◌∷◌, arith, Bool-cases, inl, inr,
}
use qr_blockchain_anticounte.Registry.{
  Storage, ProductRecord, Mined, done, reverted, Tx, tx_register_project, tx_register_batch,
  tx_redeem, register_project, register_hashes, register_batch, redeem_hash, redeem_product,
  execute, settle, apply_tx, apply_all, set_product, then_emit, products_registered, length,
}

pub record Extends (s s' : Storage) : Type 0 where
  pub bound : (phi : ℕ) → (s.projects phi).exists ≡ true → s'.projects phi ≡ s.projects phi
  pub kept : (phi h : ℕ) → (s.products phi h).exists ≡ true → (s'.products phi h).exists ≡ true
  pub spent :
      (phi h : ℕ)
      → (s.products phi h).exists ≡ true
      → (s.products phi h).redeemed ≡ true
      → (s'.products phi h).redeemed ≡ true

pub Extends-refl : (s : Storage) → Extends s s
Extends-refl s = record { bound = λ _ _. refl; kept = λ _ _ e. e; spent = λ _ _ _ e. e }

pub Extends-trans : {s t u : Storage} → Extends s t → Extends t u → Extends s u
Extends-trans {s} {t} {u} a b = record {
  bound = λ phi e. b.bound phi (ap (λ p. p.exists) (a.bound phi e) ∙ e) ∙ a.bound phi e;
  kept = λ phi h e. b.kept phi h (a.kept phi h e);
  spent = λ phi h e r. b.spent phi h (a.kept phi h e) (a.spent phi h e r);
}

-- The storage after a call, whatever it answers, extends the storage before it.
abbrev pub Grows : Storage → Mined → Type 0
Grows s m = Extends s (settle m s)

register_project-Grows : (sender phi : ℕ) (s : Storage) → Grows s (register_project sender phi s)
unfolding register_project
register_project-Grows sender phi s = elim (Bool-cases (s.projects phi).exists) [
  | inl e ↦ rw e (Extends-refl s)
  | inr e ↦ rw e (record { bound = λ k h. ground arith; kept = λ _ _ h. h; spent = λ _ _ _ h. h })
]

set_product-Extends :
    (phi h : ℕ) (r : ProductRecord) (s : Storage)
    → ((s.products phi h).exists ≡ true → r.exists ≡ true)
    → ((s.products phi h).exists ≡ true → (s.products phi h).redeemed ≡ true → r.redeemed ≡ true)
    → Extends s (set_product phi h r s)
set_product-Extends phi h r s p q = record {
  bound = λ _ _. refl;
  kept = λ k g e. ground arith;
  spent = λ k g e f. ground arith;
}

pub register_hashes-Extends :
    (phi : ℕ) (hs : List ℕ) (s : Storage) {s' : Storage}
    → register_hashes phi hs s ≡ done s'
    → Extends s s'
unfolding register_hashes
register_hashes-Extends phi [] s {s'} e = subst (λ m. Grows s m) e (Extends-refl s)
register_hashes-Extends phi (h ∷ hs) s {s'} e = elim (Bool-cases (s.products phi h).exists) [
  | inl old ↦ absurd (ground (arith, old))
  | inr new ↦
      Extends-trans
        (set_product-Extends phi h (record { exists = true; redeemed = false }) s (λ _. refl)
          (λ x _. cc))
        (register_hashes-Extends phi hs _ (rw new at e))
]

hashes_then_emit-Grows :
    (phi : ℕ) (hs : List ℕ) (n : ℕ) (s : Storage)
    → Grows s (then_emit (products_registered phi n) (register_hashes phi hs s))
hashes_then_emit-Grows phi hs n s = go (register_hashes phi hs s) refl
  where
    go :
        (m : Mined)
        → register_hashes phi hs s ≡ m
        → Grows s (then_emit (products_registered phi n) m)
    go (reverted r) e = Extends-refl s
    go (done s') e =
        let x = register_hashes-Extends phi hs s e in
        record { bound = x.bound; kept = x.kept; spent = x.spent }

register_batch-Grows :
    (sender phi : ℕ) (hs : List ℕ) (s : Storage) → Grows s (register_batch sender phi hs s)
unfolding register_batch
register_batch-Grows sender phi hs s =
    ground (arith, Extends-refl s, hashes_then_emit-Grows phi hs (length hs) s)

pub redeem_hash-Grows : (phi h now : ℕ) (s : Storage) → Grows s (redeem_hash phi h now s)
unfolding redeem_hash
redeem_hash-Grows phi h now s = elim (Bool-cases (s.projects phi).exists) [
  | inr e ↦ rw e (Extends-refl s)
  | inl e ↦ rw e (elim (Bool-cases (s.products phi h).exists) [
    | inr f ↦ rw f (Extends-refl s)
    | inl f ↦ rw f (elim (Bool-cases (s.products phi h).redeemed) [
      | inl g ↦ rw g (Extends-refl s)
      | inr g ↦ rw g (record {
        bound = λ _ _. refl;
        kept = λ k j x. ground arith;
        spent = λ k j x y. ground arith;
      })
    ])
  ])
]

module _ (sha256 : List ℕ → ℕ) where
  pub apply_tx-Extends : (t : Tx) (now : ℕ) (s : Storage) → Extends s (apply_tx sha256 t now s)
  unfolding apply_tx execute redeem_product
  apply_tx-Extends (tx_register_project sender phi) now s = register_project-Grows sender phi s
  apply_tx-Extends (tx_register_batch sender phi hs) now s = register_batch-Grows sender phi hs s
  apply_tx-Extends (tx_redeem phi sid) now s = redeem_hash-Grows phi (sha256 sid) now s

  -- Whatever transactions any accounts send, and in whatever order they are mined, a bound producer
  -- stays bound, a registered product stays registered, and a redeemed product stays redeemed.
  pub apply_all-Extends :
      (ts : List Tx) (now : ℕ) (s : Storage) → Extends s (apply_all sha256 ts now s)
  unfolding apply_all
  apply_all-Extends [] now s = Extends-refl s
  apply_all-Extends (t ∷ ts) now s =
      Extends-trans (apply_tx-Extends t now s) (apply_all-Extends ts now (apply_tx sha256 t now s))
