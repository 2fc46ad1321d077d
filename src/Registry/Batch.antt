-- ===== src/Registry/Batch.antt =====
-- Which batches `registerBatch` accepts, and what an accepted batch writes.
use qr_blockchain_anticounte.Prelude.{
  ℕ, ◌==◌, ◌≡◌, ◌≤◌, refl, subst, Bool, true, false, List, [], ◌∷◌, ◌&&◌, ◌||◌, arith, Bool-cases,
  inl, inr, if◌then◌else◌, length,
}
use qr_blockchain_anticounte.Registry.{
  Storage, ProductRecord, Mined, done, reverted, register_hashes, register_batch, set_product,
  then_emit, Event, products_registered, settle,
}

abbrev pub mem : ℕ → List ℕ → Bool
mem h [] = false
mem h (g ∷ hs) = (h == g) || mem h hs

-- No hash of the batch is registered, and none stands in it twice.
abbrev pub IsFresh : ℕ → Storage → List ℕ → Type 0
IsFresh phi s [] = Unit
IsFresh phi s (h ∷ hs) = ((s.products phi h).exists ≡ false) × (mem h hs ≡ false) × IsFresh phi s hs

-- The products after the batch: those of the batch are new and not redeemed, the others as before.
abbrev pub written : ℕ → List ℕ → Storage → ℕ → ℕ → ProductRecord
written phi hs s k g =
    if (k == phi) && mem g hs then record { exists = true; redeemed = false } else s.products k g

abbrev one : ℕ → ℕ → Storage → Storage
one phi h s = set_product phi h (record { exists = true; redeemed = false }) s

IsFresh-one :
    (phi h : ℕ) (s : Storage) (hs : List ℕ)
    → mem h hs ≡ false
    → IsFresh phi s hs
    → IsFresh phi (one phi h s) hs
IsFresh-one phi h s [] m f = tt
IsFresh-one phi h s (g ∷ hs) m (a, b, f) =
    (ground arith, b, IsFresh-one phi h s hs (ground arith) f)

IsFresh-of_one :
    (phi h : ℕ) (s : Storage) (hs : List ℕ)
    → IsFresh phi (one phi h s) hs
    → (mem h hs ≡ false) × IsFresh phi s hs
IsFresh-of_one phi h s [] f = (refl, tt)
IsFresh-of_one phi h s (g ∷ hs) (a, b, f) =
    let (m, f') = IsFresh-of_one phi h s hs f in (ground arith, (ground arith, b, f'))

-- The loop ends without a revert on a fresh batch.
register_hashes_of_IsFresh :
    (phi : ℕ) (hs : List ℕ) (s : Storage)
    → IsFresh phi s hs
    → (s' : Storage) × (register_hashes phi hs s ≡ done s')
unfolding register_hashes
register_hashes_of_IsFresh phi [] s f = (s, refl)
register_hashes_of_IsFresh phi (h ∷ hs) s (a, b, f) =
    let (s', e) = register_hashes_of_IsFresh phi hs (one phi h s) (IsFresh-one phi h s hs b f) in
    (s', rw a e)

record Wrote (phi : ℕ) (hs : List ℕ) (s s' : Storage) : Type 0 where
  fresh : IsFresh phi s hs
  products : (k g : ℕ) → s'.products k g ≡ written phi hs s k g
  projects : (k : ℕ) → s'.projects k ≡ s.projects k
  total : s'.total_redeemed ≡ s.total_redeemed
  events : s'.events ≡ s.events

register_hashes-Wrote :
    (phi : ℕ) (hs : List ℕ) (s : Storage) {s' : Storage}
    → register_hashes phi hs s ≡ done s'
    → Wrote phi hs s s'
unfolding register_hashes
register_hashes-Wrote phi [] s {s'} e =
    subst (λ m. Wrote phi [] s (settle m s)) e
      (record {
        fresh = tt;
        products = λ k g. ground arith;
        projects = λ _. refl;
        total = refl;
        events = refl;
      })
register_hashes-Wrote phi (h ∷ hs) s {s'} e = elim (Bool-cases (s.products phi h).exists) [
  | inl old ↦ absurd (ground (arith, old))
  | inr new ↦
      let w = register_hashes-Wrote phi hs (one phi h s) (rw new at e) in
      let (m, f) = IsFresh-of_one phi h s hs w.fresh in
      record {
        fresh = (new, m, f);
        products = λ k g. ground (arith, w.products k g);
        projects = w.projects;
        total = w.total;
        events = w.events;
      }
]

-- What `registerBatch` demands of a call.
pub record Allowed (sender phi : ℕ) (hs : List ℕ) (s : Storage) : Type 0 where
  pub exists : (s.projects phi).exists ≡ true
  pub bound : (s.projects phi).producer_address ≡ sender
  pub some_hash : 1 ≤ length hs
  pub small : length hs ≤ 500
  pub fresh : IsFresh phi s hs

pub record Registered (phi : ℕ) (hs : List ℕ) (s s' : Storage) : Type 0 where
  pub products : (k g : ℕ) → s'.products k g ≡ written phi hs s k g
  pub projects : (k : ℕ) → s'.projects k ≡ s.projects k
  pub total : s'.total_redeemed ≡ s.total_redeemed
  pub events : s'.events ≡ products_registered phi (length hs) ∷ s.events

then_emit-eq-done :
    (e : Event) (m : Mined) {s' : Storage}
    → then_emit e m ≡ done s'
    → (t : Storage) × (m ≡ done t) × (record t { events = e ∷ t.events } ≡ s')
then_emit-eq-done e (done t) h = (t, refl, ground (arith, h))
then_emit-eq-done e (reverted r) h = cc

guards_of_done :
    (sender phi : ℕ) (hs : List ℕ) (s : Storage) {s' : Storage}
    → register_batch sender phi hs s ≡ done s'
    → ((s.projects phi).exists ≡ true)
      × ((s.projects phi).producer_address ≡ sender)
      × (1 ≤ length hs)
      × (length hs ≤ 500)
      × (then_emit (products_registered phi (length hs)) (register_hashes phi hs s) ≡ done s')
unfolding register_batch
guards_of_done sender phi hs s h = ground arith

-- A batch that is accepted came from the project's own producer, held between 1 and 500 hashes,
-- none of them registered before and no two of them equal; and then exactly those products were
-- added, not redeemed, and nothing else changed but for the event.
pub register_batch-done :
    (sender phi : ℕ) (hs : List ℕ) (s : Storage) {s' : Storage}
    → register_batch sender phi hs s ≡ done s'
    → Allowed sender phi hs s × Registered phi hs s s'
register_batch-done sender phi hs s {s'} h =
    let (p, b, some_hash, small, e) = guards_of_done sender phi hs s h in
    let (t, ran, same) = then_emit-eq-done _ _ e in
    let w = register_hashes-Wrote phi hs s ran in
    (
      record { exists = p; bound = b; some_hash = some_hash; small = small; fresh = w.fresh },
      rw (← same) (record {
        products = w.products;
        projects = w.projects;
        total = w.total;
        events = rw w.events refl;
      }),
    )

-- A batch of 1 to 500 hashes, none of them registered before and no two of them equal, that the
-- producer of an existing project sends for it is accepted: no other condition makes the contract
-- refuse it.
pub register_batch_of_Allowed :
    (sender phi : ℕ) (hs : List ℕ) (s : Storage)
    → Allowed sender phi hs s
    → (s' : Storage) × (register_batch sender phi hs s ≡ done s')
unfolding register_batch
register_batch_of_Allowed sender phi hs s a =
    let (t, ran) = register_hashes_of_IsFresh phi hs s a.fresh in
    (
      record t { events = products_registered phi (length hs) ∷ t.events },
      ground (arith, ran, a.exists, a.bound, a.some_hash, a.small),
    )
