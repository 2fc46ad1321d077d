-- ===== src/Registry.antt =====
-- contracts/src/ProductRegistry.sol, with its errors and events. Bytes32 words and addresses are
-- numbers; a Solidity mapping is a total function whose default is the zero struct. A revert
-- undoes the whole transaction, so an operation returns the new storage or a revert.
pub mod Invariant
pub mod Monotone
pub mod Batch
pub mod Redeem
pub mod Status
use qr_blockchain_anticounte.Prelude.{
  ℕ, zero, suc, ◌+◌, ◌%◌, ◌^◌, Bool, true, false, List, [], ◌∷◌, ◌&&◌, ◌==◌, ltb, not,
  if◌then◌else◌, length,
}

pub record Project : Type 0 where
  pub producer_address : ℕ
  pub exists : Bool

pub record ProductRecord : Type 0 where
  pub exists : Bool
  pub redeemed : Bool

pub data Event : Type 0 where
  project_created : (phi producer : ℕ) → Event
  products_registered : (phi count : ℕ) → Event
  product_redeemed : (phi h producer timestamp : ℕ) → Event

-- The newest event comes first.
pub record Storage : Type 0 where
  pub projects : ℕ → Project
  pub products : ℕ → ℕ → ProductRecord
  pub total_redeemed : ℕ
  pub events : List Event

pub data Revert : Type 0 where
  project_already_exists : (phi : ℕ) → Revert
  project_does_not_exist : (phi : ℕ) → Revert
  unauthorized_producer : (phi caller : ℕ) → Revert
  batch_too_large : (size : ℕ) → Revert
  empty_batch : Revert
  duplicate_product_hash : (phi h : ℕ) → Revert
  product_does_not_exist : (phi h : ℕ) → Revert
  product_already_redeemed : (phi h : ℕ) → Revert

pub data Mined : Type 0 where
  done : Storage → Mined
  reverted : Revert → Mined

abbrev pub max_batch_size : ℕ
max_batch_size = 500

abbrev pub initial : Storage
initial = record {
  projects = λ _. record { producer_address = 0; exists = false };
  products = λ _ _. record { exists = false; redeemed = false };
  total_redeemed = 0;
  events = [];
}

-- `projects[phi] = p` and `products[phi][h] = r`
abbrev pub set_project : ℕ → Project → Storage → Storage
set_project phi p s = record s { projects = λ k. if k == phi then p else s.projects k }

abbrev pub set_product : ℕ → ℕ → ProductRecord → Storage → Storage
set_product phi h r s = record s {
  products = λ k g. if (k == phi) && (g == h) then r else s.products k g;
}

abbrev pub emit : Event → Storage → Storage
emit e s = record s { events = e ∷ s.events }

unfoldable pub register_project : (sender phi : ℕ) → Storage → Mined
register_project sender phi s =
    if (s.projects phi).exists
    then reverted (project_already_exists phi)
    else done (
        emit (project_created phi sender)
          (set_project phi (record { producer_address = sender; exists = true }) s))

-- The loop of `registerBatch`.
unfoldable pub register_hashes : ℕ → List ℕ → Storage → Mined
register_hashes phi [] s = done s
register_hashes phi (h ∷ hs) s =
    let rest =
      register_hashes phi hs (set_product phi h (record { exists = true; redeemed = false }) s) in
    if (s.products phi h).exists then reverted (duplicate_product_hash phi h) else rest

-- The event that follows a loop which did not revert.
abbrev pub then_emit : Event → Mined → Mined
then_emit e (done s) = done (emit e s)
then_emit e (reverted r) = reverted r

unfoldable pub register_batch : (sender phi : ℕ) → List ℕ → Storage → Mined
register_batch sender phi hashes s =
    if not (s.projects phi).exists
    then reverted (project_does_not_exist phi)
    else if not ((s.projects phi).producer_address == sender)
    then reverted (unauthorized_producer phi sender)
    else if length hashes == 0
    then reverted empty_batch
    else if ltb max_batch_size (length hashes)
    then reverted (batch_too_large (length hashes))
    else then_emit (products_registered phi (length hashes)) (register_hashes phi hashes s)

-- `h` is the precompile's hash of the `sid` in the call data, `now` the block's timestamp.
unfoldable pub redeem_hash : (phi h now : ℕ) → Storage → Mined
redeem_hash phi h now s =
    if not (s.projects phi).exists
    then reverted (project_does_not_exist phi)
    else if not (s.products phi h).exists
    then reverted (product_does_not_exist phi h)
    else if (s.products phi h).redeemed
    then reverted (product_already_redeemed phi h)
    else done (
        emit (product_redeemed phi h (s.projects phi).producer_address now) (
          set_product phi h (record { exists = (s.products phi h).exists; redeemed = true })
            (record s { total_redeemed = (s.total_redeemed + 1) % 2 ^ 256 })))

-- `verifyProduct` and `projectExists`
pub record ProductView : Type 0 where
  pub exists : Bool
  pub redeemed : Bool
  pub producer : ℕ

unfoldable pub verify_product : (phi h : ℕ) → Storage → ProductView
verify_product phi h s = record {
  exists = (s.products phi h).exists;
  redeemed = (s.products phi h).redeemed;
  producer = (s.projects phi).producer_address;
}

unfoldable pub project_exists : (phi : ℕ) → Storage → Bool
project_exists phi s = (s.projects phi).exists

-- Any transaction that an account can send; `sha256` is the precompile at address 2.
pub data Tx : Type 0 where
  tx_register_project : (sender phi : ℕ) → Tx
  tx_register_batch : (sender phi : ℕ) → List ℕ → Tx
  tx_redeem : (phi : ℕ) → List ℕ → Tx

-- The storage after a transaction is mined: a revert changes nothing.
abbrev pub settle : Mined → Storage → Storage
settle (done s') s = s'
settle (reverted r) s = s

module _ (sha256 : List ℕ → ℕ) where
  unfoldable pub redeem_product : (phi : ℕ) → List ℕ → (now : ℕ) → Storage → Mined
  redeem_product phi sid now = redeem_hash phi (sha256 sid) now

  unfoldable pub execute : Tx → (now : ℕ) → Storage → Mined
  unfolding redeem_product
  execute (tx_register_project sender phi) now s = register_project sender phi s
  execute (tx_register_batch sender phi hashes) now s = register_batch sender phi hashes s
  execute (tx_redeem phi sid) now s = redeem_product phi sid now s

  unfoldable pub apply_tx : Tx → (now : ℕ) → Storage → Storage
  unfolding execute
  apply_tx t now s = settle (execute t now s) s

  -- A block's transactions, in order.
  unfoldable pub apply_all : List Tx → (now : ℕ) → Storage → Storage
  unfolding apply_tx
  apply_all [] now s = s
  apply_all (t ∷ ts) now s = apply_all ts now (apply_tx t now s)
