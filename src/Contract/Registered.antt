-- ===== src/Contract/Registered.antt =====
-- What `registerProject` and `registerBatch` of the contract service leave in the registry when they
-- return (apps/coordination-hub/src/blockchain/ethers-contract.service.ts).
use qr_blockchain_anticounte.Prelude.{
  ℕ, Str, ◌≡◌, refl, ◌∙◌, ap, subst, some, true, false, List, [], ◌∷◌, arith, All,
}
use qr_blockchain_anticounte.Registry.{
  Storage, Tx, tx_register_project, tx_register_batch, done, execute, register_project,
}
use qr_blockchain_anticounte.Registry.Monotone.{Extends}
use qr_blockchain_anticounte.Registry.Batch.{mem, written, register_batch-done}
use qr_blockchain_anticounte.World.{Outside, Env, World, M, ok, pure, ◌>>=◌}
use qr_blockchain_anticounte.World.Laws.{Grows, bind-Grows, pure-Grows}
use qr_blockchain_anticounte.World.Reaching.{
  Reaches, IsClosed, weaken-Reaches, given-Reaches, pure-Reaches, value-IsClosed,
}
use qr_blockchain_anticounte.Wallet.{EncryptedKey}
use qr_blockchain_anticounte.Contract.{
  encode_bytes32, encode_all, register_project_call, register_batch_call,
}
use qr_blockchain_anticounte.Contract.Growth.{encode_bytes32-Grows}
use qr_blockchain_anticounte.Contract.Registration.{Sent, sign_and_send-Sends, sign_and_send-Grows}

module _ (x : Outside) where
  encode_bytes32-coded :
      (text : Str) (w : World) {p : ℕ} {w' : World}
      → encode_bytes32 x text w ≡ (ok p, w')
      → x.bytes32 text ≡ some p
  unfolding encode_bytes32
  encode_bytes32-coded text w e = ground (arith, e)

  -- the texts code the words, in order
  abbrev pub Coded : List Str → List ℕ → Type 0
  Coded [] [] = Unit
  Coded [] (g ∷ gs) = ⊥
  Coded (h ∷ hs) [] = ⊥
  Coded (h ∷ hs) (g ∷ gs) = (x.bytes32 h ≡ some g) × Coded hs gs

  IsBatch : Str → List Str → (sender : ℕ) → Tx → Type 0
  IsBatch phi hs sender t =
      (p : ℕ) × (gs : List ℕ) × (x.bytes32 phi ≡ some p)
      × Coded hs gs
      × (t ≡ tx_register_batch sender p gs)

  IsProject : Str → (sender : ℕ) → Tx → Type 0
  IsProject phi sender t = (p : ℕ) × (x.bytes32 phi ≡ some p) × (t ≡ tx_register_project sender p)

  -- The project is there, bound to a producer, and each hash is that of a product of it.
  pub record Holds (phi : Str) (hashes : List Str) (s : Storage) : Type 0 where
    pub word : ℕ
    pub coded : x.bytes32 phi ≡ some word
    pub project : (s.projects word).exists ≡ true
    pub products :
        All
          (λ (h : Str). (g : ℕ) × (x.bytes32 h ≡ some g) × ((s.products word g).exists ≡ true))
          hashes

  -- The project was not there, and is bound to a producer afterwards.
  pub record Created (phi : Str) (s s' : Storage) : Type 0 where
    pub word : ℕ
    pub coded : x.bytes32 phi ≡ some word
    pub producer : ℕ
    pub before : (s.projects word).exists ≡ false
    pub after : s'.projects word ≡ record { producer_address = producer; exists = true }

  written_exists :
      (p : ℕ) (gs all : List ℕ) (s s' : Storage) (hs : List Str)
      → Coded hs gs
      → ((g : ℕ) → mem g gs ≡ true → mem g all ≡ true)
      → ((k g : ℕ) → s'.products k g ≡ written p all s k g)
      → All (λ (h : Str). (g : ℕ) × (x.bytes32 h ≡ some g) × ((s'.products p g).exists ≡ true)) hs
  written_exists p [] all s s' [] c sub w = tt
  written_exists p [] all s s' (h ∷ hs) c sub w = absurd c
  written_exists p (g ∷ gs) all s s' [] c sub w = absurd c
  written_exists p (g ∷ gs) all s s' (h ∷ hs) (e, c) sub w = (
    (g, e, ground (arith, w p g, sub g)),
    written_exists p gs all s s' hs c (λ k m. sub k (ground (arith, m))) w,
  )

  rest-All :
      (p : ℕ) (hs : List Str) {s s' : Storage}
      → Extends s s'
      → All (λ (h : Str). (g : ℕ) × (x.bytes32 h ≡ some g) × ((s.products p g).exists ≡ true)) hs
      → All (λ (h : Str). (g : ℕ) × (x.bytes32 h ≡ some g) × ((s'.products p g).exists ≡ true)) hs
  rest-All p [] k a = tt
  rest-All p (h ∷ hs) k ((g, e, old), a) = ((g, e, k.kept p g old), rest-All p hs k a)

  Sent-Holds :
      (phi : Str) (hs : List Str) (s s' : Storage) → Sent x (IsBatch phi hs) s s' → Holds phi hs s'
  unfolding IsBatch execute
  Sent-Holds phi hs s s' k =
      let (p, gs, coded, all, made) = k.built in
      let ran = subst (λ z. execute x.sha256 z k.now k.before ≡ done k.after) made k.ran in
      let (allowed, registered) = register_batch-done k.sender p gs k.before ran in
      record {
        word = p;
        coded = coded;
        project = ground (arith, k.rest.bound p, registered.projects p, allowed.exists);
        products =
            rest-All p hs k.rest
              (written_exists p gs gs k.before k.after hs all (λ _ m. m) registered.products);
      }

  register_project-done :
      (sender phi : ℕ) (s : Storage) {s' : Storage}
      → register_project sender phi s ≡ done s'
      → ((s.projects phi).exists ≡ false)
        × (s'.projects phi ≡ record { producer_address = sender; exists = true })
  unfolding register_project
  register_project-done sender phi s e = (ground arith, ground arith)

  Sent-Created : (phi : Str) (s s' : Storage) → Sent x (IsProject phi) s s' → Created phi s s'
  unfolding IsProject execute
  Sent-Created phi s s' k =
      let (p, coded, made) = k.built in
      let ran = subst (λ z. execute x.sha256 z k.now k.before ≡ done k.after) made k.ran in
      let (absent, bound) = register_project-done k.sender p k.before ran in
      record {
        word = p;
        coded = coded;
        producer = k.sender;
        before = ground (arith, k.start.bound p, absent);
        after = k.rest.bound p (ap (λ z. z.exists) bound) ∙ bound;
      }

  module _ (env : Env) where
    encode_all-Grows : (hs : List Str) → Grows (encode_all x env hs)
    unfolding encode_all
    encode_all-Grows [] = pure-Grows []
    encode_all-Grows (h ∷ hs) =
        bind-Grows (encode_bytes32 x h) _ (encode_bytes32-Grows x h)
          λ g. bind-Grows (encode_all x env hs) _ (encode_all-Grows hs) λ gs. pure-Grows (g ∷ gs)

    encode_all-Coded : (hs : List Str) → Reaches (λ gs _ _. Coded hs gs) (encode_all x env hs)
    unfolding encode_all
    encode_all-Coded [] = pure-Reaches _ [] (λ s. tt)
    encode_all-Coded (h ∷ hs) =
        let closed = value-IsClosed (λ (gs : List ℕ). Coded (h ∷ hs) gs) in
        given-Reaches _ closed (encode_bytes32 x h) _ (encode_bytes32-Grows x h) λ g u v e.
          given-Reaches _ closed (encode_all x env hs) (λ gs. pure (g ∷ gs)) (encode_all-Grows hs)
            λ gs u' v' e'.
              pure-Reaches _ (g ∷ gs)
                (λ s. (encode_bytes32-coded h u e, (encode_all-Coded hs).reaches u' gs v' e'))

    abbrev batch_of : (phi : Str) → List Str → (sender : ℕ) → M Tx
    batch_of phi hs sender = do
      p ← encode_bytes32 x phi
      gs ← encode_all x env hs
      pure (tx_register_batch sender p gs)

    batch_of-IsBatch :
        (phi : Str) (hs : List Str) (sender : ℕ)
        → Reaches (λ t _ _. IsBatch phi hs sender t) (batch_of phi hs sender)
    unfolding IsBatch
    batch_of-IsBatch phi hs sender =
        let closed = value-IsClosed (IsBatch phi hs sender) in
        given-Reaches _ closed (encode_bytes32 x phi) _ (encode_bytes32-Grows x phi) λ p u v e.
          given-Reaches _ closed (encode_all x env hs) (λ gs. pure (tx_register_batch sender p gs))
            (encode_all-Grows hs)
            λ gs u' v' e'. pure-Reaches _ (tx_register_batch sender p gs) λ s.
              (p, gs, encode_bytes32-coded phi u e, (encode_all-Coded hs).reaches u' gs v' e', refl)

    batch_of-Grows : (phi : Str) (hs : List Str) (sender : ℕ) → Grows (batch_of phi hs sender)
    batch_of-Grows phi hs sender =
        search (bind-Grows, encode_bytes32-Grows, encode_all-Grows, pure-Grows)

    pub register_batch_call-Grows :
        (phi : Str) (hs : List Str) (key : EncryptedKey)
        → Grows (register_batch_call x env phi hs key)
    unfolding register_batch_call
    register_batch_call-Grows phi hs key =
        sign_and_send-Grows x (IsBatch phi hs) env phi (batch_of phi hs) (batch_of-Grows phi hs) key

    -- When `registerBatch` of the service returns, at the first attempt or at the retry, the registry
    -- has the project and a product for each of the hashes.
    pub register_batch_call-Holds :
        (phi : Str) (hs : List Str) (key : EncryptedKey)
        → Reaches (λ _ _ s'. Holds phi hs s') (register_batch_call x env phi hs key)
    unfolding register_batch_call
    register_batch_call-Holds phi hs key =
        weaken-Reaches _ (λ _. Sent x (IsBatch phi hs)) _ (λ _. Sent-Holds phi hs)
          (sign_and_send-Sends x (IsBatch phi hs) env phi (batch_of phi hs) (batch_of-Grows phi hs)
            (λ sender t u v e. (batch_of-IsBatch phi hs sender).reaches u t v e) key)

    abbrev project_of : (phi : Str) → (sender : ℕ) → M Tx
    project_of phi sender = do p ← encode_bytes32 x phi; pure (tx_register_project sender p)

    project_of-Grows : (phi : Str) (sender : ℕ) → Grows (project_of phi sender)
    project_of-Grows phi sender = search (bind-Grows, encode_bytes32-Grows, pure-Grows)

    project_of-IsProject :
        (phi : Str) (sender : ℕ) → Reaches (λ t _ _. IsProject phi sender t) (project_of phi sender)
    unfolding IsProject
    project_of-IsProject phi sender =
        given-Reaches _ (value-IsClosed (IsProject phi sender)) (encode_bytes32 x phi) _
          (encode_bytes32-Grows x phi)
          λ p u v e.
            pure-Reaches _ (tx_register_project sender p)
              (λ s. (p, encode_bytes32-coded phi u e, refl))

    pub register_project_call-Grows :
        (phi : Str) (key : EncryptedKey) → Grows (register_project_call x env phi key)
    unfolding register_project_call
    register_project_call-Grows phi key =
        sign_and_send-Grows x (IsProject phi) env phi (project_of phi) (project_of-Grows phi) key

    -- When `registerProject` of the service returns, the registry did not have the project when the call
    -- began, and has it bound to a producer now.
    pub register_project_call-Created :
        (phi : Str) (key : EncryptedKey)
        → Reaches (λ _. Created phi) (register_project_call x env phi key)
    unfolding register_project_call
    register_project_call-Created phi key =
        weaken-Reaches _ (λ _. Sent x (IsProject phi)) _ (λ _. Sent-Created phi)
          (sign_and_send-Sends x (IsProject phi) env phi (project_of phi) (project_of-Grows phi)
            (λ sender t u v e. (project_of-IsProject phi sender).reaches u t v e) key)

  pub later-Holds :
      (phi : Str) (hs : List Str) {s s' : Storage} → Extends s s' → Holds phi hs s → Holds phi hs s'
  later-Holds phi hs g k = record {
    word = k.word;
    coded = k.coded;
    project = ground (arith, g.bound k.word k.project, k.project);
    products = rest-All k.word hs g k.products;
  }

  pub Holds-IsClosed :
      {A : Type 0} (phi : Str) (hs : List Str) → IsClosed {A = A} (λ _ _ s'. Holds phi hs s')
  Holds-IsClosed phi hs = record { before = λ a g k. k; after = λ a k g. later-Holds phi hs g k }

  pub Created-IsClosed : {A : Type 0} (phi : Str) → IsClosed {A = A} (λ _. Created phi)
  Created-IsClosed phi = record {
    before = λ a g k. record {
      word = k.word;
      coded = k.coded;
      producer = k.producer;
      before = ground (arith, g.bound k.word, k.before);
      after = k.after;
    };
    after = λ a k g. record {
      word = k.word;
      coded = k.coded;
      producer = k.producer;
      before = k.before;
      after = g.bound k.word (ap (λ z. z.exists) k.after) ∙ k.after;
    };
  }
