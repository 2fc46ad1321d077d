-- ===== src/Contract/Redemption.antt =====
-- A redemption that the contract service reports as successful took place on the chain, during the
-- call, and not before it.
use qr_blockchain_anticounte.Prelude.{ℕ, Str, ◌≡◌, refl, ap, subst, Option, none, some, List}
use qr_blockchain_anticounte.Errors.{js}
use qr_blockchain_anticounte.Registry.{
  Storage, tx_redeem, Mined, done, reverted, execute, settle, redeem_product, redeem_hash,
}
use qr_blockchain_anticounte.Registry.Monotone.{Extends, Extends-refl, apply_all-Extends}
use qr_blockchain_anticounte.Registry.Redeem.{
  Spent, Extends-Spent, redeem_hash-Spent, redeem_hash_of_Spent,
}
use qr_blockchain_anticounte.World.{
  Outside, Env, World, M, Result, ok, err, Net, up, fail, lost, throw, ◌>>=◌, ◌>>◌, throw_unless,
}
use qr_blockchain_anticounte.World.Laws.{Grows, throw_unless-Grows}
use qr_blockchain_anticounte.World.Reaching.{
  Reaches, IsClosed, later-Reaches, here-Reaches, catching-Reaches, throw-Reaches, if-Reaches,
}
use qr_blockchain_anticounte.Contract.{
  advance, answered, encode_bytes32, send_transaction, wait_receipt, receipt_of, Receipt,
  require_contract, reinit_contract, with_retry_on_rpc_error, mapping_reverts, is_rpc_error,
  redeem_attempt, redeem_product_call, finish_redemption, submit_redemption,
}
use qr_blockchain_anticounte.Contract.Growth.{
  send_transaction-Grows, redeem_attempt-Grows, reinit_contract-Grows, require_contract-Grows,
  finish_redemption-Grows, submit_redemption-Grows,
}

-- Within the run from the first storage to the last the product became redeemed.
pub record Taken (phi h : ℕ) (s s' : Storage) : Type 0 where
  pub unspent : ¬ Spent phi h s
  pub spent : Spent phi h s'

-- A change before or after it that only extends the storage does not matter.
pub Taken-within :
    (phi h : ℕ) {s t u v : Storage} → Extends s t → Taken phi h t u → Extends u v → Taken phi h s v
Taken-within phi h before k after = record {
  unspent = λ p. k.unspent (Extends-Spent phi h before p);
  spent = Extends-Spent phi h after k.spent;
}

module _ (x : Outside) where
  settled :
      (n : Net) (p now tick : ℕ) (sid : List ℕ) (s : Storage) (m : Mined) (w : World)
      {r : Option Receipt} {w' : World}
      → redeem_hash p (x.sha256 sid) now s ≡ m
      → answered n (receipt_of x m tick) (record w { registry = settle m s }) ≡ (ok r, w')
      → Taken p (x.sha256 sid) s w'.registry
  settled up p now tick sid s (done s') w e k = record {
    unspent = λ sp. cc (redeem_hash_of_Spent p (x.sha256 sid) now s sp, e);
    spent =
        subst (λ z. Spent p (x.sha256 sid) z) (ap (λ z. z.1.registry) k)
          (redeem_hash-Spent p (x.sha256 sid) now s e);
  }
  settled up p now tick sid s (reverted r) w e k = cc
  settled (fail z) p now tick sid s m w e k = cc
  settled (lost z) p now tick sid s m w e k = cc

  -- The same for the identifier that the coder reads from a text.
  pub record TakenFor (phi : Str) (h : ℕ) (s s' : Storage) : Type 0 where
    pub word : ℕ
    pub coded : x.bytes32 phi ≡ some word
    pub taken : Taken word h s s'

  abbrev pub Takes : {A : Type 0} → (phi : Str) → (h : ℕ) → M A → Type 0
  Takes phi h m = Reaches (λ _. TakenFor phi h) m

  pub TakenFor-IsClosed : (A : Type 0) (phi : Str) (h : ℕ) → IsClosed {A = A} (λ _. TakenFor phi h)
  TakenFor-IsClosed A phi h = record {
    before = λ a g k. record {
      word = k.word;
      coded = k.coded;
      taken = Taken-within k.word h g k.taken (Extends-refl _);
    };
    after = λ a k g. record {
      word = k.word;
      coded = k.coded;
      taken = Taken-within k.word h (Extends-refl _) k.taken g;
    };
  }

  -- The transaction is mined between sending and the receipt.
  wait_receipt-Takes :
      (phi : Str) (p : ℕ) (sid : List ℕ)
      → x.bytes32 phi ≡ some p
      → Takes phi (x.sha256 sid) (wait_receipt x (tx_redeem p sid))
  unfolding wait_receipt execute redeem_product
  wait_receipt-Takes phi p sid coded = record {
    reaches = λ w a w' e.
        let now = x.block_time w.tick in
        let v = advance x w in
        record {
          word = p;
          coded = coded;
          taken =
              Taken-within p (x.sha256 sid)
                (apply_all-Extends x.sha256 (x.others w.tick) now w.registry)
                (settled (x.net w.tick) p now w.tick sid v.registry
                  (redeem_hash p (x.sha256 sid) now v.registry) v refl e)
                (Extends-refl w'.registry);
        };
  }

  encoded_takes :
      {A : Type 0} (phi : Str) (h : ℕ) (f : ℕ → M A) (o : Option ℕ) (w : World) (a : A) (w' : World)
      → x.bytes32 phi ≡ o
      → ((p : ℕ) → x.bytes32 phi ≡ some p → Takes phi h (f p))
      → ((λ (v : World). (elim o as (λ _. Result ℕ × World) [
        | none ↦ (err (js x.invalid_argument), v)
        | some word ↦ (ok word, v)
      ]))
            >>= f)
          w
        ≡ (ok a, w')
      → TakenFor phi h w.registry w'.registry
  encoded_takes phi h f none w a w' e k q = absurd (cc q)
  encoded_takes phi h f (some p) w a w' e k q = (k p e).reaches w a w' q

  encode_bytes32-Takes :
      {A : Type 0} (phi : Str) (h : ℕ) (f : ℕ → M A)
      → ((p : ℕ) → x.bytes32 phi ≡ some p → Takes phi h (f p))
      → Takes phi h (encode_bytes32 x phi >>= f)
  unfolding encode_bytes32
  encode_bytes32-Takes phi h f k = record {
    reaches = λ w a w' q. encoded_takes phi h f (x.bytes32 phi) w a w' refl k q;
  }

  module _ (env : Env) where
    later :
        {A B : Type 0} (phi : Str) (h : ℕ) (m : M A) (f : A → M B)
        → Grows m
        → ((a : A) → Takes phi h (f a))
        → Takes phi h (m >>= f)
    later {A} {B} phi h m f = later-Reaches (λ _. TakenFor phi h) (TakenFor-IsClosed B phi h) m f

    mapping_reverts-Takes :
        {A : Type 0} (phi : Str) (h : ℕ) (m : M A)
        → Grows m
        → Takes phi h m
        → Takes phi h (mapping_reverts x env m)
    unfolding mapping_reverts
    mapping_reverts-Takes {A} phi h m g k =
        catching-Reaches _ (TakenFor-IsClosed A phi h) m _ g k (λ e. throw-Reaches _ _)

    with_retry-Takes :
        {A : Type 0} (phi : Str) (h : ℕ) (fn : M A)
        → Grows fn
        → Takes phi h fn
        → Takes phi h (with_retry_on_rpc_error x env fn)
    unfolding with_retry_on_rpc_error
    with_retry-Takes {A} phi h fn g k = catching-Reaches _ (TakenFor-IsClosed A phi h) fn _ g k λ e.
        if-Reaches {A = A} _ (is_rpc_error e) (reinit_contract x env >> fn) (throw e)
          (later phi h (reinit_contract x env) (λ _. fn) (reinit_contract-Grows x env) (λ _. k))
          (throw-Reaches _ e)

    submit_redemption-Takes :
        (phi : Str) (sid : List ℕ) → Takes phi (x.sha256 sid) (submit_redemption x env phi sid)
    unfolding submit_redemption
    submit_redemption-Takes phi sid = encode_bytes32-Takes phi (x.sha256 sid) _ λ p coded.
        later phi (x.sha256 sid) (send_transaction x (tx_redeem p sid)) _
          (send_transaction-Grows x (tx_redeem p sid))
          λ _.
            here-Reaches (TakenFor phi (x.sha256 sid)) (TakenFor-IsClosed _ phi (x.sha256 sid))
              (wait_receipt x (tx_redeem p sid)) (finish_redemption x env phi)
              (wait_receipt-Takes phi p sid coded) (finish_redemption-Grows x env phi)

    redeem_attempt-Takes :
        (phi : Str) (sid : List ℕ) → Takes phi (x.sha256 sid) (redeem_attempt x env phi sid)
    unfolding redeem_attempt
    redeem_attempt-Takes phi sid =
        later phi (x.sha256 sid) (require_contract x env) _ (require_contract-Grows x env) λ _.
          later phi (x.sha256 sid) (throw_unless _ _)
            (λ _. mapping_reverts x env (submit_redemption x env phi sid)) (throw_unless-Grows _ _)
            λ _.
              mapping_reverts-Takes phi (x.sha256 sid) (submit_redemption x env phi sid)
                (submit_redemption-Grows x env phi sid) (submit_redemption-Takes phi sid)

    -- A redemption that is reported as successful, at the first attempt or at the retry, was carried out
    -- by the registry during the call: the product was not redeemed before, and is redeemed afterwards.
    pub redeem_product_call-Takes :
        (phi : Str) (sid : List ℕ) → Takes phi (x.sha256 sid) (redeem_product_call x env phi sid)
    unfolding redeem_product_call
    redeem_product_call-Takes phi sid =
        with_retry-Takes phi (x.sha256 sid) (redeem_attempt x env phi sid)
          (redeem_attempt-Grows x env phi sid) (redeem_attempt-Takes phi sid)
