-- ===== src/Contract/Registration.antt =====
-- A registration that the contract service reports as successful was carried out by the registry
-- during the call (apps/coordination-hub/src/blockchain/ethers-contract.service.ts).
use qr_blockchain_anticounte.Prelude.{
  ℕ, ◌==◌, Str, length, ◌≡◌, refl, ◌∙◌, ap, Option, if◌then◌else◌, arith,
}
use qr_blockchain_anticounte.Registry.{Storage, Tx, Mined, done, reverted, execute, settle}
use qr_blockchain_anticounte.Registry.Monotone.{
  Extends, Extends-trans, Extends-refl, apply_all-Extends,
}
use qr_blockchain_anticounte.World.{
  Outside, Env, World, M, ok, Net, up, fail, lost, throw, ◌>>=◌, ◌>>◌, modify,
}
use qr_blockchain_anticounte.World.Laws.{Grows, bind-Grows, modify-Grows, pure-Grows}
use qr_blockchain_anticounte.World.Reaching.{
  Reaches, IsClosed, later-Reaches, here-Reaches, catching-Reaches, throw-Reaches, if-Reaches,
  given-Reaches,
}
use qr_blockchain_anticounte.Wallet.{EncryptedKey, with_wallet, or_throw, decrypt_to_bytes}
use qr_blockchain_anticounte.Hex.{bytes_to_hex}
use qr_blockchain_anticounte.Contract.{
  advance, answered, send_transaction, wait_receipt, receipt_of, Receipt, require_contract,
  reinit_contract, with_retry_on_rpc_error, mapping_reverts, is_rpc_error, submit_signed,
  finish_signed, sign_and_send, invalidate_cache,
}
use qr_blockchain_anticounte.Contract.Growth.{
  send_transaction-Grows, wait_receipt-Grows, or_throw-Grows, reinit_contract-Grows,
  require_contract-Grows, with_wallet-Grows, mapping_reverts-Grows, with_retry-Grows,
  decrypt_to_bytes-Grows,
}

module _ (x : Outside) where
  -- Within the run from the first storage to the last a transaction was mined, and did not revert; it
  -- is one that some sender built.
  pub record Sent (P : ℕ → Tx → Type 0) (s s' : Storage) : Type 0 where
    pub sender : ℕ
    pub tx : Tx
    pub built : P sender tx
    pub now : ℕ
    pub before : Storage
    pub after : Storage
    pub start : Extends s before
    pub ran : execute x.sha256 tx now before ≡ done after
    pub rest : Extends after s'

  module _ (P : ℕ → Tx → Type 0) where
    pub Sent-IsClosed : (A : Type 0) → IsClosed {A = A} (λ _. Sent P)
    Sent-IsClosed A = record {
      before = λ a g k. record {
        sender = k.sender;
        tx = k.tx;
        built = k.built;
        now = k.now;
        before = k.before;
        after = k.after;
        start = Extends-trans g k.start;
        ran = k.ran;
        rest = k.rest;
      };
      after = λ a k g. record {
        sender = k.sender;
        tx = k.tx;
        built = k.built;
        now = k.now;
        before = k.before;
        after = k.after;
        start = k.start;
        ran = k.ran;
        rest = Extends-trans k.rest g;
      };
    }

    abbrev Sends : {A : Type 0} → M A → Type 0
    Sends m = Reaches (λ _. Sent P) m

    mined :
        (n : Net) (t : Tx) (tick now : ℕ) (s : Storage) (m : Mined) (w : World) {r : Option Receipt}
        {w' : World}
        → execute x.sha256 t now s ≡ m
        → answered n (receipt_of x m tick) (record w { registry = settle m s }) ≡ (ok r, w')
        → execute x.sha256 t now s ≡ done w'.registry
    mined up t tick now s (done s') w e k = e ∙ ap (λ z. done z.1.registry) k
    mined up t tick now s (reverted r) w e k = cc
    mined (fail z) t tick now s m w e k = cc
    mined (lost z) t tick now s m w e k = cc

    wait_receipt-Sends : (sender : ℕ) (t : Tx) → P sender t → Sends (wait_receipt x t)
    unfolding wait_receipt
    wait_receipt-Sends sender t p = record {
      reaches = λ w a w' e.
          let now = x.block_time w.tick in
          let v = advance x w in
          record {
            sender = sender;
            tx = t;
            built = p;
            now = now;
            before = v.registry;
            after = w'.registry;
            start = apply_all-Extends x.sha256 (x.others w.tick) now w.registry;
            ran =
                mined (x.net w.tick) t w.tick now v.registry (execute x.sha256 t now v.registry) v
                  refl e;
            rest = Extends-refl w'.registry;
          };
    }

    module _ (env : Env) where
      later :
          {A B : Type 0} (m : M A) (f : A → M B)
          → Grows m
          → ((a : A) → Sends (f a))
          → Sends (m >>= f)
      later {A} {B} m f = later-Reaches (λ _. Sent P) (Sent-IsClosed B) m f

      dropped_key-Grows :
          (phi : Str) → Grows (modify (λ w. if length phi == 0 then w else invalidate_cache phi w))
      unfolding invalidate_cache
      dropped_key-Grows phi = modify-Grows _ (λ w. ground arith)

      finish_signed-Grows : (phi : Str) (r : Option Receipt) → Grows (finish_signed x env phi r)
      unfolding finish_signed
      finish_signed-Grows phi r =
          search (bind-Grows, or_throw-Grows, dropped_key-Grows, pure-Grows) depth 7

      submit_signed-Grows : (phi : Str) (t : Tx) → Grows (submit_signed x env phi t)
      unfolding submit_signed
      submit_signed-Grows phi t =
          search (bind-Grows, send_transaction-Grows, wait_receipt-Grows, finish_signed-Grows) depth
            7

      submit_signed-Sends :
          (phi : Str) (sender : ℕ) (t : Tx) → P sender t → Sends (submit_signed x env phi t)
      unfolding submit_signed
      submit_signed-Sends phi sender t p =
          later (send_transaction x t) _ (send_transaction-Grows x t) λ _.
            here-Reaches (Sent P) (Sent-IsClosed _) (wait_receipt x t) (finish_signed x env phi)
              (wait_receipt-Sends sender t p) (finish_signed-Grows phi)

      -- what an attempt at `signAndSend` does with a sender
      abbrev signed_by : (phi : Str) → (ℕ → M Tx) → (sender : ℕ) → M Str
      signed_by phi build sender =
          require_contract x env >> mapping_reverts x env (build sender >>= submit_signed x env phi)

      module _ (phi : Str) (build : ℕ → M Tx) (build-Grows : (a : ℕ) → Grows (build a)) where
        signed_by-Grows : (sender : ℕ) → Grows (signed_by phi build sender)
        signed_by-Grows sender =
            search
              (
                bind-Grows, require_contract-Grows, mapping_reverts-Grows, build-Grows,
                submit_signed-Grows,
              )
              depth 7

        attempt-Grows : (key : EncryptedKey) → Grows (with_wallet x key (signed_by phi build))
        attempt-Grows key = with_wallet-Grows x key (signed_by phi build) signed_by-Grows

        pub sign_and_send-Grows : (key : EncryptedKey) → Grows (sign_and_send x env key phi build)
        unfolding sign_and_send
        sign_and_send-Grows key =
            with_retry-Grows x env (with_wallet x key (signed_by phi build)) (attempt-Grows key)

        module _
            (builds : (sender : ℕ) (t : Tx) (u v : World)
              → build sender u ≡ (ok t, v)
              → P sender t) where
          signed_by-Sends : (sender : ℕ) → Sends (signed_by phi build sender)
          unfolding mapping_reverts
          signed_by-Sends sender =
              let body = build sender >>= submit_signed x env phi in
              later (require_contract x env) (λ _. mapping_reverts x env body)
                (require_contract-Grows x env)
                λ _.
                  catching-Reaches _ (Sent-IsClosed _) body _
                    (bind-Grows (build sender) (submit_signed x env phi) (build-Grows sender)
                      (submit_signed-Grows phi))
                    (given-Reaches _ (Sent-IsClosed _) (build sender) (submit_signed x env phi)
                      (build-Grows sender)
                      λ t u v e. submit_signed-Sends phi sender t (builds sender t u v e))
                    (λ e. throw-Reaches _ _)

          attempt-Sends : (key : EncryptedKey) → Sends (with_wallet x key (signed_by phi build))
          unfolding with_wallet
          attempt-Sends key = later (decrypt_to_bytes x key) _ (decrypt_to_bytes-Grows x key) λ pk.
              later (or_throw (x.wallet_address (bytes_to_hex pk)) _) (signed_by phi build)
                (or_throw-Grows x _ _) signed_by-Sends

          pub sign_and_send-Sends : (key : EncryptedKey) → Sends (sign_and_send x env key phi build)
          unfolding sign_and_send with_retry_on_rpc_error
          sign_and_send-Sends key =
              let fn = with_wallet x key (signed_by phi build) in
              catching-Reaches _ (Sent-IsClosed _) fn _ (attempt-Grows key) (attempt-Sends key) λ e.
                if-Reaches {A = Str} _ (is_rpc_error e) (reinit_contract x env >> fn) (throw e)
                  (later (reinit_contract x env) (λ _. fn) (reinit_contract-Grows x env)
                    (λ _. attempt-Sends key))
                  (throw-Reaches _ e)
