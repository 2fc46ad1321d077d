-- ===== src/Contract/Growth.antt =====
-- Every call of the contract service only extends the registry, whatever the network does and whatever
-- others send meanwhile.
use qr_blockchain_anticounte.Prelude.{
  ℕ, Str, ◌≡◌, refl, Option, none, some, List, if◌then◌else◌, Bool-cases, inl, inr,
}
use qr_blockchain_anticounte.Errors.{js, plain_error}
use qr_blockchain_anticounte.Registry.{Storage, Tx, execute, settle, apply_tx}
use qr_blockchain_anticounte.Registry.Monotone.{
  Extends, Extends-refl, Extends-trans, apply_tx-Extends, apply_all-Extends,
}
use qr_blockchain_anticounte.World.{
  Outside, Env, World, M, Result, ok, err, Net, up, fail, lost, pure, throw, CacheValue, ◌>>=◌,
  ◌>>◌, modify,
}
use qr_blockchain_anticounte.World.Laws.{
  Grows, pure-Grows, throw-Grows, gets-Grows, modify-Grows, bind-Grows, catching-Grows,
  throw_unless-Grows, if-Grows,
}
use qr_blockchain_anticounte.Wallet.{
  EncryptedKey, with_wallet, or_throw, is_set, decrypt_to_bytes, assert_kek_ready,
}
use qr_blockchain_anticounte.Contract.{
  advance, answered, eth_call, encode_bytes32, send_transaction, sent, wait_receipt, receipt_of,
  get_block, Receipt, cached_view, hit_or_miss, count_hit, count_miss, store_value, live_value,
  cache_get, require_contract, reinit_contract, with_retry_on_rpc_error, mapping_reverts,
  is_rpc_error, fetch_product, verify_product_call, invalidate_cache, finish_redemption,
  submit_redemption, fetch_exists, project_exists_call, redeem_attempt, redeem_product_call,
}

answered-registry : {A : Type 0} (n : Net) (r : Result A) (w : World) → (answered n r w).1 ≡ w
answered-registry up r w = refl
answered-registry (fail e) r w = refl
answered-registry (lost e) r w = refl

module _ (x : Outside) where
  advance-Extends : (w : World) → Extends w.registry (advance x w).registry
  advance-Extends w = apply_all-Extends x.sha256 (x.others w.tick) (x.block_time w.tick) w.registry

  pub eth_call-Grows : {A : Type 0} (f : Storage → A) → Grows (eth_call x f)
  unfolding eth_call
  eth_call-Grows f = record {
    grows = λ w.
        rw (answered-registry (x.net w.tick) (ok (f (advance x w).registry)) (advance x w))
          (advance-Extends w);
  }

  encoded_grows :
      (w : World) (o : Option ℕ)
      → Extends w.registry
          (elim o as (λ _. Result ℕ × World) [
            | none ↦ (err (js x.invalid_argument), w)
            | some word ↦ (ok word, w)
          ]).1.registry
  encoded_grows w none = Extends-refl w.registry
  encoded_grows w (some n) = Extends-refl w.registry

  pub encode_bytes32-Grows : (text : Str) → Grows (encode_bytes32 x text)
  unfolding encode_bytes32
  encode_bytes32-Grows text = record { grows = λ w. encoded_grows w (x.bytes32 text) }

  sent-Extends :
      (n : Net) (t : Tx) (now : ℕ) (w : World) → Extends w.registry (sent x n t now w).1.registry
  sent-Extends up t now w = Extends-refl w.registry
  sent-Extends (fail e) t now w = Extends-refl w.registry
  sent-Extends (lost e) t now w = apply_tx-Extends x.sha256 t now w.registry

  pub send_transaction-Grows : (t : Tx) → Grows (send_transaction x t)
  unfolding send_transaction
  send_transaction-Grows t = record {
    grows = λ w.
        Extends-trans (advance-Extends w)
          (sent-Extends (x.net w.tick) t (x.block_time w.tick) (advance x w));
  }

  pub wait_receipt-Grows : (t : Tx) → Grows (wait_receipt x t)
  unfolding wait_receipt apply_tx
  wait_receipt-Grows t = record {
    grows = λ w.
        let w' = advance x w in
        let m = execute x.sha256 t (x.block_time w.tick) w'.registry in
        rw
          (answered-registry (x.net w.tick) (receipt_of x m w.tick)
            (record w' { registry = settle m w'.registry }))
          (Extends-trans (advance-Extends w)
            (apply_tx-Extends x.sha256 t (x.block_time w.tick) w'.registry));
  }

  pub get_block-Grows : (n : ℕ) → Grows (get_block x n)
  unfolding get_block
  get_block-Grows n = record {
    grows = λ w.
        rw
          (answered-registry (x.net w.tick)
            (ok (if x.has_block w.tick then some (x.block_time n) else none)) (advance x w))
          (advance-Extends w);
  }

  pub or_throw-Grows : {A : Type 0} (o : Option A) (s : Str) → Grows (or_throw o s)
  or_throw-Grows {A} none s = throw-Grows A (js (plain_error s))
  or_throw-Grows (some a) s = pure-Grows a

  assert_kek_ready-Grows : Grows (assert_kek_ready x)
  unfolding assert_kek_ready
  assert_kek_ready-Grows = record { grows = λ w. (throw_unless-Grows _ _).grows w }

  pub decrypt_to_bytes-Grows : (enc : EncryptedKey) → Grows (decrypt_to_bytes x enc)
  unfolding decrypt_to_bytes
  decrypt_to_bytes-Grows enc =
      search (bind-Grows, assert_kek_ready-Grows, gets-Grows, or_throw-Grows)

  pub with_wallet-Grows :
      {A : Type 0} (enc : EncryptedKey) (fn : ℕ → M A)
      → ((a : ℕ) → Grows (fn a))
      → Grows (with_wallet x enc fn)
  unfolding with_wallet
  with_wallet-Grows enc fn g = search (bind-Grows, decrypt_to_bytes-Grows, or_throw-Grows, g)

  module _ (env : Env) where
    pub require_contract-Grows : Grows (require_contract x env)
    unfolding require_contract
    require_contract-Grows = record { grows = λ w. (throw_unless-Grows _ _).grows w }

    pub reinit_contract-registry : (w : World) → (reinit_contract x env w).1.registry ≡ w.registry
    unfolding reinit_contract
    reinit_contract-registry w = elim (Bool-cases (is_set env.contract_address)) [
      | inl e ↦ rw e refl
      | inr e ↦ rw e refl
    ]

    pub reinit_contract-Grows : Grows (reinit_contract x env)
    reinit_contract-Grows = record {
      grows = λ w. rw (reinit_contract-registry w) (Extends-refl w.registry);
    }

    pub with_retry-Grows :
        {A : Type 0} (fn : M A) → Grows fn → Grows (with_retry_on_rpc_error x env fn)
    unfolding with_retry_on_rpc_error
    with_retry-Grows {A} fn g = catching-Grows fn _ g λ e.
        if-Grows {A = A} (is_rpc_error e) (reinit_contract x env >> fn) (throw e)
          (bind-Grows (reinit_contract x env) (λ _. fn) reinit_contract-Grows (λ _. g))
          (throw-Grows A e)

    pub mapping_reverts-Grows : {A : Type 0} (m : M A) → Grows m → Grows (mapping_reverts x env m)
    unfolding mapping_reverts
    mapping_reverts-Grows m g = search (catching-Grows, throw-Grows, g)

    hit_or_miss-Grows :
        (key : Str) (now : ℕ) (fn : M CacheValue) (o : Option CacheValue)
        → Grows fn
        → Grows (hit_or_miss key now fn o)
    hit_or_miss-Grows key now fn (some v) g =
        bind-Grows (modify count_hit) (λ _. pure v) (modify-Grows count_hit (λ w. refl))
          (λ _. pure-Grows v)
    hit_or_miss-Grows key now fn none g =
        bind-Grows (modify count_miss) (λ _. fn >>= λ v. modify (store_value key v now) >> pure v)
          (modify-Grows count_miss (λ w. refl))
          λ _.
            bind-Grows fn (λ v. modify (store_value key v now) >> pure v) g
              λ v.
                bind-Grows (modify (store_value key v now)) (λ _. pure v)
                  (modify-Grows (store_value key v now) (λ w. refl)) λ _. pure-Grows v

    pub cached_view-Grows :
        (key : Str) (fn : M CacheValue) → Grows fn → Grows (cached_view x env key fn)
    unfolding cached_view
    cached_view-Grows key fn g = record {
      grows = λ w.
          let now = x.clock w.tick in
          (hit_or_miss-Grows key now fn (live_value (cache_get key w.view_cache) now) g).grows w;
    }

    fetch_product-Grows : (phi h : Str) → Grows (fetch_product x env phi h)
    unfolding fetch_product
    fetch_product-Grows phi h =
        search
          (
            with_retry-Grows, mapping_reverts-Grows, bind-Grows, require_contract-Grows,
            encode_bytes32-Grows, eth_call-Grows,
          )
          depth 9

    pub verify_product_call-Grows : (phi h : Str) → Grows (verify_product_call x env phi h)
    unfolding verify_product_call
    verify_product_call-Grows phi h =
        search (bind-Grows, cached_view-Grows, fetch_product-Grows, pure-Grows)

    fetch_exists-Grows : (phi : Str) → Grows (fetch_exists x env phi)
    unfolding fetch_exists
    fetch_exists-Grows phi =
        search
          (
            with_retry-Grows, mapping_reverts-Grows, bind-Grows, require_contract-Grows,
            encode_bytes32-Grows, eth_call-Grows,
          )
          depth 9

    pub project_exists_call-Grows : (phi : Str) → Grows (project_exists_call x env phi)
    unfolding project_exists_call
    project_exists_call-Grows phi =
        search (bind-Grows, cached_view-Grows, fetch_exists-Grows, pure-Grows)

    pub invalidation-Grows : (phi : Str) → Grows (modify (invalidate_cache phi))
    unfolding invalidate_cache
    invalidation-Grows phi = modify-Grows _ (λ w. refl)

    pub finish_redemption-Grows :
        (phi : Str) (r : Option Receipt) → Grows (finish_redemption x env phi r)
    unfolding finish_redemption
    finish_redemption-Grows phi r =
        search
          (bind-Grows, or_throw-Grows, get_block-Grows, invalidation-Grows, gets-Grows, pure-Grows)
          depth 9

    pub submit_redemption-Grows :
        (phi : Str) (sid : List ℕ) → Grows (submit_redemption x env phi sid)
    unfolding submit_redemption
    submit_redemption-Grows phi sid =
        search
          (
            bind-Grows, encode_bytes32-Grows, send_transaction-Grows, wait_receipt-Grows,
            finish_redemption-Grows,
          )
          depth 7

    pub redeem_attempt-Grows : (phi : Str) (sid : List ℕ) → Grows (redeem_attempt x env phi sid)
    unfolding redeem_attempt
    redeem_attempt-Grows phi sid = search (
      mapping_reverts-Grows, bind-Grows, throw_unless-Grows, require_contract-Grows,
      submit_redemption-Grows,
    )

    pub redeem_product_call-Grows :
        (phi : Str) (sid : List ℕ) → Grows (redeem_product_call x env phi sid)
    unfolding redeem_product_call
    redeem_product_call-Grows phi sid = with_retry-Grows _ (redeem_attempt-Grows phi sid)
