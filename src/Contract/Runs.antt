-- ===== src/Contract/Runs.antt =====
-- Calls of the contract service on a calm network: they return, with the registry's answer.
use qr_blockchain_anticounte.Prelude.{
  ℕ, Str, ◌≡◌, ◌∙◌, ap, refl, arith, Option, none, some, List, [], true,
}
use qr_blockchain_anticounte.Registry.{Storage, verify_product, apply_all}
use qr_blockchain_anticounte.World.{
  Outside, Env, World, VerificationLog, up, CacheValue, product, M, ◌>>=◌,
}
use qr_blockchain_anticounte.World.Runs.{Runs, pure-Runs, bind-Runs, weaken-Runs}
use qr_blockchain_anticounte.Hex.{is_phi}
use qr_blockchain_anticounte.Contract.{
  advance, eth_call, encode_bytes32, require_contract, with_retry_on_rpc_error, mapping_reverts,
  cached_view, cache_get, hit_or_miss, live_value, view_result, fetch_product, verify_product_call,
  verify_key, as_product, count_hit, count_miss, store_value,
}

-- The node answers, nobody else sends a transaction, receipts and the database are there.
pub record IsCalm (x : Outside) : Type 0 where
  pub answers : (t : ℕ) → x.net t ≡ up
  pub alone : (t : ℕ) → x.others t ≡ []
  pub receipts : (t : ℕ) → x.has_receipt t ≡ true
  pub stores : (t : ℕ) → x.db t ≡ none
  pub hashes : (t : ℕ) → is_phi (x.tx_hash t) ≡ true

-- The registry and the collection of logs of a state with a contract object.
pub record At (s : Storage) (l : List VerificationLog) (w : World) : Type 0 where
  pub stored : w.registry ≡ s
  pub logged : w.logs ≡ l
  pub ready : w.contract ≡ true

module _ (x : Outside) (env : Env) (calm : IsCalm x) (s : Storage) (l : List VerificationLog) where
  pub advance-At : (w : World) → At s l w → At s l (advance x w)
  unfolding apply_all
  advance-At w p = record {
    stored = ground (arith, p.stored, calm.alone w.tick);
    logged = p.logged;
    ready = p.ready;
  }

  pub eth_call-Runs :
      {A : Type 0} (f : Storage → A) (w : World)
      → At s l w
      → Runs (eth_call x f) w (λ a v. (a ≡ f s) × At s l v)
  unfolding eth_call
  eth_call-Runs f w p =
      let q = advance-At w p in
      record {
        value = f (advance x w).registry;
        end = advance x w;
        ran = ground (arith, calm.answers w.tick);
        holds = (ground (arith, q.stored), q);
      }

  pub encode_bytes32-Runs :
      (text : Str) (n : ℕ) (w : World)
      → x.bytes32 text ≡ some n
      → At s l w
      → Runs (encode_bytes32 x text) w (λ a v. (a ≡ n) × At s l v)
  unfolding encode_bytes32
  encode_bytes32-Runs text n w e p = record {
    value = n;
    end = w;
    ran = ground (arith, e);
    holds = (refl, p);
  }

  pub require_contract-Runs : (w : World) → At s l w → Runs (require_contract x env) w (λ _. At s l)
  unfolding require_contract
  require_contract-Runs w p = record {
    value = tt;
    end = w;
    ran = ground (arith, p.ready);
    holds = p;
  }

  -- A call that does not fail is not run again, and its errors are not mapped.
  pub with_retry-Runs :
      {A : Type 0} (P : A → World → Type 0) (fn : M A) (w : World)
      → Runs fn w P
      → Runs (with_retry_on_rpc_error x env fn) w P
  unfolding with_retry_on_rpc_error
  with_retry-Runs P fn w r = record {
    value = r.value;
    end = r.end;
    ran = ground (arith, r.ran);
    holds = r.holds;
  }

  pub mapping_reverts-Runs :
      {A : Type 0} (P : A → World → Type 0) (m : M A) (w : World)
      → Runs m w P
      → Runs (mapping_reverts x env m) w P
  unfolding mapping_reverts
  mapping_reverts-Runs P m w r = record {
    value = r.value;
    end = r.end;
    ran = ground (arith, r.ran);
    holds = r.holds;
  }

  -- What a live entry of the cache holds is returned, else what the call returns.
  module _ (P : CacheValue → Type 0) where
    hit_or_miss-Runs :
        (key : Str) (now : ℕ) (fn : M CacheValue) (o : Option CacheValue) (w : World)
        → ((u : World) → At s l u → Runs fn u (λ a v. P a × At s l v))
        → ((c : CacheValue) → o ≡ some c → P c)
        → At s l w
        → Runs (hit_or_miss key now fn o) w (λ a v. P a × At s l v)
    hit_or_miss-Runs key now fn (some c) w k hit p = record {
      value = c;
      end = count_hit w;
      ran = refl;
      holds = (hit c refl, record { stored = p.stored; logged = p.logged; ready = p.ready });
    }
    hit_or_miss-Runs key now fn none w k hit p =
        let r =
          k (count_miss w) (record { stored = p.stored; logged = p.logged; ready = p.ready }) in
        let q = r.holds.1 in
        record {
          value = r.value;
          end = store_value key r.value now r.end;
          ran = ground (arith, r.ran);
          holds = (r.holds.0, record { stored = q.stored; logged = q.logged; ready = q.ready });
        }

    cached_view-Runs :
        (key : Str) (fn : M CacheValue) (w : World)
        → ((u : World) → At s l u → Runs fn u (λ a v. P a × At s l v))
        → ((c : CacheValue)
            → live_value (cache_get key w.view_cache) (x.clock w.tick) ≡ some c
            → P c)
        → At s l w
        → Runs (cached_view x env key fn) w (λ a v. P a × At s l v)
    unfolding cached_view
    cached_view-Runs key fn w k hit p =
        let r =
          hit_or_miss-Runs key (x.clock w.tick) fn
            (live_value (cache_get key w.view_cache) (x.clock w.tick)) w k hit p in
        record { value = r.value; end = r.end; ran = r.ran; holds = r.holds }

  module _ (phi h : Str) (p g : ℕ) (phi_coded : x.bytes32 phi ≡ some p)
      (h_coded : x.bytes32 h ≡ some g) where
    abbrev pub truth : CacheValue
    truth = product (view_result x env (verify_product p g s))

    submit_view-Runs :
        (w : World)
        → At s l w
        → Runs
            (do
              a ← encode_bytes32 x phi
              b ← encode_bytes32 x h
              eth_call x (λ z. product (view_result x env (verify_product a b z))))
            w
            (λ a v. (a ≡ truth) × At s l v)
    submit_view-Runs w q =
        bind-Runs (λ a v. (a ≡ p) × At s l v) _ _ _ w (encode_bytes32-Runs phi p w phi_coded q)
          λ a u k.
            bind-Runs (λ b v. (b ≡ g) × At s l v) _ _ _ u (encode_bytes32-Runs h g u h_coded k.1)
              λ b v k'.
                weaken-Runs _ _ _ v (λ c z r. (r.0 ∙ ground (arith, k.0, k'.0), r.1))
                  (eth_call-Runs (λ z. product (view_result x env (verify_product a b z))) v k'.1)

    fetch_product-Runs :
        (w : World) → At s l w → Runs (fetch_product x env phi h) w (λ a v. (a ≡ truth) × At s l v)
    unfolding fetch_product
    fetch_product-Runs w q = with_retry-Runs _ _ w (
        bind-Runs (λ _. At s l) _ _ _ w (require_contract-Runs w q)
          (λ _ u k. mapping_reverts-Runs _ _ u (submit_view-Runs u k)))

    -- Whatever the cache holds, the call returns and leaves the registry and the logs.
    pub verify_product_call-Runs :
        (w : World) → At s l w → Runs (verify_product_call x env phi h) w (λ _. At s l)
    unfolding verify_product_call
    verify_product_call-Runs w q =
        bind-Runs (λ _ v. Unit {0} × At s l v) _ _ _ w
          (cached_view-Runs (λ _. Unit {0}) (verify_key phi h) (fetch_product x env phi h) w
            (λ u k. weaken-Runs _ _ _ u (λ a v r. (tt, r.1)) (fetch_product-Runs u k)) (λ _ _. tt)
            q)
          (λ a v k. pure-Runs _ (as_product a) v k.1)

    -- When the cache holds nothing else of the product, the call returns the registry's answer.
    pub verify_product_call-Tells :
        (w : World)
        → ((c : CacheValue)
            → live_value (cache_get (verify_key phi h) w.view_cache) (x.clock w.tick) ≡ some c
            → c ≡ truth)
        → At s l w
        → Runs
            (verify_product_call x env phi h)
            w
            (λ r v. (r ≡ view_result x env (verify_product p g s)) × At s l v)
    unfolding verify_product_call
    verify_product_call-Tells w fits q =
        bind-Runs (λ a v. (a ≡ truth) × At s l v) _ _ _ w
          (cached_view-Runs (λ a. a ≡ truth) (verify_key phi h) (fetch_product x env phi h) w
            fetch_product-Runs fits q)
          (λ a v k. pure-Runs _ (as_product a) v (ap as_product k.0, k.1))
