-- ===== src/Contract/Redeeming.antt =====
-- A redemption of a fresh product on a calm network: it is mined, and the call returns.
use qr_blockchain_anticounte.Prelude.{
  ℕ, Str, ◌≡◌, refl, subst, sym, codes, arith, Option, none, some, List, true, if◌then◌else◌, ◌/◌,
  get_or,
}
use qr_blockchain_anticounte.Errors.{Err, js, plain_error}
use qr_blockchain_anticounte.Registry.{Storage, tx_redeem, execute, redeem_product, apply_all}
use qr_blockchain_anticounte.Registry.Invariant.{IsValid}
use qr_blockchain_anticounte.Registry.Status.{status, fresh, used, redeem_hash-Redeems}
use qr_blockchain_anticounte.World.{
  Outside, Env, World, M, VerificationLog, ◌>>=◌, ◌>>◌, throw_unless,
}
use qr_blockchain_anticounte.World.Runs.{Runs, bind-Runs, throw_unless-Runs}
use qr_blockchain_anticounte.Hex.{is_phi}
use qr_blockchain_anticounte.Wallet.{is_set}
use qr_blockchain_anticounte.Contract.{
  advance, send_transaction, wait_receipt, get_block, Receipt, RedeemResult, finish_redemption,
  submit_redemption, redeem_attempt, redeem_product_call, invalidate_cache, mapping_reverts,
}
use qr_blockchain_anticounte.Contract.Runs.{
  IsCalm, At, advance-At, encode_bytes32-Runs, require_contract-Runs, mapping_reverts-Runs,
  with_retry-Runs,
}

-- The product is used up, and nothing is logged yet.
pub record Used (p h : ℕ) (l : List VerificationLog) (w : World) : Type 0 where
  pub used_up : status p h w.registry ≡ used
  pub logged : w.logs ≡ l
  pub ready : w.contract ≡ true

abbrev pub HasHash : RedeemResult → Type 0
HasHash r = is_phi r.tx_hash ≡ true

module _ (x : Outside) (env : Env) (calm : IsCalm x) (s : Storage) (l : List VerificationLog)
    (p : ℕ) (sid : List ℕ) (valid : IsValid s) (unused : status p (x.sha256 sid) s ≡ fresh) where
  send_transaction-Runs :
      (w : World) → At s l w → Runs (send_transaction x (tx_redeem p sid)) w (λ _. At s l)
  unfolding send_transaction execute redeem_product apply_all
  send_transaction-Runs w q =
      let r = redeem_hash-Redeems p (x.sha256 sid) (x.block_time w.tick) s valid unused in
      record {
        value = tt;
        end = advance x w;
        ran = ground (arith, calm.answers w.tick, r.mined, q.stored, calm.alone w.tick);
        holds = advance-At x env calm s l w q;
      }

  abbrev Confirmed : Option Receipt → World → Type 0
  Confirmed o v =
      ((r : Receipt) × ((o ≡ some r) × (is_phi r.hash ≡ true))) × Used p (x.sha256 sid) l v

  wait_receipt-Runs : (w : World) → At s l w → Runs (wait_receipt x (tx_redeem p sid)) w Confirmed
  unfolding wait_receipt execute redeem_product apply_all
  wait_receipt-Runs w q =
      let r = redeem_hash-Redeems p (x.sha256 sid) (x.block_time w.tick) s valid unused in
      record {
        value = some (record { hash = x.tx_hash w.tick; block_number = w.tick });
        end = record (advance x w) { registry = r.after };
        ran = ground (
          arith,
          calm.answers w.tick,
          r.mined,
          q.stored,
          calm.alone w.tick,
          calm.receipts w.tick,
        );
        holds = (
          (record { hash = x.tx_hash w.tick; block_number = w.tick }, (refl, calm.hashes w.tick)),
          record { used_up = r.used_up; logged = q.logged; ready = q.ready },
        );
      }

  get_block-Runs :
      (n : ℕ) (w : World)
      → Used p (x.sha256 sid) l w
      → Runs (get_block x n) w (λ _. Used p (x.sha256 sid) l)
  unfolding get_block apply_all
  get_block-Runs n w q = record {
    value = if x.has_block w.tick then some (x.block_time n) else none;
    end = advance x w;
    ran = ground (arith, calm.answers w.tick);
    holds = record {
      used_up = ground (arith, q.used_up, calm.alone w.tick);
      logged = q.logged;
      ready = q.ready;
    };
  }

  invalidate-Used :
      (phi : Str) (w : World)
      → Used p (x.sha256 sid) l w
      → Used p (x.sha256 sid) l (invalidate_cache phi w)
  unfolding invalidate_cache
  invalidate-Used phi w q = record { used_up = q.used_up; logged = q.logged; ready = q.ready }

  abbrev Redeemed : RedeemResult → World → Type 0
  Redeemed r v = HasHash r × Used p (x.sha256 sid) l v

  finish_redemption-Runs :
      (phi : Str) (o : Option Receipt) (w : World)
      → Confirmed o w
      → Runs (finish_redemption x env phi o) w Redeemed
  unfolding finish_redemption
  finish_redemption-Runs phi none w q = absurd (cc q.0.1.0)
  finish_redemption-Runs phi (some r) w q =
      let b = get_block-Runs r.block_number w q.1 in
      record {
        value = record {
          tx_hash = r.hash;
          block_number = r.block_number;
          timestamp = get_or (x.clock (invalidate_cache phi b.end).tick / 1000) b.value;
        };
        end = invalidate_cache phi b.end;
        ran = ground (arith, b.ran);
        holds = (ground (arith, q.0.1.0, q.0.1.1), invalidate-Used phi b.end b.holds);
      }

  module _ (phi : Str) (coded : x.bytes32 phi ≡ some p)
      (paid : is_set env.system_wallet_private_key ≡ true) where
    submit_redemption-Runs :
        (w : World) → At s l w → Runs (submit_redemption x env phi sid) w Redeemed
    unfolding submit_redemption
    submit_redemption-Runs w q =
        bind-Runs (λ a v. (a ≡ p) × At s l v) _ _ _ w
          (encode_bytes32-Runs x env calm s l phi p w coded q)
          λ a v k.
            subst
              (λ n.
                Runs
                  (do
                    send_transaction x (tx_redeem n sid)
                    r ← wait_receipt x (tx_redeem n sid)
                    finish_redemption x env phi r)
                  v Redeemed)
              (sym k.0)
              (bind-Runs (λ _. At s l) _ _ _ v (send_transaction-Runs v k.1)
                λ _ u k'.
                  bind-Runs Confirmed _ _ (finish_redemption x env phi) u (wait_receipt-Runs u k')
                    (finish_redemption-Runs phi))

    abbrev no_wallet : Err
    no_wallet =
        js (plain_error (codes "System wallet not initialised — set SYSTEM_WALLET_PRIVATE_KEY"))

    abbrev check_wallet : M (Unit {0})
    check_wallet = throw_unless (is_set env.system_wallet_private_key) no_wallet

    redeem_attempt-Runs : (w : World) → At s l w → Runs (redeem_attempt x env phi sid) w Redeemed
    unfolding redeem_attempt
    redeem_attempt-Runs w q =
        bind-Runs (λ _. At s l) _ _
          (λ _. check_wallet >> mapping_reverts x env (submit_redemption x env phi sid)) w
          (require_contract-Runs x env calm s l w q)
          λ _ v k.
            bind-Runs (λ _. At s l) _ check_wallet _ v (throw_unless-Runs _ _ no_wallet v paid k)
              λ _ u k'.
                mapping_reverts-Runs x env calm s l Redeemed _ u (submit_redemption-Runs u k')

    pub redeem_product_call-Runs :
        (w : World)
        → At s l w
        → Runs (redeem_product_call x env phi sid) w (λ r v. HasHash r × Used p (x.sha256 sid) l v)
    unfolding redeem_product_call
    redeem_product_call-Runs w q =
        with_retry-Runs x env calm s l Redeemed _ w (redeem_attempt-Runs w q)
