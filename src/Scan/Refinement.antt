-- ===== src/Scan/Refinement.antt =====
-- The private scan (apps/coordination-hub/src/scan/scan.service.ts) as a refinement of the paper's
-- algorithm on the registry's abstract view: on a calm network it returns, its verdict and the
-- product's next status are those of the algorithm, and one entry of the log says so.
use qr_blockchain_anticounte.Prelude.{
  ℕ, Str, ◌≡◌, refl, ap, sym, subst, codes, some, List, Bool, true, false, All,
}
use qr_blockchain_anticounte.Registry.{Storage, verify_product}
use qr_blockchain_anticounte.Registry.Invariant.{IsValid}
use qr_blockchain_anticounte.Registry.Status.{Status, fresh, status}
use qr_blockchain_anticounte.World.{
  Outside, Env, World, VerificationLog, CacheValue, product, pure, catching,
}
use qr_blockchain_anticounte.World.Runs.{Runs, bind-Runs, catching-Runs, pure-Runs}
use qr_blockchain_anticounte.Hex.{hex_to_bytes}
use qr_blockchain_anticounte.Logs.Entries.{Accepted}
use qr_blockchain_anticounte.Contract.{live_value, cache_get, verify_key, view_result}
use qr_blockchain_anticounte.Contract.Runs.{IsCalm, At, verify_product_call-Tells}
use qr_blockchain_anticounte.Contract.Redeeming.{Used, HasHash, redeem_product_call-Runs}
use qr_blockchain_anticounte.Scan.{
  ScanContext, ScanPrivateDto, VerificationOutcome, hash_sid, report_success, pre_check,
  redeem_and_report, by_pre_check, private_scan, recover,
}
use qr_blockchain_anticounte.Scan.Answers.{
  IsReadable, Follows, counterfeit-Ends, redeemed-Ends, success-Ends, status-unknown, status-used,
  status-fresh,
}

module _ (x : Outside) (env : Env) (fallback : Str) (calm : IsCalm x) (input : ScanPrivateDto)
    (p : ℕ) (readable : IsReadable x env input p) (ctx : ScanContext) where
  abbrev sid : List ℕ
  sid = hex_to_bytes input.secret_id

  abbrev phi : Str
  phi = input.project_id

  abbrev h : Str
  h = hash_sid x env sid

  abbrev word : ℕ
  word = x.sha256 sid

  abbrev Ends : Status → List VerificationLog → VerificationOutcome → World → Type 0
  Ends = Follows p word phi h

  module _ (s : Storage) (l : List VerificationLog) where
    module _ (w : World) (q : At s l w) (valid : IsValid s)
        (fits : (c : CacheValue)
          → live_value (cache_get (verify_key phi h) w.view_cache) (x.clock w.tick) ≡ some c
          → c ≡ product (view_result x env (verify_product p word s))) where
      abbrev Seen : Bool × Bool → World → Type 0
      Seen b v =
          ((b.0 ≡ (s.products p word).exists) × (b.1 ≡ (s.products p word).redeemed)) × At s l v

      pre_check-Runs : Runs (pre_check x env fallback phi h) w Seen
      unfolding pre_check verify_product
      pre_check-Runs =
          catching-Runs Seen _ (λ _. pure (false, false)) w
            (bind-Runs (λ r v. (r ≡ view_result x env (verify_product p word s)) × At s l v) _ _
              (λ r. pure (r.exists, r.redeemed)) w
              (verify_product_call-Tells x env calm s l phi h p word readable.coded
                readable.hash_coded w fits q)
              (λ r v k.
                pure-Runs Seen (r.exists, r.redeemed) v
                  ((ap (λ z. z.exists) k.0, ap (λ z. z.redeemed) k.0), k.1)))

      fresh-Ends :
          (v : World)
          → At s l v
          → status p word s ≡ fresh
          → Runs
              (catching
                (redeem_and_report x env fallback phi h sid ctx)
                (recover x env fallback phi h ctx))
              v
              (Ends fresh l)
      unfolding redeem_and_report
      fresh-Ends v k e = catching-Runs _ _ (recover x env fallback phi h ctx) v (
          bind-Runs (λ r u. HasHash r × Used p word l u) _ _
            (report_success x env fallback phi h ctx) v
            (redeem_product_call-Runs x env calm s l p sid valid e phi readable.coded readable.paid
              v k)
            (λ r u k'. success-Ends x env fallback calm input p readable ctx s l r u k'.0 k'.1))

      decided-Ends :
          (there spent : Bool) (v : World)
          → (s.products p word).exists ≡ there
          → (s.products p word).redeemed ≡ spent
          → At s l v
          → All Accepted l
          → Runs
              (by_pre_check x env fallback phi h sid ctx (there, spent))
              v
              (Ends (status p word s) l)
      decided-Ends false spent v a b k logs =
          let e = status-unknown p word s a in
          subst (λ z. Runs (by_pre_check x env fallback phi h sid ctx (false, spent)) v (Ends z l))
            (sym e)
            (counterfeit-Ends x env fallback calm input p readable ctx s l
              (codes "No on-chain record matches this scan.") v k e)
      decided-Ends true true v a b k logs =
          let e = status-used p word s a b in
          subst (λ z. Runs (by_pre_check x env fallback phi h sid ctx (true, true)) v (Ends z l))
            (sym e) (redeemed-Ends x env fallback calm input p readable ctx s l v k logs e)
      decided-Ends true false v a b k logs =
          let e = status-fresh p word s a b in
          subst (λ z. Runs (by_pre_check x env fallback phi h sid ctx (true, false)) v (Ends z l))
            (sym e) (fresh-Ends v k e)

  -- On a calm network, for a contract that is set up, a registry that is valid, logs that the schema
  -- accepts, and a cache that holds nothing live of the product that differs from the registry, a
  -- private scan returns. Its verdict is AUTHENTIC for a fresh product, ALREADY_VERIFIED for one that is
  -- used and COUNTERFEIT for one that is unknown; the first uses the product up, the others leave its
  -- status; and the log has one more entry, with the project, the secret's hash and that verdict.
  pub private_scan-Follows :
      (w : World)
      → w.contract ≡ true
      → IsValid w.registry
      → All Accepted w.logs
      → ((c : CacheValue)
          → live_value (cache_get (verify_key phi h) w.view_cache) (x.clock w.tick) ≡ some c
          → c ≡ product (view_result x env (verify_product p word w.registry)))
      → Runs (private_scan x env fallback input ctx) w (Ends (status p word w.registry) w.logs)
  unfolding private_scan
  private_scan-Follows w ready valid logs fits =
      let q : At w.registry w.logs w = record { stored = refl; logged = refl; ready = ready } in
      bind-Runs (Seen w.registry w.logs w q valid fits) _ (pre_check x env fallback phi h)
        (by_pre_check x env fallback phi h sid ctx) w
        (pre_check-Runs w.registry w.logs w q valid fits)
        λ b v k.
          decided-Ends w.registry w.logs w q valid fits b.0 b.1 v (sym k.0.0) (sym k.0.1) k.1 logs
