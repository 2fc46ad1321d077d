-- ===== src/Scan/Soundness.antt =====
-- The steps of the private scan (apps/coordination-hub/src/scan/scan.service.ts): none of them takes
-- back what the registry holds, and what an answer of each says of the registry.
use qr_blockchain_anticounte.Prelude.{ℕ, Str, refl, Option, Bool, not, List}
use qr_blockchain_anticounte.Errors.{Err}
use qr_blockchain_anticounte.Registry.{Storage}
use qr_blockchain_anticounte.Registry.Monotone.{Extends}
use qr_blockchain_anticounte.World.{
  Outside, Env, M, ◌>>=◌, throw_unless, db_write, VerificationLog, OutcomeStatus,
}
use qr_blockchain_anticounte.World.Laws.{
  Grows, bind-Grows, pure-Grows, throw-Grows, catching-Grows, if-Grows, throw_unless-Grows,
  db_read-Grows, db_write-Grows,
}
use qr_blockchain_anticounte.World.Reaching.{
  Reaches, IsClosed, later-Reaches, here-Reaches, catching-Reaches, throw-Reaches, if-Reaches,
  pure-Reaches, weaken-Reaches,
}
use qr_blockchain_anticounte.Logs.{
  create_log, record_log, append_log, find_previous_authentic, log_is_valid,
}
use qr_blockchain_anticounte.Contract.{redeem_product_call, RedeemResult}
use qr_blockchain_anticounte.Contract.Growth.{verify_product_call-Grows, redeem_product_call-Grows}
use qr_blockchain_anticounte.Contract.Redemption.{
  TakenFor, TakenFor-IsClosed, redeem_product_call-Takes,
}
use qr_blockchain_anticounte.Scan.{
  ScanContext, VerificationOutcome, authentic_outcome, already_verified_outcome,
  counterfeit_outcome, record_outcome, report_redeemed, report_counterfeit, pre_check,
  redeem_and_report, report_success, recover, by_pre_check, is_already_redeemed, is_not_registered,
}

module _ (x : Outside) where
  create_log-Grows : (e : VerificationLog) → Grows (create_log x e)
  unfolding create_log
  create_log-Grows e =
      bind-Grows (throw_unless (log_is_valid e) _) (λ _. db_write x (append_log e))
        (throw_unless-Grows (log_is_valid e) _) (λ _. db_write-Grows x (append_log e) (λ w. refl))

  pub record_log-Grows :
      (phi h : Str) (o : OutcomeStatus) (t ip : Option Str) (salt : Str) (ua : Option Str)
      → Grows (record_log x phi h o t ip salt ua)
  unfolding record_log
  record_log-Grows phi h o t ip salt ua = record { grows = λ w. (create_log-Grows _).grows w }

  find_previous_authentic-Grows : (phi h : Str) → Grows (find_previous_authentic x phi h)
  unfolding find_previous_authentic
  find_previous_authentic-Grows phi h = db_read-Grows x _

  -- What an answer says of the registry before and after the scan.
  abbrev pub Proves : (phi : Str) → (h : ℕ) → VerificationOutcome → Storage → Storage → Type 0
  Proves phi h (authentic_outcome _ _ _) s s' = TakenFor x phi h s s'
  Proves phi h (already_verified_outcome _ _) s s' = Unit
  Proves phi h (counterfeit_outcome _) s s' = Unit

  before-Proves :
      (phi : Str) (h : ℕ) (o : VerificationOutcome) (s t u : Storage)
      → Extends s t
      → Proves phi h o t u
      → Proves phi h o s u
  before-Proves phi h (authentic_outcome _ _ _) s t u g k =
      (TakenFor-IsClosed x (Unit {0}) phi h).before tt g k
  before-Proves phi h (already_verified_outcome _ _) s t u g k = tt
  before-Proves phi h (counterfeit_outcome _) s t u g k = tt

  after-Proves :
      (phi : Str) (h : ℕ) (o : VerificationOutcome) (s t u : Storage)
      → Proves phi h o s t
      → Extends t u
      → Proves phi h o s u
  after-Proves phi h (authentic_outcome _ _ _) s t u k g =
      (TakenFor-IsClosed x (Unit {0}) phi h).after tt k g
  after-Proves phi h (already_verified_outcome _ _) s t u k g = tt
  after-Proves phi h (counterfeit_outcome _) s t u k g = tt

  pub Proves-IsClosed : (phi : Str) (h : ℕ) → IsClosed (Proves phi h)
  Proves-IsClosed phi h = record {
    before = λ o g k. before-Proves phi h o _ _ _ g k;
    after = λ o k g. after-Proves phi h o _ _ _ k g;
  }

  TakenFor-Proves :
      (phi : Str) (h : ℕ) (o : VerificationOutcome) (s t : Storage)
      → TakenFor x phi h s t
      → Proves phi h o s t
  TakenFor-Proves phi h (authentic_outcome _ _ _) s t k = k
  TakenFor-Proves phi h (already_verified_outcome _ _) s t k = tt
  TakenFor-Proves phi h (counterfeit_outcome _) s t k = tt

  module _ (env : Env) (fallback : Str) (phi h : Str) (ctx : ScanContext) where
    record_outcome-Grows :
        (o : OutcomeStatus) (t : Option Str) → Grows (record_outcome x env fallback phi h o t ctx)
    unfolding record_outcome
    record_outcome-Grows o t = record { grows = λ w. (record_log-Grows _ _ _ _ _ _ _).grows w }

    pub report_redeemed-Grows : Grows (report_redeemed x env fallback phi h ctx)
    unfolding report_redeemed
    report_redeemed-Grows =
        search (bind-Grows, find_previous_authentic-Grows, record_outcome-Grows, pure-Grows)

    pub report_counterfeit-Grows : (m : Str) → Grows (report_counterfeit x env fallback m phi h ctx)
    unfolding report_counterfeit
    report_counterfeit-Grows m = search (bind-Grows, record_outcome-Grows, pure-Grows)

    pub pre_check-Grows : Grows (pre_check x env fallback phi h)
    unfolding pre_check
    pre_check-Grows = search (catching-Grows, bind-Grows, verify_product_call-Grows, pure-Grows)

    pub report_success-Grows :
        (r : RedeemResult) → Grows (report_success x env fallback phi h ctx r)
    unfolding report_success
    report_success-Grows r =
        search
          (bind-Grows, catching-Grows, verify_product_call-Grows, record_outcome-Grows, pure-Grows)
          depth 7

    pub redeem_and_report-Grows :
        (sid : List ℕ) → Grows (redeem_and_report x env fallback phi h sid ctx)
    unfolding redeem_and_report
    redeem_and_report-Grows sid =
        search (bind-Grows, redeem_product_call-Grows, report_success-Grows)

    recover-Grows : (e : Err) → Grows (recover x env fallback phi h ctx e)
    unfolding recover
    recover-Grows e =
        search (if-Grows, report_redeemed-Grows, report_counterfeit-Grows, throw-Grows) depth 6

    pub by_pre_check-Grows :
        (sid : List ℕ) (found : Bool × Bool)
        → Grows (by_pre_check x env fallback phi h sid ctx found)
    by_pre_check-Grows sid (exists, redeemed) =
        search
          (
            if-Grows, report_redeemed-Grows, report_counterfeit-Grows, catching-Grows,
            redeem_and_report-Grows, recover-Grows,
          )
          depth 7

    module _ (sid : List ℕ) where
      abbrev Fine : M VerificationOutcome → Type 0
      Fine = Reaches (Proves phi (x.sha256 sid))

      abbrev later :
          {A : Type 0} (m : M A) (f : A → M VerificationOutcome)
          → Grows m
          → ((a : A) → Fine (f a))
          → Fine (m >>= f)
      later m f = later-Reaches (Proves phi (x.sha256 sid)) (Proves-IsClosed phi (x.sha256 sid)) m f

      report_redeemed-Fine : Fine (report_redeemed x env fallback phi h ctx)
      unfolding report_redeemed
      report_redeemed-Fine =
          later (find_previous_authentic x phi h) _ (find_previous_authentic-Grows phi h) λ p.
            later (record_outcome x env fallback phi h _ _ ctx) _ (record_outcome-Grows _ _)
              λ _. pure-Reaches _ (already_verified_outcome _ _) (λ s. tt)

      report_counterfeit-Fine : (m : Str) → Fine (report_counterfeit x env fallback m phi h ctx)
      unfolding report_counterfeit
      report_counterfeit-Fine m =
          later (record_outcome x env fallback phi h _ _ ctx) _ (record_outcome-Grows _ _)
            λ _. pure-Reaches _ (counterfeit_outcome m) (λ s. tt)

      recover-Fine : (e : Err) → Fine (recover x env fallback phi h ctx e)
      unfolding recover
      recover-Fine e =
          if-Reaches _ (is_already_redeemed e) _ _ report_redeemed-Fine
            (if-Reaches _ (is_not_registered e) _ _ (report_counterfeit-Fine _) (throw-Reaches _ e))

      redeem_and_report-Fine : Fine (redeem_and_report x env fallback phi h sid ctx)
      unfolding redeem_and_report
      redeem_and_report-Fine =
          weaken-Reaches _ (λ _. TakenFor x phi (x.sha256 sid)) _
            (TakenFor-Proves phi (x.sha256 sid))
            (here-Reaches (TakenFor x phi (x.sha256 sid)) (TakenFor-IsClosed x _ phi (x.sha256 sid))
              (redeem_product_call x env phi sid) (report_success x env fallback phi h ctx)
              (redeem_product_call-Takes x env phi sid) report_success-Grows)

      pub by_pre_check-Fine :
          (found : Bool × Bool) → Fine (by_pre_check x env fallback phi h sid ctx found)
      by_pre_check-Fine (exists, redeemed) =
          if-Reaches _ (not exists) _ _ (report_counterfeit-Fine _) (
            if-Reaches _ redeemed _ _ report_redeemed-Fine (
              catching-Reaches _ (Proves-IsClosed phi (x.sha256 sid))
                (redeem_and_report x env fallback phi h sid ctx) _ (redeem_and_report-Grows sid)
                redeem_and_report-Fine recover-Fine))
