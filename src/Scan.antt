-- ===== src/Scan.antt =====
-- apps/coordination-hub/src/scan/scan.service.ts: Algorithms 2 and 3 of the paper, the public scan of
-- a project and the private scan of a product.
pub mod Authentic
pub mod Soundness
pub mod Answers
pub mod Refinement
use qr_blockchain_anticounte.Prelude.{
  ℕ, ◌+◌, ◌-◌, ◌*◌, Str, codes, ◌++◌, Option, none, some, List, Bool, true, false, not,
  if◌then◌else◌, get_or,
}
use qr_blockchain_anticounte.Errors.{
  Err, domain, js, http, Domain, project_not_found, on_chain_product_already_redeemed,
  on_chain_product_does_not_exist, on_chain_project_does_not_exist,
}
use qr_blockchain_anticounte.World.{
  Outside, Env, World, M, ok, err, pure, throw, catching, gets, ◌>>=◌, ◌>>◌, VerificationLog,
  OutcomeStatus, authentic, already_verified, counterfeit, VerifyProductResult,
}
use qr_blockchain_anticounte.Hex.{hex_to_bytes}
use qr_blockchain_anticounte.Dates.{utc_day}
use qr_blockchain_anticounte.Logs.{truthy, record_log, find_previous_authentic}
use qr_blockchain_anticounte.Contract.{
  RedeemResult, verify_product_call, project_exists_call, redeem_product_call,
}
use qr_blockchain_anticounte.Projects.{find_public}
use qr_blockchain_anticounte.Projects.Metadata.{ProjectMetadata, to_project_metadata}

pub record ScanContext : Type 0 where
  pub ip : Option Str
  pub user_agent : Option Str

pub record ScanPrivateDto : Type 0 where
  pub project_id : Str
  pub secret_id : Str

-- packages/shared/src/types.ts
pub record ProductRedeemedEvent : Type 0 where
  pub phi : Str
  pub h : Str
  pub producer : Str
  pub timestamp : ℕ

pub data VerificationOutcome : Type 0 where
  authentic_outcome :
      (tx_hash : Str) → ProductRedeemedEvent → (verified_at : ℕ) → VerificationOutcome
  already_verified_outcome :
      (previous_tx_hash : Option Str) → (previous_verified_at : Option ℕ) → VerificationOutcome
  counterfeit_outcome : (message : Str) → VerificationOutcome

-- `err instanceof …`
abbrev pub is_already_redeemed : Err → Bool
is_already_redeemed (domain (on_chain_product_already_redeemed _ _)) = true
is_already_redeemed _ = false

abbrev pub is_not_registered : Err → Bool
is_not_registered (domain (on_chain_product_does_not_exist _ _)) = true
is_not_registered (domain (on_chain_project_does_not_exist _)) = true
is_not_registered _ = false

-- `previous?.txHash` and `previous?.scannedAt`
abbrev pub previous_tx : Option VerificationLog → Option Str
previous_tx none = none
previous_tx (some e) = e.tx_hash

abbrev pub previous_at : Option VerificationLog → Option ℕ
previous_at none = none
previous_at (some e) = some e.scanned_at

abbrev pub zero_address : Str
zero_address = codes "0x0000000000000000000000000000000000000000"

module _ (x : Outside) (env : Env) where
  -- `hashSid` of packages/shared/src/hashing.ts, on bytes
  unfoldable pub hash_sid : List ℕ → Str
  hash_sid sid = codes "0x" ++ x.digest_hex (x.sha256 sid)

  -- `fallback` is the secret that the process draws when it starts.
  unfoldable pub daily_salt : (fallback : Str) → (now : ℕ) → Str
  daily_salt fallback now = x.sha256_hex (
      utc_day (now - env.daily_salt_rotate_hour_utc * 60 * 60 * 1000)
      ++ (codes ":" ++ get_or fallback env.daily_salt_secret))

  module _ (fallback : Str) where
    unfoldable pub record_outcome :
        (phi h : Str) → OutcomeStatus → (tx_hash : Option Str) → ScanContext → M (Unit {0})
    record_outcome phi h outcome tx_hash ctx w =
        record_log x phi h outcome (truthy tx_hash) ctx.ip (daily_salt fallback (x.clock w.tick))
          ctx.user_agent w

    -- The product was redeemed before: the earlier transaction is looked up and reported.
    unfoldable pub report_redeemed : (phi h : Str) → ScanContext → M VerificationOutcome
    report_redeemed phi h ctx = do
      previous ← find_previous_authentic x phi h
      record_outcome phi h already_verified (previous_tx previous) ctx
      pure (already_verified_outcome (truthy (previous_tx previous)) (previous_at previous))

    unfoldable pub report_counterfeit : (message phi h : Str) → ScanContext → M VerificationOutcome
    report_counterfeit message phi h ctx = do
      record_outcome phi h counterfeit none ctx
      pure (counterfeit_outcome message)

    -- Phase 1: an error of the registry counts as "not there".
    unfoldable pub pre_check : (phi h : Str) → M (Bool × Bool)
    pre_check phi h =
        catching (do r ← verify_product_call x env phi h; pure (r.exists, r.redeemed))
          (λ _. pure (false, false))

    -- Phase 3: the evidence of a redemption, and its log entry.
    unfoldable pub report_success :
        (phi h : Str) → ScanContext → RedeemResult → M VerificationOutcome
    report_success phi h ctx result = do
      producer ←
          catching (do r ← verify_product_call x env phi h; pure r.producer)
            (λ _. pure zero_address)
      record_outcome phi h authentic (some result.tx_hash) ctx
      pure (
          authentic_outcome result.tx_hash
            (record { phi = phi; h = h; producer = producer; timestamp = result.timestamp })
            (result.timestamp * 1000))

    -- Phases 2 and 3, the body of the second `try`.
    unfoldable pub redeem_and_report :
        (phi h : Str) → (sid : List ℕ) → ScanContext → M VerificationOutcome
    redeem_and_report phi h sid ctx = do
      result ← redeem_product_call x env phi sid
      report_success phi h ctx result

    -- its `catch`
    unfoldable pub recover : (phi h : Str) → ScanContext → Err → M VerificationOutcome
    recover phi h ctx e =
        if is_already_redeemed e
        then report_redeemed phi h ctx
        else if is_not_registered e
        then report_counterfeit (codes "On-chain record does not match this scan.") phi h ctx
        else throw e

    abbrev pub by_pre_check :
        (phi h : Str) → (sid : List ℕ) → ScanContext → Bool × Bool → M VerificationOutcome
    by_pre_check phi h sid ctx (exists, redeemed) =
        if not exists
        then report_counterfeit (codes "No on-chain record matches this scan.") phi h ctx
        else if redeemed
        then report_redeemed phi h ctx
        else catching (redeem_and_report phi h sid ctx) (recover phi h ctx)

    unfoldable pub private_scan : ScanPrivateDto → ScanContext → M VerificationOutcome
    private_scan input ctx =
        let phi = input.project_id in
        let sid = hex_to_bytes input.secret_id in
        let h = hash_sid sid in do found ← pre_check phi h; by_pre_check phi h sid ctx found

    -- Public scans are logged with the phi in the place of a hash.
    unfoldable pub public_scan : (phi : Str) → ScanContext → M ProjectMetadata
    public_scan phi ctx = do
      on_chain ← catching (project_exists_call x env phi) (λ _. pure false)
      if not on_chain then throw (domain (project_not_found phi)) else do
        doc ← find_public x env phi
        if not env.log_public_scans then pure (to_project_metadata doc) else do
          now ← gets (λ w. x.clock w.tick)
          record_log x phi phi authentic none ctx.ip (daily_salt fallback now) ctx.user_agent
          pure (to_project_metadata doc)
