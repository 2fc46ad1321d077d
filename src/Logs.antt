-- ===== src/Logs.antt =====
-- apps/coordination-hub/src/scan/verification-log.service.ts and verification-log.schema.ts: one entry
-- for each scan. The collection is in order of insertion.
pub mod Entries
pub mod Stats
use qr_blockchain_anticounte.Prelude.{
  ℕ, Str, codes, ◌++◌, str_eq, Option, none, some, List, [], ◌∷◌, Bool, true, false, ◌&&◌, not, ltb,
  leb, ◌==◌, if◌then◌else◌, get_or, length, take, filter_by,
}
use qr_blockchain_anticounte.Errors.{js, plain_error}
use qr_blockchain_anticounte.World.{
  Outside, World, M, throw_unless, db_read, db_write, ◌>>◌, VerificationLog, OutcomeStatus,
  authentic, already_verified, counterfeit,
}
use qr_blockchain_anticounte.Hex.{is_phi}

-- `value ? { value } : {}` for an optional string: an empty one is left out
abbrev pub truthy : Option Str → Option Str
truthy none = none
truthy (some []) = none
truthy (some (c ∷ s)) = some (c ∷ s)

abbrev pub sliced : Option Str → Option Str
sliced none = none
sliced (some s) = some (take 100 s)

abbrev pub optional_phi : Option Str → Bool
optional_phi none = true
optional_phi (some s) = is_phi s

abbrev pub optional_short : Option Str → Bool
optional_short none = true
optional_short (some s) = leb (length s) 100

-- The validators of the schema: `match` on phi, h and txHash, a required ipHash, a maximal length.
unfoldable pub log_is_valid : VerificationLog → Bool
unfolding is_phi
log_is_valid e =
    is_phi e.phi
    && is_phi e.h
    && optional_phi e.tx_hash
    && not (length e.ip_hash == 0)
    && optional_short e.user_agent_summary

abbrev pub same_status : OutcomeStatus → OutcomeStatus → Bool
same_status authentic authentic = true
same_status already_verified already_verified = true
same_status counterfeit counterfeit = true
same_status _ _ = false

abbrev pub append_log : VerificationLog → World → World
append_log e w = record w { logs = w.logs ++ e ∷ [] }

-- the first of the entries with the latest `scannedAt`
unfoldable pub latest : Option VerificationLog → List VerificationLog → Option VerificationLog
latest best [] = best
latest none (e ∷ es) = latest (some e) es
latest (some b) (e ∷ es) = latest (some (if ltb b.scanned_at e.scanned_at then e else b)) es

abbrev pub is_authentic_of : (phi h : Str) → VerificationLog → Bool
is_authentic_of phi h e = str_eq e.phi phi && str_eq e.h h && same_status e.outcome authentic

module _ (x : Outside) where
  abbrev pub log_entry :
      (phi h : Str)
      → OutcomeStatus
      → (tx_hash ip_raw : Option Str) → (daily_salt : Str) → (user_agent : Option Str) → (now : ℕ)
      → VerificationLog
  log_entry phi h outcome tx_hash ip_raw daily_salt user_agent now = record {
    phi = phi;
    h = h;
    outcome = outcome;
    tx_hash = truthy tx_hash;
    scanned_at = now;
    ip_hash = x.sha256_hex (get_or [] ip_raw ++ (codes ":" ++ daily_salt));
    user_agent_summary = truthy (sliced (truthy user_agent));
  }

  -- `model.create`: the validators, then the insertion
  unfoldable pub create_log : VerificationLog → M (Unit {0})
  create_log e = do
    throw_unless (log_is_valid e) (js (plain_error (codes "VerificationLog validation failed")))
    db_write x (append_log e)

  unfoldable pub record_log :
      (phi h : Str)
      → OutcomeStatus
      → (tx_hash ip_raw : Option Str) → (daily_salt : Str) → (user_agent : Option Str)
      → M (Unit {0})
  record_log phi h outcome tx_hash ip_raw daily_salt user_agent w =
      create_log (log_entry phi h outcome tx_hash ip_raw daily_salt user_agent (x.clock w.tick)) w

  unfoldable pub find_previous_authentic : (phi h : Str) → M (Option VerificationLog)
  find_previous_authentic phi h =
      db_read x (λ w. latest none (filter_by (is_authentic_of phi h) w.logs))
