-- ===== src/Tests/Scans.antt =====
-- Private scans of a product of a small registry, and the theorems about scans at those runs.
use qr_blockchain_anticounte.Prelude.{
  ◌≡◌, ◌≢◌, refl, some, [], ◌∷◌, str_eq, every, starts_with, find, filter_by, codes, strip_0x,
  includes,
}
use qr_blockchain_anticounte.Fixtures.{calm, settings, start, scan_input, anonymous, copies}
use qr_blockchain_anticounte.Registry.{
  redeem_hash, redeem_product, execute, apply_tx, apply_all, verify_product,
}
use qr_blockchain_anticounte.World.{World, Result, ok, db_read, db_write}
use qr_blockchain_anticounte.Hex.{
  is_phi, is_hex_digit, hex_to_bytes, bytes_to_hex, hex_of_bytes, digit, digit_value, parse_pair,
  pairs_to_bytes,
}
use qr_blockchain_anticounte.Dates.{decimal, digits_of, utc_day, civil}
use qr_blockchain_anticounte.Contract.{
  eth_call, encode_bytes32, send_transaction, wait_receipt, get_block, cache_get, cache_set,
  invalidate_cache, cached_view, require_contract, reinit_contract, with_retry_on_rpc_error,
  mapping_reverts, fetch_product, verify_product_call, finish_redemption, submit_redemption,
  redeem_attempt, redeem_product_call,
}
use qr_blockchain_anticounte.Logs.{
  create_log, record_log, log_is_valid, find_previous_authentic, latest,
}
use qr_blockchain_anticounte.Scan.Authentic.{private_scan-authentic, authentic_once, secret_word}
use qr_blockchain_anticounte.Contract.Redemption.{TakenFor, Takes, redeem_product_call-Takes}
use qr_blockchain_anticounte.Registry.Monotone.{Extends-refl}
use qr_blockchain_anticounte.Scan.{
  private_scan, hash_sid, daily_salt, record_outcome, report_redeemed, report_counterfeit,
  pre_check, report_success, redeem_and_report, recover, VerificationOutcome, authentic_outcome,
  ProductRedeemedEvent, already_verified_outcome,
}

unfoldable pub running : Unit {0}
unfolding private_scan hash_sid daily_salt record_outcome report_redeemed report_counterfeit
    pre_check report_success redeem_and_report recover create_log record_log log_is_valid
    find_previous_authentic latest eth_call encode_bytes32 send_transaction wait_receipt get_block
    cache_get cache_set invalidate_cache cached_view require_contract reinit_contract
    with_retry_on_rpc_error mapping_reverts fetch_product verify_product_call finish_redemption
    submit_redemption redeem_attempt redeem_product_call redeem_hash redeem_product execute apply_tx
    apply_all verify_product db_read db_write is_phi is_hex_digit hex_to_bytes bytes_to_hex
    hex_of_bytes digit digit_value parse_pair pairs_to_bytes decimal digits_of utc_day civil str_eq
    every starts_with find filter_by strip_0x includes
running = tt

abbrev first_scan : World → Result VerificationOutcome × World
first_scan = private_scan calm settings (codes "fallback") scan_input anonymous

abbrev event : ProductRedeemedEvent
event = record {
  phi = scan_input.project_id;
  h = hash_sid calm settings (1 ∷ 2 ∷ []);
  producer = codes "0x11";
  timestamp = 1_700_000_002;
}

abbrev evidence : VerificationOutcome
evidence = authentic_outcome (bytes_to_hex (copies 32 9)) event 1_700_000_002_000

first_run : first_scan start ≡ (ok evidence, (first_scan start).1)
unfolding running
first_run = refl

-- The second scan of the same product finds the log entry of the first.
second_run :
    (first_scan (first_scan start).1).0
    ≡ ok (already_verified_outcome (some (bytes_to_hex (copies 32 9))) (some 1_700_000_000_005))
unfolding running
second_run = refl

private_scan-authentic_example :
    TakenFor calm scan_input.project_id
      (secret_word calm scan_input)
      start.registry
      (first_scan start).1.registry
private_scan-authentic_example =
    private_scan-authentic calm settings (codes "fallback") scan_input anonymous start
      (bytes_to_hex (copies 32 9)) event 1_700_000_002_000 (first_scan start).1 first_run

abbrev after_two : World
after_two = (first_scan (first_scan start).1).1

authentic_once_example : first_scan (first_scan start).1 ≢ (ok evidence, after_two)
authentic_once_example =
    authentic_once calm settings (codes "fallback") scan_input scan_input anonymous anonymous start
      (bytes_to_hex (copies 32 9)) event 1_700_000_002_000 (first_scan start).1 (first_scan start).1
      (bytes_to_hex (copies 32 9)) event 1_700_000_002_000 after_two refl refl first_run
      (Extends-refl (first_scan start).1.registry)

redeem_product_call-Takes_example :
    Takes calm scan_input.project_id
      (calm.sha256 (1 ∷ 2 ∷ []))
      (redeem_product_call calm settings scan_input.project_id (1 ∷ 2 ∷ []))
redeem_product_call-Takes_example =
    redeem_product_call-Takes calm settings scan_input.project_id (1 ∷ 2 ∷ [])
