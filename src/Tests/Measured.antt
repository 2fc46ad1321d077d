-- ===== src/Tests/Measured.antt =====
-- Two trials of a function that throws at its first call.
use qr_blockchain_anticounte.Prelude.{ℕ, suc, zero, ◌≤◌, ◌*◌, ◌+◌, Option, none, some}
use qr_blockchain_anticounte.Experiments.{run_trials}
use qr_blockchain_anticounte.Experiments.Trials.{Finished, run_trials-Ended}

abbrev flaky : (trial call : ℕ) → Option ℕ
flaky trial zero = none
flaky trial (suc call) = some (trial + call)

abbrev one_ms : (call : ℕ) → ℕ
one_ms call = 1

run_trials-Ended_example :
    Finished flaky one_ms 2 2 0 (run_trials flaky one_ms 2 2).0
    × ((run_trials flaky one_ms 2 2).1 ≤ 2 * (2 + 1))
run_trials-Ended_example = run_trials-Ended flaky one_ms 2 2
