-- ===== src/Tests/Reports.antt =====
-- The statistics of scans on a small log.
use qr_blockchain_anticounte.Prelude.{codes, ◌≡◌, refl, none, [], ◌∷◌, ℕ}
use qr_blockchain_anticounte.Fixtures.{calm, start, phi_text}
use qr_blockchain_anticounte.Dates.{iso_date}
use qr_blockchain_anticounte.World.{
  World, Result, ok, VerificationLog, OutcomeStatus, authentic, counterfeit, already_verified,
}
use qr_blockchain_anticounte.Logs.Stats.{
  get_project_stats, ProjectStats, set_day, bump_day, day_buckets, tally, str_lt, insert_day,
  sort_days, insert_latest, sort_latest,
}
use qr_blockchain_anticounte.Logs.Stats.Counting.{
  IsStats, get_project_stats-IsStats, window, entries,
}
use qr_blockchain_anticounte.Tests.Scans.{running}

abbrev scanned : OutcomeStatus → (at : ℕ) → VerificationLog
scanned o at = record {
  phi = phi_text;
  h = phi_text;
  outcome = o;
  tx_hash = none;
  scanned_at = at;
  ip_hash = codes "a";
  user_agent_summary = none;
}

-- three scans today, and one of three days ago
abbrev visited : World
visited = record start {
  logs =
      scanned counterfeit 1_699_800_000_000
      ∷ scanned authentic 1_699_950_000_000
      ∷ scanned authentic 1_700_000_000_000
      ∷ scanned already_verified 1_700_000_000_000
      ∷ [];
}

abbrev reported : Result ProjectStats × World
reported = get_project_stats calm phi_text 2 3 visited

abbrev report : ProjectStats
report = record {
  totals = record { authentic = 2; already_verified = 1; counterfeit = 0 };
  daily =
      record {
        date = codes "2023-11-13";
        totals = record { authentic = 0; already_verified = 0; counterfeit = 0 };
      }
      ∷ record {
        date = codes "2023-11-14";
        totals = record { authentic = 2; already_verified = 1; counterfeit = 0 };
      }
      ∷ [];
  recent =
      record { outcome = authentic; tx_hash = none; scanned_at = 1_700_000_000_000 }
      ∷ record { outcome = already_verified; tx_hash = none; scanned_at = 1_700_000_000_000 }
      ∷ record { outcome = authentic; tx_hash = none; scanned_at = 1_699_950_000_000 }
      ∷ [];
}

report_run : reported ≡ (ok report, reported.1)
unfolding running get_project_stats set_day bump_day day_buckets tally str_lt insert_day sort_days
    insert_latest sort_latest iso_date
report_run = refl

get_project_stats-IsStats_example :
    IsStats
      (window calm phi_text 2 3 visited)
      (entries calm phi_text 2 3 visited)
      (calm.clock reported.1.tick)
      2
      3
      report
get_project_stats-IsStats_example =
    get_project_stats-IsStats calm phi_text 2 3 visited report reported.1 report_run
