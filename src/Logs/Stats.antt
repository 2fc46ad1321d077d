-- ===== src/Logs/Stats.antt =====
-- `getProjectStats` of apps/coordination-hub/src/scan/verification-log.service.ts: the scans of a
-- project in the last days, per outcome and per day, and the most recent ones.
pub mod Buckets
pub mod Days
pub mod Recent
pub mod Counting
use qr_blockchain_anticounte.Prelude.{
  ℕ, zero, suc, ◌+◌, ◌-◌, ◌*◌, Str, str_eq, Option, none, some, List, [], ◌∷◌, Bool, true, false,
  ◌&&◌, ltb, leb, ◌==◌, if◌then◌else◌, take, filter_by, map,
}
use qr_blockchain_anticounte.Dates.{iso_date, day_ms}
use qr_blockchain_anticounte.World.{
  Outside, World, M, gets, pure, db_read, ◌>>=◌, VerificationLog, OutcomeStatus, authentic,
  already_verified, counterfeit,
}
use qr_blockchain_anticounte.Logs.{truthy}

pub record Totals : Type 0 where
  pub authentic : ℕ
  pub already_verified : ℕ
  pub counterfeit : ℕ

pub record DayBucket : Type 0 where
  pub date : Str
  pub totals : Totals

pub record RecentScan : Type 0 where
  pub outcome : OutcomeStatus
  pub tx_hash : Option Str
  pub scanned_at : ℕ

pub record ProjectStats : Type 0 where
  pub totals : Totals
  pub daily : List DayBucket
  pub recent : List RecentScan

abbrev pub no_scans : Totals
no_scans = record { authentic = 0; already_verified = 0; counterfeit = 0 }

-- `totals.authentic += 1`, and the two others
abbrev pub bumped : OutcomeStatus → Totals → Totals
bumped authentic t = record t { authentic = t.authentic + 1 }
bumped already_verified t = record t { already_verified = t.already_verified + 1 }
bumped counterfeit t = record t { counterfeit = t.counterfeit + 1 }

-- `dayMap.set(key, { … })`: a key that is there keeps its place
unfoldable pub set_day : Str → List DayBucket → List DayBucket
set_day key [] = record { date = key; totals = no_scans } ∷ []
set_day key (b ∷ bs) =
    if str_eq b.date key
    then record { date = b.date; totals = no_scans } ∷ bs
    else b ∷ set_day key bs

-- `dayMap.get(day)`, and the increment of the bucket if there is one
unfoldable pub bump_day : Str → OutcomeStatus → List DayBucket → List DayBucket
bump_day day o [] = []
bump_day day o (b ∷ bs) =
    if str_eq b.date day
    then record b { totals = bumped o b.totals } ∷ bs
    else b ∷ bump_day day o bs

-- The loop that makes the buckets, from `i` on for `n` rounds, at one moment `now`.
unfoldable pub day_buckets : (now i n : ℕ) → List DayBucket → List DayBucket
day_buckets now i zero bs = bs
day_buckets now i (suc n) bs = day_buckets now (i + 1) n (set_day (iso_date (now - i * day_ms)) bs)

-- The loop over the entries.
unfoldable pub tally : List VerificationLog → Totals × List DayBucket → Totals × List DayBucket
tally [] (t, bs) = (t, bs)
tally (e ∷ es) (t, bs) =
    tally es (bumped e.outcome t, bump_day (iso_date e.scanned_at) e.outcome bs)

-- `a < b` on strings
unfoldable pub str_lt : Str → Str → Bool
str_lt s [] = false
str_lt [] (_ ∷ _) = true
str_lt (a ∷ s) (b ∷ t) = if a == b then str_lt s t else ltb a b

-- The sort by date; the keys of a Map are different, so the comparison never meets equals.
unfoldable pub insert_day : DayBucket → List DayBucket → List DayBucket
insert_day b [] = b ∷ []
insert_day b (c ∷ cs) = if str_lt b.date c.date then b ∷ c ∷ cs else c ∷ insert_day b cs

unfoldable pub sort_days : List DayBucket → List DayBucket
sort_days [] = []
sort_days (b ∷ bs) = insert_day b (sort_days bs)

-- the database's sort by `scannedAt`, latest first, where equal times stay in order
unfoldable pub insert_latest : VerificationLog → List VerificationLog → List VerificationLog
insert_latest e [] = e ∷ []
insert_latest e (f ∷ fs) =
    if ltb e.scanned_at f.scanned_at then f ∷ insert_latest e fs else e ∷ f ∷ fs

unfoldable pub sort_latest : List VerificationLog → List VerificationLog
sort_latest [] = []
sort_latest (e ∷ es) = insert_latest e (sort_latest es)

abbrev pub recent_view : VerificationLog → RecentScan
recent_view e = record {
  outcome = e.outcome;
  tx_hash = truthy e.tx_hash;
  scanned_at = e.scanned_at;
}

-- the filter of the first query
abbrev pub in_window : (phi : Str) → (since : ℕ) → VerificationLog → Bool
in_window phi since e = str_eq e.phi phi && leb since e.scanned_at

abbrev pub stats_of : (now days : ℕ) → (logs recent : List VerificationLog) → ProjectStats
stats_of now days logs recent =
    let (totals, buckets) = tally logs (no_scans, day_buckets now 0 days []) in
    record { totals = totals; daily = sort_days buckets; recent = map recent_view recent }

-- MongoDB's `limit(n)`, where 0 is no limit
abbrev pub limited : {A : Type 0} → (n : ℕ) → List A → List A
limited zero xs = xs
limited (suc n) xs = take (suc n) xs

module _ (x : Outside) where
  -- The two queries are sent together; here the first is answered first.
  unfoldable pub get_project_stats : (phi : Str) → (days recent_limit : ℕ) → M ProjectStats
  get_project_stats phi days recent_limit = do
    since ← gets (λ w. x.clock w.tick - days * day_ms)
    logs ← db_read x (λ w. filter_by (in_window phi since) w.logs)
    recent ←
        db_read x
          (λ w. limited recent_limit (sort_latest (filter_by (λ e. str_eq e.phi phi) w.logs)))
    now ← gets (λ w. x.clock w.tick)
    pure (stats_of now days logs recent)
