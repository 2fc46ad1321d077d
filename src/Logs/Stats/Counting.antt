-- ===== src/Logs/Stats/Counting.antt =====
-- The loops of `getProjectStats` (apps/coordination-hub/src/scan/verification-log.service.ts) against
-- counting the entries that pass a test.
use qr_blockchain_anticounte.Prelude.{
  ℕ, ◌+◌, ◌-◌, ◌*◌, ◌<◌, Str, str_eq, ◌≡◌, refl, sym, subst, ◌∙◌, List, [], ◌∷◌, filter_by, All,
  Bool-cases, Option-cases, inl, inr, arith,
}
use qr_blockchain_anticounte.Dates.{iso_date, day_ms}
use qr_blockchain_anticounte.World.{Outside, World, ok, db_read, VerificationLog}
use qr_blockchain_anticounte.Logs.Stats.{
  Totals, DayBucket, ProjectStats, no_scans, bumped, bump_day, day_buckets, tally, insert_day,
  sort_days, str_lt, stats_of, sort_latest, limited, get_project_stats, in_window,
}
use qr_blockchain_anticounte.Logs.Stats.Buckets.{
  on_day, counts, plus, bumped-plus, totals_zero, IsDistinct, empty-IsDistinct, Holding, with_one,
  bump_day-IsDistinct, bump_day-Holding, day_buckets-Empty,
}
use qr_blockchain_anticounte.Logs.Stats.Days.{buckets_of, IsLast, reported_once, reported-Dated}
use qr_blockchain_anticounte.Logs.Stats.Recent.{IsRecent, limited-IsRecent}

-- the scans of a day, on top of what was there
abbrev added : (Str → Totals) → List VerificationLog → Str → Totals
added f es k = plus (f k) (counts (filter_by (on_day k) es))

added-with_one :
    (f : Str → Totals) (e : VerificationLog) (es : List VerificationLog) (k : Str)
    → added (with_one (iso_date e.scanned_at) e.outcome f) es k ≡ added f (e ∷ es) k
unfolding filter_by
added-with_one f e es k = elim (Bool-cases (str_eq k (iso_date e.scanned_at))) [
  | inl h ↦ rw h (bumped-plus e (filter_by (on_day k) es) (f k))
  | inr h ↦ rw h refl
]

Holding-equal :
    (f g : Str → Totals) (bs : List DayBucket)
    → ((k : Str) → f k ≡ g k)
    → Holding f bs
    → Holding g bs
Holding-equal f g [] q h = tt
Holding-equal f g (b ∷ bs) q h = (h.0 ∙ q b.date, Holding-equal f g bs q h.1)

tally-Holding :
    (es : List VerificationLog) (t : Totals) (f : Str → Totals) (bs : List DayBucket)
    → IsDistinct bs
    → Holding f bs
    → Holding (added f es) (tally es (t, bs)).1
unfolding tally filter_by plus
tally-Holding [] t f bs n h = Holding-equal f (added f []) bs (λ k. ground arith) h
tally-Holding (e ∷ es) t f bs n h =
    let d = iso_date e.scanned_at in
    Holding-equal (added (with_one d e.outcome f) es) (added f (e ∷ es))
      (tally es (bumped e.outcome t, bump_day d e.outcome bs)).1 (added-with_one f e es)
      (tally-Holding es (bumped e.outcome t) (with_one d e.outcome f) (bump_day d e.outcome bs)
        (bump_day-IsDistinct d e.outcome bs n) (bump_day-Holding d e.outcome f bs n h))

tally-totals :
    (es : List VerificationLog) (t : Totals) (bs : List DayBucket)
    → (tally es (t, bs)).0 ≡ plus t (counts es)
unfolding tally
tally-totals [] t bs = totals_zero t
tally-totals (e ∷ es) t bs =
    tally-totals es (bumped e.outcome t) (bump_day (iso_date e.scanned_at) e.outcome bs)
    ∙ bumped-plus e es t

insert_day-Holding :
    (f : Str → Totals) (b : DayBucket) (bs : List DayBucket)
    → b.totals ≡ f b.date
    → Holding f bs
    → Holding f (insert_day b bs)
unfolding insert_day
insert_day-Holding f b [] p h = (p, tt)
insert_day-Holding f b (c ∷ cs) p h = elim (Bool-cases (str_lt b.date c.date)) [
  | inl e ↦ rw e (p, h)
  | inr e ↦ rw e (h.0, insert_day-Holding f b cs p h.1)
]

sort_days-Holding :
    (f : Str → Totals) (bs : List DayBucket) → Holding f bs → Holding f (sort_days bs)
unfolding sort_days
sort_days-Holding f [] h = tt
sort_days-Holding f (b ∷ bs) h =
    insert_day-Holding f b (sort_days bs) h.0 (sort_days-Holding f bs h.1)

-- What the service reports, by counting: the totals are those of the entries of the window; the buckets
-- are one for each of the last days, with the totals of the entries of that day; and the recent scans
-- are the latest of all of the project's entries.
pub record IsStats (window entries : List VerificationLog) (now days limit : ℕ) (s : ProjectStats)
    : Type 0 where
  pub totals : s.totals ≡ counts window
  pub daily : All (λ (b : DayBucket). b.totals ≡ counts (filter_by (on_day b.date) window)) s.daily
  pub each_day : (i : ℕ) → i < days → buckets_of (iso_date (now - i * day_ms)) s.daily ≡ 1
  pub no_other : All (λ (b : DayBucket). IsLast now days b.date) s.daily
  pub recent : IsRecent entries limit s.recent

plus_none : (u : Totals) → plus no_scans u ≡ u
unfolding plus
plus_none u = ground arith

stats_of-IsStats :
    (now days limit : ℕ) (logs entries : List VerificationLog)
    → IsStats logs entries now days limit
        (stats_of now days logs (limited limit (sort_latest entries)))
stats_of-IsStats now days limit logs entries =
    let k = day_buckets-Empty now 0 days [] (empty-IsDistinct, tt) in
    record {
      totals = tally-totals logs no_scans (day_buckets now 0 days []) ∙ plus_none (counts logs);
      daily =
          sort_days-Holding (λ d. counts (filter_by (on_day d) logs))
            (tally logs (no_scans, day_buckets now 0 days [])).1
            (Holding-equal _ _ (tally logs (no_scans, day_buckets now 0 days [])).1
              (λ d. plus_none (counts (filter_by (on_day d) logs)))
              (tally-Holding logs no_scans (λ _. no_scans) (day_buckets now 0 days []) k.0 k.1));
      each_day = reported_once now days logs;
      no_other = reported-Dated now days logs;
      recent = limited-IsRecent limit entries;
    }

module _ (x : Outside) (phi : Str) (days limit : ℕ) (w : World) where
  abbrev pub window : List VerificationLog
  window = filter_by (in_window phi (x.clock w.tick - days * day_ms)) w.logs

  abbrev pub entries : List VerificationLog
  entries = filter_by (λ e. str_eq e.phi phi) w.logs

  stats_run :
      (s : ProjectStats) (w' : World)
      → get_project_stats x phi days limit w ≡ (ok s, w')
      → s ≡ stats_of (x.clock w'.tick) days window (limited limit (sort_latest entries))
  unfolding get_project_stats db_read
  stats_run s w' e = elim (Option-cases (x.db w.tick)) [
    | inl a ↦ elim (Option-cases (x.db (w.tick + 1))) [
      | inl b ↦ ground (arith, a, b, e)
      | inr (z, b) ↦ absurd (ground (arith, a, b, e))
    ]
    | inr (z, a) ↦ absurd (ground (arith, a, e))
  ]

  -- When the statistics of a project are answered, their totals are the numbers of the project's entries
  -- of each outcome in the window of days; there is exactly one bucket for each of the last days that was asked
  -- for and none for another day, and it holds those numbers for the entries of the window of that day; and
  -- the recent scans are the latest of all entries of the project, latest first, as many as the limit or
  -- all that there are, and all of them when the limit is zero.
  pub get_project_stats-IsStats :
      (s : ProjectStats) (w' : World)
      → get_project_stats x phi days limit w ≡ (ok s, w')
      → IsStats window entries (x.clock w'.tick) days limit s
  get_project_stats-IsStats s w' e =
      subst (λ z. IsStats window entries (x.clock w'.tick) days limit z) (sym (stats_run s w' e))
        (stats_of-IsStats (x.clock w'.tick) days limit window entries)
