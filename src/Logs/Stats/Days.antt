-- ===== src/Logs/Stats/Days.antt =====
-- The days of the buckets of `getProjectStats`
-- (apps/coordination-hub/src/scan/verification-log.service.ts): one bucket for each of the last days.
use qr_blockchain_anticounte.Prelude.{
  ℕ, zero, suc, ◌+◌, ◌-◌, ◌*◌, ◌≤◌, ◌<◌, Str, str_eq, str_eq_refl, str_eq→eq, ◌≡◌, refl, subst, ◌∙◌,
  List, [], ◌∷◌, false, count, All, Bool-cases, inl, inr, arith,
}
use qr_blockchain_anticounte.Dates.{iso_date, day_ms}
use qr_blockchain_anticounte.World.{VerificationLog, OutcomeStatus}
use qr_blockchain_anticounte.Logs.Stats.{
  Totals, DayBucket, bumped, set_day, bump_day, day_buckets, tally, insert_day, sort_days, str_lt,
  no_scans,
}
use qr_blockchain_anticounte.Logs.Stats.Buckets.{
  Dated, bump_day-Dated, set_day-Dated, IsDistinct, empty-IsDistinct, day_buckets-Empty,
}

-- the buckets of a day
abbrev pub buckets_of : Str → List DayBucket → ℕ
buckets_of d bs = count (λ (b : DayBucket). str_eq b.date d) bs

count-bump_day :
    (d k : Str) (o : OutcomeStatus) (bs : List DayBucket)
    → buckets_of d (bump_day k o bs) ≡ buckets_of d bs
unfolding bump_day
count-bump_day d k o [] = refl
count-bump_day d k o (b ∷ bs) = elim (Bool-cases (str_eq b.date k)) [
  | inl e ↦ rw e refl
  | inr e ↦ rw e (ground (arith, count-bump_day d k o bs))
]

count-tally :
    (d : Str) (es : List VerificationLog) (t : Totals) (bs : List DayBucket)
    → buckets_of d (tally es (t, bs)).1 ≡ buckets_of d bs
unfolding tally
count-tally d [] t bs = refl
count-tally d (e ∷ es) t bs =
    count-tally d es (bumped e.outcome t) (bump_day (iso_date e.scanned_at) e.outcome bs)
    ∙ count-bump_day d (iso_date e.scanned_at) e.outcome bs

count-insert_day :
    (d : Str) (b : DayBucket) (bs : List DayBucket)
    → buckets_of d (insert_day b bs) ≡ buckets_of d (b ∷ bs)
unfolding insert_day
count-insert_day d b [] = refl
count-insert_day d b (c ∷ cs) = elim (Bool-cases (str_lt b.date c.date)) [
  | inl e ↦ rw e refl
  | inr e ↦ rw e (ground (arith, count-insert_day d b cs))
]

count-sort_days : (d : Str) (bs : List DayBucket) → buckets_of d (sort_days bs) ≡ buckets_of d bs
unfolding sort_days
count-sort_days d [] = refl
count-sort_days d (b ∷ bs) =
    count-insert_day d b (sort_days bs) ∙ ground (arith, count-sort_days d bs)

count-set_day : (d k : Str) (bs : List DayBucket) → buckets_of d bs ≤ buckets_of d (set_day k bs)
unfolding set_day
count-set_day d k [] = omega arith
count-set_day d k (b ∷ bs) = elim (Bool-cases (str_eq b.date k)) [
  | inl e ↦ rw e (omega arith)
  | inr e ↦ rw e (ground (arith, count-set_day d k bs))
]

set_day_there : (d : Str) (bs : List DayBucket) → 1 ≤ buckets_of d (set_day d bs)
unfolding set_day
set_day_there d [] = ground (arith, str_eq_refl d)
set_day_there d (b ∷ bs) = elim (Bool-cases (str_eq b.date d)) [
  | inl e ↦ rw e (ground (arith, e))
  | inr e ↦ rw e (ground (arith, set_day_there d bs))
]

count-day_buckets :
    (d : Str) (now i n : ℕ) (bs : List DayBucket)
    → buckets_of d bs ≤ buckets_of d (day_buckets now i n bs)
unfolding day_buckets
count-day_buckets d now i zero bs = omega arith
count-day_buckets d now i (suc n) bs =
    let key = iso_date (now - i * day_ms) in
    omega (arith, count-set_day d key bs, count-day_buckets d now (i + 1) n (set_day key bs))

day_buckets_there :
    (now i j n : ℕ) (bs : List DayBucket)
    → j < n
    → 1 ≤ buckets_of (iso_date (now - (i + j) * day_ms)) (day_buckets now i n bs)
unfolding day_buckets
day_buckets_there now i j zero bs h = absurd (omega (arith, h))
day_buckets_there now i zero (suc n) bs h =
    let key = iso_date (now - i * day_ms) in
    let there : 1 ≤ buckets_of key (day_buckets now (i + 1) n (set_day key bs)) =
      omega (arith, set_day_there key bs, count-day_buckets key now (i + 1) n (set_day key bs)) in
    subst
      (λ m.
        1 ≤ buckets_of (iso_date (now - m * day_ms)) (day_buckets now (i + 1) n (set_day key bs)))
      {x = i} {y = i + 0} (omega arith) there
day_buckets_there now i (suc j) (suc n) bs h =
    let next = set_day (iso_date (now - i * day_ms)) bs in
    subst (λ m. 1 ≤ buckets_of (iso_date (now - m * day_ms)) (day_buckets now (i + 1) n next))
      {x = i + 1 + j} {y = i + suc j} (omega arith)
      (day_buckets_there now (i + 1) j n next (omega (arith, h)))

none_of :
    (d : Str) (bs : List DayBucket)
    → All (λ (c : DayBucket). str_eq c.date d ≡ false) bs
    → buckets_of d bs ≡ 0
none_of d [] h = refl
none_of d (b ∷ bs) h = ground (arith, h.0, none_of d bs h.1)

count-IsDistinct : (d : Str) (bs : List DayBucket) → IsDistinct bs → buckets_of d bs ≤ 1
unfolding IsDistinct
count-IsDistinct d [] h = omega arith
count-IsDistinct d (b ∷ bs) h = elim (Bool-cases (str_eq b.date d)) [
  | inl e ↦
      let none_left = none_of d bs (
        subst (λ s. All (λ (c : DayBucket). str_eq c.date s ≡ false) bs) (str_eq→eq b.date d e)
          h.0) in
      ground (arith, e, none_left)
  | inr e ↦ ground (arith, e, count-IsDistinct d bs h.1)
]

-- The date is that of one of the last days.
pub record IsLast (now days : ℕ) (d : Str) : Type 0 where
  pub ago : ℕ
  pub recent : ago < days
  pub is : d ≡ iso_date (now - ago * day_ms)

module _ (P : Str → Type 0) where
  tally-Dated :
      (es : List VerificationLog) (t : Totals) (bs : List DayBucket)
      → Dated P bs
      → Dated P (tally es (t, bs)).1
  unfolding tally
  tally-Dated [] t bs k = k
  tally-Dated (e ∷ es) t bs k =
      tally-Dated es (bumped e.outcome t) (bump_day (iso_date e.scanned_at) e.outcome bs)
        (bump_day-Dated P (iso_date e.scanned_at) e.outcome bs k)

  insert_day-Dated :
      (b : DayBucket) (bs : List DayBucket) → P b.date → Dated P bs → Dated P (insert_day b bs)
  unfolding insert_day
  insert_day-Dated b [] p k = (p, tt)
  insert_day-Dated b (c ∷ cs) p k = elim (Bool-cases (str_lt b.date c.date)) [
    | inl e ↦ rw e (p, k)
    | inr e ↦ rw e (k.0, insert_day-Dated b cs p k.1)
  ]

  sort_days-Dated : (bs : List DayBucket) → Dated P bs → Dated P (sort_days bs)
  unfolding sort_days
  sort_days-Dated [] k = tt
  sort_days-Dated (b ∷ bs) k = insert_day-Dated b (sort_days bs) k.0 (sort_days-Dated bs k.1)

day_buckets-Dated :
    (now days i n : ℕ) (bs : List DayBucket)
    → i + n ≤ days
    → Dated (IsLast now days) bs
    → Dated (IsLast now days) (day_buckets now i n bs)
unfolding day_buckets
day_buckets-Dated now days i zero bs h k = k
day_buckets-Dated now days i (suc n) bs h k =
    let d = iso_date (now - i * day_ms) in
    day_buckets-Dated now days (i + 1) n (set_day d bs) (omega (arith, h)) (
      set_day-Dated (IsLast now days) d bs
        (record { ago = i; recent = omega (arith, h); is = refl }) k)

module _ (now days : ℕ) (es : List VerificationLog) where
  abbrev reported_days : List DayBucket
  reported_days = sort_days (tally es (no_scans, day_buckets now 0 days [])).1

  pub reported_once :
      (i : ℕ) → i < days → buckets_of (iso_date (now - i * day_ms)) reported_days ≡ 1
  reported_once i h =
      let bs = day_buckets now 0 days [] in
      let d = iso_date (now - i * day_ms) in
      let same = count-sort_days d (tally es (no_scans, bs)).1 ∙ count-tally d es no_scans bs in
      let there : 1 ≤ buckets_of d bs =
        subst (λ m. 1 ≤ buckets_of (iso_date (now - m * day_ms)) bs) {x = 0 + i} {y = i}
          (omega arith) (day_buckets_there now 0 i days [] h) in
      let distinct =
        count-IsDistinct d bs (day_buckets-Empty now 0 days [] (empty-IsDistinct, tt)).0 in
      omega (arith, same, there, distinct)

  pub reported-Dated : Dated (IsLast now days) reported_days
  reported-Dated =
      sort_days-Dated (IsLast now days) (tally es (no_scans, day_buckets now 0 days [])).1 (
        tally-Dated (IsLast now days) es no_scans (day_buckets now 0 days [])
          (day_buckets-Dated now days 0 days [] (omega arith) tt))
