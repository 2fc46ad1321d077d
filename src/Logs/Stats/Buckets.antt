-- ===== src/Logs/Stats/Buckets.antt =====
-- The buckets of `getProjectStats` (apps/coordination-hub/src/scan/verification-log.service.ts): their
-- dates differ, and an increment adds one scan to the bucket of its day.
use qr_blockchain_anticounte.Prelude.{
  ℕ, zero, suc, ◌+◌, ◌-◌, ◌*◌, Str, str_eq, str_eq→eq, ◌≡◌, refl, sym, subst, ap, ◌∙◌, List, [],
  ◌∷◌, Bool, true, false, if◌then◌else◌, count, All, Bool-cases, inl, inr, arith,
}
use qr_blockchain_anticounte.Dates.{iso_date, day_ms}
use qr_blockchain_anticounte.World.{
  VerificationLog, OutcomeStatus, authentic, already_verified, counterfeit,
}
use qr_blockchain_anticounte.Logs.{same_status}
use qr_blockchain_anticounte.Logs.Stats.{
  Totals, DayBucket, no_scans, bumped, set_day, bump_day, day_buckets,
}

abbrev pub on_day : Str → VerificationLog → Bool
on_day day e = str_eq day (iso_date e.scanned_at)

abbrev pub of_status : OutcomeStatus → VerificationLog → Bool
of_status o e = same_status e.outcome o

abbrev pub counts : List VerificationLog → Totals
counts es = record {
  authentic = count (of_status authentic) es;
  already_verified = count (of_status already_verified) es;
  counterfeit = count (of_status counterfeit) es;
}

unfoldable pub plus : Totals → Totals → Totals
plus t u = record {
  authentic = t.authentic + u.authentic;
  already_verified = t.already_verified + u.already_verified;
  counterfeit = t.counterfeit + u.counterfeit;
}

pub bumped-plus :
    (e : VerificationLog) (es : List VerificationLog) (t : Totals)
    → plus (bumped e.outcome t) (counts es) ≡ plus t (counts (e ∷ es))
unfolding plus
bumped-plus e es t = ground arith

str_eq_sym : (s t : Str) → str_eq s t ≡ str_eq t s
unfolding str_eq
str_eq_sym [] [] = refl
str_eq_sym [] (b ∷ t) = refl
str_eq_sym (a ∷ s) [] = refl
str_eq_sym (a ∷ s) (b ∷ t) = ground (arith, str_eq_sym s t)

pub totals_zero : (t : Totals) → t ≡ plus t (counts [])
unfolding plus
totals_zero t = ground arith

-- no two buckets have the same date
unfoldable pub IsDistinct : List DayBucket → Type 0
IsDistinct [] = Unit
IsDistinct (b ∷ bs) = All (λ (c : DayBucket). str_eq c.date b.date ≡ false) bs × IsDistinct bs

pub empty-IsDistinct : IsDistinct []
unfolding IsDistinct
empty-IsDistinct = tt

module _ (P : Str → Type 0) where
  abbrev pub Dated : List DayBucket → Type 0
  Dated = All (λ (b : DayBucket). P b.date)

  pub bump_day-Dated :
      (d : Str) (o : OutcomeStatus) (bs : List DayBucket) → Dated bs → Dated (bump_day d o bs)
  unfolding bump_day
  bump_day-Dated d o [] k = tt
  bump_day-Dated d o (b ∷ bs) k = elim (Bool-cases (str_eq b.date d)) [
    | inl e ↦ rw e k
    | inr e ↦ rw e (k.0, bump_day-Dated d o bs k.1)
  ]

  pub set_day-Dated : (d : Str) (bs : List DayBucket) → P d → Dated bs → Dated (set_day d bs)
  unfolding set_day
  set_day-Dated d [] p k = (p, tt)
  set_day-Dated d (b ∷ bs) p k = elim (Bool-cases (str_eq b.date d)) [
    | inl e ↦ rw e k
    | inr e ↦ rw e (k.0, set_day-Dated d bs p k.1)
  ]

pub bump_day-IsDistinct :
    (d : Str) (o : OutcomeStatus) (bs : List DayBucket)
    → IsDistinct bs
    → IsDistinct (bump_day d o bs)
unfolding bump_day IsDistinct
bump_day-IsDistinct d o [] k = tt
bump_day-IsDistinct d o (b ∷ bs) k = elim (Bool-cases (str_eq b.date d)) [
  | inl e ↦ rw e k
  | inr e ↦
      rw e
        (bump_day-Dated (λ s. str_eq s b.date ≡ false) d o bs k.0, bump_day-IsDistinct d o bs k.1)
]

set_day-IsDistinct : (d : Str) (bs : List DayBucket) → IsDistinct bs → IsDistinct (set_day d bs)
unfolding set_day IsDistinct
set_day-IsDistinct d [] k = (tt, tt)
set_day-IsDistinct d (b ∷ bs) k = elim (Bool-cases (str_eq b.date d)) [
  | inl e ↦ rw e k
  | inr e ↦ rw e (
    set_day-Dated (λ s. str_eq s b.date ≡ false) d bs (str_eq_sym d b.date ∙ e) k.0,
    set_day-IsDistinct d bs k.1,
  )
]

-- each bucket holds what the function says of its date
abbrev pub Holding : (Str → Totals) → List DayBucket → Type 0
Holding f = All (λ (b : DayBucket). b.totals ≡ f b.date)

abbrev pub with_one : Str → OutcomeStatus → (Str → Totals) → Str → Totals
with_one d o f k = if str_eq k d then bumped o (f k) else f k

module _ (d : Str) (o : OutcomeStatus) (f : Str → Totals) (k : Str) where
  one_more : str_eq k d ≡ true → with_one d o f k ≡ bumped o (f k)
  one_more e = ground (arith, e)

  no_more : str_eq k d ≡ false → with_one d o f k ≡ f k
  no_more e = ground (arith, e)

others_kept :
    (d : Str) (o : OutcomeStatus) (f : Str → Totals) (bs : List DayBucket)
    → All (λ (c : DayBucket). str_eq c.date d ≡ false) bs
    → Holding f bs
    → Holding (with_one d o f) bs
others_kept d o f [] n k = tt
others_kept d o f (b ∷ bs) n k = (ground (arith, n.0, k.0), others_kept d o f bs n.1 k.1)

pub bump_day-Holding :
    (d : Str) (o : OutcomeStatus) (f : Str → Totals) (bs : List DayBucket)
    → IsDistinct bs
    → Holding f bs
    → Holding (with_one d o f) (bump_day d o bs)
unfolding bump_day IsDistinct
bump_day-Holding d o f [] n k = tt
bump_day-Holding d o f (b ∷ bs) n k = elim (Bool-cases (str_eq b.date d)) [
  | inl e ↦ rw e (
    ap (bumped o) k.0 ∙ sym (one_more d o f b.date e),
    others_kept d o f bs
        (subst (λ s. All (λ (c : DayBucket). str_eq c.date s ≡ false) bs) (str_eq→eq b.date d e)
          n.0)
        k.1,
  )
  | inr e ↦ rw e (k.0 ∙ sym (no_more d o f b.date e), bump_day-Holding d o f bs n.1 k.1)
]

set_day-Holding :
    (d : Str) (bs : List DayBucket)
    → Holding (λ _. no_scans) bs
    → Holding (λ _. no_scans) (set_day d bs)
unfolding set_day
set_day-Holding d [] k = (refl, tt)
set_day-Holding d (b ∷ bs) k = elim (Bool-cases (str_eq b.date d)) [
  | inl e ↦ rw e (refl, k.1)
  | inr e ↦ rw e (k.0, set_day-Holding d bs k.1)
]

pub day_buckets-Empty :
    (now i n : ℕ) (bs : List DayBucket)
    → IsDistinct bs × Holding (λ _. no_scans) bs
    → IsDistinct (day_buckets now i n bs) × Holding (λ _. no_scans) (day_buckets now i n bs)
unfolding day_buckets
day_buckets-Empty now i zero bs k = k
day_buckets-Empty now i (suc n) bs k =
    let d = iso_date (now - i * day_ms) in
    day_buckets-Empty now (i + 1) n (set_day d bs)
      (set_day-IsDistinct d bs k.0, set_day-Holding d bs k.1)
