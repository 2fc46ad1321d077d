-- ===== src/Logs/Stats/Recent.antt =====
-- The recent scans of `getProjectStats` (apps/coordination-hub/src/scan/verification-log.service.ts).
use qr_blockchain_anticounte.Prelude.{
  ℕ, zero, suc, ◌≤◌, ◌≡◌, refl, sym, subst, ap, ◌∙◌, ◌⊎◌, inl, inr, List, [], ◌∷◌, ◌++◌, Bool, All,
  Bool-cases, ltb, arith, map, length, take, drop, count,
}
use qr_blockchain_anticounte.World.{VerificationLog}
use qr_blockchain_anticounte.Logs.Stats.{
  RecentScan, recent_view, insert_latest, sort_latest, limited,
}

-- no entry is later than one before it
pub Descending : List VerificationLog → Type 0
Descending [] = Unit
Descending (e ∷ es) = All (λ (f : VerificationLog). f.scanned_at ≤ e.scanned_at) es × Descending es

-- A limit of 0 leaves nothing out, and another one does so only when it is reached.
pub Full : (limit : ℕ) → (chosen rest : List VerificationLog) → Type 0
Full zero chosen rest = rest ≡ []
Full (suc n) chosen rest = (length chosen ≡ suc n) ⊎ ((rest ≡ []) × (length chosen ≤ suc n))

-- The latest of the entries, latest first, and as many as asked for.
pub record IsRecent (entries : List VerificationLog) (limit : ℕ) (rs : List RecentScan)
    : Type 0 where
  pub chosen : List VerificationLog
  pub rest : List VerificationLog
  pub shown : rs ≡ map recent_view chosen
  pub same : (p : VerificationLog → Bool) → count p (chosen ++ rest) ≡ count p entries
  pub latest_first : Descending (chosen ++ rest)
  pub full : Full limit chosen rest

no_later :
    (n m : ℕ) (es : List VerificationLog)
    → n ≤ m
    → All (λ (f : VerificationLog). f.scanned_at ≤ n) es
    → All (λ (f : VerificationLog). f.scanned_at ≤ m) es
no_later n m [] h k = tt
no_later n m (e ∷ es) h k = (omega (arith, h, k.0), no_later n m es h k.1)

insert_latest-All :
    (n : ℕ) (e : VerificationLog) (es : List VerificationLog)
    → e.scanned_at ≤ n
    → All (λ (f : VerificationLog). f.scanned_at ≤ n) es
    → All (λ (f : VerificationLog). f.scanned_at ≤ n) (insert_latest e es)
unfolding insert_latest
insert_latest-All n e [] h k = (h, tt)
insert_latest-All n e (f ∷ fs) h k = elim (Bool-cases (ltb e.scanned_at f.scanned_at)) [
  | inl t ↦ rw t (k.0, insert_latest-All n e fs h k.1)
  | inr t ↦ rw t (h, k)
]

insert_latest-Descending :
    (e : VerificationLog) (es : List VerificationLog)
    → Descending es
    → Descending (insert_latest e es)
unfolding insert_latest Descending
insert_latest-Descending e [] k = (tt, tt)
insert_latest-Descending e (f ∷ fs) k = elim (Bool-cases (ltb e.scanned_at f.scanned_at)) [
  | inl t ↦ rw t (
    insert_latest-All f.scanned_at e fs (ground (arith, t)) k.0,
    insert_latest-Descending e fs k.1,
  )
  | inr t ↦
      let earlier : f.scanned_at ≤ e.scanned_at = ground (arith, t) in
      rw t ((earlier, no_later f.scanned_at e.scanned_at fs earlier k.0), k)
]

sort_latest-Descending : (es : List VerificationLog) → Descending (sort_latest es)
unfolding sort_latest Descending
sort_latest-Descending [] = tt
sort_latest-Descending (e ∷ es) =
    insert_latest-Descending e (sort_latest es) (sort_latest-Descending es)

count-insert_latest :
    (p : VerificationLog → Bool) (e : VerificationLog) (es : List VerificationLog)
    → count p (insert_latest e es) ≡ count p (e ∷ es)
unfolding insert_latest
count-insert_latest p e [] = refl
count-insert_latest p e (f ∷ fs) = elim (Bool-cases (ltb e.scanned_at f.scanned_at)) [
  | inl t ↦ rw t (ground (arith, count-insert_latest p e fs))
  | inr t ↦ rw t refl
]

count-sort_latest :
    (p : VerificationLog → Bool) (es : List VerificationLog) → count p (sort_latest es) ≡ count p es
unfolding sort_latest
count-sort_latest p [] = refl
count-sort_latest p (e ∷ es) =
    count-insert_latest p e (sort_latest es) ∙ ground (arith, count-sort_latest p es)

take-drop : {A : Type 0} (n : ℕ) (xs : List A) → take n xs ++ drop n xs ≡ xs
take-drop zero xs = refl
take-drop (suc n) [] = refl
take-drop (suc n) (a ∷ xs) = ap (λ ys. a ∷ ys) (take-drop n xs)

take-Full :
    (n : ℕ) (xs : List VerificationLog)
    → (length (take n xs) ≡ n) ⊎ ((drop n xs ≡ []) × (length (take n xs) ≤ n))
take-Full zero xs = inl refl
take-Full (suc n) [] = inr (refl, omega arith)
take-Full (suc n) (a ∷ xs) = elim (take-Full n xs) [
  | inl e ↦ inl (ap suc e)
  | inr (e, k) ↦ inr (e, omega (arith, k))
]

append_nil : {A : Type 0} (xs : List A) → xs ++ [] ≡ xs
append_nil [] = refl
append_nil (a ∷ xs) = ap (λ ys. a ∷ ys) (append_nil xs)

parted-IsRecent :
    (limit : ℕ) (entries chosen rest : List VerificationLog)
    → chosen ++ rest ≡ sort_latest entries
    → Full limit chosen rest
    → IsRecent entries limit (map recent_view chosen)
parted-IsRecent limit entries chosen rest e f = record {
  chosen = chosen;
  rest = rest;
  shown = refl;
  same = λ p. ap (count p) e ∙ count-sort_latest p entries;
  latest_first = subst Descending (sym e) (sort_latest-Descending entries);
  full = f;
}

pub limited-IsRecent :
    (limit : ℕ) (entries : List VerificationLog)
    → IsRecent entries limit (map recent_view (limited limit (sort_latest entries)))
unfolding Full
limited-IsRecent zero entries =
    parted-IsRecent zero entries (sort_latest entries) [] (append_nil (sort_latest entries)) refl
limited-IsRecent (suc n) entries =
    let sorted = sort_latest entries in
    parted-IsRecent (suc n) entries (take (suc n) sorted) (drop (suc n) sorted)
      (take-drop (suc n) sorted) (take-Full (suc n) sorted)
