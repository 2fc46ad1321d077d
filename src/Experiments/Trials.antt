-- ===== src/Experiments/Trials.antt =====
-- The trial runner ends after a bounded number of calls, and what it returns is what was measured
-- (experiments/lib/runner.ts).
use qr_blockchain_anticounte.Prelude.{
  ℕ, zero, suc, ◌+◌, ◌*◌, ◌≤◌, ◌≡◌, refl, Option, none, some, List, [], ◌∷◌, length, arith,
}
use qr_blockchain_anticounte.Experiments.{
  TrialResult, or_retry, attempt_trial, then_trials, then_results, run_from, run_trials,
}

rounds : (n k : ℕ) → suc n * k ≡ n * k + k
rounds n k = grind arith

module _ {T : Type 0} (fn : (trial call : ℕ) → Option T) (elapsed : (call : ℕ) → ℕ) where
  -- The result is that of some call for its trial, within the attempts that are allowed.
  pub record IsMeasured (retries trial : ℕ) (r : TrialResult T) : Type 0 where
    pub of_trial : r.trial ≡ trial
    pub call : ℕ
    pub given : fn trial call ≡ some r.value
    pub few : r.attempts ≤ retries + 1

  -- these calls in a row threw for the trial: the first, and as many after it
  abbrev pub AllFail : (more trial call : ℕ) → Type 0
  AllFail zero trial call = fn trial call ≡ none
  AllFail (suc more) trial call = (fn trial call ≡ none) × AllFail more trial (call + 1)

  abbrev Attempted : (retries left trial call : ℕ) → Option (TrialResult T) → Type 0
  Attempted retries left trial call none = AllFail left trial call
  Attempted retries left trial call (some r) = IsMeasured retries trial r

  later-Attempted :
      (retries left trial call : ℕ) (o : Option (TrialResult T))
      → fn trial call ≡ none
      → Attempted retries left trial (call + 1) o
      → Attempted retries (suc left) trial call o
  later-Attempted retries left trial call none h k = (h, k)
  later-Attempted retries left trial call (some r) h k = k

  -- what is known of the end of a trial, and of the number of the next call
  abbrev Bounded : (retries left trial call : ℕ) → Option (TrialResult T) × ℕ → Type 0
  Bounded retries left trial call (o, next) =
      Attempted retries left trial call o × (next ≤ call + (left + 1))

  or_retry-Bounded :
      (retries left attempt trial call : ℕ) (rest : Option (TrialResult T) × ℕ) (o : Option T)
      → fn trial call ≡ o
      → attempt ≤ retries
      → (fn trial call ≡ none → Bounded retries left trial call rest)
      → Bounded retries left trial call (or_retry fn elapsed trial attempt call rest o)
  or_retry-Bounded retries left attempt trial call rest none e le k = k e
  or_retry-Bounded retries left attempt trial call rest (some v) e le k =
      (record { of_trial = refl; call = call; given = e; few = omega (arith, le) }, omega arith)

  attempt_trial-Bounded :
      (retries left attempt trial call : ℕ)
      → attempt + left ≡ retries
      → Bounded retries left trial call (attempt_trial fn elapsed left attempt trial call)
  unfolding attempt_trial
  attempt_trial-Bounded retries zero attempt trial call e =
      or_retry-Bounded retries 0 attempt trial call (none, call + 1) (fn trial call) refl
        (omega (arith, e)) (λ h. (h, omega arith))
  attempt_trial-Bounded retries (suc left) attempt trial call e =
      let rest = attempt_trial fn elapsed left (attempt + 1) trial (call + 1) in
      let (k, le) =
        attempt_trial-Bounded retries left (attempt + 1) trial (call + 1) (omega (arith, e)) in
      or_retry-Bounded retries (suc left) attempt trial call rest (fn trial call) refl
        (omega (arith, e))
        (λ h. (later-Attempted retries left trial call rest.0 h k, omega (arith, le)))

  -- results of the trials in order, from this one on
  abbrev pub Numbered : (retries trial : ℕ) → List (TrialResult T) → Type 0
  Numbered retries trial [] = Unit
  Numbered retries trial (r ∷ rs) = IsMeasured retries trial r × Numbered retries (trial + 1) rs

  -- As many results as there were trials, or a trial whose every attempt threw.
  abbrev pub Finished : (retries left trial : ℕ) → Option (List (TrialResult T)) → Type 0
  Finished retries left trial (some rs) = (length rs ≡ left) × Numbered retries trial rs
  Finished retries left trial none = (t : ℕ) × (call : ℕ) × AllFail retries t call

  then_results-Finished :
      (retries left trial : ℕ) (r : TrialResult T) (o : Option (List (TrialResult T)))
      → IsMeasured retries trial r
      → Finished retries left (trial + 1) o
      → Finished retries (suc left) trial (then_results fn elapsed r o)
  then_results-Finished retries left trial r none m k = k
  then_results-Finished retries left trial r (some rs) m k = (omega (arith, k.0), (m, k.1))

  abbrev Ended : (retries left trial call : ℕ) → Option (List (TrialResult T)) × ℕ → Type 0
  Ended retries left trial call (o, next) =
      Finished retries left trial o × (next ≤ call + left * (retries + 1))

  then_trials-Ended :
      (retries left trial call : ℕ) (rest : (next : ℕ) → Option (List (TrialResult T)) × ℕ)
      (a : Option (TrialResult T) × ℕ)
      → Bounded retries retries trial call a
      → ((next : ℕ) → Ended retries left (trial + 1) next (rest next))
      → Ended retries (suc left) trial call (then_trials fn elapsed rest a)
  then_trials-Ended retries left trial call rest (none, next) (k, le) f =
      ((trial, call, k), omega (arith, le, rounds left (retries + 1)))
  then_trials-Ended retries left trial call rest (some r, next) (k, le) f =
      let (done, le') = f next in
      (
        then_results-Finished retries left trial r (rest next).0 k done,
        omega (arith, le, le', rounds left (retries + 1)),
      )

  run_from-Ended :
      (retries left trial call : ℕ)
      → Ended retries left trial call (run_from fn elapsed retries left trial call)
  unfolding run_from
  run_from-Ended retries zero trial call = ((refl, tt), omega arith)
  run_from-Ended retries (suc left) trial call =
      then_trials-Ended retries left trial call
        (λ next. run_from fn elapsed retries left (trial + 1) next)
        (attempt_trial fn elapsed retries 0 trial call)
        (attempt_trial-Bounded retries retries 0 trial call (omega arith))
        (λ next. run_from-Ended retries left (trial + 1) next)

  -- The runner ends within n * (retries + 1) calls of the measured function: with n results, the one of
  -- each trial in order, measured by a call for it within the attempts that are allowed; or with an error
  -- after a trial whose every attempt threw.
  pub run_trials-Ended :
      (n retries : ℕ)
      → Finished retries n 0 (run_trials fn elapsed n retries).0
        × ((run_trials fn elapsed n retries).1 ≤ n * (retries + 1))
  run_trials-Ended n retries = let (f, le) = run_from-Ended retries n 0 0 in (f, omega (arith, le))
