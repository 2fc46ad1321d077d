-- ===== src/Experiments.antt =====
-- The library of the experiments, experiments/lib: the trial runner, the CSV writer, and the flags of
-- a run. `fn` is the measured function: what the call with this number gives for a trial, or none when
-- it throws; `elapsed` is the time that a call takes.
pub mod Trials
use qr_blockchain_anticounte.Prelude.{
  ℕ, zero, suc, ◌+◌, Str, codes, ◌++◌, str_eq, to_lower_case, Option, none, some, List, [], ◌∷◌,
  Bool, true, false, ◌||◌, ◌==◌, if◌then◌else◌, get_or, or_else, map,
}

pub record TrialResult (T : Type 0) : Type 0 where
  pub trial : ℕ
  pub ms : ℕ
  pub value : T
  pub attempts : ℕ

module _ {T : Type 0} (fn : (trial call : ℕ) → Option T) (elapsed : (call : ℕ) → ℕ) where
  abbrev pub result_of : (trial attempt call : ℕ) → T → TrialResult T
  result_of trial attempt call v = record {
    trial = trial;
    ms = elapsed call;
    value = v;
    attempts = attempt + 1;
  }

  -- the body's `try`: what the call gave, or what the next attempts give
  abbrev pub or_retry :
      (trial attempt call : ℕ) → Option (TrialResult T) × ℕ → Option T → Option (TrialResult T) × ℕ
  or_retry trial attempt call rest none = rest
  or_retry trial attempt call rest (some v) = (some (result_of trial attempt call v), call + 1)

  -- The inner loop with `left` retries left, and the number of the next call.
  unfoldable pub attempt_trial : (left attempt trial call : ℕ) → Option (TrialResult T) × ℕ
  attempt_trial zero attempt trial call =
      or_retry trial attempt call (none, call + 1) (fn trial call)
  attempt_trial (suc left) attempt trial call =
      let rest = attempt_trial left (attempt + 1) trial (call + 1) in
      or_retry trial attempt call rest (fn trial call)

  abbrev pub then_results :
      TrialResult T → Option (List (TrialResult T)) → Option (List (TrialResult T))
  then_results r none = none
  then_results r (some rs) = some (r ∷ rs)

  abbrev pub then_trials :
      (rest : (next : ℕ) → Option (List (TrialResult T)) × ℕ)
      → Option (TrialResult T) × ℕ
      → Option (List (TrialResult T)) × ℕ
  then_trials rest (none, next) = (none, next)
  then_trials rest (some r, next) = let (rs, last) = rest next in (then_results r rs, last)

  -- The outer loop; a trial whose retries are used up ends it with an error.
  unfoldable pub run_from : (retries left trial call : ℕ) → Option (List (TrialResult T)) × ℕ
  run_from retries zero trial call = (some [], call)
  run_from retries (suc left) trial call =
      then_trials (λ next. run_from retries left (trial + 1) next)
        (attempt_trial retries 0 trial call)

  abbrev pub run_trials : (n retries : ℕ) → Option (List (TrialResult T)) × ℕ
  run_trials n retries = run_from retries n 0 0

-- A value of a row; `number_text` is what `formatNumber` makes of a number.
pub data Cell : Type 0 where
  no_value : Cell
  number : (number_text : Str) → Cell
  text : Str → Cell

-- `/[",\n]/.test(s)`
unfoldable pub needs_quotes : Str → Bool
needs_quotes [] = false
needs_quotes (c ∷ s) = c == b'"' || c == b',' || c == 10 || needs_quotes s

unfoldable pub doubled : Str → Str
doubled [] = []
doubled (c ∷ s) = if c == b'"' then b'"' ∷ b'"' ∷ doubled s else c ∷ doubled s

abbrev pub quoted_cell : Str → Str
quoted_cell s = if needs_quotes s then b'"' ∷ (doubled s ++ b'"' ∷ []) else s

unfoldable pub csv_cell : Cell → Str
csv_cell no_value = []
csv_cell (number n) = quoted_cell n
csv_cell (text s) = quoted_cell s

unfoldable pub joined_by : ℕ → List Str → Str
joined_by c [] = []
joined_by c (s ∷ []) = s
joined_by c (s ∷ t ∷ ts) = s ++ c ∷ joined_by c (t ∷ ts)

-- The file: the columns are those of the first row, and each row gives a cell for a column.
unfoldable pub write_csv : (cols : List Str) → List (Str → Cell) → Str
write_csv cols [] = []
write_csv cols (row ∷ rows) =
    joined_by 10 (
      joined_by b',' cols ∷ map (λ r. joined_by b',' (map (λ c. csv_cell (r c)) cols)) (row ∷ rows))
    ++ 10 ∷ []

-- `argv.indexOf(flag)`, and the argument after it, if it is not empty
unfoldable pub argument_after : (flag : Str) → List Str → Option Str
argument_after flag [] = none
argument_after flag (a ∷ []) = none
argument_after flag (a ∷ [] ∷ argv) =
    if str_eq a flag then none else argument_after flag ([] ∷ argv)
argument_after flag (a ∷ (c ∷ s) ∷ argv) =
    let rest = argument_after flag ((c ∷ s) ∷ argv) in if str_eq a flag then some (c ∷ s) else rest

abbrev pub non_empty : Option Str → Option Str
non_empty none = none
non_empty (some []) = none
non_empty (some (c ∷ s)) = some (c ∷ s)

abbrev pub resolve_run_id : (argv : List Str) → (from_env : Option Str) → (generated : Str) → Str
resolve_run_id argv from_env generated =
    get_or generated (or_else (argument_after (codes "--run-id") argv) (non_empty from_env))

abbrev pub read_string_flag : (flag fallback : Str) → (argv : List Str) → Str
read_string_flag flag fallback argv = get_or fallback (argument_after flag argv)

-- `Number(text)`, or none when that is not finite
abbrev pub finite_or : (fallback : ℕ) → (to_number : Str → Option ℕ) → Option Str → ℕ
finite_or fallback to_number none = fallback
finite_or fallback to_number (some s) = get_or fallback (to_number s)

abbrev pub read_number_flag :
    (to_number : Str → Option ℕ) → (flag : Str) → (fallback : ℕ) → (argv : List Str) → ℕ
read_number_flag to_number flag fallback argv =
    finite_or fallback to_number (argument_after flag argv)

pub data Network : Type 0 where
  hardhat amoy : Network

-- nothing for an unsupported network, which is an error
unfoldable pub resolve_network : (arg from_env : Option Str) → Option Network
resolve_network arg from_env =
    let v = to_lower_case (get_or (codes "hardhat") (or_else arg from_env)) in
    if str_eq v (codes "hardhat")
    then some hardhat
    else if str_eq v (codes "amoy")
    then some amoy
    else none
