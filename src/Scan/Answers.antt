-- ===== src/Scan/Answers.antt =====
-- The answers of the private scan (apps/coordination-hub/src/scan/scan.service.ts) on a calm network,
-- against the paper's algorithm on the registry's abstract view.
use qr_blockchain_anticounte.Prelude.{
  ℕ, Str, ◌≡◌, ◌∙◌, refl, ap, sym, subst, filter_by, ◌*◌, arith, Option, none, some, List, [], ◌∷◌,
  ◌++◌, true, false, length, ◌==◌, All,
}
use qr_blockchain_anticounte.Registry.{Storage}
use qr_blockchain_anticounte.Registry.Status.{Status, unknown, fresh, used, status}
use qr_blockchain_anticounte.World.{
  Outside, Env, World, VerificationLog, OutcomeStatus, authentic, already_verified, counterfeit,
  ◌>>◌, pure,
}
use qr_blockchain_anticounte.World.Runs.{Runs, bind-Runs, catching-Runs, pure-Runs, db_read-Runs}
use qr_blockchain_anticounte.Hex.{is_phi, hex_to_bytes}
use qr_blockchain_anticounte.Wallet.{is_set}
use qr_blockchain_anticounte.Logs.{
  truthy, find_previous_authentic, optional_phi, latest, is_authentic_of,
}
use qr_blockchain_anticounte.Logs.Entries.{
  Accepted, Adds, record_log-Adds, previous_tx-phi, optional_tx,
}
use qr_blockchain_anticounte.Contract.{RedeemResult}
use qr_blockchain_anticounte.Contract.Runs.{IsCalm, At, verify_product_call-Runs}
use qr_blockchain_anticounte.Contract.Redeeming.{Used, HasHash}
use qr_blockchain_anticounte.Scan.{
  ScanContext, ScanPrivateDto, VerificationOutcome, authentic_outcome, already_verified_outcome,
  counterfeit_outcome, hash_sid, record_outcome, report_redeemed, report_counterfeit,
  report_success, previous_tx, previous_at, zero_address,
}

-- What the algorithm answers, and the status that it leaves.
abbrev pub judged : Status → OutcomeStatus × Status
judged unknown = (counterfeit, unknown)
judged fresh = (authentic, used)
judged used = (already_verified, used)

abbrev pub verdict : VerificationOutcome → OutcomeStatus
verdict (authentic_outcome _ _ _) = authentic
verdict (already_verified_outcome _ _) = already_verified
verdict (counterfeit_outcome _) = counterfeit

-- The identifier and the secret's hash are texts that the coder and the schema take, and the salt is
-- never empty.
pub record IsReadable (x : Outside) (env : Env) (input : ScanPrivateDto) (p : ℕ) : Type 0 where
  pub coded : x.bytes32 input.project_id ≡ some p
  pub shaped : is_phi input.project_id ≡ true
  pub hash_coded :
      x.bytes32 (hash_sid x env (hex_to_bytes input.secret_id))
      ≡ some (x.sha256 (hex_to_bytes input.secret_id))
  pub hash_shaped : is_phi (hash_sid x env (hex_to_bytes input.secret_id)) ≡ true
  pub salted : (t : Str) → (length (x.sha256_hex t) == 0) ≡ false
  pub paid : is_set env.system_wallet_private_key ≡ true

-- The answer and the state that follow from the status before.
pub record Follows (p h : ℕ) (phi h_text : Str) (before : Status) (l : List VerificationLog)
    (o : VerificationOutcome) (v : World) : Type 0 where
  pub answered : verdict o ≡ (judged before).0
  pub next : status p h v.registry ≡ (judged before).1
  pub entry : VerificationLog
  pub logged : v.logs ≡ l ++ entry ∷ []
  pub of_project : entry.phi ≡ phi
  pub of_product : entry.h ≡ h_text
  pub as_answered : entry.outcome ≡ (judged before).0

module _ (p h : ℕ) (s : Storage) where
  pub status-unknown : (s.products p h).exists ≡ false → status p h s ≡ unknown
  status-unknown a = ground (arith, a)

  pub status-used :
      (s.products p h).exists ≡ true → (s.products p h).redeemed ≡ true → status p h s ≡ used
  status-used a b = ground (arith, a, b)

  pub status-fresh :
      (s.products p h).exists ≡ true → (s.products p h).redeemed ≡ false → status p h s ≡ fresh
  status-fresh a b = ground (arith, a, b)

kept : (t : Option Str) → optional_phi t ≡ true → optional_phi (truthy t) ≡ true
kept none k = refl
kept (some []) k = refl
kept (some (c ∷ t)) k = k

-- the transaction of an earlier entry passes the schema
abbrev Found : Option VerificationLog → Type 0
Found o = optional_phi (truthy (truthy (previous_tx o))) ≡ true

found-Found : (o : Option VerificationLog) → optional_phi (optional_tx o) ≡ true → Found o
found-Found none k = refl
found-Found (some e) k = kept (truthy e.tx_hash) (kept e.tx_hash k)

found :
    (phi h : Str) (es : List VerificationLog)
    → All Accepted es
    → Found (latest none (filter_by (is_authentic_of phi h) es))
found phi h es k =
    found-Found (latest none (filter_by (is_authentic_of phi h) es))
      (previous_tx-phi (is_authentic_of phi h) es k)

module _ (x : Outside) (env : Env) (fallback : Str) (calm : IsCalm x) (input : ScanPrivateDto)
    (p : ℕ) (readable : IsReadable x env input p) (ctx : ScanContext) where
  abbrev sid : List ℕ
  sid = hex_to_bytes input.secret_id

  abbrev phi : Str
  phi = input.project_id

  abbrev h : Str
  h = hash_sid x env sid

  abbrev word : ℕ
  word = x.sha256 sid

  abbrev Ends : Status → List VerificationLog → VerificationOutcome → World → Type 0
  Ends = Follows p word phi h

  record_outcome-Adds :
      (o : OutcomeStatus) (tx : Option Str) (w : World)
      → optional_phi (truthy (truthy tx)) ≡ true
      → Runs (record_outcome x env fallback phi h o tx ctx) w (λ _. Adds phi h o w)
  unfolding record_outcome
  record_outcome-Adds o tx w k =
      let r =
        record_log-Adds x calm.stores readable.salted phi h o (truthy tx) ctx.ip _ ctx.user_agent w
          readable.shaped readable.hash_shaped k in
      record { value = r.value; end = r.end; ran = r.ran; holds = r.holds }

  -- After the entry the answer is returned.
  answer :
      (b : Status) (l : List VerificationLog) (o : VerificationOutcome) (tx : Option Str)
      (w : World)
      → verdict o ≡ (judged b).0
      → status p word w.registry ≡ (judged b).1
      → w.logs ≡ l
      → optional_phi (truthy (truthy tx)) ≡ true
      → Runs (do record_outcome x env fallback phi h (judged b).0 tx ctx; pure o) w (Ends b l)
  answer b l o tx w hv hs hl ht =
      bind-Runs (λ _. Adds phi h (judged b).0 w) _ _ _ w (record_outcome-Adds (judged b).0 tx w ht)
        λ _ v a. pure-Runs (Ends b l) o v (record {
          answered = hv;
          next = ap (status p word) a.untouched ∙ hs;
          entry = a.entry;
          logged = a.logged ∙ ap (λ z. z ++ a.entry ∷ []) hl;
          of_project = a.of_project;
          of_product = a.of_product;
          as_answered = a.with_outcome;
        })

  module _ (s : Storage) (l : List VerificationLog) where
    pub counterfeit-Ends :
        (message : Str) (w : World)
        → At s l w
        → status p word s ≡ unknown
        → Runs (report_counterfeit x env fallback message phi h ctx) w (Ends unknown l)
    unfolding report_counterfeit
    counterfeit-Ends message w q e =
        answer unknown l (counterfeit_outcome message) none w refl (ap (status p word) q.stored ∙ e)
          q.logged refl

    abbrev reported : Option VerificationLog → VerificationOutcome
    reported previous =
        already_verified_outcome (truthy (previous_tx previous)) (previous_at previous)

    pub redeemed-Ends :
        (w : World)
        → At s l w
        → All Accepted l
        → status p word s ≡ used
        → Runs (report_redeemed x env fallback phi h ctx) w (Ends used l)
    unfolding report_redeemed find_previous_authentic
    redeemed-Ends w q k e =
        bind-Runs (λ a v. Found a × At s l v) _ _ _ w
          (db_read-Runs _ x _ w (calm.stores w.tick) (
            found phi h w.logs (subst (λ z. All Accepted z) (sym q.logged) k),
            record { stored = q.stored; logged = q.logged; ready = q.ready },
          ))
          λ a v r.
            answer used l (reported a) (previous_tx a) v refl (ap (status p word) r.1.stored ∙ e)
              r.1.logged r.0

    pub success-Ends :
        (r : RedeemResult) (w : World)
        → HasHash r
        → Used p word l w
        → Runs (report_success x env fallback phi h ctx r) w (Ends fresh l)
    unfolding report_success
    success-Ends r w k q =
        bind-Runs (λ _ v. At w.registry l v) _ _ _ w
          (catching-Runs _ _ (λ _. pure zero_address) w
            (bind-Runs (λ _ v. At w.registry l v) _ _ (λ a. pure a.producer) w
              (verify_product_call-Runs x env calm w.registry l phi h p word readable.coded
                readable.hash_coded w
                (record { stored = refl; logged = q.logged; ready = q.ready }))
              (λ a v k'. pure-Runs _ a.producer v k')))
          λ producer v k'.
            answer fresh l
              (authentic_outcome r.tx_hash
                (record { phi = phi; h = h; producer = producer; timestamp = r.timestamp })
                (r.timestamp * 1000))
              (some r.tx_hash) v refl (ap (status p word) k'.stored ∙ q.used_up) k'.logged
              (kept (truthy (some r.tx_hash)) (kept (some r.tx_hash) k))
