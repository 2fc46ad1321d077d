-- ===== src/Logs/Entries.antt =====
-- Entries of the verification log that the schema accepts, and what writing one on a calm network does.
use qr_blockchain_anticounte.Prelude.{
  ℕ, Str, ◌≡◌, refl, arith, Option, none, some, List, [], ◌∷◌, ◌++◌, Bool, true, false, ltb, ◌==◌,
  if◌then◌else◌, length, take, filter_by, All, Bool-cases, inl, inr, ◌≤◌, suc, zero, get_or, codes,
}
use qr_blockchain_anticounte.World.{
  Outside, World, VerificationLog, OutcomeStatus, ticked, db_write,
}
use qr_blockchain_anticounte.World.Runs.{Runs}
use qr_blockchain_anticounte.Hex.{is_phi}
use qr_blockchain_anticounte.Logs.{
  log_is_valid, optional_phi, optional_short, latest, truthy, sliced, log_entry, create_log,
  record_log, append_log,
}

abbrev pub Accepted : VerificationLog → Type 0
Accepted e = log_is_valid e ≡ true

abbrev pub optional_tx : Option VerificationLog → Option Str
optional_tx none = none
optional_tx (some e) = e.tx_hash

abbrev AcceptedOption : Option VerificationLog → Type 0
AcceptedOption none = Unit
AcceptedOption (some e) = Accepted e

later-Accepted :
    (b e : VerificationLog) → Accepted b → Accepted e → (c : Bool) → Accepted (if c then e else b)
later-Accepted b e hb he true = he
later-Accepted b e hb he false = hb

latest-Accepted :
    (o : Option VerificationLog) (es : List VerificationLog)
    → AcceptedOption o
    → All Accepted es
    → AcceptedOption (latest o es)
unfolding latest
latest-Accepted o [] h k = h
latest-Accepted none (e ∷ es) h k = latest-Accepted (some e) es k.0 k.1
latest-Accepted (some b) (e ∷ es) h k =
    latest-Accepted (some (if ltb b.scanned_at e.scanned_at then e else b)) es
      (later-Accepted b e h k.0 (ltb b.scanned_at e.scanned_at)) k.1

filter_by-Accepted :
    (p : VerificationLog → Bool) (es : List VerificationLog)
    → All Accepted es
    → All Accepted (filter_by p es)
unfolding filter_by
filter_by-Accepted p [] k = tt
filter_by-Accepted p (e ∷ es) k = elim (Bool-cases (p e)) [
  | inl h ↦ rw h (k.0, filter_by-Accepted p es k.1)
  | inr h ↦ rw h (filter_by-Accepted p es k.1)
]

truthy-optional_phi : (t : Option Str) → optional_phi t ≡ true → optional_phi (truthy t) ≡ true
truthy-optional_phi none h = refl
truthy-optional_phi (some []) h = refl
truthy-optional_phi (some (c ∷ s)) h = h

optional_tx-phi :
    (o : Option VerificationLog) → AcceptedOption o → optional_phi (optional_tx o) ≡ true
unfolding log_is_valid
optional_tx-phi none h = refl
optional_tx-phi (some e) h = ground (arith, h)

-- The transaction of the entry that a lookup finds passes the schema's pattern again.
pub previous_tx-phi :
    (p : VerificationLog → Bool) (es : List VerificationLog)
    → All Accepted es
    → optional_phi (optional_tx (latest none (filter_by p es))) ≡ true
previous_tx-phi p es k =
    optional_tx-phi (latest none (filter_by p es))
      (latest-Accepted none (filter_by p es) tt (filter_by-Accepted p es k))

length-take : {A : Type 0} (n : ℕ) (xs : List A) → length (take n xs) ≤ n
length-take zero xs = omega arith
length-take (suc n) [] = omega arith
length-take (suc n) (a ∷ xs) = omega (arith, length-take n xs)

short_agent : (u : Option Str) → optional_short (truthy (sliced (truthy u))) ≡ true
short_agent none = refl
short_agent (some []) = refl
short_agent (some (c ∷ s)) = ground (arith, length-take 99 s)

-- One more entry, of this product and outcome; the registry is left alone.
pub record Adds (phi h : Str) (o : OutcomeStatus) (w v : World) : Type 0 where
  pub entry : VerificationLog
  pub logged : v.logs ≡ w.logs ++ entry ∷ []
  pub of_project : entry.phi ≡ phi
  pub of_product : entry.h ≡ h
  pub with_outcome : entry.outcome ≡ o
  pub untouched : v.registry ≡ w.registry

module _ (x : Outside) (stores : (t : ℕ) → x.db t ≡ none)
    (salted : (t : Str) → (length (x.sha256_hex t) == 0) ≡ false) where
  pub record_log-Adds :
      (phi h : Str) (o : OutcomeStatus) (tx ip : Option Str) (salt : Str) (agent : Option Str)
      (w : World)
      → is_phi phi ≡ true
      → is_phi h ≡ true
      → optional_phi (truthy tx) ≡ true
      → Runs (record_log x phi h o tx ip salt agent) w (λ _. Adds phi h o w)
  unfolding record_log create_log db_write log_is_valid
  record_log-Adds phi h o tx ip salt agent w hp hh ht =
      let e = log_entry x phi h o tx ip salt agent (x.clock w.tick) in
      record {
        value = tt;
        end = append_log e (ticked w);
        ran = ground (
          arith,
          hp,
          hh,
          ht,
          salted (get_or [] ip ++ (codes ":" ++ salt)),
          short_agent agent,
          stores w.tick,
        );
        holds = record {
          entry = e;
          logged = refl;
          of_project = refl;
          of_product = refl;
          with_outcome = refl;
          untouched = refl;
        };
      }
