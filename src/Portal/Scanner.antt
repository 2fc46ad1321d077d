-- ===== src/Portal/Scanner.antt =====
-- The consumer portal's scan, apps/dapp-portal/src/lib/use-private-scan.ts: the hook's state, from
-- render to render. TanStack's mutation is idle until it is called, pending until the request settles,
-- and then holds the outcome or the error; `mutate` on the same hook is the only call.
pub mod Once
use qr_blockchain_anticounte.Prelude.{
  ℕ, ◌+◌, ◌≡◌, Str, codes, Bool, true, false, not, ◌&&◌, leb, length, every, drop, starts_with,
  if◌then◌else◌,
}
use qr_blockchain_anticounte.Hex.{is_phi, is_hex_digit}
use qr_blockchain_anticounte.Scan.{VerificationOutcome, ScanPrivateDto}

pub data Mutation : Type 0 where
  idle pending : Mutation
  succeeded : VerificationOutcome → Mutation
  errored : (message : Str) → Mutation

pub data PrivateScanState : Type 0 where
  idle_stage verifying : PrivateScanState
  done : VerificationOutcome → PrivateScanState
  failed : (message : Str) → PrivateScanState

-- The hook: the mutation, the flag of `triggeredRef`, and the number of requests that were sent.
pub record Hook : Type 0 where
  pub mutation : Mutation
  pub triggered : Bool
  pub requests : ℕ

abbrev pub mounted : Hook
mounted = record { mutation = idle; triggered = false; requests = 0 }

-- `/^0x[0-9a-fA-F]+$/`
unfoldable pub is_hex_text : Str → Bool
is_hex_text s = starts_with s (codes "0x") && leb 3 (length s) && every is_hex_digit (drop 2 s)

unfoldable pub valid_inputs : ScanPrivateDto → Bool
valid_inputs input = is_phi input.project_id && is_hex_text input.secret_id

abbrev pub is_idle : Mutation → Bool
is_idle idle = true
is_idle _ = false

-- `mutate()`
abbrev pub mutate : Hook → Hook
mutate h = record { mutation = pending; triggered = true; requests = h.requests + 1 }

-- The effect, after a render; React may run it again at any time.
unfoldable pub effect : (valid : Bool) → Hook → Hook
effect valid h = if valid && is_idle h.mutation && not h.triggered then mutate h else h

unfoldable pub settle : Mutation → Hook → Hook
settle m h = record h { mutation = m }

-- what the hook returns
unfoldable pub shown : (valid : Bool) → Mutation → PrivateScanState
shown false m = failed (codes "Invalid scan parameters")
shown true idle = idle_stage
shown true pending = verifying
shown true (succeeded outcome) = done outcome
shown true (errored message) = failed message

-- The hub's answers to the requests, as they arrive; a mutation settles while it is pending, and its
-- user may put it back.
pub data Step (valid : Bool) : Hook → Hook → Type 0 where
  rendered : (h : Hook) → Step valid h (effect valid h)
  answered :
      (h : Hook) (outcome : VerificationOutcome) (p : h.mutation ≡ pending)
      → Step valid h (settle (succeeded outcome) h)
  refused :
      (h : Hook) (message : Str) (p : h.mutation ≡ pending)
      → Step valid h (settle (errored message) h)
  reset : (h : Hook) → Step valid h (settle idle h)

-- What can happen from a hook on.
pub data Reach (valid : Bool) : Hook → Hook → Type 0 where
  stay : (h : Hook) → Reach valid h h
  then_step : {h k l : Hook} → Reach valid h k → Step valid k l → Reach valid h l
