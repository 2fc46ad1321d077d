-- ===== src/Portal/Scanner/Once.antt =====
-- A scan page sends one request at most, however often it renders
-- (apps/dapp-portal/src/lib/use-private-scan.ts), and does not hold back a scan that the hub accepts.
use qr_blockchain_anticounte.Prelude.{◌≡◌, Bool, true, false, arith}
use qr_blockchain_anticounte.Hex.{is_secret_id}
use qr_blockchain_anticounte.Requests.{scan_private_is_accepted}
use qr_blockchain_anticounte.Scan.{ScanPrivateDto}
use qr_blockchain_anticounte.Portal.Scanner.{Hook, is_idle, valid_inputs, is_hex_text}

-- The flag tells whether the request was sent, and only a valid page sends one.
pub record IsOnce (valid : Bool) (h : Hook) : Type 0 where
  pub before : h.triggered ≡ false → h.requests ≡ 0
  pub after : h.triggered ≡ true → h.requests ≡ 1
  pub started : is_idle h.mutation ≡ false → h.triggered ≡ true
  pub allowed : h.triggered ≡ true → valid ≡ true

-- The page sends whatever the hub's schema of a private scan accepts.
pub scan_private_is_accepted-valid_inputs :
    (input : ScanPrivateDto) → scan_private_is_accepted input ≡ true → valid_inputs input ≡ true
unfolding valid_inputs is_hex_text is_secret_id
scan_private_is_accepted-valid_inputs input h = ground (arith, h)
