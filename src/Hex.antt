-- ===== src/Hex.antt =====
-- The hexadecimal helpers of the hub: `hexToBytes` of scan/scan.service.ts and
-- blockchain/wallet.service.ts, `bytesToHex` of the latter and `randomPhi` of
-- projects/projects.service.ts (all under apps/coordination-hub/src), and the regular expressions
-- over hexadecimal text.
pub mod RoundTrip
use qr_blockchain_anticounte.Prelude.{
  ℕ, zero, suc, ◌+◌, ◌-◌, ◌*◌, ◌/◌, ◌%◌, Bool, true, false, ◌&&◌, ◌||◌, ◌==◌, leb, List, [], ◌∷◌,
  ◌++◌, Str, codes, Option, none, some, if◌then◌else◌, strip_0x, starts_with, length, drop, every,
}

-- The value of a hexadecimal digit.
unfoldable pub digit_value : ℕ → Option ℕ
digit_value c =
    if leb b'0' c && leb c b'9'
    then some (c - b'0')
    else if leb b'a' c && leb c b'f'
    then some (c - b'a' + 10)
    else if leb b'A' c && leb c b'F'
    then some (c - b'A' + 10)
    else none

-- `parseInt(s, 16)` of two code units, stored in a byte: NaN becomes 0. Where a unit is no
-- hexadecimal digit (validation lets none through), only a trailing one is read as parseInt does;
-- signs and spaces in front are not modelled.
abbrev pub pair_value : Option ℕ → Option ℕ → ℕ
pair_value none _ = 0
pair_value (some a) none = a
pair_value (some a) (some b) = 16 * a + b

unfoldable pub parse_pair : ℕ → ℕ → ℕ
unfolding digit_value
parse_pair a b = pair_value (digit_value a) (digit_value b)

-- The loop over the pairs; a last single unit has no byte, since the length is halved.
unfoldable pub pairs_to_bytes : Str → List ℕ
unfolding parse_pair
pairs_to_bytes [] = []
pairs_to_bytes (a ∷ []) = []
pairs_to_bytes (a ∷ b ∷ s) = parse_pair a b ∷ pairs_to_bytes s

unfoldable pub hex_to_bytes : Str → List ℕ
unfolding pairs_to_bytes strip_0x
hex_to_bytes hex = pairs_to_bytes (strip_0x hex)

-- a digit of `toString(16)`
unfoldable pub digit : ℕ → ℕ
digit d = if leb d 9 then d + b'0' else d - 10 + b'a'

-- `b.toString(16).padStart(2, '0')`, for each byte
unfoldable pub hex_of_bytes : List ℕ → Str
unfolding digit
hex_of_bytes [] = []
hex_of_bytes (b ∷ bs) = digit (b / 16) ∷ digit (b % 16) ∷ hex_of_bytes bs

unfoldable pub bytes_to_hex : List ℕ → Str
unfolding hex_of_bytes
bytes_to_hex bs = codes "0x" ++ hex_of_bytes bs

-- `[0-9a-fA-F]`
unfoldable pub is_hex_digit : ℕ → Bool
is_hex_digit c =
    (leb b'0' c && leb c b'9') || (leb b'a' c && leb c b'f') || (leb b'A' c && leb c b'F')

-- `/^0x[0-9a-fA-F]{64}$/`, of PhiSchema and of the scan's projectId
unfoldable pub is_phi : Str → Bool
unfolding starts_with every is_hex_digit
is_phi s = starts_with s (codes "0x") && (length s == 66) && every is_hex_digit (drop 2 s)

-- The secretId of `ScanPrivateDtoSchema`: `/^0x[0-9a-fA-F]+$/`, and an even length of 4 at least.
unfoldable pub is_secret_id : Str → Bool
unfolding starts_with every is_hex_digit
is_secret_id s =
    starts_with s (codes "0x")
    && leb 3 (length s)
    && every is_hex_digit (drop 2 s)
    && (leb 4 (length s) && (length s % 2 == 0))
