-- ===== src/Hex/RoundTrip.antt =====
-- Bytes written in hexadecimal are read back.
use qr_blockchain_anticounte.Prelude.{
  ℕ, ◌*◌, ◌/◌, ◌%◌, ◌<◌, ◌≡◌, refl, true, List, [], ◌∷◌, arith, some, All, every, length,
}
use qr_blockchain_anticounte.Hex.{
  digit_value, parse_pair, pairs_to_bytes, hex_to_bytes, digit, hex_of_bytes, bytes_to_hex,
  is_hex_digit, is_phi, is_secret_id,
}

digit_value-digit : (d : ℕ) → d < 16 → digit_value (digit d) ≡ some d
unfolding digit_value digit
digit_value-digit d h = ground arith

is_hex_digit-digit : (d : ℕ) → d < 16 → is_hex_digit (digit d) ≡ true
unfolding is_hex_digit digit
is_hex_digit-digit d h = ground arith

parse_pair-digit : (b : ℕ) → b < 256 → parse_pair (digit (b / 16)) (digit (b % 16)) ≡ b
unfolding parse_pair
parse_pair-digit b h =
    rw (digit_value-digit (b / 16) (omega arith), digit_value-digit (b % 16) (omega arith))
      (omega arith)

abbrev pub IsBytes : List ℕ → Type 0
IsBytes = All (λ b. b < 256)

pub pairs_to_bytes-hex_of_bytes : (bs : List ℕ) → IsBytes bs → pairs_to_bytes (hex_of_bytes bs) ≡ bs
unfolding pairs_to_bytes hex_of_bytes
pairs_to_bytes-hex_of_bytes [] h = refl
pairs_to_bytes-hex_of_bytes (b ∷ bs) (h, hs) =
    cc (parse_pair-digit b h, pairs_to_bytes-hex_of_bytes bs hs)

-- What `bytesToHex` writes of any bytes, `hexToBytes` reads back as the same bytes.
pub hex_to_bytes-bytes_to_hex : (bs : List ℕ) → IsBytes bs → hex_to_bytes (bytes_to_hex bs) ≡ bs
unfolding hex_to_bytes bytes_to_hex
hex_to_bytes-bytes_to_hex bs h = pairs_to_bytes-hex_of_bytes bs h

pub length-hex_of_bytes : (bs : List ℕ) → length (hex_of_bytes bs) ≡ 2 * length bs
unfolding hex_of_bytes
length-hex_of_bytes [] = refl
length-hex_of_bytes (b ∷ bs) = omega (arith, length-hex_of_bytes bs)

pub every-hex_of_bytes : (bs : List ℕ) → IsBytes bs → every is_hex_digit (hex_of_bytes bs) ≡ true
unfolding every hex_of_bytes
every-hex_of_bytes [] h = refl
every-hex_of_bytes (b ∷ bs) (h, hs) = rw (
  is_hex_digit-digit (b / 16) (omega arith),
  is_hex_digit-digit (b % 16) (omega arith),
  every-hex_of_bytes bs hs,
)

-- 32 bytes in hexadecimal match the pattern that is demanded of a project identifier.
pub is_phi-bytes_to_hex :
    (bs : List ℕ) → IsBytes bs → length bs ≡ 32 → is_phi (bytes_to_hex bs) ≡ true
unfolding is_phi bytes_to_hex
is_phi-bytes_to_hex bs h n = ground (arith, length-hex_of_bytes bs, every-hex_of_bytes bs h)

pub is_secret_id-bytes_to_hex :
    (b : ℕ) (bs : List ℕ) → IsBytes (b ∷ bs) → is_secret_id (bytes_to_hex (b ∷ bs)) ≡ true
unfolding is_secret_id bytes_to_hex
is_secret_id-bytes_to_hex b bs h =
    ground (arith, length-hex_of_bytes (b ∷ bs), every-hex_of_bytes (b ∷ bs) h)
