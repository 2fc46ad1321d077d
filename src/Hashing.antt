-- ===== src/Hashing.antt =====
-- packages/shared/src/hashing.ts: secrets of products, and their hashes. That the runtime lacks a
-- random generator (NoCsprngError) is not modelled.
pub mod Secrets
use qr_blockchain_anticounte.Prelude.{
  ℕ, Str, codes, ◌++◌, Bool, not, ltb, leb, ◌==◌, ◌%◌, length, every, strip_0x, List,
}
use qr_blockchain_anticounte.Errors.{js, plain_error}
use qr_blockchain_anticounte.World.{
  Outside, M, ok, err, pure, throw, throw_unless, ticked, ◌>>=◌, ◌>>◌,
}
use qr_blockchain_anticounte.Hex.{is_hex_digit, hex_to_bytes, bytes_to_hex}

abbrev pub min_sid_bytes : ℕ
min_sid_bytes = 16

module _ (x : Outside) where
  -- `sidStringToBytes`
  unfoldable pub sid_string_to_bytes : Str → M (List ℕ)
  sid_string_to_bytes sid = do
    throw_unless (every is_hex_digit (strip_0x sid))
        (js (plain_error (codes "expected 0x-prefixed hex string")))
    throw_unless (length (strip_0x sid) % 2 == 0)
        (js (plain_error (codes "expected 0x-prefixed hex string")))
    pure (x.noble_hex_to_bytes (strip_0x sid))

  abbrev pub draw_sid : (byte_length : ℕ) → M Str
  draw_sid n w = (ok (codes "0x" ++ x.noble_bytes_to_hex (x.random w.tick n)), ticked w)

  unfoldable pub generate_sid : (byte_length : ℕ) → M Str
  generate_sid byte_length = do
    throw_unless (leb min_sid_bytes byte_length)
        (js (plain_error (codes "generateSid requires byteLength >= 16")))
    draw_sid byte_length

  -- `hashSid` of a text
  unfoldable pub hash_sid_text : Str → M Str
  hash_sid_text sid = do
    bytes ← sid_string_to_bytes sid
    pure (codes "0x" ++ x.digest_hex (x.sha256 bytes))
