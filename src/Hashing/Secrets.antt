-- ===== src/Hashing/Secrets.antt =====
-- The secrets that packages/shared/src/hashing.ts draws are ones that a scan accepts, and the hash
-- that is registered for one is the hash that a scan computes from it.
use qr_blockchain_anticounte.Prelude.{
  ℕ, ◌≤◌, ◌≡◌, Str, List, [], ◌∷◌, length, strip_0x, true, arith,
}
use qr_blockchain_anticounte.World.{Outside, Env, World, ok, ticked}
use qr_blockchain_anticounte.Hex.{hex_to_bytes, bytes_to_hex, hex_of_bytes, is_secret_id}
use qr_blockchain_anticounte.Hex.RoundTrip.{
  IsBytes, hex_to_bytes-bytes_to_hex, is_secret_id-bytes_to_hex, every-hex_of_bytes,
  length-hex_of_bytes,
}
use qr_blockchain_anticounte.Hashing.{
  generate_sid, hash_sid_text, sid_string_to_bytes, min_sid_bytes,
}
use qr_blockchain_anticounte.Scan.{hash_sid}

-- What noble documents of its two functions: two lower-case digits for each byte, and their reading.
pub record IsNoble (x : Outside) : Type 0 where
  pub written : (bs : List ℕ) → IsBytes bs → x.noble_bytes_to_hex bs ≡ hex_of_bytes bs
  pub read_back : (bs : List ℕ) → IsBytes bs → x.noble_hex_to_bytes (hex_of_bytes bs) ≡ bs

module _ (x : Outside) (env : Env) (noble : IsNoble x) where
  drawn :
      (n : ℕ) (w : World)
      → IsBytes (x.random w.tick n)
      → min_sid_bytes ≤ n
      → generate_sid x n w ≡ (ok (bytes_to_hex (x.random w.tick n)), ticked w)
  unfolding generate_sid bytes_to_hex
  drawn n w bytes enough = ground (arith, enough, noble.written (x.random w.tick n) bytes)

  hashed :
      (bs : List ℕ) (w : World)
      → IsBytes bs
      → hash_sid_text x (bytes_to_hex bs) w
        ≡ (ok (hash_sid x env (hex_to_bytes (bytes_to_hex bs))), w)
  unfolding hash_sid_text sid_string_to_bytes bytes_to_hex strip_0x hash_sid
  hashed bs w h = ground (
    arith,
    every-hex_of_bytes bs h,
    length-hex_of_bytes bs,
    noble.read_back bs h,
    hex_to_bytes-bytes_to_hex bs h,
  )

  some_bytes : (bs : List ℕ) → IsBytes bs → 1 ≤ length bs → is_secret_id (bytes_to_hex bs) ≡ true
  some_bytes [] h n = absurd (omega (arith, n))
  some_bytes (b ∷ bs) h n = is_secret_id-bytes_to_hex b bs h

  -- When the random generator gives bytes, as many as asked for, and that is at least sixteen, and noble
  -- writes bytes as two digits each and reads back what it wrote, a secret is drawn; the scan route's
  -- validation accepts it; and its text, read by noble, hashes to the very hash that the private scan
  -- computes from the bytes that its own `hexToBytes` reads.
  pub hash_sid_text-generate_sid :
      (n : ℕ) (w : World)
      → IsBytes (x.random w.tick n)
      → length (x.random w.tick n) ≡ n
      → min_sid_bytes ≤ n
      → (sid : Str) × (generate_sid x n w ≡ (ok sid, ticked w))
        × (is_secret_id sid ≡ true)
        × (hash_sid_text x sid (ticked w) ≡ (ok (hash_sid x env (hex_to_bytes sid)), ticked w))
  hash_sid_text-generate_sid n w bytes size enough =
      let bs = x.random w.tick n in
      (
        bytes_to_hex bs,
        drawn n w bytes enough,
        some_bytes bs bytes (omega (arith, size, enough)),
        hashed bs (ticked w) bytes,
      )
