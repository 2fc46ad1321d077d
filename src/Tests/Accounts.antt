-- ===== src/Tests/Accounts.antt =====
-- Logins of one account, the bundles of its key, and hexadecimal text.
use qr_blockchain_anticounte.Prelude.{
  ◌+◌, ◌++◌, ◌≡◌, refl, ℕ, Str, codes, some, [], ◌∷◌, arith, true, false, str_eq, find,
  to_lower_case, lower,
}
use qr_blockchain_anticounte.Fixtures.{calm, settings, start, farmer, copies}
use qr_blockchain_anticounte.Errors.{domain, account_locked}
use qr_blockchain_anticounte.World.{Outside, World, Result, ok, err, ticked, db_write}
use qr_blockchain_anticounte.Producers.{by_email, by_id}
use qr_blockchain_anticounte.Producers.Accounts.{Account}
use qr_blockchain_anticounte.Producers.{
  find_by_email, create_producer, producer_is_valid, is_unique,
}
use qr_blockchain_anticounte.Config.{trim, trim_start, is_address}
use qr_blockchain_anticounte.Auth.{
  AuthEnvelope, login, register, lockout_duration_ms, bcrypt_rounds, bcrypt_hash_call,
  build_envelope, sign_access, sign_refresh,
}
use qr_blockchain_anticounte.Auth.Registration.{login-register}
use qr_blockchain_anticounte.Wallet.{generate_and_encrypt, assert_kek_ready}
use qr_blockchain_anticounte.Tests.Scans.{running}
use qr_blockchain_anticounte.Auth.Lockout.{login-locked_after_five, login_each}
use qr_blockchain_anticounte.Wallet.{EncryptedKey, encrypt_bytes, decrypt_to_bytes}
use qr_blockchain_anticounte.Wallet.Laws.{IsAesGcm, decrypt_to_bytes-encrypt_bytes}
use qr_blockchain_anticounte.Hex.{hex_to_bytes, bytes_to_hex, is_phi}
use qr_blockchain_anticounte.Hex.RoundTrip.{hex_to_bytes-bytes_to_hex, is_phi-bytes_to_hex, IsBytes}

searching : Unit {0}
unfolding by_email by_id find str_eq to_lower_case lower
searching = tt

abbrev address : Str
address = codes "Farmer@example.org"

found : Account (to_lower_case address) start.producers farmer
unfolding searching
found = record { named = refl; stored = refl }

wrong : calm.bcrypt_compare (codes "wrong") farmer.password_hash ≡ false
unfolding searching
wrong = refl

login-locked_after_five_example :
    (login calm settings address (codes "right") (
      login_each calm settings address
        (codes "wrong" ∷ codes "wrong" ∷ codes "wrong" ∷ codes "wrong" ∷ codes "wrong" ∷ [])
        start)).0
    ≡ err (domain (account_locked (1_700_000_000_010 + lockout_duration_ms)))
login-locked_after_five_example =
    login-locked_after_five calm settings (λ _. refl) address (codes "wrong") (codes "wrong")
      (codes "wrong") (codes "wrong") (codes "wrong") (codes "right") start farmer found refl refl
      wrong wrong wrong wrong wrong (omega arith)

abbrev barred : World
barred = record start { producers = record farmer { locked_until = some 1_800_000_000_000 } ∷ [] }

-- an outside where addresses have their forty digits
abbrev addressed : Outside
addressed = record calm { address_text = λ _. codes "0x" ++ copies 40 b'a' }

abbrev owner_address : Str
owner_address = codes "Owner@example.org"

abbrev joined : Result AuthEnvelope × World
joined = register addressed settings owner_address (codes "secret-password") start

abbrev welcome : AuthEnvelope
welcome = record {
  access_token = codes "token";
  refresh_token = codes "token";
  producer = record {
    id = codes "0123456789abcdef01234567";
    email = codes "owner@example.org";
    wallet_address = codes "0x" ++ copies 40 b'a';
    created_at = 1_700_000_000_004;
    updated_at = 1_700_000_000_004;
  };
}

joined_run : joined ≡ (ok welcome, joined.1)
unfolding running searching register find_by_email bcrypt_hash_call generate_and_encrypt
    encrypt_bytes assert_kek_ready create_producer producer_is_valid is_address is_unique db_write
    build_envelope sign_access sign_refresh trim trim_start
joined_run = refl

trimmed_address : trim (to_lower_case owner_address) ≡ to_lower_case owner_address
unfolding searching trim trim_start
trimmed_address = refl

bcrypt_accepts :
    (t : ℕ)
    → addressed.bcrypt_compare
        (codes "secret-password")
        (addressed.bcrypt_hash t (codes "secret-password") bcrypt_rounds)
      ≡ true
unfolding str_eq
bcrypt_accepts t = refl

login-register_example :
    (e : AuthEnvelope) × ((login addressed settings owner_address
        (codes "secret-password")
        joined.1).0
      ≡ ok e)
    × (e.producer ≡ welcome.producer)
login-register_example =
    login-register addressed settings (λ _. refl) owner_address (codes "secret-password") start
      joined.1 welcome bcrypt_accepts trimmed_address joined_run

calm-IsAesGcm : IsAesGcm calm
calm-IsAesGcm = record {
  base64 = λ _. refl;
  decrypt = λ _ _ _. refl;
  tagged = λ _ _ _. omega arith;
}

decrypt_to_bytes-encrypt_bytes_example :
    (enc : EncryptedKey) × (encrypt_bytes calm (1 ∷ 2 ∷ []) start ≡ (ok enc, ticked start))
    × (decrypt_to_bytes calm enc barred ≡ (ok (1 ∷ 2 ∷ []), barred))
decrypt_to_bytes-encrypt_bytes_example =
    decrypt_to_bytes-encrypt_bytes calm calm-IsAesGcm (1 ∷ 2 ∷ []) start barred (λ e. cc) refl

pair-IsBytes : IsBytes (200 ∷ 7 ∷ [])
pair-IsBytes = (omega arith, (omega arith, tt))

hex_to_bytes-bytes_to_hex_example : hex_to_bytes (bytes_to_hex (200 ∷ 7 ∷ [])) ≡ 200 ∷ 7 ∷ []
hex_to_bytes-bytes_to_hex_example = hex_to_bytes-bytes_to_hex (200 ∷ 7 ∷ []) pair-IsBytes

zeros : (n : ℕ) → IsBytes (copies n 0)
zeros ℕ.zero = tt
zeros (ℕ.suc n) = (omega arith, zeros n)

is_phi-bytes_to_hex_example : is_phi (bytes_to_hex (copies 32 0)) ≡ true
is_phi-bytes_to_hex_example = is_phi-bytes_to_hex (copies 32 0) (zeros 32) refl
