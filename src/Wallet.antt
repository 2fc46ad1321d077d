-- ===== src/Wallet.antt =====
-- apps/coordination-hub/src/blockchain/wallet.service.ts: producer keys, encrypted under the key
-- encryption key. That a decrypted buffer is overwritten afterwards is not modelled.
pub mod Laws
use qr_blockchain_anticounte.Prelude.{
  ℕ, ◌-◌, Str, codes, Bool, not, true, false, Option, none, some, List, [], ◌∷◌, ◌++◌, length, take,
  drop, ◌==◌, is_some,
}
use qr_blockchain_anticounte.Errors.{js, plain_error}
use qr_blockchain_anticounte.World.{
  Outside, Env, World, M, Result, ok, err, pure, throw, modify, gets, throw_unless, ◌>>=◌, ◌>>◌,
  ticked,
}
use qr_blockchain_anticounte.Hex.{hex_to_bytes, bytes_to_hex}

pub record EncryptedKey : Type 0 where
  pub ciphertext : Str
  pub iv : Str
  pub auth_tag : Str

-- `if (value)` of an optional string: an empty one is false
abbrev pub is_set : Option Str → Bool
is_set none = false
is_set (some s) = not (length s == 0)

-- a value that must be there
abbrev pub or_throw : {A : Type 0} → Option A → Str → M A
or_throw none message = throw (js (plain_error message))
or_throw (some a) message = pure a

module _ (x : Outside) where
  -- random bytes
  abbrev pub random_bytes : ℕ → M (List ℕ)
  random_bytes n w = (ok (x.random w.tick n), ticked w)

  -- `onModuleInit`
  abbrev load_kek : Option Str → M (Unit {0})
  load_kek none = modify (λ w. record w { kek = [] })
  load_kek (some []) = modify (λ w. record w { kek = [] })
  load_kek (some (c ∷ text)) = do
    modify (λ w. record w { kek = x.from_base64 (c ∷ text) })
    throw_unless (length (x.from_base64 (c ∷ text)) == 32)
        (js (plain_error (codes "WALLET_ENCRYPTION_KEK must decode to 32 bytes")))

  unfoldable pub wallet_on_module_init : Env → M (Unit {0})
  wallet_on_module_init env = load_kek env.wallet_encryption_kek

  unfoldable pub set_kek_for_testing : Env → List ℕ → M (Unit {0})
  set_kek_for_testing env kek = do
    throw_unless (not env.is_production)
        (js (plain_error (codes "setKekForTesting is forbidden in production")))
    throw_unless (length kek == 32) (js (plain_error (codes "KEK must be 32 bytes")))
    modify (λ w. record w { kek = kek })

  unfoldable pub assert_kek_ready : M (Unit {0})
  assert_kek_ready w =
      throw_unless (not (length w.kek == 0))
        (js (plain_error (codes "WalletService KEK is not configured."))) w

  -- noble appends the 16 bytes of the tag, which are cut off here
  abbrev pub split_tag : List ℕ → (iv : List ℕ) → EncryptedKey
  split_tag with_tag iv =
      let tag_offset = length with_tag - 16 in
      record {
        ciphertext = x.to_base64 (take tag_offset with_tag);
        iv = x.to_base64 iv;
        auth_tag = x.to_base64 (drop tag_offset with_tag);
      }

  unfoldable pub encrypt_bytes : List ℕ → M EncryptedKey
  encrypt_bytes plaintext = do
    assert_kek_ready
    iv ← random_bytes 12
    kek ← gets (λ w. w.kek)
    pure (split_tag (x.gcm_encrypt kek iv plaintext) iv)

  unfoldable pub generate_and_encrypt : M (ℕ × EncryptedKey)
  generate_and_encrypt = do
    assert_kek_ready
    private_key ← λ w. (ok (x.new_private_key w.tick), ticked w)
    address ← or_throw (x.wallet_address private_key) (codes "invalid private key")
    encrypted ← encrypt_bytes (hex_to_bytes private_key)
    pure (address, encrypted)

  unfoldable pub decrypt_to_bytes : EncryptedKey → M (List ℕ)
  decrypt_to_bytes enc = do
    assert_kek_ready
    kek ← gets (λ w. w.kek)
    or_throw
        (x.gcm_decrypt kek (x.from_base64 enc.iv)
          (x.from_base64 enc.ciphertext ++ x.from_base64 enc.auth_tag))
        (codes "invalid ghash tag")

  -- `fn` runs with the wallet's address; the wallet does not outlive the call.
  unfoldable pub with_wallet : {A : Type 0} → EncryptedKey → (ℕ → M A) → M A
  with_wallet enc fn = do
    pk_bytes ← decrypt_to_bytes enc
    address ← or_throw (x.wallet_address (bytes_to_hex pk_bytes)) (codes "invalid private key")
    fn address
