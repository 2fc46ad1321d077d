-- ===== src/Wallet/Laws.antt =====
-- Encrypting a private key and decrypting it again, on the documented laws of base64 and AES-GCM.
use qr_blockchain_anticounte.Prelude.{
  ℕ, zero, suc, ◌-◌, ◌≤◌, ◌≡◌, ◌≢◌, refl, ap, arith, List, [], ◌∷◌, ◌++◌, some, length, take, drop,
}
use qr_blockchain_anticounte.World.{Outside, World, ok, ticked}
use qr_blockchain_anticounte.Wallet.{
  EncryptedKey, encrypt_bytes, decrypt_to_bytes, assert_kek_ready, split_tag,
}

-- base64 is read back; decryption inverts encryption under the same key and IV; the tag is there.
pub record IsAesGcm (x : Outside) : Type 0 where
  pub base64 : (bs : List ℕ) → x.from_base64 (x.to_base64 bs) ≡ bs
  pub decrypt :
      (key iv plaintext : List ℕ)
      → x.gcm_decrypt key iv (x.gcm_encrypt key iv plaintext) ≡ some plaintext
  pub tagged : (key iv plaintext : List ℕ) → 16 ≤ length (x.gcm_encrypt key iv plaintext)

pub take-append-drop {ℓ} : {A : Type ℓ} (n : ℕ) (xs : List A) → take n xs ++ drop n xs ≡ xs
take-append-drop zero xs = refl
take-append-drop (suc n) [] = refl
take-append-drop (suc n) (a ∷ xs) = ap (λ ys. a ∷ ys) (take-append-drop n xs)

assert_kek_ready_of : (x : Outside) (w : World) → w.kek ≢ [] → assert_kek_ready x w ≡ (ok tt, w)
unfolding assert_kek_ready
assert_kek_ready_of x w ready = ground arith

module _ (x : Outside) (laws : IsAesGcm x) where
  -- If base64 is read back and AES-GCM decrypts what it encrypted, with a tag of 16 bytes at least,
  -- then with a key encryption key in place, encryption succeeds, and the bundle that it returns decrypts
  -- to the same bytes at any later moment at which the key encryption key is the same.
  pub decrypt_to_bytes-encrypt_bytes :
      (plaintext : List ℕ) (w later : World)
      → w.kek ≢ []
      → later.kek ≡ w.kek
      → (enc : EncryptedKey) × (encrypt_bytes x plaintext w ≡ (ok enc, ticked w))
        × (decrypt_to_bytes x enc later ≡ (ok plaintext, later))
  unfolding encrypt_bytes decrypt_to_bytes
  decrypt_to_bytes-encrypt_bytes plaintext w later ready same =
      let iv = x.random w.tick 12 in
      let sealed = x.gcm_encrypt w.kek iv plaintext in
      (
        split_tag x sealed iv,
        ground (arith, assert_kek_ready_of x w ready),
        ground (
          arith,
          assert_kek_ready_of x later (rw same ready),
          laws.base64 iv,
          laws.base64 (take (length sealed - 16) sealed),
          laws.base64 (drop (length sealed - 16) sealed),
          take-append-drop (length sealed - 16) sealed,
          laws.decrypt w.kek iv plaintext,
        ),
      )
