-- ===== src/Auth.antt =====
-- apps/coordination-hub/src/auth/auth.service.ts: registration, login with a lockout, and the
-- renewal of an access token.
pub mod Lockout
pub mod Registration
use qr_blockchain_anticounte.Prelude.{
  ℕ, ◌+◌, ◌*◌, Str, codes, Option, none, some, Bool, true, false, not, ltb, leb, get_or, is_some,
  if◌then◌else◌,
}
use qr_blockchain_anticounte.Errors.{
  Err, domain, email_exists, invalid_credentials, account_locked, invalid_refresh_token,
}
use qr_blockchain_anticounte.Documents.{ProducerDoc}
use qr_blockchain_anticounte.World.{
  Outside, Env, JwtPayload, M, ok, err, pure, throw, gets, throw_unless, ticked, ◌>>=◌, ◌>>◌,
}
use qr_blockchain_anticounte.Wallet.{EncryptedKey, generate_and_encrypt}
use qr_blockchain_anticounte.Producers.{
  find_by_email, create_producer, record_failed_login, set_locked_until, reset_lockout,
}

abbrev pub bcrypt_rounds : ℕ
bcrypt_rounds = 12

abbrev pub max_failed_attempts : ℕ
max_failed_attempts = 5

abbrev pub lockout_duration_ms : ℕ
lockout_duration_ms = 15 * 60 * 1000

-- apps/coordination-hub/src/producers/producer.schema.ts
pub record ProducerProfile : Type 0 where
  pub id : Str
  pub email : Str
  pub wallet_address : Str
  pub created_at : ℕ
  pub updated_at : ℕ

abbrev pub to_producer_profile : ProducerDoc → ProducerProfile
to_producer_profile d = record {
  id = d.id;
  email = d.email;
  wallet_address = d.wallet_address;
  created_at = d.created_at;
  updated_at = d.updated_at;
}

pub record AuthEnvelope : Type 0 where
  pub access_token : Str
  pub refresh_token : Str
  pub producer : ProducerProfile

abbrev pub payload_of : ProducerDoc → JwtPayload
payload_of d = record { producer_id = d.id; email = d.email; wallet_address = d.wallet_address }

-- `doc.lockedUntil && doc.lockedUntil > new Date()`
abbrev pub is_locked : Option ℕ → (now : ℕ) → Bool
is_locked none now = false
is_locked (some until) now = ltb now until

module _ (x : Outside) (env : Env) where
  unfoldable pub sign_access : (now : ℕ) → JwtPayload → Str
  sign_access now payload =
      x.jwt_sign now payload
        (get_or (codes "INSECURE_TEST_SECRET_DO_NOT_USE_IN_PROD_LONGER_THAN_32") env.jwt_secret)
        env.jwt_expires_in

  abbrev pub refresh_key : Str
  refresh_key =
      get_or (codes "INSECURE_TEST_REFRESH_SECRET_DO_NOT_USE_IN_PROD_LONGER_THAN_32")
        env.refresh_secret

  unfoldable pub sign_refresh : (now : ℕ) → JwtPayload → Str
  sign_refresh now payload = x.jwt_sign now payload refresh_key env.refresh_expires_in

  unfoldable pub build_envelope : ProducerDoc → M AuthEnvelope
  build_envelope doc = do
    now ← gets (λ w. x.clock w.tick)
    pure (record {
      access_token = sign_access now (payload_of doc);
      refresh_token = sign_refresh now (payload_of doc);
      producer = to_producer_profile doc;
    })

  unfoldable pub bcrypt_hash_call : (password : Str) → M Str
  bcrypt_hash_call password w = (ok (x.bcrypt_hash w.tick password bcrypt_rounds), ticked w)

  unfoldable pub register : (email password : Str) → M AuthEnvelope
  register email password = do
    existing ← find_by_email x email
    throw_unless (not (is_some existing)) (domain (email_exists email))
    password_hash ← bcrypt_hash_call password
    (address, encrypted) ← generate_and_encrypt x
    doc ←
        create_producer x email password_hash (x.address_text address) encrypted.ciphertext
          encrypted.iv encrypted.auth_tag
    build_envelope doc

  -- The end of a failed attempt: the fifth locks the account.
  unfoldable pub refuse : Option ProducerDoc → M AuthEnvelope
  refuse none = throw (domain invalid_credentials)
  refuse (some updated) =
      if leb max_failed_attempts updated.failed_login_attempts
      then (do
        locked_until ← gets (λ w. x.clock w.tick + lockout_duration_ms)
        set_locked_until x updated.id locked_until
        throw (domain (account_locked locked_until)))
      else throw (domain invalid_credentials)

  -- The part of `login` after the lookup, at the time of the lock's test.
  unfoldable pub login_as : ProducerDoc → (password : Str) → (now : ℕ) → M AuthEnvelope
  login_as doc password now =
      if is_locked doc.locked_until now
      then throw (domain (account_locked (get_or 0 doc.locked_until)))
      else if not (x.bcrypt_compare password doc.password_hash)
      then (do updated ← record_failed_login x doc.id; refuse updated)
      else (do reset_lockout x doc.id; build_envelope doc)

  unfoldable pub login : (email password : Str) → M AuthEnvelope
  login email password = do
    found ← find_by_email x email
    elim found [
      | none ↦ throw (domain invalid_credentials)
      | some doc ↦ do now ← gets (λ w. x.clock w.tick); login_as doc password now
    ]

  -- `verifyAsync`, whose every error becomes InvalidRefreshTokenException; the claims iat and exp are
  -- dropped before the payload is signed again.
  unfoldable pub refresh : (refresh_token : Str) → M Str
  refresh refresh_token w =
      let now = x.clock w.tick in
      elim (x.jwt_verify now refresh_token refresh_key) [
        | none ↦ (err (domain invalid_refresh_token), w)
        | some verified ↦ (
          ok (
              sign_access now (record {
                producer_id = verified.producer_id;
                email = verified.email;
                wallet_address = verified.wallet_address;
              })),
          w,
        )
      ]
