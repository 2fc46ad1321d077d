-- ===== src/Auth/Registration.antt =====
-- What a registration of apps/coordination-hub/src/auth/auth.service.ts leaves, and the login after it.
use qr_blockchain_anticounte.Prelude.{
  ℕ, ◌+◌, ◌==◌, Str, str_eq, str_eq_refl, to_lower_case, ◌≡◌, refl, sym, ◌∙◌, ap, inl, inr, none,
  some, true, false, List, [], ◌∷◌, ◌++◌, Bool-cases, Option-cases, length, find, arith,
}
use qr_blockchain_anticounte.Documents.{ProducerDoc}
use qr_blockchain_anticounte.World.{Outside, Env, World, Result, ok, ticked, db_read, db_write}
use qr_blockchain_anticounte.Config.{trim}
use qr_blockchain_anticounte.Hex.{hex_to_bytes}
use qr_blockchain_anticounte.Wallet.{
  EncryptedKey, split_tag, generate_and_encrypt, encrypt_bytes, assert_kek_ready,
}
use qr_blockchain_anticounte.Producers.{
  by_email, find_by_email, create_producer, producer_is_valid, is_unique, reset_lockout,
  append_producer,
}
use qr_blockchain_anticounte.Auth.{
  AuthEnvelope, payload_of, sign_access, sign_refresh, to_producer_profile, register, login,
  login_as, build_envelope, bcrypt_hash_call, bcrypt_rounds,
}

by_email-append :
    (email : Str) (ds : List ProducerDoc) (d : ProducerDoc)
    → by_email email ds ≡ none
    → d.email ≡ email
    → by_email email (ds ++ d ∷ []) ≡ some d
unfolding by_email find
by_email-append email [] d e same = ground (arith, same, str_eq_refl email)
by_email-append email (c ∷ ds) d e same = elim (Bool-cases (str_eq c.email email)) [
  | inl t ↦ absurd (ground (arith, t, e))
  | inr t ↦ ground (arith, t, e, by_email-append email ds d, same)
]

module _ (x : Outside) (env : Env) (quiet : (t : ℕ) → x.db t ≡ none) where
  -- The account of a registration that returned.
  record Registered (email password : Str) (w w' : World) (e : AuthEnvelope) : Type 0 where
    doc : ProducerDoc
    is_new : by_email (to_lower_case email) w.producers ≡ none
    there : w'.producers ≡ w.producers ++ doc ∷ []
    mail : doc.email ≡ trim (to_lower_case email)
    hash : doc.password_hash ≡ x.bcrypt_hash (w.tick + 1) password bcrypt_rounds
    free : doc.locked_until ≡ none
    shown : e.producer ≡ to_producer_profile doc

  -- the document that `create` stores
  abbrev stored :
      (email password_hash wallet_address encrypted_private_key encryption_iv
        encryption_auth_tag : Str)
      → World
      → ProducerDoc
  stored email password_hash wallet_address encrypted_private_key iv tag v = record {
    id = x.new_id v.tick;
    email = trim (to_lower_case email);
    password_hash = password_hash;
    wallet_address = wallet_address;
    encrypted_private_key = encrypted_private_key;
    encryption_iv = iv;
    encryption_auth_tag = tag;
    failed_login_attempts = 0;
    last_failed_login_at = none;
    locked_until = none;
    created_at = x.clock v.tick;
    updated_at = x.clock v.tick;
  }

  created :
      (email hashed wallet key iv tag : Str) (v : World)
      → producer_is_valid (stored email hashed wallet key iv tag v) ≡ true
      → is_unique x (stored email hashed wallet key iv tag v) v.producers ≡ true
      → create_producer x email hashed wallet key iv tag v ≡ (
        ok (stored email hashed wallet key iv tag v),
        append_producer (stored email hashed wallet key iv tag v) (ticked v),
      )
  unfolding create_producer db_write
  created email hashed wallet key iv tag v valid unique =
      ground (arith, valid, unique, quiet v.tick)

  -- the key of the wallet that is made at a state, as it is stored
  abbrev encrypted_at : World → EncryptedKey
  encrypted_at v =
      let iv = x.random (v.tick + 1) 12 in
      split_tag x (x.gcm_encrypt v.kek iv (hex_to_bytes (x.new_private_key v.tick))) iv

  generated :
      (address : ℕ) (v : World)
      → (length v.kek == 0) ≡ false
      → x.wallet_address (x.new_private_key v.tick) ≡ some address
      → generate_and_encrypt x v ≡ (ok (address, encrypted_at v), ticked (ticked v))
  unfolding generate_and_encrypt encrypt_bytes assert_kek_ready
  generated address v key good = ground (arith, key, good)

  -- the document of a registration, for the address of its wallet
  abbrev document : (email password : Str) → (address : ℕ) → World → ProducerDoc
  document email password address w =
      let v = ticked (ticked w) in
      let enc = encrypted_at v in
      stored email (x.bcrypt_hash (w.tick + 1) password bcrypt_rounds) (x.address_text address)
        enc.ciphertext enc.iv enc.auth_tag (ticked (ticked v))

  abbrev envelope : (now : ℕ) → ProducerDoc → AuthEnvelope
  envelope now doc = record {
    access_token = sign_access x env now (payload_of doc);
    refresh_token = sign_refresh x env now (payload_of doc);
    producer = to_producer_profile doc;
  }

  registered :
      (email password : Str) (address : ℕ) (w : World)
      → by_email (to_lower_case email) w.producers ≡ none
      → (length w.kek == 0) ≡ false
      → x.wallet_address (x.new_private_key (w.tick + 1 + 1)) ≡ some address
      → producer_is_valid (document email password address w) ≡ true
      → is_unique x (document email password address w) w.producers ≡ true
      → let doc = document email password address w in
        register x env email password w ≡ (
          ok (envelope (x.clock (w.tick + 1 + 1 + 1 + 1 + 1)) doc),
          append_producer doc (ticked (ticked (ticked (ticked (ticked w))))),
        )
  unfolding register find_by_email db_read bcrypt_hash_call build_envelope
  registered email password address w fresh key good valid unique =
      let v = ticked (ticked w) in
      let enc = encrypted_at v in
      ground (
        arith,
        quiet w.tick,
        fresh,
        generated address v key good,
        created email (x.bcrypt_hash (w.tick + 1) password bcrypt_rounds) (x.address_text address)
            enc.ciphertext enc.iv enc.auth_tag (ticked (ticked v)) valid unique,
      )

  profile_of_pair :
      (e e0 : AuthEnvelope) (w w0 : World)
      → ◌≡◌ {A = Result AuthEnvelope × World} (ok e, w) (ok e0, w0)
      → e.producer ≡ e0.producer
  profile_of_pair e e0 w w0 h = ground (arith, h)

  register-Registered :
      (email password : Str) (w w' : World) (e : AuthEnvelope)
      → register x env email password w ≡ (ok e, w')
      → Registered email password w w' e
  unfolding register find_by_email db_read bcrypt_hash_call generate_and_encrypt encrypt_bytes
      assert_kek_ready create_producer db_write build_envelope
  register-Registered email password w w' e h =
      elim (Option-cases (by_email (to_lower_case email) w.producers)) [
        | inr (d, there) ↦ absurd (ground (arith, quiet w.tick, there, h))
        | inl fresh ↦ elim (Bool-cases (length w.kek == 0)) [
          | inl no_key ↦ absurd (ground (arith, quiet w.tick, fresh, no_key, h))
          | inr key ↦ elim (Option-cases (x.wallet_address (x.new_private_key (w.tick + 1 + 1)))) [
            | inl bad ↦ absurd (ground (arith, quiet w.tick, fresh, key, bad, h))
            | inr (address, good) ↦
                let doc = document email password address w in
                elim (Bool-cases (producer_is_valid doc)) [
                  | inr invalid ↦
                      absurd (ground (arith, quiet w.tick, fresh, key, good, invalid, h))
                  | inl valid ↦ elim (Bool-cases (is_unique x doc w.producers)) [
                    | inr twice ↦
                        absurd (ground (arith, quiet w.tick, fresh, key, good, valid, twice, h))
                    | inl unique ↦
                        let ran = registered email password address w fresh key good valid unique in
                        record {
                          doc = doc;
                          is_new = fresh;
                          there = ap (λ z. z.1.producers) (sym h ∙ ran);
                          mail = refl;
                          hash = refl;
                          free = refl;
                          shown = profile_of_pair e _ w' _ (sym h ∙ ran);
                        }
                  ]
                ]
          ]
        ]
      ]

  welcomed :
      (email password : Str) (w : World) (doc : ProducerDoc)
      → by_email (to_lower_case email) w.producers ≡ some doc
      → doc.locked_until ≡ none
      → x.bcrypt_compare password doc.password_hash ≡ true
      → (e : AuthEnvelope) × ((login x env email password w).0 ≡ ok e)
        × (e.producer ≡ to_producer_profile doc)
  unfolding login login_as find_by_email db_read db_write reset_lockout build_envelope
  welcomed email password w doc found free right = (
    envelope (x.clock (w.tick + 1 + 1)) doc,
    ground (arith, quiet w.tick, quiet (w.tick + 1), found, free, right),
    refl,
  )

  -- When the database always answers, bcrypt accepts the password that it has hashed, and the address has
  -- no spaces around it, then a registration that returned is followed by a login that returns: with the
  -- same address and password, right after it, the login answers the profile that the registration did.
  pub login-register :
      (email password : Str) (w w' : World) (e : AuthEnvelope)
      → ((t : ℕ) → x.bcrypt_compare password (x.bcrypt_hash t password bcrypt_rounds) ≡ true)
      → trim (to_lower_case email) ≡ to_lower_case email
      → register x env email password w ≡ (ok e, w')
      → (e' : AuthEnvelope) × ((login x env email password w').0 ≡ ok e')
        × (e'.producer ≡ e.producer)
  login-register email password w w' e bcrypt trimmed h =
      let r = register-Registered email password w w' e h in
      let found : by_email (to_lower_case email) w'.producers ≡ some r.doc =
        ap (by_email (to_lower_case email)) r.there
        ∙ by_email-append (to_lower_case email) w.producers r.doc r.is_new (r.mail ∙ trimmed) in
      let right : x.bcrypt_compare password r.doc.password_hash ≡ true =
        ap (x.bcrypt_compare password) r.hash ∙ bcrypt (w.tick + 1) in
      let (e', ran, same) = welcomed email password w' r.doc found r.free right in
      (e', ran, ground (arith, same, r.shown))
