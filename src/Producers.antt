-- ===== src/Producers.antt =====
-- apps/coordination-hub/src/producers/producers.service.ts: the collection of producers.
pub mod Accounts
pub mod Growth
use qr_blockchain_anticounte.Prelude.{
  ℕ, ◌+◌, Str, str_eq, to_lower_case, Option, none, some, List, [], ◌∷◌, ◌++◌, Bool, true, false,
  find, if◌then◌else◌, codes, every, not, ◌&&◌, ltb, length,
}
use qr_blockchain_anticounte.Config.{trim, is_address}
use qr_blockchain_anticounte.Errors.{http, js, plain_error}
use qr_blockchain_anticounte.Documents.{ProducerDoc}
use qr_blockchain_anticounte.World.{
  Outside, World, M, ok, err, pure, throw, modify, gets, throw_unless, on_db, db_read, db_write,
  ticked, ◌>>=◌, ◌>>◌,
}

abbrev pub or_http : {A : Type 0} → Option A → (status : ℕ) → M A
or_http none status = throw (http status)
or_http (some a) status = pure a

-- `findByIdAndUpdate`: the document with the id is changed in place.
unfoldable pub update_by_id :
    (id : Str) → (ProducerDoc → ProducerDoc) → List ProducerDoc → List ProducerDoc
update_by_id id f [] = []
update_by_id id f (d ∷ ds) = if str_eq d.id id then f d ∷ ds else d ∷ update_by_id id f ds

unfoldable pub by_id : (id : Str) → List ProducerDoc → Option ProducerDoc
unfolding find
by_id id ds = find (λ d. str_eq d.id id) ds

unfoldable pub by_email : (email : Str) → List ProducerDoc → Option ProducerDoc
unfolding find
by_email email ds = find (λ d. str_eq d.email email) ds

abbrev pub append_producer : ProducerDoc → World → World
append_producer d w = record w { producers = w.producers ++ d ∷ [] }

abbrev pub change_producer : (id : Str) → (ProducerDoc → ProducerDoc) → World → World
change_producer id f w = record w { producers = update_by_id id f w.producers }

abbrev pub failed_once : (now : ℕ) → ProducerDoc → ProducerDoc
failed_once now d = record d {
  failed_login_attempts = d.failed_login_attempts + 1;
  last_failed_login_at = some now;
  updated_at = now;
}

abbrev pub locked_at : (until now : ℕ) → ProducerDoc → ProducerDoc
locked_at until now d = record d { locked_until = some until; updated_at = now }

abbrev pub unlocked : (now : ℕ) → ProducerDoc → ProducerDoc
unlocked now d = record d {
  failed_login_attempts = 0;
  last_failed_login_at = none;
  locked_until = none;
  updated_at = now;
}

-- The validators of the Producer schema: a required text is not empty, and the address matches.
unfoldable pub producer_is_valid : ProducerDoc → Bool
unfolding is_address
producer_is_valid d =
    ltb 0 (length d.email)
    && ltb 0 (length d.password_hash)
    && is_address d.wallet_address
    && ltb 0 (length d.encrypted_private_key)
    && ltb 0 (length d.encryption_iv)
    && ltb 0 (length d.encryption_auth_tag)

module _ (x : Outside) where
  unfoldable pub find_by_id : (id : Str) → M ProducerDoc
  find_by_id id = do
    throw_unless (x.is_object_id id) (http 404)
    doc ← db_read x (λ w. by_id id w.producers)
    or_http doc 404

  unfoldable pub find_by_email : (email : Str) → M (Option ProducerDoc)
  find_by_email email = db_read x (λ w. by_email (to_lower_case email) w.producers)

  -- the unique indexes on the e-mail address and the wallet address
  unfoldable pub is_unique : ProducerDoc → List ProducerDoc → Bool
  unfolding every
  is_unique d ds =
      every (λ e. not (str_eq e.email d.email)) ds
      && every (λ e. not (str_eq e.wallet_address d.wallet_address)) ds

  unfoldable pub create_producer :
      (email password_hash wallet_address encrypted_private_key encryption_iv
        encryption_auth_tag : Str)
      → M ProducerDoc
  create_producer email password_hash wallet_address encrypted_private_key iv tag w =
      let doc : ProducerDoc = record {
        id = x.new_id w.tick;
        email = trim (to_lower_case email);
        password_hash = password_hash;
        wallet_address = wallet_address;
        encrypted_private_key = encrypted_private_key;
        encryption_iv = iv;
        encryption_auth_tag = tag;
        failed_login_attempts = 0;
        last_failed_login_at = none;
        locked_until = none;
        created_at = x.clock w.tick;
        updated_at = x.clock w.tick;
      } in
      (do
        throw_unless (producer_is_valid doc) (js (plain_error (codes "Producer validation failed")))
        unique ← gets (λ v. is_unique doc v.producers)
        throw_unless unique (js (plain_error (codes "E11000 duplicate key error")))
        db_write x (append_producer doc)
        pure doc)
        w

  -- Increment and stamp in one update, and return the new document, if there is one.
  unfoldable pub record_failed_login : (id : Str) → M (Option ProducerDoc)
  record_failed_login id v =
      on_db x
        (λ w.
          let w' = change_producer id (failed_once (x.clock v.tick)) w in
          (by_id id w'.producers, w'))
        v

  unfoldable pub set_locked_until : (id : Str) → (until : ℕ) → M (Unit {0})
  set_locked_until id until v = db_write x (change_producer id (locked_at until (x.clock v.tick))) v

  unfoldable pub reset_lockout : (id : Str) → M (Unit {0})
  reset_lockout id v = db_write x (change_producer id (unlocked (x.clock v.tick))) v
