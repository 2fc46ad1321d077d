-- ===== src/Auth/Lockout.antt =====
-- The lockout of apps/coordination-hub/src/auth/auth.service.ts: five wrong passwords in a row lock
-- an account for fifteen minutes.
use qr_blockchain_anticounte.Prelude.{
  ℕ, ◌+◌, ◌≤◌, ◌<◌, Str, to_lower_case, ◌≡◌, refl, sym, ◌∙◌, ap, none, some, false, List, [], ◌∷◌,
  arith, subst,
}
use qr_blockchain_anticounte.Errors.{domain, account_locked, invalid_credentials}
use qr_blockchain_anticounte.Documents.{ProducerDoc}
use qr_blockchain_anticounte.World.{Outside, Env, World, err, ticked, db_read, db_write}
use qr_blockchain_anticounte.Producers.{
  by_email, update_by_id, find_by_email, record_failed_login, set_locked_until, failed_once,
  locked_at, change_producer,
}
use qr_blockchain_anticounte.Producers.Accounts.{Account, update-Account, Keeps}
use qr_blockchain_anticounte.Auth.{
  login, login_as, refuse, lockout_duration_ms, max_failed_attempts,
}

module _ (x : Outside) (env : Env) where
  abbrev AccountIn : (email : Str) → World → ProducerDoc → Type 0
  AccountIn email w doc = Account (to_lower_case email) w.producers doc

  -- When the database answers the lookup, and while an account is locked, a login is refused whatever the password, and only the clock of calls
  -- moves: no attempt is counted.
  pub login-locked :
      (email password : Str) (w : World) (doc : ProducerDoc) (until : ℕ)
      → x.db w.tick ≡ none
      → by_email (to_lower_case email) w.producers ≡ some doc
      → doc.locked_until ≡ some until
      → x.clock (w.tick + 1) < until
      → login x env email password w ≡ (err (domain (account_locked until)), ticked w)
  unfolding login login_as find_by_email db_read
  login-locked email password w doc until up found locked early =
      ground (arith, up, found, locked, early)

  failed_once-Keeps : (now : ℕ) → Keeps (failed_once now)
  failed_once-Keeps now = record { id = λ d. refl; email = λ d. refl }

  locked_at-Keeps : (until now : ℕ) → Keeps (locked_at until now)
  locked_at-Keeps until now = record { id = λ d. refl; email = λ d. refl }

  -- The world after the attempts of a list, whatever each of them answers.
  unfoldable pub login_each : (email : Str) → List Str → World → World
  login_each email [] w = w
  login_each email (p ∷ ps) w = login_each email ps (login x env email p w).1

  -- An account with a password's hash that has seen n failures and is not locked, at a tick.
  record Counted (email : Str) (n : ℕ) (hashed : Str) (at : ℕ) (w : World) : Type 0 where
    doc : ProducerDoc
    account : AccountIn email w doc
    count : doc.failed_login_attempts ≡ n
    hash : doc.password_hash ≡ hashed
    free : doc.locked_until ≡ none
    time : w.tick ≡ at

  module _ (quiet : (t : ℕ) → x.db t ≡ none) where
    wrong_result :
        (email password : Str) (w : World) (doc : ProducerDoc)
        → AccountIn email w doc
        → doc.locked_until ≡ none
        → x.bcrypt_compare password doc.password_hash ≡ false
        → doc.failed_login_attempts + 1 < max_failed_attempts
        → login x env email password w ≡ (
          err (domain invalid_credentials),
          change_producer doc.id (failed_once (x.clock (w.tick + 1))) (ticked (ticked w)),
        )
    unfolding login login_as find_by_email record_failed_login refuse db_read
    wrong_result email password w doc a free wrong few =
        let updated =
          update-Account (failed_once (x.clock (w.tick + 1))) (failed_once-Keeps _)
            (to_lower_case email) w.producers doc a in
        ground (
          arith,
          quiet w.tick,
          quiet (w.tick + 1),
          a.named,
          a.stored,
          free,
          wrong,
          few,
          updated.stored,
        )

    next-Counted :
        (email password hashed : Str) (n at n' at' : ℕ) (w : World)
        → n + 1 ≡ n'
        → at + 2 ≡ at'
        → Counted email n hashed at w
        → x.bcrypt_compare password hashed ≡ false
        → n' < max_failed_attempts
        → Counted email n' hashed at' (login x env email password w).1
    next-Counted email password hashed n at n' at' w en et c wrong few =
        let f = failed_once (x.clock (w.tick + 1)) in
        let result =
          wrong_result email password w c.doc c.account c.free (ground (arith, c.hash, wrong))
            (ground (arith, c.count, few, en)) in
        subst (λ z. Counted email n' hashed at' z) (sym (ap (λ z. z.1) result))
          (record {
            doc = f c.doc;
            account =
                update-Account f (failed_once-Keeps _) (to_lower_case email) w.producers c.doc
                  c.account;
            count = ground (arith, c.count, en);
            hash = c.hash;
            free = c.free;
            time = ground (arith, c.time, et);
          })

    -- what the attempt that reaches the limit leaves
    abbrev locked_doc : (until : ℕ) → World → ProducerDoc → ProducerDoc
    locked_doc until w doc =
        locked_at until (x.clock (w.tick + 2)) (failed_once (x.clock (w.tick + 1)) doc)

    limit_result :
        (email password : Str) (w : World) (doc : ProducerDoc)
        → AccountIn email w doc
        → doc.locked_until ≡ none
        → x.bcrypt_compare password doc.password_hash ≡ false
        → max_failed_attempts ≤ doc.failed_login_attempts + 1
        → let until = x.clock (w.tick + 2) + lockout_duration_ms in
          login x env email password w ≡ (
            err (domain (account_locked until)),
            change_producer doc.id (locked_at until (x.clock (w.tick + 2))) (
                ticked (
                  change_producer doc.id (failed_once (x.clock (w.tick + 1))) (ticked (ticked w)))),
          )
    unfolding login login_as find_by_email record_failed_login refuse set_locked_until db_read
        db_write
    limit_result email password w doc a free wrong many =
        let updated =
          update-Account (failed_once (x.clock (w.tick + 1))) (failed_once-Keeps _)
            (to_lower_case email) w.producers doc a in
        ground (
          arith,
          quiet w.tick,
          quiet (w.tick + 1),
          quiet (w.tick + 2),
          a.named,
          a.stored,
          free,
          wrong,
          many,
          updated.stored,
        )

    -- what the attempt that reaches the limit leaves: the account is locked
    locked_after :
        (email password hashed : Str) (n at moment next : ℕ) (w : World)
        → at + 2 ≡ moment
        → at + 3 ≡ next
        → Counted email n hashed at w
        → x.bcrypt_compare password hashed ≡ false
        → max_failed_attempts ≤ n + 1
        → let w' = (login x env email password w).1 in
          (doc : ProducerDoc) × ((by_email (to_lower_case email) w'.producers ≡ some doc)
            × ((doc.locked_until ≡ some (x.clock moment + lockout_duration_ms)) × (w'.tick ≡ next)))
    locked_after email password hashed n at moment next w em en c wrong many =
        let until = x.clock (w.tick + 2) + lockout_duration_ms in
        let f = failed_once (x.clock (w.tick + 1)) in
        let g = locked_at until (x.clock (w.tick + 2)) in
        let result =
          limit_result email password w c.doc c.account c.free (ground (arith, c.hash, wrong))
            (ground (arith, c.count, many)) in
        let once =
          update-Account f (failed_once-Keeps _) (to_lower_case email) w.producers c.doc
            c.account in
        let twice =
          update-Account g (locked_at-Keeps _ _) (to_lower_case email)
            (update_by_id c.doc.id f w.producers) (f c.doc) once in
        subst
          (λ z.
            (doc : ProducerDoc) × ((by_email (to_lower_case email) z.producers ≡ some doc)
              × ((doc.locked_until ≡ some (x.clock moment + lockout_duration_ms))
                  × (z.tick ≡ next))))
          (sym (ap (λ z. z.1) result))
          (
            g (f c.doc),
            (
              twice.named,
              (
                ap (λ t. some (x.clock t + lockout_duration_ms)) (ap (λ t. t + 2) c.time ∙ em),
                ground (arith, c.time, en),
              ),
            ),
          )

    -- Five wrong passwords in a row, however much time passes between them, lock an account that had no
    -- failed attempt and no lock, when the database answers: until fifteen minutes after the fifth, a login with any password, the right
    -- one included, is refused with the time of the unlocking.
    pub login-locked_after_five :
        (email : Str) (p q r s last password : Str) (w : World) (doc : ProducerDoc)
        → AccountIn email w doc
        → doc.failed_login_attempts ≡ 0
        → doc.locked_until ≡ none
        → x.bcrypt_compare p doc.password_hash ≡ false
        → x.bcrypt_compare q doc.password_hash ≡ false
        → x.bcrypt_compare r doc.password_hash ≡ false
        → x.bcrypt_compare s doc.password_hash ≡ false
        → x.bcrypt_compare last doc.password_hash ≡ false
        → x.clock (w.tick + 12) < x.clock (w.tick + 10) + lockout_duration_ms
        → (login x env email password (login_each email (p ∷ q ∷ r ∷ s ∷ last ∷ []) w)).0
          ≡ err (domain (account_locked (x.clock (w.tick + 10) + lockout_duration_ms)))
    unfolding login_each
    login-locked_after_five email p q r s last password w doc a fresh free wp wq wr ws wt early =
        let hashed = doc.password_hash in
        let c0 : Counted email 0 hashed w.tick w = record {
          doc = doc;
          account = a;
          count = fresh;
          hash = refl;
          free = free;
          time = refl;
        } in
        let t = w.tick in
        let c1 = next-Counted email p hashed 0 t 1 (t + 2) w refl refl c0 wp (ground arith) in
        let c2 =
          next-Counted email q hashed 1 (t + 2) 2 (t + 4) _ refl (ground arith) c1 wq
            (ground arith) in
        let c3 =
          next-Counted email r hashed 2 (t + 4) 3 (t + 6) _ refl (ground arith) c2 wr
            (ground arith) in
        let c4 =
          next-Counted email s hashed 3 (t + 6) 4 (t + 8) _ refl (ground arith) c3 ws
            (ground arith) in
        let end =
          locked_after email last hashed 4 (t + 8) (t + 10) (t + 11) _ (ground arith) (ground arith)
            c4 wt (ground arith) in
        ap (λ z. z.0)
          (login-locked email password _ end.0 _ (quiet _) end.1.0 end.1.1.0 (
            ground (
              arith,
              ap (λ k. x.clock (k + 1)) end.1.1.1,
              ap x.clock {x = t + 11 + 1} {y = t + 12} (ground arith),
              early,
            )))
