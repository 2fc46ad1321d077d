-- ===== src/Config/Reading.antt =====
-- The fields of the settings as `EnvSchema` reads them (apps/coordination-hub/src/config/env.schema.ts).
use qr_blockchain_anticounte.Prelude.{
  ℕ, Str, codes, ◌≡◌, refl, subst, Option, Bool, leb, length, arith,
}
use qr_blockchain_anticounte.Config.{
  Source, Settings, Parsed, valid, issue, defaulted, optional, is_address, is_private_key,
  is_base64,
}
use qr_blockchain_anticounte.Config.{node_envs, development}
use qr_blockchain_anticounte.Config.Loading.{
  Checked, passed, failed, ◌<*>◌, make, parse_env, positive, hour,
}

peel :
    {A B : Type 0} (Q : B → Type 0) (c : Checked (A → B)) (p : Parsed A) (b : B)
    → c <*> p ≡ passed b
    → ((f : A → B) (a : A) → c ≡ passed f → p ≡ valid a → Q (f a))
    → Q b
peel Q (passed f) (valid a) b e k = subst Q (ground (arith, e)) (k f a refl refl)
peel Q (passed f) (issue path) b e k = absurd (cc e)
peel Q (failed es) (valid a) b e k = absurd (cc e)
peel Q (failed es) (issue path) b e k = absurd (cc e)

made : {A : Type 0} (Q : A → Type 0) (a b : A) → passed a ≡ passed b → Q a → Q b
made Q a b e q = subst Q (ground (arith, e)) q

module _ (number : Str → Option ℕ) (is_url : Str → Bool) where
  -- the fields as they are read, of those that a bound is stated of
  pub record IsRead (source : Source) (s : Settings) : Type 0 where
    pub port : defaulted source (codes "PORT") 3000 (positive number is_url) ≡ valid s.port
    pub jwt_secret :
        optional source (codes "JWT_SECRET") (λ s. leb 32 (length s)) ≡ valid s.jwt_secret
    pub refresh_secret :
        optional source (codes "REFRESH_SECRET") (λ s. leb 32 (length s)) ≡ valid s.refresh_secret
    pub wallet_encryption_kek :
        optional source (codes "WALLET_ENCRYPTION_KEK") is_base64 ≡ valid s.wallet_encryption_kek
    pub contract_address :
        optional source (codes "CONTRACT_ADDRESS") is_address ≡ valid s.contract_address
    pub system_wallet_private_key :
        optional source (codes "SYSTEM_WALLET_PRIVATE_KEY") is_private_key
        ≡ valid s.system_wallet_private_key
    pub tx_timeout_seconds :
        defaulted source (codes "TX_TIMEOUT_SECONDS") 60 (positive number is_url)
        ≡ valid s.tx_timeout_seconds
    pub rate_limit_login_per_15m :
        defaulted source (codes "RATE_LIMIT_LOGIN_PER_15M") 5 (positive number is_url)
        ≡ valid s.rate_limit_login_per_15m
    pub rate_limit_register_per_hour :
        defaulted source (codes "RATE_LIMIT_REGISTER_PER_HOUR") 3 (positive number is_url)
        ≡ valid s.rate_limit_register_per_hour
    pub rate_limit_scan_private_per_min :
        defaulted source (codes "RATE_LIMIT_SCAN_PRIVATE_PER_MIN") 60 (positive number is_url)
        ≡ valid s.rate_limit_scan_private_per_min
    pub rate_limit_auth_generic_per_min :
        defaulted source (codes "RATE_LIMIT_AUTH_GENERIC_PER_MIN") 600 (positive number is_url)
        ≡ valid s.rate_limit_auth_generic_per_min
    pub daily_salt_rotate_hour_utc :
        defaulted source (codes "DAILY_SALT_ROTATE_HOUR_UTC") 0 (hour number is_url)
        ≡ valid s.daily_salt_rotate_hour_utc
    pub daily_salt_secret :
        optional source (codes "DAILY_SALT_SECRET") (λ s. leb 16 (length s))
        ≡ valid s.daily_salt_secret

  pub parse_env-IsRead :
      (source : Source) (s : Settings) → parse_env number is_url source ≡ passed s → IsRead source s
  unfolding parse_env
  parse_env-IsRead source s e = peel (IsRead source) _ _ s e λ f28 a28 e28 v28.
      peel (λ f. IsRead source (f a28)) _ _ f28 e28
        λ f27 a27 e27 v27.
          peel (λ f. IsRead source (f a27 a28)) _ _ f27 e27
            λ f26 a26 e26 v26.
              peel (λ f. IsRead source (f a26 a27 a28)) _ _ f26 e26
                λ f25 a25 e25 v25.
                  peel (λ f. IsRead source (f a25 a26 a27 a28)) _ _ f25 e25
                    λ f24 a24 e24 v24.
                      peel (λ f. IsRead source (f a24 a25 a26 a27 a28)) _ _ f24 e24
                        λ f23 a23 e23 v23.
                          peel (λ f. IsRead source (f a23 a24 a25 a26 a27 a28)) _ _ f23 e23
                            λ f22 a22 e22 v22.
                              peel (λ f. IsRead source (f a22 a23 a24 a25 a26 a27 a28)) _ _ f22 e22
                                λ f21 a21 e21 v21.
                                  peel (λ f. IsRead source (f a21 a22 a23 a24 a25 a26 a27 a28)) _ _
                                    f21 e21
                                    λ f20 a20 e20 v20.
                                      peel
                                        (λ f. IsRead source (f a20 a21 a22 a23 a24 a25 a26 a27 a28))
                                        _ _ f20 e20
                                        λ f19 a19 e19 v19.
                                          peel
                                            (λ f.
                                              IsRead source
                                                (f a19 a20 a21 a22 a23 a24 a25 a26 a27 a28))
                                            _ _ f19 e19
                                            λ f18 a18 e18 v18.
                                              peel
                                                (λ f.
                                                  IsRead source
                                                    (f a18 a19 a20 a21 a22 a23 a24 a25 a26 a27 a28))
                                                _ _ f18 e18
                                                λ f17 a17 e17 v17.
                                                  peel
                                                    (λ f. IsRead source (
                                                      f a17 a18 a19 a20 a21 a22 a23 a24 a25 a26 a27
                                                        a28))
                                                    _ _ f17 e17
                                                    λ f16 a16 e16 v16.
                                                      peel
                                                        (λ f. IsRead source (
                                                          f a16 a17 a18 a19 a20 a21 a22 a23 a24 a25
                                                            a26 a27 a28))
                                                        _ _ f16 e16
                                                        λ f15 a15 e15 v15.
                                                          peel
                                                            (λ f. IsRead source (
                                                            f a15 a16 a17 a18 a19 a20 a21 a22 a23
                                                            a24 a25 a26 a27 a28))
                                                            _ _ f15 e15
                                                            λ f14 a14 e14 v14.
                                                            peel
                                                            (λ f. IsRead source (
                                                            f a14 a15 a16 a17 a18 a19 a20 a21 a22
                                                            a23 a24 a25 a26 a27 a28))
                                                            _ _ f14 e14
                                                            λ f13 a13 e13 v13.
                                                            peel
                                                            (λ f. IsRead source (
                                                            f a13 a14 a15 a16 a17 a18 a19 a20 a21
                                                            a22 a23 a24 a25 a26 a27 a28))
                                                            _ _ f13 e13
                                                            λ f12 a12 e12 v12.
                                                            peel
                                                            (λ f. IsRead source (
                                                            f a12 a13 a14 a15 a16 a17 a18 a19 a20
                                                            a21 a22 a23 a24 a25 a26 a27 a28))
                                                            _ _ f12 e12
                                                            λ f11 a11 e11 v11.
                                                            peel
                                                            (λ f. IsRead source (
                                                            f a11 a12 a13 a14 a15 a16 a17 a18 a19
                                                            a20 a21 a22 a23 a24 a25 a26 a27 a28))
                                                            _ _ f11 e11
                                                            λ f10 a10 e10 v10.
                                                            peel
                                                            (λ f. IsRead source (
                                                            f a10 a11 a12 a13 a14 a15 a16 a17 a18
                                                            a19 a20 a21 a22 a23 a24 a25 a26 a27
                                                            a28))
                                                            _ _ f10 e10
                                                            λ f9 a9 e9 v9.
                                                            peel
                                                            (λ f. IsRead source (
                                                            f a9 a10 a11 a12 a13 a14 a15 a16 a17 a18
                                                            a19 a20 a21 a22 a23 a24 a25 a26 a27
                                                            a28))
                                                            _ _ f9 e9
                                                            λ f8 a8 e8 v8.
                                                            peel
                                                            (λ f. IsRead source (
                                                            f a8 a9 a10 a11 a12 a13 a14 a15 a16 a17
                                                            a18 a19 a20 a21 a22 a23 a24 a25 a26 a27
                                                            a28))
                                                            _ _ f8 e8
                                                            λ f7 a7 e7 v7.
                                                            peel
                                                            (λ f. IsRead source (
                                                            f a7 a8 a9 a10 a11 a12 a13 a14 a15 a16
                                                            a17 a18 a19 a20 a21 a22 a23 a24 a25 a26
                                                            a27 a28))
                                                            _ _ f7 e7
                                                            λ f6 a6 e6 v6.
                                                            peel
                                                            (λ f. IsRead source (
                                                            f a6 a7 a8 a9 a10 a11 a12 a13 a14 a15
                                                            a16 a17 a18 a19 a20 a21 a22 a23 a24 a25
                                                            a26 a27 a28))
                                                            _ _ f6 e6
                                                            λ f5 a5 e5 v5.
                                                            peel
                                                            (λ f. IsRead source (
                                                            f a5 a6 a7 a8 a9 a10 a11 a12 a13 a14 a15
                                                            a16 a17 a18 a19 a20 a21 a22 a23 a24 a25
                                                            a26 a27 a28))
                                                            _ _ f5 e5
                                                            λ f4 a4 e4 v4.
                                                            peel
                                                            (λ f. IsRead source (
                                                            f a4 a5 a6 a7 a8 a9 a10 a11 a12 a13 a14
                                                            a15 a16 a17 a18 a19 a20 a21 a22 a23 a24
                                                            a25 a26 a27 a28))
                                                            _ _ f4 e4
                                                            λ f3 a3 e3 v3.
                                                            peel
                                                            (λ f. IsRead source (
                                                            f a3 a4 a5 a6 a7 a8 a9 a10 a11 a12 a13
                                                            a14 a15 a16 a17 a18 a19 a20 a21 a22 a23
                                                            a24 a25 a26 a27 a28))
                                                            _ _ f3 e3
                                                            λ f2 a2 e2 v2.
                                                            peel
                                                            (λ f. IsRead source (
                                                            f a2 a3 a4 a5 a6 a7 a8 a9 a10 a11 a12
                                                            a13 a14 a15 a16 a17 a18 a19 a20 a21 a22
                                                            a23 a24 a25 a26 a27 a28))
                                                            (passed make)
                                                            (defaulted source (codes "NODE_ENV")
                                                            development node_envs)
                                                            f2 e2
                                                            λ f1 a1 e1 v1.
                                                            made
                                                            (λ f. IsRead source (
                                                            f a1 a2 a3 a4 a5 a6 a7 a8 a9 a10 a11 a12
                                                            a13 a14 a15 a16 a17 a18 a19 a20 a21 a22
                                                            a23 a24 a25 a26 a27 a28))
                                                            make f1 e1
                                                            (record {
                                                            port = v2;
                                                            jwt_secret = v6;
                                                            refresh_secret = v8;
                                                            wallet_encryption_kek = v10;
                                                            contract_address = v14;
                                                            system_wallet_private_key = v15;
                                                            tx_timeout_seconds = v17;
                                                            rate_limit_login_per_15m = v22;
                                                            rate_limit_register_per_hour = v23;
                                                            rate_limit_scan_private_per_min = v24;
                                                            rate_limit_auth_generic_per_min = v25;
                                                            daily_salt_rotate_hour_utc = v26;
                                                            daily_salt_secret = v27;
                                                            })
