-- ===== src/World/Runs.antt =====
-- Methods that return from a given state: rules along the method, with what holds of the result and of
-- the state that is left.
use qr_blockchain_anticounte.Prelude.{◌≡◌, refl, ◌∙◌, ap, none, Bool, true, arith}
use qr_blockchain_anticounte.Errors.{Err}
use qr_blockchain_anticounte.World.State.{World, Outside}
use qr_blockchain_anticounte.World.Monad.{
  M, Result, ok, err, pure, ◌>>=◌, catching, modify, gets, throw_unless, db_read, db_write, ticked,
}

-- From the state the method returns a value, and the predicate holds of it and of the state it leaves.
pub record Runs {A : Type 0} (m : M A) (w : World) (P : A → World → Type 0) : Type 0 where
  pub value : A
  pub end : World
  pub ran : m w ≡ (ok value, end)
  pub holds : P value end

module _ {A : Type 0} (P : A → World → Type 0) where
  pub pure-Runs : (a : A) (w : World) → P a w → Runs (pure a) w P
  pure-Runs a w p = record { value = a; end = w; ran = refl; holds = p }

  pub gets-Runs : (f : World → A) (w : World) → P (f w) w → Runs (gets f) w P
  gets-Runs f w p = record { value = f w; end = w; ran = refl; holds = p }

  pub catching-Runs :
      (m : M A) (handler : Err → M A) (w : World) → Runs m w P → Runs (catching m handler) w P
  catching-Runs m handler w r = record {
    value = r.value;
    end = r.end;
    ran = ground (arith, r.ran);
    holds = r.holds;
  }

  pub weaken-Runs :
      (Q : A → World → Type 0) (m : M A) (w : World)
      → ((a : A) (v : World) → Q a v → P a v)
      → Runs m w Q
      → Runs m w P
  weaken-Runs Q m w weak r = record {
    value = r.value;
    end = r.end;
    ran = r.ran;
    holds = weak r.value r.end r.holds;
  }

  pub db_read-Runs :
      (x : Outside) (f : World → A) (w : World)
      → x.db w.tick ≡ none
      → P (f (ticked w)) (ticked w)
      → Runs (db_read x f) w P
  unfolding db_read
  db_read-Runs x f w up p = record {
    value = f (ticked w);
    end = ticked w;
    ran = ground (arith, up);
    holds = p;
  }

module _ (P : Unit {0} → World → Type 0) where
  pub modify-Runs : (f : World → World) (w : World) → P tt (f w) → Runs (modify f) w P
  modify-Runs f w p = record { value = tt; end = f w; ran = refl; holds = p }

  pub throw_unless-Runs :
      (b : Bool) (e : Err) (w : World) → b ≡ true → P tt w → Runs (throw_unless b e) w P
  throw_unless-Runs b e w h p = record { value = tt; end = w; ran = ground (arith, h); holds = p }

  pub db_write-Runs :
      (x : Outside) (f : World → World) (w : World)
      → x.db w.tick ≡ none
      → P tt (f (ticked w))
      → Runs (db_write x f) w P
  unfolding db_write
  db_write-Runs x f w up p = record {
    value = tt;
    end = f (ticked w);
    ran = ground (arith, up);
    holds = p;
  }

module _ {A B : Type 0} (P : A → World → Type 0) (Q : B → World → Type 0) where
  -- One step after another.
  pub bind-Runs :
      (m : M A) (f : A → M B) (w : World)
      → Runs m w P
      → ((a : A) (v : World) → P a v → Runs (f a) v Q)
      → Runs (m >>= f) w Q
  bind-Runs m f w r k =
      let s = k r.value r.end r.holds in
      record {
        value = s.value;
        end = s.end;
        ran =
            ap (λ z. elim z.0 as (λ _. Result B × World) [ ok a ↦ f a z.1 | err e ↦ (err e, z.1) ])
              r.ran
            ∙ s.ran;
        holds = s.holds;
      }

  -- A handler that returns after a body that threw.
  pub recovering-Runs :
      (m : M B) (handler : Err → M B) (e : Err) (w v : World)
      → m w ≡ (err e, v)
      → Runs (handler e) v Q
      → Runs (catching m handler) w Q
  recovering-Runs m handler e w v threw r = record {
    value = r.value;
    end = r.end;
    ran =
        ap (λ z. elim z.0 as (λ _. Result B × World) [ ok b ↦ (ok b, z.1) | err x ↦ handler x z.1 ])
          threw
        ∙ r.ran;
    holds = r.holds;
  }
