-- ===== src/World/Laws.antt =====
-- Methods that only extend the registry: rules along the method.
use qr_blockchain_anticounte.Prelude.{
  ◌≡◌, refl, Option, none, some, Bool, true, false, if◌then◌else◌,
}
use qr_blockchain_anticounte.Errors.{Err, JsError, js}
use qr_blockchain_anticounte.Registry.Monotone.{Extends, Extends-refl, Extends-trans}
use qr_blockchain_anticounte.World.State.{World, Outside}
use qr_blockchain_anticounte.World.Monad.{
  M, Result, ok, err, pure, throw, ◌>>=◌, catching, modify, gets, throw_unless, db_read, db_write,
  ticked,
}

-- Whatever it answers, the method leaves a registry that extends the one that it found.
pub record Grows {A : Type 0} (m : M A) : Type 0 where
  pub grows : (w : World) → Extends w.registry (m w).1.registry

pub pure-Grows : {A : Type 0} (a : A) → Grows (pure a)
pure-Grows a = record { grows = λ w. Extends-refl w.registry }

pub throw-Grows : (A : Type 0) (e : Err) → Grows (throw {A = A} e)
throw-Grows A e = record { grows = λ w. Extends-refl w.registry }

pub gets-Grows : {A : Type 0} (f : World → A) → Grows (gets f)
gets-Grows f = record { grows = λ w. Extends-refl w.registry }

-- a change of the state that leaves the registry alone
pub modify-Grows :
    (f : World → World) → ((w : World) → (f w).registry ≡ w.registry) → Grows (modify f)
modify-Grows f same = record { grows = λ w. rw (same w) (Extends-refl w.registry) }

bind_elim :
    {A B : Type 0} (f : A → M B) (w : World) (r : Result A × World)
    → ((a : A) → Grows (f a))
    → Extends w.registry r.1.registry
    → Extends w.registry
        (elim r.0 as (λ _. Result B × World) [ ok a ↦ f a r.1 | err e ↦ (err e, r.1) ]).1.registry
bind_elim f w (ok a, v) gf g = Extends-trans g ((gf a).grows v)
bind_elim f w (err x, v) gf g = g

pub bind-Grows :
    {A B : Type 0} (m : M A) (f : A → M B) → Grows m → ((a : A) → Grows (f a)) → Grows (m >>= f)
bind-Grows m f gm gf = record { grows = λ w. bind_elim f w (m w) gf (gm.grows w) }

catching_elim :
    {A : Type 0} (handler : Err → M A) (w : World) (r : Result A × World)
    → ((e : Err) → Grows (handler e))
    → Extends w.registry r.1.registry
    → Extends w.registry
        (elim r.0 as (λ _. Result A × World) [
          | ok a ↦ (ok a, r.1)
          | err e ↦ handler e r.1
        ]).1.registry
catching_elim handler w (ok a, v) gh g = g
catching_elim handler w (err x, v) gh g = Extends-trans g ((gh x).grows v)

pub catching-Grows :
    {A : Type 0} (m : M A) (handler : Err → M A)
    → Grows m
    → ((e : Err) → Grows (handler e))
    → Grows (catching m handler)
catching-Grows m handler gm gh = record {
  grows = λ w. catching_elim handler w (m w) gh (gm.grows w);
}

pub throw_unless-Grows : (b : Bool) (e : Err) → Grows (throw_unless b e)
throw_unless-Grows true e = record { grows = λ w. Extends-refl w.registry }
throw_unless-Grows false e = record { grows = λ w. Extends-refl w.registry }

pub if-Grows : {A : Type 0} (b : Bool) (m n : M A) → Grows m → Grows n → Grows (if b then m else n)
if-Grows true m n gm gn = gm
if-Grows false m n gm gn = gn

-- A method that takes its argument from the state of the moment.
pub at-Grows : {A : Type 0} (f : World → M A) → ((v : World) → Grows (f v)) → Grows (λ w. f w w)
at-Grows f g = record { grows = λ w. (g w).grows w }

on_db_grows :
    {A : Type 0} (f : World → A × World) (w : World) (d : Option JsError)
    → ((v : World) → (f v).1.registry ≡ v.registry)
    → Extends w.registry
        (elim d as (λ _. Result A × World) [
          | some e ↦ (err (js e), ticked w)
          | none ↦ let (a, w') = f (ticked w) in (ok a, w')
        ]).1.registry
on_db_grows f w none same = rw (same (ticked w)) (Extends-refl w.registry)
on_db_grows f w (some e) same = Extends-refl w.registry

pub db_read-Grows : {A : Type 0} (x : Outside) (f : World → A) → Grows (db_read x f)
unfolding db_read
db_read-Grows x f = record { grows = λ w. on_db_grows (λ v. (f v, v)) w (x.db w.tick) (λ v. refl) }

pub db_write-Grows :
    (x : Outside) (f : World → World)
    → ((w : World) → (f w).registry ≡ w.registry)
    → Grows (db_write x f)
unfolding db_write
db_write-Grows x f same = record { grows = λ w. on_db_grows (λ v. (tt, f v)) w (x.db w.tick) same }
