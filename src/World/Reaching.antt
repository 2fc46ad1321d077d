-- ===== src/World/Reaching.antt =====
-- What holds between the registries before and after a method that returns: rules along the method.
use qr_blockchain_anticounte.Prelude.{
  ◌≡◌, ◌∙◌, ap, refl, Bool, true, false, if◌then◌else◌, arith, subst,
}
use qr_blockchain_anticounte.Errors.{Err}
use qr_blockchain_anticounte.Registry.{Storage}
use qr_blockchain_anticounte.Registry.Monotone.{Extends}
use qr_blockchain_anticounte.World.State.{World}
use qr_blockchain_anticounte.World.Monad.{M, Result, ok, err, pure, throw, ◌>>=◌, catching}
use qr_blockchain_anticounte.World.Laws.{Grows}

-- A relation of a result and two registries.
abbrev pub Post : Type 0 → Type 1
Post A = A → Storage → Storage → Type 0

-- It survives what happens before and after, so long as the registry is only extended.
pub record IsClosed {A : Type 0} (R : Post A) : Type 0 where
  pub before : (a : A) {s t u : Storage} → Extends s t → R a t u → R a s u
  pub after : (a : A) {s t u : Storage} → R a s t → Extends t u → R a s u

-- When the method returns, the relation holds.
pub record Reaches {A : Type 0} (R : Post A) (m : M A) : Type 0 where
  pub reaches : (w : World) (a : A) (w' : World) → m w ≡ (ok a, w') → R a w.registry w'.registry

module _ {A B : Type 0} (R : Post B) (closed : IsClosed R) where
  later_reaches :
      (f : A → M B) (s : Storage) (r : Result A × World) (b : B) (w' : World)
      → Extends s r.1.registry
      → ((a : A) → Reaches R (f a))
      → elim r.0 as (λ _. Result B × World) [ ok a ↦ f a r.1 | err e ↦ (err e, r.1) ] ≡ (ok b, w')
      → R b s w'.registry
  later_reaches f s (ok a, v) b w' g h k = closed.before b g ((h a).reaches v b w' k)
  later_reaches f s (err e, v) b w' g h k = absurd (cc k)

  -- The relation comes from what follows the first step.
  pub later-Reaches :
      (m : M A) (f : A → M B) → Grows m → ((a : A) → Reaches R (f a)) → Reaches R (m >>= f)
  later-Reaches m f g h = record {
    reaches = λ w b w' k. later_reaches f w.registry (m w) b w' (g.grows w) h k;
  }

module _ {A B : Type 0} (Q : Storage → Storage → Type 0) (closed : IsClosed {A = A} (λ _. Q)) where
  here_reaches :
      (m : M A) (f : A → M B) (w : World) (r : Result A × World) (b : B) (w' : World)
      → m w ≡ r
      → Reaches (λ _. Q) m
      → ((a : A) → Grows (f a))
      → elim r.0 as (λ _. Result B × World) [ ok a ↦ f a r.1 | err e ↦ (err e, r.1) ] ≡ (ok b, w')
      → Q w.registry w'.registry
  here_reaches m f w (ok a, v) b w' e h g k =
      subst (λ z. Q w.registry z) (ap (λ z. z.1.registry) k)
        (closed.after a (h.reaches w a v e) ((g a).grows v))
  here_reaches m f w (err x, v) b w' e h g k = absurd (cc k)

  -- The relation comes from the first step.
  pub here-Reaches :
      (m : M A) (f : A → M B)
      → Reaches (λ _. Q) m
      → ((a : A) → Grows (f a))
      → Reaches {A = B} (λ _. Q) (m >>= f)
  here-Reaches m f h g = record { reaches = λ w b w' k. here_reaches m f w (m w) b w' refl h g k }

module _ {A : Type 0} (R : Post A) where
  pub pure-Reaches : (a : A) → ((s : Storage) → R a s s) → Reaches R (pure a)
  pure-Reaches a h = record {
    reaches = λ w b w' k.
        subst (λ z. R z w.registry w'.registry) (ground (arith, k))
          (subst (λ z. R a w.registry z) (ap (λ z. z.1.registry) k) (h w.registry));
  }

  pub throw-Reaches : (e : Err) → Reaches R (throw e)
  throw-Reaches e = record { reaches = λ w b w' k. absurd (cc k) }

  pub if-Reaches :
      (b : Bool) (m n : M A) → Reaches R m → Reaches R n → Reaches R (if b then m else n)
  if-Reaches true m n h k = h
  if-Reaches false m n h k = k

  pub weaken-Reaches :
      (Q : Post A) (m : M A)
      → ((a : A) (s t : Storage) → Q a s t → R a s t)
      → Reaches Q m
      → Reaches R m
  weaken-Reaches Q m weak h = record {
    reaches = λ w a w' k. weak a w.registry w'.registry (h.reaches w a w' k);
  }

  module _ (closed : IsClosed R) where
    catching_reaches :
        (m : M A) (handler : Err → M A) (w : World) (r : Result A × World) (a : A) (w' : World)
        → m w ≡ r
        → Reaches R m
        → Extends w.registry r.1.registry
        → ((e : Err) → Reaches R (handler e))
        → elim r.0 as (λ _. Result A × World) [ ok b ↦ (ok b, r.1) | err e ↦ handler e r.1 ]
          ≡ (ok a, w')
        → R a w.registry w'.registry
    catching_reaches m handler w (ok b, v) a w' e h g k q = h.reaches w a w' (e ∙ q)
    catching_reaches m handler w (err x, v) a w' e h g k q =
        closed.before a g ((k x).reaches v a w' q)

    -- It comes from the body, or from the handler after a body that threw.
    pub catching-Reaches :
        (m : M A) (handler : Err → M A)
        → Grows m
        → Reaches R m
        → ((e : Err) → Reaches R (handler e))
        → Reaches R (catching m handler)
    catching-Reaches m handler g h k = record {
      reaches = λ w a w' q. catching_reaches m handler w (m w) a w' refl h (g.grows w) k q;
    }

module _ {A : Type 0} (R Q : Post A) where
  -- Both of two relations.
  pub both-Reaches : (m : M A) → Reaches R m → Reaches Q m → Reaches (λ a s t. R a s t × Q a s t) m
  both-Reaches m h k = record { reaches = λ w a w' e. (h.reaches w a w' e, k.reaches w a w' e) }

module _ {A B : Type 0} (R : Post B) (closed : IsClosed R) where
  given_elim :
      (m : M A) (f : A → M B) (w : World) (r : Result A × World) (b : B) (w' : World)
      → m w ≡ r
      → Extends w.registry r.1.registry
      → ((a : A) (u v : World) → m u ≡ (ok a, v) → Reaches R (f a))
      → elim r.0 as (λ _. Result B × World) [ ok a ↦ f a r.1 | err e ↦ (err e, r.1) ] ≡ (ok b, w')
      → R b w.registry w'.registry
  given_elim m f w (ok a, v) b w' e g h k = closed.before b g ((h a w v e).reaches v b w' k)
  given_elim m f w (err e, v) b w' ran g h k = absurd (cc k)

  -- The relation comes from what follows the first step, for what that step can return.
  pub given-Reaches :
      (m : M A) (f : A → M B)
      → Grows m
      → ((a : A) (u v : World) → m u ≡ (ok a, v) → Reaches R (f a))
      → Reaches R (m >>= f)
  given-Reaches m f g h = record {
    reaches = λ w b w' k. given_elim m f w (m w) b w' refl (g.grows w) h k;
  }

-- A relation of the result only.
pub value-IsClosed : {A : Type 0} (V : A → Type 0) → IsClosed (λ a _ _. V a)
value-IsClosed V = record { before = λ a g k. k; after = λ a k g. k }
