-- ===== src/World/Monad.antt =====
-- An asynchronous method: it returns or throws, and what it wrote stays written either way.
use qr_blockchain_anticounte.Prelude.{◌+◌, none, some, Bool, true, false}
use qr_blockchain_anticounte.Errors.{Err, js}
use qr_blockchain_anticounte.World.State.{World, Outside}

pub data Result (A : Type 0) : Type 0 where
  ok : A → Result A
  err : Err → Result A

abbrev pub M : Type 0 → Type 0
M A = World → Result A × World

module _ {A : Type 0} where
  abbrev pub pure : A → M A
  pure a w = (ok a, w)

  abbrev pub throw : Err → M A
  throw e w = (err e, w)

infixl 5 ◌>>=◌ ◌>>◌
abbrev pub ◌>>=◌ : {A B : Type 0} → M A → (A → M B) → M B
◌>>=◌ m f w = let (r, w') = m w in elim r [ ok a ↦ f a w' | err e ↦ (err e, w') ]

abbrev pub ◌>>◌ : {A B : Type 0} → M A → M B → M B
m >> k = m >>= λ _. k

-- `try { m } catch (e) { handler(e) }`
abbrev pub catching : {A : Type 0} → M A → (Err → M A) → M A
catching m handler w = let (r, w') = m w in elim r [ ok a ↦ (ok a, w') | err e ↦ handler e w' ]

abbrev pub modify : (World → World) → M (Unit {0})
modify f w = (ok tt, f w)

abbrev pub gets : {A : Type 0} → (World → A) → M A
gets f w = (ok (f w), w)

abbrev pub throw_unless : Bool → Err → M (Unit {0})
throw_unless true e w = (ok tt, w)
throw_unless false e w = (err e, w)

abbrev pub ticked : World → World
ticked w = record w { tick = w.tick + 1 }

-- An operation of the database: it fails, or it is carried out on the state.
abbrev pub on_db : {A : Type 0} → Outside → (World → A × World) → M A
on_db x f w = elim (x.db w.tick) [
  | some e ↦ (err (js e), ticked w)
  | none ↦ let (a, w') = f (ticked w) in (ok a, w')
]

-- A query, and a write that returns nothing.
unfoldable pub db_read : {A : Type 0} → Outside → (World → A) → M A
db_read x f = on_db x (λ w. (f w, w))

unfoldable pub db_write : Outside → (World → World) → M (Unit {0})
db_write x f = on_db x (λ w. (tt, f w))
