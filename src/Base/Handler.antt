-- ===== src/Base/Handler.antt =====
-- A handler of the API: it reads and writes a state `S`, and may throw. What was written before a
-- throw stays written, except inside `transaction` (`transactionForTenant` rolls back).
use mathlib.Core.Path.{◌≡◌, refl}
use mathlib.Core.Logic.{◌⊎◌, inl, inr}
use mathlib.Core.Bool.{Bool, true, false}
use mathlib.Core.Option.{Option, none, some}

-- The exceptions of NestJS by class; `failure` is any other thrown error.
pub data Error : Type 0 where
  bad_request unauthorized forbidden not_found conflict too_many unavailable failure : Error

pub data Result (A : Type 0) : Type 0 where
  ok : A → Result A
  err : Error → Result A

abbrev pub is_ok : {A : Type 0} → Result A → Bool
is_ok (ok _) = true
is_ok (err _) = false

pub Result-cases :
    {A : Type 0} (r : Result A) → ((a : A) × (r ≡ ok a)) ⊎ ((e : Error) × (r ≡ err e))
Result-cases (ok a) = inl (a, refl)
Result-cases (err e) = inr (e, refl)

module _ {S : Type 0} where
  abbrev pub pure : {A : Type 0} → A → S → Result A × S
  pure a s = (ok a, s)

  abbrev pub throw : {A : Type 0} → Error → S → Result A × S
  throw e s = (err e, s)

  -- `if (b) throw e`
  abbrev pub throw_if : Bool → Error → S → Result (Unit {0}) × S
  throw_if true e s = (err e, s)
  throw_if false e s = (ok tt, s)

  -- `if (!o) throw e`, and the value otherwise
  abbrev pub require : {A : Type 0} → Option A → Error → S → Result A × S
  require none e s = (err e, s)
  require (some a) e s = (ok a, s)

  abbrev pub from_result : {A : Type 0} → Result A → S → Result A × S
  from_result r s = (r, s)

  abbrev pub gets : {A : Type 0} → (S → A) → S → Result A × S
  gets f s = (ok (f s), s)

  abbrev pub modify : (S → S) → S → Result (Unit {0}) × S
  modify f s = (ok tt, f s)

  abbrev pub catch_all :
      {A : Type 0} → (S → Result A × S) → (Error → S → Result A × S) → S → Result A × S
  catch_all m h s = let (r, s') = m s in elim r [ ok a ↦ (ok a, s') | err e ↦ h e s' ]

  -- A throw undoes every write of the block.
  abbrev pub transaction : {A : Type 0} → (S → Result A × S) → S → Result A × S
  transaction m s = let (r, s') = m s in elim r [ ok a ↦ (ok a, s') | err e ↦ (err e, s) ]

  infixl 5 ◌>>=◌ ◌>>◌
  abbrev pub ◌>>=◌ : {A B : Type 0} → (S → Result A × S) → (A → S → Result B × S) → S → Result B × S
  ◌>>=◌ m f s = let (r, s') = m s in elim r [ ok a ↦ f a s' | err e ↦ (err e, s') ]

  abbrev pub ◌>>◌ : {A B : Type 0} → (S → Result A × S) → (S → Result B × S) → S → Result B × S
  m >> k = m >>= λ _. k
