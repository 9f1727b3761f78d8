-- ===== src/Common/Effect.antt =====
-- An asynchronous method: it passes the stores on, and ends with a value or an exception. What was
-- written before a throw stays written.
use mathlib.Core.Bool.{Bool, true, false}
use mathlib.Core.Option.{Option, none, some}
use v2_backend.Common.Error.{Failure}

pub data Result (A : Type 0) : Type 0 where
  ok : A → Result A
  err : Failure → Result A

abbrev pub Action : Type 0 → Type 0 → Type 0
Action S A = S → Result A × S

module _ {S A : Type 0} where
  abbrev pub pure : A → Action S A
  pure a s = (ok a, s)

  abbrev pub throw : Failure → Action S A
  throw e s = (err e, s)

  -- A call of code outside the repository: its answer is given.
  abbrev pub answer : Result A → Action S A
  answer r s = (r, s)

  abbrev pub or_throw : Option A → Failure → Action S A
  or_throw none e = throw e
  or_throw (some a) e = pure a

  -- A read of the stores.
  abbrev pub gets : (S → A) → Action S A
  gets f s = (ok (f s), s)

  -- A write that returns a value.
  abbrev pub update : (S → A × S) → Action S A
  update f s = let (a, s') = f s in (ok a, s')

infixl 5 ◌>>=◌ ◌>>◌
abbrev pub ◌>>=◌ : {S A B : Type 0} → Action S A → (A → Action S B) → Action S B
◌>>=◌ m f s = let (r, s') = m s in elim r [ ok a ↦ f a s' | err e ↦ throw e s' ]

abbrev pub ◌>>◌ : {S A B : Type 0} → Action S A → Action S B → Action S B
m >> k = m >>= λ _. k

module _ {S : Type 0} where
  abbrev pub modify : (S → S) → Action S (Unit {0})
  modify f s = (ok tt, f s)

  abbrev pub throw_if : Bool → Failure → Action S (Unit {0})
  throw_if true e = throw e
  throw_if false e = pure tt

  -- `if (c) await m;`
  abbrev pub when : Bool → Action S (Unit {0}) → Action S (Unit {0})
  when true m = m
  when false m = pure tt

-- `m.catch(handle)`
abbrev pub on_error : {S A : Type 0} → Action S A → (Failure → Action S A) → Action S A
on_error m handle s = let (r, s') = m s in elim r [ ok a ↦ (ok a, s') | err e ↦ handle e s' ]

-- An interactive transaction: a throw rolls its writes back.
abbrev pub transaction : {S A : Type 0} → Action S A → Action S A
transaction m s = let (r, s') = m s in elim r [ ok a ↦ (ok a, s') | err e ↦ (err e, s) ]
