-- ===== src/Common/Keeps.antt =====
-- Actions that keep an invariant of the stores, whether they return or throw: one rule for each way
-- to build an action.

use v2_backend.Common.{answer, pure, ap, transaction, arith}
use mathlib.Core.Path.{◌≡◌, refl, ap}
use v2_backend.Common.Effect.{
  Action, Result, ok, err, or_throw, throw, throw_if, when, ◌>>=◌, ◌>>◌, answer,
}
use v2_backend.Common.Error.{Failure}
use v2_backend.Common.Tests.{if◌then◌else◌}
use mathlib.Core.Bool.{Bool, true, false}
use mathlib.Core.Option.{Option, none, some}

module _ {S : Type 0} (I : S → Type 0) where
  abbrev pub Keeps : {A : Type 0} → Action S A → Type 0
  Keeps m = (s : S) → I s → I (m s).1

  pub Keeps-bind :
      {A B : Type 0} (m : Action S A) (f : A → Action S B)
      → Keeps m
      → ((a : A) → Keeps (f a))
      → Keeps (m >>= f)
  Keeps-bind {A} {B} m f h k s i = go (m s).0 (m s).1 (h s i)
    where
      go :
          (r : Result A) (s' : S)
          → I s'
          → I (elim r as (λ x. Result B × S) [ ok a ↦ f a s' | err e ↦ throw e s' ]).1
      go (ok a) s' i' = k a s' i'
      go (err e) s' i' = i'

  pub Keeps-seq :
      {A B : Type 0} (m : Action S A) (k : Action S B) → Keeps m → Keeps k → Keeps (m >> k)
  Keeps-seq m k h i = Keeps-bind m (λ _. k) h (λ _. i)

  pub Keeps-or_throw : {A : Type 0} (o : Option A) (e : Failure) → Keeps (or_throw o e)
  Keeps-or_throw none e s i = i
  Keeps-or_throw (some a) e s i = i

  pub Keeps-throw_if : (b : Bool) (e : Failure) → Keeps (throw_if b e)
  Keeps-throw_if true e s i = i
  Keeps-throw_if false e s i = i

  pub Keeps-when : (b : Bool) (m : Action S (Unit {0})) → Keeps m → Keeps (when b m)
  Keeps-when true m h s i = h s i
  Keeps-when false m h s i = i

  pub Keeps-if :
      {A : Type 0} (b : Bool) (m n : Action S A) → Keeps m → Keeps n → Keeps (if b then m else n)
  Keeps-if true m n h k = h
  Keeps-if false m n h k = k

  pub Keeps-case :
      {A B : Type 0} (o : Option A) (m : Action S B) (f : A → Action S B)
      → Keeps m
      → ((a : A) → Keeps (f a))
      → Keeps (elim o [ none ↦ m | some a ↦ f a ])
  Keeps-case none m f h k = h
  Keeps-case (some a) m f h k = k a

-- An action that ends without a write leaves what the one before it left.
pub state_seq :
    {S A B : Type 0} (m : Action S A) (k : Action S B) (s : S)
    → ((t : S) → (k t).1 ≡ t)
    → ((m >> k) s).1 ≡ (m s).1
state_seq {S} {A} {B} m k s h = go (m s).0 (m s).1
  where
    go :
        (r : Result A) (t : S)
        → (elim r as (λ x. Result B × S) [ ok a ↦ k t | err e ↦ throw e t ]).1 ≡ t
    go (ok a) t = h t
    go (err e) t = refl

pub state_bind :
    {S A B : Type 0} (m : Action S A) (f : A → Action S B) (s : S)
    → ((a : A) (t : S) → (f a t).1 ≡ t)
    → ((m >>= f) s).1 ≡ (m s).1
state_bind {S} {A} {B} m f s h = go (m s).0 (m s).1
  where
    go :
        (r : Result A) (t : S)
        → (elim r as (λ x. Result B × S) [ ok a ↦ f a t | err e ↦ throw e t ]).1 ≡ t
    go (ok a) t = h a t
    go (err e) t = refl

-- Asking outside changes no store.
pub state_answer :
    {S A B : Type 0} (r : Result A) (f : A → B) (s : S)
    → ((answer {S = S} r >>= λ a. pure (f a)) s).1 ≡ s
state_answer (ok a) f s = refl
state_answer (err e) f s = refl

-- A first part whose outcome is known.
module _ {S A B : Type 0} (m : Action S A) (f : A → Action S B) where
  rest : Result A × S → Result B × S
  rest x = elim x.0 as (λ y. Result B × S) [ ok a ↦ f a x.1 | err e ↦ throw e x.1 ]

  pub bind_ok : (s t : S) (a : A) → m s ≡ (ok a, t) → (m >>= f) s ≡ f a t
  unfolding rest
  bind_ok s t a e = ap rest e

  pub bind_err : (s t : S) (e : Failure) → m s ≡ (err e, t) → (m >>= f) s ≡ (err e, t)
  unfolding rest
  bind_err s t e h = ap rest h

-- Actions that lead from one condition to a weaker one by a step of their own: what stands before the
-- step keeps the first condition, what stands after it the second.
module _ {S : Type 0} (P Q : S → Type 0) (weaken : (s : S) → P s → Q s) where
  abbrev pub Leads : {A : Type 0} → Action S A → Type 0
  Leads m = (s : S) → P s → Q (m s).1

  pub Leads-bind :
      {A B : Type 0} (m : Action S A) (f : A → Action S B)
      → Keeps P m
      → ((a : A) → Leads (f a))
      → Leads (m >>= f)
  Leads-bind {A} {B} m f h k s i = go (m s).0 (m s).1 (h s i)
    where
      go :
          (r : Result A) (s' : S)
          → P s'
          → Q (elim r as (λ x. Result B × S) [ ok a ↦ f a s' | err e ↦ throw e s' ]).1
      go (ok a) s' i' = k a s' i'
      go (err e) s' i' = weaken s' i'

  pub Leads-then :
      {A B : Type 0} (m : Action S A) (f : A → Action S B)
      → Leads m
      → ((a : A) → Keeps Q (f a))
      → Leads (m >>= f)
  Leads-then {A} {B} m f h k s i = go (m s).0 (m s).1 (h s i)
    where
      go :
          (r : Result A) (s' : S)
          → Q s'
          → Q (elim r as (λ x. Result B × S) [ ok a ↦ f a s' | err e ↦ throw e s' ]).1
      go (ok a) s' i' = k a s' i'
      go (err e) s' i' = i'

  pub Leads-case :
      {A B : Type 0} (o : Option A) (e : Failure) (f : A → Action S B)
      → ((a : A) → o ≡ some a → Leads (f a))
      → Leads (or_throw o e >>= f)
  Leads-case none e f h s i = weaken s i
  Leads-case (some a) e f h s i = h a refl s i

  pub Leads-transaction : {A : Type 0} (m : Action S A) → Leads m → Leads (transaction m)
  Leads-transaction {A} m h s i = go (m s).0 (m s).1 (h s i)
    where
      go :
          (r : Result A) (s' : S)
          → Q s'
          → Q (elim r as (λ x. Result A × S) [ ok a ↦ (ok a, s') | err e ↦ (err e, s) ]).1
      go (ok a) s' i' = i'
      go (err e) s' i' = weaken s i

  pub Leads-Keeps : {A : Type 0} (m : Action S A) → Keeps P m → Leads m
  Leads-Keeps m h s i = weaken (m s).1 (h s i)

-- What holds of the value and the stores where an action returns.
module _ {S : Type 0} where
  abbrev pub Gives : {A : Type 0} → (S → Type 0) → Action S A → (A → S → Type 0) → Type 0
  Gives {A} P m Q = (s : S) → P s → (a : A) → (m s).0 ≡ ok a → Q a (m s).1

  pub Gives-bind :
      {A B : Type 0} (P : S → Type 0) (R : A → S → Type 0) (Q : B → S → Type 0) (m : Action S A)
      (f : A → Action S B)
      → Gives P m R
      → ((a : A) → Gives (R a) (f a) Q)
      → Gives P (m >>= f) Q
  Gives-bind {A} {B} P R Q m f h k s i = go (m s).0 (m s).1 (h s i)
    where
      go :
          (r : Result A) (t : S)
          → ((a : A) → r ≡ ok a → R a t)
          → (b : B) → (elim r as (λ x. Result B × S) [ ok a ↦ f a t | err e ↦ throw e t ]).0 ≡ ok b
          → Q b (elim r as (λ x. Result B × S) [ ok a ↦ f a t | err e ↦ throw e t ]).1
      go (ok a) t j b e = k a t (j a refl) b e
      go (err x) t j b e = ground arith

  pub Gives-Keeps : {A : Type 0} (P : S → Type 0) (m : Action S A) → Keeps P m → Gives P m (λ _. P)
  Gives-Keeps P m h s i a e = h s i

  pub Gives-transaction :
      {A : Type 0} (P : S → Type 0) (Q : A → S → Type 0) (m : Action S A)
      → Gives P m Q
      → Gives P (transaction m) Q
  Gives-transaction {A} P Q m h s i = go (m s).0 (m s).1 (h s i)
    where
      go :
          (r : Result A) (t : S)
          → ((a : A) → r ≡ ok a → Q a t)
          → (b : A)
          → (elim r as (λ x. Result A × S) [ ok a ↦ (ok a, t) | err e ↦ (err e, s) ]).0 ≡ ok b
          → Q b (elim r as (λ x. Result A × S) [ ok a ↦ (ok a, t) | err e ↦ (err e, s) ]).1
      go (ok a) t j b e = j b e
      go (err x) t j b e = ground arith

pub transaction_err :
    {S A : Type 0} (m : Action S A) (s t : S) (e : Failure)
    → m s ≡ (err e, t)
    → transaction m s ≡ (err e, s)
transaction_err {S} {A} m s t e h =
    ap
      (λ (x : Result A × S). elim x.0 as (λ y. Result A × S) [
        | ok a ↦ (ok a, x.1)
        | err e ↦ (err e, s)
      ])
      h

pub transaction_ok :
    {S A : Type 0} (m : Action S A) (s t : S) (a : A)
    → m s ≡ (ok a, t)
    → transaction m s ≡ (ok a, t)
transaction_ok {S} {A} m s t a h =
    ap
      (λ (x : Result A × S). elim x.0 as (λ y. Result A × S) [
        | ok a ↦ (ok a, x.1)
        | err e ↦ (err e, s)
      ])
      h

-- A transaction keeps what its action keeps where it returns.
pub Keeps-transaction :
    {S A : Type 0} (I : S → Type 0) (m : Action S A) → Gives I m (λ _. I) → Keeps I (transaction m)
Keeps-transaction {S} {A} I m h s i = go (m s).0 (m s).1 (h s i)
  where
    go :
        (r : Result A) (t : S)
        → ((a : A) → r ≡ ok a → I t)
        → I (elim r as (λ x. Result A × S) [ ok a ↦ (ok a, t) | err e ↦ (err e, s) ]).1
    go (ok a) t k = k a refl
    go (err e) t k = i

-- The same of one state.
pub transaction_at :
    {S A : Type 0} (I : S → Type 0) (m : Action S A) (s : S)
    → I s
    → I (m s).1
    → I (transaction m s).1
transaction_at {S} {A} I m s i = go (m s).0 (m s).1
  where
    go :
        (r : Result A) (t : S)
        → I t
        → I (elim r as (λ x. Result A × S) [ ok a ↦ (ok a, t) | err e ↦ (err e, s) ]).1
    go (ok a) t k = k
    go (err e) t k = i
