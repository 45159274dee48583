-- ===== src/Base/Safe.antt =====
-- Reasoning about code that returns an `Option` and may panic: it does not panic, and what it
-- returns has a property.
use mathlib.Core.Path.{◌≡◌, refl, subst}
use mathlib.Core.Logic.{◌≢◌, ◌⊎◌, inl, inr}
use mathlib.Core.Bool.{Bool, true, false}
use mathlib.Core.Option.{Option, none, some}
use chocolate_milk.Base.Parsed.{Parsed, found, absent, panicked, ◌>>=◌, try, checked, refuse_if}

pub Safe : {A : Type 0} → (A → Type 0) → Parsed A → Type 0
Safe P (found a) = P a
Safe P absent = Unit
Safe P panicked = ⊥

pub Safe-absent : {A : Type 0} (P : A → Type 0) → Safe P absent
unfolding Safe
Safe-absent P = tt

pub Safe-intro : {A : Type 0} (P : A → Type 0) (a : A) → P a → Safe P (found a)
unfolding Safe
Safe-intro P a h = h

pub Safe-bind :
    {A B : Type 0} {P : A → Type 0} (Q : B → Type 0) (m : Parsed A) (f : A → Parsed B)
    → Safe P m
    → ((a : A) → P a → Safe Q (f a))
    → Safe Q (m >>= f)
unfolding Safe
Safe-bind Q (found a) f h k = k a h
Safe-bind Q absent f h k = tt
Safe-bind Q panicked f h k = elim h [ ]

pub Safe-try : {A : Type 0} (o : Option A) → Safe (λ a. o ≡ some a) (try o)
unfolding Safe
Safe-try (some a) = refl
Safe-try none = tt

pub Safe-any : {A : Type 0} (o : Option A) → Safe (λ _. Unit {0}) (try o)
unfolding Safe
Safe-any (some a) = tt
Safe-any none = tt

pub Safe-refuse_if : (b : Bool) → Safe (λ _. b ≡ false) (refuse_if b)
unfolding Safe
Safe-refuse_if true = tt
Safe-refuse_if false = refl

-- What a result says when the code is safe.
pub Safe-found : {A : Type 0} (P : A → Type 0) {m : Parsed A} {a : A} → Safe P m → m ≡ found a → P a
unfolding Safe
Safe-found P h e = subst (Safe P) e h

pub Safe-cases :
    {A : Type 0} (P : A → Type 0) (m : Parsed A)
    → Safe P m
    → (m ≡ absent) ⊎ ((a : A) × (m ≡ found a) × P a)
unfolding Safe
Safe-cases P (found a) h = inr (a, refl, h)
Safe-cases P absent h = inl refl
Safe-cases P panicked h = elim h [ ]

pub Safe-checked : {A : Type 0} (o : Option A) → o ≢ none → Safe (λ a. o ≡ some a) (checked o)
unfolding Safe
Safe-checked (some a) h = refl
Safe-checked none h = h refl
