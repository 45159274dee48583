-- ===== src/Base/Returns.antt =====
-- Total correctness of code that may panic: what it returns has a property, where it panics `F`
-- holds, and it never runs out of fuel.
use mathlib.Core.Path.{◌≡◌, refl, subst}
use mathlib.Core.Bool.{Bool, true, false}
use chocolate_milk.Base.Outcome.{Outcome, ok, panic, out_of_fuel, assert, ◌>>=◌}

unfoldable pub Returns : {A : Type 0} → Type 0 → (A → Type 0) → Outcome A → Type 0
Returns F P (ok a) = P a
Returns F P panic = F
Returns F P out_of_fuel = ⊥

pub Returns-ok : {A : Type 0} (F : Type 0) (P : A → Type 0) (a : A) → P a → Returns F P (ok a)
unfolding Returns
Returns-ok F P a h = h

pub Returns-panic : {A : Type 0} (F : Type 0) (P : A → Type 0) → F → Returns F P panic
unfolding Returns
Returns-panic F P h = h

pub Returns-bind :
    {A B : Type 0} (F : Type 0) {P : A → Type 0} (Q : B → Type 0) (m : Outcome A)
    (f : A → Outcome B)
    → Returns F P m
    → ((a : A) → P a → Returns F Q (f a))
    → Returns F Q (m >>= f)
unfolding Returns
Returns-bind F Q (ok a) f h k = k a h
Returns-bind F Q panic f h k = h
Returns-bind F Q out_of_fuel f h k = elim h [ ]

pub Returns-found :
    {A : Type 0} (F : Type 0) (P : A → Type 0) {m : Outcome A} {a : A}
    → Returns F P m
    → m ≡ ok a
    → P a
unfolding Returns
Returns-found F P h e = subst (Returns F P) e h

-- Code that cannot panic gives a result.
pub Returns-result :
    {A : Type 0} (P : A → Type 0) (m : Outcome A) → Returns ⊥ P m → (a : A) × (m ≡ ok a) × P a
unfolding Returns
Returns-result P (ok a) h = (a, refl, h)
Returns-result P panic h = elim h [ ]
Returns-result P out_of_fuel h = elim h [ ]

-- What ran in front of a result.
pub bind-ok :
    {A B : Type 0} (m : Outcome A) (f : A → Outcome B) (b : B)
    → (m >>= f) ≡ ok b
    → (a : A) × (m ≡ ok a) × (f a ≡ ok b)
bind-ok (ok a) f b e = (a, refl, e)
bind-ok panic f b e = cc
bind-ok out_of_fuel f b e = cc

pub assert-ok : (b : Bool) → assert b ≡ ok tt → b ≡ true
assert-ok true e = refl
assert-ok false e = cc

pub ok-injective : {A : Type 0} {a b : A} → Outcome.ok a ≡ ok b → a ≡ b
ok-injective e = cc
