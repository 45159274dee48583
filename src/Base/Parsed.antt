-- ===== src/Base/Parsed.antt =====
-- The result of code that returns an `Option` and may panic: `some`, `None`, or a panic.
use Prim.Native.Nat.{ℕ}
use mathlib.Core.Bool.{Bool, true, false}
use mathlib.Core.Option.{Option, none, some}
use mathlib.Core.List.{List}
use chocolate_milk.Base.Lists.{get_elem?}

pub data Parsed {ℓ} (A : Type ℓ) : Type ℓ where
  found : A → Parsed A
  absent : Parsed A
  panicked : Parsed A

infixl 5 ◌>>=◌ ◌>>◌
abbrev pub ◌>>=◌ {ℓ κ} : {A : Type ℓ} {B : Type κ} → Parsed A → (A → Parsed B) → Parsed B
found a >>= f = f a
absent >>= f = absent
panicked >>= f = panicked

abbrev pub ◌>>◌ {ℓ} : {B : Type ℓ} → Parsed (Unit {0}) → Parsed B → Parsed B
m >> k = m >>= λ _. k

-- `o?`
abbrev pub try {ℓ} : {A : Type ℓ} → Option A → Parsed A
try (some a) = found a
try none = absent

-- An index or a slice that panics out of range.
abbrev pub checked {ℓ} : {A : Type ℓ} → Option A → Parsed A
checked (some a) = found a
checked none = panicked

abbrev pub index {ℓ} : {A : Type ℓ} → List A → ℕ → Parsed A
index xs i = checked (get_elem? xs i)

-- `if b { return None; }`
abbrev pub refuse_if : Bool → Parsed (Unit {0})
refuse_if true = absent
refuse_if false = found tt
