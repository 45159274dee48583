-- ===== src/Base/Bytes.antt =====
-- Slices of bytes, and integers of 16, 32 and 64 bits in both byte orders.
use Prim.Native.Nat.{ℕ, zero, suc, ◌+◌, ◌-◌, ◌*◌, ◌/◌, ◌%◌, ◌^◌, ◌<◌, ◌≤◌}
use mathlib.Core.Path.{◌≡◌, refl, ap, sym, ◌∙◌}
use mathlib.Core.Option.{Option, none, some}
use mathlib.Core.List.{List, [], ◌∷◌, ◌++◌}
use native.Mathlib.Omega.{arith}
use mathlib.Core.Logic.{inl, inr}
use mathlib.Core.Bool.{Bool, true, false, ◌&&◌}
use chocolate_milk.Base.Tests.{Option-cases, ◌==◌}
use chocolate_milk.Base.Lists.{length}

-- `==` on slices of bytes.
abbrev pub same_bytes : List ℕ → List ℕ → Bool
same_bytes [] [] = true
same_bytes (x ∷ xs) (y ∷ ys) = (x == y) && same_bytes xs ys
same_bytes _ _ = false

abbrev pub cons? {ℓ} : {A : Type ℓ} → A → Option (List A) → Option (List A)
cons? x none = none
cons? x (some xs) = some (x ∷ xs)

-- `xs.get(..n)` and `xs.get(n..)`: `none` past the end.
abbrev pub take? {ℓ} : {A : Type ℓ} → ℕ → List A → Option (List A)
take? zero xs = some []
take? (suc n) [] = none
take? (suc n) (x ∷ xs) = cons? x (take? n xs)

abbrev pub drop? {ℓ} : {A : Type ℓ} → ℕ → List A → Option (List A)
drop? zero xs = some xs
drop? (suc n) [] = none
drop? (suc n) (x ∷ xs) = drop? n xs

abbrev pub take_of {ℓ} : {A : Type ℓ} → ℕ → Option (List A) → Option (List A)
take_of n none = none
take_of n (some xs) = take? n xs

-- `xs.get(a..b)`, where a ≤ b in every use.
abbrev pub slice {ℓ} : {A : Type ℓ} → ℕ → ℕ → List A → Option (List A)
slice a b xs = take_of (b - a) (drop? a xs)

abbrev pub IsByte : ℕ → Type 0
IsByte b = b < 256

abbrev pub IsBytes : List ℕ → Type 0
IsBytes [] = Unit
IsBytes (b ∷ bs) = IsByte b × IsBytes bs

-- `uN::to_be_bytes` and `uN::to_le_bytes`.
abbrev pub to_be_16 : ℕ → List ℕ
to_be_16 x = x / 2 ^ 8 % 256 ∷ x % 256 ∷ []

abbrev pub to_be_32 : ℕ → List ℕ
to_be_32 x = x / 2 ^ 24 % 256 ∷ x / 2 ^ 16 % 256 ∷ x / 2 ^ 8 % 256 ∷ x % 256 ∷ []

abbrev pub to_le_32 : ℕ → List ℕ
to_le_32 x = x % 256 ∷ x / 2 ^ 8 % 256 ∷ x / 2 ^ 16 % 256 ∷ x / 2 ^ 24 % 256 ∷ []

-- `uN::from_be_bytes(bytes.try_into().ok()?)` and the like: `none` at another length.
abbrev pub from_be_16 : List ℕ → Option ℕ
from_be_16 (a ∷ b ∷ []) = some (a * 2 ^ 8 + b)
from_be_16 _ = none

abbrev pub from_le_16 : List ℕ → Option ℕ
from_le_16 (a ∷ b ∷ []) = some (a + b * 2 ^ 8)
from_le_16 _ = none

abbrev pub from_be_32 : List ℕ → Option ℕ
from_be_32 (a ∷ b ∷ c ∷ d ∷ []) = some (a * 2 ^ 24 + b * 2 ^ 16 + c * 2 ^ 8 + d)
from_be_32 _ = none

abbrev pub from_le_32 : List ℕ → Option ℕ
from_le_32 (a ∷ b ∷ c ∷ d ∷ []) = some (a + b * 2 ^ 8 + c * 2 ^ 16 + d * 2 ^ 24)
from_le_32 _ = none

abbrev pub from_le_64 : List ℕ → Option ℕ
from_le_64 (a ∷ b ∷ c ∷ d ∷ e ∷ f ∷ g ∷ h ∷ []) =
    some
      (a + b * 2 ^ 8 + c * 2 ^ 16 + d * 2 ^ 24 + e * 2 ^ 32 + f * 2 ^ 40 + g * 2 ^ 48 + h * 2 ^ 56)
from_le_64 _ = none

-- `uN::from_be_bytes(x.to_be_bytes())`.
pub from_be_16-to_be : (x : ℕ) → x < 2 ^ 16 → from_be_16 (to_be_16 x) ≡ some x
from_be_16-to_be x h = ap some (omega arith)

pub from_be_32-to_be : (x : ℕ) → x < 2 ^ 32 → from_be_32 (to_be_32 x) ≡ some x
from_be_32-to_be x h = ap some (omega arith)

pub from_le_32-to_le : (x : ℕ) → x < 2 ^ 32 → from_le_32 (to_le_32 x) ≡ some x
from_le_32-to_le x h = ap some (omega arith)

module _ {ℓ} {A : Type ℓ} where
  pub take?-append : (xs ys : List A) → take? (length xs) (xs ++ ys) ≡ some xs
  take?-append [] ys = refl
  take?-append (x ∷ xs) ys = ap (cons? x) (take?-append xs ys)

  pub drop?-append : (xs ys : List A) → drop? (length xs) (xs ++ ys) ≡ some ys
  drop?-append [] ys = refl
  drop?-append (x ∷ xs) ys = drop?-append xs ys

  pub take?_fits :
      (n : ℕ) (xs : List A)
      → n ≤ length xs
      → (ys : List A) × (take? n xs ≡ some ys) × (length ys ≡ n)
  take?_fits zero xs h = ([], refl, refl)
  take?_fits (suc n) [] h = elim h [ ]
  take?_fits (suc n) (x ∷ xs) h =
      let (ys, e, l) = take?_fits n xs (omega arith) in (x ∷ ys, ap (cons? x) e, ap suc l)

  pub drop?_fits :
      (n : ℕ) (xs : List A)
      → n ≤ length xs
      → (ys : List A) × (drop? n xs ≡ some ys) × (n + length ys ≡ length xs)
  drop?_fits zero xs h = (xs, refl, omega arith)
  drop?_fits (suc n) [] h = elim h [ ]
  drop?_fits (suc n) (x ∷ xs) h =
      let (ys, e, l) = drop?_fits n xs (omega arith) in (ys, e, omega arith)

  pub take?_all : (xs : List A) → take? (length xs) xs ≡ some xs
  take?_all [] = refl
  take?_all (x ∷ xs) = ap (cons? x) (take?_all xs)

  pub take?_over :
      (n m : ℕ) (xs ys : List A) {zs : List A}
      → n ≡ length xs + m
      → take? m ys ≡ some zs
      → take? n (xs ++ ys) ≡ some (xs ++ zs)
  take?_over n m [] ys h e = let same : n ≡ m = omega arith in rw same e
  take?_over zero m (x ∷ xs) ys h e = absurd (omega arith)
  take?_over (suc n) m (x ∷ xs) ys h e = ap (cons? x) (take?_over n m xs ys (omega arith) e)

  pub take?-some : (n : ℕ) (xs : List A) {ys : List A} → take? n xs ≡ some ys → n ≤ length xs
  take?-some zero xs e = omega arith
  take?-some (suc n) [] e = ground arith
  take?-some (suc n) (x ∷ xs) e = elim (Option-cases (take? n xs)) [
    | inl z ↦ absurd (ground (arith, z))
    | inr (zs, z) ↦ omega (arith, take?-some n xs z)
  ]

  size_of : Option (List A) → ℕ
  size_of none = 0
  size_of (some xs) = length xs

  pub length-take? : (n : ℕ) (xs : List A) {ys : List A} → take? n xs ≡ some ys → length ys ≡ n
  unfolding size_of
  length-take? n xs e =
      let (ys', e', size) = take?_fits n xs (take?-some n xs e) in ap size_of (sym e ∙ e') ∙ size

  pub length-slice :
      (a b : ℕ) (xs : List A) {ys : List A} → slice a b xs ≡ some ys → length ys ≡ b - a
  length-slice a b xs e = elim (Option-cases (drop? a xs)) [
    | inl d ↦ absurd (ground (arith, d))
    | inr (rest, d) ↦ length-take? (b - a) rest (ap (take_of (b - a)) (sym d) ∙ e)
  ]
