-- ===== src/FlattenPe/Image.antt =====
-- src/main.rs, the second closure of `flatten_pe`: bytes copied into the image are bytes stored in
-- memory.
use chocolate_milk.Base.{
  ℕ, zero, suc, ◌+◌, ◌<◌, ◌≡◌, arith, refl, ◌∙◌, inl, inr, true, false, ◌==◌, if◌then◌else◌,
  Bool-cases, some, List, [], ◌∷◌, length, set, length-set, get_elem?,
}
use chocolate_milk.PeParser.{Section}
use chocolate_milk.FlattenPe.{copy_into}

-- Bytes stored one behind the other, and the sections stored in their order.
abbrev pub store_all : (ℕ → ℕ) → ℕ → List ℕ → ℕ → ℕ
store_all m a [] = m
store_all m a (byte ∷ raw) = store_all (λ x. if x == a then byte else m x) (suc a) raw

abbrev pub loaded : (ℕ → ℕ) → List Section → ℕ → ℕ
loaded m [] = m
loaded m (sec ∷ secs) = loaded (store_all m sec.virt_addr sec.raw) secs

-- The bytes are those of the memory from `lo` on.
abbrev pub Shows : ℕ → List ℕ → (ℕ → ℕ) → Type 0
Shows lo bytes m = (i : ℕ) → i < length bytes → get_elem? bytes i ≡ some (m (lo + i))

get_elem?-set :
    (xs : List ℕ) (i j v : ℕ)
    → j < length xs
    → get_elem? (set xs i v) j ≡ (if j == i then some v else get_elem? xs j)
get_elem?-set [] i j v h = elim h [ ]
get_elem?-set (x ∷ xs) zero zero v h = ground arith
get_elem?-set (x ∷ xs) zero (suc j) v h = ground arith
get_elem?-set (x ∷ xs) (suc i) zero v h = ground arith
get_elem?-set (x ∷ xs) (suc i) (suc j) v h = get_elem?-set xs i j v (omega arith) ∙ ground arith

pub length-copy_into :
    (off : ℕ) (raw bytes : List ℕ) → length (copy_into off raw bytes) ≡ length bytes
length-copy_into off [] bytes = refl
length-copy_into off (byte ∷ raw) bytes =
    length-copy_into (suc off) raw (set bytes off byte) ∙ length-set bytes off byte

pub copy_into-Shows :
    (lo off a : ℕ) (raw bytes : List ℕ) (m : ℕ → ℕ)
    → a ≡ lo + off
    → Shows lo bytes m
    → Shows lo (copy_into off raw bytes) (store_all m a raw)
copy_into-Shows lo off a [] bytes m e shows = shows
copy_into-Shows lo off a (byte ∷ raw) bytes m e shows =
    copy_into-Shows lo (suc off) (suc a) raw (set bytes off byte)
      (λ x. if x == a then byte else m x) (omega arith)
      λ i h.
        let inside : i < length bytes = omega (arith, length-set bytes off byte) in
        get_elem?-set bytes off i byte inside ∙ (elim (Bool-cases (i == off)) [
          | inl here ↦ let same : (lo + i == a) ≡ true = ground arith in rw (here, same) refl
          | inr there ↦
              let other : (lo + i == a) ≡ false = ground arith in rw (there, other) (shows i inside)
        ])
