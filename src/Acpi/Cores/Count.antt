-- ===== src/Acpi/Cores/Count.antt =====
-- kernel/src/acpi.rs: how many cores of a list have counted themselves in `core_checkin`.
use chocolate_milk.Base.{
  dec, ℕ, ◌+◌, ◌≤◌, ◌≡◌, ◌≢◌, arith, refl, sym, ap, ap₂, ◌∙◌, subst, Bool, true, false, Bool-cases,
  ==→≡, ==→≢, ◌==◌, inl, inr, List, [], ◌∷◌, length, Mem, Distinct,
}
use chocolate_milk.Acpi.Cores.{Pc, with_pc}

pub with_pc-same : (pcs : ℕ → Pc) (i : ℕ) (pc : Pc) → with_pc pcs i pc i ≡ pc
with_pc-same pcs i pc = elim (Bool-cases (i == i)) [
  | inl e ↦ rw e refl
  | inr n ↦ absurd (==→≢ i i n refl)
]

pub with_pc-other : (pcs : ℕ → Pc) (i j : ℕ) (pc : Pc) → j ≢ i → with_pc pcs i pc j ≡ pcs j
with_pc-other pcs i j pc other = elim (Bool-cases (j == i)) [
  | inl e ↦ absurd (other (==→≡ j i e))
  | inr n ↦ rw n refl
]

-- In the second part of `core_checkin`, behind the count.
abbrev pub has_counted : Pc → Bool
has_counted Pc.booting = false
has_counted Pc.arriving = false
has_counted Pc.counting = false
has_counted Pc.spinning = true
has_counted Pc.released = true

abbrev pub bit : Bool → ℕ
bit true = 1
bit false = 0

abbrev pub count : (ℕ → Pc) → List ℕ → ℕ
count pcs [] = 0
count pcs (x ∷ xs) = bit (has_counted (pcs x)) + count pcs xs

bit_le : (b : Bool) → bit b ≤ 1
bit_le true = omega arith
bit_le false = omega arith

pub count_le : (pcs : ℕ → Pc) (xs : List ℕ) → count pcs xs ≤ length xs
count_le pcs [] = omega arith
count_le pcs (x ∷ xs) = omega (arith, count_le pcs xs, bit_le (has_counted (pcs x)))

-- Where the count is full, every core of the list is in it.
pub count-full :
    (pcs : ℕ → Pc) (xs : List ℕ) (i : ℕ)
    → count pcs xs ≡ length xs
    → Mem i xs
    → has_counted (pcs i) ≡ true
count-full pcs [] i e h = elim h [ ]
count-full pcs (x ∷ xs) i e (inl here) =
    subst (λ (k : ℕ). has_counted (pcs k) ≡ true) here
      (elim (Bool-cases (has_counted (pcs x))) [
        | inl yes_it_has ↦ yes_it_has
        | inr not_yet ↦
            let none_here : bit (has_counted (pcs x)) ≡ 0 = ap bit not_yet in
            absurd (omega (arith, e, count_le pcs xs, none_here))
      ])
count-full pcs (x ∷ xs) i e (inr there) =
    count-full pcs xs i (omega (arith, e, count_le pcs xs, bit_le (has_counted (pcs x)))) there

pub count-same :
    (pcs : ℕ → Pc) (xs : List ℕ) (i : ℕ) (pc : Pc)
    → has_counted (pcs i) ≡ has_counted pc
    → count (with_pc pcs i pc) xs ≡ count pcs xs
count-same pcs [] i pc same = refl
count-same pcs (x ∷ xs) i pc same =
    let here : has_counted (with_pc pcs i pc x) ≡ has_counted (pcs x) = elim (dec x i) [
      | inl e ↦
          ap has_counted (ap (with_pc pcs i pc) e ∙ with_pc-same pcs i pc)
          ∙ sym same
          ∙ ap (λ (k : ℕ). has_counted (pcs k)) (sym e)
      | inr n ↦ ap has_counted (with_pc-other pcs i x pc n)
    ] in
    ap₂ (λ (b : Bool) (n : ℕ). bit b + n) here (count-same pcs xs i pc same)

count-absent :
    (pcs : ℕ → Pc) (xs : List ℕ) (i : ℕ) (pc : Pc)
    → ¬ Mem i xs
    → count (with_pc pcs i pc) xs ≡ count pcs xs
count-absent pcs [] i pc no_i = refl
count-absent pcs (x ∷ xs) i pc no_i =
    ap₂ (λ (b : Bool) (n : ℕ). bit b + n)
      (ap has_counted (with_pc-other pcs i x pc (λ e. no_i (inl e))))
      (count-absent pcs xs i pc (λ h. no_i (inr h)))

pub count-more :
    (pcs : ℕ → Pc) (xs : List ℕ) (i : ℕ) (pc : Pc)
    → Distinct xs
    → Mem i xs
    → has_counted (pcs i) ≡ false
    → has_counted pc ≡ true
    → count (with_pc pcs i pc) xs ≡ count pcs xs + 1
count-more pcs [] i pc d h before after = elim h [ ]
count-more pcs (x ∷ xs) i pc (new, d) (inl here) before after =
    let no_i : ¬ Mem i xs = λ h. new (subst (λ (k : ℕ). Mem k xs) (sym here) h) in
    let now : bit (has_counted (with_pc pcs i pc x)) ≡ 1 =
      ap bit (ap has_counted (ap (with_pc pcs i pc) here ∙ with_pc-same pcs i pc) ∙ after) in
    let old : bit (has_counted (pcs x)) ≡ 0 =
      ap bit (ap (λ (k : ℕ). has_counted (pcs k)) here ∙ before) in
    omega (arith, now, old, count-absent pcs xs i pc no_i)
count-more pcs (x ∷ xs) i pc (new, d) (inr there) before after =
    let other : x ≢ i = λ e. new (subst (λ (k : ℕ). Mem k xs) (sym e) there) in
    let same : bit (has_counted (with_pc pcs i pc x)) ≡ bit (has_counted (pcs x)) =
      ap bit (ap has_counted (with_pc-other pcs i x pc other)) in
    omega (arith, same, count-more pcs xs i pc d there before after)

pub count-all :
    (pcs : ℕ → Pc) (xs : List ℕ)
    → ((j : ℕ) → Mem j xs → has_counted (pcs j) ≡ true)
    → count pcs xs ≡ length xs
count-all pcs [] all = refl
count-all pcs (x ∷ xs) all =
    let here : bit (has_counted (pcs x)) ≡ 1 = ap bit (all x (inl refl)) in
    omega (arith, here, count-all pcs xs (λ j h. all j (inr h)))
