-- ===== src/RangeSet/Meaning.antt =====
-- shared/rangeset/src/lib.rs: what a list of ranges stands for, and when it is canonical.
use chocolate_milk.Base.{ℕ, ◌+◌, ◌≤◌, ◌<◌, ◌≡◌, ◌⊎◌, ◌↔◌, inl, inr, arith, true, false}
use chocolate_milk.Base.{is_none, List, [], ◌∷◌, ◌++◌}
use chocolate_milk.RangeSet.{Range, u64_max, overlaps, contains, extended}

-- The addresses of a range and of a list of ranges.
abbrev pub In : Range → ℕ → Type 0
In r x = (r.start ≤ x) × (x ≤ r.end)

abbrev pub Covers : List Range → ℕ → Type 0
Covers [] x = ⊥
Covers (e ∷ es) x = In e x ⊎ Covers es x

abbrev pub IsRange : Range → Type 0
IsRange r = (r.start ≤ r.end) × (r.end ≤ u64_max)

-- Neither overlapping nor touching.
abbrev pub Apart : Range → Range → Type 0
Apart a b = (a.end + 1 < b.start) ⊎ (b.end + 1 < a.start)

abbrev pub Disjoint : Range → Range → Type 0
Disjoint a b = (a.end < b.start) ⊎ (b.end < a.start)

abbrev pub All : (Range → Type 0) → List Range → Type 0
All P [] = Unit
All P (e ∷ es) = P e × All P es

abbrev pub Separated : List Range → Type 0
Separated [] = Unit
Separated (e ∷ es) = All (Apart e) es × Separated es

-- Ranges of u64 addresses, none overlapping or touching another.
pub record IsCanonical (es : List Range) : Type 0 where
  pub shape : All IsRange es
  pub separated : Separated es

pub All-append : (P : Range → Type 0) (xs ys : List Range) → All P xs → All P ys → All P (xs ++ ys)
All-append P [] ys p q = q
All-append P (x ∷ xs) ys p q = (p.0, All-append P xs ys p.1 q)

pub All-weaken :
    {P Q : Range → Type 0} → ((e : Range) → P e → Q e) → (es : List Range) → All P es → All Q es
All-weaken f [] a = tt
All-weaken f (e ∷ es) a = (f e a.0, All-weaken f es a.1)

pub Separated-snoc :
    (es : List Range) (r : Range) → Separated es → All (Apart r) es → Separated (es ++ r ∷ [])
Separated-snoc [] r s a = (tt, tt)
Separated-snoc (e ∷ es) r s a =
    (All-append (Apart e) es (r ∷ []) s.0 (ground (arith, a.0), tt), Separated-snoc es r s.1 a.1)

pub Covers-append : (xs ys : List Range) (x : ℕ) → Covers (xs ++ ys) x ↔ (Covers xs x ⊎ Covers ys x)
Covers-append [] ys x = (λ c. inr c, λ c. elim c [ inl h ↦ absurd h | inr h ↦ h ])
Covers-append (e ∷ xs) ys x =
    let ih = Covers-append xs ys x in
    (
      λ c. elim c [
        | inl h ↦ inl (inl h)
        | inr h ↦ elim (ih.0 h) [ inl a ↦ inl (inr a) | inr b ↦ inr b ]
      ],
      λ c. elim c [
        | inl h ↦ elim h [ inl a ↦ inl a | inr b ↦ inr (ih.1 (inl b)) ]
        | inr h ↦ inr (ih.1 (inr h))
      ],
    )

-- The test of `insert` finds exactly the ranges that overlap or touch.
pub Apart-of-test :
    (r e : Range)
    → IsRange r
    → IsRange e
    → is_none (overlaps (extended r) (extended e)) ≡ true
    → Apart r e
unfolding overlaps
Apart-of-test r e p q t = ground arith

pub near-of-test :
    (r e : Range)
    → IsRange r
    → IsRange e
    → is_none (overlaps (extended r) (extended e)) ≡ false
    → (r.start ≤ e.end + 1) × (e.start ≤ r.end + 1)
unfolding overlaps
near-of-test r e p q t = ground arith

-- The test of `remove` finds exactly the ranges that overlap.
pub Disjoint-of-test :
    (r e : Range) → IsRange r → IsRange e → is_none (overlaps r e) ≡ true → Disjoint r e
unfolding overlaps
Disjoint-of-test r e p q t = ground arith

pub meet-of-test :
    (r e : Range)
    → IsRange r
    → IsRange e
    → is_none (overlaps r e) ≡ false
    → (r.start ≤ e.end) × (e.start ≤ r.end)
unfolding overlaps
meet-of-test r e p q t = ground arith

pub test-of-Disjoint :
    (r e : Range) → IsRange r → IsRange e → Disjoint r e → is_none (overlaps r e) ≡ true
unfolding overlaps
test-of-Disjoint r e p q t = ground arith

pub contains-true :
    (a b : Range)
    → IsRange a
    → IsRange b
    → contains a b ≡ true
    → (b.start ≤ a.start) × (a.end ≤ b.end)
unfolding contains
contains-true a b p q t = ground arith

pub contains-false :
    (a b : Range)
    → IsRange a
    → IsRange b
    → contains a b ≡ false
    → (a.start < b.start) ⊎ (b.end < a.end)
unfolding contains
contains-false a b p q t = ground arith

pub tests_of_inner :
    (r e : Range)
    → IsRange r
    → (e.start < r.start) × (r.end < e.end)
    → (is_none (overlaps r e) ≡ false) × (contains e r ≡ false)
unfolding overlaps contains
tests_of_inner r e p i = (ground arith, ground arith)
