-- ===== src/RangeSet/Alloc/Sum.antt =====
-- shared/rangeset/src/lib.rs: `sum` of a valid set does not overflow.
use chocolate_milk.Base.{
  ℕ, zero, suc, ◌+◌, ◌-◌, ◌^◌, ◌%◌, ◌≤◌, ◌<◌, ◌≡◌, ◌∙◌, refl, ap, true, leb, arith, ltb,
  if◌then◌else◌,
}
use chocolate_milk.Base.{Bool-cases, inl, inr, some, List, [], ◌∷◌, length}
use chocolate_milk.Base.Outcome.{ok}
use chocolate_milk.RangeSet.{Range, RangeSet, u64_max}
use chocolate_milk.RangeSet.Meaning.{All, IsRange, Apart, Separated, All-weaken}
use chocolate_milk.RangeSet.Slots.{entries-Holds}
use chocolate_milk.RangeSet.Sets.{view, IsValid, Holds-of_IsValid}
use chocolate_milk.RangeSet.Alloc.{sum, sum_from}

-- The number of addresses of a list of disjoint ranges.
abbrev pub total : List Range → ℕ
total [] = 0
total (e ∷ es) = (e.end - e.start + 1) + total es

-- The entries below and above `e`.
lower : Range → List Range → List Range
lower e [] = []
lower e (d ∷ es) = if ltb d.start e.start then d ∷ lower e es else lower e es

upper : Range → List Range → List Range
upper e [] = []
upper e (d ∷ es) = if ltb d.start e.start then upper e es else d ∷ upper e es

All-lower : (P : Range → Type 0) (e : Range) (es : List Range) → All P es → All P (lower e es)
unfolding lower
All-lower P e [] a = tt
All-lower P e (d ∷ es) a = elim (Bool-cases (ltb d.start e.start)) [
  | inl low ↦ rw low (a.0, All-lower P e es a.1)
  | inr high ↦ rw high (All-lower P e es a.1)
]

All-upper : (P : Range → Type 0) (e : Range) (es : List Range) → All P es → All P (upper e es)
unfolding upper
All-upper P e [] a = tt
All-upper P e (d ∷ es) a = elim (Bool-cases (ltb d.start e.start)) [
  | inl low ↦ rw low (All-upper P e es a.1)
  | inr high ↦ rw high (a.0, All-upper P e es a.1)
]

Separated-lower : (e : Range) (es : List Range) → Separated es → Separated (lower e es)
unfolding lower
Separated-lower e [] s = tt
Separated-lower e (d ∷ es) s = elim (Bool-cases (ltb d.start e.start)) [
  | inl low ↦ rw low (All-lower (Apart d) e es s.0, Separated-lower e es s.1)
  | inr high ↦ rw high (Separated-lower e es s.1)
]

Separated-upper : (e : Range) (es : List Range) → Separated es → Separated (upper e es)
unfolding upper
Separated-upper e [] s = tt
Separated-upper e (d ∷ es) s = elim (Bool-cases (ltb d.start e.start)) [
  | inl low ↦ rw low (Separated-upper e es s.1)
  | inr high ↦ rw high (All-upper (Apart d) e es s.0, Separated-upper e es s.1)
]

total-parts :
    (e : Range) (es : List Range)
    → (total (lower e es) + total (upper e es) ≡ total es)
      × (length (lower e es) + length (upper e es) ≡ length es)
unfolding lower upper
total-parts e [] = (refl, refl)
total-parts e (d ∷ es) = ground (arith, total-parts e es)

-- The entries lie in `[lo, top - 2]`.
abbrev Between : ℕ → ℕ → Range → Type 0
Between lo top d = (lo ≤ d.start) × (d.start ≤ d.end) × (d.end + 2 ≤ top)

lower-Between :
    (lo top : ℕ) (e : Range) (es : List Range)
    → e.start ≤ e.end
    → All (Between lo top) es
    → All (Apart e) es
    → All (Between lo e.start) (lower e es)
unfolding lower
lower-Between lo top e [] p b a = tt
lower-Between lo top e (d ∷ es) p b a = elim (Bool-cases (ltb d.start e.start)) [
  | inl low ↦ rw low (ground (arith, a.0, b.0), lower-Between lo top e es p b.1 a.1)
  | inr high ↦ rw high (lower-Between lo top e es p b.1 a.1)
]

upper-Between :
    (lo top : ℕ) (e : Range) (es : List Range)
    → e.start ≤ e.end
    → All (Between lo top) es
    → All (Apart e) es
    → All (Between (e.end + 2) top) (upper e es)
unfolding upper
upper-Between lo top e [] p b a = tt
upper-Between lo top e (d ∷ es) p b a = elim (Bool-cases (ltb d.start e.start)) [
  | inl low ↦ rw low (upper-Between lo top e es p b.1 a.1)
  | inr high ↦ rw high (ground (arith, a.0, b.0), upper-Between lo top e es p b.1 a.1)
]

-- Disjoint ranges that do not touch fill less than the space that they lie in.
packed :
    (n lo top : ℕ) (es : List Range)
    → length es ≤ n
    → lo ≤ top
    → Separated es
    → All (Between lo top) es
    → total es + length es ≤ top - lo
packed n lo top [] f h s b = omega arith
packed zero lo top (e ∷ es) f h s b = elim f [ ]
packed (suc n) lo top (e ∷ es) f h s b =
    let p = total-parts e es in
    let low =
      packed n lo e.start (lower e es) (omega (arith, p.1)) b.0.0 (Separated-lower e es s.1)
        (lower-Between lo top e es b.0.1 b.1 s.0) in
    let high =
      packed n (e.end + 2) top (upper e es) (omega (arith, p.1)) b.0.2 (Separated-upper e es s.1)
        (upper-Between lo top e es b.0.1 b.1 s.0) in
    omega (arith, p.0, p.1, low, high, b.0)

-- No entry is the whole of u64.
abbrev pub NotWhole : Range → Type 0
NotWhole e = e.end - e.start < u64_max

total-lt : (es : List Range) → Separated es → All IsRange es → All NotWhole es → total es < 2 ^ 64
total-lt [] s p w = omega arith
total-lt (e ∷ []) s p w = omega (arith, w.0)
total-lt (e ∷ d ∷ es) s p w =
    let all =
      packed (length (e ∷ d ∷ es)) 0 (2 ^ 64 + 1) (e ∷ d ∷ es) (omega arith) (omega arith) s
        (All-weaken (λ c q. omega arith) (e ∷ d ∷ es) p) in
    omega arith

sum_from-total :
    (acc : ℕ) (es : List Range)
    → All IsRange es
    → All NotWhole es
    → acc + total es < 2 ^ 64
    → sum_from acc es ≡ some (acc + total es)
unfolding sum_from
sum_from-total acc [] p w h = ground arith
sum_from-total acc (e ∷ es) p w h =
    let size : (e.end + 2 ^ 64 - e.start) % 2 ^ 64 ≡ e.end - e.start = omega (arith, p.0) in
    let next : (acc + (e.end - e.start + 1)) % 2 ^ 64 ≡ acc + (e.end - e.start + 1) = omega arith in
    let small : leb (e.end - e.start + 1) u64_max ≡ true = ground (arith, w.0) in
    let ih = sum_from-total (acc + (e.end - e.start + 1)) es p.1 w.1 (omega arith) in
    let step : sum_from acc (e ∷ es) ≡ sum_from (acc + (e.end - e.start + 1)) es =
      rw (size, small, next, sum_from) refl in
    step ∙ ih ∙ ap some (omega arith)

-- In a valid set none of whose entries is the whole of u64, `sum` counts the addresses of the
-- entries, and the sum does not wrap.
pub sum-total :
    (s : RangeSet)
    → IsValid s
    → All NotWhole (view s)
    → (sum s ≡ ok (some (total (view s)))) × (total (view s) < 2 ^ 64)
unfolding sum
sum-total s v w =
    let small = total-lt (view s) v.canonical.separated v.canonical.shape w in
    let runs = sum_from-total 0 (view s) v.canonical.shape w (omega arith) in
    (
      rw (entries-Holds (Holds-of_IsValid v), runs) (ap (λ (n : ℕ). ok (some n)) (omega arith)),
      small,
    )
