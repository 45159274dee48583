-- ===== src/RangeSet/Pick.antt =====
-- shared/rangeset/src/lib.rs: a list of ranges without one of its entries.
use chocolate_milk.Base.{ℕ, ◌+◌, ◌≡◌, ◌⊎◌, ◌↔◌, inl, inr, arith, List, ◌∷◌, length}
use chocolate_milk.RangeSet.{Range}
use chocolate_milk.RangeSet.Meaning.{In, Covers, All, Apart, Separated}

-- `Pick es e es'`: `es'` is `es` without its entry `e`.
pub data Pick : List Range → Range → List Range → Type 0 where
  here : {e : Range} {es : List Range} → Pick (e ∷ es) e es
  there : {x e : Range} {es es' : List Range} → Pick es e es' → Pick (x ∷ es) e (x ∷ es')

pub length-Pick : {e : Range} {es es' : List Range} → Pick es e es' → length es ≡ length es' + 1
length-Pick here = omega arith
length-Pick (there p) = omega (arith, length-Pick p)

pub All-Pick :
    (P : Range → Type 0) {e : Range} {es es' : List Range}
    → Pick es e es'
    → All P es
    → P e × All P es'
All-Pick P here a = a
All-Pick P (there p) a = let ih = All-Pick P p a.1 in (ih.0, (a.0, ih.1))

pub Covers-Pick :
    (x : ℕ) {e : Range} {es es' : List Range}
    → Pick es e es'
    → Covers es x ↔ (In e x ⊎ Covers es' x)
Covers-Pick x here = (λ c. c, λ c. c)
Covers-Pick x (there p) =
    let ih = Covers-Pick x p in
    (
      λ c. elim c [
        | inl a ↦ inr (inl a)
        | inr b ↦ elim (ih.0 b) [ inl a ↦ inl a | inr d ↦ inr (inr d) ]
      ],
      λ c. elim c [
        | inl a ↦ inr (ih.1 (inl a))
        | inr b ↦ elim b [ inl a ↦ inl a | inr d ↦ inr (ih.1 (inr d)) ]
      ],
    )

pub Separated-Pick :
    {e : Range} {es es' : List Range} → Pick es e es' → Separated es → Separated es'
Separated-Pick here s = s.1
Separated-Pick (there {x} p) s = ((All-Pick (Apart x) p s.0).1, Separated-Pick p s.1)
