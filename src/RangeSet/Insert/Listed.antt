-- ===== src/RangeSet/Insert/Listed.antt =====
-- shared/rangeset/src/lib.rs: the loops of `insert` over the list of entries that the slots hold.
use mathlib.Core.Option
use chocolate_milk.Base.{ℕ, zero, suc, ◌<◌, ◌≡◌, refl, ◌∙◌, arith, inl, inr}
use chocolate_milk.Base.{Bool-cases, if◌then◌else◌, is_none, Option, none, some, subst, false}
use chocolate_milk.Base.{List, [], ◌∷◌, ◌++◌, length, append_assoc}
use chocolate_milk.Base.Outcome.{Outcome, ok}
use chocolate_milk.RangeSet.{Range, RangeSet, overlaps, extended, merged, merge_pass, try_merges}
use chocolate_milk.RangeSet.Meaning.{All, IsRange, Apart, Apart-of-test}
use chocolate_milk.RangeSet.Pick.{Pick, here, there, length-Pick}
use chocolate_milk.RangeSet.Slots.{Holds, index-Holds, delete-Holds, length-snoc, Holds-snoc}

abbrev keep : Range → Range × List Range → Range × List Range
keep e (r, es) = (r, e ∷ es)

-- The first entry that overlaps or touches is merged into the range and left out.
pub merge_first : Range → List Range → Option (Range × List Range)
merge_first r [] = none
merge_first r (e ∷ es) =
    if is_none (overlaps (extended r) (extended e))
    then Option.map (keep e) (merge_first r es)
    else some (merged r e, es)

unfoldable pub merge_all : ℕ → Range → List Range → Range × List Range
unfolding merge_first
merge_all zero r es = (r, es)
merge_all (suc n) r es = elim (merge_first r es) [
  | none ↦ (r, es)
  | some (r', es') ↦ merge_all n r' es'
]

-- A run of the array loop does what `merge_first` does behind the entries `pre`.
abbrev Ran : List Range → Option (Range × List Range) → Outcome (Option (Range × RangeSet)) → Type 0
Ran pre none o = o ≡ ok none
Ran pre (some (r', es')) o = (s' : RangeSet) × (o ≡ ok (some (r', s'))) × Holds s' (pre ++ es')

Ran-cons :
    (pre : List Range) (e : Range) (m : Option (Range × List Range))
    (o : Outcome (Option (Range × RangeSet)))
    → Ran (pre ++ e ∷ []) m o
    → Ran pre (Option.map (keep e) m) o
Ran-cons pre e none o h = h
Ran-cons pre e (some (r', es')) o h = (h.0, h.1, rw (append_assoc pre (e ∷ []) es') at h.2)

merge_pass-Ran :
    (es pre : List Range) (s : RangeSet) (r : Range)
    → Holds s (pre ++ es)
    → Ran pre (merge_first r es) (merge_pass (length es) (length pre) s r)
unfolding merge_first merge_pass
merge_pass-Ran [] pre s r h = refl
merge_pass-Ran (e ∷ es) pre s r h =
    elim (Bool-cases (is_none (overlaps (extended r) (extended e)))) [
      | inl far ↦
          rw (index-Holds pre e es h, far, ← length-snoc pre e)
            (Ran-cons pre e (merge_first r es) _
              (merge_pass-Ran es (pre ++ e ∷ []) s r (Holds-snoc pre e es h)))
      | inr near ↦
          let d = delete-Holds pre e es h in rw (index-Holds pre e es h, near) (d.0, rw d.1, d.2)
    ]

-- `e` is the entry that was merged into `r`.
abbrev pub Found : Range → List Range → Range → List Range → Type 0
Found r es r' es' =
    (e : Range) × Pick es e es'
    × (r' ≡ merged r e)
    × (is_none (overlaps (extended r) (extended e)) ≡ false)

Found-cons :
    (r e : Range) (es : List Range) (m : Option (Range × List Range)) {r' : Range}
    {es' : List Range}
    → ((r1 : Range) (es1 : List Range) → m ≡ some (r1, es1) → Found r es r1 es1)
    → Option.map (keep e) m ≡ some (r', es')
    → Found r (e ∷ es) r' es'
Found-cons r e es none ih w = cc
Found-cons r e es (some (r1, es1)) {r'} {es'} ih w =
    let f = ih r1 es1 refl in
    let tail : e ∷ es1 ≡ es' = cc in
    let same : r' ≡ r1 = cc in (f.0, subst (Pick (e ∷ es) f.0) tail (there f.1), same ∙ f.2, f.3)

-- What `merge_first` finds.
pub merge_first_lem :
    (r : Range) (es : List Range) {r' : Range} {es' : List Range}
    → merge_first r es ≡ some (r', es')
    → Found r es r' es'
unfolding merge_first
merge_first_lem r [] h = cc
merge_first_lem r (e ∷ es) {r'} {es'} h =
    elim (Bool-cases (is_none (overlaps (extended r) (extended e)))) [
      | inl far ↦
          Found-cons r e es (merge_first r es) (λ r1 es1 q. merge_first_lem r es q) (rw far at h)
      | inr near ↦
          let found : Option (Range × List Range) = some (merged r e, es) in
          let h' : found ≡ some (r', es') = rw near at h in
          let tail : es ≡ es' = cc in
          let same : r' ≡ merged r e = cc in (e, subst (Pick (e ∷ es) e) tail here, same, near)
    ]

-- Without a find every entry is out of the range's reach.
pub merge_first-none :
    (r : Range) (es : List Range)
    → IsRange r
    → All IsRange es
    → merge_first r es ≡ none
    → All (Apart r) es
unfolding merge_first
merge_first-none r [] p a h = tt
merge_first-none r (e ∷ es) p a h =
    elim (Bool-cases (is_none (overlaps (extended r) (extended e)))) [
      | inl far ↦ (
        Apart-of-test r e p a.0 far,
        merge_first-none r es p a.1 (none-of-map (merge_first r es) (rw far at h)),
      )
      | inr near ↦
          let found : Option (Range × List Range) = some (merged r e, es) in
          let h' : found ≡ none = rw near at h in cc
    ]
  where
    none-of-map : (m : Option (Range × List Range)) → Option.map (keep e) m ≡ none → m ≡ none
    none-of-map none q = refl
    none-of-map (some x) q = cc

-- What `try_merges` returns when the fuel is enough.
abbrev pub Merged : ℕ → RangeSet → List Range → Range → Type 0
Merged fuel s es r =
    (s' : RangeSet) × (try_merges fuel s r ≡ ok ((merge_all fuel r es).0, s'))
    × Holds s' (merge_all fuel r es).1

after_pass :
    (fuel : ℕ) (s : RangeSet) (es : List Range) (r : Range) (m : Option (Range × List Range))
    → ((s' : RangeSet) (es' : List Range) (r' : Range)
        → Holds s' es'
        → length es' < fuel
        → Merged fuel s' es' r')
    → Holds s es
    → length es < suc fuel
    → merge_first r es ≡ m
    → Ran [] m (merge_pass s.in_use 0 s r)
    → Merged (suc fuel) s es r
unfolding try_merges merge_all
after_pass fuel s es r none ih h f q ran = rw (ran, q, merge_all) (s, refl, h)
after_pass fuel s es r (some (r', es')) ih h f q (s', e, h') =
    rw (e, q, merge_all) (ih s' es' r' h' (omega (arith, length-Pick (merge_first_lem r es q).1)))

pub try_merges-Holds :
    (fuel : ℕ) (s : RangeSet) (es : List Range) (r : Range)
    → Holds s es
    → length es < fuel
    → Merged fuel s es r
try_merges-Holds zero s es r h f = elim f [ ]
try_merges-Holds (suc fuel) s es r h f =
    after_pass fuel s es r (merge_first r es) (try_merges-Holds fuel) h f refl
      (simp h.counted (merge_pass-Ran es [] s r h))
