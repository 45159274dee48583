-- ===== src/RangeSet/Remove.antt =====
-- shared/rangeset/src/lib.rs: what `remove` and `subtract` do to the set of addresses.
pub mod Run
pub mod Trim
use chocolate_milk.Base.{
  ℕ, zero, suc, ◌+◌, ◌≤◌, ◌<◌, ◌≡◌, ◌⊎◌, ◌↔◌, inl, inr, refl, ◌∙◌, arith, true, leb,
}
use chocolate_milk.Base.{List, [], ◌∷◌, ◌++◌, length, length-append, subst}
use chocolate_milk.Base.Outcome.{Outcome, ok, panic}
use chocolate_milk.RangeSet.{Range, RangeSet, remove, remove_pass, try_subtractions, restart}
use chocolate_milk.RangeSet.Meaning.{In, Covers, All, IsRange, Disjoint, IsCanonical}
use chocolate_milk.RangeSet.Slots.{Holds, Holds-length}
use Run.{Sweep, done, again, split, sweep, Ran, remove_pass-Ran}
use Trim.{result, Out, NotInside, Inside, Trimmed, sweep-Trimmed, sweep_clear, sweep-Inside}

-- A split needs a free slot.
abbrev pub Room : Range → List Range → Type 0
Room r es = (length es < 256) ⊎ All (NotInside r) es

-- `o` is a set without the addresses of `r`.
pub record Removes (es : List Range) (r : Range) (o : Outcome RangeSet) : Type 0 where
  pub set : RangeSet
  pub left : List Range
  pub returns : o ≡ ok set
  pub holds : Holds set left
  pub canonical : IsCanonical left
  pub covers : (x : ℕ) → Covers left x ↔ (Covers es x × Out r x)
  pub grows : length left ≤ length es + 1

Out-of_clear : (r : Range) (es : List Range) → All (Disjoint r) es → (x : ℕ) → Covers es x → Out r x
Out-of_clear r [] d x c = absurd c
Out-of_clear r (e ∷ es) d x c = elim c [
  | inl i ↦ ground (arith, d.0)
  | inr k ↦ Out-of_clear r es d.1 x k
]

first_pass :
    (r : Range) (s : RangeSet) (es : List Range)
    → Holds s es
    → Ran [] (sweep r es) (remove_pass s.in_use 0 s r)
first_pass r s es h = simp h.counted (remove_pass-Ran r es [] s h)

module _ (r : Range) (p : IsRange r) where
  loop-clear :
      (fuel : ℕ) (s : RangeSet) (es : List Range)
      → Holds s es
      → All IsRange es
      → All (Disjoint r) es
      → (s' : RangeSet) × (try_subtractions (suc fuel) s r ≡ ok s') × Holds s' es
  unfolding try_subtractions
  loop-clear fuel s es h a d =
      let ran : Ran [] (done es) (remove_pass s.in_use 0 s r) =
        subst (λ w. Ran [] w (remove_pass s.in_use 0 s r)) (sweep_clear r es p a d)
          (first_pass r s es h) in
      (ran.0, rw (ran.1) refl, ran.2)

  -- After a split one more run finds nothing to do.
  split-Removes :
      (fuel : ℕ) (s s' : RangeSet) (es out : List Range) (b : Range)
      → length es < suc fuel
      → Trimmed r es (split out b)
      → remove_pass s.in_use 0 s r ≡ ok (restart s')
      → Holds s' (out ++ b ∷ [])
      → Removes es r (try_subtractions (suc fuel) s r)
  unfolding try_subtractions
  split-Removes zero s s' es out b f t ran h = absurd (omega (arith, t.ends.3))
  split-Removes (suc fuel) s s' es out b f t ran h =
      let l = loop-clear fuel s' (out ++ b ∷ []) h t.shape t.ends.0 in
      record {
        set = l.0;
        left = out ++ b ∷ [];
        returns = rw ran l.1;
        holds = l.2;
        canonical = record { shape = t.shape; separated = t.separated };
        covers = λ x. (
          λ c. let o = Out-of_clear r (out ++ b ∷ []) t.ends.0 x c in ((t.same x o).0 c, o),
          λ c. (t.same x c.1).1 c.0,
        );
        grows = omega (arith, t.ends.1, length-append out (b ∷ []));
      }

  module _ (fuel : ℕ) (s : RangeSet) (es : List Range) (f : length es < suc fuel)
      (ih : (s' : RangeSet) (es' : List Range)
        → Holds s' es'
        → IsCanonical es'
        → Room r es'
        → length es' < fuel
        → Removes es' r (try_subtractions fuel s' r)) where
    after_pass :
        (w : Sweep)
        → Trimmed r es w
        → Ran [] w (remove_pass s.in_use 0 s r)
        → Room r es
        → Removes es r (try_subtractions (suc fuel) s r)
    unfolding try_subtractions
    after_pass (done out) t ran room = record {
      set = ran.0;
      left = out;
      returns = rw ran.1;
      holds = ran.2;
      canonical = record { shape = t.shape; separated = t.separated };
      covers = λ x. (
        λ c. let o = Out-of_clear r out t.ends.0 x c in ((t.same x o).0 c, o),
        λ c. (t.same x c.1).1 c.0,
      );
      grows = omega (arith, t.ends.1);
    }
    after_pass (again out) t ran room =
        let left =
          ih ran.0 out ran.2 (record { shape = t.shape; separated = t.separated })
            (elim room [ inl lt ↦ inl (omega (arith, t.ends)) | inr a ↦ inr (t.whole a) ])
            (omega (arith, t.ends)) in
        record {
          set = left.set;
          left = left.left;
          returns = rw ran.1 left.returns;
          holds = left.holds;
          canonical = left.canonical;
          covers = λ x. (
            λ c. let d = (left.covers x).0 c in ((t.same x d.1).0 d.0, d.1),
            λ c. (left.covers x).1 ((t.same x c.1).1 c.0, c.1),
          );
          grows = omega (arith, t.ends, left.grows);
        }
    after_pass (split out b) t ran room = elim room [
      | inl lt ↦
          let n = ran.0 (omega (arith, t.ends.1)) in split-Removes fuel s n.0 es out b f t n.1 n.2
      | inr a ↦ absurd (t.ends.2 a)
    ]

  loop-Removes :
      (fuel : ℕ) (s : RangeSet) (es : List Range)
      → Holds s es
      → IsCanonical es
      → Room r es
      → length es < fuel
      → Removes es r (try_subtractions fuel s r)
  loop-Removes zero s es h c room f = elim f [ ]
  loop-Removes (suc fuel) s es h c room f =
      after_pass fuel s es f (loop-Removes fuel) (sweep r es) (sweep-Trimmed r es p c)
        (first_pass r s es h) room

-- Removing a range succeeds where a free slot is left or no entry has to be split, and leaves a
-- canonical set of exactly the addresses outside the range.
pub remove-Removes :
    (s : RangeSet) (es : List Range) (r : Range)
    → Holds s es
    → IsCanonical es
    → IsRange r
    → Room r es
    → Removes es r (remove s r)
unfolding remove
remove-Removes s es r h c p room =
    let ordered : leb r.start r.end ≡ true = ground arith in
    rw ordered (loop-Removes r p (s.in_use + 1) s es h c room (omega (arith, h.counted)))

-- With all slots in use, a range strictly inside an entry cannot be removed: the assertion fails.
pub remove-full :
    (s : RangeSet) (es : List Range) (r : Range)
    → Holds s es
    → IsCanonical es
    → IsRange r
    → length es ≡ 256
    → Inside r es
    → remove s r ≡ panic
unfolding remove try_subtractions
remove-full s es r h c p full inside =
    let ordered : leb r.start r.end ≡ true = ground arith in
    let (out, b, w, size) = sweep-Inside r es p c inside in
    let ran : Ran [] (split out b) (remove_pass s.in_use 0 s r) =
      subst (λ w. Ran [] w (remove_pass s.in_use 0 s r)) w (first_pass r s es h) in
    let one : s.in_use + 1 ≡ suc s.in_use = omega arith in rw (ordered, one, ran.1 (size ∙ full))
