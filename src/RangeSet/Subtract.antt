-- ===== src/RangeSet/Subtract.antt =====
-- shared/rangeset/src/lib.rs: `subtract` removes one range after the other.
use chocolate_milk.Base.{ℕ, ◌+◌, ◌≤◌, ◌≡◌, ◌↔◌, inl, inr, refl, arith, List, [], ◌∷◌, length}
use chocolate_milk.Base.Outcome.{ok, ◌>>=◌}
use chocolate_milk.RangeSet.{Range, RangeSet, remove, remove_all}
use chocolate_milk.RangeSet.Meaning.{In, Covers, All, IsRange, IsCanonical}
use chocolate_milk.RangeSet.Slots.{Holds}
use chocolate_milk.RangeSet.Remove.{remove-Removes}
use chocolate_milk.RangeSet.Remove.Trim.{Out}

-- An address outside every range of a list.
abbrev pub OutAll : List Range → ℕ → Type 0
OutAll [] x = Unit
OutAll (e ∷ es) x = Out e x × OutAll es x

Out-of_not_In : (e : Range) (x : ℕ) → (In e x → ⊥) → Out e x
Out-of_not_In e x n = ground arith

pub OutAll-iff : (es : List Range) (x : ℕ) → OutAll es x ↔ (¬ Covers es x)
OutAll-iff [] x = (λ o c. c, λ n. tt)
OutAll-iff (e ∷ es) x =
    let ih = OutAll-iff es x in
    (
      λ o c. elim c [ inl i ↦ omega arith | inr k ↦ ih.0 o.1 k ],
      λ n. (Out-of_not_In e x (λ i. n (inl i)), ih.1 (λ c. n (inr c))),
    )

-- Each removal adds one entry at most.
pub remove_all-Holds :
    (ents : List Range) (s : RangeSet) (es : List Range)
    → Holds s es
    → IsCanonical es
    → All IsRange ents
    → length es + length ents ≤ 256
    → (s' : RangeSet) × (es' : List Range) × (remove_all ents s ≡ ok s')
      × Holds s' es'
      × IsCanonical es'
      × ((x : ℕ) → Covers es' x ↔ (Covers es x × OutAll ents x))
unfolding remove_all
remove_all-Holds [] s es h c a fits = (s, es, refl, h, c, λ x. (λ k. (k, tt), λ k. k.0))
remove_all-Holds (e ∷ ents) s es h c a fits =
    let first = remove-Removes s es e h c a.0 (inl (omega arith)) in
    let rest =
      remove_all-Holds ents first.set first.left first.holds first.canonical a.1
        (omega (arith, first.grows)) in
    (
      rest.0,
      rest.1,
      one_step first.returns rest.2,
      rest.3,
      rest.4,
      λ x. (
        λ k. let k' = (rest.5 x).0 k in let k'' = (first.covers x).0 k'.0 in (k''.0, (k''.1, k'.1)),
        λ k. (rest.5 x).1 ((first.covers x).1 (k.0, k.1.0), k.1.1),
      ),
    )
  where
    one_step :
        {s1 s2 : RangeSet}
        → remove s e ≡ ok s1
        → remove_all ents s1 ≡ ok s2
        → (remove s e >>= remove_all ents) ≡ ok s2
    one_step p q = rw p q
