-- ===== src/BootMemory/Entry.antt =====
-- bootloader/src/mm.rs: what one entry of the memory map does to the set.
use chocolate_milk.Base.{
  ℕ, ◌+◌, ◌-◌, ◌^◌, ◌≤◌, ◌<◌, ◌≡◌, ◌≢◌, ◌⊎◌, ◌↔◌, inl, inr, refl, arith, leb, Bool, Bool-cases,
  true, false, not, ◌&&◌, ltb, ◌==◌, List, [], ◌∷◌, length,
}
use chocolate_milk.Base.Outcome.{ok}
use chocolate_milk.RangeSet.{Range, RangeSet, u64_max}
use chocolate_milk.RangeSet.Meaning.{Covers, IsRange, IsCanonical}
use chocolate_milk.RangeSet.Slots.{Holds}
use chocolate_milk.RangeSet.Insert.{insert-Holds}
use chocolate_milk.RangeSet.Remove.{remove-Removes}
use chocolate_milk.RangeSet.Remove.Trim.{Out}
use chocolate_milk.BootMemory.{E820Entry, entry_range, add_entry}

abbrev pub Within : E820Entry → ℕ → Type 0
Within e x = (e.base ≤ x) × (x < e.base + e.size)

-- The address is in an entry that the pass is about: the free ones first, then all others.
abbrev pub Hit : Bool → E820Entry → ℕ → Type 0
Hit true e x = (e.typ ≡ 1) × Within e x
Hit false e x = (e.typ ≢ 1) × Within e x

abbrev pub AnyHit : Bool → List E820Entry → ℕ → Type 0
AnyHit pass [] x = ⊥
AnyHit pass (e ∷ es) x = Hit pass e x ⊎ AnyHit pass es x

abbrev pub AllFit : List E820Entry → Type 0
AllFit [] = Unit
AllFit (e ∷ es) = (e.base + e.size ≤ 2 ^ 64) × AllFit es

abbrev pub Marked : Bool → Type 0 → Type 0 → Type 0
Marked true A h = A ⊎ h
Marked false A h = A × ¬ h

pub Marked-trans :
    (pass : Bool) (A B C h k : Type 0)
    → B ↔ Marked pass A h
    → C ↔ Marked pass B k
    → C ↔ Marked pass A (h ⊎ k)
Marked-trans true A B C h k f g = (
  λ c. elim (g.0 c) [
    | inl b ↦ elim (f.0 b) [ inl a ↦ inl a | inr x ↦ inr (inl x) ]
    | inr y ↦ inr (inr y)
  ],
  λ c. elim c [
    | inl a ↦ g.1 (inl (f.1 (inl a)))
    | inr (inl x) ↦ g.1 (inl (f.1 (inr x)))
    | inr (inr y) ↦ g.1 (inr y)
  ],
)
Marked-trans false A B C h k f g = (
  λ c. let b = g.0 c in let a = f.0 b.0 in (a.0, λ u. elim u [ inl x ↦ a.1 x | inr y ↦ b.1 y ]),
  λ u. g.1 (f.1 (u.0, λ x. u.1 (inl x)), λ y. u.1 (inr y)),
)

pub Marked-none : (pass : Bool) (B : Type 0) → B ↔ Marked pass B ⊥
Marked-none true B = (λ b. inl b, λ c. elim c [ inl b ↦ b | inr x ↦ absurd x ])
Marked-none false B = (λ b. (b, λ x. x), λ u. u.0)

-- A pass over the entries `h` has been made on the set.
pub record Passed (pass : Bool) (n : ℕ) (h : ℕ → Type 0) (es : List Range) (s' : RangeSet)
    : Type 0 where
  pub left : List Range
  pub holds : Holds s' left
  pub canonical : IsCanonical left
  pub covers : (x : ℕ) → Covers left x ↔ Marked pass (Covers es x) (h x)
  pub grows : length left ≤ length es + n

abbrev range_of : E820Entry → Range
range_of e = record { start = e.base; end = e.base + (e.size - 1) }

entry_range-ok :
    (e : E820Entry)
    → 0 < e.size
    → e.base + e.size ≤ 2 ^ 64
    → (entry_range e ≡ ok (range_of e)) × IsRange (range_of e)
entry_range-ok e some_bytes fit =
    let fits : leb (e.base + (e.size - 1)) u64_max ≡ true = ground arith in
    (rw fits refl, (omega arith, omega arith))

Out-of_not_Within : (e : E820Entry) (x : ℕ) → 0 < e.size → ¬ Within e x → Out (range_of e) x
Out-of_not_Within e x some_bytes out = elim (Bool-cases (leb e.base x && ltb x (e.base + e.size))) [
  | inl inside ↦ absurd (out (ground arith, ground arith))
  | inr outside ↦ ground arith
]

pub add_entry-Passed :
    (pass : Bool) (e : E820Entry) (s : RangeSet) (es : List Range)
    → Holds s es
    → IsCanonical es
    → e.base + e.size ≤ 2 ^ 64
    → length es < 256
    → (s' : RangeSet) × (add_entry pass e s ≡ ok s') × Passed pass 1 (Hit pass e) es s'
unfolding add_entry
add_entry-Passed true e s es h c fit room = elim (Bool-cases ((e.typ == 1) && ltb 0 e.size)) [
  | inr skip ↦ (
    s,
    rw skip refl,
    record {
      left = es;
      holds = h;
      canonical = c;
      covers = λ x. (λ k. inl k, λ k. elim k [ inl a ↦ a | inr hit ↦ absurd (ground arith) ]);
      grows = omega arith;
    },
  )
  | inl free ↦
      let (r, p) = entry_range-ok e (ground arith) fit in
      let i = insert-Holds s es (range_of e) h c p room in
      (
        i.0,
        rw (free, r) i.2,
        record {
          left = i.1;
          holds = i.3;
          canonical = i.4;
          covers = λ x. (
            λ k. elim ((i.5 x).0 k) [ inl a ↦ inl a | inr b ↦ inr (ground arith) ],
            λ k. elim k [ inl a ↦ (i.5 x).1 (inl a) | inr b ↦ (i.5 x).1 (inr (ground arith)) ],
          );
          grows = i.6;
        },
      )
]
add_entry-Passed false e s es h c fit room = elim (Bool-cases (not (e.typ == 1) && ltb 0 e.size)) [
  | inr skip ↦ (
    s,
    rw skip refl,
    record {
      left = es;
      holds = h;
      canonical = c;
      covers = λ x. (λ k. (k, λ hit. ground arith), λ k. k.0);
      grows = omega arith;
    },
  )
  | inl used ↦
      let (r, p) = entry_range-ok e (ground arith) fit in
      let d = remove-Removes s es (range_of e) h c p (inl room) in
      (
        d.set,
        rw (used, r) d.returns,
        record {
          left = d.left;
          holds = d.holds;
          canonical = d.canonical;
          covers = λ x. (
            λ k. let o = (d.covers x).0 k in (o.0, λ hit. let q = o.1 in ground arith),
            λ k. (d.covers x).1 (
              k.0,
              Out-of_not_Within e x (ground arith)
                  (λ w. let other : e.typ ≢ 1 = ground arith in k.1 (other, w)),
            ),
          );
          grows = d.grows;
        },
      )
]
