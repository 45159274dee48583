-- ===== src/RangeSet/Alloc/Search.antt =====
-- shared/rangeset/src/lib.rs: what the search of `allocate_prefer` finds.
use chocolate_milk.Base.{ℕ, ◌+◌, ◌-◌, ◌%◌, ◌^◌, ◌≤◌, ◌<◌, ◌≡◌, ◌⊎◌, inl, inr, refl, arith}
use chocolate_milk.Base.{Bool-cases, ltb, Option, some, none, List, [], ◌∷◌}
use native.Mathlib.Nat.{mod-eq_of_lt}
use chocolate_milk.RangeSet.{Range, u64_max, overlaps}
use chocolate_milk.RangeSet.Meaning.{All, IsRange}
use chocolate_milk.RangeSet.Alloc.{Allocation, Preferred, preferred_in, preferred, better, search}
use chocolate_milk.RangeSet.Alloc.{align_fix, align_up, absent, chosen}
use chocolate_milk.RangeSet.Alloc.Aligned.{align_fix-mod, align_up-mod}

abbrev pub Member : Range → List Range → Type 0
Member e [] = ⊥
Member e (x ∷ xs) = (e ≡ x) ⊎ Member e xs

-- An overlap lies inside the entry, whichever way round the region is given.
overlaps-within :
    (e region : Range) {o : Range}
    → IsRange e
    → overlaps e region ≡ some o
    → (e.start ≤ o.start) × (o.end ≤ e.end)
unfolding overlaps
overlaps-within e region p h = ground arith

module _ (usize_max size k : ℕ) where
  -- `a` is an aligned allocation of `size` bytes inside the entry `e`, within the address space.
  pub record Fits (a : Allocation) (e : Range) : Type 0 where
    pub above : e.start ≤ a.base
    pub padded : a.base ≤ a.pointer
    pub sized : a.pointer + (size - 1) ≤ a.end
    pub below : a.end ≤ e.end
    pub aligned : a.pointer % 2 ^ k ≡ 0
    pub addressable : a.end ≤ usize_max

  module _ (wide : usize_max ≤ u64_max) (small : k < 64) where
    plain-Fits :
        (e : Range) (end : ℕ)
        → end ≡ e.start + (size - 1) + align_fix (2 ^ k) e.start
        → end ≤ usize_max
        → end ≤ e.end
        → Fits
            (record {
              base = e.start;
              end = end;
              pointer = (e.start + align_fix (2 ^ k) e.start) % (usize_max + 1);
            })
            e
    plain-Fits e end p h g =
        let same : (e.start + align_fix (2 ^ k) e.start) % (usize_max + 1)
            ≡ e.start + align_fix (2 ^ k) e.start =
          mod-eq_of_lt (omega arith) in
        record {
          above = omega arith;
          padded = rw same (omega arith);
          sized = rw same (omega arith);
          below = g;
          aligned = rw same (align_fix-mod k e.start);
          addressable = h;
        }

    chosen_lem :
        (o : Range) (a : Allocation) → preferred_in usize_max size (2 ^ k) o ≡ chosen a → Fits a o
    unfolding preferred_in
    chosen_lem o a h =
        let up = align_up (2 ^ k) o.start in
        let same : (up ≤ usize_max) → up % (usize_max + 1) ≡ up =
          λ le. mod-eq_of_lt (omega arith) in
        let m = align_up-mod k o.start small in
        record {
          above = ground arith;
          padded = ground (arith, same);
          sized = ground (arith, same);
          below = ground arith;
          aligned = ground (arith, same, m);
          addressable = ground arith;
        }

    preferred-Fits :
        (region : Option Range) (e : Range) (a : Allocation)
        → IsRange e
        → preferred usize_max size (2 ^ k) region e ≡ chosen a
        → Fits a e
    unfolding preferred
    preferred-Fits none e a p h = cc
    preferred-Fits (some region) e a p h = after (overlaps e region) refl h
      where
        after :
            (m : Option Range)
            → overlaps e region ≡ m
            → elim m as (λ x. Preferred) [
              | none ↦ absent
              | some o ↦ preferred_in usize_max size (2 ^ k) o
            ]
              ≡ chosen a
            → Fits a e
        after none q w = cc
        after (some o) q w =
            let f = chosen_lem o a w in
            let within = overlaps-within e region p q in
            record {
              above = omega arith;
              padded = f.padded;
              sized = f.sized;
              below = omega arith;
              aligned = f.aligned;
              addressable = f.addressable;
            }

  -- The plain allocation at an entry.
  abbrev pub plain_end : Range → ℕ
  plain_end e = e.start + (size - 1) + align_fix (2 ^ k) e.start

  abbrev pub plain_at : Range → Allocation
  plain_at e = record {
    base = e.start;
    end = plain_end e;
    pointer = (e.start + align_fix (2 ^ k) e.start) % (usize_max + 1);
  }

  module _ (region : Option Range) where
    abbrev find : Option Allocation → List Range → Option (Option Allocation)
    find = search usize_max size (2 ^ k) region

    -- The ways on from an entry.
    search-cases :
        (best : Option Allocation) (e : Range) (es : List Range) {r : Option Allocation}
        → find best (e ∷ es) ≡ some r
        → (find best es ≡ some r)
          ⊎ (plain_end e ≤ usize_max)
            × (plain_end e ≤ e.end)
            × (find (some (better usize_max best (plain_at e))) es ≡ some r)
          ⊎ ((a : Allocation) × (preferred usize_max size (2 ^ k) region e ≡ chosen a)
              × (r ≡ some a))
    unfolding search
    search-cases best e es h = ground arith

    -- The best so far lies in one of the entries.
    abbrev pub Best : List Range → Option Allocation → Type 0
    Best all none = Unit
    Best all (some a) = (e : Range) × Member e all × Fits a e

    Best-better :
        (all : List Range) (best : Option Allocation) (a : Allocation) (e : Range)
        → Best all best
        → Member e all
        → Fits a e
        → Best all (some (better usize_max best a))
    unfolding better
    Best-better all none a e b m f = (e, m, f)
    Best-better all (some old) a e b m f =
        elim (Bool-cases (ltb (a.end - a.base) (old.end - old.base))) [
          | inl new ↦ rw new (e, m, f)
          | inr stays ↦ rw stays b
        ]

    module _ (wide : usize_max ≤ u64_max) (small : k < 64) (all : List Range) where
      pub find-Best :
          (best : Option Allocation) (es : List Range) {r : Option Allocation}
          → ((e : Range) → Member e es → Member e all)
          → All IsRange es
          → Best all best
          → find best es ≡ some r
          → Best all r
      unfolding search
      find-Best best [] {r = r} sub p b h = let same : best ≡ r = cc in rw same at b
      find-Best best (e ∷ es) sub p b h = elim (search-cases best e es h) [
        | inl skipped ↦ find-Best best es (λ d m. sub d (inr m)) p.1 b skipped
        | inr rest ↦ elim rest [
          | inl (low, fits, taken) ↦
              find-Best (some (better usize_max best (plain_at e))) es (λ d m. sub d (inr m)) p.1
                (Best-better all best (plain_at e) e b (sub e (inl refl))
                  (plain-Fits wide small e (plain_end e) refl low fits))
                taken
          | inr (a, q, w) ↦ rw w (e, sub e (inl refl), preferred-Fits wide small region e a p.0 q)
        ]
      ]
