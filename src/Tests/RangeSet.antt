-- ===== src/Tests/RangeSet.antt =====
-- shared/rangeset/src/lib.rs on small sets, and on one with all slots in use.
use chocolate_milk.Base.{
  ℕ, zero, suc, ◌+◌, ◌-◌, ◌*◌, ◌^◌, ◌≤◌, ◌<◌, ◌≡◌, ◌↔◌, ◌⊎◌, inl, inr, refl, arith,
}
use chocolate_milk.Base.{some, none, List, [], ◌∷◌, ◌++◌, length, replicate}
use chocolate_milk.Base.Outcome.{ok}
use chocolate_milk.RangeSet.{Range, RangeSet, insert, remove}
use chocolate_milk.RangeSet.Meaning.{In, All, IsRange, Apart, Separated}
use chocolate_milk.RangeSet.Sets.{view, Contains, IsValid, insert-Contains, remove-Contains}
use chocolate_milk.RangeSet.Remove.Trim.{Out}
use chocolate_milk.RangeSet.Alloc.{sum, allocate, allocate_prefer}
use chocolate_milk.RangeSet.Alloc.Sound.{
  Allocated, allocate_prefer-Allocated, allocate-succeeds, allocate-refuses,
}
use chocolate_milk.RangeSet.Alloc.Anywhere.{Overflows, Roomy}
use chocolate_milk.RangeSet.Alloc.Sum.{total, sum-total}

abbrev range : ℕ → ℕ → Range
range a b = record { start = a; end = b }

-- A set with the given entries.
abbrev set_of : List Range → RangeSet
set_of es = record { ranges = es ++ replicate (256 - length es) (range 0 0); in_use = length es }

abbrev two : RangeSet
two = set_of (range 0x1000 0x2fff ∷ range 0x5000 0x8fff ∷ [])

abbrev high : RangeSet
high = set_of (range (2 ^ 64 - 16) (2 ^ 64 - 1) ∷ range 0x1000 0x2fff ∷ [])

two-IsValid : IsValid two
two-IsValid = record { capacity = refl; in_bounds = omega arith; canonical = omega arith }

high-IsValid : IsValid high
high-IsValid = record { capacity = refl; in_bounds = omega arith; canonical = omega arith }

-- The highest entry overflows, and the roomy one behind it is not tried.
allocate_gives_up : allocate (2 ^ 64 - 1) high 0x20 0x10 ≡ ok (none, high)
unfolding allocate
allocate_gives_up = refl

-- Touching entries are merged, into the free slot at the end.
insert_runs :
    insert two (range 0x3000 0x4fff)
    ≡ ok (record {
      ranges = range 0x1000 0x8fff ∷ range 0x1000 0x2fff ∷ replicate 254 (range 0 0);
      in_use = 1;
    })
unfolding insert
insert_runs = refl

insert-Contains_example :
    (s' : RangeSet) × (insert two (range 0x3000 0x3fff) ≡ ok s')
    × IsValid s'
    × ((x : ℕ) → Contains s' x ↔ (Contains two x ⊎ In (range 0x3000 0x3fff) x))
insert-Contains_example =
    insert-Contains two (range 0x3000 0x3fff) two-IsValid (omega arith) (omega arith)

remove-Contains_example :
    (s' : RangeSet) × (remove two (range 0x6000 0x6fff) ≡ ok s')
    × IsValid s'
    × ((x : ℕ) → Contains s' x ↔ (Contains two x × Out (range 0x6000 0x6fff) x))
remove-Contains_example =
    remove-Contains two (range 0x6000 0x6fff) two-IsValid (omega arith) (inl (omega arith))

-- 256 entries of three addresses.
spaced : ℕ → ℕ → List Range
spaced zero b = []
spaced (suc n) b = range b (b + 2) ∷ spaced n (b + 10)

spaced-IsRange : (n b : ℕ) → b + n * 10 ≤ 2 ^ 63 → All IsRange (spaced n b)
unfolding spaced
spaced-IsRange zero b h = tt
spaced-IsRange (suc n) b h = (omega arith, spaced-IsRange n (b + 10) (omega arith))

spaced-Apart : (r : Range) (n b : ℕ) → r.end + 1 < b → All (Apart r) (spaced n b)
unfolding spaced
spaced-Apart r zero b h = tt
spaced-Apart r (suc n) b h = (inl (omega arith), spaced-Apart r n (b + 10) (omega arith))

spaced-Separated : (n b : ℕ) → Separated (spaced n b)
unfolding spaced
spaced-Separated zero b = tt
spaced-Separated (suc n) b =
    (spaced-Apart (range b (b + 2)) n (b + 10) (omega arith), spaced-Separated n (b + 10))

abbrev full : RangeSet
full = record { ranges = spaced 256 0; in_use = 256 }

full-IsValid : IsValid full
unfolding spaced
full-IsValid = record {
  capacity = refl;
  in_bounds = omega arith;
  canonical = record {
    shape = spaced-IsRange 256 0 (omega arith);
    separated = spaced-Separated 256 0;
  };
}

allocate_prefer-Allocated_example :
    Allocated
      (2 ^ 32 - 1)
      two
      0x1000
      0x1000
      (allocate_prefer (2 ^ 32 - 1) two 0x1000 0x1000 (some (range 0x7000 0x7fff)))
allocate_prefer-Allocated_example =
    allocate_prefer-Allocated (2 ^ 32 - 1) two 0x1000 0x1000 (some (range 0x7000 0x7fff))
      (omega arith) two-IsValid (omega arith) (omega arith)

allocate-succeeds_example :
    (pointer : ℕ) × (s' : RangeSet) × (allocate (2 ^ 32 - 1) two 0x3000 (2 ^ 12)
      ≡ ok (some pointer, s'))
allocate-succeeds_example =
    allocate-succeeds (2 ^ 32 - 1) two 0x3000 12 (omega arith) two-IsValid (omega arith)
      (omega arith) (omega arith) (omega arith) (inr (inl (omega arith)))

-- The overflow is at the second entry, and the first has room.
abbrev low_first : RangeSet
low_first = set_of (range 0x1000 0x2fff ∷ range (2 ^ 64 - 16) (2 ^ 64 - 1) ∷ [])

low_first-IsValid : IsValid low_first
low_first-IsValid = record { capacity = refl; in_bounds = omega arith; canonical = omega arith }

low_first_gives_up : allocate (2 ^ 64 - 1) low_first 0x100 0x10 ≡ ok (none, low_first)
unfolding allocate
low_first_gives_up = refl

allocate-refuses_example :
    (allocate (2 ^ 64 - 1) low_first 0x100 (2 ^ 4) ≡ ok (none, low_first)) ↔ (
      Overflows (2 ^ 64 - 1) 0x100 4 (view low_first)
      ⊎ All (λ e. ¬ Roomy (2 ^ 64 - 1) 0x100 4 e) (view low_first))
allocate-refuses_example =
    allocate-refuses (2 ^ 64 - 1) low_first 0x100 4 (omega arith) low_first-IsValid (omega arith)
      (omega arith) (omega arith)

sum-total_example : (sum two ≡ ok (some (total (view two)))) × (total (view two) < 2 ^ 64)
sum-total_example = sum-total two two-IsValid (omega arith)
