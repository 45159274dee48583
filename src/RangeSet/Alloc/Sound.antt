-- ===== src/RangeSet/Alloc/Sound.antt =====
-- shared/rangeset/src/lib.rs: what `allocate_prefer` and `allocate` return and take from the set.
use chocolate_milk.Base.{ℕ, ◌+◌, ◌-◌, ◌%◌, ◌^◌, ◌≤◌, ◌<◌, ◌≡◌, ◌↔◌, ◌⊎◌, inl, inr, refl, arith}
use chocolate_milk.Base.{
  Option, some, none, List, [], ◌∷◌, ◌==◌, ==→≡, ==→≢, Bool-cases, ◌≢◌, false,
}
use chocolate_milk.Base.Outcome.{Outcome, ok}
use chocolate_milk.RangeSet.{Range, RangeSet, u64_max}
use chocolate_milk.RangeSet.Meaning.{In, Covers, All, IsRange}
use chocolate_milk.RangeSet.Slots.{entries-Holds}
use chocolate_milk.RangeSet.Sets.{view, Contains, IsValid, Holds-of_IsValid, remove-Contains}
use chocolate_milk.RangeSet.Remove.Trim.{Out}
use chocolate_milk.RangeSet.Alloc.{
  Allocation, count_ones, search, take_allocation, allocate_prefer, allocate,
}
use chocolate_milk.RangeSet.Alloc.Aligned.{count_ones-pow, power_of_count_ones}
use chocolate_milk.RangeSet.Alloc.Anywhere.{
  NoOverflow, Roomy, AnyRoomy, Overflows, Overflows-cases, AnyRoomy-cases, search_finds,
  search-Overflows, search_nothing,
}
use chocolate_milk.RangeSet.Alloc.Search.{Member, Best, find-Best}

Covers-Member : (e : Range) (es : List Range) (x : ℕ) → Member e es → In e x → Covers es x
Covers-Member e [] x m i = absurd m
Covers-Member e (d ∷ es) x m i = elim m [
  | inl q ↦ inl (ground arith)
  | inr k ↦ inr (Covers-Member e es x k i)
]

All-Member : (P : Range → Type 0) (e : Range) (es : List Range) → Member e es → All P es → P e
All-Member P e [] m a = absurd m
All-Member P e (d ∷ es) m a = elim m [ inl q ↦ rw q a.0 | inr k ↦ All-Member P e es k a.1 ]

-- What an allocation of `size` bytes does to the set `s`: nothing, or an aligned block of its
-- addresses below the end of the address space is taken out, and maybe padding round it.
pub data Allocated (usize_max : ℕ) (s : RangeSet) (size align : ℕ)
    : Outcome (Option ℕ × RangeSet) → Type 0 where
  refused : Allocated usize_max s size align (ok (none, s))
  taken :
      (pointer : ℕ) (s' : RangeSet) (block : Range)
      → pointer % align ≡ 0
      → (block.start ≤ pointer) × (pointer + (size - 1) ≤ block.end) × (block.end ≤ usize_max)
      → ((x : ℕ) → In block x → Contains s x)
      → IsValid s'
      → ((x : ℕ) → Contains s' x ↔ (Contains s x × Out block x))
      → Allocated usize_max s size align (ok (some pointer, s'))

taken_block :
    (usize_max k size : ℕ) (s : RangeSet) (region : Option Range) (a : Allocation)
    → IsValid s
    → size ≢ 0
    → usize_max ≤ u64_max
    → s.in_use < 256
    → Best usize_max size k region (view s) (some a)
    → Allocated usize_max s size (2 ^ k) (take_allocation usize_max s (some (some a)))
unfolding take_allocation
taken_block usize_max k size s region a v nz wide room (e, m, f) =
    let shape = All-Member IsRange e (view s) m v.canonical.shape in
    let h = Holds-of_IsValid v in
    let block : Range = record { start = a.base; end = a.end } in
    let d =
      remove-Contains s block v (omega (arith, f.padded, f.sized, f.below, shape))
        (inl (omega (arith, h.counted))) in
    rw d.1 (
      taken a.pointer d.0 block f.aligned (f.padded, f.sized, f.addressable)
        (λ x i. Covers-Member e (view s) x m (omega (arith, f.above, f.below, i))) d.2 d.3)

searched :
    (usize_max k size : ℕ) (s : RangeSet) (region : Option Range) (m : Option (Option Allocation))
    → IsValid s
    → size ≢ 0
    → usize_max ≤ u64_max
    → k < 64
    → s.in_use < 256
    → search usize_max size (2 ^ k) region none (view s) ≡ m
    → Allocated usize_max s size (2 ^ k) (take_allocation usize_max s m)
searched usize_max k size s region none v nz wide small room q = unfold take_allocation in refused
searched usize_max k size s region (some none) v nz wide small room q =
    unfold take_allocation in refused
searched usize_max k size s region (some (some a)) v nz wide small room q =
    taken_block usize_max k size s region a v nz wide room (
      find-Best usize_max size k region wide small (view s) none (view s) (λ e m. m)
        v.canonical.shape tt q)

-- For a valid set with a free slot, `allocate_prefer` does not panic. It refuses and leaves the set
-- as it was, or it returns an aligned pointer, and a block that the set contained, in which `size`
-- bytes from the pointer on lie, is taken out of the set, and no other address.
pub allocate_prefer-Allocated :
    (usize_max : ℕ) (s : RangeSet) (size align : ℕ) (region : Option Range)
    → usize_max ≤ u64_max
    → IsValid s
    → s.in_use < 256
    → align < 2 ^ 64
    → Allocated usize_max s size align (allocate_prefer usize_max s size align region)
unfolding allocate_prefer
allocate_prefer-Allocated usize_max s size align region wide v room word =
    elim (Bool-cases (size == 0)) [
      | inl empty ↦ rw empty refused
      | inr some_bytes ↦ elim (Bool-cases (count_ones align == 1)) [
        | inr bad ↦ rw (some_bytes, bad) refused
        | inl good ↦
            let (k, small, q) = power_of_count_ones align word (==→≡ _ 1 good) in
            rw (some_bytes, good, entries-Holds (Holds-of_IsValid v), q)
              (searched usize_max k size s region _ v (==→≢ size 0 some_bytes) wide small room refl)
      ]
    ]

-- In a valid set with a free slot in which no sum `start + (size - 1) + padding` leaves u64,
-- `allocate` returns a pointer if some entry has room for the padded block below `usize_max`, for
-- every size but 0 and every power of two as the alignment.
pub allocate-succeeds :
    (usize_max : ℕ) (s : RangeSet) (size k : ℕ)
    → usize_max ≤ u64_max
    → IsValid s
    → s.in_use < 256
    → size ≢ 0
    → k < 64
    → All (NoOverflow usize_max size k) (view s)
    → AnyRoomy usize_max size k (view s)
    → (pointer : ℕ) × (s' : RangeSet) × (allocate usize_max s size (2 ^ k) ≡ ok (some pointer, s'))
unfolding allocate take_allocation
allocate-succeeds usize_max s size k wide v room nz small safe roomy =
    let h = Holds-of_IsValid v in
    let found = search_finds usize_max size k none (view s) wide safe roomy in
    let (e, m, f) =
      find-Best usize_max size k none wide small (view s) none (view s) (λ e m. m) v.canonical.shape
        tt found.1 in
    let shape = All-Member IsRange e (view s) m v.canonical.shape in
    let d =
      remove-Contains s (record { start = found.0.base; end = found.0.end }) v
        (omega (arith, f.padded, f.sized, f.below, shape)) (inl (omega (arith, h.counted))) in
    let sized : (size == 0) ≡ false = ground arith in
    (found.0.pointer, d.0, rw (sized, count_ones-pow k small, entries-Holds h, found.1, d.1))

refused_search :
    (usize_max : ℕ) (s : RangeSet) (size k : ℕ)
    → IsValid s
    → (search usize_max size (2 ^ k) none none (view s) ≡ none)
      ⊎ (search usize_max size (2 ^ k) none none (view s) ≡ some none)
    → size ≢ 0
    → k < 64
    → allocate usize_max s size (2 ^ k) ≡ ok (none, s)
unfolding allocate take_allocation
refused_search usize_max s size k v found nz small =
    let sized : (size == 0) ≡ false = ground arith in
    elim found [
      | inl q ↦ rw (sized, count_ones-pow k small, entries-Holds (Holds-of_IsValid v), q)
      | inr q ↦ rw (sized, count_ones-pow k small, entries-Holds (Holds-of_IsValid v), q)
    ]

-- For a valid set with a free slot, a size but 0 and a power of two as the alignment, `allocate`
-- returns `None` and leaves the set as it was exactly if at one of its entries, whichever it is, the
-- sum `start + (size - 1) + padding` leaves u64, or no entry has room for the padded block below
-- `usize_max`.
pub allocate-refuses :
    (usize_max : ℕ) (s : RangeSet) (size k : ℕ)
    → usize_max ≤ u64_max
    → IsValid s
    → s.in_use < 256
    → size ≢ 0
    → k < 64
    → (allocate usize_max s size (2 ^ k) ≡ ok (none, s))
      ↔ (Overflows usize_max size k (view s) ⊎ All (λ e. ¬ Roomy usize_max size k e) (view s))
allocate-refuses usize_max s size k wide v room nz small = (why, gives)
  where
    why :
        allocate usize_max s size (2 ^ k) ≡ ok (none, s)
        → Overflows usize_max size k (view s) ⊎ All (λ e. ¬ Roomy usize_max size k e) (view s)
    why h = elim (Overflows-cases usize_max size k (view s)) [
      | inr over ↦ inl over
      | inl safe ↦ elim (AnyRoomy-cases usize_max size k (view s)) [
        | inr small_entries ↦ inr small_entries
        | inl roomy ↦
            let d = allocate-succeeds usize_max s size k wide v room nz small safe roomy in
            let q = d.2 in cc
      ]
    ]

    gives :
        Overflows usize_max size k (view s) ⊎ All (λ e. ¬ Roomy usize_max size k e) (view s)
        → allocate usize_max s size (2 ^ k) ≡ ok (none, s)
    gives c = elim (Overflows-cases usize_max size k (view s)) [
      | inr over ↦
          refused_search usize_max s size k v
            (inl (search-Overflows usize_max size k (view s) none wide over)) nz small
      | inl safe ↦ elim c [
        | inl over ↦
            refused_search usize_max s size k v
              (inl (search-Overflows usize_max size k (view s) none wide over)) nz small
        | inr small_entries ↦
            refused_search usize_max s size k v
              (inr (search_nothing usize_max size k (view s) wide safe small_entries)) nz small
      ]
    ]
