-- ===== src/RangeSet/Alloc.antt =====
-- shared/rangeset/src/lib.rs: `sum`, `allocate` and `allocate_prefer`.
pub mod Aligned
pub mod Anywhere
pub mod Search
pub mod Sound
pub mod Sum
use package.chocolate_milk.Base.{ℕ, zero, suc, ◌+◌, ◌-◌, ◌/◌, ◌%◌, ◌^◌, Bool, ◌&&◌, ◌||◌, not}
use package.chocolate_milk.Base.{ltb, leb, ◌==◌, if◌then◌else◌, Option, none, some, List, [], ◌∷◌}
use package.chocolate_milk.Base.{bit_and}
use package.chocolate_milk.Base.Outcome.{Outcome, ok, ◌>>=◌}
use package.chocolate_milk.RangeSet.{Range, RangeSet, entries, remove, overlaps, u64_max}

abbrev pub checked_add : ℕ → ℕ → Option ℕ
checked_add a b = if leb (a + b) u64_max then some (a + b) else none

abbrev pub wrapping_add : ℕ → ℕ → ℕ
wrapping_add a b = (a + b) % 2 ^ 64

-- `!x` on u64.
abbrev pub bit_not : ℕ → ℕ
bit_not x = u64_max - x

count_bits : ℕ → ℕ → ℕ
count_bits zero x = 0
count_bits (suc n) x = x % 2 + count_bits n (x / 2)

-- `u64::count_ones`
pub count_ones : ℕ → ℕ
unfolding count_bits
count_ones x = count_bits 64 x

-- The tuple `(base, end, pointer)` of the best allocation so far.
pub record Allocation : Type 0 where
  pub base : ℕ
  pub end : ℕ
  pub pointer : ℕ

-- `try_fold` over the entries: the inner `?` ends it. The release build wraps a u64 sum and
-- difference; in `allocate_prefer` no other sum or difference than the checked ones leaves u64.
sum_from : ℕ → List Range → Option ℕ
sum_from acc [] = some acc
sum_from acc (x ∷ xs) = elim (checked_add ((x.end + 2 ^ 64 - x.start) % 2 ^ 64) 1) [
  | none ↦ none
  | some n ↦ sum_from (wrapping_add acc n) xs
]

pub sum : RangeSet → Outcome (Option ℕ)
unfolding entries sum_from
sum s = entries s >>= λ es. ok (sum_from 0 es)

-- What the preferred region gives for an entry: nothing, `continue`, or the end of the search.
pub data Preferred : Type 0 where
  absent unaddressable : Preferred
  chosen : Allocation → Preferred

-- Padding in front of `start`, and `start` rounded up.
abbrev pub align_fix : ℕ → ℕ → ℕ
align_fix align start = bit_and (align - bit_and start (align - 1)) (align - 1)

abbrev pub align_up : ℕ → ℕ → ℕ
align_up align start = bit_and (wrapping_add start (align - 1)) (bit_not (align - 1))

-- `usize_max` is `core::usize::MAX` of the build: the bootloader's is 2 ^ 32 - 1 and the kernel's
-- is 2 ^ 64 - 1.
module _ (usize_max : ℕ) where
  preferred_in : ℕ → ℕ → Range → Preferred
  preferred_in size align overlap =
      let align_overlap = align_up align overlap.start in
      let overlap_alc_end = align_overlap + (size - 1) in
      if leb overlap.start align_overlap
        && leb align_overlap overlap.end
        && leb (size - 1) (overlap.end - align_overlap)
      then if ltb usize_max align_overlap || ltb usize_max overlap_alc_end
        then unaddressable
        else chosen (record {
          base = align_overlap;
          end = overlap_alc_end;
          pointer = align_overlap % (usize_max + 1);
        })
      else absent

  pub preferred : ℕ → ℕ → Option Range → Range → Preferred
  unfolding overlaps preferred_in
  preferred size align none ent = absent
  preferred size align (some region) ent = elim (overlaps ent region) [
    | none ↦ absent
    | some overlap ↦ preferred_in size align overlap
  ]

  -- The smaller of the best so far and this one; the first on a tie.
  pub better : Option Allocation → Allocation → Allocation
  better none new = new
  better (some old) new = if ltb (new.end - new.base) (old.end - old.base) then new else old

  module _ (size align : ℕ) (region : Option Range) where
    -- The loop over the entries; `none` is `return None` from inside it.
    pub search : Option Allocation → List Range → Option (Option Allocation)
    search best [] = some best
    search best (ent ∷ ents) =
        let base = ent.start in
        let fix = align_fix align base in
        let next = search best ents in
        elim (checked_add base (size - 1)) [
          | none ↦ none
          | some padless ↦ elim (checked_add padless fix) [
            | none ↦ none
            | some end ↦
                let plain =
                  search
                    (some (
                      better best (record {
                        base = base;
                        end = end;
                        pointer = (base + fix) % (usize_max + 1);
                      })))
                    ents in
                if ltb usize_max base || ltb usize_max end
                then next
                else if ltb ent.end end
                then next
                else elim (preferred size align region ent) [
                  | absent ↦ plain
                  | unaddressable ↦ next
                  | chosen a ↦ some (some a)
                ]
          ]
        ]

  take_allocation : RangeSet → Option (Option Allocation) → Outcome (Option ℕ × RangeSet)
  unfolding remove
  take_allocation s none = ok (none, s)
  take_allocation s (some none) = ok (none, s)
  take_allocation s (some (some a)) =
      remove s (record { start = a.base; end = a.end }) >>= λ s'. ok (some a.pointer, s')

  unfoldable pub allocate_prefer : RangeSet → ℕ → ℕ → Option Range → Outcome (Option ℕ × RangeSet)
  unfolding count_ones entries preferred better search take_allocation
  allocate_prefer s size align region =
      if size == 0
      then ok (none, s)
      else if not (count_ones align == 1)
      then ok (none, s)
      else entries s >>= λ es. take_allocation s (search size align region none es)

  unfoldable pub allocate : RangeSet → ℕ → ℕ → Outcome (Option ℕ × RangeSet)
  unfolding allocate_prefer
  allocate s size align = allocate_prefer s size align none
