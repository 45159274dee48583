-- ===== src/RangeSet.antt =====
-- shared/rangeset/src/lib.rs: sets of inclusive `u64` ranges in an array of 256 slots.
-- A method on `&mut self` takes the set and returns the new one. `Alloc` has the allocator's
-- methods; `Slots` and `Listed` say how the array holds a list of ranges, and the other children
-- prove the methods on that list.
pub mod Alloc
pub mod Insert
pub mod Meaning
pub mod Pick
pub mod Remove
pub mod Sets
pub mod Slots
pub mod Subtract
use package.chocolate_milk.Base.{ℕ, zero, suc, ◌+◌, ◌-◌, ◌^◌, min, max, Bool, ◌&&◌, ltb, leb}
use package.chocolate_milk.Base.{if◌then◌else◌, is_none, Option, none, some, List, [], ◌∷◌}
use package.chocolate_milk.Base.{length, set, take, replicate}
use package.chocolate_milk.Base.Outcome.{
  Outcome, ok, panic, out_of_fuel, ◌>>=◌, ◌>>◌, assert, index,
}

pub record Range : Type 0 where
  pub start : ℕ
  pub end : ℕ

pub record RangeSet : Type 0 where
  pub ranges : List Range
  pub in_use : ℕ

abbrev pub u64_max : ℕ
u64_max = 2 ^ 64 - 1

abbrev pub saturating_add : ℕ → ℕ → ℕ
saturating_add a b = min (a + b) u64_max

-- `saturating_sub` is the subtraction of ℕ.
abbrev pub saturating_sub : ℕ → ℕ → ℕ
saturating_sub a b = a - b

abbrev pub new : RangeSet
new = record { ranges = replicate 256 (record { start = 0; end = 0 }); in_use = 0 }

-- The slice `..in_use` panics past the end of the array.
unfoldable pub entries : RangeSet → Outcome (List Range)
entries s = if leb s.in_use (length s.ranges) then ok (take s.in_use s.ranges) else panic

-- `[T]::swap`
swap : List Range → ℕ → ℕ → Outcome (List Range)
swap xs i j = do a ← index xs i; b ← index xs j; ok (set (set xs i b) j a)

-- `for ii in idx..in_use - 1`, with `left` rounds to go.
delete_loop : ℕ → ℕ → List Range → Outcome (List Range)
unfolding swap
delete_loop zero ii ranges = ok ranges
delete_loop (suc left) ii ranges = swap ranges ii (ii + 1) >>= delete_loop left (ii + 1)

pub delete : RangeSet → ℕ → Outcome RangeSet
unfolding delete_loop
delete s idx = do
  assert (ltb idx s.in_use)
  ranges ← delete_loop (s.in_use - 1 - idx) idx s.ranges
  ok (record { ranges = ranges; in_use = s.in_use - 1 })

-- The two swaps of `overlaps` and `contains`.
abbrev pub lowest_to_biggest : Range → Range
lowest_to_biggest a = if ltb a.end a.start then record { start = a.end; end = a.start } else a

overlap_ordered : Range → Range → Option Range
overlap_ordered a b =
    if leb a.start b.end && leb b.start a.end
    then some (record { start = max a.start b.start; end = min a.end b.end })
    else none

pub overlaps : Range → Range → Option Range
unfolding overlap_ordered
overlaps a b = overlap_ordered (lowest_to_biggest a) (lowest_to_biggest b)

contains_ordered : Range → Range → Bool
contains_ordered a b = leb b.start a.start && leb a.end b.end

pub contains : Range → Range → Bool
unfolding contains_ordered
contains a b = contains_ordered (lowest_to_biggest a) (lowest_to_biggest b)

-- A range made one longer at its end, so that touching ranges overlap.
abbrev pub extended : Range → Range
extended r = record { start = r.start; end = saturating_add r.end 1 }

abbrev pub merged : Range → Range → Range
merged r e = record { start = min r.start e.start; end = max r.end e.end }

-- One run of the `for` loop of `insert` from slot `ii`: `none` is its end, and `some` is
-- `continue 'try_merges` with the new range and set.
pub merge_pass : ℕ → ℕ → RangeSet → Range → Outcome (Option (Range × RangeSet))
unfolding overlaps delete
merge_pass zero ii s range = ok none
merge_pass (suc left) ii s range = do
  ent ← index s.ranges ii
  let next = merge_pass left (ii + 1) s range
  let take_over = delete s ii >>= λ s'. ok (some (merged range ent, s'))
  if is_none (overlaps (extended range) (extended ent)) then next else take_over

pub try_merges : ℕ → RangeSet → Range → Outcome (Range × RangeSet)
unfolding merge_pass
try_merges zero s range = out_of_fuel
try_merges (suc fuel) s range = merge_pass s.in_use 0 s range >>= λ r. elim r [
  | none ↦ ok (range, s)
  | some (range', s') ↦ try_merges fuel s' range'
]

-- `self.ranges[self.in_use] = range; self.in_use += 1` behind its assertion.
pub push : RangeSet → Range → Outcome RangeSet
push s range = do
  assert (ltb s.in_use (length s.ranges))
  ok (record { ranges = set s.ranges s.in_use range; in_use = s.in_use + 1 })

-- Each merge deletes an entry, so `in_use` merges at most.
unfoldable pub insert : RangeSet → Range → Outcome RangeSet
unfolding try_merges push
insert s range = do
  assert (leb range.start range.end)
  merge ← try_merges (s.in_use + 1) s range
  push merge.1 merge.0

-- How a run of the `for` loop of `remove` ends.
pub data Pass : Type 0 where
  finished : RangeSet → Pass
  restart : RangeSet → Pass

abbrev pub set_slot : RangeSet → ℕ → Range → RangeSet
set_slot s ii r = record s { ranges = set s.ranges ii r }

pub remove_pass : ℕ → ℕ → RangeSet → Range → Outcome Pass
unfolding overlaps contains delete push
remove_pass zero ii s range = ok (finished s)
remove_pass (suc left) ii s range = do
  ent ← index s.ranges ii
  let above : Range = record { start = saturating_add range.end 1; end = ent.end }
  let below : Range = record { start = ent.start; end = saturating_sub range.start 1 }
  let next = λ (s' : RangeSet). remove_pass left (ii + 1) s' range
  let keep = next s
  let drop_entry = delete s ii >>= λ s'. ok (restart s')
  let trim_low = next (set_slot s ii above)
  let trim_high = next (set_slot s ii below)
  let split = push (set_slot s ii above) below >>= λ s'. ok (restart s')
  if is_none (overlaps range ent)
      then keep
      else if contains ent range
      then drop_entry
      else if leb range.start ent.start
      then trim_low
      else if leb ent.end range.end
      then trim_high
      else split

pub try_subtractions : ℕ → RangeSet → Range → Outcome RangeSet
unfolding remove_pass
try_subtractions zero s range = out_of_fuel
try_subtractions (suc fuel) s range = remove_pass s.in_use 0 s range >>= λ p. elim p [
  | finished s' ↦ ok s'
  | restart s' ↦ try_subtractions fuel s' range
]

-- A run that restarts leaves one entry fewer that overlaps `range`.
unfoldable pub remove : RangeSet → Range → Outcome RangeSet
unfolding try_subtractions
remove s range = do assert (leb range.start range.end); try_subtractions (s.in_use + 1) s range

pub remove_all : List Range → RangeSet → Outcome RangeSet
unfolding remove
remove_all [] s = ok s
remove_all (ent ∷ ents) s = remove s ent >>= remove_all ents

pub subtract : RangeSet → RangeSet → Outcome RangeSet
unfolding entries remove_all
subtract s rs = entries rs >>= λ ents. remove_all ents s
