-- ===== src/BootMemory/Freed.antt =====
-- bootloader/src/mm.rs: what the allocators lend, and what they take back.
use chocolate_milk.Base.{
  ℕ, ◌+◌, ◌-◌, ◌%◌, ◌^◌, ◌<◌, ◌≡◌, ◌⊎◌, ◌↔◌, refl, arith, true, false, leb, ltb, Option, none, some,
}
use chocolate_milk.Base.Outcome.{Outcome, ok, panic, ◌>>=◌, unwrap}
use chocolate_milk.RangeSet.{Range, RangeSet, u64_max}
use chocolate_milk.RangeSet.Meaning.{In}
use chocolate_milk.RangeSet.Sets.{Contains, IsValid, insert-Contains}
use chocolate_milk.RangeSet.Alloc.{allocate}
use chocolate_milk.RangeSet.Alloc.Sound.{Allocated, refused, taken, allocate_prefer-Allocated}
use chocolate_milk.BootMemory.{usize_max, or_null, alloc, dealloc, alloc_phys, free_phys}

abbrev block : ℕ → ℕ → Range
block pointer size = record { start = pointer; end = pointer + (size - 1) }

-- What `alloc` and `alloc_phys` give for the same request.
pub data Lent (s : RangeSet) (size align : ℕ)
    : Outcome (ℕ × Option RangeSet) → Outcome (ℕ × RangeSet) → Type 0 where
  null : Lent s size align (ok (0, some s)) panic
  lent :
      (pointer : ℕ) (s' : RangeSet)
      → pointer % align ≡ 0
      → pointer + (size - 1) < 2 ^ 32
      → IsValid s'
      → ((x : ℕ) → Contains s' x → Contains s x)
      → ((x : ℕ) → In (block pointer size) x → Contains s x × ¬ Contains s' x)
      → (s'.in_use < 256
          → (s'' : RangeSet) × (dealloc (some s') pointer size ≡ ok (some s''))
            × (free_phys s' pointer size ≡ ok s'')
            × IsValid s''
            × ((x : ℕ) → Contains s'' x ↔ (Contains s' x ⊎ In (block pointer size) x)))
      → Lent s size align (ok (pointer, some s')) (ok (pointer, s'))

returned :
    (s' : RangeSet) (pointer size : ℕ)
    → 0 < size
    → pointer + (size - 1) < 2 ^ 32
    → IsValid s'
    → s'.in_use < 256
    → (s'' : RangeSet) × (dealloc (some s') pointer size ≡ ok (some s''))
      × (free_phys s' pointer size ≡ ok s'')
      × IsValid s''
      × ((x : ℕ) → Contains s'' x ↔ (Contains s' x ⊎ In (block pointer size) x))
unfolding dealloc free_phys
returned s' pointer size some_bytes small v room =
    let i = insert-Contains s' (block pointer size) v (omega arith, omega arith) room in
    let counted : ltb size 1 ≡ false = ground arith in
    let fits : leb (pointer + (size - 1)) u64_max ≡ true = ground arith in
    let swapped : leb (size - 1 + pointer) u64_max ≡ true = ground arith in
    let same : size - 1 + pointer ≡ pointer + (size - 1) = omega arith in
    (i.0, rw (counted, fits, i.1) refl, rw (counted, swapped, same, i.1) refl, i.2, i.3)

Allocated-Lent :
    (s : RangeSet) (size align : ℕ) (o : Outcome (Option ℕ × RangeSet))
    → 0 < size
    → Allocated usize_max s size align o
    → Lent s size align
        (o >>= λ r. ok (or_null r.0, some r.1))
        (o >>= λ r. unwrap r.0 >>= λ addr. ok (addr, r.1))
Allocated-Lent s size align o some_bytes refused = null
Allocated-Lent s size align o some_bytes (taken pointer s' b even inside had v left) =
    lent pointer s' even (omega arith) v (λ x k. ((left x).0 k).0)
      (λ x i. (had x (omega arith, omega arith), λ k. let out = ((left x).0 k).1 in omega arith))
      (returned s' pointer size some_bytes (omega arith) v)

-- For a valid set with a free slot, a size other than 0 and any 64-bit alignment: `alloc` gives null
-- and leaves the set as it was exactly where `alloc_phys` panics, and else both give the same
-- aligned block below 4 GiB. All of the block was free, none of it is free afterwards, and nothing
-- else becomes free. Where a slot is free again, `dealloc` and `free_phys` return the block: the
-- set then has the addresses it kept and those of the block.
pub alloc-Lent :
    (s : RangeSet) (size align : ℕ)
    → IsValid s
    → s.in_use < 256
    → 0 < size
    → align < 2 ^ 64
    → Lent s size align (alloc (some s) size align) (alloc_phys s size align)
unfolding alloc alloc_phys allocate
alloc-Lent s size align v room some_bytes word =
    Allocated-Lent s size align (allocate usize_max s size align) some_bytes
      (allocate_prefer-Allocated usize_max s size align none (omega arith) v room word)
