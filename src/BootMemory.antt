-- ===== src/BootMemory.antt =====
-- bootloader/src/mm.rs: the physical memory of the bootloader, a range set that starts from the
-- memory map of the BIOS. `usize` has 32 bits there.

pub mod Freed
pub mod Entry
pub mod Usable
use package.chocolate_milk.Base.{
  checked_sub, ℕ, zero, suc, ◌+◌, ◌-◌, ◌*◌, ◌^◌, Bool, true, false, not, ◌&&◌, ltb, ◌==◌,
  if◌then◌else◌, Option, none, some,
}
use package.chocolate_milk.Base.Outcome.{
  Outcome, ok, panic, out_of_fuel, ◌>>=◌, ◌>>◌, assert, unwrap,
}
use package.chocolate_milk.RangeSet.{Range, RangeSet, new, insert, remove}
use package.chocolate_milk.RangeSet.Alloc.{checked_add, allocate}

abbrev pub usize_max : ℕ
usize_max = 2 ^ 32 - 1

-- `PhysicalMemory::translate`
abbrev pub translate : ℕ → ℕ → Outcome ℕ
translate paddr size =
    assert (ltb 0 size)
    >> assert (ltb paddr (2 ^ 32))
    >> assert (ltb (paddr + (size - 1)) (2 ^ 32))
    >> ok paddr

-- `PhysicalMemory::alloc_phys`
pub alloc_phys : RangeSet → ℕ → ℕ → Outcome (ℕ × RangeSet)
alloc_phys s size align = do
  (pointer, s') ← allocate usize_max s size align
  addr ← unwrap pointer
  ok (addr, s')

-- `PhysicalMemory::free_phys`
pub free_phys : RangeSet → ℕ → ℕ → Outcome RangeSet
free_phys s addr size = do
  last ← unwrap (checked_sub size 1)
  end ← unwrap (checked_add last addr)
  insert s (record { start = addr; end = end })

abbrev pub or_null : Option ℕ → ℕ
or_null none = 0
or_null (some pointer) = pointer

-- `GlobalAllocator::alloc`, on the memory behind the lock.
pub alloc : Option RangeSet → ℕ → ℕ → Outcome (ℕ × Option RangeSet)
alloc none size align = ok (0, none)
alloc (some s) size align = do
  (pointer, s') ← allocate usize_max s size align
  ok (or_null pointer, some s')

-- `GlobalAllocator::dealloc`
pub dealloc : Option RangeSet → ℕ → ℕ → Outcome (Option RangeSet)
dealloc none ptr size = panic
dealloc (some s) ptr size = do
  last ← unwrap (checked_sub size 1)
  end ← unwrap (checked_add ptr last)
  s' ← insert s (record { start = ptr; end = end })
  ok (some s')

pub record E820Entry : Type 0 where
  pub base : ℕ
  pub size : ℕ
  pub typ : ℕ

-- The BIOS call E820: nothing for an error, else an entry, the next continuation code and the state
-- of the BIOS.
pub record Bios (S : Type 0) : Type 0 where
  pub e820 : S → ℕ → Option (E820Entry × ℕ × S)

-- The range of an entry, and what is done with it.
abbrev pub entry_range : E820Entry → Outcome Range
entry_range entry = unwrap (checked_add entry.base (entry.size - 1)) >>= λ end.
    ok (record { start = entry.base; end = end })

unfoldable pub add_entry : Bool → E820Entry → RangeSet → Outcome RangeSet
add_entry add_free_mem entry free_memory =
    if add_free_mem && ((entry.typ == 1) && ltb 0 entry.size)
    then (entry_range entry >>= insert free_memory)
    else if not add_free_mem && (not (entry.typ == 1) && ltb 0 entry.size)
    then (entry_range entry >>= remove free_memory)
    else ok free_memory

module _ {S : Type 0} (bios : Bios S) where
  -- The inner loop, from the continuation code `ebx` on.
  pub scan : ℕ → S → Bool → ℕ → RangeSet → Outcome (RangeSet × S)
  scan zero s add_free_mem ebx free_memory = out_of_fuel
  scan (suc fuel) s add_free_mem ebx free_memory = do
    (entry, next, s') ← unwrap (bios.e820 s ebx)
    added ← add_entry add_free_mem entry free_memory
    let rest = scan fuel s' add_free_mem next added
    if next == 0 then ok (added, s') else rest

  pub init : ℕ → S → Option RangeSet → Outcome (Option RangeSet × S)
  init fuel s (some pmem) = ok (some pmem, s)
  init fuel s none = do
    (free, s1) ← scan fuel s true 0 new
    (usable, s2) ← scan fuel s1 false 0 free
    above ← remove usable (record { start = 0; end = 1024 * 1024 - 1 })
    ok (some above, s2)
