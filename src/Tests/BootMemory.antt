-- ===== src/Tests/BootMemory.antt =====
-- bootloader/src/mm.rs with a BIOS that lists three entries.
use chocolate_milk.Base.{
  ℕ, ◌*◌, ◌≤◌, ◌≡◌, ◌↔◌, refl, arith, true, false, ◌==◌, if◌then◌else◌, none, some, List, [], ◌∷◌,
  replicate,
}
use chocolate_milk.Base.Outcome.{ok}
use chocolate_milk.RangeSet.{RangeSet}
use chocolate_milk.RangeSet.Sets.{Contains, IsValid}
use chocolate_milk.BootMemory.{E820Entry, Bios, init, alloc, alloc_phys}
use chocolate_milk.BootMemory.Entry.{AllFit, AnyHit}
use chocolate_milk.BootMemory.Usable.{Lists, last, more, init-Contains}
use chocolate_milk.BootMemory.Freed.{Lent, alloc-Lent}

abbrev entry : ℕ → ℕ → ℕ → E820Entry
entry base size typ = record { base = base; size = size; typ = typ }

abbrev listed : List E820Entry
listed = entry 0 0xa0000 1 ∷ entry 0x100000 0x7f00000 1 ∷ entry 0x7fe0000 0x20000 2 ∷ []

abbrev small_bios : Bios (Unit {0})
small_bios = record {
  e820 = λ s ebx.
      if ebx == 0
      then some (entry 0 0xa0000 1, 1, tt)
      else if ebx == 1
      then some (entry 0x100000 0x7f00000 1, 2, tt)
      else some (entry 0x7fe0000 0x20000 2, 0, tt);
}

small_bios-Lists : Lists small_bios tt 0 listed tt
small_bios-Lists =
    more (entry 0 0xa0000 1) refl (omega arith)
      (more (entry 0x100000 0x7f00000 1) refl (omega arith) (last (entry 0x7fe0000 0x20000 2) refl))

listed-AllFit : AllFit listed
listed-AllFit = (omega arith, (omega arith, (omega arith, tt)))

init-Contains_example :
    ((memory : RangeSet) × (init small_bios 3 tt none ≡ ok (some memory, tt))
      × IsValid memory
      × ((x : ℕ)
          → Contains memory x
            ↔ (AnyHit true listed x × (¬ AnyHit false listed x) × (1024 * 1024 ≤ x))))
    × ((old : RangeSet) → init small_bios 3 tt (some old) ≡ ok (some old, tt))
init-Contains_example =
    init-Contains small_bios 3 tt tt tt listed listed small_bios-Lists small_bios-Lists
      listed-AllFit listed-AllFit (omega arith) (omega arith) (omega arith)

abbrev one_range : RangeSet
one_range = record {
  ranges =
      record { start = 0x100100; end = 0x7fdffff } ∷ replicate 255 (record { start = 0; end = 0 });
  in_use = 1;
}

one_range-IsValid : IsValid one_range
one_range-IsValid = record { capacity = refl; in_bounds = omega arith; canonical = omega arith }

alloc-Lent_example :
    Lent one_range 0x1000 0x1000
      (alloc (some one_range) 0x1000 0x1000)
      (alloc_phys one_range 0x1000 0x1000)
alloc-Lent_example =
    alloc-Lent one_range 0x1000 0x1000 one_range-IsValid (omega arith) (omega arith) (omega arith)
