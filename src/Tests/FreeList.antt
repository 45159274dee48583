-- ===== src/Tests/FreeList.antt =====
-- kernel/src/mm.rs with an empty list of free pages.
use chocolate_milk.Base.{ℕ, ◌+◌, ◌-◌, ◌*◌, ◌^◌, ◌≡◌, refl, arith, none, some, [], ◌∷◌, replicate}
use chocolate_milk.Base.Outcome.{ok}
use chocolate_milk.RangeSet.{RangeSet}
use chocolate_milk.RangeSet.Alloc.{allocate_prefer}
use chocolate_milk.FreeList.{PageFreeList, free_list_batch, pop, alloc_phys, free_phys}
use chocolate_milk.FreeList.Stack.{IsStack}
use chocolate_milk.FreeList.Lifo.{batch, pop-batch, alloc_phys-free_phys}

abbrev no_pages : PageFreeList
no_pages = record {
  head = 0;
  nodes = λ a. record { next = 0; free_slots = 0; free_pages = λ i. 0 };
}

no_pages-IsStack : IsStack no_pages []
no_pages-IsStack = record { addresses = []; chain = refl; apart = tt; holds = refl }

abbrev free_from : ℕ → RangeSet
free_from start = record {
  ranges =
      record { start = start; end = 0x7fdffff } ∷ replicate 255 (record { start = 0; end = 0 });
  in_use = 1;
}

a_batch :
    allocate_prefer (2 ^ 64 - 1) (free_from 0x100000) free_list_batch 4096 none
    ≡ ok (some 0x100000, free_from 0x200000)
unfolding allocate_prefer
a_batch = refl

pop-batch_example :
    (l' : PageFreeList) × (pop (free_from 0x100000) none no_pages
      ≡ ok (0x100000 + 255 * 4096, l', free_from 0x200000))
    × IsStack l' (batch 255 0x100000 [])
pop-batch_example =
    pop-batch (free_from 0x100000) none no_pages 0x100000 (free_from 0x200000) no_pages-IsStack
      a_batch (omega arith) (omega arith)

alloc_phys-free_phys_example :
    (l' : PageFreeList) × (free_phys (free_from 0x100000) no_pages 0x5000 4096
      ≡ ok (l', free_from 0x100000))
    × IsStack l' (0x5000 ∷ [])
    × ((l'' : PageFreeList) × (alloc_phys (free_from 0x100000) none l' 4096 4096
          ≡ ok (0x5000, l'', free_from 0x100000))
        × IsStack l'' [])
alloc_phys-free_phys_example =
    alloc_phys-free_phys (free_from 0x100000) none no_pages [] 0x5000 no_pages-IsStack
      (omega arith, omega arith) refl tt
