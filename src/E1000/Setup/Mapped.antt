-- ===== src/E1000/Setup/Mapped.antt =====
-- kernel/src/e1000.rs: the pages of the registers, as `IntelGbit::new` enters them in the page table.
use chocolate_milk.Base.{ℕ, zero, suc, ◌+◌, ◌^◌, ◌≡◌, true, ap, bit_or}
use chocolate_milk.Base.Outcome.{ok}
use chocolate_milk.PageTable.{PageType, PhysMem}
use chocolate_milk.PageTable.Map.{map_raw}
use chocolate_milk.E1000.Setup.{map_registers}

module _ {S : Type 0} (mem : PhysMem S) (root bar vaddr : ℕ) where
  -- The page table takes `left` pages of 4 KiB from `offset` on, one after the other: from the virtual
  -- to the physical address, not executable, writable, not cached and present.
  abbrev pub AreMapped : ℕ → ℕ → S → S → Type 0
  AreMapped zero offset s t = s ≡ t
  AreMapped (suc left) offset s t =
      (s1 : S) × (map_raw mem s root (vaddr + offset) PageType.page_4k
          (bit_or (bit_or (bit_or (bit_or (bar + offset) (2 ^ 63)) 2) 16) 1)
        ≡ ok (true, s1))
      × AreMapped left (offset + 4096) s1 t

  pub map_registers-AreMapped :
      (left offset : ℕ) (s t : S)
      → AreMapped left offset s t
      → map_registers mem left s root bar vaddr offset ≡ ok t
  unfolding map_registers
  map_registers-AreMapped zero offset s t same = ap (λ (x : S). ok x) same
  map_registers-AreMapped (suc left) offset s t (s1, once, rest) =
      rw once (map_registers-AreMapped left (offset + 4096) s1 t rest)
