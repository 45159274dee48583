-- ===== src/PageTable/Unmap.antt =====
-- shared/page_table/src/lib.rs: `PageTable::free`.
use chocolate_milk.Base.{
  ℕ, zero, suc, ◌+◌, ◌-◌, ◌*◌, ◌/◌, ◌%◌, ◌^◌, bit_and, bit_or, ◌||◌, ◌&&◌, ltb, leb, ◌==◌,
  if◌then◌else◌, List, [], ◌∷◌,
}
use chocolate_milk.Base.Outcome.{Outcome, ok, out_of_fuel, ◌>>=◌, ◌>>◌, assert, unwrap}
use chocolate_milk.PageTable.{PageType, bytes_of, Mapping, virt_base, size, PhysMem, translate}

-- The number of entries in use behind an entry, in its ignored bits.
abbrev pub in_use_of : ℕ → ℕ
in_use_of ent = ent / 2 ^ 52 % 2 ^ 10

-- `(nent & !0x3ff0_0000_0000_0000) | (in_use << 52)`
unfoldable pub with_in_use : ℕ → ℕ → ℕ
with_in_use nent in_use =
    bit_or (bit_and nent (2 ^ 64 - 1 - 0x3ff0_0000_0000_0000)) (in_use * 2 ^ 52 % 2 ^ 64)

-- The entries that lead to the page, the last one first.
pub table_entries : Mapping → PageType → Outcome (List ℕ)
table_entries m PageType.page_4k = do
  pml4e ← unwrap m.pml4e
  pdpe ← unwrap m.pdpe
  pde ← unwrap m.pde
  pte ← unwrap m.pte
  ok (pte ∷ pde ∷ pdpe ∷ pml4e ∷ [])
table_entries m PageType.page_2m = do
  pml4e ← unwrap m.pml4e
  pdpe ← unwrap m.pdpe
  pde ← unwrap m.pde
  ok (pde ∷ pdpe ∷ pml4e ∷ [])
table_entries m PageType.page_1g = do
  pml4e ← unwrap m.pml4e
  pdpe ← unwrap m.pdpe
  ok (pdpe ∷ pml4e ∷ [])

module _ {S : Type 0} (mem : PhysMem S) where
  -- The loop `'next_level`.
  pub unlink : List ℕ → S → Outcome S
  unlink [] s = ok s
  unlink (entry ∷ []) s = ok (mem.write s entry 0)
  unlink (entry ∷ next_entry ∷ above) s =
      let cleared = mem.write s entry 0 in
      let nent = mem.read cleared next_entry in
      let in_use = in_use_of nent in
      let freed =
        unlink (next_entry ∷ above) (mem.free_phys cleared (entry / 2 ^ 12 * 2 ^ 12) 4096) in
      if in_use == 1
      then freed
      else (assert (ltb 0 in_use && leb in_use 512)
          >> ok (mem.write cleared next_entry (with_in_use nent (in_use - 1))))

  -- One round of the loop: the page freed, its base and its size.
  pub free_page : S → Mapping → Outcome (S × ℕ × ℕ)
  free_page s cur_page = do
    page_vaddr ← unwrap (virt_base cur_page)
    page_type ← unwrap (size cur_page)
    entries ← table_entries cur_page page_type
    unlinked ← unlink entries s
    page ← unwrap cur_page.page
    ok (mem.free_phys unlinked page.0 (bytes_of page_type), page_vaddr, bytes_of page_type)

  -- The loop from the translation of `vaddr` on, with the bytes freed so far.
  pub free_pages : ℕ → S → ℕ → ℕ → ℕ → ℕ → Outcome (S × ℕ)
  free_pages zero s root vaddr end freed = out_of_fuel
  free_pages (suc fuel) s root vaddr end freed = do
    mapped ← unwrap (translate mem s root vaddr)
    (s', page_vaddr, bytes) ← free_page s mapped
    let next_page = page_vaddr + bytes
    let total = freed + bytes
    let rest = free_pages fuel s' root next_page end total
    if leb (2 ^ 64) next_page || ltb end next_page then ok (s', total) else rest

  abbrev flush : S → ℕ → S
  flush s root =
      if mem.read_cr3 s / 2 ^ 12 * 2 ^ 12 == root then mem.write_cr3 s (mem.read_cr3 s) else s

  -- Every page takes 4096 bytes at least, hence the fuel.
  pub free : S → ℕ → ℕ → ℕ → Outcome S
  free s root vaddr bytes = do
    assert (ltb 0 bytes)
    let end = vaddr + (bytes - 1)
    assert (ltb end (2 ^ 64))
    (s', freed) ← free_pages (bytes / 2 ^ 12 + 2) s root vaddr end 0
    assert (freed == bytes)
    ok (flush s' root)
