-- ===== src/KernelMemory.antt =====
-- kernel/src/mm.rs: the virtual addresses of the kernel, its global allocator and `PhysContig`, over
-- the page table at `root`. The next free virtual address is an argument and a result.
pub mod Numa
use package.chocolate_milk.Base.{
  ℕ, zero, suc, ◌+◌, ◌-◌, ◌*◌, ◌/◌, ◌%◌, ◌^◌, max, bit_or, Bool, true, false, ◌&&◌, ltb, ◌==◌,
  if◌then◌else◌, Option, none, some,
}
use package.chocolate_milk.Base.Outcome.{Outcome, ok, ◌>>=◌, ◌>>◌, assert, unwrap}
use package.chocolate_milk.RangeSet.Alloc.{checked_add}
use package.chocolate_milk.PageTable.{PageType, PhysMem, page_nx, page_write, page_present}
use package.chocolate_milk.PageTable.Map.{map_raw, map}
use package.chocolate_milk.PageTable.Unmap.{free}

abbrev pub guard_page_size : ℕ
guard_page_size = 32 * 1024

unfoldable pub alloc_virt_addr_4k : ℕ → ℕ → Outcome (ℕ × ℕ)
alloc_virt_addr_4k next_free_vaddr size =
    assert (ltb 0 size && (size % 2 ^ 12 == 0))
    >> unwrap (checked_add guard_page_size size)
    >>= λ reserve_size. unwrap (checked_add next_free_vaddr reserve_size) >>= λ end.
        ok (next_free_vaddr, (next_free_vaddr + reserve_size) % 2 ^ 64)

-- `size` rounded up to 4 KiB, by `checked_add` and a mask.
abbrev pub align_size : ℕ → Option ℕ
align_size size =
    if ltb (size + 0xfff) (2 ^ 64) then some ((size + 0xfff) / 2 ^ 12 * 2 ^ 12) else none

-- A virtual and a physical address.
pub record PhysContig : Type 0 where
  pub vaddr : ℕ
  pub paddr : ℕ

module _ {S : Type 0} (mem : PhysMem S) where
  -- The end of `opt_alloc`, with the page table.
  pub map_alloc : S → ℕ → ℕ → ℕ → Outcome (Option ℕ × S)
  map_alloc s root vaddr alignsize =
      map mem s root vaddr PageType.page_4k alignsize true true false >>= λ mapped.
      ok (if mapped.0 then some vaddr else none, mapped.1)

  -- `GlobalAllocator::opt_alloc`, where `page_table` is the root behind the lock.
  pub opt_alloc : S → Option ℕ → ℕ → ℕ → Outcome (Option ℕ × S × ℕ)
  opt_alloc s page_table next_free_vaddr size = elim (align_size size) [
    | none ↦ ok (none, s, next_free_vaddr)
    | some alignsize ↦ alloc_virt_addr_4k next_free_vaddr alignsize >>= λ v. elim page_table [
      | none ↦ ok (none, s, v.1)
      | some root ↦ map_alloc s root v.0 alignsize >>= λ a. ok (a.0, a.1, v.1)
    ]
  ]

  -- `GlobalAllocator::dealloc`
  pub dealloc : S → Option ℕ → ℕ → ℕ → Outcome S
  dealloc s page_table ptr size = do
    alignsize ← unwrap (align_size size)
    root ← unwrap page_table
    free mem s root ptr alignsize

  -- The loop over the pages of a `PhysContig`, of which `left` remain.
  unfoldable pub map_contig : ℕ → S → ℕ → ℕ → ℕ → ℕ → Outcome S
  map_contig zero s root vaddr paddr offset = ok s
  map_contig (suc left) s root vaddr paddr offset = do
    let raw = bit_or (bit_or (bit_or (paddr + offset) page_nx) page_write) page_present
    (mapped, s') ← map_raw mem s root (vaddr + offset) PageType.page_4k raw
    assert mapped
    map_contig left s' root vaddr paddr (offset + 4096)

  -- `PhysContig::new`, for a value of `size` bytes at a multiple of `align`, up to the write of the
  -- value.
  unfoldable pub new : S → Option ℕ → ℕ → ℕ → ℕ → Outcome (PhysContig × S × ℕ)
  new s page_table next_free_vaddr size align = do
    assert (ltb 0 size)
    let alc_size = max 4096 size
    (paddr, s1) ← unwrap (mem.alloc_phys s alc_size (max 4096 align))
    (vaddr, next) ← alloc_virt_addr_4k next_free_vaddr alc_size
    root ← unwrap page_table
    s2 ← map_contig ((alc_size - 1) / 4096 + 1) s1 root vaddr paddr 0
    ok (record { vaddr = vaddr; paddr = paddr }, s2, next)

  -- The `drop` of a `PhysContig`, behind that of the value.
  pub drop_contig : S → Option ℕ → PhysContig → ℕ → Outcome S
  drop_contig s page_table contig size = dealloc s page_table contig.vaddr size
