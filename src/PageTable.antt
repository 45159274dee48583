-- ===== src/PageTable.antt =====
-- shared/page_table/src/lib.rs: the 4-level page tables of x86_64, over physical memory that the user
-- of the tables provides. `& 0x1ff` and the like are remainders, shifts are by powers of two.
pub mod Unmap
pub mod Map
pub mod Located
pub mod Address
pub mod Laws
use package.chocolate_milk.Base.{
  ℕ, zero, suc, ◌+◌, ◌-◌, ◌*◌, ◌/◌, ◌%◌, ◌^◌, bit_or, Bool, not, ◌||◌, ltb, ◌==◌, if◌then◌else◌,
  is_none, Option, none, some, List, [], ◌∷◌,
}
use package.chocolate_milk.Base.Outcome.{Outcome, ok, unwrap, ◌>>=◌}

abbrev pub page_present : ℕ
page_present = 2 ^ 0

abbrev pub page_write : ℕ
page_write = 2 ^ 1

abbrev pub page_user : ℕ
page_user = 2 ^ 2

abbrev pub page_cache_disable : ℕ
page_cache_disable = 2 ^ 4

abbrev pub page_size_bit : ℕ
page_size_bit = 2 ^ 7

abbrev pub page_nx : ℕ
page_nx = 2 ^ 63

pub data PageType : Type 0 where
  page_4k : PageType
  page_2m : PageType
  page_1g : PageType

-- `page_type as u64`
abbrev pub bytes_of : PageType → ℕ
bytes_of PageType.page_4k = 2 ^ 12
bytes_of PageType.page_2m = 2 ^ 21
bytes_of PageType.page_1g = 2 ^ 30

pub record Mapping : Type 0 where
  pub pml4e : Option ℕ
  pub pdpe : Option ℕ
  pub pde : Option ℕ
  pub pte : Option ℕ
  pub page : Option (ℕ × ℕ)

-- An arithmetic shift right by 16 of the bits of an `i64`.
abbrev shift_right_signed : ℕ → ℕ
shift_right_signed x = if ltb x (2 ^ 63) then x / 2 ^ 16 else x / 2 ^ 16 + (2 ^ 64 - 2 ^ 48)

unfoldable pub canonicalize_address : ℕ → ℕ
canonicalize_address addr = shift_right_signed (addr * 2 ^ 16 % 2 ^ 64)

-- `(entry.unwrap_or(PhysAddr(0)).0 & 0xfff) / ES`
abbrev pub entry_index : Option ℕ → ℕ
entry_index none = 0
entry_index (some entry) = entry % 2 ^ 12 / 8

pub virt_base : Mapping → Option ℕ
virt_base m =
    if is_none m.page
    then none
    else some (
        canonicalize_address (
          bit_or
            (bit_or (bit_or (entry_index m.pml4e * 2 ^ 39) (entry_index m.pdpe * 2 ^ 30))
              (entry_index m.pde * 2 ^ 21))
            (entry_index m.pte * 2 ^ 12)))

pub size : Mapping → Option PageType
size m =
    if is_none m.page
    then none
    else if is_none m.pde
    then some PageType.page_1g
    else if is_none m.pte
    then some PageType.page_2m
    else some PageType.page_4k

-- `PhysMem` on the state of physical memory: the accesses through the pointers of `translate`, the
-- allocator, which panics when it gives `none`, and the register `cr3`.
pub record PhysMem (S : Type 0) : Type 0 where
  pub read : S → ℕ → ℕ
  pub write : S → ℕ → ℕ → S
  pub write_byte : S → ℕ → ℕ → S
  pub zero_bytes : S → ℕ → ℕ → S
  pub alloc_phys : S → ℕ → ℕ → Option (ℕ × S)
  pub free_phys : S → ℕ → ℕ → S
  pub read_cr3 : S → ℕ
  pub write_cr3 : S → ℕ → S

-- `indicies`
abbrev pub indices : ℕ → List ℕ
indices vaddr =
    vaddr / 2 ^ 39 % 512 ∷ vaddr / 2 ^ 30 % 512 ∷ vaddr / 2 ^ 21 % 512 ∷ vaddr / 2 ^ 12 % 512 ∷ []

abbrev pub is_present : ℕ → Bool
is_present ent = ent % 2 == 1

abbrev pub is_large : ℕ → Bool
is_large ent = ent / 2 ^ 7 % 2 == 1

-- `ent & 0xffffffffff000`
abbrev pub table_of : ℕ → ℕ
table_of ent = ent % 2 ^ 52 / 2 ^ 12 * 2 ^ 12

-- `match depth` on the entry of that level.
abbrev pub set_entry : ℕ → ℕ → Mapping → Mapping
set_entry zero ptp m = record m { pml4e = some ptp }
set_entry (suc zero) ptp m = record m { pdpe = some ptp }
set_entry (suc (suc zero)) ptp m = record m { pde = some ptp }
set_entry (suc (suc (suc depth))) ptp m = record m { pte = some ptp }

-- `page_mask + 1` at the depths where a page can end.
abbrev pub level_bytes : ℕ → ℕ
level_bytes (suc zero) = bytes_of PageType.page_1g
level_bytes (suc (suc zero)) = bytes_of PageType.page_2m
level_bytes _ = bytes_of PageType.page_4k

abbrev pub set_page : ℕ → ℕ → ℕ → Mapping → Mapping
set_page zero table vaddr m = m
set_page (suc depth) table vaddr m =
    let bytes = level_bytes (suc depth) in
    record m { page = some (table / bytes * bytes, vaddr % bytes) }

abbrev pub nothing_mapped : Mapping
nothing_mapped = record { pml4e = none; pdpe = none; pde = none; pte = none; page = none }

module _ {S : Type 0} (mem : PhysMem S) where
  -- The loop of `translate` over the levels from `depth` on.
  unfoldable pub walk : S → ℕ → ℕ → ℕ → List ℕ → Mapping → Mapping
  walk s vaddr table depth [] ret = ret
  walk s vaddr table depth (index ∷ rest) ret =
      let ptp = table + index * 8 in
      let here = set_entry depth ptp ret in
      let ent = mem.read s ptp in
      let deeper = walk s vaddr (table_of ent) (suc depth) rest here in
      if not (is_present ent)
      then here
      else if (depth == 3) || is_large ent
      then set_page depth (table_of ent) vaddr here
      else deeper

  -- `PageTable::translate` in the table at `root`.
  unfoldable pub translate : S → ℕ → ℕ → Option Mapping
  translate s root vaddr =
      if not (canonicalize_address vaddr == vaddr)
      then none
      else some (walk s vaddr root 0 (indices vaddr) nothing_mapped)

  unfoldable pub alloc_phys_zeroed : S → ℕ → ℕ → Outcome (ℕ × S)
  alloc_phys_zeroed s size align =
      unwrap (mem.alloc_phys s size align) >>= λ a. ok (a.0, mem.zero_bytes a.1 a.0 size)

  -- `PageTable::new`: the root table.
  pub new : S → Outcome (ℕ × S)
  new s = alloc_phys_zeroed s 4096 4096
