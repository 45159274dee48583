-- ===== src/PageTable/Map.antt =====
-- shared/page_table/src/lib.rs: `map_raw`, `map_init` and `map`.
pub mod Path
pub mod Grow
pub mod Install
pub mod Begins
pub mod Mapped
pub mod Found
use chocolate_milk.Base.{
  ℕ, zero, suc, ◌+◌, ◌-◌, ◌*◌, ◌/◌, ◌%◌, ◌^◌, bit_or, Bool, true, false, not, ◌||◌, ◌&&◌, ltb, leb,
  ◌==◌, if◌then◌else◌, is_none, Option, none, some, List, [], ◌∷◌, get_elem?, set,
}
use chocolate_milk.Base.Outcome.{Outcome, ok, panic, ◌>>=◌, ◌>>◌, assert, unwrap, index}
use chocolate_milk.PageTable.{
  PageType, bytes_of, Mapping, PhysMem, translate, alloc_phys_zeroed, indices, is_present, is_large,
  page_present, page_write, page_user, page_size_bit, page_nx,
}
use chocolate_milk.PageTable.Unmap.{in_use_of, with_in_use, free}

abbrev pub depth_of : PageType → ℕ
depth_of PageType.page_1g = 2
depth_of PageType.page_2m = 3
depth_of PageType.page_4k = 4

abbrev pub is_4k : PageType → Bool
is_4k PageType.page_4k = true
is_4k _ = false

abbrev pub entries_of : Mapping → List (Option ℕ)
entries_of m = m.pml4e ∷ m.pdpe ∷ m.pde ∷ m.pte ∷ []

-- `entries.get(depth).map_or(false, |x| x.is_some())`
abbrev pub is_entry : Option (Option ℕ) → Bool
is_entry (some (some e)) = true
is_entry _ = false

-- `entries[i].unwrap()`
abbrev pub entry_of : List (Option ℕ) → ℕ → Outcome ℕ
entry_of entries i = index entries i >>= unwrap

module _ {S : Type 0} (mem : PhysMem S) where
  -- One more entry in use in the table behind an entry.
  unfoldable pub add_reference : S → ℕ → S
  add_reference s entry =
      let nent = mem.read s entry in mem.write s entry (with_in_use nent (in_use_of nent + 1))

  -- A new table behind `entries[ii - 1]`.
  unfoldable pub create_table : ℕ → ℕ → S → List (Option ℕ) → Outcome (S × List (Option ℕ))
  create_table vaddr ii s entries = do
    allocated ← alloc_phys_zeroed mem s 4096 4096
    let table = allocated.0
    ptr ← entry_of entries (ii - 1)
    counted ←
        (if leb 2 ii
          then (entry_of entries (ii - 2) >>= λ e. ok (add_reference allocated.1 e))
          else ok allocated.1)
    let linked =
        mem.write counted ptr (bit_or (bit_or (bit_or table page_user) page_write) page_present)
    i ← index (indices vaddr) ii
    ok (linked, set entries ii (some (table + i * 8)))

  -- The loop over `ii..depth`, with the number of rounds left.
  unfoldable pub create_tables : ℕ → ℕ → ℕ → S → List (Option ℕ) → Outcome (S × List (Option ℕ))
  create_tables zero vaddr ii s entries = ok (s, entries)
  create_tables (suc left) vaddr ii s entries = do
    entry ← index entries ii
    (s', entries') ← (if is_none entry then create_table vaddr ii s entries else ok (s, entries))
    create_tables left vaddr (suc ii) s' entries'

  -- From the point on where `map_raw` only succeeds or panics.
  unfoldable pub install : S → ℕ → ℕ → ℕ → Mapping → Outcome S
  install s vaddr depth raw m = do
    assert (not (is_none m.pml4e))
    (s', entries) ← create_tables (depth - 1) vaddr 1 s (entries_of m)
    above ← entry_of entries (depth - 2)
    last ← entry_of entries (depth - 1)
    ok (mem.write (add_reference s' above) last raw)

  -- `map_raw`: whether the page was mapped, and the state.
  unfoldable pub map_raw : S → ℕ → ℕ → PageType → ℕ → Outcome (Bool × S)
  map_raw s root vaddr page_type raw =
      if not (is_present raw) || (not (is_4k page_type) && not (is_large raw))
      then ok (false, s)
      else elim (translate mem s root vaddr) [
        | none ↦ ok (false, s)
        | some m ↦
            if not (is_none m.page)
            then ok (false, s)
            else if is_entry (get_elem? (entries_of m) (depth_of page_type))
            then ok (false, s)
            else (install s vaddr (depth_of page_type) raw m >>= λ s'. ok (true, s'))
      ]

  -- The bytes of a page from offset `off` on, of which `left` remain.
  pub init_page : (ℕ → ℕ) → ℕ → ℕ → ℕ → ℕ → S → S
  init_page init page start zero off s = s
  init_page init page start (suc left) off s =
      init_page init page start left (suc off) (mem.write_byte s (page + off) (init (start + off)))

  abbrev pub page_entry : ℕ → PageType → Bool → Bool → ℕ
  page_entry page page_type write exec =
      bit_or
        (bit_or (bit_or (bit_or page page_present) (if write then page_write else 0))
          (if exec then 0 else page_nx))
        (if is_4k page_type then 0 else page_size_bit)

  abbrev pub init_with : Option (ℕ → ℕ) → ℕ → ℕ → ℕ → S → S
  init_with none page start bytes s = s
  init_with (some init) page start bytes s = init_page init page start bytes 0 s

  -- The loop over the pages of the mapping, of which `left` remain from `vaddr` on.
  pub map_pages : ℕ → S → ℕ → ℕ → ℕ → PageType → Bool → Bool → Option (ℕ → ℕ) → Outcome (Bool × S)
  map_pages zero s root orig vaddr page_type write exec init = ok (true, s)
  map_pages (suc left) s root orig vaddr page_type write exec init = do
    let bytes = bytes_of page_type
    allocated ← unwrap (mem.alloc_phys s bytes bytes)
    let ent = page_entry allocated.0 page_type write exec
    let filled = init_with init allocated.0 (vaddr - orig) bytes allocated.1
    (mapped, s') ← map_raw filled root vaddr page_type ent
    let rest = map_pages left s' root orig (vaddr + bytes) page_type write exec init
    let undone =
        (if ltb 0 (vaddr - orig)
          then (free mem s' root orig (vaddr - orig) >>= λ s''. ok (false, s''))
          else ok (false, s'))
    if mapped then rest else undone

  pub map_init : S → ℕ → ℕ → PageType → ℕ → Bool → Bool → Bool → Option (ℕ → ℕ) → Outcome (Bool × S)
  map_init s root vaddr page_type bytes read write exec init =
      if (bytes == 0) || not (vaddr % bytes_of page_type == 0)
      then ok (false, s)
      else if leb (2 ^ 64) (vaddr + (bytes - 1))
      then ok (false, s)
      else map_pages ((bytes - 1) / bytes_of page_type + 1) s root vaddr vaddr page_type write exec
          init

  pub map : S → ℕ → ℕ → PageType → ℕ → Bool → Bool → Bool → Outcome (Bool × S)
  map s root vaddr page_type bytes read write exec =
      map_init s root vaddr page_type bytes read write exec none
