-- ===== src/PeParser.antt =====
-- shared/pe_parser/src/lib.rs: `parse` and `sections` over the bytes of a PE file. The largest
-- `usize` is an argument; an offset that is added to without a check is below the length of the
-- bytes, where `usize` does not wrap.
pub mod Bounds
use package.chocolate_milk.Base.{
  ℕ, zero, suc, ◌+◌, ◌-◌, ◌*◌, ◌^◌, min, bit_and, Bool, true, false, not, ◌&&◌, leb, ltb, ◌==◌,
  if◌then◌else◌, Option, none, some, List, [], ◌∷◌, length,
}
use package.chocolate_milk.Base.Bytes.{same_bytes, slice, from_le_16, from_le_32, from_le_64}
use package.chocolate_milk.Base.Parsed.{Parsed, found, absent, ◌>>=◌, ◌>>◌, try, checked, refuse_if}

abbrev pub machine_i386 : ℕ
machine_i386 = 0x014c

abbrev pub machine_x86_64 : ℕ
machine_x86_64 = 0x8664

abbrev mem_execute : ℕ
mem_execute = 0x2000_0000

abbrev mem_read : ℕ
mem_read = 0x4000_0000

abbrev mem_write : ℕ
mem_write = 0x8000_0000

abbrev pub u64_max : ℕ
u64_max = 2 ^ 64 - 1

pub record PeParser : Type 0 where
  pub bytes : List ℕ
  pub num_sections : ℕ
  pub section_off : ℕ
  pub image_base : ℕ
  pub entry_point : ℕ

-- `a.checked_add(b)` and `a.checked_mul(b)` below the largest value of the type.
abbrev pub checked_add : ℕ → ℕ → ℕ → Option ℕ
checked_add most a b = if leb (a + b) most then some (a + b) else none

abbrev pub checked_mul : ℕ → ℕ → ℕ → Option ℕ
checked_mul most a b = if leb (a * b) most then some (a * b) else none

-- `slice == Some(magic)`
abbrev pub is_magic : Option (List ℕ) → List ℕ → Bool
is_magic none magic = false
is_magic (some bytes) magic = same_bytes bytes magic

-- A little endian integer in a slice that panics out of range.
abbrev pub half_in : ℕ → List ℕ → Parsed ℕ
half_in at bytes = checked (slice at (at + 2) bytes) >>= λ b. try (from_le_16 b)

abbrev pub word_in : ℕ → List ℕ → Parsed ℕ
word_in at bytes = checked (slice at (at + 4) bytes) >>= λ b. try (from_le_32 b)

-- The same behind `bytes.get(..)?`.
abbrev pub get_word : ℕ → List ℕ → Parsed ℕ
get_word at bytes = try (slice at (at + 4) bytes) >>= λ b. try (from_le_32 b)

unfoldable pub image_base_of : ℕ → ℕ → List ℕ → Parsed ℕ
image_base_of machine pe_offset bytes =
    if machine == machine_i386
    then get_word (pe_offset + 0x34) bytes
    else (try (slice (pe_offset + 0x30) (pe_offset + 0x38) bytes) >>= λ b. try (from_le_64 b))

-- From the COFF header on, once it is known to be in bounds.
unfoldable pub parse_coff : ℕ → ℕ → List ℕ → Parsed PeParser
parse_coff usize_max pe_offset bytes = do
  machine ← half_in (pe_offset + 4) bytes
  refuse_if (not (machine == machine_i386) && not (machine == machine_x86_64))
  num_sections ← half_in (pe_offset + 6) bytes
  opt_header_size ← half_in (pe_offset + 0x14) bytes
  image_base ← image_base_of machine pe_offset bytes
  entry ← get_word (pe_offset + 0x28) bytes
  entry_point ← try (checked_add u64_max image_base entry)
  coff_end ← try (checked_add usize_max pe_offset 0x18)
  opt_end ← try (checked_add usize_max coff_end opt_header_size)
  table_size ← try (checked_mul usize_max num_sections 0x28)
  header_size ← try (checked_add usize_max opt_end table_size)
  refuse_if (ltb (length bytes) header_size)
  found (record {
    bytes = bytes;
    num_sections = num_sections;
    section_off = pe_offset + 0x18 + opt_header_size;
    image_base = image_base;
    entry_point = entry_point;
  })

unfoldable pub parse : ℕ → List ℕ → Parsed PeParser
parse usize_max bytes = do
  refuse_if (not (is_magic (slice 0 2 bytes) (b'M' ∷ b'Z' ∷ [])))
  pe_offset ← get_word 0x3c bytes
  signature_end ← try (checked_add usize_max pe_offset 4)
  refuse_if (not (is_magic (slice pe_offset signature_end bytes) (b'P' ∷ b'E' ∷ 0 ∷ 0 ∷ [])))
  coff_end ← try (checked_add usize_max pe_offset 0x18)
  refuse_if (ltb (length bytes) coff_end)
  parse_coff usize_max pe_offset bytes

-- The arguments of the closure.
pub record Section : Type 0 where
  pub virt_addr : ℕ
  pub virt_size : ℕ
  pub raw : List ℕ
  pub read : Bool
  pub write : Bool
  pub execute : Bool

-- The section header at `off`.
unfoldable pub section_at : ℕ → PeParser → ℕ → Parsed Section
section_at usize_max pe off = do
  virt_size ← word_in (off + 0x8) pe.bytes
  virt_addr ← word_in (off + 0xc) pe.bytes
  raw_size ← word_in (off + 0x10) pe.bytes
  raw_off ← word_in (off + 0x14) pe.bytes
  characteristics ← word_in (off + 0x24) pe.bytes
  addr ← try (checked_add u64_max pe.image_base virt_addr)
  raw_end ← try (checked_add usize_max raw_off (min raw_size virt_size))
  raw ← try (slice raw_off raw_end pe.bytes)
  found (record {
    virt_addr = addr;
    virt_size = virt_size;
    raw = raw;
    read = not (bit_and characteristics mem_read == 0);
    write = not (bit_and characteristics mem_write == 0);
    execute = not (bit_and characteristics mem_execute == 0);
  })

-- The loop over `section..num_sections`; the closure carries a state.
unfoldable pub sections_from :
    {S : Type 0} → ℕ → PeParser → (S → Section → Parsed S) → ℕ → ℕ → S → Parsed S
sections_from usize_max pe func zero section s = found s
sections_from usize_max pe func (suc left) section s =
    section_at usize_max pe (pe.section_off + section * 0x28) >>= λ sec.
    func s sec >>= λ s'. sections_from usize_max pe func left (suc section) s'

unfoldable pub sections : {S : Type 0} → ℕ → PeParser → (S → Section → Parsed S) → S → Parsed S
sections usize_max pe func s = sections_from usize_max pe func pe.num_sections 0 s
