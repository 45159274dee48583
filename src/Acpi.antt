-- ===== src/Acpi.antt =====
-- kernel/src/acpi.rs: the states of the APICs, the search for the RSDP and the headers of the tables,
-- on the bytes of physical memory. No address here leaves the window that `read_phys` asserts.
pub mod Search
pub mod States
pub mod Madt
pub mod Srat
pub mod Cores
pub mod Tables
use package.chocolate_milk.Base.{
  ℕ, zero, suc, ◌+◌, ◌-◌, ◌*◌, ◌/◌, ◌%◌, ◌^◌, Bool, true, false, not, ◌&&◌, ltb, leb, ◌==◌,
  if◌then◌else◌, Option, none, some, List, [], ◌∷◌, length, set, replicate,
}
use package.chocolate_milk.Base.Bytes.{same_bytes}
use package.chocolate_milk.Base.Outcome.{Outcome, ok, panic, ◌>>=◌, ◌>>◌, assert, unwrap, index}

pub data ApicState : Type 0 where
  online : ApicState
  launched : ApicState
  offline : ApicState
  absent : ApicState
  halted : ApicState

abbrev pub max_cores : ℕ
max_cores = 1024

-- `state as u8`
abbrev pub state_code : ApicState → ℕ
state_code ApicState.online = 1
state_code ApicState.launched = 2
state_code ApicState.offline = 3
state_code ApicState.absent = 4
state_code ApicState.halted = 5

abbrev pub state_of : ℕ → Outcome ApicState
state_of val =
    if val == 1
    then ok ApicState.online
    else if val == 2
    then ok ApicState.launched
    else if val == 3
    then ok ApicState.offline
    else if val == 4
    then ok ApicState.absent
    else if val == 5
    then ok ApicState.halted
    else panic

abbrev pub no_apics : List ℕ
no_apics = replicate max_cores (state_code ApicState.absent)

unfoldable pub set_core_state : List ℕ → ℕ → ApicState → Outcome (List ℕ)
set_core_state apics apic_id state =
    index apics apic_id >>= λ old. ok (set apics apic_id (state_code state))

unfoldable pub core_state : List ℕ → ℕ → Outcome ApicState
core_state apics apic_id = index apics apic_id >>= state_of

-- The bytes of physical memory.
abbrev pub PhysBytes : Type 0
PhysBytes = ℕ → ℕ

abbrev pub read_bytes : PhysBytes → ℕ → ℕ → List ℕ
read_bytes m a zero = []
read_bytes m a (suc n) = m a ∷ read_bytes m (a + 1) n

abbrev pub read_u32 : PhysBytes → ℕ → ℕ
read_u32 m a = m a + m (a + 1) * 2 ^ 8 + m (a + 2) * 2 ^ 16 + m (a + 3) * 2 ^ 24

-- The fold with `wrapping_add` on u8.
abbrev pub sum_bytes : ℕ → List ℕ → ℕ
sum_bytes acc [] = acc
sum_bytes acc (x ∷ xs) = sum_bytes ((acc + x) % 2 ^ 8) xs

abbrev pub rsdp_size : ℕ
rsdp_size = 36

-- `RSD PTR `
abbrev pub rsdp_signature : List ℕ
rsdp_signature = 0x52 ∷ 0x53 ∷ 0x44 ∷ 0x20 ∷ 0x50 ∷ 0x54 ∷ 0x52 ∷ 0x20 ∷ []

-- The signature and the checksum.
unfoldable pub is_rsdp : PhysBytes → ℕ → Bool
is_rsdp m paddr =
    same_bytes (read_bytes m paddr 8) rsdp_signature
    && (sum_bytes 0 (read_bytes m paddr rsdp_size) == 0)

-- The inner loop of the search, with the number of steps left.
unfoldable pub scan_from : PhysBytes → ℕ → ℕ → ℕ → ℕ → Option ℕ
scan_from m start end zero paddr = none
scan_from m start end (suc left) paddr =
    let rest = scan_from m start end left (paddr + 16) in
    if ltb end (start + rsdp_size - 1) then none else if is_rsdp m paddr then some paddr else rest

-- A region, from the next multiple of 16 on.
unfoldable pub scan_region : PhysBytes → ℕ → ℕ → Option ℕ
scan_region m first end =
    let start = (first + 0xf) / 16 * 16 in
    if ltb end start then none else scan_from m start end ((end - start) / 16 + 1) start

abbrev pub or_else : Option ℕ → Option ℕ → Option ℕ
or_else none o = o
or_else (some a) o = some a

-- `'rsdp_search`, for the EBDA that the BIOS data area names.
unfoldable pub find_rsdp : PhysBytes → Option ℕ
find_rsdp m =
    let ebda = m 0x40e + m 0x40f * 2 ^ 8 in
    or_else (scan_region m ebda (ebda + 1024 - 1)) (scan_region m 0xe0000 0xfffff)

pub record TableHeader : Type 0 where
  pub signature : List ℕ
  pub length : ℕ

abbrev pub table_header_size : ℕ
table_header_size = 36

unfoldable pub parse_header : PhysBytes → ℕ → Outcome (TableHeader × ℕ × ℕ)
parse_header m addr =
    let head : TableHeader = record {
      signature = read_bytes m addr 4;
      length = read_u32 m (addr + 4);
    } in
    assert (not (ltb head.length table_header_size))
    >> assert (sum_bytes 0 (read_bytes m addr head.length) == 0)
    >> ok (head, addr + table_header_size, head.length - table_header_size)
