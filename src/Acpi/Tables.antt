-- ===== src/Acpi/Tables.antt =====
-- kernel/src/acpi.rs: `init`, which finds the tables and starts from them.
pub mod Found
use package.chocolate_milk.Base.{
  ℕ, zero, suc, ◌+◌, ◌*◌, ◌/◌, ◌%◌, ◌==◌, if◌then◌else◌, is_none, Option, none, some, List, [], ◌∷◌,
}
use package.chocolate_milk.Base.Bytes.{same_bytes}
use package.chocolate_milk.Base.Outcome.{Outcome, ok, ◌>>=◌, ◌>>◌, assert, unwrap}
use package.chocolate_milk.RangeSet.{Range}
use package.chocolate_milk.Acpi.{PhysBytes, read_bytes, read_u32, find_rsdp, parse_header}
use package.chocolate_milk.Acpi.Madt.{parse_madt}
use package.chocolate_milk.Acpi.Srat.{Affinities, parse_srat}
use package.chocolate_milk.Acpi.Cores.{Cores, start}
use package.chocolate_milk.KernelMemory.Numa.{register_numa_nodes}

-- What `init` has found: `apics`, and `apic_domains` with `memory_domains`, which are set together.
pub record Tables : Type 0 where
  pub apics : Option (List ℕ)
  pub domains : Option Affinities

-- `APIC`
abbrev pub madt_signature : List ℕ
madt_signature = 0x41 ∷ 0x50 ∷ 0x49 ∷ 0x43 ∷ []

-- `SRAT`
abbrev pub srat_signature : List ℕ
srat_signature = 0x53 ∷ 0x52 ∷ 0x41 ∷ 0x54 ∷ []

-- `RSDT`
abbrev pub rsdt_signature : List ℕ
rsdt_signature = 0x52 ∷ 0x53 ∷ 0x44 ∷ 0x54 ∷ []

abbrev pub parse_table : PhysBytes → ℕ → Tables → Outcome Tables
parse_table m table_ptr found =
    let signature = read_bytes m table_ptr 4 in
    if same_bytes signature madt_signature
    then (assert (is_none found.apics) >> parse_madt m table_ptr >>= λ apics.
        ok (record found { apics = some apics }))
    else if same_bytes signature srat_signature
    then (assert (is_none found.domains) >> parse_srat m table_ptr >>= λ domains.
        ok (record found { domains = some domains }))
    else ok found

-- The loop over the entries of the RSDT, of which `left` remain.
unfoldable pub parse_tables : PhysBytes → ℕ → ℕ → Tables → Outcome Tables
parse_tables m entry_paddr zero found = ok found
parse_tables m entry_paddr (suc left) found =
    parse_table m (read_u32 m entry_paddr) found >>= parse_tables m (entry_paddr + 4) left

unfoldable pub find_tables : PhysBytes → Outcome Tables
find_tables m = do
  rsdp ← unwrap (find_rsdp m)
  (rsdt, payload, size) ← parse_header m (read_u32 m (rsdp + 16))
  assert (same_bytes rsdt.signature rsdt_signature)
      >> assert (size % 4 == 0)
      >> parse_tables m payload (size / 4) (record { apics = none; domains = none })

-- `init` up to the launch of the cores, on the core `bsp`: what it registers of the NUMA nodes, and
-- the state of the cores.
pub init : PhysBytes → List ℕ → ℕ → Outcome (Option (List (Option Range)) × Cores)
init m apics bsp = do
  found ← find_tables m
  ranges ← elim found.domains [
    | none ↦ ok none
    | some domains ↦ register_numa_nodes domains.apic domains.memory
  ]
  cores ← start apics found.apics bsp
  ok (ranges, cores)
