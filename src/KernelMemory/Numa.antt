-- ===== src/KernelMemory/Numa.antt =====
-- kernel/src/mm.rs: the memory that is local to a core. A `BTreeMap` is a list of keys and values, whose
-- keys differ, so that their order does not matter.
pub mod Local
use package.chocolate_milk.Base.{
  ℕ, ◌+◌, ◌-◌, ◌==◌, if◌then◌else◌, Option, none, some, List, [], ◌∷◌, set, replicate,
}
use package.chocolate_milk.Base.Outcome.{Outcome, ok, ◌>>=◌, index}
use package.chocolate_milk.RangeSet.{Range}
use package.chocolate_milk.RangeSet.Alloc.{checked_add}
use package.chocolate_milk.Acpi.{max_cores}
use package.chocolate_milk.Acpi.Srat.{get_key}

-- `APIC_TO_MEMORY_RANGE`, none for the null pointer, and the APIC of the core.
abbrev pub memory_range : Option (List (Option Range)) → Option ℕ → Outcome (Option Range)
memory_range none apic_id = ok none
memory_range (some ranges) none = ok none
memory_range (some ranges) (some apic_id) = index ranges apic_id

-- The bytes from an address on.
abbrev pub range_of : ℕ → ℕ → Option Range
range_of paddr size = if size == 0 then none else elim (checked_add paddr (size - 1)) [
  | none ↦ none
  | some last ↦ some (record { start = paddr; end = last })
]

abbrev pub local_range : Option (ℕ × ℕ) → Option Range
local_range none = none
local_range (some (paddr, size)) = range_of paddr size

-- The loop over the APICs.
unfoldable pub map_apics :
    List (ℕ × ℕ) → List (ℕ × (ℕ × ℕ)) → List (Option Range) → Outcome (List (Option Range))
map_apics [] domain_to_mem ranges = ok ranges
map_apics ((apic, domain) ∷ rest) domain_to_mem ranges = index ranges apic >>= λ old.
    map_apics rest domain_to_mem (set ranges apic (local_range (get_key domain_to_mem domain)))

pub register_numa_nodes : List (ℕ × ℕ) → List (ℕ × (ℕ × ℕ)) → Outcome (Option (List (Option Range)))
register_numa_nodes apic_to_domain domain_to_mem =
    map_apics apic_to_domain domain_to_mem (replicate max_cores none) >>= λ ranges. ok (some ranges)
