-- ===== src/Acpi/Madt.antt =====
-- kernel/src/acpi.rs: `parse_madt`, the APICs that can be used.
pub mod Layout
use package.chocolate_milk.Base.{
  ℕ, zero, suc, ◌+◌, ◌-◌, ◌/◌, ◌%◌, ◌^◌, Bool, ◌||◌, ltb, leb, ◌==◌, if◌then◌else◌, List, [], ◌∷◌,
  ◌++◌,
}
use package.chocolate_milk.Base.Outcome.{Outcome, ok, out_of_fuel, ◌>>=◌, ◌>>◌, assert}
use package.chocolate_milk.Acpi.{PhysBytes, read_u32, parse_header}

-- `APIC_ENABLED` and `APIC_ONLINE_CAPABLE`
abbrev pub usable_apic : ℕ → ℕ → List ℕ
usable_apic flags apic_id = if (flags % 2 == 1) || (flags / 2 % 2 == 1) then apic_id ∷ [] else []

-- `match typ`: the APICs that the entry adds.
abbrev pub apics_of : PhysBytes → ℕ → ℕ → ℕ → Outcome (List ℕ)
apics_of m ics typ len =
    if typ == 0
    then (assert (len == 8) >> ok (usable_apic (read_u32 m (ics + 4)) (m (ics + 3))))
    else if typ == 9
    then (assert (len == 16) >> ok (usable_apic (read_u32 m (ics + 8)) (read_u32 m (ics + 4))))
    else ok []

-- The loop over the entries.
unfoldable pub parse_ics : ℕ → PhysBytes → ℕ → ℕ → List ℕ → Outcome (List ℕ)
parse_ics zero m ics end apics = out_of_fuel
parse_ics (suc fuel) m ics end apics =
    let len = m (ics + 1) in
    let rest = assert (leb 2 len) >> apics_of m ics (m ics) len >>= λ new.
    parse_ics fuel m (ics + len) end (apics ++ new) in
    if ltb end (ics + 2) then ok apics else if ltb end (ics + len) then ok apics else rest

-- Every entry takes two bytes at least, hence the fuel.
unfoldable pub parse_madt : PhysBytes → ℕ → Outcome (List ℕ)
parse_madt m ptr = do
  (header, payload, size) ← parse_header m ptr
  parse_ics (size / 2 + 1) m (payload + 4 + 4) (payload + size) []
