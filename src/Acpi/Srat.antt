-- ===== src/Acpi/Srat.antt =====
-- kernel/src/acpi.rs: `parse_srat`, the domains of the APICs and of the memory. A `BTreeMap` is a list
-- of keys and values in the order of their insertion.
pub mod Affinity
pub mod Keys
use package.chocolate_milk.Base.{
  ℕ, zero, suc, ◌+◌, ◌-◌, ◌*◌, ◌/◌, ◌%◌, ◌^◌, Bool, ltb, leb, ◌==◌, if◌then◌else◌, is_none, Option,
  none, some, List, [], ◌∷◌, ◌++◌,
}
use package.chocolate_milk.Base.Outcome.{Outcome, ok, out_of_fuel, ◌>>=◌, ◌>>◌, assert}
use package.chocolate_milk.Acpi.{PhysBytes, read_u32, parse_header}

abbrev pub read_u64 : PhysBytes → ℕ → ℕ
read_u64 m a = read_u32 m a + read_u32 m (a + 4) * 2 ^ 32

abbrev pub get_key {ℓ} : {V : Type ℓ} → List (ℕ × V) → ℕ → Option V
get_key [] k = none
get_key ((a, v) ∷ rest) k = if a == k then some v else get_key rest k

-- `assert!(map.insert(k, v).is_none())`
abbrev pub insert_new {ℓ} : {V : Type ℓ} → List (ℕ × V) → ℕ → V → Outcome (List (ℕ × V))
insert_new l k v = assert (is_none (get_key l k)) >> ok (l ++ (k, v) ∷ [])

pub record Affinities : Type 0 where
  pub apic : List (ℕ × ℕ)
  pub memory : List (ℕ × (ℕ × ℕ))

-- `FLAGS_ENABLED`
abbrev pub is_enabled : ℕ → Bool
is_enabled flags = flags % 2 == 1

abbrev pub log_apic : ℕ → ℕ → ℕ → Affinities → Outcome Affinities
log_apic apic_id domain flags aff =
    if is_enabled flags
    then (insert_new aff.apic apic_id domain >>= λ apic. ok (record aff { apic = apic }))
    else ok aff

abbrev pub log_memory : ℕ → ℕ → ℕ → ℕ → Affinities → Outcome Affinities
log_memory domain base size flags aff =
    if is_enabled flags
    then (insert_new aff.memory domain (base, size) >>= λ memory.
        ok (record aff { memory = memory }))
    else ok aff

-- `u32::from_le_bytes` on the low byte and the three high ones.
abbrev pub apic_domain : PhysBytes → ℕ → ℕ
apic_domain m sra =
    m (sra + 2) + m (sra + 9) * 2 ^ 8 + m (sra + 10) * 2 ^ 16 + m (sra + 11) * 2 ^ 24

-- `match typ`
abbrev pub log_entry : PhysBytes → ℕ → ℕ → ℕ → Affinities → Outcome Affinities
log_entry m sra typ len aff =
    if typ == 0
    then (assert (len == 16)
        >> log_apic (m (sra + 3)) (apic_domain m sra) (read_u32 m (sra + 4)) aff)
    else if typ == 1
    then (assert (len == 40)
        >> log_memory (read_u32 m (sra + 2)) (read_u64 m (sra + 8)) (read_u64 m (sra + 16))
            (read_u32 m (sra + 28)) aff)
    else if typ == 2
    then (assert (len == 24)
        >> log_apic (read_u32 m (sra + 8)) (read_u32 m (sra + 4)) (read_u32 m (sra + 12)) aff)
    else ok aff

-- The loop over the entries.
unfoldable pub parse_sra : ℕ → PhysBytes → ℕ → ℕ → Affinities → Outcome Affinities
parse_sra zero m sra end aff = out_of_fuel
parse_sra (suc fuel) m sra end aff =
    let len = m (sra + 1) in
    let rest = assert (leb 2 len) >> log_entry m sra (m sra) len aff >>= λ aff'.
    parse_sra fuel m (sra + len) end aff' in
    if ltb end (sra + 2) then ok aff else if ltb end (sra + len) then ok aff else rest

-- Every entry takes two bytes at least, hence the fuel.
unfoldable pub parse_srat : PhysBytes → ℕ → Outcome Affinities
parse_srat m ptr = do
  (header, payload, size) ← parse_header m ptr
  parse_sra (size / 2 + 1) m (payload + 4 + 8) (payload + size) (record { apic = []; memory = [] })
