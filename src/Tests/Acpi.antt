-- ===== src/Tests/Acpi.antt =====
-- kernel/src/acpi.rs with an RSDP at 0xe0010.
use chocolate_milk.Base.{
  ℕ, ◌+◌, ◌≡◌, ◌⊎◌, inl, refl, arith, true, ◌==◌, if◌then◌else◌, none, some, List, [], ◌∷◌,
}
use chocolate_milk.Base.Outcome.{ok}
use chocolate_milk.Acpi.{TableHeader, parse_header, PhysBytes, is_rsdp, find_rsdp}
use chocolate_milk.Acpi.Madt.{parse_madt}
use chocolate_milk.Acpi.Madt.Layout.{Ics, Laid, usable, parse_madt-Laid}
use chocolate_milk.Acpi.Srat.{Affinities, parse_srat}
use chocolate_milk.Acpi.Srat.Affinity
use chocolate_milk.Acpi.Srat.Affinity.{Sra, log_all, parse_srat-Laid}
use chocolate_milk.Acpi.Search.{IsFirst, ebda_start, ebda_steps, find_rsdp-IsFirst}

-- `RSD PTR `, and the byte that makes the sum 0.
abbrev rom : PhysBytes
rom a =
    if a == 0xe0010
    then 0x52
    else if a == 0xe0011
    then 0x53
    else if a == 0xe0012
    then 0x44
    else if a == 0xe0013
    then 0x20
    else if a == 0xe0014
    then 0x50
    else if a == 0xe0015
    then 0x54
    else if a == 0xe0016
    then 0x52
    else if a == 0xe0017
    then 0x20
    else if a == 0xe0018
    then 0xe1
    else 0

rom-is_rsdp : is_rsdp rom 0xe0010 ≡ true
unfolding is_rsdp
rom-is_rsdp = refl

find_rsdp-IsFirst_example :
    ((found : ℕ) × (find_rsdp rom ≡ some found)
      × IsFirst rom (ebda_start rom) (ebda_steps rom) (some found))
    ⊎ (IsFirst rom (ebda_start rom) (ebda_steps rom) none
        × IsFirst rom 0xe0000 8192 (find_rsdp rom))
find_rsdp-IsFirst_example = find_rsdp-IsFirst rom

-- A MADT of 52 bytes with one local APIC, number 3, which is enabled.
abbrev madt : PhysBytes
madt a =
    if a == 0x1004
    then 52
    else if a == 0x1009
    then 192
    else if a == 0x102d
    then 8
    else if a == 0x102f
    then 3
    else if a == 0x1030
    then 1
    else 0

abbrev madt_header : TableHeader
madt_header = record { signature = 0 ∷ 0 ∷ 0 ∷ 0 ∷ []; length = 52 }

madt-parse_header : parse_header madt 0x1000 ≡ ok (madt_header, 0x1024, 16)
unfolding parse_header
madt-parse_header = refl

madt-Laid : Laid madt (0x1024 + 16) (0x1024 + 4 + 4) (Ics.lapic 3 1 ∷ [])
madt-Laid = (omega arith, refl, refl, refl, refl, inl (omega arith))

parse_madt-Laid_example : parse_madt madt 0x1000 ≡ ok (usable (Ics.lapic 3 1 ∷ []))
parse_madt-Laid_example =
    parse_madt-Laid madt 0x1000 madt_header 0x1024 16 (Ics.lapic 3 1 ∷ []) madt-parse_header
      madt-Laid

-- An SRAT of 104 bytes with one local APIC, number 3 in domain 5, and the memory of this domain.
abbrev srat : PhysBytes
srat a =
    if a == 0x1004
    then 104
    else if a == 0x1009
    then 63
    else if a == 0x1031
    then 16
    else if a == 0x1032
    then 5
    else if a == 0x1033
    then 3
    else if a == 0x1034
    then 1
    else if a == 0x1040
    then 1
    else if a == 0x1041
    then 40
    else if a == 0x1042
    then 5
    else if a == 0x104a
    then 16
    else if a == 0x1052
    then 1
    else if a == 0x105c
    then 1
    else 0

abbrev srat_header : TableHeader
srat_header = record { signature = 0 ∷ 0 ∷ 0 ∷ 0 ∷ []; length = 104 }

abbrev entries : List Sra
entries = Sra.lapic 3 5 1 ∷ Sra.memory 5 0x100000 0x10000 1 ∷ []

srat-parse_header : parse_header srat 0x1000 ≡ ok (srat_header, 0x1024, 68)
unfolding parse_header
srat-parse_header = refl

srat-Laid : Affinity.Laid srat (0x1024 + 68) (0x1024 + 4 + 8) entries
srat-Laid = (
  omega arith,
  refl,
  refl,
  refl,
  refl,
  refl,
  (omega arith, refl, refl, refl, refl, refl, refl, inl (omega arith)),
)

parse_srat-Laid_example :
    parse_srat srat 0x1000 ≡ log_all entries (record { apic = []; memory = [] })
parse_srat-Laid_example =
    parse_srat-Laid srat 0x1000 srat_header 0x1024 68 entries srat-parse_header srat-Laid

abbrev affinities : Affinities
affinities = record { apic = (3, 5) ∷ []; memory = (5, (0x100000, 0x10000)) ∷ [] }

srat_logged :
    log_all entries (record { apic = []; memory = [] })
    ≡ ok (record { apic = (3, 5) ∷ []; memory = (5, (0x100000, 0x10000)) ∷ [] })
srat_logged = refl
