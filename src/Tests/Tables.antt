-- ===== src/Tests/Tables.antt =====
-- kernel/src/acpi.rs, on the memory of a system with three cores, one of them with memory of its own.
use chocolate_milk.Base.{
  ℕ, ◌+◌, ◌≡◌, ◌<◌, ◌==◌, refl, arith, if◌then◌else◌, inl, inr, Option, none, some, List, [], ◌∷◌,
  replicate, Mem,
}
use chocolate_milk.Base.Outcome.{ok}
use chocolate_milk.RangeSet.{Range}
use chocolate_milk.Acpi.{
  PhysBytes, max_cores, parse_header, find_rsdp, is_rsdp, scan_from, scan_region,
}
use chocolate_milk.Acpi.Madt.{parse_madt, parse_ics}
use chocolate_milk.Acpi.Srat.{Affinities, parse_srat, parse_sra}
use chocolate_milk.Acpi.Cores.{Cores, Reach}
use chocolate_milk.Acpi.Cores.Barrier.{AreListed, IsOrderly}
use chocolate_milk.Acpi.Tables.{init, rsdt_signature}
use chocolate_milk.Acpi.Tables.Found.{Table, HasTables, init-IsOrderly}
use chocolate_milk.KernelMemory.Numa.{memory_range}
use chocolate_milk.KernelMemory.Numa.Local.{IsLocal}

-- The bytes from an address on.
data Piece : Type 0 where
  piece : ℕ → List ℕ → Piece

abbrev in_bytes : ℕ → List ℕ → ℕ → Option ℕ
in_bytes at [] a = none
in_bytes at (b ∷ bs) a = if at == a then some b else in_bytes (at + 1) bs a

abbrev in_pieces : List Piece → PhysBytes
in_pieces [] a = 0
in_pieces (piece at bs ∷ more) a = elim (in_bytes at bs a) [ none ↦ in_pieces more a | some b ↦ b ]

-- An RSDP, an RSDT with two tables, an MADT with the cores 1, 0 and 2, and an SRAT that has 64 KiB
-- for core 2.
abbrev memory : PhysBytes
memory = in_pieces (
    piece 0xe0010 (0x52 ∷ 0x53 ∷ 0x44 ∷ 0x20 ∷ 0x50 ∷ 0x54 ∷ 0x52 ∷ 0x20 ∷ 0xc1 ∷ [])
    ∷ piece 0xe0021 (0x20 ∷ [])
    ∷ piece 0x2000 (0x52 ∷ 0x53 ∷ 0x44 ∷ 0x54 ∷ 44 ∷ 0 ∷ 0 ∷ 0 ∷ 0 ∷ 111 ∷ [])
    ∷ piece 0x2025 (0x18 ∷ [])
    ∷ piece 0x2029 (0x10 ∷ [])
    ∷ piece 0x1800 (0x41 ∷ 0x50 ∷ 0x49 ∷ 0x43 ∷ 68 ∷ 0 ∷ 0 ∷ 0 ∷ 0 ∷ 129 ∷ [])
    ∷ piece 0x182c (0 ∷ 8 ∷ 0 ∷ 1 ∷ 1 ∷ 0 ∷ 0 ∷ 0 ∷ 0 ∷ 8 ∷ 0 ∷ 0 ∷ 1 ∷ [])
    ∷ piece 0x183c (0 ∷ 8 ∷ 0 ∷ 2 ∷ 1 ∷ [])
    ∷ piece 0x1000 (0x53 ∷ 0x52 ∷ 0x41 ∷ 0x54 ∷ 104 ∷ 0 ∷ 0 ∷ 0 ∷ 0 ∷ 6 ∷ [])
    ∷ piece 0x1030 (0 ∷ 16 ∷ 5 ∷ 2 ∷ 1 ∷ [])
    ∷ piece 0x1040 (1 ∷ 40 ∷ 5 ∷ [])
    ∷ piece 0x104a (16 ∷ [])
    ∷ piece 0x1052 (1 ∷ [])
    ∷ piece 0x105c (1 ∷ [])
    ∷ [])

abbrev valid : List ℕ
valid = 1 ∷ 0 ∷ 2 ∷ []

abbrev domains : Affinities
domains = record { apic = (2, 5) ∷ []; memory = (5, (0x100000, 0x10000)) ∷ [] }

abbrev tables : List Table
tables = Table.madt 0x1800 valid ∷ Table.srat 0x1000 domains ∷ []

memory-rsdp : find_rsdp memory ≡ some 0xe0010
unfolding find_rsdp scan_region scan_from is_rsdp
memory-rsdp = refl

memory-rsdt :
    parse_header memory 0x2000 ≡ ok (record { signature = rsdt_signature; length = 44 }, 0x2024, 8)
unfolding parse_header
memory-rsdt = refl

memory-madt : parse_madt memory 0x1800 ≡ ok valid
unfolding parse_madt parse_ics parse_header
memory-madt = refl

memory-srat : parse_srat memory 0x1000 ≡ ok domains
unfolding parse_srat parse_sra parse_header
memory-srat = refl

memory-HasTables : HasTables memory tables
memory-HasTables = record {
  rsdp = 0xe0010;
  rsdt = record { signature = rsdt_signature; length = 44 };
  payload = 0x2024;
  found = memory-rsdp;
  parsed = memory-rsdt;
  signed = refl;
  listed = (refl, refl, memory-madt, (refl, refl, memory-srat, tt));
}

six_apics-AreListed : AreListed (replicate 6 4) valid 0
six_apics-AreListed = record {
  member = inr (inl refl);
  distinct = omega arith;
  fits = λ i h. elim h [
    | inl e ↦ omega (arith, e)
    | inr (inl e) ↦ omega (arith, e)
    | inr (inr (inl e)) ↦ omega (arith, e)
    | inr (inr (inr h')) ↦ elim h' [ ]
  ];
  few = omega arith;
}

below : (a : ℕ) → Mem a (2 ∷ []) → a < max_cores
below a (inl e) = omega (arith, e)
below a (inr h) = elim h [ ]

init-IsOrderly_example :
    (ranges : List (Option Range)) × (s : Cores) × (init memory (replicate 6 4) 0
      ≡ ok (some ranges, s))
    × ((a : ℕ)
        → a < max_cores
        → (r : Option Range) × (memory_range (some ranges) (some a) ≡ ok r) × IsLocal domains a r)
    × ((t : Cores) → Reach 0 s t → IsOrderly (replicate 6 4) valid 0 t)
init-IsOrderly_example =
    init-IsOrderly memory tables valid domains (replicate 6 4) 0 memory-HasTables refl refl
      six_apics-AreListed below
