-- ===== src/Acpi/Madt/Layout.antt =====
-- kernel/src/acpi.rs: `parse_madt` gives the usable APICs of the entries that the table lists.
use chocolate_milk.Base.{
  ℕ, ◌%◌, ◌||◌, if◌then◌else◌, zero, suc, ◌+◌, ◌*◌, ◌/◌, ◌≤◌, ◌<◌, ◌≡◌, ◌≢◌, ◌⊎◌, refl, ap, ◌∙◌,
  arith, Bool-cases, true, false, ltb, leb, ◌==◌, inl, inr, List, [], ◌∷◌, ◌++◌, append_assoc,
  append-nil,
}
use chocolate_milk.Base.Outcome.{ok}
use chocolate_milk.Acpi.{PhysBytes, TableHeader, read_u32, parse_header}
use chocolate_milk.Acpi.Madt.{usable_apic, parse_ics, parse_madt}

-- An entry of the table.
pub data Ics : Type 0 where
  lapic : ℕ → ℕ → Ics
  x2apic : ℕ → ℕ → Ics
  other : ℕ → ℕ → Ics

-- The entries from an address on, up to one for which there is no room.
abbrev pub Laid : PhysBytes → ℕ → ℕ → List Ics → Type 0
Laid m end ics [] = (end < ics + 2) ⊎ (end < ics + m (ics + 1))
Laid m end ics (Ics.lapic apic_id flags ∷ es) =
    (ics + 8 ≤ end)
    × (m ics ≡ 0)
    × (m (ics + 1) ≡ 8)
    × (m (ics + 3) ≡ apic_id)
    × (read_u32 m (ics + 4) ≡ flags)
    × Laid m end (ics + 8) es
Laid m end ics (Ics.x2apic apic_id flags ∷ es) =
    (ics + 16 ≤ end)
    × (m ics ≡ 9)
    × (m (ics + 1) ≡ 16)
    × (read_u32 m (ics + 4) ≡ apic_id)
    × (read_u32 m (ics + 8) ≡ flags)
    × Laid m end (ics + 16) es
Laid m end ics (Ics.other typ len ∷ es) =
    (ics + len ≤ end)
    × (m ics ≡ typ)
    × (m (ics + 1) ≡ len)
    × (typ ≢ 0)
    × (typ ≢ 9)
    × (2 ≤ len)
    × Laid m end (ics + len) es

-- An APIC counts if one of the two lowest bits of its flags is set.
abbrev pub counted : ℕ → ℕ → List ℕ → List ℕ
counted flags apic_id rest = if flags % 4 == 0 then rest else apic_id ∷ rest

-- The APICs that are enabled or can be brought online, in the order of their entries.
abbrev pub usable : List Ics → List ℕ
usable [] = []
usable (Ics.lapic apic_id flags ∷ es) = counted flags apic_id (usable es)
usable (Ics.x2apic apic_id flags ∷ es) = counted flags apic_id (usable es)
usable (Ics.other typ len ∷ es) = usable es

usable_apic-counted :
    (flags apic_id : ℕ) (rest : List ℕ)
    → usable_apic flags apic_id ++ rest ≡ counted flags apic_id rest
usable_apic-counted flags apic_id rest =
    elim (Bool-cases ((flags % 2 == 1) || (flags / 2 % 2 == 1))) [
      | inl set ↦ let some_bit : (flags % 4 == 0) ≡ false = ground arith in rw (set, some_bit) refl
      | inr clear ↦ let no_bit : (flags % 4 == 0) ≡ true = ground arith in rw (clear, no_bit) refl
    ]

parse_ics-Laid :
    (m : PhysBytes) (end fuel ics : ℕ) (apics : List ℕ) (es : List Ics)
    → 0 < fuel
    → end < ics + fuel * 2
    → Laid m end ics es
    → parse_ics fuel m ics end apics ≡ ok (apics ++ usable es)
unfolding parse_ics
parse_ics-Laid m end zero ics apics [] some_fuel enough h = absurd (omega arith)
parse_ics-Laid m end (suc fuel) ics apics [] some_fuel enough h =
    elim (Bool-cases (ltb end (ics + 2))) [
      | inl over ↦ rw (over, append-nil apics) refl
      | inr room ↦
          let cut : ltb end (ics + m (ics + 1)) ≡ true = ground arith in
          rw (room, cut, append-nil apics) refl
    ]
parse_ics-Laid m end zero ics apics (e ∷ es) some_fuel enough h = absurd (omega arith)
parse_ics-Laid m end (suc fuel) ics apics (Ics.lapic apic_id flags ∷ es) some_fuel enough
      (fits, t, l, i, f, h) =
    let room : ltb end (ics + 2) ≡ false = ground arith in
    let room' : ltb end (ics + 8) ≡ false = ground arith in
    let rest =
      parse_ics-Laid m end fuel (ics + 8) (apics ++ usable_apic flags apic_id) es (omega arith)
        (omega arith) h in
    rw (room, l, room', t, i, f)
      (rest
        ∙ ap ok (
            append_assoc apics (usable_apic flags apic_id) (usable es)
            ∙ ap (◌++◌ apics) (usable_apic-counted flags apic_id (usable es))))
parse_ics-Laid m end (suc fuel) ics apics (Ics.x2apic apic_id flags ∷ es) some_fuel enough
      (fits, t, l, i, f, h) =
    let room : ltb end (ics + 2) ≡ false = ground arith in
    let room' : ltb end (ics + 16) ≡ false = ground arith in
    let rest =
      parse_ics-Laid m end fuel (ics + 16) (apics ++ usable_apic flags apic_id) es (omega arith)
        (omega arith) h in
    rw (room, l, room', t, i, f)
      (rest
        ∙ ap ok (
            append_assoc apics (usable_apic flags apic_id) (usable es)
            ∙ ap (◌++◌ apics) (usable_apic-counted flags apic_id (usable es))))
parse_ics-Laid m end (suc fuel) ics apics (Ics.other typ len ∷ es) some_fuel enough
      (fits, t, l, n0, n9, two, h) =
    let room : ltb end (ics + 2) ≡ false = ground arith in
    let room' : ltb end (ics + len) ≡ false = ground arith in
    let long : leb 2 len ≡ true = ground arith in
    let not0 : (typ == 0) ≡ false = ground arith in
    let not9 : (typ == 9) ≡ false = ground arith in
    let rest = parse_ics-Laid m end fuel (ics + len) apics es (omega arith) (omega arith) h in
    rw (room, l, room', long, t, not0, not9, append-nil apics) rest

-- Where the header of the MADT is good and entries follow it and the 8 bytes behind it, local APICs
-- of 8 bytes, x2APICs of 16 and others of 2 bytes or more, up to one that the table has no room
-- for: `parse_madt` neither panics nor runs out of fuel, and gives the numbers of the APICs that
-- are enabled or can be brought online, in the order of their entries.
pub parse_madt-Laid :
    (m : PhysBytes) (ptr : ℕ) (header : TableHeader) (payload size : ℕ) (es : List Ics)
    → parse_header m ptr ≡ ok (header, payload, size)
    → Laid m (payload + size) (payload + 4 + 4) es
    → parse_madt m ptr ≡ ok (usable es)
unfolding parse_madt
parse_madt-Laid m ptr header payload size es good h = rw good (
    parse_ics-Laid m (payload + size) (size / 2 + 1) (payload + 4 + 4) [] es (omega arith)
      (omega arith) h)
