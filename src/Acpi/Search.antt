-- ===== src/Acpi/Search.antt =====
-- kernel/src/acpi.rs: what the search for the RSDP finds.
use chocolate_milk.Base.{
  ℕ, zero, suc, ◌+◌, ◌-◌, ◌*◌, ◌/◌, ◌^◌, ◌≤◌, ◌<◌, ◌≡◌, ◌⊎◌, refl, subst, arith, Bool-cases, true,
  false, ltb, Option, none, some, inl, inr, Option-cases,
}
use chocolate_milk.Acpi.{PhysBytes, rsdp_size, is_rsdp, scan_from, scan_region, or_else, find_rsdp}

-- The first of `n` addresses 16 bytes apart at which an RSDP stands, or that there is none.
abbrev pub IsFirst : PhysBytes → ℕ → ℕ → Option ℕ → Type 0
IsFirst m paddr n none = (k : ℕ) → k < n → is_rsdp m (paddr + k * 16) ≡ false
IsFirst m paddr n (some found) =
    (k : ℕ) × (k < n)
    × (found ≡ paddr + k * 16)
    × (is_rsdp m found ≡ true)
    × ((j : ℕ) → j < k → is_rsdp m (paddr + j * 16) ≡ false)

earlier :
    (m : PhysBytes) (paddr n : ℕ)
    → is_rsdp m paddr ≡ false
    → ((k : ℕ) → k < n → is_rsdp m (paddr + 16 + k * 16) ≡ false)
    → (k : ℕ) → k < suc n
    → is_rsdp m (paddr + k * 16) ≡ false
earlier m paddr n here rest zero h = let at : paddr + 0 * 16 ≡ paddr = omega arith in rw at here
earlier m paddr n here rest (suc k) h =
    let at : paddr + suc k * 16 ≡ paddr + 16 + k * 16 = omega arith in rw at (rest k (omega arith))

IsFirst-later :
    (m : PhysBytes) (paddr n : ℕ) (o : Option ℕ)
    → is_rsdp m paddr ≡ false
    → IsFirst m (paddr + 16) n o
    → IsFirst m paddr (suc n) o
IsFirst-later m paddr n none here h = earlier m paddr n here h
IsFirst-later m paddr n (some found) here (k, lt, at, good, before) =
    (suc k, omega arith, omega arith, good, earlier m paddr k here before)

scan_from-IsFirst :
    (m : PhysBytes) (start end n paddr : ℕ)
    → start + rsdp_size - 1 ≤ end
    → IsFirst m paddr n (scan_from m start end n paddr)
unfolding scan_from
scan_from-IsFirst m start end zero paddr fits = λ k h. elim h [ ]
scan_from-IsFirst m start end (suc n) paddr fits =
    let room : ltb end (start + rsdp_size - 1) ≡ false = ground arith in
    elim (Bool-cases (is_rsdp m paddr)) [
      | inl here ↦
          let at : paddr ≡ paddr + 0 * 16 = omega arith in
          rw (room, here) (0, omega arith, at, here, λ j h. elim h [ ])
      | inr other ↦
          rw (room, other)
            (IsFirst-later m paddr n _ other (scan_from-IsFirst m start end n (paddr + 16) fits))
    ]

scan_region-IsFirst :
    (m : PhysBytes) (first end : ℕ)
    → (first + 15) / 16 * 16 + rsdp_size - 1 ≤ end
    → IsFirst m
        ((first + 15) / 16 * 16)
        ((end - (first + 15) / 16 * 16) / 16 + 1)
        (scan_region m first end)
unfolding scan_region
scan_region-IsFirst m first end fits =
    let start = (first + 15) / 16 * 16 in
    let some_room : ltb end start ≡ false = ground arith in
    rw some_room (scan_from-IsFirst m start end ((end - start) / 16 + 1) start fits)

-- The address that the BIOS data area gives for the EBDA, rounded up to 16 bytes.
abbrev pub ebda_start : PhysBytes → ℕ
ebda_start m = (m 0x40e + m 0x40f * 2 ^ 8 + 15) / 16 * 16

-- The number of addresses looked at behind it.
abbrev pub ebda_steps : PhysBytes → ℕ
ebda_steps m = (m 0x40e + m 0x40f * 2 ^ 8 + 1024 - 1 - ebda_start m) / 16 + 1

or_else-some : (o p : Option ℕ) (a : ℕ) → o ≡ some a → or_else o p ≡ some a
or_else-some o p a e = rw e refl

-- The search gives the first address with the signature and the checksum of an RSDP among the
-- multiples of 16 in the region of the EBDA, up to its last byte. Where none of them has both, it
-- gives the first one among the 8192 multiples of 16 from 0xe0000 to 0xfffff, or nothing where none
-- of these has both either.
pub find_rsdp-IsFirst :
    (m : PhysBytes)
    → ((found : ℕ) × (find_rsdp m ≡ some found)
        × IsFirst m (ebda_start m) (ebda_steps m) (some found))
      ⊎ (IsFirst m (ebda_start m) (ebda_steps m) none × IsFirst m 0xe0000 8192 (find_rsdp m))
unfolding find_rsdp
find_rsdp-IsFirst m =
    let ebda = m 0x40e + m 0x40f * 2 ^ 8 in
    let first = scan_region-IsFirst m ebda (ebda + 1024 - 1) (omega arith) in
    let second = scan_region-IsFirst m 0xe0000 0xfffff (omega arith) in
    elim (Option-cases (scan_region m ebda (ebda + 1024 - 1))) [
      | inr (found, e) ↦ inl (
        found,
        or_else-some (scan_region m ebda (ebda + 1024 - 1)) _ found e,
        subst (IsFirst m (ebda_start m) (ebda_steps m)) e first,
      )
      | inl e ↦ inr (subst (IsFirst m (ebda_start m) (ebda_steps m)) e first, rw e second)
    ]
