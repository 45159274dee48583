-- ===== src/Acpi/Srat/Affinity.antt =====
-- kernel/src/acpi.rs: `parse_srat` logs the entries that the table lists, one after the other.
use chocolate_milk.Base.{
  ℕ, ◌∙◌, ◌%◌, ◌^◌, ◌==◌, ◌++◌, if◌then◌else◌, Option, Option-cases, none, some, zero, suc, ◌+◌,
  ◌*◌, ◌/◌, ◌≤◌, ◌<◌, ◌≡◌, ◌⊎◌, refl, arith, Bool-cases, true, false, ltb, leb, ◌==◌, inl, inr,
  List, [], ◌∷◌,
}
use chocolate_milk.Base.Outcome.{Outcome, ok, panic, out_of_fuel, ◌>>=◌}
use chocolate_milk.Acpi.{PhysBytes, TableHeader, read_u32, parse_header}
use chocolate_milk.Acpi.Srat.{
  get_key, Affinities, read_u64, apic_domain, log_apic, log_memory, parse_sra, parse_srat,
}

-- An entry of the table: an APIC, its domain and flags; a domain, a range of memory and flags.
pub data Sra : Type 0 where
  lapic : ℕ → ℕ → ℕ → Sra
  memory : ℕ → ℕ → ℕ → ℕ → Sra
  x2apic : ℕ → ℕ → ℕ → Sra
  other : ℕ → ℕ → Sra

-- The entries from an address on, up to one for which there is no room.
abbrev pub Laid : PhysBytes → ℕ → ℕ → List Sra → Type 0
Laid m end sra [] = (end < sra + 2) ⊎ (end < sra + m (sra + 1))
Laid m end sra (Sra.lapic apic_id domain flags ∷ es) =
    (sra + 16 ≤ end)
    × (m sra ≡ 0)
    × (m (sra + 1) ≡ 16)
    × (m (sra + 3) ≡ apic_id)
    × (m (sra + 2) + (m (sra + 9) + (m (sra + 10) + m (sra + 11) * 2 ^ 8) * 2 ^ 8) * 2 ^ 8 ≡ domain)
    × (read_u32 m (sra + 4) ≡ flags)
    × Laid m end (sra + 16) es
Laid m end sra (Sra.memory domain base size flags ∷ es) =
    (sra + 40 ≤ end)
    × (m sra ≡ 1)
    × (m (sra + 1) ≡ 40)
    × (read_u32 m (sra + 2) ≡ domain)
    × (read_u64 m (sra + 8) ≡ base)
    × (read_u64 m (sra + 16) ≡ size)
    × (read_u32 m (sra + 28) ≡ flags)
    × Laid m end (sra + 40) es
Laid m end sra (Sra.x2apic apic_id domain flags ∷ es) =
    (sra + 24 ≤ end)
    × (m sra ≡ 2)
    × (m (sra + 1) ≡ 24)
    × (read_u32 m (sra + 8) ≡ apic_id)
    × (read_u32 m (sra + 4) ≡ domain)
    × (read_u32 m (sra + 12) ≡ flags)
    × Laid m end (sra + 24) es
Laid m end sra (Sra.other typ len ∷ es) =
    (sra + len ≤ end)
    × (m sra ≡ typ)
    × (m (sra + 1) ≡ len)
    × (2 < typ)
    × (2 ≤ len)
    × Laid m end (sra + len) es

abbrev pub if_new {ℓ κ} : {V : Type ℓ} {A : Type κ} → Option V → A → Outcome A
if_new none a = ok a
if_new (some old) a = panic

-- A new key at the end; a key that is there already is a panic.
abbrev pub added {ℓ} : {V : Type ℓ} → List (ℕ × V) → ℕ → V → Outcome (List (ℕ × V))
added l k v = if_new (get_key l k) (l ++ (k, v) ∷ [])

-- The entries whose lowest flag is set, one after the other.
abbrev pub log_all : List Sra → Affinities → Outcome Affinities
log_all [] aff = ok aff
log_all (Sra.lapic apic_id domain flags ∷ es) aff =
    if flags % 2 == 0
    then log_all es aff
    else (added aff.apic apic_id domain >>= λ apic. log_all es (record aff { apic = apic }))
log_all (Sra.memory domain base size flags ∷ es) aff =
    if flags % 2 == 0
    then log_all es aff
    else (added aff.memory domain (base, size) >>= λ memory.
        log_all es (record aff { memory = memory }))
log_all (Sra.x2apic apic_id domain flags ∷ es) aff =
    if flags % 2 == 0
    then log_all es aff
    else (added aff.apic apic_id domain >>= λ apic. log_all es (record aff { apic = apic }))
log_all (Sra.other typ len ∷ es) aff = log_all es aff

log_apic-added :
    (apic_id domain flags : ℕ) (aff : Affinities) (f : Affinities → Outcome Affinities)
    → (log_apic apic_id domain flags aff >>= f) ≡ (
        if flags % 2 == 0
        then f aff
        else (added aff.apic apic_id domain >>= λ apic. f (record aff { apic = apic })))
log_apic-added apic_id domain flags aff f = elim (Bool-cases (flags % 2 == 1)) [
  | inr off ↦ let even : (flags % 2 == 0) ≡ true = ground arith in rw (off, even) refl
  | inl on ↦
      let odd : (flags % 2 == 0) ≡ false = ground arith in
      elim (Option-cases (get_key aff.apic apic_id)) [
        | inl new ↦ rw (on, odd, new) refl
        | inr (old, e) ↦ rw (on, odd, e) refl
      ]
]

log_memory-added :
    (domain base size flags : ℕ) (aff : Affinities) (f : Affinities → Outcome Affinities)
    → (log_memory domain base size flags aff >>= f) ≡ (
        if flags % 2 == 0
        then f aff
        else (added aff.memory domain (base, size) >>= λ memory.
            f (record aff { memory = memory })))
log_memory-added domain base size flags aff f = elim (Bool-cases (flags % 2 == 1)) [
  | inr off ↦ let even : (flags % 2 == 0) ≡ true = ground arith in rw (off, even) refl
  | inl on ↦
      let odd : (flags % 2 == 0) ≡ false = ground arith in
      elim (Option-cases (get_key aff.memory domain)) [
        | inl new ↦ rw (on, odd, new) refl
        | inr (old, e) ↦ rw (on, odd, e) refl
      ]
]

bind_same :
    (o : Outcome Affinities) (f g : Affinities → Outcome Affinities)
    → ((a : Affinities) → f a ≡ g a)
    → (o >>= f) ≡ (o >>= g)
bind_same (ok a) f g same = same a
bind_same panic f g same = refl
bind_same out_of_fuel f g same = refl

parse_sra-Laid :
    (m : PhysBytes) (end fuel sra : ℕ) (es : List Sra) (aff : Affinities)
    → 0 < fuel
    → end < sra + fuel * 2
    → Laid m end sra es
    → parse_sra fuel m sra end aff ≡ log_all es aff
unfolding parse_sra
parse_sra-Laid m end zero sra [] aff some_fuel enough h = absurd (omega arith)
parse_sra-Laid m end zero sra (e ∷ es) aff some_fuel enough h = absurd (omega arith)
parse_sra-Laid m end (suc fuel) sra [] aff some_fuel enough h =
    elim (Bool-cases (ltb end (sra + 2))) [
      | inl over ↦ rw over refl
      | inr room ↦
          let cut : ltb end (sra + m (sra + 1)) ≡ true = ground arith in rw (room, cut) refl
    ]
parse_sra-Laid m end (suc fuel) sra (Sra.lapic apic_id domain flags ∷ es) aff some_fuel enough
      (fits, t, l, i, d, f, h) =
    let room : ltb end (sra + 2) ≡ false = ground arith in
    let room' : ltb end (sra + 16) ≡ false = ground arith in
    let whole : apic_domain m sra ≡ domain = omega arith in
    rw (room, l, room', t, i, whole, f)
      (bind_same (log_apic apic_id domain flags aff) _ (λ a. log_all es a)
          (λ a. parse_sra-Laid m end fuel (sra + 16) es a (omega arith) (omega arith) h)
        ∙ log_apic-added apic_id domain flags aff (λ a. log_all es a))
parse_sra-Laid m end (suc fuel) sra (Sra.memory domain base size flags ∷ es) aff some_fuel enough
      (fits, t, l, d, b, n, f, h) =
    let room : ltb end (sra + 2) ≡ false = ground arith in
    let room' : ltb end (sra + 40) ≡ false = ground arith in
    rw (room, l, room', t, d, b, n, f)
      (bind_same (log_memory domain base size flags aff) _ (λ a. log_all es a)
          (λ a. parse_sra-Laid m end fuel (sra + 40) es a (omega arith) (omega arith) h)
        ∙ log_memory-added domain base size flags aff (λ a. log_all es a))
parse_sra-Laid m end (suc fuel) sra (Sra.x2apic apic_id domain flags ∷ es) aff some_fuel enough
      (fits, t, l, i, d, f, h) =
    let room : ltb end (sra + 2) ≡ false = ground arith in
    let room' : ltb end (sra + 24) ≡ false = ground arith in
    rw (room, l, room', t, i, d, f)
      (bind_same (log_apic apic_id domain flags aff) _ (λ a. log_all es a)
          (λ a. parse_sra-Laid m end fuel (sra + 24) es a (omega arith) (omega arith) h)
        ∙ log_apic-added apic_id domain flags aff (λ a. log_all es a))
parse_sra-Laid m end (suc fuel) sra (Sra.other typ len ∷ es) aff some_fuel enough
      (fits, t, l, big, two, h) =
    let room : ltb end (sra + 2) ≡ false = ground arith in
    let room' : ltb end (sra + len) ≡ false = ground arith in
    let long : leb 2 len ≡ true = ground arith in
    let not0 : (typ == 0) ≡ false = ground arith in
    let not1 : (typ == 1) ≡ false = ground arith in
    let not2 : (typ == 2) ≡ false = ground arith in
    rw (room, l, room', long, t, not0, not1, not2)
      (parse_sra-Laid m end fuel (sra + len) es aff (omega arith) (omega arith) h)

-- Where the header of the SRAT is good and entries follow it and the 12 bytes behind it, of their
-- types' lengths or 2 bytes or more, up to one that the table has no room for: `parse_srat` does
-- not run out of fuel, and gives the domains of the APICs and the ranges of the domains of the entries
-- that are enabled, in their order, or panics where a second one has an APIC, or a domain of memory,
-- that an earlier one has.
pub parse_srat-Laid :
    (m : PhysBytes) (ptr : ℕ) (header : TableHeader) (payload size : ℕ) (es : List Sra)
    → parse_header m ptr ≡ ok (header, payload, size)
    → Laid m (payload + size) (payload + 4 + 8) es
    → parse_srat m ptr ≡ log_all es (record { apic = []; memory = [] })
unfolding parse_srat
parse_srat-Laid m ptr header payload size es good h = rw good (
    parse_sra-Laid m (payload + size) (size / 2 + 1) (payload + 4 + 8) es
      (record { apic = []; memory = [] }) (omega arith) (omega arith) h)
