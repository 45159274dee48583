-- ===== src/Acpi/Tables/Found.antt =====
-- kernel/src/acpi.rs: what `init` makes of the tables that the RSDT lists.
use chocolate_milk.Base.{
  ℕ, ◌+◌, ◌*◌, ◌/◌, ◌%◌, ◌<◌, ◌≡◌, ◌≢◌, arith, refl, sym, ap, ◌∙◌, subst, true, false, ◌==◌,
  Bool-cases, ==→≡, is_none, inl, inr, Option, none, some, List, [], ◌∷◌, length, Mem,
}
use chocolate_milk.Base.Bytes.{same_bytes}
use chocolate_milk.Base.Outcome.{Outcome, ok, panic, ◌>>=◌, ◌>>◌, assert}
use chocolate_milk.RangeSet.{Range}
use chocolate_milk.Acpi.{
  PhysBytes, max_cores, TableHeader, read_bytes, read_u32, find_rsdp, parse_header,
}
use chocolate_milk.Acpi.Madt.{parse_madt}
use chocolate_milk.Acpi.Srat.{Affinities, parse_srat}
use chocolate_milk.Acpi.Srat.Keys.{keys}
use chocolate_milk.Acpi.Cores.{Cores, Reach}
use chocolate_milk.Acpi.Cores.Barrier.{AreListed, IsOrderly, Reach-IsOrderly}
use chocolate_milk.KernelMemory.Numa.{memory_range}
use chocolate_milk.KernelMemory.Numa.Local.{IsLocal, register_numa_nodes-IsLocal}
use chocolate_milk.Acpi.Tables.{
  Tables, madt_signature, srat_signature, rsdt_signature, parse_table, parse_tables, find_tables,
  init,
}

-- A table at an address, with what its parser gives.
pub data Table : Type 0 where
  madt : ℕ → List ℕ → Table
  srat : ℕ → Affinities → Table
  other : ℕ → Table

-- The entries of the RSDT from an address on.
abbrev pub Listed : PhysBytes → ℕ → List Table → Type 0
Listed m entry_paddr [] = Unit
Listed m entry_paddr (Table.madt ptr apics ∷ ts) =
    (read_u32 m entry_paddr ≡ ptr)
    × (read_bytes m ptr 4 ≡ madt_signature)
    × (parse_madt m ptr ≡ ok apics)
    × Listed m (entry_paddr + 4) ts
Listed m entry_paddr (Table.srat ptr domains ∷ ts) =
    (read_u32 m entry_paddr ≡ ptr)
    × (read_bytes m ptr 4 ≡ srat_signature)
    × (parse_srat m ptr ≡ ok domains)
    × Listed m (entry_paddr + 4) ts
Listed m entry_paddr (Table.other ptr ∷ ts) =
    (read_u32 m entry_paddr ≡ ptr)
    × (read_bytes m ptr 4 ≢ madt_signature)
    × (read_bytes m ptr 4 ≢ srat_signature)
    × Listed m (entry_paddr + 4) ts

abbrev pub madts : List Table → List (List ℕ)
madts [] = []
madts (Table.madt ptr apics ∷ ts) = apics ∷ madts ts
madts (Table.srat ptr domains ∷ ts) = madts ts
madts (Table.other ptr ∷ ts) = madts ts

abbrev pub srats : List Table → List Affinities
srats [] = []
srats (Table.madt ptr apics ∷ ts) = srats ts
srats (Table.srat ptr domains ∷ ts) = domains ∷ srats ts
srats (Table.other ptr ∷ ts) = srats ts

-- With the one there was before, if any, there is one or none.
abbrev single {ℓ} : {A : Type ℓ} → Option A → List A → Outcome (Option A)
single o [] = ok o
single none (x ∷ xs) = single (some x) xs
single (some y) (x ∷ xs) = panic

abbrev collected : Option (List ℕ) → Option Affinities → List Table → Outcome Tables
collected apics domains ts = single apics (madts ts) >>= λ a.
    single domains (srats ts) >>= λ d. ok (record { apics = a; domains = d })

same_bytes-≡ : (xs ys : List ℕ) → same_bytes xs ys ≡ true → xs ≡ ys
same_bytes-≡ [] [] e = refl
same_bytes-≡ [] (y ∷ ys) e = cc
same_bytes-≡ (x ∷ xs) [] e = cc
same_bytes-≡ (x ∷ xs) (y ∷ ys) e = elim (Bool-cases (x == y)) [
  | inl first ↦ let rest = same_bytes-≡ xs ys (rw first at e) in rw (==→≡ x y first, rest) refl
  | inr first ↦ let c : false ≡ true = rw first at e in cc
]

differs : (xs ys : List ℕ) → xs ≢ ys → same_bytes xs ys ≡ false
differs xs ys n = elim (Bool-cases (same_bytes xs ys)) [
  | inl e ↦ absurd (n (same_bytes-≡ xs ys e))
  | inr e ↦ e
]

abbrev fails : {A B : Type 0} → A → Outcome B
fails a = panic

single_panics :
    {A B : Type 0} (o : Option A) (xs : List A) → (single o xs >>= fails {B = B}) ≡ panic
single_panics o [] = refl
single_panics none (x ∷ xs) = single_panics (some x) xs
single_panics (some y) (x ∷ xs) = refl

parse_table_madt :
    (m : PhysBytes) (ptr : ℕ) (apics : List ℕ) (found : Tables)
    → read_bytes m ptr 4 ≡ madt_signature
    → parse_madt m ptr ≡ ok apics
    → parse_table m ptr found
      ≡ (assert (is_none found.apics) >> ok apics >>= λ l. ok (record found { apics = some l }))
parse_table_madt m ptr apics found e f =
    let same : same_bytes (read_bytes m ptr 4) madt_signature ≡ true =
      ap (λ (xs : List ℕ). same_bytes xs madt_signature) e in
    rw (same, f) refl

parse_table_srat :
    (m : PhysBytes) (ptr : ℕ) (domains : Affinities) (found : Tables)
    → read_bytes m ptr 4 ≡ srat_signature
    → parse_srat m ptr ≡ ok domains
    → parse_table m ptr found ≡ (
        assert (is_none found.domains) >> ok domains >>= λ d.
        ok (record found { domains = some d }))
parse_table_srat m ptr domains found e f =
    let apart : same_bytes (read_bytes m ptr 4) madt_signature ≡ false =
      ap (λ (xs : List ℕ). same_bytes xs madt_signature) e in
    let same : same_bytes (read_bytes m ptr 4) srat_signature ≡ true =
      ap (λ (xs : List ℕ). same_bytes xs srat_signature) e in
    rw (apart, same, f) refl

parse_table_other :
    (m : PhysBytes) (ptr : ℕ) (found : Tables)
    → read_bytes m ptr 4 ≢ madt_signature
    → read_bytes m ptr 4 ≢ srat_signature
    → parse_table m ptr found ≡ ok found
parse_table_other m ptr found n k =
    rw
      (differs (read_bytes m ptr 4) madt_signature n, differs (read_bytes m ptr 4) srat_signature k)
      refl

parse_tables-collected :
    (m : PhysBytes) (entry_paddr : ℕ) (ts : List Table) (apics : Option (List ℕ))
    (domains : Option Affinities)
    → Listed m entry_paddr ts
    → parse_tables m entry_paddr (length ts) (record { apics = apics; domains = domains })
      ≡ collected apics domains ts
unfolding parse_tables
parse_tables-collected m p [] apics domains h = refl
parse_tables-collected m p (Table.madt ptr l ∷ ts) none domains (e, f, g, h) =
    rw (e, parse_table_madt m ptr l (record { apics = none; domains = domains }) f g)
      (parse_tables-collected m (p + 4) ts (some l) domains h)
parse_tables-collected m p (Table.madt ptr l ∷ ts) (some old) domains (e, f, g, h) =
    rw (e, parse_table_madt m ptr l (record { apics = some old; domains = domains }) f g) refl
parse_tables-collected m p (Table.srat ptr d ∷ ts) apics none (e, f, g, h) =
    rw (e, parse_table_srat m ptr d (record { apics = apics; domains = none }) f g)
      (parse_tables-collected m (p + 4) ts apics (some d) h)
parse_tables-collected m p (Table.srat ptr d ∷ ts) apics (some old) (e, f, g, h) =
    rw (e, parse_table_srat m ptr d (record { apics = apics; domains = some old }) f g)
      (sym (single_panics apics (madts ts)))
parse_tables-collected m p (Table.other ptr ∷ ts) apics domains (e, f, g, h) =
    rw (e, parse_table_other m ptr (record { apics = apics; domains = domains }) f g)
      (parse_tables-collected m (p + 4) ts apics domains h)

-- An RSDT that lists the tables.
pub record HasTables (m : PhysBytes) (ts : List Table) : Type 0 where
  pub rsdp : ℕ
  pub rsdt : TableHeader
  pub payload : ℕ
  pub found : find_rsdp m ≡ some rsdp
  pub parsed : parse_header m (read_u32 m (rsdp + 16)) ≡ ok (rsdt, payload, length ts * 4)
  pub signed : rsdt.signature ≡ rsdt_signature
  pub listed : Listed m payload ts

find_tables-collected :
    (m : PhysBytes) (ts : List Table) → HasTables m ts → find_tables m ≡ collected none none ts
unfolding find_tables
find_tables-collected m ts h =
    let signature : same_bytes h.rsdt.signature rsdt_signature ≡ true =
      ap (λ (xs : List ℕ). same_bytes xs rsdt_signature) h.signed in
    let whole : (length ts * 4 % 4 == 0) ≡ true = ground arith in
    let entries : length ts * 4 / 4 ≡ length ts = omega arith in
    rw (h.found, h.parsed, signature, whole, entries)
      (parse_tables-collected m h.payload ts none none h.listed)

Listed-srat :
    (m : PhysBytes) (entry_paddr : ℕ) (ts : List Table) (domains : Affinities)
    → Listed m entry_paddr ts
    → Mem domains (srats ts)
    → (ptr : ℕ) × (parse_srat m ptr ≡ ok domains)
Listed-srat m p [] domains h k = elim k [ ]
Listed-srat m p (Table.madt ptr l ∷ ts) domains (e, f, g, h) k =
    Listed-srat m (p + 4) ts domains h k
Listed-srat m p (Table.srat ptr d ∷ ts) domains (e, f, g, h) (inl same) = (ptr, g ∙ ap ok same)
Listed-srat m p (Table.srat ptr d ∷ ts) domains (e, f, g, h) (inr there) =
    Listed-srat m (p + 4) ts domains h there
Listed-srat m p (Table.other ptr ∷ ts) domains (e, f, g, h) k = Listed-srat m (p + 4) ts domains h k

-- Where an RSDP leads to an RSDT with one MADT and one SRAT among its tables, the MADT lists less
-- than 2 ^ 32 cores, each of them once and the one that runs `init` among them, the array has room for
-- them, and the APICs of the SRAT have numbers below 1024: `init` gets to the launch of the cores
-- without a panic. `memory_range` then gives every core the memory that the SRAT has for it, and in
-- every state that the cores reach from there they are in order: no access panics, at most one core is
-- launched and not online yet, and no core passes the barrier before all have come to it.
pub init-IsOrderly :
    (m : PhysBytes) (ts : List Table) (valid : List ℕ) (domains : Affinities) (apics : List ℕ)
    (bsp : ℕ)
    → HasTables m ts
    → madts ts ≡ valid ∷ []
    → srats ts ≡ domains ∷ []
    → AreListed apics valid bsp
    → ((a : ℕ) → Mem a (keys domains.apic) → a < max_cores)
    → (ranges : List (Option Range)) × (s : Cores) × (init m apics bsp ≡ ok (some ranges, s))
      × ((a : ℕ)
          → a < max_cores
          → (r : Option Range) × (memory_range (some ranges) (some a) ≡ ok r) × IsLocal domains a r)
      × ((t : Cores) → Reach bsp s t → IsOrderly apics valid bsp t)
unfolding init
init-IsOrderly m ts valid domains apics bsp has one_madt one_srat listed fits =
    let (ptr, parsed) =
      Listed-srat m has.payload ts domains has.listed
        (subst (λ (xs : List Affinities). Mem domains xs) (sym one_srat) (inl refl)) in
    let (ranges, e, _, local) = register_numa_nodes-IsLocal m ptr domains parsed fits in
    let (s, f, orderly) = Reach-IsOrderly apics valid bsp listed in
    let found : find_tables m ≡ ok (record { apics = some valid; domains = some domains }) =
      find_tables-collected m ts has ∙ rw (one_madt, one_srat) refl in
    (ranges, s, rw (found, e, f) refl, λ a h. (local a h).1, orderly)
