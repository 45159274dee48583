-- ===== src/KernelMemory/Numa/Local.antt =====
-- kernel/src/mm.rs: the ranges that `register_numa_nodes` keeps of a table that `parse_srat` accepts.
use chocolate_milk.Base.{
  ℕ, ◌+◌, ◌-◌, ◌^◌, ◌≤◌, ◌<◌, ◌≡◌, ◌≢◌, arith, refl, sym, ap, ◌∙◌, subst, ◌==◌, Bool-cases, ==→≡,
  ==→≢, ◌⊎◌, inl, inr, Option, none, some, List, [], ◌∷◌, length, length-set, length-replicate,
  get_elem?, get_elem?-some, get_elem?-replicate, get_elem?-set-same, get_elem?-set-other, set,
  replicate, Mem, Distinct, leb, Option-cases,
}
use chocolate_milk.Base.Outcome.{ok}
use chocolate_milk.RangeSet.{Range}
use chocolate_milk.Acpi.{PhysBytes, max_cores}
use chocolate_milk.Acpi.Srat.{get_key, Affinities, parse_srat}
use chocolate_milk.Acpi.Srat.Keys.{keys, get_key-none, parse_srat-AreDistinct}
use chocolate_milk.KernelMemory.Numa.{
  memory_range, range_of, local_range, map_apics, register_numa_nodes,
}

-- What the loop over the APICs leaves in an entry that held `old`.
abbrev entry : List (ℕ × (ℕ × ℕ)) → Option (Option Range) → Option ℕ → Option (Option Range)
entry domain_to_mem old none = old
entry domain_to_mem old (some domain) = some (local_range (get_key domain_to_mem domain))

map_apics-entry :
    (apics : List (ℕ × ℕ)) (domains : List (ℕ × (ℕ × ℕ))) (ranges : List (Option Range))
    → Distinct (keys apics)
    → ((a : ℕ) → Mem a (keys apics) → a < length ranges)
    → (ranges' : List (Option Range)) × (map_apics apics domains ranges ≡ ok ranges')
      × ((a : ℕ) → get_elem? ranges' a ≡ entry domains (get_elem? ranges a) (get_key apics a))
unfolding map_apics
map_apics-entry [] domains ranges distinct fits = (ranges, refl, λ a. refl)
map_apics-entry ((apic, domain) ∷ rest) domains ranges (new, distinct) fits =
    let (old, e) = get_elem?-some ranges apic (fits apic (inl refl)) in
    let v = local_range (get_key domains domain) in
    let same = length-set ranges apic v in
    let (ranges', f, others) =
      map_apics-entry rest domains (set ranges apic v) distinct
        (λ a h. omega (arith, same, fits a (inr h))) in
    (
      ranges',
      rw e f,
      λ a. elim (Bool-cases (apic == a)) [
        | inl here ↦
            let is : apic ≡ a = ==→≡ apic a here in
            let gone : get_key rest a ≡ none =
              get_key-none rest a (λ h. new (subst (λ (k : ℕ). Mem k (keys rest)) (sym is) h)) in
            let put : get_elem? (set ranges apic v) a ≡ some v =
              ap (get_elem? (set ranges apic v)) (sym is)
              ∙ get_elem?-set-same ranges apic v old e in
            others a ∙ (rw (gone, put, here) refl)
        | inr other ↦
            let far : a ≢ apic = λ s. ==→≢ apic a other (sym s) in
            others a ∙ (rw (get_elem?-set-other ranges apic a v far, other) refl)
      ],
    )

-- The range that belongs to an APIC: the memory of its domain, where it has a byte and ends within u64.
abbrev pub IsLocal : Affinities → ℕ → Option Range → Type 0
IsLocal aff a none =
    (domain base size : ℕ)
    → get_key aff.apic a ≡ some domain
    → get_key aff.memory domain ≡ some (base, size)
    → (size ≡ 0) ⊎ (2 ^ 64 < base + size)
IsLocal aff a (some r) =
    (domain : ℕ) × (size : ℕ) × (get_key aff.apic a ≡ some domain)
    × (get_key aff.memory domain ≡ some (r.start, size))
    × (0 < size)
    × (r.start + size ≤ 2 ^ 64)
    × (r.end + 1 ≡ r.start + size)

range_cases :
    (base size : ℕ)
    → ((range_of base size ≡ none) × ((size ≡ 0) ⊎ (2 ^ 64 < base + size)))
      ⊎ ((range_of base size ≡ some (record { start = base; end = base + (size - 1) }))
          × (0 < size)
          × (base + size ≤ 2 ^ 64))
range_cases base size = elim (Bool-cases (size == 0)) [
  | inl e ↦ inl (rw e refl, inl (==→≡ size 0 e))
  | inr n ↦
      let some_byte = ==→≢ size 0 n in
      elim (Bool-cases (leb (base + (size - 1)) (2 ^ 64 - 1))) [
        | inl fits ↦ inr (rw (n, fits) refl, ground arith, ground arith)
        | inr over ↦ inl (rw (n, over) refl, inr (ground arith))
      ]
]

domain_range-IsLocal :
    (aff : Affinities) (a domain : ℕ)
    → get_key aff.apic a ≡ some domain
    → IsLocal aff a (local_range (get_key aff.memory domain))
domain_range-IsLocal aff a domain e = elim (Option-cases (get_key aff.memory domain)) [
  | inl unknown ↦ rw unknown (λ d base size f g.
      let same : domain ≡ d = cc in let c = sym unknown ∙ ap (get_key aff.memory) same ∙ g in cc)
  | inr ((base, size), known) ↦ rw known (elim (range_cases base size) [
    | inl (f, reason) ↦ rw f (λ d base' size' g h.
        let same : domain ≡ d = cc in
        let c = sym known ∙ ap (get_key aff.memory) same ∙ h in
        let first : base ≡ base' = cc in
        let second : size ≡ size' = cc in rw (sym first, sym second) reason)
    | inr (f, some_byte, fits) ↦
        rw f (domain, size, e, known, some_byte, fits, omega (arith, some_byte))
  ])
]

entry-IsLocal :
    (aff : Affinities) (a : ℕ) (o : Option (Option Range))
    → o ≡ some none
    → (r : Option Range) × (entry aff.memory o (get_key aff.apic a) ≡ some r) × IsLocal aff a r
entry-IsLocal aff a o none_yet = elim (Option-cases (get_key aff.apic a)) [
  | inl unknown ↦ (none, rw unknown none_yet, λ d base size f g. let c = sym unknown ∙ f in cc)
  | inr (domain, e) ↦
      (local_range (get_key aff.memory domain), rw e refl, domain_range-IsLocal aff a domain e)
]

-- Where `parse_srat` accepts a table whose APICs have numbers below 1024: `register_numa_nodes`
-- takes what it gives without a panic, and `memory_range` then gives a core with any such number the
-- memory of its domain, and none exactly where the table has no domain for it, or no memory for that,
-- or only memory with no byte or beyond u64. Before that, or for a core with no number, it gives none.
pub register_numa_nodes-IsLocal :
    (m : PhysBytes) (ptr : ℕ) (aff : Affinities)
    → parse_srat m ptr ≡ ok aff
    → ((a : ℕ) → Mem a (keys aff.apic) → a < max_cores)
    → (ranges : List (Option Range)) × (register_numa_nodes aff.apic aff.memory ≡ ok (some ranges))
      × (memory_range (some ranges) none ≡ ok none)
      × ((a : ℕ)
          → a < max_cores
          → (memory_range none (some a) ≡ ok none)
            × ((r : Option Range) × (memory_range (some ranges) (some a) ≡ ok r) × IsLocal aff a r))
unfolding register_numa_nodes
register_numa_nodes-IsLocal m ptr aff e fits =
    let nothing : Option Range = none in
    let blank = replicate max_cores nothing in
    let size = length-replicate max_cores nothing in
    let (ranges, f, entries) =
      map_apics-entry aff.apic aff.memory blank (parse_srat-AreDistinct m ptr aff e)
        (λ a h. omega (arith, size, fits a h)) in
    (
      ranges,
      rw f refl,
      refl,
      λ a h. (
        refl,
        let (r, g, local) =
              entry-IsLocal aff a (get_elem? blank a) (get_elem?-replicate max_cores a nothing h) in
            (r, rw (entries a ∙ g) refl, local),
      ),
    )
