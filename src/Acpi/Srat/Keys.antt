-- ===== src/Acpi/Srat/Keys.antt =====
-- kernel/src/acpi.rs: an APIC has one domain in what `parse_srat` gives.
use chocolate_milk.Base.{
  ℕ, zero, suc, ◌+◌, ◌/◌, ◌%◌, ◌≡◌, refl, sym, ◌∙◌, subst, true, leb, ltb, ◌==◌, Bool-cases, ==→≡,
  ==→≢, is_none, ◌⊎◌, inl, inr, Option, none, some, List, [], ◌∷◌, ◌++◌, Mem, Distinct,
}
use chocolate_milk.Base.Outcome.{ok, ◌>>◌, assert}
use chocolate_milk.Base.Returns.{bind-ok, assert-ok, ok-injective}
use chocolate_milk.Acpi.{PhysBytes, read_u32, parse_header}
use chocolate_milk.Acpi.Srat.{
  get_key, insert_new, Affinities, read_u64, apic_domain, log_apic, log_memory, log_entry,
  parse_sra, parse_srat,
}

abbrev pub keys : {V : Type 0} → List (ℕ × V) → List ℕ
keys [] = []
keys ((k, v) ∷ rest) = k ∷ keys rest

get_key-member : {V : Type 0} (l : List (ℕ × V)) (k : ℕ) → get_key l k ≡ none → ¬ Mem k (keys l)
get_key-member [] k e h = h
get_key-member ((a, v) ∷ rest) k e h = elim (Bool-cases (a == k)) [
  | inl same ↦
      let found : get_key ((a, v) ∷ rest) k ≡ some v = rw same refl in let c = sym found ∙ e in cc
  | inr other ↦
      let past : get_key ((a, v) ∷ rest) k ≡ get_key rest k = rw other refl in
      elim h [
        | inl here ↦ ==→≢ a k other here
        | inr there ↦ get_key-member rest k (sym past ∙ e) there
      ]
]

pub get_key-none : {V : Type 0} (l : List (ℕ × V)) (k : ℕ) → ¬ Mem k (keys l) → get_key l k ≡ none
get_key-none [] k n = refl
get_key-none ((a, v) ∷ rest) k n = elim (Bool-cases (a == k)) [
  | inl same ↦ absurd (n (inl (==→≡ a k same)))
  | inr other ↦ rw other (get_key-none rest k (λ h. n (inr h)))
]

Mem-last :
    {V : Type 0} (l : List (ℕ × V)) (k : ℕ) (v : V) (a : ℕ)
    → Mem a (keys (l ++ (k, v) ∷ []))
    → Mem a (keys l) ⊎ (k ≡ a)
Mem-last [] k v a (inl e) = inr e
Mem-last [] k v a (inr h) = elim h [ ]
Mem-last ((b, w) ∷ l) k v a (inl e) = inl (inl e)
Mem-last ((b, w) ∷ l) k v a (inr h) = elim (Mem-last l k v a h) [
  | inl m ↦ inl (inr m)
  | inr e ↦ inr e
]

Distinct-last :
    {V : Type 0} (l : List (ℕ × V)) (k : ℕ) (v : V)
    → ¬ Mem k (keys l)
    → Distinct (keys l)
    → Distinct (keys (l ++ (k, v) ∷ []))
Distinct-last [] k v new d = (λ h. h, tt)
Distinct-last ((b, w) ∷ l) k v new (first, d) = (
  λ h. elim (Mem-last l k v b h) [ inl m ↦ first m | inr e ↦ new (inl (sym e)) ],
  Distinct-last l k v (λ m. new (inr m)) d,
)

is_none-none : {V : Type 0} (o : Option V) → is_none o ≡ true → o ≡ none
is_none-none none e = refl
is_none-none (some v) e = cc

insert_new-Distinct :
    {V : Type 0} (l : List (ℕ × V)) (k : ℕ) (v : V) (l' : List (ℕ × V))
    → insert_new l k v ≡ ok l'
    → Distinct (keys l)
    → Distinct (keys l')
insert_new-Distinct {V} l k v l' e d =
    let (u, f, g) = bind-ok (assert (is_none (get_key l k))) (λ _. ok (l ++ (k, v) ∷ [])) l' e in
    let unknown = is_none-none (get_key l k) (assert-ok (is_none (get_key l k)) f) in
    subst (λ (xs : List (ℕ × V)). Distinct (keys xs)) (ok-injective g)
      (Distinct-last l k v (get_key-member l k unknown) d)

abbrev pub AreDistinct : Affinities → Type 0
AreDistinct aff = Distinct (keys aff.apic)

log_apic-AreDistinct :
    (apic_id domain flags : ℕ) (aff aff' : Affinities)
    → log_apic apic_id domain flags aff ≡ ok aff'
    → AreDistinct aff
    → AreDistinct aff'
log_apic-AreDistinct apic_id domain flags aff aff' e d = elim (Bool-cases (flags % 2 == 1)) [
  | inl on ↦
      let (l, f, g) =
        bind-ok (insert_new aff.apic apic_id domain) (λ apic. ok (record aff { apic = apic })) aff'
          (rw on at e) in
      subst AreDistinct (ok-injective g) (insert_new-Distinct aff.apic apic_id domain l f d)
  | inr off ↦ subst AreDistinct (ok-injective (rw off at e)) d
]

log_memory-AreDistinct :
    (domain base size flags : ℕ) (aff aff' : Affinities)
    → log_memory domain base size flags aff ≡ ok aff'
    → AreDistinct aff
    → AreDistinct aff'
log_memory-AreDistinct domain base size flags aff aff' e d = elim (Bool-cases (flags % 2 == 1)) [
  | inl on ↦
      let (l, f, g) =
        bind-ok (insert_new aff.memory domain (base, size))
          (λ memory. ok (record aff { memory = memory })) aff' (rw on at e) in
      subst AreDistinct (ok-injective g) d
  | inr off ↦ subst AreDistinct (ok-injective (rw off at e)) d
]

log_entry-AreDistinct :
    (m : PhysBytes) (sra typ len : ℕ) (aff aff' : Affinities)
    → log_entry m sra typ len aff ≡ ok aff'
    → AreDistinct aff
    → AreDistinct aff'
log_entry-AreDistinct m sra typ len aff aff' e d = elim (Bool-cases (typ == 0)) [
  | inl lapic ↦
      let next = log_apic (m (sra + 3)) (apic_domain m sra) (read_u32 m (sra + 4)) aff in
      let (u, f, g) = bind-ok (assert (len == 16)) (λ _. next) aff' (rw lapic at e) in
      log_apic-AreDistinct (m (sra + 3)) (apic_domain m sra) (read_u32 m (sra + 4)) aff aff' g d
  | inr not_lapic ↦ elim (Bool-cases (typ == 1)) [
    | inl memory ↦
        let next =
          log_memory (read_u32 m (sra + 2)) (read_u64 m (sra + 8)) (read_u64 m (sra + 16))
            (read_u32 m (sra + 28)) aff in
        let (u, f, g) =
          bind-ok (assert (len == 40)) (λ _. next) aff' (rw (not_lapic, memory) at e) in
        log_memory-AreDistinct (read_u32 m (sra + 2)) (read_u64 m (sra + 8)) (read_u64 m (sra + 16))
          (read_u32 m (sra + 28)) aff aff' g d
    | inr not_memory ↦ elim (Bool-cases (typ == 2)) [
      | inl x2apic ↦
          let next =
            log_apic (read_u32 m (sra + 8)) (read_u32 m (sra + 4)) (read_u32 m (sra + 12)) aff in
          let (u, f, g) =
            bind-ok (assert (len == 24)) (λ _. next) aff'
              (rw (not_lapic, not_memory, x2apic) at e) in
          log_apic-AreDistinct (read_u32 m (sra + 8)) (read_u32 m (sra + 4)) (read_u32 m (sra + 12))
            aff aff' g d
      | inr other ↦ subst AreDistinct (ok-injective (rw (not_lapic, not_memory, other) at e)) d
    ]
  ]
]

parse_sra-AreDistinct :
    (fuel : ℕ) (m : PhysBytes) (sra end : ℕ) (aff aff' : Affinities)
    → parse_sra fuel m sra end aff ≡ ok aff'
    → AreDistinct aff
    → AreDistinct aff'
unfolding parse_sra
parse_sra-AreDistinct zero m sra end aff aff' e d = cc
parse_sra-AreDistinct (suc fuel) m sra end aff aff' e d =
    let len = m (sra + 1) in
    elim (Bool-cases (ltb end (sra + 2))) [
      | inl ended ↦ subst AreDistinct (ok-injective (rw ended at e)) d
      | inr more ↦ elim (Bool-cases (ltb end (sra + len))) [
        | inl cut_off ↦ subst AreDistinct (ok-injective (rw (more, cut_off) at e)) d
        | inr whole ↦
            let next = λ (now : Affinities). parse_sra fuel m (sra + len) end now in
            let (now, f, g) =
              bind-ok (assert (leb 2 len) >> log_entry m sra (m sra) len aff) next aff'
                (rw (more, whole) at e) in
            let (u, h, k) =
              bind-ok (assert (leb 2 len)) (λ _. log_entry m sra (m sra) len aff) now f in
            parse_sra-AreDistinct fuel m (sra + len) end now aff' g
              (log_entry-AreDistinct m sra (m sra) len aff now k d)
      ]
    ]

pub parse_srat-AreDistinct :
    (m : PhysBytes) (ptr : ℕ) (aff : Affinities) → parse_srat m ptr ≡ ok aff → AreDistinct aff
unfolding parse_srat
parse_srat-AreDistinct m ptr aff e =
    let (h, f, g) = bind-ok (parse_header m ptr) _ aff e in
    parse_sra-AreDistinct (h.2 / 2 + 1) m (h.1 + 4 + 8) (h.1 + h.2)
      (record { apic = []; memory = [] }) aff g tt
