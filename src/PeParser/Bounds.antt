-- ===== src/PeParser/Bounds.antt =====
-- shared/pe_parser/src/lib.rs: after a successful `parse` the section table is in bounds, so that
-- `sections` never panics.
use chocolate_milk.Base.{
  ℕ, zero, suc, ◌+◌, ◌-◌, ◌*◌, ◌≤◌, ◌≡◌, refl, ap, arith, min, Bool-cases, false, not, ◌&&◌, ltb,
  ◌==◌, some, List, [], ◌∷◌, length, ◌⊎◌, inl, inr,
}
use chocolate_milk.Base.Bytes.{
  slice, length-slice, take?_fits, drop?_fits, from_le_16, from_le_32, from_le_64,
}
use chocolate_milk.Base.Parsed.{Parsed, found, absent}
use chocolate_milk.Base.Safe.{
  Safe, Safe-intro, Safe-bind, Safe-try, Safe-any, Safe-refuse_if, Safe-found, Safe-cases,
}
use chocolate_milk.PeParser.{
  PeParser, Section, half_in, word_in, get_word, image_base_of, machine_i386, machine_x86_64,
  is_magic, u64_max, checked_add, checked_mul, parse_coff, parse, section_at, sections_from,
  sections,
}

abbrev Any : {A : Type 0} → A → Type 0
Any a = Unit

slice_in :
    (at n : ℕ) (bytes : List ℕ)
    → at + n ≤ length bytes
    → (out : List ℕ) × (slice at (at + n) bytes ≡ some out) × (length out ≡ n)
slice_in at n bytes h =
    let (rest, d, l) = drop?_fits at bytes (omega arith) in
    let (out, t, size) = take?_fits n rest (omega (arith, l)) in
    let same : at + n - at ≡ n = omega arith in (out, rw (d, same, t) refl, size)

half_in-Safe : (at : ℕ) (bytes : List ℕ) → at + 2 ≤ length bytes → Safe Any (half_in at bytes)
half_in-Safe at bytes h =
    let (out, e, _) = slice_in at 2 bytes h in rw e (Safe-any (from_le_16 out))

word_in-Safe : (at : ℕ) (bytes : List ℕ) → at + 4 ≤ length bytes → Safe Any (word_in at bytes)
word_in-Safe at bytes h =
    let (out, e, _) = slice_in at 4 bytes h in rw e (Safe-any (from_le_32 out))

get_word-Safe : (at : ℕ) (bytes : List ℕ) → Safe Any (get_word at bytes)
get_word-Safe at bytes =
    Safe-bind _ _ _ (Safe-any (slice at (at + 4) bytes)) (λ b _. Safe-any (from_le_32 b))

image_base_of-Safe : (machine o : ℕ) (bytes : List ℕ) → Safe Any (image_base_of machine o bytes)
unfolding image_base_of
image_base_of-Safe machine o bytes = elim (Bool-cases (machine == machine_i386)) [
  | inl e ↦ rw e (get_word-Safe (o + 0x34) bytes)
  | inr e ↦ rw e (
      Safe-bind _ _ _ (Safe-any (slice (o + 0x30) (o + 0x38) bytes))
        (λ b _. Safe-any (from_le_64 b)))
]

sum_of : (most a b : ℕ) {c : ℕ} → checked_add most a b ≡ some c → (c ≡ a + b) × (c ≤ most)
sum_of most a b e = (ground arith, ground arith)

product_of : (most a b : ℕ) {c : ℕ} → checked_mul most a b ≡ some c → c ≡ a * b
product_of most a b e = ground arith

ltb→le : (a b : ℕ) → ltb a b ≡ false → b ≤ a
ltb→le a b h = ground arith

-- What `parse` promises of its result.
pub record IsInBounds (usize_max : ℕ) (bytes : List ℕ) (pe : PeParser) : Type 0 where
  pub whole : pe.bytes ≡ bytes
  pub table : pe.section_off + pe.num_sections * 0x28 ≤ length bytes
  pub entry : pe.entry_point ≤ u64_max

parse_coff-Safe :
    (usize_max o : ℕ) (bytes : List ℕ)
    → o + 0x18 ≤ length bytes
    → Safe (IsInBounds usize_max bytes) (parse_coff usize_max o bytes)
unfolding parse_coff
parse_coff-Safe usize_max o bytes h =
    Safe-bind _ _ _ (half_in-Safe (o + 4) bytes (omega arith)) λ machine _.
      Safe-bind _ _ _
        (Safe-refuse_if (not (machine == machine_i386) && not (machine == machine_x86_64)))
        λ _ _. Safe-bind _ _ _ (half_in-Safe (o + 6) bytes (omega arith)) λ num _.
          Safe-bind _ _ _ (half_in-Safe (o + 0x14) bytes (omega arith)) λ opt _.
            Safe-bind _ _ _ (image_base_of-Safe machine o bytes) λ base _.
              Safe-bind _ _ _ (get_word-Safe (o + 0x28) bytes) λ entry _.
                Safe-bind _ _ _ (Safe-try (checked_add u64_max base entry)) λ point e.
                  Safe-bind _ _ _ (Safe-try (checked_add usize_max o 0x18)) λ coff_end c.
                    Safe-bind _ _ _ (Safe-try (checked_add usize_max coff_end opt)) λ opt_end p.
                      Safe-bind _ _ _ (Safe-try (checked_mul usize_max num 0x28)) λ size s.
                        Safe-bind _ _ _ (Safe-try (checked_add usize_max opt_end size))
                          λ header_size z.
                            Safe-bind _ _ _ (Safe-refuse_if (ltb (length bytes) header_size))
                              λ _ fits. Safe-intro _ _ (record {
                                whole = refl;
                                table = omega (
                                  arith,
                                  sum_of usize_max o 0x18 c,
                                  sum_of usize_max coff_end opt p,
                                  product_of usize_max num 0x28 s,
                                  sum_of usize_max opt_end size z,
                                  ltb→le (length bytes) header_size fits,
                                );
                                entry = omega (arith, sum_of u64_max base entry e);
                              })

pub parse-Safe :
    (usize_max : ℕ) (bytes : List ℕ) → Safe (IsInBounds usize_max bytes) (parse usize_max bytes)
unfolding parse
parse-Safe usize_max bytes =
    Safe-bind _ _ _ (Safe-refuse_if (not (is_magic (slice 0 2 bytes) (b'M' ∷ b'Z' ∷ [])))) λ _ _.
      Safe-bind _ _ _ (get_word-Safe 0x3c bytes) λ o _.
        Safe-bind _ _ _ (Safe-try (checked_add usize_max o 4)) λ signature_end _.
          Safe-bind _ _ _
            (Safe-refuse_if
              (not (is_magic (slice o signature_end bytes) (b'P' ∷ b'E' ∷ 0 ∷ 0 ∷ []))))
            λ _ _. Safe-bind _ _ _ (Safe-try (checked_add usize_max o 0x18)) λ coff_end c.
              Safe-bind _ _ _ (Safe-refuse_if (ltb (length bytes) coff_end)) λ _ fits.
                parse_coff-Safe usize_max o bytes
                  (omega (arith, sum_of usize_max o 0x18 c, ltb→le (length bytes) coff_end fits))

-- What the closure may rely on.
pub record Fits (bytes : List ℕ) (s : Section) : Type 0 where
  pub no_longer : length s.raw ≤ s.virt_size
  pub in_file : (start : ℕ) × (stop : ℕ) × (slice start stop bytes ≡ some s.raw)
  pub address : s.virt_addr ≤ u64_max

pub section_at-Safe :
    (usize_max off : ℕ) (pe : PeParser)
    → off + 0x28 ≤ length pe.bytes
    → Safe (Fits pe.bytes) (section_at usize_max pe off)
unfolding section_at
section_at-Safe usize_max off pe h =
    Safe-bind _ _ _ (word_in-Safe (off + 0x8) pe.bytes (omega arith)) λ virt_size _.
      Safe-bind _ _ _ (word_in-Safe (off + 0xc) pe.bytes (omega arith)) λ virt_addr _.
        Safe-bind _ _ _ (word_in-Safe (off + 0x10) pe.bytes (omega arith)) λ raw_size _.
          Safe-bind _ _ _ (word_in-Safe (off + 0x14) pe.bytes (omega arith)) λ raw_off _.
            Safe-bind _ _ _ (word_in-Safe (off + 0x24) pe.bytes (omega arith)) λ characteristics _.
              Safe-bind _ _ _ (Safe-try (checked_add u64_max pe.image_base virt_addr)) λ addr a.
                Safe-bind _ _ _ (Safe-try (checked_add usize_max raw_off (min raw_size virt_size)))
                  λ raw_end r. Safe-bind _ _ _ (Safe-try (slice raw_off raw_end pe.bytes)) λ raw e.
                    Safe-intro _ _ (record {
                      no_longer = omega (
                        arith,
                        length-slice raw_off raw_end pe.bytes e,
                        sum_of usize_max raw_off (min raw_size virt_size) r,
                      );
                      in_file = (raw_off, raw_end, e);
                      address = omega (arith, sum_of u64_max pe.image_base virt_addr a);
                    })

module _ {S : Type 0} (Inv : S → Type 0) (usize_max : ℕ) (pe : PeParser)
    (func : S → Section → Parsed S) where
  abbrev pub Keeps : Type 0
  Keeps = (s : S) (sec : Section) → Inv s → Fits pe.bytes sec → Safe Inv (func s sec)

  sections_from-Safe :
      (left section : ℕ) (s : S)
      → Keeps
      → pe.section_off + (section + left) * 0x28 ≤ length pe.bytes
      → Inv s
      → Safe Inv (sections_from usize_max pe func left section s)
  unfolding sections_from
  sections_from-Safe zero section s keeps h i = Safe-intro _ _ i
  sections_from-Safe (suc left) section s keeps h i =
      Safe-bind _ _ _ (section_at-Safe usize_max (pe.section_off + section * 0x28) pe (omega arith))
        λ sec fits.
          Safe-bind _ _ _ (keeps s sec i fits)
            λ s' i'. sections_from-Safe left (suc section) s' keeps (omega arith) i'

  -- For any file that `parse` accepts and any closure that keeps an invariant and does not panic on
  -- sections whose raw bytes are a slice of the file, no longer than the virtual size, and whose
  -- address is a u64, `sections` does not panic: it returns `None`, or finishes in a state with the
  -- invariant.
  pub sections-parse :
      (bytes : List ℕ) (s : S)
      → parse usize_max bytes ≡ found pe
      → Keeps
      → Inv s
      → (sections usize_max pe func s ≡ absent)
        ⊎ ((s' : S) × (sections usize_max pe func s ≡ found s') × Inv s')
  unfolding sections
  sections-parse bytes s parsed keeps i =
      let good = Safe-found (IsInBounds usize_max bytes) (parse-Safe usize_max bytes) parsed in
      Safe-cases Inv (sections usize_max pe func s) (
        sections_from-Safe pe.num_sections 0 s keeps
          (omega (arith, good.table, ap length good.whole)) i)

-- On any bytes `parse` does not panic: it refuses them, or returns a parser of these bytes whose
-- section headers are all in bounds and whose entry point is a u64.
pub parse-IsInBounds :
    (usize_max : ℕ) (bytes : List ℕ)
    → (parse usize_max bytes ≡ absent)
      ⊎ ((pe : PeParser) × (parse usize_max bytes ≡ found pe) × IsInBounds usize_max bytes pe)
parse-IsInBounds usize_max bytes =
    Safe-cases (IsInBounds usize_max bytes) (parse usize_max bytes) (parse-Safe usize_max bytes)
