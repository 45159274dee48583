-- ===== src/FlattenPe/Loads.antt =====
-- src/main.rs, `flatten_pe`: the image is what the loader makes of the sections.
use chocolate_milk.Base.{
  ℕ, zero, suc, ◌+◌, ◌-◌, ◌^◌, ◌≤◌, ◌<◌, ◌≡◌, arith, refl, subst, ◌∙◌, true, false, ◌||◌, ltb, leb,
  some, List, [], ◌∷◌, length, get_elem?, replicate, length-replicate,
}
use chocolate_milk.Base.Parsed.{found}
use chocolate_milk.PeParser.{PeParser, Section, parse, sections, u64_max}
use chocolate_milk.FlattenPe.{Flat, empty, grow, place, checked_flat, lay_out, flatten_pe}
use chocolate_milk.FlattenPe.Fold.{AreHeaders, sections_from-fold}
use chocolate_milk.FlattenPe.Image.{loaded, Shows}
use chocolate_milk.FlattenPe.Passes.{
  streams, IsLoadable, AllLoadable, IsWithin, AllWithin, last_of, fold-grow, spans-Reaches,
  fold-place,
}

abbrev pub AllInside : Flat → List Section → Type 0
AllInside flat [] = Unit
AllInside flat (sec ∷ secs) =
    (flat.base ≤ sec.virt_addr)
    × (sec.virt_addr + sec.virt_size ≤ flat.base + length flat.image)
    × AllInside flat secs

-- What the build script makes of a file with the sections `secs`.
pub record IsLoaded (pe : PeParser) (secs : List Section) (flat : Flat) : Type 0 where
  pub entry_is : flat.entry ≡ pe.entry_point
  pub inside : AllInside flat secs
  pub shows : Shows flat.base flat.image (loaded (λ a. 0) secs)
  pub reinit_is : flat.reinit ≡ streams secs

AllWithin-AllInside :
    (secs : List Section) (lo hi : ℕ) (flat : Flat)
    → flat.base ≡ lo
    → flat.base + length flat.image ≡ hi + 1
    → AllWithin lo hi secs
    → AllInside flat secs
AllWithin-AllInside [] lo hi flat b e w = tt
AllWithin-AllInside (sec ∷ secs) lo hi flat b e w =
    let x : IsWithin lo hi sec = w.0 in
    (omega (arith, x.low), omega (arith, x.high), AllWithin-AllInside secs lo hi flat b e w.1)

zeros :
    (n i : ℕ) → i < length (replicate {A = ℕ} n 0) → get_elem? (replicate {A = ℕ} n 0) i ≡ some 0
zeros zero i h = elim h [ ]
zeros (suc n) zero h = refl
zeros (suc n) (suc i) h = zeros n i (omega arith)

replicate-Shows : (lo n : ℕ) → Shows lo (replicate n 0) (λ a. 0)
replicate-Shows lo n i h = zeros n i h

-- The entry point is in one of the sections.
entry_within :
    (secs : List Section) (k lo hi entry : ℕ) (sec : Section)
    → AllWithin lo hi secs
    → get_elem? secs k ≡ some sec
    → sec.virt_addr ≤ entry
    → entry < sec.virt_addr + sec.virt_size
    → (lo ≤ entry) × (entry ≤ hi)
entry_within [] k lo hi entry sec w e a b = cc
entry_within (x ∷ secs) zero lo hi entry sec w e a b =
    let same : x ≡ sec = cc in
    let y = subst (IsWithin lo hi) same w.0 in (omega (arith, y.low), omega (arith, y.high))
entry_within (x ∷ secs) (suc k) lo hi entry sec w e a b =
    entry_within secs k lo hi entry sec w.1 e a b

module _ (usize_max : ℕ) (host : usize_max ≤ u64_max) (pe : PeParser) where
  lay_out-IsLoaded :
      (secs : List Section) (lo hi : ℕ) (reinit : List ℕ)
      → AreHeaders usize_max pe pe.num_sections 0 secs
      → AllLoadable usize_max secs
      → AllWithin lo hi secs
      → hi + 1 ≤ usize_max
      → lo ≤ pe.entry_point
      → pe.entry_point ≤ hi
      → pe.entry_point < 2 ^ 32
      → reinit ≡ streams secs
      → (flat : Flat) × (lay_out usize_max pe (lo, hi) reinit ≡ found flat) × IsLoaded pe secs flat
  unfolding lay_out checked_flat sections
  lay_out-IsLoaded secs lo hi reinit headers l w top low high small e =
      let size = hi - lo + 1 in
      let length_is = length-replicate {A = ℕ} size 0 in
      let (out, runs, len, shows) =
        fold-place usize_max host lo hi secs (replicate size 0) (λ a. 0) l w
          (omega (arith, length_is)) top (replicate-Shows lo size) in
      let a : ltb hi lo ≡ false = ground arith in
      let b : leb size u64_max ≡ true = ground arith in
      let c : ltb usize_max size ≡ false = ground arith in
      let d : (ltb pe.entry_point lo || ltb hi pe.entry_point) ≡ false = ground arith in
      let f : leb (2 ^ 32) pe.entry_point ≡ false = ground arith in
      let g : leb (2 ^ 32) lo ≡ false = ground arith in
      let pass =
        sections_from-fold usize_max pe (place usize_max lo) pe.num_sections 0 secs
          (replicate size 0) headers
        ∙ runs in
      let flat : Flat = record {
        entry = pe.entry_point;
        base = lo;
        image = out;
        reinit = reinit;
      } in
      (
        flat,
        rw (a, b, c, pass, d, f, g) refl,
        record {
          entry_is = refl;
          inside = AllWithin-AllInside secs lo hi flat refl (omega (arith, len)) w;
          shows = shows;
          reinit_is = e;
        },
      )

  -- A file that `parse` accepts, whose section headers can be read, whose sections have a byte at
  -- least, end below the largest usize, and have addresses and lengths of 32 bits, and whose entry
  -- point is 32 bits wide and in one of them: `flatten_pe` does not fail. The image is the memory from
  -- its base on after the sections' bytes were stored one section after the other into zeros, every
  -- section lies within it, and the stream is that of the writable sections with bytes.
  pub flatten_pe-IsLoaded :
      (bytes : List ℕ) (secs : List Section) (k : ℕ) (sec : Section)
      → parse usize_max bytes ≡ found pe
      → AreHeaders usize_max pe pe.num_sections 0 secs
      → AllLoadable usize_max secs
      → get_elem? secs k ≡ some sec
      → sec.virt_addr ≤ pe.entry_point
      → pe.entry_point < sec.virt_addr + sec.virt_size
      → pe.entry_point < 2 ^ 32
      → (flat : Flat) × (flatten_pe usize_max bytes ≡ found flat) × IsLoaded pe secs flat
  unfolding flatten_pe sections
  flatten_pe-IsLoaded bytes [] k sec parsed headers l at low high small = cc
  flatten_pe-IsLoaded bytes (x ∷ secs) k sec parsed headers l at low high small =
      let y : IsLoadable usize_max x = l.0 in
      let (lo, hi, reached, a, b, top, all) =
        spans-Reaches usize_max host secs x.virt_addr (last_of x) l.1
          (omega (arith, y.some_byte, y.in_memory)) in
      let within : AllWithin lo hi (x ∷ secs) =
        (record { low = a; high = omega (arith, b, y.some_byte) }, all) in
      let (above, below) = entry_within (x ∷ secs) k lo hi pe.entry_point sec within at low high in
      let (flat, runs, loaded) =
        lay_out-IsLoaded (x ∷ secs) lo hi (streams (x ∷ secs)) headers l within top above below
          small refl in
      let pass =
        sections_from-fold usize_max pe grow pe.num_sections 0 (x ∷ secs) empty headers
        ∙ fold-grow usize_max host (x ∷ secs) empty l in
      (flat, rw (parsed, pass, reached) runs, loaded)
