-- ===== src/FlattenPe/Passes.antt =====
-- src/main.rs, `flatten_pe`: the two passes over the sections.
use chocolate_milk.Base.{
  ℕ, ◌+◌, ◌-◌, ◌^◌, ◌≤◌, ◌<◌, ◌≡◌, min, max, arith, refl, sym, ap, ◌∙◌, inl, inr, true, false, ◌&&◌,
  ltb, leb, if◌then◌else◌, Bool-cases, Option, some, List, [], ◌∷◌, ◌++◌, append_assoc, append-nil,
  length, ==_refl,
}
use chocolate_milk.Base.Bytes.{to_le_32}
use chocolate_milk.Base.Parsed.{Parsed, found, ◌>>=◌}
use chocolate_milk.PeParser.{Section, u64_max}
use chocolate_milk.FlattenPe.{Bounds, widened, reinit_of, grow, copy_into, place}
use chocolate_milk.FlattenPe.Image.{loaded, Shows, store_all, length-copy_into, copy_into-Shows}
use chocolate_milk.FlattenPe.Fold.{fold}

-- The stream of the writable sections that have bytes: address, length, bytes.
abbrev pub stream_of : Section → List ℕ
stream_of sec =
    if sec.write && ltb 0 (length sec.raw)
    then to_le_32 sec.virt_addr ++ (to_le_32 (length sec.raw) ++ sec.raw)
    else []

abbrev pub streams : List Section → List ℕ
streams [] = []
streams (sec ∷ secs) = stream_of sec ++ streams secs

-- A section that can be laid out; the addresses of the stream are 32 bits wide.
pub record IsLoadable (usize_max : ℕ) (sec : Section) : Type 0 where
  pub some_byte : 1 ≤ sec.virt_size
  pub in_memory : sec.virt_addr + sec.virt_size ≤ usize_max
  pub raw_fits : length sec.raw ≤ sec.virt_size
  pub low_raw : length sec.raw < 2 ^ 32
  pub low_addr : sec.virt_addr < 2 ^ 32

abbrev pub AllLoadable : ℕ → List Section → Type 0
AllLoadable usize_max [] = Unit
AllLoadable usize_max (sec ∷ secs) = IsLoadable usize_max sec × AllLoadable usize_max secs

-- The section lies between two addresses, both of them included.
pub record IsWithin (lo hi : ℕ) (sec : Section) : Type 0 where
  pub low : lo ≤ sec.virt_addr
  pub high : sec.virt_addr + sec.virt_size ≤ hi + 1

abbrev pub AllWithin : ℕ → ℕ → List Section → Type 0
AllWithin lo hi [] = Unit
AllWithin lo hi (sec ∷ secs) = IsWithin lo hi sec × AllWithin lo hi secs

abbrev pub last_of : Section → ℕ
last_of sec = sec.virt_addr + (sec.virt_size - 1)

-- The image that the first pass finds.
abbrev pub spans : Option (ℕ × ℕ) → List Section → Option (ℕ × ℕ)
spans o [] = o
spans o (sec ∷ secs) = spans (some (widened sec.virt_addr (last_of sec) o)) secs

module _ (usize_max : ℕ) (host : usize_max ≤ u64_max) where
  grow_lem :
      (b : Bounds) (sec : Section)
      → IsLoadable usize_max sec
      → grow b sec
        ≡ found (record {
          image = some (widened sec.virt_addr (last_of sec) b.image);
          reinit = b.reinit ++ stream_of sec;
        })
  unfolding grow reinit_of
  grow_lem b sec l =
      let a : ltb sec.virt_size 1 ≡ false = ground (arith, l.some_byte) in
      let c : leb (last_of sec) u64_max ≡ true = ground (arith, l.in_memory) in
      let d : leb (2 ^ 32) sec.virt_addr ≡ false = ground (arith, l.low_addr) in
      let e : leb (2 ^ 32) (length sec.raw) ≡ false = ground (arith, l.low_raw) in
      elim (Bool-cases (sec.write && ltb 0 (length sec.raw))) [
        | inl written ↦ rw (a, c, written, d, e) refl
        | inr nothing ↦ rw (a, c, nothing) refl
      ]

  pub fold-grow :
      (secs : List Section) (b : Bounds)
      → AllLoadable usize_max secs
      → fold grow b secs
        ≡ found (record { image = spans b.image secs; reinit = b.reinit ++ streams secs })
  fold-grow [] b l =
      ap (λ (r : List ℕ). found (record { image = b.image; reinit = r }))
        (sym (append-nil b.reinit))
  fold-grow (sec ∷ secs) b l =
      let next : Bounds = record {
        image = some (widened sec.virt_addr (last_of sec) b.image);
        reinit = b.reinit ++ stream_of sec;
      } in
      ap (λ (m : Parsed Bounds). m >>= λ t. fold grow t secs) (grow_lem b sec l.0)
      ∙ fold-grow secs next l.1
      ∙ ap (λ (r : List ℕ). found (record { image = spans next.image secs; reinit = r }))
          (append_assoc b.reinit (stream_of sec) (streams secs))

  -- The image has every section inside.
  abbrev pub Reaches : ℕ → ℕ → List Section → Type 0
  Reaches lo hi secs =
      (lo' : ℕ) × (hi' : ℕ) × (spans (some (lo, hi)) secs ≡ some (lo', hi'))
      × (lo' ≤ lo)
      × (hi ≤ hi')
      × (hi' + 1 ≤ usize_max)
      × AllWithin lo' hi' secs

  pub spans-Reaches :
      (secs : List Section) (lo hi : ℕ)
      → AllLoadable usize_max secs
      → hi + 1 ≤ usize_max
      → Reaches lo hi secs
  spans-Reaches [] lo hi l top = (lo, hi, refl, omega arith, omega arith, top, tt)
  spans-Reaches (sec ∷ secs) lo hi l top =
      let x : IsLoadable usize_max sec = l.0 in
      let (lo', hi', runs, low, high, top', all) =
        spans-Reaches secs (min lo sec.virt_addr) (max hi (last_of sec)) l.1
          (omega (arith, x.in_memory, x.some_byte)) in
      (
        lo',
        hi',
        runs,
        omega (arith, low),
        omega (arith, high),
        top',
        (record { low = omega (arith, low); high = omega (arith, high, x.some_byte) }, all),
      )

  place_lem :
      (lo hi : ℕ) (bytes : List ℕ) (sec : Section)
      → IsLoadable usize_max sec
      → IsWithin lo hi sec
      → length bytes ≡ hi + 1 - lo
      → hi + 1 ≤ usize_max
      → place usize_max lo bytes sec ≡ found (copy_into (sec.virt_addr - lo) sec.raw bytes)
  unfolding place
  place_lem lo hi bytes sec l w size top =
      let off = sec.virt_addr - lo in
      let copied : min sec.virt_size (length sec.raw) ≡ length sec.raw =
        omega (arith, l.raw_fits) in
      let a : ltb sec.virt_addr lo ≡ false = ground (arith, w.low) in
      let b : ltb usize_max off ≡ false = ground (arith, l.in_memory) in
      let c : ltb usize_max sec.virt_size ≡ false = ground (arith, l.in_memory) in
      let d : leb (off + length sec.raw) usize_max ≡ true =
        ground (arith, l.in_memory, l.raw_fits) in
      let e : leb (off + length sec.raw) (length bytes) ≡ true =
        ground (arith, size, w.low, w.high, l.raw_fits) in
      rw (copied, a, b, c, d, e, ==_refl (length sec.raw)) refl

  pub fold-place :
      (lo hi : ℕ) (secs : List Section) (bytes : List ℕ) (m : ℕ → ℕ)
      → AllLoadable usize_max secs
      → AllWithin lo hi secs
      → length bytes ≡ hi + 1 - lo
      → hi + 1 ≤ usize_max
      → Shows lo bytes m
      → (out : List ℕ) × (fold (place usize_max lo) bytes secs ≡ found out)
        × (length out ≡ hi + 1 - lo)
        × Shows lo out (loaded m secs)
  fold-place lo hi [] bytes m l w size top shows = (bytes, refl, size, shows)
  fold-place lo hi (sec ∷ secs) bytes m l w size top shows =
      let off = sec.virt_addr - lo in
      let inside : IsWithin lo hi sec = w.0 in
      let next = copy_into off sec.raw bytes in
      let (out, runs, size', shows') =
        fold-place lo hi secs next (store_all m sec.virt_addr sec.raw) l.1 w.1
          (length-copy_into off sec.raw bytes ∙ size) top
          (copy_into-Shows lo off sec.virt_addr sec.raw bytes m (omega (arith, inside.low))
            shows) in
      (
        out,
        ap (λ (r : Parsed (List ℕ)). r >>= λ t. fold (place usize_max lo) t secs)
              (place_lem lo hi bytes sec l.0 inside size top)
            ∙ runs,
        size',
        shows',
      )
