-- ===== src/FlattenPe.antt =====
-- src/main.rs, `flatten_pe`: the build script lays the bootloader's PE file out as it is loaded. The
-- bytes of the file are an argument.
pub mod Fold
pub mod Image
pub mod Loads
pub mod Passes
use chocolate_milk.Base.{
  checked_sub, ℕ, suc, ◌+◌, ◌-◌, ◌^◌, min, max, Bool, true, false, ◌&&◌, ◌||◌, ltb, leb, ◌==◌,
  if◌then◌else◌, Option, none, some, List, [], ◌∷◌, ◌++◌, length, set, replicate,
}
use chocolate_milk.Base.Bytes.{to_le_32}
use chocolate_milk.Base.Parsed.{Parsed, found, ◌>>=◌, ◌>>◌, try, checked, refuse_if}
use chocolate_milk.PeParser.{PeParser, Section, parse, sections, checked_add, u64_max}

-- The variables of the first closure; the two ends of the image are set at the same time.
pub record Bounds : Type 0 where
  pub image : Option (ℕ × ℕ)
  pub reinit : List ℕ

abbrev pub empty : Bounds
empty = record { image = none; reinit = [] }

-- The lowest and the highest address with one more section.
abbrev pub widened : ℕ → ℕ → Option (ℕ × ℕ) → ℕ × ℕ
widened base end none = (base, end)
widened base end (some (image_start, image_end)) = (min image_start base, max image_end end)

-- What a section adds to the stream that initialises the writable sections again.
unfoldable pub reinit_of : Section → Parsed (List ℕ)
reinit_of sec =
    if sec.write && ltb 0 (length sec.raw)
    then (refuse_if (leb (2 ^ 32) sec.virt_addr)
        >> refuse_if (leb (2 ^ 32) (length sec.raw))
        >> found (to_le_32 sec.virt_addr ++ (to_le_32 (length sec.raw) ++ sec.raw)))
    else found []

-- The first closure.
unfoldable pub grow : Bounds → Section → Parsed Bounds
grow b sec = do
  last ← try (checked_sub sec.virt_size 1)
  end ← try (checked_add u64_max sec.virt_addr last)
  stream ← reinit_of sec
  found (record { image = some (widened sec.virt_addr end b.image); reinit = b.reinit ++ stream })

-- `flattened[off..off + raw.len()].copy_from_slice(raw)` in range.
abbrev pub copy_into : ℕ → List ℕ → List ℕ → List ℕ
copy_into off [] flattened = flattened
copy_into off (byte ∷ raw) flattened = copy_into (suc off) raw (set flattened off byte)

-- A test that panics.
abbrev pub require : Bool → Parsed (Unit {0})
require b = checked (if b then some tt else none)

-- The second closure. `copy_from_slice` panics unless the lengths agree.
unfoldable pub place : ℕ → ℕ → List ℕ → Section → Parsed (List ℕ)
place usize_max image_start flattened sec = do
  flat_off ← checked (checked_sub sec.virt_addr image_start)
  refuse_if (ltb usize_max flat_off)
  refuse_if (ltb usize_max sec.virt_size)
  let to_copy = min sec.virt_size (length sec.raw)
  end ← try (checked_add usize_max flat_off to_copy)
  require (leb end (length flattened))
  require (to_copy == length sec.raw)
  found (copy_into flat_off sec.raw flattened)

-- The entry point, the base, the image and the stream.
pub record Flat : Type 0 where
  pub entry : ℕ
  pub base : ℕ
  pub image : List ℕ
  pub reinit : List ℕ

-- The end of `flatten_pe`.
unfoldable pub checked_flat : PeParser → ℕ × ℕ → List ℕ → List ℕ → Parsed Flat
checked_flat pe (image_start, image_end) flattened reinit = do
  refuse_if (ltb pe.entry_point image_start || ltb image_end pe.entry_point)
  refuse_if (leb (2 ^ 32) pe.entry_point)
  refuse_if (leb (2 ^ 32) image_start)
  found (record { entry = pe.entry_point; base = image_start; image = flattened; reinit = reinit })

-- Behind the first pass over the sections.
unfoldable pub lay_out : ℕ → PeParser → ℕ × ℕ → List ℕ → Parsed Flat
lay_out usize_max pe (image_start, image_end) reinit = do
  last ← try (checked_sub image_end image_start)
  size ← try (checked_add u64_max last 1)
  refuse_if (ltb usize_max size)
  flattened ← sections usize_max pe (place usize_max image_start) (replicate size 0)
  checked_flat pe (image_start, image_end) flattened reinit

unfoldable pub flatten_pe : ℕ → List ℕ → Parsed Flat
flatten_pe usize_max bytes = do
  pe ← parse usize_max bytes
  b ← sections usize_max pe grow empty
  image ← try b.image
  lay_out usize_max pe image b.reinit
