-- ===== src/Tests/FlattenPe.antt =====
-- src/main.rs on a file of 160 bytes with one writable section.
use chocolate_milk.Base.{ℕ, ◌-◌, ◌^◌, ◌≡◌, arith, refl, true, List, [], ◌∷◌, set}
use chocolate_milk.Base.Parsed.{found}
use chocolate_milk.PeParser.{
  PeParser, Section, image_base_of, parse_coff, parse, section_at, sections_from, sections,
}
use chocolate_milk.FlattenPe.{Flat, flatten_pe, lay_out, checked_flat, grow, place, reinit_of}
use chocolate_milk.FlattenPe.Fold.{AreHeaders}
use chocolate_milk.FlattenPe.Loads.{IsLoaded, flatten_pe-IsLoaded}
use chocolate_milk.Tests.PeParser.{image, image_parser}

-- With its entry point in the section, which is writable.
abbrev file : List ℕ
file = set (set image 104 2) 159 0xe0

abbrev file_parser : PeParser
file_parser = record image_parser { bytes = file; entry_point = 0x40_1002 }

abbrev file_section : Section
file_section = record {
  virt_addr = 0x40_1000;
  virt_size = 4;
  raw = b'M' ∷ b'Z' ∷ [];
  read = true;
  write = true;
  execute = true;
}

file_parses : parse (2 ^ 32 - 1) file ≡ found file_parser
unfolding parse parse_coff image_base_of
file_parses = refl

file-AreHeaders : AreHeaders (2 ^ 32 - 1) file_parser 1 0 (file_section ∷ [])
unfolding section_at
file-AreHeaders = (refl, tt)

flatten_pe-IsLoaded_example :
    (flat : Flat) × (flatten_pe (2 ^ 32 - 1) file ≡ found flat)
    × IsLoaded file_parser (file_section ∷ []) flat
flatten_pe-IsLoaded_example =
    flatten_pe-IsLoaded (2 ^ 32 - 1) (omega arith) file_parser file (file_section ∷ []) 0
      file_section file_parses file-AreHeaders
      (
        record {
          some_byte = omega arith;
          in_memory = omega arith;
          raw_fits = omega arith;
          low_raw = omega arith;
          low_addr = omega arith;
        },
        tt,
      )
      refl (omega arith) (omega arith) (omega arith)

flattened :
    flatten_pe (2 ^ 32 - 1) file
    ≡ found (record {
      entry = 0x40_1002;
      base = 0x40_1000;
      image = b'M' ∷ b'Z' ∷ 0 ∷ 0 ∷ [];
      reinit = 0 ∷ 0x10 ∷ 0x40 ∷ 0 ∷ 2 ∷ 0 ∷ 0 ∷ 0 ∷ b'M' ∷ b'Z' ∷ [];
    })
unfolding flatten_pe lay_out checked_flat grow place reinit_of parse parse_coff image_base_of
    sections sections_from section_at
flattened = refl
