-- ===== src/Tests/PeParser.antt =====
-- shared/pe_parser/src/lib.rs on a file of 160 bytes with one section.
use chocolate_milk.Base.{
  true, false, ℕ, ◌-◌, ◌^◌, ◌≤◌, ◌≡◌, refl, ◌⊎◌, List, [], ◌∷◌, ◌++◌, length, replicate,
}
use chocolate_milk.Base.Parsed.{Parsed, found, absent}
use chocolate_milk.Base.Safe.{Safe-intro}
use chocolate_milk.PeParser.{
  PeParser, Section, image_base_of, parse_coff, parse, section_at, sections_from, sections,
}
use chocolate_milk.PeParser.Bounds.{sections-parse}

abbrev pub image : List ℕ
image =
    b'M'
    ∷ b'Z'
    ∷ (replicate 58 0
        ++ (0x40
            ∷ 0
            ∷ 0
            ∷ 0
            ∷ b'P'
            ∷ b'E'
            ∷ 0
            ∷ 0
            ∷ 0x4c
            ∷ 0x01
            ∷ 1
            ∷ 0
            ∷ (replicate 12 0
                ++ (0x20
                    ∷ 0
                    ∷ 0
                    ∷ 0
                    ∷ (replicate 16 0
                        ++ (0x10
                            ∷ 0x10
                            ∷ 0
                            ∷ 0
                            ∷ (replicate 8 0
                                ++ (0
                                    ∷ 0
                                    ∷ 0x40
                                    ∷ 0
                                    ∷ (replicate 8 0
                                        ++ (4
                                            ∷ 0
                                            ∷ 0
                                            ∷ 0
                                            ∷ 0
                                            ∷ 0x10
                                            ∷ 0
                                            ∷ 0
                                            ∷ 2
                                            ∷ 0
                                            ∷ 0
                                            ∷ 0
                                            ∷ 0
                                            ∷ 0
                                            ∷ 0
                                            ∷ 0
                                            ∷ (replicate 12 0
                                                ++ (0x20 ∷ 0 ∷ 0 ∷ 0x60 ∷ []))))))))))))

abbrev pub image_parser : PeParser
image_parser = record {
  bytes = image;
  num_sections = 1;
  section_off = 0x78;
  image_base = 0x40_0000;
  entry_point = 0x40_1010;
}

parse_runs : parse (2 ^ 32 - 1) image ≡ found image_parser
unfolding parse parse_coff image_base_of
parse_runs = refl

abbrev collect : List Section → Section → Parsed (List Section)
collect seen sec = found (sec ∷ seen)

sections_run :
    sections (2 ^ 32 - 1) image_parser collect []
    ≡ found (
        record {
          virt_addr = 0x40_1000;
          virt_size = 4;
          raw = b'M' ∷ b'Z' ∷ [];
          read = true;
          write = false;
          execute = true;
        }
        ∷ [])
unfolding sections sections_from section_at
sections_run = refl

abbrev Bounded : List Section → Type 0
Bounded [] = Unit
Bounded (sec ∷ seen) = (length sec.raw ≤ sec.virt_size) × Bounded seen

sections-parse_example :
    (sections (2 ^ 32 - 1) image_parser collect [] ≡ absent)
    ⊎ ((seen : List Section) × (sections (2 ^ 32 - 1) image_parser collect [] ≡ found seen)
        × Bounded seen)
sections-parse_example =
    sections-parse Bounded (2 ^ 32 - 1) image_parser collect image [] parse_runs
      (λ s sec i fits. Safe-intro Bounded _ (fits.no_longer, i)) tt
