-- ===== src/Pci.antt =====
-- kernel/src/pci.rs: the configuration of a PCI device, and the walk over all of them.
pub mod Walk
use package.chocolate_milk.Base.{
  ℕ, zero, suc, ◌*◌, ◌/◌, ◌%◌, ◌^◌, bit_or, not, ◌&&◌, ◌==◌, if◌then◌else◌, Option, none, some,
  List, [], ◌∷◌, ◌++◌,
}
use package.chocolate_milk.Base.Outcome.{Outcome, ok, panic}

pub record PciHeader : Type 0 where
  pub vendor_id : ℕ
  pub device_id : ℕ
  pub command : ℕ
  pub status : ℕ
  pub revision : ℕ
  pub prog_if : ℕ
  pub subclass : ℕ
  pub class : ℕ
  pub cache_line_size : ℕ
  pub latency_timer : ℕ
  pub header_type : ℕ
  pub bist : ℕ

-- The fields behind `bar5` are left out.
pub record PciDevice : Type 0 where
  pub header : PciHeader
  pub bar0 : ℕ
  pub bar1 : ℕ
  pub bar2 : ℕ
  pub bar3 : ℕ
  pub bar4 : ℕ
  pub bar5 : ℕ

pub data BarType : Type 0 where
  bits32 : BarType
  bits64 : BarType

-- `BarType::from`
abbrev pub bar_type_from : ℕ → Outcome BarType
bar_type_from val =
    if val == 0 then ok BarType.bits32 else if val == 2 then ok BarType.bits64 else panic

-- The PCI configuration space as the words that the data port gives, by what was written to the
-- address port.
abbrev pub ConfigSpace : Type 0
ConfigSpace = ℕ → ℕ

abbrev pub pci_address_enable : ℕ
pci_address_enable = 2 ^ 31

abbrev pub address_of : ℕ → ℕ → ℕ → ℕ
address_of bus device function =
    bit_or (bit_or (bit_or pci_address_enable (bus * 2 ^ 16)) (device * 2 ^ 11)) (function * 2 ^ 8)

-- A register of the function at the address.
abbrev pub register_at : ConfigSpace → ℕ → ℕ → ℕ
register_at space addr rid = space (bit_or addr (rid * 4))

-- A `PciHeader` out of its four words, and a `PciDevice` out of its words.
abbrev pub header_of : (ℕ → ℕ) → PciHeader
header_of word = record {
  vendor_id = word 0 % 2 ^ 16;
  device_id = word 0 / 2 ^ 16 % 2 ^ 16;
  command = word 1 % 2 ^ 16;
  status = word 1 / 2 ^ 16 % 2 ^ 16;
  revision = word 2 % 2 ^ 8;
  prog_if = word 2 / 2 ^ 8 % 2 ^ 8;
  subclass = word 2 / 2 ^ 16 % 2 ^ 8;
  class = word 2 / 2 ^ 24 % 2 ^ 8;
  cache_line_size = word 3 % 2 ^ 8;
  latency_timer = word 3 / 2 ^ 8 % 2 ^ 8;
  header_type = word 3 / 2 ^ 16 % 2 ^ 8;
  bist = word 3 / 2 ^ 24 % 2 ^ 8;
}

abbrev pub device_of : (ℕ → ℕ) → PciDevice
device_of word = record {
  header = header_of word;
  bar0 = word 4;
  bar1 = word 5;
  bar2 = word 6;
  bar3 = word 7;
  bar4 = word 8;
  bar5 = word 9;
}

-- `for ii in ii..ii + left`
unfoldable pub each {ℓ} : {A : Type ℓ} → ℕ → ℕ → (ℕ → A → A) → A → A
each zero ii body a = a
each (suc left) ii body a = each left (suc ii) body (body ii a)

module _ {D : Type 0} (drivers : List (PciDevice → Option D)) where
  -- The first driver that takes a device.
  abbrev pub probe_all : List (PciDevice → Option D) → PciDevice → Option D
  probe_all [] device = none
  probe_all (probe ∷ more) device = elim (probe device) [
    | some d ↦ some d
    | none ↦ probe_all more device
  ]

  abbrev pub registered : List D → Option D → List D
  registered devices none = devices
  registered devices (some d) = devices ++ (d ∷ [])

  -- The body of the loops of `init`.
  unfoldable pub visit : ConfigSpace → ℕ → ℕ → ℕ → List D → List D
  visit space bus device function devices =
      let addr = address_of bus device function in
      let did_vid = space addr in
      let word = register_at space addr in
      if (did_vid % 2 ^ 16 == 0xffff) && (did_vid / 2 ^ 16 % 2 ^ 16 == 0xffff)
      then devices
      else if not ((header_of word).header_type == 0)
      then devices
      else registered devices (probe_all drivers (device_of word))

  unfoldable pub init : ConfigSpace → List D → List D
  init space devices =
      each 256 0 (λ bus. each 32 0 (λ device. each 8 0 (visit space bus device))) devices
