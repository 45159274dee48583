-- ===== src/Tests/Pci.antt =====
-- kernel/src/pci.rs, on a system with one network card, which is function 0 of device 3 of bus 0.
use chocolate_milk.Base.{
  ℕ, ◌+◌, ◌-◌, ◌*◌, ◌/◌, ◌%◌, ◌^◌, ◌≡◌, ◌↔◌, ◌⊎◌, arith, refl, Option, List, [], ◌∷◌, Mem, ◌==◌,
  if◌then◌else◌,
}
use chocolate_milk.Pci.{PciDevice, init}
use chocolate_milk.Pci.Walk.{Selects, IsSomewhere, init-IsSomewhere}
use chocolate_milk.E1000.{NicRegisters}
use chocolate_milk.E1000.Setup.{probe, registers}
use chocolate_milk.Base.{true}

abbrev drivers : List (PciDevice → Option NicRegisters)
drivers = probe ∷ []

-- Register `rid` of a function.
abbrev config : ℕ → ℕ → ℕ → ℕ → ℕ
config bus device function rid =
    if bus * 2 ^ 8 + device * 8 + function == 24
    then (if rid == 0 then 0x1533 * 2 ^ 16 + 0x8086 else 0)
    else 2 ^ 32 - 1

abbrev space : ℕ → ℕ
space addr =
    config (addr / 2 ^ 16 % 2 ^ 8) (addr / 2 ^ 11 % 2 ^ 5) (addr / 2 ^ 8 % 2 ^ 3) (addr / 4 % 2 ^ 6)

space-Selects : Selects drivers config space
space-Selects bus device function rid a b c d =
    let bus_is : (2 ^ 31 + bus * 2 ^ 16 + device * 2 ^ 11 + function * 2 ^ 8 + rid * 4)
          / 2 ^ 16
          % 2 ^ 8
        ≡ bus =
      omega arith in
    let device_is : (2 ^ 31 + bus * 2 ^ 16 + device * 2 ^ 11 + function * 2 ^ 8 + rid * 4)
          / 2 ^ 11
          % 2 ^ 5
        ≡ device =
      omega arith in
    let function_is : (2 ^ 31 + bus * 2 ^ 16 + device * 2 ^ 11 + function * 2 ^ 8 + rid * 4)
          / 2 ^ 8
          % 2 ^ 3
        ≡ function =
      omega arith in
    let rid_is : (2 ^ 31 + bus * 2 ^ 16 + device * 2 ^ 11 + function * 2 ^ 8 + rid * 4) / 4 % 2 ^ 6
        ≡ rid =
      omega arith in
    rw (bus_is, device_is, function_is, rid_is) refl

init-IsSomewhere_example :
    Mem (registers true) (init drivers space [])
    ↔ (Mem (registers true) [] ⊎ IsSomewhere drivers config (registers true))
init-IsSomewhere_example = init-IsSomewhere drivers config space [] (registers true) space-Selects
