-- ===== src/Tests/Apic.antt =====
-- kernel/src/apic.rs, on a core with an x2apic.
use chocolate_milk.Base.{
  ℕ, ◌+◌, ◌*◌, ◌^◌, ◌≡◌, refl, true, false, inr, none, [], ◌∷◌, ◌==◌, if◌then◌else◌,
}
use chocolate_milk.Base.Outcome.{ok}
use chocolate_milk.PageTable.{PhysMem}
use chocolate_milk.Interrupts.{eoi_required, required_from}
use chocolate_milk.Apic.{ApicMode, Machine, Apic, read_apic, write_apic, ipi, write_icr, mask_timer}
use chocolate_milk.Apic.Lifetime.{CpuFeatures, init, take_over, drop_apic}
use chocolate_milk.Apic.Lifetime.Restored.{IsRestored, Quietens, Delivers, drop_apic-IsRestored}

abbrev no_memory : PhysMem ℕ
no_memory = record {
  read = λ s a. 0;
  write = λ s a v. s;
  write_byte = λ s a v. s;
  zero_bytes = λ s a n. s;
  alloc_phys = λ s size align. none;
  free_phys = λ s a size. s;
  read_cr3 = λ s. s;
  write_cr3 = λ s a. s;
}

abbrev modern : CpuFeatures
modern = record { apic = true; x2apic = true }

-- As the BIOS leaves it: the spurious vector is 15, and some interrupts are masked.
abbrev booted : Machine
booted = record {
  mapping = λ i. 0;
  msr = λ i. if i == 0x1b then 2 ^ 11 + 0xfee00000 else if i == 0x80f then 15 else 7;
  port = λ i. if i == 0x21 then 0xb8 else 0x8e;
}

abbrev result : (Apic × Machine × ℕ) × ℕ × ℕ
result = (
  take_over ApicMode.x2apic (2 ^ 11 + 0xfee00000) 0x8e 0xb8 (record {
    mapping = λ i. 0;
    msr = λ i. if i == 0x1b then 0xfee00000 + 2 ^ 11 + 2 ^ 10 else booted.msr i;
    port = λ i. if i == 0x21 then 0xff else if i == 0xa1 then 0xff else booted.port i;
  }),
  0,
  0,
)

init_runs : init no_memory 0 none 0 modern none booted ≡ ok result
unfolding init
init_runs = refl

-- The timer is in service; the machine clears what is in service, and what is pending.
abbrev serving : Machine
serving = record { mapping = λ i. 0; msr = λ i. if i == 0x817 then 1 else 0; port = λ i. 0xff }

abbrev clear : Machine → Machine
clear m = record m { msr = λ i. 0 }

serving-Quietens : Quietens ApicMode.x2apic (clear ∷ []) (mask_timer ApicMode.x2apic serving)
unfolding read_apic write_apic
serving-Quietens = inr refl

clear-Delivers : (q : Machine) → Delivers ApicMode.x2apic (λ i. false) (clear ∷ []) q
unfolding read_apic eoi_required required_from
clear-Delivers q = inr refl

drop_apic-IsRestored_example :
    (t : Machine) × (drop_apic result.0.0 (λ i. false) (clear ∷ []) (clear ∷ []) serving ≡ ok t)
    × IsRestored modern booted t
drop_apic-IsRestored_example =
    drop_apic-IsRestored no_memory 0 none 0 modern none booted serving result (λ i. false)
      (clear ∷ []) (clear ∷ []) init_runs serving-Quietens clear-Delivers

-- The number of the core stands in the upper half of the command.
halting_ipi : (ipi ApicMode.xapic booted 3 0x4400).mapping 196 ≡ 3 * 2 ^ 24
unfolding ipi write_icr
halting_ipi = refl
