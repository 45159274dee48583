-- ===== src/Apic/Lifetime.antt =====
-- kernel/src/apic.rs: `init`, and the drop of an `Apic`, which puts the state of the BIOS back.
pub mod Restored
use chocolate_milk.Base.{
  ℕ, ◌+◌, ◌-◌, ◌*◌, ◌^◌, bit_and, bit_or, Bool, true, false, not, ◌&&◌, ◌||◌, ◌==◌, if◌then◌else◌,
  is_none, Option, none, some, List, [], ◌∷◌,
}
use chocolate_milk.Base.Outcome.{Outcome, ok, out_of_fuel, assert, unwrap, ◌>>=◌, ◌>>◌}
use chocolate_milk.PageTable.{
  PageType, PhysMem, page_present, page_write, page_cache_disable, page_nx,
}
use chocolate_milk.PageTable.Map.{map_raw}
use chocolate_milk.KernelMemory.{alloc_virt_addr_4k}
use chocolate_milk.Interrupts.{eoi_required}
use chocolate_milk.Apic.{
  Register, ApicMode, Machine, TimerState, Apic, ia32_apic_base, ia32_apic_base_en,
  ia32_apic_base_extd, apic_base, wrmsr, out8, read_apic, write_apic, apic_id_of, isr, irr,
  mask_timer,
}

-- Nothing is being serviced.
abbrev pub none_serviced : ApicMode → Machine → Bool
none_serviced mode m = ((isr mode m).0 == 0) && ((isr mode m).1 == 0)

-- Nothing that requires an EOI is pending.
abbrev pub none_pending : ApicMode → (ℕ → Bool) → Machine → Bool
none_pending mode required m =
    let can_eoi = eoi_required required in
    not (not (bit_and (irr mode m).0 can_eoi.0 == 0) || not (bit_and (irr mode m).1 can_eoi.1 == 0))

-- The two loops of the drop. The lists are what the machine does before each further round; in the
-- second one, this is the delivery of interrupts, which `interrupt_handler` meets in draining mode.
unfoldable pub end_serviced : ApicMode → List (Machine → Machine) → Machine → Outcome Machine
end_serviced mode [] m = if none_serviced mode m then ok m else out_of_fuel
end_serviced mode (act ∷ acts) m =
    let rest = end_serviced mode acts (act (write_apic mode m Register.end_of_interrupt 0)) in
    if none_serviced mode m then ok m else rest

unfoldable pub drain : ApicMode → (ℕ → Bool) → List (Machine → Machine) → Machine → Outcome Machine
drain mode required [] m = if none_pending mode required m then ok m else out_of_fuel
drain mode required (act ∷ acts) m =
    let rest = drain mode required acts (act m) in
    if none_pending mode required m then ok m else rest

-- The end of the drop.
unfoldable pub put_back : Apic → Machine → Outcome Machine
put_back apic m =
    let dcr = write_apic apic.mode m Register.divide_configuration apic.orig_timer_state.dcr in
    let lvt = write_apic apic.mode dcr Register.lvt_timer apic.orig_timer_state.lvt in
    let icr = write_apic apic.mode lvt Register.initial_count apic.orig_timer_state.icr in
    let svr = write_apic apic.mode icr Register.spurious_interrupt_vector apic.orig_svr in
    assert (not (bit_and apic.orig_ia32_apic_base ia32_apic_base_en == 0))
    >> ok (
        out8
          (out8
            (wrmsr svr ia32_apic_base (
              bit_or apic.orig_ia32_apic_base
                (elim apic.mode [ ApicMode.xapic ↦ 0 | ApicMode.x2apic ↦ ia32_apic_base_extd ])))
            0xa1 apic.orig_pic_a1)
          0x21 apic.orig_pic_21)

-- The drop of an `Apic`.
unfoldable pub drop_apic :
    Apic
    → (ℕ → Bool)
    → List (Machine → Machine)
    → List (Machine → Machine)
    → Machine
    → Outcome Machine
drop_apic apic required services drains m =
    end_serviced apic.mode services (mask_timer apic.mode m) >>= λ quiet.
    drain apic.mode required drains quiet >>= put_back apic

-- What `init` uses of `CpuFeatures`.
pub record CpuFeatures : Type 0 where
  pub apic : Bool
  pub x2apic : Bool

abbrev pub mode_of : CpuFeatures → ApicMode
mode_of features = if features.x2apic then ApicMode.x2apic else ApicMode.xapic

-- The base that `init` programs.
abbrev pub new_base : CpuFeatures → ℕ → ℕ
new_base features orig =
    bit_or (bit_or (bit_or (bit_and orig (2 ^ 64 - 1 - 0xffffff000)) apic_base) ia32_apic_base_en)
      (if features.x2apic then ia32_apic_base_extd else 0)

module _ {S : Type 0} (mem : PhysMem S) where
  -- The registers in virtual memory.
  pub map_apic : S → Option ℕ → ℕ → Outcome (S × ℕ)
  map_apic s page_table next_free_vaddr = do
    (vaddr, next) ← alloc_virt_addr_4k next_free_vaddr 4096
    root ← unwrap page_table
    let raw =
        bit_or (bit_or (bit_or (bit_or apic_base page_nx) page_write) page_cache_disable)
          page_present
    (mapped, s') ← map_raw mem s root vaddr PageType.page_4k raw
    assert mapped
    ok (s', next)

  -- The part of `init` that a core with an x2apic does not need.
  abbrev pub mapped_for : CpuFeatures → S → Option ℕ → ℕ → Outcome (S × ℕ)
  mapped_for features s page_table next_free_vaddr =
      if features.x2apic then ok (s, next_free_vaddr) else map_apic s page_table next_free_vaddr

-- The end of `init`: the state of the BIOS is saved, and the APIC turned on. Also the APIC's number.
unfoldable pub take_over : ApicMode → ℕ → ℕ → ℕ → Machine → Apic × Machine × ℕ
take_over mode orig pic_a1 pic_21 m =
    let apic : Apic = record {
      mode = mode;
      orig_ia32_apic_base = orig;
      orig_svr = read_apic mode m Register.spurious_interrupt_vector;
      orig_pic_a1 = pic_a1;
      orig_pic_21 = pic_21;
      orig_timer_state = record {
        dcr = read_apic mode m Register.divide_configuration;
        icr = read_apic mode m Register.initial_count;
        lvt = read_apic mode m Register.lvt_timer;
      };
    } in
    let on = write_apic mode m Register.spurious_interrupt_vector (bit_or (2 ^ 8) 0xff) in
    (apic, on, apic_id_of mode on)

unfoldable pub init :
    {S : Type 0}
    → PhysMem S
    → S
    → Option ℕ
    → ℕ
    → CpuFeatures
    → Option Apic
    → Machine
    → Outcome ((Apic × Machine × ℕ) × S × ℕ)
init mem s page_table next_free_vaddr features old m =
    let orig = m.msr ia32_apic_base in
    let masked = out8 (out8 m 0xa1 0xff) 0x21 0xff in
    assert (is_none old)
    >> assert features.apic
    >> assert (not (bit_and orig ia32_apic_base_en == 0))
    >> mapped_for mem features s page_table next_free_vaddr
    >>= λ mapping. ok (
      take_over (mode_of features) orig (m.port 0xa1) (m.port 0x21)
          (wrmsr masked ia32_apic_base (new_base features orig)),
      mapping.0,
      mapping.1,
    )
