-- ===== src/Apic.antt =====
-- kernel/src/apic.rs: the local APIC of a core, through memory (xapic) or through machine registers
-- (x2apic).
pub mod Lifetime
use package.chocolate_milk.Base.{
  ℕ, ◌+◌, ◌-◌, ◌*◌, ◌/◌, ◌%◌, ◌^◌, bit_and, bit_or, Bool, true, false, not, ◌&&◌, ◌||◌, ltb, ◌==◌,
  if◌then◌else◌, is_none, Option, none, some, List, [], ◌∷◌,
}
use package.chocolate_milk.Base.Outcome.{Outcome, ok, out_of_fuel, assert, unwrap, ◌>>=◌, ◌>>◌}
use package.chocolate_milk.PageTable.{
  PageType, PhysMem, page_present, page_write, page_cache_disable, page_nx,
}
use package.chocolate_milk.PageTable.Map.{map_raw}
use package.chocolate_milk.KernelMemory.{alloc_virt_addr_4k}
use package.chocolate_milk.Interrupts.{add_handler, remove_handler, eoi_required}

abbrev pub ia32_apic_base_extd : ℕ
ia32_apic_base_extd = 2 ^ 10

abbrev pub ia32_apic_base_en : ℕ
ia32_apic_base_en = 2 ^ 11

abbrev pub ia32_apic_base : ℕ
ia32_apic_base = 0x1b

abbrev pub apic_base : ℕ
apic_base = 0xfee00000

abbrev pub apic_timer_vector : ℕ
apic_timer_vector = 0xe0

abbrev pub lvt_mask : ℕ
lvt_mask = 2 ^ 16

pub data Register : Type 0 where
  apic_id end_of_interrupt spurious_interrupt_vector : Register
  isr0 isr1 isr2 isr3 isr4 isr5 isr6 isr7 : Register
  irr0 irr1 irr2 irr3 irr4 irr5 irr6 irr7 : Register
  lvt_timer initial_count divide_configuration : Register

-- `register as usize`
abbrev pub offset_of : Register → ℕ
offset_of Register.apic_id = 0x20
offset_of Register.end_of_interrupt = 0xb0
offset_of Register.spurious_interrupt_vector = 0xf0
offset_of Register.isr0 = 0x100
offset_of Register.isr1 = 0x110
offset_of Register.isr2 = 0x120
offset_of Register.isr3 = 0x130
offset_of Register.isr4 = 0x140
offset_of Register.isr5 = 0x150
offset_of Register.isr6 = 0x160
offset_of Register.isr7 = 0x170
offset_of Register.irr0 = 0x200
offset_of Register.irr1 = 0x210
offset_of Register.irr2 = 0x220
offset_of Register.irr3 = 0x230
offset_of Register.irr4 = 0x240
offset_of Register.irr5 = 0x250
offset_of Register.irr6 = 0x260
offset_of Register.irr7 = 0x270
offset_of Register.lvt_timer = 0x320
offset_of Register.initial_count = 0x380
offset_of Register.divide_configuration = 0x3e0

-- Whether the APIC is in x2apic mode; the mapping of the other mode is the memory of the machine.
pub data ApicMode : Type 0 where
  xapic : ApicMode
  x2apic : ApicMode

-- What the code reads and writes: the 32-bit words of the mapping, the machine registers of the core,
-- and the bytes at the ports.
pub record Machine : Type 0 where
  pub mapping : ℕ → ℕ
  pub msr : ℕ → ℕ
  pub port : ℕ → ℕ

abbrev pub written : (ℕ → ℕ) → ℕ → ℕ → ℕ → ℕ
written words i val j = if j == i then val else words j

abbrev pub wrmsr : Machine → ℕ → ℕ → Machine
wrmsr m i val = record m { msr = written m.msr i val }

abbrev pub out8 : Machine → ℕ → ℕ → Machine
out8 m i val = record m { port = written m.port i val }

unfoldable pub read_apic : ApicMode → Machine → Register → ℕ
read_apic ApicMode.xapic m register = m.mapping (offset_of register / 4)
read_apic ApicMode.x2apic m register = m.msr (0x800 + offset_of register / 16) % 2 ^ 32

unfoldable pub write_apic : ApicMode → Machine → Register → ℕ → Machine
write_apic ApicMode.xapic m register val = record m {
  mapping = written m.mapping (offset_of register / 4) val;
}
write_apic ApicMode.x2apic m register val = wrmsr m (0x800 + offset_of register / 16) val

pub record TimerState : Type 0 where
  pub dcr : ℕ
  pub icr : ℕ
  pub lvt : ℕ

pub record Apic : Type 0 where
  pub mode : ApicMode
  pub orig_ia32_apic_base : ℕ
  pub orig_svr : ℕ
  pub orig_pic_a1 : ℕ
  pub orig_pic_21 : ℕ
  pub orig_timer_state : TimerState

-- `Apic::apic_id`
abbrev pub apic_id_of : ApicMode → Machine → ℕ
apic_id_of ApicMode.xapic m = read_apic ApicMode.xapic m Register.apic_id / 2 ^ 24
apic_id_of ApicMode.x2apic m = read_apic ApicMode.x2apic m Register.apic_id

unfoldable pub write_icr : ApicMode → Machine → ℕ → Machine
write_icr ApicMode.xapic m val =
    let high = written m.mapping (0x310 / 4) (val / 2 ^ 32 % 2 ^ 32) in
    record m { mapping = written high (0x300 / 4) (val % 2 ^ 32) }
write_icr ApicMode.x2apic m val = wrmsr m 0x830 val

abbrev pub destination : ApicMode → ℕ → ℕ
destination ApicMode.xapic dest = dest * 2 ^ 24 % 2 ^ 32
destination ApicMode.x2apic dest = dest

unfoldable pub ipi : ApicMode → Machine → ℕ → ℕ → Machine
ipi mode m dest_apic_id command =
    write_icr mode m (bit_or (destination mode dest_apic_id * 2 ^ 32) command)

-- The eight words of a bitmap as two numbers of 128 bits.
abbrev pub bitmap : (Register → ℕ) → Register → Register → Register → Register → ℕ
bitmap read a b c d = read a + read b * 2 ^ 32 + read c * 2 ^ 64 + read d * 2 ^ 96

abbrev pub irr : ApicMode → Machine → ℕ × ℕ
irr mode m =
    let read = read_apic mode m in
    (
      bitmap read Register.irr0 Register.irr1 Register.irr2 Register.irr3,
      bitmap read Register.irr4 Register.irr5 Register.irr6 Register.irr7,
    )

abbrev pub isr : ApicMode → Machine → ℕ × ℕ
isr mode m =
    let read = read_apic mode m in
    (
      bitmap read Register.isr0 Register.isr1 Register.isr2 Register.isr3,
      bitmap read Register.isr4 Register.isr5 Register.isr6 Register.isr7,
    )

abbrev pub mask_timer : ApicMode → Machine → Machine
mask_timer mode m =
    write_apic mode m Register.lvt_timer (bit_or lvt_mask (read_apic mode m Register.lvt_timer))

-- The table of handlers and the one of required EOIs change with the timer.
module _ {H : Type 0} where
  pub enable_timer :
      ApicMode
      → Machine
      → H
      → (ℕ → Option H)
      → (ℕ → Bool)
      → Outcome (Machine × (ℕ → Option H) × (ℕ → Bool))
  enable_timer mode m timer_interrupt dispatch required = do
    let stopped = write_apic mode m Register.initial_count 0
    (dispatch', required') ← add_handler dispatch required apic_timer_vector timer_interrupt true
    let divided = write_apic mode stopped Register.divide_configuration 0
    let periodic = write_apic mode divided Register.lvt_timer (bit_or (2 ^ 17) apic_timer_vector)
    ok (write_apic mode periodic Register.initial_count 10000000, dispatch', required')

  pub disable_timer :
      (H → H → Bool)
      → ApicMode
      → Machine
      → H
      → (ℕ → Option H)
      → (ℕ → Bool)
      → Outcome (Machine × (ℕ → Option H) × (ℕ → Bool))
  disable_timer same mode m timer_interrupt dispatch required = do
    let stopped = write_apic mode (mask_timer mode m) Register.initial_count 0
    (dispatch', required') ← remove_handler same dispatch required apic_timer_vector timer_interrupt
    ok (stopped, dispatch', required')
