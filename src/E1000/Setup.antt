-- ===== src/E1000/Setup.antt =====
-- kernel/src/e1000.rs: `probe` and `IntelGbit::new`.
pub mod Bar
pub mod Filled
pub mod Mapped
pub mod Programmed
pub mod Starts
use chocolate_milk.Base.{
  ℕ, zero, suc, ◌+◌, ◌-◌, ◌*◌, ◌/◌, ◌%◌, ◌^◌, bit_and, bit_or, Bool, true, false, not, ◌&&◌, ltb,
  leb, ◌==◌, if◌then◌else◌, Option, none, some, List, [], ◌∷◌, ◌++◌, replicate, take,
}
use chocolate_milk.Base.Bytes.{to_le_32}
use chocolate_milk.Base.Outcome.{Outcome, ok, panic, out_of_fuel, assert, unwrap, ◌>>=◌, ◌>>◌}
use chocolate_milk.Pci.{PciDevice, BarType, bar_type_from}
use chocolate_milk.PageTable.{
  PageType, PhysMem, page_present, page_write, page_cache_disable, page_nx,
}
use chocolate_milk.PageTable.Map.{map_raw}
use chocolate_milk.RangeSet.Alloc.{checked_add}
use chocolate_milk.KernelMemory.{alloc_virt_addr_4k}
use chocolate_milk.KernelMemory
use chocolate_milk.E1000.{
  NicRegisters, DmaPacket, IntelGbit, PacketMemory, empty_rx, empty_tx, set_at, num_rx_descs,
  num_tx_descs, read, write,
}

-- The offsets that all devices of the table have.
abbrev pub registers : Bool → NicRegisters
registers queue_enable = record {
  queue_enable = queue_enable;
  ctrl = 0x0000;
  imc = 0x00d8;
  rdbal = 0x2800;
  rdbah = 0x2804;
  rdlen = 0x2808;
  rdh = 0x2810;
  rdt = 0x2818;
  tdbal = 0x3800;
  tdbah = 0x3804;
  tdlen = 0x3808;
  tdh = 0x3810;
  tdt = 0x3818;
  ral0 = 0x5400;
  rah0 = 0x5404;
  rctl = 0x0100;
  tctl = 0x0400;
  rxdctl = 0x2828;
  txdctl = 0x3828;
}

abbrev pub e1000_regs : NicRegisters
e1000_regs = registers false

abbrev pub handled_devices : List (ℕ × ℕ × NicRegisters)
handled_devices =
    (0x8086, 0x100e, e1000_regs)
    ∷ (0x8086, 0x10d3, e1000_regs)
    ∷ (0x8086, 0x1533, registers true)
    ∷ []

-- The registers with which `probe` makes a driver.
abbrev pub probe_among : List (ℕ × ℕ × NicRegisters) → PciDevice → Option NicRegisters
probe_among [] device = none
probe_among ((vid, did, regs) ∷ devices) device =
    if (device.header.vendor_id == vid) && (device.header.device_id == did)
    then some regs
    else probe_among devices device

unfoldable pub probe : PciDevice → Option NicRegisters
probe device = probe_among handled_devices device

abbrev pub bar_of : PciDevice → BarType → ℕ
bar_of device BarType.bits32 = bit_and device.bar0 0xfffffff0
bar_of device BarType.bits64 = bit_or (device.bar1 * 2 ^ 32) (bit_and device.bar0 0xfffffff0)

-- The checked physical address of the registers.
unfoldable pub bar_address : PciDevice → Outcome ℕ
bar_address device = do
  assert (bit_and device.bar0 1 == 0)
  bar_type ← bar_type_from (bit_and (device.bar0 / 2) 3)
  assert (bit_and (bar_of device bar_type) 0xfff == 0)
  ok (bar_of device bar_type)

module _ {S : Type 0} (mem : PhysMem S) where
  -- The loop that maps the registers, `left` pages from `offset` on.
  unfoldable pub map_registers : ℕ → S → ℕ → ℕ → ℕ → ℕ → Outcome S
  map_registers zero s root bar vaddr offset = ok s
  map_registers (suc left) s root bar vaddr offset = do
    let raw =
        bit_or (bit_or (bit_or (bit_or (bar + offset) page_nx) page_write) page_cache_disable)
          page_present
    (mapped, s') ← map_raw mem s root (vaddr + offset) PageType.page_4k raw
    assert mapped
    map_registers left s' root bar vaddr (offset + 4096)

  -- The registers in virtual memory: their address, the state, and the next free virtual address.
  unfoldable pub map_mmio : S → Option ℕ → ℕ → PciDevice → Outcome (ℕ × S × ℕ)
  map_mmio s page_table next_free_vaddr device = do
    bar ← bar_address device
    (vaddr, next) ← alloc_virt_addr_4k next_free_vaddr (128 * 1024)
    root ← unwrap page_table
    end ← unwrap (checked_add bar (128 * 1024))
    s' ← map_registers 32 s root bar vaddr 0
    ok (vaddr, s', next)

module _ {M : Type 0} (mem : PacketMemory M) where
  -- The loop over the receive descriptors, `left` of them from `ii` on.
  unfoldable pub fill_rx : ℕ → ℕ → IntelGbit M → IntelGbit M
  fill_rx zero ii s = s
  fill_rx (suc left) ii s =
      let given = mem.new_packet s.memory in
      fill_rx left (suc ii) (record s {
        rx_descriptors =
            set_at s.rx_descriptors ii (record (s.rx_descriptors ii) { buffer = given.0 });
        rx_buffers = set_at s.rx_buffers ii (record { phys_addr = given.0; size = 0 });
        memory = given.1;
        ram = set_at s.ram given.0 (replicate 4096 0);
      })

  -- The driver in front of the first access to the card. An array of packets has some packet at
  -- each index, which nothing reads before `fill_rx` has written it.
  abbrev pub unset : NicRegisters → (ℕ → ℕ) → M → (ℕ → List ℕ) → IntelGbit M
  unset regs mmio memory ram = record {
    regs = regs;
    mmio = mmio;
    rx_descriptors = λ j. empty_rx 0;
    rx_buffers = λ j. record { phys_addr = 0; size = 0 };
    rx_head = 0;
    tx_descriptors = λ j. empty_tx;
    tx_head = 0;
    packets = [];
    capacity = 128;
    mac = replicate 6 0;
    memory = memory;
    ram = ram;
    sent = [];
  }

-- `while (read(ctrl) & (1 << 26)) != 0 {}`: the values that the card gives, one a poll.
unfoldable pub wait_reset : List ℕ → Outcome (Unit {0})
wait_reset [] = out_of_fuel
wait_reset (ctrl ∷ polls) = elim (bit_and ctrl (2 ^ 26) == 0) [
  | true ↦ ok tt
  | false ↦ wait_reset polls
]

module _ {M : Type 0} where
  -- The queues that some cards need to have enabled.
  abbrev pub enable_queues : IntelGbit M → Outcome (IntelGbit M)
  enable_queues s =
      if s.regs.queue_enable
      then (read s s.regs.rxdctl >>= λ rxdctl.
          write s s.regs.rxdctl (bit_or (2 ^ 25) rxdctl) >>= λ a.
          read a s.regs.txdctl >>= λ txdctl. write a s.regs.txdctl (bit_or (2 ^ 25) txdctl))
      else ok s

  -- The receive ring: its address, size, head and tail.
  abbrev pub init_rx : ℕ → IntelGbit M → Outcome (IntelGbit M)
  init_rx ring s = write s s.regs.rdbah (ring / 2 ^ 32 % 2 ^ 32) >>= λ a.
      write a s.regs.rdbal (ring % 2 ^ 32) >>= λ b.
      write b s.regs.rdlen (num_rx_descs * 16) >>= λ c.
      write c s.regs.rdh 0 >>= λ d. write d s.regs.rdt (num_rx_descs - 1)

  abbrev pub init_tx : ℕ → IntelGbit M → Outcome (IntelGbit M)
  init_tx ring s = write s s.regs.tdbah (ring / 2 ^ 32 % 2 ^ 32) >>= λ a.
      write a s.regs.tdbal (ring % 2 ^ 32) >>= λ b.
      write b s.regs.tdlen (num_tx_descs * 16) >>= λ c.
      write c s.regs.tdh 0 >>= λ d. write d s.regs.tdt 0

  -- The MAC address, from the first entry of the receive filter.
  abbrev pub read_mac : IntelGbit M → Outcome (IntelGbit M)
  read_mac s = read s s.regs.ral0 >>= λ ral. read s s.regs.rah0 >>= λ rah.
      assert (not (bit_and rah (2 ^ 31) == 0))
      >> ok (record s { mac = to_le_32 ral ++ take 2 (to_le_32 rah) })

  -- The accesses to the card in `IntelGbit::new`.
  unfoldable pub init_card : List ℕ → ℕ → ℕ → IntelGbit M → Outcome (IntelGbit M)
  init_card polls rx_ring tx_ring s = read s s.regs.ctrl >>= λ ctrl.
      write s s.regs.ctrl (bit_or ctrl (2 ^ 26)) >>= λ a.
      wait_reset polls >> write a s.regs.imc (2 ^ 32 - 1) >>= λ b. enable_queues b >>= λ c.
      init_rx rx_ring c >>= λ d. init_tx tx_ring d >>= λ e. read_mac e >>= λ f.
      write f s.regs.rctl (bit_or (bit_or (2 ^ 26) (2 ^ 15)) (2 ^ 1)) >>= λ g.
      write g s.regs.tctl (2 ^ 1)

-- The assertion on the constants, for one ring.
abbrev pub are_ring_sizes : ℕ → Bool
are_ring_sizes descs = leb descs 256 && (descs % 8 == 0) && ltb 0 descs

-- `IntelGbit::new`. The kernel's memory is the state of `mem` and the next free virtual address, from
-- which packets are taken too. The registers behind the mapping hold `mmio`. A descriptor has 16 bytes
-- and is aligned to 8.
unfoldable pub new :
    {S : Type 0}
    → PhysMem S
    → PacketMemory (S × ℕ)
    → Option ℕ
    → PciDevice
    → NicRegisters
    → List ℕ
    → (ℕ → ℕ)
    → S
    → ℕ
    → (ℕ → List ℕ)
    → Outcome (IntelGbit (S × ℕ))
new mem packets page_table device regs polls mmio s next_free_vaddr ram = do
  (vaddr, s1, next1) ← map_mmio mem s page_table next_free_vaddr device
  assert (are_ring_sizes num_rx_descs && are_ring_sizes num_tx_descs)
  (rx, s2, next2) ← KernelMemory.new mem s1 page_table next1 (num_rx_descs * 16) 8
  let filled = fill_rx packets num_rx_descs 0 (unset packets regs mmio (s2, next2) ram)
  (tx, s3, next3) ←
      KernelMemory.new mem filled.memory.0 page_table filled.memory.1 (num_tx_descs * 16) 8
  init_card polls rx.paddr tx.paddr (record filled { memory = (s3, next3) })
