-- ===== src/E1000/Setup/Starts.antt =====
-- kernel/src/e1000.rs: the driver that `IntelGbit::new` gives.
use chocolate_milk.Base.{
  ℕ, ◌+◌, ◌/◌, ◌%◌, ◌^◌, ◌<◌, ◌≡◌, ◌≢◌, ◌⊎◌, ◌-◌, ◌*◌, inl, inr, arith, refl, sym, ap, ◌∙◌, bit_and,
  Bool, Bool-cases, true, false, ◌&&◌, leb, ◌==◌, some, List, [], ◌∷◌, ◌++◌, take, subst,
}
use chocolate_milk.Base.Outcome.{ok, panic}
use chocolate_milk.Base.Bytes.{to_le_32}
use chocolate_milk.Base.Returns.{Returns-result}
use chocolate_milk.Pci.{PciDevice}
use chocolate_milk.PageTable.{PhysMem}
use chocolate_milk.KernelMemory
use chocolate_milk.KernelMemory.{PhysContig, alloc_virt_addr_4k}
use chocolate_milk.E1000.Setup.Bar.{HasBar, bar_address_cases}
use chocolate_milk.E1000.Setup.Filled.{
  taken, IsFilled, fill_rx-IsFilled, fill_rx-shape, fill_rx-taken, with_memory-IsFilled,
  unset-IsFilled,
}
use chocolate_milk.E1000.Setup.Mapped.{AreMapped, map_registers-AreMapped}
use chocolate_milk.E1000.Setup.Programmed.{IsProgrammed, Initialised, init_card-Initialised}
use chocolate_milk.E1000.{NicRegisters, IntelGbit, PacketMemory}
use chocolate_milk.E1000.Nic.{AreApart}
use chocolate_milk.E1000.Owned.{IsAllocator}
use chocolate_milk.E1000.Receive.{IsReady}
use chocolate_milk.E1000.Setup.{
  registers, probe, probe_among, handled_devices, bar_address, map_registers, map_mmio, fill_rx,
  unset, wait_reset, init_card, new,
}

pub registers-AreApart : (queue_enable : Bool) → AreApart (registers queue_enable)
registers-AreApart queue_enable = record {
  rdt_fits = omega arith;
  tdt_fits = omega arith;
  rdh_rdt = omega arith;
  rdh_tdh = omega arith;
  rdh_tdt = omega arith;
  rdt_tdh = omega arith;
  rdt_tdt = omega arith;
  tdh_tdt = omega arith;
}

module _ {M : Type 0} (mem : PacketMemory M) (IsLive : M → ℕ → Type 0)
    (laws : IsAllocator mem IsLive) where
  Initialised-IsReady :
      (queue_enable : Bool) (s t : IntelGbit M) (rx_ring tx_ring : ℕ)
      → IsFilled mem IsLive laws s 8
      → s.rx_head ≡ 0
      → s.tx_head ≡ 0
      → s.packets ≡ []
      → Initialised rx_ring tx_ring (record s { regs = registers queue_enable }) t
      → IsReady IsLive t []
  Initialised-IsReady queue_enable s t rx_ring tx_ring f rx tx none_free (same, p, mac) =
      let u = record s { regs = registers queue_enable; mmio = t.mmio; mac = t.mac } in
      let ready : IsReady IsLive u [] = record {
        regs_apart = registers-AreApart queue_enable;
        ring = record {
          head_fits = omega (arith, rx);
          few = omega arith;
          rdh_is = p.rx_head ∙ omega (arith, rx);
          rdt_is = p.rx_tail ∙ omega (arith, rx);
          buffers = f.shown;
          filled = λ i frame e. cc;
          idle = λ i over small. ap (λ (k : ℕ). bit_and k 1) (f.unused ((s.rx_head + i) % 8));
        };
        idle = record {
          head_fits = omega (arith, tx);
          tdh_is = p.tx_head ∙ sym tx;
          tdt_is = p.tx_tail ∙ sym tx;
        };
        owned = record {
          slots_apart = f.apart;
          slots_live = f.live;
          list_apart = rw none_free tt;
          list_live = rw none_free tt;
          across = λ j h. rw none_free tt;
        };
      } in
      subst (λ (x : IntelGbit M). IsReady IsLive x []) (sym same) ready

abbrev AreRegisters : List (ℕ × ℕ × NicRegisters) → Type 0
AreRegisters [] = Unit
AreRegisters ((vid, did, regs) ∷ devices) =
    ((queue_enable : Bool) × (regs ≡ registers queue_enable)) × AreRegisters devices

probe_among-registers :
    (devices : List (ℕ × ℕ × NicRegisters)) (device : PciDevice) (regs : NicRegisters)
    → AreRegisters devices
    → probe_among devices device ≡ some regs
    → (queue_enable : Bool) × (regs ≡ registers queue_enable)
probe_among-registers [] device regs all e = cc
probe_among-registers ((vid, did, known) ∷ devices) device regs all e =
    elim (Bool-cases ((device.header.vendor_id == vid) && (device.header.device_id == did))) [
      | inl here ↦
          let same : some known ≡ some regs = rw here at e in
          let equal : regs ≡ known = cc in (all.0.0, equal ∙ all.0.1)
      | inr there ↦ probe_among-registers devices device regs all.1 (rw there at e)
    ]

probe-registers :
    (device : PciDevice) (regs : NicRegisters)
    → probe device ≡ some regs
    → (queue_enable : Bool) × (regs ≡ registers queue_enable)
unfolding probe
probe-registers device regs e =
    probe_among-registers handled_devices device regs
      ((false, refl), ((false, refl), ((true, refl), tt))) e

module _ {S : Type 0} (mem : PhysMem S) (packets : PacketMemory (S × ℕ))
    (IsLive : S × ℕ → ℕ → Type 0) (root : ℕ) (s : S) (next_free_vaddr : ℕ) where
  -- The kernel has virtual addresses for the registers at `bar`, its page table takes their pages, and it
  -- can allocate the two rings, the second one behind the packets of the first, which it leaves alone.
  pub record HasRoom (bar : ℕ) : Type 0 where
    pub vaddr : ℕ
    pub after_vaddr : ℕ
    pub after_map : S
    pub rx : PhysContig
    pub after_rx : S × ℕ
    pub tx : PhysContig
    pub after_tx : S × ℕ
    pub below : bar + 128 * 1024 < 2 ^ 64
    pub reserved : alloc_virt_addr_4k next_free_vaddr (128 * 1024) ≡ ok (vaddr, after_vaddr)
    pub mapped : AreMapped mem root bar vaddr 32 0 s after_map
    pub rx_allocated :
        KernelMemory.new mem after_map (some root) after_vaddr 128 8
        ≡ ok (rx, after_rx.0, after_rx.1)
    pub tx_allocated :
        KernelMemory.new mem
          (taken packets 8 after_rx).0
          (some root)
          (taken packets 8 after_rx).1
          256
          8
        ≡ ok (tx, after_tx.0, after_tx.1)
    pub kept : (a : ℕ) → IsLive (taken packets 8 after_rx) a → IsLive after_tx a

  module _ (device : PciDevice) (polls : List ℕ) (mmio : ℕ → ℕ) (ram : ℕ → List ℕ) where
    -- A driver with the two rings at these addresses, ready on a card that is programmed for them.
    abbrev pub Started : NicRegisters → ℕ → ℕ → Type 0
    Started regs rx_ring tx_ring =
        (t : IntelGbit (S × ℕ)) × (new mem packets (some root) device regs polls mmio s
            next_free_vaddr ram
          ≡ ok t)
        × IsReady IsLive t []
        × IsProgrammed rx_ring tx_ring mmio regs t.mmio
        × (t.mac ≡ to_le_32 (mmio (regs.ral0 / 4)) ++ take 2 (to_le_32 (mmio (regs.rah0 / 4))))

    registers-Started :
        (queue_enable : Bool) (bar : ℕ) (room : HasRoom bar)
        → IsAllocator packets IsLive
        → bar_address device ≡ ok bar
        → wait_reset polls ≡ ok tt
        → bit_and (mmio 5377) (2 ^ 31) ≢ 0
        → Started (registers queue_enable) room.rx.paddr room.tx.paddr
    unfolding new map_mmio
    registers-Started queue_enable bar room laws found reset valid =
        let start = unset packets (registers queue_enable) mmio room.after_rx ram in
        let filled = fill_rx packets 8 0 start in
        let same : filled.memory ≡ taken packets 8 room.after_rx =
          fill_rx-taken packets IsLive laws 8 0 start in
        let f =
          with_memory-IsFilled packets IsLive laws filled room.after_tx
            (λ a h. room.kept a (subst (λ (m : S × ℕ). IsLive m a) same h))
            (fill_rx-IsFilled packets IsLive laws 8 0 start (
              unset-IsFilled packets IsLive laws (registers queue_enable) mmio room.after_rx
                ram)) in
        let u = record start {
          rx_descriptors = filled.rx_descriptors;
          rx_buffers = filled.rx_buffers;
          memory = room.after_tx;
          ram = filled.ram;
        } in
        let shape : record filled { memory = room.after_tx } ≡ u =
          ap (λ (x : IntelGbit (S × ℕ)). record x { memory = room.after_tx })
            (fill_rx-shape packets IsLive laws 8 0 start) in
        let (t, runs, done) =
          Returns-result (Initialised room.rx.paddr room.tx.paddr u)
            (init_card polls room.rx.paddr room.tx.paddr u)
            (init_card-Initialised queue_enable u polls room.rx.paddr room.tx.paddr reset valid) in
        let g = subst (λ x. IsFilled packets IsLive laws x 8) shape f in
        let fits : leb (bar + 128 * 1024) (2 ^ 64 - 1) ≡ true =
          let h = room.below in ground arith in
        let tx : KernelMemory.new mem filled.memory.0 (some root) filled.memory.1 256 8
            ≡ ok (room.tx, room.after_tx.0, room.after_tx.1) =
          rw same room.tx_allocated in
        let mapped : map_registers mem 32 s root bar room.vaddr 0 ≡ ok room.after_map =
          map_registers-AreMapped mem root bar room.vaddr 32 0 s room.after_map room.mapped in
        let whole = ap (init_card polls room.rx.paddr room.tx.paddr) shape ∙ runs in
        (
          t,
          rw (found, room.reserved, fits, mapped, room.rx_allocated, tx) whole,
          Initialised-IsReady packets IsLive laws queue_enable u t room.rx.paddr room.tx.paddr g
              refl refl refl done,
          done.1,
          done.2,
        )

    no_bar_panics :
        (regs : NicRegisters)
        → bar_address device ≡ panic
        → new mem packets (some root) device regs polls mmio s next_free_vaddr ram ≡ panic
    unfolding new map_mmio
    no_bar_panics regs e = rw e refl

    -- For a device that `probe` takes, with a word in BAR0, when the reset ends, the card has a MAC
    -- address and the kernel has room, where the page table takes the 32 pages of the registers as
    -- writable, present, not executable and not cached: if BAR0 is a memory BAR of 32 or 64 bits with an address on a 4 KiB
    -- boundary, `IntelGbit::new` gives a driver whose receive ring is empty and owns a packet for
    -- each slot, and whose transmit ring is at rest. The card's interrupts are masked and its reset was
    -- asked for; its queues are enabled if it needs that; it has the addresses, the sizes, the heads
    -- and the tails of the two rings, and both directions are on. The MAC address is made of the low six
    -- bytes of the two receive address registers. If BAR0 is anything else, `new` panics.
    pub new-IsReady :
        (regs : NicRegisters)
        → IsAllocator packets IsLive
        → device.bar0 < 2 ^ 32
        → probe device ≡ some regs
        → wait_reset polls ≡ ok tt
        → bit_and (mmio (regs.rah0 / 4)) (2 ^ 31) ≢ 0
        → (room : (bar : ℕ) → HasBar device bar → HasRoom bar)
        → ((bar : ℕ) × (has : HasBar device bar) × Started regs
              (room bar has).rx.paddr
              (room bar has).tx.paddr)
          ⊎ (((bar : ℕ) → ¬ HasBar device bar)
              × (new mem packets (some root) device regs polls mmio s next_free_vaddr ram ≡ panic))
    new-IsReady regs laws word handled reset valid room =
        let (queue_enable, e) = probe-registers device regs handled in
        elim (bar_address_cases device word) [
          | inr (none_there, no_bar) ↦ inr (no_bar, no_bar_panics regs none_there)
          | inl (bar, found, has) ↦ inl (
            bar,
            has,
            subst (λ (r : NicRegisters). Started r (room bar has).rx.paddr (room bar has).tx.paddr)
                (sym e)
                (registers-Started queue_enable bar (room bar has) laws found reset
                  (subst (λ (r : NicRegisters). bit_and (mmio (r.rah0 / 4)) (2 ^ 31) ≢ 0) e valid)),
          )
        ]
