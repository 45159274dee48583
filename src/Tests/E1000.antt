-- ===== src/Tests/E1000.antt =====
-- kernel/src/e1000.rs, with an allocator that gives each page once.
use chocolate_milk.Base.{
  ℕ, zero, suc, ◌+◌, ◌^◌, ◌≤◌, ◌<◌, ◌≡◌, ◌⊎◌, arith, refl, sym, subst, List, [], ◌∷◌, true, false,
  some, Option, ltb, leb, ◌&&◌, ◌*◌, ◌==◌, if◌then◌else◌, ==→≡, Bool-cases, inl, inr, bit_and,
  bit_or, Bool, get_elem?, take,
}
use chocolate_milk.Base.Outcome.{Outcome, ok, panic, assert, ◌>>◌}
use chocolate_milk.Pci.{PciDevice}
use chocolate_milk.PageTable.{
  PageType, PhysMem, alloc_phys_zeroed, translate, walk, canonicalize_address,
}
use chocolate_milk.PageTable.Unmap.{with_in_use}
use chocolate_milk.PageTable.Map.{map_raw, install, create_tables, create_table, add_reference}
use chocolate_milk.KernelMemory
use chocolate_milk.KernelMemory.{PhysContig, map_contig, alloc_virt_addr_4k}
use chocolate_milk.E1000.Setup.{map_registers}
use chocolate_milk.E1000.{
  LegacyRxDesc, DmaPacket, IntelGbit, PacketMemory, recv, replace, allocate_packet, write, send,
  contents, empty_rx,
}
use chocolate_milk.E1000.Nic.{Event, quiet, arrival, transmission, card, Holds, nth}
use chocolate_milk.E1000.Owned.{IsAllocator, IsForeign}
use chocolate_milk.E1000.Receive.{IsReady, Oldest, recv-Oldest}
use chocolate_milk.E1000.Send.{heard_all}
use chocolate_milk.E1000.Send.Waits.{Sent, send-Sent}
use chocolate_milk.E1000.Setup.{registers, probe, unset, wait_reset, new}
use chocolate_milk.E1000.Setup.Bar.{HasBar}
use chocolate_milk.E1000.Setup.Filled.{taken}
use chocolate_milk.Base.Returns.{bind-ok, assert-ok}
use chocolate_milk.E1000.Setup.Mapped.{AreMapped}
use chocolate_milk.E1000.Setup.Starts.{HasRoom, Started, new-IsReady, registers-AreApart}

-- The state is the next page; what is below has been given.
abbrev counter : PacketMemory ℕ
counter = record { new_packet = λ m. (m, m + 1); drop_packet = λ m a. m }

abbrev IsGiven : ℕ → ℕ → Type 0
IsGiven m a = a < m

counter-IsAllocator : IsAllocator counter IsGiven
counter-IsAllocator = record {
  fresh = λ m a h e. absurd (omega arith);
  live = λ m. omega arith;
  kept = λ m a h. omega arith;
  still_live = λ m a b h n. h;
}

abbrev i210 : PciDevice
i210 = record {
  header = record {
    vendor_id = 0x8086;
    device_id = 0x1533;
    command = 0;
    status = 0;
    revision = 0;
    prog_if = 0;
    subclass = 0;
    class = 2;
    cache_line_size = 0;
    latency_timer = 0;
    header_type = 0;
    bist = 0;
  };
  bar0 = 0xf0000000;
  bar1 = 0;
  bar2 = 0;
  bar3 = 0;
  bar4 = 0;
  bar5 = 0;
}

-- Every register holds a word with its top bit set.
abbrev some_mmio : ℕ → ℕ
some_mmio reg = 2 ^ 31 + 0x1234

i210-probe : probe i210 ≡ some (registers true)
unfolding probe
i210-probe = refl

reset_ends : wait_reset (2 ^ 26 ∷ 0 ∷ []) ≡ ok tt
unfolding wait_reset
reset_ends = refl

-- The kernel's memory: words, and the number of the next page.
record Ram : Type 0 where
  words : ℕ → ℕ
  next : ℕ

abbrev write_word : Ram → ℕ → ℕ → Ram
write_word s a v = record s { words = λ b. if a == b then v else s.words b }

abbrev clear : Ram → ℕ → ℕ → Ram
clear s a n = record s { words = λ b. if leb a b && ltb b (a + n) then 0 else s.words b }

abbrev ram : PhysMem Ram
ram = record {
  read = λ s a. s.words a;
  write = write_word;
  write_byte = write_word;
  zero_bytes = clear;
  alloc_phys = λ s n k. some (s.next * 4096, record s { next = s.next + 1 });
  free_phys = λ s a n. s;
  read_cr3 = λ s. 0;
  write_cr3 = λ s v. s;
}

abbrev pages : PacketMemory (Ram × ℕ)
pages = record {
  new_packet = λ m. (m.0.next * 4096, (record m.0 { next = m.0.next + 1 }, m.1));
  drop_packet = λ m a. m;
}

abbrev IsTaken : Ram × ℕ → ℕ → Type 0
IsTaken m a = a < m.0.next * 4096

pages-IsAllocator : IsAllocator pages IsTaken
pages-IsAllocator = record {
  fresh = λ m a h e. absurd (omega (arith, h, e));
  live = λ m. omega arith;
  kept = λ m a h. omega (arith, h);
  still_live = λ m a b h n. h;
}

-- An empty table at 0x1000.
abbrev fresh_ram : Ram
fresh_ram = record { words = λ a. 0; next = 16 }

abbrev in_case {ℓ} : {A : Type ℓ} → A → Outcome A → A
in_case a (ok b) = b
in_case a _ = a

abbrev base : ℕ
base = 0xffff_8000_0000_0000

abbrev mapped_ram : Ram
mapped_ram = in_case fresh_ram (map_registers ram 32 fresh_ram 0x1000 0xf0000000 base 0)

mapped_next : mapped_ram.next ≡ 19
unfolding map_registers map_raw install create_tables create_table add_reference alloc_phys_zeroed
    translate walk canonicalize_address with_in_use
mapped_next = refl

abbrev rx_made : PhysContig × Ram × ℕ
rx_made =
    in_case (record { vaddr = 0; paddr = 0 }, fresh_ram, 0)
      (KernelMemory.new ram mapped_ram (some 0x1000) (base + 0x28000) 128 8)

abbrev tx_made : PhysContig × Ram × ℕ
tx_made =
    let m = taken pages 8 (rx_made.1, rx_made.2) in
    in_case (record { vaddr = 0; paddr = 0 }, fresh_ram, 0)
      (KernelMemory.new ram m.0 (some 0x1000) m.1 256 8)

made_next : (rx_made.0.paddr ≡ 19 * 4096) × (tx_made.0.paddr ≡ 28 * 4096) × (tx_made.1.next ≡ 29)
unfolding KernelMemory.new map_contig alloc_virt_addr_4k map_registers map_raw install create_tables
    create_table add_reference alloc_phys_zeroed translate walk canonicalize_address with_in_use
made_next = (refl, refl, refl)

taken_next : (taken pages 8 (rx_made.1, rx_made.2)).0.next ≡ 28
unfolding KernelMemory.new map_contig alloc_virt_addr_4k map_registers map_raw install create_tables
    create_table add_reference alloc_phys_zeroed translate walk canonicalize_address with_in_use
taken_next = refl

-- The loop that returns has entered every page.
AreMapped-map_registers :
    (left offset : ℕ) (s t : Ram)
    → map_registers ram left s 0x1000 0xf0000000 base offset ≡ ok t
    → AreMapped ram 0x1000 0xf0000000 base left offset s t
unfolding map_registers
AreMapped-map_registers zero offset s t e = cc
AreMapped-map_registers (suc left) offset s t e =
    let raw = bit_or (bit_or (bit_or (bit_or (0xf0000000 + offset) (2 ^ 63)) 2) 16) 1 in
    let (given, once, after) =
      bind-ok (map_raw ram s 0x1000 (base + offset) PageType.page_4k raw)
        (λ p. assert p.0 >> map_registers ram left p.1 0x1000 0xf0000000 base (offset + 4096)) t
        e in
    let (_, all_right, rest) =
      bind-ok (assert given.0)
        (λ _. map_registers ram left given.1 0x1000 0xf0000000 base (offset + 4096)) t after in
    let mapped : given.0 ≡ true = assert-ok given.0 all_right in
    (
      given.1,
      subst
          (λ (m : Bool).
            map_raw ram s 0x1000 (base + offset) PageType.page_4k raw ≡ ok (m, given.1))
          mapped once,
      AreMapped-map_registers left (offset + 4096) given.1 t rest,
    )

low_room : HasRoom ram pages IsTaken 0x1000 fresh_ram base 0xf0000000
unfolding KernelMemory.new map_contig alloc_virt_addr_4k map_registers map_raw install create_tables
    create_table add_reference alloc_phys_zeroed translate walk canonicalize_address with_in_use
low_room = record {
  vaddr = base;
  after_vaddr = base + 0x28000;
  after_map = mapped_ram;
  rx = rx_made.0;
  after_rx = (rx_made.1, rx_made.2);
  tx = tx_made.0;
  after_tx = (tx_made.1, tx_made.2);
  below = omega arith;
  reserved = refl;
  mapped = AreMapped-map_registers 32 0 fresh_ram mapped_ram refl;
  rx_allocated = refl;
  tx_allocated = refl;
  kept = λ a h. omega (arith, h, taken_next, made_next.2);
}

i210-HasRoom : (bar : ℕ) → HasBar i210 bar → HasRoom ram pages IsTaken 0x1000 fresh_ram base bar
i210-HasRoom bar (even, whole, inl (bits32, is)) =
    subst (HasRoom ram pages IsTaken 0x1000 fresh_ram base) (sym is) low_room
i210-HasRoom bar (even, whole, inr (bits64, is)) = absurd (omega (arith, bits64))

new-IsReady_example :
    ((bar : ℕ) × (has : HasBar i210 bar) × Started ram pages IsTaken 0x1000 fresh_ram base i210
        (2 ^ 26 ∷ 0 ∷ [])
        some_mmio
        (λ a. [])
        (registers true)
        (i210-HasRoom bar has).rx.paddr
        (i210-HasRoom bar has).tx.paddr)
    ⊎ (((bar : ℕ) → ¬ HasBar i210 bar)
        × (new ram pages
              (some 0x1000)
              i210
              (registers true)
              (2 ^ 26 ∷ 0 ∷ [])
              some_mmio
              fresh_ram
              base
              (λ a. [])
            ≡ panic))
new-IsReady_example =
    new-IsReady ram pages IsTaken 0x1000 fresh_ram base i210 (2 ^ 26 ∷ 0 ∷ []) some_mmio (λ a. [])
      (registers true) pages-IsAllocator (omega arith) i210-probe reset_ends
      (λ e. absurd (omega (arith, e))) i210-HasRoom

-- A driver with one frame in its ring; the pages below 8 are in the slots, and others below 200 are
-- given to somebody else.
abbrev some_frame : List ℕ
some_frame = 1 ∷ 2 ∷ 3 ∷ []

abbrev ring_mmio : ℕ → ℕ
ring_mmio reg = if reg == 2564 then 1 else if reg == 2566 then 7 else 0

abbrev some_slots : ℕ → LegacyRxDesc
some_slots j = if j == 0 then record (empty_rx 0) { len = 3; status = 3 } else empty_rx j

abbrev one_frame : IntelGbit ℕ
one_frame = record (unset counter (registers false) ring_mmio 200 (λ a. some_frame)) {
  rx_descriptors = some_slots;
  rx_buffers = λ j. record { phys_addr = j; size = 0 };
}

one_frame-Holds :
    (i : ℕ) (frame : List ℕ)
    → get_elem? (some_frame ∷ []) i ≡ some frame
    → Holds one_frame (nth 0 i) frame
one_frame-Holds zero frame e =
    let same : some_frame ≡ frame = cc in
    subst (Holds one_frame 0) same
      (record { present = refl; sized = refl; fits = omega arith; bytes = ([], refl) })
one_frame-Holds (suc i) frame e = cc

one_frame-idle : (i : ℕ) → 1 ≤ i → i < 8 → bit_and (one_frame.rx_descriptors (nth 0 i)).status 1 ≡ 0
one_frame-idle i over small = let later : (nth 0 i == 0) ≡ false = ground arith in rw later refl

one_frame-IsReady : IsReady IsGiven one_frame (some_frame ∷ [])
one_frame-IsReady = record {
  regs_apart = registers-AreApart false;
  ring = record {
    head_fits = omega arith;
    few = omega arith;
    rdh_is = refl;
    rdt_is = refl;
    buffers = λ j h. elim (Bool-cases (j == 0)) [
      | inl here ↦ rw here (sym (==→≡ j 0 here))
      | inr there ↦ rw there refl
    ];
    filled = one_frame-Holds;
    idle = one_frame-idle;
  };
  idle = record { head_fits = omega arith; tdh_is = refl; tdt_is = refl };
  owned = record {
    slots_apart = λ j k a b e. e;
    slots_live = λ j h. omega arith;
    list_apart = tt;
    list_live = tt;
    across = λ j h. tt;
  };
}

recv-Oldest_example : Oldest counter IsGiven one_frame (some_frame ∷ [])
recv-Oldest_example =
    recv-Oldest counter IsGiven counter-IsAllocator one_frame (some_frame ∷ []) one_frame-IsReady

abbrev outgoing : DmaPacket
outgoing = record { phys_addr = 100; size = 2 }

outgoing-IsForeign : IsForeign IsGiven 200 one_frame.rx_buffers [] 100
outgoing-IsForeign = record {
  is_live = omega arith;
  no_slot = λ j h e. absurd (omega arith);
  not_listed = tt;
}

-- Another frame arrives before the card transmits.
abbrev busy : List Event
busy = quiet ∷ arrival (7 ∷ []) ∷ transmission ∷ []

send-Sent_example :
    (t : IntelGbit ℕ) × (n : ℕ) × (send card counter busy one_frame outgoing ≡ ok t)
    × Sent counter IsGiven counter-IsAllocator one_frame outgoing
        (heard_all (some_frame ∷ []) (take n busy))
        t
send-Sent_example =
    send-Sent counter IsGiven counter-IsAllocator one_frame outgoing (some_frame ∷ []) busy
      one_frame-IsReady outgoing-IsForeign (omega arith) (tt, (omega arith, (tt, tt))) tt

-- The frame is taken, and a new page stands in its slot.
abbrev received_of : Outcome (Option DmaPacket × IntelGbit ℕ) → List ℕ
received_of (ok (some p, t)) =
    p.phys_addr ∷ (t.rx_buffers 0).phys_addr ∷ t.rx_head ∷ contents t.ram p
received_of _ = []

received : received_of (recv counter one_frame) ≡ 0 ∷ 200 ∷ 1 ∷ 1 ∷ 2 ∷ 3 ∷ []
unfolding recv replace allocate_packet write
received = refl
