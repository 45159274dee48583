-- ===== src/E1000.antt =====
-- kernel/src/e1000.rs: the driver of the Intel gigabit network card, with its rings of descriptors.
-- A packet is the physical address of its 4096 bytes and a length (kernel/src/net.rs).
pub mod Nic
pub mod Owned
pub mod Receive
pub mod Send
pub mod Setup
use package.chocolate_milk.Base.{
  ℕ, ◌+◌, ◌*◌, ◌/◌, ◌%◌, ◌^◌, ◌≡◌, ◌≢◌, arith, bit_and, Bool, not, ◌&&◌, ltb, leb, ◌==◌,
  if◌then◌else◌, Option, none, some, List, [], ◌∷◌, length, take, replicate,
}
use package.chocolate_milk.Base.Outcome.{Outcome, ok, out_of_fuel, assert, ◌>>=◌, ◌>>◌}

abbrev pub num_rx_descs : ℕ
num_rx_descs = 8

abbrev pub num_tx_descs : ℕ
num_tx_descs = 16

pub record NicRegisters : Type 0 where
  pub queue_enable : Bool
  pub ctrl : ℕ
  pub imc : ℕ
  pub rdbal : ℕ
  pub rdbah : ℕ
  pub rdlen : ℕ
  pub rdh : ℕ
  pub rdt : ℕ
  pub tdbal : ℕ
  pub tdbah : ℕ
  pub tdlen : ℕ
  pub tdh : ℕ
  pub tdt : ℕ
  pub ral0 : ℕ
  pub rah0 : ℕ
  pub rctl : ℕ
  pub tctl : ℕ
  pub rxdctl : ℕ
  pub txdctl : ℕ

pub record LegacyRxDesc : Type 0 where
  pub buffer : ℕ
  pub len : ℕ
  pub checksum : ℕ
  pub status : ℕ
  pub errors : ℕ
  pub special : ℕ

pub record LegacyTxDesc : Type 0 where
  pub buffer : ℕ
  pub len : ℕ
  pub cso : ℕ
  pub cmd : ℕ
  pub status : ℕ
  pub css : ℕ
  pub special : ℕ

-- `LegacyRxDesc::default()` and `LegacyTxDesc::default()`, with a buffer.
abbrev pub empty_rx : ℕ → LegacyRxDesc
empty_rx buffer = record {
  buffer = buffer;
  len = 0;
  checksum = 0;
  status = 0;
  errors = 0;
  special = 0;
}

abbrev pub empty_tx : LegacyTxDesc
empty_tx = record { buffer = 0; len = 0; cso = 0; cmd = 0; status = 0; css = 0; special = 0 }

-- A `Packet`, whose 4096 bytes stand at `phys_addr`.
pub record DmaPacket : Type 0 where
  pub phys_addr : ℕ
  pub size : ℕ

-- The driver. The last three fields are outside of it: the allocator behind `Packet::new`, the
-- bytes of each packet by its physical address, and the frames that went out, the last one first.
pub record IntelGbit (M : Type 0) : Type 0 where
  pub regs : NicRegisters
  pub mmio : ℕ → ℕ
  pub rx_descriptors : ℕ → LegacyRxDesc
  pub rx_buffers : ℕ → DmaPacket
  pub rx_head : ℕ
  pub tx_descriptors : ℕ → LegacyTxDesc
  pub tx_head : ℕ
  pub packets : List DmaPacket
  pub capacity : ℕ
  pub mac : List ℕ
  pub memory : M
  pub ram : ℕ → List ℕ
  pub sent : List (List ℕ)

-- `Packet::new` and the drop of a packet, on the allocator's state.
pub record PacketMemory (M : Type 0) : Type 0 where
  pub new_packet : M → ℕ × M
  pub drop_packet : M → ℕ → M

-- `xs[i] = x`
abbrev pub set_at {ℓ} : {A : Type ℓ} → (ℕ → A) → ℕ → A → ℕ → A
set_at xs i x j = if j == i then x else xs j

pub set_at_other {ℓ} : {A : Type ℓ} (xs : ℕ → A) {i j : ℕ} (x : A) → j ≢ i → set_at xs i x j ≡ xs j
set_at_other xs {i} {j} x n = ground (arith, n)

pub set_at_here {ℓ} : {A : Type ℓ} (xs : ℕ → A) (i : ℕ) (x : A) → set_at xs i x i ≡ x
set_at_here xs i x = ground arith

-- `Packet::raw`
abbrev pub contents : (ℕ → List ℕ) → DmaPacket → List ℕ
contents ram p = take p.size (ram p.phys_addr)

-- `IntelGbit::read` and `IntelGbit::write`: an offset in bytes, and an array of 32-bit registers.
unfoldable pub read : {M : Type 0} → IntelGbit M → ℕ → Outcome ℕ
read s reg_offset = assert (ltb (reg_offset / 4) (32 * 1024)) >> ok (s.mmio (reg_offset / 4))

unfoldable pub write : {M : Type 0} → IntelGbit M → ℕ → ℕ → Outcome (IntelGbit M)
write s reg_offset val =
    assert (ltb (reg_offset / 4) (32 * 1024))
    >> ok (record s { mmio = set_at s.mmio (reg_offset / 4) val })

module _ {M : Type 0} (mem : PacketMemory M) where
  -- The free list has its end first. `Packet::new` is called whether the free list is empty or not.
  abbrev pub unwrap_or : IntelGbit M → List DmaPacket → ℕ × M → DmaPacket × IntelGbit M
  unwrap_or s [] (page, memory) = (
    record { phys_addr = page; size = 0 },
    record s { memory = memory; ram = set_at s.ram page (replicate 4096 0) },
  )
  unwrap_or s (p ∷ packets) (page, memory) = (
    p,
    record s {
      packets = packets;
      memory = mem.drop_packet memory page;
      ram = set_at s.ram page (replicate 4096 0);
    },
  )

  unfoldable pub allocate_packet : IntelGbit M → DmaPacket × IntelGbit M
  allocate_packet s = unwrap_or s s.packets (mem.new_packet s.memory)

  unfoldable pub release_packet : IntelGbit M → DmaPacket → IntelGbit M
  release_packet s p =
      if ltb (length s.packets) s.capacity
      then record s { packets = p ∷ s.packets }
      else record s { memory = mem.drop_packet s.memory p.phys_addr }

  -- `recv` behind the allocation of the packet that replaces the received one.
  unfoldable pub replace : ℕ → DmaPacket × IntelGbit M → Outcome (Option DmaPacket × IntelGbit M)
  replace rxed (packet, s) =
      let received = s.rx_buffers s.rx_head in
      let swapped = record s {
        rx_buffers = set_at s.rx_buffers s.rx_head packet;
        rx_descriptors = set_at s.rx_descriptors s.rx_head (empty_rx packet.phys_addr);
      } in
      write swapped s.regs.rdt (s.rx_head % 2 ^ 32) >>= λ told.
      assert (leb rxed 1514 && leb rxed 4096)
      >> ok (
        some (record received { size = rxed }),
        record told { rx_head = (s.rx_head + 1) % num_rx_descs },
      )

  unfoldable pub recv : IntelGbit M → Outcome (Option DmaPacket × IntelGbit M)
  recv s =
      let desc = s.rx_descriptors s.rx_head in
      assert (ltb s.rx_head num_rx_descs)
      >> (if bit_and desc.status 1 == 0 then ok (none, s) else replace desc.len (allocate_packet s))

-- The test of the busy loop of `send`, and the loop. The list is what the card does between polls.
abbrev pub is_sent : {M : Type 0} → IntelGbit M → Bool
is_sent s = not (bit_and (s.tx_descriptors s.tx_head).status 1 == 0)

module _ {M Event : Type 0} (card : Event → IntelGbit M → IntelGbit M) where
  unfoldable pub wait_sent : List Event → IntelGbit M → Outcome (IntelGbit M)
  wait_sent [] s = if is_sent s then ok s else out_of_fuel
  wait_sent (e ∷ events) s =
      let rest = wait_sent events (card e s) in if is_sent s then ok s else rest

  unfoldable pub send :
      PacketMemory M → List Event → IntelGbit M → DmaPacket → Outcome (IntelGbit M)
  send mem events s p =
      let tail = (s.tx_head + 1) % num_tx_descs in
      let desc = record empty_tx { buffer = p.phys_addr; cmd = 8 + 2 + 1; len = p.size % 2 ^ 16 } in
      assert (ltb s.tx_head num_tx_descs)
      >> assert (leb p.size 4096)
      >> write (record s { tx_descriptors = set_at s.tx_descriptors s.tx_head desc }) s.regs.tdt
          (tail % 2 ^ 32)
      >>= λ told. wait_sent events told >>= λ done.
          ok (release_packet mem (record done { tx_head = tail }) p)
