-- ===== src/E1000/Nic.antt =====
-- kernel/src/e1000.rs: what the card does with the rings, and the frames that wait in them.
use chocolate_milk.Base.{
  ℕ, ◌+◌, ◌*◌, ◌/◌, ◌%◌, ◌≤◌, ◌<◌, ◌≡◌, ◌≢◌, bit_and, ◌==◌, if◌then◌else◌, some, List, ◌∷◌, ◌++◌,
  length, take, drop, get_elem?,
}
use chocolate_milk.E1000.{NicRegisters, IntelGbit, num_rx_descs, num_tx_descs, set_at}

-- The card by its manual: a frame from the wire goes into the descriptor at the receive head, unless
-- the head has reached the tail; a descriptor between the transmit head and tail goes out.
pub data Event : Type 0 where
  quiet : Event
  arrival : List ℕ → Event
  transmission : Event

abbrev pub stored : {M : Type 0} → IntelGbit M → ℕ → List ℕ → IntelGbit M
stored s slot frame =
    let desc = s.rx_descriptors slot in
    record s {
      rx_descriptors =
          set_at s.rx_descriptors slot (record desc { len = length frame; status = 3 });
      ram = set_at s.ram desc.buffer (frame ++ drop (length frame) (s.ram desc.buffer));
      mmio = set_at s.mmio (s.regs.rdh / 4) ((slot + 1) % num_rx_descs);
    }

-- A descriptor is marked as done if it asks for that (bit 3), and a frame goes out with the descriptor
-- that ends it (bit 0) and has the checksum inserted (bit 1).
abbrev pub gone_out : {M : Type 0} → IntelGbit M → ℕ → IntelGbit M
gone_out s slot =
    let desc = s.tx_descriptors slot in
    record s {
      tx_descriptors =
          set_at s.tx_descriptors slot
            (record desc { status = if bit_and desc.cmd 8 == 0 then desc.status else 1 });
      mmio = set_at s.mmio (s.regs.tdh / 4) ((slot + 1) % num_tx_descs);
      sent = if bit_and desc.cmd 3 == 3 then take desc.len (s.ram desc.buffer) ∷ s.sent else s.sent;
    }

unfoldable pub card : {M : Type 0} → Event → IntelGbit M → IntelGbit M
card quiet s = s
card (arrival frame) s =
    let head = s.mmio (s.regs.rdh / 4) in
    if head == s.mmio (s.regs.rdt / 4) then s else stored s head frame
card transmission s =
    let head = s.mmio (s.regs.tdh / 4) in
    if head == s.mmio (s.regs.tdt / 4) then s else gone_out s head

-- The registers of the rings stand apart, within the 128 KiB of the card.
pub record AreApart (regs : NicRegisters) : Type 0 where
  pub rdt_fits : regs.rdt / 4 < 32 * 1024
  pub tdt_fits : regs.tdt / 4 < 32 * 1024
  pub rdh_rdt : regs.rdh / 4 ≢ regs.rdt / 4
  pub rdh_tdh : regs.rdh / 4 ≢ regs.tdh / 4
  pub rdh_tdt : regs.rdh / 4 ≢ regs.tdt / 4
  pub rdt_tdh : regs.rdt / 4 ≢ regs.tdh / 4
  pub rdt_tdt : regs.rdt / 4 ≢ regs.tdt / 4
  pub tdh_tdt : regs.tdh / 4 ≢ regs.tdt / 4

-- The slot that comes `i` descriptors behind the head.
abbrev pub nth : ℕ → ℕ → ℕ
nth head i = (head + i) % 8

pub record Holds {M : Type 0} (s : IntelGbit M) (slot : ℕ) (frame : List ℕ) : Type 0 where
  pub present : bit_and (s.rx_descriptors slot).status 1 ≡ 1
  pub sized : (s.rx_descriptors slot).len ≡ length frame
  pub fits : length frame ≤ 1514
  pub bytes : (rest : List ℕ) × (s.ram (s.rx_descriptors slot).buffer ≡ frame ++ rest)

-- The receive ring holds `frames`, the oldest first; the card may fill all slots but one.
pub record IsRing {M : Type 0} (s : IntelGbit M) (frames : List (List ℕ)) : Type 0 where
  pub head_fits : s.rx_head < 8
  pub few : length frames ≤ 7
  pub rdh_is : s.mmio (s.regs.rdh / 4) ≡ nth s.rx_head (length frames)
  pub rdt_is : s.mmio (s.regs.rdt / 4) ≡ nth s.rx_head 7
  pub buffers : (j : ℕ) → j < 8 → (s.rx_descriptors j).buffer ≡ (s.rx_buffers j).phys_addr
  pub filled :
      (i : ℕ) (frame : List ℕ) → get_elem? frames i ≡ some frame → Holds s (nth s.rx_head i) frame
  pub idle :
      (i : ℕ)
      → length frames ≤ i
      → i < 8
      → bit_and (s.rx_descriptors (nth s.rx_head i)).status 1 ≡ 0

-- No frame is on its way out: the transmit head and tail stand at the driver's next slot.
pub record IsIdle {M : Type 0} (s : IntelGbit M) : Type 0 where
  pub head_fits : s.tx_head < 16
  pub tdh_is : s.mmio (s.regs.tdh / 4) ≡ s.tx_head
  pub tdt_is : s.mmio (s.regs.tdt / 4) ≡ s.tx_head
