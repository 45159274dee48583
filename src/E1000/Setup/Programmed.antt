-- ===== src/E1000/Setup/Programmed.antt =====
-- kernel/src/e1000.rs: the registers as `IntelGbit::new` leaves them.
use chocolate_milk.Base.{
  ℕ, ◌/◌, ◌%◌, ◌^◌, ◌≡◌, ◌≢◌, arith, refl, bit_and, bit_or, if◌then◌else◌, Bool, true, false, ◌==◌,
  List, ◌++◌, take,
}
use chocolate_milk.Base.Outcome.{ok}
use chocolate_milk.Base.Bytes.{to_le_32}
use chocolate_milk.Base.Returns.{Returns}
use chocolate_milk.E1000.{NicRegisters, IntelGbit, read, write}
use chocolate_milk.E1000.Setup.{registers, wait_reset, init_card}

-- The registers that the driver leaves, over those that it found, by what the card's manual says of them.
pub record IsProgrammed (rx_ring tx_ring : ℕ) (found : ℕ → ℕ) (regs : NicRegisters) (left : ℕ → ℕ)
    : Type 0 where
  -- A reset was asked for, and no interrupt is let through.
  pub reset : left (regs.ctrl / 4) ≡ bit_or (found (regs.ctrl / 4)) 0x4000000
  pub masked : left (regs.imc / 4) ≡ 0xffffffff
  -- The queues are on, where they can be off.
  pub rx_enabled : left (regs.rxdctl / 4) ≡ (
      if regs.queue_enable
      then bit_or 0x2000000 (found (regs.rxdctl / 4))
      else found (regs.rxdctl / 4))
  pub tx_enabled : left (regs.txdctl / 4) ≡ (
      if regs.queue_enable
      then bit_or 0x2000000 (found (regs.txdctl / 4))
      else found (regs.txdctl / 4))
  -- The two rings: 8 and 16 descriptors of 16 bytes.
  pub rx_low : left (regs.rdbal / 4) ≡ rx_ring % 2 ^ 32
  pub rx_high : left (regs.rdbah / 4) ≡ rx_ring / 2 ^ 32 % 2 ^ 32
  pub rx_size : left (regs.rdlen / 4) ≡ 128
  pub rx_head : left (regs.rdh / 4) ≡ 0
  pub rx_tail : left (regs.rdt / 4) ≡ 7
  pub tx_low : left (regs.tdbal / 4) ≡ tx_ring % 2 ^ 32
  pub tx_high : left (regs.tdbah / 4) ≡ tx_ring / 2 ^ 32 % 2 ^ 32
  pub tx_size : left (regs.tdlen / 4) ≡ 256
  pub tx_head : left (regs.tdh / 4) ≡ 0
  pub tx_tail : left (regs.tdt / 4) ≡ 0
  -- Received frames come without their checksum, broadcasts among them; both directions are on.
  pub receives : left (regs.rctl / 4) ≡ 0x4008002
  pub transmits : left (regs.tctl / 4) ≡ 2

module _ {M : Type 0} where
  -- What the accesses to the card leave: other registers and the MAC address.
  abbrev pub Initialised : ℕ → ℕ → IntelGbit M → IntelGbit M → Type 0
  Initialised rx_ring tx_ring s t =
      (t ≡ record s { mmio = t.mmio; mac = t.mac })
      × IsProgrammed rx_ring tx_ring s.mmio s.regs t.mmio
      × (t.mac
          ≡ to_le_32 (s.mmio (s.regs.ral0 / 4)) ++ take 2 (to_le_32 (s.mmio (s.regs.rah0 / 4))))

  pub init_card-Initialised :
      (queue_enable : Bool) (s : IntelGbit M) (polls : List ℕ) (rx_ring tx_ring : ℕ)
      → wait_reset polls ≡ ok tt
      → bit_and (s.mmio 5377) (2 ^ 31) ≢ 0
      → Returns ⊥
          (Initialised rx_ring tx_ring (record s { regs = registers queue_enable }))
          (init_card polls rx_ring tx_ring (record s { regs = registers queue_enable }))
  unfolding init_card read write Returns
  init_card-Initialised false s polls rx_ring tx_ring reset valid =
      let some_mac : (bit_and (s.mmio 5377) (2 ^ 31) == 0) ≡ false = ground arith in
      rw (reset, some_mac)
        (
          refl,
          record {
            reset = refl;
            masked = refl;
            rx_enabled = refl;
            tx_enabled = refl;
            rx_low = refl;
            rx_high = refl;
            rx_size = refl;
            rx_head = refl;
            rx_tail = refl;
            tx_low = refl;
            tx_high = refl;
            tx_size = refl;
            tx_head = refl;
            tx_tail = refl;
            receives = refl;
            transmits = refl;
          },
          refl,
        )
  init_card-Initialised true s polls rx_ring tx_ring reset valid =
      let some_mac : (bit_and (s.mmio 5377) (2 ^ 31) == 0) ≡ false = ground arith in
      rw (reset, some_mac)
        (
          refl,
          record {
            reset = refl;
            masked = refl;
            rx_enabled = refl;
            tx_enabled = refl;
            rx_low = refl;
            rx_high = refl;
            rx_size = refl;
            rx_head = refl;
            rx_tail = refl;
            tx_low = refl;
            tx_high = refl;
            tx_size = refl;
            tx_head = refl;
            tx_tail = refl;
            receives = refl;
            transmits = refl;
          },
          refl,
        )
