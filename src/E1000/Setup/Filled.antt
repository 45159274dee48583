-- ===== src/E1000/Setup/Filled.antt =====
-- kernel/src/e1000.rs: the receive ring that `IntelGbit::new` fills.
use chocolate_milk.Base.{
  ℕ, zero, suc, ◌+◌, ◌<◌, ◌≡◌, inl, inr, arith, refl, Bool-cases, ◌==◌, List, replicate, subst,
}
use chocolate_milk.E1000.{NicRegisters, IntelGbit, PacketMemory, set_at}
use chocolate_milk.E1000.Owned.{IsAllocator}
use chocolate_milk.E1000.Setup.{fill_rx, unset}

-- The allocator after `n` more packets.
abbrev pub taken : {M : Type 0} → PacketMemory M → ℕ → M → M
taken mem zero m = m
taken mem (suc n) m = taken mem n (mem.new_packet m).1

module _ {M : Type 0} (mem : PacketMemory M) (IsLive : M → ℕ → Type 0)
    (laws : IsAllocator mem IsLive) where
  -- The first `ii` slots have packets of their own, and the descriptors show them.
  pub record IsFilled (s : IntelGbit M) (ii : ℕ) : Type 0 where
    pub apart :
        (j k : ℕ)
        → j < ii
        → k < ii
        → (s.rx_buffers j).phys_addr ≡ (s.rx_buffers k).phys_addr
        → j ≡ k
    pub live : (j : ℕ) → j < ii → IsLive s.memory (s.rx_buffers j).phys_addr
    pub shown : (j : ℕ) → j < ii → (s.rx_descriptors j).buffer ≡ (s.rx_buffers j).phys_addr
    pub unused : (j : ℕ) → (s.rx_descriptors j).status ≡ 0

  -- One more slot.
  abbrev slot_filled : IntelGbit M → ℕ → IntelGbit M
  slot_filled s ii =
      let given = mem.new_packet s.memory in
      record s {
        rx_descriptors =
            set_at s.rx_descriptors ii (record (s.rx_descriptors ii) { buffer = given.0 });
        rx_buffers = set_at s.rx_buffers ii (record { phys_addr = given.0; size = 0 });
        memory = given.1;
        ram = set_at s.ram given.0 (replicate 4096 0);
      }

  slot_filled-IsFilled :
      (s : IntelGbit M) (ii : ℕ) → IsFilled s ii → IsFilled (slot_filled s ii) (suc ii)
  slot_filled-IsFilled s ii f =
      let fresh =
        λ (j : ℕ) (h : j < ii). laws.fresh s.memory (s.rx_buffers j).phys_addr (f.live j h) in
      record {
        apart = λ j k a b e. elim (Bool-cases (j == ii)) [
          | inl jj ↦ elim (Bool-cases (k == ii)) [
            | inl kk ↦ ground arith
            | inr kk ↦ let h : k < ii = ground arith in ground (arith, fresh k h)
          ]
          | inr jj ↦
              let h : j < ii = ground arith in
              elim (Bool-cases (k == ii)) [
                | inl kk ↦ ground (arith, fresh j h)
                | inr kk ↦ let g : k < ii = ground arith in ground (arith, f.apart j k h g)
              ]
        ];
        live = λ j a. elim (Bool-cases (j == ii)) [
          | inl here ↦ rw here (laws.live s.memory)
          | inr there ↦
              let h : j < ii = ground arith in
              rw there (laws.kept s.memory (s.rx_buffers j).phys_addr (f.live j h))
        ];
        shown = λ j a. elim (Bool-cases (j == ii)) [
          | inl here ↦ rw here refl
          | inr there ↦ let h : j < ii = ground arith in rw there (f.shown j h)
        ];
        unused = λ j. elim (Bool-cases (j == ii)) [
          | inl here ↦ rw here (f.unused ii)
          | inr there ↦ rw there (f.unused j)
        ];
      }

  pub fill_rx-IsFilled :
      (left ii : ℕ) (s : IntelGbit M) → IsFilled s ii → IsFilled (fill_rx mem left ii s) (left + ii)
  unfolding fill_rx
  fill_rx-IsFilled zero ii s f = let e : ii ≡ 0 + ii = omega arith in subst (IsFilled s) e f
  fill_rx-IsFilled (suc left) ii s f =
      let e : left + suc ii ≡ suc left + ii = omega arith in
      subst (IsFilled (fill_rx mem (suc left) ii s)) e
        (fill_rx-IsFilled left (suc ii) (slot_filled s ii) (slot_filled-IsFilled s ii f))

  -- What the loop leaves alone.
  pub fill_rx-shape :
      (left ii : ℕ) (s : IntelGbit M)
      → fill_rx mem left ii s ≡ record s {
        rx_descriptors = (fill_rx mem left ii s).rx_descriptors;
        rx_buffers = (fill_rx mem left ii s).rx_buffers;
        memory = (fill_rx mem left ii s).memory;
        ram = (fill_rx mem left ii s).ram;
      }
  unfolding fill_rx
  fill_rx-shape zero ii s = refl
  fill_rx-shape (suc left) ii s = fill_rx-shape left (suc ii) (slot_filled s ii)

  -- The packets of the loop come out of the allocator one after the other.
  pub fill_rx-taken :
      (left ii : ℕ) (s : IntelGbit M) → (fill_rx mem left ii s).memory ≡ taken mem left s.memory
  unfolding fill_rx
  fill_rx-taken zero ii s = refl
  fill_rx-taken (suc left) ii s = fill_rx-taken left (suc ii) (slot_filled s ii)

  pub with_memory-IsFilled :
      (s : IntelGbit M) (m : M)
      → ((a : ℕ) → IsLive s.memory a → IsLive m a)
      → IsFilled s 8
      → IsFilled (record s { memory = m }) 8
  with_memory-IsFilled s m kept f = record {
    apart = f.apart;
    live = λ j h. kept (s.rx_buffers j).phys_addr (f.live j h);
    shown = f.shown;
    unused = f.unused;
  }

  pub unset-IsFilled :
      (regs : NicRegisters) (mmio : ℕ → ℕ) (memory : M) (ram : ℕ → List ℕ)
      → IsFilled (unset mem regs mmio memory ram) 0
  unset-IsFilled regs mmio memory ram = record {
    apart = λ j k a b e. absurd (omega arith);
    live = λ j a. absurd (omega arith);
    shown = λ j a. absurd (omega arith);
    unused = λ j. refl;
  }
