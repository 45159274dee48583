-- ===== src/E1000/Receive.antt =====
-- kernel/src/e1000.rs, `recv`: the receive ring is a queue of frames.
use chocolate_milk.Base.{
  ℕ, suc, ◌*◌, ◌/◌, ◌%◌, ◌^◌, ◌≤◌, ◌<◌, ◌≡◌, ◌≢◌, arith, refl, sym, ap, ap₂, ◌∙◌, subst, bit_and,
  true, false, leb, ltb, ◌==◌, Bool-cases, inl, inr, none, some, List, [], ◌∷◌, ◌++◌, length, take,
  get_elem?-lt,
}
use chocolate_milk.Base.Outcome.{ok}
use chocolate_milk.E1000.{
  LegacyRxDesc, DmaPacket, IntelGbit, PacketMemory, set_at, set_at_other, set_at_here, contents,
  empty_rx, allocate_packet, write, replace, recv,
}
use chocolate_milk.E1000.Nic.{AreApart, nth, Holds, IsRing, IsIdle}
use chocolate_milk.E1000.Owned.{
  IsAllocator, IsOwned, IsForeign, pooled, allocate_packet-IsAllocated, swap-IsOwned,
  swap-IsForeign, swap-keeps,
}

take-append : (xs ys : List ℕ) → take (length xs) (xs ++ ys) ≡ xs
take-append [] ys = refl
take-append (x ∷ xs) ys = ap (λ t. x ∷ t) (take-append xs ys)

module _ {M : Type 0} where
  pub Holds-moved :
      (s t : IntelGbit M) (slot slot' : ℕ) (frame : List ℕ)
      → slot' ≡ slot
      → t.rx_descriptors slot ≡ s.rx_descriptors slot
      → t.ram (s.rx_descriptors slot).buffer ≡ s.ram (s.rx_descriptors slot).buffer
      → Holds s slot frame
      → Holds t slot' frame
  Holds-moved s t slot slot' frame e d r h = record {
    present = rw (e, d) h.present;
    sized = rw (e, d) h.sized;
    fits = h.fits;
    bytes = rw (e, d, r) h.bytes;
  }

  -- The driver behind `recv` of a frame, with `p` in the slot.
  abbrev taken : IntelGbit M → DmaPacket → IntelGbit M
  taken s p = record s {
    rx_buffers = set_at s.rx_buffers s.rx_head p;
    rx_descriptors = set_at s.rx_descriptors s.rx_head (empty_rx p.phys_addr);
    mmio = set_at s.mmio (s.regs.rdt / 4) (s.rx_head % 2 ^ 32);
    rx_head = nth s.rx_head 1;
  }

  taken-IsRing :
      (s : IntelGbit M) (p : DmaPacket) (m : M) (packets : List DmaPacket) (ram : ℕ → List ℕ)
      (frame : List ℕ) (frames : List (List ℕ))
      → AreApart s.regs
      → IsRing s (frame ∷ frames)
      → ((j : ℕ) → j < 8 → ram (s.rx_buffers j).phys_addr ≡ s.ram (s.rx_buffers j).phys_addr)
      → IsRing (taken (pooled s m packets ram) p) frames
  taken-IsRing s p m packets ram frame frames regs r same = record {
    head_fits = omega arith;
    few = omega (arith, r.few);
    rdh_is = set_at_other s.mmio _ regs.rdh_rdt ∙ omega (arith, r.rdh_is);
    rdt_is = set_at_here s.mmio (s.regs.rdt / 4) (s.rx_head % 2 ^ 32) ∙ omega (arith, r.head_fits);
    buffers = λ j h. ground (arith, r.buffers j h);
    filled = λ i f e.
        let lt = get_elem?-lt frames i f e in
        let there : nth s.rx_head (suc i) ≢ s.rx_head = omega (arith, lt, r.few, r.head_fits) in
        Holds-moved s (taken (pooled s m packets ram) p) (nth s.rx_head (suc i))
          (nth (nth s.rx_head 1) i) f (omega arith) (set_at_other s.rx_descriptors _ there)
          (rw (r.buffers (nth s.rx_head (suc i)) (omega arith))
            (same (nth s.rx_head (suc i)) (omega arith)))
          (r.filled (suc i) f e);
    idle = λ i over small. elim (Bool-cases (i == 7)) [
      | inl last ↦
          let at_head : nth (nth s.rx_head 1) i ≡ s.rx_head = ground (arith, r.head_fits) in
          ap (λ (d : LegacyRxDesc). bit_and d.status 1)
            (ap (set_at s.rx_descriptors s.rx_head (empty_rx p.phys_addr)) at_head
              ∙ set_at_here s.rx_descriptors s.rx_head (empty_rx p.phys_addr))
      | inr more ↦
          let next : nth (nth s.rx_head 1) i ≡ nth s.rx_head (suc i) = omega arith in
          let less : suc i < 8 = ground arith in
          let there : nth s.rx_head (suc i) ≢ s.rx_head = omega (arith, r.head_fits) in
          ap (λ (d : LegacyRxDesc). bit_and d.status 1)
            (ap (set_at s.rx_descriptors s.rx_head (empty_rx p.phys_addr)) next
              ∙ set_at_other s.rx_descriptors _ there)
          ∙ r.idle (suc i) (omega arith) less
    ];
  }

  -- The registers, the rings and the packets of a driver that waits with `frames` in its ring.
  pub record IsReady (IsLive : M → ℕ → Type 0) (s : IntelGbit M) (frames : List (List ℕ))
      : Type 0 where
    pub regs_apart : AreApart s.regs
    pub ring : IsRing s frames
    pub idle : IsIdle s
    pub owned : IsOwned IsLive s.memory s.rx_buffers s.packets

  module _ (mem : PacketMemory M) (IsLive : M → ℕ → Type 0) where
    -- What `recv` gives when `frames` wait in the ring.
    abbrev pub Oldest : IntelGbit M → List (List ℕ) → Type 0
    Oldest s [] = recv mem s ≡ ok (none, s)
    Oldest s (frame ∷ frames) =
        (p : DmaPacket) × (t : IntelGbit M) × (recv mem s ≡ ok (some p, t))
        × (contents t.ram p ≡ frame)
        × IsReady IsLive t frames
        × IsForeign IsLive t.memory t.rx_buffers t.packets p.phys_addr
        × ((a : ℕ)
            → IsForeign IsLive s.memory s.rx_buffers s.packets a
            → IsForeign IsLive t.memory t.rx_buffers t.packets a × (a ≢ p.phys_addr))

    replace_lem :
        (s : IntelGbit M) (rxed : ℕ) (p : DmaPacket)
        → s.regs.rdt / 4 < 32 * 1024
        → rxed ≤ 1514
        → replace mem rxed (p, s)
          ≡ ok (some (record (s.rx_buffers s.rx_head) { size = rxed }), taken s p)
    unfolding replace write
    replace_lem s rxed p fits small =
        let a : ltb (s.regs.rdt / 4) (32 * 1024) ≡ true = ground arith in
        let b : leb rxed 1514 ≡ true = ground arith in
        let c : leb rxed 4096 ≡ true = ground arith in rw (a, b, c) refl

    module _ (laws : IsAllocator mem IsLive) where
      -- A driver that waits with `frames` in its ring receives nothing, and is unchanged, when there
      -- are none; otherwise it receives a packet with the bytes of the oldest frame, waits with the
      -- others in its ring, and has given the packet away: neither a slot nor the free list has it,
      -- and it is none of the packets that others had.
      pub recv-Oldest :
          (s : IntelGbit M) (frames : List (List ℕ)) → IsReady IsLive s frames → Oldest s frames
      unfolding recv
      recv-Oldest s [] r =
          let small : ltb s.rx_head 8 ≡ true = ground (arith, r.ring.head_fits) in
          let at_head : nth s.rx_head 0 ≡ s.rx_head = omega (arith, r.ring.head_fits) in
          let empty =
            subst (λ j. bit_and (s.rx_descriptors j).status 1 ≡ 0) at_head
              (r.ring.idle 0 (omega arith) (omega arith)) in
          rw (small, empty) refl
      recv-Oldest s (frame ∷ frames) r =
          let small : ltb s.rx_head 8 ≡ true = ground (arith, r.ring.head_fits) in
          let at_head : nth s.rx_head 0 ≡ s.rx_head = omega (arith, r.ring.head_fits) in
          let h = subst (λ j. Holds s j frame) at_head (r.ring.filled 0 frame refl) in
          let present : (bit_and (s.rx_descriptors s.rx_head).status 1 == 0) ≡ false =
            rw h.present refl in
          let a = allocate_packet-IsAllocated IsLive mem laws s r.owned in
          let given = allocate_packet mem s in
          let p = given.0 in
          let pool = pooled s given.1.memory given.1.packets given.1.ram in
          let same = λ (j : ℕ) (b : j < 8).
            a.untouched (s.rx_buffers j).phys_addr (r.owned.slots_live j b) in
          let (rest, bytes) = h.bytes in
          let buffer = r.ring.buffers s.rx_head r.ring.head_fits in
          let held = ap s.ram (sym buffer) ∙ bytes in
          (
            record (s.rx_buffers s.rx_head) { size = (s.rx_descriptors s.rx_head).len },
            taken pool p,
            rw (small, present)
                (ap (replace mem (s.rx_descriptors s.rx_head).len) a.shape
                  ∙ replace_lem pool (s.rx_descriptors s.rx_head).len p r.regs_apart.rdt_fits
                      (omega (arith, h.sized, h.fits))),
            ap₂ take h.sized (same s.rx_head r.ring.head_fits ∙ held) ∙ take-append frame rest,
            record {
              regs_apart = r.regs_apart;
              ring =
                  taken-IsRing s p given.1.memory given.1.packets given.1.ram frame frames
                    r.regs_apart r.ring same;
              idle = record {
                head_fits = r.idle.head_fits;
                tdh_is = set_at_other s.mmio _ (λ e. r.regs_apart.rdt_tdh (sym e)) ∙ r.idle.tdh_is;
                tdt_is = set_at_other s.mmio _ (λ e. r.regs_apart.rdt_tdt (sym e)) ∙ r.idle.tdt_is;
              };
              owned =
                  swap-IsOwned IsLive given.1.memory s.rx_buffers given.1.packets s.rx_head p
                    a.owned a.foreign;
            },
            swap-IsForeign IsLive given.1.memory s.rx_buffers given.1.packets s.rx_head p
                r.ring.head_fits a.owned a.foreign,
            λ b f. (
              swap-keeps IsLive given.1.memory s.rx_buffers given.1.packets s.rx_head p b
                  (a.others b f).0 (a.others b f).1,
              f.no_slot s.rx_head r.ring.head_fits,
            ),
          )
