-- ===== src/E1000/Owned.antt =====
-- kernel/src/e1000.rs: every packet has one owner, which is a slot of the receive ring, the free
-- list of the driver, or somebody outside of the driver.
use chocolate_milk.Base.{
  ℕ, ◌<◌, ◌≡◌, arith, refl, sym, subst, ◌≢◌, inl, inr, ltb, ◌==◌, Bool-cases, List, [], ◌∷◌, length,
}
use chocolate_milk.E1000.{
  DmaPacket, IntelGbit, PacketMemory, set_at, set_at_other, unwrap_or, allocate_packet,
  release_packet,
}

-- What the driver relies on of the allocator: a new packet is not live before, and what is live
-- stays so until it is dropped.
pub record IsAllocator {M : Type 0} (mem : PacketMemory M) (IsLive : M → ℕ → Type 0) : Type 0 where
  pub fresh : (m : M) (a : ℕ) → IsLive m a → a ≢ (mem.new_packet m).0
  pub live : (m : M) → IsLive (mem.new_packet m).1 (mem.new_packet m).0
  pub kept : (m : M) (a : ℕ) → IsLive m a → IsLive (mem.new_packet m).1 a
  pub still_live : (m : M) (a b : ℕ) → IsLive m a → a ≢ b → IsLive (mem.drop_packet m b) a

-- The driver with another free list, allocator and memory.
abbrev pub pooled : {M : Type 0} → IntelGbit M → M → List DmaPacket → (ℕ → List ℕ) → IntelGbit M
pooled s m packets ram = record s { memory = m; packets = packets; ram = ram }

abbrev pub Apart : ℕ → List DmaPacket → Type 0
Apart a [] = Unit
Apart a (p ∷ packets) = (a ≢ p.phys_addr) × Apart a packets

abbrev pub AllApart : List DmaPacket → Type 0
AllApart [] = Unit
AllApart (p ∷ packets) = Apart p.phys_addr packets × AllApart packets

module _ {M : Type 0} (IsLive : M → ℕ → Type 0) where
  abbrev pub AllLive : M → List DmaPacket → Type 0
  AllLive m [] = Unit
  AllLive m (p ∷ packets) = IsLive m p.phys_addr × AllLive m packets

  pub record IsOwned (m : M) (slots : ℕ → DmaPacket) (packets : List DmaPacket) : Type 0 where
    pub slots_apart : (j k : ℕ) → j < 8 → k < 8 → (slots j).phys_addr ≡ (slots k).phys_addr → j ≡ k
    pub slots_live : (j : ℕ) → j < 8 → IsLive m (slots j).phys_addr
    pub list_apart : AllApart packets
    pub list_live : AllLive m packets
    pub across : (j : ℕ) → j < 8 → Apart (slots j).phys_addr packets

  -- A live packet that the driver does not have.
  pub record IsForeign (m : M) (slots : ℕ → DmaPacket) (packets : List DmaPacket) (a : ℕ)
      : Type 0 where
    pub is_live : IsLive m a
    pub no_slot : (j : ℕ) → j < 8 → a ≢ (slots j).phys_addr
    pub not_listed : Apart a packets

  AllLive-map :
      (m m' : M) (packets : List DmaPacket)
      → ((a : ℕ) → IsLive m a → IsLive m' a)
      → AllLive m packets
      → AllLive m' packets
  AllLive-map m m' [] f h = tt
  AllLive-map m m' (p ∷ packets) f h = (f p.phys_addr h.0, AllLive-map m m' packets f h.1)

  AllLive-without :
      (m m' : M) (b : ℕ) (packets : List DmaPacket)
      → ((a : ℕ) → IsLive m a → a ≢ b → IsLive m' a)
      → Apart b packets
      → AllLive m packets
      → AllLive m' packets
  AllLive-without m m' b [] f n h = tt
  AllLive-without m m' b (p ∷ packets) f n h =
      (f p.phys_addr h.0 (λ e. n.0 (sym e)), AllLive-without m m' b packets f n.1 h.1)

  -- The driver's packets and the others when the allocator has dropped one that it does not have.
  IsOwned-without :
      (m m' : M) (b : ℕ) (slots : ℕ → DmaPacket) (packets : List DmaPacket)
      → ((a : ℕ) → IsLive m a → a ≢ b → IsLive m' a)
      → ((j : ℕ) → j < 8 → b ≢ (slots j).phys_addr)
      → Apart b packets
      → IsOwned m slots packets
      → IsOwned m' slots packets
  IsOwned-without m m' b slots packets f out n o = record {
    slots_apart = o.slots_apart;
    slots_live = λ j h. f (slots j).phys_addr (o.slots_live j h) (λ e. out j h (sym e));
    list_apart = o.list_apart;
    list_live = AllLive-without m m' b packets f n o.list_live;
    across = o.across;
  }

  -- A packet from outside in place of the one of a slot, which is now outside.
  pub swap-IsOwned :
      (m : M) (slots : ℕ → DmaPacket) (packets : List DmaPacket) (h : ℕ) (p : DmaPacket)
      → IsOwned m slots packets
      → IsForeign m slots packets p.phys_addr
      → IsOwned m (set_at slots h p) packets
  swap-IsOwned m slots packets h p o f = record {
    slots_apart = λ j k a b e. ground (arith, o.slots_apart j k a b, f.no_slot k b, f.no_slot j a);
    slots_live = λ j a. elim (Bool-cases (j == h)) [
      | inl here ↦ rw here f.is_live
      | inr there ↦ rw there (o.slots_live j a)
    ];
    list_apart = o.list_apart;
    list_live = o.list_live;
    across = λ j a. elim (Bool-cases (j == h)) [
      | inl here ↦ rw here f.not_listed
      | inr there ↦ rw there (o.across j a)
    ];
  }

  pub swap-IsForeign :
      (m : M) (slots : ℕ → DmaPacket) (packets : List DmaPacket) (h : ℕ) (p : DmaPacket)
      → h < 8
      → IsOwned m slots packets
      → IsForeign m slots packets p.phys_addr
      → IsForeign m (set_at slots h p) packets (slots h).phys_addr
  swap-IsForeign m slots packets h p small o f = record {
    is_live = o.slots_live h small;
    no_slot = λ j a e. ground (arith, o.slots_apart h j small a, f.no_slot h small);
    not_listed = o.across h small;
  }

  pub swap-keeps :
      (m : M) (slots : ℕ → DmaPacket) (packets : List DmaPacket) (h : ℕ) (p : DmaPacket) (a : ℕ)
      → IsForeign m slots packets a
      → a ≢ p.phys_addr
      → IsForeign m (set_at slots h p) packets a
  swap-keeps m slots packets h p a f n = record {
    is_live = f.is_live;
    no_slot = λ j b e. ground (arith, f.no_slot j b);
    not_listed = f.not_listed;
  }

  module _ (mem : PacketMemory M) (laws : IsAllocator mem IsLive) where
    -- A packet that the allocator has just made is nobody's.
    new-Apart :
        (m : M) (packets : List DmaPacket) → AllLive m packets → Apart (mem.new_packet m).0 packets
    new-Apart m [] h = tt
    new-Apart m (p ∷ packets) h =
        (λ e. laws.fresh m p.phys_addr h.0 (sym e), new-Apart m packets h.1)

    new-IsOwned :
        (m : M) (slots : ℕ → DmaPacket) (packets : List DmaPacket)
        → IsOwned m slots packets
        → IsOwned (mem.new_packet m).1 slots packets
    new-IsOwned m slots packets o = record {
      slots_apart = o.slots_apart;
      slots_live = λ j h. laws.kept m (slots j).phys_addr (o.slots_live j h);
      list_apart = o.list_apart;
      list_live = AllLive-map m (mem.new_packet m).1 packets (laws.kept m) o.list_live;
      across = o.across;
    }

    new-IsForeign :
        (m : M) (slots : ℕ → DmaPacket) (packets : List DmaPacket)
        → IsOwned m slots packets
        → IsForeign (mem.new_packet m).1 slots packets (mem.new_packet m).0
    new-IsForeign m slots packets o = record {
      is_live = laws.live m;
      no_slot = λ j h e. laws.fresh m (slots j).phys_addr (o.slots_live j h) (sym e);
      not_listed = new-Apart m packets o.list_live;
    }

    -- The packet that the driver allocates is nobody's, the driver still has the others, and a
    -- packet from outside is another one.
    pub record IsAllocated (s : IntelGbit M) (r : DmaPacket × IntelGbit M) : Type 0 where
      pub owned : IsOwned r.1.memory s.rx_buffers r.1.packets
      pub foreign : IsForeign r.1.memory s.rx_buffers r.1.packets r.0.phys_addr
      pub others :
          (a : ℕ)
          → IsForeign s.memory s.rx_buffers s.packets a
          → IsForeign r.1.memory s.rx_buffers r.1.packets a × (a ≢ r.0.phys_addr)
      pub untouched : (a : ℕ) → IsLive s.memory a → r.1.ram a ≡ s.ram a
      pub shape : r ≡ (r.0, pooled s r.1.memory r.1.packets r.1.ram)

    -- With the new packet dropped again, everything is as before.
    unused :
        (m : M) (a : ℕ)
        → IsLive m a
        → IsLive (mem.drop_packet (mem.new_packet m).1 (mem.new_packet m).0) a
    unused m a h =
        laws.still_live (mem.new_packet m).1 a (mem.new_packet m).0 (laws.kept m a h)
          (laws.fresh m a h)

    unwrap_or-IsAllocated :
        (s : IntelGbit M) (packets : List DmaPacket)
        → s.packets ≡ packets
        → IsOwned s.memory s.rx_buffers packets
        → IsAllocated s (unwrap_or mem s packets (mem.new_packet s.memory))
    unwrap_or-IsAllocated s [] e o = record {
      owned = rw e (new-IsOwned s.memory s.rx_buffers [] o);
      foreign = rw e (new-IsForeign s.memory s.rx_buffers [] o);
      others = λ a f. (
        rw e (record {
          is_live = laws.kept s.memory a f.is_live;
          no_slot = f.no_slot;
          not_listed = tt;
        }),
        laws.fresh s.memory a f.is_live,
      );
      untouched = λ a live. set_at_other s.ram _ (laws.fresh s.memory a live);
      shape = rw e refl;
    }
    unwrap_or-IsAllocated s (p ∷ packets) e o = record {
      owned = record {
        slots_apart = o.slots_apart;
        slots_live = λ j h. unused s.memory (s.rx_buffers j).phys_addr (o.slots_live j h);
        list_apart = o.list_apart.1;
        list_live = AllLive-map s.memory _ packets (unused s.memory) o.list_live.1;
        across = λ j h. (o.across j h).1;
      };
      foreign = record {
        is_live = unused s.memory p.phys_addr o.list_live.0;
        no_slot = λ j h same. (o.across j h).0 (sym same);
        not_listed = o.list_apart.0;
      };
      others = λ a f.
          let n : Apart a (p ∷ packets) = subst (Apart a) e f.not_listed in
          (
            record { is_live = unused s.memory a f.is_live; no_slot = f.no_slot; not_listed = n.1 },
            n.0,
          );
      untouched = λ a live. set_at_other s.ram _ (laws.fresh s.memory a live);
      shape = refl;
    }

    pub allocate_packet-IsAllocated :
        (s : IntelGbit M)
        → IsOwned s.memory s.rx_buffers s.packets
        → IsAllocated s (allocate_packet mem s)
    unfolding allocate_packet
    allocate_packet-IsAllocated s o = unwrap_or-IsAllocated s s.packets refl o

    -- A packet from outside that the driver takes back.
    pub release_packet-IsOwned :
        (s : IntelGbit M) (p : DmaPacket)
        → IsOwned s.memory s.rx_buffers s.packets
        → IsForeign s.memory s.rx_buffers s.packets p.phys_addr
        → IsOwned (release_packet mem s p).memory s.rx_buffers (release_packet mem s p).packets
    unfolding release_packet
    release_packet-IsOwned s p o f = elim (Bool-cases (ltb (length s.packets) s.capacity)) [
      | inl room ↦ rw room record {
        slots_apart = o.slots_apart;
        slots_live = o.slots_live;
        list_apart = (f.not_listed, o.list_apart);
        list_live = (f.is_live, o.list_live);
        across = λ j h. (λ e. f.no_slot j h (sym e), o.across j h);
      }
      | inr full ↦ rw full (
          IsOwned-without s.memory (mem.drop_packet s.memory p.phys_addr) p.phys_addr s.rx_buffers
            s.packets (λ a h n. laws.still_live s.memory a p.phys_addr h n) f.no_slot f.not_listed
            o)
    ]

    pub release_packet-keeps :
        (s : IntelGbit M) (p : DmaPacket) (a : ℕ)
        → IsForeign s.memory s.rx_buffers s.packets a
        → a ≢ p.phys_addr
        → IsForeign (release_packet mem s p).memory s.rx_buffers (release_packet mem s p).packets a
    unfolding release_packet
    release_packet-keeps s p a f n = elim (Bool-cases (ltb (length s.packets) s.capacity)) [
      | inl room ↦
          rw room
            record { is_live = f.is_live; no_slot = f.no_slot; not_listed = (n, f.not_listed) }
      | inr full ↦ rw full record {
        is_live = laws.still_live s.memory a p.phys_addr f.is_live n;
        no_slot = f.no_slot;
        not_listed = f.not_listed;
      }
    ]

    pub release_packet-shape :
        (s : IntelGbit M) (p : DmaPacket)
        → release_packet mem s p
          ≡ pooled s (release_packet mem s p).memory (release_packet mem s p).packets s.ram
    unfolding release_packet
    release_packet-shape s p = elim (Bool-cases (ltb (length s.packets) s.capacity)) [
      | inl room ↦ rw room refl
      | inr full ↦ rw full refl
    ]
