-- ===== src/E1000/Send/Waits.antt =====
-- kernel/src/e1000.rs, `send`: the busy loop ends with the frame sent.
use chocolate_milk.Base.{
  if◌then◌else◌, ℕ, suc, ◌+◌, ◌*◌, ◌%◌, ◌/◌, ◌^◌, ◌≤◌, ◌<◌, ◌≡◌, ◌≢◌, arith, refl, sym, ap, ap₂,
  ◌∙◌, subst, ◌⊎◌, inl, inr, bit_and, true, false, leb, ltb, ◌==◌, Bool-cases, List, [], ◌∷◌, ◌++◌,
  length, take,
}
use chocolate_milk.Base.Outcome.{ok}
use chocolate_milk.E1000.{
  LegacyTxDesc, DmaPacket, IntelGbit, PacketMemory, empty_tx, set_at, set_at_other, set_at_here,
  contents, is_sent, wait_sent, write, send, release_packet,
}
use chocolate_milk.E1000.Nic.{Event, quiet, arrival, transmission, card, stored, gone_out, nth}
use chocolate_milk.E1000.Owned.{
  IsAllocator, IsOwned, IsForeign, release_packet-IsOwned, release_packet-keeps,
  release_packet-shape, pooled,
}
use chocolate_milk.E1000.Receive.{IsReady}
use chocolate_milk.E1000.Send.{
  heard, heard_all, IsFrame, AreFrames, Transmits, stored-IsRing, IsRing-tx, InFlight, IsGone,
  IsSending,
}

module _ {M : Type 0} (IsLive : M → ℕ → Type 0) (s : IntelGbit M) (p : DmaPacket)
    (out : IsForeign IsLive s.memory s.rx_buffers s.packets p.phys_addr) where
  arrival-IsSending :
      (frames : List (List ℕ)) (t : IntelGbit M) (frame : List ℕ)
      → length frame ≤ 1514
      → IsSending IsLive s p frames t
      → IsSending IsLive s p (heard frames (arrival frame)) (card (arrival frame) t)
  unfolding card
  arrival-IsSending frames t frame fits h = elim (Bool-cases (ltb (length frames) 7)) [
    | inl room ↦
        let slot = nth t.rx_head (length frames) in
        let less : length frames < 7 = ground arith in
        let free : (t.mmio (t.regs.rdh / 4) == t.mmio (t.regs.rdt / 4)) ≡ false =
          ground (arith, h.ring.rdh_is, h.ring.rdt_is, h.ring.head_fits) in
        rw (room, free)
          (subst (λ k. IsSending IsLive s p (frames ++ (frame ∷ [])) (stored t k frame))
            (sym h.ring.rdh_is)
            (record {
              regs_apart = h.regs_apart;
              ring = stored-IsRing t frames frame h.regs_apart h.ring h.owned.slots_apart fits less;
              owned = h.owned;
              others = h.others;
              head_fits = h.head_fits;
              head_is = h.head_is;
              tdt_is = set_at_other t.mmio _ (λ e. h.regs_apart.rdh_tdt (sym e)) ∙ h.tdt_is;
              bytes =
                  ap (take p.size) (
                    set_at_other t.ram _ λ e.
                      (h.others p.phys_addr out).no_slot slot (omega arith)
                        (e ∙ h.ring.buffers slot (omega arith)))
                  ∙ h.bytes;
              stage = elim h.stage [
                | inl f ↦ inl record {
                  waiting = f.waiting;
                  buffer_is = f.buffer_is;
                  len_is = f.len_is;
                  cmd_is = f.cmd_is;
                  sent_is = f.sent_is;
                  tdh_is = set_at_other t.mmio _ (λ e. h.regs_apart.rdh_tdh (sym e)) ∙ f.tdh_is;
                }
                | inr g ↦ inr record {
                  finished = g.finished;
                  sent_is = g.sent_is;
                  tdh_is = set_at_other t.mmio _ (λ e. h.regs_apart.rdh_tdh (sym e)) ∙ g.tdh_is;
                }
              ];
            }))
    | inr full ↦
        let all : (t.mmio (t.regs.rdh / 4) == t.mmio (t.regs.rdt / 4)) ≡ true =
          ground (arith, h.ring.rdh_is, h.ring.rdt_is, h.ring.few) in
        rw (full, all) h
  ]

  gone_out_lem :
      (frames : List (List ℕ)) (t : IntelGbit M)
      → IsSending IsLive s p frames t
      → InFlight t p s.sent
      → IsSending IsLive s p frames (gone_out t t.tx_head)
        × IsGone (gone_out t t.tx_head) ((t.tx_head + 1) % 16) (contents s.ram p) s.sent
  gone_out_lem frames t h f =
      let desc = t.tx_descriptors t.tx_head in
      let went = ap₂ take f.len_is (ap t.ram f.buffer_is) ∙ h.bytes in
      let gone : IsGone (gone_out t t.tx_head) ((t.tx_head + 1) % 16) (contents s.ram p) s.sent =
        record {
          finished =
              ap (λ (d : LegacyTxDesc). bit_and d.status 1)
                (set_at_here t.tx_descriptors t.tx_head
                  (record desc { status = if bit_and desc.cmd 8 == 0 then desc.status else 1 }))
              ∙ rw f.cmd_is refl;
          tdh_is = set_at_here t.mmio (t.regs.tdh / 4) ((t.tx_head + 1) % 16);
          sent_is = rw f.cmd_is (ap₂ ◌∷◌ went f.sent_is);
        } in
      (
        record {
          regs_apart = h.regs_apart;
          ring =
              IsRing-tx t frames _ _ t.tx_head t.packets t.memory _
                (set_at_other t.mmio _ h.regs_apart.rdh_tdh)
                (set_at_other t.mmio _ h.regs_apart.rdt_tdh) h.ring;
          owned = h.owned;
          others = h.others;
          head_fits = h.head_fits;
          head_is = h.head_is;
          tdt_is = set_at_other t.mmio _ (λ e. h.regs_apart.tdh_tdt (sym e)) ∙ h.tdt_is;
          bytes = h.bytes;
          stage = inr gone;
        },
        gone,
      )

  transmission-IsSending :
      (frames : List (List ℕ)) (t : IntelGbit M)
      → IsSending IsLive s p frames t
      → IsSending IsLive s p frames (card transmission t)
        × IsGone
            (card transmission t)
            (((card transmission t).tx_head + 1) % 16)
            (contents s.ram p)
            s.sent
  unfolding card
  transmission-IsSending frames t h = elim h.stage [
    | inr g ↦
        let idle : (t.mmio (t.regs.tdh / 4) == t.mmio (t.regs.tdt / 4)) ≡ true =
          ground (arith, g.tdh_is, h.tdt_is) in
        rw idle (h, g)
    | inl f ↦
        let busy : (t.mmio (t.regs.tdh / 4) == t.mmio (t.regs.tdt / 4)) ≡ false =
          ground (arith, f.tdh_is, h.tdt_is, h.head_fits) in
        rw busy (
          subst
            (λ k.
              IsSending IsLive s p frames (gone_out t k)
              × IsGone (gone_out t k) ((t.tx_head + 1) % 16) (contents s.ram p) s.sent)
            (sym f.tdh_is) (gone_out_lem frames t h f))
  ]

  card-IsSending :
      (e : Event) (frames : List (List ℕ)) (t : IntelGbit M)
      → IsFrame e
      → IsSending IsLive s p frames t
      → IsSending IsLive s p (heard frames e) (card e t)
  unfolding card
  card-IsSending quiet frames t fits h = h
  card-IsSending (arrival frame) frames t fits h = arrival-IsSending frames t frame fits h
  card-IsSending transmission frames t fits h = (transmission-IsSending frames t h).0

  -- The frame has gone out, or the card transmits before the events end.
  abbrev Ends : List Event → IntelGbit M → Type 0
  Ends events t = IsGone t ((t.tx_head + 1) % 16) (contents s.ram p) s.sent ⊎ Transmits events

  card-Ends :
      (e : Event) (events : List Event) (frames : List (List ℕ)) (t : IntelGbit M)
      → IsSending IsLive s p frames t
      → Transmits (e ∷ events)
      → Ends events (card e t)
  card-Ends quiet events frames t h go = inr go
  card-Ends (arrival frame) events frames t h go = inr go
  card-Ends transmission events frames t h go = inl (transmission-IsSending frames t h).1

  -- What the loop gives: it ends with the frame sent, after some of the events.
  abbrev Waited : List Event → List (List ℕ) → IntelGbit M → Type 0
  Waited events frames t =
      (u : IntelGbit M) × (n : ℕ) × (wait_sent card events t ≡ ok u)
      × IsSending IsLive s p (heard_all frames (take n events)) u
      × IsGone u ((u.tx_head + 1) % 16) (contents s.ram p) s.sent

  pub wait_sent-Waited :
      (events : List Event) (frames : List (List ℕ)) (t : IntelGbit M)
      → AreFrames events
      → IsSending IsLive s p frames t
      → Ends events t
      → Waited events frames t
  unfolding wait_sent
  wait_sent-Waited [] frames t fits h (inl g) =
      let over : is_sent t ≡ true = rw g.finished refl in (t, 0, rw over refl, h, g)
  wait_sent-Waited [] frames t fits h (inr never) = elim never [ ]
  wait_sent-Waited (e ∷ events) frames t fits h ends = elim h.stage [
    | inr g ↦ let over : is_sent t ≡ true = rw g.finished refl in (t, 0, rw over refl, h, g)
    | inl f ↦
        let more : is_sent t ≡ false = rw f.waiting refl in
        let next : Ends events (card e t) = elim ends [
          | inl g ↦ absurd (omega (arith, g.finished, f.waiting))
          | inr go ↦ card-Ends e events frames t h go
        ] in
        let (u, n, runs, sending, gone) =
          wait_sent-Waited events (heard frames e) (card e t) fits.1
            (card-IsSending e frames t fits.0 h) next in
        (u, suc n, rw more runs, sending, gone)
  ]

  -- The driver behind the loop, when it has taken the packet back.
  finished-IsReady :
      (frames : List (List ℕ)) (u : IntelGbit M) (memory : M) (packets : List DmaPacket)
      → IsSending IsLive s p frames u
      → IsGone u ((u.tx_head + 1) % 16) (contents s.ram p) s.sent
      → IsOwned IsLive memory u.rx_buffers packets
      → IsReady IsLive
          (pooled (record u { tx_head = (s.tx_head + 1) % 16 }) memory packets u.ram)
          frames
  finished-IsReady frames u memory packets h g o =
      let tail : (u.tx_head + 1) % 16 ≡ (s.tx_head + 1) % 16 =
        ap (λ (k : ℕ). (k + 1) % 16) h.head_is in
      record {
        regs_apart = h.regs_apart;
        ring =
            IsRing-tx u frames u.mmio u.tx_descriptors ((s.tx_head + 1) % 16) packets memory u.sent
              refl refl h.ring;
        idle = record {
          head_fits = omega arith;
          tdh_is = g.tdh_is ∙ tail;
          tdt_is = h.tdt_is ∙ tail;
        };
        owned = o;
      }

  -- The driver in front of the loop: the descriptor and the tail are written.
  abbrev told : IntelGbit M
  told = record s {
    tx_descriptors =
        set_at s.tx_descriptors s.tx_head
          (record empty_tx { buffer = p.phys_addr; cmd = 11; len = p.size % 2 ^ 16 });
    mmio = set_at s.mmio (s.regs.tdt / 4) ((s.tx_head + 1) % 16 % 2 ^ 32);
  }

  told-IsSending :
      (frames : List (List ℕ))
      → IsReady IsLive s frames
      → p.size ≤ 4096
      → IsSending IsLive s p frames told
  told-IsSending frames r fits =
      let here =
        set_at_here s.tx_descriptors s.tx_head
          (record empty_tx { buffer = p.phys_addr; cmd = 11; len = p.size % 2 ^ 16 }) in
      record {
        regs_apart = r.regs_apart;
        ring =
            IsRing-tx s frames told.mmio told.tx_descriptors s.tx_head s.packets s.memory s.sent
              (set_at_other s.mmio _ r.regs_apart.rdh_tdt)
              (set_at_other s.mmio _ r.regs_apart.rdt_tdt) r.ring;
        owned = r.owned;
        others = λ a f. f;
        head_fits = r.idle.head_fits;
        head_is = refl;
        tdt_is = set_at_here s.mmio (s.regs.tdt / 4) ((s.tx_head + 1) % 16 % 2 ^ 32) ∙ omega arith;
        bytes = refl;
        stage = inl record {
          waiting = ap (λ (d : LegacyTxDesc). bit_and d.status 1) here;
          buffer_is = ap (λ (d : LegacyTxDesc). d.buffer) here;
          len_is = ap (λ (d : LegacyTxDesc). d.len) here ∙ omega arith;
          cmd_is = ap (λ (d : LegacyTxDesc). d.cmd) here;
          tdh_is = set_at_other s.mmio _ r.regs_apart.tdh_tdt ∙ r.idle.tdh_is;
          sent_is = refl;
        };
      }

module _ {M : Type 0} (mem : PacketMemory M) (IsLive : M → ℕ → Type 0)
    (laws : IsAllocator mem IsLive) where
  -- What `send` leaves when `frames` are in the ring then.
  abbrev pub Sent : IntelGbit M → DmaPacket → List (List ℕ) → IntelGbit M → Type 0
  Sent s p frames t =
      (t.sent ≡ contents s.ram p ∷ s.sent)
      × IsReady IsLive t frames
      × ((a : ℕ)
          → IsForeign IsLive s.memory s.rx_buffers s.packets a
          → a ≢ p.phys_addr
          → IsForeign IsLive t.memory t.rx_buffers t.packets a)

  finished-Sent :
      (s : IntelGbit M) (p : DmaPacket) (frames : List (List ℕ)) (u : IntelGbit M)
      → IsForeign IsLive s.memory s.rx_buffers s.packets p.phys_addr
      → IsSending IsLive s p frames u
      → IsGone u ((u.tx_head + 1) % 16) (contents s.ram p) s.sent
      → Sent s p frames (release_packet mem (record u { tx_head = (s.tx_head + 1) % 16 }) p)
  finished-Sent s p frames u out done gone =
      let moved = record u { tx_head = (s.tx_head + 1) % 16 } in
      let o =
        release_packet-IsOwned IsLive mem laws moved p done.owned (done.others p.phys_addr out) in
      let t = release_packet mem moved p in
      subst (Sent s p frames) (sym (release_packet-shape IsLive mem laws moved p)) (
        gone.sent_is,
        finished-IsReady IsLive s p out frames u t.memory t.packets done gone o,
        λ a f n. release_packet-keeps IsLive mem laws moved p a (done.others a f) n,
      )

  -- A driver that waits with `frames` in its ring sends a packet that it does not have. If the card
  -- transmits at some time, `send` ends after the first events of the card; the bytes of the packet
  -- have gone out, once and behind what went out before, the driver waits with the frames in its ring
  -- that came before or by these events, and the other packets that it did not have are still not its.
  pub send-Sent :
      (s : IntelGbit M) (p : DmaPacket) (frames : List (List ℕ)) (events : List Event)
      → IsReady IsLive s frames
      → IsForeign IsLive s.memory s.rx_buffers s.packets p.phys_addr
      → p.size ≤ 4096
      → AreFrames events
      → Transmits events
      → (t : IntelGbit M) × (n : ℕ) × (send card mem events s p ≡ ok t)
        × Sent s p (heard_all frames (take n events)) t
  unfolding send write
  send-Sent s p frames events r out fits are go =
      let (u, n, runs, done, gone) =
        wait_sent-Waited IsLive s p out events frames (told IsLive s p out) are
          (told-IsSending IsLive s p out frames r fits) (inr go) in
      let a : ltb s.tx_head 16 ≡ true = ground (arith, r.idle.head_fits) in
      let b : leb p.size 4096 ≡ true = ground arith in
      let c : ltb (s.regs.tdt / 4) (32 * 1024) ≡ true = ground (arith, r.regs_apart.tdt_fits) in
      (
        release_packet mem (record u { tx_head = (s.tx_head + 1) % 16 }) p,
        n,
        rw (a, b, c, runs) refl,
        finished-Sent s p (heard_all frames (take n events)) u out done gone,
      )
