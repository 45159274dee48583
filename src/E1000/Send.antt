-- ===== src/E1000/Send.antt =====
-- kernel/src/e1000.rs, `send`: what the card does while the driver waits for its frame to go out.
pub mod Waits
use chocolate_milk.Base.{
  ℕ, zero, suc, ◌+◌, ◌%◌, ◌/◌, ◌≤◌, ◌<◌, ◌≡◌, ◌≢◌, arith, refl, sym, ap, ◌∙◌, subst, ◌⊎◌, inl, inr,
  bit_and, true, false, ltb, ◌==◌, if◌then◌else◌, Bool-cases, some, List, [], ◌∷◌, ◌++◌, length,
  length-append, get_elem?, get_elem?-lt, drop,
}
use chocolate_milk.E1000.{
  LegacyRxDesc, LegacyTxDesc, DmaPacket, IntelGbit, set_at, set_at_other, set_at_here, contents,
}
use chocolate_milk.E1000.Nic.{
  Event, quiet, arrival, transmission, card, stored, gone_out, AreApart, nth, Holds, IsRing,
}
use chocolate_milk.E1000.Owned.{IsOwned, IsForeign}
use chocolate_milk.E1000.Receive.{Holds-moved}

-- The queue of frames when something happens at the card: an eighth frame is lost.
abbrev pub heard : List (List ℕ) → Event → List (List ℕ)
heard frames quiet = frames
heard frames (arrival frame) = if ltb (length frames) 7 then frames ++ (frame ∷ []) else frames
heard frames transmission = frames

abbrev pub heard_all : List (List ℕ) → List Event → List (List ℕ)
heard_all frames [] = frames
heard_all frames (e ∷ events) = heard_all (heard frames e) events

abbrev pub IsFrame : Event → Type 0
IsFrame (arrival frame) = length frame ≤ 1514
IsFrame quiet = Unit
IsFrame transmission = Unit

abbrev pub AreFrames : List Event → Type 0
AreFrames [] = Unit
AreFrames (e ∷ events) = IsFrame e × AreFrames events

-- The card transmits at some time.
abbrev pub Transmits : List Event → Type 0
Transmits [] = ⊥
Transmits (transmission ∷ events) = Unit
Transmits (quiet ∷ events) = Transmits events
Transmits (arrival frame ∷ events) = Transmits events

get_elem?-snoc :
    {A : Type 0} (xs : List A) (y : A) (i : ℕ) (a : A)
    → get_elem? (xs ++ (y ∷ [])) i ≡ some a
    → (get_elem? xs i ≡ some a) ⊎ ((i ≡ length xs) × (y ≡ a))
get_elem?-snoc [] y zero a e = inr (refl, cc)
get_elem?-snoc [] y (suc i) a e = cc
get_elem?-snoc (x ∷ xs) y zero a e = inl e
get_elem?-snoc (x ∷ xs) y (suc i) a e = elim (get_elem?-snoc xs y i a e) [
  | inl before ↦ inl before
  | inr (at_end, same) ↦ inr (ap suc at_end, same)
]

module _ {M : Type 0} where
  -- Slots apart in the ring have buffers apart.
  buffers_apart :
      (s : IntelGbit M) (frames : List (List ℕ)) (j k : ℕ)
      → IsRing s frames
      → ((j k : ℕ)
          → j < 8
          → k < 8
          → (s.rx_buffers j).phys_addr ≡ (s.rx_buffers k).phys_addr
          → j ≡ k)
      → j < 8
      → k < 8
      → j ≢ k
      → (s.rx_descriptors j).buffer ≢ (s.rx_descriptors k).buffer
  buffers_apart s frames j k r apart a b n e =
      n (apart j k a b (sym (r.buffers j a) ∙ e ∙ r.buffers k b))

  stored-Holds :
      (s : IntelGbit M) (slot : ℕ) (frame : List ℕ)
      → length frame ≤ 1514
      → Holds (stored s slot frame) slot frame
  stored-Holds s slot frame fits =
      let desc = s.rx_descriptors slot in
      let bytes = frame ++ drop (length frame) (s.ram desc.buffer) in
      let here =
        set_at_here s.rx_descriptors slot (record desc { len = length frame; status = 3 }) in
      record {
        present = ap (λ (d : LegacyRxDesc). bit_and d.status 1) here;
        sized = ap (λ (d : LegacyRxDesc). d.len) here;
        fits = fits;
        bytes = (
          drop (length frame) (s.ram desc.buffer),
          ap (λ (d : LegacyRxDesc). set_at s.ram desc.buffer bytes d.buffer) here
              ∙ set_at_here s.ram desc.buffer bytes,
        );
      }

  -- A frame in the first idle slot.
  stored-IsRing :
      (s : IntelGbit M) (frames : List (List ℕ)) (frame : List ℕ)
      → AreApart s.regs
      → IsRing s frames
      → ((j k : ℕ)
          → j < 8
          → k < 8
          → (s.rx_buffers j).phys_addr ≡ (s.rx_buffers k).phys_addr
          → j ≡ k)
      → length frame ≤ 1514
      → length frames < 7
      → IsRing (stored s (nth s.rx_head (length frames)) frame) (frames ++ (frame ∷ []))
  stored-IsRing s frames frame regs r apart fits room =
      let slot = nth s.rx_head (length frames) in
      let t = stored s slot frame in
      let longer : length (frames ++ (frame ∷ [])) ≡ length frames + 1 =
        length-append frames (frame ∷ []) in
      record {
        head_fits = r.head_fits;
        few = omega (arith, longer);
        rdh_is = set_at_here s.mmio (s.regs.rdh / 4) ((slot + 1) % 8) ∙ omega (arith, longer);
        rdt_is = set_at_other s.mmio _ (λ e. regs.rdh_rdt (sym e)) ∙ r.rdt_is;
        buffers = λ j h. ground (arith, r.buffers j h);
        filled = λ i f e. elim (get_elem?-snoc frames frame i f e) [
          | inl before ↦
              let lt = get_elem?-lt frames i f before in
              let there : nth s.rx_head i ≢ slot = omega (arith, lt, r.head_fits) in
              Holds-moved s t (nth s.rx_head i) (nth s.rx_head i) f refl
                (set_at_other s.rx_descriptors _ there)
                (set_at_other s.ram _ (
                  buffers_apart s frames (nth s.rx_head i) slot r apart (omega arith) (omega arith)
                    there))
                (r.filled i f before)
          | inr (at_end, same) ↦
              subst (λ g. Holds t (nth s.rx_head i) g) same
                (subst (λ k. Holds t (nth s.rx_head k) frame) (sym at_end)
                  (stored-Holds s slot frame fits))
        ];
        idle = λ i over small.
            let there : nth s.rx_head i ≢ slot = omega (arith, longer, r.head_fits) in
            ap (λ (d : LegacyRxDesc). bit_and d.status 1) (set_at_other s.rx_descriptors _ there)
            ∙ r.idle i (omega (arith, longer)) small;
      }

  -- The receive ring does not depend on the transmit ring.
  pub IsRing-tx :
      (s : IntelGbit M) (frames : List (List ℕ)) (mmio : ℕ → ℕ) (tx_descriptors : ℕ → LegacyTxDesc)
      (tx_head : ℕ) (packets : List DmaPacket) (memory : M) (sent : List (List ℕ))
      → mmio (s.regs.rdh / 4) ≡ s.mmio (s.regs.rdh / 4)
      → mmio (s.regs.rdt / 4) ≡ s.mmio (s.regs.rdt / 4)
      → IsRing s frames
      → IsRing
          (record s {
            mmio = mmio;
            tx_descriptors = tx_descriptors;
            tx_head = tx_head;
            packets = packets;
            memory = memory;
            sent = sent;
          })
          frames
  IsRing-tx s frames mmio tx_descriptors tx_head packets memory sent rdh rdt r = record {
    head_fits = r.head_fits;
    few = r.few;
    rdh_is = rdh ∙ r.rdh_is;
    rdt_is = rdt ∙ r.rdt_is;
    buffers = r.buffers;
    filled = λ i f e.
        Holds-moved s _ (nth s.rx_head i) (nth s.rx_head i) f refl refl refl (r.filled i f e);
    idle = r.idle;
  }

  -- The frame of `send` is in its descriptor.
  pub record InFlight (s : IntelGbit M) (p : DmaPacket) (base : List (List ℕ)) : Type 0 where
    pub waiting : bit_and (s.tx_descriptors s.tx_head).status 1 ≡ 0
    pub buffer_is : (s.tx_descriptors s.tx_head).buffer ≡ p.phys_addr
    pub len_is : (s.tx_descriptors s.tx_head).len ≡ p.size
    pub cmd_is : (s.tx_descriptors s.tx_head).cmd ≡ 11
    pub tdh_is : s.mmio (s.regs.tdh / 4) ≡ s.tx_head
    pub sent_is : s.sent ≡ base

  -- The frame of `send` has gone out.
  pub record IsGone (s : IntelGbit M) (tail : ℕ) (bytes : List ℕ) (base : List (List ℕ))
      : Type 0 where
    pub finished : bit_and (s.tx_descriptors s.tx_head).status 1 ≡ 1
    pub tdh_is : s.mmio (s.regs.tdh / 4) ≡ tail
    pub sent_is : s.sent ≡ bytes ∷ base

  -- The driver in the loop of `send`, after `s` and with `frames` in its receive ring.
  pub record IsSending (IsLive : M → ℕ → Type 0) (s : IntelGbit M) (p : DmaPacket)
      (frames : List (List ℕ)) (t : IntelGbit M) : Type 0 where
    pub regs_apart : AreApart t.regs
    pub ring : IsRing t frames
    pub owned : IsOwned IsLive t.memory t.rx_buffers t.packets
    pub others :
        (a : ℕ)
        → IsForeign IsLive s.memory s.rx_buffers s.packets a
        → IsForeign IsLive t.memory t.rx_buffers t.packets a
    pub head_fits : t.tx_head < 16
    pub head_is : t.tx_head ≡ s.tx_head
    pub tdt_is : t.mmio (t.regs.tdt / 4) ≡ (t.tx_head + 1) % 16
    pub bytes : contents t.ram p ≡ contents s.ram p
    pub stage : InFlight t p s.sent ⊎ IsGone t ((t.tx_head + 1) % 16) (contents s.ram p) s.sent
