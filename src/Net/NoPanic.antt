-- ===== src/Net/NoPanic.antt =====
-- kernel/src/net.rs: the parsers do not panic on a packet whose length is within its array.
use chocolate_milk.Base.{
  false, ℕ, zero, suc, ◌+◌, ◌-◌, ◌/◌, ◌%◌, ◌^◌, ◌≤◌, ◌<◌, ◌≡◌, ◌≢◌, sym, ap, ◌∙◌, arith, ◌⊎◌, not,
  ◌||◌, ◌&&◌, ltb, ◌==◌, bit_and, Option, none, some, List, [], ◌∷◌, length, get_elem?,
}
use chocolate_milk.Base.Bytes.{
  slice, take_of, length-take?, take?, take?_fits, drop?, drop?_fits, length-slice, from_be_16,
  from_be_32,
}
use chocolate_milk.Base.Parsed.{found, absent}
use chocolate_milk.Base.Safe.{
  Safe, Safe-intro, Safe-bind, Safe-try, Safe-any, Safe-checked, Safe-refuse_if, Safe-cases,
}
use chocolate_milk.Net.{
  Ethernet, Ip, Udp, Packet, to_mac, raw, eth, ip_of_eth, ip, udp_of_ip, udp, checksum,
  pseudo_header, ethtype_ipv4,
}

abbrev Any : {A : Type 0} → A → Type 0
Any a = Unit

some_not_none : {A : Type 0} {o : Option A} {a : A} → o ≡ some a → o ≢ none
some_not_none p e = ground (arith, sym p ∙ e)

get_elem?-fits : (i : ℕ) (xs : List ℕ) → i < length xs → get_elem? xs i ≢ none
get_elem?-fits i [] h e = elim h [ ]
get_elem?-fits zero (x ∷ xs) h e = ground arith
get_elem?-fits (suc i) (x ∷ xs) h e = get_elem?-fits i xs (omega arith) e

slice-fits : (a b : ℕ) (xs : List ℕ) → a ≤ b → b ≤ length xs → slice a b xs ≢ none
slice-fits a b xs h k =
    let (rest, d, l) = drop?_fits a xs (omega arith) in
    let (out, t, _) = take?_fits (b - a) rest (omega (arith, l)) in
    some_not_none (ap (take_of (b - a)) d ∙ t)

take?-fits : (n : ℕ) (xs : List ℕ) → n ≤ length xs → take? n xs ≢ none
take?-fits n xs h = let (_, t, _) = take?_fits n xs h in some_not_none t

eth-Safe : (p : Packet) → p.size ≤ length p.bytes → Safe Any (eth p)
unfolding eth raw
eth-Safe p h =
    Safe-bind _ _ _ (Safe-checked (take? p.size p.bytes) (take?-fits p.size p.bytes h)) λ r _.
      Safe-bind _ _ _ (Safe-any (slice 0x0 0x6 r)) λ dst _.
        Safe-bind _ _ _ (Safe-any (to_mac dst)) λ dst_mac _.
          Safe-bind _ _ _ (Safe-any (slice 0x6 0xc r)) λ src _.
            Safe-bind _ _ _ (Safe-any (to_mac src)) λ src_mac _.
              Safe-bind _ _ _ (Safe-any (slice 0xc 0xe r)) λ t _.
                Safe-bind _ _ _ (Safe-any (from_be_16 t))
                  λ typ _. Safe-bind _ _ _ (Safe-any (drop? 0xe r)) λ payload _. Safe-intro _ _ tt

lengths : (total n : ℕ) → (ltb total 20 || ltb n total) ≡ false → (20 ≤ total) × (total ≤ n)
lengths total n h = (ground arith, ground arith)

ip_of_eth-Safe : (e : Ethernet) → Safe Any (ip_of_eth e)
unfolding ip_of_eth
ip_of_eth-Safe e = Safe-bind _ _ _ (Safe-refuse_if (not (e.typ == ethtype_ipv4))) λ _ _.
    Safe-bind _ _ _ (Safe-try (take? 20 e.payload)) λ header t.
      let n = length-take? 20 e.payload t in
      Safe-bind _ _ _
        (Safe-checked (get_elem? header 0) (get_elem?-fits 0 header (omega (arith, n))))
        λ h0 _.
          Safe-bind _ _ _ (Safe-refuse_if (not (h0 / 2 ^ 4 % 2 ^ 4 == 4) || not (h0 % 2 ^ 4 == 5)))
            λ _ _.
              Safe-bind _ _ _
                (Safe-checked (slice 2 4 header)
                  (slice-fits 2 4 header (omega arith) (omega (arith, n))))
                λ l _. Safe-bind _ _ _ (Safe-any (from_be_16 l)) λ total_length _.
                  Safe-bind _ _ _
                    (Safe-checked (get_elem? header 6) (get_elem?-fits 6 header (omega (arith, n))))
                    λ h6 _.
                      Safe-bind _ _ _ (Safe-refuse_if (not (bit_and (h6 / 2 ^ 5 % 2 ^ 3) 5 == 0)))
                        λ _ _.
                          Safe-bind _ _ _
                            (Safe-checked (slice 6 8 header)
                              (slice-fits 6 8 header (omega arith) (omega (arith, n))))
                            λ o _. Safe-bind _ _ _ (Safe-any (from_be_16 o)) λ offset _.
                              Safe-bind _ _ _ (Safe-refuse_if (not (offset % 2 ^ 13 == 0))) λ _ _.
                                Safe-bind _ _ _
                                  (Safe-checked (get_elem? header 9)
                                    (get_elem?-fits 9 header (omega (arith, n))))
                                  λ protocol _.
                                    Safe-bind _ _ _
                                      (Safe-checked (slice 12 16 header)
                                        (slice-fits 12 16 header (omega arith) (omega (arith, n))))
                                      λ s _. Safe-bind _ _ _ (Safe-any (from_be_32 s)) λ src_ip _.
                                        Safe-bind _ _ _
                                          (Safe-checked (slice 16 20 header) (
                                            slice-fits 16 20 header (omega arith)
                                              (omega (arith, n))))
                                          λ d _.
                                            Safe-bind _ _ _ (Safe-any (from_be_32 d)) λ dst_ip _.
                                              Safe-bind _ _ _
                                                (Safe-refuse_if (
                                                  ltb total_length 20
                                                  || ltb (length e.payload) total_length))
                                                λ _ fits.
                                                  let room =
                                                    lengths total_length (length e.payload) fits in
                                                  Safe-bind _ _ _
                                                    (Safe-refuse_if (not (checksum 0 header == 0)))
                                                    λ _ _.
                                                      Safe-bind _ _ _
                                                        (Safe-checked
                                                          (slice 20 total_length e.payload)
                                                          (slice-fits 20 total_length e.payload
                                                            room.0 room.1))
                                                        λ payload _. Safe-intro _ _ tt

udp_lengths : (len n : ℕ) → (ltb len 8 || ltb n len) ≡ false → (8 ≤ len) × (len ≤ n)
udp_lengths len n h = (ground arith, ground arith)

-- The bytes that `udp` hands on.
abbrev pub IsWithin : Udp → Type 0
IsWithin u = length u.payload + 8 ≤ length u.ip.payload

udp_of_ip-Safe : (i : Ip) → Safe IsWithin (udp_of_ip i)
unfolding udp_of_ip
udp_of_ip-Safe i = Safe-bind _ _ _ (Safe-try (slice 0 8 i.payload)) λ header t.
    let n = length-slice 0 8 i.payload t in
    Safe-bind _ _ _
      (Safe-checked (slice 0 2 header) (slice-fits 0 2 header (omega arith) (omega (arith, n))))
      λ s _. Safe-bind _ _ _ (Safe-any (from_be_16 s)) λ src_port _.
        Safe-bind _ _ _
          (Safe-checked (slice 2 4 header) (slice-fits 2 4 header (omega arith) (omega (arith, n))))
          λ d _. Safe-bind _ _ _ (Safe-any (from_be_16 d)) λ dst_port _.
            Safe-bind _ _ _
              (Safe-checked (slice 4 6 header)
                (slice-fits 4 6 header (omega arith) (omega (arith, n))))
              λ l _. Safe-bind _ _ _ (Safe-any (from_be_16 l)) λ len _.
                Safe-bind _ _ _
                  (Safe-checked (slice 6 8 header)
                    (slice-fits 6 8 header (omega arith) (omega (arith, n))))
                  λ c _. Safe-bind _ _ _ (Safe-any (from_be_16 c)) λ orig _.
                    Safe-bind _ _ _
                      (Safe-refuse_if
                        (not (orig == 0) && not (checksum (pseudo_header i len) i.payload == 0)))
                      λ _ _.
                        Safe-bind _ _ _ (Safe-refuse_if (ltb len 8 || ltb (length i.payload) len))
                          λ _ fits.
                            let room = udp_lengths len (length i.payload) fits in
                            Safe-bind _ _ _
                              (Safe-checked (slice 8 len i.payload)
                                (slice-fits 8 len i.payload room.0 room.1))
                              λ payload e.
                                Safe-intro _ _
                                  (omega (arith, length-slice 8 len i.payload e, room.0, room.1))

udp-Safe : (p : Packet) → p.size ≤ length p.bytes → Safe IsWithin (udp p)
unfolding udp ip
udp-Safe p h =
    Safe-bind _ _ _ (Safe-bind _ _ _ (eth-Safe p h) (λ e _. ip_of_eth-Safe e))
      (λ i _. udp_of_ip-Safe i)

-- For a packet whose length is within its array, `udp` does not panic, whatever the bytes: it
-- refuses them, or returns a payload that, with the UDP header, fits the payload of the IP packet.
pub udp-IsWithin :
    (p : Packet)
    → p.size ≤ length p.bytes
    → (udp p ≡ absent) ⊎ ((u : Udp) × (udp p ≡ found u) × IsWithin u)
udp-IsWithin p h = Safe-cases IsWithin (udp p) (udp-Safe p h)
