-- ===== src/Net/RoundTrip.antt =====
-- kernel/src/net.rs: `udp` reads back what `create_udp_raw` writes.
use chocolate_milk.Base.{ℕ, ◌+◌, ◌-◌, ◌*◌, ◌/◌, ◌%◌, ◌^◌, ◌≤◌, ◌<◌, ◌≡◌, refl, ap, ◌∙◌, arith}
use chocolate_milk.Base.{List, [], ◌∷◌, ◌++◌, length, ◌||◌, ltb, leb, ◌&&◌, true, false, some}
use chocolate_milk.Base.Bytes.{to_be_16, take?, take?_all, take?_over, take?-append}
use chocolate_milk.Base.Parsed.{found}
use chocolate_milk.Base.Outcome.{ok}
use chocolate_milk.Net.{
  Mac, Ethernet, Ip, Udp, Packet, mac_bytes, ethtype_ipv4, ipproto_udp, checksum,
}
use chocolate_milk.Net.{
  raw, eth, ip_of_eth, ip, udp_of_ip, udp, copy_at, write_eth, write_ip, write_udp,
}
use chocolate_milk.Net.{create_udp_raw}
use chocolate_milk.Net.Checksum.{header, checksum-header}

module _ (src dst : Mac) (sip dip sp dp m : ℕ) where
  abbrev pub eth_header : List ℕ
  eth_header = mac_bytes dst ++ (mac_bytes src ++ to_be_16 ethtype_ipv4)

  -- The IPv4 header with the bytes `x` and `y` in the checksum field.
  abbrev ip_with : ℕ → ℕ → List ℕ
  ip_with =
      let size = (20 + 8 + m) % 2 ^ 16 in
      header 0x45 0 (size / 2 ^ 8 % 256) (size % 256) 0 0 0 0 64 ipproto_udp (sip / 2 ^ 24 % 256)
        (sip / 2 ^ 16 % 256) (sip / 2 ^ 8 % 256) (sip % 256) (dip / 2 ^ 24 % 256)
        (dip / 2 ^ 16 % 256) (dip / 2 ^ 8 % 256) (dip % 256)

  abbrev pub ip_header : List ℕ
  ip_header = let z = checksum 0 (ip_with 0 0) in ip_with (z / 2 ^ 8 % 256) (z % 256)

  abbrev pub udp_header : List ℕ
  udp_header = to_be_16 sp ++ (to_be_16 dp ++ (to_be_16 ((8 + m) % 2 ^ 16) ++ (0 ∷ 0 ∷ [])))

  -- The headers replace the first 42 bytes.
  written :
      (bytes : List ℕ)
      → 42 ≤ length bytes
      → (rest : List ℕ) × (42 + length rest ≡ length bytes)
        × (write_udp sp dp m (write_ip sip dip m (write_eth src dst bytes))
            ≡ eth_header ++ (ip_header ++ (udp_header ++ rest)))
  unfolding write_udp write_ip write_eth
  written
        (x0 ∷ x1 ∷ x2 ∷ x3 ∷ x4 ∷ x5 ∷ x6 ∷ x7 ∷ x8 ∷ x9 ∷ x10 ∷ x11 ∷ x12 ∷ x13 ∷ x14 ∷ x15 ∷ x16
          ∷ x17 ∷ x18 ∷ x19 ∷ x20 ∷ x21 ∷ x22 ∷ x23 ∷ x24 ∷ x25 ∷ x26 ∷ x27 ∷ x28 ∷ x29 ∷ x30 ∷ x31
          ∷ x32 ∷ x33 ∷ x34 ∷ x35 ∷ x36 ∷ x37 ∷ x38 ∷ x39 ∷ x40 ∷ x41 ∷ rest)
        h =
      (rest, omega arith, refl)
  written _ h = absurd (omega arith)

  -- What the parsers find in the written headers, with `message` behind them.
  module _ (message : List ℕ) where
    abbrev pub sent_eth : Ethernet
    sent_eth = record {
      dst_mac = dst;
      src_mac = src;
      typ = ethtype_ipv4;
      payload = ip_header ++ (udp_header ++ message);
    }

    abbrev pub sent_ip : Ip
    sent_ip = record {
      eth = sent_eth;
      src_ip = sip;
      dst_ip = dip;
      protocol = ipproto_udp;
      payload = udp_header ++ message;
    }

    abbrev pub sent_udp : Udp
    sent_udp = record { ip = sent_ip; dst_port = dp; src_port = sp; payload = message }

    eth-written :
        (p : Packet)
        → raw p ≡ found (eth_header ++ (ip_header ++ (udp_header ++ message)))
        → eth p ≡ found sent_eth
    unfolding eth
    eth-written p h = rw h

    module _ (fits : m ≤ 1472) (size : length message ≡ m) where
      ip-written : sip < 2 ^ 32 → dip < 2 ^ 32 → ip_of_eth sent_eth ≡ found sent_ip
      unfolding ip_of_eth
      ip-written hs hd =
          let total : (20 + 8 + m) % 2 ^ 16 / 2 ^ 8 % 256 * 2 ^ 8 + (20 + 8 + m) % 2 ^ 16 % 256
              ≡ 28 + m =
            omega arith in
          let source : sip / 2 ^ 24 % 256 * 2 ^ 24
                + sip / 2 ^ 16 % 256 * 2 ^ 16
                + sip / 2 ^ 8 % 256 * 2 ^ 8
                + sip % 256
              ≡ sip =
            omega arith in
          let dest : dip / 2 ^ 24 % 256 * 2 ^ 24
                + dip / 2 ^ 16 % 256 * 2 ^ 16
                + dip / 2 ^ 8 % 256 * 2 ^ 8
                + dip % 256
              ≡ dip =
            omega arith in
          let lengths : (ltb (28 + m) 20
                || ltb (length (ip_header ++ (udp_header ++ message))) (28 + m))
              ≡ false =
            ground arith in
          let good : checksum 0 ip_header ≡ 0 =
            checksum-header 0x45 0 ((20 + 8 + m) % 2 ^ 16 / 2 ^ 8 % 256)
              ((20 + 8 + m) % 2 ^ 16 % 256) 0 0 0 0 64 ipproto_udp (sip / 2 ^ 24 % 256)
              (sip / 2 ^ 16 % 256) (sip / 2 ^ 8 % 256) (sip % 256) (dip / 2 ^ 24 % 256)
              (dip / 2 ^ 16 % 256) (dip / 2 ^ 8 % 256) (dip % 256) (omega arith) (omega arith) in
          let rest : 28 + m - 20 ≡ length (udp_header ++ message) = omega arith in
          rw (total, source, dest, lengths, good, rest, take?_all (udp_header ++ message))

      udp-written : sp < 2 ^ 16 → dp < 2 ^ 16 → udp_of_ip sent_ip ≡ found sent_udp
      unfolding udp_of_ip
      udp-written hs hd =
          let total : (8 + m) % 2 ^ 16 / 2 ^ 8 % 256 * 2 ^ 8 + (8 + m) % 2 ^ 16 % 256 ≡ 8 + m =
            omega arith in
          let source : sp / 2 ^ 8 % 256 * 2 ^ 8 + sp % 256 ≡ sp = omega arith in
          let dest : dp / 2 ^ 8 % 256 * 2 ^ 8 + dp % 256 ≡ dp = omega arith in
          let lengths : (ltb (8 + m) 8 || ltb (length (udp_header ++ message)) (8 + m)) ≡ false =
            ground arith in
          let rest : 8 + m - 8 ≡ length message = omega arith in
          rw (total, source, dest, lengths, rest, take?_all message)

-- A message that is written over the start of `rest`.
copy_at-zero :
    (message rest : List ℕ)
    → length message ≤ length rest
    → (tail : List ℕ) × (copy_at 0 message rest ≡ message ++ tail)
copy_at-zero [] rest h = (rest, refl)
copy_at-zero (b ∷ message) [] h = elim h [ ]
copy_at-zero (b ∷ message) (x ∷ rest) h =
    let t = copy_at-zero message rest (omega arith) in (t.0, ap (◌∷◌ b) t.1)

len_ok : (n l : ℕ) → n ≤ 1514 → l ≡ 4096 → (leb n 1514 && leb n l) ≡ true
len_ok n l h e = ground arith

udp-stages :
    (p : Packet) {e : Ethernet} {i : Ip} {u : Udp}
    → eth p ≡ found e
    → ip_of_eth e ≡ found i
    → udp_of_ip i ≡ found u
    → udp p ≡ found u
unfolding udp ip
udp-stages p he hi hu = rw (he, hi) hu

-- The contents of the packet once the message is in place.
raw-written :
    (src dst : Mac) (sip dip sp dp m : ℕ) (message out rest : List ℕ)
    → out
      ≡ eth_header src dst sip dip sp dp m
        ++ (ip_header src dst sip dip sp dp m ++ (udp_header src dst sip dip sp dp m ++ rest))
    → length message ≡ m
    → length message ≤ length rest
    → raw (record { bytes = copy_at 42 message out; size = 42 + m })
      ≡ found (
          eth_header src dst sip dip sp dp m
          ++ (ip_header src dst sip dip sp dp m ++ (udp_header src dst sip dip sp dp m ++ message)))
unfolding raw
raw-written src dst sip dip sp dp m message out rest e size fits =
    let headers =
      eth_header src dst sip dip sp dp m
      ++ (ip_header src dst sip dip sp dp m ++ udp_header src dst sip dip sp dp m) in
    let t = copy_at-zero message rest fits in
    let all : take? (42 + m) (headers ++ (message ++ t.0)) ≡ some (headers ++ message) =
      take?_over (42 + m) m headers (message ++ t.0) (omega arith)
        (rw (← size) (take?-append message t.0)) in
    rw (e, t.1, all)

-- For a buffer of 4096 bytes and a message of at most 1472 bytes, `create_udp_raw` succeeds and
-- gives index 42 and a packet of the length of the headers and the message; with the message copied
-- there, `udp` accepts the packet and returns the MAC and IP addresses, the ports and the message.
pub udp-create_udp_raw :
    (p : Packet) (src dst : Mac) (sip dip sp dp : ℕ) (message : List ℕ)
    → length p.bytes ≡ 4096
    → sip < 2 ^ 32
    → dip < 2 ^ 32
    → sp < 2 ^ 16
    → dp < 2 ^ 16
    → length message ≤ 1472
    → (p' : Packet) × (create_udp_raw p src dst sip dip sp dp (length message) ≡ ok (42, p'))
      × (p'.size ≡ 42 + length message)
      × (udp (record p' { bytes = copy_at 42 message p'.bytes })
          ≡ found (sent_udp src dst sip dip sp dp (length message) message))
unfolding create_udp_raw
udp-create_udp_raw p src dst sip dip sp dp message full hs hd hsp hdp fits =
    let m = length message in
    let w = written src dst sip dip sp dp m p.bytes (omega arith) in
    let out = write_udp sp dp m (write_ip sip dip m (write_eth src dst p.bytes)) in
    let same_length : length out ≡ 4096 = ap length w.2 ∙ omega (arith, w.1) in
    let p' : Packet = record { bytes = out; size = 42 + m } in
    (
      p',
      rw (len_ok (42 + m) (length out) (omega arith) same_length),
      refl,
      udp-stages (record p' { bytes = copy_at 42 message out })
          (eth-written src dst sip dip sp dp m message
            (record p' { bytes = copy_at 42 message out })
            (raw-written src dst sip dip sp dp m message out w.0 w.2 refl (omega (arith, w.1))))
          (ip-written src dst sip dip sp dp m message fits refl hs hd)
          (udp-written src dst sip dip sp dp m message fits refl hsp hdp),
    )
