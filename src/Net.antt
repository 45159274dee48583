-- ===== src/Net.antt =====
-- kernel/src/net.rs: packets, the parsers of ethernet, IPv4 and UDP headers, and the writer of raw
-- UDP packets. The kernel runs on x86_64, so the native byte order is little endian.
pub mod Checksum
pub mod Device
pub mod NoPanic
pub mod RoundTrip
use package.chocolate_milk.Base.{
  ℕ, zero, suc, ◌+◌, ◌-◌, ◌*◌, ◌/◌, ◌%◌, ◌^◌, bit_and, Bool, not, ◌||◌, ◌&&◌,
}
use package.chocolate_milk.Base.{
  ltb, leb, ◌==◌, if◌then◌else◌, Option, none, some, List, [], ◌∷◌, ◌++◌,
}
use package.chocolate_milk.Base.{length, take, drop}
use package.chocolate_milk.Base.Bytes.{
  take?, drop?, slice, to_be_16, to_be_32, from_be_16, from_be_32,
}
use package.chocolate_milk.Base.Parsed.{
  Parsed, found, absent, ◌>>=◌, ◌>>◌, try, checked, index, refuse_if,
}
use package.chocolate_milk.Base.Outcome
use package.chocolate_milk.Base.Outcome.{Outcome, ok, panic}

abbrev pub ethtype_ipv4 : ℕ
ethtype_ipv4 = 0x0800

abbrev pub ipproto_udp : ℕ
ipproto_udp = 0x11

-- `[u8; 6]`
pub record Mac : Type 0 where
  pub b0 : ℕ
  pub b1 : ℕ
  pub b2 : ℕ
  pub b3 : ℕ
  pub b4 : ℕ
  pub b5 : ℕ

abbrev pub mac_bytes : Mac → List ℕ
mac_bytes m = m.b0 ∷ m.b1 ∷ m.b2 ∷ m.b3 ∷ m.b4 ∷ m.b5 ∷ []

abbrev pub to_mac : List ℕ → Option Mac
to_mac (a ∷ b ∷ c ∷ d ∷ e ∷ f ∷ []) =
    some (record { b0 = a; b1 = b; b2 = c; b3 = d; b4 = e; b5 = f })
to_mac _ = none

pub record Ethernet : Type 0 where
  pub dst_mac : Mac
  pub src_mac : Mac
  pub typ : ℕ
  pub payload : List ℕ

pub record Ip : Type 0 where
  pub eth : Ethernet
  pub src_ip : ℕ
  pub dst_ip : ℕ
  pub protocol : ℕ
  pub payload : List ℕ

pub record Udp : Type 0 where
  pub ip : Ip
  pub dst_port : ℕ
  pub src_port : ℕ
  pub payload : List ℕ

-- `bytes` is the array of 4096 bytes, and `size` the field `length`.
pub record Packet : Type 0 where
  pub bytes : List ℕ
  pub size : ℕ

-- The checksum's loop over the pairs of bytes, in native order, and the odd byte.
pub sum_pairs : ℕ → List ℕ → ℕ
sum_pairs c [] = c
sum_pairs c (a ∷ []) = (c + a * 2 ^ 8 % 2 ^ 16) % 2 ^ 32
sum_pairs c (a ∷ b ∷ bytes) = sum_pairs ((c + (a + b * 2 ^ 8)) % 2 ^ 32) bytes

-- `(c & 0xffff).wrapping_add(c >> 16)`
abbrev pub fold_carry : ℕ → ℕ
fold_carry c = (c % 2 ^ 16 + c / 2 ^ 16) % 2 ^ 32

-- `u16::to_be` on a little endian machine.
abbrev pub swap_16 : ℕ → ℕ
swap_16 x = x % 2 ^ 8 * 2 ^ 8 + x / 2 ^ 8

abbrev pub finish_checksum : ℕ → ℕ
finish_checksum c = swap_16 (2 ^ 16 - 1 - fold_carry (fold_carry c) % 2 ^ 16)

pub checksum : ℕ → List ℕ → ℕ
unfolding sum_pairs
checksum c bytes = finish_checksum (sum_pairs c bytes)

pub raw : Packet → Parsed (List ℕ)
raw p = checked (take? p.size p.bytes)

pub eth : Packet → Parsed Ethernet
unfolding raw
eth p = do
  r ← raw p
  dst ← try (slice 0x0 0x6 r)
  dst_mac ← try (to_mac dst)
  src ← try (slice 0x6 0xc r)
  src_mac ← try (to_mac src)
  t ← try (slice 0xc 0xe r)
  typ ← try (from_be_16 t)
  payload ← try (drop? 0xe r)
  found (record { dst_mac = dst_mac; src_mac = src_mac; typ = typ; payload = payload })

-- The fields of an IPv4 header behind the ethernet header, with the checks in their order.
pub ip_of_eth : Ethernet → Parsed Ip
ip_of_eth eth = do
  refuse_if (not (eth.typ == ethtype_ipv4))
  header ← try (take? 20 eth.payload)
  h0 ← index header 0
  let version = h0 / 2 ^ 4 % 2 ^ 4
  let ihl = h0 % 2 ^ 4
  refuse_if (not (version == 4) || not (ihl == 5))
  l ← checked (slice 2 4 header)
  total_length ← try (from_be_16 l)
  h6 ← index header 6
  let flags = h6 / 2 ^ 5 % 2 ^ 3
  refuse_if (not (bit_and flags 5 == 0))
  o ← checked (slice 6 8 header)
  offset ← try (from_be_16 o)
  let frag_offset = offset % 2 ^ 13
  refuse_if (not (frag_offset == 0))
  protocol ← index header 9
  s ← checked (slice 12 16 header)
  src_ip ← try (from_be_32 s)
  d ← checked (slice 16 20 header)
  dst_ip ← try (from_be_32 d)
  refuse_if (ltb total_length 20 || ltb (length eth.payload) total_length)
  refuse_if (not (checksum 0 header == 0))
  payload ← checked (slice 20 total_length eth.payload)
  found (record {
    eth = eth;
    src_ip = src_ip;
    dst_ip = dst_ip;
    protocol = protocol;
    payload = payload;
  })

pub ip : Packet → Parsed Ip
ip p = eth p >>= ip_of_eth

-- A `u16` in the byte order of the checksum, from two bytes in memory order.
abbrev from_ne_16 : ℕ → ℕ → ℕ
from_ne_16 a b = a + b * 2 ^ 8

abbrev add_32 : ℕ → ℕ → ℕ
add_32 a b = (a + b) % 2 ^ 32

-- The pseudo header: the two addresses in network order, the protocol and the UDP length.
pub pseudo_header : Ip → ℕ → ℕ
pseudo_header ip len =
    let s = ip.src_ip in
    let d = ip.dst_ip in
    let c1 = add_32 0 (from_ne_16 (s / 2 ^ 24 % 256) (s / 2 ^ 16 % 256)) in
    let c2 = add_32 c1 (from_ne_16 (s / 2 ^ 8 % 256) (s % 256)) in
    let c3 = add_32 c2 (from_ne_16 (d / 2 ^ 24 % 256) (d / 2 ^ 16 % 256)) in
    let c4 = add_32 c3 (from_ne_16 (d / 2 ^ 8 % 256) (d % 256)) in
    let c5 = add_32 c4 (swap_16 ip.protocol) in add_32 c5 (swap_16 len)

pub udp_of_ip : Ip → Parsed Udp
udp_of_ip ip = do
  header ← try (slice 0 8 ip.payload)
  s ← checked (slice 0 2 header)
  src_port ← try (from_be_16 s)
  d ← checked (slice 2 4 header)
  dst_port ← try (from_be_16 d)
  l ← checked (slice 4 6 header)
  len ← try (from_be_16 l)
  c ← checked (slice 6 8 header)
  orig_checksum ← try (from_be_16 c)
  refuse_if (not (orig_checksum == 0) && not (checksum (pseudo_header ip len) ip.payload == 0))
  refuse_if (ltb len 8 || ltb (length ip.payload) len)
  payload ← checked (slice 8 len ip.payload)
  found (record { ip = ip; dst_port = dst_port; src_port = src_port; payload = payload })

pub udp : Packet → Parsed Udp
udp p = ip p >>= udp_of_ip

-- `bytes[at..at + new.len()].copy_from_slice(&new)`, inside an array of known size.
abbrev pub copy_at : ℕ → List ℕ → List ℕ → List ℕ
copy_at zero [] old = old
copy_at zero (b ∷ new) [] = []
copy_at zero (b ∷ new) (x ∷ old) = b ∷ copy_at zero new old
copy_at (suc n) new [] = []
copy_at (suc n) new (x ∷ old) = x ∷ copy_at n new old

-- `set_len` behind its assertion; the array has 4096 bytes.
pub set_len : Packet → ℕ → Outcome Packet
set_len p len =
    if leb len 1514 && leb len (length p.bytes) then ok (record p { size = len }) else panic

-- The three blocks of `create_udp_raw`, each on the array of bytes.
pub write_eth : Mac → Mac → List ℕ → List ℕ
write_eth src_eth dst_eth bytes =
    copy_at 0xc (to_be_16 ethtype_ipv4)
      (copy_at 0x6 (mac_bytes src_eth) (copy_at 0x0 (mac_bytes dst_eth) bytes))

pub write_ip : ℕ → ℕ → ℕ → List ℕ → List ℕ
unfolding checksum
write_ip src_ip dst_ip message_len bytes =
    let ip_size = (20 + 8 + message_len) % 2 ^ 16 in
    let version = copy_at (14 + 0) (0x45 ∷ []) bytes in
    let dscp = copy_at (14 + 1) (0 ∷ []) version in
    let total = copy_at (14 + 2) (to_be_16 ip_size) dscp in
    let fragment = copy_at (14 + 4) (0 ∷ 0 ∷ 0 ∷ 0 ∷ []) total in
    let ttl = copy_at (14 + 8) (64 ∷ []) fragment in
    let protocol = copy_at (14 + 9) (ipproto_udp ∷ []) ttl in
    let unchecked = copy_at (14 + 10) (0 ∷ 0 ∷ []) protocol in
    let source = copy_at (14 + 12) (to_be_32 src_ip) unchecked in
    let dest = copy_at (14 + 16) (to_be_32 dst_ip) source in
    copy_at (14 + 10) (to_be_16 (checksum 0 (take 20 (drop 14 dest)))) dest

pub write_udp : ℕ → ℕ → ℕ → List ℕ → List ℕ
write_udp src_port dst_port message_len bytes =
    let udp_size = (8 + message_len) % 2 ^ 16 in
    let source = copy_at (14 + 20 + 0) (to_be_16 src_port) bytes in
    let dest = copy_at (14 + 20 + 2) (to_be_16 dst_port) source in
    let sized = copy_at (14 + 20 + 4) (to_be_16 udp_size) dest in
    copy_at (14 + 20 + 6) (0 ∷ 0 ∷ []) sized

-- The index of the message in the packet, and the packet.
pub create_udp_raw : Packet → Mac → Mac → ℕ → ℕ → ℕ → ℕ → ℕ → Outcome (ℕ × Packet)
unfolding set_len write_eth write_ip write_udp
create_udp_raw p src_eth dst_eth src_ip dst_ip src_port dst_port message_len =
    let eth_bytes = write_eth src_eth dst_eth p.bytes in
    let ip_bytes = write_ip src_ip dst_ip message_len eth_bytes in
    let udp_bytes = write_udp src_port dst_port message_len ip_bytes in
    Outcome.◌>>=◌
      (set_len (record { bytes = udp_bytes; size = p.size }) (14 + 20 + 8 + message_len))
      (λ p'. ok (14 + 20 + 8, p'))
