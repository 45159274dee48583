-- ===== src/Dhcp/Message/Request.antt =====
-- kernel/src/dhcp.rs: the packet of `create_dhcp_packet`, read back as UDP, is a request.
use chocolate_milk.Base.{ℕ, zero, suc, ◌+◌, ◌-◌, ◌*◌, ◌/◌, ◌%◌, ◌^◌, ◌≤◌, ◌<◌, ◌≡◌, refl, ap, arith}
use chocolate_milk.Base.{true, none, some, List, [], ◌∷◌, ◌++◌, length, length-append, replicate}
use chocolate_milk.Base.Bytes.{take?, take?-append}
use chocolate_milk.Base.Outcome.{ok}
use chocolate_milk.Base.Parsed.{found}
use chocolate_milk.Net.{Mac, mac_bytes, Packet, Udp, udp, copy_at}
use chocolate_milk.Net.RoundTrip.{sent_udp, udp-create_udp_raw}
use chocolate_milk.Dhcp.Message.{
  Header, header_size, cast_header, rejected, parse_dhcp_packet, request_header, create_dhcp_packet,
}

-- Two writes side by side are one write.
copy_at-append :
    (n m : ℕ) (xs ys old : List ℕ)
    → m ≡ n + length xs
    → copy_at m ys (copy_at n xs old) ≡ copy_at n (xs ++ ys) old
copy_at-append zero zero [] ys old e = refl
copy_at-append zero (suc m) (x ∷ xs) ys [] e = refl
copy_at-append zero (suc m) (x ∷ xs) ys (b ∷ old) e =
    ap (◌∷◌ x) (copy_at-append zero m xs ys old (omega arith))
copy_at-append (suc n) (suc m) xs ys [] e = refl
copy_at-append (suc n) (suc m) xs ys (b ∷ old) e =
    ap (◌∷◌ b) (copy_at-append n m xs ys old (omega arith))
copy_at-append zero (suc m) [] ys old e = absurd (omega arith)
copy_at-append zero zero (x ∷ xs) ys old e = absurd (omega arith)
copy_at-append (suc n) zero xs ys old e = absurd (omega arith)

abbrev pub broadcast : Mac
broadcast = record { b0 = 0xff; b1 = 0xff; b2 = 0xff; b3 = 0xff; b4 = 0xff; b5 = 0xff }

-- The header as it is cast back.
abbrev pub request : ℕ → Mac → Header
request xid mac = record {
  op = 1;
  htype = 1;
  hlen = 6;
  hops = 0;
  xid = xid;
  secs = 0;
  flags = 0;
  ciaddr = 0;
  yiaddr = 0;
  siaddr = 0;
  giaddr = 0;
  chaddr = mac_bytes mac ++ replicate 10 0;
  name = replicate 64 0;
  file = replicate 128 0;
  cookie = 0x6353_8263;
}

cast_header-request_header :
    (xid : ℕ) (mac : Mac)
    → xid < 2 ^ 32
    → cast_header (request_header xid mac) ≡ ok (request xid mac)
unfolding cast_header request_header
cast_header-request_header xid mac h =
    let word : xid % 256
          + xid / 2 ^ 8 % 256 * 2 ^ 8
          + xid / 2 ^ 16 % 256 * 2 ^ 16
          + xid / 2 ^ 24 % 256 * 2 ^ 24
        ≡ xid =
      omega arith in
    rw word refl

length-request_header : (xid : ℕ) (mac : Mac) → length (request_header xid mac) ≡ 240
unfolding request_header
length-request_header xid mac = refl

rejected-request : (x xid : ℕ) (mac : Mac) → rejected x (request xid mac) ≡ true
unfolding rejected
rejected-request x xid mac = ground arith

-- For a packet of 4096 bytes and at most 1232 bytes of options, `create_dhcp_packet` succeeds, and
-- `udp` reads the packet back: from port 68 to port 67, from the MAC address given, with the
-- request header and the options as payload. The header casts back to the fields of a request
-- with the transaction and the MAC address, and a client ignores the packet, whatever transaction
-- it waits for.
pub parse_dhcp_packet-create_dhcp_packet :
    (packet : Packet) (xid : ℕ) (mac : Mac) (options : List ℕ)
    → length packet.bytes ≡ 4096
    → xid < 2 ^ 32
    → length options ≤ 1232
    → (p' : Packet) × (u : Udp) × (create_dhcp_packet packet xid mac options ≡ ok p')
      × (udp p' ≡ found u)
      × (u.dst_port ≡ 67)
      × (u.src_port ≡ 68)
      × (u.ip.eth.src_mac ≡ mac)
      × (u.payload ≡ request_header xid mac ++ options)
      × (cast_header (request_header xid mac) ≡ ok (request xid mac))
      × ((x : ℕ) → parse_dhcp_packet x u ≡ ok none)
unfolding create_dhcp_packet parse_dhcp_packet
parse_dhcp_packet-create_dhcp_packet packet xid mac options full hx fits =
    let message = request_header xid mac ++ options in
    let head = length-request_header xid mac in
    let size : header_size + length options ≡ length message =
      omega (arith, head, length-append (request_header xid mac) options) in
    let (p, made, _, read) =
      udp-create_udp_raw packet mac broadcast 0 (2 ^ 32 - 1) 68 67 message full (omega arith)
        (omega arith) (omega arith) (omega arith) (omega arith) in
    let once =
      copy_at-append 42 282 (request_header xid mac) options p.bytes (omega (arith, head)) in
    let p' : Packet = record {
      bytes = copy_at 282 options (copy_at 42 (request_header xid mac) p.bytes);
      size = p.size;
    } in
    let u = sent_udp mac broadcast 0 (2 ^ 32 - 1) 68 67 (length message) message in
    let front : take? 240 message ≡ some (request_header xid mac) =
      rw (← head) (take?-append (request_header xid mac) options) in
    let cast = cast_header-request_header xid mac hx in
    (
      p',
      u,
      rw (size, made) refl,
      rw once read,
      refl,
      refl,
      refl,
      refl,
      cast,
      λ x. rw (front, cast, rejected-request x xid mac) refl,
    )
