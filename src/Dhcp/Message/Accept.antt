-- ===== src/Dhcp/Message/Accept.antt =====
-- kernel/src/dhcp.rs: `parse_dhcp_packet` answers every message, and accepts replies only.
use chocolate_milk.Base.{ℕ, zero, suc, ◌+◌, ◌-◌, ◌≤◌, ◌<◌, ◌≡◌, refl, arith, ◌⊎◌, inl, inr}
use chocolate_milk.Base.{false, Bool-cases, none, some, Option-cases, List, [], ◌∷◌, length}
use chocolate_milk.Base.Bytes.{take?, take?-some, take?_fits, drop?_fits, from_le_32, from_le_16}
use chocolate_milk.Base.Outcome.{ok, index, unwrap}
use chocolate_milk.Net.{Udp}
use chocolate_milk.Dhcp.{DhcpOption}
use chocolate_milk.Dhcp.Loop.{parse_options-total}
use chocolate_milk.Dhcp.Message.{
  Header, header_size, bytes_at, word_at, half_at, cast_header, rejected, parse_dhcp_packet,
}

slice_fits :
    (i n : ℕ) (bytes : List ℕ)
    → i + n ≤ length bytes
    → (out : List ℕ) × (bytes_at i n bytes ≡ ok out) × (length out ≡ n)
slice_fits i n bytes h =
    let (rest, d, l) = drop?_fits i bytes (omega arith) in
    let (out, t, m) = take?_fits n rest (omega arith) in
    let size : i + n - i ≡ n = omega arith in (out, rw (d, size, t) refl, m)

four : (b : List ℕ) → length b ≡ 4 → (x : ℕ) × (unwrap (from_le_32 b) ≡ ok x)
four (b0 ∷ b1 ∷ b2 ∷ b3 ∷ []) h = (_, refl)
four _ h = absurd (omega arith)

two : (b : List ℕ) → length b ≡ 2 → (x : ℕ) × (unwrap (from_le_16 b) ≡ ok x)
two (b0 ∷ b1 ∷ []) h = (_, refl)
two _ h = absurd (omega arith)

word_fits : (i : ℕ) (bytes : List ℕ) → i + 4 ≤ length bytes → (x : ℕ) × (word_at i bytes ≡ ok x)
word_fits i bytes h = let (b, e, l) = slice_fits i 4 bytes h in let (x, r) = four b l in (x, rw e r)

half_fits : (i : ℕ) (bytes : List ℕ) → i + 2 ≤ length bytes → (x : ℕ) × (half_at i bytes ≡ ok x)
half_fits i bytes h = let (b, e, l) = slice_fits i 2 bytes h in let (x, r) = two b l in (x, rw e r)

byte_fits : (i : ℕ) (bytes : List ℕ) → i < length bytes → (x : ℕ) × (index bytes i ≡ ok x)
byte_fits i [] h = elim h [ ]
byte_fits zero (b ∷ bytes) h = (b, refl)
byte_fits (suc i) (b ∷ bytes) h = byte_fits i bytes (omega arith)

cast_header-total :
    (bytes : List ℕ) → length bytes ≡ 240 → (h : Header) × (cast_header bytes ≡ ok h)
unfolding cast_header
cast_header-total bytes s =
    let (op, e0) = byte_fits 0 bytes (omega arith) in
    let (htype, e1) = byte_fits 1 bytes (omega arith) in
    let (hlen, e2) = byte_fits 2 bytes (omega arith) in
    let (hops, e3) = byte_fits 3 bytes (omega arith) in
    let (xid, e4) = word_fits 4 bytes (omega arith) in
    let (secs, e5) = half_fits 8 bytes (omega arith) in
    let (flags, e6) = half_fits 10 bytes (omega arith) in
    let (ci, e7) = word_fits 12 bytes (omega arith) in
    let (yi, e8) = word_fits 16 bytes (omega arith) in
    let (si, e9) = word_fits 20 bytes (omega arith) in
    let (gi, e10) = word_fits 24 bytes (omega arith) in
    let (ch, e11, _) = slice_fits 28 16 bytes (omega arith) in
    let (nm, e12, _) = slice_fits 44 64 bytes (omega arith) in
    let (fl, e13, _) = slice_fits 108 128 bytes (omega arith) in
    let (ck, e14) = word_fits 236 bytes (omega arith) in
    let header : Header = record {
      op = op;
      htype = htype;
      hlen = hlen;
      hops = hops;
      xid = xid;
      secs = secs;
      flags = flags;
      ciaddr = ci;
      yiaddr = yi;
      siaddr = si;
      giaddr = gi;
      chaddr = ch;
      name = nm;
      file = fl;
      cookie = ck;
    } in
    (header, rw (e0, e1, e2, e3, e4, e5, e6, e7, e8, e9, e10, e11, e12, e13, e14) refl)

-- The fixed fields of a reply to the transaction `xid`; `0x63538263` is the cookie as a little
-- endian word.
pub record IsReply (xid : ℕ) (h : Header) : Type 0 where
  pub same_xid : h.xid ≡ xid
  pub is_reply : h.op ≡ 2
  pub on_ethernet : h.htype ≡ 1
  pub mac_length : h.hlen ≡ 6
  pub has_cookie : h.cookie ≡ 0x6353_8263

rejected-IsReply : (xid : ℕ) (h : Header) → rejected xid h ≡ false → IsReply xid h
unfolding rejected
rejected-IsReply xid h e = record {
  same_xid = ground arith;
  is_reply = ground arith;
  on_ethernet = ground arith;
  mac_length = ground arith;
  has_cookie = ground arith;
}

-- On any UDP message `parse_dhcp_packet` returns, without a panic: either `None`, or a header of
-- a reply to the transaction on ethernet with the cookie, when there are at least 240 bytes.
pub parse_dhcp_packet-IsReply :
    (xid : ℕ) (udp : Udp)
    → (parse_dhcp_packet xid udp ≡ ok none)
      ⊎ ((h : Header) × (options : List DhcpOption) × (parse_dhcp_packet xid udp
            ≡ ok (some (h, options)))
          × IsReply xid h
          × (240 ≤ length udp.payload))
unfolding parse_dhcp_packet
parse_dhcp_packet-IsReply xid udp = elim (Option-cases (take? header_size udp.payload)) [
  | inl e ↦ inl (rw e refl)
  | inr (_, e) ↦
      let enough = take?-some header_size udp.payload e in
      let (front, t, size) = take?_fits header_size udp.payload enough in
      let (rest, d, _) = drop?_fits header_size udp.payload enough in
      let (h, c) = cast_header-total front size in
      let (options, o) = parse_options-total (length rest) rest (omega arith) in
      elim (Bool-cases (rejected xid h)) [
        | inl refused ↦ inl (rw (t, c, refused) refl)
        | inr good ↦
            inr (h, options, rw (t, c, good, d, o) refl, rejected-IsReply xid h good, enough)
      ]
]
