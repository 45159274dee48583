-- ===== src/Dhcp/Message.antt =====
-- kernel/src/dhcp.rs: the DHCP message over UDP, `parse_dhcp_packet` and `create_dhcp_packet`. The
-- kernel runs on x86_64, so the words of the packed header are little endian in memory.
pub mod Accept
pub mod Request
use chocolate_milk.Base.{ℕ, ◌+◌, ◌-◌, ◌*◌, ◌/◌, ◌%◌, ◌^◌, Bool, not, ◌||◌, ◌==◌}
use chocolate_milk.Base.{if◌then◌else◌, Option, none, some, List, ◌∷◌, ◌++◌, length, replicate}
use chocolate_milk.Base.Bytes.{take?, drop?, slice, to_le_32, from_le_16, from_le_32}
use chocolate_milk.Base.Outcome.{Outcome, ok, unwrap, index, ◌>>=◌}
use chocolate_milk.Net.{Mac, mac_bytes, Udp, Packet, copy_at, create_udp_raw}
use chocolate_milk.Dhcp.{DhcpOption, parse_options}

abbrev pub dhcp_cookie : ℕ
dhcp_cookie = 0x6382_5363

-- `u32::to_be` and `u32::from_be` on a little endian machine.
abbrev pub swap_32 : ℕ → ℕ
swap_32 x =
    x % 2 ^ 8 * 2 ^ 24 + x / 2 ^ 8 % 2 ^ 8 * 2 ^ 16 + x / 2 ^ 16 % 2 ^ 8 * 2 ^ 8 + x / 2 ^ 24

-- `name` and `file` are kept as their bytes in memory order; nothing reads them.
pub record Header : Type 0 where
  pub op : ℕ
  pub htype : ℕ
  pub hlen : ℕ
  pub hops : ℕ
  pub xid : ℕ
  pub secs : ℕ
  pub flags : ℕ
  pub ciaddr : ℕ
  pub yiaddr : ℕ
  pub siaddr : ℕ
  pub giaddr : ℕ
  pub chaddr : List ℕ
  pub name : List ℕ
  pub file : List ℕ
  pub cookie : ℕ

abbrev pub header_size : ℕ
header_size = 240

abbrev pub bytes_at : ℕ → ℕ → List ℕ → Outcome (List ℕ)
bytes_at i size bytes = unwrap (slice i (i + size) bytes)

abbrev pub word_at : ℕ → List ℕ → Outcome ℕ
word_at i bytes = bytes_at i 4 bytes >>= λ b. unwrap (from_le_32 b)

abbrev pub half_at : ℕ → List ℕ → Outcome ℕ
half_at i bytes = bytes_at i 2 bytes >>= λ b. unwrap (from_le_16 b)

-- The cast of 240 bytes to a header: each field at its offset in the packed layout.
pub cast_header : List ℕ → Outcome Header
cast_header bytes = do
  op ← index bytes 0
  htype ← index bytes 1
  hlen ← index bytes 2
  hops ← index bytes 3
  xid ← word_at 4 bytes
  secs ← half_at 8 bytes
  flags ← half_at 10 bytes
  ciaddr ← word_at 12 bytes
  yiaddr ← word_at 16 bytes
  siaddr ← word_at 20 bytes
  giaddr ← word_at 24 bytes
  chaddr ← bytes_at 28 16 bytes
  name ← bytes_at 44 64 bytes
  file ← bytes_at 108 128 bytes
  cookie ← word_at 236 bytes
  ok (record {
    op = op;
    htype = htype;
    hlen = hlen;
    hops = hops;
    xid = xid;
    secs = secs;
    flags = flags;
    ciaddr = ciaddr;
    yiaddr = yiaddr;
    siaddr = siaddr;
    giaddr = giaddr;
    chaddr = chaddr;
    name = name;
    file = file;
    cookie = cookie;
  })

-- The sanity checks on a header: the transaction, then the fixed fields of a reply.
pub rejected : ℕ → Header → Bool
rejected xid h =
    not (h.xid == xid)
    || (not (h.op == 2)
        || (not (h.htype == 1) || (not (h.hlen == 6) || not (h.cookie == swap_32 dhcp_cookie))))

abbrev pub with_options : Header → List ℕ → Outcome (Option (Header × List DhcpOption))
with_options h bytes = parse_options (length bytes) bytes >>= λ options.
    let accepted : Header × List DhcpOption = (h, options) in ok (some accepted)

-- What the message is once its first 240 bytes are there.
abbrev pub parse_message :
    ℕ → List ℕ → Option (List ℕ) → Outcome (Option (Header × List DhcpOption))
parse_message xid bytes none = ok none
parse_message xid bytes (some header) = cast_header header >>= λ h.
    if rejected xid h
    then ok none
    else (unwrap (drop? header_size bytes) >>= λ rest. with_options h rest)

pub parse_dhcp_packet : ℕ → Udp → Outcome (Option (Header × List DhcpOption))
parse_dhcp_packet xid udp = parse_message xid udp.payload (take? header_size udp.payload)

-- The header of a request in memory: zeros but for `op`, `htype`, `hlen`, `xid`, the hardware
-- address and the cookie.
pub request_header : ℕ → Mac → List ℕ
request_header xid mac =
    1
    ∷ 1
    ∷ 6
    ∷ 0
    ∷ (to_le_32 xid
        ++ (replicate 20 0
            ++ (mac_bytes mac
                ++ (replicate 10 0 ++ (replicate 192 0 ++ to_le_32 (swap_32 dhcp_cookie))))))

pub create_dhcp_packet : Packet → ℕ → Mac → List ℕ → Outcome Packet
create_dhcp_packet packet xid mac options =
    let broadcast : Mac = record {
      b0 = 0xff;
      b1 = 0xff;
      b2 = 0xff;
      b3 = 0xff;
      b4 = 0xff;
      b5 = 0xff;
    } in
    create_udp_raw packet mac broadcast 0 (2 ^ 32 - 1) 68 67 (header_size + length options)
    >>= λ created.
        let offset = created.0 in
        let p = created.1 in
        let headed = copy_at offset (request_header xid mac) p.bytes in
        ok (record p { bytes = copy_at (offset + header_size) options headed })
