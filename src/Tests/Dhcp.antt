-- ===== src/Tests/Dhcp.antt =====
-- kernel/src/dhcp.rs on small messages.
use chocolate_milk.Base.{
  ℕ, ◌≡◌, ◌≤◌, replicate, arith, List, [], ◌∷◌, ◌++◌, length, none, ◌⊎◌, some,
}
use chocolate_milk.Base.Outcome.{ok}
use chocolate_milk.Base.Parsed.{found}
use chocolate_milk.Net.{Udp, Packet, udp}
use chocolate_milk.Net.RoundTrip.{sent_udp}
use chocolate_milk.Tests.Net.{blank, blank_full, client_mac, broadcast}
use chocolate_milk.Dhcp.{MessageType, DhcpOption, serialize_all, parse_options}
use chocolate_milk.Dhcp.Loop.{parse_options-total, parse_options-serialize_all}
use chocolate_milk.Dhcp.Message.{
  Header, cast_header, request_header, create_dhcp_packet, parse_dhcp_packet,
}
use chocolate_milk.Dhcp.Message.Accept.{IsReply, parse_dhcp_packet-IsReply}
use chocolate_milk.Dhcp.Message.Request.{request, parse_dhcp_packet-create_dhcp_packet}
use chocolate_milk.Dhcp.Lease.{Progress, get_lease}
use chocolate_milk.Dhcp.Lease.Exchange.{Explains, get_lease-Explains}

parse_options-total_example :
    (options : List DhcpOption) × (parse_options 5 (53 ∷ 1 ∷ 2 ∷ 99 ∷ 7 ∷ []) ≡ ok options)
parse_options-total_example = parse_options-total 5 (53 ∷ 1 ∷ 2 ∷ 99 ∷ 7 ∷ []) (omega arith)

abbrev offer_options : List DhcpOption
offer_options = DhcpOption.message MessageType.offer ∷ DhcpOption.server_ip 0x0a00_0001 ∷ []

parse_options-serialize_all_example :
    (bytes : List ℕ) × (serialize_all (offer_options ++ (DhcpOption.end_of_list ∷ [])) []
      ≡ ok bytes)
    × (parse_options (length bytes) bytes ≡ ok offer_options)
parse_options-serialize_all_example =
    parse_options-serialize_all offer_options (tt, (omega arith, tt))

-- A message that is too short.
abbrev short : Udp
short = sent_udp client_mac broadcast 0 0 67 68 2 (2 ∷ 1 ∷ [])

-- A reply of the transaction 7 with the address 10.0.0.42.
abbrev reply : List ℕ → List ℕ
reply options =
    2
    ∷ 1
    ∷ 6
    ∷ 0
    ∷ 7
    ∷ 0
    ∷ 0
    ∷ 0
    ∷ (replicate 8 0
        ++ (10 ∷ 0 ∷ 0 ∷ 42 ∷ (replicate 216 0 ++ (0x63 ∷ 0x82 ∷ 0x53 ∷ 0x63 ∷ options))))

abbrev to_client : List ℕ → Udp
to_client message =
    sent_udp broadcast client_mac 0x0a00_0001 0x0a00_002a 67 68 (length message) message

abbrev an_offer : Udp
an_offer = to_client (reply (53 ∷ 1 ∷ 2 ∷ 54 ∷ 4 ∷ 10 ∷ 0 ∷ 0 ∷ 1 ∷ 255 ∷ []))

abbrev an_ack : Udp
an_ack = to_client (reply (53 ∷ 1 ∷ 5 ∷ 1 ∷ 4 ∷ 255 ∷ 255 ∷ 255 ∷ 0 ∷ 255 ∷ []))

abbrev exchange : List Udp
exchange = short ∷ an_offer ∷ short ∷ an_ack ∷ []

parse_dhcp_packet-IsReply_example :
    (parse_dhcp_packet 7 an_offer ≡ ok none)
    ⊎ ((h : Header) × (options : List DhcpOption) × (parse_dhcp_packet 7 an_offer
          ≡ ok (some (h, options)))
        × IsReply 7 h
        × (240 ≤ length an_offer.payload))
parse_dhcp_packet-IsReply_example = parse_dhcp_packet-IsReply 7 an_offer

parse_dhcp_packet-create_dhcp_packet_example :
    (p' : Packet) × (u : Udp) × (create_dhcp_packet blank 0x1234_5678 client_mac
        (53 ∷ 1 ∷ 1 ∷ 255 ∷ [])
      ≡ ok p')
    × (udp p' ≡ found u)
    × (u.dst_port ≡ 67)
    × (u.src_port ≡ 68)
    × (u.ip.eth.src_mac ≡ client_mac)
    × (u.payload ≡ request_header 0x1234_5678 client_mac ++ (53 ∷ 1 ∷ 1 ∷ 255 ∷ []))
    × (cast_header (request_header 0x1234_5678 client_mac) ≡ ok (request 0x1234_5678 client_mac))
    × ((x : ℕ) → parse_dhcp_packet x u ≡ ok none)
parse_dhcp_packet-create_dhcp_packet_example =
    parse_dhcp_packet-create_dhcp_packet blank 0x1234_5678 client_mac (53 ∷ 1 ∷ 1 ∷ 255 ∷ [])
      blank_full (omega arith) (omega arith)

get_lease-Explains_example :
    (p : Progress) × (get_lease 7 client_mac blank blank exchange ≡ ok p)
    × Explains 7 client_mac exchange p
get_lease-Explains_example =
    get_lease-Explains 7 client_mac blank blank exchange (omega arith) blank_full blank_full
