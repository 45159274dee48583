-- ===== src/Dhcp/Lease/Reading.antt =====
-- kernel/src/dhcp.rs: the messages that the two closures of `get_lease` take, by their options.
use chocolate_milk.Base.{◌≡◌, ◌⊎◌, inl, inr, refl, arith, Bool-cases}
use chocolate_milk.Base.{true, false, none, some, List}
use chocolate_milk.Net.{Mac}
use chocolate_milk.Dhcp.{MessageType, DhcpOption}
use chocolate_milk.Dhcp.Message.{Header, swap_32}
use chocolate_milk.Dhcp.Lease.{
  same_mac, find_map, server_of, broadcast_of, subnet_of, Offer, Ack, read_offer, read_ack,
}
use chocolate_milk.Dhcp.Lease.Kinds.{
  Has, FirstIs, find_map-FirstIs, server_of-Takes, broadcast_of-Takes, subnet_of-Takes,
  is_offer-Tests, is_ack-Tests, has_message_cases,
}

abbrev pub IsSame : Mac → Mac → Type 0
IsSame m n =
    (m.b0 ≡ n.b0) × (m.b1 ≡ n.b1) × (m.b2 ≡ n.b2) × (m.b3 ≡ n.b3) × (m.b4 ≡ n.b4) × (m.b5 ≡ n.b5)

pub same_mac_cases :
    (m n : Mac) → ((same_mac m n ≡ true) × IsSame m n) ⊎ ((same_mac m n ≡ false) × (¬ IsSame m n))
same_mac_cases m n = elim (Bool-cases (same_mac m n)) [
  | inl e ↦ inl (e, ground arith)
  | inr e ↦ inr (e, ground arith)
]

-- An offer has the type of one; it gives an address, and the first server that it names.
abbrev pub IsOffer : Header → List DhcpOption → Offer → Type 0
IsOffer h options (ip, server) =
    Has (DhcpOption.message MessageType.offer) options
    × (ip ≡ swap_32 h.yiaddr)
    × FirstIs DhcpOption.server_ip options server

abbrev pub IsAck : Header → List DhcpOption → Ack → Type 0
IsAck h options (broadcast, subnet) =
    Has (DhcpOption.message MessageType.ack) options
    × FirstIs DhcpOption.broadcast_ip options broadcast
    × FirstIs DhcpOption.subnet_mask options subnet

-- The first closure takes what an offer means, and nothing but offers.
pub read_offer_cases :
    (h : Header) (options : List DhcpOption)
    → ((read_offer (some (h, options)) ≡ none) × ((a : Offer) → ¬ IsOffer h options a))
      ⊎ ((a : Offer) × (read_offer (some (h, options)) ≡ some a) × IsOffer h options a)
read_offer_cases h options = elim (has_message_cases MessageType.offer is_offer-Tests options) [
  | inr (e, without) ↦ inl (rw e refl, λ a c. without c.0)
  | inl (e, yes_here) ↦ inr (
    (swap_32 h.yiaddr, find_map server_of options),
    rw e refl,
    (yes_here, refl, find_map-FirstIs server_of DhcpOption.server_ip server_of-Takes options),
  )
]

pub read_ack_cases :
    (h : Header) (options : List DhcpOption)
    → ((read_ack (some (h, options)) ≡ none) × ((a : Ack) → ¬ IsAck h options a))
      ⊎ ((a : Ack) × (read_ack (some (h, options)) ≡ some a) × IsAck h options a)
read_ack_cases h options = elim (has_message_cases MessageType.ack is_ack-Tests options) [
  | inr (e, without) ↦ inl (rw e refl, λ a c. without c.0)
  | inl (e, yes_here) ↦ inr (
    (find_map broadcast_of options, find_map subnet_of options),
    rw e refl,
    (
      yes_here,
      find_map-FirstIs broadcast_of DhcpOption.broadcast_ip broadcast_of-Takes options,
      find_map-FirstIs subnet_of DhcpOption.subnet_mask subnet_of-Takes options,
    ),
  )
]
