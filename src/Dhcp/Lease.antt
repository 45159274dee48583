-- ===== src/Dhcp/Lease.antt =====
-- kernel/src/dhcp.rs: `get_lease` over the UDP packets that arrive on port 68. The two packets that
-- the driver allocates and the time stamp are arguments; a wait that the packets do not end shows
-- as a state of its own.
pub mod Exchange
pub mod Kinds
pub mod Reading
use chocolate_milk.Base.{
  ℕ, Bool, true, false, not, ◌&&◌, ◌==◌, if◌then◌else◌, Option, none, some, List, [], ◌∷◌,
}
use chocolate_milk.Base.Outcome.{Outcome, ok, ◌>>=◌}
use chocolate_milk.Net.{Mac, Udp, Packet}
use chocolate_milk.Dhcp.{MessageType, message_code, DhcpOption, serialize_all}
use chocolate_milk.Dhcp.Message.{Header, swap_32, parse_dhcp_packet, create_dhcp_packet}

pub record Lease : Type 0 where
  pub client_ip : ℕ
  pub server_ip : ℕ
  pub broadcast_ip : Option ℕ
  pub subnet_mask : Option ℕ

abbrev pub same_mac : Mac → Mac → Bool
same_mac m n =
    (m.b0 == n.b0)
    && ((m.b1 == n.b1)
        && ((m.b2 == n.b2) && ((m.b3 == n.b3) && ((m.b4 == n.b4) && (m.b5 == n.b5)))))

abbrev pub is_message : MessageType → DhcpOption → Bool
is_message t (DhcpOption.message u) = message_code u == message_code t
is_message t _ = false

-- `options.iter().find(|x| x == &&DhcpOption::MessageType(t))?`
pub has_message : MessageType → List DhcpOption → Bool
has_message t [] = false
has_message t (o ∷ options) = if is_message t o then true else has_message t options

-- `options.iter().find_map(...)`: the first option that the closure accepts.
pub find_map : (DhcpOption → Option ℕ) → List DhcpOption → Option ℕ
find_map f [] = none
find_map f (o ∷ options) = elim (f o) [ none ↦ find_map f options | some x ↦ some x ]

abbrev pub server_of : DhcpOption → Option ℕ
server_of (DhcpOption.server_ip x) = some x
server_of _ = none

abbrev pub broadcast_of : DhcpOption → Option ℕ
broadcast_of (DhcpOption.broadcast_ip x) = some x
broadcast_of _ = none

abbrev pub subnet_of : DhcpOption → Option ℕ
subnet_of (DhcpOption.subnet_mask x) = some x
subnet_of _ = none

-- What a closure saves: the offered address and the server's, or the two options of the lease.
abbrev pub Offer : Type 0
Offer = ℕ × Option ℕ

abbrev pub Ack : Type 0
Ack = Option ℕ × Option ℕ

abbrev pub read_offer : Option (Header × List DhcpOption) → Option Offer
read_offer none = none
read_offer (some (h, options)) =
    if has_message MessageType.offer options
    then some (swap_32 h.yiaddr, find_map server_of options)
    else none

abbrev pub read_ack : Option (Header × List DhcpOption) → Option Ack
read_ack none = none
read_ack (some (h, options)) =
    if has_message MessageType.ack options
    then some (find_map broadcast_of options, find_map subnet_of options)
    else none

-- A closure of `bind.recv`: the destination first, then the DHCP packet.
pub handle {ℓ} :
    {A : Type ℓ}
    → (Option (Header × List DhcpOption) → Option A)
    → ℕ
    → Mac
    → Udp
    → Outcome (Option A)
handle read xid mac udp =
    if not (same_mac udp.ip.eth.dst_mac mac)
    then ok none
    else (parse_dhcp_packet xid udp >>= λ m. ok (read m))

pub data Wait (A : Type 0) : Type 0 where
  got : A → List Udp → Wait A
  waiting : Wait A

abbrev pub resume : {A : Type 0} → Option A → List Udp → Outcome (Wait A) → Outcome (Wait A)
resume (some a) rest again = ok (Wait.got a rest)
resume none rest again = again

-- `while bind.recv(...).is_none() {}`
pub wait : {A : Type 0} → (Udp → Outcome (Option A)) → List Udp → Outcome (Wait A)
wait closure [] = ok Wait.waiting
wait closure (u ∷ received) = closure u >>= λ r. resume r received (wait closure received)

abbrev pub discover_options : List DhcpOption
discover_options =
    DhcpOption.message MessageType.discover
    ∷ DhcpOption.parameter_request_list (53 ∷ 54 ∷ [])
    ∷ DhcpOption.end_of_list
    ∷ []

abbrev pub request_options : ℕ → ℕ → List DhcpOption
request_options offer_ip server_ip =
    DhcpOption.message MessageType.request
    ∷ DhcpOption.requested_ip offer_ip
    ∷ DhcpOption.server_ip server_ip
    ∷ DhcpOption.parameter_request_list (53 ∷ 28 ∷ 1 ∷ [])
    ∷ DhcpOption.end_of_list
    ∷ []

-- How far the exchange came, with the packets sent.
pub data Progress : Type 0 where
  awaits_offer : Packet → Progress
  no_server : Packet → Progress
  awaits_ack : Packet → Packet → Progress
  leased : Packet → Packet → Lease → Progress

abbrev pub acked : Packet → Packet → ℕ → ℕ → Wait Ack → Progress
acked sent sent' offer_ip server_ip Wait.waiting = Progress.awaits_ack sent sent'
acked sent sent' offer_ip server_ip (Wait.got (broadcast_ip, subnet_mask) rest) =
    Progress.leased sent sent' (record {
      client_ip = offer_ip;
      server_ip = server_ip;
      broadcast_ip = broadcast_ip;
      subnet_mask = subnet_mask;
    })

-- From the offer on: the request and the acknowledgement.
pub offered : ℕ → Mac → Packet → Packet → Wait Offer → Outcome Progress
offered xid mac free sent Wait.waiting = ok (Progress.awaits_offer sent)
offered xid mac free sent (Wait.got (offer_ip, none) rest) = ok (Progress.no_server sent)
offered xid mac free sent (Wait.got (offer_ip, some server_ip) rest) = do
  options ← serialize_all (request_options offer_ip server_ip) []
  sent' ← create_dhcp_packet free xid mac options
  r ← wait (handle read_ack xid mac) rest
  ok (acked sent sent' offer_ip server_ip r)

pub get_lease : ℕ → Mac → Packet → Packet → List Udp → Outcome Progress
get_lease xid mac free free' received = do
  options ← serialize_all discover_options []
  sent ← create_dhcp_packet free xid mac options
  r ← wait (handle read_offer xid mac) received
  offered xid mac free' sent r
