-- ===== src/Dhcp/Lease/Exchange.antt =====
-- kernel/src/dhcp.rs: what `get_lease` has seen when it stops or waits, and that it never panics.
use chocolate_milk.Base.{ℕ, ◌≤◌, ◌<◌, ◌^◌, ◌≡◌, refl, ap, arith, ◌⊎◌, inl, inr}
use chocolate_milk.Base.{Option, none, some, List, [], ◌∷◌, ◌++◌, length}
use chocolate_milk.Base.Bytes.{to_be_32}
use chocolate_milk.Base.Outcome.{ok}
use chocolate_milk.Net.{Mac, Udp, Packet}
use chocolate_milk.Dhcp.{DhcpOption, message_code, serialize_all, serialize}
use chocolate_milk.Dhcp.Message.{Header, parse_dhcp_packet, create_dhcp_packet}
use chocolate_milk.Dhcp.Message.Accept.{IsReply, parse_dhcp_packet-IsReply}
use chocolate_milk.Dhcp.Message.Request.{parse_dhcp_packet-create_dhcp_packet}
use chocolate_milk.Dhcp.Lease.Reading.{
  IsSame, same_mac_cases, IsOffer, IsAck, read_offer_cases, read_ack_cases,
}
use chocolate_milk.Dhcp.Lease.{
  read_offer, read_ack, handle, Wait, wait, Progress, offered, get_lease, discover_options,
  request_options, Offer, Ack, acked,
}

module _ {A : Type 0} (Means : Header → List DhcpOption → A → Type 0) (xid : ℕ) (mac : Mac) where
  -- The message to this address that is a reply to the transaction and means `a`.
  abbrev pub IsAnswer : Udp → A → Type 0
  IsAnswer u a =
      (h : Header) × (options : List DhcpOption) × IsSame u.ip.eth.dst_mac mac
      × (parse_dhcp_packet xid u ≡ ok (some (h, options)))
      × IsReply xid h
      × Means h options a

  -- A packet for another address, one that is no reply, or a reply that means nothing here.
  abbrev pub IsIgnored : Udp → Type 0
  IsIgnored u =
      (¬ IsSame u.ip.eth.dst_mac mac)
      ⊎ (parse_dhcp_packet xid u ≡ ok none)
      ⊎ ((h : Header) × (options : List DhcpOption) × (parse_dhcp_packet xid u
            ≡ ok (some (h, options)))
          × ((a : A) → ¬ Means h options a))

  abbrev pub AllIgnored : List Udp → Type 0
  AllIgnored [] = Unit
  AllIgnored (u ∷ us) = IsIgnored u × AllIgnored us

  -- What the wait has passed over, and what ended it.
  abbrev pub Waited : List Udp → Wait A → Type 0
  Waited received Wait.waiting = AllIgnored received
  Waited received (Wait.got a rest) =
      (noise : List Udp) × (u : Udp) × (received ≡ noise ++ (u ∷ rest))
      × AllIgnored noise
      × IsAnswer u a

  module _ (read : Option (Header × List DhcpOption) → Option A) (nothing : read none ≡ none)
      (reads : (h : Header) (options : List DhcpOption)
        → ((read (some (h, options)) ≡ none) × ((a : A) → ¬ Means h options a))
          ⊎ ((a : A) × (read (some (h, options)) ≡ some a) × Means h options a)) where
    handled :
        (u : Udp)
        → ((handle read xid mac u ≡ ok none) × IsIgnored u)
          ⊎ ((a : A) × (handle read xid mac u ≡ ok (some a)) × IsAnswer u a)
    unfolding handle
    handled u = elim (same_mac_cases u.ip.eth.dst_mac mac) [
      | inr (e, other) ↦ inl (rw e refl, inl other)
      | inl (ours, same) ↦ elim (parse_dhcp_packet-IsReply xid u) [
        | inl e ↦ inl (rw (ours, e, nothing) refl, inr (inl e))
        | inr (h, options, e, reply, _) ↦ elim (reads h options) [
          | inl (r, means) ↦ inl (rw (ours, e, r) refl, inr (inr (h, options, e, means)))
          | inr (a, r, means) ↦ inr (a, rw (ours, e, r) refl, (h, options, same, e, reply, means))
        ]
      ]
    ]

    later : (u : Udp) (us : List Udp) (w : Wait A) → IsIgnored u → Waited us w → Waited (u ∷ us) w
    later u us Wait.waiting e h = (e, h)
    later u us (Wait.got a rest) e (noise, v, same, ignored, answer) =
        (u ∷ noise, v, ap (◌∷◌ u) same, (e, ignored), answer)

    wait-Waited :
        (received : List Udp)
        → (w : Wait A) × (wait (handle read xid mac) received ≡ ok w) × Waited received w
    unfolding wait
    wait-Waited [] = (Wait.waiting, refl, tt)
    wait-Waited (u ∷ received) =
        let (w, e, h) = wait-Waited received in
        elim (handled u) [
          | inl (skip, ignored) ↦ (w, rw (skip, e) refl, later u received w ignored h)
          | inr (a, take, answer) ↦ (Wait.got a received, rw take refl, ([], u, refl, tt, answer))
        ]

-- The options of the two messages on the wire.
discover_bytes : List ℕ
discover_bytes = 53 ∷ 1 ∷ 1 ∷ 55 ∷ 2 ∷ 53 ∷ 54 ∷ 255 ∷ []

serialize_all-discover : serialize_all discover_options [] ≡ ok discover_bytes
unfolding serialize_all serialize discover_bytes message_code
serialize_all-discover = refl

request_bytes : ℕ → ℕ → List ℕ
request_bytes ip server =
    53
    ∷ 1
    ∷ 3
    ∷ 50
    ∷ 4
    ∷ (to_be_32 ip ++ (54 ∷ 4 ∷ (to_be_32 server ++ (55 ∷ 3 ∷ 53 ∷ 28 ∷ 1 ∷ 255 ∷ []))))

serialize_all-request :
    (ip server : ℕ) → serialize_all (request_options ip server) [] ≡ ok (request_bytes ip server)
unfolding serialize_all serialize request_bytes message_code
serialize_all-request ip server = refl

discover_small : length discover_bytes ≤ 1232
unfolding discover_bytes
discover_small = omega arith

request_small : (ip server : ℕ) → length (request_bytes ip server) ≤ 1232
unfolding request_bytes
request_small ip server = omega arith

module _ (xid : ℕ) (mac : Mac) where
  -- The packets that explain how far the exchange came.
  abbrev pub Explains : List Udp → Progress → Type 0
  Explains received (Progress.awaits_offer sent) = AllIgnored IsOffer xid mac received
  Explains received (Progress.no_server sent) =
      (ip : ℕ) × (rest : List Udp) × Waited IsOffer xid mac received (Wait.got (ip, none) rest)
  Explains received (Progress.awaits_ack sent sent') =
      (ip : ℕ) × (server : ℕ) × (rest : List Udp) × Waited IsOffer xid mac received
        (Wait.got (ip, some server) rest)
      × AllIgnored IsAck xid mac rest
  Explains received (Progress.leased sent sent' l) =
      (rest : List Udp) × (rest' : List Udp) × Waited IsOffer xid mac received
        (Wait.got (l.client_ip, some l.server_ip) rest)
      × Waited IsAck xid mac rest (Wait.got (l.broadcast_ip, l.subnet_mask) rest')

  module _ (small : xid < 2 ^ 32) where
    sends :
        (free : Packet) (options : List ℕ)
        → length free.bytes ≡ 4096
        → length options ≤ 1232
        → (sent : Packet) × (create_dhcp_packet free xid mac options ≡ ok sent)
    sends free options full fits =
        let t = parse_dhcp_packet-create_dhcp_packet free xid mac options full small fits in
        (t.0, t.2)

    acked-Explains :
        (received rest : List Udp) (sent sent' : Packet) (ip server : ℕ) (w : Wait Ack)
        → Waited IsOffer xid mac received (Wait.got (ip, some server) rest)
        → Waited IsAck xid mac rest w
        → Explains received (acked sent sent' ip server w)
    acked-Explains received rest sent sent' ip server Wait.waiting before after =
        (ip, server, rest, before, after)
    acked-Explains received rest sent sent' ip server (Wait.got (b, s) rest') before after =
        (rest, rest', before, after)

    offered-Explains :
        (free sent : Packet) (received : List Udp) (w : Wait Offer)
        → length free.bytes ≡ 4096
        → Waited IsOffer xid mac received w
        → (p : Progress) × (offered xid mac free sent w ≡ ok p) × Explains received p
    unfolding offered
    offered-Explains free sent received Wait.waiting full h = (Progress.awaits_offer sent, refl, h)
    offered-Explains free sent received (Wait.got (ip, none) rest) full h =
        (Progress.no_server sent, refl, (ip, rest, h))
    offered-Explains free sent received (Wait.got (ip, some server) rest) full h =
        let (sent', made) = sends free (request_bytes ip server) full (request_small ip server) in
        let (w, e, after) = wait-Waited IsAck xid mac read_ack refl read_ack_cases rest in
        (
          acked sent sent' ip server w,
          rw (serialize_all-request ip server, made, e) refl,
          acked-Explains received rest sent sent' ip server w h after,
        )

  -- With two packets of 4096 bytes and any packets received on the port, `get_lease` does not panic,
  -- and its state is explained by them: it waits for an offer when every packet was ignored; it
  -- gives up when the first offer names no server; otherwise the first offer is followed by
  -- packets ignored so far, or by an acknowledgement that gives the lease. An offer or an
  -- acknowledgement is a message to this MAC address that `parse_dhcp_packet` accepts as a reply to
  -- the transaction and that has the option with its type; every other packet is ignored. The lease has
  -- the address in the header of the offer and its first server, and the first broadcast address and
  -- subnet mask of the acknowledgement.
  pub get_lease-Explains :
      (free free' : Packet) (received : List Udp)
      → xid < 2 ^ 32
      → length free.bytes ≡ 4096
      → length free'.bytes ≡ 4096
      → (p : Progress) × (get_lease xid mac free free' received ≡ ok p) × Explains received p
  unfolding get_lease
  get_lease-Explains free free' received small full full' =
      let (sent, made) = sends small free discover_bytes full discover_small in
      let (w, e, seen) = wait-Waited IsOffer xid mac read_offer refl read_offer_cases received in
      let (p, f, why) = offered-Explains small free' sent received w full' seen in
      (p, rw (serialize_all-discover, made, e) f, why)
