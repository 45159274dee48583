-- ===== src/Tests/Net.antt =====
-- kernel/src/net.rs on a small message.
use chocolate_milk.Base.{
  zero, suc, ◌≤◌, refl, subst, Option, none, some, ◌⊎◌, ℕ, ◌+◌, ◌≡◌, arith, List, [], ◌∷◌, length,
  replicate, length-replicate,
}
use chocolate_milk.Base.Outcome.{ok}
use chocolate_milk.Base.Parsed.{found, absent}
use chocolate_milk.Net.{Mac, Packet, Udp, udp, copy_at, create_udp_raw}
use chocolate_milk.Net.Device.{Driver, NetDevice, recv_udp}
use chocolate_milk.Net.Device.Routing.{Received, recv_udp-IsRouted}
use chocolate_milk.Net.NoPanic.{IsWithin, udp-IsWithin}
use chocolate_milk.Net.RoundTrip.{sent_udp, udp-create_udp_raw}

abbrev pub client_mac : Mac
client_mac = record { b0 = 0x52; b1 = 0x54; b2 = 0; b3 = 0x12; b4 = 0x34; b5 = 0x56 }

abbrev pub broadcast : Mac
broadcast = record { b0 = 255; b1 = 255; b2 = 255; b3 = 255; b4 = 255; b5 = 255 }

pub blank : Packet
blank = record { bytes = replicate 4096 0; size = 0 }

abbrev hello : List ℕ
hello = b'h' ∷ b'e' ∷ b'l' ∷ b'l' ∷ b'o' ∷ []

pub blank_full : length blank.bytes ≡ 4096
unfolding blank
blank_full = length-replicate {A = ℕ} 4096 0

udp-create_udp_raw_example :
    (p' : Packet) × (create_udp_raw blank client_mac broadcast 0 0xffff_ffff 68 67 (length hello)
      ≡ ok (42, p'))
    × (p'.size ≡ 42 + length hello)
    × (udp (record p' { bytes = copy_at 42 hello p'.bytes })
        ≡ found (sent_udp client_mac broadcast 0 0xffff_ffff 68 67 (length hello) hello))
udp-create_udp_raw_example =
    udp-create_udp_raw blank client_mac broadcast 0 0xffff_ffff 68 67 hello blank_full (omega arith)
      (omega arith) (omega arith) (omega arith) (omega arith)

-- A frame of 64 zeros.
abbrev zeros : Packet
zeros = record { bytes = replicate 64 0; size = 64 }

udp-IsWithin_example : (udp zeros ≡ absent) ⊎ ((u : Udp) × (udp zeros ≡ found u) × IsWithin u)
udp-IsWithin_example = udp-IsWithin zeros (omega arith)

-- A driver that delivers the frame of zeros as often as its state says.
abbrev zero_recv : ℕ → Option Packet × ℕ
zero_recv zero = (none, 0)
zero_recv (suc n) = (some zeros, n)

abbrev zero_driver : Driver ℕ
zero_driver = record { recv = zero_recv; release_packet = λ d p. d }

abbrev FitsOption : Option Packet → Type 0
FitsOption none = Unit
FitsOption (some p) = p.size ≤ length p.bytes

zero_fits : (d : ℕ) → FitsOption (zero_recv d).0
zero_fits zero = tt
zero_fits (suc n) = omega arith

abbrev payload_length : Packet → Udp → Option ℕ
payload_length p u = some (length u.payload)

abbrev listening : NetDevice ℕ
listening = record { driver = 3; udp_binds = (53, []) ∷ (68, []) ∷ [] }

recv_udp-IsRouted_example :
    Received zero_driver 68 payload_length (recv_udp zero_driver 68 payload_length listening)
recv_udp-IsRouted_example =
    recv_udp-IsRouted zero_driver 68 payload_length listening []
      (λ d p e. subst FitsOption e (zero_fits d)) refl (tt, (tt, tt))
