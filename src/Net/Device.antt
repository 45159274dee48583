-- ===== src/Net/Device.antt =====
-- kernel/src/net.rs: the network device, its binds of UDP ports and their queues of packets. The
-- driver is an interface; the locks are held for the whole of each operation, which is one step.
pub mod Routing
use chocolate_milk.Base.{ℕ, ◌==◌, if◌then◌else◌, Option, none, some, List, [], ◌∷◌, ◌++◌}
use chocolate_milk.Base.Outcome.{Outcome, ok, panic, unwrap, ◌>>=◌}
use chocolate_milk.Base.Parsed.{Parsed, found, absent, panicked}
use chocolate_milk.Net.{Packet, Udp, udp}

-- What the device uses of a `NetDriver`, on the driver's state.
pub record Driver (D : Type 0) : Type 0 where
  pub recv : D → Option Packet × D
  pub release_packet : D → Packet → D

-- `udp_binds` as an association list.
pub record NetDevice (D : Type 0) : Type 0 where
  pub driver : D
  pub udp_binds : List (ℕ × List Packet)

abbrev pub get : ℕ → List (ℕ × List Packet) → Option (List Packet)
get port [] = none
get port ((p, queue) ∷ binds) = if p == port then some queue else get port binds

abbrev pub put : ℕ → List Packet → List (ℕ × List Packet) → List (ℕ × List Packet)
put port new [] = []
put port new ((p, queue) ∷ binds) =
    if p == port then (p, new) ∷ binds else (p, queue) ∷ put port new binds

abbrev pub erase : ℕ → List (ℕ × List Packet) → List (ℕ × List Packet)
erase port [] = []
erase port ((p, queue) ∷ binds) = if p == port then binds else (p, queue) ∷ erase port binds

module _ {D : Type 0} (drv : Driver D) where
  -- The port, when nobody listens on it yet.
  pub bind_udp : NetDevice D → ℕ → Option ℕ × NetDevice D
  bind_udp dev port = elim (get port dev.udp_binds) [
    | none ↦ (some port, record dev { udp_binds = (port, []) ∷ dev.udp_binds })
    | some queue ↦ (none, dev)
  ]

  abbrev pub release_all : D → List Packet → D
  release_all d [] = d
  release_all d (p ∷ packets) = release_all (drv.release_packet d p) packets

  pub unbind_udp : NetDevice D → ℕ → Outcome (NetDevice D)
  unbind_udp dev port = unwrap (get port dev.udp_binds) >>= λ queue.
      ok (record { driver = release_all dev.driver queue; udp_binds = erase port dev.udp_binds })

  module _ {T : Type 0} (port : ℕ) (func : Packet → Udp → Option T) where
    -- A queued packet: `packet.udp().unwrap()`, and the packet back to the driver.
    abbrev pub from_queue :
        NetDevice D → Packet → List Packet → Parsed Udp → Outcome (Option T × NetDevice D)
    from_queue dev packet queue (found u) = ok (
      func packet u,
      record {
        driver = drv.release_packet dev.driver packet;
        udp_binds = put port queue dev.udp_binds;
      },
    )
    from_queue dev packet queue absent = panic
    from_queue dev packet queue panicked = panic

    -- A packet for another port: kept when somebody listens there.
    abbrev pub routed : D → List (ℕ × List Packet) → Packet → ℕ → Option (List Packet) → NetDevice D
    routed d binds packet dst none = record {
      driver = drv.release_packet d packet;
      udp_binds = binds;
    }
    routed d binds packet dst (some queue) = record {
      driver = d;
      udp_binds = put dst (queue ++ (packet ∷ [])) binds;
    }

    -- A packet from the driver; a lease that is dropped gives the packet back.
    abbrev pub from_driver :
        D → List (ℕ × List Packet) → Packet → Parsed Udp → Outcome (Option T × NetDevice D)
    from_driver d binds packet (found u) =
        if u.dst_port == port
        then ok (func packet u, record { driver = drv.release_packet d packet; udp_binds = binds })
        else ok (none, routed d binds packet u.dst_port (get u.dst_port binds))
    from_driver d binds packet absent =
        ok (none, record { driver = drv.release_packet d packet; udp_binds = binds })
    from_driver d binds packet panicked = panic

    abbrev pub received :
        List (ℕ × List Packet) → Option Packet × D → Outcome (Option T × NetDevice D)
    received binds (none, d) = ok (none, record { driver = d; udp_binds = binds })
    received binds (some packet, d) = from_driver d binds packet (udp packet)

    abbrev pub recv_from : NetDevice D → List Packet → Outcome (Option T × NetDevice D)
    recv_from dev (packet ∷ queue) = from_queue dev packet queue (udp packet)
    recv_from dev [] = received dev.udp_binds (drv.recv dev.driver)

    pub recv_udp : NetDevice D → Outcome (Option T × NetDevice D)
    recv_udp dev = unwrap (get port dev.udp_binds) >>= recv_from dev
