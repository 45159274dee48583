-- ===== src/Net/Device/Routing.antt =====
-- kernel/src/net.rs: the queues hold UDP packets of their port only, so that `recv_udp` can unwrap.
use chocolate_milk.Base.{
  ℕ, ◌≤◌, ◌≡◌, refl, sym, subst, ◌⊎◌, inl, inr, ◌==◌, Bool-cases, ==→≡, Option, none, some, List,
  [], ◌∷◌, ◌++◌, length,
}
use chocolate_milk.Base.Outcome.{Outcome, ok}
use chocolate_milk.Base.Parsed.{found}
use chocolate_milk.Net.{Packet, Udp, udp}
use chocolate_milk.Net.NoPanic.{udp-IsWithin}
use chocolate_milk.Net.Device.{Driver, NetDevice, get, put, routed, from_driver, received, recv_udp}

abbrev pub IsFor : ℕ → Packet → Type 0
IsFor port packet = (u : Udp) × (udp packet ≡ found u) × (u.dst_port ≡ port)

abbrev pub AllFor : ℕ → List Packet → Type 0
AllFor port [] = Unit
AllFor port (p ∷ queue) = IsFor port p × AllFor port queue

abbrev pub IsRouted : List (ℕ × List Packet) → Type 0
IsRouted [] = Unit
IsRouted ((port, queue) ∷ binds) = AllFor port queue × IsRouted binds

abbrev QueueFor : ℕ → Option (List Packet) → Type 0
QueueFor port none = Unit
QueueFor port (some queue) = AllFor port queue

get-QueueFor :
    (port : ℕ) (binds : List (ℕ × List Packet)) → IsRouted binds → QueueFor port (get port binds)
get-QueueFor port [] h = tt
get-QueueFor port ((p, q) ∷ binds) h = elim (Bool-cases (p == port)) [
  | inl same ↦ rw same (subst (λ t. AllFor t q) (==→≡ p port same) h.0)
  | inr other ↦ rw other (get-QueueFor port binds h.1)
]

put-IsRouted :
    (port : ℕ) (new : List Packet) (binds : List (ℕ × List Packet))
    → IsRouted binds
    → AllFor port new
    → IsRouted (put port new binds)
put-IsRouted port new [] h a = tt
put-IsRouted port new ((p, q) ∷ binds) h a = elim (Bool-cases (p == port)) [
  | inl same ↦ rw same (subst (λ t. AllFor t new) (sym (==→≡ p port same)) a, h.1)
  | inr other ↦ rw other (h.0, put-IsRouted port new binds h.1 a)
]

append-AllFor :
    (port : ℕ) (queue : List Packet) (p : Packet)
    → AllFor port queue
    → IsFor port p
    → AllFor port (queue ++ (p ∷ []))
append-AllFor port [] p h i = (i, tt)
append-AllFor port (q ∷ queue) p (f, h) i = (f, append-AllFor port queue p h i)

module _ {D T : Type 0} (drv : Driver D) (port : ℕ) (func : Packet → Udp → Option T) where
  -- What the caller gets: nothing, or what the closure says of a UDP packet for the port.
  abbrev pub IsAnswered : Option T → Type 0
  IsAnswered r =
      (r ≡ none)
      ⊎ ((p : Packet) × (u : Udp) × (udp p ≡ found u) × (u.dst_port ≡ port) × (r ≡ func p u))

  abbrev pub Received : Outcome (Option T × NetDevice D) → Type 0
  Received m =
      (r : Option T) × (dev : NetDevice D) × (m ≡ ok (r, dev))
      × IsRouted dev.udp_binds
      × IsAnswered r

  routed-IsRouted :
      (d : D) (binds : List (ℕ × List Packet)) (p : Packet) (dst : ℕ) (q : Option (List Packet))
      → IsRouted binds
      → IsFor dst p
      → QueueFor dst q
      → IsRouted (routed drv port func d binds p dst q).udp_binds
  routed-IsRouted d binds p dst none h i a = h
  routed-IsRouted d binds p dst (some q) h i a =
      put-IsRouted dst (q ++ (p ∷ [])) binds h (append-AllFor dst q p a i)

  from_driver-Received :
      (d : D) (binds : List (ℕ × List Packet)) (p : Packet)
      → IsRouted binds
      → p.size ≤ length p.bytes
      → Received (from_driver drv port func d binds p (udp p))
  from_driver-Received d binds p h fits = elim (udp-IsWithin p fits) [
    | inl e ↦
        rw e
          (none, record { driver = drv.release_packet d p; udp_binds = binds }, refl, h, inl refl)
    | inr (u, e, _) ↦ elim (Bool-cases (u.dst_port == port)) [
      | inl ours ↦
          rw (e, ours)
            (
              func p u,
              record { driver = drv.release_packet d p; udp_binds = binds },
              refl,
              h,
              inr (p, u, e, ==→≡ u.dst_port port ours, refl),
            )
      | inr other ↦
          rw (e, other)
            (
              none,
              routed drv port func d binds p u.dst_port (get u.dst_port binds),
              refl,
              routed-IsRouted d binds p u.dst_port (get u.dst_port binds) h (u, e, refl)
                  (get-QueueFor u.dst_port binds h),
              inl refl,
            )
    ]
  ]

  received-Received :
      (binds : List (ℕ × List Packet)) (m : Option Packet × D)
      → IsRouted binds
      → ((p : Packet) → m.0 ≡ some p → p.size ≤ length p.bytes)
      → Received (received drv port func binds m)
  received-Received binds (none, d) h fits =
      (none, record { driver = d; udp_binds = binds }, refl, h, inl refl)
  received-Received binds (some p, d) h fits = from_driver-Received d binds p h (fits p refl)

  -- With a driver that delivers packets whose length is within their array, queues that hold UDP
  -- packets of their own port only, and somebody listening on the port, `recv_udp` does not panic;
  -- the queues are still of this kind, and the caller gets nothing, or what the closure says of a
  -- UDP packet for the port.
  pub recv_udp-IsRouted :
      (dev : NetDevice D) (queue : List Packet)
      → ((d : D) (p : Packet) → (drv.recv d).0 ≡ some p → p.size ≤ length p.bytes)
      → get port dev.udp_binds ≡ some queue
      → IsRouted dev.udp_binds
      → Received (recv_udp drv port func dev)
  unfolding recv_udp
  recv_udp-IsRouted dev [] fits bound h =
      rw bound (received-Received dev.udp_binds (drv.recv dev.driver) h (fits dev.driver))
  recv_udp-IsRouted dev (p ∷ queue) fits bound h =
      let a : AllFor port (p ∷ queue) =
        subst (QueueFor port) bound (get-QueueFor port dev.udp_binds h) in
      let (u, e, dst) = a.0 in
      rw (bound, e)
        (
          func p u,
          record {
            driver = drv.release_packet dev.driver p;
            udp_binds = put port queue dev.udp_binds;
          },
          refl,
          put-IsRouted port queue dev.udp_binds h a.1,
          inr (p, u, e, dst, refl),
        )
