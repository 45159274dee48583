-- ===== src/Dhcp/Lease/Kinds.antt =====
-- kernel/src/dhcp.rs: the options of one kind in a message, and how `get_lease` looks for them.
use chocolate_milk.Base.{ℕ, ◌≡◌, ◌≢◌, ◌⊎◌, inl, inr, refl, ap, subst, arith, Bool}
use chocolate_milk.Base.{true, false, Option, none, some, List, [], ◌∷◌, ◌++◌, ◌==◌}
use chocolate_milk.Dhcp.{MessageType, DhcpOption, message_code}
use chocolate_milk.Dhcp.Lease.{
  is_message, has_message, find_map, server_of, broadcast_of, subnet_of,
}

abbrev pub Has : DhcpOption → List DhcpOption → Type 0
Has o [] = ⊥
Has o (p ∷ options) = (p ≡ o) ⊎ Has o options

-- The value of the first option of a kind, if there is one.
abbrev pub FirstIs : (ℕ → DhcpOption) → List DhcpOption → Option ℕ → Type 0
FirstIs kind options none = (x : ℕ) → ¬ Has (kind x) options
FirstIs kind options (some x) =
    (before : List DhcpOption) × (after : List DhcpOption) × (options ≡ before ++ (kind x ∷ after))
    × ((y : ℕ) → ¬ Has (kind y) before)

-- A closure of `find_map` that takes the options of one kind.
abbrev Takes : (DhcpOption → Option ℕ) → (ℕ → DhcpOption) → Type 0
Takes f kind =
    (o : DhcpOption)
    → ((f o ≡ none) × ((y : ℕ) → o ≢ kind y)) ⊎ ((x : ℕ) × (f o ≡ some x) × (o ≡ kind x))

module _ (f : DhcpOption → Option ℕ) (kind : ℕ → DhcpOption) (takes : Takes f kind) where
  FirstIs-behind :
      (o : DhcpOption) (options : List DhcpOption) (m : Option ℕ)
      → ((y : ℕ) → o ≢ kind y)
      → FirstIs kind options m
      → FirstIs kind (o ∷ options) m
  FirstIs-behind o options none other h =
      λ x c. elim c [ inl here ↦ other x here | inr later ↦ h x later ]
  FirstIs-behind o options (some x) other (before, after, same, free) = (
    o ∷ before,
    after,
    ap (◌∷◌ o) same,
    λ y c. elim c [ inl here ↦ other y here | inr later ↦ free y later ],
  )

  find_map_behind :
      (o : DhcpOption) (options : List DhcpOption)
      → f o ≡ none
      → find_map f options ≡ find_map f (o ∷ options)
  unfolding find_map
  find_map_behind o options e = ground (arith, e)

  find_map_here :
      (o : DhcpOption) (options : List DhcpOption) {x : ℕ}
      → f o ≡ some x
      → some x ≡ find_map f (o ∷ options)
  unfolding find_map
  find_map_here o options e = ground (arith, e)

  pub find_map-FirstIs : (options : List DhcpOption) → FirstIs kind options (find_map f options)
  unfolding find_map
  find_map-FirstIs [] = λ x c. c
  find_map-FirstIs (o ∷ options) = elim (takes o) [
    | inl (e, other) ↦
        let skip = find_map_behind o options e in
        subst (FirstIs kind (o ∷ options)) skip
          (FirstIs-behind o options (find_map f options) other (find_map-FirstIs options))
    | inr (x, e, same) ↦
        let take = find_map_here o options e in
        subst (FirstIs kind (o ∷ options)) take
          ([], options, ap (λ (p : DhcpOption). p ∷ options) same, λ y c. c)
  ]

pub server_of-Takes : Takes server_of DhcpOption.server_ip
server_of-Takes (DhcpOption.server_ip x) = inr (x, refl, refl)
server_of-Takes (DhcpOption.subnet_mask x) = inl (refl, λ y e. cc)
server_of-Takes (DhcpOption.broadcast_ip x) = inl (refl, λ y e. cc)
server_of-Takes (DhcpOption.requested_ip x) = inl (refl, λ y e. cc)
server_of-Takes (DhcpOption.lease_time x) = inl (refl, λ y e. cc)
server_of-Takes (DhcpOption.message x) = inl (refl, λ y e. cc)
server_of-Takes (DhcpOption.parameter_request_list x) = inl (refl, λ y e. cc)
server_of-Takes (DhcpOption.renewal_time x) = inl (refl, λ y e. cc)
server_of-Takes (DhcpOption.unknown x z) = inl (refl, λ y e. cc)
server_of-Takes DhcpOption.end_of_list = inl (refl, λ y e. cc)

pub broadcast_of-Takes : Takes broadcast_of DhcpOption.broadcast_ip
broadcast_of-Takes (DhcpOption.broadcast_ip x) = inr (x, refl, refl)
broadcast_of-Takes (DhcpOption.subnet_mask x) = inl (refl, λ y e. cc)
broadcast_of-Takes (DhcpOption.server_ip x) = inl (refl, λ y e. cc)
broadcast_of-Takes (DhcpOption.requested_ip x) = inl (refl, λ y e. cc)
broadcast_of-Takes (DhcpOption.lease_time x) = inl (refl, λ y e. cc)
broadcast_of-Takes (DhcpOption.message x) = inl (refl, λ y e. cc)
broadcast_of-Takes (DhcpOption.parameter_request_list x) = inl (refl, λ y e. cc)
broadcast_of-Takes (DhcpOption.renewal_time x) = inl (refl, λ y e. cc)
broadcast_of-Takes (DhcpOption.unknown x z) = inl (refl, λ y e. cc)
broadcast_of-Takes DhcpOption.end_of_list = inl (refl, λ y e. cc)

pub subnet_of-Takes : Takes subnet_of DhcpOption.subnet_mask
subnet_of-Takes (DhcpOption.subnet_mask x) = inr (x, refl, refl)
subnet_of-Takes (DhcpOption.broadcast_ip x) = inl (refl, λ y e. cc)
subnet_of-Takes (DhcpOption.server_ip x) = inl (refl, λ y e. cc)
subnet_of-Takes (DhcpOption.requested_ip x) = inl (refl, λ y e. cc)
subnet_of-Takes (DhcpOption.lease_time x) = inl (refl, λ y e. cc)
subnet_of-Takes (DhcpOption.message x) = inl (refl, λ y e. cc)
subnet_of-Takes (DhcpOption.parameter_request_list x) = inl (refl, λ y e. cc)
subnet_of-Takes (DhcpOption.renewal_time x) = inl (refl, λ y e. cc)
subnet_of-Takes (DhcpOption.unknown x z) = inl (refl, λ y e. cc)
subnet_of-Takes DhcpOption.end_of_list = inl (refl, λ y e. cc)

-- A test for one kind of message.
abbrev Tests : (DhcpOption → Bool) → DhcpOption → Type 0
Tests f wanted = (o : DhcpOption) → ((f o ≡ true) × (o ≡ wanted)) ⊎ ((f o ≡ false) × (o ≢ wanted))

is_message-Tests :
    (t : MessageType)
    → ((u : MessageType)
        → ((message_code u == message_code t) ≡ true) × (u ≡ t)
          ⊎ ((message_code u == message_code t) ≡ false) × (u ≢ t))
    → Tests (is_message t) (DhcpOption.message t)
is_message-Tests t codes (DhcpOption.message u) = elim (codes u) [
  | inl (e, same) ↦ inl (e, ap DhcpOption.message same)
  | inr (e, other) ↦ inr (e, λ same. let equal : u ≡ t = cc in other equal)
]
is_message-Tests t codes (DhcpOption.subnet_mask x) = inr (refl, λ e. cc)
is_message-Tests t codes (DhcpOption.broadcast_ip x) = inr (refl, λ e. cc)
is_message-Tests t codes (DhcpOption.server_ip x) = inr (refl, λ e. cc)
is_message-Tests t codes (DhcpOption.requested_ip x) = inr (refl, λ e. cc)
is_message-Tests t codes (DhcpOption.lease_time x) = inr (refl, λ e. cc)
is_message-Tests t codes (DhcpOption.parameter_request_list x) = inr (refl, λ e. cc)
is_message-Tests t codes (DhcpOption.renewal_time x) = inr (refl, λ e. cc)
is_message-Tests t codes (DhcpOption.unknown x z) = inr (refl, λ e. cc)
is_message-Tests t codes DhcpOption.end_of_list = inr (refl, λ e. cc)

pub is_offer-Tests : Tests (is_message MessageType.offer) (DhcpOption.message MessageType.offer)
unfolding message_code
is_offer-Tests = is_message-Tests MessageType.offer codes
  where
    codes :
        (u : MessageType)
        → ((message_code u == 2) ≡ true) × (u ≡ MessageType.offer)
          ⊎ ((message_code u == 2) ≡ false) × (u ≢ MessageType.offer)
    codes MessageType.offer = inl (refl, refl)
    codes MessageType.discover = inr (refl, λ e. cc)
    codes MessageType.request = inr (refl, λ e. cc)
    codes MessageType.ack = inr (refl, λ e. cc)
    codes MessageType.invalid = inr (refl, λ e. cc)

pub is_ack-Tests : Tests (is_message MessageType.ack) (DhcpOption.message MessageType.ack)
unfolding message_code
is_ack-Tests = is_message-Tests MessageType.ack codes
  where
    codes :
        (u : MessageType)
        → ((message_code u == 5) ≡ true) × (u ≡ MessageType.ack)
          ⊎ ((message_code u == 5) ≡ false) × (u ≢ MessageType.ack)
    codes MessageType.ack = inl (refl, refl)
    codes MessageType.discover = inr (refl, λ e. cc)
    codes MessageType.request = inr (refl, λ e. cc)
    codes MessageType.offer = inr (refl, λ e. cc)
    codes MessageType.invalid = inr (refl, λ e. cc)

pub has_message_cases :
    (t : MessageType)
    → Tests (is_message t) (DhcpOption.message t)
    → (options : List DhcpOption)
    → ((has_message t options ≡ true) × Has (DhcpOption.message t) options)
      ⊎ ((has_message t options ≡ false) × (¬ Has (DhcpOption.message t) options))
unfolding has_message
has_message_cases t tests [] = inr (refl, λ c. c)
has_message_cases t tests (o ∷ options) = elim (tests o) [
  | inl (e, same) ↦ inl (rw e refl, inl same)
  | inr (e, other) ↦ elim (has_message_cases t tests options) [
    | inl (f, later) ↦ inl (rw (e, f) refl, inr later)
    | inr (f, nowhere) ↦
        inr (rw (e, f) refl, λ c. elim c [ inl here ↦ other here | inr later ↦ nowhere later ])
  ]
]
