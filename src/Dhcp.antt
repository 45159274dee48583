-- ===== src/Dhcp.antt =====
-- kernel/src/dhcp.rs: the options, their parser and their writer.
pub mod Message
pub mod Lease
pub mod Loop
pub mod Options
use package.chocolate_milk.Base.{
  ℕ, zero, suc, ◌+◌, ◌-◌, ◌*◌, ◌/◌, ◌%◌, ◌^◌, Bool, true, false, not, ◌||◌, leb, ◌==◌,
}
use package.chocolate_milk.Base.{
  if◌then◌else◌, Option, none, some, List, [], ◌∷◌, ◌++◌, length, get_elem?, replicate,
}
use package.chocolate_milk.Base.Bytes.{
  take?, drop?, slice, to_be_32, to_le_32, from_be_32, from_le_16, from_le_32,
}
use package.chocolate_milk.Base.Parsed.{Parsed, found, absent, panicked, try, checked, ◌>>=◌}
use package.chocolate_milk.Base.Outcome
use package.chocolate_milk.Base.Outcome.{Outcome, ok, panic, out_of_fuel}
use package.chocolate_milk.Net.{Mac, mac_bytes, Udp, Packet, copy_at, create_udp_raw}

pub data MessageType : Type 0 where
  discover : MessageType
  offer : MessageType
  request : MessageType
  ack : MessageType
  invalid : MessageType

-- `val.into()`
pub message_type : ℕ → MessageType
message_type val =
    if val == 1
    then MessageType.discover
    else if val == 2
    then MessageType.offer
    else if val == 3
    then MessageType.request
    else if val == 5
    then MessageType.ack
    else MessageType.invalid

-- `typ as u8`
pub message_code : MessageType → ℕ
message_code MessageType.discover = 1
message_code MessageType.offer = 2
message_code MessageType.request = 3
message_code MessageType.ack = 5
message_code MessageType.invalid = 0xff

pub data DhcpOption : Type 0 where
  subnet_mask : ℕ → DhcpOption
  broadcast_ip : ℕ → DhcpOption
  requested_ip : ℕ → DhcpOption
  lease_time : ℕ → DhcpOption
  message : MessageType → DhcpOption
  server_ip : ℕ → DhcpOption
  parameter_request_list : List ℕ → DhcpOption
  renewal_time : ℕ → DhcpOption
  unknown : ℕ → List ℕ → DhcpOption
  end_of_list : DhcpOption

-- `u32::from_be_bytes(payload.try_into().ok()?)` under a constructor, and the same for one byte.
abbrev pub word_option : (ℕ → DhcpOption) → Option ℕ → Option DhcpOption
word_option make none = none
word_option make (some x) = some (make x)

abbrev byte_option : List ℕ → Option DhcpOption
byte_option (b ∷ []) = some (DhcpOption.message (message_type b))
byte_option _ = none

-- The `match` on the code, without the arm of `End`.
pub option_of : ℕ → List ℕ → Option DhcpOption
option_of code payload =
    let word = from_be_32 payload in
    if code == 1
    then word_option DhcpOption.subnet_mask word
    else if code == 28
    then word_option DhcpOption.broadcast_ip word
    else if code == 50
    then word_option DhcpOption.requested_ip word
    else if code == 51
    then word_option DhcpOption.lease_time word
    else if code == 53
    then byte_option payload
    else if code == 54
    then word_option DhcpOption.server_ip word
    else if code == 55
    then some (DhcpOption.parameter_request_list payload)
    else if code == 58
    then word_option DhcpOption.renewal_time word
    else some (DhcpOption.unknown code payload)

-- The option with its payload, and the pointer moved past both; all bytes are gone after `End`.
abbrev consumed : ℕ → ℕ → List ℕ → List ℕ → Parsed (DhcpOption × List ℕ)
consumed code len payload ptr = if code == 255 then found (DhcpOption.end_of_list, []) else (do
  option ← try (option_of code payload)
  rest ← checked (drop? (2 + len) ptr)
  found (option, rest))

-- The option at the start of the bytes, and the bytes behind it.
pub parse : List ℕ → Parsed (DhcpOption × List ℕ)
parse ptr = do
  code ← try (get_elem? ptr 0)
  len ← try (get_elem? ptr 1)
  payload ← try (slice 2 (2 + len) ptr)
  consumed code len payload ptr

abbrev with_length : ℕ → List ℕ → List ℕ → Outcome (List ℕ)
with_length code payload buffer =
    if leb (length payload) 255 then ok (buffer ++ (code ∷ length payload ∷ payload)) else panic

abbrev with_word : ℕ → ℕ → List ℕ → Outcome (List ℕ)
with_word code x buffer = ok (buffer ++ (code ∷ 4 ∷ to_be_32 x))

-- The buffer with the option appended.
pub serialize : DhcpOption → List ℕ → Outcome (List ℕ)
serialize (DhcpOption.subnet_mask mask) buffer = with_word 1 mask buffer
serialize (DhcpOption.broadcast_ip addr) buffer = with_word 28 addr buffer
serialize (DhcpOption.requested_ip addr) buffer = with_word 50 addr buffer
serialize (DhcpOption.lease_time time) buffer = with_word 51 time buffer
serialize (DhcpOption.message typ) buffer = ok (buffer ++ (53 ∷ 1 ∷ message_code typ ∷ []))
serialize (DhcpOption.server_ip addr) buffer = with_word 54 addr buffer
serialize (DhcpOption.parameter_request_list params) buffer = with_length 55 params buffer
serialize (DhcpOption.renewal_time time) buffer = with_word 58 time buffer
serialize (DhcpOption.unknown typ payload) buffer = with_length typ payload buffer
serialize DhcpOption.end_of_list buffer = ok (buffer ++ (255 ∷ []))

-- The loop of `parse_dhcp_packet`, after one call of `parse`.
abbrev next :
    Parsed (DhcpOption × List ℕ) → (List ℕ → Outcome (List DhcpOption)) → Outcome (List DhcpOption)
next absent again = ok []
next panicked again = panic
next (found (option, rest)) again = Outcome.map (λ options. option ∷ options) (again rest)

pub parse_options : ℕ → List ℕ → Outcome (List DhcpOption)
parse_options fuel [] = ok []
parse_options zero (b ∷ bytes) = out_of_fuel
parse_options (suc fuel) (b ∷ bytes) = next (parse (b ∷ bytes)) (parse_options fuel)

-- The calls of `serialize` that `get_lease` makes one after the other.
pub serialize_all : List DhcpOption → List ℕ → Outcome (List ℕ)
serialize_all [] buffer = ok buffer
serialize_all (o ∷ options) buffer = Outcome.◌>>=◌ (serialize o buffer) (serialize_all options)
