-- ===== src/Dhcp/Options.antt =====
-- kernel/src/dhcp.rs: the options that `serialize` writes are read back by `parse`.
use chocolate_milk.Base.{ℕ, suc, ◌+◌, ◌-◌, ◌^◌, ◌≤◌, ◌<◌, ◌==◌, ◌≡◌, refl, ap, ◌∙◌, arith}
use chocolate_milk.Base.{Bool, true, false, ◌||◌, leb, some, List, [], ◌∷◌, ◌++◌, length}
use chocolate_milk.Base.Bytes.{from_be_32, from_be_32-to_be, to_be_32, take?-append, drop?-append}
use chocolate_milk.Base.Parsed.{found}
use chocolate_milk.Base.Outcome.{ok}
use chocolate_milk.Dhcp.{
  MessageType, message_type, message_code, word_option, DhcpOption, option_of, parse, serialize,
}

-- The codes that `parse` gives a meaning, `End` among them.
abbrev pub is_known : ℕ → Bool
is_known code =
    (code == 1)
    || ((code == 28)
        || ((code == 50)
            || ((code == 51)
                || ((code == 53)
                    || ((code == 54) || ((code == 55) || ((code == 58) || (code == 255))))))))

-- The options that fit their encoding: words of 32 bits, at most 255 bytes of payload, and for
-- `unknown` a code without a meaning.
abbrev pub IsEncodable : DhcpOption → Type 0
IsEncodable (DhcpOption.subnet_mask x) = x < 2 ^ 32
IsEncodable (DhcpOption.broadcast_ip x) = x < 2 ^ 32
IsEncodable (DhcpOption.requested_ip x) = x < 2 ^ 32
IsEncodable (DhcpOption.lease_time x) = x < 2 ^ 32
IsEncodable (DhcpOption.message t) = Unit
IsEncodable (DhcpOption.server_ip x) = x < 2 ^ 32
IsEncodable (DhcpOption.parameter_request_list ps) = length ps ≤ 255
IsEncodable (DhcpOption.renewal_time x) = x < 2 ^ 32
IsEncodable (DhcpOption.unknown code ps) = (is_known code ≡ false) × (length ps ≤ 255)
IsEncodable DhcpOption.end_of_list = ⊥

message_type-message_code : (t : MessageType) → message_type (message_code t) ≡ t
unfolding message_type message_code
message_type-message_code MessageType.discover = refl
message_type-message_code MessageType.offer = refl
message_type-message_code MessageType.request = refl
message_type-message_code MessageType.ack = refl
message_type-message_code MessageType.invalid = refl

option_of-unknown :
    (code : ℕ) (ps : List ℕ)
    → is_known code ≡ false
    → option_of code ps ≡ some (DhcpOption.unknown code ps)
unfolding option_of
option_of-unknown code ps h = ground arith

-- Code, length and payload in front of any bytes.
parse-payload :
    (code : ℕ) (ps rest : List ℕ) {o : DhcpOption}
    → (code == 255) ≡ false
    → option_of code ps ≡ some o
    → parse (code ∷ length ps ∷ (ps ++ rest)) ≡ found (o, rest)
unfolding parse
parse-payload code ps rest h e =
    let front = take?-append ps rest in
    let back = drop?-append ps rest in
    let short : 2 + length ps - 2 ≡ length ps = omega arith in
    let two : 2 + length ps ≡ suc (suc (length ps)) = omega arith in
    rw (short, front, h, e, two, back)

-- The bytes that an option is written as, and read back from whatever follows them.
module _ (o : DhcpOption) where
  abbrev pub Written : List ℕ → Type 0
  Written buffer =
      (bytes : List ℕ) × (serialize o buffer ≡ ok (buffer ++ bytes))
      × ((rest : List ℕ) → parse (bytes ++ rest) ≡ found (o, rest))

word-Written :
    (code x : ℕ) (make : ℕ → DhcpOption) (buffer : List ℕ)
    → (code == 255) ≡ false
    → ((w : List ℕ) → option_of code w ≡ word_option make (from_be_32 w))
    → serialize (make x) buffer ≡ ok (buffer ++ (code ∷ 4 ∷ to_be_32 x))
    → x < 2 ^ 32
    → Written (make x) buffer
word-Written code x make buffer h e s small =
    let word = e (to_be_32 x) ∙ ap (word_option make) (from_be_32-to_be x small) in
    (code ∷ 4 ∷ to_be_32 x, s, λ rest. parse-payload code (to_be_32 x) rest h word)

not_end : (code : ℕ) → is_known code ≡ false → (code == 255) ≡ false
not_end code h = ground arith

fits : (n : ℕ) → n ≤ 255 → leb n 255 ≡ true
fits n h = ground arith

-- Any option but `End` that fits its encoding is appended to the buffer without a panic, and
-- `parse` reads it back from the bytes appended, leaving whatever follows them.
pub parse-serialize :
    (o : DhcpOption) (buffer : List ℕ)
    → IsEncodable o
    → (bytes : List ℕ) × (serialize o buffer ≡ ok (buffer ++ bytes))
      × ((rest : List ℕ) → parse (bytes ++ rest) ≡ found (o, rest))
unfolding serialize option_of
parse-serialize (DhcpOption.subnet_mask x) buffer h =
    word-Written 1 x DhcpOption.subnet_mask buffer refl (λ w. refl) refl h
parse-serialize (DhcpOption.broadcast_ip x) buffer h =
    word-Written 28 x DhcpOption.broadcast_ip buffer refl (λ w. refl) refl h
parse-serialize (DhcpOption.requested_ip x) buffer h =
    word-Written 50 x DhcpOption.requested_ip buffer refl (λ w. refl) refl h
parse-serialize (DhcpOption.lease_time x) buffer h =
    word-Written 51 x DhcpOption.lease_time buffer refl (λ w. refl) refl h
parse-serialize (DhcpOption.server_ip x) buffer h =
    word-Written 54 x DhcpOption.server_ip buffer refl (λ w. refl) refl h
parse-serialize (DhcpOption.renewal_time x) buffer h =
    word-Written 58 x DhcpOption.renewal_time buffer refl (λ w. refl) refl h
parse-serialize (DhcpOption.message t) buffer h =
    let same = ap (λ u. some (DhcpOption.message u)) (message_type-message_code t) in
    (
      53 ∷ 1 ∷ message_code t ∷ [],
      refl,
      λ rest. parse-payload 53 (message_code t ∷ []) rest refl same,
    )
parse-serialize (DhcpOption.parameter_request_list ps) buffer h =
    (55 ∷ length ps ∷ ps, rw (fits (length ps) h), λ rest. parse-payload 55 ps rest refl refl)
parse-serialize (DhcpOption.unknown code ps) buffer h =
    let read = option_of-unknown code ps h.0 in
    (
      code ∷ length ps ∷ ps,
      rw (fits (length ps) h.1),
      λ rest. parse-payload code ps rest (not_end code h.0) read,
    )
parse-serialize DhcpOption.end_of_list buffer h = elim h [ ]
