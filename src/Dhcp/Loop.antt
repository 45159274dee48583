-- ===== src/Dhcp/Loop.antt =====
-- kernel/src/dhcp.rs: the loop over the options always ends, and reads back a written list.
use chocolate_milk.Base.{
  ℕ, zero, suc, ◌+◌, ◌-◌, ◌≤◌, ◌<◌, ◌==◌, ◌≡◌, refl, ap, subst, arith, ◌⊎◌, inl, inr,
}
use chocolate_milk.Base.{Bool-cases, Option-cases, List, [], ◌∷◌, ◌++◌, append_assoc, length}
use chocolate_milk.Base.Bytes.{take?, take?-some, drop?_fits}
use chocolate_milk.Base.Parsed.{Parsed, found, absent, panicked}
use chocolate_milk.Base.Outcome.{ok}
use chocolate_milk.Dhcp.{DhcpOption, option_of, parse, serialize, serialize_all, parse_options}
use chocolate_milk.Dhcp.Options.{IsEncodable, parse-serialize}

-- `parse` finds no option, or one and strictly fewer bytes behind it; it never panics.
Parses : List ℕ → Parsed (DhcpOption × List ℕ) → Type 0
Parses ptr m =
    (m ≡ absent)
    ⊎ ((o : DhcpOption) × (rest : List ℕ) × (m ≡ found (o, rest)) × (length rest < length ptr))

parse-Parses : (ptr : List ℕ) → Parses ptr (parse ptr)
unfolding parse Parses
parse-Parses [] = inl refl
parse-Parses (code ∷ []) = inl refl
parse-Parses (code ∷ len ∷ tail) =
    let short : 2 + len - 2 ≡ len = omega arith in
    let two : 2 + len ≡ suc (suc len) = omega arith in
    elim (Option-cases (take? len tail)) [
      | inl e ↦ inl (rw (short, e) refl)
      | inr (payload, e) ↦ elim (Bool-cases (code == 255)) [
        | inl end ↦ inr (DhcpOption.end_of_list, [], rw (short, e, end) refl, omega arith)
        | inr go ↦ elim (Option-cases (option_of code payload)) [
          | inl bad ↦ inl (rw (short, e, go, bad) refl)
          | inr (o, good) ↦
              let (rest, d, l) = drop?_fits len tail (take?-some len tail e) in
              inr (o, rest, rw (short, e, go, good, two, d) refl, omega arith)
        ]
      ]
    ]

Shrinks : List ℕ → Parsed (DhcpOption × List ℕ) → Type 0
Shrinks ptr absent = Unit
Shrinks ptr panicked = ⊥
Shrinks ptr (found (o, rest)) = length rest < length ptr

parse-Shrinks : (ptr : List ℕ) → Shrinks ptr (parse ptr)
unfolding Parses Shrinks
parse-Shrinks ptr = elim (parse-Parses ptr) [ inl e ↦ rw e tt | inr (o, rest, e, less) ↦ rw e less ]

found-shrinks :
    (ptr : List ℕ) {o : DhcpOption} {rest : List ℕ}
    → parse ptr ≡ found (o, rest)
    → length rest < length ptr
unfolding Shrinks
found-shrinks ptr e = subst (Shrinks ptr) e (parse-Shrinks ptr)

-- With as much fuel as there are bytes the loop over the options ends, without a panic, on any
-- bytes.
pub parse_options-total :
    (fuel : ℕ) (bytes : List ℕ)
    → length bytes ≤ fuel
    → (options : List DhcpOption) × (parse_options fuel bytes ≡ ok options)
unfolding parse_options Parses
parse_options-total fuel [] h = ([], refl)
parse_options-total zero (b ∷ bytes) h = elim h [ ]
parse_options-total (suc fuel) (b ∷ bytes) h = elim (parse-Parses (b ∷ bytes)) [
  | inl e ↦ ([], rw e refl)
  | inr (o, rest, e, less) ↦
      let (options, r) = parse_options-total fuel rest (omega arith) in
      (o ∷ options, rw (e, r) refl)
]

parse_options-found :
    (fuel : ℕ) (bytes rest : List ℕ) {o : DhcpOption} {options : List DhcpOption}
    → parse bytes ≡ found (o, rest)
    → length bytes ≤ fuel
    → ((f : ℕ) → length rest ≤ f → parse_options f rest ≡ ok options)
    → parse_options fuel bytes ≡ ok (o ∷ options)
unfolding parse_options
parse_options-found fuel [] rest e h read = absurd (omega (arith, found-shrinks [] e))
parse_options-found zero (b ∷ bytes) rest e h read = elim h [ ]
parse_options-found (suc fuel) (b ∷ bytes) rest e h read =
    rw (e, read fuel (omega (arith, found-shrinks (b ∷ bytes) e))) refl

abbrev pub AllEncodable : List DhcpOption → Type 0
AllEncodable [] = Unit
AllEncodable (o ∷ options) = IsEncodable o × AllEncodable options

last_code : (fuel : ℕ) → 1 ≤ fuel → parse_options fuel (255 ∷ []) ≡ ok []
unfolding parse_options parse
last_code zero h = elim h [ ]
last_code (suc fuel) h = refl

written_list :
    (options : List DhcpOption) (buffer : List ℕ)
    → AllEncodable options
    → (bytes : List ℕ) × (serialize_all (options ++ (DhcpOption.end_of_list ∷ [])) buffer
        ≡ ok (buffer ++ bytes))
      × ((fuel : ℕ) → length bytes ≤ fuel → parse_options fuel bytes ≡ ok options)
unfolding serialize_all serialize
written_list [] buffer h = (255 ∷ [], refl, last_code)
written_list (o ∷ options) buffer (ho, h) =
    let (first, s, r) = parse-serialize o buffer ho in
    let (more, t, read) = written_list options (buffer ++ first) h in
    (
      first ++ more,
      rw (s, t) (ap ok (append_assoc buffer first more)),
      λ fuel enough. parse_options-found fuel (first ++ more) more (r more) enough read,
    )

-- A list of options that fit their encoding, written one after the other with `End` behind them,
-- serializes without a panic, and the loop reads exactly these options back: the closing `End` is
-- not among them.
pub parse_options-serialize_all :
    (options : List DhcpOption)
    → AllEncodable options
    → (bytes : List ℕ) × (serialize_all (options ++ (DhcpOption.end_of_list ∷ [])) [] ≡ ok bytes)
      × (parse_options (length bytes) bytes ≡ ok options)
parse_options-serialize_all options h =
    let (bytes, s, read) = written_list options [] h in
    (bytes, s, read (length bytes) (omega arith))
