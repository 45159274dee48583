-- ===== src/Net/Checksum.antt =====
-- kernel/src/net.rs: the checksum that `create_udp_raw` writes is the one that `ip` accepts.
use chocolate_milk.Base.{ℕ, ◌+◌, ◌-◌, ◌*◌, ◌/◌, ◌%◌, ◌^◌, ◌<◌, ◌≡◌, arith, List, [], ◌∷◌, ◌++◌}
use chocolate_milk.Base.Bytes.{IsBytes}
use chocolate_milk.Net.{sum_pairs, fold_carry, swap_16, checksum}

-- The 16-bit value that is written, before the swap to network order.
abbrev inverted : ℕ → ℕ
inverted c = 2 ^ 16 - 1 - fold_carry (fold_carry c) % 2 ^ 16

-- A sum that takes in its own inverted checksum folds to all ones.
folds_to_ones : (c : ℕ) → c < 2 ^ 20 → fold_carry (fold_carry (c + inverted c)) ≡ 2 ^ 16 - 1
folds_to_ones c h = omega arith

-- The two bytes that `to_be_bytes` writes for a swapped value read back as the value.
swapped_bytes : (v : ℕ) → v < 2 ^ 16 → swap_16 v / 2 ^ 8 % 256 + swap_16 v % 256 * 2 ^ 8 ≡ v
swapped_bytes v h = omega arith

inverted-lt : (c : ℕ) → inverted c < 2 ^ 16
inverted-lt c = omega arith

-- The 20 bytes of a header before and behind the checksum field.
module _ (a0 a1 a2 a3 a4 a5 a6 a7 a8 a9 b0 b1 b2 b3 b4 b5 b6 b7 : ℕ) where
  abbrev pub before : List ℕ
  before = a0 ∷ a1 ∷ a2 ∷ a3 ∷ a4 ∷ a5 ∷ a6 ∷ a7 ∷ a8 ∷ a9 ∷ []

  abbrev pub behind : List ℕ
  behind = b0 ∷ b1 ∷ b2 ∷ b3 ∷ b4 ∷ b5 ∷ b6 ∷ b7 ∷ []

  -- The header with the bytes `x` and `y` in the field.
  abbrev pub header : ℕ → ℕ → List ℕ
  header x y = before ++ (x ∷ y ∷ behind)

  module _ (small : IsBytes before) (small' : IsBytes behind) where
    sum-zero : sum_pairs 0 (header 0 0) < 2 ^ 20 - 2 ^ 16
    unfolding sum_pairs
    sum-zero = omega arith

    sum-field :
        (x y : ℕ)
        → x < 256
        → y < 256
        → sum_pairs 0 (header x y) ≡ sum_pairs 0 (header 0 0) + (x + y * 2 ^ 8)
    unfolding sum_pairs
    sum-field x y hx hy = omega arith

    -- The header with its own checksum in the field checks out.
    pub checksum-header :
        let z = checksum 0 (header 0 0) in checksum 0 (header (z / 2 ^ 8 % 256) (z % 256)) ≡ 0
    unfolding checksum
    checksum-header =
        let c = sum_pairs 0 (header 0 0) in
        let v = inverted c in
        let back = swapped_bytes v (inverted-lt c) in
        rw (
          sum-field (swap_16 v / 2 ^ 8 % 256) (swap_16 v % 256) (omega arith) (omega arith),
          back,
          folds_to_ones c (omega (arith, sum-zero)),
        )
