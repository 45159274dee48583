-- ===== src/Base/Bits.antt =====
-- `&` and `|` on machine words as arithmetic: both work on the fields of a number one by one.
use Prim.Native.Nat.{ℕ, zero, suc, ◌+◌, ◌-◌, ◌*◌, ◌/◌, ◌%◌, ◌^◌, ◌≤◌, ◌<◌, min, max}
use Prim.Native.Nat.{bit_and, bit_or, digits, bit_and-bitwise, bit_or-bitwise}
use mathlib.Core.Path.{◌≡◌, refl, sym, ap, ap₂, ◌∙◌}
use native.Mathlib.Nat.{pow-suc, one-le-pow, div-add-mod', mod-lt}
use native.Mathlib.Omega.{arith}

-- Fuel that reaches the first operand is enough for its digits, and more changes nothing.
module _ (rest : ℕ → ℕ) (digit : ℕ → ℕ → ℕ) where
  same_digits :
      (fuel more x y : ℕ)
      → x ≤ more
      → x ≤ fuel
      → digits rest digit fuel x y ≡ digits rest digit more x y
  same_digits (suc l) (suc k) (suc x) y under over =
      let half : suc x / 2 ≤ k = omega arith in
      let other : suc x / 2 ≤ l = omega arith in
      let ih = same_digits l k (suc x / 2) (y / 2) half other in omega (arith, ih)
  same_digits (suc l) (suc k) zero y under over = refl
  same_digits (suc l) zero zero y under over = refl
  same_digits zero (suc k) zero y under over = refl
  same_digits zero zero zero y under over = refl
  same_digits zero more (suc x) y under over = elim over [ ]
  same_digits (suc l) zero (suc x) y under over = elim under [ ]

bit_and_step :
    (x mask : ℕ) → bit_and x mask ≡ min (x % 2) (mask % 2) + 2 * bit_and (x / 2) (mask / 2)
bit_and_step zero mask = omega (arith, bit_and-bitwise 0 mask, bit_and-bitwise 0 (mask / 2))
bit_and_step (suc x) mask =
    let half = suc x / 2 in
    let same = same_digits (λ t. 0) min x half half (mask / 2) (omega arith) (omega arith) in
    omega (arith, same, bit_and-bitwise (suc x) mask, bit_and-bitwise half (mask / 2))

bit_or_step :
    (x field : ℕ) → bit_or x field ≡ max (x % 2) (field % 2) + 2 * bit_or (x / 2) (field / 2)
bit_or_step zero field = omega (arith, bit_or-bitwise 0 field, bit_or-bitwise 0 (field / 2))
bit_or_step (suc x) field =
    let half = suc x / 2 in
    let same = same_digits (λ t. t) max x half half (field / 2) (omega arith) (omega arith) in
    omega (arith, same, bit_or-bitwise (suc x) field, bit_or-bitwise half (field / 2))

double_shift : (q k : ℕ) → q * 2 ^ suc k ≡ q * 2 ^ k + q * 2 ^ k
double_shift q k = rw pow-suc (grind arith)

halved : (q r k : ℕ) → (q * 2 ^ suc k + r) / 2 ≡ q * 2 ^ k + r / 2
halved q r k = omega (arith, double_shift q k)

-- An operation on digits is one on the fields above and below bit `k`.
module _ (op digit : ℕ → ℕ → ℕ)
    (step : (x y : ℕ) → op x y ≡ digit (x % 2) (y % 2) + 2 * op (x / 2) (y / 2))
    (none : op 0 0 ≡ 0) where
  fields_split :
      (k q r c d : ℕ)
      → r < 2 ^ k
      → d < 2 ^ k
      → op (q * 2 ^ k + r) (c * 2 ^ k + d) ≡ op q c * 2 ^ k + op r d
  fields_split zero q r c d hr hd =
      let r0 : r ≡ 0 = omega arith in
      let d0 : d ≡ 0 = omega arith in
      let qq : q * 1 + 0 ≡ q = omega arith in
      let cc' : c * 1 + 0 ≡ c = omega arith in rw (r0, d0, qq, cc', none) (omega arith)
  fields_split (suc k) q r c d hr hd =
      let ih =
        fields_split k q (r / 2) c (d / 2) (omega (arith, pow-suc 2 k))
          (omega (arith, pow-suc 2 k)) in
      let low_x : (q * 2 ^ suc k + r) % 2 ≡ r % 2 = omega (arith, double_shift q k) in
      let low_y : (c * 2 ^ suc k + d) % 2 ≡ d % 2 = omega (arith, double_shift c k) in
      let first = step (q * 2 ^ suc k + r) (c * 2 ^ suc k + d) in
      rw (first, low_x, low_y, halved q r k, halved c d k, ih)
        (omega (arith, step r d, double_shift (op q c) k))

pub bit_and_split :
    (k q r c d : ℕ)
    → r < 2 ^ k
    → d < 2 ^ k
    → bit_and (q * 2 ^ k + r) (c * 2 ^ k + d) ≡ bit_and q c * 2 ^ k + bit_and r d
bit_and_split = fields_split bit_and min bit_and_step refl

pub bit_or_split :
    (k q r c d : ℕ)
    → r < 2 ^ k
    → d < 2 ^ k
    → bit_or (q * 2 ^ k + r) (c * 2 ^ k + d) ≡ bit_or q c * 2 ^ k + bit_or r d
bit_or_split = fields_split bit_or max bit_or_step refl

no_bits_below : (bound x : ℕ) → x < bound → (bit_and x 0 ≡ 0) × (bit_or x 0 ≡ x)
no_bits_below zero x h = elim h [ ]
no_bits_below (suc bound) zero h = (refl, refl)
no_bits_below (suc bound) (suc x) h =
    let (a, o) = no_bits_below bound (suc x / 2) (omega arith) in
    (omega (arith, a, bit_and_step (suc x) 0), omega (arith, o, bit_or_step (suc x) 0))

pub bit_and-zero : (x : ℕ) → bit_and x 0 ≡ 0
bit_and-zero x = (no_bits_below (suc x) x (omega arith)).0

pub bit_or-zero : (x : ℕ) → bit_or x 0 ≡ x
bit_or-zero x = (no_bits_below (suc x) x (omega arith)).1

pub zero-bit_or : (x : ℕ) → bit_or 0 x ≡ x
zero-bit_or x = bit_or-bitwise 0 x

-- The low bits of a number are those of a mask of ones.
ones_kept : (k r : ℕ) → r < 2 ^ k → bit_and r (2 ^ k - 1) ≡ r
ones_kept zero r h = let r0 : r ≡ 0 = omega arith in rw r0 refl
ones_kept (suc k) r h =
    let ih = ones_kept k (r / 2) (omega (arith, pow-suc 2 k)) in
    let half : (2 ^ suc k - 1) / 2 ≡ 2 ^ k - 1 = omega (arith, pow-suc 2 k) in
    let low : (2 ^ suc k - 1) % 2 ≡ 1 = omega (arith, pow-suc 2 k, one-le-pow k 2 (omega arith)) in
    rw (bit_and_step r (2 ^ suc k - 1), half, low, ih) (omega arith)

split_at : (k a : ℕ) → (a ≡ a / 2 ^ k * 2 ^ k + a % 2 ^ k) × (a % 2 ^ k < 2 ^ k)
split_at k a = (sym (div-add-mod' a (2 ^ k)), mod-lt a (one-le-pow k 2 (omega arith)))

-- A mask of the low bits is a remainder.
pub bit_and_low : (k a : ℕ) → bit_and a (2 ^ k - 1) ≡ a % 2 ^ k
bit_and_low k a =
    let s = split_at k a in
    let small = one-le-pow k 2 (omega arith) in
    let mask : 2 ^ k - 1 ≡ 0 * 2 ^ k + (2 ^ k - 1) = omega arith in
    let apart = bit_and_split k (a / 2 ^ k) (a % 2 ^ k) 0 (2 ^ k - 1) s.1 (omega (arith, small)) in
    let whole = ap₂ bit_and s.0 mask ∙ apart in
    omega (
      arith,
      whole,
      ap (λ (t : ℕ). t * 2 ^ k) (bit_and-zero (a / 2 ^ k)),
      ones_kept k (a % 2 ^ k) s.1,
    )

-- A mask without low bits clears them.
pub bit_and_high : (k a c : ℕ) → bit_and a (c * 2 ^ k) ≡ bit_and (a / 2 ^ k) c * 2 ^ k
bit_and_high k a c =
    let s = split_at k a in
    let small = one-le-pow k 2 (omega arith) in
    let mask : c * 2 ^ k ≡ c * 2 ^ k + 0 = omega arith in
    let apart = bit_and_split k (a / 2 ^ k) (a % 2 ^ k) c 0 s.1 (omega (arith, small)) in
    let whole = ap₂ bit_and s.0 mask ∙ apart in omega (arith, whole, bit_and-zero (a % 2 ^ k))

-- `|` of a field above bit `k` and one below is their sum.
pub bit_or_fields : (k q r : ℕ) → r < 2 ^ k → bit_or (q * 2 ^ k) r ≡ q * 2 ^ k + r
bit_or_fields k q r h =
    let small = one-le-pow k 2 (omega arith) in
    let high : q * 2 ^ k ≡ q * 2 ^ k + 0 = omega arith in
    let low : r ≡ 0 * 2 ^ k + r = omega arith in
    let whole = ap₂ bit_or high low ∙ bit_or_split k q 0 0 r (omega (arith, small)) h in
    omega (arith, whole, ap (λ (t : ℕ). t * 2 ^ k) (bit_or-zero q), zero-bit_or r)
