-- ===== src/RangeSet/Alloc/Aligned.antt =====
-- shared/rangeset/src/lib.rs: the alignment arithmetic of `allocate_prefer`: one bit set means a
-- power of two, and the two roundings give multiples of it.
use native.Mathlib.Nat.{
  pow-suc, one-le-pow, mod-lt, div-add-mod', mul-mod_left, mod-eq_of_lt, mod_self,
}
use native.Mathlib.Nat.{add-zero, mul_assoc}
use chocolate_milk.Base.{ℕ, zero, suc, ◌+◌, ◌-◌, ◌*◌, ◌/◌, ◌%◌, ◌^◌, ◌<◌}
use chocolate_milk.Base.{◌≡◌, refl, sym, ap, ◌∙◌, inl, inr, arith, ltb, Bool-cases, ◌==◌, ==→≡}
use chocolate_milk.Base.Bits.{bit_and_low, bit_and_high}
use chocolate_milk.RangeSet.Alloc.{
  count_bits, count_ones, align_fix, align_up, wrapping_add, bit_not,
}

count_bits_zero : (n x : ℕ) → x < 2 ^ n → count_bits n x ≡ 0 → x ≡ 0
unfolding count_bits
count_bits_zero zero x h c = omega arith
count_bits_zero (suc n) x h c =
    omega (arith, pow-suc 2 n, count_bits_zero n (x / 2) (omega (arith, pow-suc 2 n)) (omega arith))

count_bits_one : (n x : ℕ) → x < 2 ^ n → count_bits n x ≡ 1 → (k : ℕ) × (k < n) × (x ≡ 2 ^ k)
unfolding count_bits
count_bits_one zero x h c = absurd (omega arith)
count_bits_one (suc n) x h c = elim (Bool-cases (ltb 0 (x % 2))) [
  | inl odd ↦ (0, omega arith, ground (arith, count_bits_zero n (x / 2), pow-suc 2 n))
  | inr even ↦
      let ih = count_bits_one n (x / 2) (omega (arith, pow-suc 2 n)) (ground arith) in
      (suc ih.0, omega (arith, ih.1), ground (arith, pow-suc 2 ih.0, ih.2))
]

-- An alignment with one bit set is a power of two.
pub power_of_count_ones :
    (align : ℕ) → align < 2 ^ 64 → count_ones align ≡ 1 → (k : ℕ) × (k < 64) × (align ≡ 2 ^ k)
unfolding count_ones
power_of_count_ones align h c = count_bits_one 64 align h c

count_bits-zero : (n : ℕ) → count_bits n 0 ≡ 0
unfolding count_bits
count_bits-zero zero = refl
count_bits-zero (suc n) = omega (arith, count_bits-zero n)

count_bits-pow : (n k : ℕ) → k < n → count_bits n (2 ^ k) ≡ 1
unfolding count_bits
count_bits-pow zero k h = elim h [ ]
count_bits-pow (suc n) zero h = omega (arith, count_bits-zero n)
count_bits-pow (suc n) (suc k) h =
    let double : 2 ^ suc k / 2 ≡ 2 ^ k = omega (arith, pow-suc 2 k) in
    rw double (omega (arith, pow-suc 2 k, count_bits-pow n k (omega arith)))

pub count_ones-pow : (k : ℕ) → k < 64 → count_ones (2 ^ k) ≡ 1
unfolding count_ones
count_ones-pow k h = count_bits-pow 64 k h

pow_pos : (k : ℕ) → 0 < 2 ^ k
pow_pos k = one-le-pow k 2 (omega arith)

-- Rounding up by padding, for any modulus.
pad : (start p : ℕ) → 0 < p → (start + (p - start % p) % p) % p ≡ 0
pad start p h = elim (Bool-cases (start % p == 0)) [
  | inl even ↦
      let none_left : start % p ≡ 0 = ==→≡ _ _ even in
      let whole : p - 0 ≡ p = omega arith in
      let nothing : (p - start % p) % p ≡ 0 = rw (none_left, whole) (mod_self p) in
      rw (nothing, add-zero) none_left
  | inr odd ↦
      let rest : 0 < start % p = ground arith in
      let small : (p - start % p) % p ≡ p - start % p = mod-eq_of_lt (omega arith) in
      let next : start + (p - start % p) ≡ suc (start / p) * p =
        omega (arith, div-add-mod' start p, mod-lt start h) in
      rw (small, next) (mul-mod_left (suc (start / p)) p)
]

pub align_fix-mod : (k start : ℕ) → (start + align_fix (2 ^ k) start) % 2 ^ k ≡ 0
align_fix-mod k start =
    rw (bit_and_low k start, bit_and_low k (2 ^ k - start % 2 ^ k)) (pad start (2 ^ k) (pow_pos k))

pow_split : (k n : ℕ) → 2 ^ (n + k) ≡ 2 ^ n * 2 ^ k
pow_split zero n = rw add-zero (omega arith)
pow_split (suc k) n =
    let up : n + suc k ≡ suc (n + k) = omega arith in
    rw (up, pow-suc 2 (n + k), pow-suc 2 k, pow_split k n) (mul_assoc (2 ^ n) (2 ^ k) 2)

complement : (q p w : ℕ) → 0 < q → 0 < p → q * p ≡ w → w - 1 - (p - 1) ≡ (q - 1) * p
complement zero p w h g e = elim h [ ]
complement (suc q) p w h g e = let less : suc q - 1 ≡ q = omega arith in rw less (omega arith)

-- The complement of the mask of `k` low bits is a multiple of `2 ^ k`.
high_mask : (k : ℕ) → k < 64 → bit_not (2 ^ k - 1) ≡ (2 ^ (64 - k) - 1) * 2 ^ k
high_mask k h =
    let all_bits : 64 - k + k ≡ 64 = omega arith in
    let whole : 2 ^ (64 - k) * 2 ^ k ≡ 2 ^ 64 =
      sym (pow_split k (64 - k)) ∙ ap (λ (n : ℕ). 2 ^ n) all_bits in
    complement (2 ^ (64 - k)) (2 ^ k) (2 ^ 64) (pow_pos (64 - k)) (pow_pos k) whole

pub align_up-mod : (k start : ℕ) → k < 64 → align_up (2 ^ k) start % 2 ^ k ≡ 0
align_up-mod k start h =
    rw (high_mask k h, bit_and_high k (wrapping_add start (2 ^ k - 1)) (2 ^ (64 - k) - 1))
      (mul-mod_left _ (2 ^ k))
