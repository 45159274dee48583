-- ===== src/CoreReqs/Compare.antt =====
-- shared/core_reqs/src/lib.rs: `memcmp` compares the first bytes that differ.
use chocolate_milk.Base.{
  ℕ, zero, suc, ◌+◌, ◌^◌, ◌≤◌, ◌<◌, ◌≡◌, ◌≢◌, refl, arith, ltb, ◌==◌, Bool-cases, ==→≡, ==→≢, inl,
  inr, ◌⊎◌,
}
use native.Mathlib.Numerals.{unary_clauses}
use chocolate_milk.CoreReqs.{Memory, difference, memcmp_from, memcmp}

-- The result says how the bytes from `ii` on compare, of which `left` are looked at.
abbrev pub IsOrder : Memory → ℕ → ℕ → ℕ → ℕ → ℕ → Type 0
IsOrder m s1 s2 left ii r =
    ((r ≡ 0) × ((k : ℕ) → k < left → m (s1 + (ii + k)) ≡ m (s2 + (ii + k))))
    ⊎ ((k : ℕ) × (k < left)
        × ((j : ℕ) → j < k → m (s1 + (ii + j)) ≡ m (s2 + (ii + j)))
        × (((m (s1 + (ii + k)) < m (s2 + (ii + k))) × (2 ^ 31 ≤ r))
            ⊎ ((m (s2 + (ii + k)) < m (s1 + (ii + k))) × (0 < r) × (r < 2 ^ 31))))

equal-later :
    (m : Memory) (s1 s2 ii n : ℕ)
    → m (s1 + ii) ≡ m (s2 + ii)
    → ((k : ℕ) → k < n → m (s1 + (suc ii + k)) ≡ m (s2 + (suc ii + k)))
    → (k : ℕ) → k < suc n
    → m (s1 + (ii + k)) ≡ m (s2 + (ii + k))
equal-later m s1 s2 ii n same rest zero h = simp unary_clauses same
equal-later m s1 s2 ii n same rest (suc k) h =
    let step : ii + suc k ≡ suc ii + k = omega arith in rw step (rest k (omega arith))

-- The sign of a difference of bytes.
difference-sign :
    (a b : ℕ)
    → a < 2 ^ 8
    → b < 2 ^ 8
    → a ≢ b
    → ((a < b) × (2 ^ 31 ≤ difference a b))
      ⊎ ((b < a) × (0 < difference a b) × (difference a b < 2 ^ 31))
difference-sign a b ha hb other = elim (Bool-cases (ltb a b)) [
  | inl below ↦ inl (ground arith, ground arith)
  | inr above ↦ inr (ground arith, ground arith, ground arith)
]

-- The bytes at `ii` are equal: the order is that of the rest.
IsOrder-later :
    (m : Memory) (s1 s2 left ii r : ℕ)
    → m (s1 + ii) ≡ m (s2 + ii)
    → IsOrder m s1 s2 left (suc ii) r
    → IsOrder m s1 s2 (suc left) ii r
IsOrder-later m s1 s2 left ii r same h = elim h [
  | inl (z, rest) ↦ inl (z, equal-later m s1 s2 ii left same rest)
  | inr (k, lt, rest, how) ↦
      let step : ii + suc k ≡ suc ii + k = omega arith in
      inr (suc k, omega arith, equal-later m s1 s2 ii k same rest, rw step how)
]

memcmp_from-IsOrder :
    (m : Memory) (s1 s2 left ii : ℕ)
    → ((b : ℕ) → m b < 2 ^ 8)
    → IsOrder m s1 s2 left ii (memcmp_from m s1 s2 left ii)
unfolding memcmp_from
memcmp_from-IsOrder m s1 s2 zero ii bytes = inl (refl, λ k h. elim h [ ])
memcmp_from-IsOrder m s1 s2 (suc left) ii bytes = elim (Bool-cases (m (s1 + ii) == m (s2 + ii))) [
  | inl same ↦ rw same (
      IsOrder-later m s1 s2 left ii _ (==→≡ (m (s1 + ii)) (m (s2 + ii)) same)
        (memcmp_from-IsOrder m s1 s2 left (suc ii) bytes))
  | inr other ↦ rw other (
      inr (
        0,
        omega arith,
        λ j h. elim h [ ],
        simp unary_clauses (
            difference-sign (m (s1 + ii)) (m (s2 + ii)) (bytes (s1 + ii)) (bytes (s2 + ii))
              (==→≢ (m (s1 + ii)) (m (s2 + ii)) other)),
      ))
]

zero_plus : (k : ℕ) → 0 + k ≡ k
zero_plus k = omega arith

-- For memory of bytes: `memcmp` gives 0 if and only if the two runs of `n` bytes are equal. Else it
-- gives the sign of the first bytes that differ, as an `i32` with its sign in bit 31.
pub memcmp-IsOrder :
    (m : Memory) (s1 s2 n : ℕ)
    → ((b : ℕ) → m b < 2 ^ 8)
    → ((memcmp m s1 s2 n ≡ 0) × ((k : ℕ) → k < n → m (s1 + k) ≡ m (s2 + k)))
      ⊎ ((k : ℕ) × (k < n)
          × ((j : ℕ) → j < k → m (s1 + j) ≡ m (s2 + j))
          × (((m (s1 + k) < m (s2 + k)) × (2 ^ 31 ≤ memcmp m s1 s2 n))
              ⊎ ((m (s2 + k) < m (s1 + k)) × (0 < memcmp m s1 s2 n) × (memcmp m s1 s2 n < 2 ^ 31))))
unfolding memcmp
memcmp-IsOrder m s1 s2 n bytes =
    let order = memcmp_from-IsOrder m s1 s2 n 0 bytes in simp zero_plus at order
