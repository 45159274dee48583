-- ===== src/Tests/CoreReqs.antt =====
-- shared/core_reqs/src/lib.rs on a memory of ten bytes.
use chocolate_milk.Base.{
  ℕ, ◌+◌, ◌%◌, ◌^◌, ◌≤◌, ◌<◌, ◌≡◌, refl, arith, ltb, leb, ◌&&◌, ◌-◌, if◌then◌else◌, ◌⊎◌, List, [],
  ◌∷◌,
}
use chocolate_milk.CoreReqs.{
  Memory, memmove, memcpy, copy_backwards, copy_forwards, memcmp, memcmp_from,
}
use chocolate_milk.CoreReqs.Copy.{memmove-copied}
use chocolate_milk.CoreReqs.Compare.{memcmp-IsOrder}

abbrev digits : Memory
digits = λ b. b % 10

abbrev bytes_at : Memory → List ℕ
bytes_at m = m 0 ∷ m 1 ∷ m 2 ∷ m 3 ∷ m 4 ∷ []

memmove_up : bytes_at (memmove 1 0 3 digits) ≡ 0 ∷ 0 ∷ 1 ∷ 2 ∷ 4 ∷ []
unfolding memmove copy_backwards
memmove_up = refl

memmove_down : bytes_at (memmove 0 1 3 digits) ≡ 1 ∷ 2 ∷ 3 ∷ 3 ∷ 4 ∷ []
unfolding memmove copy_forwards
memmove_down = refl

memcmp-digits : memcmp digits 0 10 5 ≡ 0
unfolding memcmp memcmp_from
memcmp-digits = refl

memcmp-IsOrder_example :
    ((memcmp digits 3 4 2 ≡ 0) × ((k : ℕ) → k < 2 → digits (3 + k) ≡ digits (4 + k)))
    ⊎ ((k : ℕ) × (k < 2)
        × ((j : ℕ) → j < k → digits (3 + j) ≡ digits (4 + j))
        × (((digits (3 + k) < digits (4 + k)) × (2 ^ 31 ≤ memcmp digits 3 4 2))
            ⊎ ((digits (4 + k) < digits (3 + k))
                × (0 < memcmp digits 3 4 2)
                × (memcmp digits 3 4 2 < 2 ^ 31))))
memcmp-IsOrder_example = memcmp-IsOrder digits 3 4 2 (λ b. omega arith)

memmove-copied_example :
    (memmove 3 1 4 digits 4 ≡ (if leb 3 4 && ltb 4 (3 + 4) then digits (1 + (4 - 3)) else digits 4))
    × (memcpy 3 1 4 digits 4 ≡ memmove 3 1 4 digits 4)
memmove-copied_example = memmove-copied 3 1 4 digits 4
