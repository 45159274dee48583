-- ===== src/CoreReqs/Copy.antt =====
-- shared/core_reqs/src/lib.rs: `memmove` copies as if all bytes were read before one is written.
use chocolate_milk.Base.{
  ℕ, zero, suc, ◌+◌, ◌-◌, ◌≤◌, ◌<◌, ◌≡◌, refl, ◌∙◌, arith, ltb, leb, ◌&&◌, if◌then◌else◌,
  Bool-cases, inl, inr,
}
use chocolate_milk.CoreReqs.{Memory, store, copy_backwards, copy_forwards, memmove, memcpy}

-- The byte at `b` after `n` bytes from `off` on have been copied at once.
abbrev pub copied : ℕ → ℕ → ℕ → ℕ → Memory → Memory
copied dest src off n m =
    λ b. if leb (dest + off) b && ltb b (dest + off + n) then m (src + (b - dest)) else m b

backwards_copied :
    (dest src n : ℕ) (m : Memory) (b : ℕ)
    → src < dest
    → copy_backwards dest src n m b ≡ copied dest src 0 n m b
unfolding copy_backwards
backwards_copied dest src zero m b h = ground arith
backwards_copied dest src (suc n) m b h =
    backwards_copied dest src n (store m (dest + n) (m (src + n))) b h ∙ ground arith

forwards_copied :
    (dest src n off : ℕ) (m : Memory) (b : ℕ)
    → dest ≤ src
    → copy_forwards dest src n off m b ≡ copied dest src off n m b
unfolding copy_forwards
forwards_copied dest src zero off m b h = ground arith
forwards_copied dest src (suc n) off m b h =
    forwards_copied dest src n (suc off) (store m (dest + off) (m (src + off))) b h ∙ ground arith

-- After `memmove`, and after `memcpy`, every byte of the destination is the byte that the source had
-- before, and every other byte is as it was, whether the two overlap or not.
pub memmove-copied :
    (dest src n : ℕ) (m : Memory) (b : ℕ)
    → (memmove dest src n m b
        ≡ (if leb dest b && ltb b (dest + n) then m (src + (b - dest)) else m b))
      × (memcpy dest src n m b ≡ memmove dest src n m b)
unfolding memmove memcpy
memmove-copied dest src n m b = elim (Bool-cases (ltb src dest)) [
  | inl below ↦ rw below (backwards_copied dest src n m b (ground arith) ∙ (ground arith), refl)
  | inr above ↦ rw above (forwards_copied dest src n 0 m b (ground arith) ∙ (ground arith), refl)
]
