-- ===== src/CoreReqs.antt =====
-- shared/core_reqs/src/lib.rs: the `mem` routines, on a memory of bytes. Pointers are addresses, and
-- `offset` stays within the address space, as its contract says.
pub mod Copy
pub mod Compare
use package.chocolate_milk.Base.{ℕ, zero, suc, ◌+◌, ◌-◌, ◌%◌, ◌^◌, ltb, ◌==◌, if◌then◌else◌}

abbrev pub Memory : Type 0
Memory = ℕ → ℕ

abbrev pub store : Memory → ℕ → ℕ → Memory
store m a v = λ b. if b == a then v else m b

-- The loop from `ii` down to 0.
unfoldable pub copy_backwards : ℕ → ℕ → ℕ → Memory → Memory
copy_backwards dest src zero m = m
copy_backwards dest src (suc ii) m = copy_backwards dest src ii (store m (dest + ii) (m (src + ii)))

-- The loop from `ii` on, with the number of bytes left.
unfoldable pub copy_forwards : ℕ → ℕ → ℕ → ℕ → Memory → Memory
copy_forwards dest src zero ii m = m
copy_forwards dest src (suc left) ii m =
    copy_forwards dest src left (suc ii) (store m (dest + ii) (m (src + ii)))

unfoldable pub memmove : ℕ → ℕ → ℕ → Memory → Memory
memmove dest src n m =
    if ltb src dest then copy_backwards dest src n m else copy_forwards dest src n 0 m

pub memcpy : ℕ → ℕ → ℕ → Memory → Memory
memcpy dest src n m = memmove dest src n m

-- `a as i32 - b as i32`, as the 32 bits of the result.
abbrev pub difference : ℕ → ℕ → ℕ
difference a b = (a + 2 ^ 32 - b) % 2 ^ 32

unfoldable pub memcmp_from : Memory → ℕ → ℕ → ℕ → ℕ → ℕ
memcmp_from m s1 s2 zero ii = 0
memcmp_from m s1 s2 (suc left) ii =
    let rest = memcmp_from m s1 s2 left (suc ii) in
    if m (s1 + ii) == m (s2 + ii) then rest else difference (m (s1 + ii)) (m (s2 + ii))

unfoldable pub memcmp : Memory → ℕ → ℕ → ℕ → ℕ
memcmp m s1 s2 n = memcmp_from m s1 s2 n 0
