-- ===== src/PageTable/Laws.antt =====
-- What the page tables rely on of the physical memory that their user provides: words read back as
-- they were written, and the allocator hands out memory that nobody owns.
use chocolate_milk.Base.{ℕ, ◌+◌, ◌*◌, ◌/◌, ◌%◌, ◌^◌, ◌≤◌, ◌<◌, ◌≡◌, ◌≢◌, some}
use chocolate_milk.PageTable.{PhysMem}

pub record PhysLaws {S : Type 0} (mem : PhysMem S) (Owned : S → ℕ → Type 0) : Type 0 where
  pub read_written : (s : S) (a v : ℕ) → a % 8 ≡ 0 → mem.read (mem.write s a v) a ≡ v
  pub read_other :
      (s : S) (a v b : ℕ)
      → a % 8 ≡ 0
      → b % 8 ≡ 0
      → a ≢ b
      → mem.read (mem.write s a v) b ≡ mem.read s b
  pub read_zeroed :
      (s : S) (a n b : ℕ) → a ≤ b → b + 8 ≤ a + n → mem.read (mem.zero_bytes s a n) b ≡ 0
  pub read_outside :
      (s : S) (a n b : ℕ)
      → a % 8 ≡ 0
      → n % 8 ≡ 0
      → b % 8 ≡ 0
      → ((a ≤ b) → (b < a + n) → ⊥)
      → mem.read (mem.zero_bytes s a n) b ≡ mem.read s b
  pub write_owned : (s : S) (a v b : ℕ) → Owned s b → Owned (mem.write s a v) b
  pub zero_owned : (s : S) (a n b : ℕ) → Owned s b → Owned (mem.zero_bytes s a n) b
  pub alloc_owned :
      (s : S) (n k a b : ℕ) (s' : S) → mem.alloc_phys s n k ≡ some (a, s') → Owned s b → Owned s' b
  pub alloc_kept :
      (s : S) (n k a b : ℕ) (s' : S)
      → mem.alloc_phys s n k ≡ some (a, s')
      → Owned s b
      → mem.read s' b ≡ mem.read s b
  pub alloc_fresh :
      (s : S) (n k a b : ℕ) (s' : S)
      → mem.alloc_phys s n k ≡ some (a, s')
      → Owned s b
      → a ≤ b
      → b < a + n
      → ⊥
  pub alloc_new :
      (s : S) (n k a b : ℕ) (s' : S)
      → mem.alloc_phys s n k ≡ some (a, s')
      → a ≤ b
      → b < a + n
      → Owned s' b
  pub alloc_aligned :
      (s : S) (n j a : ℕ) (s' : S)
      → mem.alloc_phys s n (2 ^ j) ≡ some (a, s')
      → a / 2 ^ j * 2 ^ j ≡ a
  pub alloc_physical :
      (s : S) (n k a : ℕ) (s' : S) → mem.alloc_phys s n k ≡ some (a, s') → a < 2 ^ 52
