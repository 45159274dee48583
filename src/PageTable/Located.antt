-- ===== src/PageTable/Located.antt =====
-- shared/page_table/src/lib.rs: what the entries of a page say of its address.
use chocolate_milk.Base.{
  ℕ, ◌+◌, ◌*◌, ◌/◌, ◌%◌, ◌^◌, ◌<◌, ◌≡◌, refl, arith, bit_or, true, false, none, some, ◌⊎◌, inr,
}
use chocolate_milk.Base.Bits.{bit_or_fields}
use chocolate_milk.PageTable.{
  PageType, bytes_of, Mapping, canonicalize_address, virt_base, size, is_present, is_large,
  table_of,
}

-- The index of an entry in its table.
slot_index : (t i : ℕ) → t % 2 ^ 12 ≡ 0 → i < 512 → (t + i * 8) % 2 ^ 12 / 8 ≡ i
slot_index t i h k = omega arith

pub table_of_aligned : (e : ℕ) → table_of e % 2 ^ 12 ≡ 0
table_of_aligned e = omega arith

join :
    (a b c d : ℕ)
    → b < 512
    → c < 512
    → d < 512
    → bit_or (bit_or (bit_or (a * 2 ^ 39) (b * 2 ^ 30)) (c * 2 ^ 21)) (d * 2 ^ 12)
      ≡ a * 2 ^ 39 + b * 2 ^ 30 + c * 2 ^ 21 + d * 2 ^ 12
join a b c d hb hc hd =
    let one = bit_or_fields 39 a (b * 2 ^ 30) (omega arith) in
    let q1 : a * 2 ^ 39 + b * 2 ^ 30 ≡ (a * 512 + b) * 2 ^ 30 = omega arith in
    let two = bit_or_fields 30 (a * 512 + b) (c * 2 ^ 21) (omega arith) in
    let q2 : (a * 512 + b) * 2 ^ 30 + c * 2 ^ 21 ≡ (a * 2 ^ 18 + b * 512 + c) * 2 ^ 21 =
      omega arith in
    let three = bit_or_fields 21 (a * 2 ^ 18 + b * 512 + c) (d * 2 ^ 12) (omega arith) in
    rw (one, q1, two, q2, three) (omega arith)

canonical_page :
    (v : ℕ)
    → v < 2 ^ 64
    → canonicalize_address v ≡ v
    → canonicalize_address (
          v / 2 ^ 39 % 512 * 2 ^ 39
          + v / 2 ^ 30 % 512 * 2 ^ 30
          + v / 2 ^ 21 % 512 * 2 ^ 21
          + v / 2 ^ 12 % 512 * 2 ^ 12)
        + v % 2 ^ 12
      ≡ v
unfolding canonicalize_address
canonical_page v small h = ground arith

-- A 2 MiB page and a 1 GiB page: the lower indices are 0.
canonical_large :
    (v : ℕ)
    → v < 2 ^ 64
    → canonicalize_address v ≡ v
    → canonicalize_address (
          v / 2 ^ 39 % 512 * 2 ^ 39
          + v / 2 ^ 30 % 512 * 2 ^ 30
          + v / 2 ^ 21 % 512 * 2 ^ 21
          + 0 * 2 ^ 12)
        + v % 2 ^ 21
      ≡ v
unfolding canonicalize_address
canonical_large v small h = ground arith

canonical_huge :
    (v : ℕ)
    → v < 2 ^ 64
    → canonicalize_address v ≡ v
    → canonicalize_address
          (v / 2 ^ 39 % 512 * 2 ^ 39 + v / 2 ^ 30 % 512 * 2 ^ 30 + 0 * 2 ^ 21 + 0 * 2 ^ 12)
        + v % 2 ^ 30
      ≡ v
unfolding canonicalize_address
canonical_huge v small h = ground arith

pub present_bit : (w : ℕ) → is_present w ≡ true → w % 2 ≡ 1
present_bit w h = ground arith

pub small_bit : (w : ℕ) → is_large w ≡ false → w / 2 ^ 7 % 2 ≡ 0
small_bit w h = ground arith

-- What a mapping says of the address it was walked for.
abbrev pub Locates : ℕ → Mapping → Type 0
Locates v m =
    (m.page ≡ none)
    ⊎ ((page : ℕ) × (base : ℕ) × (t : PageType) × (m.page ≡ some (page, v % bytes_of t))
        × (size m ≡ some t)
        × (virt_base m ≡ some base)
        × (base + v % bytes_of t ≡ v)
        × (page % bytes_of t ≡ 0))

module _ (v root : ℕ) (aligned : root % 2 ^ 12 ≡ 0) (small : v < 2 ^ 64)
    (canonical : canonicalize_address v ≡ v) where
  pub located_4k :
      (t1 t2 t3 page : ℕ)
      → t1 % 2 ^ 12 ≡ 0
      → t2 % 2 ^ 12 ≡ 0
      → t3 % 2 ^ 12 ≡ 0
      → page % 2 ^ 12 ≡ 0
      → Locates v (record {
        pml4e = some (root + v / 2 ^ 39 % 512 * 8);
        pdpe = some (t1 + v / 2 ^ 30 % 512 * 8);
        pde = some (t2 + v / 2 ^ 21 % 512 * 8);
        pte = some (t3 + v / 2 ^ 12 % 512 * 8);
        page = some (page, v % 2 ^ 12);
      })
  unfolding virt_base size
  located_4k t1 t2 t3 page h1 h2 h3 hp = inr (
    page,
    _,
    PageType.page_4k,
    refl,
    refl,
    rw
        (
          slot_index root (v / 2 ^ 39 % 512) aligned (omega arith),
          slot_index t1 (v / 2 ^ 30 % 512) h1 (omega arith),
          slot_index t2 (v / 2 ^ 21 % 512) h2 (omega arith),
          slot_index t3 (v / 2 ^ 12 % 512) h3 (omega arith),
          join (v / 2 ^ 39 % 512) (v / 2 ^ 30 % 512) (v / 2 ^ 21 % 512) (v / 2 ^ 12 % 512)
              (omega arith) (omega arith) (omega arith),
        )
        refl,
    canonical_page v small canonical,
    hp,
  )

  pub located_2m :
      (t1 t2 page : ℕ)
      → t1 % 2 ^ 12 ≡ 0
      → t2 % 2 ^ 12 ≡ 0
      → page % 2 ^ 21 ≡ 0
      → Locates v (record {
        pml4e = some (root + v / 2 ^ 39 % 512 * 8);
        pdpe = some (t1 + v / 2 ^ 30 % 512 * 8);
        pde = some (t2 + v / 2 ^ 21 % 512 * 8);
        pte = none;
        page = some (page, v % 2 ^ 21);
      })
  unfolding virt_base size
  located_2m t1 t2 page h1 h2 hp = inr (
    page,
    _,
    PageType.page_2m,
    refl,
    refl,
    rw
        (
          slot_index root (v / 2 ^ 39 % 512) aligned (omega arith),
          slot_index t1 (v / 2 ^ 30 % 512) h1 (omega arith),
          slot_index t2 (v / 2 ^ 21 % 512) h2 (omega arith),
          join (v / 2 ^ 39 % 512) (v / 2 ^ 30 % 512) (v / 2 ^ 21 % 512) 0 (omega arith)
              (omega arith) (omega arith),
        )
        refl,
    canonical_large v small canonical,
    hp,
  )

  pub located_1g :
      (t1 page : ℕ)
      → t1 % 2 ^ 12 ≡ 0
      → page % 2 ^ 30 ≡ 0
      → Locates v (record {
        pml4e = some (root + v / 2 ^ 39 % 512 * 8);
        pdpe = some (t1 + v / 2 ^ 30 % 512 * 8);
        pde = none;
        pte = none;
        page = some (page, v % 2 ^ 30);
      })
  unfolding virt_base size
  located_1g t1 page h1 hp = inr (
    page,
    _,
    PageType.page_1g,
    refl,
    refl,
    rw
        (
          slot_index root (v / 2 ^ 39 % 512) aligned (omega arith),
          slot_index t1 (v / 2 ^ 30 % 512) h1 (omega arith),
          join (v / 2 ^ 39 % 512) (v / 2 ^ 30 % 512) 0 0 (omega arith) (omega arith) (omega arith),
        )
        refl,
    canonical_huge v small canonical,
    hp,
  )
