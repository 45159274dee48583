-- ===== src/Tests/PageTable.antt =====
-- shared/page_table/src/lib.rs over a memory of words with an allocator of whole pages.
use chocolate_milk.Base.{
  ℕ, ◌+◌, ◌*◌, ◌/◌, ◌^◌, ◌≤◌, ◌<◌, ◌≡◌, ◌≢◌, refl, subst, arith, ◌&&◌, ltb, leb, ◌==◌,
  if◌then◌else◌, Bool-cases, inl, inr, ◌⊎◌, Option, none, some,
}
use chocolate_milk.Base.Returns.{Returns}
use chocolate_milk.PageTable.{PageType, Mapping, PhysMem, canonicalize_address, translate, walk}
use chocolate_milk.PageTable.Located.{Locates}
use chocolate_milk.PageTable.Address.{translate-Locates}
use chocolate_milk.PageTable.Laws.{PhysLaws}
use chocolate_milk.PageTable.Map.{map_raw}
use chocolate_milk.PageTable.Map.Path.{AllSlots, AllApart}
use chocolate_milk.PageTable.Map.Begins.{slots_of}
use chocolate_milk.PageTable.Map.Mapped.{IsUnshared, IsMapping, map_raw-IsMapping}
use chocolate_milk.PageTable.Map.Install.{OutOfMemory}

record Ram : Type 0 where
  words : ℕ → ℕ
  next : ℕ

abbrev write_word : Ram → ℕ → ℕ → Ram
write_word s a v = record { words = λ b. if a == b then v else s.words b; next = s.next }

abbrev clear : Ram → ℕ → ℕ → Ram
clear s a n = record {
  words = λ b. if leb a b && ltb b (a + n) then 0 else s.words b;
  next = s.next;
}

abbrev next_page : Ram → ℕ
next_page s = (s.next + 4095) / 4096 * 4096

abbrev pages : Ram → ℕ → ℕ → Option (ℕ × Ram)
pages s n k =
    if (k == 4096) && ltb (next_page s + n) (2 ^ 52)
    then some (next_page s, record { words = s.words; next = next_page s + n })
    else none

abbrev ram : PhysMem Ram
ram = record {
  read = λ s a. s.words a;
  write = write_word;
  write_byte = write_word;
  zero_bytes = clear;
  alloc_phys = pages;
  free_phys = λ s a n. s;
  read_cr3 = λ s. 0;
  write_cr3 = λ s v. s;
}

abbrev Below : Ram → ℕ → Type 0
Below s b = b < s.next

-- What an allocation says.
Allocated : Ram → ℕ → ℕ → Option (ℕ × Ram) → Type 0
Allocated s n k none = Unit
Allocated s n k (some (a, s')) =
    (k ≡ 4096)
    × (a ≡ next_page s)
    × (a + n < 2 ^ 52)
    × (s'.next ≡ a + n)
    × ((b : ℕ) → s'.words b ≡ s.words b)

pages-Allocated : (s : Ram) (n k : ℕ) → Allocated s n k (pages s n k)
unfolding Allocated
pages-Allocated s n k = elim (Bool-cases ((k == 4096) && ltb (next_page s + n) (2 ^ 52))) [
  | inr out ↦ rw out tt
  | inl fits ↦ rw fits (ground arith, refl, ground arith, refl, λ b. refl)
]

allocated :
    (s : Ram) (n k a : ℕ) (s' : Ram)
    → pages s n k ≡ some (a, s')
    → (k ≡ 4096)
      × (a ≡ next_page s)
      × (a + n < 2 ^ 52)
      × (s'.next ≡ a + n)
      × ((b : ℕ) → s'.words b ≡ s.words b)
unfolding Allocated
allocated s n k a s' e = subst (Allocated s n k) e (pages-Allocated s n k)

unchanged : (s : Ram) (a n b : ℕ) → ((a ≤ b) → (b < a + n) → ⊥) → (clear s a n).words b ≡ s.words b
unchanged s a n b out = elim (Bool-cases (leb a b && ltb b (a + n))) [
  | inr outside ↦ rw outside refl
  | inl inside ↦ absurd (out (ground arith) (ground arith))
]

ram_laws : PhysLaws ram Below
ram_laws = record {
  read_written = λ s a v h. ground arith;
  read_other = λ s a v b h k e. ground arith;
  read_zeroed = λ s a n b h k. ground arith;
  read_outside = λ s a n b h k l out. unchanged s a n b out;
  write_owned = λ s a v b h. h;
  zero_owned = λ s a n b h. h;
  alloc_owned = λ s n k a b s' e h. let (_, at, _, end, _) = allocated s n k a s' e in omega arith;
  alloc_kept = λ s n k a b s' e h. let (_, _, _, _, same) = allocated s n k a s' e in same b;
  alloc_fresh =
      λ s n k a b s' e h p q. let (_, at, _, _, _) = allocated s n k a s' e in omega arith;
  alloc_new = λ s n k a b s' e p q. let (_, _, _, end, _) = allocated s n k a s' e in omega arith;
  alloc_aligned = λ s n j a s' e.
      let (size, at, _, _, _) = allocated s n (2 ^ j) a s' e in rw size (omega arith);
  alloc_physical = λ s n k a s' e. let (_, _, small, _, _) = allocated s n k a s' e in omega arith;
}

abbrev empty : Ram
empty = record { words = λ b. 0; next = 0x2000 }

-- Memory with a table of each level and a page at the address 0x1000.
abbrev mapped : Ram
mapped = record {
  words = λ b.
      if b == 0x1000
      then 0x2003
      else if b == 0x2000
      then 0x3003
      else if b == 0x3000
      then 0x4003
      else if b == 0x4008
      then 0x7003
      else 0;
  next = 0x5000;
}

translate-Locates_example :
    ((translate ram mapped 0x1000 0x1234 ≡ none) × (canonicalize_address 0x1234 ≢ 0x1234))
    ⊎ ((m : Mapping) × (translate ram mapped 0x1000 0x1234 ≡ some m) × Locates 0x1234 m)
translate-Locates_example = translate-Locates ram mapped 0x1234 0x1000 refl (omega arith)

abbrev EmptySlots : Option Mapping → Type 0
EmptySlots none = Unit
EmptySlots (some m) = AllSlots ram Below empty (slots_of m) × AllApart ram Below (slots_of m)

EmptySlots-some :
    (o : Option Mapping) (m : Mapping) → EmptySlots o → o ≡ some m → EmptySlots (some m)
EmptySlots-some o m h e = subst EmptySlots e h

empty-IsUnshared : IsUnshared ram Below ram_laws empty 0x1000 0x1000
unfolding translate walk canonicalize_address
empty-IsUnshared m e =
    EmptySlots-some (translate ram empty 0x1000 0x1000) m (((omega arith, refl), tt), (tt, tt)) e

map_raw-IsMapping_example :
    Returns
      (OutOfMemory ram Below ram_laws 0x1000 0x1000)
      (IsMapping ram Below ram_laws empty 0x1000 0x1000 PageType.page_4k 0x7003)
      (map_raw ram empty 0x1000 0x1000 PageType.page_4k 0x7003)
map_raw-IsMapping_example =
    map_raw-IsMapping ram Below ram_laws empty 0x1000 0x1000 PageType.page_4k 0x7003
      empty-IsUnshared
