-- ===== src/PageTable/Map/Install.antt =====
-- shared/page_table/src/lib.rs: the tables that `map_raw` creates make a path to the new entry.
use chocolate_milk.Base.{
  ℕ, zero, suc, ◌+◌, ◌-◌, ◌*◌, ◌/◌, ◌%◌, ◌^◌, ◌≡◌, refl, arith, Option, none, some, Option-cases,
  inl, inr, List, [], ◌∷◌, get_elem?, false,
}
use chocolate_milk.Base.Returns.{Returns, Returns-ok, Returns-panic, Returns-bind}
use chocolate_milk.PageTable.{PageType, PhysMem, alloc_phys_zeroed}
use chocolate_milk.PageTable.Laws.{PhysLaws}
use chocolate_milk.PageTable.Map.{depth_of, is_entry, create_table, create_tables}
use chocolate_milk.PageTable.Map.Path.{IsSound, link_word}
use chocolate_milk.PageTable.Map.Grow.{grown-IsSound}

module _ {S : Type 0} (mem : PhysMem S) (Owned : S → ℕ → Type 0) (laws : PhysLaws mem Owned)
    (root v : ℕ) where
  -- The allocator gave no page for a table.
  abbrev pub OutOfMemory : Type 0
  OutOfMemory = (s : S) × (mem.alloc_phys s 4096 4096 ≡ none)

  -- `map_raw` knows the first `k` entries, and they are a path.
  abbrev pub Knows : ℕ → S × List (Option ℕ) → Type 0
  Knows (suc zero) x =
      (e0 : ℕ) × (x.1 ≡ some e0 ∷ none ∷ none ∷ none ∷ [])
      × IsSound mem Owned x.0 root (v / 2 ^ 39 % 512 ∷ []) (e0 ∷ [])
  Knows (suc (suc zero)) x =
      (e0 : ℕ) × (e1 : ℕ) × (x.1 ≡ some e0 ∷ some e1 ∷ none ∷ none ∷ [])
      × IsSound mem Owned x.0 root (v / 2 ^ 30 % 512 ∷ v / 2 ^ 39 % 512 ∷ []) (e1 ∷ e0 ∷ [])
  Knows (suc (suc (suc zero))) x =
      (e0 : ℕ) × (e1 : ℕ) × (e2 : ℕ) × (x.1 ≡ some e0 ∷ some e1 ∷ some e2 ∷ none ∷ [])
      × IsSound mem Owned x.0 root (v / 2 ^ 21 % 512 ∷ v / 2 ^ 30 % 512 ∷ v / 2 ^ 39 % 512 ∷ [])
          (e2 ∷ e1 ∷ e0 ∷ [])
  Knows (suc (suc (suc (suc zero)))) x =
      (e0 : ℕ) × (e1 : ℕ) × (e2 : ℕ) × (e3 : ℕ) × (x.1 ≡ some e0 ∷ some e1 ∷ some e2 ∷ some e3 ∷ [])
      × IsSound mem Owned x.0 root
          (v / 2 ^ 12 % 512 ∷ v / 2 ^ 21 % 512 ∷ v / 2 ^ 30 % 512 ∷ v / 2 ^ 39 % 512 ∷ [])
          (e3 ∷ e2 ∷ e1 ∷ e0 ∷ [])
  Knows _ x = ⊥

  create_1 :
      (s : S) (en : List (Option ℕ))
      → Knows 1 (s, en)
      → Returns OutOfMemory (Knows 2) (create_table mem v 1 s en)
  unfolding create_table alloc_phys_zeroed link_word
  create_1 s en (e0, eq, h) = elim (Option-cases (mem.alloc_phys s 4096 4096)) [
    | inl n ↦ rw (eq, n) (Returns-panic _ _ (s, n))
    | inr ((table, s1), a) ↦
        rw (eq, a)
          (Returns-ok _ _ _ (
            e0,
            table + v / 2 ^ 30 % 512 * 8,
            refl,
            grown-IsSound mem Owned laws s s1 table a (v / 2 ^ 30 % 512) (omega arith) root _ e0 []
                h,
          ))
  ]

  create_2 :
      (s : S) (en : List (Option ℕ))
      → Knows 2 (s, en)
      → Returns OutOfMemory (Knows 3) (create_table mem v 2 s en)
  unfolding create_table alloc_phys_zeroed link_word
  create_2 s en (e0, e1, eq, h) = elim (Option-cases (mem.alloc_phys s 4096 4096)) [
    | inl n ↦ rw (eq, n) (Returns-panic _ _ (s, n))
    | inr ((table, s1), a) ↦
        rw (eq, a)
          (Returns-ok _ _ _ (
            e0,
            e1,
            table + v / 2 ^ 21 % 512 * 8,
            refl,
            grown-IsSound mem Owned laws s s1 table a (v / 2 ^ 21 % 512) (omega arith) root _ e1
                (e0 ∷ []) h,
          ))
  ]

  create_3 :
      (s : S) (en : List (Option ℕ))
      → Knows 3 (s, en)
      → Returns OutOfMemory (Knows 4) (create_table mem v 3 s en)
  unfolding create_table alloc_phys_zeroed link_word
  create_3 s en (e0, e1, e2, eq, h) = elim (Option-cases (mem.alloc_phys s 4096 4096)) [
    | inl n ↦ rw (eq, n) (Returns-panic _ _ (s, n))
    | inr ((table, s1), a) ↦
        rw (eq, a)
          (Returns-ok _ _ _ (
            e0,
            e1,
            e2,
            table + v / 2 ^ 12 % 512 * 8,
            refl,
            grown-IsSound mem Owned laws s s1 table a (v / 2 ^ 12 % 512) (omega arith) root _ e2
                (e1 ∷ e0 ∷ []) h,
          ))
  ]

  -- The loop from round `ii` on, when `ii` entries are known.
  abbrev Completes : ℕ → ℕ → ℕ → Type 0
  Completes depth left ii =
      (s : S) (en : List (Option ℕ))
      → Knows ii (s, en)
      → Returns OutOfMemory (Knows depth) (create_tables mem left v ii s en)

  done : (depth : ℕ) → Completes depth 0 depth
  unfolding create_tables
  done depth s en k = Returns-ok _ _ _ k

  from_1 : (depth left : ℕ) → Completes depth left 2 → Completes depth (suc left) 1
  unfolding create_tables
  from_1 depth left more s en (e0, eq, h) =
      rw eq (Returns-bind _ _ _ _ (create_1 s _ (e0, refl, h)) (λ x k. more x.0 x.1 k))

  from_2 : (depth left : ℕ) → Completes depth left 3 → Completes depth (suc left) 2
  unfolding create_tables
  from_2 depth left more s en (e0, e1, eq, h) =
      rw eq (Returns-bind _ _ _ _ (create_2 s _ (e0, e1, refl, h)) (λ x k. more x.0 x.1 k))

  from_3 : (depth left : ℕ) → Completes depth left 4 → Completes depth (suc left) 3
  unfolding create_tables
  from_3 depth left more s en (e0, e1, e2, eq, h) =
      rw eq (Returns-bind _ _ _ _ (create_3 s _ (e0, e1, e2, refl, h)) (λ x k. more x.0 x.1 k))

  -- From however many entries are known, the whole loop.
  pub create_tables-Knows :
      (k : ℕ) (t : PageType) (s : S) (en : List (Option ℕ))
      → Knows k (s, en)
      → is_entry (get_elem? en (depth_of t)) ≡ false
      → Returns OutOfMemory (Knows (depth_of t)) (create_tables mem (depth_of t - 1) v 1 s en)
  unfolding create_tables
  create_tables-Knows zero t s en k g = elim k [ ]
  create_tables-Knows (suc zero) PageType.page_1g s en k g = from_1 2 0 (done 2) s en k
  create_tables-Knows (suc zero) PageType.page_2m s en k g = from_1 3 1 (from_2 3 0 (done 3)) s en k
  create_tables-Knows (suc zero) PageType.page_4k s en k g =
      from_1 4 2 (from_2 4 1 (from_3 4 0 (done 4))) s en k
  create_tables-Knows (suc (suc zero)) PageType.page_1g s en (e0, e1, eq, h) g =
      rw eq (done 2 s _ (e0, e1, refl, h))
  create_tables-Knows (suc (suc zero)) PageType.page_2m s en (e0, e1, eq, h) g =
      rw eq (from_2 3 0 (done 3) s _ (e0, e1, refl, h))
  create_tables-Knows (suc (suc zero)) PageType.page_4k s en (e0, e1, eq, h) g =
      rw eq (from_2 4 1 (from_3 4 0 (done 4)) s _ (e0, e1, refl, h))
  create_tables-Knows (suc (suc (suc zero))) PageType.page_1g s en (e0, e1, e2, eq, h) g =
      absurd (ground (arith, eq))
  create_tables-Knows (suc (suc (suc zero))) PageType.page_2m s en (e0, e1, e2, eq, h) g =
      rw eq (done 3 s _ (e0, e1, e2, refl, h))
  create_tables-Knows (suc (suc (suc zero))) PageType.page_4k s en (e0, e1, e2, eq, h) g =
      rw eq (from_3 4 0 (done 4) s _ (e0, e1, e2, refl, h))
  create_tables-Knows (suc (suc (suc (suc zero)))) PageType.page_1g s en (e0, e1, e2, e3, eq, h) g =
      absurd (ground (arith, eq))
  create_tables-Knows (suc (suc (suc (suc zero)))) PageType.page_2m s en (e0, e1, e2, e3, eq, h) g =
      absurd (ground (arith, eq))
  create_tables-Knows (suc (suc (suc (suc zero)))) PageType.page_4k s en (e0, e1, e2, e3, eq, h) g =
      rw eq (done 4 s _ (e0, e1, e2, e3, refl, h))
  create_tables-Knows (suc (suc (suc (suc (suc k))))) t s en h g = elim h [ ]
