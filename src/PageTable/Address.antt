-- ===== src/PageTable/Address.antt =====
-- shared/page_table/src/lib.rs: the entries that `translate` walks give the address back.
use chocolate_milk.Base.{
  ℕ, suc, ◌+◌, ◌*◌, ◌/◌, ◌%◌, ◌^◌, ◌<◌, ◌≡◌, refl, arith, ◌==◌, Bool-cases, false, ==→≡, ==→≢, ◌≢◌,
  none, some, List, [], ◌∷◌, ◌⊎◌, inl, inr, drop,
}
use chocolate_milk.PageTable.Located.{
  table_of_aligned, present_bit, small_bit, Locates, located_4k, located_2m, located_1g,
}
use chocolate_milk.PageTable.{
  Mapping, canonicalize_address, PhysMem, indices, is_present, is_large, table_of, walk,
  nothing_mapped, translate, set_entry, set_page,
}

module _ {S : Type 0} (mem : PhysMem S) (s : S) (v : ℕ) where
  -- One level: the walk stops without a page, ends in a page, or goes on.
  pub walk-step :
      (t d i : ℕ) (rest : List ℕ) (ret : Mapping)
      → (walk mem s v t d (i ∷ rest) ret ≡ set_entry d (t + i * 8) ret)
        ⊎ ((walk mem s v t d (i ∷ rest) ret
              ≡ set_page d (table_of (mem.read s (t + i * 8))) v (set_entry d (t + i * 8) ret))
            ⊎ ((walk mem s v t d (i ∷ rest) ret
                  ≡ walk mem s v
                      (table_of (mem.read s (t + i * 8)))
                      (suc d)
                      rest
                      (set_entry d (t + i * 8) ret))
                × ((d == 3) ≡ false)
                × (mem.read s (t + i * 8) % 2 ≡ 1)
                × (mem.read s (t + i * 8) / 2 ^ 7 % 2 ≡ 0)))
  unfolding walk
  walk-step t d i rest ret = elim (Bool-cases (is_present (mem.read s (t + i * 8)))) [
    | inr absent ↦ inl (rw absent refl)
    | inl present ↦ elim (Bool-cases (d == 3)) [
      | inl last ↦ inr (inl (rw (present, last) refl))
      | inr inner ↦ elim (Bool-cases (is_large (mem.read s (t + i * 8)))) [
        | inl large ↦ inr (inl (rw (present, inner, large) refl))
        | inr small ↦ inr (
            inr (
              rw (present, inner, small) refl,
              inner,
              present_bit (mem.read s (t + i * 8)) present,
              small_bit (mem.read s (t + i * 8)) small,
            ))
      ]
    ]
  ]

  module _ (root : ℕ) (aligned : root % 2 ^ 12 ≡ 0) (small : v < 2 ^ 64)
      (canonical : canonicalize_address v ≡ v) where
    abbrev read_at : ℕ → ℕ → ℕ
    read_at t shift = mem.read s (t + v / shift % 512 * 8)

    walk-Locates : Locates v (walk mem s v root 0 (indices v) nothing_mapped)
    walk-Locates =
        let m0 = set_entry 0 (root + v / 2 ^ 39 % 512 * 8) nothing_mapped in
        let t1 = table_of (read_at root (2 ^ 39)) in
        let m1 = set_entry 1 (t1 + v / 2 ^ 30 % 512 * 8) m0 in
        let t2 = table_of (read_at t1 (2 ^ 30)) in
        let m2 = set_entry 2 (t2 + v / 2 ^ 21 % 512 * 8) m1 in
        let t3 = table_of (read_at t2 (2 ^ 21)) in
        let a1 = table_of_aligned (read_at root (2 ^ 39)) in
        let a2 = table_of_aligned (read_at t1 (2 ^ 30)) in
        let a3 = table_of_aligned (read_at t2 (2 ^ 21)) in
        elim (walk-step root 0 (v / 2 ^ 39 % 512) (drop 1 (indices v)) nothing_mapped) [
          | inl e ↦ rw e (inl refl)
          | inr (inl e) ↦ rw e (inl refl)
          | inr (inr (e0, _, _, _)) ↦
              elim (walk-step t1 1 (v / 2 ^ 30 % 512) (drop 2 (indices v)) m0) [
                | inl e ↦ rw (e0, e) (inl refl)
                | inr (inl e) ↦
                    rw (e0, e)
                      (located_1g v root aligned small canonical t1 (t2 / 2 ^ 30 * 2 ^ 30) a1
                        (omega arith))
                | inr (inr (e1, _, _, _)) ↦
                    elim (walk-step t2 2 (v / 2 ^ 21 % 512) (drop 3 (indices v)) m1) [
                      | inl e ↦ rw (e0, e1, e) (inl refl)
                      | inr (inl e) ↦
                          rw (e0, e1, e)
                            (located_2m v root aligned small canonical t1 t2 (t3 / 2 ^ 21 * 2 ^ 21)
                              a1 a2 (omega arith))
                      | inr (inr (e2, _, _, _)) ↦ elim (walk-step t3 3 (v / 2 ^ 12 % 512) [] m2) [
                        | inl e ↦ rw (e0, e1, e2, e) (inl refl)
                        | inr (inl e) ↦
                            let t4 = table_of (read_at t3 (2 ^ 12)) in
                            rw (e0, e1, e2, e)
                              (located_4k v root aligned small canonical t1 t2 t3
                                (t4 / 2 ^ 12 * 2 ^ 12) a1 a2 a3 (omega arith))
                        | inr (inr (_, e, _, _)) ↦ cc
                      ]
                    ]
              ]
        ]

  -- `translate` refuses exactly the addresses that are not canonical. For every other 64-bit address
  -- and a root on a page boundary, the mapping either has no page, or it has a page of a size `t`
  -- that starts on a multiple of that size, with the address's offset in it, `size` gives `t`, and
  -- `virt_base` puts the indices of the entries together to the base that gives the address back
  -- with the offset added, whatever the memory holds.
  pub translate-Locates :
      (root : ℕ)
      → root % 2 ^ 12 ≡ 0
      → v < 2 ^ 64
      → ((translate mem s root v ≡ none) × (canonicalize_address v ≢ v))
        ⊎ ((m : Mapping) × (translate mem s root v ≡ some m) × Locates v m)
  unfolding translate
  translate-Locates root aligned small = elim (Bool-cases (canonicalize_address v == v)) [
    | inr other ↦ inl (rw other refl, ==→≢ (canonicalize_address v) v other)
    | inl same ↦ inr (
      walk mem s v root 0 (indices v) nothing_mapped,
      rw same refl,
      walk-Locates root aligned small (==→≡ (canonicalize_address v) v same),
    )
  ]
