-- ===== src/PageTable/Map/Grow.antt =====
-- shared/page_table/src/lib.rs: `map_raw` hangs a new table behind the last entry of a path.
use chocolate_milk.Base.{
  ℕ, ◌+◌, ◌*◌, ◌/◌, ◌%◌, ◌^◌, ◌<◌, ◌≡◌, refl, ap, ◌∙◌, arith, some, List, [], ◌∷◌,
}
use chocolate_milk.PageTable.{PhysMem}
use chocolate_milk.PageTable.Map.{add_reference}
use chocolate_milk.PageTable.Laws.{PhysLaws}
use chocolate_milk.PageTable.Map.Path.{
  link_word, link_word_lem, IsLink, IsPath, Agree, IsPath-Agree, AllSlots, IsApart, IsSound,
  written-Agree, owned-written, add_reference-Agree,
}

new-IsLink : (t : ℕ) → t / 2 ^ 12 * 2 ^ 12 ≡ t → t < 2 ^ 52 → IsLink (t + 7) t
new-IsLink t h k = (omega arith, omega arith, omega arith)

module _ {S : Type 0} (mem : PhysMem S) (Owned : S → ℕ → Type 0) (laws : PhysLaws mem Owned) where
  pub Agree-trans :
      (s t u : S) (es : List ℕ) → Agree mem s t es → Agree mem t u es → Agree mem s u es
  Agree-trans s t u [] a b = tt
  Agree-trans s t u (e ∷ es) a b = (b.0 ∙ a.0, Agree-trans s t u es a.1 b.1)

  -- The entry whose count `map_raw` raises for a new table behind the first of the entries.
  abbrev pub counted : S → List ℕ → S
  counted s [] = s
  counted s (e ∷ es) = add_reference mem s e

  pub counted-slots :
      (s : S) (above es : List ℕ)
      → AllSlots mem Owned s es
      → AllSlots mem Owned (counted s above) es
  unfolding add_reference
  counted-slots s [] es o = o
  counted-slots s (e ∷ above) es o = owned-written mem Owned laws s e _ es o

  counted-Agree :
      (s : S) (above es : List ℕ)
      → AllSlots mem Owned s above
      → AllSlots mem Owned s es
      → Agree mem s (counted s above) es
  counted-Agree s [] [] o o' = tt
  counted-Agree s [] (f ∷ es) o o' = (refl, counted-Agree s [] es o o'.1)
  counted-Agree s (e ∷ above) es o o' = add_reference-Agree mem Owned laws s e es o.0.1 o'

  module _ (s s1 : S) (table : ℕ) (fresh : mem.alloc_phys s 4096 4096 ≡ some (table, s1)) where
    aligned : table / 2 ^ 12 * 2 ^ 12 ≡ table
    aligned = laws.alloc_aligned s 4096 12 table s1 fresh

    zeroed-slots :
        (es : List ℕ)
        → AllSlots mem Owned s es
        → AllSlots mem Owned (mem.zero_bytes s1 table 4096) es
    zeroed-slots [] o = tt
    zeroed-slots (e ∷ es) o = (
      (
        laws.zero_owned s1 table 4096 e (laws.alloc_owned s 4096 4096 table e s1 fresh o.0.0),
        o.0.1,
      ),
      zeroed-slots es o.1,
    )

    zeroed-Agree :
        (es : List ℕ) → AllSlots mem Owned s es → Agree mem s (mem.zero_bytes s1 table 4096) es
    zeroed-Agree [] o = tt
    zeroed-Agree (e ∷ es) o = (
      ap (λ (t : ℕ). t % 2 ^ 52)
          (laws.read_outside s1 table 4096 e (omega (arith, aligned)) refl o.0.1
              (laws.alloc_fresh s 4096 4096 table e s1 fresh o.0.0)
            ∙ laws.alloc_kept s 4096 4096 table e s1 fresh o.0.0),
      zeroed-Agree es o.1,
    )

    module _ (j : ℕ) (small : j < 512) where
      slot-IsApart : (es : List ℕ) → AllSlots mem Owned s es → IsApart mem Owned (table + j * 8) es
      slot-IsApart [] o = tt
      slot-IsApart (e ∷ es) o = (
        λ same.
            laws.alloc_fresh s 4096 4096 table e s1 fresh o.0.0 (omega (arith, same))
              (omega (arith, same)),
        slot-IsApart es o.1,
      )

      abbrev pub grown : ℕ → List ℕ → S
      grown e es = mem.write (counted (mem.zero_bytes s1 table 4096) es) e (link_word table)

      pub grown-IsSound :
          (root : ℕ) (is : List ℕ) (e : ℕ) (es : List ℕ)
          → IsSound mem Owned s root is (e ∷ es)
          → IsSound mem Owned (grown e es) root (j ∷ is) ((table + j * 8) ∷ e ∷ es)
      grown-IsSound root is e es h =
          let slots = h.slots in
          let zeroed = mem.zero_bytes s1 table 4096 in
          let zs = zeroed-slots (e ∷ es) slots in
          let cs = counted-slots zeroed es (e ∷ es) zs in
          let agree : Agree mem s (grown e es) es =
            Agree-trans s zeroed (grown e es) es (zeroed-Agree es slots.1) (
              Agree-trans zeroed (counted zeroed es) (grown e es) es
                (counted-Agree zeroed es es zs.1 zs.1)
                (written-Agree mem Owned laws (counted zeroed es) e (link_word table) es slots.0.1
                  h.apart.0 cs.1)) in
          let word : mem.read (grown e es) e ≡ table + 7 =
            laws.read_written (counted zeroed es) e (link_word table) slots.0.1
            ∙ link_word_lem table aligned in
          let link : IsLink (mem.read (grown e es) e) table =
            rw word (new-IsLink table aligned (laws.alloc_physical s 4096 4096 table s1 fresh)) in
          let f = table + j * 8 in
          let new_owned : Owned zeroed f =
            laws.zero_owned s1 table 4096 f
              (laws.alloc_new s 4096 4096 table f s1 fresh (omega arith) (omega arith)) in
          let ns = counted-slots zeroed es (f ∷ e ∷ es) ((new_owned, omega (arith, aligned)), zs) in
          record {
            path = path is h.path agree link;
            slots =
                owned-written mem Owned laws (counted zeroed es) e (link_word table) (f ∷ e ∷ es)
                  ns;
            apart = (slot-IsApart (e ∷ es) slots, h.apart);
          }
        where
          path :
              (is : List ℕ)
              → IsPath mem s root is (e ∷ es)
              → Agree mem s (grown e es) es
              → IsLink (mem.read (grown e es) e) table
              → IsPath mem (grown e es) root (j ∷ is) ((table + j * 8) ∷ e ∷ es)
          path [] p a l = elim p [ ]
          path (i ∷ is) p a l =
              ((table, l, refl), IsPath-Agree mem s (grown e es) root (i ∷ is) e es a p)
