-- ===== src/PageTable/Map/Begins.antt =====
-- shared/page_table/src/lib.rs: the entries that `translate` passes without finding a page are the
-- ones that `map_raw` starts from.
use chocolate_milk.Base.{
  ℕ, ◌+◌, ◌*◌, ◌/◌, ◌%◌, ◌^◌, ◌≡◌, refl, subst, Bool-cases, ◌==◌, Option, none, some, inl, inr,
  List, [], ◌∷◌, drop,
}
use chocolate_milk.PageTable.{
  Mapping, canonicalize_address, PhysMem, indices, table_of, set_entry, walk, nothing_mapped,
  translate,
}
use chocolate_milk.PageTable.Address.{walk-step}
use chocolate_milk.PageTable.Laws.{PhysLaws}
use chocolate_milk.PageTable.Map.{entries_of}
use chocolate_milk.PageTable.Map.Path.{AllSlots, AllApart}
use chocolate_milk.PageTable.Map.Install.{Knows}

abbrev pub somes_back : List (Option ℕ) → List ℕ → List ℕ
somes_back [] acc = acc
somes_back (none ∷ rest) acc = somes_back rest acc
somes_back (some e ∷ rest) acc = somes_back rest (e ∷ acc)

-- The entries that a walk has passed, the last one first.
abbrev pub slots_of : Mapping → List ℕ
slots_of m = somes_back (entries_of m) []

module _ {S : Type 0} (mem : PhysMem S) (Owned : S → ℕ → Type 0) (laws : PhysLaws mem Owned) (s : S)
    (root v : ℕ) where
  abbrev pub Begins : Mapping → Type 0
  Begins m =
      m.page ≡ none
      → AllSlots mem Owned s (slots_of m)
      → AllApart mem Owned (slots_of m)
      → (k : ℕ) × Knows mem Owned laws root v k (s, entries_of m)

  abbrev read_at : ℕ → ℕ → ℕ
  read_at t shift = mem.read s (t + v / shift % 512 * 8)

  walk-Begins : Begins (walk mem s v root 0 (indices v) nothing_mapped)
  walk-Begins =
      let m0 = set_entry 0 (root + v / 2 ^ 39 % 512 * 8) nothing_mapped in
      let t1 = table_of (read_at root (2 ^ 39)) in
      let m1 = set_entry 1 (t1 + v / 2 ^ 30 % 512 * 8) m0 in
      let t2 = table_of (read_at t1 (2 ^ 30)) in
      let m2 = set_entry 2 (t2 + v / 2 ^ 21 % 512 * 8) m1 in
      let t3 = table_of (read_at t2 (2 ^ 21)) in
      elim (walk-step mem s v root 0 (v / 2 ^ 39 % 512) (drop 1 (indices v)) nothing_mapped) [
        | inl e ↦ rw e (λ p o a. (1, (_, refl, record { path = refl; slots = o; apart = a })))
        | inr (inl e) ↦ rw e (λ p o a. (1, (_, refl, record { path = refl; slots = o; apart = a })))
        | inr (inr (e0, _, p0, l0)) ↦
            elim (walk-step mem s v t1 1 (v / 2 ^ 30 % 512) (drop 2 (indices v)) m0) [
              | inl e ↦
                  rw (e0, e)
                    (λ p o a. (
                      2,
                      (
                        _,
                        _,
                        refl,
                        record { path = ((t1, (p0, l0, refl), refl), refl); slots = o; apart = a },
                      ),
                    ))
              | inr (inl e) ↦ rw (e0, e) (λ p. cc)
              | inr (inr (e1, _, p1, l1)) ↦
                  elim (walk-step mem s v t2 2 (v / 2 ^ 21 % 512) (drop 3 (indices v)) m1) [
                    | inl e ↦
                        rw (e0, e1, e)
                          (λ p o a. (
                            3,
                            (
                              _,
                              _,
                              _,
                              refl,
                              record {
                                path = (
                                  (t2, (p1, l1, refl), refl),
                                  ((t1, (p0, l0, refl), refl), refl),
                                );
                                slots = o;
                                apart = a;
                              },
                            ),
                          ))
                    | inr (inl e) ↦ rw (e0, e1, e) (λ p. cc)
                    | inr (inr (e2, _, p2, l2)) ↦
                        elim (walk-step mem s v t3 3 (v / 2 ^ 12 % 512) [] m2) [
                          | inl e ↦
                              rw (e0, e1, e2, e)
                                (λ p o a. (
                                  4,
                                  (
                                    _,
                                    _,
                                    _,
                                    _,
                                    refl,
                                    record {
                                      path = (
                                        (t3, (p2, l2, refl), refl),
                                        (
                                          (t2, (p1, l1, refl), refl),
                                          ((t1, (p0, l0, refl), refl), refl),
                                        ),
                                      );
                                      slots = o;
                                      apart = a;
                                    },
                                  ),
                                ))
                          | inr (inl e) ↦ rw (e0, e1, e2, e) (λ p. cc)
                          | inr (inr (_, e, _, _)) ↦ cc
                        ]
                  ]
            ]
      ]

  BeginsAny : Option Mapping → Type 0
  BeginsAny none = Unit
  BeginsAny (some m) = Begins m

  translate-BeginsAny : BeginsAny (translate mem s root v)
  unfolding translate BeginsAny
  translate-BeginsAny = elim (Bool-cases (canonicalize_address v == v)) [
    | inl same ↦ rw same walk-Begins
    | inr other ↦ rw other tt
  ]

  pub starts : (m : Mapping) → translate mem s root v ≡ some m → Begins m
  unfolding BeginsAny
  starts m e = subst BeginsAny e translate-BeginsAny
