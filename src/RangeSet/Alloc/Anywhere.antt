-- ===== src/RangeSet/Alloc/Anywhere.antt =====
-- shared/rangeset/src/lib.rs: the search of `allocate_prefer` without a preferred region.
use chocolate_milk.Base.{ℕ, ◌^◌, ◌≤◌, ◌<◌, ◌≡◌, ◌⊎◌, inl, inr, refl, arith, ◌∙◌}
use chocolate_milk.Base.{Bool-cases, leb, ◌&&◌, Option, some, none, List, [], ◌∷◌}
use chocolate_milk.RangeSet.{Range, u64_max}
use chocolate_milk.RangeSet.Meaning.{All}
use chocolate_milk.RangeSet.Alloc.{Allocation, preferred, better, search}
use chocolate_milk.RangeSet.Alloc.Search.{plain_end, plain_at}

module _ (usize_max size k : ℕ) where
  -- An entry whose sums stay in u64.
  abbrev pub NoOverflow : Range → Type 0
  NoOverflow e = plain_end usize_max size k e ≤ u64_max

  -- An entry with room for the plain allocation in the address space.
  abbrev pub Roomy : Range → Type 0
  Roomy e = (plain_end usize_max size k e ≤ usize_max) × (plain_end usize_max size k e ≤ e.end)

  abbrev pub AnyRoomy : List Range → Type 0
  AnyRoomy [] = ⊥
  AnyRoomy (e ∷ es) = Roomy e ⊎ AnyRoomy es

  abbrev anywhere : Option Allocation → List Range → Option (Option Allocation)
  anywhere = search usize_max size (2 ^ k) none

  -- Without a preferred region an entry is passed over or taken into account.
  search-step :
      (best : Option Allocation) (e : Range) (es : List Range)
      → usize_max ≤ u64_max
      → NoOverflow e
      → (anywhere best (e ∷ es) ≡ anywhere best es) × (¬ Roomy e)
        ⊎ (anywhere best (e ∷ es)
            ≡ anywhere (some (better usize_max best (plain_at usize_max size k e))) es)
          × Roomy e
  unfolding search preferred
  search-step best e es wide h = ground arith

  search_keeps :
      (a : Allocation) (es : List Range)
      → usize_max ≤ u64_max
      → All NoOverflow es
      → (b : Allocation) × (anywhere (some a) es ≡ some (some b))
  unfolding search
  search_keeps a [] wide h = (a, refl)
  search_keeps a (e ∷ es) wide h = elim (search-step (some a) e es wide h.0) [
    | inl skipped ↦ let ih = search_keeps a es wide h.1 in (ih.0, skipped.0 ∙ ih.1)
    | inr taken ↦
        let ih =
          search_keeps (better usize_max (some a) (plain_at usize_max size k e)) es wide h.1 in
        (ih.0, taken.0 ∙ ih.1)
  ]

  -- Without a preferred region, where no sum overflows, a roomy entry is found.
  pub search_finds :
      (best : Option Allocation) (es : List Range)
      → usize_max ≤ u64_max
      → All NoOverflow es
      → AnyRoomy es
      → (b : Allocation) × (anywhere best es ≡ some (some b))
  search_finds best [] wide h r = absurd r
  search_finds best (e ∷ es) wide h r = elim (search-step best e es wide h.0) [
    | inl skipped ↦ elim r [
      | inl here ↦ absurd (skipped.1 here)
      | inr later ↦ let ih = search_finds best es wide h.1 later in (ih.0, skipped.0 ∙ ih.1)
    ]
    | inr taken ↦
        let ih = search_keeps (better usize_max best (plain_at usize_max size k e)) es wide h.1 in
        (ih.0, taken.0 ∙ ih.1)
  ]

  abbrev pub Overflows : List Range → Type 0
  Overflows [] = ⊥
  Overflows (e ∷ es) = (u64_max < plain_end usize_max size k e) ⊎ Overflows es

  pub Overflows-cases : (es : List Range) → All NoOverflow es ⊎ Overflows es
  Overflows-cases [] = inl tt
  Overflows-cases (e ∷ es) = elim (Bool-cases (leb (plain_end usize_max size k e) u64_max)) [
    | inl fits ↦ elim (Overflows-cases es) [
      | inl rest ↦ inl (ground arith, rest)
      | inr later ↦ inr (inr later)
    ]
    | inr over ↦ inr (inl (ground arith))
  ]

  pub AnyRoomy-cases : (es : List Range) → AnyRoomy es ⊎ All (λ e. ¬ Roomy e) es
  AnyRoomy-cases [] = inr tt
  AnyRoomy-cases (e ∷ es) =
      elim (Bool-cases (
        leb (plain_end usize_max size k e) usize_max && leb (plain_end usize_max size k e) e.end)) [
          | inl fits ↦ inl (inl (ground arith))
          | inr small ↦ elim (AnyRoomy-cases es) [
            | inl later ↦ inl (inr later)
            | inr rest ↦ inr (ground arith, rest)
          ]
        ]

  -- An overflow at an entry ends the search.
  search_overflow :
      (best : Option Allocation) (e : Range) (es : List Range)
      → u64_max < plain_end usize_max size k e
      → anywhere best (e ∷ es) ≡ none
  unfolding search
  search_overflow best e es h = ground arith

  -- Without a preferred region the search comes to every entry, also behind one with room.
  pub search-Overflows :
      (es : List Range) (best : Option Allocation)
      → usize_max ≤ u64_max
      → Overflows es
      → anywhere best es ≡ none
  search-Overflows [] best wide o = absurd o
  search-Overflows (e ∷ es) best wide o =
      elim (Bool-cases (leb (plain_end usize_max size k e) u64_max)) [
        | inr over ↦ search_overflow best e es (ground arith)
        | inl fits ↦ elim o [
          | inl here ↦ search_overflow best e es here
          | inr later ↦ elim (search-step best e es wide (ground arith)) [
            | inl skipped ↦ skipped.0 ∙ search-Overflows es best wide later
            | inr taken ↦ taken.0 ∙ search-Overflows es _ wide later
          ]
        ]
      ]

  pub search_nothing :
      (es : List Range)
      → usize_max ≤ u64_max
      → All NoOverflow es
      → All (λ e. ¬ Roomy e) es
      → anywhere none es ≡ some none
  unfolding search
  search_nothing [] wide h n = refl
  search_nothing (e ∷ es) wide h n = elim (search-step none e es wide h.0) [
    | inl skipped ↦ skipped.0 ∙ search_nothing es wide h.1 n.1
    | inr taken ↦ absurd (n.0 taken.1)
  ]
