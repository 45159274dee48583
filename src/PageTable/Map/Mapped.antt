-- ===== src/PageTable/Map/Mapped.antt =====
-- shared/page_table/src/lib.rs: `map_raw` refuses and changes nothing, or `translate` finds the page.
use chocolate_milk.Base.{
  ℕ, zero, suc, ◌≡◌, ◌≢◌, refl, sym, ap, ◌∙◌, arith, Bool, Bool-cases, true, false, ◌==◌, ◌||◌,
  ==→≡, Option, none, some, Option-cases, inl, inr, ◌⊎◌, List, [], ◌∷◌, get_elem?, not, ◌&&◌,
  is_none,
}
use chocolate_milk.PageTable.{
  PageType, Mapping, canonicalize_address, PhysMem, is_present, is_large, translate,
}
use chocolate_milk.PageTable.Laws.{PhysLaws}
use chocolate_milk.PageTable.Map.{depth_of, is_entry, is_4k, entries_of, install, map_raw}
use chocolate_milk.PageTable.Map.Path.{AllSlots, AllApart}
use chocolate_milk.Base.Outcome.{ok}
use chocolate_milk.Base.Returns.{Returns, Returns-ok, Returns-bind}
use chocolate_milk.PageTable.Map.Begins.{slots_of, starts}
use chocolate_milk.PageTable.Map.Found.{IsMapped, finish-IsMapped}
use chocolate_milk.PageTable.Map.Install.{OutOfMemory, Knows, create_tables-Knows}

-- The guard of `map_raw`, with the page present.
not-both : (b c : Bool) → (b || c) ≡ true → (not b && not c) ≡ false
not-both true c h = refl
not-both false true h = refl
not-both false false h = cc

not-either : (b c : Bool) → (b || c) ≡ false → (not b && not c) ≡ true
not-either false false h = refl
not-either false true h = cc
not-either true c h = cc

true≢false : ◌≢◌ {A = Bool} true false
true≢false h = ground (arith, h)

some_is : {A : Type 0} {o : Option A} {a : A} → o ≡ some a → o ≢ none
some_is p e = ground (arith, sym p ∙ e)

module _ {S : Type 0} (mem : PhysMem S) (Owned : S → ℕ → Type 0) (laws : PhysLaws mem Owned) (s : S)
    (root v : ℕ) where
  -- The entries on the way to the address are owned and pairwise different.
  abbrev pub IsUnshared : Type 0
  IsUnshared =
      (m : Mapping)
      → translate mem s root v ≡ some m
      → AllSlots mem Owned s (slots_of m) × AllApart mem Owned (slots_of m)

  -- Why `map_raw` refuses: the entry could never be valid, or the address is not canonical, it is
  -- mapped, or a table of smaller pages is in the way.
  abbrev pub IsRefused : PageType → ℕ → Type 0
  IsRefused t raw =
      (is_present raw ≡ false)
      ⊎ (((is_4k t || is_large raw) ≡ false)
          ⊎ ((translate mem s root v ≡ none)
              ⊎ ((m : Mapping) × (translate mem s root v ≡ some m)
                  × ((m.page ≢ none) ⊎ (is_entry (get_elem? (entries_of m) (depth_of t)) ≡ true)))))

  abbrev pub IsMapping : PageType → ℕ → Bool × S → Type 0
  IsMapping t raw out =
      ((out.0 ≡ false) × (out.1 ≡ s) × IsRefused t raw)
      ⊎ ((out.0 ≡ true) × IsMapped v t raw (translate mem out.1 root v) × ¬ IsRefused t raw)

  no_root : List (Option ℕ) → Bool
  no_root [] = true
  no_root (e ∷ rest) = is_none e

  Knows-no_root :
      (k : ℕ) (en : List (Option ℕ)) → Knows mem Owned laws root v k (s, en) → no_root en ≡ false
  unfolding no_root
  Knows-no_root zero en h = elim h [ ]
  Knows-no_root (suc zero) en (_, eq, _) = ap no_root eq
  Knows-no_root (suc (suc zero)) en (_, _, eq, _) = ap no_root eq
  Knows-no_root (suc (suc (suc zero))) en (_, _, _, eq, _) = ap no_root eq
  Knows-no_root (suc (suc (suc (suc zero)))) en (_, _, _, _, eq, _) = ap no_root eq
  Knows-no_root (suc (suc (suc (suc (suc k))))) en h = elim h [ ]

  installs :
      (t : PageType) (raw : ℕ) (m : Mapping)
      → canonicalize_address v ≡ v
      → is_present raw ≡ true
      → (is_4k t || is_large raw) ≡ true
      → is_entry (get_elem? (entries_of m) (depth_of t)) ≡ false
      → (k : ℕ) × Knows mem Owned laws root v k (s, entries_of m)
      → Returns
          (OutOfMemory mem Owned laws root v)
          (λ s'. IsMapped v t raw (translate mem s' root v))
          (install mem s v (depth_of t) raw m)
  unfolding install no_root
  installs t raw m canonical present large clear (k, known) =
      rw (Knows-no_root k (entries_of m) known) (
        Returns-bind _ _ _ _
          (create_tables-Knows mem Owned laws root v k t s (entries_of m) known clear)
          (λ x done.
            let (above, last, a, l, found) =
              finish-IsMapped mem Owned laws x.0 root v raw canonical present t x.1 large done in
            rw (a, l) (Returns-ok _ _ _ found)))

  canonical : (m : Mapping) → translate mem s root v ≡ some m → canonicalize_address v ≡ v
  unfolding translate
  canonical m e = elim (Bool-cases (canonicalize_address v == v)) [
    | inl same ↦ ==→≡ (canonicalize_address v) v same
    | inr other ↦ absurd (ground (arith, e, other))
  ]

  page_in : Option Mapping → Option (ℕ × ℕ)
  page_in none = none
  page_in (some m) = m.page

  blocked_in : PageType → Option Mapping → Bool
  blocked_in t none = false
  blocked_in t (some m) = is_entry (get_elem? (entries_of m) (depth_of t))

  not-IsRefused :
      (t : PageType) (raw : ℕ) (m : Mapping)
      → is_present raw ≡ true
      → (is_4k t || is_large raw) ≡ true
      → translate mem s root v ≡ some m
      → m.page ≡ none
      → is_entry (get_elem? (entries_of m) (depth_of t)) ≡ false
      → ¬ IsRefused t raw
  unfolding page_in blocked_in
  not-IsRefused t raw m p l e free clear (inl h) = true≢false (sym p ∙ h)
  not-IsRefused t raw m p l e free clear (inr (inl h)) = true≢false (sym l ∙ h)
  not-IsRefused t raw m p l e free clear (inr (inr (inl h))) = some_is e h
  not-IsRefused t raw m p l e free clear (inr (inr (inr (m', e', inl h)))) =
      h (sym (ap page_in e') ∙ ap page_in e ∙ free)
  not-IsRefused t raw m p l e free clear (inr (inr (inr (m', e', inr h)))) =
      true≢false (sym h ∙ sym (ap (blocked_in t) e') ∙ ap (blocked_in t) e ∙ clear)

  refuses :
      (t : PageType) (raw : ℕ)
      → IsRefused t raw
      → Returns (OutOfMemory mem Owned laws root v) (IsMapping t raw) (ok (false, s))
  refuses t raw why = Returns-ok _ _ _ (inl (refl, refl, why))

  -- For physical memory that keeps what is written and an allocator of memory that nobody owns, and
  -- entries on the way to the address that are owned and different: `map_raw` panics only where the
  -- allocator has no page for a table. Else it refuses, for one of its reasons, and the state stays
  -- as it was, or no reason applies, and in the new state `translate` finds at the address the page
  -- of the entry, with the address's offset in it and the size asked for.
  pub map_raw-IsMapping :
      (t : PageType) (raw : ℕ)
      → IsUnshared
      → Returns (OutOfMemory mem Owned laws root v) (IsMapping t raw) (map_raw mem s root v t raw)
  unfolding map_raw
  map_raw-IsMapping t raw apart = elim (Bool-cases (is_present raw)) [
    | inr absent ↦ rw absent (refuses t raw (inl absent))
    | inl present ↦ elim (Bool-cases (is_4k t || is_large raw)) [
      | inr small ↦
          rw (present, not-either (is_4k t) (is_large raw) small) (refuses t raw (inr (inl small)))
      | inl large ↦ elim (Option-cases (translate mem s root v)) [
        | inl nowhere ↦
            rw (present, not-both (is_4k t) (is_large raw) large, nowhere, map_raw)
              (refuses t raw (inr (inr (inl nowhere))))
        | inr (m, e) ↦ elim (Option-cases m.page) [
          | inr (page, mapped) ↦
              rw (present, not-both (is_4k t) (is_large raw) large, e, map_raw, mapped)
                (refuses t raw (inr (inr (inr (m, e, inl (some_is mapped))))))
          | inl free ↦ elim (Bool-cases (is_entry (get_elem? (entries_of m) (depth_of t)))) [
            | inl blocked ↦
                rw (present, not-both (is_4k t) (is_large raw) large, e, map_raw, free, blocked)
                  (refuses t raw (inr (inr (inr (m, e, inr blocked)))))
            | inr clear ↦
                let open_slot : is_none m.page ≡ true = ap is_none free in
                let (slots, distinct) = apart m e in
                let known = starts mem Owned laws s root v m e free slots distinct in
                rw (present, not-both (is_4k t) (is_large raw) large, e, map_raw, open_slot, clear)
                  (Returns-bind _ _ _ _ (installs t raw m (canonical m e) present large clear known)
                    (λ s' found.
                      Returns-ok _ _ _
                        (inr (refl, found, not-IsRefused t raw m present large e free clear))))
          ]
        ]
      ]
    ]
  ]
