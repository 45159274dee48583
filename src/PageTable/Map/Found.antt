-- ===== src/PageTable/Map/Found.antt =====
-- shared/page_table/src/lib.rs: a walk along a path of entries ends in the page that was written.
use chocolate_milk.Base.{
  ℕ, suc, ◌+◌, ◌-◌, ◌*◌, ◌/◌, ◌%◌, ◌^◌, ◌≡◌, refl, subst, ◌∙◌, arith, true, false, ◌==◌, ◌||◌,
  ==_refl, Option, some, List, [], ◌∷◌,
}
use chocolate_milk.Base.Outcome.{ok}
use chocolate_milk.PageTable.{
  PageType, bytes_of, Mapping, canonicalize_address, PhysMem, indices, is_present, is_large,
  table_of, set_entry, set_page, size, walk, nothing_mapped, translate,
}
use chocolate_milk.PageTable.Laws.{PhysLaws}
use chocolate_milk.PageTable.Map.{depth_of, is_4k, entry_of, add_reference}
use chocolate_milk.PageTable.Map.Path.{
  IsLink, IsPath, IsPath-Agree, IsSound, written-Agree, add_reference-Agree,
}
use chocolate_milk.PageTable.Map.Grow.{Agree-trans, counted-slots}
use chocolate_milk.PageTable.Map.Install.{Knows}

present_of : (w : ℕ) → w % 2 ≡ 1 → is_present w ≡ true
present_of w h = ground arith

small_of : (w : ℕ) → w / 2 ^ 7 % 2 ≡ 0 → is_large w ≡ false
small_of w h = ground arith

module _ {S : Type 0} (mem : PhysMem S) (s : S) (v : ℕ) where
  walk-link :
      (t d i : ℕ) (rest : List ℕ) (ret : Mapping) (e t' : ℕ)
      → e ≡ t + i * 8
      → IsLink (mem.read s e) t'
      → (d == 3) ≡ false
      → walk mem s v t d (i ∷ rest) ret ≡ walk mem s v t' (suc d) rest (set_entry d (t + i * 8) ret)
  unfolding walk
  walk-link t d i rest ret e t' at l inner =
      let (p, z, w) = subst (λ x. IsLink (mem.read s x) t') at l in
      rw (present_of (mem.read s (t + i * 8)) p, inner, small_of (mem.read s (t + i * 8)) z, w) refl

  walk-page :
      (t d i : ℕ) (rest : List ℕ) (ret : Mapping) (e raw : ℕ)
      → e ≡ t + i * 8
      → mem.read s e ≡ raw
      → is_present raw ≡ true
      → ((d == 3) || is_large raw) ≡ true
      → walk mem s v t d (i ∷ rest) ret ≡ set_page d (table_of raw) v (set_entry d (t + i * 8) ret)
  unfolding walk
  walk-page t d i rest ret e raw at r p l =
      let there : mem.read s (t + i * 8) ≡ raw = subst (λ x. mem.read s x ≡ raw) at r in
      rw (there, p, l) refl

-- The page that an entry maps, and the offset in it.
abbrev pub IsMapped : ℕ → PageType → ℕ → Option Mapping → Type 0
IsMapped v t raw m =
    (found : Mapping) × (m ≡ some found)
    × (found.page ≡ some (table_of raw / bytes_of t * bytes_of t, v % bytes_of t))
    × (size found ≡ some t)

module _ {S : Type 0} (mem : PhysMem S) (s : S) (root v raw : ℕ)
    (canonical : canonicalize_address v ≡ v) (present : is_present raw ≡ true) where
  translated :
      (m : Mapping)
      → walk mem s v root 0 (indices v) nothing_mapped ≡ m
      → translate mem s root v ≡ some m
  unfolding translate
  translated m w =
      let same : (canonicalize_address v == v) ≡ true = rw canonical (==_refl v) in
      rw (same, w) refl

  found_4k :
      (e0 e1 e2 e3 : ℕ)
      → IsPath mem s root
          (v / 2 ^ 12 % 512 ∷ v / 2 ^ 21 % 512 ∷ v / 2 ^ 30 % 512 ∷ v / 2 ^ 39 % 512 ∷ [])
          (e3 ∷ e2 ∷ e1 ∷ e0 ∷ [])
      → mem.read s e3 ≡ raw
      → IsMapped v PageType.page_4k raw (translate mem s root v)
  unfolding size
  found_4k e0 e1 e2 e3 ((t3, l2, q3), ((t2, l1, q2), ((t1, l0, q1), q0))) r =
      let w0 = walk-link mem s v root 0 (v / 2 ^ 39 % 512) _ nothing_mapped e0 t1 q0 l0 refl in
      let w1 = walk-link mem s v t1 1 (v / 2 ^ 30 % 512) _ _ e1 t2 q1 l1 refl in
      let w2 = walk-link mem s v t2 2 (v / 2 ^ 21 % 512) _ _ e2 t3 q2 l2 refl in
      let w3 = walk-page mem s v t3 3 (v / 2 ^ 12 % 512) [] _ e3 raw q3 r present refl in
      (_, translated _ (w0 ∙ w1 ∙ w2 ∙ w3), refl, refl)

  module _ (large : is_large raw ≡ true) where
    found_2m :
        (e0 e1 e2 : ℕ)
        → IsPath mem s root
            (v / 2 ^ 21 % 512 ∷ v / 2 ^ 30 % 512 ∷ v / 2 ^ 39 % 512 ∷ [])
            (e2 ∷ e1 ∷ e0 ∷ [])
        → mem.read s e2 ≡ raw
        → IsMapped v PageType.page_2m raw (translate mem s root v)
    unfolding size
    found_2m e0 e1 e2 ((t2, l1, q2), ((t1, l0, q1), q0)) r =
        let w0 = walk-link mem s v root 0 (v / 2 ^ 39 % 512) _ nothing_mapped e0 t1 q0 l0 refl in
        let w1 = walk-link mem s v t1 1 (v / 2 ^ 30 % 512) _ _ e1 t2 q1 l1 refl in
        let w2 =
          walk-page mem s v t2 2 (v / 2 ^ 21 % 512) (v / 2 ^ 12 % 512 ∷ []) _ e2 raw q2 r present
            large in
        (_, translated _ (w0 ∙ w1 ∙ w2), refl, refl)

    found_1g :
        (e0 e1 : ℕ)
        → IsPath mem s root (v / 2 ^ 30 % 512 ∷ v / 2 ^ 39 % 512 ∷ []) (e1 ∷ e0 ∷ [])
        → mem.read s e1 ≡ raw
        → IsMapped v PageType.page_1g raw (translate mem s root v)
    unfolding size
    found_1g e0 e1 ((t1, l0, q1), q0) r =
        let w0 = walk-link mem s v root 0 (v / 2 ^ 39 % 512) _ nothing_mapped e0 t1 q0 l0 refl in
        let w1 =
          walk-page mem s v t1 1 (v / 2 ^ 30 % 512) (v / 2 ^ 21 % 512 ∷ v / 2 ^ 12 % 512 ∷ []) _ e1
            raw q1 r present large in
        (_, translated _ (w0 ∙ w1), refl, refl)

module _ {S : Type 0} (mem : PhysMem S) (Owned : S → ℕ → Type 0) (laws : PhysLaws mem Owned) (s : S)
    (root v raw : ℕ) where
  -- The last two writes of `map_raw`.
  abbrev final : ℕ → ℕ → S
  final above last = mem.write (add_reference mem s above) last raw

  final-IsPath :
      (is : List ℕ) (f e : ℕ) (es : List ℕ)
      → IsSound mem Owned s root is (f ∷ e ∷ es)
      → IsPath mem (final e f) root is (f ∷ e ∷ es) × (mem.read (final e f) f ≡ raw)
  final-IsPath is f e es h =
      let o = h.slots in
      let above = add_reference mem s e in
      let agree = add_reference-Agree mem Owned laws s e (e ∷ es) o.1.0.1 o.1 in
      let os = counted-slots mem Owned laws s (e ∷ []) (e ∷ es) o.1 in
      let wrote = written-Agree mem Owned laws above f raw (e ∷ es) o.0.1 h.apart.0 os in
      (
        IsPath-Agree mem s (final e f) root is f (e ∷ es)
            (Agree-trans mem Owned laws s above (final e f) (e ∷ es) agree wrote) h.path,
        laws.read_written above f raw o.0.1,
      )

  module _ (canonical : canonicalize_address v ≡ v) (present : is_present raw ≡ true) where
    -- From the entries that `create_tables` leaves to the end of `map_raw`.
    pub finish-IsMapped :
        (t : PageType) (en : List (Option ℕ))
        → (is_4k t || is_large raw) ≡ true
        → Knows mem Owned laws root v (depth_of t) (s, en)
        → (above : ℕ) × (last : ℕ) × (entry_of en (depth_of t - 2) ≡ ok above)
          × (entry_of en (depth_of t - 1) ≡ ok last)
          × IsMapped v t raw (translate mem (final above last) root v)
    finish-IsMapped PageType.page_4k en large (e0, e1, e2, e3, eq, h) =
        let p = final-IsPath _ e3 e2 (e1 ∷ e0 ∷ []) h in
        (
          e2,
          e3,
          rw eq refl,
          rw eq refl,
          found_4k mem (final e2 e3) root v raw canonical present e0 e1 e2 e3 p.0 p.1,
        )
    finish-IsMapped PageType.page_2m en large (e0, e1, e2, eq, h) =
        let p = final-IsPath _ e2 e1 (e0 ∷ []) h in
        (
          e1,
          e2,
          rw eq refl,
          rw eq refl,
          found_2m mem (final e1 e2) root v raw canonical present large e0 e1 e2 p.0 p.1,
        )
    finish-IsMapped PageType.page_1g en large (e0, e1, eq, h) =
        let p = final-IsPath _ e1 e0 [] h in
        (
          e0,
          e1,
          rw eq refl,
          rw eq refl,
          found_1g mem (final e0 e1) root v raw canonical present large e0 e1 p.0 p.1,
        )
