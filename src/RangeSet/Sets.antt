-- ===== src/RangeSet/Sets.antt =====
-- shared/rangeset/src/lib.rs: the methods of `RangeSet` as operations on sets of addresses.
use chocolate_milk.Base.{ℕ, zero, suc, ◌+◌, ◌≤◌, ◌<◌, ◌≡◌, ◌⊎◌, ◌↔◌, refl, sym, ap, ◌∙◌, arith}
use chocolate_milk.Base.{List, [], ◌∷◌, ◌++◌, length, take, drop, length-take, subst}
use chocolate_milk.Base.Outcome.{ok, panic}
use chocolate_milk.RangeSet.{Range, RangeSet, new, insert, remove, subtract}
use chocolate_milk.RangeSet.Meaning.{In, Covers, IsRange, IsCanonical}
use chocolate_milk.RangeSet.Slots.{Holds, Holds-length, take-append, entries-Holds}
use chocolate_milk.RangeSet.Insert.{insert-Holds}
use chocolate_milk.RangeSet.Remove.{Room, remove-Removes, remove-full}
use chocolate_milk.RangeSet.Remove.Trim.{Out, Inside}
use chocolate_milk.RangeSet.Subtract.{OutAll-iff, remove_all-Holds}

-- The slots in use.
abbrev pub view : RangeSet → List Range
view s = take s.in_use s.ranges

-- The addresses of a set.
abbrev pub Contains : RangeSet → ℕ → Type 0
Contains s x = Covers (view s) x

-- The invariant: 256 slots, and the ones in use are well-formed, disjoint and not touching.
pub record IsValid (s : RangeSet) : Type 0 where
  pub capacity : length s.ranges ≡ 256
  pub in_bounds : s.in_use ≤ 256
  pub canonical : IsCanonical (view s)

take-append-drop : (n : ℕ) (xs : List Range) → take n xs ++ drop n xs ≡ xs
take-append-drop zero xs = refl
take-append-drop (suc n) [] = refl
take-append-drop (suc n) (x ∷ xs) = ap (◌∷◌ x) (take-append-drop n xs)

pub Holds-of_IsValid : {s : RangeSet} → IsValid s → Holds s (view s)
Holds-of_IsValid {s} v = record {
  unused = drop s.in_use s.ranges;
  slots = sym (take-append-drop s.in_use s.ranges);
  counted = omega (arith, length-take s.in_use s.ranges, v.capacity, v.in_bounds);
  capacity = v.capacity;
}

pub view-Holds : {s : RangeSet} {es : List Range} → Holds s es → view s ≡ es
view-Holds {s} {es} h = rw (h.slots, h.counted) (take-append es h.unused)

pub IsValid-of_Holds : {s : RangeSet} {es : List Range} → Holds s es → IsCanonical es → IsValid s
IsValid-of_Holds {s} h c = record {
  capacity = h.capacity;
  in_bounds = omega (arith, Holds-length h, h.counted);
  canonical = subst IsCanonical (sym (view-Holds h)) c;
}

-- The empty set is valid and contains no address.
pub new_empty : IsValid new × ((x : ℕ) → ¬ Contains new x)
new_empty = (
  record {
    capacity = refl;
    in_bounds = omega arith;
    canonical = record { shape = tt; separated = tt };
  },
  λ x c. c,
)

-- For a valid set with a free slot and a range of u64 addresses, `insert` does not panic and its
-- loop ends; the new set is valid and contains exactly the old addresses and those of the range.
pub insert-Contains :
    (s : RangeSet) (r : Range)
    → IsValid s
    → IsRange r
    → s.in_use < 256
    → (s' : RangeSet) × (insert s r ≡ ok s')
      × IsValid s'
      × ((x : ℕ) → Contains s' x ↔ (Contains s x ⊎ In r x))
insert-Contains s r v p room =
    let h = Holds-of_IsValid v in
    let i = insert-Holds s (view s) r h v.canonical p (omega (arith, h.counted)) in
    (i.0, i.2, IsValid-of_Holds i.3 i.4, rw (view-Holds i.3) i.5)

-- For a valid set and a range of u64 addresses, where a slot is free or the range lies strictly
-- inside no entry, `remove` does not panic and its loop ends; the new set is valid and contains
-- exactly the old addresses outside the range.
pub remove-Contains :
    (s : RangeSet) (r : Range)
    → IsValid s
    → IsRange r
    → Room r (view s)
    → (s' : RangeSet) × (remove s r ≡ ok s')
      × IsValid s'
      × ((x : ℕ) → Contains s' x ↔ (Contains s x × Out r x))
remove-Contains s r v p room =
    let d = remove-Removes s (view s) r (Holds-of_IsValid v) v.canonical p room in
    (d.set, d.returns, IsValid-of_Holds d.holds d.canonical, rw (view-Holds d.holds) d.covers)

-- In a valid set with all 256 slots in use, removing a range strictly inside an entry panics.
pub remove_full_panics :
    (s : RangeSet) (r : Range)
    → IsValid s
    → IsRange r
    → s.in_use ≡ 256
    → Inside r (view s)
    → remove s r ≡ panic
remove_full_panics s r v p full inside =
    let h = Holds-of_IsValid v in
    remove-full s (view s) r h v.canonical p (sym h.counted ∙ full) inside

-- For valid sets with at most 256 entries together, `subtract` does not panic, and the new set is
-- valid and contains exactly the addresses of the first that the second does not contain.
pub subtract-Contains :
    (s rs : RangeSet)
    → IsValid s
    → IsValid rs
    → s.in_use + rs.in_use ≤ 256
    → (s' : RangeSet) × (subtract s rs ≡ ok s')
      × IsValid s'
      × ((x : ℕ) → Contains s' x ↔ (Contains s x × (¬ Contains rs x)))
unfolding subtract
subtract-Contains s rs v w fits =
    let h = Holds-of_IsValid v in
    let k = Holds-of_IsValid w in
    let d =
      remove_all-Holds (view rs) s (view s) h v.canonical w.canonical.shape
        (omega (arith, h.counted, k.counted)) in
    (
      d.0,
      rw (entries-Holds k) d.2,
      IsValid-of_Holds d.3 d.4,
      rw (view-Holds d.3) (λ x. (
        λ c. let o = (d.5 x).0 c in (o.0, (OutAll-iff (view rs) x).0 o.1),
        λ c. (d.5 x).1 (c.0, (OutAll-iff (view rs) x).1 c.1),
      )),
    )
