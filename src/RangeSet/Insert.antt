-- ===== src/RangeSet/Insert.antt =====
-- shared/rangeset/src/lib.rs: what `insert` does to the set of addresses.
mod Listed
use chocolate_milk.Base.{ℕ, zero, suc, ◌+◌, ◌≤◌, ◌<◌, ◌≡◌, ◌⊎◌, ◌↔◌, inl, inr, refl, arith}
use chocolate_milk.Base.{Option, true, none, some, List, [], ◌∷◌, ◌++◌, length, length-append, leb}
use chocolate_milk.Base.Outcome.{Outcome, ok}
use chocolate_milk.RangeSet.{Range, RangeSet, merged, try_merges, insert}
use chocolate_milk.RangeSet.Meaning.{In, Covers, All, IsRange, Apart, Separated, IsCanonical}
use chocolate_milk.RangeSet.Meaning.{near-of-test, Covers-append, All-append, Separated-snoc}
use chocolate_milk.RangeSet.Pick.{length-Pick, All-Pick, Covers-Pick, Separated-Pick}
use chocolate_milk.RangeSet.Slots.{Holds, push-Holds}
use Listed.{merge_first, merge_all, Found, merge_first_lem, merge_first-none, try_merges-Holds}

-- A merged range has the addresses of both, as they overlap or touch.
In-merged :
    (r e : Range)
    → (r.start ≤ e.end + 1) × (e.start ≤ r.end + 1)
    → (x : ℕ) → In (merged r e) x ↔ (In r x ⊎ In e x)
In-merged r e n x = (ground arith, ground arith)

-- After the merges: the range stands apart, and no address was lost or won.
record Settled (r : Range) (es : List Range) (r' : Range) (es' : List Range) : Type 0 where
  range : IsRange r'
  canonical : IsCanonical es'
  apart : All (Apart r') es'
  same : (x : ℕ) → (In r' x ⊎ Covers es' x) ↔ (In r x ⊎ Covers es x)
  shorter : length es' ≤ length es

Settled-step :
    (r : Range) (es : List Range) (r1 : Range) (es1 : List Range) {r' : Range} {es' : List Range}
    → IsRange r
    → IsCanonical es
    → Found r es r1 es1
    → (IsRange r1 → IsCanonical es1 → Settled r1 es1 r' es')
    → Settled r es r' es'
Settled-step r es r1 es1 p c (e, pick, q, near) ih =
    let shape = All-Pick IsRange pick c.shape in
    let wide : IsRange r1 = rw q (ground arith) in
    let s = ih wide (record { shape = shape.1; separated = Separated-Pick pick c.separated }) in
    record {
      range = s.range;
      canonical = s.canonical;
      apart = s.apart;
      same = λ x. (
        λ h. ground (arith, (s.same x).0 h, to x, (Covers-Pick x pick).1),
        λ h. ground (arith, (s.same x).1, from x, (Covers-Pick x pick).0),
      );
      shorter = omega (arith, s.shorter, length-Pick pick);
    }
  where
    reach : (r.start ≤ e.end + 1) × (e.start ≤ r.end + 1)
    reach = near-of-test r e p (All-Pick IsRange pick c.shape).0 near

    to : (x : ℕ) → In r1 x → In r x ⊎ In e x
    to x = rw q ((In-merged r e reach x).0)

    from : (x : ℕ) → In r x ⊎ In e x → In r1 x
    from x = rw q ((In-merged r e reach x).1)

settled :
    (r : Range) (es : List Range)
    → IsRange r
    → IsCanonical es
    → All (Apart r) es
    → Settled r es r es
settled r es p c a = record {
  range = p;
  canonical = c;
  apart = a;
  same = λ x. (λ h. h, λ h. h);
  shorter = omega arith;
}

merge_all-Settled :
    (n : ℕ) (r : Range) (es : List Range)
    → length es < n
    → IsRange r
    → IsCanonical es
    → Settled r es (merge_all n r es).0 (merge_all n r es).1
unfolding merge_all
merge_all-Settled zero r es f p c = elim f [ ]
merge_all-Settled (suc n) r es f p c = after (merge_first r es) refl (merge_all-Settled n)
  where
    after :
        (m : Option (Range × List Range))
        → merge_first r es ≡ m
        → ((r1 : Range) (es1 : List Range)
            → length es1 < n
            → IsRange r1
            → IsCanonical es1
            → Settled r1 es1 (merge_all n r1 es1).0 (merge_all n r1 es1).1)
        → Settled r es (merge_all (suc n) r es).0 (merge_all (suc n) r es).1
    after none q ih = rw (q, merge_all) (settled r es p c (merge_first-none r es p c.shape q))
    after (some (r1, es1)) q ih =
        let found = merge_first_lem r es q in
        rw (q, merge_all)
          (Settled-step r es r1 es1 p c found (ih r1 es1 (omega (arith, length-Pick found.1))))

-- Inserting a range into a canonical set that has a free slot succeeds, and gives a canonical set
-- of exactly the old addresses and those of the range.
pub insert-Holds :
    (s : RangeSet) (es : List Range) (r : Range)
    → Holds s es
    → IsCanonical es
    → IsRange r
    → length es < 256
    → (s' : RangeSet) × (es' : List Range) × (insert s r ≡ ok s')
      × Holds s' es'
      × IsCanonical es'
      × ((x : ℕ) → Covers es' x ↔ (Covers es x ⊎ In r x))
      × (length es' ≤ length es + 1)
unfolding insert
insert-Holds s es r h c p room =
    let m = try_merges-Holds (length es + 1) s es r h (omega arith) in
    let merges : try_merges (s.in_use + 1) s r ≡ ok ((merge_all (length es + 1) r es).0, m.0) =
      simp h.counted m.1 in
    let d = merge_all-Settled (length es + 1) r es (omega arith) p c in
    let wide = (merge_all (length es + 1) r es).0 in
    let kept = (merge_all (length es + 1) r es).1 in
    let added = push-Holds wide m.2 (omega (arith, d.shorter)) in
    (
      added.0,
      kept ++ wide ∷ [],
      rw (ordered, merges) added.1,
      added.2,
      record {
        shape = All-append IsRange kept (wide ∷ []) d.canonical.shape (d.range, tt);
        separated = Separated-snoc kept wide d.canonical.separated d.apart;
      },
      λ x. (
        λ v. ground (arith, (d.same x).0, (Covers-append kept (wide ∷ []) x).0 v),
        λ v. (Covers-append kept (wide ∷ []) x).1 (ground (arith, (d.same x).1)),
      ),
      omega (arith, d.shorter, length-append kept (wide ∷ [])),
    )
  where
    ordered : leb r.start r.end ≡ true
    ordered = ground arith
