-- ===== src/RangeSet/Remove/Trim.antt =====
-- shared/rangeset/src/lib.rs: what one run of the loop of `remove` does to the addresses.
use chocolate_milk.Base.{ℕ, ◌+◌, ◌≤◌, ◌<◌, ◌≡◌, ◌⊎◌, ◌↔◌, inl, inr, refl, arith}
use chocolate_milk.Base.{Bool-cases, is_none, leb, List, [], ◌∷◌, ◌++◌, length}
use chocolate_milk.RangeSet.{Range, overlaps, contains}
use chocolate_milk.RangeSet.Meaning.{
  In, Covers, All, IsRange, Apart, Disjoint, Separated, IsCanonical,
}
use chocolate_milk.RangeSet.Meaning.{Disjoint-of-test, meet-of-test, contains-true, contains-false}
use chocolate_milk.RangeSet.Meaning.{
  All-append, All-weaken, test-of-Disjoint, Separated-snoc, Covers-append,
}
use chocolate_milk.RangeSet.Meaning.{tests_of_inner}
use chocolate_milk.RangeSet.Remove.Run.{Sweep, done, again, split, keep, sweep, above, below}

-- The entries that a run leaves, the lower part of a split at the end.
abbrev pub result : Sweep → List Range
result (done es) = es
result (again es) = es
result (split es b) = es ++ b ∷ []

-- An address outside `r`.
abbrev pub Out : Range → ℕ → Type 0
Out r x = (x < r.start) ⊎ (r.end < x)

-- `r` does not lie strictly inside `e`, so that `e` is not split.
abbrev pub NotInside : Range → Range → Type 0
NotInside r e = (r.start ≤ e.start) ⊎ (e.end ≤ r.end)

-- Only a restart behind a deleted entry leaves overlaps; each ending fixes the number of entries.
abbrev pub Ends : Range → List Range → Sweep → Type 0
Ends r es (done out) = All (Disjoint r) out × (length out ≡ length es)
Ends r es (again out) = length out + 1 ≡ length es
Ends r es (split out b) =
    All (Disjoint r) (out ++ b ∷ [])
    × (length out ≡ length es)
    × (¬ All (NotInside r) es)
    × (0 < length es)

pub record Trimmed (r : Range) (es : List Range) (w : Sweep) : Type 0 where
  pub shape : All IsRange (result w)
  pub apart : (a : Range) → All (Apart a) es → All (Apart a) (result w)
  pub separated : Separated (result w)
  pub same : (x : ℕ) → Out r x → Covers (result w) x ↔ Covers es x
  pub whole : All (NotInside r) es → All (NotInside r) (result w)
  pub ends : Ends r es w

abbrev Within : Range → Range → Type 0
Within v e = (e.start ≤ v.start) × (v.end ≤ e.end)

Apart-Within : (a v e : Range) → Within v e → Apart a e → Apart a v
Apart-Within a v e w h = ground arith

Apart-Within_left : (v e b : Range) → Within v e → Apart e b → Apart v b
Apart-Within_left v e b w h = ground arith

result-keep : (v : Range) (w : Sweep) → result (keep v w) ≡ v ∷ result w
result-keep v (done es) = refl
result-keep v (again es) = refl
result-keep v (split es b) = refl

Ends-keep :
    (r e v : Range) (es : List Range) (w : Sweep)
    → Disjoint r v
    → Ends r es w
    → Ends r (e ∷ es) (keep v w)
Ends-keep r e v es (done out) d h = ((d, h.0), omega (arith, h.1))
Ends-keep r e v es (again out) d h = omega arith
Ends-keep r e v es (split out b) d h = ((d, h.0), omega (arith, h.1), (λ a. h.2 a.1), omega arith)

-- An entry that is kept as `v`, with the addresses of `e` outside `r`.
Trimmed-keep :
    (r e v : Range) (es : List Range) (w : Sweep)
    → All (Apart e) es
    → IsRange v
    → Within v e
    → Disjoint r v
    → ((x : ℕ) → Out r x → In v x ↔ In e x)
    → Trimmed r es w
    → Trimmed r (e ∷ es) (keep v w)
Trimmed-keep r e v es w a p within d addresses t = record {
  shape = rw (result-keep v w) (p, t.shape);
  apart = λ b h. rw (result-keep v w) (Apart-Within b v e within h.0, t.apart b h.1);
  separated =
      rw (result-keep v w)
        (t.apart v (All-weaken (λ b. Apart-Within_left v e b within) es a), t.separated);
  same = λ x o. rw (result-keep v w) (
    λ c. elim c [ inl i ↦ inl ((addresses x o).0 i) | inr k ↦ inr ((t.same x o).0 k) ],
    λ c. elim c [ inl i ↦ inl ((addresses x o).1 i) | inr k ↦ inr ((t.same x o).1 k) ],
  );
  whole = λ h. rw (result-keep v w) (ground arith, t.whole h.1);
  ends = Ends-keep r e v es w d t.ends;
}

-- An entry inside the removed range goes.
Trimmed-again :
    (r e : Range) (es : List Range)
    → IsCanonical (e ∷ es)
    → (r.start ≤ e.start) × (e.end ≤ r.end)
    → Trimmed r (e ∷ es) (again es)
Trimmed-again r e es c within = record {
  shape = c.shape.1;
  apart = λ b h. h.1;
  separated = c.separated.1;
  same = λ x o. (λ k. inr k, λ k. elim k [ inl i ↦ absurd (omega arith) | inr j ↦ j ]);
  whole = λ h. h.1;
  ends = omega arith;
}

Disjoint-of_inner :
    (r e b : Range) → IsRange r → (e.start < r.start) × (r.end < e.end) → Apart e b → Disjoint r b
Disjoint-of_inner r e b p inner a = ground arith

-- A split leaves the two parts of `e`; the other entries are apart from `e`, so from `r`.
Trimmed-split :
    (r e : Range) (es : List Range)
    → IsRange r
    → IsCanonical (e ∷ es)
    → (e.start < r.start) × (r.end < e.end)
    → Trimmed r (e ∷ es) (split (above r e ∷ es) (below r e))
Trimmed-split r e es p c inner =
    let up : Within (above r e) e = ground arith in
    let low : Within (below r e) e = ground arith in
    let apart_low = All-weaken (λ b. Apart-Within_left (below r e) e b low) es c.separated.0 in
    let apart_up = All-weaken (λ b. Apart-Within_left (above r e) e b up) es c.separated.0 in
    record {
      shape = (
        ground (arith, c.shape.0),
        All-append IsRange es (below r e ∷ []) c.shape.1 (ground (arith, c.shape.0), tt),
      );
      apart = λ b h. (
        Apart-Within b (above r e) e up h.0,
        All-append (Apart b) es (below r e ∷ []) h.1 (Apart-Within b (below r e) e low h.0, tt),
      );
      separated = (
        All-append (Apart (above r e)) es (below r e ∷ []) apart_up (ground (arith, c.shape.0), tt),
        Separated-snoc es (below r e) c.separated.1 apart_low,
      );
      same = λ x o. (
        λ k. ground (arith, (Covers-append es (below r e ∷ []) x).0),
        λ k. ground (arith, (Covers-append es (below r e ∷ []) x).1),
      );
      whole = λ h. absurd (ground (arith, h.0));
      ends = (
        (
          ground (arith, c.shape.0),
          All-append (Disjoint r) es (below r e ∷ [])
              (All-weaken (λ b. Disjoint-of_inner r e b p inner) es c.separated.0)
              (ground (arith, c.shape.0), tt),
        ),
        refl,
        (λ h. ground (arith, h.0)),
        omega arith,
      );
    }

pub sweep-Trimmed :
    (r : Range) (es : List Range) → IsRange r → IsCanonical es → Trimmed r es (sweep r es)
unfolding sweep
sweep-Trimmed r [] p c = record {
  shape = tt;
  apart = λ a h. tt;
  separated = tt;
  same = λ x o. (λ h. h, λ h. h);
  whole = λ h. tt;
  ends = (tt, refl);
}
sweep-Trimmed r (e ∷ es) p c =
    let ih = sweep-Trimmed r es p (record { shape = c.shape.1; separated = c.separated.1 }) in
    elim (Bool-cases (is_none (overlaps r e))) [
      | inl far ↦ rw far (
          Trimmed-keep r e e es (sweep r es) c.separated.0 c.shape.0 (omega arith)
            (Disjoint-of-test r e p c.shape.0 far) (λ x o. (λ h. h, λ h. h)) ih)
      | inr near ↦ elim (Bool-cases (contains e r)) [
        | inl all ↦ rw (near, all) (Trimmed-again r e es c (contains-true e r c.shape.0 p all))
        | inr part ↦
            let meet = meet-of-test r e p c.shape.0 near in
            let out = contains-false e r c.shape.0 p part in
            elim (Bool-cases (leb r.start e.start)) [
              | inl low ↦
                  rw (near, part, low)
                    (Trimmed-keep r e (above r e) es (sweep r es) c.separated.0 (ground arith)
                      (ground arith) (ground arith) (λ x o. (ground arith, ground arith)) ih)
              | inr high ↦ elim (Bool-cases (leb e.end r.end)) [
                | inl top ↦
                    rw (near, part, high, top)
                      (Trimmed-keep r e (below r e) es (sweep r es) c.separated.0 (ground arith)
                        (ground arith) (ground arith) (λ x o. (ground arith, ground arith)) ih)
                | inr mid ↦ rw (near, part, high, mid) (Trimmed-split r e es p c (ground arith))
              ]
            ]
      ]
    ]

-- Where nothing overlaps, a run changes nothing.
pub sweep_clear :
    (r : Range) (es : List Range)
    → IsRange r
    → All IsRange es
    → All (Disjoint r) es
    → sweep r es ≡ done es
unfolding sweep
sweep_clear r [] p a d = refl
sweep_clear r (e ∷ es) p a d = rw (test-of-Disjoint r e p a.0 d.0, sweep_clear r es p a.1 d.1)

-- `r` lies strictly inside an entry.
abbrev pub Inside : Range → List Range → Type 0
Inside r [] = ⊥
Inside r (e ∷ es) = (e.start < r.start) × (r.end < e.end) ⊎ Inside r es

Disjoint-of_Inside :
    (r a : Range) (es : List Range) → IsRange r → Inside r es → All (Apart a) es → Disjoint r a
Disjoint-of_Inside r a [] p h ap = absurd h
Disjoint-of_Inside r a (e ∷ es) p h ap = elim h [
  | inl i ↦ ground (arith, ap.0)
  | inr i ↦ Disjoint-of_Inside r a es p i ap.1
]

pub sweep-Inside :
    (r : Range) (es : List Range)
    → IsRange r
    → IsCanonical es
    → Inside r es
    → (out : List Range) × (b : Range) × (sweep r es ≡ split out b) × (length out ≡ length es)
unfolding sweep
sweep-Inside r [] p c h = absurd h
sweep-Inside r (e ∷ es) p c h = elim h [
  | inl i ↦ (above r e ∷ es, below r e, ground (arith, tests_of_inner r e p i), refl)
  | inr i ↦
      let ih = sweep-Inside r es p (record { shape = c.shape.1; separated = c.separated.1 }) i in
      let far = test-of-Disjoint r e p c.shape.0 (Disjoint-of_Inside r e es p i c.separated.0) in
      (e ∷ ih.0, ih.1, rw (far, ih.2), omega (arith, ih.3))
]
