-- ===== src/RangeSet/Remove/Run.antt =====
-- shared/rangeset/src/lib.rs: one run of the loop of `remove` over the list of entries.
use chocolate_milk.Base.{◌+◌, ◌<◌, ◌≡◌, refl, inl, inr}
use chocolate_milk.Base.{Bool-cases, if◌then◌else◌, is_none, leb, subst}
use chocolate_milk.Base.{List, [], ◌∷◌, ◌++◌, length, append_assoc}
use chocolate_milk.Base.Outcome.{Outcome, ok, panic, ◌>>=◌}
use chocolate_milk.RangeSet.{Range, RangeSet, overlaps, contains, saturating_add, saturating_sub}
use chocolate_milk.RangeSet.{Pass, finished, restart, remove_pass, push}
use chocolate_milk.RangeSet.Slots.{Holds, index-Holds, delete-Holds, length-snoc, Holds-snoc}
use chocolate_milk.RangeSet.Slots.{set_slot-Holds, push-Holds, push-full}

-- The parts of an entry above and below the removed range.
abbrev pub above : Range → Range → Range
above r e = record { start = saturating_add r.end 1; end = e.end }

abbrev pub below : Range → Range → Range
below r e = record { start = e.start; end = saturating_sub r.start 1 }

-- `again` is a restart behind a deleted entry; `split` a restart behind an entry cut in two, whose
-- lower part is not yet appended.
pub data Sweep : Type 0 where
  done : List Range → Sweep
  again : List Range → Sweep
  split : List Range → Range → Sweep

abbrev pub keep : Range → Sweep → Sweep
keep e (done es) = done (e ∷ es)
keep e (again es) = again (e ∷ es)
keep e (split es b) = split (e ∷ es) b

unfoldable pub sweep : Range → List Range → Sweep
sweep r [] = done []
sweep r (e ∷ es) =
    let rest = sweep r es in
    if is_none (overlaps r e)
    then keep e rest
    else if contains e r
    then again es
    else if leb r.start e.start
    then keep (above r e) rest
    else if leb e.end r.end
    then keep (below r e) rest
    else split (above r e ∷ es) (below r e)

-- A run of the array loop does what `sweep` does behind the entries `pre`.
abbrev pub Ran : List Range → Sweep → Outcome Pass → Type 0
Ran pre (done es) o = (s' : RangeSet) × (o ≡ ok (finished s')) × Holds s' (pre ++ es)
Ran pre (again es) o = (s' : RangeSet) × (o ≡ ok (restart s')) × Holds s' (pre ++ es)
Ran pre (split es b) o =
    (length (pre ++ es) < 256
      → (s' : RangeSet) × (o ≡ ok (restart s')) × Holds s' ((pre ++ es) ++ b ∷ []))
    × (length (pre ++ es) ≡ 256 → o ≡ panic)

Ran-keep :
    (pre : List Range) (e : Range) (w : Sweep) (o : Outcome Pass)
    → Ran (pre ++ e ∷ []) w o
    → Ran pre (keep e w) o
Ran-keep pre e (done es) o h = (h.0, h.1, rw (append_assoc pre (e ∷ []) es) at h.2)
Ran-keep pre e (again es) o h = (h.0, h.1, rw (append_assoc pre (e ∷ []) es) at h.2)
Ran-keep pre e (split es b) o h =
    subst
      (λ (l : List Range).
        (length l < 256 → (s' : RangeSet) × (o ≡ ok (restart s')) × Holds s' (l ++ b ∷ []))
        × (length l ≡ 256 → o ≡ panic))
      (append_assoc pre (e ∷ []) es) h

-- The run with an entry `v` in the slot behind `pre`.
module _ (r : Range) (es : List Range)
    (ih : (pre : List Range) (s : RangeSet)
      → Holds s (pre ++ es)
      → Ran pre (sweep r es) (remove_pass (length es) (length pre) s r)) where
  Ran-next :
      (pre : List Range) (v : Range) (s : RangeSet)
      → Holds s (pre ++ v ∷ es)
      → Ran pre (keep v (sweep r es)) (remove_pass (length es) (length pre + 1) s r)
  Ran-next pre v s h =
      rw (← length-snoc pre v)
        (Ran-keep pre v (sweep r es) _ (ih (pre ++ v ∷ []) s (Holds-snoc pre v es h)))

Ran-split :
    (l : List Range) (s : RangeSet) (b : Range)
    → Holds s l
    → Ran [] (split l b) (push s b >>= λ s'. ok (restart s'))
Ran-split l s b h =
    (λ room. let p = push-Holds b h room in (p.0, rw p.1, p.2), λ full. rw (push-full b h full))

pub remove_pass-Ran :
    (r : Range) (es pre : List Range) (s : RangeSet)
    → Holds s (pre ++ es)
    → Ran pre (sweep r es) (remove_pass (length es) (length pre) s r)
unfolding sweep remove_pass
remove_pass-Ran r [] pre s h = (s, refl, h)
remove_pass-Ran r (e ∷ es) pre s h = elim (Bool-cases (is_none (overlaps r e))) [
  | inl far ↦ rw (index-Holds pre e es h, far) (Ran-next r es (remove_pass-Ran r es) pre e s h)
  | inr near ↦ elim (Bool-cases (contains e r)) [
    | inl all ↦
        let d = delete-Holds pre e es h in rw (index-Holds pre e es h, near, all) (d.0, rw d.1, d.2)
    | inr part ↦ elim (Bool-cases (leb r.start e.start)) [
      | inl low ↦
          rw (index-Holds pre e es h, near, part, low)
            (Ran-next r es (remove_pass-Ran r es) pre (above r e) _
              (set_slot-Holds pre e (above r e) es h))
      | inr high ↦ elim (Bool-cases (leb e.end r.end)) [
        | inl top ↦
            rw (index-Holds pre e es h, near, part, high, top)
              (Ran-next r es (remove_pass-Ran r es) pre (below r e) _
                (set_slot-Holds pre e (below r e) es h))
        | inr mid ↦
            rw (index-Holds pre e es h, near, part, high, mid)
              (Ran-split (pre ++ above r e ∷ es) _ (below r e)
                (set_slot-Holds pre e (above r e) es h))
      ]
    ]
  ]
]
