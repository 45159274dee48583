-- ===== src/RangeSet/Slots.antt =====
-- shared/rangeset/src/lib.rs: how the 256 slots and `in_use` hold a list of entries, and what
-- `entries`, `delete` and the array accesses of `insert` and `remove` do to that list.
use chocolate_milk.Base.{ℕ, zero, suc, ◌+◌, ◌-◌, ◌≤◌, ◌<◌, ◌≡◌, refl, sym, ap, ◌∙◌, some, arith}
use chocolate_milk.Base.{
  true, List, [], ◌∷◌, ◌++◌, append_assoc, append-nil, length, set, take, get_elem?,
}
use chocolate_milk.Base.{length-append, length-set, ltb}
use chocolate_milk.Base.Outcome
use chocolate_milk.Base.Outcome.{Outcome, ok, panic, out_of_fuel, ◌>>=◌, index, unwrap}
use chocolate_milk.RangeSet.{Range, RangeSet, entries, swap, delete_loop, delete, push, set_slot}

-- `s` holds `es` in its first slots, and other ranges behind them.
pub record Holds (s : RangeSet) (es : List Range) : Type 0 where
  pub unused : List Range
  pub slots : s.ranges ≡ es ++ unused
  pub counted : s.in_use ≡ length es
  pub capacity : length s.ranges ≡ 256

pub get_elem?-append :
    (pre : List Range) (e : Range) (t : List Range) → get_elem? (pre ++ e ∷ t) (length pre) ≡ some e
get_elem?-append [] e t = refl
get_elem?-append (x ∷ pre) e t = get_elem?-append pre e t

set-append :
    (pre : List Range) (e v : Range) (t : List Range)
    → set (pre ++ e ∷ t) (length pre) v ≡ pre ++ v ∷ t
set-append [] e v t = refl
set-append (x ∷ pre) e v t = ap (◌∷◌ x) (set-append pre e v t)

pub take-append : (es t : List Range) → take (length es) (es ++ t) ≡ es
take-append [] t = refl
take-append (e ∷ es) t = ap (◌∷◌ e) (take-append es t)

pub Holds-length : {s : RangeSet} {es : List Range} → Holds s es → length es ≤ 256
Holds-length {s} {es} h = omega (arith, ap length h.slots, length-append es h.unused, h.capacity)

-- The slots, split at an entry.
split_at :
    {s : RangeSet} (pre : List Range) (e : Range) (es : List Range) (h : Holds s (pre ++ e ∷ es))
    → s.ranges ≡ pre ++ (e ∷ (es ++ h.unused))
split_at pre e es h = h.slots ∙ append_assoc pre (e ∷ es) h.unused

pub entries-Holds : {s : RangeSet} {es : List Range} → Holds s es → entries s ≡ ok es
unfolding entries
entries-Holds {s} {es} h = ground (arith, Holds-length h, h.capacity, entries_taken)
  where
    entries_taken : take s.in_use s.ranges ≡ es
    entries_taken = rw (h.slots, h.counted) (take-append es h.unused)

pub index-Holds :
    {s : RangeSet} (pre : List Range) (e : Range) (es : List Range)
    → Holds s (pre ++ e ∷ es)
    → index s.ranges (length pre) ≡ ok e
index-Holds {s} pre e es h = rw (split_at pre e es h, get_elem?-append pre e (es ++ h.unused))

pub set_slot-Holds :
    {s : RangeSet} (pre : List Range) (e v : Range) (es : List Range)
    → Holds s (pre ++ e ∷ es)
    → Holds (set_slot s (length pre) v) (pre ++ v ∷ es)
set_slot-Holds {s} pre e v es h = record {
  unused = h.unused;
  slots =
      ap (λ (xs : List Range). set xs (length pre) v) (split_at pre e es h)
      ∙ set-append pre e v (es ++ h.unused)
      ∙ sym (append_assoc pre (v ∷ es) h.unused);
  counted = omega (arith, h.counted, length-append pre (e ∷ es), length-append pre (v ∷ es));
  capacity = length-set s.ranges (length pre) v ∙ h.capacity;
}

-- A write behind the entries adds one.
push-unused :
    (n : ℕ) (es u : List Range) (r : Range) (ranges : List Range)
    → ranges ≡ es ++ u
    → length ranges ≡ 256
    → n ≡ length es
    → n < 256
    → Holds (record { ranges = set ranges n r; in_use = n + 1 }) (es ++ r ∷ [])
push-unused n es [] r ranges p q c h =
    absurd (omega (arith, ap length p, ap length (append-nil es)))
push-unused n es (x ∷ u) r ranges p q c h = record {
  unused = u;
  slots = rw (p, c) (set-append es x r u ∙ sym (append_assoc es (r ∷ []) u));
  counted = omega (arith, length-append es (r ∷ []));
  capacity = length-set ranges n r ∙ q;
}

pub push-Holds :
    {s : RangeSet} {es : List Range} (r : Range)
    → Holds s es
    → length es < 256
    → (s' : RangeSet) × (push s r ≡ ok s') × Holds s' (es ++ r ∷ [])
unfolding push
push-Holds {s} {es} r h room = (
  record { ranges = set s.ranges s.in_use r; in_use = s.in_use + 1 },
  ground (arith, h.capacity, h.counted),
  push-unused s.in_use es h.unused r s.ranges h.slots h.capacity h.counted
      (omega (arith, h.counted)),
)

pub push-full :
    {s : RangeSet} {es : List Range} (r : Range) → Holds s es → length es ≡ 256 → push s r ≡ panic
unfolding push
push-full r h full = ground (arith, h.capacity, h.counted)

swap-cons :
    (x : Range) (xs : List Range) (i j : ℕ)
    → swap (x ∷ xs) (suc i) (suc j) ≡ Outcome.map (◌∷◌ x) (swap xs i j)
unfolding swap
swap-cons x xs i j = ground arith

bind-cons :
    (left ii : ℕ) (x : Range)
    → ((xs : List Range)
        → delete_loop left (suc ii) (x ∷ xs) ≡ Outcome.map (◌∷◌ x) (delete_loop left ii xs))
    → (o : Outcome (List Range))
    → (Outcome.map (◌∷◌ x) o >>= delete_loop left (suc ii))
      ≡ Outcome.map (◌∷◌ x) (o >>= delete_loop left ii)
bind-cons left ii x ih (ok xs) = ih xs
bind-cons left ii x ih panic = refl
bind-cons left ii x ih out_of_fuel = refl

delete_loop-cons :
    (left ii : ℕ) (x : Range) (xs : List Range)
    → delete_loop left (suc ii) (x ∷ xs) ≡ Outcome.map (◌∷◌ x) (delete_loop left ii xs)
unfolding delete_loop
delete_loop-cons zero ii x xs = refl
delete_loop-cons (suc left) ii x xs =
    let up : suc ii + 1 ≡ suc (ii + 1) = omega arith in
    rw (up, swap-cons x xs ii (ii + 1))
      (bind-cons left (ii + 1) x (delete_loop-cons left (ii + 1) x) (swap xs ii (ii + 1)))

delete_loop-append :
    (pre : List Range) (e : Range) (es t : List Range)
    → delete_loop (length es) (length pre) (pre ++ (e ∷ (es ++ t))) ≡ ok (pre ++ (es ++ e ∷ t))
unfolding delete_loop
delete_loop-append [] e [] t = refl
delete_loop-append [] e (x ∷ es) t =
    delete_loop-cons (length es) 0 x (e ∷ (es ++ t))
    ∙ ap (Outcome.map (◌∷◌ x)) (delete_loop-append [] e es t)
delete_loop-append (p ∷ pre) e es t =
    delete_loop-cons (length es) (length pre) p _
    ∙ ap (Outcome.map (◌∷◌ p)) (delete_loop-append pre e es t)

pub delete-Holds :
    {s : RangeSet} (pre : List Range) (e : Range) (es : List Range)
    → Holds s (pre ++ e ∷ es)
    → (s' : RangeSet) × (delete s (length pre) ≡ ok s') × Holds s' (pre ++ es)
unfolding delete
delete-Holds {s} pre e es h = (
  record { ranges = pre ++ (es ++ e ∷ h.unused); in_use = s.in_use - 1 },
  runs,
  record {
    unused = e ∷ h.unused;
    slots = sym (append_assoc pre es (e ∷ h.unused));
    counted = omega (arith, h.counted, length-append pre (e ∷ es), length-append pre es);
    capacity = omega (
      arith,
      h.capacity,
      ap length h.slots,
      length-append (pre ++ e ∷ es) h.unused,
      length-append pre (e ∷ es),
      length-append pre (es ++ e ∷ h.unused),
      length-append es (e ∷ h.unused),
    );
  },
)
  where
    inside : ltb (length pre) s.in_use ≡ true
    inside = ground (arith, h.counted, length-append pre (e ∷ es))

    rounds : s.in_use - 1 - length pre ≡ length es
    rounds = omega (arith, h.counted, length-append pre (e ∷ es))

    runs :
        delete s (length pre)
        ≡ ok (record { ranges = pre ++ (es ++ e ∷ h.unused); in_use = s.in_use - 1 })
    runs = rw (inside, rounds, split_at pre e es h, delete_loop-append pre e es h.unused)

pub length-snoc : (pre : List Range) (e : Range) → length (pre ++ e ∷ []) ≡ length pre + 1
length-snoc pre e = length-append pre (e ∷ [])

-- The next entry of a loop joins those that the loop has passed.
pub Holds-snoc :
    {s : RangeSet} (pre : List Range) (e : Range) (es : List Range)
    → Holds s (pre ++ e ∷ es)
    → Holds s ((pre ++ e ∷ []) ++ es)
Holds-snoc pre e es h = rw (append_assoc pre (e ∷ []) es) h
