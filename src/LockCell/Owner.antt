-- ===== src/LockCell/Owner.antt =====
-- shared/lockcell/src/lib.rs: what `owner` says of the parties.
use chocolate_milk.Base.{
  ℕ, ◌≡◌, ◌≢◌, refl, sym, ap, subst, ◌∙◌, not, ◌||◌, ◌==◌, if◌then◌else◌, Bool-cases, ==→≡, ==→≢,
  ==_refl, inl, inr, ◌⊎◌,
}
use chocolate_milk.LockCell.{
  Call, is_try, first_of, LockCell, Pc, no_owner, InterruptState, enter, advance, System, Reach,
  access, interrupt, started, started_no_preempt, later, moved, update,
}
use chocolate_milk.LockCell.Move.{Owns}
use chocolate_milk.LockCell.Invariant.{Inv, Inv-exclusive, Reach-Inv}

-- The party has a guard, which its `drop` has not begun to give back.
abbrev pub IsHolding : Pc → Type 0
IsHolding Pc.holding = Unit
IsHolding _ = ⊥

-- The party has written `owner` since it won the lock.
abbrev pub IsStored : Pc → Type 0
IsStored Pc.holding = Unit
IsStored Pc.dropping = Unit
IsStored _ = ⊥

pub IsHolding-Owns : (pc : Pc) → IsHolding pc → Owns pc
IsHolding-Owns Pc.holding h = tt
IsHolding-Owns Pc.won h = tt
IsHolding-Owns Pc.dropping h = tt
IsHolding-Owns Pc.idle h = h
IsHolding-Owns Pc.taking h = h
IsHolding-Owns (Pc.spinning t) h = h
IsHolding-Owns (Pc.checking t) h = h
IsHolding-Owns Pc.reading h = h
IsHolding-Owns (Pc.trying r) h = h
IsHolding-Owns (Pc.deadlocked t) h = h
IsHolding-Owns Pc.refused h = h

pub IsHolding-IsStored : (pc : Pc) → IsHolding pc → IsStored pc
IsHolding-IsStored Pc.holding h = tt
IsHolding-IsStored Pc.won h = h
IsHolding-IsStored Pc.dropping h = tt
IsHolding-IsStored Pc.idle h = h
IsHolding-IsStored Pc.taking h = h
IsHolding-IsStored (Pc.spinning t) h = h
IsHolding-IsStored (Pc.checking t) h = h
IsHolding-IsStored Pc.reading h = h
IsHolding-IsStored (Pc.trying r) h = h
IsHolding-IsStored (Pc.deadlocked t) h = h
IsHolding-IsStored Pc.refused h = h

-- The ways an access changes `owner`.
data Mark (core : ℕ) (cell : LockCell) (pc : Pc) (cell' : LockCell) (pc' : Pc) : Type 0 where
  stay :
      cell'.owner ≡ cell.owner
      → ¬ IsHolding pc
      → ¬ IsStored pc'
      → IsStored pc ⊎ (cell'.release ≡ cell.release)
      → Mark core cell pc cell' pc'
  store : cell'.owner ≡ core → IsHolding pc' → Mark core cell pc cell' pc'
  clear : cell'.owner ≡ no_owner → IsHolding pc → ¬ IsHolding pc' → Mark core cell pc cell' pc'

first_of-IsStored : (call : Call) → ¬ IsStored (first_of call)
first_of-IsStored Call.lock h = h
first_of-IsStored Call.try_lock h = h

module _ {E : Type 0} (int : InterruptState E) where
  enter-IsStored :
      (cell : LockCell) (env : E) (i : ℕ) (call : Call) → ¬ IsStored (enter int cell env i call).0
  unfolding enter
  enter-IsStored cell env i call =
      elim (Bool-cases (not (cell.disables_interrupts || not (int.in_interrupt env i)))) [
        | inl bad ↦ rw bad (λ h. h)
        | inr fine ↦ elim (Bool-cases (not (is_try call || not (int.in_exception env i)))) [
          | inl bad ↦ rw (fine, bad) (λ h. h)
          | inr fine' ↦ rw (fine, fine') (first_of-IsStored call)
        ]
      ]

  advance-Mark :
      (i : ℕ) (call : Call) (cell : LockCell) (env : E) (pc : Pc)
      → Mark
          (int.core_id i)
          cell
          pc
          (advance int i call cell env pc).0
          (advance int i call cell env pc).1
  unfolding advance
  advance-Mark i call cell env Pc.idle =
      stay refl (λ h. h) (enter-IsStored cell env i call) (inr refl)
  advance-Mark i call cell env Pc.taking = stay refl (λ h. h) (λ h. h) (inr refl)
  advance-Mark i call cell env (Pc.spinning t) = elim (Bool-cases (cell.release == t)) [
    | inl mine ↦ rw mine (stay refl (λ h. h) (λ h. h) (inr refl))
    | inr wait ↦ rw wait (stay refl (λ h. h) (λ h. h) (inr refl))
  ]
  advance-Mark i call cell env (Pc.checking t) = elim (Bool-cases (cell.owner == int.core_id i)) [
    | inl mine ↦ rw mine (stay refl (λ h. h) (λ h. h) (inr refl))
    | inr other ↦ rw other (stay refl (λ h. h) (λ h. h) (inr refl))
  ]
  advance-Mark i call cell env Pc.reading = stay refl (λ h. h) (λ h. h) (inr refl)
  advance-Mark i call cell env (Pc.trying r) = elim (Bool-cases (cell.ticket == r)) [
    | inl free ↦ rw free (stay refl (λ h. h) (λ h. h) (inr refl))
    | inr other ↦ rw other (stay refl (λ h. h) (λ h. h) (inr refl))
  ]
  advance-Mark i call cell env Pc.won = store refl tt
  advance-Mark i call cell env Pc.holding = clear refl tt (λ h. h)
  advance-Mark i call cell env Pc.dropping = stay refl (λ h. h) (λ h. h) (inl tt)
  advance-Mark i call cell env (Pc.deadlocked t) = stay refl (λ h. h) (λ h. h) (inr refl)
  advance-Mark i call cell env Pc.refused = stay refl (λ h. h) (λ h. h) (inr refl)

  -- Nobody, the core of the party with the guard, or the first value of `owner`.
  pub data IsMarked (s : System E) : Type 0 where
    nobody : s.cell.owner ≡ no_owner → ((j : ℕ) → ¬ IsHolding (s.pcs j)) → IsMarked s
    somebody : (j : ℕ) → IsHolding (s.pcs j) → s.cell.owner ≡ int.core_id j → IsMarked s
    unmarked : s.cell.owner ≡ 0 → s.cell.release ≡ 0 → ((j : ℕ) → ¬ IsStored (s.pcs j)) → IsMarked s

  module _ (s : System E) (i : ℕ) (cell : LockCell) (pc : Pc) (env : E) where
    -- What no other party has and this one does not get, nobody has.
    none-after :
        (P : Pc → Type 0)
        → ((j : ℕ) → j ≢ i → ¬ P (s.pcs j))
        → ¬ P pc
        → (j : ℕ) → ¬ P (update s.pcs i pc j)
    none-after P others mine j = elim (Bool-cases (j == i)) [
      | inl same ↦ rw same mine
      | inr e ↦ rw e (others j (==→≢ j i e))
    ]

    stays : (j : ℕ) → IsHolding (s.pcs j) → ¬ IsHolding (s.pcs i) → IsHolding (update s.pcs i pc j)
    stays j h idle = elim (Bool-cases (j == i)) [
      | inl same ↦ absurd (idle (subst (λ k. IsHolding (s.pcs k)) (==→≡ j i same) h))
      | inr e ↦ rw e h
    ]

    Mark-IsMarked :
        Inv s
        → IsMarked s
        → Mark (int.core_id i) s.cell (s.pcs i) cell pc
        → IsMarked (moved s i (cell, pc, env))
    Mark-IsMarked inv old (store o h) =
        somebody i (subst (λ b. IsHolding (if b then pc else s.pcs i)) (sym (==_refl i)) h) o
    Mark-IsMarked inv old (clear o h gone) = nobody o (
        none-after IsHolding
          (λ j other k.
            other
              (Inv-exclusive s j i inv (IsHolding-Owns (s.pcs j) k) (IsHolding-Owns (s.pcs i) h)))
          gone)
    Mark-IsMarked inv (nobody o none') (stay same idle unstored r) =
        nobody (same ∙ o)
          (none-after IsHolding (λ j _. none' j) (λ k. unstored (IsHolding-IsStored pc k)))
    Mark-IsMarked inv (somebody j h o) (stay same idle unstored r) =
        somebody j (stays j h idle) (same ∙ o)
    Mark-IsMarked inv (unmarked o z none') (stay same idle unstored r) =
        unmarked (same ∙ o) (elim r [ inl k ↦ absurd (none' i k) | inr e ↦ e ∙ z ])
          (none-after IsStored (λ j _. none' j) unstored)

  pub Reach-IsMarked : {s : System E} → Reach int s → IsMarked s
  Reach-IsMarked (started env) = unmarked refl refl (λ j h. h)
  Reach-IsMarked (started_no_preempt env) = unmarked refl refl (λ j h. h)
  Reach-IsMarked (later {s = s} r small (access i call)) =
      Mark-IsMarked s i _ _ _ (Reach-Inv int r) (Reach-IsMarked r)
        (advance-Mark i call s.cell s.env (s.pcs i))
  Reach-IsMarked (later r small (interrupt env)) = elim (Reach-IsMarked r) [
    | nobody o n ↦ nobody o n
    | somebody j h o ↦ somebody j h o
    | unmarked o z n ↦ unmarked o z n
  ]

  pub IsHolding-owner :
      (s : System E) (j : ℕ)
      → Inv s
      → IsMarked s
      → IsHolding (s.pcs j)
      → s.cell.owner ≡ int.core_id j
  IsHolding-owner s j inv (nobody o n) h = absurd (n j h)
  IsHolding-owner s j inv (somebody k h' o) h =
      let same =
        Inv-exclusive s k j inv (IsHolding-Owns (s.pcs k) h') (IsHolding-Owns (s.pcs j) h) in
      o ∙ ap int.core_id same
  IsHolding-owner s j inv (unmarked o z n) h = absurd (n j (IsHolding-IsStored (s.pcs j) h))
