-- ===== src/LockCell/Safety.antt =====
-- shared/lockcell/src/lib.rs: what the lock promises in every state that it reaches.
use chocolate_milk.Base.{
  ℕ, ◌≤◌, ◌<◌, ◌≡◌, ◌≢◌, refl, sym, ◌∙◌, ◌==◌, Bool-cases, ==→≡, ==→≢, some, inl, inr, ◌⊎◌,
}
use chocolate_milk.LockCell.{Call, Pc, InterruptState, no_owner, advance, System, Reach}
use chocolate_milk.LockCell.Move.{Owns}
use chocolate_milk.LockCell.Invariant.{held, Inv-exclusive, Reach-Inv}
use chocolate_milk.LockCell.Owner.{
  IsHolding, IsMarked, nobody, somebody, unmarked, IsHolding-owner, Reach-IsMarked,
}

module _ {E : Type 0} (int : InterruptState E) where
  -- In every state that a new lock reaches before its tickets wrap around: two parties that own the
  -- lock are one, and every ticket that is out, from `release` on, is the ticket of exactly one
  -- party.
  pub Reach-IsExclusive :
      (s : System E)
      → Reach int s
      → ((i j : ℕ) → Owns (s.pcs i) → Owns (s.pcs j) → i ≡ j)
        × ((t : ℕ)
            → s.cell.release ≤ t
            → t < s.cell.ticket
            → (i : ℕ) × (held s i ≡ some t) × ((j : ℕ) → held s j ≡ some t → j ≡ i))
  Reach-IsExclusive s r =
      let inv = Reach-Inv int r in
      (
        λ i j. Inv-exclusive s i j inv,
        λ t l h. let (i, e) = inv.out.covered t l h in (i, e, λ j f. inv.out.apart j i t f e),
      )

  -- A party on the core of this one has the guard.
  abbrev pub IsHeldHere : System E → ℕ → Type 0
  IsHeldHere s i = (j : ℕ) × IsHolding (s.pcs j) × (int.core_id j ≡ int.core_id i)

  marked-IsHeldHere :
      (s : System E) (i : ℕ)
      → IsMarked int s
      → s.cell.owner ≡ int.core_id i
      → int.core_id i ≢ no_owner
      → IsHeldHere s i ⊎ ((int.core_id i ≡ 0) × (s.cell.release ≡ 0))
  marked-IsHeldHere s i (nobody o n) e valid = absurd (valid (sym e ∙ o))
  marked-IsHeldHere s i (somebody j h o) e valid = inl (j, h, sym o ∙ e)
  marked-IsHeldHere s i (unmarked o z n) e valid = inr (sym e ∙ o, z)

  check :
      (s : System E) (i t : ℕ) (call : Call)
      → ((s.cell.owner ≡ int.core_id i)
          × ((advance int i call s.cell s.env (Pc.checking t)).1 ≡ Pc.deadlocked t))
        ⊎ ((s.cell.owner ≢ int.core_id i)
            × ((advance int i call s.cell s.env (Pc.checking t)).1 ≡ Pc.spinning t))
  unfolding advance
  check s i t call = elim (Bool-cases (s.cell.owner == int.core_id i)) [
    | inl mine ↦ inl (==→≡ s.cell.owner (int.core_id i) mine, rw mine refl)
    | inr other ↦ inr (==→≢ s.cell.owner (int.core_id i) other, rw other refl)
  ]

  spins : (t : ℕ) → ◌≡◌ {A = Pc} (Pc.spinning t) (Pc.deadlocked t) → ⊥
  spins t e = cc

  -- A party that is about to check for a deadlock, on a core with a valid number, panics if a party
  -- on its own core has the guard, and only then or, before anyone has released the lock, on core 0.
  pub checking-IsHeldHere :
      (s : System E) (i t : ℕ) (call : Call)
      → Reach int s
      → s.pcs i ≡ Pc.checking t
      → int.core_id i ≢ no_owner
      → (IsHeldHere s i → (advance int i call s.cell s.env (s.pcs i)).1 ≡ Pc.deadlocked t)
        × ((advance int i call s.cell s.env (s.pcs i)).1 ≡ Pc.deadlocked t
            → IsHeldHere s i ⊎ ((int.core_id i ≡ 0) × (s.cell.release ≡ 0)))
  checking-IsHeldHere s i t call r at valid =
      let inv = Reach-Inv int r in
      let marked = Reach-IsMarked int r in
      rw at (elim (check s i t call) [
        | inl (mine, e) ↦ (λ _. e, λ _. marked-IsHeldHere s i marked mine valid)
        | inr (other, e) ↦ (
          λ (j, h, c). absurd (other (IsHolding-owner int s j inv marked h ∙ c)),
          λ f. absurd (spins t (sym e ∙ f)),
        )
      ])
