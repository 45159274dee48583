-- ===== src/LockCell/Invariant.antt =====
-- shared/lockcell/src/lib.rs: who has which ticket, in every state that a new lock reaches.
use chocolate_milk.Base.{
  dec, ℕ, ◌+◌, ◌^◌, ◌≤◌, ◌<◌, ◌≡◌, ◌≢◌, refl, sym, subst, ◌∙◌, arith, ◌==◌, if◌then◌else◌,
  Bool-cases, ==→≡, ==_refl, Option, some, inl, inr,
}
use chocolate_milk.LockCell.Tickets.{AreOut, AreOut-words, not_some, kept, taken, given}
use chocolate_milk.LockCell.Move.{
  ticket_of, has_read, Owns, Owns-ticket_of, ticket_of-other, ticket_of-same, Move, keep, take,
  give, advance-Move,
}
use chocolate_milk.LockCell.{
  Call, LockCell, Pc, InterruptState, advance, System, Step, Reach, access, interrupt, new,
  new_no_preempt, at_rest, started, started_no_preempt, later, moved, update,
}

abbrev pub held : {E : Type 0} → System E → ℕ → Option ℕ
held s i = ticket_of s.cell (s.pcs i)

pub record Inv {E : Type 0} (s : System E) : Type 0 where
  pub out : AreOut s.cell.release s.cell.ticket (held s)
  pub past : (i r : ℕ) → has_read (s.pcs i) ≡ some r → r ≤ s.cell.release

-- Two parties that own the lock are one.
pub Inv-exclusive :
    {E : Type 0} (s : System E) (i j : ℕ) → Inv s → Owns (s.pcs i) → Owns (s.pcs j) → i ≡ j
Inv-exclusive s i j inv oi oj =
    inv.out.apart i j s.cell.release (Owns-ticket_of s.cell (s.pcs i) oi)
      (Owns-ticket_of s.cell (s.pcs j) oj)

module _ {E : Type 0} (s : System E) (i : ℕ) (cell : LockCell) (pc : Pc) (env : E)
    (inv : Inv s) where
  abbrev after : System E
  after = moved s i (cell, pc, env)

  pub held-mine : ticket_of cell (update s.pcs i pc i) ≡ ticket_of cell pc
  held-mine = rw (==_refl i) refl

  pc-other : (j : ℕ) → j ≢ i → update s.pcs i pc j ≡ s.pcs j
  pc-other j other = elim (Bool-cases (j == i)) [
    | inl same ↦ absurd (other (==→≡ j i same))
    | inr e ↦ rw e refl
  ]

  reads :
      ((r : ℕ) → has_read pc ≡ some r → r ≤ cell.release)
      → s.cell.release ≤ cell.release
      → (j r : ℕ) → has_read (update s.pcs i pc j) ≡ some r
      → r ≤ cell.release
  reads mine grows j r e = elim (Bool-cases (j == i)) [
    | inl same ↦ mine r (subst (λ b. has_read (if b then pc else s.pcs j) ≡ some r) same e)
    | inr other ↦
        let before =
          inv.past j r (subst (λ b. has_read (if b then pc else s.pcs j) ≡ some r) other e) in
        omega arith
  ]

  pub same_release : cell.release ≡ s.cell.release → (j : ℕ) → j ≢ i → held after j ≡ held s j
  same_release r j other = rw (pc-other j other) (ticket_of-same s.cell cell (s.pcs j) r)

  pub given_others : Owns (s.pcs i) → (j : ℕ) → j ≢ i → held after j ≡ held s j
  given_others owns j other =
      rw (pc-other j other)
        (ticket_of-other s.cell cell (s.pcs j) (λ oj. other (Inv-exclusive s j i inv oj owns)))

  Move-Inv : Move s.cell (s.pcs i) cell pc → Inv after
  Move-Inv (keep t r kept_ticket read) = record {
    out = AreOut-words (held after) r t (
        kept s.cell.release s.cell.ticket (held s) (held after) inv.out (λ j. elim (dec j i) [
          | inl same ↦ rw same (held-mine ∙ kept_ticket)
          | inr other ↦ same_release r j other
        ]));
    past = reads (λ k e. rw r (read k e)) (omega arith);
  }
  Move-Inv (take t r before got unread) = record {
    out = AreOut-words (held after) r t (
        taken s.cell.release s.cell.ticket (held s) (held after) inv.out i (same_release r) before
          (held-mine ∙ got));
    past = reads (λ k e. absurd (not_some (sym unread ∙ e))) (omega arith);
  }
  Move-Inv (give t r owns gone unread) = record {
    out = AreOut-words (held after) r t (
        given s.cell.release s.cell.ticket (held s) (held after) inv.out i (given_others owns)
          (Owns-ticket_of s.cell (s.pcs i) owns) (held-mine ∙ gone));
    past = reads (λ k e. absurd (not_some (sym unread ∙ e))) (omega arith);
  }

at_rest-Inv :
    {E : Type 0} (cell : LockCell) (env : E)
    → cell.ticket ≡ 0
    → cell.release ≡ 0
    → Inv (at_rest cell env)
at_rest-Inv cell env t r = record {
  out = record {
    ordered = omega arith;
    between = λ i k e. absurd (not_some e);
    apart = λ i j k e f. absurd (not_some e);
    covered = λ k l h. absurd (omega arith);
  };
  past = λ i k e. absurd (not_some e);
}

module _ {E : Type 0} (int : InterruptState E) where
  pub access-Move :
      (s : System E) (i : ℕ) (call : Call)
      → s.cell.ticket + 1 < 2 ^ 32
      → Inv s
      → Move s.cell
          (s.pcs i)
          (advance int i call s.cell s.env (s.pcs i)).0
          (advance int i call s.cell s.env (s.pcs i)).1
  access-Move s i call small inv =
      advance-Move int i call s.cell s.env (s.pcs i) small inv.out.ordered
        (record { between = λ t e. inv.out.between i t e; past = λ r e. inv.past i r e })

  pub Step-Inv : {s t : System E} → Step int s t → s.cell.ticket + 1 < 2 ^ 32 → Inv s → Inv t
  Step-Inv {s = s} (access i call) small inv =
      Move-Inv s i _ _ _ inv (access-Move s i call small inv)
  Step-Inv (interrupt env) small inv = record { out = inv.out; past = inv.past }

  pub Reach-Inv : {s : System E} → Reach int s → Inv s
  Reach-Inv (started env) = at_rest-Inv new env refl refl
  Reach-Inv (started_no_preempt env) = at_rest-Inv new_no_preempt env refl refl
  Reach-Inv (later r small st) = Step-Inv st small (Reach-Inv r)
