-- ===== src/Tests/LockCell.antt =====
-- shared/lockcell/src/lib.rs, with two parties on each core.
use chocolate_milk.Base.{
  ℕ, ◌+◌, ◌/◌, ◌^◌, ◌≤◌, ◌<◌, ◌≡◌, refl, arith, false, some, List, [], ◌∷◌, ◌⊎◌,
}
use chocolate_milk.LockCell.{
  Call, Pc, InterruptState, enter, advance, System, Step, Reach, access, started, later, new,
  at_rest, moved,
}
use chocolate_milk.LockCell.Move.{Owns}
use chocolate_milk.LockCell.Invariant.{held}
use chocolate_milk.LockCell.Safety.{Reach-IsExclusive, IsHeldHere, checking-IsHeldHere}
use chocolate_milk.LockCell.Refines.{QueueStep, QueueReach, IsQueue, Reach-IsQueue}

abbrev calm : InterruptState (Unit {0})
calm = record {
  in_interrupt = λ e i. false;
  in_exception = λ e i. false;
  core_id = λ i. i / 2;
  enter_lock = λ e i. e;
  exit_lock = λ e i. e;
}

abbrev go : Call → List ℕ → System (Unit {0}) → System (Unit {0})
go call [] s = s
go call (i ∷ is) s = go call is (moved s i (advance calm i call s.cell s.env (s.pcs i)))

abbrev fresh : System (Unit {0})
fresh = at_rest new tt

-- Party 0 has the lock, and party 1, on the same core, has the next ticket.
abbrev contended : System (Unit {0})
contended = go Call.lock (0 ∷ 0 ∷ 0 ∷ 0 ∷ 1 ∷ 1 ∷ 1 ∷ []) fresh

lock_access :
    (s : System (Unit {0})) (i : ℕ)
    → s.cell.ticket + 1 < 2 ^ 32
    → Reach calm s
    → Reach calm (moved s i (advance calm i Call.lock s.cell s.env (s.pcs i)))
lock_access s i small r = later r small (access i Call.lock)

contended-Reach : Reach calm contended
unfolding advance enter
contended-Reach = lock_access _ 1 (omega arith) (
    lock_access _ 1 (omega arith) (
      lock_access _ 1 (omega arith) (
        lock_access _ 0 (omega arith) (
          lock_access _ 0 (omega arith)
            (lock_access _ 0 (omega arith) (lock_access _ 0 (omega arith) (started tt)))))))

contended-pcs : contended.pcs 1 ≡ Pc.checking 1
unfolding advance enter
contended-pcs = refl

-- The party of core 1 has won the lock and has yet to write `owner`: a party of core 0 panics.
core_0_panics : (go Call.lock (2 ∷ 2 ∷ 2 ∷ 0 ∷ 0 ∷ 0 ∷ 0 ∷ []) fresh).pcs 0 ≡ Pc.deadlocked 1
unfolding advance enter
core_0_panics = refl

try_lock_gives_up : (go Call.try_lock (0 ∷ 0 ∷ 0 ∷ 0 ∷ 1 ∷ 1 ∷ 1 ∷ []) fresh).pcs 1 ≡ Pc.idle
unfolding advance enter
try_lock_gives_up = refl

Reach-IsExclusive_example :
    ((i j : ℕ) → Owns (contended.pcs i) → Owns (contended.pcs j) → i ≡ j)
    × ((t : ℕ)
        → contended.cell.release ≤ t
        → t < contended.cell.ticket
        → (i : ℕ) × (held contended i ≡ some t) × ((j : ℕ) → held contended j ≡ some t → j ≡ i))
Reach-IsExclusive_example = Reach-IsExclusive calm contended contended-Reach

checking-IsHeldHere_example :
    (IsHeldHere calm contended 1
      → (advance calm 1 Call.lock contended.cell contended.env (contended.pcs 1)).1
        ≡ Pc.deadlocked 1)
    × ((advance calm 1 Call.lock contended.cell contended.env (contended.pcs 1)).1 ≡ Pc.deadlocked 1
        → IsHeldHere calm contended 1 ⊎ ((calm.core_id 1 ≡ 0) × (contended.cell.release ≡ 0)))
checking-IsHeldHere_example =
    checking-IsHeldHere calm contended 1 1 Call.lock contended-Reach contended-pcs (omega arith)

Reach-IsQueue_example :
    (q : List ℕ) × QueueReach q
    × IsQueue contended q
    × ((t : System (Unit {0}))
        → Step calm contended t
        → contended.cell.ticket + 1 < 2 ^ 32
        → (q' : List ℕ) × IsQueue t q' × ((q' ≡ q) ⊎ QueueStep q q'))
Reach-IsQueue_example = Reach-IsQueue calm contended contended-Reach
