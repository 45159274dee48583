-- ===== src/LockCell.antt =====
-- shared/lockcell/src/lib.rs: the ticket lock, one atomic access a step. A party is one call of
-- `lock_int` with the guard it gives; several parties may run on one core.
pub mod Tickets
pub mod Move
pub mod Invariant
pub mod Owner
pub mod Safety
pub mod Refines
use package.chocolate_milk.Base.{
  ℕ, ◌+◌, ◌-◌, ◌%◌, ◌^◌, ◌<◌, Bool, true, false, not, ◌||◌, ◌==◌, if◌then◌else◌,
}

pub data Call : Type 0 where
  lock : Call
  try_lock : Call

abbrev pub is_try : Call → Bool
is_try Call.lock = false
is_try Call.try_lock = true

-- The words of a `LockCell`, without the value.
pub record LockCell : Type 0 where
  pub ticket : ℕ
  pub release : ℕ
  pub owner : ℕ
  pub disables_interrupts : Bool

abbrev pub new : LockCell
new = record { ticket = 0; release = 0; owner = 0; disables_interrupts = false }

abbrev pub new_no_preempt : LockCell
new_no_preempt = record { ticket = 0; release = 0; owner = 0; disables_interrupts = true }

-- Where a party stands: the ticket it has, or what it does next.
pub data Pc : Type 0 where
  idle : Pc
  taking : Pc
  spinning : ℕ → Pc
  checking : ℕ → Pc
  reading : Pc
  trying : ℕ → Pc
  won : Pc
  holding : Pc
  dropping : Pc
  deadlocked : ℕ → Pc
  refused : Pc

abbrev pub no_owner : ℕ
no_owner = 2 ^ 32 - 1

-- `InterruptState`, on the state of the interrupts and a party.
pub record InterruptState (E : Type 0) : Type 0 where
  pub in_interrupt : E → ℕ → Bool
  pub in_exception : E → ℕ → Bool
  pub core_id : ℕ → ℕ
  pub enter_lock : E → ℕ → E
  pub exit_lock : E → ℕ → E

abbrev pub first_of : Call → Pc
first_of Call.lock = Pc.taking
first_of Call.try_lock = Pc.reading

module _ {E : Type 0} (int : InterruptState E) where
  -- The start of `lock_int`, where `refused` is a failed assertion.
  unfoldable pub enter : LockCell → E → ℕ → Call → Pc × E
  enter cell env i call =
      if not (cell.disables_interrupts || not (int.in_interrupt env i))
      then (Pc.refused, env)
      else if not (is_try call || not (int.in_exception env i))
      then (Pc.refused, env)
      else (first_of call, if cell.disables_interrupts then int.enter_lock env i else env)

  abbrev pub exit : LockCell → E → ℕ → E
  exit cell env i = if cell.disables_interrupts then int.exit_lock env i else env

  -- The next atomic access of party `i`, in `lock_int` or in the `drop` of its guard.
  unfoldable pub advance : ℕ → Call → LockCell → E → Pc → LockCell × Pc × E
  advance i call cell env Pc.idle = let start = enter cell env i call in (cell, start.0, start.1)
  advance i call cell env Pc.taking =
      (record cell { ticket = (cell.ticket + 1) % 2 ^ 32 }, Pc.spinning cell.ticket, env)
  advance i call cell env (Pc.spinning t) =
      if cell.release == t then (cell, Pc.won, env) else (cell, Pc.checking t, env)
  advance i call cell env (Pc.checking t) =
      if cell.owner == int.core_id i
      then (cell, Pc.deadlocked t, env)
      else (cell, Pc.spinning t, env)
  advance i call cell env Pc.reading = (cell, Pc.trying cell.release, env)
  advance i call cell env (Pc.trying r) =
      if cell.ticket == r
      then (record cell { ticket = (r + 1) % 2 ^ 32 }, Pc.won, env)
      else (cell, Pc.idle, exit cell env i)
  advance i call cell env Pc.won = (record cell { owner = int.core_id i }, Pc.holding, env)
  advance i call cell env Pc.holding = (record cell { owner = no_owner }, Pc.dropping, env)
  advance i call cell env Pc.dropping =
      (record cell { release = (cell.release + 1) % 2 ^ 32 }, Pc.idle, exit cell env i)
  advance i call cell env (Pc.deadlocked t) = (cell, Pc.deadlocked t, env)
  advance i call cell env Pc.refused = (cell, Pc.refused, env)

abbrev pub update : (ℕ → Pc) → ℕ → Pc → ℕ → Pc
update pcs i pc j = if j == i then pc else pcs j

pub record System (E : Type 0) : Type 0 where
  pub cell : LockCell
  pub env : E
  pub pcs : ℕ → Pc

abbrev pub moved : {E : Type 0} → System E → ℕ → LockCell × Pc × E → System E
moved s i (cell, pc, env) = record { cell = cell; env = env; pcs = update s.pcs i pc }

-- Any party makes its next access, or the interrupts change by themselves.
pub data Step {E : Type 0} (int : InterruptState E) : System E → System E → Type 0 where
  access :
      {s : System E} (i : ℕ) (call : Call)
      → Step int s (moved s i (advance int i call s.cell s.env (s.pcs i)))
  interrupt : {s : System E} (env : E) → Step int s (record s { env = env })

abbrev pub at_rest : {E : Type 0} → LockCell → E → System E
at_rest cell env = record { cell = cell; env = env; pcs = λ i. Pc.idle }

-- The states that a new lock reaches before its tickets wrap around.
pub data Reach {E : Type 0} (int : InterruptState E) : System E → Type 0 where
  started : (env : E) → Reach int (at_rest new env)
  started_no_preempt : (env : E) → Reach int (at_rest new_no_preempt env)
  later : {s t : System E} → Reach int s → s.cell.ticket + 1 < 2 ^ 32 → Step int s t → Reach int t
