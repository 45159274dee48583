-- ===== src/LockCell/Move.antt =====
-- shared/lockcell/src/lib.rs: the ticket of a party, and the ways an access changes the tickets.
use chocolate_milk.Base.{
  ℕ, ◌+◌, ◌^◌, ◌≤◌, ◌<◌, ◌≡◌, refl, sym, ap, ◌∙◌, arith, not, ◌||◌, ◌==◌, Bool-cases, ==→≡, Option,
  none, some, inl, inr,
}
use chocolate_milk.LockCell.Tickets.{not_some, taken}
use chocolate_milk.LockCell.{Call, is_try, first_of, LockCell, Pc, InterruptState, enter, advance}

-- The ticket of a party: the lock is taken by the one that `release` shows.
abbrev pub ticket_of : LockCell → Pc → Option ℕ
ticket_of cell Pc.idle = none
ticket_of cell Pc.taking = none
ticket_of cell (Pc.spinning t) = some t
ticket_of cell (Pc.checking t) = some t
ticket_of cell Pc.reading = none
ticket_of cell (Pc.trying r) = none
ticket_of cell Pc.won = some cell.release
ticket_of cell Pc.holding = some cell.release
ticket_of cell Pc.dropping = some cell.release
ticket_of cell (Pc.deadlocked t) = some t
ticket_of cell Pc.refused = none

-- What `try_lock` has read of `release`.
abbrev pub has_read : Pc → Option ℕ
has_read (Pc.trying r) = some r
has_read _ = none

-- The lock belongs to the party.
abbrev pub Owns : Pc → Type 0
Owns Pc.won = Unit
Owns Pc.holding = Unit
Owns Pc.dropping = Unit
Owns _ = ⊥

pub Owns-ticket_of : (cell : LockCell) (pc : Pc) → Owns pc → ticket_of cell pc ≡ some cell.release
Owns-ticket_of cell Pc.won h = refl
Owns-ticket_of cell Pc.holding h = refl
Owns-ticket_of cell Pc.dropping h = refl
Owns-ticket_of cell Pc.idle h = elim h [ ]
Owns-ticket_of cell Pc.taking h = elim h [ ]
Owns-ticket_of cell (Pc.spinning t) h = elim h [ ]
Owns-ticket_of cell (Pc.checking t) h = elim h [ ]
Owns-ticket_of cell Pc.reading h = elim h [ ]
Owns-ticket_of cell (Pc.trying r) h = elim h [ ]
Owns-ticket_of cell (Pc.deadlocked t) h = elim h [ ]
Owns-ticket_of cell Pc.refused h = elim h [ ]

-- A party that does not own the lock keeps its ticket whatever the lock does.
pub ticket_of-other :
    (cell cell' : LockCell) (pc : Pc) → ¬ Owns pc → ticket_of cell' pc ≡ ticket_of cell pc
ticket_of-other cell cell' Pc.idle h = refl
ticket_of-other cell cell' Pc.taking h = refl
ticket_of-other cell cell' (Pc.spinning t) h = refl
ticket_of-other cell cell' (Pc.checking t) h = refl
ticket_of-other cell cell' Pc.reading h = refl
ticket_of-other cell cell' (Pc.trying r) h = refl
ticket_of-other cell cell' Pc.won h = absurd (h tt)
ticket_of-other cell cell' Pc.holding h = absurd (h tt)
ticket_of-other cell cell' Pc.dropping h = absurd (h tt)
ticket_of-other cell cell' (Pc.deadlocked t) h = refl
ticket_of-other cell cell' Pc.refused h = refl

-- A ticket of the same `release` is the same ticket.
pub ticket_of-same :
    (cell cell' : LockCell) (pc : Pc)
    → cell'.release ≡ cell.release
    → ticket_of cell' pc ≡ ticket_of cell pc
ticket_of-same cell cell' Pc.idle h = refl
ticket_of-same cell cell' Pc.taking h = refl
ticket_of-same cell cell' (Pc.spinning t) h = refl
ticket_of-same cell cell' (Pc.checking t) h = refl
ticket_of-same cell cell' Pc.reading h = refl
ticket_of-same cell cell' (Pc.trying r) h = refl
ticket_of-same cell cell' Pc.won h = ap some h
ticket_of-same cell cell' Pc.holding h = ap some h
ticket_of-same cell cell' Pc.dropping h = ap some h
ticket_of-same cell cell' (Pc.deadlocked t) h = refl
ticket_of-same cell cell' Pc.refused h = refl

-- A party alone.
pub record Fits (cell : LockCell) (pc : Pc) : Type 0 where
  pub between : (t : ℕ) → ticket_of cell pc ≡ some t → (cell.release ≤ t) × (t < cell.ticket)
  pub past : (r : ℕ) → has_read pc ≡ some r → r ≤ cell.release

-- The ways an access changes the tickets.
pub data Move (cell : LockCell) (pc : Pc) (cell' : LockCell) (pc' : Pc) : Type 0 where
  keep :
      cell'.ticket ≡ cell.ticket
      → cell'.release ≡ cell.release
      → ticket_of cell' pc' ≡ ticket_of cell pc
      → ((r : ℕ) → has_read pc' ≡ some r → r ≤ cell.release)
      → Move cell pc cell' pc'
  take :
      cell'.ticket ≡ cell.ticket + 1
      → cell'.release ≡ cell.release
      → ticket_of cell pc ≡ none
      → ticket_of cell' pc' ≡ some cell.ticket
      → has_read pc' ≡ none
      → Move cell pc cell' pc'
  give :
      cell'.ticket ≡ cell.ticket
      → cell'.release ≡ cell.release + 1
      → Owns pc
      → ticket_of cell' pc' ≡ none
      → has_read pc' ≡ none
      → Move cell pc cell' pc'

first_of-ticket_of :
    (cell : LockCell) (call : Call)
    → (ticket_of cell (first_of call) ≡ none) × (has_read (first_of call) ≡ none)
first_of-ticket_of cell Call.lock = (refl, refl)
first_of-ticket_of cell Call.try_lock = (refl, refl)

module _ {E : Type 0} (int : InterruptState E) where
  -- A call starts without a ticket.
  enter-ticket_of :
      (cell : LockCell) (env : E) (i : ℕ) (call : Call)
      → (ticket_of cell (enter int cell env i call).0 ≡ none)
        × (has_read (enter int cell env i call).0 ≡ none)
  unfolding enter
  enter-ticket_of cell env i call =
      elim (Bool-cases (not (cell.disables_interrupts || not (int.in_interrupt env i)))) [
        | inl bad ↦ rw bad (refl, refl)
        | inr fine ↦ elim (Bool-cases (not (is_try call || not (int.in_exception env i)))) [
          | inl bad ↦ rw (fine, bad) (refl, refl)
          | inr fine' ↦ rw (fine, fine') (first_of-ticket_of cell call)
        ]
      ]

  pub advance-Move :
      (i : ℕ) (call : Call) (cell : LockCell) (env : E) (pc : Pc)
      → cell.ticket + 1 < 2 ^ 32
      → cell.release ≤ cell.ticket
      → Fits cell pc
      → Move cell pc (advance int i call cell env pc).0 (advance int i call cell env pc).1
  unfolding advance enter
  advance-Move i call cell env Pc.idle small le h =
      let (none', unread) = enter-ticket_of cell env i call in
      keep refl refl none' (λ r e. absurd (not_some (sym unread ∙ e)))
  advance-Move i call cell env Pc.taking small le h = take (omega arith) refl refl refl refl
  advance-Move i call cell env (Pc.spinning t) small le h = elim (Bool-cases (cell.release == t)) [
    | inl mine ↦ rw mine (keep refl refl (ap some (==→≡ cell.release t mine)) (λ r. cc))
    | inr wait ↦ rw wait (keep refl refl refl (λ r. cc))
  ]
  advance-Move i call cell env (Pc.checking t) small le h =
      elim (Bool-cases (cell.owner == int.core_id i)) [
        | inl mine ↦ rw mine (keep refl refl refl (λ r. cc))
        | inr other ↦ rw other (keep refl refl refl (λ r. cc))
      ]
  advance-Move i call cell env Pc.reading small le h =
      keep refl refl refl (λ r e. ground (arith, e))
  advance-Move i call cell env (Pc.trying r) small le h = elim (Bool-cases (cell.ticket == r)) [
    | inl free ↦
        let at = ==→≡ cell.ticket r free in
        let last = h.past r refl in
        let here : r ≡ cell.release = omega arith in
        rw free (take (omega arith) refl refl (ap some (omega arith)) refl)
    | inr taken ↦ rw taken (keep refl refl refl (λ r. cc))
  ]
  advance-Move i call cell env Pc.won small le h = keep refl refl refl (λ r. cc)
  advance-Move i call cell env Pc.holding small le h = keep refl refl refl (λ r. cc)
  advance-Move i call cell env Pc.dropping small le h =
      let known = h.between cell.release refl in give refl (omega arith) tt refl refl
  advance-Move i call cell env (Pc.deadlocked t) small le h = keep refl refl refl (λ r. cc)
  advance-Move i call cell env Pc.refused small le h = keep refl refl refl (λ r. cc)
