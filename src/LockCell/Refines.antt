-- ===== src/LockCell/Refines.antt =====
-- shared/lockcell/src/lib.rs: the lock is a queue of parties, of which the first one has the lock.
use chocolate_milk.Base.{
  dec, some_inj, ℕ, ◌+◌, ◌^◌, ◌<◌, ◌≡◌, ◌≢◌, refl, sym, ap, subst, ◌∙◌, arith, Option, none, some,
  inl, inr, ◌⊎◌, List, [], ◌∷◌, ◌++◌,
}
use chocolate_milk.LockCell.{
  LockCell, Pc, InterruptState, advance, System, Step, Reach, access, interrupt, started,
  started_no_preempt, later, moved,
}
use chocolate_milk.LockCell.Tickets.{not_some}
use chocolate_milk.LockCell.Move.{Owns, Owns-ticket_of, Move, keep, take, give}
use chocolate_milk.LockCell.Invariant.{
  held, held-mine, same_release, given_others, Inv, access-Move, Reach-Inv, Step-Inv,
}

-- The lock as a queue: a party joins at the end, and the first one leaves.
pub data QueueStep : List ℕ → List ℕ → Type 0 where
  join : {q : List ℕ} (i : ℕ) → QueueStep q (q ++ i ∷ [])
  leave : {q : List ℕ} (i : ℕ) → QueueStep (i ∷ q) q

pub data QueueReach : List ℕ → Type 0 where
  empty : QueueReach []
  next : {q q' : List ℕ} → QueueReach q → QueueStep q q' → QueueReach q'

-- The parties in the queue have the tickets from `r` to `ticket`.
abbrev pub Lines : ℕ → (ℕ → Option ℕ) → ℕ → List ℕ → Type 0
Lines ticket held r [] = r ≡ ticket
Lines ticket held r (i ∷ q) = (held i ≡ some r) × Lines ticket held (r + 1) q

module _ (ticket : ℕ) (old new : ℕ → Option ℕ) where
  Lines-kept :
      (r : ℕ) (q : List ℕ) → ((j : ℕ) → new j ≡ old j) → Lines ticket old r q → Lines ticket new r q
  Lines-kept r [] same h = h
  Lines-kept r (j ∷ q) same h = (same j ∙ h.0, Lines-kept (r + 1) q same h.1)

  module _ (i : ℕ) (others : (j : ℕ) → j ≢ i → new j ≡ old j) where
    Lines-join :
        (r : ℕ) (q : List ℕ)
        → old i ≡ none
        → new i ≡ some ticket
        → Lines ticket old r q
        → Lines (ticket + 1) new r (q ++ i ∷ [])
    Lines-join r [] before after h = (after ∙ (rw h refl), omega arith)
    Lines-join r (j ∷ q) before after h = (
      others j (λ same. not_some (sym before ∙ subst (λ k. old k ≡ some r) same h.0)) ∙ h.0,
      Lines-join (r + 1) q before after h.1,
    )

    Lines-leave :
        (r first : ℕ) (q : List ℕ)
        → old i ≡ some first
        → first < r
        → Lines ticket old r q
        → Lines ticket new r q
    Lines-leave r first [] before late h = h
    Lines-leave r first (j ∷ q) before late h =
        let other : j ≢ i = λ same.
          let e = some_inj (sym before ∙ subst (λ k. old k ≡ some r) same h.0) in omega arith in
        (others j other ∙ h.0, Lines-leave (r + 1) first q before (omega arith) h.1)

-- The queue of a state of the lock, at whose head the party stands that owns the lock.
pub record IsQueue {E : Type 0} (s : System E) (q : List ℕ) : Type 0 where
  pub lines : Lines s.cell.ticket (held s) s.cell.release q
  pub first : (i : ℕ) → Owns (s.pcs i) → (rest : List ℕ) × (q ≡ i ∷ rest)

head-Owns :
    {E : Type 0} (s : System E) (q : List ℕ)
    → Inv s
    → Lines s.cell.ticket (held s) s.cell.release q
    → (i : ℕ) → Owns (s.pcs i)
    → (rest : List ℕ) × (q ≡ i ∷ rest)
head-Owns s [] inv h i o =
    let b = inv.out.between i s.cell.release (Owns-ticket_of s.cell (s.pcs i) o) in
    absurd (omega arith)
head-Owns s (j ∷ rest) inv h i o =
    let same = inv.out.apart j i s.cell.release h.0 (Owns-ticket_of s.cell (s.pcs i) o) in
    (rest, ap (λ k. k ∷ rest) same)

IsQueue-Lines :
    {E : Type 0} (s : System E) (q : List ℕ)
    → Inv s
    → Lines s.cell.ticket (held s) s.cell.release q
    → IsQueue s q
IsQueue-Lines s q inv h = record { lines = h; first = head-Owns s q inv h }

Lines-words :
    (h : ℕ → Option ℕ) (t t' r r' : ℕ) (q : List ℕ)
    → t' ≡ t
    → r' ≡ r
    → Lines t h r q
    → Lines t' h r' q
Lines-words h t t' r r' q e f l = rw (e, f) l

abbrev Follows : List ℕ → List ℕ → Type 0
Follows q q' = (q' ≡ q) ⊎ QueueStep q q'

module _ {E : Type 0} (s : System E) (i : ℕ) (cell : LockCell) (pc : Pc) (env : E)
    (inv : Inv s) where
  abbrev after : System E
  after = moved s i (cell, pc, env)

  -- An access is a step of the queue, or leaves it as it is.
  Move-Follows :
      (q : List ℕ)
      → Lines s.cell.ticket (held s) s.cell.release q
      → Move s.cell (s.pcs i) cell pc
      → (q' : List ℕ) × Lines cell.ticket (held after) cell.release q' × Follows q q'
  Move-Follows q h (keep t r kept_ticket read) = (
    q,
    Lines-words (held after) s.cell.ticket _ s.cell.release _ q t r (
        Lines-kept s.cell.ticket (held s) (held after) s.cell.release q
          (λ j. elim (dec j i) [
            | inl same ↦ rw same (held-mine s i cell pc env inv ∙ kept_ticket)
            | inr other ↦ same_release s i cell pc env inv r j other
          ])
          h),
    inl refl,
  )
  Move-Follows q h (take t r before got unread) = (
    q ++ i ∷ [],
    Lines-words (held after) (s.cell.ticket + 1) _ s.cell.release _ (q ++ i ∷ []) t r (
        Lines-join s.cell.ticket (held s) (held after) i (same_release s i cell pc env inv r)
          s.cell.release q before (held-mine s i cell pc env inv ∙ got) h),
    inr (join i),
  )
  Move-Follows q h (give t r owns gone unread) =
      let (rest, at) = head-Owns s q inv h i owns in
      let h' = subst (Lines s.cell.ticket (held s) s.cell.release) at h in
      (
        rest,
        Lines-words (held after) s.cell.ticket _ (s.cell.release + 1) _ rest t r (
            Lines-leave s.cell.ticket (held s) (held after) i
              (given_others s i cell pc env inv owns) (s.cell.release + 1) s.cell.release rest
              (Owns-ticket_of s.cell (s.pcs i) owns) (omega arith) h'.1),
        inr (subst (λ l. QueueStep l rest) (sym at) (leave i)),
      )

module _ {E : Type 0} (int : InterruptState E) where
  Step-Follows :
      {s t : System E} (q : List ℕ)
      → Step int s t
      → s.cell.ticket + 1 < 2 ^ 32
      → Inv s
      → Lines s.cell.ticket (held s) s.cell.release q
      → (q' : List ℕ) × Lines t.cell.ticket (held t) t.cell.release q' × Follows q q'
  Step-Follows {s = s} q (access i call) small inv h =
      let (cell, pc, env) = advance int i call s.cell s.env (s.pcs i) in
      Move-Follows s i cell pc env inv q h (access-Move int s i call small inv)
  Step-Follows q (interrupt env) small inv h = (q, h, inl refl)

  followed : {q q' : List ℕ} → QueueReach q → Follows q q' → QueueReach q'
  followed r (inl same) = subst QueueReach (sym same) r
  followed r (inr st) = next r st

  Reach-Lines :
      {s : System E}
      → Reach int s
      → (q : List ℕ) × QueueReach q × Lines s.cell.ticket (held s) s.cell.release q
  Reach-Lines (started env) = ([], empty, refl)
  Reach-Lines (started_no_preempt env) = ([], empty, refl)
  Reach-Lines (later r small st) =
      let (q, run, h) = Reach-Lines r in
      let (q', h', f) = Step-Follows q st small (Reach-Inv int r) h in (q', followed run f, h')

  -- Every state that a new lock reaches before its tickets wrap around has a queue of parties that
  -- is reached from the empty one by parties that join at the end and leave at the front: the queue
  -- has the parties with a ticket in the order of the tickets, and a party that owns the lock
  -- stands at its front. Each further step keeps this with the same queue or a step of the queue.
  pub Reach-IsQueue :
      (s : System E)
      → Reach int s
      → (q : List ℕ) × QueueReach q
        × IsQueue s q
        × ((t : System E)
            → Step int s t
            → s.cell.ticket + 1 < 2 ^ 32
            → (q' : List ℕ) × IsQueue t q' × ((q' ≡ q) ⊎ QueueStep q q'))
  Reach-IsQueue s r =
      let inv = Reach-Inv int r in
      let (q, run, h) = Reach-Lines r in
      (
        q,
        run,
        IsQueue-Lines s q inv h,
        λ t st small.
            let (q', h', f) = Step-Follows q st small inv h in
            (q', IsQueue-Lines t q' (Step-Inv int st small inv) h', f),
      )
