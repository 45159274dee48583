-- ===== src/CoreLocals/Nested.antt =====
-- kernel/src/core_locals.rs: sections with interrupts off and interrupts, nested in each other.
use chocolate_milk.Base.{
  ℕ, ◌+◌, ◌-◌, ◌^◌, ◌<◌, ◌≤◌, ◌≡◌, arith, refl, ap, ap₂, Bool, true, false, not, ◌&&◌, leb, ltb,
  ◌==◌, if◌then◌else◌, Bool-cases, inl, inr, List, [], ◌∷◌, ◌++◌,
}
use chocolate_milk.Base.Outcome.{Outcome, ok, ◌>>=◌}
use chocolate_milk.CoreLocals.{
  CoreLocals, enter_interrupt, enter_exception, leave_interrupt, leave_exception,
  disable_interrupts, enable_interrupts,
}

-- What runs on a core, in the order in which it runs: a point where the core's state is looked at,
-- a section between `disable_interrupts` and `enable_interrupts`, as that of a `no_preempt` lock, or
-- the handler of an interrupt.
pub data Code : Type 0 where
  return : Code
  point : Code → Code
  masked : Code → Code → Code
  interrupted : ℕ → Code → Code → Code

-- Interrupts and exceptions, as `interrupt_handler` counts them.
abbrev pub enter : ℕ → CoreLocals → Outcome CoreLocals
enter number s = enter_interrupt s >>= λ t. if ltb number 32 then enter_exception t else ok t

abbrev pub leave : ℕ → CoreLocals → Outcome CoreLocals
leave number s = (if ltb number 32 then leave_exception s else ok s) >>= leave_interrupt

-- The state at the end, and the states at the points. The gate of an interrupt turns the flag off,
-- and the return from it loads the flag that was there.
pub run : Code → CoreLocals → Outcome (CoreLocals × List CoreLocals)
run return s = ok (s, [])
run (point rest) s = run rest s >>= λ r. ok (r.0, s ∷ r.1)
run (masked code rest) s = disable_interrupts s >>= λ a.
    run code a >>= λ b. enable_interrupts b.0 >>= λ c. run rest c >>= λ r. ok (r.0, b.1 ++ r.1)
run (interrupted number code rest) s = enter number (record s { interrupts_on = false }) >>= λ a.
    run code a >>= λ b. leave number b.0 >>= λ c.
    run rest (record c { interrupts_on = s.interrupts_on }) >>= λ r. ok (r.0, b.1 ++ r.1)

-- Interrupts are on exactly outside of interrupts and with no request to keep them off.
abbrev pub IsExact : CoreLocals → Type 0
IsExact s = s.interrupts_on ≡ ((s.interrupt_disable_outstanding == 0) && (s.interrupt_depth == 0))

abbrev pub AllExact : List CoreLocals → Type 0
AllExact [] = Unit
AllExact (s ∷ seen) = IsExact s × AllExact seen

abbrev pub size : Code → ℕ
size return = 0
size (point rest) = size rest
size (masked code rest) = 1 + size code + size rest
size (interrupted number code rest) = 1 + size code + size rest

-- No counter overflows in as many nested sections.
pub record HasRoom (n : ℕ) (s : CoreLocals) : Type 0 where
  pub interrupts : s.interrupt_depth + n < 2 ^ 64
  pub exceptions : s.exception_depth + n < 2 ^ 64
  pub requests : s.interrupt_disable_outstanding + n < 2 ^ 64

append-AllExact : (xs ys : List CoreLocals) → AllExact xs → AllExact ys → AllExact (xs ++ ys)
append-AllExact [] ys a b = b
append-AllExact (x ∷ xs) ys a b = (a.0, append-AllExact xs ys a.1 b)

abbrev off : CoreLocals → CoreLocals
off s = record s {
  interrupt_disable_outstanding = s.interrupt_disable_outstanding + 1;
  interrupts_on = false;
}

disable_lem :
    (s : CoreLocals)
    → s.interrupt_disable_outstanding + 1 < 2 ^ 64
    → disable_interrupts s ≡ ok (off s)
unfolding disable_interrupts
disable_lem s room =
    let fits : leb (s.interrupt_disable_outstanding + 1) (2 ^ 64 - 1) ≡ true = ground arith in
    rw fits refl

enable_lem : (s : CoreLocals) → IsExact s → enable_interrupts (off s) ≡ ok s
unfolding enable_interrupts
enable_lem s e =
    let requests = s.interrupt_disable_outstanding in
    let some_request : ltb (requests + 1) 1 ≡ false = ground arith in
    let one_less : requests + 1 - 1 ≡ requests = omega arith in
    let flag : (if not (ltb 0 s.interrupt_depth) && (requests + 1 == 1) then true else false)
        ≡ s.interrupts_on =
      ground (arith, e) in
    rw some_request (
      ap₂
        (λ (os : ℕ) (on : Bool).
          ok (record s { interrupt_disable_outstanding = os; interrupts_on = on }))
        one_less flag)

-- In the handler of interrupt `number`.
abbrev pub deeper : ℕ → CoreLocals → CoreLocals
deeper number s = record s {
  interrupt_depth = s.interrupt_depth + 1;
  exception_depth = if ltb number 32 then s.exception_depth + 1 else s.exception_depth;
  interrupts_on = false;
}

pub enter-deeper :
    (number : ℕ) (s : CoreLocals)
    → s.interrupt_depth + 1 < 2 ^ 64
    → s.exception_depth + 1 < 2 ^ 64
    → enter number (record s { interrupts_on = false }) ≡ ok (deeper number s)
unfolding enter_interrupt enter_exception
enter-deeper number s a b =
    let fits : leb (s.interrupt_depth + 1) (2 ^ 64 - 1) ≡ true = ground arith in
    let fits' : leb (s.exception_depth + 1) (2 ^ 64 - 1) ≡ true = ground arith in
    elim (Bool-cases (ltb number 32)) [
      | inl exception ↦ rw (fits, exception, fits') refl
      | inr interrupt ↦ rw (fits, interrupt) refl
    ]

pub leave-deeper :
    (number : ℕ) (s : CoreLocals)
    → leave number (deeper number s) ≡ ok (record s { interrupts_on = false })
unfolding leave_interrupt leave_exception
leave-deeper number s =
    let inside : ltb (s.interrupt_depth + 1) 1 ≡ false = ground arith in
    let inside' : ltb (s.exception_depth + 1) 1 ≡ false = ground arith in
    let one_less : s.interrupt_depth + 1 - 1 ≡ s.interrupt_depth = omega arith in
    let one_less' : s.exception_depth + 1 - 1 ≡ s.exception_depth = omega arith in
    let made = λ (i e : ℕ).
      Outcome.ok (record s { interrupt_depth = i; exception_depth = e; interrupts_on = false }) in
    elim (Bool-cases (ltb number 32)) [
      | inl exception ↦ rw (exception, inside', inside) (ap₂ made one_less one_less')
      | inr interrupt ↦ rw (interrupt, inside) (ap (λ (i : ℕ). made i s.exception_depth) one_less)
    ]

deeper-HasRoom :
    (number n m : ℕ) (s : CoreLocals) → m + 1 ≤ n → HasRoom n s → HasRoom m (deeper number s)
deeper-HasRoom number n m s less room = record {
  interrupts = omega (arith, room.interrupts);
  exceptions = elim (Bool-cases (ltb number 32)) [
    | inl exception ↦ rw exception (omega (arith, room.exceptions))
    | inr interrupt ↦ rw interrupt (omega (arith, room.exceptions))
  ];
  requests = omega (arith, room.requests);
}

less-HasRoom : (n m : ℕ) (s : CoreLocals) → m ≤ n → HasRoom n s → HasRoom m s
less-HasRoom n m s less room = record {
  interrupts = omega (arith, room.interrupts);
  exceptions = omega (arith, room.exceptions);
  requests = omega (arith, room.requests);
}

-- Code that runs on a core whose flag is exact, with room in the counters for its sections, ends with
-- the counters and the flag as they were, and at each of its points interrupts are on exactly outside
-- of interrupts and with no request to keep them off.
pub run-AllExact :
    (code : Code) (s : CoreLocals)
    → IsExact s
    → HasRoom (size code) s
    → (seen : List CoreLocals) × (run code s ≡ ok (s, seen)) × AllExact seen
unfolding run
run-AllExact return s e room = ([], refl, tt)
run-AllExact (point rest) s e room =
    let (seen, runs, all) = run-AllExact rest s e room in (s ∷ seen, rw runs refl, (e, all))
run-AllExact (masked code rest) s e room =
    let inside : HasRoom (size code) (off s) = record {
      interrupts = omega (arith, room.interrupts);
      exceptions = omega (arith, room.exceptions);
      requests = omega (arith, room.requests);
    } in
    let exact : IsExact (off s) = ground arith in
    let (seen, runs, all) = run-AllExact code (off s) exact inside in
    let (seen', runs', all') =
      run-AllExact rest s e
        (less-HasRoom (size (masked code rest)) (size rest) s (omega arith) room) in
    (
      seen ++ seen',
      rw (disable_lem s (omega (arith, room.requests)), runs, enable_lem s e, runs') refl,
      append-AllExact seen seen' all all',
    )
run-AllExact (interrupted number code rest) s e room =
    let exact : IsExact (deeper number s) = ground arith in
    let inside =
      deeper-HasRoom number (size (interrupted number code rest)) (size code) s (omega arith)
        room in
    let (seen, runs, all) = run-AllExact code (deeper number s) exact inside in
    let (seen', runs', all') =
      run-AllExact rest s e
        (less-HasRoom (size (interrupted number code rest)) (size rest) s (omega arith) room) in
    let entered =
      enter-deeper number s (omega (arith, room.interrupts)) (omega (arith, room.exceptions)) in
    (
      seen ++ seen',
      rw (entered, runs, leave-deeper number s, runs') refl,
      append-AllExact seen seen' all all',
    )
