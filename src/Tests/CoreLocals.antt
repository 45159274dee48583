-- ===== src/Tests/CoreLocals.antt =====
-- kernel/src/core_locals.rs, on the core that has just turned its interrupts on.
use chocolate_milk.Base.{◌≡◌, arith, refl, true, List}
use chocolate_milk.Base.Outcome.{ok}
use chocolate_milk.CoreLocals.{CoreLocals, init, enable_interrupts}
use chocolate_milk.CoreLocals.Nested.{
  Code, return, point, masked, interrupted, run, AllExact, run-AllExact,
}

abbrev awake : CoreLocals
awake = record (init 3) { interrupt_disable_outstanding = 0; interrupts_on = true }

-- The request that `init` starts with is taken back.
first_enable : enable_interrupts (init 3) ≡ ok awake
unfolding enable_interrupts
first_enable = refl

-- A page fault in a section with interrupts off, whose handler has such a section itself, and a
-- timer interrupt behind it.
abbrev busy : Code
busy =
    masked (interrupted 14 (masked (point return) (point return)) (point return))
      (point (interrupted 32 (point return) (point return)))

run-AllExact_example :
    (seen : List CoreLocals) × (run busy awake ≡ ok (awake, seen)) × AllExact seen
run-AllExact_example =
    run-AllExact busy awake refl
      (record { interrupts = omega arith; exceptions = omega arith; requests = omega arith })
