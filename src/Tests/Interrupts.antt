-- ===== src/Tests/Interrupts.antt =====
-- kernel/src/interrupts.rs, with handlers that are known by what they return.
use chocolate_milk.Base.{
  ℕ, ◌≡◌, arith, refl, Bool, true, false, none, some, [], ◌==◌, if◌then◌else◌,
}
use chocolate_milk.Base.Outcome.{Outcome, ok}
use chocolate_milk.Base.Returns.{Returns}
use chocolate_milk.CoreLocals.{init}
use chocolate_milk.Interrupts.{Kernel, interrupt_handler, eoi_required, required_from}
use chocolate_milk.Interrupts.Handler.{IsKept, Ended, interrupt_handler-Ended}

abbrev says : Bool → ℕ → Kernel Bool → Outcome (Bool × Kernel Bool)
says answer number k = ok (answer, k)

says-IsKept : (h : Bool) (k : Kernel Bool) → Returns Unit (λ r. IsKept says k r.1) (says h 32 k)
unfolding Returns
says-IsKept h k = record { core_is = refl; apic_is = refl; eois_is = refl }

-- Vector 32 is that of the timer: it has a handler and requires an EOI.
abbrev running : Kernel Bool
running = record {
  core = init 0;
  interrupts = some (λ number. if number == 32 then some true else none);
  interrupts_free = true;
  eoi_required_table = λ number. number == 32;
  draining_eois = false;
  has_apic = true;
  eois = 5;
  apics = [];
}

interrupt_handler-Ended_example : Ended says 32 running (interrupt_handler says 32 running)
interrupt_handler-Ended_example =
    interrupt_handler-Ended says 32 running (omega arith) (omega arith) (omega arith) (omega arith)
      refl refl says-IsKept

timer_required : eoi_required (λ number. number == 130) ≡ (0, 4)
unfolding eoi_required required_from
timer_required = refl
