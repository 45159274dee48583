-- ===== src/CoreLocals.antt =====
-- kernel/src/core_locals.rs: the counters of a core for interrupts, exceptions and requests to keep
-- interrupts off, and the core's interrupt flag, which these change.
pub mod Nested
use package.chocolate_milk.Base.{
  checked_sub, ℕ, ◌+◌, ◌-◌, ◌^◌, Bool, true, false, not, ◌&&◌, ltb, ◌==◌, if◌then◌else◌, Option,
  none, some,
}
use package.chocolate_milk.Base.Outcome.{Outcome, ok, unwrap, ◌>>=◌, ◌>>◌}
use package.chocolate_milk.RangeSet.Alloc.{checked_add}

-- `AutoAtomicRef::increment`, and the drop of the guard that it gives.
abbrev pub increment : ℕ → Outcome ℕ
increment count = unwrap (checked_add count 1)

abbrev pub decrement : ℕ → Outcome ℕ
decrement count = unwrap (checked_sub count 1)

-- The last field is the interrupt flag of the core.
pub record CoreLocals : Type 0 where
  pub id : ℕ
  pub interrupt_depth : ℕ
  pub exception_depth : ℕ
  pub interrupt_disable_outstanding : ℕ
  pub apic_id_word : ℕ
  pub interrupts_on : Bool

-- The counters of `init`, which runs with interrupts off.
abbrev pub init : ℕ → CoreLocals
init core_id = record {
  id = core_id;
  interrupt_depth = 0;
  exception_depth = 0;
  interrupt_disable_outstanding = 1;
  apic_id_word = 2 ^ 32 - 1;
  interrupts_on = false;
}

abbrev pub set_apic_id : CoreLocals → ℕ → CoreLocals
set_apic_id s apic_id = record s { apic_id_word = apic_id }

abbrev pub apic_id : CoreLocals → Option ℕ
apic_id s = if s.apic_id_word == 0xffffffff then none else some s.apic_id_word

abbrev pub in_interrupt : CoreLocals → Bool
in_interrupt s = ltb 0 s.interrupt_depth

abbrev pub in_exception : CoreLocals → Bool
in_exception s = ltb 0 s.exception_depth

unfoldable pub enter_interrupt : CoreLocals → Outcome CoreLocals
enter_interrupt s =
    increment s.interrupt_depth >>= λ depth. ok (record s { interrupt_depth = depth })

unfoldable pub enter_exception : CoreLocals → Outcome CoreLocals
enter_exception s =
    increment s.exception_depth >>= λ depth. ok (record s { exception_depth = depth })

-- The drops of the guards of `enter_interrupt` and `enter_exception`.
unfoldable pub leave_interrupt : CoreLocals → Outcome CoreLocals
leave_interrupt s =
    decrement s.interrupt_depth >>= λ depth. ok (record s { interrupt_depth = depth })

unfoldable pub leave_exception : CoreLocals → Outcome CoreLocals
leave_exception s =
    decrement s.exception_depth >>= λ depth. ok (record s { exception_depth = depth })

unfoldable pub disable_interrupts : CoreLocals → Outcome CoreLocals
disable_interrupts s = unwrap (checked_add s.interrupt_disable_outstanding 1) >>= λ os.
    ok (record s { interrupt_disable_outstanding = os; interrupts_on = false })

unfoldable pub enable_interrupts : CoreLocals → Outcome CoreLocals
enable_interrupts s = unwrap (checked_sub s.interrupt_disable_outstanding 1) >>= λ os.
    ok (record s {
      interrupt_disable_outstanding = os;
      interrupts_on =
          if not (in_interrupt s) && (s.interrupt_disable_outstanding == 1)
          then true
          else s.interrupts_on;
    })
