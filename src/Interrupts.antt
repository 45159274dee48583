-- ===== src/Interrupts.antt =====
-- kernel/src/interrupts.rs: the table of handlers, the entry point of all interrupts, and the tables
-- that the processor loads. A handler gets the interrupt number and the state of its core; the frame
-- and the registers are part of what it does with them.
pub mod Gate
pub mod Handler
use package.chocolate_milk.Base.{
  ℕ, zero, suc, ◌+◌, ◌-◌, ◌*◌, ◌/◌, ◌%◌, ◌^◌, bit_and, bit_or, Bool, true, false, ◌||◌, ltb, ◌==◌,
  if◌then◌else◌, is_none, Option, none, some, List, [], ◌∷◌, ◌++◌,
}
use package.chocolate_milk.Base.Outcome.{Outcome, ok, panic, assert, unwrap, ◌>>=◌, ◌>>◌}
use package.chocolate_milk.Acpi.{ApicState, set_core_state}
use package.chocolate_milk.CoreLocals.{
  CoreLocals, apic_id, enter_interrupt, enter_exception, leave_interrupt, leave_exception,
  disable_interrupts, enable_interrupts,
}

-- What an interrupt sees of the kernel: the locals of its core with the table of handlers and
-- whether the lock on it is free, the two static tables of EOIs, whether the core has an APIC with
-- the EOIs written to it, and the states of the APICs.
pub record Kernel (H : Type 0) : Type 0 where
  pub core : CoreLocals
  pub interrupts : Option (ℕ → Option H)
  pub interrupts_free : Bool
  pub eoi_required_table : ℕ → Bool
  pub draining_eois : Bool
  pub has_apic : Bool
  pub eois : ℕ
  pub apics : List ℕ

-- A write of an entry of a table.
abbrev pub entered {ℓ} : {A : Type ℓ} → (ℕ → A) → ℕ → A → ℕ → A
entered table num x j = if j == num then x else table j

module _ {H : Type 0} where
  -- `Interrupts::add_handler` and `remove_handler`, on the dispatch table and `EOI_REQUIRED`.
  pub add_handler :
      (ℕ → Option H) → (ℕ → Bool) → ℕ → H → Bool → Outcome ((ℕ → Option H) × (ℕ → Bool))
  add_handler dispatch required num handler needs_eoi =
      assert (is_none (dispatch num))
      >> ok (entered dispatch num (some handler), entered required num needs_eoi)

  abbrev pub is_handler : (H → H → Bool) → Option H → H → Bool
  is_handler same none handler = false
  is_handler same (some h) handler = same h handler

  pub remove_handler :
      (H → H → Bool) → (ℕ → Option H) → (ℕ → Bool) → ℕ → H → Outcome ((ℕ → Option H) × (ℕ → Bool))
  remove_handler same dispatch required num handler =
      assert (is_handler same (dispatch num) handler)
      >> ok (entered dispatch num none, entered required num false)

  -- `Apic::eoi`
  abbrev pub eoi : Kernel H → Kernel H
  eoi k = if k.has_apic then record k { eois = k.eois + 1 } else k

-- How `interrupt_handler` ends, when it does not panic: NMIs halt the core.
pub data Exit (H : Type 0) : Type 0 where
  returned : Kernel H → Exit H
  halted : Kernel H → Exit H

module _ {H : Type 0} (invoke : H → ℕ → Kernel H → Outcome (Bool × Kernel H)) where
  abbrev pub enter_both : ℕ → CoreLocals → Outcome CoreLocals
  enter_both number core = enter_interrupt core >>= λ entered.
      if ltb number 32 then enter_exception entered else ok entered

  -- The guards drop in the opposite order.
  abbrev pub leave_both : ℕ → Kernel H → Outcome (Exit H)
  leave_both number k =
      (if ltb number 32 then leave_exception k.core else ok k.core) >>= leave_interrupt >>= λ core.
      ok (Exit.returned (record k { core = core }))

  -- An NMI is the sign of a panic of another core.
  abbrev pub nmi : Kernel H → Outcome (Exit H)
  nmi k =
      if k.core.id == 0
      then panic
      else (unwrap (apic_id k.core) >>= λ id.
          set_core_state k.apics id ApicState.halted >>= λ apics.
          ok (Exit.halted (record k { apics = apics })))

  -- `try_lock` and the drop of its guard, around the look at the table.
  abbrev pub handler_in :
      ℕ → Kernel H → Bool → Option (ℕ → Option H) → Outcome (Option H × Kernel H)
  handler_in number k free interrupts = do
    assert free
    locked ← disable_interrupts k.core
    dispatch ← unwrap interrupts
    core ← enable_interrupts locked
    ok (dispatch number, record k { core = core })

  abbrev pub handler_of : ℕ → Kernel H → Outcome (Option H × Kernel H)
  handler_of number k = handler_in number k k.interrupts_free k.interrupts

  abbrev pub invoked : ℕ → Option H × Kernel H → Outcome (Bool × Kernel H)
  invoked number (none, k) = ok (false, k)
  invoked number (some h, k) = invoke h number k

  -- The end: whether the interrupt was handled, and the EOI.
  unfoldable pub finish : ℕ → Bool → Bool × Kernel H → Outcome (Exit H)
  finish number draining (handled, k) =
      if k.eoi_required_table number
      then (if draining || handled then leave_both number (eoi k) else panic)
      else (if handled then leave_both number k else panic)

  unfoldable pub interrupt_handler : ℕ → Kernel H → Outcome (Exit H)
  interrupt_handler number k = enter_both number k.core >>= λ core.
      let inside = record k { core = core } in
      if number == 2
      then nmi inside
      else ((if inside.draining_eois
            then ok (false, inside)
            else (handler_of number inside >>= invoked number))
          >>= finish number inside.draining_eois)

-- `IDTEntry`
pub record IdtEntry : Type 0 where
  pub word0 : ℕ
  pub word1 : ℕ
  pub word2 : ℕ
  pub word3 : ℕ

-- `IDTEntry::new`
unfoldable pub idt_entry : ℕ → ℕ → ℕ → ℕ → ℕ → Outcome IdtEntry
idt_entry cs offset ist typ dpl = do
  assert (ltb ist 8)
  assert (ltb typ 32)
  assert (ltb dpl 4)
  ok (record {
    word0 = bit_or (cs * 2 ^ 16) (bit_and offset 0xffff);
    word1 =
        bit_or
          (bit_or (bit_or (bit_or (bit_and offset 0xffff0000) (2 ^ 15)) (dpl * 2 ^ 13))
            (typ * 2 ^ 8))
          ist;
    word2 = offset / 2 ^ 32;
    word3 = 0;
  })

abbrev pub x64_interrupt_gate : ℕ
x64_interrupt_gate = 0xe

-- The NMI, the double fault and the machine check have the critical stack.
abbrev pub ist_of : ℕ → ℕ
ist_of int_id = if (int_id == 2) || (int_id == 8) || (int_id == 18) then 1 else 0

-- The loop of `init` over the vectors, `left` of them from `int_id` on.
unfoldable pub idt_from : (ℕ → ℕ) → ℕ → ℕ → Outcome (List IdtEntry)
idt_from handlers zero int_id = ok []
idt_from handlers (suc left) int_id = do
  entry ← idt_entry 0x28 (handlers int_id) (ist_of int_id) x64_interrupt_gate 0
  idt ← idt_from handlers left (suc int_id)
  ok (entry ∷ idt)

-- The task state segment is 104 bytes long.
abbrev pub tss_low : ℕ → ℕ
tss_low base =
    bit_or
      (bit_or (bit_or 0x890000000000 (bit_and (base / 2 ^ 24) 0xff * 2 ^ 56))
        (bit_and base 0xffffff * 2 ^ 16))
      (104 - 1)

abbrev pub gdt : ℕ → List ℕ
gdt tss_base =
    0x0000000000000000
    ∷ 0x00009a007c00ffff
    ∷ 0x000092000000ffff
    ∷ 0x00cf9a000000ffff
    ∷ 0x00cf92000000ffff
    ∷ 0x00209a0000000000
    ∷ 0x0000920000000000
    ∷ tss_low tss_base
    ∷ tss_base / 2 ^ 32
    ∷ []

-- The loop of `eoi_required`, `left` interrupts from `ii` on.
unfoldable pub required_from : (ℕ → Bool) → ℕ → ℕ → ℕ × ℕ → ℕ × ℕ
required_from table zero ii ret = ret
required_from table (suc left) ii (low, high) =
    let val = (if table ii then 1 else 0) * 2 ^ (ii % 128) in
    required_from table left (suc ii) (
      if ii / 128 == 0 then bit_or low val else low,
      if ii / 128 == 0 then high else bit_or high val,
    )

unfoldable pub eoi_required : (ℕ → Bool) → ℕ × ℕ
eoi_required table = required_from table 256 0 (0, 0)
