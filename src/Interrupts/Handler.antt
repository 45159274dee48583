-- ===== src/Interrupts/Handler.antt =====
-- kernel/src/interrupts.rs, `interrupt_handler`: when it returns, and what it leaves.
use chocolate_milk.Base.{
  ℕ, ◌+◌, ◌-◌, ◌^◌, ◌<◌, ◌≡◌, ◌≢◌, arith, refl, sym, ap, ap₂, ltb, leb, ◌∙◌, subst, ◌⊎◌, inl, inr,
  Bool, true, false, ◌||◌, ◌==◌, Bool-cases, Option-cases, if◌then◌else◌, Option, none, some,
}
use chocolate_milk.Base.Outcome.{Outcome, ok, panic, out_of_fuel, ◌>>=◌}
use chocolate_milk.Base.Returns.{Returns}
use chocolate_milk.CoreLocals.{CoreLocals, disable_interrupts, enable_interrupts}
use chocolate_milk.CoreLocals.Nested.{enter, leave, deeper, enter-deeper, leave-deeper}
use chocolate_milk.Interrupts.{
  Kernel, Exit, eoi, leave_both, handler_in, handler_of, invoked, finish, interrupt_handler,
}

module _ {H : Type 0} (invoke : H → ℕ → Kernel H → Outcome (Bool × Kernel H)) where
  -- Of `k'`, which a handler leaves of `k`: the core's counters and flag, the APIC and its EOIs.
  pub record IsKept (k k' : Kernel H) : Type 0 where
    pub core_is : k'.core ≡ k.core
    pub apic_is : k'.has_apic ≡ k.has_apic
    pub eois_is : k'.eois ≡ k.eois

  -- `interrupt_handler` has dealt with an interrupt: the core is as it was, and an EOI was sent
  -- exactly if the vector required one at the end.
  pub record IsServed (number : ℕ) (k t : Kernel H) : Type 0 where
    pub core_is : t.core ≡ k.core
    pub eois_is : t.eois ≡ (if t.eoi_required_table number then k.eois + 1 else k.eois)

  -- The kernel while the handler of `number` runs.
  abbrev pub inside : ℕ → Kernel H → Kernel H
  inside number k = record k { core = deeper number k.core }

  -- Why an interrupt is dealt with: EOIs are drained and it requires one, or its handler says so.
  abbrev pub IsDue : ℕ → Kernel H → Kernel H → Type 0
  IsDue number k t =
      ((k.draining_eois ≡ true) × (t.eoi_required_table number ≡ true))
      ⊎ ((dispatch : ℕ → Option H) × (h : H) × (k' : Kernel H) × (k.draining_eois ≡ false)
          × (k.interrupts ≡ some dispatch)
          × (dispatch number ≡ some h)
          × (invoke h number (inside number k) ≡ ok (true, k')))

  -- Nothing says that the interrupt is dealt with, or the table of handlers is in use.
  abbrev pub IsFatal : ℕ → Kernel H → Type 0
  IsFatal number k =
      (k.draining_eois ≡ true → k.eoi_required_table number ≡ false)
      × ((dispatch : ℕ → Option H) (h : H) (k' : Kernel H)
          → k.draining_eois ≡ false
          → k.interrupts_free ≡ true
          → k.interrupts ≡ some dispatch
          → dispatch number ≡ some h
          → invoke h number (inside number k) ≢ ok (true, k'))

  abbrev pub Ended : ℕ → Kernel H → Outcome (Exit H) → Type 0
  Ended number k m =
      ((m ≡ panic) × IsFatal number k)
      ⊎ ((t : Kernel H) × (m ≡ ok (Exit.returned t)) × IsServed number k t × IsDue number k t)

  leave_both-core :
      (number : ℕ) (core : CoreLocals) (k : Kernel H)
      → core.interrupts_on ≡ false
      → k.core ≡ deeper number core
      → leave_both invoke number k ≡ ok (Exit.returned (record k { core = core }))
  leave_both-core number core k masked e =
      let left : leave number k.core ≡ ok (record core { interrupts_on = false }) =
        ap (leave number) e ∙ leave-deeper number core in
      let same : record core { interrupts_on = false } ≡ core =
        ap (λ (on : Bool). record core { interrupts_on = on }) (sym masked) in
      ap (λ (m : Outcome CoreLocals). m >>= λ c. ok (Exit.returned (record k { core = c }))) left
      ∙ ap (λ (c : CoreLocals). ok (Exit.returned (record k { core = c }))) same

  -- The look at the table of handlers leaves the core as it is.
  handler_of-inside :
      (number : ℕ) (k : Kernel H) (dispatch : ℕ → Option H)
      → k.core.interrupt_disable_outstanding + 1 < 2 ^ 64
      → k.interrupts_free ≡ true
      → k.interrupts ≡ some dispatch
      → handler_of invoke number (inside number k) ≡ ok (dispatch number, inside number k)
  unfolding disable_interrupts enable_interrupts
  handler_of-inside number k dispatch room free table =
      let requests = k.core.interrupt_disable_outstanding in
      let fits : leb (requests + 1) (2 ^ 64 - 1) ≡ true = ground arith in
      let some_request : ltb (requests + 1) 1 ≡ false = ground arith in
      let one_less : requests + 1 - 1 ≡ requests = omega arith in
      let nested : ltb 0 (k.core.interrupt_depth + 1) ≡ true = ground arith in
      let found : handler_in invoke number (inside number k) true (some dispatch)
          ≡ ok (dispatch number, inside number k) =
        rw (fits, some_request, nested)
          (ap
            (λ (os : ℕ). ok (
              dispatch number,
              record k {
                core = record (deeper number k.core) { interrupt_disable_outstanding = os };
              },
            ))
            one_less) in
      ap₂ (handler_in invoke number (inside number k)) free table ∙ found

  handler_of-busy :
      (number : ℕ) (k : Kernel H)
      → k.interrupts_free ≡ false
      → handler_of invoke number (inside number k) ≡ panic
  handler_of-busy number k busy =
      ap (λ (free : Bool). handler_in invoke number (inside number k) free k.interrupts) busy

  handler_of-missing :
      (number : ℕ) (k : Kernel H)
      → k.core.interrupt_disable_outstanding + 1 < 2 ^ 64
      → k.interrupts ≡ none
      → handler_of invoke number (inside number k) ≡ panic
  unfolding disable_interrupts
  handler_of-missing number k room missing =
      let fits : leb (k.core.interrupt_disable_outstanding + 1) (2 ^ 64 - 1) ≡ true =
        ground arith in
      elim (Bool-cases k.interrupts_free) [
        | inl free ↦
            let stuck : handler_in invoke number (inside number k) true none ≡ panic =
              rw fits refl in
            ap₂ (handler_in invoke number (inside number k)) free missing ∙ stuck
        | inr busy ↦ handler_of-busy number k busy
      ]

  -- The end when the interrupt is dealt with, and when it is not.
  finish-IsServed :
      (number : ℕ) (k k' : Kernel H) (handled : Bool)
      → k.core.interrupts_on ≡ false
      → k.has_apic ≡ true
      → IsKept (inside number k) k'
      → (handled ≡ true) ⊎ ((k.draining_eois ≡ true) × (k'.eoi_required_table number ≡ true))
      → (t : Kernel H) × (finish invoke number k.draining_eois (handled, k') ≡ ok (Exit.returned t))
        × IsServed number k t
        × (t.eoi_required_table number ≡ k'.eoi_required_table number)
  unfolding finish
  finish-IsServed number k k' handled masked apic kept due =
      elim (Bool-cases (k'.eoi_required_table number)) [
        | inl required ↦
            let any : (k.draining_eois || handled) ≡ true = ground arith in
            let sent : Kernel H = record k' { eois = k'.eois + 1 } in
            let told : eoi k' ≡ sent =
              ap (λ (b : Bool). if b then sent else k') (kept.apic_is ∙ apic) in
            let left = leave_both-core number k.core sent masked kept.core_is in
            (
              record sent { core = k.core },
              rw (required, any) (ap (leave_both invoke number) told ∙ left),
              record { core_is = refl; eois_is = rw required (ap (λ (n : ℕ). n + 1) kept.eois_is) },
              refl,
            )
        | inr spared ↦
            let said : handled ≡ true = ground arith in
            (
              record k' { core = k.core },
              rw (spared, said) (leave_both-core number k.core k' masked kept.core_is),
              record { core_is = refl; eois_is = rw spared kept.eois_is },
              refl,
            )
      ]

  finish-panics :
      (number : ℕ) (k k' : Kernel H)
      → (k.draining_eois ≡ true → k'.eoi_required_table number ≡ false)
      → finish invoke number k.draining_eois (false, k') ≡ panic
  unfolding finish
  finish-panics number k k' not_due = elim (Bool-cases (k'.eoi_required_table number)) [
    | inl required ↦
        let neither : (k.draining_eois || false) ≡ false = ground (arith, not_due) in
        rw (required, neither) refl
    | inr spared ↦ rw spared refl
  ]

  -- Behind the call of a handler.
  invoked-Ended :
      (number : ℕ) (k : Kernel H) (dispatch : ℕ → Option H) (h : H) (m : Outcome (Bool × Kernel H))
      → k.core.interrupts_on ≡ false
      → k.has_apic ≡ true
      → k.draining_eois ≡ false
      → k.interrupts ≡ some dispatch
      → dispatch number ≡ some h
      → Returns Unit (λ r. IsKept (inside number k) r.1) m
      → invoke h number (inside number k) ≡ m
      → Ended number k (m >>= finish invoke number k.draining_eois)
  unfolding Returns
  invoked-Ended number k dispatch h (ok (true, k')) masked apic serving table entry kept e =
      let (t, runs, served, same) = finish-IsServed number k k' true masked apic kept (inl refl) in
      inr (t, runs, served, inr (dispatch, h, k', serving, table, entry, e))
  invoked-Ended number k dispatch h (ok (false, k')) masked apic serving table entry kept e = inl (
    finish-panics number k k' (λ draining. cc),
    (λ draining. cc, λ d g k'' off free table' entry' says. cc),
  )
  invoked-Ended number k dispatch h panic masked apic serving table entry kept e =
      inl (refl, (λ draining. cc, λ d g k'' off free table' entry' says. cc))
  invoked-Ended number k dispatch h out_of_fuel masked apic serving table entry kept e =
      elim kept [ ]

  -- Behind the entry, by whether EOIs are drained.
  abbrev dispatched : ℕ → Kernel H → Bool → Outcome (Exit H)
  dispatched number k draining =
      (if draining
        then ok (false, inside number k)
        else (handler_of invoke number (inside number k) >>= invoked invoke number))
      >>= finish invoke number k.draining_eois

  no_handler-Ended :
      (number : ℕ) (k : Kernel H)
      → k.draining_eois ≡ false
      → ((d : ℕ → Option H) (h : H) → k.interrupts ≡ some d → d number ≡ some h → ⊥)
      → Ended number k (finish invoke number k.draining_eois (false, inside number k))
  no_handler-Ended number k serving nobody = inl (
    finish-panics number k (inside number k) (λ draining. cc),
    (λ draining. cc, λ d g k'' off free table entry says. nobody d g table entry),
  )

  draining-Ended :
      (number : ℕ) (k : Kernel H)
      → k.core.interrupts_on ≡ false
      → k.has_apic ≡ true
      → k.draining_eois ≡ true
      → Ended number k (dispatched number k true)
  draining-Ended number k masked apic draining = elim (Bool-cases (k.eoi_required_table number)) [
    | inl required ↦
        let kept : IsKept (inside number k) (inside number k) = record {
          core_is = refl;
          apic_is = refl;
          eois_is = refl;
        } in
        let (t, runs, served, same) =
          finish-IsServed number k (inside number k) false masked apic kept
            (inr (draining, required)) in
        inr (t, runs, served, inl (draining, same ∙ required))
    | inr spared ↦ inl (
      finish-panics number k (inside number k) (λ e. spared),
      (λ e. spared, λ d g k'' off free table entry says. cc),
    )
  ]

  serving-Ended :
      (number : ℕ) (k : Kernel H)
      → k.core.interrupt_disable_outstanding + 1 < 2 ^ 64
      → k.core.interrupts_on ≡ false
      → k.has_apic ≡ true
      → k.draining_eois ≡ false
      → ((h : H) (j : Kernel H) → Returns Unit (λ r. IsKept j r.1) (invoke h number j))
      → Ended number k (dispatched number k false)
  serving-Ended number k room masked apic serving handlers = elim (Option-cases k.interrupts) [
    | inl missing ↦
        rw (handler_of-missing number k room missing)
          (inl (refl, (λ draining. cc, λ d g k'' off free table entry says. cc)))
    | inr (dispatch, table) ↦ elim (Bool-cases k.interrupts_free) [
      | inr busy ↦
          rw (handler_of-busy number k busy)
            (inl (refl, (λ draining. cc, λ d g k'' off free table' entry says. cc)))
      | inl free ↦
          let found = handler_of-inside number k dispatch room free table in
          elim (Option-cases (dispatch number)) [
            | inl nobody ↦
                rw (found, nobody) (no_handler-Ended number k serving (λ d h table' entry. cc))
            | inr (h, entry) ↦
                rw (found, entry)
                  (invoked-Ended number k dispatch h (invoke h number (inside number k)) masked apic
                    serving table entry (handlers h (inside number k)) refl)
          ]
    ]
  ]

  -- For any interrupt but the NMI, when interrupts are off, the core has an APIC, its counters have
  -- room and no handler changes them, the flag, the APIC or the EOIs or fails to end: the entry point
  -- returns or panics. If it returns, the counters and the flag are as they were, one EOI was sent if
  -- the vector requires one then and none otherwise, and either EOIs are drained and the vector
  -- requires one, or EOIs are not drained and the handler of the vector said that it was handled. If
  -- it panics, none of this is so, or the table of handlers was in use.
  pub interrupt_handler-Ended :
      (number : ℕ) (k : Kernel H)
      → number ≢ 2
      → k.core.interrupt_depth + 1 < 2 ^ 64
      → k.core.exception_depth + 1 < 2 ^ 64
      → k.core.interrupt_disable_outstanding + 1 < 2 ^ 64
      → k.core.interrupts_on ≡ false
      → k.has_apic ≡ true
      → ((h : H) (j : Kernel H) → Returns Unit (λ r. IsKept j r.1) (invoke h number j))
      → Ended number k (interrupt_handler invoke number k)
  unfolding interrupt_handler
  interrupt_handler-Ended number k other a b c masked apic handlers =
      let not_nmi : (number == 2) ≡ false = ground arith in
      let same : k.core ≡ record k.core { interrupts_on = false } =
        ap (λ (on : Bool). record k.core { interrupts_on = on }) masked in
      let entered : enter number k.core ≡ ok (deeper number k.core) =
        ap (enter number) same ∙ enter-deeper number k.core a b in
      rw (entered, not_nmi)
        (elim (Bool-cases k.draining_eois) [
          | inl draining ↦
              subst (λ (d : Bool). Ended number k (dispatched number k d)) (sym draining)
                (draining-Ended number k masked apic draining)
          | inr serving ↦
              subst (λ (d : Bool). Ended number k (dispatched number k d)) (sym serving)
                (serving-Ended number k c masked apic serving handlers)
        ])
