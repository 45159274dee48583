-- ===== src/Apic/Lifetime/Restored.antt =====
-- kernel/src/apic.rs: what the drop of an `Apic` leaves, whatever happened since `init`.
use chocolate_milk.Base.{
  ℕ, ◌^◌, ◌≡◌, ◌⊎◌, arith, refl, ap, subst, is_none, inl, inr, bit_and, bit_or, Bool, true, false,
  not, ◌==◌, if◌then◌else◌, Bool-cases, Option, List, [], ◌∷◌,
}
use chocolate_milk.Base.Outcome.{ok, assert, ◌>>◌}
use chocolate_milk.Base.Returns.{Returns, Returns-result, bind-ok, assert-ok, ok-injective}
use chocolate_milk.PageTable.{PhysMem}
use chocolate_milk.Apic.{
  Register, ApicMode, Machine, Apic, ia32_apic_base, wrmsr, out8, read_apic, write_apic, mask_timer,
}
use chocolate_milk.Apic.Lifetime.{
  CpuFeatures, none_serviced, none_pending, end_serviced, drain, put_back, drop_apic, mode_of,
  new_base, mapped_for, take_over, init,
}

-- The machine ends what is being serviced, when the core sends EOIs.
abbrev pub Quietens : ApicMode → List (Machine → Machine) → Machine → Type 0
Quietens mode [] m = none_serviced mode m ≡ true
Quietens mode (act ∷ acts) m =
    (none_serviced mode m ≡ true)
    ⊎ Quietens mode acts (act (write_apic mode m Register.end_of_interrupt 0))

-- The machine delivers what is pending.
abbrev pub Delivers : ApicMode → (ℕ → Bool) → List (Machine → Machine) → Machine → Type 0
Delivers mode required [] m = none_pending mode required m ≡ true
Delivers mode required (act ∷ acts) m =
    (none_pending mode required m ≡ true) ⊎ Delivers mode required acts (act m)

end_serviced-ends :
    (mode : ApicMode) (acts : List (Machine → Machine)) (m : Machine)
    → Quietens mode acts m
    → (q : Machine) × (end_serviced mode acts m ≡ ok q)
unfolding end_serviced
end_serviced-ends mode [] m h = (m, rw h refl)
end_serviced-ends mode (act ∷ acts) m h = elim (Bool-cases (none_serviced mode m)) [
  | inl over ↦ (m, rw over refl)
  | inr more ↦
      let later : Quietens mode acts (act (write_apic mode m Register.end_of_interrupt 0)) =
        elim h [ inl now ↦ cc | inr then' ↦ then' ] in
      let (q, runs) =
        end_serviced-ends mode acts (act (write_apic mode m Register.end_of_interrupt 0)) later in
      (q, rw more runs)
]

drain-ends :
    (mode : ApicMode) (required : ℕ → Bool) (acts : List (Machine → Machine)) (m : Machine)
    → Delivers mode required acts m
    → (q : Machine) × (drain mode required acts m ≡ ok q)
unfolding drain
drain-ends mode required [] m h = (m, rw h refl)
drain-ends mode required (act ∷ acts) m h = elim (Bool-cases (none_pending mode required m)) [
  | inl over ↦ (m, rw over refl)
  | inr more ↦
      let later : Delivers mode required acts (act m) = elim h [
        | inl now ↦ cc
        | inr then' ↦ then'
      ] in
      let (q, runs) = drain-ends mode required acts (act m) later in (q, rw more runs)
]

-- The timer, the spurious vector and the interrupt masks of the old controller are those of `m`, and
-- the base is that of `m`, but stays in x2apic mode.
pub record IsRestored (features : CpuFeatures) (m t : Machine) : Type 0 where
  pub svr_is :
      read_apic (mode_of features) t Register.spurious_interrupt_vector
      ≡ read_apic (mode_of features) m Register.spurious_interrupt_vector
  pub dcr_is :
      read_apic (mode_of features) t Register.divide_configuration
      ≡ read_apic (mode_of features) m Register.divide_configuration
  pub lvt_is :
      read_apic (mode_of features) t Register.lvt_timer
      ≡ read_apic (mode_of features) m Register.lvt_timer
  pub icr_is :
      read_apic (mode_of features) t Register.initial_count
      ≡ read_apic (mode_of features) m Register.initial_count
  pub pic_a1_is : t.port 0xa1 ≡ m.port 0xa1
  pub pic_21_is : t.port 0x21 ≡ m.port 0x21
  pub base_is :
      t.msr ia32_apic_base ≡ bit_or (m.msr ia32_apic_base) (if features.x2apic then 2 ^ 10 else 0)

-- The saved state.
abbrev saved : CpuFeatures → Machine → Apic
saved features m =
    (take_over (mode_of features) (m.msr ia32_apic_base) (m.port 0xa1) (m.port 0x21) (
      wrmsr (out8 (out8 m 0xa1 0xff) 0x21 0xff) ia32_apic_base
        (new_base features (m.msr ia32_apic_base)))).0

put_back-IsRestored :
    (has_apic x2 : Bool) (m q : Machine)
    → (bit_and (m.msr ia32_apic_base) (2 ^ 11) == 0) ≡ false
    → Returns ⊥
        (IsRestored (record { apic = has_apic; x2apic = x2 }) m)
        (put_back (saved (record { apic = has_apic; x2apic = x2 }) m) q)
unfolding put_back take_over read_apic write_apic Returns
put_back-IsRestored has_apic true m q enabled = rw enabled (record {
  svr_is = omega arith;
  dcr_is = omega arith;
  lvt_is = omega arith;
  icr_is = omega arith;
  pic_a1_is = refl;
  pic_21_is = refl;
  base_is = refl;
})
put_back-IsRestored has_apic false m q enabled = rw enabled (record {
  svr_is = refl;
  dcr_is = refl;
  lvt_is = refl;
  icr_is = refl;
  pic_a1_is = refl;
  pic_21_is = refl;
  base_is = refl;
})

-- What a successful `init` saves, of an APIC that was on.
began-saved :
    {S : Type 0} (mem : PhysMem S) (s : S) (page_table : Option ℕ) (next_free_vaddr : ℕ)
    (features : CpuFeatures) (old : Option Apic) (m : Machine) (r : (Apic × Machine × ℕ) × S × ℕ)
    → init mem s page_table next_free_vaddr features old m ≡ ok r
    → (saved features m ≡ r.0.0) × ((bit_and (m.msr ia32_apic_base) (2 ^ 11) == 0) ≡ false)
unfolding init
began-saved {S} mem s page_table next_free_vaddr features old m r began =
    let enabled = assert (not (bit_and (m.msr ia32_apic_base) (2 ^ 11) == 0)) in
    let mapped = mapped_for mem features s page_table next_free_vaddr in
    let first = assert (is_none old) >> assert features.apic in
    let (mapping, runs, ends) = bind-ok (first >> enabled >> mapped) _ r began in
    let (u, checks, _) = bind-ok (first >> enabled) (λ v. mapped) mapping runs in
    let (v, _, on) = bind-ok first (λ w. enabled) u checks in
    let set_bit = assert-ok (not (bit_and (m.msr ia32_apic_base) (2 ^ 11) == 0)) on in
    let made = ok-injective ends in
    (ap (λ (x : (Apic × Machine × ℕ) × S × ℕ). x.0.0) made, ground arith)

-- A core whose APIC `init` has taken over, and any state of the machine later on. If the machine ends
-- what is in service as it gets EOIs, and delivers what is pending from any state, the drop of the
-- `Apic` ends, and leaves the spurious vector, the timer, the masks of the old interrupt controller
-- and the base as `init` found them, except that the x2apic mode stays on.
pub drop_apic-IsRestored :
    {S : Type 0} (mem : PhysMem S) (s : S) (page_table : Option ℕ) (next_free_vaddr : ℕ)
    (features : CpuFeatures) (old : Option Apic) (m now : Machine)
    (r : (Apic × Machine × ℕ) × S × ℕ) (required : ℕ → Bool)
    (services drains : List (Machine → Machine))
    → init mem s page_table next_free_vaddr features old m ≡ ok r
    → Quietens (mode_of features) services (mask_timer (mode_of features) now)
    → ((q : Machine) → Delivers (mode_of features) required drains q)
    → (t : Machine) × (drop_apic r.0.0 required services drains now ≡ ok t)
      × IsRestored features m t
unfolding take_over drop_apic
drop_apic-IsRestored mem s page_table next_free_vaddr features old m now r required services drains
      began quiet delivered =
    let mode = mode_of features in
    let (same, enabled) = began-saved mem s page_table next_free_vaddr features old m r began in
    let (q, ended) = end_serviced-ends mode services (mask_timer mode now) quiet in
    let (q', drained) = drain-ends mode required drains q (delivered q) in
    let (t, runs, restored) =
      Returns-result (IsRestored features m) (put_back (saved features m) q')
        (put_back-IsRestored features.apic features.x2apic m q' enabled) in
    subst
      (λ (apic : Apic).
        (u : Machine) × (drop_apic apic required services drains now ≡ ok u)
        × IsRestored features m u)
      same (t, rw (ended, drained) runs, restored)
