-- ===== src/Acpi/Cores/Barrier.antt =====
-- kernel/src/acpi.rs: what the launch and the barrier promise together in every state that they reach.
use chocolate_milk.Base.{
  dec, some_inj, ℕ, ◌%◌, ◌^◌, ◌<◌, ◌≡◌, arith, refl, sym, ap, ◌∙◌, subst, true, ◌⊎◌, inl, inr, some,
  List, [], ◌∷◌, length, length-set, get_elem?, get_elem?-some, get_elem?-set-same,
  get_elem?-set-other, set, Mem, Distinct,
}
use chocolate_milk.Base.Outcome.{ok}
use chocolate_milk.Base.Returns.{ok-injective}
use chocolate_milk.Acpi.{ApicState, state_code, set_core_state, core_state}
use chocolate_milk.Acpi.Cores.{
  Launch, Pc, Cores, with_pc, mark_offline, start, launch_next, check_in, Step, Reach,
}
use chocolate_milk.Acpi.Cores.Count.{has_counted, count, count-full}
use chocolate_milk.Acpi.Cores.Stages.{At, At-core_state, At-set-other, current, Stage, Inv}
use chocolate_milk.Acpi.Cores.Launches.{launch_next-Goes}
use chocolate_milk.Acpi.Cores.CheckIn.{check_in-Goes, check_in-opens, boots-Goes}

set_core_state-set :
    (apics : List ℕ) (i : ℕ) (state : ApicState)
    → i < length apics
    → (set_core_state apics i state ≡ ok (set apics i (state_code state)))
      × At (set apics i (state_code state)) i state
unfolding set_core_state
set_core_state-set apics i state h =
    let (old, e) = get_elem?-some apics i h in
    (rw e refl, get_elem?-set-same apics i (state_code state) old e)

record Marked (apics xs ys : List ℕ) : Type 0 where
  pub size : length ys ≡ length apics
  pub offline : (i : ℕ) → Mem i xs → At ys i ApicState.offline
  pub others : (i : ℕ) → ¬ Mem i xs → get_elem? ys i ≡ get_elem? apics i

mark_offline-Marked :
    (apics xs : List ℕ)
    → Distinct xs
    → ((i : ℕ) → Mem i xs → i < length apics)
    → (ys : List ℕ) × (mark_offline apics xs ≡ ok ys) × Marked apics xs ys
unfolding mark_offline
mark_offline-Marked apics [] distinct fits =
    (apics, refl, record { size = refl; offline = λ i h. elim h [ ]; others = λ i h. refl })
mark_offline-Marked apics (x ∷ xs) (new, distinct) fits =
    let code = state_code ApicState.offline in
    let (e, at) = set_core_state-set apics x ApicState.offline (fits x (inl refl)) in
    let same = length-set apics x code in
    let (ys, f, m) =
      mark_offline-Marked (set apics x code) xs distinct
        (λ i h. omega (arith, same, fits i (inr h))) in
    (
      ys,
      rw e f,
      record {
        size = m.size ∙ same;
        offline = λ i h. elim h [
          | inl here ↦ subst (λ (k : ℕ). At ys k ApicState.offline) here (m.others x new ∙ at)
          | inr there ↦ m.offline i there
        ];
        others = λ i h.
            m.others i (λ r. h (inr r)) ∙ get_elem?-set-other apics x i code (λ s. h (inl (sym s)));
      },
    )

none_counted : (xs : List ℕ) → count (λ i. Pc.booting) xs ≡ 0
none_counted [] = refl
none_counted (x ∷ xs) = omega (arith, none_counted xs)

dec_mem : (i : ℕ) (xs : List ℕ) → Mem i xs ⊎ (¬ Mem i xs)
dec_mem i [] = inr (λ h. h)
dec_mem i (x ∷ xs) = elim (dec x i) [
  | inl e ↦ inl (inl e)
  | inr other ↦ elim (dec_mem i xs) [
    | inl h ↦ inl (inr h)
    | inr no_i ↦ inr (λ h. elim h [ inl e ↦ other e | inr r ↦ no_i r ])
  ]
]

module _ (apics valid : List ℕ) (bsp : ℕ) where
  -- The table lists every core once, the one that launches among them, and the array has them all.
  pub record AreListed : Type 0 where
    pub member : Mem bsp valid
    pub distinct : Distinct valid
    pub fits : (i : ℕ) → Mem i valid → i < length apics
    pub few : length valid < 2 ^ 32

  start-Inv :
      AreListed → (s : Cores) × (start apics (some valid) bsp ≡ ok s) × Inv valid bsp s s.launch
  unfolding start
  start-Inv listed =
      let (ys, e, m) = mark_offline-Marked apics valid listed.distinct listed.fits in
      let (f, at) =
        set_core_state-set ys bsp ApicState.online
          (omega (arith, m.size, listed.fits bsp listed.member)) in
      let code = state_code ApicState.online in
      let s : Cores = record {
        apics = set ys bsp code;
        total_cores = length valid % 2 ^ 32;
        cores_checked_in = 0;
        ipis = [];
        launch = Launch.launching valid;
        pcs = λ i. Pc.booting;
      } in
      (
        s,
        rw (e, f) refl,
        record {
          stages = λ i far. elim (dec_mem i valid) [
            | inl h ↦
                Stage.waiting h h (At-set-other ys bsp i code ApicState.offline far (m.offline i h))
                  refl (λ c r. r)
            | inr no_i ↦ Stage.unknown no_i refl (λ c r. r)
          ];
          own = at;
          own_pc = inl refl;
          turn = λ i h. cc;
          queue = listed.distinct;
          known = λ i h. h;
          counted = sym (none_counted valid);
          total = omega (arith, listed.few);
          full = λ i h. cc;
        },
      )

  Step-Inv :
      (s t : Cores) → AreListed → Inv valid bsp s s.launch → Step bsp s t → Inv valid bsp t t.launch
  Step-Inv s t listed inv (Step.launches e) =
      let (t', f, next) = launch_next-Goes valid bsp s s.launch refl inv in
      subst (λ (u : Cores). Inv valid bsp u u.launch) (ok-injective (sym f ∙ e)) next
  Step-Inv s t listed inv (Step.boots i other sent e) = boots-Goes valid bsp s i other sent e inv
  Step-Inv s t listed inv (Step.checks i e) =
      let (t', f, next) =
        check_in-Goes valid bsp s i (s.pcs i) listed.member listed.distinct listed.few inv refl in
      subst (λ (u : Cores). Inv valid bsp u u.launch) (ok-injective (sym f ∙ e)) next

  Reach-Inv :
      (s t : Cores)
      → AreListed
      → Inv valid bsp s s.launch
      → Reach bsp s t
      → Inv valid bsp t t.launch
  Reach-Inv s t listed inv Reach.here = inv
  Reach-Inv s t listed inv (Reach.later {t = m} r step) =
      Step-Inv m t listed (Reach-Inv s m listed inv r) step

  -- Nothing panics next, at most one core has been launched and is not online yet, a core that is past
  -- the barrier has waited for all others to come to it, and then the barrier is open.
  pub record IsOrderly (s : Cores) : Type 0 where
    pub launch_safe : (t : Cores) × (launch_next bsp s s.launch ≡ ok t)
    pub check_in_safe : (i : ℕ) → (t : Cores) × (check_in bsp s i (s.pcs i) ≡ ok t)
    pub alone :
        (i j : ℕ)
        → Mem i valid
        → Mem j valid
        → core_state s.apics i ≡ ok ApicState.launched
        → core_state s.apics j ≡ ok ApicState.launched
        → i ≡ j
    pub barrier :
        (i j : ℕ)
        → s.pcs i ≡ Pc.released
        → Mem j valid
        → ((s.pcs j ≡ Pc.spinning) ⊎ (s.pcs j ≡ Pc.released))
          × (core_state s.apics j ≡ ok ApicState.online)
    pub opens :
        ((j : ℕ) → Mem j valid → (s.pcs j ≡ Pc.spinning) ⊎ (s.pcs j ≡ Pc.released))
        → (i : ℕ) → s.pcs i ≡ Pc.spinning
        → check_in bsp s i (s.pcs i) ≡ ok (record s { pcs = with_pc s.pcs i Pc.released })

  counted_cases : (pc : Pc) → has_counted pc ≡ true → (pc ≡ Pc.spinning) ⊎ (pc ≡ Pc.released)
  counted_cases Pc.booting e = cc
  counted_cases Pc.arriving e = cc
  counted_cases Pc.counting e = cc
  counted_cases Pc.spinning e = inl refl
  counted_cases Pc.released e = inr refl

  Inv-launched :
      (s : Cores) (i : ℕ)
      → Mem i valid
      → Inv valid bsp s s.launch
      → core_state s.apics i ≡ ok ApicState.launched
      → current s.launch ≡ some i
  Inv-launched s i m inv e = elim (dec i bsp) [
    | inl same ↦
        let own =
          ap (core_state s.apics) same ∙ At-core_state s.apics bsp ApicState.online inv.own in
        let c = sym own ∙ e in cc
    | inr far ↦ elim (inv.stages i far) [
      | Stage.unknown n _ _ ↦ absurd (n m)
      | Stage.waiting _ _ o _ _ ↦
          let c = sym (At-core_state s.apics i ApicState.offline o) ∙ e in cc
      | Stage.called _ turn _ _ _ ↦ turn
      | Stage.up _ _ o _ ↦ let c = sym (At-core_state s.apics i ApicState.online o) ∙ e in cc
    ]
  ]

  Inv-online :
      (s : Cores) (j : ℕ)
      → Inv valid bsp s s.launch
      → has_counted (s.pcs j) ≡ true
      → core_state s.apics j ≡ ok ApicState.online
  Inv-online s j inv h = elim (dec j bsp) [
    | inl same ↦ ap (core_state s.apics) same ∙ At-core_state s.apics bsp ApicState.online inv.own
    | inr far ↦ elim (inv.stages j far) [
      | Stage.unknown _ b _ ↦ let c = ap has_counted (sym b) ∙ h in cc
      | Stage.waiting _ _ _ b _ ↦ let c = ap has_counted (sym b) ∙ h in cc
      | Stage.called _ _ _ _ (inl b) ↦ let c = ap has_counted (sym b) ∙ h in cc
      | Stage.called _ _ _ _ (inr b) ↦ let c = ap has_counted (sym b) ∙ h in cc
      | Stage.up _ _ o _ ↦ At-core_state s.apics j ApicState.online o
    ]
  ]

  Inv-IsOrderly : (s : Cores) → AreListed → Inv valid bsp s s.launch → IsOrderly s
  Inv-IsOrderly s listed inv = record {
    launch_safe = let g = launch_next-Goes valid bsp s s.launch refl inv in (g.0, g.1);
    check_in_safe = λ i.
        let g =
          check_in-Goes valid bsp s i (s.pcs i) listed.member listed.distinct listed.few inv refl in
        (g.0, g.1);
    alone = λ i j m n e f. some_inj (sym (Inv-launched s i m inv e) ∙ Inv-launched s j n inv f);
    barrier = λ i j e m.
        let h = count-full s.pcs valid j (sym inv.counted ∙ inv.full i e ∙ inv.total) m in
        (counted_cases (s.pcs j) h, Inv-online s j inv h);
    opens = λ all i e. rw e (
        check_in-opens valid bsp s i listed.member inv
          (λ j m. elim (all j m) [ inl h ↦ rw h refl | inr h ↦ rw h refl ]));
  }

  -- Where the table lists less than 2 ^ 32 cores, each of them once, the one that launches among them,
  -- and the array has room for them: `init` starts without a panic, and in every state that it and the
  -- cores reach from there, in any order of their accesses, the next access of none of them panics; at
  -- most one core is launched and not online yet; when some core is past the barrier, every core is
  -- online and has counted itself; and when every core has counted itself, the next access of one that
  -- waits at the barrier takes it past it.
  pub Reach-IsOrderly :
      AreListed
      → (s : Cores) × (start apics (some valid) bsp ≡ ok s)
        × ((t : Cores) → Reach bsp s t → IsOrderly t)
  Reach-IsOrderly listed =
      let (s, e, inv) = start-Inv listed in
      (s, e, λ t r. Inv-IsOrderly t listed (Reach-Inv s t listed inv r))
