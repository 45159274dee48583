-- ===== src/Acpi/Cores/CheckIn.antt =====
-- kernel/src/acpi.rs: `core_checkin` keeps every core at one of its stages, and cannot panic.
use chocolate_milk.Base.{
  dec, ℕ, ◌+◌, ◌%◌, ◌^◌, ◌<◌, ◌≡◌, ◌≢◌, arith, refl, sym, ap, ◌∙◌, subst, true, false, ◌==◌,
  Bool-cases, ==→≡, ==→≢, ◌⊎◌, inl, inr, List, [], ◌∷◌, length, set, get_elem?, Mem, Distinct,
  get_elem?-set-other,
}
use chocolate_milk.Base.Outcome.{ok}
use chocolate_milk.Acpi.{ApicState, state_code}
use chocolate_milk.Acpi.Cores.{Launch, Pc, Cores, with_pc, check_in}
use chocolate_milk.Acpi.Cores.Count.{
  with_pc-same, with_pc-other, has_counted, count_le, count-all, count-full, count-same, count-more,
}
use chocolate_milk.Acpi.Cores.Stages.{At, At-set-same, At-set-other, is_up, Stage, Stage-kept, Inv}

up_counting : {pc : Pc} → pc ≡ Pc.counting → is_up pc ≡ true
up_counting e = rw e refl

module _ (valid : List ℕ) (bsp : ℕ) where
  abbrev pub Checks : Cores → ℕ → Pc → Type 0
  Checks s i pc = (t : Cores) × (check_in bsp s i pc ≡ ok t) × Inv valid bsp t t.launch

  -- A core that has come online goes on.
  goes_on :
      (s : Cores) (i n : ℕ) (pc : Pc)
      → Inv valid bsp s s.launch
      → is_up (s.pcs i) ≡ true
      → is_up pc ≡ true
      → (j : ℕ) → j ≢ bsp
      → Stage valid (record s { cores_checked_in = n; pcs = with_pc s.pcs i pc }) s.launch j
  goes_on s i n pc inv before after j far =
      let t : Cores = record s { cores_checked_in = n; pcs = with_pc s.pcs i pc } in
      elim (dec j i) [
        | inl same ↦
            let here = subst (λ (k : ℕ). Stage valid s s.launch k) same (inv.stages j far) in
            let there : Stage valid t s.launch i = elim here [
              | Stage.unknown n b u ↦ cc
              | Stage.waiting _ _ _ b _ ↦ cc
              | Stage.called _ _ _ _ (inl b) ↦ cc
              | Stage.called _ _ _ _ (inr b) ↦ cc
              | Stage.up v r o u ↦ Stage.up v r o (ap is_up (with_pc-same s.pcs i pc) ∙ after)
            ] in
            subst (Stage valid t s.launch) (sym same) there
        | inr apart ↦
            Stage-kept valid s t s.launch s.launch j refl (with_pc-other s.pcs i j pc apart)
              (λ c h. h) (λ r. r) (λ r. r) (λ e. e) (inv.stages j far)
      ]

  -- The core that launches has left `init` when it is behind it.
  own_kept :
      (s : Cores) (i : ℕ) (pc : Pc)
      → Inv valid bsp s s.launch
      → s.pcs i ≢ Pc.booting
      → (with_pc s.pcs i pc bsp ≡ Pc.booting) ⊎ (s.launch ≡ Launch.finished)
  own_kept s i pc inv behind = elim inv.own_pc [
    | inr e ↦ inr e
    | inl b ↦ inl (with_pc-other s.pcs i bsp pc (λ e. behind (ap s.pcs (sym e) ∙ b)) ∙ b)
  ]

  is_member :
      (s : Cores) (i : ℕ)
      → Mem bsp valid
      → Inv valid bsp s s.launch
      → s.pcs i ≢ Pc.booting
      → Mem i valid
  is_member s i member inv behind = elim (dec i bsp) [
    | inl same ↦ subst (λ (k : ℕ). Mem k valid) (sym same) member
    | inr far ↦ elim (inv.stages i far) [
      | Stage.unknown _ b _ ↦ absurd (behind b)
      | Stage.waiting m _ _ _ _ ↦ m
      | Stage.called m _ _ _ _ ↦ m
      | Stage.up m _ _ _ ↦ m
    ]
  ]

  own-arrives :
      (s : Cores)
      → Inv valid bsp s s.launch
      → s.pcs bsp ≡ Pc.arriving
      → Inv valid bsp (record s { pcs = with_pc s.pcs bsp Pc.counting }) s.launch
  own-arrives s inv e =
      let t : Cores = record s { pcs = with_pc s.pcs bsp Pc.counting } in
      record {
        stages = λ j far.
            Stage-kept valid s t s.launch s.launch j refl
              (with_pc-other s.pcs bsp j Pc.counting far) (λ c h. h) (λ r. r) (λ r. r) (λ e. e)
              (inv.stages j far);
        own = inv.own;
        own_pc = own_kept s bsp Pc.counting inv (λ b. let c = sym e ∙ b in cc);
        turn = inv.turn;
        queue = inv.queue;
        known = inv.known;
        counted = inv.counted ∙ sym (count-same s.pcs valid bsp Pc.counting (rw e refl));
        total = inv.total;
        full = λ j f. elim (dec j bsp) [
          | inl same ↦
              let now =
                ap (with_pc s.pcs bsp Pc.counting) same ∙ with_pc-same s.pcs bsp Pc.counting in
              cc
          | inr far ↦ inv.full j (sym (with_pc-other s.pcs bsp j Pc.counting far) ∙ f)
        ];
      }

  other-arrives :
      (s : Cores) (i : ℕ)
      → i ≢ bsp
      → Inv valid bsp s s.launch
      → s.pcs i ≡ Pc.arriving
      → At s.apics i ApicState.launched
        × Inv valid bsp
            (record s {
              apics = set s.apics i (state_code ApicState.online);
              pcs = with_pc s.pcs i Pc.counting;
            })
            s.launch
  other-arrives s i other inv e =
      let code = state_code ApicState.online in
      let t : Cores = record s { apics = set s.apics i code; pcs = with_pc s.pcs i Pc.counting } in
      elim (inv.stages i other) [
        | Stage.unknown _ b _ ↦ let c = sym e ∙ b in cc
        | Stage.waiting _ _ _ b _ ↦ let c = sym e ∙ b in cc
        | Stage.up _ _ _ u ↦ let c = ap is_up (sym e) ∙ u in cc
        | Stage.called m _ r o _ ↦ (
          o,
          record {
            stages = λ j far. elim (dec j i) [
              | inl same ↦
                  let up : Stage valid t s.launch i =
                    Stage.up m r (At-set-same s.apics i ApicState.launched ApicState.online o)
                      (up_counting (with_pc-same s.pcs i Pc.counting)) in
                  subst (Stage valid t s.launch) (sym same) up
              | inr apart ↦
                  Stage-kept valid s t s.launch s.launch j
                    (get_elem?-set-other s.apics i j code apart)
                    (with_pc-other s.pcs i j Pc.counting apart) (λ c h. h) (λ r. r) (λ r. r)
                    (λ e. e) (inv.stages j far)
            ];
            own = At-set-other s.apics i bsp code ApicState.online (λ e. other (sym e)) inv.own;
            own_pc = own_kept s i Pc.counting inv (λ b. let c = sym e ∙ b in cc);
            turn = inv.turn;
            queue = inv.queue;
            known = inv.known;
            counted = inv.counted ∙ sym (count-same s.pcs valid i Pc.counting (rw e refl));
            total = inv.total;
            full = λ j f. elim (dec j i) [
              | inl same ↦
                  let now =
                    ap (with_pc s.pcs i Pc.counting) same ∙ with_pc-same s.pcs i Pc.counting in
                  cc
              | inr far ↦ inv.full j (sym (with_pc-other s.pcs i j Pc.counting far) ∙ f)
            ];
          },
        )
      ]

  counting-Goes :
      (s : Cores) (i : ℕ)
      → Mem bsp valid
      → Distinct valid
      → length valid < 2 ^ 32
      → Inv valid bsp s s.launch
      → s.pcs i ≡ Pc.counting
      → Inv valid bsp
          (record s {
            cores_checked_in = (s.cores_checked_in + 1) % 2 ^ 32;
            pcs = with_pc s.pcs i Pc.spinning;
          })
          s.launch
  counting-Goes s i member distinct small inv e =
      let m = is_member s i member inv (λ b. let c = sym e ∙ b in cc) in
      let before : has_counted (s.pcs i) ≡ false = rw e refl in
      let more = count-more s.pcs valid i Pc.spinning distinct m before refl in
      let most = count_le (with_pc s.pcs i Pc.spinning) valid in
      record {
        stages =
            goes_on s i ((s.cores_checked_in + 1) % 2 ^ 32) Pc.spinning inv (up_counting e) refl;
        own = inv.own;
        own_pc = own_kept s i Pc.spinning inv (λ b. let c = sym e ∙ b in cc);
        turn = inv.turn;
        queue = inv.queue;
        known = inv.known;
        counted = omega (arith, more, most, small, inv.counted);
        total = inv.total;
        full = λ j f. elim (dec j i) [
          | inl same ↦
              let now = ap (with_pc s.pcs i Pc.spinning) same ∙ with_pc-same s.pcs i Pc.spinning in
              cc
          | inr far ↦
              let ended = inv.full j (sym (with_pc-other s.pcs i j Pc.spinning far) ∙ f) in
              let c =
                sym before ∙ count-full s.pcs valid i (sym inv.counted ∙ ended ∙ inv.total) m in
              cc
        ];
      }

  released-Goes :
      (s : Cores) (i : ℕ)
      → s.cores_checked_in ≡ s.total_cores
      → Inv valid bsp s s.launch
      → s.pcs i ≡ Pc.spinning
      → Inv valid bsp (record s { pcs = with_pc s.pcs i Pc.released }) s.launch
  released-Goes s i ended inv e = record {
    stages = goes_on s i s.cores_checked_in Pc.released inv (rw e refl) refl;
    own = inv.own;
    own_pc = own_kept s i Pc.released inv (λ b. let c = sym e ∙ b in cc);
    turn = inv.turn;
    queue = inv.queue;
    known = inv.known;
    counted = inv.counted ∙ sym (count-same s.pcs valid i Pc.released (rw e refl));
    total = inv.total;
    full = λ j f. ended;
  }

  pub boots-Goes :
      (s : Cores) (i : ℕ)
      → i ≢ bsp
      → Mem (i, 0x4608) s.ipis
      → s.pcs i ≡ Pc.booting
      → Inv valid bsp s s.launch
      → Inv valid bsp (record s { pcs = with_pc s.pcs i Pc.arriving }) s.launch
  boots-Goes s i other sent e inv =
      let t : Cores = record s { pcs = with_pc s.pcs i Pc.arriving } in
      record {
        stages = λ j far. elim (dec j i) [
          | inl same ↦
              let there : Stage valid t s.launch i = elim (inv.stages i other) [
                | Stage.unknown _ _ u ↦ absurd (u 0x4608 sent)
                | Stage.waiting _ _ _ _ u ↦ absurd (u 0x4608 sent)
                | Stage.called m c r o _ ↦
                    Stage.called m c r o (inr (with_pc-same s.pcs i Pc.arriving))
                | Stage.up _ _ _ u ↦ let c = ap is_up (sym e) ∙ u in cc
              ] in
              subst (Stage valid t s.launch) (sym same) there
          | inr apart ↦
              Stage-kept valid s t s.launch s.launch j refl
                (with_pc-other s.pcs i j Pc.arriving apart) (λ c h. h) (λ r. r) (λ r. r) (λ e. e)
                (inv.stages j far)
        ];
        own = inv.own;
        own_pc = elim inv.own_pc [
          | inr f ↦ inr f
          | inl b ↦ inl (with_pc-other s.pcs i bsp Pc.arriving (λ f. other (sym f)) ∙ b)
        ];
        turn = inv.turn;
        queue = inv.queue;
        known = inv.known;
        counted = inv.counted ∙ sym (count-same s.pcs valid i Pc.arriving (rw e refl));
        total = inv.total;
        full = λ j f. elim (dec j i) [
          | inl same ↦
              let now = ap (with_pc s.pcs i Pc.arriving) same ∙ with_pc-same s.pcs i Pc.arriving in
              cc
          | inr far ↦ inv.full j (sym (with_pc-other s.pcs i j Pc.arriving far) ∙ f)
        ];
      }

  not_empty : (xs : List ℕ) (i : ℕ) → Mem i xs → (length xs == 0) ≡ false
  not_empty [] i h = elim h [ ]
  not_empty (x ∷ xs) i h = ground arith

  -- The next access of a core in `core_checkin` does not panic.
  pub check_in-Goes :
      (s : Cores) (i : ℕ) (pc : Pc)
      → Mem bsp valid
      → Distinct valid
      → length valid < 2 ^ 32
      → Inv valid bsp s s.launch
      → s.pcs i ≡ pc
      → Checks s i pc
  unfolding check_in
  check_in-Goes s i Pc.booting member distinct small inv e = (s, refl, inv)
  check_in-Goes s i Pc.arriving member distinct small inv e = elim (Bool-cases (i == bsp)) [
    | inl mine ↦
        let same = ==→≡ i bsp mine in
        let own = ap (λ (k : ℕ). get_elem? s.apics k) same ∙ inv.own in
        let next = own-arrives s inv (ap s.pcs (sym same) ∙ e) in
        (
          _,
          rw (own, mine) refl,
          subst (λ (k : ℕ). Inv valid bsp (record s { pcs = with_pc s.pcs k Pc.counting }) s.launch)
              (sym same) next,
        )
    | inr other ↦
        let (o, next) = other-arrives s i (==→≢ i bsp other) inv e in (_, rw (o, other) refl, next)
  ]
  check_in-Goes s i Pc.counting member distinct small inv e =
      (_, refl, counting-Goes s i member distinct small inv e)
  check_in-Goes s i Pc.spinning member distinct small inv e =
      let some_core = ap (λ (n : ℕ). n == 0) inv.total ∙ not_empty valid bsp member in
      elim (Bool-cases (s.cores_checked_in == s.total_cores)) [
        | inl ended ↦ (
          _,
          rw (some_core, ended) refl,
          released-Goes s i (==→≡ s.cores_checked_in s.total_cores ended) inv e,
        )
        | inr more ↦ (s, rw (some_core, more) refl, inv)
      ]
  check_in-Goes s i Pc.released member distinct small inv e = (s, refl, inv)

  -- Where every core has counted itself, one that waits goes on.
  pub check_in-opens :
      (s : Cores) (i : ℕ)
      → Mem bsp valid
      → Inv valid bsp s s.launch
      → ((j : ℕ) → Mem j valid → has_counted (s.pcs j) ≡ true)
      → check_in bsp s i Pc.spinning ≡ ok (record s { pcs = with_pc s.pcs i Pc.released })
  unfolding check_in
  check_in-opens s i member inv all =
      let some_core = ap (λ (n : ℕ). n == 0) inv.total ∙ not_empty valid bsp member in
      let ended : (s.cores_checked_in == s.total_cores) ≡ true =
        let c = inv.counted ∙ count-all s.pcs valid all ∙ sym inv.total in ground arith in
      rw (some_core, ended) refl
