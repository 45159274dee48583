-- ===== src/Acpi/Cores/Launches.antt =====
-- kernel/src/acpi.rs: the launch of the cores keeps every core at one of its stages, and cannot panic.
use chocolate_milk.Base.{
  dec, some_inj, ℕ, ◌≡◌, ◌≢◌, refl, sym, ap, ◌∙◌, subst, true, ◌==◌, Bool-cases, ==→≡, ==→≢, inl,
  inr, List, [], ◌∷◌, set, Mem, get_elem?-set-other,
}
use chocolate_milk.Base.Outcome.{ok}
use chocolate_milk.Acpi.{ApicState, state_code}
use chocolate_milk.Acpi.Cores.{Launch, Pc, Cores, with_pc, launch_next}
use chocolate_milk.Acpi.Cores.Count.{with_pc-same, with_pc-other, count-same}
use chocolate_milk.Acpi.Cores.Stages.{
  At, At-set_core_state, At-core_state, At-set-same, At-set-other, is_up, Stage, Stage-kept, Inv,
}

sent_first : {i j c d : ℕ} → ◌≡◌ {A = ℕ × ℕ} (i, c) (j, d) → i ≡ j
sent_first e = ap (λ (p : ℕ × ℕ). p.0) e

module _ (valid : List ℕ) (bsp : ℕ) where
  abbrev pub Goes : Cores → Launch → Type 0
  Goes s l = (t : Cores) × (launch_next bsp s l ≡ ok t) × Inv valid bsp t t.launch

  -- A core that the loop comes to was not launched before.
  record IsFresh (s : Cores) (i : ℕ) : Type 0 where
    pub is_valid : Mem i valid
    pub offline : At s.apics i ApicState.offline
    pub booting : s.pcs i ≡ Pc.booting

  fresh :
      (s : Cores) (i : ℕ) (rest : List ℕ)
      → i ≢ bsp
      → Inv valid bsp s (Launch.launching (i ∷ rest))
      → IsFresh s i
  fresh s i rest other inv = elim (inv.stages i other) [
    | Stage.unknown n _ _ ↦ absurd (n (inv.known i (inl refl)))
    | Stage.waiting m _ o b _ ↦ record { is_valid = m; offline = o; booting = b }
    | Stage.called _ c _ _ _ ↦ cc
    | Stage.up _ r _ _ ↦ absurd (r (inl refl))
  ]

  launching-Goes :
      (s : Cores) (i : ℕ) (rest : List ℕ)
      → i ≢ bsp
      → Inv valid bsp s (Launch.launching (i ∷ rest))
      → Inv valid bsp
          (record s {
            apics = set s.apics i (state_code ApicState.launched);
            launch = Launch.starting i rest;
          })
          (Launch.starting i rest)
  launching-Goes s i rest other inv =
      let f = fresh s i rest other inv in
      let code = state_code ApicState.launched in
      let next = Launch.starting i rest in
      let t : Cores = record s { apics = set s.apics i code; launch = next } in
      record {
        stages = λ j far. elim (dec j i) [
          | inl same ↦ subst (Stage valid t next) (sym same) (
              Stage.called f.is_valid refl (inv.queue.0)
                (At-set-same s.apics i ApicState.offline ApicState.launched f.offline)
                (inl f.booting))
          | inr apart ↦
              Stage-kept valid s t (Launch.launching (i ∷ rest)) next j
                (get_elem?-set-other s.apics i j code apart) refl (λ c h. h)
                (λ h. elim h [ inl e ↦ absurd (apart (sym e)) | inr r ↦ r ]) (λ r. inr r) (λ e. cc)
                (inv.stages j far)
        ];
        own = At-set-other s.apics i bsp code ApicState.online (λ e. other (sym e)) inv.own;
        own_pc = elim inv.own_pc [ inl b ↦ inl b | inr e ↦ cc ];
        turn = λ j e.
            subst (λ (k : ℕ). Mem k valid × (k ≢ bsp) × (¬ Mem k rest)) (some_inj e)
              (f.is_valid, other, inv.queue.0);
        queue = inv.queue.1;
        known = λ j h. inv.known j (inr h);
        counted = inv.counted;
        total = inv.total;
        full = inv.full;
      }

  skipping-Goes :
      (s : Cores) (rest : List ℕ)
      → Inv valid bsp s (Launch.launching (bsp ∷ rest))
      → Inv valid bsp (record s { launch = Launch.launching rest }) (Launch.launching rest)
  skipping-Goes s rest inv =
      let next = Launch.launching rest in
      let t : Cores = record s { launch = next } in
      record {
        stages = λ j far.
            Stage-kept valid s t (Launch.launching (bsp ∷ rest)) next j refl refl (λ c h. h)
              (λ h. elim h [ inl e ↦ absurd (far (sym e)) | inr r ↦ r ]) (λ r. inr r) (λ e. e)
              (inv.stages j far);
        own = inv.own;
        own_pc = elim inv.own_pc [ inl b ↦ inl b | inr e ↦ cc ];
        turn = λ j e. cc;
        queue = inv.queue.1;
        known = λ j h. inv.known j (inr h);
        counted = inv.counted;
        total = inv.total;
        full = inv.full;
      }

  starting-Goes :
      (s : Cores) (i : ℕ) (rest : List ℕ)
      → Inv valid bsp s (Launch.starting i rest)
      → Inv valid bsp
          (record s {
            ipis = (i, 0x4608) ∷ (i, 0x4608) ∷ (i, 0x4500) ∷ s.ipis;
            launch = Launch.awaiting i rest;
          })
          (Launch.awaiting i rest)
  starting-Goes s i rest inv =
      let next = Launch.awaiting i rest in
      let now = Launch.starting i rest in
      let t : Cores = record s {
        ipis = (i, 0x4608) ∷ (i, 0x4608) ∷ (i, 0x4500) ∷ s.ipis;
        launch = next;
      } in
      let (m, _, gone) = inv.turn i refl in
      record {
        stages = λ j far. elim (dec j i) [
          | inl same ↦
              let here = subst (λ (k : ℕ). Stage valid s now k) same (inv.stages j far) in
              let there : Stage valid t next i = elim here [
                | Stage.unknown n _ _ ↦ absurd (n m)
                | Stage.waiting _ r _ _ _ ↦ absurd (gone r)
                | Stage.called v c r o b ↦ Stage.called v c r o b
                | Stage.up v r o u ↦ Stage.up v r o u
              ] in
              subst (Stage valid t next) (sym same) there
          | inr apart ↦
              Stage-kept valid s t now next j refl refl
                (λ c h. elim h [
                  | inl e ↦ absurd (apart (sym (sent_first e)))
                  | inr (inl e) ↦ absurd (apart (sym (sent_first e)))
                  | inr (inr (inl e)) ↦ absurd (apart (sym (sent_first e)))
                  | inr (inr (inr old)) ↦ old
                ])
                (λ r. r) (λ r. r) (λ e. e) (inv.stages j far)
        ];
        own = inv.own;
        own_pc = elim inv.own_pc [ inl b ↦ inl b | inr e ↦ cc ];
        turn = inv.turn;
        queue = inv.queue;
        known = inv.known;
        counted = inv.counted;
        total = inv.total;
        full = inv.full;
      }

  awaited-Goes :
      (s : Cores) (i : ℕ) (rest : List ℕ)
      → At s.apics i ApicState.online
      → is_up (s.pcs i) ≡ true
      → Inv valid bsp s (Launch.awaiting i rest)
      → Inv valid bsp (record s { launch = Launch.launching rest }) (Launch.launching rest)
  awaited-Goes s i rest online runs inv =
      let next = Launch.launching rest in
      let now = Launch.awaiting i rest in
      let t : Cores = record s { launch = next } in
      let (m, _, gone) = inv.turn i refl in
      record {
        stages = λ j far. elim (dec j i) [
          | inl same ↦
              let up : Stage valid t next i = Stage.up m gone online runs in
              subst (Stage valid t next) (sym same) up
          | inr apart ↦
              Stage-kept valid s t now next j refl refl (λ c h. h) (λ r. r) (λ r. r)
                (λ e. absurd (apart (sym (some_inj e)))) (inv.stages j far)
        ];
        own = inv.own;
        own_pc = elim inv.own_pc [ inl b ↦ inl b | inr e ↦ cc ];
        turn = λ j e. cc;
        queue = inv.queue;
        known = inv.known;
        counted = inv.counted;
        total = inv.total;
        full = inv.full;
      }

  finishing-Goes :
      (s : Cores)
      → Inv valid bsp s (Launch.launching [])
      → Inv valid bsp
          (record s { launch = Launch.finished; pcs = with_pc s.pcs bsp Pc.arriving })
          Launch.finished
  finishing-Goes s inv =
      let at_start : s.pcs bsp ≡ Pc.booting = elim inv.own_pc [ inl b ↦ b | inr e ↦ cc ] in
      let t : Cores = record s { launch = Launch.finished; pcs = with_pc s.pcs bsp Pc.arriving } in
      record {
        stages = λ j far.
            Stage-kept valid s t (Launch.launching []) Launch.finished j refl
              (with_pc-other s.pcs bsp j Pc.arriving far) (λ c h. h) (λ r. r) (λ r. r) (λ e. e)
              (inv.stages j far);
        own = inv.own;
        own_pc = inr refl;
        turn = λ j e. cc;
        queue = tt;
        known = λ j h. elim h [ ];
        counted = inv.counted ∙ sym (count-same s.pcs valid bsp Pc.arriving (rw at_start refl));
        total = inv.total;
        full = λ j e. elim (dec j bsp) [
          | inl same ↦
              let arrives =
                ap (with_pc s.pcs bsp Pc.arriving) same ∙ with_pc-same s.pcs bsp Pc.arriving in
              cc
          | inr far ↦ inv.full j (sym (with_pc-other s.pcs bsp j Pc.arriving far) ∙ e)
        ];
      }

  -- The next access of `init` does not panic.
  pub launch_next-Goes : (s : Cores) (l : Launch) → s.launch ≡ l → Inv valid bsp s l → Goes s l
  unfolding launch_next
  launch_next-Goes s (Launch.launching []) e inv = (_, refl, finishing-Goes s inv)
  launch_next-Goes s (Launch.launching (i ∷ rest)) e inv = elim (Bool-cases (bsp == i)) [
    | inl mine ↦
        let now =
          subst (λ (k : ℕ). Inv valid bsp s (Launch.launching (k ∷ rest))) (sym (==→≡ bsp i mine))
            inv in
        (_, rw mine refl, skipping-Goes s rest now)
    | inr other ↦
        let apart : i ≢ bsp = λ e. ==→≢ bsp i other (sym e) in
        let found =
          At-set_core_state s.apics i ApicState.offline ApicState.launched
            (fresh s i rest apart inv).offline in
        (_, rw (other, found) refl, launching-Goes s i rest apart inv)
  ]
  launch_next-Goes s (Launch.starting i rest) e inv = (_, refl, starting-Goes s i rest inv)
  launch_next-Goes s (Launch.awaiting i rest) e inv =
      let (m, far, gone) = inv.turn i refl in
      elim (inv.stages i far) [
        | Stage.unknown n _ _ ↦ absurd (n m)
        | Stage.waiting _ r _ _ _ ↦ absurd (gone r)
        | Stage.called _ _ _ o _ ↦ (
          s,
          rw (At-core_state s.apics i ApicState.launched o) refl,
          subst (Inv valid bsp s) (sym e) inv,
        )
        | Stage.up _ _ o u ↦
            (_, rw (At-core_state s.apics i ApicState.online o) refl, awaited-Goes s i rest o u inv)
      ]
  launch_next-Goes s Launch.finished e inv = (s, refl, subst (Inv valid bsp s) (sym e) inv)
