-- ===== src/Acpi/Cores/Stages.antt =====
-- kernel/src/acpi.rs: what each core has come to while `init` launches them.
use chocolate_milk.Base.{
  ℕ, ◌≡◌, ◌≢◌, refl, ap, ◌∙◌, Bool, true, false, ◌⊎◌, inl, inr, Option, none, some, List, [],
  length, get_elem?, set, Mem, Distinct, get_elem?-set-same, get_elem?-set-other,
}
use chocolate_milk.Base.Outcome.{ok}
use chocolate_milk.Acpi.{ApicState, state_code, set_core_state, core_state}
use chocolate_milk.Acpi.States.{state_of-state_code}
use chocolate_milk.Acpi.Cores.{Launch, Pc, Cores}
use chocolate_milk.Acpi.Cores.Count.{count}

-- The byte of a core has a state.
abbrev pub At : List ℕ → ℕ → ApicState → Type 0
At apics i state = get_elem? apics i ≡ some (state_code state)

pub At-set_core_state :
    (apics : List ℕ) (i : ℕ) (old state : ApicState)
    → At apics i old
    → set_core_state apics i state ≡ ok (set apics i (state_code state))
unfolding set_core_state
At-set_core_state apics i old state e = rw e refl

pub At-core_state :
    (apics : List ℕ) (i : ℕ) (state : ApicState) → At apics i state → core_state apics i ≡ ok state
unfolding core_state
At-core_state apics i state e = rw e (state_of-state_code state)

pub At-set-same :
    (apics : List ℕ) (i : ℕ) (old state : ApicState)
    → At apics i old
    → At (set apics i (state_code state)) i state
At-set-same apics i old state e = get_elem?-set-same apics i (state_code state) (state_code old) e

pub At-set-other :
    (apics : List ℕ) (i j code : ℕ) (state : ApicState)
    → j ≢ i
    → At apics j state
    → At (set apics i code) j state
At-set-other apics i j code state other e = get_elem?-set-other apics i j code other ∙ e

-- The cores that `init` has yet to launch, and the one that it has launched last and waits for.
abbrev pub rest_of : Launch → List ℕ
rest_of (Launch.launching rest) = rest
rest_of (Launch.starting i rest) = rest
rest_of (Launch.awaiting i rest) = rest
rest_of Launch.finished = []

abbrev pub current : Launch → Option ℕ
current (Launch.launching rest) = none
current (Launch.starting i rest) = some i
current (Launch.awaiting i rest) = some i
current Launch.finished = none

-- Behind the first part of `core_checkin`.
abbrev pub is_up : Pc → Bool
is_up Pc.booting = false
is_up Pc.arriving = false
is_up Pc.counting = true
is_up Pc.spinning = true
is_up Pc.released = true

module _ (valid : List ℕ) where
  -- The stages of a core other than the one that launches.
  pub data Stage (s : Cores) (l : Launch) (i : ℕ) : Type 0 where
    unknown : ¬ Mem i valid → s.pcs i ≡ Pc.booting → ((c : ℕ) → ¬ Mem (i, c) s.ipis) → Stage s l i
    waiting :
        Mem i valid
        → Mem i (rest_of l)
        → At s.apics i ApicState.offline
        → s.pcs i ≡ Pc.booting
        → ((c : ℕ) → ¬ Mem (i, c) s.ipis)
        → Stage s l i
    called :
        Mem i valid
        → current l ≡ some i
        → ¬ Mem i (rest_of l)
        → At s.apics i ApicState.launched
        → (s.pcs i ≡ Pc.booting) ⊎ (s.pcs i ≡ Pc.arriving)
        → Stage s l i
    up :
        Mem i valid
        → ¬ Mem i (rest_of l)
        → At s.apics i ApicState.online
        → is_up (s.pcs i) ≡ true
        → Stage s l i

  -- A step that does not concern a core leaves it at its stage.
  pub Stage-kept :
      (s t : Cores) (l l' : Launch) (i : ℕ)
      → get_elem? t.apics i ≡ get_elem? s.apics i
      → t.pcs i ≡ s.pcs i
      → ((c : ℕ) → Mem (i, c) t.ipis → Mem (i, c) s.ipis)
      → (Mem i (rest_of l) → Mem i (rest_of l'))
      → (Mem i (rest_of l') → Mem i (rest_of l))
      → (current l ≡ some i → current l' ≡ some i)
      → Stage s l i
      → Stage t l' i
  Stage-kept s t l l' i a p sent to from turn (Stage.unknown n b u) =
      Stage.unknown n (p ∙ b) (λ c h. u c (sent c h))
  Stage-kept s t l l' i a p sent to from turn (Stage.waiting m r o b u) =
      Stage.waiting m (to r) (a ∙ o) (p ∙ b) (λ c h. u c (sent c h))
  Stage-kept s t l l' i a p sent to from turn (Stage.called m c r o (inl b)) =
      Stage.called m (turn c) (λ h. r (from h)) (a ∙ o) (inl (p ∙ b))
  Stage-kept s t l l' i a p sent to from turn (Stage.called m c r o (inr b)) =
      Stage.called m (turn c) (λ h. r (from h)) (a ∙ o) (inr (p ∙ b))
  Stage-kept s t l l' i a p sent to from turn (Stage.up m r o u) =
      Stage.up m (λ h. r (from h)) (a ∙ o) (ap is_up p ∙ u)

  pub record Inv (bsp : ℕ) (s : Cores) (l : Launch) : Type 0 where
    pub stages : (i : ℕ) → i ≢ bsp → Stage s l i
    pub own : At s.apics bsp ApicState.online
    pub own_pc : (s.pcs bsp ≡ Pc.booting) ⊎ (l ≡ Launch.finished)
    pub turn : (i : ℕ) → current l ≡ some i → Mem i valid × (i ≢ bsp) × (¬ Mem i (rest_of l))
    pub queue : Distinct (rest_of l)
    pub known : (i : ℕ) → Mem i (rest_of l) → Mem i valid
    pub counted : s.cores_checked_in ≡ count s.pcs valid
    pub total : s.total_cores ≡ length valid
    pub full : (i : ℕ) → s.pcs i ≡ Pc.released → s.cores_checked_in ≡ s.total_cores
