-- ===== src/Acpi/States.antt =====
-- kernel/src/acpi.rs: the states of the APICs in their array of bytes.
use chocolate_milk.Base.{
  ℕ, ◌<◌, ◌≡◌, ◌≢◌, refl, List, length, set, get_elem?-some, get_elem?-set-same,
  get_elem?-set-other,
}
use chocolate_milk.Base.Outcome.{ok}
use chocolate_milk.Acpi.{ApicState, state_code, state_of, set_core_state, core_state}

pub state_of-state_code : (state : ApicState) → state_of (state_code state) ≡ ok state
state_of-state_code ApicState.online = refl
state_of-state_code ApicState.launched = refl
state_of-state_code ApicState.offline = refl
state_of-state_code ApicState.absent = refl
state_of-state_code ApicState.halted = refl

-- For an APIC of the array: `set_core_state` gives an array in which `core_state` gives the state for
-- this APIC, and what it gave before for every other.
pub core_state-set_core_state :
    (apics : List ℕ) (i : ℕ) (state : ApicState)
    → i < length apics
    → (apics' : List ℕ) × (set_core_state apics i state ≡ ok apics')
      × (core_state apics' i ≡ ok state)
      × ((j : ℕ) → j ≢ i → core_state apics' j ≡ core_state apics j)
unfolding set_core_state core_state
core_state-set_core_state apics i state h =
    let (old, e) = get_elem?-some apics i h in
    let code = state_code state in
    (
      set apics i code,
      rw e refl,
      rw (get_elem?-set-same apics i code old e) (state_of-state_code state),
      λ j other. rw (get_elem?-set-other apics i j code other) refl,
    )
