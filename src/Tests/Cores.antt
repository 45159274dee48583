-- ===== src/Tests/Cores.antt =====
-- kernel/src/acpi.rs, on a system with the cores 1, 0 and 2, which 0 launches.
use chocolate_milk.Base.{ℕ, ◌≡◌, refl, arith, inl, inr, some, List, [], ◌∷◌, replicate}
use chocolate_milk.Base.Outcome.{Outcome, ok, ◌>>=◌, map}
use chocolate_milk.Acpi.{set_core_state, core_state}
use chocolate_milk.Acpi.Cores.{
  Pc, Cores, with_pc, start, mark_offline, launch_next, check_in, Reach,
}
use chocolate_milk.Acpi.Cores.Barrier.{AreListed, IsOrderly, Reach-IsOrderly}

abbrev valid : List ℕ
valid = 1 ∷ 0 ∷ 2 ∷ []

abbrev six_apics : List ℕ
six_apics = replicate 6 4

data Action : Type 0 where
  launch : Action
  boot : ℕ → Action
  check : ℕ → Action

perform : List Action → Cores → Outcome Cores
perform [] s = ok s
perform (Action.launch ∷ more) s = launch_next 0 s s.launch >>= perform more
perform (Action.boot i ∷ more) s = perform more (record s { pcs = with_pc s.pcs i Pc.arriving })
perform (Action.check i ∷ more) s = check_in 0 s i (s.pcs i) >>= perform more

-- Core 0 waits for each core to come online, and all three come to the barrier.
abbrev all_come : List Action
all_come =
    Action.launch
    ∷ Action.launch
    ∷ Action.launch
    ∷ Action.boot 1
    ∷ Action.launch
    ∷ Action.check 1
    ∷ Action.launch
    ∷ Action.check 1
    ∷ Action.check 1
    ∷ Action.launch
    ∷ Action.launch
    ∷ Action.launch
    ∷ Action.boot 2
    ∷ Action.check 2
    ∷ Action.launch
    ∷ Action.launch
    ∷ Action.check 0
    ∷ Action.check 0
    ∷ Action.check 0
    ∷ Action.check 2
    ∷ Action.check 0
    ∷ Action.check 1
    ∷ Action.check 2
    ∷ []

abbrev shown : Cores → List Pc
shown s = s.pcs 0 ∷ s.pcs 1 ∷ s.pcs 2 ∷ []

all_pass :
    map shown (start six_apics (some valid) 0 >>= perform all_come)
    ≡ ok (Pc.released ∷ Pc.released ∷ Pc.released ∷ [])
unfolding start mark_offline set_core_state core_state launch_next check_in perform
all_pass = refl

valid-AreListed : AreListed six_apics valid 0
valid-AreListed = record {
  member = inr (inl refl);
  distinct = omega arith;
  fits = λ i h. elim h [
    | inl e ↦ omega (arith, e)
    | inr (inl e) ↦ omega (arith, e)
    | inr (inr (inl e)) ↦ omega (arith, e)
    | inr (inr (inr h')) ↦ elim h' [ ]
  ];
  few = omega arith;
}

Reach-IsOrderly_example :
    (s : Cores) × (start six_apics (some valid) 0 ≡ ok s)
    × ((t : Cores) → Reach 0 s t → IsOrderly six_apics valid 0 t)
Reach-IsOrderly_example = Reach-IsOrderly six_apics valid 0 valid-AreListed
