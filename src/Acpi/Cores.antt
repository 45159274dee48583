-- ===== src/Acpi/Cores.antt =====
-- kernel/src/acpi.rs: how `init` launches the cores and how `core_checkin` holds them until all have
-- come, one access a step. A core is the number of its APIC; the one that runs `init` is `bsp`, which
-- has the core id 0.
pub mod Count
pub mod Stages
pub mod Launches
pub mod CheckIn
pub mod Barrier
use package.chocolate_milk.Base.{
  ℕ, ◌+◌, ◌%◌, ◌^◌, ◌≡◌, ◌≢◌, not, ◌==◌, if◌then◌else◌, Option, none, some, List, [], ◌∷◌, length,
  set, Mem,
}
use package.chocolate_milk.Base.Outcome.{Outcome, ok, ◌>>=◌, ◌>>◌, assert, index}
use package.chocolate_milk.Acpi.{ApicState, state_code, set_core_state, core_state}

-- Where the loop of `init` over the APICs stands.
pub data Launch : Type 0 where
  launching : List ℕ → Launch
  starting : ℕ → List ℕ → Launch
  awaiting : ℕ → List ℕ → Launch
  finished : Launch

-- Where a core stands in `core_checkin`, or before it.
pub data Pc : Type 0 where
  booting : Pc
  arriving : Pc
  counting : Pc
  spinning : Pc
  released : Pc

pub record Cores : Type 0 where
  pub apics : List ℕ
  pub total_cores : ℕ
  pub cores_checked_in : ℕ
  pub ipis : List (ℕ × ℕ)
  pub launch : Launch
  pub pcs : ℕ → Pc

abbrev pub with_pc : (ℕ → Pc) → ℕ → Pc → ℕ → Pc
with_pc pcs i pc j = if j == i then pc else pcs j

unfoldable pub mark_offline : List ℕ → List ℕ → Outcome (List ℕ)
mark_offline apics [] = ok apics
mark_offline apics (apic_id ∷ rest) =
    set_core_state apics apic_id ApicState.offline >>= λ marked. mark_offline marked rest

-- `apics.map(|x| x.len() as u32).unwrap_or(1)`
abbrev pub detected : Option (List ℕ) → ℕ
detected none = 1
detected (some valid) = length valid % 2 ^ 32

abbrev pub listed : Option (List ℕ) → List ℕ
listed none = []
listed (some valid) = valid

-- `init` up to the launch of the cores, with what it parsed of the MADT.
unfoldable pub start : List ℕ → Option (List ℕ) → ℕ → Outcome Cores
start apics valid bsp = mark_offline apics (listed valid) >>= λ marked.
    set_core_state marked bsp ApicState.online >>= λ known. ok (record {
      apics = known;
      total_cores = detected valid;
      cores_checked_in = 0;
      ipis = [];
      launch = Launch.launching (listed valid);
      pcs = λ i. Pc.booting;
    })

-- The next access of `init`, and the end of it, behind which its core goes on to `core_checkin`. The
-- three commands are one step: no core reads them, and the last one starts it.
unfoldable pub launch_next : ℕ → Cores → Launch → Outcome Cores
launch_next bsp s (Launch.launching []) =
    ok (record s { launch = Launch.finished; pcs = with_pc s.pcs bsp Pc.arriving })
launch_next bsp s (Launch.launching (apic_id ∷ rest)) =
    if bsp == apic_id
    then ok (record s { launch = Launch.launching rest })
    else set_core_state s.apics apic_id ApicState.launched >>= λ marked.
        ok (record s { apics = marked; launch = Launch.starting apic_id rest })
launch_next bsp s (Launch.starting apic_id rest) = ok (record s {
  ipis = (apic_id, 0x4608) ∷ (apic_id, 0x4608) ∷ (apic_id, 0x4500) ∷ s.ipis;
  launch = Launch.awaiting apic_id rest;
})
launch_next bsp s (Launch.awaiting apic_id rest) = core_state s.apics apic_id >>= λ state. ok (
    if state_code state == state_code ApicState.online
    then record s { launch = Launch.launching rest }
    else s)
launch_next bsp s Launch.finished = ok s

-- `compare_and_swap` from launched to online, where `old_state` is what it finds.
abbrev pub come_online : List ℕ → ℕ → ℕ → List ℕ
come_online apics apic_id old_state =
    if old_state == state_code ApicState.launched
    then set apics apic_id (state_code ApicState.online)
    else apics

abbrev pub expected : ℕ → ℕ → ℕ
expected bsp apic_id =
    if apic_id == bsp then state_code ApicState.online else state_code ApicState.launched

-- The next access of `core_checkin` on a core.
unfoldable pub check_in : ℕ → Cores → ℕ → Pc → Outcome Cores
check_in bsp s i Pc.booting = ok s
check_in bsp s i Pc.arriving = index s.apics i >>= λ old_state.
    assert (old_state == expected bsp i)
    >> ok (record s { apics = come_online s.apics i old_state; pcs = with_pc s.pcs i Pc.counting })
check_in bsp s i Pc.counting = ok (record s {
  cores_checked_in = (s.cores_checked_in + 1) % 2 ^ 32;
  pcs = with_pc s.pcs i Pc.spinning;
})
check_in bsp s i Pc.spinning =
    assert (not (s.total_cores == 0))
    >> ok (
        if s.cores_checked_in == s.total_cores
        then record s { pcs = with_pc s.pcs i Pc.released }
        else s)
check_in bsp s i Pc.released = ok s

-- The core that launches makes its next access, or a core that was sent a startup command comes to
-- `core_checkin`, or a core makes its next access there.
pub data Step (bsp : ℕ) : Cores → Cores → Type 0 where
  launches : {s t : Cores} → launch_next bsp s s.launch ≡ ok t → Step bsp s t
  boots :
      {s : Cores} (i : ℕ)
      → i ≢ bsp
      → Mem (i, 0x4608) s.ipis
      → s.pcs i ≡ Pc.booting
      → Step bsp s (record s { pcs = with_pc s.pcs i Pc.arriving })
  checks : {s t : Cores} (i : ℕ) → check_in bsp s i (s.pcs i) ≡ ok t → Step bsp s t

pub data Reach (bsp : ℕ) (s : Cores) : Cores → Type 0 where
  here : Reach bsp s s
  later : {t u : Cores} → Reach bsp s t → Step bsp t u → Reach bsp s u
