-- ===== src/BootMemory/Usable.antt =====
-- bootloader/src/mm.rs: the memory that `init` finds.
use chocolate_milk.Base.{
  ℕ, zero, suc, ◌+◌, ◌-◌, ◌*◌, ◌≤◌, ◌<◌, ◌≡◌, ◌≢◌, ◌↔◌, inl, inr, refl, arith, Bool, true, false,
  ◌==◌, none, some, List, [], ◌∷◌, length,
}
use chocolate_milk.Base.Outcome.{Outcome, ok}
use chocolate_milk.RangeSet.{Range, RangeSet, new}
use chocolate_milk.RangeSet.Meaning.{IsCanonical}
use chocolate_milk.RangeSet.Slots.{Holds}
use chocolate_milk.RangeSet.Remove.{remove-Removes}
use chocolate_milk.RangeSet.Sets.{
  Contains, IsValid, IsValid-of_Holds, Holds-of_IsValid, view-Holds, new_empty,
}
use chocolate_milk.BootMemory.{E820Entry, Bios, scan, init}
use chocolate_milk.BootMemory.Entry.{
  AnyHit, AllFit, Marked-trans, Marked-none, Passed, add_entry-Passed,
}

-- The BIOS gives these entries from the code `ebx` on.
pub data Lists {S : Type 0} (bios : Bios S) : S → ℕ → List E820Entry → S → Type 0 where
  last :
      {s s' : S} {ebx : ℕ} (e : E820Entry)
      → bios.e820 s ebx ≡ some (e, 0, s')
      → Lists bios s ebx (e ∷ []) s'
  more :
      {s s1 s' : S} {ebx next : ℕ} {es : List E820Entry} (e : E820Entry)
      → bios.e820 s ebx ≡ some (e, next, s1)
      → next ≢ 0
      → Lists bios s1 next es s'
      → Lists bios s ebx (e ∷ es) s'

abbrev Scanned :
    {S : Type 0} → Bool → List E820Entry → List Range → S → Outcome (RangeSet × S) → Type 0
Scanned pass ents es s' o =
    (free : RangeSet) × (o ≡ ok (free, s')) × Passed pass (length ents) (AnyHit pass ents) es free

module _ {S : Type 0} (bios : Bios S) where
  scan-Passed :
      {s s' : S} {ebx : ℕ} {ents : List E820Entry}
      → Lists bios s ebx ents s'
      → (fuel : ℕ) (pass : Bool) (free : RangeSet) (es : List Range) → length ents ≤ fuel
      → Holds free es
      → IsCanonical es
      → AllFit ents
      → length es + length ents ≤ 256
      → Scanned pass ents es s' (scan bios fuel s pass ebx free)
  unfolding scan
  scan-Passed (last e ask) zero pass free es enough h c fit room = absurd (omega arith)
  scan-Passed (more e ask going l) zero pass free es enough h c fit room = absurd (omega arith)
  scan-Passed (last e ask) (suc fuel) pass free es enough h c fit room =
      let (free', added, p) = add_entry-Passed pass e free es h c fit.0 (omega arith) in
      (
        free',
        rw (ask, added) refl,
        record {
          left = p.left;
          holds = p.holds;
          canonical = p.canonical;
          covers = λ x. Marked-trans pass _ _ _ _ _ (p.covers x) (Marked-none pass _);
          grows = p.grows;
        },
      )
  scan-Passed {s' = s'} (more {next = next} {es = ents} e ask going l) (suc fuel) pass free es
        enough h c fit room =
      let (free1, added, p) = add_entry-Passed pass e free es h c fit.0 (omega arith) in
      let (free2, rest, q) =
        scan-Passed l fuel pass free1 p.left (omega arith) p.holds p.canonical fit.1
          (omega (arith, p.grows)) in
      let on : (next == 0) ≡ false = ground arith in
      (
        free2,
        rw (ask, added, on, rest) refl,
        record {
          left = q.left;
          holds = q.holds;
          canonical = q.canonical;
          covers = λ x. Marked-trans pass _ _ _ _ _ (p.covers x) (q.covers x);
          grows = omega (arith, p.grows, q.grows);
        },
      )

  -- For a BIOS that lists entries whose ranges lie in the 64-bit addresses, on both passes and 255
  -- at most together, and as many units of fuel as each list has entries: `init` neither panics nor
  -- runs out of fuel, and leaves a valid set of exactly the addresses from 1 MiB on that some entry
  -- of the first pass marks as free and no entry of the second marks as anything else. Memory that
  -- is there stays as it is.
  pub init-Contains :
      (fuel : ℕ) (s s1 s2 : S) (free rest : List E820Entry)
      → Lists bios s 0 free s1
      → Lists bios s1 0 rest s2
      → AllFit free
      → AllFit rest
      → length free + length rest < 256
      → length free ≤ fuel
      → length rest ≤ fuel
      → ((memory : RangeSet) × (init bios fuel s none ≡ ok (some memory, s2))
          × IsValid memory
          × ((x : ℕ)
              → Contains memory x
                ↔ (AnyHit true free x × (¬ AnyHit false rest x) × (1024 * 1024 ≤ x))))
        × ((old : RangeSet) → init bios fuel s (some old) ≡ ok (some old, s))
  unfolding init
  init-Contains fuel s s1 s2 free rest first second fits fits' room enough enough' =
      let h0 = Holds-of_IsValid new_empty.0 in
      let (m1, e1, p1) =
        scan-Passed first fuel true new [] enough h0 new_empty.0.canonical fits (omega arith) in
      let (m2, e2, p2) =
        scan-Passed second fuel false m1 p1.left enough' p1.holds p1.canonical fits'
          (omega (arith, p1.grows)) in
      let low : Range = record { start = 0; end = 1024 * 1024 - 1 } in
      let d =
        remove-Removes m2 p2.left low p2.holds p2.canonical (omega arith, omega arith)
          (inl (omega (arith, p1.grows, p2.grows))) in
      (
        (
          d.set,
          rw (e1, e2, d.returns) refl,
          IsValid-of_Holds d.holds d.canonical,
          rw (view-Holds d.holds) (λ x. (
            λ k.
                let o = (d.covers x).0 k in
                let q = (p2.covers x).0 o.0 in
                (
                  elim ((p1.covers x).0 q.0) [ inl none' ↦ absurd none' | inr hit ↦ hit ],
                  q.1,
                  let above = o.1 in omega arith,
                ),
            λ k. (d.covers x).1 (
              (p2.covers x).1 ((p1.covers x).1 (inr k.0), k.1),
              inr (let above = k.2 in omega arith),
            ),
          )),
        ),
        λ old. refl,
      )
