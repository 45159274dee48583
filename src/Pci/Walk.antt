-- ===== src/Pci/Walk.antt =====
-- kernel/src/pci.rs: which devices `init` registers.
use chocolate_milk.Base.{
  ℕ, zero, suc, ◌+◌, ◌-◌, ◌*◌, ◌/◌, ◌%◌, ◌^◌, ◌≤◌, ◌<◌, ◌≡◌, ◌≢◌, ◌⊎◌, inl, inr, ◌↔◌, arith, refl,
  sym, ap, subst, ◌∙◌, bit_or, Bool, true, false, not, ◌&&◌, ◌==◌, if◌then◌else◌, Bool-cases,
  Option, none, some, List, [], ◌∷◌, ◌++◌, Mem,
}
use chocolate_milk.Base.Bits.{bit_or_fields, bit_or-zero}
use chocolate_milk.Pci.{
  PciDevice, ConfigSpace, address_of, register_at, device_of, each, probe_all, registered, visit,
  init,
}

Mem-left : {D : Type 0} (d : D) (xs ys : List D) → Mem d xs → Mem d (xs ++ ys)
Mem-left d [] ys h = elim h [ ]
Mem-left d (x ∷ xs) ys (inl here) = inl here
Mem-left d (x ∷ xs) ys (inr there) = inr (Mem-left d xs ys there)

Mem-last : {D : Type 0} (d : D) (xs : List D) → Mem d (xs ++ (d ∷ []))
Mem-last d [] = inl refl
Mem-last d (x ∷ xs) = inr (Mem-last d xs)

Mem-split : {D : Type 0} (d : D) (xs : List D) (y : D) → Mem d (xs ++ (y ∷ [])) → Mem d xs ⊎ (y ≡ d)
Mem-split d [] y (inl e) = inr e
Mem-split d [] y (inr h) = elim h [ ]
Mem-split d (x ∷ xs) y (inl e) = inl (inl e)
Mem-split d (x ∷ xs) y (inr h) = elim (Mem-split d xs y h) [
  | inl before ↦ inl (inr before)
  | inr last ↦ inr last
]

module _ {D : Type 0} where
  -- A step of a walk adds what `P` says, and nothing else.
  record Adds (P : D → Type 0) (f : List D → List D) : Type 0 where
    pub only : (d : D) (xs : List D) → Mem d (f xs) → Mem d xs ⊎ P d
    pub kept : (d : D) (xs : List D) → Mem d xs → Mem d (f xs)
    pub added : (d : D) (xs : List D) → P d → Mem d (f xs)

  abbrev Some : ℕ → ℕ → (ℕ → D → Type 0) → D → Type 0
  Some left ii P d = (j : ℕ) × (ii ≤ j) × (j < ii + left) × P j d

  each-Adds :
      (left ii : ℕ) (P : ℕ → D → Type 0) (body : ℕ → List D → List D)
      → ((j : ℕ) → ii ≤ j → j < ii + left → Adds (P j) (body j))
      → Adds (Some left ii P) (each left ii body)
  unfolding each
  each-Adds zero ii P body adds = record {
    only = λ d xs h. inl h;
    kept = λ d xs h. h;
    added = λ d xs p. let (j, low, high, q) = p in absurd (omega (arith, low, high));
  }
  each-Adds (suc left) ii P body adds =
      let first = adds ii (omega arith) (omega arith) in
      let rest =
        each-Adds left (suc ii) P body
          (λ j low high. adds j (omega (arith, low)) (omega (arith, high))) in
      record {
        only = λ d xs h. elim (rest.only d (body ii xs) h) [
          | inl before ↦ elim (first.only d xs before) [
            | inl old ↦ inl old
            | inr p ↦ inr (ii, omega arith, omega arith, p)
          ]
          | inr (j, low, high, p) ↦ inr (j, omega (arith, low), omega (arith, high), p)
        ];
        kept = λ d xs h. rest.kept d (body ii xs) (first.kept d xs h);
        added = λ d xs p.
            let (j, low, high, q) = p in
            elim (Bool-cases (j == ii)) [
              | inl here ↦
                  let same : j ≡ ii = ground arith in
                  rest.kept d (body ii xs) (first.added d xs (subst (λ k. P k d) same q))
              | inr there ↦
                  let later : suc ii ≤ j = ground arith in
                  rest.added d (body ii xs) (j, later, omega (arith, high), q)
            ];
      }

-- The word that selects a register: each number has bits of its own.
select_is :
    (bus device function rid : ℕ)
    → bus < 256
    → device < 32
    → function < 8
    → rid < 64
    → bit_or (address_of bus device function) (rid * 4)
      ≡ 2 ^ 31 + bus * 2 ^ 16 + device * 2 ^ 11 + function * 2 ^ 8 + rid * 4
select_is bus device function rid a b c d =
    let one : bit_or (2 ^ 31) (bus * 2 ^ 16) ≡ (2 ^ 15 + bus) * 2 ^ 16 =
      bit_or_fields 31 1 (bus * 2 ^ 16) (omega arith) ∙ omega arith in
    let two : bit_or (bit_or (2 ^ 31) (bus * 2 ^ 16)) (device * 2 ^ 11)
        ≡ ((2 ^ 15 + bus) * 32 + device) * 2 ^ 11 =
      ap (λ (t : ℕ). bit_or t (device * 2 ^ 11)) one
      ∙ bit_or_fields 16 (2 ^ 15 + bus) (device * 2 ^ 11) (omega arith)
      ∙ omega arith in
    let three : address_of bus device function
        ≡ (((2 ^ 15 + bus) * 32 + device) * 8 + function) * 2 ^ 8 =
      ap (λ (t : ℕ). bit_or t (function * 2 ^ 8)) two
      ∙ bit_or_fields 11 ((2 ^ 15 + bus) * 32 + device) (function * 2 ^ 8) (omega arith)
      ∙ omega arith in
    ap (λ (t : ℕ). bit_or t (rid * 4)) three
    ∙ bit_or_fields 8 (((2 ^ 15 + bus) * 32 + device) * 8 + function) (rid * 4) (omega arith)
    ∙ omega arith

module _ {D : Type 0} (drivers : List (PciDevice → Option D)) (config : ℕ → ℕ → ℕ → ℕ → ℕ) where
  -- The address port selects a register of a function, as the configuration mechanism has it.
  abbrev pub Selects : ConfigSpace → Type 0
  Selects space =
      (bus device function rid : ℕ)
      → bus < 256
      → device < 32
      → function < 8
      → rid < 64
      → space (2 ^ 31 + bus * 2 ^ 16 + device * 2 ^ 11 + function * 2 ^ 8 + rid * 4)
        ≡ config bus device function rid

  -- A function is there, is no bridge and no device with several functions, and `d` is what the first
  -- driver that takes it gives.
  pub record IsFound (bus device function : ℕ) (d : D) : Type 0 where
    pub there : config bus device function 0 % 2 ^ 32 ≢ 2 ^ 32 - 1
    pub plain : config bus device function 3 / 2 ^ 16 % 2 ^ 8 ≡ 0
    pub taken : probe_all drivers drivers (device_of (config bus device function)) ≡ some d

  device_of_same : (w v : ℕ → ℕ) → ((k : ℕ) → k < 64 → w k ≡ v k) → device_of w ≡ device_of v
  device_of_same w v h =
      rw
        (
          h 0 (omega arith),
          h 1 (omega arith),
          h 2 (omega arith),
          h 3 (omega arith),
          h 4 (omega arith),
          h 5 (omega arith),
          h 6 (omega arith),
          h 7 (omega arith),
          h 8 (omega arith),
          h 9 (omega arith),
        )
        refl

  registered-Adds : (o : Option D) → Adds (λ d. o ≡ some d) (λ xs. registered drivers xs o)
  registered-Adds none = record { only = λ d xs h. inl h; kept = λ d xs h. h; added = λ d xs e. cc }
  registered-Adds (some x) = record {
    only = λ d xs h. elim (Mem-split d xs x h) [ inl old ↦ inl old | inr e ↦ inr (ap some e) ];
    kept = λ d xs h. Mem-left d xs (x ∷ []) h;
    added =
        λ d xs e. let same : d ≡ x = cc in subst (λ y. Mem d (xs ++ (y ∷ []))) same (Mem-last d xs);
  }

  -- `visit` over what its tests say.
  chosen : Bool → Bool → PciDevice → List D → List D
  chosen true plain device devices = devices
  chosen false false device devices = devices
  chosen false true device devices = registered drivers devices (probe_all drivers drivers device)

  chosen_if :
      (gone plain : Bool) (device : PciDevice) (devices : List D)
      → (if gone
          then devices
          else if not plain
          then devices
          else registered drivers devices (probe_all drivers drivers device))
        ≡ chosen gone plain device devices
  unfolding chosen
  chosen_if true plain device devices = refl
  chosen_if false false device devices = refl
  chosen_if false true device devices = refl

  chosen-Adds :
      (bus device function : ℕ) (gone plain : Bool)
      → (gone ≡ true → config bus device function 0 % 2 ^ 32 ≡ 2 ^ 32 - 1)
      → (gone ≡ false → config bus device function 0 % 2 ^ 32 ≢ 2 ^ 32 - 1)
      → (plain ≡ true → config bus device function 3 / 2 ^ 16 % 2 ^ 8 ≡ 0)
      → (plain ≡ false → config bus device function 3 / 2 ^ 16 % 2 ^ 8 ≢ 0)
      → Adds
          (IsFound bus device function)
          (chosen gone plain (device_of (config bus device function)))
  unfolding chosen
  chosen-Adds bus device function true plain a b p q = record {
    only = λ d xs h. inl h;
    kept = λ d xs h. h;
    added = λ d xs f. absurd (f.there (a refl));
  }
  chosen-Adds bus device function false false a b p q = record {
    only = λ d xs h. inl h;
    kept = λ d xs h. h;
    added = λ d xs f. absurd (q refl f.plain);
  }
  chosen-Adds bus device function false true a b p q =
      let r =
        registered-Adds (probe_all drivers drivers (device_of (config bus device function))) in
      record {
        only = λ d xs h. elim (r.only d xs h) [
          | inl old ↦ inl old
          | inr e ↦ inr (record { there = b refl; plain = p refl; taken = e })
        ];
        kept = r.kept;
        added = λ d xs f. r.added d xs f.taken;
      }

  abbrev visited : ℕ → ℕ → PciDevice → List D → List D
  visited did_vid header_type device =
      chosen ((did_vid % 2 ^ 16 == 0xffff) && (did_vid / 2 ^ 16 % 2 ^ 16 == 0xffff))
        (header_type == 0) device

  visited-Adds :
      (bus device function : ℕ)
      → Adds (IsFound bus device function) (
          visited
            (config bus device function 0)
            (config bus device function 3 / 2 ^ 16 % 2 ^ 8)
            (device_of (config bus device function)))
  visited-Adds bus device function =
      chosen-Adds bus device function _ _ (λ e. ground arith) (λ e f. ground arith)
        (λ e. ground arith) (λ e f. ground arith)

  visit-visited :
      (space : ConfigSpace) (bus device function : ℕ) (devices : List D)
      → Selects space
      → bus < 256
      → device < 32
      → function < 8
      → visit drivers space bus device function devices
        ≡ visited
            (config bus device function 0)
            (config bus device function 3 / 2 ^ 16 % 2 ^ 8)
            (device_of (config bus device function))
            devices
  unfolding visit
  visit-visited space bus device function devices selects a b c =
      let addr = address_of bus device function in
      let same = λ (k : ℕ) (h : k < 64).
        ap space (select_is bus device function k a b c h)
        ∙ selects bus device function k a b c h in
      let first : space addr ≡ config bus device function 0 =
        ap space (sym (bit_or-zero addr)) ∙ same 0 (omega arith) in
      let word = config bus device function in
      let header = same 3 (omega arith) in
      let whole = device_of_same (register_at space addr) word same in
      chosen_if ((space addr % 2 ^ 16 == 0xffff) && (space addr / 2 ^ 16 % 2 ^ 16 == 0xffff))
        (register_at space addr 3 / 2 ^ 16 % 2 ^ 8 == 0) (device_of (register_at space addr))
        devices
      ∙ ap
          (λ (t : ℕ).
            visited t (register_at space addr 3 / 2 ^ 16 % 2 ^ 8)
              (device_of (register_at space addr)) devices)
          first
      ∙ ap
          (λ (t : ℕ).
            visited (word 0) (t / 2 ^ 16 % 2 ^ 8) (device_of (register_at space addr)) devices)
          header
      ∙ ap (λ (t : PciDevice). visited (word 0) (word 3 / 2 ^ 16 % 2 ^ 8) t devices) whole

  visit-Adds :
      (space : ConfigSpace) (bus device function : ℕ)
      → Selects space
      → bus < 256
      → device < 32
      → function < 8
      → Adds (IsFound bus device function) (visit drivers space bus device function)
  visit-Adds space bus device function selects a b c =
      let v = visited-Adds bus device function in
      let same = λ (xs : List D). visit-visited space bus device function xs selects a b c in
      record {
        only = λ d xs h. v.only d xs (subst (Mem d) (same xs) h);
        kept = λ d xs h. subst (Mem d) (sym (same xs)) (v.kept d xs h);
        added = λ d xs f. subst (Mem d) (sym (same xs)) (v.added d xs f);
      }

  -- Some function of the system is found, and gives `d`.
  abbrev pub IsSomewhere : D → Type 0
  IsSomewhere d =
      (bus : ℕ) × (device : ℕ) × (function : ℕ) × (bus < 256)
      × (device < 32)
      × (function < 8)
      × IsFound bus device function d

  -- With an address port that selects registers as the configuration mechanism has it: after the walk
  -- over all buses, devices and functions, the registered devices are those from before and what the
  -- first driver that takes it gives for each function that answers and has the header type 0.
  pub init-IsSomewhere :
      (space : ConfigSpace) (devices : List D) (d : D)
      → Selects space
      → Mem d (init drivers space devices) ↔ (Mem d devices ⊎ IsSomewhere d)
  unfolding init
  init-IsSomewhere space devices d selects =
      let functions = λ (bus device : ℕ) (a : bus < 256) (b : device < 32).
        each-Adds 8 0 (IsFound bus device) (visit drivers space bus device)
          (λ j low high. visit-Adds space bus device j selects a b (omega (arith, high))) in
      let walk =
        each-Adds 256 0 (λ bus. Some 32 0 (λ device. Some 8 0 (IsFound bus device)))
          (λ bus. each 32 0 (λ device. each 8 0 (visit drivers space bus device)))
          (λ bus low high.
            each-Adds 32 0 (λ device. Some 8 0 (IsFound bus device))
              (λ device. each 8 0 (visit drivers space bus device))
              (λ device low' high'.
                functions bus device (omega (arith, high)) (omega (arith, high')))) in
      (
        λ h. elim (walk.only d devices h) [
          | inl old ↦ inl old
          | inr (bus, _, a, (device, _, b, (function, _, c, found))) ↦
              inr
                (bus, device, function, omega (arith, a), omega (arith, b), omega (arith, c), found)
        ],
        λ h. elim h [
          | inl old ↦ walk.kept d devices old
          | inr (bus, device, function, a, b, c, found) ↦ walk.added d devices (
            bus,
            omega arith,
            omega (arith, a),
            (
              device,
              omega arith,
              omega (arith, b),
              (function, omega arith, omega (arith, c), found),
            ),
          )
        ],
      )
