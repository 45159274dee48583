-- ===== src/E1000/Setup/Bar.antt =====
-- kernel/src/e1000.rs: the physical address at which `IntelGbit::new` maps the registers.
use chocolate_milk.Base.{
  ℕ, ◌+◌, ◌-◌, ◌*◌, ◌/◌, ◌%◌, ◌^◌, ◌<◌, ◌≡◌, ◌⊎◌, inl, inr, arith, refl, sym, ap, ◌∙◌, bit_and,
  bit_or, Bool-cases, ==→≡, ==→≢, ◌==◌,
}
use chocolate_milk.Base.Bits.{bit_and_low, bit_and_high, bit_or_fields}
use chocolate_milk.Base.Outcome.{ok, panic}
use chocolate_milk.Pci.{PciDevice}
use chocolate_milk.E1000.Setup.{bar_address}

-- The address in a memory BAR of 32 or of 64 bits, on a boundary of 4 KiB.
abbrev pub HasBar : PciDevice → ℕ → Type 0
HasBar d bar =
    (d.bar0 % 2 ≡ 0)
    × (bar % 4096 ≡ 0)
    × (((d.bar0 / 2 % 4 ≡ 0) × (bar ≡ d.bar0 / 16 * 16))
        ⊎ ((d.bar0 / 2 % 4 ≡ 2) × (bar ≡ d.bar1 * 2 ^ 32 + d.bar0 / 16 * 16)))

without_type : (bar0 : ℕ) → bar0 < 2 ^ 32 → bit_and bar0 0xfffffff0 ≡ bar0 / 16 * 16
without_type bar0 small =
    bit_and_high 4 bar0 (2 ^ 28 - 1)
    ∙ omega (arith, ap (λ (n : ℕ). n * 16) (bit_and_low 28 (bar0 / 16)))

-- `bar_address` finds the BAR, or panics where there is none.
pub bar_address_cases :
    (d : PciDevice)
    → d.bar0 < 2 ^ 32
    → ((bar : ℕ) × (bar_address d ≡ ok bar) × HasBar d bar)
      ⊎ ((bar_address d ≡ panic) × ((bar : ℕ) → ¬ HasBar d bar))
unfolding bar_address
bar_address_cases d small =
    let low : bit_and d.bar0 0xfffffff0 ≡ d.bar0 / 16 * 16 = without_type d.bar0 small in
    let kind : bit_and d.bar0 1 ≡ d.bar0 % 2 = bit_and_low 1 d.bar0 in
    let typ : bit_and (d.bar0 / 2) 3 ≡ d.bar0 / 2 % 4 = bit_and_low 2 (d.bar0 / 2) in
    let both : bit_or (d.bar1 * 2 ^ 32) (d.bar0 / 16 * 16) ≡ d.bar1 * 2 ^ 32 + d.bar0 / 16 * 16 =
      bit_or_fields 32 d.bar1 (d.bar0 / 16 * 16) (omega arith) in
    elim (Bool-cases (d.bar0 % 2 == 0)) [
      | inr io ↦ inr (rw (kind, io) refl, λ bar (e, _, _). ==→≢ (d.bar0 % 2) 0 io e)
      | inl mem ↦ elim (Bool-cases (d.bar0 / 2 % 4 == 0)) [
        | inl bits32 ↦
            let bar = d.bar0 / 16 * 16 in
            let page : bit_and bar 0xfff ≡ bar % 4096 = bit_and_low 12 bar in
            elim (Bool-cases (bar % 4096 == 0)) [
              | inl whole ↦ inl (
                bar,
                rw (kind, mem, typ, bits32, low, page, whole) refl,
                (
                  ==→≡ (d.bar0 % 2) 0 mem,
                  ==→≡ (bar % 4096) 0 whole,
                  inl (==→≡ (d.bar0 / 2 % 4) 0 bits32, refl),
                ),
              )
              | inr part ↦ inr (
                rw (kind, mem, typ, bits32, low, page, part) refl,
                λ b (_, e, is). elim is [
                  | inl (_, same) ↦
                      ==→≢ (bar % 4096) 0 part (ap (λ (n : ℕ). n % 4096) (sym same) ∙ e)
                  | inr (two, _) ↦ omega (arith, two, ==→≡ (d.bar0 / 2 % 4) 0 bits32)
                ],
              )
            ]
        | inr not32 ↦ elim (Bool-cases (d.bar0 / 2 % 4 == 2)) [
          | inl bits64 ↦
              let bar = d.bar1 * 2 ^ 32 + d.bar0 / 16 * 16 in
              let page : bit_and bar 0xfff ≡ bar % 4096 = bit_and_low 12 bar in
              elim (Bool-cases (bar % 4096 == 0)) [
                | inl whole ↦ inl (
                  bar,
                  rw (kind, mem, typ, not32, bits64, low, both, page, whole) refl,
                  (
                    ==→≡ (d.bar0 % 2) 0 mem,
                    ==→≡ (bar % 4096) 0 whole,
                    inr (==→≡ (d.bar0 / 2 % 4) 2 bits64, refl),
                  ),
                )
                | inr part ↦ inr (
                  rw (kind, mem, typ, not32, bits64, low, both, page, part) refl,
                  λ b (_, e, is). elim is [
                    | inl (zero_type, _) ↦ ==→≢ (d.bar0 / 2 % 4) 0 not32 zero_type
                    | inr (_, same) ↦
                        ==→≢ (bar % 4096) 0 part (ap (λ (n : ℕ). n % 4096) (sym same) ∙ e)
                  ],
                )
              ]
          | inr not64 ↦ inr (
            rw (kind, mem, typ, not32, not64) refl,
            λ b (_, _, is). elim is [
              | inl (zero_type, _) ↦ ==→≢ (d.bar0 / 2 % 4) 0 not32 zero_type
              | inr (two, _) ↦ ==→≢ (d.bar0 / 2 % 4) 2 not64 two
            ],
          )
        ]
      ]
    ]
