-- ===== src/Interrupts/Gate.antt =====
-- kernel/src/interrupts.rs: the descriptor of an interrupt gate, as the processor reads it.
use chocolate_milk.Base.{
  ℕ, ◌+◌, ◌*◌, ◌/◌, ◌%◌, ◌^◌, ◌<◌, ◌≡◌, arith, refl, ap, ◌∙◌, bit_and, bit_or, true, ltb,
}
use chocolate_milk.Base.Bits.{bit_and_low, bit_and_high, bit_or_fields}
use chocolate_milk.Base.Outcome.{ok}
use chocolate_milk.Interrupts.{IdtEntry, idt_entry}

-- What the processor finds in a descriptor: where the handler is, and under which terms it runs.
pub record IsGate (e : IdtEntry) (cs offset ist typ dpl : ℕ) : Type 0 where
  pub offset_is : e.word0 % 2 ^ 16 + e.word1 / 2 ^ 16 * 2 ^ 16 + e.word2 * 2 ^ 32 ≡ offset
  pub selector_is : e.word0 / 2 ^ 16 ≡ cs
  pub present_is : e.word1 / 2 ^ 15 % 2 ≡ 1
  pub dpl_is : e.word1 / 2 ^ 13 % 4 ≡ dpl
  pub type_is : e.word1 / 2 ^ 8 % 32 ≡ typ
  pub ist_is : e.word1 % 2 ^ 8 ≡ ist
  pub reserved_is : e.word3 ≡ 0
  pub words_fit : (e.word0 < 2 ^ 32) × (e.word1 < 2 ^ 32) × (e.word2 < 2 ^ 32)

word0_is :
    (cs offset : ℕ) → bit_or (cs * 2 ^ 16) (bit_and offset 0xffff) ≡ cs * 2 ^ 16 + offset % 2 ^ 16
word0_is cs offset =
    ap (bit_or (cs * 2 ^ 16)) (bit_and_low 16 offset)
    ∙ bit_or_fields 16 cs (offset % 2 ^ 16) (omega arith)

high_part : (offset : ℕ) → bit_and offset 0xffff0000 ≡ offset / 2 ^ 16 % 2 ^ 16 * 2 ^ 16
high_part offset =
    bit_and_high 16 offset 0xffff ∙ ap (λ (t : ℕ). t * 2 ^ 16) (bit_and_low 16 (offset / 2 ^ 16))

-- A field behind the ones that stand above it.
next_field :
    (k x q field sum : ℕ)
    → x ≡ q * 2 ^ k
    → field < 2 ^ k
    → q * 2 ^ k + field ≡ sum
    → bit_or x field ≡ sum
next_field k x q field sum e small total =
    ap (λ (t : ℕ). bit_or t field) e ∙ bit_or_fields k q field small ∙ total

word1_is :
    (offset ist typ dpl : ℕ)
    → ist < 8
    → typ < 32
    → dpl < 4
    → bit_or
        (bit_or (bit_or (bit_or (bit_and offset 0xffff0000) (2 ^ 15)) (dpl * 2 ^ 13)) (typ * 2 ^ 8))
        ist
      ≡ (((offset / 2 ^ 16 % 2 ^ 16 * 2 + 1) * 4 + dpl) * 32 + typ) * 2 ^ 8 + ist
word1_is offset ist typ dpl a b c =
    let h = offset / 2 ^ 16 % 2 ^ 16 in
    let one =
      next_field 16 (bit_and offset 0xffff0000) h (2 ^ 15) ((h * 2 + 1) * 2 ^ 15) (high_part offset)
        (omega arith) (omega arith) in
    let two =
      next_field 15 _ (h * 2 + 1) (dpl * 2 ^ 13) (((h * 2 + 1) * 4 + dpl) * 2 ^ 13) one
        (omega arith) (omega arith) in
    let three =
      next_field 13 _ ((h * 2 + 1) * 4 + dpl) (typ * 2 ^ 8)
        ((((h * 2 + 1) * 4 + dpl) * 32 + typ) * 2 ^ 8) two (omega arith) (omega arith) in
    next_field 8 _ (((h * 2 + 1) * 4 + dpl) * 32 + typ) ist _ three (omega arith) refl

-- For a code segment, an address, and a stack, a type and a privilege level in their ranges,
-- `IDTEntry::new` gives four words of 32 bits from which the processor reads all of these back, and
-- that the gate is present.
pub idt_entry-IsGate :
    (cs offset ist typ dpl : ℕ)
    → cs < 2 ^ 16
    → offset < 2 ^ 64
    → ist < 8
    → typ < 32
    → dpl < 4
    → (e : IdtEntry) × (idt_entry cs offset ist typ dpl ≡ ok e) × IsGate e cs offset ist typ dpl
unfolding idt_entry
idt_entry-IsGate cs offset ist typ dpl a b c d e =
    let c' : ltb ist 8 ≡ true = ground arith in
    let d' : ltb typ 32 ≡ true = ground arith in
    let e' : ltb dpl 4 ≡ true = ground arith in
    let w1 = (((offset / 2 ^ 16 % 2 ^ 16 * 2 + 1) * 4 + dpl) * 32 + typ) * 2 ^ 8 + ist in
    (
      record {
        word0 = cs * 2 ^ 16 + offset % 2 ^ 16;
        word1 = w1;
        word2 = offset / 2 ^ 32;
        word3 = 0;
      },
      rw (c', d', e', word0_is cs offset, word1_is offset ist typ dpl c d e) refl,
      record {
        offset_is = omega arith;
        selector_is = omega arith;
        present_is = omega arith;
        dpl_is = omega arith;
        type_is = omega arith;
        ist_is = omega arith;
        reserved_is = refl;
        words_fit = (omega arith, omega arith, omega arith);
      },
    )
