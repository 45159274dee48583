-- ===== src/PageTable/Map/Path.antt =====
-- shared/page_table/src/lib.rs: the entries that lead to a page, and a table that `map_raw` adds to them.
use chocolate_milk.Base.{
  ℕ, ◌+◌, ◌-◌, ◌*◌, ◌/◌, ◌%◌, ◌^◌, ◌≡◌, ◌≢◌, ap, ◌∙◌, arith, bit_and, bit_or, List, [], ◌∷◌, ◌==◌,
  Bool-cases, inl, inr, ==→≡, ==→≢,
}
use chocolate_milk.Base.Bits.{bit_and_split, bit_or_split, bit_or_fields, bit_or-zero, bit_and_low}
use chocolate_milk.PageTable.{PhysMem, table_of}
use chocolate_milk.PageTable.Unmap.{in_use_of, with_in_use}
use chocolate_milk.PageTable.Map.{add_reference}
use chocolate_milk.PageTable.Laws.{PhysLaws}

-- The number of entries in use stands in bits that no translation reads.
pub with_in_use-low : (w u : ℕ) → with_in_use w u % 2 ^ 52 ≡ w % 2 ^ 52
unfolding with_in_use
with_in_use-low w u =
    let parts : w ≡ w / 2 ^ 52 * 2 ^ 52 + w % 2 ^ 52 = omega arith in
    let masked =
      bit_and_split 52 (w / 2 ^ 52) (w % 2 ^ 52) 0xc00 (2 ^ 52 - 1) (omega arith) (omega arith) in
    let kept = bit_and_low 52 (w % 2 ^ 52) in
    let field : u * 2 ^ 52 % 2 ^ 64 ≡ u % 2 ^ 12 * 2 ^ 52 + 0 = omega arith in
    let joined =
      bit_or_split 52 (bit_and (w / 2 ^ 52) 0xc00) (w % 2 ^ 52) (u % 2 ^ 12) 0 (omega arith)
        (omega arith) in
    let whole : bit_and w (2 ^ 64 - 1 - 0x3ff0_0000_0000_0000)
        ≡ bit_and (w / 2 ^ 52) 0xc00 * 2 ^ 52 + w % 2 ^ 52 =
      ap (λ (t : ℕ). bit_and t (2 ^ 64 - 1 - 0x3ff0_0000_0000_0000)) parts
      ∙ masked
      ∙ omega (arith, kept) in
    rw (whole, field, joined) (omega (arith, bit_or-zero (w % 2 ^ 52)))

-- The entry of a new table.
unfoldable pub link_word : ℕ → ℕ
link_word table = bit_or (bit_or (bit_or table 4) 2) 1

pub link_word_lem : (table : ℕ) → table / 2 ^ 12 * 2 ^ 12 ≡ table → link_word table ≡ table + 7
unfolding link_word
link_word_lem table h =
    let q = table / 2 ^ 12 * 512 in
    let e1 : table ≡ q * 2 ^ 3 = omega arith in
    let e2 : q * 2 ^ 3 + 4 ≡ (2 * q + 1) * 2 ^ 2 = omega arith in
    let e3 : (2 * q + 1) * 2 ^ 2 + 2 ≡ (4 * q + 3) * 2 ^ 1 = omega arith in
    let o1 = bit_or_fields 3 q 4 (omega arith) in
    let o2 = bit_or_fields 2 (2 * q + 1) 2 (omega arith) in
    let o3 = bit_or_fields 1 (4 * q + 3) 1 (omega arith) in
    ap (λ (t : ℕ). bit_or (bit_or (bit_or t 4) 2) 1) e1 ∙ (rw (o1, e2, o2, e3, o3) (omega arith))

abbrev pub IsLink : ℕ → ℕ → Type 0
IsLink word table = (word % 2 ≡ 1) × (word / 2 ^ 7 % 2 ≡ 0) × (table_of word ≡ table)

IsLink-low : (w w' t : ℕ) → w' % 2 ^ 52 ≡ w % 2 ^ 52 → IsLink w t → IsLink w' t
IsLink-low w w' t h l = (omega arith, omega arith, omega arith)

module _ {S : Type 0} (mem : PhysMem S) where
  -- The entries from the last one back to the root's, and their indices.
  abbrev pub IsPath : S → ℕ → List ℕ → List ℕ → Type 0
  IsPath s root (i ∷ []) (e ∷ []) = e ≡ root + i * 8
  IsPath s root (j ∷ i ∷ is) (f ∷ e ∷ es) =
      ((table : ℕ) × IsLink (mem.read s e) table × (f ≡ table + j * 8))
      × IsPath s root (i ∷ is) (e ∷ es)
  IsPath s root _ _ = ⊥

  abbrev pub Agree : S → S → List ℕ → Type 0
  Agree s s' [] = Unit
  Agree s s' (e ∷ es) = (mem.read s' e % 2 ^ 52 ≡ mem.read s e % 2 ^ 52) × Agree s s' es

  pub IsPath-Agree :
      (s s' : S) (root : ℕ) (is : List ℕ) (e : ℕ) (es : List ℕ)
      → Agree s s' es
      → IsPath s root is (e ∷ es)
      → IsPath s' root is (e ∷ es)
  IsPath-Agree s s' root [] e es a p = p
  IsPath-Agree s s' root (i ∷ []) e [] a p = p
  IsPath-Agree s s' root (i ∷ []) e (f ∷ es) a p = p
  IsPath-Agree s s' root (j ∷ i ∷ is) e [] a p = p
  IsPath-Agree s s' root (j ∷ i ∷ is) e (f ∷ es) a p =
      let (table, link, at) = p.0 in
      (
        (table, IsLink-low (mem.read s f) (mem.read s' f) table a.0 link, at),
        IsPath-Agree s s' root (i ∷ is) f es a.1 p.1,
      )

  -- An entry of an owned table.
  module _ (Owned : S → ℕ → Type 0) where
    abbrev pub AllSlots : S → List ℕ → Type 0
    AllSlots s [] = Unit
    AllSlots s (e ∷ es) = (Owned s e × (e % 8 ≡ 0)) × AllSlots s es

    abbrev pub IsApart : ℕ → List ℕ → Type 0
    IsApart e [] = Unit
    IsApart e (f ∷ es) = (e ≢ f) × IsApart e es

    abbrev pub AllApart : List ℕ → Type 0
    AllApart [] = Unit
    AllApart (e ∷ es) = IsApart e es × AllApart es

    -- A path of entries that are owned and pairwise different.
    pub record IsSound (s : S) (root : ℕ) (is es : List ℕ) : Type 0 where
      pub path : IsPath s root is es
      pub slots : AllSlots s es
      pub apart : AllApart es

    module _ (laws : PhysLaws mem Owned) where
      pub written-Agree :
          (s : S) (e v : ℕ) (es : List ℕ)
          → e % 8 ≡ 0
          → IsApart e es
          → AllSlots s es
          → Agree s (mem.write s e v) es
      written-Agree s e v [] h a o = tt
      written-Agree s e v (f ∷ es) h a o = (
        ap (λ (t : ℕ). t % 2 ^ 52) (laws.read_other s e v f h o.0.1 a.0),
        written-Agree s e v es h a.1 o.1,
      )

      pub owned-written :
          (s : S) (e v : ℕ) (es : List ℕ) → AllSlots s es → AllSlots (mem.write s e v) es
      owned-written s e v [] o = tt
      owned-written s e v (f ∷ es) o =
          ((laws.write_owned s e v f o.0.0, o.0.1), owned-written s e v es o.1)

      -- A counted reference changes no translation.
      pub add_reference-Agree :
          (s : S) (e : ℕ) (es : List ℕ)
          → e % 8 ≡ 0
          → AllSlots s es
          → Agree s (add_reference mem s e) es
      unfolding add_reference
      add_reference-Agree s e [] h o = tt
      add_reference-Agree s e (f ∷ es) h o = elim (Bool-cases (e == f)) [
        | inl same ↦
            let at = ==→≡ e f same in
            let word = with_in_use (mem.read s e) (in_use_of (mem.read s e) + 1) in
            let back = ap (λ (t : ℕ). t % 2 ^ 52) (laws.read_written s e word h) in
            let low = with_in_use-low (mem.read s e) (in_use_of (mem.read s e) + 1) in
            (rw (← at) (back ∙ low), add_reference-Agree s e es h o.1)
        | inr other ↦
            let word = with_in_use (mem.read s e) (in_use_of (mem.read s e) + 1) in
            (
              ap (λ (t : ℕ). t % 2 ^ 52) (laws.read_other s e word f h o.0.1 (==→≢ e f other)),
              add_reference-Agree s e es h o.1,
            )
      ]
