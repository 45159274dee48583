-- ===== src/FlattenPe/Fold.antt =====
-- src/main.rs and shared/pe_parser/src/lib.rs: a pass over the sections of a file is a fold over the
-- list of them, the same list for each pass.
use chocolate_milk.Base.{ℕ, zero, suc, ◌+◌, ◌*◌, ◌≤◌, ◌≡◌, refl, arith, List, [], ◌∷◌, length}
use chocolate_milk.Base.Parsed.{Parsed, found, absent, panicked, ◌>>=◌}
use chocolate_milk.Base.Safe.{Safe-found}
use chocolate_milk.PeParser.{PeParser, Section, section_at, sections_from}
use chocolate_milk.PeParser.Bounds.{Fits, section_at-Safe}

-- The headers from number `section` on are those of the list.
abbrev pub AreHeaders : ℕ → PeParser → ℕ → ℕ → List Section → Type 0
AreHeaders usize_max pe zero section [] = Unit
AreHeaders usize_max pe zero section (sec ∷ secs) = ⊥
AreHeaders usize_max pe (suc left) section [] = ⊥
AreHeaders usize_max pe (suc left) section (sec ∷ secs) =
    (section_at usize_max pe (pe.section_off + section * 0x28) ≡ found sec)
    × AreHeaders usize_max pe left (suc section) secs

abbrev pub fold : {S : Type 0} → (S → Section → Parsed S) → S → List Section → Parsed S
fold func s [] = found s
fold func s (sec ∷ secs) = func s sec >>= λ s'. fold func s' secs

bind_same :
    {A B : Type 0} (m : Parsed A) (f g : A → Parsed B)
    → ((a : A) → f a ≡ g a)
    → (m >>= f) ≡ (m >>= g)
bind_same (found a) f g e = e a
bind_same absent f g e = refl
bind_same panicked f g e = refl

pub bind-found :
    {A B : Type 0} (m : Parsed A) (f : A → Parsed B) (b : B)
    → (m >>= f) ≡ found b
    → (a : A) × (m ≡ found a) × (f a ≡ found b)
bind-found (found a) f b e = (a, refl, e)
bind-found absent f b e = cc
bind-found panicked f b e = cc

abbrev pub AllFit : List ℕ → List Section → Type 0
AllFit bytes [] = Unit
AllFit bytes (sec ∷ secs) = Fits bytes sec × AllFit bytes secs

module _ (usize_max : ℕ) (pe : PeParser) where
  pub sections_from-fold :
      {S : Type 0} (func : S → Section → Parsed S) (left section : ℕ) (secs : List Section) (s : S)
      → AreHeaders usize_max pe left section secs
      → sections_from usize_max pe func left section s ≡ fold func s secs
  unfolding sections_from
  sections_from-fold func zero section [] s h = refl
  sections_from-fold func zero section (sec ∷ secs) s h = elim h [ ]
  sections_from-fold func (suc left) section [] s h = elim h [ ]
  sections_from-fold func (suc left) section (sec ∷ secs) s h = rw (h.0) (
      bind_same (func s sec) (sections_from usize_max pe func left (suc section))
        (λ t. fold func t secs) (λ t. sections_from-fold func left (suc section) secs t h.1))

  -- A pass that ends has read all the headers.
  pub sections_from-AreHeaders :
      {S : Type 0} (func : S → Section → Parsed S) (left section : ℕ) (s t : S)
      → pe.section_off + (section + left) * 0x28 ≤ length pe.bytes
      → sections_from usize_max pe func left section s ≡ found t
      → (secs : List Section) × AreHeaders usize_max pe left section secs × AllFit pe.bytes secs
  unfolding sections_from
  sections_from-AreHeaders func zero section s t room e = ([], tt, tt)
  sections_from-AreHeaders func (suc left) section s t room e =
      let at = pe.section_off + section * 0x28 in
      let (sec, header, runs) =
        bind-found (section_at usize_max pe at)
          (λ sec. func s sec >>= λ s'. sections_from usize_max pe func left (suc section) s') t e in
      let (s', step, rest) =
        bind-found (func s sec) (sections_from usize_max pe func left (suc section)) t runs in
      let fits =
        Safe-found (Fits pe.bytes) (section_at-Safe usize_max at pe (omega arith)) header in
      let (secs, headers, all) =
        sections_from-AreHeaders func left (suc section) s' t (omega arith) rest in
      (sec ∷ secs, (header, headers), (fits, all))
