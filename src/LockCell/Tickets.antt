-- ===== src/LockCell/Tickets.antt =====
-- shared/lockcell/src/lib.rs: the tickets of the parties, each of those that are out held by one party.
use chocolate_milk.Base.{
  dec, some_inj, ℕ, ◌+◌, ◌≤◌, ◌<◌, ◌≡◌, ◌≢◌, refl, sym, subst, ◌∙◌, arith, Option, none, some, inl,
  inr, ◌⊎◌,
}

pub not_some : {t : ℕ} → ◌≡◌ {A = Option ℕ} none (some t) → ⊥
not_some e = cc

-- The tickets from `release` to `ticket` are out.
pub record AreOut (release ticket : ℕ) (held : ℕ → Option ℕ) : Type 0 where
  pub ordered : release ≤ ticket
  pub between : (i t : ℕ) → held i ≡ some t → (release ≤ t) × (t < ticket)
  pub apart : (i j t : ℕ) → held i ≡ some t → held j ≡ some t → i ≡ j
  pub covered : (t : ℕ) → release ≤ t → t < ticket → (i : ℕ) × (held i ≡ some t)

pub AreOut-words :
    {r t r' t' : ℕ} (held : ℕ → Option ℕ) → r' ≡ r → t' ≡ t → AreOut r t held → AreOut r' t' held
AreOut-words held e f out = rw (e, f) out

module _ (release ticket : ℕ) (held held' : ℕ → Option ℕ) (out : AreOut release ticket held) where
  pub kept : ((j : ℕ) → held' j ≡ held j) → AreOut release ticket held'
  kept same = record {
    ordered = out.ordered;
    between = λ i t e. out.between i t (sym (same i) ∙ e);
    apart = λ i j t e f. out.apart i j t (sym (same i) ∙ e) (sym (same j) ∙ f);
    covered = λ t l h. let (i, e) = out.covered t l h in (i, same i ∙ e);
  }

  module _ (i : ℕ) (others : (j : ℕ) → j ≢ i → held' j ≡ held j) where
    pub taken : held i ≡ none → held' i ≡ some ticket → AreOut release (ticket + 1) held'
    taken before after =
        let old : (j t : ℕ) → held' j ≡ some t → ((j ≡ i) × (t ≡ ticket)) ⊎ (held j ≡ some t) =
          λ j t e. elim (dec j i) [
            | inl same ↦
                inl (same, some_inj (sym e ∙ subst (λ k. held' k ≡ some ticket) (sym same) after))
            | inr other ↦ inr (sym (others j other) ∙ e)
          ] in
        record {
          ordered = omega (arith, out.ordered);
          between = λ j t e. elim (old j t e) [
            | inl (same, new) ↦ (omega (arith, out.ordered), omega arith)
            | inr e' ↦ let b = out.between j t e' in (omega arith, omega arith)
          ];
          apart = λ j k t e f. elim (old j t e) [
            | inl (j', t') ↦ elim (old k t f) [
              | inl (k', _) ↦ j' ∙ sym k'
              | inr f' ↦ let b = out.between k t f' in absurd (omega arith)
            ]
            | inr e' ↦ elim (old k t f) [
              | inl (_, t') ↦ let b = out.between j t e' in absurd (omega arith)
              | inr f' ↦ out.apart j k t e' f'
            ]
          ];
          covered = λ t l h. elim (dec t ticket) [
            | inl last ↦ (i, after ∙ (rw last refl))
            | inr inner ↦
                let (j, e) = out.covered t l (omega arith) in
                (
                  j,
                  others j (λ same. not_some (sym before ∙ subst (λ k. held k ≡ some t) same e))
                      ∙ e,
                )
          ];
        }

    pub given : held i ≡ some release → held' i ≡ none → AreOut (release + 1) ticket held'
    given before after =
        let mine = out.between i release before in
        let old : (j t : ℕ) → held' j ≡ some t → (j ≢ i) × (held j ≡ some t) = λ j t e.
          let other : j ≢ i = λ same. not_some (sym after ∙ subst (λ k. held' k ≡ some t) same e) in
          (other, sym (others j other) ∙ e) in
        record {
          ordered = omega arith;
          between = λ j t e.
              let (other, e') = old j t e in
              let b = out.between j t e' in
              let late : t ≢ release =
                λ same. other (out.apart j i t e' (before ∙ (rw same refl))) in
              (omega arith, b.1);
          apart = λ j k t e f. out.apart j k t (old j t e).1 (old k t f).1;
          covered = λ t l h.
              let (j, e) = out.covered t (omega arith) h in
              let early : t ≢ release = omega arith in
              (
                j,
                others j (λ same.
                      early
                        (some_inj (sym e ∙ subst (λ k. held k ≡ some release) (sym same) before)))
                    ∙ e,
              );
        }
