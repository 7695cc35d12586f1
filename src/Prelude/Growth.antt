-- ===== src/Prelude/Growth.antt =====
-- Tables that grow: every row keeps its place and changes only as a relation allows; new rows come
-- behind.
use mathlib.Core.Path.{◌≡◌, sym, ◌∙◌, subst}
use mathlib.Core.Logic.{inl, inr}
use mathlib.Core.Bool.{Bool}
use mathlib.Core.Option.{none-ne-some, some}
use mathlib.Core.List.{List, [], ◌∷◌}
use prestohq_assessment.Prelude.Tests.{Bool-cases}
use prestohq_assessment.Prelude.Table.{find, update, append_row}

module _ {ℓ} {A : Type ℓ} (R : A → A → Type 0) where
  abbrev pub Grows : List A → List A → Type 0
  Grows [] rows = Unit
  Grows (r ∷ old) [] = ⊥
  Grows (r ∷ old) (q ∷ rows) = R r q × Grows old rows

  pub Grows-refl : ((r : A) → R r r) → (rows : List A) → Grows rows rows
  Grows-refl same [] = tt
  Grows-refl same (r ∷ rows) = (same r, Grows-refl same rows)

  pub Grows-append_row :
      (old rows : List A) (x : A) → Grows old rows → Grows old (append_row rows x)
  Grows-append_row [] rows x e = tt
  Grows-append_row (r ∷ old) [] x e = absurd e
  Grows-append_row (r ∷ old) (q ∷ rows) x (s, e) = (s, Grows-append_row old rows x e)

  -- An update of the row that is found, if the relation allows it after what it allowed before.
  pub Grows-update :
      (p : A → Bool) (g : A → A) (old rows : List A) (t : A)
      → find p rows ≡ some t
      → ((r : A) → R r t → R r (g t))
      → Grows old rows
      → Grows old (update p g rows)
  Grows-update p g [] rows t found step e = tt
  Grows-update p g (r ∷ old) [] t found step e = absurd e
  Grows-update p g (r ∷ old) (q ∷ rows) t found step (s, e) = elim (Bool-cases (p q)) [
    | inl fits ↦
        let first : find p (q ∷ rows) ≡ some q = rw fits in
        let here : t ≡ q = cc (first, found) in
        rw fits (subst (λ x. R r x → R r (g x)) here (step r) s, e)
    | inr other ↦
        let later : find p (q ∷ rows) ≡ find p rows = rw other in
        rw other (s, Grows-update p g old rows t (sym later ∙ found) step e)
  ]

  -- A row that is found is found later, as what the relation has made of it.
  pub Grows-find :
      (p : A → Bool)
      → ((r q : A) → R r q → p q ≡ p r)
      → (old rows : List A) (t : A) → Grows old rows
      → find p old ≡ some t
      → (q : A) × (find p rows ≡ some q) × R t q
  Grows-find p same [] rows t e found = absurd (none-ne-some t found)
  Grows-find p same (r ∷ old) [] t e found = absurd e
  Grows-find p same (r ∷ old) (q ∷ rows) t (s, e) found = elim (Bool-cases (p r)) [
    | inl fits ↦
        let first : find p (r ∷ old) ≡ some r = rw fits in
        let here : r ≡ t = cc (first, found) in
        (q, rw (same r q s ∙ fits), subst (λ x. R x q) here s)
    | inr other ↦
        let later : find p (r ∷ old) ≡ find p old = rw other in
        let rest = Grows-find p same old rows t e (sym later ∙ found) in
        (rest.0, rw (same r q s ∙ other) rest.1, rest.2)
  ]
