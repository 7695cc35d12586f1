-- ===== src/Prelude/Unique.antt =====
-- Columns in which no two rows of a table agree.
use Prim.Native.String.{String}
use mathlib.Core.Path.{◌≡◌, refl, sym, ◌∙◌, subst}
use mathlib.Core.Logic.{inl, inr}
use mathlib.Core.Bool.{Bool, true, false}
use mathlib.Core.Option.{none-ne-some, none, some}
use mathlib.Core.List.{List, [], ◌∷◌}
use native.Mathlib.Omega.{arith}
use text.Mathlib.Text.{◌==◌ as str_eq}
use text.Mathlib.TextEquality.{eq_iff}
use text.Mathlib.TextPositions.{eq_refl}
use prestohq_assessment.Prelude.Tests.{Bool-cases}
use prestohq_assessment.Prelude.Table.{find, select, update, append_row}

module _ {A : Type 0} (column : A → String) where
  abbrev pub has : String → A → Bool
  has k r = str_eq (column r) k

  abbrev pub Unique : List A → Type 0
  Unique [] = Unit
  Unique (r ∷ rows) = (find (has (column r)) rows ≡ none) × Unique rows

  absent_after :
      (k : String) (x : A) (rows : List A)
      → str_eq (column x) k ≡ false
      → find (has k) rows ≡ none
      → find (has k) (append_row rows x) ≡ none
  absent_after k x [] other absent = rw other
  absent_after k x (r ∷ rows) other absent = ground (arith, absent_after k x rows other)

  pub Unique-append_row :
      (x : A) (rows : List A)
      → find (has (column x)) rows ≡ none
      → Unique rows
      → Unique (append_row rows x)
  Unique-append_row x [] new u = (refl, tt)
  Unique-append_row x (r ∷ rows) new (first, u) = (
    absent_after (column r) x rows
        (ground (arith, new, eq_iff (column r) (column x), eq_iff (column x) (column r))) first,
    Unique-append_row x rows (ground (arith, new)) u,
  )

  module _ (g : A → A) (same : (r : A) → column (g r) ≡ column r) (p : A → Bool) where
    absent-update :
        (k : String) (rows : List A)
        → find (has k) rows ≡ none
        → find (has k) (update p g rows) ≡ none
    absent-update k [] absent = refl
    absent-update k (r ∷ rows) absent = ground (arith, same r, absent-update k rows)

    pub Unique-update : (rows : List A) → Unique rows → Unique (update p g rows)
    Unique-update [] u = tt
    Unique-update (r ∷ rows) (first, u) = elim (Bool-cases (p r)) [
      | inl fits ↦ rw (fits, same r) (first, u)
      | inr other ↦ rw other (absent-update (column r) rows first, Unique-update rows u)
    ]

  absent_before :
      (k : String) (x : A) (rows : List A)
      → find (has k) (append_row rows x) ≡ none
      → (find (has k) rows ≡ none) × (str_eq (column x) k ≡ false)
  absent_before k x [] absent = (refl, ground (arith, absent))
  absent_before k x (r ∷ rows) absent =
      let (later, other) = absent_before k x rows (ground (arith, absent)) in
      (ground (arith, absent, later), other)

  -- The last row of a table of distinct ones was new.
  pub Unique-last :
      (x : A) (rows : List A)
      → Unique (append_row rows x)
      → (find (has (column x)) rows ≡ none) × Unique rows
  Unique-last x [] u = (refl, tt)
  Unique-last x (r ∷ rows) (first, u) =
      let (there, other) = absent_before (column r) x rows first in
      let (new, rest) = Unique-last x rows u in
      let differs : has (column x) r ≡ false =
        ground (arith, other, eq_iff (column r) (column x), eq_iff (column x) (column r)) in
      (rw differs new, (there, rest))

  behind :
      (r x : A) (rows : List A)
      → find (has (column r)) rows ≡ none
      → find (has (column x)) rows ≡ some x
      → find (has (column x)) (r ∷ rows) ≡ some x
  behind r x rows new found = elim (Bool-cases (str_eq (column r) (column x))) [
    | inl same ↦
        let key : column r ≡ column x = (eq_iff (column r) (column x)).0 same in
        absurd (cc (subst (λ k. find (has k) rows ≡ none) key new, found))
    | inr other ↦ rw other found
  ]

  -- In a table of distinct rows, a row that is found in a part of it is the one of its column.
  pub Unique-find :
      (p q : A → Bool) (rows : List A) (x : A)
      → Unique rows
      → find q (select p rows) ≡ some x
      → (find (has (column x)) rows ≡ some x) × (p x ≡ true)
  Unique-find p q [] x u found = absurd (none-ne-some x found)
  Unique-find p q (r ∷ rows) x (new, u) found = elim (Bool-cases (p r)) [
    | inr out ↦
        let (later, fits) = Unique-find p q rows x u (rw out at found) in
        (behind r x rows new later, fits)
    | inl in_part ↦ elim (Bool-cases (q r)) [
      | inl here ↦
          let first : find q (select p (r ∷ rows)) ≡ some r = rw (in_part, here) in
          let same : r ≡ x = cc (first, found) in
          (
            subst (λ y. find (has (column y)) (r ∷ rows) ≡ some y) same (rw (eq_refl (column r))),
            subst (λ y. p y ≡ true) same in_part,
          )
      | inr other ↦
          let skipped : find q (select p (r ∷ rows)) ≡ find q (select p rows) =
            rw (in_part, other) in
          let (later, fits) = Unique-find p q rows x u (sym skipped ∙ found) in
          (behind r x rows new later, fits)
    ]
  ]
