-- ===== src/Prelude/Table.antt =====
-- A database table as the list of its rows in the order of insertion. A read or a write by a unique
-- column concerns the first row that fits.
use Prim.Native.Nat.{ℕ, ◌+◌, ◌≤◌}
use mathlib.Core.Path.{◌≡◌, refl, ap, subst}
use mathlib.Core.Bool.{Bool, true}
use mathlib.Core.Option.{Option, none, some}
use mathlib.Core.List.{List, [], ◌∷◌, ◌++◌}
use native.Mathlib.Omega.{arith}
use mathlib.Core.Logic.{◌⊎◌, inl, inr}
use prestohq_assessment.Prelude.Tests.{if◌then◌else◌, Bool-cases}

module _ {ℓ} {A : Type ℓ} where
  -- `findUnique`, `findFirst`.
  abbrev pub find : (A → Bool) → List A → Option A
  find p [] = none
  find p (x ∷ xs) = if p x then some x else find p xs

  -- `update` of the row that `find` finds.
  abbrev pub update : (A → Bool) → (A → A) → List A → List A
  update p f [] = []
  update p f (x ∷ xs) = if p x then f x ∷ xs else x ∷ update p f xs

  -- `findMany`, in the order of insertion.
  abbrev pub select : (A → Bool) → List A → List A
  select p [] = []
  select p (x ∷ xs) = let rest = select p xs in if p x then x ∷ rest else rest

  abbrev pub append_row : List A → A → List A
  append_row xs x = xs ++ x ∷ []

  abbrev pub sum_by : (A → ℕ) → List A → ℕ
  sum_by f [] = 0
  sum_by f (x ∷ xs) = f x + sum_by f xs

  pub sum_by-append_row :
      (f : A → ℕ) (xs : List A) (x : A) → sum_by f (append_row xs x) ≡ sum_by f xs + f x
  sum_by-append_row f [] x = omega arith
  sum_by-append_row f (y ∷ xs) x = omega (arith, sum_by-append_row f xs x)

  pub sum_by-update :
      (f : A → ℕ) (p : A → Bool) (g : A → A) (xs : List A) (old : A)
      → find p xs ≡ some old
      → sum_by f (update p g xs) + f old ≡ sum_by f xs + f (g old)
  sum_by-update f p g [] old e = cc
  sum_by-update f p g (x ∷ xs) old e = ground (arith, sum_by-update f p g xs old)

  pub find-append_row-some :
      (p : A → Bool) (xs : List A) (x a : A)
      → find p xs ≡ some a
      → find p (append_row xs x) ≡ some a
  find-append_row-some p [] x a e = cc
  find-append_row-some p (y ∷ xs) x a e = ground (arith, find-append_row-some p xs x a)

  pub find-append_row-none :
      (p : A → Bool) (xs : List A) (x : A)
      → find p xs ≡ none
      → find p (append_row xs x) ≡ (if p x then some x else none)
  find-append_row-none p [] x e = refl
  find-append_row-none p (y ∷ xs) x e = ground (arith, find-append_row-none p xs x)

  -- What `find` finds fits.
  pub find_fits : (p : A → Bool) (xs : List A) (a : A) → find p xs ≡ some a → p a ≡ true
  find_fits p [] a e = cc
  find_fits p (x ∷ xs) a e = ground (arith, find_fits p xs a)

  -- An update that leaves the test alone is seen by the next read.
  pub find-update_self :
      (p : A → Bool) (g : A → A) (xs : List A) (old : A)
      → find p xs ≡ some old
      → p (g old) ≡ true
      → find p (update p g xs) ≡ some (g old)
  find-update_self p g [] old e h = cc
  find-update_self p g (x ∷ xs) old e h = ground (arith, find-update_self p g xs old)

  -- A row that is found is among the rows that a sum counts.
  pub find-le-sum_by :
      (f : A → ℕ) (p : A → Bool) (xs : List A) (a : A) → find p xs ≡ some a → f a ≤ sum_by f xs
  find-le-sum_by f p [] a e = cc
  find-le-sum_by f p (x ∷ xs) a e = ground (arith, find-le-sum_by f p xs a)

  -- An update of a row that was just appended.
  pub update-append_row :
      (p : A → Bool) (f : A → A) (xs : List A) (x : A)
      → find p xs ≡ none
      → p x ≡ true
      → update p f (append_row xs x) ≡ append_row xs (f x)
  update-append_row p f [] x e h = rw h
  update-append_row p f (y ∷ xs) x e h = ground (arith, update-append_row p f xs x)

  -- A search whose test an update leaves alone finds what it found before, updated or not.
  pub find-update-some :
      (p q : A → Bool) (g : A → A) (xs : List A) (a : A)
      → ((x : A) → p (g x) ≡ p x)
      → find p xs ≡ some a
      → (find p (update q g xs) ≡ some a) ⊎ (find p (update q g xs) ≡ some (g a))
  find-update-some p q g [] a same found = cc
  find-update-some p q g (x ∷ xs) a same found = elim (Bool-cases (p x)) [
    | inl here ↦
        let first : x ≡ a = ground (arith, found) in
        elim (Bool-cases (q x)) [
          | inl done ↦ inr (rw (done, same x, here) (ap (λ y. some (g y)) first))
          | inr left ↦ inl (rw (left, here) (ap some first))
        ]
    | inr later ↦
        let there : find p xs ≡ some a = ground (arith, found) in
        elim (Bool-cases (q x)) [
          | inl done ↦ inl (rw (done, same x, later) there)
          | inr left ↦ rw (left, later) (find-update-some p q g xs a same there)
        ]
  ]

  pub find-update-none :
      (p q : A → Bool) (g : A → A) (xs : List A)
      → ((x : A) → p (g x) ≡ p x)
      → find p xs ≡ none
      → find p (update q g xs) ≡ none
  find-update-none p q g [] same absent = refl
  find-update-none p q g (x ∷ xs) same absent =
      ground (arith, same x, find-update-none p q g xs same)

module _ {ℓ κ} {A : Type ℓ} (P : A → Type κ) where
  -- Every row has the property.
  abbrev pub All : List A → Type κ
  All [] = Unit
  All (x ∷ xs) = P x × All xs

  pub All-append_row : (xs : List A) (x : A) → All xs → P x → All (append_row xs x)
  All-append_row [] x h new = (new, tt)
  All-append_row (y ∷ xs) x (first, h) new = (first, All-append_row xs x h new)

  pub All-update :
      (p : A → Bool) (g : A → A) (xs : List A)
      → ((x : A) → P x → P (g x))
      → All xs
      → All (update p g xs)
  All-update p g [] step h = tt
  All-update p g (x ∷ xs) step (first, h) = elim (Bool-cases (p x)) [
    | inl fits ↦ rw fits (step x first, h)
    | inr other ↦ rw other (first, All-update p g xs step h)
  ]

  pub All-find : (p : A → Bool) (xs : List A) (a : A) → find p xs ≡ some a → All xs → P a
  All-find p [] a found h = absurd (cc found)
  All-find p (x ∷ xs) a found (first, h) = elim (Bool-cases (p x)) [
    | inl here ↦ let same : x ≡ a = ground (arith, found) in subst P same first
    | inr later ↦ All-find p xs a (ground (arith, found)) h
  ]
