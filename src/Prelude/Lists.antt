-- ===== src/Prelude/Lists.antt =====
-- The length and the front of a list, by native numbers.
use Prim.Native.Nat.{ℕ, zero, suc, ◌+◌, ◌≤◌, ◌<◌}
use mathlib.Core.Path.{◌≡◌, refl, ap}
use mathlib.Core.List.{List, [], ◌∷◌, ◌++◌}
use native.Mathlib.Omega.{arith}

module _ {ℓ} {A : Type ℓ} where
  abbrev pub length : List A → ℕ
  length [] = 0
  length (x ∷ xs) = suc (length xs)

  abbrev pub take : ℕ → List A → List A
  take zero xs = []
  take (suc n) [] = []
  take (suc n) (x ∷ xs) = x ∷ take n xs

  -- A list longer than `n + 1` splits behind its element number `n`.
  pub record Split (n : ℕ) (xs : List A) : Type ℓ where
    pub before : List A
    pub here : A
    pub behind : List A
    pub whole : xs ≡ before ++ here ∷ behind
    pub front : take (suc n) xs ≡ before ++ here ∷ []
    pub shorter : length behind + suc n ≡ length xs

  pub cut_at : (n : ℕ) (xs : List A) → n < length xs → Split n xs
  cut_at n [] h = absurd (omega arith)
  cut_at zero (x ∷ xs) h = record {
    before = [];
    here = x;
    behind = xs;
    whole = refl;
    front = refl;
    shorter = omega arith;
  }
  cut_at (suc n) (x ∷ xs) h =
      let s : Split n xs = cut_at n xs (omega arith) in
      record {
        before = x ∷ s.before;
        here = s.here;
        behind = s.behind;
        whole = ap (λ l. x ∷ l) s.whole;
        front = ap (λ l. x ∷ l) s.front;
        shorter = omega (arith, s.shorter);
      }

  pub take_all : (n : ℕ) (xs : List A) → length xs ≤ n → take n xs ≡ xs
  take_all zero [] h = refl
  take_all zero (x ∷ xs) h = absurd (omega arith)
  take_all (suc n) [] h = refl
  take_all (suc n) (x ∷ xs) h = ap (λ l. x ∷ l) (take_all n xs (omega arith))

  pub take-take-suc : (n : ℕ) (xs : List A) → take n (take (suc n) xs) ≡ take n xs
  take-take-suc zero xs = refl
  take-take-suc (suc n) [] = refl
  take-take-suc (suc n) (x ∷ xs) = ap (λ l. x ∷ l) (take-take-suc n xs)

  pub length-take-le : (n : ℕ) (xs : List A) → length (take n xs) ≤ n
  length-take-le zero xs = omega arith
  length-take-le (suc n) [] = omega arith
  length-take-le (suc n) (x ∷ xs) = omega (arith, length-take-le n xs)

  pub length-take-suc : (n : ℕ) (xs : List A) → n < length xs → length (take (suc n) xs) ≡ suc n
  length-take-suc n [] h = absurd (omega arith)
  length-take-suc zero (x ∷ xs) h = refl
  length-take-suc (suc n) (x ∷ xs) h = ap suc (length-take-suc n xs (omega arith))
