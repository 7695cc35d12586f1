-- ===== src/Prelude/TextOrder.antt =====
-- The comparison of texts, the other way round.
use Prim.Native.Nat.compare as compare_ℕ
use Prim.Native.Nat.{ℕ, zero, suc, Ordering, compare as compare_ℕ}
use Prim.Native.Char.{code}
use Prim.Native.String.compare
use Prim.Native.String.{String, [], ◌∷◌, compare, then}
use mathlib.Core.Path.{◌≡◌, refl, sym, ap, ◌∙◌}

-- The answer of a comparison, the other way round
abbrev pub flip : Ordering → Ordering
flip Ordering.lt = Ordering.gt
flip Ordering.eq = Ordering.eq
flip Ordering.gt = Ordering.lt

flip-compare_ℕ : (m n : ℕ) → compare_ℕ n m ≡ flip (compare_ℕ m n)
flip-compare_ℕ zero zero = compare_ℕ.zero-zero ∙ sym (ap flip compare_ℕ.zero-zero)
flip-compare_ℕ zero (suc n) = compare_ℕ.suc-zero n ∙ sym (ap flip (compare_ℕ.zero-suc n))
flip-compare_ℕ (suc m) zero = compare_ℕ.zero-suc m ∙ sym (ap flip (compare_ℕ.suc-zero m))
flip-compare_ℕ (suc m) (suc n) =
    compare_ℕ.suc-suc n m ∙ flip-compare_ℕ m n ∙ sym (ap flip (compare_ℕ.suc-suc m n))

then-flip : (o r : Ordering) → then (flip o) (flip r) ≡ flip (then o r)
then-flip Ordering.lt r = refl
then-flip Ordering.eq r = refl
then-flip Ordering.gt r = refl

pub flip-compare : (s t : String) → compare t s ≡ flip (compare s t)
flip-compare [] [] = compare.nil-nil ∙ sym (ap flip compare.nil-nil)
flip-compare [] (d ∷ t) = compare.cons-nil d t ∙ sym (ap flip (compare.nil-cons d t))
flip-compare (c ∷ s) [] = compare.nil-cons c s ∙ sym (ap flip (compare.cons-nil c s))
flip-compare (c ∷ s) (d ∷ t) =
    compare.cons-cons d c t s
    ∙ ap (λ o. then o (compare t s)) (flip-compare_ℕ (code c) (code d))
    ∙ ap (then (flip (compare_ℕ (code c) (code d)))) (flip-compare s t)
    ∙ then-flip (compare_ℕ (code c) (code d)) (compare s t)
    ∙ sym (ap flip (compare.cons-cons c d s t))
