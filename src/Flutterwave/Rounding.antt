-- ===== src/Flutterwave/Rounding.antt =====
-- The amounts that the provider is asked for come back as they were: src/common/utils/money.ts over
-- correctly rounded arithmetic.
use native.Mathlib.Nat.{mul-le-mul_right}
use prestohq_assessment.Prelude.{ℕ, ◌+◌, ◌*◌, ◌≤◌, ◌<◌, ◌≡◌, arith}
use prestohq_assessment.Flutterwave.Money.{Numbers, naira_to_kobo, kobo_to_naira}

-- Numbers of 53 binary digits, by their multiples of a unit: up to 2 ^ 53, a quotient of an integer by
-- 100 and a product with 100 lie within one part in 2 ^ 53 of the exact value, and `Math.round` gives
-- the next integer.
pub record IsRounded (n : Numbers) : Type 0 where
  pub unit : ℕ
  pub unit_pos : 1 ≤ unit
  pub at : n.Number → ℕ
  pub divide_above :
      (k : ℕ)
      → k ≤ 9007199254740992
      → 9007199254740992 * (at (n.divide (n.of_integer k) (n.of_integer 100)) * 100)
        ≤ 9007199254740993 * (k * unit)
  pub divide_below :
      (k : ℕ)
      → k ≤ 9007199254740992
      → 9007199254740991 * (k * unit)
        ≤ 9007199254740992 * (at (n.divide (n.of_integer k) (n.of_integer 100)) * 100)
  pub times_above :
      (x : n.Number)
      → at x ≤ 9007199254740992 * unit
      → 9007199254740992 * at (n.times x (n.of_integer 100)) ≤ 9007199254740993 * (at x * 100)
  pub times_below :
      (x : n.Number)
      → at x ≤ 9007199254740992 * unit
      → 9007199254740991 * (at x * 100) ≤ 9007199254740992 * at (n.times x (n.of_integer 100))
  pub rounds :
      (x : n.Number) (k : ℕ)
      → 2 * at x < 2 * (k * unit) + unit
      → 2 * (k * unit) < 2 * at x + unit
      → n.math_round x ≡ k

-- An amount of at most a thousand million million kobo comes back from its number of naira unchanged,
-- whatever rounding its hundredth part needs.
pub naira_to_kobo-kobo_to_naira :
    (n : Numbers) (k : ℕ)
    → IsRounded n
    → k ≤ 1000000000000000
    → naira_to_kobo n (kobo_to_naira n k) ≡ k
unfolding naira_to_kobo kobo_to_naira
naira_to_kobo-kobo_to_naira n k laws small =
    let naira = n.divide (n.of_integer k) (n.of_integer 100) in
    let bound : k * laws.unit ≤ 1000000000000000 * laws.unit = mul-le-mul_right laws.unit small in
    let above = laws.divide_above k (omega arith) in
    let below = laws.divide_below k (omega arith) in
    let fits : laws.at naira ≤ 9007199254740992 * laws.unit = omega (arith, above, bound) in
    laws.rounds (n.times naira (n.of_integer 100)) k
      (omega (arith, above, laws.times_above naira fits, bound, laws.unit_pos))
      (omega (arith, below, laws.times_below naira fits, bound, laws.unit_pos))
