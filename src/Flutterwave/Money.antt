-- ===== src/Flutterwave/Money.antt =====
-- src/common/utils/money.ts. Amounts in naira are numbers with fractions: the arithmetic of the
-- language's numbers that are finite and not negative is a parameter.
use prestohq_assessment.Prelude.{ℕ}

pub record Numbers : Type 1 where
  pub Number : Type 0
  pub of_integer : ℕ → Number
  pub divide : Number → Number → Number
  pub times : Number → Number → Number
  pub math_round : Number → ℕ

-- `nairaToKobo`
unfoldable pub naira_to_kobo : (n : Numbers) → n.Number → ℕ
naira_to_kobo n naira = n.math_round (n.times naira (n.of_integer 100))

-- `koboToNaira`
unfoldable pub kobo_to_naira : (n : Numbers) → ℕ → n.Number
kobo_to_naira n kobo = n.divide (n.of_integer kobo) (n.of_integer 100)
