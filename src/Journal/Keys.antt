-- ===== src/Journal/Keys.antt =====
-- The idempotency keys that the services write, and that only refunds have the keys of refunds.
use Prim.Native.Char.{Char, code}
use Prim.Native.String.{◌++◌}
use text.Mathlib.TextLemmas.{cons-append, append_assoc, append_cancel_left}
use prestohq_assessment.Prelude.{ℕ, String, ◌≡◌, ◌≢◌, sym, ◌∙◌, ap, some, arith}
use prestohq_assessment.Db.{WalletTransactionEntity}

-- The key of no refund
abbrev pub IsOtherKey : String → Type 0
IsOtherKey key = (d : String) → key ≢ "reversal:" ++ d

-- A row with the key of a refund is the refund of that debit.
abbrev pub IsRefundKeyed : WalletTransactionEntity → Type 0
IsRefundKeyed r =
    (d : String) → r.idempotency_key ≡ "reversal:" ++ d → r.reverses_transaction_id ≡ some d

-- The code of the first character, 0 if there is none
first_code : String → ℕ
first_code String.[] = 0
first_code (String.◌∷◌ c s) = code c

first_code-key : (c : Char) (s t : String) → first_code (String.◌∷◌ c s ++ t) ≡ code c
unfolding first_code
first_code-key c s t = ap first_code (cons-append c s t)

first_code-refund : (d : String) → first_code ("reversal:" ++ d) ≡ b'r'
unfolding first_code
first_code-refund d = ap first_code (cons-append "r" "eversal:" d)

-- A key whose prefix does not start like that of refunds
other_key : (c : Char) (s t : String) → code c ≢ b'r' → IsOtherKey (String.◌∷◌ c s ++ t)
other_key c s t other d same =
    other (sym (first_code-key c s t) ∙ ap first_code same ∙ first_code-refund d)

pub funding_key : (t : String) → IsOtherKey ("funding:" ++ t)
funding_key t = other_key "f" "unding:" t (omega arith)

pub p2p_debit_key : (t : String) → IsOtherKey ("p2p-debit:" ++ t)
p2p_debit_key t = other_key "p" "2p-debit:" t (omega arith)

pub p2p_credit_key : (t : String) → IsOtherKey ("p2p-credit:" ++ t)
p2p_credit_key t = other_key "p" "2p-credit:" t (omega arith)

pub bank_debit_key : (t : String) → IsOtherKey ("bank-debit:" ++ t)
bank_debit_key t = other_key "b" "ank-debit:" t (omega arith)

-- Two debits have different refund keys.
pub refund_key_inj : (d e : String) → "reversal:" ++ d ≡ "reversal:" ++ e → d ≡ e
refund_key_inj d e same = append_cancel_left "reversal:" d e same

-- The two rows of a payment between wallets have different keys, whatever follows the prefixes.
pub p2p_keys_differ : (x y : String) → "p2p-debit:" ++ x ≢ "p2p-credit:" ++ y
unfolding first_code
p2p_keys_differ x y same =
    let rest : "debit:" ++ x ≡ "credit:" ++ y =
      append_cancel_left "p2p-" ("debit:" ++ x) ("credit:" ++ y)
        (sym (append_assoc "p2p-" "debit:" x) ∙ same ∙ append_assoc "p2p-" "credit:" y) in
    let codes : b'd' ≡ b'c' =
      sym (first_code-key "d" "ebit:" x) ∙ ap first_code rest ∙ first_code-key "c" "redit:" y in
    omega (arith, codes)
