-- ===== src/Journal/Books.antt =====
-- What the books say of the whole service: how much came in, went out and was paid back, and how the
-- rows of each purpose must look for these sums to account for all the money.
use Prim.Native.String.{◌++◌}
use prestohq_assessment.Prelude.{
  All, ℕ, ◌+◌, String, ◌≡◌, Bool, true, false, ◌&&◌, Option, none, some, if◌then◌else◌, str_eq,
  find, sum_by, arith,
}
use prestohq_assessment.Prelude.Int.{ℤ, sub_ℕ}
use prestohq_assessment.Db.{
  WalletTransactionEntity, WalletTxPurpose, flutterwave_funding, p2p, bank_payout, reversal, debit,
}
use prestohq_assessment.Journal.{Rows, by_id, is_credit, is_debit, is_successful}

-- The money in the system: all that counts, whatever the wallet.
abbrev pub credit_in : WalletTransactionEntity → ℕ
credit_in r = if is_successful r.status && is_credit r.type then r.amount else 0

abbrev pub debit_in : WalletTransactionEntity → ℕ
debit_in r = if is_successful r.status && is_debit r.type then r.amount else 0

unfoldable pub total : Rows → ℤ
total rows = sub_ℕ (sum_by credit_in rows) (sum_by debit_in rows)

-- The amount of a row by its purpose, if it counts
abbrev pub counted : WalletTransactionEntity → ℕ
counted r = if is_successful r.status then r.amount else 0

abbrev pub deposit_as : WalletTxPurpose → WalletTransactionEntity → ℕ
deposit_as flutterwave_funding r = counted r
deposit_as p2p r = 0
deposit_as bank_payout r = 0
deposit_as reversal r = 0

abbrev pub payout_as : WalletTxPurpose → WalletTransactionEntity → ℕ
payout_as flutterwave_funding r = 0
payout_as p2p r = 0
payout_as bank_payout r = counted r
payout_as reversal r = 0

abbrev pub refund_as : WalletTxPurpose → WalletTransactionEntity → ℕ
refund_as flutterwave_funding r = 0
refund_as p2p r = 0
refund_as bank_payout r = 0
refund_as reversal r = counted r

abbrev pub received_as : WalletTxPurpose → WalletTransactionEntity → ℕ
received_as flutterwave_funding r = 0
received_as p2p r = credit_in r
received_as bank_payout r = 0
received_as reversal r = 0

abbrev pub sent_as : WalletTxPurpose → WalletTransactionEntity → ℕ
sent_as flutterwave_funding r = 0
sent_as p2p r = debit_in r
sent_as bank_payout r = 0
sent_as reversal r = 0

-- The completed deposits, the payouts to banks and the refunds
abbrev pub deposits : Rows → ℕ
deposits rows = sum_by (λ r. deposit_as r.purpose r) rows

abbrev pub payouts : Rows → ℕ
payouts rows = sum_by (λ r. payout_as r.purpose r) rows

abbrev pub refunds : Rows → ℕ
refunds rows = sum_by (λ r. refund_as r.purpose r) rows

abbrev pub received : Rows → ℕ
received rows = sum_by (λ r. received_as r.purpose r) rows

abbrev pub sent : Rows → ℕ
sent rows = sum_by (λ r. sent_as r.purpose r) rows

-- What is paid back of the debit `id`
abbrev pub repays : Option String → String → Bool
repays none id = false
repays (some d) id = str_eq d id

abbrev pub repaid : String → WalletTransactionEntity → ℕ
repaid id r = if repays r.reverses_transaction_id id then r.amount else 0

-- Only a refund names a debit, and its key is the debit's.
abbrev pub has_refund_key : Option String → String → Bool
has_refund_key none key = false
has_refund_key (some d) key = str_eq key ("reversal:" ++ d)

abbrev pub reverses_none : Option String → Bool
reverses_none none = true
reverses_none (some d) = false

abbrev pub fits_as : WalletTxPurpose → WalletTransactionEntity → Bool
fits_as flutterwave_funding r = is_credit r.type && reverses_none r.reverses_transaction_id
fits_as p2p r = is_successful r.status && reverses_none r.reverses_transaction_id
fits_as bank_payout r =
    is_debit r.type && is_successful r.status && reverses_none r.reverses_transaction_id
fits_as reversal r =
    is_credit r.type
    && is_successful r.status
    && has_refund_key r.reverses_transaction_id r.idempotency_key

abbrev pub misfit : WalletTransactionEntity → ℕ
misfit r = if fits_as r.purpose r then 0 else 1

-- The debit that a row refunds is in the journal, with the row's wallet and amount.
abbrev pub BackedBy : Rows → WalletTransactionEntity → String → Type 0
BackedBy rows r id =
    (o : WalletTransactionEntity) × (find (by_id id) rows ≡ some o)
    × (o.type ≡ debit)
    × (o.wallet_id ≡ r.wallet_id)
    × (o.amount ≡ r.amount)

abbrev pub Backed : Rows → WalletTransactionEntity → Option String → Type 0
Backed rows r none = Unit
Backed rows r (some id) = BackedBy rows r id

abbrev pub AllBacked : Rows → Rows → Type 0
AllBacked rows = All (λ r. Backed rows r r.reverses_transaction_id)

-- The books are in order: every row fits its purpose, what was received from other wallets is what was
-- sent to them, and every refund is backed by its debit.
pub record IsBooked (rows : Rows) : Type 0 where
  pub fit : sum_by misfit rows ≡ 0
  pub even : received rows ≡ sent rows
  pub backed : AllBacked rows rows

pub credit_parts :
    (p : WalletTxPurpose) (r : WalletTransactionEntity)
    → fits_as p r ≡ true
    → credit_in r ≡ deposit_as p r + refund_as p r + received_as p r
credit_parts flutterwave_funding r fits = ground arith
credit_parts p2p r fits = ground arith
credit_parts bank_payout r fits = ground arith
credit_parts reversal r fits = ground arith

pub debit_parts :
    (p : WalletTxPurpose) (r : WalletTransactionEntity)
    → fits_as p r ≡ true
    → debit_in r ≡ payout_as p r + sent_as p r
debit_parts flutterwave_funding r fits = ground arith
debit_parts p2p r fits = ground arith
debit_parts bank_payout r fits = ground arith
debit_parts reversal r fits = ground arith
