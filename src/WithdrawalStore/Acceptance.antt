-- ===== src/WithdrawalStore/Acceptance.antt =====
-- Withdrawals that go through: `executeP2p` and `executeBankAccept`, by what they find in the state that
-- they start from.
use Prim.Native.String.{compare}
use text.Mathlib.Text.{is_le}
use prestohq_assessment.Prelude.{
  ℕ, String, List, ◌≤◌, ◌+◌, ◌≢◌, refl, ◌∙◌, str_eq-false, find-append_row-none, ◌≡◌, inl, inr,
  true, false, none, some, eq_refl, [], ◌∷◌, find, is_some, arith, Bool-cases,
}
use prestohq_assessment.Prelude.Int.{pos, ltb_ℤ, ◌+ℤ◌, ◌-ℤ◌}
use prestohq_assessment.Db.{State}
use prestohq_assessment.Exec.{ok}
use prestohq_assessment.Journal.{
  CreateWalletTransactionData, wallet_by_id, refusal, insert, new_row, with_row, lock_wallet,
  balance,
}
use prestohq_assessment.Ledger.Debits.{Covers}
use prestohq_assessment.WithdrawalStore.{
  ExecuteResult, ExecuteP2pWithdrawalData, ExecuteBankWithdrawalData, insert_sorted,
  sort_wallet_ids, lock_all, p2p_row, p2p_debit, p2p_credit, p2p_writes, p2p_unless, p2p_body,
  execute_p2p, bank_row, bank_debit, bank_writes, bank_unless, bank_body, execute_bank_accept,
}
use prestohq_assessment.WithdrawalStore.Rows.{
  by_user_and_key, by_reference, withdrawal_by_id, withdrawal_refusal, create_withdrawal,
  with_withdrawal, find-created, find-created_updated, update_withdrawal_known,
}
use Prim.Native.String.{◌++◌}
use prestohq_assessment.Journal.Keys.{p2p_keys_differ}
use prestohq_assessment.Journal.{by_id, by_key, int4_max, credits, debits}
use prestohq_assessment.WithdrawalStore.P2pEffects.{sent, got, balance-p2p_done}
use prestohq_assessment.WithdrawalStore.BankEffects.{charged, balance-bank_done}
use prestohq_assessment.WithdrawalStore.P2p
use prestohq_assessment.WithdrawalStore.Bank
use prestohq_assessment.Db.{WithdrawalEntity, WalletTransactionEntity, successful, processing}

abbrev pub HasWallet : String → State → Type 0
HasWallet id s = is_some (find (wallet_by_id id) s.wallets) ≡ true

lock_wallet_there : (id : String) (s : State) → HasWallet id s → lock_wallet id s ≡ (ok tt, s)
unfolding lock_wallet
lock_wallet_there id s there = rw there

lock_both :
    (a b : String) (s : State)
    → HasWallet a s
    → HasWallet b s
    → lock_all (sort_wallet_ids (a ∷ b ∷ [])) s ≡ (ok tt, s)
unfolding lock_all sort_wallet_ids insert_sorted
lock_both a b s first second = elim (Bool-cases (is_le (compare a b))) [
  | inl before ↦ rw (before, lock_wallet_there a s first, lock_wallet_there b s second)
  | inr behind ↦ rw (behind, lock_wallet_there b s second, lock_wallet_there a s first)
]

insert_free :
    (d : CreateWalletTransactionData) (s : State)
    → refusal d s ≡ none
    → insert d s ≡ (ok (new_row d s), with_row (new_row d s) s)
unfolding insert
insert_free d s free = rw (free, insert)

create_free :
    (row : State → WithdrawalEntity) (s : State)
    → withdrawal_refusal (row s) s ≡ none
    → create_withdrawal row s ≡ (ok (row s), with_withdrawal (row s) s)
unfolding create_withdrawal
create_free row s free = rw (free, create_withdrawal)

enough_funds :
    (w : String) (n : ℕ) (s : State) → Covers w n s → ltb_ℤ (balance w s.journal) (pos n) ≡ false
enough_funds w n s covered = ground (arith, covered)

never : (ws : List WithdrawalEntity) → find (by_reference none) ws ≡ none
never [] = refl
never (w ∷ ws) = never ws

-- What a P2P request needs in the state that it finds: a key that neither the user's withdrawals nor the
-- journal has, both wallets, the money, an amount that the column holds, and a source of identifiers
-- whose next three are new.
pub record AcceptsP2p (d : ExecuteP2pWithdrawalData) (s : State) : Type 0 where
  pub new_key : find (by_user_and_key d.user_id d.idempotency_key) s.withdrawals ≡ none
  pub new_debit_key :
      find (by_key ("p2p-debit:" ++ d.user_id ++ ":" ++ d.idempotency_key)) s.journal ≡ none
  pub new_credit_key :
      find (by_key ("p2p-credit:" ++ d.user_id ++ ":" ++ d.idempotency_key)) s.journal ≡ none
  pub sender_there : HasWallet d.sender_wallet_id s
  pub destination_there : HasWallet d.destination_wallet_id s
  pub enough : debits d.sender_wallet_id s.journal + d.amount ≤ credits d.sender_wallet_id s.journal
  pub small : d.amount ≤ int4_max
  pub new_id : find (withdrawal_by_id (s.cuid s.next_id)) s.withdrawals ≡ none
  pub new_debit_id : find (by_id (s.cuid (s.next_id + 1))) s.journal ≡ none
  pub new_credit_id : find (by_id (s.cuid (s.next_id + 1 + 1))) s.journal ≡ none
  pub other_id : s.cuid (s.next_id + 1) ≢ s.cuid (s.next_id + 1 + 1)

module _ (d : ExecuteP2pWithdrawalData) (s : State) (a : AcceptsP2p d s) where
  p2p_row_fits : withdrawal_refusal (p2p_row d s) s ≡ none
  p2p_row_fits = ground (arith, a.small, a.new_key, never s.withdrawals, a.new_id)

  p2p_debit_fits : refusal (p2p_debit d (p2p_row d s)) (P2p.after_row d s) ≡ none
  p2p_debit_fits = ground (arith, a.small, a.new_debit_key, a.new_debit_id)

  credit_key_free :
      find (by_key (P2p.got_row d s).idempotency_key) (P2p.after_debit d s).journal ≡ none
  credit_key_free =
      find-append_row-none (by_key (P2p.got_row d s).idempotency_key) s.journal (P2p.paid_row d s)
        a.new_credit_key
      ∙ rw (
          str_eq-false (
            p2p_keys_differ (d.user_id ++ ":" ++ d.idempotency_key)
              (d.user_id ++ ":" ++ d.idempotency_key)))

  credit_id_free : find (by_id (P2p.got_row d s).id) (P2p.after_debit d s).journal ≡ none
  credit_id_free =
      find-append_row-none (by_id (P2p.got_row d s).id) s.journal (P2p.paid_row d s) a.new_credit_id
      ∙ rw (str_eq-false a.other_id)

  p2p_credit_fits : refusal (p2p_credit d (p2p_row d s)) (P2p.after_debit d s) ≡ none
  p2p_credit_fits = ground (arith, a.small, credit_key_free, credit_id_free)

  p2p_writes_pass : p2p_writes d s ≡ (ok (P2p.p2p_result d s), P2p.p2p_done d s)
  unfolding p2p_writes
  p2p_writes_pass = rw (
    create_free (p2p_row d) s p2p_row_fits,
    insert_free (p2p_debit d (p2p_row d s)) (P2p.after_row d s) p2p_debit_fits,
    insert_free (p2p_credit d (p2p_row d s)) (P2p.after_debit d s) p2p_credit_fits,
    update_withdrawal_known (p2p_row d s).id (P2p.links d s)
        (with_row (P2p.got_row d s) (P2p.after_debit d s)) (p2p_row d s)
        (find-created s.withdrawals (p2p_row d s) a.new_id),
  )

  p2p_goes_through : execute_p2p d s ≡ (ok (P2p.p2p_result d s), P2p.p2p_done d s)
  unfolding execute_p2p p2p_body p2p_unless
  p2p_goes_through = rw (
    a.new_key,
    a.new_key,
    lock_both d.sender_wallet_id d.destination_wallet_id s a.sender_there a.destination_there,
    enough_funds d.sender_wallet_id d.amount s a.enough,
    p2p_writes_pass,
  )

-- A P2P request that went through: the amount has moved from one wallet to the other, and the new
-- withdrawal is stored as SUCCESSFUL under the user's key.
abbrev pub PaysP2p : ExecuteP2pWithdrawalData → State → Type 0
PaysP2p d s =
    (r : ExecuteResult) × (s' : State) × (execute_p2p d s ≡ (ok r, s'))
    × (r.created ≡ true)
    × (r.withdrawal.status ≡ successful)
    × (find (by_user_and_key d.user_id d.idempotency_key) s'.withdrawals ≡ some r.withdrawal)
    × ((w : String) → balance w s'.journal ≡ balance w s.journal -ℤ pos (sent d w) +ℤ pos (got d w))

-- A P2P request goes through whenever its keys are new, both wallets exist, the sender's balance covers
-- the amount, the column holds it, and the next three identifiers are new to the tables that get them,
-- those of the two journal rows different: the request succeeds, the amount moves from the sender's
-- balance to the recipient's and no other, and the withdrawal is stored as SUCCESSFUL under the user's
-- key.
pub execute_p2p_accepted : (d : ExecuteP2pWithdrawalData) (s : State) → AcceptsP2p d s → PaysP2p d s
execute_p2p_accepted d s a = (
  P2p.p2p_result d s,
  P2p.p2p_done d s,
  p2p_goes_through d s a,
  refl,
  refl,
  find-created_updated s.withdrawals (p2p_row d s) (P2p.links d s) a.new_id a.new_key,
  balance-p2p_done d s,
)

-- What a bank request needs in the state that it finds: a key that neither the user's withdrawals nor the
-- journal has, a new reference for the provider, the wallet, the money, an amount that the column holds,
-- and a source of identifiers whose next two are new.
pub record AcceptsBank (d : ExecuteBankWithdrawalData) (s : State) : Type 0 where
  pub new_key : find (by_user_and_key d.user_id d.idempotency_key) s.withdrawals ≡ none
  pub new_reference : find (by_reference (some d.provider_reference)) s.withdrawals ≡ none
  pub new_debit_key :
      find (by_key ("bank-debit:" ++ d.user_id ++ ":" ++ d.idempotency_key)) s.journal ≡ none
  pub wallet_there : HasWallet d.wallet_id s
  pub enough : debits d.wallet_id s.journal + d.amount ≤ credits d.wallet_id s.journal
  pub small : d.amount ≤ int4_max
  pub new_id : find (withdrawal_by_id (s.cuid s.next_id)) s.withdrawals ≡ none
  pub new_debit_id : find (by_id (s.cuid (s.next_id + 1))) s.journal ≡ none

module _ (d : ExecuteBankWithdrawalData) (s : State) (a : AcceptsBank d s) where
  bank_row_fits : withdrawal_refusal (bank_row d s) s ≡ none
  bank_row_fits = ground (arith, a.small, a.new_key, a.new_reference, a.new_id)

  bank_debit_fits : refusal (bank_debit d (bank_row d s)) (Bank.after_row d s) ≡ none
  bank_debit_fits = ground (arith, a.small, a.new_debit_key, a.new_debit_id)

  bank_writes_pass : bank_writes d s ≡ (ok (Bank.bank_result d s), Bank.bank_done d s)
  unfolding bank_writes
  bank_writes_pass = rw (
    create_free (bank_row d) s bank_row_fits,
    insert_free (bank_debit d (bank_row d s)) (Bank.after_row d s) bank_debit_fits,
    update_withdrawal_known (bank_row d s).id (Bank.links d s)
        (with_row (Bank.paid_row d s) (Bank.after_row d s)) (bank_row d s)
        (find-created s.withdrawals (bank_row d s) a.new_id),
  )

  bank_goes_through : execute_bank_accept d s ≡ (ok (Bank.bank_result d s), Bank.bank_done d s)
  unfolding execute_bank_accept bank_body bank_unless
  bank_goes_through = rw (
    a.new_key,
    a.new_key,
    lock_wallet_there d.wallet_id s a.wallet_there,
    enough_funds d.wallet_id d.amount s a.enough,
    bank_writes_pass,
  )

-- A bank request that was accepted: the wallet is charged, the new withdrawal is stored as PROCESSING
-- under the user's key, and it names the row of the journal that is its debit.
abbrev pub ChargesBank : ExecuteBankWithdrawalData → State → Type 0
ChargesBank d s =
    (r : ExecuteResult) × (s' : State) × (debit_id : String) × (o : WalletTransactionEntity)
    × (execute_bank_accept d s ≡ (ok r, s'))
    × (r.created ≡ true)
    × (r.withdrawal.status ≡ processing)
    × (find (by_user_and_key d.user_id d.idempotency_key) s'.withdrawals ≡ some r.withdrawal)
    × (r.withdrawal.debit_transaction_id ≡ some debit_id)
    × (find (by_id debit_id) s'.journal ≡ some o)
    × (o.amount ≡ d.amount)
    × ((w : String) → balance w s'.journal ≡ balance w s.journal -ℤ pos (charged d w))

-- A bank request is accepted whenever its keys and its reference for the provider are new, the wallet
-- exists and its balance covers the amount, the column holds it, and the next two identifiers are new
-- to the tables that get them: the wallet's balance, and no other, falls by the amount, and the
-- withdrawal is stored as PROCESSING under the user's key with the identifier of a journal row of that
-- amount.
pub execute_bank_accepted :
    (d : ExecuteBankWithdrawalData) (s : State) → AcceptsBank d s → ChargesBank d s
execute_bank_accepted d s a = (
  Bank.bank_result d s,
  Bank.bank_done d s,
  (Bank.paid_row d s).id,
  Bank.paid_row d s,
  bank_goes_through d s a,
  refl,
  refl,
  find-created_updated s.withdrawals (bank_row d s) (Bank.links d s) a.new_id a.new_key,
  refl,
  find-append_row-none (by_id (Bank.paid_row d s).id) s.journal (Bank.paid_row d s) a.new_debit_id
      ∙ rw (eq_refl (Bank.paid_row d s).id),
  refl,
  balance-bank_done d s,
)
