-- ===== src/Examples.antt =====
-- The theorems at concrete states and requests.
pub mod Data
mod History
pub mod Requests
mod Live
mod Settings
mod Story
use prestohq_assessment.Prelude.{
  ℕ, ◌+◌, ◌≤◌, ◌≡◌, ◌≢◌, refl, inl, some, none, false, true, String, arith, eq_iff,
}
use prestohq_assessment.Prelude.Int.{pos, ◌+ℤ◌, ◌-ℤ◌}
use prestohq_assessment.Db.{State, tx_successful}
use prestohq_assessment.Errors.{still_pending}
use prestohq_assessment.Exec.{ok, err}
use prestohq_assessment.Journal.{
  credits, debits, balance, lock_wallet, insert, update_status, new_row, with_row, set_status,
}
use prestohq_assessment.Journal.Balance.{IsSolvent}
use prestohq_assessment.Ledger.{
  replayed, debit_data, debit_body, debit_unless, reversal_data, check_original, reversal_body,
  reversal_unless, complete_body, complete_in, post_debit_successful, post_reversal_credit,
  post_credit_pending, complete_credit_successful,
}
use prestohq_assessment.Ledger.Debits.{posted}
use prestohq_assessment.Ledger.Reversals.{post_reversal_retry}
use prestohq_assessment.Ledger.Credits.{balance-post_pending}
use prestohq_assessment.Ledger.Completion.{
  CompletionOutcome, completed, settled_result, complete-CompletionOutcome,
}
use prestohq_assessment.Ledger.Recompletion.{complete_retry, complete_accepted}
use prestohq_assessment.WithdrawalStore.{
  existing_result, key_reused, execute_p2p, p2p_body, p2p_unless, p2p_writes, lock_all,
  sort_wallet_ids, execute_bank_accept, bank_body, bank_unless, bank_writes,
}
use prestohq_assessment.WithdrawalStore.P2p.{p2p_done, p2p_result}
use prestohq_assessment.Journal.Books.{total}
use prestohq_assessment.WithdrawalStore.P2pEffects.{
  P2pOutcome, execute_p2p-P2pOutcome, execute_p2p_retry,
}
use prestohq_assessment.WithdrawalStore.BankEffects.{
  BankOutcome, execute_bank-BankOutcome, execute_bank_retry,
}
use prestohq_assessment.WithdrawalStore.Bank.{bank_done, bank_result}
use prestohq_assessment.WithdrawalStore.Rows.{create_withdrawal, update_withdrawal}
use prestohq_assessment.Provider.{bank_pending}
use prestohq_assessment.Auth.Credential.{too_many_attempts, invalid_pin, verify_pin_or_throw}
use prestohq_assessment.Auth.Machine.{Implements, verify_pin-Implements}
use prestohq_assessment.Auth.Lockout.{HasPin, attempt, wait, three_wrong_pins_lock}
use prestohq_assessment.System.{perform, Reachable, start, after, post_register, payout_job}
use prestohq_assessment.System.Reach.{never_overdrawn}
use prestohq_assessment.Examples.Data.{
  expected, ada, locked_ada, state, locked_state, empty_state, debit_input, reversal_input,
  pending_input, complete_input, p2p_request, bank_request, environment, register_dto,
}

state-IsSolvent : IsSolvent state.journal
unfolding debits credits
state-IsSolvent = record { covered = λ w. ground arith; settled = refl }

complete-CompletionOutcome_example :
    CompletionOutcome complete_input state (complete_credit_successful complete_input state)
complete-CompletionOutcome_example = complete-CompletionOutcome complete_input state state-IsSolvent

execute_p2p-P2pOutcome_example : P2pOutcome p2p_request state (execute_p2p p2p_request state)
execute_p2p-P2pOutcome_example = execute_p2p-P2pOutcome p2p_request state

execute_bank-BankOutcome_example :
    BankOutcome bank_request state (execute_bank_accept bank_request state)
execute_bank-BankOutcome_example = execute_bank-BankOutcome bank_request state

ada-HasPin : HasPin state ada "1234!"
ada-HasPin = record { stored = refl; set = refl }

locked_ada-HasPin : HasPin locked_state locked_ada "1234!"
locked_ada-HasPin = record { stored = refl; set = refl }

verify_pin-Implements_example : Implements environment locked_state locked_ada "1234!" "1234"
verify_pin-Implements_example =
    verify_pin-Implements environment locked_state locked_ada "1234!" "1234" locked_ada-HasPin

abbrev locked_out : State
locked_out =
    attempt environment "u1" 7 "0002"
      (attempt environment "u1" 6 "0001" (attempt environment "u1" 5 "0000" state))

three_wrong_pins_lock_example :
    verify_pin_or_throw environment "u1" "1234" (wait 299999 locked_out) ≡ (
      err (too_many_attempts (some (locked_out.now + 300000)) (locked_out.now + 299999)),
      wait 299999 locked_out,
    )
three_wrong_pins_lock_example =
    three_wrong_pins_lock environment ada "1234!" state 5 6 7 299999 "0000" "0001" "0002" "1234"
      ada-HasPin refl refl refl (omega arith)

p2p_goes_through :
    execute_p2p p2p_request state ≡ (ok (p2p_result p2p_request state), p2p_done p2p_request state)
unfolding execute_p2p p2p_body p2p_unless p2p_writes lock_all sort_wallet_ids lock_wallet
    create_withdrawal insert update_withdrawal credits debits
p2p_goes_through = refl

execute_p2p_retry_example :
    execute_p2p p2p_request (p2p_done p2p_request state)
    ≡ (ok (existing_result (p2p_result p2p_request state).withdrawal), p2p_done p2p_request state)
execute_p2p_retry_example =
    execute_p2p_retry p2p_request state (p2p_result p2p_request state) (p2p_done p2p_request state)
      p2p_goes_through

bank_goes_through :
    execute_bank_accept bank_request state
    ≡ (ok (bank_result bank_request state), bank_done bank_request state)
unfolding execute_bank_accept bank_body bank_unless bank_writes lock_wallet create_withdrawal insert
    update_withdrawal credits debits
bank_goes_through = refl

abbrev debited : State
debited = with_row (new_row (debit_data debit_input) state) state

debit_goes_through :
    post_debit_successful debit_input state ≡ (ok (posted (debit_data debit_input) state), debited)
unfolding post_debit_successful debit_body debit_unless lock_wallet insert credits debits
debit_goes_through = refl

abbrev refunded : State
refunded = with_row (new_row (reversal_data reversal_input) state) state

reversal_goes_through :
    post_reversal_credit reversal_input state
    ≡ (ok (posted (reversal_data reversal_input) state), refunded)
unfolding post_reversal_credit check_original reversal_body reversal_unless lock_wallet insert
    credits debits
reversal_goes_through = refl

completion_goes_through : complete_credit_successful complete_input state ≡ (
  ok (settled_result (set_status tx_successful expected) true (completed "t2" state)),
  completed "t2" state,
)
unfolding complete_credit_successful complete_body complete_in lock_wallet update_status credits
    debits
completion_goes_through = refl

complete_retry_example : complete_credit_successful complete_input (completed "t2" state) ≡ (
  ok (settled_result (set_status tx_successful expected) false (completed "t2" state)),
  completed "t2" state,
)
complete_retry_example =
    complete_retry complete_input state
      (settled_result (set_status tx_successful expected) true (completed "t2" state))
      (completed "t2" state) completion_goes_through
