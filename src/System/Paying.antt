-- ===== src/System/Paying.antt =====
-- A withdrawal request keeps what the database transactions keep.
use Prim.Native.String.{◌++◌}
use prestohq_assessment.Prelude.{List, String, not, ◌||◌, find, str_eq}
use prestohq_assessment.Prelude.Text.{truthy, remove_dashes, slice_to}
use prestohq_assessment.Db.{
  WithdrawalEntity, WalletEntity, WithdrawalDestinationType, to_wallet, to_bank,
}
use prestohq_assessment.Exec.{when}
use prestohq_assessment.Keeping.{
  Keeps, bind-Keeps, then-Keeps, when-Keeps, guard-Keeps, require-Keeps,
}
use prestohq_assessment.Journal.{Rows}
use prestohq_assessment.Journal.Balance.{InTables}
use prestohq_assessment.UserStore.{user_by_username, wallet_by_user}
use prestohq_assessment.WithdrawalStore.{execute_p2p, execute_bank_accept}
use prestohq_assessment.WithdrawalStore.Transactions.{IsKeptByRequests}
use prestohq_assessment.WithdrawalStore.Operations.{execute_p2p-Keeps, execute_bank-Keeps}
use prestohq_assessment.Environment.{Environment, Actor}
use prestohq_assessment.Auth.{verify_pin}
use prestohq_assessment.Withdrawals.{
  CreateWithdrawalDto, currency_of, recipient_of, blank, trimmed, is_active, p2p_data, bank_data,
  enqueue_payout, create_p2p, create_bank, create_to, create,
}
use prestohq_assessment.System.Accounts.{verify_pin-Keeps}

module _ (Q : Rows → List WithdrawalEntity → Type 0) (kept : IsKeptByRequests Q) where
  module _ (env : Environment) (actor : Actor) (dto : CreateWithdrawalDto) (key : String) where
    create_p2p-Keeps : Keeps (InTables Q) (create_p2p env actor dto key)
    unfolding create_p2p
    create_p2p-Keeps = guard-Keeps (InTables Q) (not (str_eq (currency_of dto) "NGN")) _ _ (
        guard-Keeps (InTables Q) (blank dto.recipient_username) _ _ (λ s h.
          require-Keeps (InTables Q) (find (wallet_by_user actor.user_id) s.wallets) _ _
            (λ sender s h.
              require-Keeps (InTables Q) (find (user_by_username (recipient_of dto)) s.users) _ _
                (λ u. guard-Keeps (InTables Q) (str_eq u.id actor.user_id) _ _ (λ s h.
                  require-Keeps (InTables Q) (find (wallet_by_user u.id) s.wallets) _ _
                    (λ destination.
                      guard-Keeps (InTables Q)
                        (not (is_active destination.status) || not (is_active sender.status)) _ _
                        (bind-Keeps (InTables Q)
                          (execute_p2p (p2p_data env actor dto key sender destination)) _
                          (execute_p2p-Keeps Q kept (p2p_data env actor dto key sender destination))
                          (λ _ s h. h)))
                    s h))
                s h)
            s h))

    accepted-Keeps :
        (w : WalletEntity) (provider_reference : String)
        → Keeps
            (InTables Q)
            (execute_bank_accept (bank_data env actor dto key w.id provider_reference))
    accepted-Keeps w provider_reference =
        execute_bank-Keeps Q kept (bank_data env actor dto key w.id provider_reference)

    create_bank-Keeps : Keeps (InTables Q) (create_bank env actor dto key)
    unfolding create_bank
    create_bank-Keeps = guard-Keeps (InTables Q) (not (str_eq (currency_of dto) "NGN")) _ _ (
        guard-Keeps (InTables Q)
          (not (truthy (trimmed dto.bank_code))
            || not (truthy (trimmed dto.account_number))
            || not (truthy (trimmed dto.account_name)))
          _ _
          (λ s h.
            require-Keeps (InTables Q) (find (wallet_by_user actor.user_id) s.wallets) _ _
              (λ w. guard-Keeps (InTables Q) (not (is_active w.status)) _ _ (λ s h.
                bind-Keeps (InTables Q)
                  (execute_bank_accept (
                    bank_data env actor dto key w.id (
                      "wd_"
                      ++ slice_to 8 actor.user_id
                      ++ "_"
                      ++ remove_dashes (s.random_uuid s.next_uuid))))
                  _ (accepted-Keeps w _)
                  (λ result s h.
                    then-Keeps (InTables Q)
                      (when result.created (enqueue_payout result.withdrawal.id)) _
                      (when-Keeps (InTables Q) result.created (enqueue_payout result.withdrawal.id)
                        (λ s h. h))
                      (λ s h. h) s h)
                  _ h))
              s h))

    create_to-Keeps :
        (b : WithdrawalDestinationType) → Keeps (InTables Q) (create_to b env actor dto key)
    create_to-Keeps to_wallet = create_p2p-Keeps
    create_to-Keeps to_bank = create_bank-Keeps

    pub create_withdrawal_request-Keeps : Keeps (InTables Q) (create env actor dto key)
    unfolding create
    create_withdrawal_request-Keeps =
        then-Keeps (InTables Q) (verify_pin env actor.user_id dto.pin) _
          (verify_pin-Keeps Q env actor.user_id dto.pin) (create_to-Keeps dto.destination_type)
