-- ===== src/WithdrawalStore/Writes.antt =====
-- What the writes to the journal keep, the transactions of a withdrawal keep, and so all of them.
use prestohq_assessment.Prelude.{String, inl, inr, Option, none, some, List, [], ◌∷◌, find}
use prestohq_assessment.Prelude.Int.{pos, ltb_ℤ}
use prestohq_assessment.Db.{State, WithdrawalEntity}
use prestohq_assessment.Keeping.{Keeps, bind-Keeps, then-Keeps, guard-Keeps, transaction-Keeps}
use prestohq_assessment.Journal.{Rows, insert, lock_wallet, balance}
use prestohq_assessment.Journal.Balance.{InJournal}
use prestohq_assessment.Ledger.{
  insufficient, debit_body, debit_data, pending_body, pending_data, reversal_body, reversal_data,
}
use prestohq_assessment.Ledger.Writes.{
  Insertable, IsKeptByWrites, insert-Keeps, lock-Keeps, debit_body-Keeps, pending_body-Keeps,
  reversal_body-Keeps, complete-Keeps,
}
use prestohq_assessment.WithdrawalStore.Rows.{
  UpdateWithdrawalProviderData, by_user_and_key, create_withdrawal, create_withdrawal-cases,
  update_withdrawal, update_withdrawal-cases,
}
use prestohq_assessment.WithdrawalStore.{
  ExecuteP2pWithdrawalData, ExecuteBankWithdrawalData, lock_all, sort_wallet_ids, p2p_row,
  p2p_debit, p2p_credit, p2p_writes, p2p_unless, p2p_body, bank_row, bank_debit, bank_writes,
  bank_unless, bank_body,
}
use prestohq_assessment.WithdrawalStore.Transactions.{IsKept}

module _ (Q : Rows → Type 0) where
  create_withdrawal-Keeps :
      (row : State → WithdrawalEntity) → Keeps (InJournal Q) (create_withdrawal row)
  create_withdrawal-Keeps row s h = elim (create_withdrawal-cases row s) [
    | inl (e, refused) ↦ rw refused h
    | inr (made, _, _) ↦ rw made h
  ]

  pub update_withdrawal-Keeps :
      (id : String) (d : UpdateWithdrawalProviderData)
      → Keeps (InJournal Q) (update_withdrawal id d)
  update_withdrawal-Keeps id d s h = elim (update_withdrawal-cases id d s) [
    | inl absent ↦ rw absent h
    | inr (w, done, _) ↦ rw done h
  ]

  module _ (d : ExecuteBankWithdrawalData)
      (safe : (w : WithdrawalEntity) → Insertable Q (bank_debit d w)) where
    bank_writes-Keeps : Keeps (InJournal Q) (bank_writes d)
    unfolding bank_writes
    bank_writes-Keeps =
        bind-Keeps (InJournal Q) (create_withdrawal (bank_row d)) _
          (create_withdrawal-Keeps (bank_row d))
          (λ w.
            bind-Keeps (InJournal Q) (insert (bank_debit d w)) _
              (insert-Keeps Q (bank_debit d w) (safe w))
              (λ paid.
                bind-Keeps (InJournal Q) (update_withdrawal w.id _) _
                  (update_withdrawal-Keeps w.id _) (λ updated s h. h)))

    bank_unless-Keeps : (o : Option WithdrawalEntity) → Keeps (InJournal Q) (bank_unless d o)
    unfolding bank_unless
    bank_unless-Keeps none =
        then-Keeps (InJournal Q) (lock_wallet d.wallet_id) _ (lock-Keeps Q d.wallet_id) (λ s h.
          guard-Keeps (InJournal Q) (ltb_ℤ (balance d.wallet_id s.journal) (pos d.amount))
            insufficient _ bank_writes-Keeps s h)
    bank_unless-Keeps (some w) = λ s h. h

    pub bank_body-Keeps : Keeps (InJournal Q) (bank_body d)
    unfolding bank_body
    bank_body-Keeps = λ s h.
        bank_unless-Keeps (find (by_user_and_key d.user_id d.idempotency_key) s.withdrawals) s h

  module _ (kept : IsKeptByWrites Q) where
    lock_all-Keeps : (ids : List String) → Keeps (InJournal Q) (lock_all ids)
    unfolding lock_all
    lock_all-Keeps [] = λ s h. h
    lock_all-Keeps (id ∷ ids) =
        then-Keeps (InJournal Q) (lock_wallet id) _ (lock-Keeps Q id) (lock_all-Keeps ids)

    p2p_writes-Keeps : (d : ExecuteP2pWithdrawalData) → Keeps (InJournal Q) (p2p_writes d)
    unfolding p2p_writes
    p2p_writes-Keeps d =
        bind-Keeps (InJournal Q) (create_withdrawal (p2p_row d)) _
          (create_withdrawal-Keeps (p2p_row d))
          (λ w.
            bind-Keeps (InJournal Q) (insert (p2p_debit d w)) _
              (insert-Keeps Q (p2p_debit d w) (kept.inserted (p2p_debit d w)))
              (λ paid.
                bind-Keeps (InJournal Q) (insert (p2p_credit d w)) _
                  (insert-Keeps Q (p2p_credit d w) (kept.inserted (p2p_credit d w)))
                  (λ got.
                    bind-Keeps (InJournal Q) (update_withdrawal w.id _) _
                      (update_withdrawal-Keeps w.id _) (λ updated s h. h))))

    p2p_unless-Keeps :
        (d : ExecuteP2pWithdrawalData) (o : Option WithdrawalEntity)
        → Keeps (InJournal Q) (p2p_unless d o)
    unfolding p2p_unless
    p2p_unless-Keeps d none =
        then-Keeps (InJournal Q)
          (lock_all (sort_wallet_ids (d.sender_wallet_id ∷ d.destination_wallet_id ∷ []))) _
          (lock_all-Keeps (sort_wallet_ids (d.sender_wallet_id ∷ d.destination_wallet_id ∷ [])))
          (λ s h.
            guard-Keeps (InJournal Q) (ltb_ℤ (balance d.sender_wallet_id s.journal) (pos d.amount))
              insufficient _ (p2p_writes-Keeps d) s h)
    p2p_unless-Keeps d (some w) = λ s h. h

    p2p_body-Keeps : (d : ExecuteP2pWithdrawalData) → Keeps (InJournal Q) (p2p_body d)
    unfolding p2p_body
    p2p_body-Keeps d = λ s h.
        p2p_unless-Keeps d (find (by_user_and_key d.user_id d.idempotency_key) s.withdrawals) s h

    -- What an insertion and a completion keep, every transaction keeps.
    pub IsKeptByWrites-IsKept : IsKept Q
    IsKeptByWrites-IsKept = record {
      pending = λ i.
          transaction-Keeps (InJournal Q) (pending_body i)
            (pending_body-Keeps Q i (kept.inserted (pending_data i)));
      debit = λ i.
          transaction-Keeps (InJournal Q) (debit_body i)
            (debit_body-Keeps Q i (kept.inserted (debit_data i)));
      complete = λ i. complete-Keeps Q i kept.completed;
      reversal = λ i.
          transaction-Keeps (InJournal Q) (reversal_body i)
            (reversal_body-Keeps Q i (kept.inserted (reversal_data i)));
      p2p = λ d. transaction-Keeps (InJournal Q) (p2p_body d) (p2p_body-Keeps d);
      bank = λ d.
          transaction-Keeps (InJournal Q) (bank_body d)
            (bank_body-Keeps d (λ w. kept.inserted (bank_debit d w)));
    }
