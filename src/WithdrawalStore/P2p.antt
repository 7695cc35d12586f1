-- ===== src/WithdrawalStore/P2p.antt =====
-- `executeP2p` of prisma-withdrawal.repository.ts: its outcomes, and what they do to balances.
use prestohq_assessment.Prelude.{
  String, ◌≡◌, refl, ◌⊎◌, inl, inr, true, none, some, List, [], ◌∷◌, Bool-cases, Option-cases, find,
  str_eq,
}
use prestohq_assessment.Prelude.Int.{pos, ltb_ℤ, ltb_ℤ_sub}
use prestohq_assessment.Errors.{Error}
use prestohq_assessment.Db.{State, WithdrawalEntity, WalletTransactionEntity}
use prestohq_assessment.Exec.{ok, err, transaction}
use prestohq_assessment.Journal.{balance, credits, debits, new_row, with_row}
use prestohq_assessment.Journal.Balance.{lock_wallet-cases, insert-cases}
use prestohq_assessment.Ledger.{insufficient}
use prestohq_assessment.Ledger.Debits.{Covers}
use prestohq_assessment.WithdrawalStore.Rows.{
  UpdateWithdrawalProviderData, no_change, with_withdrawal, with_update, apply_update,
  by_user_and_key, create_withdrawal-cases, update_withdrawal_known, withdrawal_by_id, find-created,
}
use prestohq_assessment.WithdrawalStore.{
  ExecuteP2pWithdrawalData, ExecuteResult, existing_result, lock_all, sort_wallet_ids, p2p_row,
  p2p_debit, p2p_credit, p2p_writes, p2p_unless, p2p_body, execute_p2p, rethrow_missing, key_reused,
}

pub lock_all-cases :
    (ids : List String) (s : State)
    → ((e : Error) × (lock_all ids s ≡ (err e, s))) ⊎ (lock_all ids s ≡ (ok tt, s))
unfolding lock_all
lock_all-cases [] s = inr refl
lock_all-cases (id ∷ ids) s = elim (lock_wallet-cases id s) [
  | inl (e, absent) ↦ inl (e, rw absent)
  | inr there ↦ elim (lock_all-cases ids s) [
    | inl (e, absent) ↦ inl (e, rw (there, absent))
    | inr all ↦ inr (rw (there, all))
  ]
]

module _ (d : ExecuteP2pWithdrawalData) (s : State) where
  -- The rows that a new withdrawal writes, and the states between the writes.
  abbrev pub after_row : State
  after_row = with_withdrawal (p2p_row d s) s

  abbrev pub paid_row : WalletTransactionEntity
  paid_row = new_row (p2p_debit d (p2p_row d s)) after_row

  abbrev pub after_debit : State
  after_debit = with_row paid_row after_row

  abbrev pub got_row : WalletTransactionEntity
  got_row = new_row (p2p_credit d (p2p_row d s)) after_debit

  abbrev pub links : UpdateWithdrawalProviderData
  links = record no_change {
    debit_transaction_id = some (some paid_row.id);
    credit_transaction_id = some (some got_row.id);
  }

  abbrev pub p2p_done : State
  p2p_done = with_update (p2p_row d s).id links (with_row got_row after_debit)

  abbrev pub p2p_result : ExecuteResult
  p2p_result = record { withdrawal = apply_update links (p2p_row d s); created = true }

  -- What a success found free: the user's key and the identifier.
  pub record Fresh : Type 0 where
    pub new_key : find (by_user_and_key d.user_id d.idempotency_key) s.withdrawals ≡ none
    pub new_id : find (withdrawal_by_id (p2p_row d s).id) s.withdrawals ≡ none

  p2p_writes-cases :
      ((e : Error) × (s' : State) × (p2p_writes d s ≡ (err e, s')))
      ⊎ ((p2p_writes d s ≡ (ok p2p_result, p2p_done)) × Fresh)
  unfolding p2p_writes
  p2p_writes-cases = elim (create_withdrawal-cases (p2p_row d) s) [
    | inl (e, refused) ↦ inl (e, s, rw refused)
    | inr (made, new_key, new_id) ↦ elim (insert-cases (p2p_debit d (p2p_row d s)) after_row) [
      | inl (e, refused) ↦ inl (e, after_row, rw (made, refused))
      | inr (paid, _, _) ↦ elim (insert-cases (p2p_credit d (p2p_row d s)) after_debit) [
        | inl (e, refused) ↦ inl (e, after_debit, rw (made, paid, refused))
        | inr (got, _, _) ↦ inr (
          rw (
            made,
            paid,
            got,
            update_withdrawal_known (p2p_row d s).id links (with_row got_row after_debit)
                (p2p_row d s) (find-created s.withdrawals (p2p_row d s) new_id),
          ),
          record { new_key = new_key; new_id = new_id },
        )
      ]
    ]
  ]

  p2p_unless-cases :
      ((e : Error) × (s' : State) × (p2p_unless d none s ≡ (err e, s')))
      ⊎ ((p2p_unless d none s ≡ (ok p2p_result, p2p_done))
          × Covers d.sender_wallet_id d.amount s
          × Fresh)
  unfolding p2p_unless
  p2p_unless-cases =
      elim (lock_all-cases (sort_wallet_ids (d.sender_wallet_id ∷ d.destination_wallet_id ∷ []))
        s) [
          | inl (e, absent) ↦ inl (e, s, rw absent)
          | inr there ↦
              elim (Bool-cases (ltb_ℤ (balance d.sender_wallet_id s.journal) (pos d.amount))) [
                | inl short ↦ inl (insufficient, s, rw (there, short))
                | inr enough ↦ elim p2p_writes-cases [
                  | inl (e, s', refused) ↦ inl (e, s', rw (there, enough, refused))
                  | inr (done, fresh) ↦ inr (
                    rw (there, enough, done),
                    ltb_ℤ_sub (credits d.sender_wallet_id s.journal)
                        (debits d.sender_wallet_id s.journal) d.amount enough,
                    fresh,
                  )
                ]
              ]
        ]

  p2p_replay : (w : WithdrawalEntity) → p2p_unless d (some w) s ≡ (ok (existing_result w), s)
  unfolding p2p_unless
  p2p_replay w = refl

  -- The transaction on its own: on any state, rolled back, replayed or done.
  pub p2p_transaction-cases :
      ((e : Error) × (transaction (p2p_body d) s ≡ (err e, s)))
      ⊎ (((w : WithdrawalEntity) × (transaction (p2p_body d) s ≡ (ok (existing_result w), s))
            × (find (by_user_and_key d.user_id d.idempotency_key) s.withdrawals ≡ some w))
          ⊎ ((transaction (p2p_body d) s ≡ (ok p2p_result, p2p_done))
              × Covers d.sender_wallet_id d.amount s
              × Fresh))
  unfolding p2p_body
  p2p_transaction-cases =
      elim (Option-cases (find (by_user_and_key d.user_id d.idempotency_key) s.withdrawals)) [
        | inr (w, found) ↦ inr (inl (w, rw (found, p2p_replay w), found))
        | inl new ↦ elim p2p_unless-cases [
          | inl (e, s', refused) ↦ inl (e, rw (new, refused))
          | inr (done, covered, fresh) ↦ inr (inr (rw (new, done), covered, fresh))
        ]
      ]

  abbrev Known : WithdrawalEntity → Type 0
  Known w = find (by_user_and_key d.user_id d.idempotency_key) s.withdrawals ≡ some w

  -- The three outcomes of `executeP2p`.
  pub execute_p2p-cases :
      ((e : Error) × (execute_p2p d s ≡ (err e, s)))
      ⊎ (((w : WithdrawalEntity) × (execute_p2p d s ≡ (ok (existing_result w), s))
            × Known w
            × (str_eq w.request_body_hash d.request_body_hash ≡ true))
          ⊎ ((execute_p2p d s ≡ (ok p2p_result, p2p_done))
              × Covers d.sender_wallet_id d.amount s
              × Fresh))
  unfolding execute_p2p
  execute_p2p-cases =
      elim (Option-cases (find (by_user_and_key d.user_id d.idempotency_key) s.withdrawals)) [
        | inr (w, found) ↦ elim (Bool-cases (str_eq w.request_body_hash d.request_body_hash)) [
          | inl same ↦ inr (inl (w, rw (found, same), found, same))
          | inr other ↦ inl (key_reused, rw (found, other))
        ]
        | inl new ↦ elim p2p_transaction-cases [
          | inl (e, refused) ↦ inl (rethrow_missing e, rw (new, refused))
          | inr (inl (w, done, found)) ↦ absurd (cc (new, found))
          | inr (inr (done, covered, fresh)) ↦ inr (inr (rw (new, done), covered, fresh))
        ]
      ]
