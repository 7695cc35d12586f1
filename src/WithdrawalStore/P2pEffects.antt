-- ===== src/WithdrawalStore/P2pEffects.antt =====
-- What a P2P withdrawal does to balances: money moves from the sender to the recipient, all of it or
-- none, and only if the sender has it.
use prestohq_assessment.Prelude.{
  ℕ, ◌+◌, ◌≤◌, String, ◌≡◌, refl, inl, inr, Bool, true, false, some, arith, find, str_eq, eq_iff,
  eq_refl, append_row, if◌then◌else◌, sum_by-append_row,
}
use prestohq_assessment.Prelude.Int.{pos, ◌+ℤ◌, ◌-ℤ◌}
use prestohq_assessment.Db.{State, WithdrawalEntity}
use prestohq_assessment.Exec.{Result, ok, err, transaction}
use prestohq_assessment.Journal.{balance, credits, debits}
use prestohq_assessment.Journal.Balance.{
  IsSolvent, unsettled_debit, credits-append_row, debits-append_row,
}
use prestohq_assessment.Ledger.Debits.{Covers}
use prestohq_assessment.WithdrawalStore.{
  ExecuteP2pWithdrawalData, ExecuteResult, p2p_row, p2p_body, execute_p2p, existing_result,
}
use prestohq_assessment.WithdrawalStore.Rows.{by_user_and_key, find-created_updated}
use prestohq_assessment.WithdrawalStore.P2p.{
  paid_row, got_row, links, p2p_done, p2p_result, p2p_transaction-cases, execute_p2p-cases,
}

abbrev pub sent : ExecuteP2pWithdrawalData → String → ℕ
sent d w = if str_eq d.sender_wallet_id w then d.amount else 0

abbrev pub got : ExecuteP2pWithdrawalData → String → ℕ
got d w = if str_eq d.destination_wallet_id w then d.amount else 0

module _ (d : ExecuteP2pWithdrawalData) (s : State) where
  credits-p2p_done : (w : String) → credits w (p2p_done d s).journal ≡ credits w s.journal + got d w
  credits-p2p_done w = ground (
    arith,
    credits-append_row w s.journal (paid_row d s),
    credits-append_row w (append_row s.journal (paid_row d s)) (got_row d s),
  )

  debits-p2p_done : (w : String) → debits w (p2p_done d s).journal ≡ debits w s.journal + sent d w
  debits-p2p_done w = ground (
    arith,
    debits-append_row w s.journal (paid_row d s),
    debits-append_row w (append_row s.journal (paid_row d s)) (got_row d s),
  )

  pub balance-p2p_done :
      (w : String)
      → balance w (p2p_done d s).journal ≡ balance w s.journal -ℤ pos (sent d w) +ℤ pos (got d w)
  unfolding ◌-ℤ◌ ◌+ℤ◌
  balance-p2p_done w = ground (arith, credits-p2p_done w, debits-p2p_done w)

  p2p_done-IsSolvent :
      Covers d.sender_wallet_id d.amount s → IsSolvent s.journal → IsSolvent (p2p_done d s).journal
  p2p_done-IsSolvent enough h = record {
    covered = λ w.
        ground
          (arith, credits-p2p_done w, debits-p2p_done w, eq_iff d.sender_wallet_id w, h.covered w);
    settled = omega (
      arith,
      sum_by-append_row unsettled_debit s.journal (paid_row d s),
      sum_by-append_row unsettled_debit (append_row s.journal (paid_row d s)) (got_row d s),
      h.settled,
    );
  }

  pub p2p_transaction-IsSolvent :
      IsSolvent s.journal → IsSolvent (transaction (p2p_body d) s).1.journal
  p2p_transaction-IsSolvent h = elim (p2p_transaction-cases d s) [
    | inl (e, refused) ↦ rw refused h
    | inr (inl (w, old, _)) ↦ rw old h
    | inr (inr (done, enough, _)) ↦ rw done (p2p_done-IsSolvent enough h)
  ]

-- What a P2P withdrawal may have done, by its result.
abbrev pub Moved : ExecuteP2pWithdrawalData → State → ExecuteResult → State → Bool → Type 0
Moved d s r s' false =
    (s' ≡ s)
    × (find (by_user_and_key d.user_id d.idempotency_key) s.withdrawals ≡ some r.withdrawal)
    × (r.withdrawal.request_body_hash ≡ d.request_body_hash)
Moved d s r s' true =
    (debits d.sender_wallet_id s.journal + d.amount ≤ credits d.sender_wallet_id s.journal)
    × ((w : String) → balance w s'.journal ≡ balance w s.journal -ℤ pos (sent d w) +ℤ pos (got d w))

abbrev pub P2pOutcome : ExecuteP2pWithdrawalData → State → Result ExecuteResult × State → Type 0
P2pOutcome d s (err e, s') = s' ≡ s
P2pOutcome d s (ok r, s') = Moved d s r s' r.created

-- `executeP2p` is atomic: it fails and changes nothing; or replays the withdrawal that has the user's
-- key and the same body hash, and changes nothing; or takes the amount, which was there, from the
-- sender's balance and adds it to the recipient's, and leaves every other balance alone.
pub execute_p2p-P2pOutcome :
    (d : ExecuteP2pWithdrawalData) (s : State) → P2pOutcome d s (execute_p2p d s)
execute_p2p-P2pOutcome d s = elim (execute_p2p-cases d s) [
  | inl (e, refused) ↦ rw refused
  | inr (inl (w, old, found, same)) ↦ rw old (refl, found, (eq_iff _ _).0 same)
  | inr (inr (done, enough, _)) ↦ rw done (enough, balance-p2p_done d s)
]

abbrev Retries : ExecuteP2pWithdrawalData → Result ExecuteResult × State → Type 0
Retries d (err e, s') = Unit
Retries d (ok r, s') = execute_p2p d s' ≡ (ok (existing_result r.withdrawal), s')

execute_p2p_known :
    (d : ExecuteP2pWithdrawalData) (s : State) (w : WithdrawalEntity)
    → find (by_user_and_key d.user_id d.idempotency_key) s.withdrawals ≡ some w
    → str_eq w.request_body_hash d.request_body_hash ≡ true
    → execute_p2p d s ≡ (ok (existing_result w), s)
unfolding execute_p2p
execute_p2p_known d s w found same = rw (found, same)

execute_p2p-Retries : (d : ExecuteP2pWithdrawalData) (s : State) → Retries d (execute_p2p d s)
execute_p2p-Retries d s = elim (execute_p2p-cases d s) [
  | inl (e, refused) ↦ rw refused tt
  | inr (inl (w, old, found, same)) ↦ rw old old
  | inr (inr (done, enough, fresh)) ↦ rw done (
      execute_p2p_known d (p2p_done d s) (p2p_result d s).withdrawal
        (find-created_updated s.withdrawals (p2p_row d s) (links d s) fresh.new_id fresh.new_key)
        (eq_refl d.request_body_hash))
]

-- A request repeated with its key and body after it went through is answered with the withdrawal that
-- it made, and moves nothing more.
pub execute_p2p_retry :
    (d : ExecuteP2pWithdrawalData) (s : State) (r : ExecuteResult) (s' : State)
    → execute_p2p d s ≡ (ok r, s')
    → execute_p2p d s' ≡ (ok (existing_result r.withdrawal), s')
execute_p2p_retry d s r s' h = rw h at (execute_p2p-Retries d s)
