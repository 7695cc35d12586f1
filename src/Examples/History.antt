-- ===== src/Examples/History.antt =====
-- The theorems on the journal's rows and on reading them, at concrete requests.
use prestohq_assessment.Prelude.{
  String, ◌≡◌, refl, none, some, [], ◌∷◌, ◌++◌, str_eq, eq_refl, if◌then◌else◌, find, arith, ◌≤◌,
}
use prestohq_assessment.Prelude.Lists.{take}
use prestohq_assessment.Db.{State, WalletTransactionEntity}
use prestohq_assessment.Journal.{Rows, by_id}
use prestohq_assessment.WalletReads.{
  PageQuery, history, newest_first, insert_newest, comes_first, list_by_wallet_id,
}
use prestohq_assessment.WalletReads.Paging.{
  IsPageQuery, IsBounded, read_all, list_by_wallet_id-IsBounded,
}
use prestohq_assessment.Journal.Trail.{Extends}
use prestohq_assessment.Provider.{bank_failed}
use prestohq_assessment.System.{Operation, payout_job, Reachable, start, after, perform}
use prestohq_assessment.System.History.{
  IsKeyed, sums_exact-reachable, journal_only_grows, read_all-reachable,
}
use prestohq_assessment.System.Interleaving.{stop, then_pending, interleaved_never_overdrawn}
use prestohq_assessment.Exec.{err, transaction}
use prestohq_assessment.Journal.{credits, debits}
use prestohq_assessment.Ledger.{pending_body}
use prestohq_assessment.System.Limits.{large_withdrawals_fail}
use prestohq_assessment.Errors.{Error}
use prestohq_assessment.WithdrawalStore.{
  ExecuteP2pWithdrawalData, ExecuteBankWithdrawalData, execute_p2p, execute_bank_accept,
}
use prestohq_assessment.Examples.Data.{
  bank_request, p2p_request, state, provider, empty_state, environment, pending_input, bob_wallet,
}

abbrev behind_cursor : String → Rows → Rows
behind_cursor c [] = []
behind_cursor c (r ∷ rows) = let rest = behind_cursor c rows in if str_eq r.id c then rows else rest

abbrev query : PageQuery
query = record {
  find_many =
      λ rows cursor n. elim cursor [ none ↦ take n rows | some c ↦ take n (behind_cursor c rows) ];
}

behind_cursor-append :
    (before behind : Rows) (r : WalletTransactionEntity)
    → find (by_id r.id) before ≡ none
    → behind_cursor r.id (before ++ r ∷ behind) ≡ behind
behind_cursor-append [] behind r e = rw (eq_refl r.id) refl
behind_cursor-append (q ∷ before) behind r e = ground (arith, behind_cursor-append before behind r)

query-IsPageQuery : IsPageQuery query
query-IsPageQuery = record {
  from_start = λ rows n. refl;
  from_cursor = λ before behind r n e. rw (behind_cursor-append before behind r e) refl;
}

state-IsKeyed : IsKeyed state.journal
state-IsKeyed = record { ids = (refl, (refl, (refl, tt))); keys = (refl, (refl, (refl, tt))) }

-- The provider refuses the payout, which is refunded.
abbrev refused_payout : Operation
refused_payout =
    payout_job (provider bank_failed) (record { name = "payout"; subject = "d1"; job_id = "j" })

abbrev later : State
later = perform environment refused_payout state

abbrev reached : Reachable environment state later
reached = after start refused_payout

read_all-reachable_example : read_all query "w1" (some 1) 9 none state ≡ history "w1" state.journal
unfolding history newest_first insert_newest comes_first
read_all-reachable_example =
    read_all-reachable environment state state query "w1" (some 1) 9 state-IsKeyed start
      query-IsPageQuery (omega arith)

journal_only_grows_example : Extends state.journal later.journal
journal_only_grows_example = journal_only_grows environment state later reached

sums_exact-reachable_example :
    (credits "w1" state.journal ≤ 9007199254740991) × (debits "w1" state.journal ≤ 9007199254740991)
sums_exact-reachable_example =
    sums_exact-reachable environment state state "w1"
      (omega arith, (omega arith, (omega arith, tt))) start (omega arith)

list_by_wallet_id-IsBounded_example :
    IsBounded
      (some 1)
      (list_by_wallet_id query (record { wallet_id = "w1"; limit = some 1; cursor = none }) state)
list_by_wallet_id-IsBounded_example =
    list_by_wallet_id-IsBounded query (record { wallet_id = "w1"; limit = some 1; cursor = none })
      state

-- Bob's wallet, and a journal that is empty yet
abbrev opened : State
opened = record empty_state { wallets = bob_wallet ∷ [] }

interleaved_never_overdrawn_example :
    debits "w2" (transaction (pending_body pending_input) opened).1.journal
    ≤ credits "w2" (transaction (pending_body pending_input) opened).1.journal
interleaved_never_overdrawn_example =
    interleaved_never_overdrawn "w2" (transaction (pending_body pending_input) opened).1.journal
      (then_pending opened pending_input stop)

abbrev large_p2p : ExecuteP2pWithdrawalData
large_p2p = record p2p_request { amount = 3000000000 }

abbrev large_bank : ExecuteBankWithdrawalData
large_bank = record bank_request { amount = 3000000000 }

large_withdrawals_fail_example :
    ((e : Error) × (execute_p2p large_p2p state ≡ (err e, state)))
    × ((e : Error) × (execute_bank_accept large_bank state ≡ (err e, state)))
large_withdrawals_fail_example =
    large_withdrawals_fail state large_p2p large_bank
      (omega arith, (omega arith, (omega arith, tt))) (omega arith) refl (omega arith) refl
