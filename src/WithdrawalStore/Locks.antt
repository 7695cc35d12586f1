-- ===== src/WithdrawalStore/Locks.antt =====
-- The locks of several wallets: `sortWalletIds` of src/database/prisma/ledger-lock.util.ts, and the loop of
-- prisma-withdrawal.repository.ts that takes them in that order.
use Prim.Native.String.{compare}
use text.Mathlib.Text.{is_le}
use prestohq_assessment.Prelude.{String, List, [], ◌∷◌, if◌then◌else◌}
use prestohq_assessment.Exec.{Action, pure, ◌>>◌}
use prestohq_assessment.Journal.{lock_wallet}

-- Ascending order, by the comparison of the sort's callback.
unfoldable pub insert_sorted : String → List String → List String
insert_sorted a [] = a ∷ []
insert_sorted a (b ∷ ids) =
    let rest = insert_sorted a ids in if is_le (compare a b) then a ∷ b ∷ ids else b ∷ rest

-- `sortWalletIds`
unfoldable pub sort_wallet_ids : List String → List String
unfolding insert_sorted
sort_wallet_ids [] = []
sort_wallet_ids (a ∷ ids) = insert_sorted a (sort_wallet_ids ids)

-- `for (const walletId of ids) await lockWalletRow(tx, walletId)`
unfoldable pub lock_all : List String → Action (Unit {0})
lock_all [] = pure tt
lock_all (id ∷ ids) = let rest = lock_all ids in lock_wallet id >> rest
