-- ===== src/WithdrawalStore/LockOrder.antt =====
-- `sortWalletIds` of ledger-lock.util.ts: the order of the locks of a transfer.
use Prim.Native.Nat.{Ordering}
use Prim.Native.String.{compare}
use text.Mathlib.TextEquality.{path_by_compare}
use prestohq_assessment.Prelude.{String, ◌≡◌, refl, [], ◌∷◌}
use prestohq_assessment.Prelude.TextOrder.{flip, flip-compare}
use prestohq_assessment.WithdrawalStore.{insert_sorted, sort_wallet_ids}

sort_by_answer :
    (a b : String) (o : Ordering)
    → compare a b ≡ o
    → compare b a ≡ flip o
    → sort_wallet_ids (a ∷ b ∷ []) ≡ sort_wallet_ids (b ∷ a ∷ [])
unfolding sort_wallet_ids insert_sorted
sort_by_answer a b Ordering.lt first second = rw (first, second)
sort_by_answer a b Ordering.gt first second = rw (first, second)
sort_by_answer a b Ordering.eq first second = rw (path_by_compare a b first)

-- The two wallets of a transfer are put in the same order whichever of them sends.
pub sort_wallet_ids_symmetric :
    (a b : String) → sort_wallet_ids (a ∷ b ∷ []) ≡ sort_wallet_ids (b ∷ a ∷ [])
sort_wallet_ids_symmetric a b = sort_by_answer a b (compare a b) refl (flip-compare a b)
