-- ===== src/WalletReads.antt =====
-- A user's wallet and its history: src/modules/wallets/services/wallets.service.ts, and `listByWalletId`
-- of src/database/prisma/prisma-wallet-transaction.repository.ts.
pub mod Distinct
pub mod Paging
use Prim.Native.String.{compare}
use Prim.Native.Nat.{Ordering}
use prestohq_assessment.Prelude.{
  ℕ, ◌+◌, String, Bool, true, false, ◌&&◌, ◌||◌, Option, none, some, List, [], ◌∷◌, ltb, ◌==◌,
  or_else, if◌then◌else◌, select, str_eq,
}
use prestohq_assessment.Prelude.Int.{ℤ}
use prestohq_assessment.Prelude.Lists.{length, take}
use prestohq_assessment.Db.{State, WalletEntity, WalletStatus, WalletTransactionEntity}
use prestohq_assessment.Exec.{Action, pure, gets, or_raise, ◌>>=◌, Response}
use prestohq_assessment.Journal.{Rows, sum_successful_balance}
use prestohq_assessment.UserStore.{find_wallet_by_user_id}
use prestohq_assessment.Environment.{Actor}
use prestohq_assessment.Transfers.{wallet_not_found}

pub record ListWalletTransactionsParams : Type 0 where
  pub wallet_id : String
  pub limit : Option ℕ
  pub cursor : Option String

pub record ListWalletTransactionsResult : Type 0 where
  pub items : Rows
  pub next_cursor : Option String

is_greater : Ordering → Bool
is_greater Ordering.lt = false
is_greater Ordering.eq = false
is_greater Ordering.gt = true

-- ORDER BY "createdAt" DESC, id DESC: whether `r` comes before `q`
unfoldable pub comes_first : WalletTransactionEntity → WalletTransactionEntity → Bool
unfolding is_greater
comes_first r q =
    ltb q.created_at r.created_at
    || (q.created_at == r.created_at && is_greater (compare r.id q.id))

unfoldable pub insert_newest : WalletTransactionEntity → Rows → Rows
insert_newest r [] = r ∷ []
insert_newest r (q ∷ rows) =
    let rest = insert_newest r rows in if comes_first r q then r ∷ q ∷ rows else q ∷ rest

unfoldable pub newest_first : Rows → Rows
newest_first [] = []
newest_first (r ∷ rows) = insert_newest r (newest_first rows)

abbrev pub of_wallet : String → WalletTransactionEntity → Bool
of_wallet w r = str_eq r.wallet_id w

-- The rows that a query of the wallet ranges over, in its order
unfoldable pub history : String → Rows → Rows
history w rows = newest_first (select (of_wallet w) rows)

-- `findMany` on ordered rows: those behind the cursor, if there is one, and at most as many as asked.
pub record PageQuery : Type 0 where
  pub find_many : Rows → (cursor : Option String) → (at_most : ℕ) → Rows

abbrev pub math_max : ℕ → ℕ → ℕ
math_max a b = if ltb a b then b else a

abbrev pub math_min : ℕ → ℕ → ℕ
math_min a b = if ltb a b then a else b

-- Math.min(Math.max(params.limit ?? 20, 1), 100)
unfoldable pub page_limit : Option ℕ → ℕ
page_limit limit = math_min (math_max (or_else limit 20) 1) 100

-- `slice[slice.length - 1].id`
unfoldable pub last_id : Rows → Option String
last_id [] = none
last_id (r ∷ []) = some r.id
last_id (r ∷ q ∷ rows) = last_id (q ∷ rows)

-- One row more than the limit was asked for, to know whether there is a next page.
unfoldable pub page_of : ℕ → Rows → ListWalletTransactionsResult
page_of limit rows =
    if ltb limit (length rows)
    then record { items = take limit rows; next_cursor = last_id (take limit rows) }
    else record { items = rows; next_cursor = none }

-- `listByWalletId`
unfoldable pub list_by_wallet_id :
    PageQuery → ListWalletTransactionsParams → Action ListWalletTransactionsResult
list_by_wallet_id query p = do
  rows ←
      gets (λ s. query.find_many (history p.wallet_id s.journal) p.cursor (page_limit p.limit + 1))
  pure (page_of (page_limit p.limit) rows)

pub record WalletView : Type 0 where
  pub id : String
  pub user_id : String
  pub currency : String
  pub status : WalletStatus
  pub balance : ℤ

-- `requireWallet`
abbrev pub require_wallet : String → Action WalletEntity
require_wallet user_id = do found ← find_wallet_by_user_id user_id; or_raise found wallet_not_found

-- `getMe`
unfoldable pub get_me : Actor → Action (Response WalletView)
get_me actor = do
  wallet ← require_wallet actor.user_id
  balance ← sum_successful_balance wallet.id
  pure (record {
    message = "Wallet retrieved successfully";
    body = record {
      id = wallet.id;
      user_id = wallet.user_id;
      currency = wallet.currency;
      status = wallet.status;
      balance = balance;
    };
  })

-- `listMyTransactions`
unfoldable pub list_my_transactions :
    PageQuery
    → Actor
    → (limit : Option ℕ) → (cursor : Option String) → Action (Response ListWalletTransactionsResult)
list_my_transactions query actor limit cursor = do
  wallet ← require_wallet actor.user_id
  page ← list_by_wallet_id query (record { wallet_id = wallet.id; limit = limit; cursor = cursor })
  pure (record { message = "Wallet transactions retrieved successfully"; body = page })
