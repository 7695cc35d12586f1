-- ===== src/Db.antt =====
-- The state that the services share: the tables of prisma/schema, the three job queues, and what the
-- surroundings hand out (the clock in milliseconds, identifiers, random UUIDs).
mod Entities
pub use Entities.*
use prestohq_assessment.Prelude.{ℕ, String, List}

-- The calls of `queue.add`, in order. What the queue does with them is not the program's.
pub record Job : Type 0 where
  pub name : String
  pub subject : String
  pub job_id : String

pub record State : Type 0 where
  pub users : List UserEntity
  pub wallets : List WalletEntity
  pub journal : List WalletTransactionEntity
  pub transfers : List TransferEntity
  pub withdrawals : List WithdrawalEntity
  pub webhook_events : List WebhookEventEntity
  pub transfer_queue : List Job
  pub payout_queue : List Job
  pub settle_queue : List Job
  pub now : ℕ
  pub cuid : ℕ → String
  pub next_id : ℕ
  pub random_uuid : ℕ → String
  pub next_uuid : ℕ
