-- ===== src/System.antt =====
-- The whole service as a machine: requests, webhooks and jobs in any order, any number of times, with
-- any answers of the provider. A job may run whether or not it was queued, and again after it failed.
pub mod Stores
pub mod Accounts
pub mod Funding
pub mod Completing
pub mod Paying
pub mod Reach
pub mod History
pub mod Books
pub mod Finished
pub mod Reconciling
pub mod Withdrawing
pub mod Refunding
pub mod Reconciliation
pub mod Interleaving
pub mod Races
pub mod Limits
pub mod Crediting
pub mod Deposits
pub mod Credited
use prestohq_assessment.Prelude.{ℕ, ◌+◌, String, Option}
use prestohq_assessment.Db.{State, Job, Payload}
use prestohq_assessment.Provider.{FlutterwaveProvider}
use prestohq_assessment.Environment.{Environment, Actor}
use prestohq_assessment.Auth.{RegisterDto, LoginDto, CreatePinDto, register, login, create_pin}
use prestohq_assessment.Transfers.{CreateTransferDto, handle_flutterwave_webhook}
use prestohq_assessment.Transfers
use prestohq_assessment.TransferComplete.{process}
use prestohq_assessment.Withdrawals.{CreateWithdrawalDto}
use prestohq_assessment.Withdrawals
use prestohq_assessment.Payouts.{process_payout_job, process_settle_job}

-- The entry points that write: the routes of the controllers, and the three queue processors.
pub data Operation : Type 0 where
  post_register : RegisterDto → Operation
  post_login : LoginDto → Operation
  post_pin : Actor → CreatePinDto → Operation
  post_transfer : FlutterwaveProvider → Actor → CreateTransferDto → (key : String) → Operation
  post_webhook : FlutterwaveProvider → (verif_hash : Option String) → Payload → Operation
  complete_job : FlutterwaveProvider → Job → Operation
  post_withdrawal : Actor → CreateWithdrawalDto → (key : String) → Operation
  payout_job : FlutterwaveProvider → Job → Operation
  settle_job : FlutterwaveProvider → Job → Operation
  wait : (milliseconds : ℕ) → Operation

-- The state after an operation, whatever it answered
unfoldable pub perform : Environment → Operation → State → State
perform env (post_register dto) s = (register env dto s).1
perform env (post_login dto) s = (login env dto s).1
perform env (post_pin actor dto) s = (create_pin env actor dto s).1
perform env (post_transfer flutterwave actor dto key) s =
    (Transfers.create env flutterwave actor dto key s).1
perform env (post_webhook flutterwave verif_hash body) s =
    (handle_flutterwave_webhook flutterwave verif_hash body s).1
perform env (complete_job flutterwave job) s = (process flutterwave job s).1
perform env (post_withdrawal actor dto key) s = (Withdrawals.create env actor dto key s).1
perform env (payout_job flutterwave job) s = (process_payout_job flutterwave job s).1
perform env (settle_job flutterwave job) s = (process_settle_job flutterwave job s).1
perform env (wait milliseconds) s = record s { now = s.now + milliseconds }

pub data Reachable (env : Environment) (first : State) : State → Type 0 where
  start : Reachable env first first
  after :
      {s : State} → Reachable env first s → (o : Operation) → Reachable env first (perform env o s)
