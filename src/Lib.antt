-- ===== src/Lib.antt =====
-- A wallet service: users fund a wallet through a payment provider, send money to each other, and
-- withdraw to bank accounts. Balances are not stored; they are the sum of a journal of credits and
-- debits. Paths below are from the repository's root.
--
-- State (Db, Db/Entities): the rows of the six tables with the columns of src/database/repositories,
-- the three job queues as the lists of jobs added, the clock in milliseconds, and the sources of new
-- identifiers and random UUIDs. An asynchronous method is an action on this state (Exec): a statement
-- that throws keeps what was written before it, `prisma.$transaction` puts it back. Errors holds the
-- error values and the exception filter (src/common/exceptions, src/common/filters).
--
-- Stores (src/database/prisma): Journal (prisma-wallet-transaction.repository.ts and
-- ledger-lock.util.ts), WithdrawalStore (prisma-withdrawal.repository.ts: `executeP2p`,
-- `executeBankAccept`), UserStore, TransferStore, WebhookStore. Unique columns and the INT4 bound of
-- amounts (prisma/schema) are checks of the writes, which fail as the database does.
--
-- Services: Ledger (src/modules/wallets/services: `postPending`, `completeSuccessful`,
-- `postSuccessful`, `postReversal`), Auth and Auth/Credential (src/modules/auth/services),
-- Transfers/Create, Transfers/Webhook and TransferComplete (the worker) of src/modules/transfers,
-- Withdrawals (the requests) and Payouts (both workers) of src/modules/withdrawals, Provider (the
-- interface and the mock of src/modules/payment-providers/flutterwave). System puts the entry points
-- together: controllers call the services, the webhook queues the completion of a deposit, a bank
-- withdrawal queues a payout, a payout queues its settlement. WalletReads is the balance view and the
-- paginated history (wallets.service.ts, `listByWalletId`).
--
-- The edges: Flutterwave is the live provider, with Flutterwave/Api the raw client of
-- src/common/services-external/flutterwave, Flutterwave/Service the adapter
-- flutterwave-payment.service.ts and Flutterwave/Money src/common/utils/money.ts. Http has the
-- validation of requests and the idempotency header (Http/Requests), access tokens and their guard
-- (Http/Session), the landing page with its escaping (Http/Escape), the form of every JSON answer
-- (Http/Envelope), and the answer to everything that can be thrown (Http/Filter). Config reads the
-- environment (src/config): its validation, the settings, with Config/Redis the connection of
-- src/core/redis, and Config/Starting what an accepted environment is enough for.
--
-- How the proofs are laid out: Keeping has the rules by which a handler keeps what its steps keep.
-- WithdrawalStore/Transactions names the six database transactions that write to the journal, and what
-- a property must satisfy to be kept by each; Ledger/Writes and WithdrawalStore/Writes reduce that to
-- two writes, an insertion and a completion. WithdrawalStore/Operations, Payouts/Soundness,
-- System/Paying, System/Funding and System/Completing lift it to every request and job, and
-- System/Reach to every reachable state. System/Interleaving, System/Races and System/History apply
-- it, with Journal/Balance, Prelude/Unique, Journal/Trail and Journal/Range as the properties.
-- Journal/Books, Journal/Accounting, Journal/Bookkeeping and Journal/Keys say what the rows of the
-- journal owe to each other, WithdrawalStore/Trail and WithdrawalStore/Reconciled what the withdrawals
-- owe to them, Payouts/Effects which changes a payout job can make, and System/Books, System/Finished,
-- System/Withdrawing, System/Refunding and System/Reconciliation carry that to every reachable state.
-- What each component does on its own is in Ledger/Debits, Ledger/Reversals, Ledger/Credits,
-- Ledger/Completion, Ledger/Recompletion, WithdrawalStore/P2pEffects, WithdrawalStore/BankEffects,
-- WithdrawalStore/Acceptance, WithdrawalStore/LockOrder, Auth/Lockout, Auth/Machine, Payouts/Refunds,
-- System/Crediting, System/Deposits, System/Credited, System/Limits, WalletReads/Paging, Flutterwave/Rounding,
-- Flutterwave/Answers, Flutterwave/Settling, Flutterwave/Rejections and Http/Escape. Examples applies
-- the theorems to a small state, and Examples/Story to a run from a deposit to a refund.
--
-- Parameters: SHA-256 of request bodies, bcrypt, the signing of tokens and the return address
-- (Environment); the provider's answers (Provider), which may differ at every call, and for the live
-- provider the answers of the web service (Flutterwave/Api); the arithmetic of numbers with fractions
-- (Flutterwave/Money), with the rounding of 53 binary digits as a hypothesis (Flutterwave/Rounding),
-- for amounts that are finite and not negative; the database query behind a page (WalletReads), which
-- starts behind its cursor; the validator's tests for e-mail addresses and UUIDs, and its texts;
-- `Number(text)` of a setting (Config); the token library.
--
-- Bounds: amounts are whole kobo, so natural numbers; the journal refuses more than 2147483647.
-- Balances are integers of any size, as the sum of a query; System/History says when the numbers of
-- the source hold them exactly. No definition of the program needs fuel; a client that reads page by
-- page (WalletReads/Paging) has a number of pages as fuel, and one page more than there are rows is
-- enough. Identifiers are ordered by code point, which is the program's order for the ASCII that they
-- are.
--
-- Not modelled: the isolation of the database. A transaction runs as a whole, as one that row locks
-- and unique columns keep apart from the others does; a row lock only tests that the wallet exists.
-- Queue delays and counts of attempts are left out: a job may run at any time, any number of times.
-- Also left out: logging, the set-up of the API documentation, and the framework's wiring.
pub mod Prelude
pub mod Errors
pub mod Db
pub mod Exec
pub mod Keeping
pub mod Journal
pub mod Ledger
pub mod WithdrawalStore
pub mod UserStore
pub mod TransferStore
pub mod WebhookStore
pub mod Provider
pub mod Flutterwave
pub mod Environment
pub mod Auth
pub mod Transfers
pub mod TransferComplete
pub mod WalletReads
pub mod Withdrawals
pub mod Http
pub mod Config
pub mod Payouts
pub mod System
pub mod Examples
