-- ===== src/System/History.antt =====
-- What becomes of the journal's rows over any run of the service, and what its readers may rely on.
use prestohq_assessment.Prelude.{ℕ, ◌<◌, ◌≤◌, String, ◌≡◌, refl, Option, none}
use prestohq_assessment.Prelude.Lists.{length}
use prestohq_assessment.Db.{State, tx_successful}
use prestohq_assessment.Journal.{Rows, by_id, set_status, new_row, credits, debits}
use prestohq_assessment.Prelude.Unique.{Unique, Unique-append_row, Unique-update}
use prestohq_assessment.Journal.Range.{IsInt4, IsInt4-append_row, IsInt4-update, sums_exact}
use prestohq_assessment.Journal.Trail.{Extends, Extends-refl, Extends-append_row, Extends-update}
use prestohq_assessment.Ledger.Writes.{IsKeptByWrites}
use prestohq_assessment.WithdrawalStore.Writes.{IsKeptByWrites-IsKept}
use prestohq_assessment.Environment.{Environment}
use prestohq_assessment.WalletReads.{PageQuery, history}
use prestohq_assessment.WalletReads.Paging.{IsPageQuery, read_all, read_all-history}
use prestohq_assessment.System.{Reachable}
use prestohq_assessment.System.Reach.{Reachable-Keeps}

pub Extends-kept : (old : Rows) → IsKeptByWrites (Extends old)
Extends-kept old = record {
  inserted = λ d s new_id new_key small e. Extends-append_row old s.journal (new_row d s) e;
  completed = λ t rows found waits e. Extends-update (by_id t.id) old rows t found waits e;
}

-- No two rows share an identifier, and no two share an idempotency key.
pub record IsKeyed (rows : Rows) : Type 0 where
  pub ids : Unique (λ r. r.id) rows
  pub keys : Unique (λ r. r.idempotency_key) rows

pub IsKeyed-kept : IsKeptByWrites IsKeyed
IsKeyed-kept = record {
  inserted = λ d s new_id new_key small u. record {
    ids = Unique-append_row (λ r. r.id) (new_row d s) s.journal new_id u.ids;
    keys = Unique-append_row (λ r. r.idempotency_key) (new_row d s) s.journal new_key u.keys;
  };
  completed = λ t rows found waits u. record {
    ids = Unique-update (λ r. r.id) (set_status tx_successful) (λ r. refl) (by_id t.id) rows u.ids;
    keys =
        Unique-update (λ r. r.idempotency_key) (set_status tx_successful) (λ r. refl) (by_id t.id)
          rows u.keys;
  };
}

-- No run of requests, webhooks and jobs deletes, moves or edits a row of the journal: every row stays
-- at its place with all its columns, but that a pending row may become successful; new rows come
-- behind.
pub journal_only_grows :
    (env : Environment) (first s : State) → Reachable env first s → Extends first.journal s.journal
journal_only_grows env first s r =
    Reachable-Keeps (Extends first.journal)
      (IsKeptByWrites-IsKept (Extends first.journal) (Extends-kept first.journal)) env first s
      (Extends-refl first.journal) r

-- From a journal without two rows of one identifier or of one idempotency key, no run of requests,
-- webhooks and jobs reaches a journal that has such rows.
pub Reachable-IsKeyed :
    (env : Environment) (first s : State)
    → IsKeyed first.journal
    → Reachable env first s
    → IsKeyed s.journal
Reachable-IsKeyed env first s u r =
    Reachable-Keeps IsKeyed (IsKeptByWrites-IsKept IsKeyed IsKeyed-kept) env first s u r

-- In every state that the service reaches from a journal whose identifiers and keys are unique, as those
-- of an empty one are, a client that follows the cursors of the transaction list, with any page size,
-- gets the wallet's whole history, newest first and each row once, when it asks for more pages than
-- there are rows.
pub read_all-reachable :
    (env : Environment) (first s : State) (query : PageQuery) (w : String) (limit : Option ℕ)
    (pages : ℕ)
    → IsKeyed first.journal
    → Reachable env first s
    → IsPageQuery query
    → length (history w s.journal) < pages
    → read_all query w limit pages none s ≡ history w s.journal
read_all-reachable env first s query w limit pages keyed r laws enough =
    read_all-history query w limit pages s laws (Reachable-IsKeyed env first s keyed r).ids enough

pub IsInt4-kept : IsKeptByWrites IsInt4
IsInt4-kept = record {
  inserted = λ d s new_id new_key small h. IsInt4-append_row s.journal (new_row d s) small h;
  completed = λ t rows found waits h. IsInt4-update (by_id t.id) rows h;
}

-- In every state that the service reaches from a journal of INT4 amounts, as an empty one is, both sums
-- behind every balance are at most 2 ^ 53 - 1, so that the balance is exact as a number of the language,
-- while the journal has at most 4,194,304 rows.
pub sums_exact-reachable :
    (env : Environment) (first s : State) (w : String)
    → IsInt4 first.journal
    → Reachable env first s
    → length s.journal ≤ 4194304
    → (credits w s.journal ≤ 9007199254740991) × (debits w s.journal ≤ 9007199254740991)
sums_exact-reachable env first s w h r few =
    sums_exact w s.journal
      (Reachable-Keeps IsInt4 (IsKeptByWrites-IsKept IsInt4 IsInt4-kept) env first s h r) few
