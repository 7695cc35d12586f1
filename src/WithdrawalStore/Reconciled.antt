-- ===== src/WithdrawalStore/Reconciled.antt =====
-- How a withdrawal and the journal must agree: it has one debit of its amount, and its refund is in the
-- journal exactly when it is REVERSED.
use Prim.Native.String.{◌++◌}
use prestohq_assessment.Prelude.{
  String, ◌≡◌, refl, ◌∙◌, inl, inr, false, none, some, str_eq, find, update, append_row,
  find-append_row-some, find-append_row-none, find-update-some, find-update-none,
}
use prestohq_assessment.Db.{
  WalletTransactionEntity, debit, tx_successful, WithdrawalEntity, WithdrawalStatus, pending,
  processing, successful, failed, reversed,
}
use prestohq_assessment.Journal.{Rows, by_id, by_key, set_status}

abbrev pub refund_key_of : String → String
refund_key_of debit_id = "reversal:" ++ debit_id

abbrev pub Unpaid : Rows → String → Type 0
Unpaid rows debit_id = find (by_key (refund_key_of debit_id)) rows ≡ none

-- What the journal has of the refund of a withdrawal, by its status
abbrev pub Standing : WithdrawalStatus → Rows → WithdrawalEntity → String → Type 0
Standing pending rows w debit_id = Unpaid rows debit_id
Standing processing rows w debit_id = Unpaid rows debit_id
Standing successful rows w debit_id = Unpaid rows debit_id
Standing failed rows w debit_id = Unpaid rows debit_id
Standing reversed rows w debit_id =
    (t : WalletTransactionEntity) × (find (by_key (refund_key_of debit_id)) rows ≡ some t)
    × (t.reverses_transaction_id ≡ some debit_id)
    × (t.amount ≡ w.amount)

-- The debit of a withdrawal
abbrev pub Pays : WalletTransactionEntity → WithdrawalEntity → Type 0
Pays o w =
    (o.type ≡ debit)
    × (o.wallet_id ≡ w.wallet_id)
    × (o.amount ≡ w.amount)
    × (o.withdrawal_id ≡ some w.id)

pub record Reconciled (rows : Rows) (w : WithdrawalEntity) : Type 0 where
  pub debit_id : String
  pub named : w.debit_transaction_id ≡ some debit_id
  pub original : WalletTransactionEntity
  pub found : find (by_id debit_id) rows ≡ some original
  pub pays : Pays original w
  pub standing : Standing w.status rows w debit_id

-- A journal that has every row of another one, completed or not.
pub record Carries (rows more : Rows) : Type 0 where
  pub row :
      (id : String) (o : WalletTransactionEntity) (w : WithdrawalEntity)
      → find (by_id id) rows ≡ some o
      → Pays o w
      → (q : WalletTransactionEntity) × (find (by_id id) more ≡ some q) × Pays q w
  pub refund :
      (key : String) (t : WalletTransactionEntity)
      → find (by_key key) rows ≡ some t
      → (q : WalletTransactionEntity) × (find (by_key key) more ≡ some q)
        × (q.reverses_transaction_id ≡ t.reverses_transaction_id)
        × (q.amount ≡ t.amount)

Standing-carried :
    (status : WithdrawalStatus) (rows more : Rows) (w : WithdrawalEntity) (debit_id : String)
    → Carries rows more
    → (Unpaid rows debit_id → Unpaid more debit_id)
    → Standing status rows w debit_id
    → Standing status more w debit_id
Standing-carried pending rows more w debit_id c unpaid h = unpaid h
Standing-carried processing rows more w debit_id c unpaid h = unpaid h
Standing-carried successful rows more w debit_id c unpaid h = unpaid h
Standing-carried failed rows more w debit_id c unpaid h = unpaid h
Standing-carried reversed rows more w debit_id c unpaid (t, found, of, amount) =
    let (q, there, of', amount') = c.refund (refund_key_of debit_id) t found in
    (q, there, of' ∙ of, amount' ∙ amount)

-- A withdrawal stays reconciled when the journal grows without the refund of its debit.
pub Reconciled-carried :
    (rows more : Rows) (w : WithdrawalEntity)
    → Carries rows more
    → (r : Reconciled rows w) → (Unpaid rows r.debit_id → Unpaid more r.debit_id)
    → Reconciled more w
Reconciled-carried rows more w c r unpaid =
    let (q, there, pays) = c.row r.debit_id r.original w r.found r.pays in
    record {
      debit_id = r.debit_id;
      named = r.named;
      original = q;
      found = there;
      pays = pays;
      standing = Standing-carried w.status rows more w r.debit_id c unpaid r.standing;
    }

pub append-Carries : (rows : Rows) (x : WalletTransactionEntity) → Carries rows (append_row rows x)
append-Carries rows x = record {
  row = λ id o w found pays. (o, find-append_row-some (by_id id) rows x o found, pays);
  refund = λ key t found. (t, find-append_row-some (by_key key) rows x t found, refl, refl);
}

abbrev completed : WalletTransactionEntity → WalletTransactionEntity
completed r = set_status tx_successful r

pub update-Carries : (rows : Rows) (k : String) → Carries rows (update (by_id k) completed rows)
update-Carries rows k = record {
  row = λ id o w found pays.
      elim (find-update-some (by_id id) (by_id k) completed rows o (λ x. refl) found) [
        | inl same ↦ (o, same, pays)
        | inr done ↦ (completed o, done, pays)
      ];
  refund = λ key t found.
      elim (find-update-some (by_key key) (by_id k) completed rows t (λ x. refl) found) [
        | inl same ↦ (t, same, refl, refl)
        | inr done ↦ (completed t, done, refl, refl)
      ];
}

-- A row under another key does not refund.
pub append-Unpaid :
    (rows : Rows) (x : WalletTransactionEntity) (debit_id : String)
    → str_eq x.idempotency_key (refund_key_of debit_id) ≡ false
    → Unpaid rows debit_id
    → Unpaid (append_row rows x) debit_id
append-Unpaid rows x debit_id other absent =
    find-append_row-none (by_key (refund_key_of debit_id)) rows x absent ∙ rw other

pub update-Unpaid :
    (rows : Rows) (k debit_id : String)
    → Unpaid rows debit_id
    → Unpaid (update (by_id k) completed rows) debit_id
update-Unpaid rows k debit_id absent =
    find-update-none (by_key (refund_key_of debit_id)) (by_id k) completed rows (λ x. refl) absent
