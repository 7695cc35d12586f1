-- ===== src/Flutterwave/Settling.antt =====
-- The settlement job with the live provider: withdrawal-settle.service.ts over
-- flutterwave-payment.service.ts.
use Prim.Native.String.{◌++◌}
use mathlib.Core.Path.{subst}
use prestohq_assessment.Prelude.{
  String, ◌≡◌, refl, inl, inr, Bool, true, false, Option, none, some, str_eq, Option-cases, arith,
  find,
}
use prestohq_assessment.Prelude.Text.{truthy}
use prestohq_assessment.Db.{State, WithdrawalEntity}
use prestohq_assessment.Exec.{Result, ok, err, pure, lift, ◌>>=◌}
use prestohq_assessment.Keeping.{Keeps, then-Keeps, if-Keeps}
use prestohq_assessment.Journal.{Rows}
use prestohq_assessment.Journal.Balance.{InJournal}
use prestohq_assessment.Provider.{
  BankTransferResult, BankStatus, bank_successful, bank_pending, bank_failed, bank_unknown,
}
use prestohq_assessment.WithdrawalStore.Rows.{withdrawal_by_id, update_withdrawal}
use prestohq_assessment.WithdrawalStore.Writes.{update_withdrawal-Keeps}
use prestohq_assessment.Payouts.{
  is_terminal, process_settle, after_status, settle_transfer, settle_found,
}
use prestohq_assessment.Flutterwave.Money.{Numbers}
use prestohq_assessment.Flutterwave.Api.{
  FlwTransferData, FlwTransferResponse, HttpResponse, WebService, FlutterwaveConfig, flw_base,
  given, require_secret, get_transfer_by_id,
}
use prestohq_assessment.Flutterwave.Service.{
  lower_status, live_bank_status, transfer_data, settle_status, status_body, payment_service,
}

-- Whether the web service says, in an accepted answer, that a transfer has failed
abbrev data_failed : Option FlwTransferData → Bool
data_failed none = false
data_failed (some d) = str_eq (lower_status d.status) "failed"

abbrev pub reports_failed : Option (HttpResponse FlwTransferResponse) → Bool
reports_failed none = false
reports_failed (some r) = data_failed (transfer_data r)

is_failed : BankStatus → Bool
is_failed bank_successful = false
is_failed bank_pending = false
is_failed bank_failed = true
is_failed bank_unknown = false

abbrev ReportsNone : Result BankTransferResult → Type 0
ReportsNone (ok r) = is_failed r.status ≡ false
ReportsNone (err e) = Unit

settle_status-none : (s : String) → str_eq s "failed" ≡ false → is_failed (settle_status s) ≡ false
unfolding settle_status is_failed
settle_status-none s other = ground arith

status_body-none :
    (i : String) (m : Option String) (o : Option FlwTransferData)
    → data_failed o ≡ false
    → is_failed (status_body i m o).status ≡ false
unfolding is_failed
status_body-none i m none other = refl
status_body-none i m (some d) other = settle_status-none (lower_status d.status) other

live_bank_status-ReportsNone :
    {Number : Type 0} (config : FlutterwaveConfig) (web : WebService Number) (i : String)
    → ((url authorization : String) → reports_failed (web.get_transfer url authorization) ≡ false)
    → ReportsNone (live_bank_status config web i)
unfolding live_bank_status get_transfer_by_id require_secret is_failed
live_bank_status-ReportsNone config web i calm = elim (Option-cases (given config.secret_key)) [
  | inl unset ↦ rw unset refl
  | inr (secret, set) ↦
      elim (Option-cases
        (web.get_transfer (flw_base ++ "/transfers/" ++ i) ("Bearer " ++ secret))) [
          | inl silent ↦ rw (set, silent) tt
          | inr (r, answer) ↦
              rw (set, answer)
                (status_body-none i r.json.message (transfer_data r) (
                  subst (λ o. reports_failed o ≡ false) answer
                    (calm (flw_base ++ "/transfers/" ++ i) ("Bearer " ++ secret))))
        ]
]

module _ (j : Rows) where
  abbrev HasJournal : State → Type 0
  HasJournal = InJournal (λ rows. rows ≡ j)

  after_status-Same :
      (b : BankStatus) (w : WithdrawalEntity)
      → is_failed b ≡ false
      → Keeps HasJournal (after_status b w)
  unfolding after_status is_failed
  after_status-Same bank_successful w calm =
      then-Keeps HasJournal (update_withdrawal w.id _) (pure tt)
        (update_withdrawal-Keeps (λ rows. rows ≡ j) w.id _) (λ s h. h)
  after_status-Same bank_failed w calm = absurd (cc calm)
  after_status-Same bank_pending w calm = λ s h. h
  after_status-Same bank_unknown w calm = λ s h. h

  answered-Same :
      (r : Result BankTransferResult) (w : WithdrawalEntity)
      → ReportsNone r
      → Keeps HasJournal (lift r >>= λ answer. after_status answer.status w)
  answered-Same (ok r) w calm = after_status-Same r.status w calm
  answered-Same (err e) w calm = λ s h. h

module _ (n : Numbers) (config : FlutterwaveConfig) (web : WebService n.Number)
    (calm : (url authorization : String)
      → reports_failed (web.get_transfer url authorization) ≡ false)
    (j : Rows) where
  settle_transfer-Same :
      (w : WithdrawalEntity) (o : Option String)
      → Keeps (HasJournal j) (settle_transfer (payment_service n config web) w o)
  unfolding payment_service
  settle_transfer-Same w none = λ s h. h
  settle_transfer-Same w (some i) =
      if-Keeps (HasJournal j) (truthy i) _ (pure tt)
        (answered-Same j (live_bank_status config web i) w
          (live_bank_status-ReportsNone config web i calm))
        (λ s h. h)

  settle_found-Same :
      (o : Option WithdrawalEntity)
      → Keeps (HasJournal j) (settle_found (payment_service n config web) o)
  settle_found-Same none = λ s h. h
  settle_found-Same (some w) =
      if-Keeps (HasJournal j) (is_terminal w.status) (pure tt) _ (λ s h. h)
        (settle_transfer-Same w w.provider_transfer_id)

-- With the live provider, the settlement job writes nothing to the journal, so it refunds nothing, as
-- long as the web service reports no transfer as failed in an accepted answer: not when there is no
-- answer, an HTTP error, an unknown status, or no secret key.
pub process_settle-unreported :
    (n : Numbers) (config : FlutterwaveConfig) (web : WebService n.Number) (id : String) (s : State)
    → ((url authorization : String) → reports_failed (web.get_transfer url authorization) ≡ false)
    → (process_settle (payment_service n config web) id s).1.journal ≡ s.journal
unfolding process_settle
process_settle-unreported n config web id s calm =
    settle_found-Same n config web calm s.journal (find (withdrawal_by_id id) s.withdrawals) s refl
