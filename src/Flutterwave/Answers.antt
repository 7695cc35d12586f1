-- ===== src/Flutterwave/Answers.antt =====
-- What the services may rely on with the live provider: a payment is verified at its amount, and a
-- webhook without the configured key is refused.
use Prim.Native.String.{◌++◌}
use prestohq_assessment.Prelude.{
  String, ◌≡◌, ◌≢◌, ◌≤◌, refl, sym, ap, ◌⊎◌, inl, inr, false, Option, none, some, Bool-cases,
  str_eq-false, or_else,
}
use prestohq_assessment.Prelude.Text.{truthy}
use prestohq_assessment.Errors.{custom_error, unauthorized}
use prestohq_assessment.Db.{State, Payload, TransferEntity}
use prestohq_assessment.Exec.{ok, err}
use prestohq_assessment.Transfers.{handle_flutterwave_webhook}
use prestohq_assessment.Flutterwave.Money.{Numbers, kobo_to_naira}
use prestohq_assessment.Flutterwave.Rounding.{IsRounded, naira_to_kobo-kobo_to_naira}
use prestohq_assessment.Flutterwave.Api.{
  FlwVerifyData, FlwVerifyByRefResponse, HttpResponse, WebService, FlutterwaveConfig, flw_base,
  given, webhook_key, same_hash, verify_webhook_hash, require_secret,
  verify_transaction_by_reference,
}
use prestohq_assessment.Flutterwave.Service.{
  lower_status, id_text, payment_status, live_verify, payment_service,
}

abbrev pub verify_url : {Number : Type 0} → WebService Number → String → String
verify_url web tx_ref =
    flw_base ++ "/transactions/verify_by_reference?tx_ref=" ++ web.encode_uri_component tx_ref

-- When the web service answers the verification of a transfer's payment with success, with the number of
-- naira and the currency that the transfer was initiated with, the live provider reports exactly the
-- transfer's amount in kobo and its currency, whatever the rounding, for amounts up to a thousand
-- million million kobo.
pub live_verify_paid :
    (n : Numbers) (config : FlutterwaveConfig) (web : WebService n.Number) (t : TransferEntity)
    (tx_ref secret : String) (r : HttpResponse (FlwVerifyByRefResponse n.Number))
    (d : FlwVerifyData n.Number)
    → IsRounded n
    → t.amount ≤ 1000000000000000
    → given config.secret_key ≡ some secret
    → web.get_verification (verify_url web tx_ref) ("Bearer " ++ secret) ≡ some r
    → r.json.status ≡ some "success"
    → r.json.body ≡ some d
    → d.amount ≡ some (kobo_to_naira n t.amount)
    → d.currency ≡ some t.currency
    → live_verify n config web tx_ref
      ≡ ok (record {
        status = payment_status (lower_status d.status);
        amount_kobo = t.amount;
        currency = t.currency;
        tx_ref = or_else d.tx_ref tx_ref;
        provider_transaction_id = id_text d.id;
      })
unfolding live_verify verify_transaction_by_reference require_secret
live_verify_paid n config web t tx_ref secret r d laws small key answer success body paid currency =
    simp (
      key,
      answer,
      success,
      body,
      paid,
      currency,
      naira_to_kobo-kobo_to_naira n t.amount laws small,
    )

same_hash-none : (key : Option String) → same_hash key none ≡ false
same_hash-none none = refl
same_hash-none (some secret) = refl

same_hash-other : (key header : Option String) → header ≢ key → same_hash key header ≡ false
same_hash-other none header other = refl
same_hash-other (some k) none other = refl
same_hash-other (some k) (some h) other = str_eq-false (λ e. other (ap some (sym e)))

given_cases : (o : Option String) → (given o ≡ none) ⊎ (given o ≡ o)
unfolding given
given_cases none = inl refl
given_cases (some t) = elim (Bool-cases (truthy t)) [
  | inl full ↦ inr (rw full)
  | inr empty ↦ inl (rw empty)
]

refused_hash :
    (n : Numbers) (config : FlutterwaveConfig) (web : WebService n.Number) (header : Option String)
    → (header ≢ webhook_key config) ⊎ (webhook_key config ≡ none)
    → (payment_service n config web).verify_webhook_signature header ≡ false
unfolding payment_service verify_webhook_hash
refused_hash n config web header (inr unset) = rw unset
refused_hash n config web header (inl other) = elim (given_cases header) [
  | inl absent ↦ rw absent (same_hash-none (webhook_key config))
  | inr full ↦ rw full (same_hash-other (webhook_key config) header other)
]

-- A webhook whose header is not the configured key is refused with 401 and changes nothing; so is every
-- webhook when no key is configured.
pub forged_webhook_refused :
    (n : Numbers) (config : FlutterwaveConfig) (web : WebService n.Number) (header : Option String)
    (payload : Payload) (s : State)
    → (header ≢ webhook_key config) ⊎ (webhook_key config ≡ none)
    → handle_flutterwave_webhook (payment_service n config web) header payload s
      ≡ (err (custom_error unauthorized "Invalid Flutterwave webhook signature"), s)
unfolding handle_flutterwave_webhook
forged_webhook_refused n config web header payload s forged =
    rw (refused_hash n config web header forged) refl
