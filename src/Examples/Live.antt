-- ===== src/Examples/Live.antt =====
-- The theorems on the live provider, at a concrete web service and exact arithmetic.
use Prim.Native.Nat.{◌/◌}
use prestohq_assessment.Prelude.{ℕ, ◌+◌, ◌*◌, ◌≡◌, refl, ap, inl, none, some, true, false, arith}
use prestohq_assessment.Db.{Payload, other, TransferEntity, transfer_pending}
use prestohq_assessment.Errors.{custom_error, unauthorized}
use prestohq_assessment.Exec.{ok, err}
use prestohq_assessment.Payouts.{process_settle}
use prestohq_assessment.Transfers.{handle_flutterwave_webhook}
use prestohq_assessment.Flutterwave.Money.{Numbers, naira_to_kobo, kobo_to_naira}
use prestohq_assessment.Flutterwave.Rounding.{IsRounded, naira_to_kobo-kobo_to_naira}
use prestohq_assessment.Flutterwave.Api.{
  FlwVerifyData, FlwVerifyByRefResponse, FlwTransferResponse, HttpResponse, WebService,
  FlutterwaveConfig, given, is_text,
}
use prestohq_assessment.Flutterwave.Service.{
  lower_status, payment_status, live_verify, payment_service,
}
use prestohq_assessment.Flutterwave.Answers.{live_verify_paid, forged_webhook_refused}
use prestohq_assessment.Flutterwave.Settling.{process_settle-unreported}
use prestohq_assessment.Http.Escape.{escape_html, IsEscaped, escape_html-IsEscaped}
use prestohq_assessment.Examples.Data.{state}

-- Numbers with two decimals, by their hundredths
abbrev exact : Numbers
exact = record {
  Number = ℕ;
  of_integer = λ n. n * 100;
  divide = λ a b. a * 100 / b;
  times = λ a b. a * b / 100;
  math_round = λ x. (x + 50) / 100;
}

exact-IsRounded : IsRounded exact
exact-IsRounded = record {
  unit = 100;
  unit_pos = omega arith;
  at = λ x. x;
  divide_above = λ k small. omega arith;
  divide_below = λ k small. omega arith;
  times_above = λ x small. omega arith;
  times_below = λ x small. omega arith;
  rounds = λ x k low high. omega (arith, low, high);
}

abbrev paid : FlwVerifyData ℕ
paid = record {
  status = some "Successful";
  amount = some 700;
  currency = some "NGN";
  tx_ref = none;
  id = none;
}

abbrev verification : HttpResponse (FlwVerifyByRefResponse ℕ)
verification = record {
  is_ok = true;
  json = record { status = some "success"; message = none; body = some paid };
}

-- A service that knows one payment and answers no question about transfers
abbrev web : WebService ℕ
web = record {
  post_payment = λ u a b. none;
  get_verification = λ u a. some verification;
  post_transfer = λ u a b. none;
  get_transfer = λ u a. none;
  encode_uri_component = λ t. t;
}

abbrev config : FlutterwaveConfig
config = record { secret_key = some "sk"; webhook_secret = some "hook"; mock = "false" }

abbrev payload : Payload
payload = record {
  event = other;
  id = other;
  tx_ref = other;
  tx_ref_camel = other;
  data_object = none;
}

abbrev deposit : TransferEntity
deposit = record {
  id = "f2";
  user_id = "u1";
  wallet_id = "w1";
  amount = 700;
  currency = "NGN";
  status = transfer_pending;
  flutterwave_tx_ref = "fund_u1_b";
  flutterwave_id = none;
  checkout_url = none;
  idempotency_key = "b";
  request_body_hash = "hash-b";
  created_at = 0;
}

naira_to_kobo-kobo_to_naira_example : naira_to_kobo exact (kobo_to_naira exact 12345) ≡ 12345
naira_to_kobo-kobo_to_naira_example =
    naira_to_kobo-kobo_to_naira exact 12345 exact-IsRounded (omega arith)

live_verify_paid_example :
    live_verify exact config web "fund_u1_b"
    ≡ ok (record {
      status = payment_status (lower_status (some "Successful"));
      amount_kobo = 700;
      currency = "NGN";
      tx_ref = "fund_u1_b";
      provider_transaction_id = none;
    })
unfolding given kobo_to_naira
live_verify_paid_example =
    live_verify_paid exact config web deposit "fund_u1_b" "sk" verification paid exact-IsRounded
      (omega arith) refl refl refl refl refl refl

forged_webhook_refused_example :
    handle_flutterwave_webhook (payment_service exact config web) (some "guess") payload state
    ≡ (err (custom_error unauthorized "Invalid Flutterwave webhook signature"), state)
unfolding given
forged_webhook_refused_example =
    forged_webhook_refused exact config web (some "guess") payload state
      (inl (λ e. absurd (cc (ap (λ o. is_text o "guess") e))))

process_settle-unreported_example :
    (process_settle (payment_service exact config web) "d1" state).1.journal ≡ state.journal
process_settle-unreported_example =
    process_settle-unreported exact config web "d1" state (λ u a. refl)

escape_html-IsEscaped_example : IsEscaped "<b>\"a\" & c</b>" (escape_html "<b>\"a\" & c</b>")
escape_html-IsEscaped_example = escape_html-IsEscaped "<b>\"a\" & c</b>"

-- A reference that was used before
abbrev conflict : HttpResponse FlwTransferResponse
conflict = record {
  is_ok = false;
  json = record { status = some "error"; message = some "Duplicate reference"; body = none };
}

abbrev rejecting : WebService ℕ
rejecting = record web { post_transfer = λ u a b. some conflict }
