-- ===== src/Flutterwave/Rejections.antt =====
-- The payout job with the live provider: withdrawal-payout.service.ts over
-- flutterwave-payment.service.ts, when the request for the transfer is not accepted.
use prestohq_assessment.Prelude.{String}
