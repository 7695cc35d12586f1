-- ===== src/Flutterwave.antt =====
-- The live payment provider: src/common/services-external/flutterwave, src/common/utils/money.ts and
-- src/modules/payment-providers/flutterwave, over the requests to the provider's web service.
pub mod Money
pub mod Api
pub mod Service
pub mod Rounding
pub mod Answers
pub mod Settling
pub mod Rejections
