-- ===== src/Http.antt =====
-- The HTTP layer: what requests must look like, src/modules/*/dto and src/common/utils/idempotency.ts, what
-- the routes of src/modules/*/controllers do around the services, and the form of the answers.
pub mod Envelope
pub mod Escape
pub mod Filter
pub mod Requests
pub mod Session
