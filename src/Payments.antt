-- ===== src/Payments.antt =====
-- ocg-server/src/services/payments: checkouts, webhooks and refunds of paid events. The database
-- (`DBPayments`), the provider (`PaymentsProvider`) and the notifications manager are interfaces,
-- records of what they answer after a trace of calls.
pub mod Types
pub mod Calls
pub mod Db
pub mod Provider
pub mod Composer
pub mod Recorder
pub mod RefundWorker
pub mod Webhook
pub mod RefundLoop
pub mod Manager
mod Tests
