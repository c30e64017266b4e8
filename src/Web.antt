-- ===== src/Web.antt =====
-- The store, the authorization and the report route, and the texts that they read.
pub mod Accepted
pub mod Attempt
pub mod Text
pub mod Http
pub mod Token
pub mod Decimal
pub mod Store
pub mod Auth
pub mod Replay
pub mod Report
pub mod Finalize
pub mod Init
pub mod Login
pub mod Bracket
pub mod Reads
pub mod Paypal
pub mod Capture
pub mod Webhook
pub mod CreateOrder
pub mod Proxy
pub mod Payments
pub mod Keys
