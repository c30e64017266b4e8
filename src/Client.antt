-- ===== src/Client.antt =====
-- The modules of web/src/lib that run in the browser.
pub mod Session
pub mod Api
pub mod Outcome
pub mod Socket
pub mod Cup
pub mod Wallet
