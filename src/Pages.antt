-- ===== src/Pages.antt =====
-- The logic of the pages under web/src/app, without their rendering.
pub mod Play
pub mod Manage
pub mod Cup
pub mod Claim
pub mod Setup
pub mod Arena
pub mod Dashboard
