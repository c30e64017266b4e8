-- ===== src/Engine.antt =====
-- web/src/lib/engine: the tournament engine.
pub mod Types
pub mod Seeding
pub mod SingleElim
pub mod RoundRobin
pub mod Swiss
pub mod SwissResults
pub mod MatchMap
pub mod Meetings
pub mod Tournament
pub mod Ranking
