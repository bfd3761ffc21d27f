-- ===== src/Persistence.antt =====
-- crates/forge-persistence: the tables behind the repositories.
pub mod Status
pub mod Queue
pub mod Events
pub mod SkillHistory
pub mod Tables
