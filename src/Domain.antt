-- ===== src/Domain.antt =====
-- crates/forge-domain: the pure types of missions, goals, tasks, policies and events.
pub mod Mission
pub mod Goal
pub mod Task
pub mod Policy
pub mod Event
