-- ===== src/Tests.antt =====
-- The theorems at concrete inputs, and runs of the modelled code.
mod Domain
mod Queue
mod Policy
mod Schedule
mod Goals
mod Llm
mod Service
mod Workers
mod Events
mod Planner
mod Skills
mod SkillOps
mod Tables
mod Tools
mod Mcp
