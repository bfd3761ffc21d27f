-- ===== src/Lib.antt =====
-- Forge OS: a verification library of the runtime's core logic (crates/).
--
-- A mission is created as a draft, planned into a DAG of goals with tasks, executed goal by goal
-- with each tool call passing the policy engine, re-planned, and finally flipped to a terminal
-- status. Every change is an event of an append-only log, and a persisted queue hands missions to
-- worker processes.
--
-- Which file models which part:
--   Prelude               shared names, Boolean tests, lists as finite sets, text as code points
--   Domain.Mission        crates/forge-domain/src/mission.rs: `MissionStatus::can_transition`,
--                         `Mission::transition_to`; Lifecycle is the relation of accepted moves
--   Domain.Goal, Task,    crates/forge-domain/src/goal.rs, task.rs, policy.rs
--   Policy
--   Domain.Event          crates/forge-domain/src/event.rs: `ForgeEvent`, `aggregate_id`, `kind`
--   Persistence.Status    crates/forge-persistence/src/sqlite.rs: statuses as words in columns
--   Persistence.Queue     crates/forge-persistence/src/sqlite.rs: `SqliteMissionQueueRepository`
--   Persistence.Events    crates/forge-persistence/src/sqlite.rs: `SqliteEventStore`, and
--                         crates/forge-events/src/lib.rs: `EventBus`
--   Planner               crates/forge-planner/src/lib.rs: Fences is how the JSON is taken out of an
--                         answer, the parent module has `parse_and_validate`, `materialize` and
--                         `materialize_delta`, Inputs is `parse_materialize`, Calls has
--                         `Planner::plan` and `Planner::replan`
--   Skills                crates/forge-skills/src: the parent module is format.rs, Files proposal.rs,
--                         Validate validate.rs, Load loader.rs, Registry registry.rs; Version has
--                         both comparisons of versions, Sort is `slice::sort_by`
--   Persistence.Tables    crates/forge-persistence/src/sqlite.rs: `SqliteMissionRepository`,
--                         `SqliteGoalRepository`, `SqliteTaskRepository`, `SqliteReflectionRepository`
--   Persistence.          crates/forge-persistence/src/sqlite.rs: `SqliteSkillHistoryRepository`
--   SkillHistory
--   SkillOps              crates/forge-runtime/src/skills_ops.rs: `SkillOps` over the folders, the table
--                         and the content store of crates/forge-skills/src/versions.rs; Promote has
--                         `promote_from_proposal`, Rollback `retire`, `rollback` and
--                         `seed_missing_history`
--   Policy                crates/forge-policy/src/lib.rs: `PolicyEngine::evaluate` and `regex_lite`
--   Execution.Schedule    crates/forge-execution/src/lib.rs: `ExecutionEngine::run_mission`
--   Execution.Tasks       crates/forge-execution/src/lib.rs: `ExecutionEngine::run_goal`,
--                         `gather_upstream_results`, `summarize`
--   Llm                   crates/forge-llm/src/lib.rs: `LlmRouter` with its circuit breakers and
--                         the cost buckets of missions
--   Service               crates/forge-mission/src/lib.rs: Plan is `plan_only`, Replan is
--                         `run_with_replan_loop`, Lifetime is `plan_and_run_sync` and `extend`,
--                         Truncate is `truncate`; Waves shows that Execution.Schedule is an executor
--                         that the service can rely on
--   Tools                 crates/forge-tools/src/builtins.rs: `safe_resolve`
--   Mcp                   crates/forge-mcp/src/client.rs: `call_raw` and `pump` as steps of one history
--   Workers               crates/forge-runtime/src/worker_pool.rs: workers and janitor over the queue
--   Tests                 runs of the code, and the theorems at concrete inputs
--
-- How the state corresponds: a struct is a record with the source's fields, an enum a data type
-- with the source's variants in snake case, a table the list of its rows. Ids (UUIDs, i64 row ids)
-- and timestamps are natural numbers, passed in where the source draws a fresh id or reads the
-- clock. A HashSet of ids is a duplicate-free list. Text is a list of code points; fixed words that
-- are only compared are native strings.
--
-- Bounds and fuel: the loop of `run_mission` runs on fuel, one unit for each round, and
-- Execution.Schedule.Measure shows how much is enough. The search for a free file name in
-- `retire_active_skill` runs on one unit more than there are archived files, which
-- Skills.Files.Free shows to be enough. The decimal digits of a number are read off
-- on fuel above it. Every other loop is structural recursion.
-- The ids of an MCP client are a u64 that wraps: Mcp.Matched speaks of histories too short for that.
--
-- What comes from other crates is an argument: the JSON and YAML parsers, the hash, the model behind
-- the router. So is the Unicode table of `to_lowercase`.
--
-- What is not modelled: the prompts' fixed texts, network and file input and output, the async
-- runtime (which goal finishes in which round, and when a cancellation arrives, is an argument),
-- logging, the desktop, gateway and CLI front ends, the curator of skills. For the services,
-- writes to the database succeed, but for the insertion of a goal or a task whose id is there or whose
-- goal is not; any other error of SQLite ends the running operation and is passed up. Reads and writes
-- of skill files succeed too. An `enqueue` is two statements, between which others can run.
pub mod Prelude
pub mod Domain
pub mod Persistence
pub mod Planner
pub mod Skills
pub mod Policy
pub mod Execution
pub mod Llm
pub mod Service
pub mod SkillOps
pub mod Tools
pub mod Mcp
pub mod Workers
mod Tests
