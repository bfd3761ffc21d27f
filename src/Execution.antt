-- ===== src/Execution.antt =====
-- crates/forge-execution/src/lib.rs: the engine. `Schedule` is the loop of `run_mission` over the
-- goals, `Tasks` is `run_goal`. The repositories' writes succeed here: a write that fails ends the
-- run with the error of the database.
pub mod Schedule
pub mod Tasks
use forge_os.Prelude.{ℕ, Text, Bool, true, false}

-- crates/forge-tools/src/lib.rs
pub data ToolError : Type 0 where
  invalid_input : (tool reason : Text) → ToolError
  io : Text → ToolError
  exec : Text → ToolError
  policy_denied : Text → ToolError

pub data ExecutionError : Type 0 where
  tool_error : (tool : Text) (source : ToolError) → ExecutionError
  cancelled : ExecutionError

-- The `matches!` that tells errors for which a retry is pointless.
unfoldable pub is_deterministic : ExecutionError → Bool
is_deterministic (tool_error _ (invalid_input _ _)) = true
is_deterministic (tool_error _ (policy_denied _)) = true
is_deterministic _ = false
