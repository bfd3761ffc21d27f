-- ===== src/Domain/Task.antt =====
-- crates/forge-domain/src/task.rs. `V` is the JSON value type of the serde_json crate.
use forge_os.Prelude.{ℕ, Text, Option, none}

pub data TaskStatus : Type 0 where
  pending pending_approval running completed failed cancelled denied : TaskStatus

pub TaskStatus-discrete : Discrete TaskStatus
TaskStatus-discrete = hlevel

pub record Task (V : Type 0) : Type 0 where
  pub id : ℕ
  pub goal_id : ℕ
  pub tool : Text
  pub input : V
  pub status : TaskStatus
  pub result : Option V
  pub error : Option Text
  pub attempts : ℕ  -- u8

-- The fresh id is an argument.
unfoldable pub new : {V : Type 0} → ℕ → ℕ → Text → V → Task V
new id goal_id tool input = record {
  id = id;
  goal_id = goal_id;
  tool = tool;
  input = input;
  status = pending;
  result = none;
  error = none;
  attempts = 0;
}
