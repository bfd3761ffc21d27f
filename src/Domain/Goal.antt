-- ===== src/Domain/Goal.antt =====
-- crates/forge-domain/src/goal.rs: goals, and the check that a mission's goals form a DAG.
use forge_os.Prelude.{ℕ, Text, Bool, true, false, List, []}

pub data GoalStatus : Type 0 where
  pending ready running completed failed skipped : GoalStatus

pub GoalStatus-discrete : Discrete GoalStatus
GoalStatus-discrete = hlevel

unfoldable pub is_terminal : GoalStatus → Bool
is_terminal completed = true
is_terminal failed = true
is_terminal skipped = true
is_terminal _ = false

-- `confidence` is an f32 that no code of the modelled parts computes with: it is kept in
-- hundredths. `priority` is an i32 that only orders rows.
pub record Goal : Type 0 where
  pub id : ℕ
  pub mission_id : ℕ
  pub title : Text
  pub description : Text
  pub status : GoalStatus
  pub depends_on : List ℕ
  pub confidence : ℕ
  pub priority : ℕ
  pub retries_remaining : ℕ  -- u8
  pub tasks : List ℕ

-- The fresh id is an argument.
unfoldable pub new : ℕ → ℕ → Text → Text → List ℕ → Goal
new id mission_id title description depends_on = record {
  id = id;
  mission_id = mission_id;
  title = title;
  description = description;
  status = pending;
  depends_on = depends_on;
  confidence = 50;
  priority = 0;
  retries_remaining = 2;
  tasks = [];
}
