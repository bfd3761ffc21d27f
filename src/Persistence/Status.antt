-- ===== src/Persistence/Status.antt =====
-- crates/forge-persistence/src/sqlite.rs and lib.rs: the words that stand for statuses in columns.
use text.Mathlib.Text.{◌==◌ as str_eq}
use forge_os.Prelude.{String, ◌≡◌, refl, if◌then◌else◌}
use forge_os.Domain.Mission.{
  MissionStatus, draft, planning, ready, running, paused, completed, failed, cancelled,
}
use forge_os.Domain.Goal.{GoalStatus}
use forge_os.Domain.Task.{TaskStatus}

unfoldable pub mission_status_str : MissionStatus → String
mission_status_str draft = "draft"
mission_status_str planning = "planning"
mission_status_str ready = "ready"
mission_status_str running = "running"
mission_status_str paused = "paused"
mission_status_str completed = "completed"
mission_status_str failed = "failed"
mission_status_str cancelled = "cancelled"

unfoldable pub parse_mission_status : String → MissionStatus
parse_mission_status s =
    if str_eq s "planning"
    then planning
    else if str_eq s "ready"
    then ready
    else if str_eq s "running"
    then running
    else if str_eq s "paused"
    then paused
    else if str_eq s "completed"
    then completed
    else if str_eq s "failed"
    then failed
    else if str_eq s "cancelled"
    then cancelled
    else draft

unfoldable pub goal_status_str : GoalStatus → String
goal_status_str GoalStatus.pending = "pending"
goal_status_str GoalStatus.ready = "ready"
goal_status_str GoalStatus.running = "running"
goal_status_str GoalStatus.completed = "completed"
goal_status_str GoalStatus.failed = "failed"
goal_status_str GoalStatus.skipped = "skipped"

unfoldable pub parse_goal_status : String → GoalStatus
parse_goal_status s =
    if str_eq s "ready"
    then GoalStatus.ready
    else if str_eq s "running"
    then GoalStatus.running
    else if str_eq s "completed"
    then GoalStatus.completed
    else if str_eq s "failed"
    then GoalStatus.failed
    else if str_eq s "skipped"
    then GoalStatus.skipped
    else GoalStatus.pending

unfoldable pub task_status_str : TaskStatus → String
task_status_str TaskStatus.pending = "pending"
task_status_str TaskStatus.pending_approval = "pending_approval"
task_status_str TaskStatus.running = "running"
task_status_str TaskStatus.completed = "completed"
task_status_str TaskStatus.failed = "failed"
task_status_str TaskStatus.cancelled = "cancelled"
task_status_str TaskStatus.denied = "denied"

unfoldable pub parse_task_status : String → TaskStatus
parse_task_status s =
    if str_eq s "pending_approval"
    then TaskStatus.pending_approval
    else if str_eq s "running"
    then TaskStatus.running
    else if str_eq s "completed"
    then TaskStatus.completed
    else if str_eq s "failed"
    then TaskStatus.failed
    else if str_eq s "cancelled"
    then TaskStatus.cancelled
    else if str_eq s "denied"
    then TaskStatus.denied
    else TaskStatus.pending

parse_mission_status_str : (s : MissionStatus) → parse_mission_status (mission_status_str s) ≡ s
unfolding parse_mission_status mission_status_str
parse_mission_status_str draft = refl
parse_mission_status_str _ = refl

parse_goal_status_str : (s : GoalStatus) → parse_goal_status (goal_status_str s) ≡ s
unfolding parse_goal_status goal_status_str
parse_goal_status_str GoalStatus.pending = refl
parse_goal_status_str _ = refl

parse_task_status_str : (s : TaskStatus) → parse_task_status (task_status_str s) ≡ s
unfolding parse_task_status task_status_str
parse_task_status_str TaskStatus.pending = refl
parse_task_status_str _ = refl

-- Every status of a mission, a goal and a task is read back from its column as it was written.
pub status_columns_roundtrip :
    (m : MissionStatus) (g : GoalStatus) (t : TaskStatus)
    → (parse_mission_status (mission_status_str m) ≡ m)
      × (parse_goal_status (goal_status_str g) ≡ g)
      × (parse_task_status (task_status_str t) ≡ t)
status_columns_roundtrip m g t =
    (parse_mission_status_str m, parse_goal_status_str g, parse_task_status_str t)
