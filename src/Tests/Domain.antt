-- ===== src/Tests/Domain.antt =====
-- Runs of the code of crates/forge-domain and of the status columns.
use forge_os.Prelude.{◌≡◌, refl, text, starts_with, true, err, [], ◌⊎◌, ◌≢◌, false}
use forge_os.Domain.Mission.{
  MissionStatus, draft, planning, ready, running, completed, failed, can_transition, is_terminal,
  new_draft, transition_to, invalid_transition,
}
use forge_os.Domain.Mission.Lifecycle.{
  ◌⟶*◌, here, then, Visits, completed-Visits, terminal_only_reopens,
}
use forge_os.Domain.Goal.{GoalStatus}
use forge_os.Domain.Task.{TaskStatus}
use forge_os.Domain.Event.{ForgeEvent}
use forge_os.Domain.Event.Aggregate.{aggregate_id, kind}
use forge_os.Domain.Event.Prefix.{kind_prefix, aggregate_id_prefix}
use forge_os.Persistence.Status.{
  mission_status_str, parse_mission_status, goal_status_str, parse_goal_status, task_status_str,
  parse_task_status, status_columns_roundtrip,
}

ready_is_not_paused :
    transition_to 7 MissionStatus.paused (new_draft 1 0 [] [])
    ≡ err (invalid_transition draft MissionStatus.paused)
unfolding transition_to new_draft
ready_is_not_paused = refl

straight : draft ⟶* completed
unfolding can_transition
straight =
    then {u = completed}
      (then {u = running} (then {u = ready} (then {u = planning} here refl) refl) refl) refl

completed-Visits_example :
    Visits planning straight × Visits ready straight × Visits running straight
completed-Visits_example = completed-Visits straight

only_terminal_reopens :
    ((is_terminal failed ≡ true) × (draft ≡ draft))
    ⊎ ((is_terminal failed ≡ false) × (draft ≢ draft))
unfolding can_transition
only_terminal_reopens = terminal_only_reopens failed draft refl

prefix_of_started :
    starts_with
      (aggregate_id (λ _. text "7") (ForgeEvent.task_started 3))
      (kind_prefix (kind (ForgeEvent.task_started 3)))
    ≡ true
prefix_of_started = aggregate_id_prefix (λ _. text "7") (ForgeEvent.task_started 3) refl

status_of_each :
    (parse_mission_status (mission_status_str ready) ≡ ready)
    × (parse_goal_status (goal_status_str GoalStatus.skipped) ≡ GoalStatus.skipped)
    × (parse_task_status (task_status_str TaskStatus.denied) ≡ TaskStatus.denied)
status_of_each = status_columns_roundtrip ready GoalStatus.skipped TaskStatus.denied
