-- ===== src/Domain/Event/Aggregate.antt =====
-- `ForgeEvent::aggregate_id`, `kind` and `event_type` of crates/forge-domain/src/event.rs.
use forge_os.Prelude.{ℕ, Text, text, String, ◌++◌, none, some}
use forge_os.Domain.Event.{
  ForgeEvent, AggregateKind, mission, goal, task, llm, plugin, skill, mission_created,
  mission_planning_started, mission_planning_completed, mission_planning_failed,
  mission_status_changed, mission_cancel_requested, goal_created, goal_status_changed, task_created,
  task_started, task_completed, task_failed, tool_invoked, policy_denied, policy_approval_requested,
  policy_approval_granted, llm_requested, llm_responded, llm_failed, skills_selected,
  replan_requested, plan_revised, replan_cap_exceeded, mission_reflection_completed,
  skill_proposal_written, mcp_server_started, mcp_server_failed, mcp_tool_invoked,
  task_input_refreshed, mission_cost_summary, episodic_recall_surfaced, checkpoint_created,
  checkpoint_skipped, skill_promoted, skill_rolled_back, skill_retired, skill_curation_suggested,
  skill_validation_passed, skill_validation_failed, skill_auto_promoted, skill_auto_archived,
  skill_merge_proposed, mission_queued, org_memory_recalled, org_memory_learned,
}

-- The `Display` of the ids of crates/forge-domain/src/ids.rs, over that of the uuid crate.
module _ (uuid_display : ℕ → Text) where
  unfoldable pub mission_display : ℕ → Text
  mission_display id = text "msn_" ++ uuid_display id

  unfoldable pub goal_display : ℕ → Text
  goal_display id = text "gol_" ++ uuid_display id

  unfoldable pub task_display : ℕ → Text
  task_display id = text "tsk_" ++ uuid_display id

  unfoldable pub aggregate_id : ForgeEvent → Text
  unfolding mission_display goal_display task_display
  aggregate_id (mission_created id _) = mission_display id
  aggregate_id (mission_planning_started id) = mission_display id
  aggregate_id (mission_planning_completed id _) = mission_display id
  aggregate_id (mission_planning_failed id _) = mission_display id
  aggregate_id (mission_status_changed id _ _) = mission_display id
  aggregate_id (mission_cancel_requested id) = mission_display id
  aggregate_id (goal_created id _ _ _) = goal_display id
  aggregate_id (goal_status_changed id _ _) = goal_display id
  aggregate_id (task_created id _ _) = task_display id
  aggregate_id (task_started id) = task_display id
  aggregate_id (task_completed id _) = task_display id
  aggregate_id (task_failed id _) = task_display id
  aggregate_id (tool_invoked task_id _) = task_display task_id
  aggregate_id (policy_denied task_id _ _) = task_display task_id
  aggregate_id (policy_approval_requested task_id _ _) = task_display task_id
  aggregate_id (policy_approval_granted task_id) = task_display task_id
  aggregate_id (llm_requested request_id _ _ _) = text "llm_" ++ request_id
  aggregate_id (llm_responded request_id _ _ _ _) = text "llm_" ++ request_id
  aggregate_id (llm_failed request_id _ _ _) = text "llm_" ++ request_id
  aggregate_id (skills_selected mission_id _) = mission_display mission_id
  aggregate_id (replan_requested mission_id _) = mission_display mission_id
  aggregate_id (plan_revised mission_id _ _) = mission_display mission_id
  aggregate_id (replan_cap_exceeded mission_id _) = mission_display mission_id
  aggregate_id (mission_reflection_completed mission_id _ _) = mission_display mission_id
  aggregate_id (skill_proposal_written mission_id _ _) = mission_display mission_id
  aggregate_id (mcp_server_started name _) = text "mcp_" ++ name
  aggregate_id (mcp_server_failed name _) = text "mcp_" ++ name
  aggregate_id (mcp_tool_invoked server tool _) = text "mcp_" ++ server ++ text "_" ++ tool
  aggregate_id (task_input_refreshed task_id _) = task_display task_id
  aggregate_id (mission_cost_summary mission_id _ _ _ _) = mission_display mission_id
  aggregate_id (episodic_recall_surfaced mission_id _ _ _) = mission_display mission_id
  aggregate_id (checkpoint_created sha _ _ _ _ _) = text "checkpoint_" ++ sha
  aggregate_id (checkpoint_skipped _ _ task_id _) = elim task_id [
    | some t ↦ task_display t
    | none ↦ text "checkpoint_skip"
  ]
  aggregate_id (skill_promoted name _ _ _ _ _) = text "skill_" ++ name
  aggregate_id (skill_rolled_back name _ _ _) = text "skill_" ++ name
  aggregate_id (skill_retired name _ _) = text "skill_" ++ name
  aggregate_id (skill_curation_suggested name _ _) = text "skill_" ++ name
  aggregate_id (skill_validation_passed _ name _) = text "skill_" ++ name
  aggregate_id (skill_validation_failed _ name _) = text "skill_" ++ name
  aggregate_id (skill_auto_promoted name _ _) = text "skill_" ++ name
  aggregate_id (skill_auto_archived archived_name _ _ _ _) = text "skill_" ++ archived_name
  aggregate_id (skill_merge_proposed _ merged_name _ _ _) = text "skill_" ++ merged_name
  aggregate_id (mission_queued mission_id _) = mission_display mission_id
  aggregate_id (org_memory_recalled mission_id _) = mission_display mission_id
  aggregate_id (org_memory_learned mission_id _ _) = mission_display mission_id

unfoldable pub kind : ForgeEvent → AggregateKind
kind (mission_created _ _) = mission
kind (mission_planning_started _) = mission
kind (mission_planning_completed _ _) = mission
kind (mission_planning_failed _ _) = mission
kind (mission_status_changed _ _ _) = mission
kind (mission_cancel_requested _) = mission
kind (goal_created _ _ _ _) = goal
kind (goal_status_changed _ _ _) = goal
kind (task_created _ _ _) = task
kind (task_started _) = task
kind (task_completed _ _) = task
kind (task_failed _ _) = task
kind (tool_invoked _ _) = task
kind (policy_denied _ _ _) = task
kind (policy_approval_requested _ _ _) = task
kind (policy_approval_granted _) = task
kind (llm_requested _ _ _ _) = llm
kind (llm_responded _ _ _ _ _) = llm
kind (llm_failed _ _ _ _) = llm
kind (skills_selected _ _) = mission
kind (replan_requested _ _) = mission
kind (plan_revised _ _ _) = mission
kind (replan_cap_exceeded _ _) = mission
kind (mission_reflection_completed _ _ _) = mission
kind (skill_proposal_written _ _ _) = mission
kind (mcp_server_started _ _) = plugin
kind (mcp_server_failed _ _) = plugin
kind (mcp_tool_invoked _ _ _) = plugin
kind (task_input_refreshed _ _) = task
kind (mission_cost_summary _ _ _ _ _) = mission
kind (episodic_recall_surfaced _ _ _ _) = mission
kind (checkpoint_created _ _ _ _ _ _) = mission
kind (checkpoint_skipped _ _ _ _) = mission
kind (skill_promoted _ _ _ _ _ _) = skill
kind (skill_rolled_back _ _ _ _) = skill
kind (skill_retired _ _ _) = skill
kind (skill_curation_suggested _ _ _) = skill
kind (skill_validation_passed _ _ _) = skill
kind (skill_validation_failed _ _ _) = skill
kind (skill_auto_promoted _ _ _) = skill
kind (skill_auto_archived _ _ _ _ _) = skill
kind (skill_merge_proposed _ _ _ _ _) = skill
kind (mission_queued _ _) = mission
kind (org_memory_recalled _ _) = mission
kind (org_memory_learned _ _ _) = mission

unfoldable pub event_type : ForgeEvent → String
event_type (mission_created _ _) = "mission_created"
event_type (mission_planning_started _) = "mission_planning_started"
event_type (mission_planning_completed _ _) = "mission_planning_completed"
event_type (mission_planning_failed _ _) = "mission_planning_failed"
event_type (mission_status_changed _ _ _) = "mission_status_changed"
event_type (mission_cancel_requested _) = "mission_cancel_requested"
event_type (goal_created _ _ _ _) = "goal_created"
event_type (goal_status_changed _ _ _) = "goal_status_changed"
event_type (task_created _ _ _) = "task_created"
event_type (task_started _) = "task_started"
event_type (task_completed _ _) = "task_completed"
event_type (task_failed _ _) = "task_failed"
event_type (tool_invoked _ _) = "tool_invoked"
event_type (policy_denied _ _ _) = "policy_denied"
event_type (policy_approval_requested _ _ _) = "policy_approval_requested"
event_type (policy_approval_granted _) = "policy_approval_granted"
event_type (llm_requested _ _ _ _) = "llm_requested"
event_type (llm_responded _ _ _ _ _) = "llm_responded"
event_type (llm_failed _ _ _ _) = "llm_failed"
event_type (skills_selected _ _) = "skills_selected"
event_type (replan_requested _ _) = "replan_requested"
event_type (plan_revised _ _ _) = "plan_revised"
event_type (replan_cap_exceeded _ _) = "replan_cap_exceeded"
event_type (mission_reflection_completed _ _ _) = "mission_reflection_completed"
event_type (skill_proposal_written _ _ _) = "skill_proposal_written"
event_type (mcp_server_started _ _) = "mcp_server_started"
event_type (mcp_server_failed _ _) = "mcp_server_failed"
event_type (mcp_tool_invoked _ _ _) = "mcp_tool_invoked"
event_type (task_input_refreshed _ _) = "task_input_refreshed"
event_type (mission_cost_summary _ _ _ _ _) = "mission_cost_summary"
event_type (episodic_recall_surfaced _ _ _ _) = "episodic_recall_surfaced"
event_type (checkpoint_created _ _ _ _ _ _) = "checkpoint_created"
event_type (checkpoint_skipped _ _ _ _) = "checkpoint_skipped"
event_type (skill_promoted _ _ _ _ _ _) = "skill_promoted"
event_type (skill_rolled_back _ _ _ _) = "skill_rolled_back"
event_type (skill_retired _ _ _) = "skill_retired"
event_type (skill_curation_suggested _ _ _) = "skill_curation_suggested"
event_type (skill_validation_passed _ _ _) = "skill_validation_passed"
event_type (skill_validation_failed _ _ _) = "skill_validation_failed"
event_type (skill_auto_promoted _ _ _) = "skill_auto_promoted"
event_type (skill_auto_archived _ _ _ _ _) = "skill_auto_archived"
event_type (skill_merge_proposed _ _ _ _ _) = "skill_merge_proposed"
event_type (mission_queued _ _) = "mission_queued"
event_type (org_memory_recalled _ _) = "org_memory_recalled"
event_type (org_memory_learned _ _ _) = "org_memory_learned"
