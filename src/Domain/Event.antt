-- ===== src/Domain/Event.antt =====
-- crates/forge-domain/src/event.rs: the events of the log. Ids, sequence numbers and counters are
-- numbers; the two f64 similarities, which are only carried, are in hundredths.
pub mod Aggregate
pub mod Prefix
pub mod Moves
use forge_os.Prelude.{ℕ, Text, String, Option, List}
use forge_os.Domain.Mission.{MissionStatus}
use forge_os.Domain.Goal.{GoalStatus}

pub data ForgeEvent : Type 0 where
  mission_created : (id : ℕ) (title : Text) → ForgeEvent
  mission_planning_started : (id : ℕ) → ForgeEvent
  mission_planning_completed : (id goal_count : ℕ) → ForgeEvent
  mission_planning_failed : (id : ℕ) (error : Text) → ForgeEvent
  mission_status_changed : (id : ℕ) (from to : MissionStatus) → ForgeEvent
  mission_cancel_requested : (id : ℕ) → ForgeEvent
  goal_created : (id mission_id : ℕ) (title : Text) (depends_on : List ℕ) → ForgeEvent
  goal_status_changed : (id : ℕ) (from to : GoalStatus) → ForgeEvent
  task_created : (id goal_id : ℕ) (tool : Text) → ForgeEvent
  task_started : (id : ℕ) → ForgeEvent
  task_completed : (id : ℕ) (result_summary : Text) → ForgeEvent
  task_failed : (id : ℕ) (error : Text) → ForgeEvent
  tool_invoked : (task_id : ℕ) (tool : Text) → ForgeEvent
  policy_denied : (task_id : ℕ) (rule reason : Text) → ForgeEvent
  policy_approval_requested : (task_id : ℕ) (rule reason : Text) → ForgeEvent
  policy_approval_granted : (task_id : ℕ) → ForgeEvent
  llm_requested : (request_id provider model : Text) (mission_id : Option ℕ) → ForgeEvent
  llm_responded :
      (request_id : Text) (latency_ms prompt_tokens completion_tokens : ℕ) (mission_id : Option ℕ)
      → ForgeEvent
  llm_failed : (request_id provider error : Text) (mission_id : Option ℕ) → ForgeEvent
  skills_selected : (mission_id : ℕ) (skill_names : List Text) → ForgeEvent
  replan_requested : (mission_id iteration : ℕ) → ForgeEvent
  plan_revised : (mission_id iteration added_goals : ℕ) → ForgeEvent
  replan_cap_exceeded : (mission_id iteration : ℕ) → ForgeEvent
  mission_reflection_completed :
      (mission_id insights_count : ℕ) (suggested_skills : List Text) → ForgeEvent
  skill_proposal_written : (mission_id : ℕ) (name path : Text) → ForgeEvent
  mcp_server_started : (name : Text) (tools : List Text) → ForgeEvent
  mcp_server_failed : (name error : Text) → ForgeEvent
  mcp_tool_invoked : (server tool : Text) (task_id : ℕ) → ForgeEvent
  task_input_refreshed : (task_id : ℕ) (tool : Text) → ForgeEvent
  mission_cost_summary :
      (mission_id llm_calls prompt_tokens completion_tokens total_latency_ms : ℕ) → ForgeEvent
  episodic_recall_surfaced :
      (mission_id : ℕ) (keywords : List Text) (prior_count : ℕ) (block_preview : Text) → ForgeEvent
  checkpoint_created :
      (sha short_sha tool : Text) (mission_id task_id : Option ℕ) (label : Text) → ForgeEvent
  checkpoint_skipped : (tool : Text) (mission_id task_id : Option ℕ) (reason : Text) → ForgeEvent
  skill_promoted :
      (name sha version origin : Text) (parent_sha : Option Text) (origin_mission_id : Option ℕ)
      → ForgeEvent
  skill_rolled_back :
      (name : Text) (from_sha : Option Text) (to_sha : Text) (reason : Option Text) → ForgeEvent
  skill_retired : (name sha reason : Text) → ForgeEvent
  skill_curation_suggested : (name kind evidence : Text) → ForgeEvent
  skill_validation_passed : (filename name : Text) (soft_failures : List Text) → ForgeEvent
  skill_validation_failed : (filename name : Text) (failed_checks : List Text) → ForgeEvent
  skill_auto_promoted : (name sha version : Text) → ForgeEvent
  skill_auto_archived :
      (archived_name archived_sha kept_name : Text) (similarity : ℕ) (rule : Text) → ForgeEvent
  skill_merge_proposed :
      (proposal_filename merged_name source_a source_b : Text) (body_similarity : ℕ) → ForgeEvent
  mission_queued : (mission_id queue_id : ℕ) → ForgeEvent
  org_memory_recalled : (mission_id : ℕ) (block_preview : Text) → ForgeEvent
  org_memory_learned : (mission_id memory_id : ℕ) (key : Text) → ForgeEvent

pub data AggregateKind : Type 0 where
  mission goal task llm plugin skill : AggregateKind

unfoldable pub as_str : AggregateKind → String
as_str mission = "mission"
as_str goal = "goal"
as_str task = "task"
as_str llm = "llm"
as_str plugin = "plugin"
as_str skill = "skill"

-- The row of the event store: sequence number, time and payload.
pub record EventEnvelope : Type 0 where
  pub seq : ℕ
  pub ts : ℕ
  pub event : ForgeEvent
