-- ===== src/Execution/Tasks.antt =====
-- `ExecutionEngine::run_goal` of crates/forge-execution/src/lib.rs. The tasks of the goal are one
-- list: the engine writes each change of its copy to the tasks table. JSON values are those of the
-- serde_json crate, behind `Engine`. A tool's result, an approval and a cancellation are answers of
-- the environment. The texts here are UTF-8 bytes, as Rust measures and slices them.
pub mod Summary
pub mod Upstream
pub mod Gate
pub mod Progress
use forge_os.Prelude.{
  ℕ, Text, text, Bool, true, false, not, ◌&&◌, Option, none, some, List, [], ◌∷◌, ◌++◌, Result, ok,
  err, ltb, ◌+◌, if◌then◌else◌, length, any, mem, set_remove,
}
use forge_os.Domain.Goal.{Goal}
use forge_os.Domain.Task.{
  Task, TaskStatus, pending, pending_approval, running, completed, failed, cancelled, denied,
}
use forge_os.Domain.Policy.{PolicyDecision, allow, deny, require_approval}
use forge_os.Domain.Event.{
  ForgeEvent, goal_status_changed, task_started, task_completed, task_failed, tool_invoked,
  policy_denied, policy_approval_requested, policy_approval_granted, task_input_refreshed,
}
use forge_os.Domain.Goal.{GoalStatus}
use forge_os.Policy.{Rule, EvalCtx, evaluate}
use forge_os.Execution.{ToolError, invalid_input, io, exec, ExecutionError, tool_error}
use Summary.{summarize}

-- `Display` of `ToolError`.
unfoldable pub tool_error_display : ToolError → Text
tool_error_display (invalid_input tool reason) =
    text "invalid input for tool `" ++ tool ++ text "`: " ++ reason
tool_error_display (io e) = text "io error: " ++ e
tool_error_display (exec e) = text "execution error: " ++ e
tool_error_display (ToolError.policy_denied tool) =
    text "policy denied execution of tool `" ++ tool ++ text "`"

-- The injected dependencies, and the operations on JSON values that the engine uses.
pub record Engine (V : Type 0) : Type 0 where
  pub get_str : V → Text → Option Text
  pub to_json : V → Text
  pub value_eq : V → V → Bool
  pub rules : List Rule
  pub workspace : Text
  pub tools : Text → Option (V → Result ToolError V)

-- What the user does while a task, given by its id, is up: cancels the mission before it, or
-- approves it rather than cancelling while it waits; that the sender of the approval is dropped
-- counts as an approval, as it does in the code.
pub record Choices : Type 0 where
  pub is_cancelled : ℕ → Bool
  pub approves : ℕ → Bool

-- How the processing of a task ends the goal: with an error, or with a panic of its thread.
pub data Stop : Type 0 where
  failure : ExecutionError → Stop
  panic : Stop

abbrev pub status_eq : TaskStatus → TaskStatus → Bool
status_eq pending pending = true
status_eq pending_approval pending_approval = true
status_eq running running = true
status_eq completed completed = true
status_eq failed failed = true
status_eq cancelled cancelled = true
status_eq denied denied = true
status_eq _ _ = false

-- `u8::saturating_add(1)`
abbrev pub saturating_inc : ℕ → ℕ
saturating_inc n = if ltb n 255 then n + 1 else 255

module _ {V : Type 0} (eng : Engine V) (ch : Choices) where
  abbrev pub decide : Task V → PolicyDecision
  decide task =
      evaluate eng.rules (record {
        tool = task.tool;
        input = eng.get_str task.input;
        workspace_root = eng.workspace;
      })

  -- The `match tool.invoke(…)`; the summary is made before the result is saved.
  unfoldable pub finish_task : Task V → Result ToolError V → Task V × List ForgeEvent × Option Stop
  finish_task task (ok v) = elim (summarize (eng.to_json v)) [
    | some summary ↦ (
      record task { status = completed; result = some v },
      task_completed task.id summary ∷ [],
      none,
    )
    | none ↦ (task, [], some panic)
  ]
  finish_task task (err e) = (
    record task { status = failed; error = some (tool_error_display e) },
    task_failed task.id (tool_error_display e) ∷ [],
    some (failure (tool_error task.tool e)),
  )

  -- From `// Execute.` on.
  unfoldable pub execute : Task V → Task V × List ForgeEvent × Option Stop
  unfolding finish_task
  execute t =
      let task = record t { status = running; attempts = saturating_inc t.attempts } in
      let events = task_started task.id ∷ tool_invoked task.id task.tool ∷ [] in
      elim (eng.tools task.tool) [
        | none ↦
            let e = text "unknown tool: " ++ task.tool in
            (
              record task { status = failed; error = some e },
              events ++ task_failed task.id e ∷ [],
              some (failure (tool_error task.tool (exec e))),
            )
        | some invoke ↦
            let (task', more, stop) = finish_task task (invoke task.input) in
            (task', events ++ more, stop)
      ]

  -- The policy check of a task that is not completed.
  unfoldable pub check_policy : Task V → PolicyDecision → Task V × List ForgeEvent × Option Stop
  check_policy task allow = execute task
  check_policy task (deny rule reason) = (
    record task { status = denied; error = some (rule ++ text ": " ++ reason) },
    policy_denied task.id rule reason ∷ [],
    some (failure (tool_error task.tool (ToolError.policy_denied task.tool))),
  )
  check_policy task (require_approval rule reason) =
      let waiting = record task { status = pending_approval } in
      let asked = policy_approval_requested task.id rule reason in
      let (task', more, stop) = execute waiting in
      if ch.approves task.id
      then (task', asked ∷ more, stop)
      else (record task { status = cancelled }, asked ∷ [], some (failure ExecutionError.cancelled))

  -- The body of the loop over the tasks.
  unfoldable pub process_task : Task V → Task V × List ForgeEvent × Option Stop
  process_task task =
      if ch.is_cancelled task.id
      then (task, [], some (failure ExecutionError.cancelled))
      else if status_eq task.status completed
      then (task, [], none)
      else check_policy task (decide task)

  unfoldable pub run_tasks : List (Task V) → List (Task V) × List ForgeEvent × Option Stop
  run_tasks [] = ([], [], none)
  run_tasks (t ∷ ts) =
      let (t', events, stop) = process_task t in
      let (ts', more, stop') = run_tasks ts in
      elim stop [ none ↦ (t' ∷ ts', events ++ more, stop') | some s ↦ (t' ∷ ts, events, some s) ]

module _ {V : Type 0} (eng : Engine V) where
  -- The loop that takes the materializer's inputs over, for as many as there are tasks.
  unfoldable pub refresh : List (Task V) → List V → List (Task V) × List ForgeEvent
  refresh [] _ = ([], [])
  refresh (t ∷ ts) [] = (t ∷ ts, [])
  refresh (t ∷ ts) (v ∷ vs) =
      let (ts', events) = refresh ts vs in
      if status_eq t.status pending && not (eng.value_eq t.input v)
      then (record t { input = v } ∷ ts', task_input_refreshed t.id t.tool ∷ events)
      else (t ∷ ts', events)

-- `ExecutionEngine::approve_task`: the tasks that wait, and the event if this one does.
unfoldable pub approve_task : ℕ → List ℕ → List ℕ × List ForgeEvent
approve_task id waiting =
    if mem id waiting
    then (set_remove id waiting, policy_approval_granted id ∷ [])
    else (waiting, [])
