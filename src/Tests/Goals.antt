-- ===== src/Tests/Goals.antt =====
-- Runs over the tasks of a goal of crates/forge-execution.
use forge_os.Prelude.{
  ℕ, ◌≡◌, ◌≤◌, refl, Text, text, text_eq, false, some, none, List, [], ◌∷◌, All, ok, arith, length,
  if◌then◌else◌,
}
use forge_os.Domain.Goal.{Goal}
use forge_os.Domain.Goal
use forge_os.Domain.Task.{Task, completed, new}
use forge_os.Domain.Event.{task_started, tool_invoked, task_completed, task_failed}
use forge_os.Policy.{evaluate}
use forge_os.Execution.Tasks.Summary.{summarize}
use forge_os.Execution.Tasks.{
  Engine, Choices, finish_task, execute, check_policy, process_task, run_tasks, tool_error_display,
}
use forge_os.Execution.Tasks.Gate.{IsGated, run_tasks-IsGated}
use forge_os.Execution.Tasks.Progress.{Progress, run_tasks-Progress, run_tasks_resumes}
use forge_os.Execution.Tasks.Upstream.{
  UpstreamResult, gather_upstream_results, gather_tasks, gather_upstream_results-le,
}

-- One tool, which gives its input back, and no rules.
abbrev eng : Engine Text
eng = record {
  get_str = λ v key. some v;
  to_json = λ v. v;
  value_eq = text_eq;
  rules = [];
  workspace = text "/w";
  tools = λ name. if text_eq name (text "echo") then some (λ v. ok v) else none;
}

abbrev ch : Choices
ch = record { is_cancelled = λ _. false; approves = λ _. false }

abbrev task : ℕ → Text → Task Text
task id tool = new id 1 tool (text "hi")

abbrev two_tasks : List (Task Text)
two_tasks = task 1 (text "echo") ∷ task 2 (text "sing") ∷ []

opened : Unit {0}
unfolding run_tasks new process_task text_eq check_policy execute finish_task summarize evaluate
    tool_error_display
opened = tt

two_tasks_log :
    (run_tasks eng ch two_tasks).1
    ≡ task_started 1
      ∷ tool_invoked 1 (text "echo")
      ∷ task_completed 1 (text "hi")
      ∷ task_started 2
      ∷ tool_invoked 2 (text "sing")
      ∷ task_failed 2 (text "unknown tool: sing")
      ∷ []
unfolding opened
two_tasks_log = refl

run_tasks-IsGated_example : All (IsGated eng ch two_tasks) (run_tasks eng ch two_tasks).1
run_tasks-IsGated_example = run_tasks-IsGated eng ch two_tasks

run_tasks-Progress_example :
    Progress two_tasks (run_tasks eng ch two_tasks).0 (run_tasks eng ch two_tasks).2
run_tasks-Progress_example = run_tasks-Progress eng ch two_tasks

abbrev one_task : List (Task Text)
one_task = task 1 (text "echo") ∷ []

one_task_runs : (run_tasks eng ch one_task).2 ≡ none
unfolding opened
one_task_runs = refl

run_tasks_resumes_example :
    run_tasks eng ch (run_tasks eng ch one_task).0 ≡ ((run_tasks eng ch one_task).0, [], none)
run_tasks_resumes_example = run_tasks_resumes eng ch ch one_task (λ _. refl) one_task_runs

abbrev upstream_goal : Goal
upstream_goal = forge_os.Domain.Goal.new 7 1 (text "find") [] []

abbrev found_task : Task Text
found_task = record (task 3 (text "echo")) { status = completed; result = some (text "x") }

abbrev found : List UpstreamResult
found = record { goal_title = text "find"; tool = text "echo"; result_summary = text "x" } ∷ []

upstream_found :
    gather_upstream_results eng (λ _. some upstream_goal) (λ _. found_task ∷ []) (7 ∷ []) []
    ≡ some found
unfolding gather_upstream_results gather_tasks summarize new forge_os.Domain.Goal.new
upstream_found = refl

gather_upstream_results-le_example : length found ≤ 6
gather_upstream_results-le_example =
    gather_upstream_results-le eng (λ _. some upstream_goal) (λ _. found_task ∷ []) (7 ∷ []) []
      found (omega arith) upstream_found
