-- ===== src/Execution/Tasks/Progress.antt =====
-- How far `run_goal` of crates/forge-execution/src/lib.rs gets through the tasks of a goal, and
-- what a second run of them does.
use forge_os.Prelude.{
  ℕ, ◌≡◌, ◌≢◌, refl, subst, true, false, Option, none, some, List, [], ◌∷◌, Result, ok, err, ◌⊎◌,
  inl, inr, Bool-cases, Option-cases,
}
use forge_os.Domain.Task.{Task, completed, pending_approval}
use forge_os.Domain.Policy.{PolicyDecision, allow, deny, require_approval}
use forge_os.Execution.{ToolError}
use forge_os.Execution.Tasks.Summary.{summarize}
use forge_os.Execution.Tasks.{
  Engine, Choices, Stop, decide, finish_task, execute, check_policy, process_task, run_tasks,
  status_eq,
}

-- The task is completed exactly if its processing does not stop the goal.
abbrev IsEnded : {V : Type 0} → Task V → Option Stop → Type 0
IsEnded t none = status_eq t.status completed ≡ true
IsEnded t (some _) = status_eq t.status completed ≡ false

-- The tasks that a run leaves: a completed part, the task that stops it, and the rest as it was.
pub data Progress {V : Type 0} : List (Task V) → List (Task V) → Option Stop → Type 0 where
  all_done : Progress [] [] none
  goes_on :
      (t t' : Task V) (ts ts' : List (Task V)) (stop : Option Stop)
      → status_eq t'.status completed ≡ true
      → Progress ts ts' stop
      → Progress (t ∷ ts) (t' ∷ ts') stop
  stops :
      (t t' : Task V) (ts : List (Task V)) (s : Stop)
      → t' ≡ t ⊎ status_eq t'.status completed ≡ false
      → Progress (t ∷ ts) (t' ∷ ts) (some s)

module _ {V : Type 0} (eng : Engine V) (ch : Choices) where
  finish_task-IsEnded :
      (t : Task V) (r : Result ToolError V)
      → status_eq t.status completed ≡ false
      → IsEnded (finish_task eng ch t r).0 (finish_task eng ch t r).2
  unfolding finish_task
  finish_task-IsEnded t (err e) h = refl
  finish_task-IsEnded t (ok v) h = elim (Option-cases (summarize (eng.to_json v))) [
    | inl bad ↦ rw (bad, finish_task) h
    | inr (s, good) ↦ rw (good, finish_task) refl
  ]

  execute-IsEnded : (t : Task V) → IsEnded (execute eng ch t).0 (execute eng ch t).2
  unfolding execute
  execute-IsEnded t = elim (Option-cases (eng.tools t.tool)) [
    | inl missing ↦ rw (missing, execute) refl
    | inr (invoke, found) ↦ rw (found, execute) (finish_task-IsEnded _ (invoke t.input) refl)
  ]

  check_policy-IsEnded :
      (t : Task V) (d : PolicyDecision)
      → IsEnded (check_policy eng ch t d).0 (check_policy eng ch t d).2
  unfolding check_policy
  check_policy-IsEnded t allow = execute-IsEnded t
  check_policy-IsEnded t (deny rule reason) = refl
  check_policy-IsEnded t (require_approval rule reason) = elim (Bool-cases (ch.approves t.id)) [
    | inl approved ↦
        rw (approved, check_policy) (execute-IsEnded (record t { status = pending_approval }))
    | inr refused ↦ rw (refused, check_policy) refl
  ]

  process_task-IsEnded :
      (t : Task V)
      → ch.is_cancelled t.id ≡ false
      → IsEnded (process_task eng ch t).0 (process_task eng ch t).2
  unfolding process_task
  process_task-IsEnded t live = elim (Bool-cases (status_eq t.status completed)) [
    | inl is_done ↦ rw (live, process_task) (rw is_done is_done)
    | inr unfinished ↦
        rw (live, process_task) (rw unfinished (check_policy-IsEnded t (decide eng ch t)))
  ]

  process_task_cancelled :
      (t : Task V)
      → ch.is_cancelled t.id ≡ true
      → ((process_task eng ch t).0 ≡ t) × ((process_task eng ch t).2 ≢ none)
  unfolding process_task
  process_task_cancelled t stop = rw (stop, process_task) (refl, λ e. cc)

  process_task_passing :
      (t : Task V)
      → (process_task eng ch t).2 ≡ none
      → status_eq (process_task eng ch t).0.status completed ≡ true
  process_task_passing t e = elim (Bool-cases (ch.is_cancelled t.id)) [
    | inl stop ↦ absurd ((process_task_cancelled t stop).1 e)
    | inr live ↦ subst (λ r. IsEnded (process_task eng ch t).0 r) e (process_task-IsEnded t live)
  ]

  process_task_stopping :
      (t : Task V) (s : Stop)
      → (process_task eng ch t).2 ≡ some s
      → (process_task eng ch t).0 ≡ t ⊎ status_eq (process_task eng ch t).0.status completed ≡ false
  process_task_stopping t s e = elim (Bool-cases (ch.is_cancelled t.id)) [
    | inl stop ↦ inl (process_task_cancelled t stop).0
    | inr live ↦
        inr (subst (λ r. IsEnded (process_task eng ch t).0 r) e (process_task-IsEnded t live))
  ]

  -- A run over the tasks of a goal takes them in order. Those before the one that stops it are
  -- completed, all of them if none does; the one that stops it is not completed, or is as it was,
  -- which is the case of a cancellation; and those after it are as they were.
  pub run_tasks-Progress :
      (ts : List (Task V)) → Progress ts (run_tasks eng ch ts).0 (run_tasks eng ch ts).2
  unfolding run_tasks
  run_tasks-Progress [] = all_done
  run_tasks-Progress (t ∷ ts) = elim (Option-cases (process_task eng ch t).2) [
    | inl on ↦
        rw (on, run_tasks) (goes_on t _ ts _ _ (process_task_passing t on) (run_tasks-Progress ts))
    | inr (s, stop) ↦ rw (stop, run_tasks) (stops t _ ts s (process_task_stopping t s stop))
  ]

module _ {V : Type 0} (eng : Engine V) (ch : Choices) where
  process_task_completed :
      (t : Task V)
      → ch.is_cancelled t.id ≡ false
      → status_eq t.status completed ≡ true
      → ((process_task eng ch t).0 ≡ t)
        × ((process_task eng ch t).1 ≡ [])
        × ((process_task eng ch t).2 ≡ none)
  unfolding process_task
  process_task_completed t live is_done = rw (live, process_task) (rw is_done (refl, refl, refl))

  Progress_resumes :
      (ts ts' : List (Task V)) (stop : Option Stop)
      → ((id : ℕ) → ch.is_cancelled id ≡ false)
      → Progress ts ts' stop
      → stop ≡ none
      → run_tasks eng ch ts' ≡ (ts', [], none)
  unfolding run_tasks
  Progress_resumes _ _ _ live all_done e = refl
  Progress_resumes _ _ _ live (goes_on t t' ts ts' stop is_done p) e =
      let (same, quiet, on) = process_task_completed t' (live t'.id) is_done in
      rw (on, run_tasks) (rw (same, quiet, Progress_resumes ts ts' stop live p e) refl)
  Progress_resumes _ _ _ live (stops t t' ts s h) e = cc

  -- A goal whose tasks all ran can be run again, as a retry or after a restart, at no cost: where
  -- no cancellation comes, the second run changes no task, invokes no tool and succeeds.
  pub run_tasks_resumes :
      (before : Choices) (ts : List (Task V))
      → ((id : ℕ) → ch.is_cancelled id ≡ false)
      → (run_tasks eng before ts).2 ≡ none
      → run_tasks eng ch (run_tasks eng before ts).0 ≡ ((run_tasks eng before ts).0, [], none)
  run_tasks_resumes before ts live =
      Progress_resumes ts (run_tasks eng before ts).0 (run_tasks eng before ts).2 live
        (run_tasks-Progress eng before ts)
