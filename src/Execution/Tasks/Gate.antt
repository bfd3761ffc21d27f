-- ===== src/Execution/Tasks/Gate.antt =====
-- The policy gate of `run_goal` in crates/forge-execution/src/lib.rs.
use forge_os.Prelude.{
  ℕ, ◌≡◌, refl, sym, subst, Text, true, false, Option, none, some, List, [], ◌∷◌, Result, ok, err,
  ◌⊎◌, inl, inr, All, All-append, Bool-cases, Option-cases,
}
use forge_os.Domain.Task.{Task, completed, pending_approval}
use forge_os.Domain.Policy.{PolicyDecision, allow, deny, require_approval}
use forge_os.Domain.Event.{ForgeEvent, tool_invoked}
use forge_os.Execution.{ToolError}
use forge_os.Execution.Tasks.Summary.{summarize}
use forge_os.Execution.Tasks.{
  Engine, Choices, decide, finish_task, execute, check_policy, process_task, run_tasks, status_eq,
}

-- The task id and the tool of an invocation.
abbrev pub invoked : ForgeEvent → Option (ℕ × Text)
invoked (tool_invoked id tool) = some (id, tool)
invoked _ = none

-- An event that is an invocation is that of the given task and tool.
abbrev Invokes : ℕ × Text → ForgeEvent → Type 0
Invokes q e = (p : ℕ × Text) → invoked e ≡ some p → q ≡ p

weaken {ℓ κ} :
    {A : Type ℓ} (P Q : A → Type κ) (xs : List A) → ((x : A) → P x → Q x) → All P xs → All Q xs
weaken P Q [] f h = tt
weaken P Q (x ∷ xs) f h = (f x h.0, weaken P Q xs f h.1)

module _ {V : Type 0} (eng : Engine V) (ch : Choices) where
  finish_task-Invokes :
      (t : Task V) (r : Result ToolError V) (q : ℕ × Text)
      → All (Invokes q) (finish_task eng ch t r).1
  unfolding finish_task
  finish_task-Invokes t (err e) q = ((λ p h. cc), tt)
  finish_task-Invokes t (ok v) q = elim (Option-cases (summarize (eng.to_json v))) [
    | inl bad ↦ rw (bad, finish_task) tt
    | inr (s, good) ↦ rw (good, finish_task) ((λ p h. cc), tt)
  ]

  execute-Invokes : (t : Task V) → All (Invokes (t.id, t.tool)) (execute eng ch t).1
  unfolding execute
  execute-Invokes t = elim (Option-cases (eng.tools t.tool)) [
    | inl missing ↦ rw (missing, execute) ((λ p h. cc), ((λ p h. cc), ((λ p h. cc), tt)))
    | inr (invoke, found) ↦
        rw (found, execute)
          ((λ p h. cc), ((λ p h. cc), finish_task-Invokes _ (invoke t.input) (t.id, t.tool)))
  ]

  -- The policy allows the call of the task, or the user approved it.
  abbrev pub IsAdmitted : Task V → PolicyDecision → Type 0
  IsAdmitted t allow = Unit
  IsAdmitted t (deny _ _) = ⊥
  IsAdmitted t (require_approval _ _) = ch.approves t.id ≡ true

  pub record MayRun (t : Task V) : Type 0 where
    pub admitted : IsAdmitted t (decide eng ch t)
    pub live : ch.is_cancelled t.id ≡ false
    pub unfinished : status_eq t.status completed ≡ false

  -- The task and the tool of an invocation are those of a task of the list which may run.
  abbrev pub IsOneOf : List (Task V) → ℕ × Text → Type 0
  IsOneOf [] p = ⊥
  IsOneOf (t ∷ ts) p = ((t.id, t.tool) ≡ p) × MayRun t ⊎ IsOneOf ts p

  abbrev pub IsGated : List (Task V) → ForgeEvent → Type 0
  IsGated ts e = (p : ℕ × Text) → invoked e ≡ some p → IsOneOf ts p

  gated :
      (t : Task V) (ts : List (Task V)) (events : List ForgeEvent)
      → MayRun t
      → All (Invokes (t.id, t.tool)) events
      → All (IsGated (t ∷ ts)) events
  gated t ts events may h =
      weaken (Invokes (t.id, t.tool)) (IsGated (t ∷ ts)) events (λ e inv p is. inl (inv p is, may))
        h

  check_policy-IsGated :
      (t : Task V) (ts : List (Task V)) (d : PolicyDecision)
      → decide eng ch t ≡ d
      → ch.is_cancelled t.id ≡ false
      → status_eq t.status completed ≡ false
      → All (IsGated (t ∷ ts)) (check_policy eng ch t d).1
  unfolding check_policy
  check_policy-IsGated t ts allow e live unfinished =
      gated t ts (execute eng ch t).1
        (record {
          admitted = subst (IsAdmitted t) (sym e) tt;
          live = live;
          unfinished = unfinished;
        })
        (execute-Invokes t)
  check_policy-IsGated t ts (deny rule reason) e live unfinished = ((λ p h. cc), tt)
  check_policy-IsGated t ts (require_approval rule reason) e live unfinished =
      elim (Bool-cases (ch.approves t.id)) [
        | inl approved ↦
            rw (approved, check_policy)
              (
                (λ p h. cc),
                gated t ts (execute eng ch (record t { status = pending_approval })).1
                    (record {
                      admitted = subst (IsAdmitted t) (sym e) approved;
                      live = live;
                      unfinished = unfinished;
                    })
                    (execute-Invokes (record t { status = pending_approval })),
              )
        | inr refused ↦ rw (refused, check_policy) ((λ p h. cc), tt)
      ]

  process_task-IsGated :
      (t : Task V) (ts : List (Task V)) → All (IsGated (t ∷ ts)) (process_task eng ch t).1
  unfolding process_task
  process_task-IsGated t ts = elim (Bool-cases (ch.is_cancelled t.id)) [
    | inl stop ↦ rw (stop, process_task) tt
    | inr live ↦ elim (Bool-cases (status_eq t.status completed)) [
      | inl is_done ↦ rw (live, process_task) (rw is_done tt)
      | inr unfinished ↦
          rw (live, process_task)
            (rw unfinished (check_policy-IsGated t ts (decide eng ch t) refl live unfinished))
    ]
  ]

  -- In a run over the tasks of a goal, every tool invocation in the event log is that of a task
  -- that was not completed, whose goal was not cancelled before it, and whose call the policy
  -- engine allows, or sends for approval and the user approved. A denied task invokes nothing.
  pub run_tasks-IsGated : (ts : List (Task V)) → All (IsGated ts) (run_tasks eng ch ts).1
  unfolding run_tasks
  run_tasks-IsGated [] = tt
  run_tasks-IsGated (t ∷ ts) = elim (Option-cases (process_task eng ch t).2) [
    | inl goes_on ↦
        rw (goes_on, run_tasks)
          (All-append (IsGated (t ∷ ts)) (process_task eng ch t).1 (run_tasks eng ch ts).1
            (process_task-IsGated t ts)
            (weaken (IsGated ts) (IsGated (t ∷ ts)) (run_tasks eng ch ts).1
              (λ e g p is. inr (g p is)) (run_tasks-IsGated ts)))
    | inr (s, stops) ↦ rw (stops, run_tasks) (process_task-IsGated t ts)
  ]
