-- ===== src/Execution/Tasks/Upstream.antt =====
-- `gather_upstream_results`, the just-in-time inputs and the whole of `run_goal` in
-- crates/forge-execution/src/lib.rs.
use forge_os.Prelude.{
  ℕ, ◌≤◌, ◌≡◌, subst, Text, Bool, true, false, not, ◌&&◌, Option, none, some, List, [], ◌∷◌, ◌++◌,
  leb, ◌==◌, if◌then◌else◌, length, any, arith, length-append, Bool-cases, Option-cases, inl, inr,
}
use forge_os.Domain.Goal.{Goal, GoalStatus}
use forge_os.Domain.Task.{Task, pending, completed}
use forge_os.Domain.Event.{ForgeEvent, goal_status_changed}
use forge_os.Execution.Tasks.Summary.{summarize}
use forge_os.Execution.Tasks.{Engine, Choices, Stop, panic, status_eq, run_tasks, refresh}

pub record UpstreamResult : Type 0 where
  pub goal_title : Text
  pub tool : Text
  pub result_summary : Text

module _ {V : Type 0} (eng : Engine V) where
  -- `t.result.as_ref().map(summarize).unwrap_or_default()`
  abbrev pub result_summary : Option V → Option Text
  result_summary none = some []
  result_summary (some v) = summarize (eng.to_json v)

  -- The loop over the tasks of one dependency. `true` is the early return at six results.
  unfoldable pub gather_tasks :
      Text → List (Task V) → List UpstreamResult → Option (List UpstreamResult × Bool)
  gather_tasks title [] out = some (out, false)
  gather_tasks title (t ∷ ts) out =
      let skip = gather_tasks title ts out in
      if status_eq t.status completed
      then (elim (result_summary t.result) [
        | none ↦ none
        | some s ↦
            let out' =
              out ++ record { goal_title = title; tool = t.tool; result_summary = s } ∷ [] in
            let more = gather_tasks title ts out' in
            if leb 6 (length out') then some (out', true) else more
      ])
      else skip

  module _ (db_goal : ℕ → Option Goal) (db_tasks : ℕ → List (Task V)) where
    unfoldable pub gather_upstream_results :
        List ℕ → List UpstreamResult → Option (List UpstreamResult)
    unfolding gather_tasks
    gather_upstream_results [] out = some out
    gather_upstream_results (d ∷ deps) out = elim (db_goal d) [
      | none ↦ gather_upstream_results deps out
      | some g ↦ elim (gather_tasks g.title (db_tasks d) out) [
        | none ↦ none
        | some (out', full) ↦
            let more = gather_upstream_results deps out' in if full then some out' else more
      ]
    ]

    -- The materializer returns an error or the new inputs.
    abbrev pub Materializer : Type 0
    Materializer = Goal → List (Task V) → List UpstreamResult → Option (List V)

    abbrev is_nil : {A : Type 0} → List A → Bool
    is_nil [] = true
    is_nil (_ ∷ _) = false

    -- The inputs that the tasks run with: `none` if a summary panics.
    unfoldable pub materialize :
        Option Materializer → Goal → List (Task V) → Option (List (Task V) × List ForgeEvent)
    materialize none goal tasks = some (tasks, [])
    materialize (some mat) goal tasks =
        if not (is_nil goal.depends_on) && any (λ t. status_eq t.status pending) tasks
        then (elim (gather_upstream_results goal.depends_on []) [
          | none ↦ none
          | some [] ↦ some (tasks, [])
          | some (u ∷ us) ↦ elim (mat goal tasks (u ∷ us)) [
            | none ↦ some (tasks, [])
            | some inputs ↦
                if length inputs == length tasks
                then some (refresh eng tasks inputs)
                else some (tasks, [])
          ]
        ])
        else some (tasks, [])

    -- The tasks and the events that a run of the goal leaves, and how it ends: `none` is success.
    unfoldable pub run_goal :
        Choices
        → Option Materializer
        → Goal
        → List (Task V)
        → List (Task V) × List ForgeEvent × Option Stop
    run_goal ch mat goal tasks =
        let begun = goal_status_changed goal.id GoalStatus.ready GoalStatus.running in
        elim (materialize mat goal tasks) [
          | none ↦ (tasks, begun ∷ [], some panic)
          | some (tasks', refreshed) ↦
              let (tasks'', events, stop) = run_tasks eng ch tasks' in
              (tasks'', begun ∷ (refreshed ++ events), stop)
        ]

  gather_tasks-le :
      (title : Text) (ts : List (Task V)) (out up : List UpstreamResult) (full : Bool)
      → length out ≤ 5
      → gather_tasks title ts out ≡ some (up, full)
      → (length up ≤ 6) × (full ≡ false → length up ≤ 5)
  unfolding gather_tasks
  gather_tasks-le title [] out up full h e = ground arith
  gather_tasks-le title (t ∷ ts) out up full h e =
      elim (Bool-cases (status_eq t.status completed)) [
        | inr other ↦ gather_tasks-le title ts out up full h (rw (other, gather_tasks) at e)
        | inl is_done ↦ elim (Option-cases (result_summary t.result)) [
          | inl bad ↦
              let e' : ◌≡◌ {A = Option (List UpstreamResult × Bool)} none (some (up, full)) =
                rw bad at (rw (is_done, gather_tasks) at e) in
              cc
          | inr (s, good) ↦
              let row : UpstreamResult = record {
                goal_title = title;
                tool = t.tool;
                result_summary = s;
              } in
              let out' = out ++ row ∷ [] in
              let e' : (if leb 6 (length out')
                    then some (out', true)
                    else gather_tasks title ts out')
                  ≡ some (up, full) =
                rw good at (rw (is_done, gather_tasks) at e) in
              ground (arith, length-append out (row ∷ []), gather_tasks-le title ts out' up full)
        ]
      ]

  -- The context for a goal's inputs never holds more than six upstream results.
  pub gather_upstream_results-le :
      (db_goal : ℕ → Option Goal) (db_tasks : ℕ → List (Task V)) (deps : List ℕ)
      (out up : List UpstreamResult)
      → length out ≤ 5
      → gather_upstream_results db_goal db_tasks deps out ≡ some up
      → length up ≤ 6
  unfolding gather_upstream_results
  gather_upstream_results-le db_goal db_tasks [] out up h e = ground arith
  gather_upstream_results-le db_goal db_tasks (d ∷ deps) out up h e =
      elim (Option-cases (db_goal d)) [
        | inl missing ↦
            gather_upstream_results-le db_goal db_tasks deps out up h
              (rw (missing, gather_upstream_results) at e)
        | inr (g, found) ↦ elim (Option-cases (gather_tasks g.title (db_tasks d) out)) [
          | inl bad ↦
              let e' : ◌≡◌ {A = Option (List UpstreamResult)} none (some up) =
                rw bad at (rw (found, gather_upstream_results) at e) in
              cc
          | inr ((out', full), good) ↦
              let (six, five) = gather_tasks-le g.title (db_tasks d) out out' full h good in
              let e' : (if full
                    then some out'
                    else gather_upstream_results db_goal db_tasks deps out')
                  ≡ some up =
                rw good at (rw (found, gather_upstream_results) at e) in
              elim (Bool-cases full) [
                | inl stop ↦
                    let e'' : ◌≡◌ {A = Option (List UpstreamResult)} (some out') (some up) =
                      rw stop at e' in
                    let same : out' ≡ up = cc in subst (λ l. length l ≤ 6) same six
                | inr on ↦
                    gather_upstream_results-le db_goal db_tasks deps out' up (five on) (rw on at e')
              ]
        ]
      ]
