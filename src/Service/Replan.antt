-- ===== src/Service/Replan.antt =====
-- `MissionService::run_with_replan_loop` of crates/forge-mission/src/lib.rs.
use forge_os.Prelude.{
  ℕ, zero, suc, ◌+◌, Text, text, Bool, true, false, not, Option, none, some, List, [], ◌∷◌, ◌++◌,
  Result, ok, err, ltb, ◌==◌, if◌then◌else◌, length, any, all, ◌||◌,
}
use forge_os.Domain.Mission.{
  Mission, MissionStatus, running, completed, failed, cancelled, can_transition, transition_to,
}
use forge_os.Domain.Goal.{Goal, GoalStatus}
use forge_os.Domain.Task.{Task}
use forge_os.Domain.Event.{
  ForgeEvent, replan_requested, plan_revised, replan_cap_exceeded, mission_status_changed,
}
use forge_os.Service.{World, Executor, MissionError, execution, publish, set_status, persist_rows}
pub mod Sound
pub mod Verdict

abbrev pub replan_cap : ℕ
replan_cap = 5

abbrev pub total_goal_cap : ℕ
total_goal_cap = 30

-- crates/forge-planner/src/lib.rs
pub record PlanDelta (V : Type 0) : Type 0 where
  pub added_goals : List Goal
  pub added_tasks : List (Task V)
  pub terminate : Bool
  pub reason : Text

-- How a round of the loop goes on, or leaves the loop or the function.
pub data Flow : Type 0 where
  continues : Flow
  breaks : Flow
  returns : Result MissionError (Unit {0}) → Flow

abbrev pub is_ended : MissionStatus → Bool
is_ended cancelled = true
is_ended failed = true
is_ended completed = true
is_ended _ = false

abbrev pub is_running : MissionStatus → Bool
is_running running = true
is_running _ = false

abbrev pub has_failed : List Goal → Bool
has_failed gs = any (λ g. elim g.status [ GoalStatus.failed ↦ true | _ ↦ false ]) gs

abbrev pub is_settled : Goal → Bool
is_settled g = elim g.status [ GoalStatus.completed ↦ true | GoalStatus.skipped ↦ true | _ ↦ false ]

-- The status that a mission which is still running is given: `none` leaves it as it is.
unfoldable pub final_status : List Goal → Option MissionStatus
final_status gs =
    if has_failed gs then some failed else if all is_settled gs then some completed else none

unfoldable pub give_up : {V : Type 0} → ℕ → World V → World V
unfolding final_status
give_up now w =
    if is_running w.mission.status
    then (elim (final_status w.goals) [
      | none ↦ w
      | some next ↦ elim (set_status now next w) [ ok w' ↦ w' | err _ ↦ w ]
    ])
    else w

module _ {V : Type 0} (ex : Executor) (replan : ℕ → World V → Result Text (PlanDelta V)) where
  -- `execution.run_mission(id)` and what it writes.
  unfoldable pub run_wave : ℕ → World V → Result Text (World V)
  run_wave now w = elim (ex.wave now w.mission w.goals) [
    | ok (m, gs, log) ↦ ok (record w { mission = m; goals = gs; log = w.log ++ log })
    | err e ↦ err e
  ]

  -- From the planner's delta to the end of the round.
  unfoldable pub apply_delta : ℕ → PlanDelta V → World V → World V × Flow
  apply_delta iteration delta w =
      let would_add = length delta.added_goals in
      if delta.terminate
      then (publish (plan_revised w.mission.id iteration 0) w, breaks)
      else if ltb total_goal_cap (length w.goals + would_add)
      then (publish (replan_cap_exceeded w.mission.id iteration) w, breaks)
      else if would_add == 0
      then (publish (plan_revised w.mission.id iteration 0) w, breaks)
      else (let (w₁, r) = persist_rows delta.added_goals delta.added_tasks w in
          let w' = publish (plan_revised w.mission.id iteration would_add) w₁ in
          elim r [
            | err e ↦ (w₁, returns (err e))
            | ok _ ↦
                if iteration == replan_cap
                then (publish (replan_cap_exceeded w.mission.id iteration) w', continues)
                else (w', continues)
          ])

  -- The round after its wave.
  unfoldable pub ask_planner : ℕ → World V → World V × Flow
  unfolding apply_delta
  ask_planner iteration w =
      if is_ended w.mission.status
      then (w, returns (ok tt))
      else (let w' = publish (replan_requested w.mission.id iteration) w in
          elim (replan iteration w') [
            | err e ↦ (publish (plan_revised w.mission.id iteration 0) w', breaks)
            | ok delta ↦ apply_delta iteration delta w'
          ])

  unfoldable pub replan_round : ℕ → World V → World V × Flow
  unfolding run_wave ask_planner
  replan_round iteration w = elim (run_wave iteration w) [
    | err e ↦ (w, returns (err (execution e)))
    | ok w' ↦ ask_planner iteration w'
  ]

  -- The rounds from `iteration` on, as many as are left.
  unfoldable pub replan_rounds : ℕ → ℕ → World V → World V × Flow
  replan_rounds zero iteration w = (w, breaks)
  replan_rounds (suc left) iteration w =
      let (w', flow) = replan_round iteration w in
      let rest = replan_rounds left (suc iteration) w' in
      elim flow [ continues ↦ rest | breaks ↦ (w', breaks) | returns r ↦ (w', returns r) ]

  -- From the final wave on.
  unfoldable pub final_drain : ℕ → World V → World V × Result MissionError (Unit {0})
  unfolding run_wave give_up
  final_drain now w = elim (run_wave 6 w) [
    | err e ↦ (w, err (execution e))
    | ok w' ↦ (give_up now w', ok tt)
  ]

  unfoldable pub run_with_replan_loop : ℕ → World V → World V × Result MissionError (Unit {0})
  unfolding replan_rounds final_drain
  run_with_replan_loop now w =
      let (w', flow) = replan_rounds replan_cap 1 w in
      elim flow [
        | continues ↦ final_drain now w'
        | breaks ↦ final_drain now w'
        | returns r ↦ (w', r)
      ]
