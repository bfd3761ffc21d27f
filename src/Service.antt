-- ===== src/Service.antt =====
-- crates/forge-mission/src/lib.rs: the mission service, for one mission. The executor is behind an
-- interface that the loop of crates/forge-execution fills; the planner's answers are arguments.
pub mod Plan
pub mod Replan
pub mod Waves
pub mod Lifetime
pub mod Truncate
use forge_os.Prelude.{
  ℕ, ◌+◌, Text, text, Bool, true, false, not, Option, none, some, List, [], ◌∷◌, ◌++◌, map, Result,
  ok, err, ltb, ◌==◌, if◌then◌else◌, length, take, any, all, mem, ◌&&◌,
}
use forge_os.Domain.Mission.{
  Mission, MissionStatus, draft, planning, ready, running, completed, failed, cancelled,
  DomainError, can_transition, is_terminal, transition_to, new_draft,
}
use forge_os.Domain.Goal.{Goal, GoalStatus}
use forge_os.Domain.Task.{Task}
use forge_os.Domain.Event.{
  ForgeEvent, mission_created, mission_status_changed, goal_created, task_created,
  mission_cancel_requested,
}

-- The errors that come up here, with the other crates' errors as text.
pub data MissionError : Type 0 where
  planner : Text → MissionError
  execution : Text → MissionError
  state : MissionStatus → MissionError
  persistence : (row : ℕ) → MissionError

-- What the service reads and writes: the rows of the mission and its goals, the tasks as they were
-- inserted, and the event log.
pub record World (V : Type 0) : Type 0 where
  pub mission : Mission
  pub goals : List Goal
  pub tasks : List (Task V)
  pub log : List ForgeEvent

-- `ExecutionEngine::run_mission`: the mission, the goals and the new events, or an error.
pub record Executor : Type 0 where
  pub wave : ℕ → Mission → List Goal → Result Text (Mission × List Goal × List ForgeEvent)

abbrev pub goal_ids : List Goal → List ℕ
goal_ids = map (λ g. g.id)

module _ {V : Type 0} where
  abbrev pub publish : ForgeEvent → World V → World V
  publish e w = record w { log = w.log ++ e ∷ [] }

  -- `transition_to`, the update and the event, as they always come together.
  unfoldable pub set_status : ℕ → MissionStatus → World V → Result MissionError (World V)
  unfolding transition_to
  set_status now next w = elim (transition_to now next w.mission) [
    | ok m ↦ ok (
        publish (mission_status_changed w.mission.id w.mission.status next)
          (record w { mission = m }))
    | err _ ↦ err (state w.mission.status)
  ]

  unfoldable pub create : ℕ → ℕ → Text → Text → World V
  unfolding new_draft
  create id now title description = record {
    mission = new_draft id now title description;
    goals = [];
    tasks = [];
    log = mission_created id title ∷ [];
  }

  abbrev pub task_ids : List (Task V) → List ℕ
  task_ids = map (λ t. t.id)

  -- The insertion fails on an id that is there, and then nothing is logged.
  unfoldable pub persist_new_goal : Goal → World V → World V × Result MissionError (Unit {0})
  persist_new_goal g w = if mem g.id (goal_ids w.goals) then (w, err (persistence g.id)) else (
    publish (goal_created g.id w.mission.id g.title g.depends_on)
        (record w { goals = w.goals ++ g ∷ [] }),
    ok tt,
  )

  -- That of a task also fails if its goal is not there.
  unfoldable pub persist_new_task : Task V → World V → World V × Result MissionError (Unit {0})
  persist_new_task t w =
      if not (mem t.id (task_ids w.tasks)) && mem t.goal_id (goal_ids w.goals)
      then (
        publish (task_created t.id t.goal_id t.tool) (record w { tasks = w.tasks ++ t ∷ [] }),
        ok tt,
      )
      else (w, err (persistence t.id))

  -- The rows before the one that fails stay.
  unfoldable pub persist_goals : List Goal → World V → World V × Result MissionError (Unit {0})
  persist_goals [] w = (w, ok tt)
  persist_goals (g ∷ gs) w =
      let (w', r) = persist_new_goal g w in
      let rest = persist_goals gs w' in elim r [ ok _ ↦ rest | err e ↦ (w', err e) ]

  unfoldable pub persist_tasks : List (Task V) → World V → World V × Result MissionError (Unit {0})
  persist_tasks [] w = (w, ok tt)
  persist_tasks (t ∷ ts) w =
      let (w', r) = persist_new_task t w in
      let rest = persist_tasks ts w' in elim r [ ok _ ↦ rest | err e ↦ (w', err e) ]

  -- The two loops over the rows of a plan or a delta.
  unfoldable pub persist_rows :
      List Goal → List (Task V) → World V → World V × Result MissionError (Unit {0})
  persist_rows gs ts w =
      let (w', r) = persist_goals gs w in
      let rest = persist_tasks ts w' in elim r [ ok _ ↦ rest | err e ↦ (w', err e) ]

  -- The token of the executor is an argument of its loop.
  unfoldable pub cancel : World V → World V
  cancel w = publish (mission_cancel_requested w.mission.id) w
