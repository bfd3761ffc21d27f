-- ===== src/Planner.antt =====
-- crates/forge-planner/src/lib.rs: from the model's answer to a plan's goals and tasks. The JSON
-- parser of the serde_json crate and its value type `V` are arguments; the ids that
-- `GoalId::new` and `TaskId::new` draw are the numbers from a counter on.
pub mod Ids
pub mod Build
pub mod Sound
pub mod Distinct
pub mod Delta
pub mod Inputs
pub mod Calls
pub mod Faults
pub mod Ends
pub mod Fences
use forge_os.Prelude.{
  ℕ, suc, ◌+◌, Text, text, text_eq, Bool, true, false, Option, none, some, List, [], ◌∷◌, ◌++◌, map,
  any, Result, ok, err, if◌then◌else◌, length, ◌==◌,
}
use forge_os.Domain.Goal.{Goal}
use forge_os.Domain.Goal
use forge_os.Domain.Task.{Task}
use forge_os.Domain.Task
use forge_os.Service.Plan.{Plan}
use forge_os.Service.Replan.{PlanDelta}

pub data PlannerError : Type 0 where
  llm parse_json invalid : Text → PlannerError
  empty : PlannerError

unfoldable pub planner_error_display : PlannerError → Text
planner_error_display (llm e) = text "llm error: " ++ e
planner_error_display (parse_json e) = text "plan output could not be parsed as JSON: " ++ e
planner_error_display (invalid e) = text "plan output failed validation: " ++ e
planner_error_display empty = text "planner produced no goals"

pub record RawTask (V : Type 0) : Type 0 where
  pub tool : Text
  pub input : V

-- `confidence` in hundredths, as in `Goal`.
pub record RawGoal (V : Type 0) : Type 0 where
  pub id : Text
  pub title : Text
  pub description : Text
  pub depends_on : List Text
  pub tasks : List (RawTask V)
  pub confidence : ℕ

pub record RawPlan (V : Type 0) : Type 0 where
  pub goals : List (RawGoal V)

pub record RawDelta (V : Type 0) : Type 0 where
  pub terminate : Bool
  pub reason : Text
  pub added_goals : List (RawGoal V)

-- `HashSet::contains`.
abbrev pub has : Text → List Text → Bool
has x = any (λ y. text_eq y x)

-- The first of the names that is not known.
unfoldable pub first_unknown : List Text → List Text → Option Text
unfolding text_eq
first_unknown known [] = none
first_unknown known (x ∷ xs) =
    let rest = first_unknown known xs in if has x known then rest else some x

abbrev pub quoted : Text → Text
quoted s = 96 ∷ s ++ 96 ∷ []

abbrev pub or_else {ℓ} :
    {A : Type ℓ} → Option PlannerError → Result PlannerError A → Result PlannerError A
or_else (some e) r = err e
or_else none r = r

module _ {V : Type 0} where
  abbrev pub tools_of : RawGoal V → List Text
  tools_of g = map (λ t. t.tool) g.tasks

  abbrev pub ids_of : List (RawGoal V) → List Text
  ids_of = map (λ g. g.id)

  -- The first goal with a tool that is not known; `who` says what the goal is called.
  unfoldable pub unknown_tool : Text → List Text → List (RawGoal V) → Option PlannerError
  unfolding first_unknown
  unknown_tool who tools [] = none
  unknown_tool who tools (g ∷ gs) = elim (first_unknown tools (tools_of g)) [
    | some t ↦ some (invalid (who ++ quoted g.id ++ text " references unknown tool " ++ quoted t))
    | none ↦ unknown_tool who tools gs
  ]

  unfoldable pub unknown_dependency : List Text → List (RawGoal V) → Option PlannerError
  unfolding first_unknown
  unknown_dependency ids [] = none
  unknown_dependency ids (g ∷ gs) = elim (first_unknown ids g.depends_on) [
    | some d ↦
        some (invalid (text "goal " ++ quoted g.id ++ text " depends on unknown " ++ quoted d))
    | none ↦ unknown_dependency ids gs
  ]

  -- What `parse_and_validate` does with the value that the parser gives.
  unfoldable pub validate : List Text → RawPlan V → Result PlannerError (RawPlan V)
  unfolding unknown_tool unknown_dependency
  validate tools plan =
      if length plan.goals == 0
      then err empty
      else or_else (unknown_tool (text "goal ") tools plan.goals)
          (or_else (unknown_dependency (ids_of plan.goals) plan.goals) (ok plan))

  unfoldable pub validate_delta : List Text → RawDelta V → Result PlannerError (RawDelta V)
  unfolding unknown_tool
  validate_delta tools delta =
      or_else (unknown_tool (text "replanned goal ") tools delta.added_goals) (ok delta)

  -- The ids that the raw goals get, the last one first: a later insertion shadows an earlier one.
  unfoldable pub assign : ℕ → List (RawGoal V) → List (Text × ℕ) → List (Text × ℕ)
  assign n [] mapping = mapping
  assign n (g ∷ gs) mapping = assign (suc n) gs ((g.id, n) ∷ mapping)

-- `HashMap::get`.
unfoldable pub get : Text → List (Text × ℕ) → Option ℕ
unfolding text_eq
get key [] = none
get key ((k, v) ∷ rest) = let found = get key rest in if text_eq k key then some v else found

-- `filter_map` over the dependencies.
unfoldable pub resolve : (Text → Option ℕ) → List Text → List ℕ
resolve f [] = []
resolve f (d ∷ ds) = elim (f d) [ some g ↦ g ∷ resolve f ds | none ↦ resolve f ds ]

-- A dependency that reads as a goal's id is taken as that, another one as a new sibling.
abbrev pub sibling_or : (Text → Option ℕ) → (Text → Option ℕ) → Text → Option ℕ
sibling_or from_str ids d = elim (from_str d) [ some g ↦ some g | none ↦ ids d ]

module _ {V : Type 0} where
  -- The tasks of a goal, with the ids from `n` on.
  unfoldable pub new_tasks : ℕ → ℕ → List (RawTask V) → List (Task V)
  unfolding Task.new
  new_tasks gid n [] = []
  new_tasks gid n (t ∷ ts) = Task.new n gid t.tool t.input ∷ new_tasks gid (suc n) ts

  abbrev pub task_ids : List (Task V) → List ℕ
  task_ids = map (λ t. t.id)

  -- One goal under its id: `Goal::new` draws an id that is overwritten.
  unfoldable pub new_goal : (Text → Option ℕ) → ℕ → ℕ → ℕ → RawGoal V → Goal
  unfolding Goal.new resolve new_tasks
  new_goal f mission_id gid n g =
      record (Goal.new n mission_id g.title g.description (resolve f g.depends_on)) {
        id = gid;
        confidence = g.confidence;
        tasks = task_ids (new_tasks gid (suc n) g.tasks);
      }

  -- The second loop of `materialize`; a missing id would be a panic of `unwrap`, here `none`.
  unfoldable pub build :
      (Text → Option ℕ) → (Text → Option ℕ) → ℕ → ℕ → List (RawGoal V) → Option (Plan V)
  unfolding new_goal
  build ids f mission_id n [] = some (record { goals = []; tasks = [] })
  build ids f mission_id n (g ∷ gs) =
      let rest = build ids f mission_id (suc n + length g.tasks) gs in
      elim (ids g.id) [
        | none ↦ none
        | some gid ↦ elim rest [
          | none ↦ none
          | some p ↦ some (record {
            goals = new_goal f mission_id gid n g ∷ p.goals;
            tasks = new_tasks gid (suc n) g.tasks ++ p.tasks;
          })
        ]
      ]

  -- Ids are drawn from `n` on, those of the goals first.
  unfoldable pub materialize : ℕ → ℕ → RawPlan V → Option (Plan V)
  unfolding assign get build
  materialize mission_id n raw =
      let ids : Text → Option ℕ = λ d. get d (assign n raw.goals []) in
      build ids ids mission_id (n + length raw.goals) raw.goals

  unfoldable pub materialize_delta : (Text → Option ℕ) → ℕ → ℕ → RawDelta V → Option (PlanDelta V)
  unfolding assign get build
  materialize_delta from_str mission_id n raw =
      let ids : Text → Option ℕ = λ d. get d (assign n raw.added_goals []) in
      let built =
        build ids (sibling_or from_str ids) mission_id (n + length raw.added_goals)
          raw.added_goals in
      elim built [
        | none ↦ none
        | some p ↦ some (record {
          added_goals = p.goals;
          added_tasks = p.tasks;
          terminate = raw.terminate;
          reason = raw.reason;
        })
      ]
