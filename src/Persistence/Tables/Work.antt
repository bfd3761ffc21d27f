-- ===== src/Persistence/Tables/Work.antt =====
-- `SqliteGoalRepository` and `SqliteTaskRepository` of crates/forge-persistence/src/sqlite.rs.
use forge_os.Prelude.{
  ℕ, ◌%◌, Text, not, ◌&&◌, Option, none, some, List, [], ◌∷◌, keep_if, Result, ok, err, ◌==◌, text,
}
use forge_os.Domain.Goal.{Goal}
use forge_os.Domain.Task.{Task}
use forge_os.Persistence.Status.{
  goal_status_str, parse_goal_status, task_status_str, parse_task_status,
}
use forge_os.Persistence.Tables.Keyed.{find_key, has_key, insert_row, update_key}
use forge_os.Persistence.Tables.{
  PersistenceError, json, not_found, GoalRow, TaskRow, Database, Json, checked, mission_id_of,
  goal_id_of, task_id_of,
}

-- `collect` into one result: the first error ends it.
unfoldable pub collect_rows :
    {R A : Type 0} → (R → Result PersistenceError A) → List R → Result PersistenceError (List A)
collect_rows parse [] = ok []
collect_rows parse (r ∷ rs) = elim (parse r) [
  | err e ↦ err e
  | ok x ↦ elim (collect_rows parse rs) [ err e ↦ err e | ok xs ↦ ok (x ∷ xs) ]
]

module _ {V : Type 0} (j : Json V) where
  abbrev pub goal_row : Goal → GoalRow
  goal_row g = record {
    id = g.id;
    mission_id = g.mission_id;
    title = g.title;
    description = g.description;
    status = goal_status_str g.status;
    depends_on_json = j.ids_to_string g.depends_on;
    confidence = g.confidence;
    priority = g.priority;
    retries_remaining = g.retries_remaining;
  }

  -- `as u8` takes the last byte.
  abbrev pub parse_goal_row : GoalRow → Result PersistenceError Goal
  parse_goal_row r = elim (j.ids_from_str r.depends_on_json) [
    | none ↦ err json
    | some deps ↦ ok (record {
      id = r.id;
      mission_id = r.mission_id;
      title = r.title;
      description = r.description;
      status = parse_goal_status r.status;
      depends_on = deps;
      confidence = r.confidence;
      priority = r.priority;
      retries_remaining = r.retries_remaining % 256;
      tasks = [];
    })
  ]

  abbrev pub set_goal : Goal → GoalRow → GoalRow
  set_goal g r = record (goal_row g) { id = r.id; mission_id = r.mission_id }

  unfoldable pub insert_goal : Goal → Database → Result PersistenceError Database
  insert_goal g db =
      checked
        (not (has_key goal_id_of g.id db.goals) && has_key mission_id_of g.mission_id db.missions)
        (record db { goals = insert_row (goal_row g) db.goals })

  unfoldable pub update_goal : Goal → Database → Database
  update_goal g db = record db { goals = update_key goal_id_of g.id (set_goal g) db.goals }

  unfoldable pub get_goal : ℕ → Database → Result PersistenceError Goal
  get_goal id db = elim (find_key goal_id_of id db.goals) [
    | none ↦ err (not_found (text "goal") id)
    | some r ↦ parse_goal_row r
  ]

  unfoldable pub list_for_mission : ℕ → Database → Result PersistenceError (List Goal)
  unfolding collect_rows
  list_for_mission mission_id db =
      collect_rows parse_goal_row (keep_if (λ r. r.mission_id == mission_id) db.goals)

  abbrev pub json_of : Option V → Option Text
  json_of none = none
  json_of (some v) = some (j.to_string v)

  abbrev pub task_row : Task V → TaskRow
  task_row t = record {
    id = t.id;
    goal_id = t.goal_id;
    tool = t.tool;
    input = j.to_string t.input;
    status = task_status_str t.status;
    result = json_of t.result;
    error = t.error;
    attempts = t.attempts;
  }

  -- The outer `none` is a text that is no JSON.
  abbrev pub result_of : Option Text → Option (Option V)
  result_of none = some none
  result_of (some s) = elim (j.from_str s) [ none ↦ none | some v ↦ some (some v) ]

  abbrev pub task_of : TaskRow → V → Option V → Task V
  task_of r input result = record {
    id = r.id;
    goal_id = r.goal_id;
    tool = r.tool;
    input = input;
    status = parse_task_status r.status;
    result = result;
    error = r.error;
    attempts = r.attempts % 256;
  }

  abbrev pub parse_task_row : TaskRow → Result PersistenceError (Task V)
  parse_task_row r = elim (j.from_str r.input) [
    | none ↦ err json
    | some input ↦ elim (result_of r.result) [
      | none ↦ err json
      | some result ↦ ok (task_of r input result)
    ]
  ]

  abbrev pub set_task : Task V → TaskRow → TaskRow
  set_task t r = record (task_row t) { id = r.id; goal_id = r.goal_id }

  unfoldable pub insert_task : Task V → Database → Result PersistenceError Database
  insert_task t db =
      checked (not (has_key task_id_of t.id db.tasks) && has_key goal_id_of t.goal_id db.goals)
        (record db { tasks = insert_row (task_row t) db.tasks })

  unfoldable pub update_task : Task V → Database → Database
  update_task t db = record db { tasks = update_key task_id_of t.id (set_task t) db.tasks }

  unfoldable pub get_task : ℕ → Database → Result PersistenceError (Task V)
  get_task id db = elim (find_key task_id_of id db.tasks) [
    | none ↦ err (not_found (text "task") id)
    | some r ↦ parse_task_row r
  ]

  unfoldable pub list_for_goal : ℕ → Database → Result PersistenceError (List (Task V))
  unfolding collect_rows
  list_for_goal goal_id db =
      collect_rows parse_task_row (keep_if (λ r. r.goal_id == goal_id) db.tasks)
