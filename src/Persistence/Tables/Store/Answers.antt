-- ===== src/Persistence/Tables/Store/Answers.antt =====
-- What the queries of crates/forge-persistence/src/sqlite.rs answer after a sequence of statements.
use forge_os.Prelude.{
  ℕ, ◌%◌, ◌≡◌, refl, ap, Text, text, Option, none, some, List, [], ◌∷◌, Result, ok, err,
}
use forge_os.Domain.Mission.{Mission, MissionStatus}
use forge_os.Domain.Goal.{Goal, GoalStatus}
use forge_os.Domain.Task.{Task, TaskStatus}
use forge_os.Persistence.Status.{status_columns_roundtrip}
use forge_os.Persistence.Tables.{
  Database, Json, PersistenceError, not_found, mission_row, parse_mission_row, get_mission,
  mission_id_of, goal_id_of, task_id_of,
}
use forge_os.Persistence.Tables.Work.{
  goal_row, parse_goal_row, task_row, parse_task_row, get_goal, get_task, json_of, result_of,
}
use forge_os.Persistence.Tables.Keyed.{find_key, mapped}
use forge_os.Persistence.Tables.Store.{
  Store, Statement, Refines, store_statement, execute_statement, execute_statement-Refines,
}

-- serde_json reads back what it wrote.
pub record IsJson {V : Type 0} (j : Json V) : Type 0 where
  pub ids : (xs : List ℕ) → j.ids_from_str (j.ids_to_string xs) ≡ some xs
  pub value : (v : V) → j.from_str (j.to_string v) ≡ some v

-- The lists of children are not in the tables, and a byte is read back as one.
abbrev pub seen_mission : Mission → Mission
seen_mission m = record m { goals = [] }

abbrev pub seen_goal : Goal → Goal
seen_goal g = record g { tasks = []; retries_remaining = g.retries_remaining % 256 }

abbrev pub seen_task : {V : Type 0} → Task V → Task V
seen_task t = record t { attempts = t.attempts % 256 }

abbrev pub found : {A : Type 0} → Text → ℕ → Option A → Result PersistenceError A
found what k none = err (not_found what k)
found what k (some x) = ok x

abbrev pub empty_database : Database
empty_database = record { missions = []; goals = []; tasks = []; reflections = [] }

abbrev pub empty_store : {V : Type 0} → Store V
empty_store = record { missions = λ k. none; goals = λ k. none; tasks = λ k. none }

abbrev pub store_statements : {V : Type 0} → List (Statement V) → Store V → Store V
store_statements [] st = st
store_statements (q ∷ qs) st = store_statements qs (store_statement q st)

module _ {V : Type 0} (j : Json V) where
  unfoldable pub execute_all : List (Statement V) → Database → Database
  unfolding execute_statement
  execute_all [] db = db
  execute_all (q ∷ qs) db = execute_all qs (execute_statement j q db)

  execute_all-Refines :
      (qs : List (Statement V)) (db : Database) (st : Store V)
      → Refines j db st
      → Refines j (execute_all qs db) (store_statements qs st)
  unfolding execute_all
  execute_all-Refines [] db st h = h
  execute_all-Refines (q ∷ qs) db st h =
      execute_all-Refines qs (execute_statement j q db) (store_statement q st)
        (execute_statement-Refines j q db st h)

  empty-Refines : Refines j empty_database empty_store
  unfolding find_key
  empty-Refines = record { missions = λ k. refl; goals = λ k. refl; tasks = λ k. refl }

  mission_read : (m : Mission) → parse_mission_row (mission_row m) ≡ seen_mission m
  mission_read m =
      ap (λ s. record m { status = s; goals = [] })
        (status_columns_roundtrip m.status GoalStatus.pending TaskStatus.pending).0

  goal_read : IsJson j → (g : Goal) → parse_goal_row j (goal_row j g) ≡ ok (seen_goal g)
  goal_read y g =
      rw (y.ids g.depends_on, parse_goal_row)
        (ap (λ s. ok (record (seen_goal g) { status = s }))
          (status_columns_roundtrip MissionStatus.draft g.status TaskStatus.pending).1)

  result_read : IsJson j → (o : Option V) → result_of j (json_of j o) ≡ some o
  result_read y none = refl
  result_read y (some v) = rw (y.value v, result_of) refl

  task_read : IsJson j → (t : Task V) → parse_task_row j (task_row j t) ≡ ok (seen_task t)
  task_read y t =
      rw (y.value t.input, parse_task_row)
        (rw (result_read y t.result) (
          ap (λ s. ok (record (seen_task t) { status = s }))
            (status_columns_roundtrip MissionStatus.draft GoalStatus.pending t.status).2))

  get_mission-found :
      (k : ℕ) (db : Database) (o : Option Mission)
      → find_key mission_id_of k db.missions ≡ mapped mission_row o
      → get_mission k db ≡ found (text "mission") k (mapped seen_mission o)
  unfolding get_mission
  get_mission-found k db none h = rw (h, get_mission) refl
  get_mission-found k db (some m) h = rw (h, get_mission) (ap ok (mission_read m))

  get_goal-found :
      (k : ℕ) (db : Database) (o : Option Goal)
      → IsJson j
      → find_key goal_id_of k db.goals ≡ mapped (goal_row j) o
      → get_goal j k db ≡ found (text "goal") k (mapped seen_goal o)
  unfolding get_goal
  get_goal-found k db none y h = rw (h, get_goal) refl
  get_goal-found k db (some g) y h = rw (h, get_goal) (goal_read y g)

  get_task-found :
      (k : ℕ) (db : Database) (o : Option (Task V))
      → IsJson j
      → find_key task_id_of k db.tasks ≡ mapped (task_row j) o
      → get_task j k db ≡ found (text "task") k (mapped seen_task o)
  unfolding get_task
  get_task-found k db none y h = rw (h, get_task) refl
  get_task-found k db (some t) y h = rw (h, get_task) (task_read y t)

-- Where serde_json reads back what it wrote: after any sequence of inserts and updates on an empty
-- database, failed ones included, the queries by id answer what a store by ids has. In the store an
-- insert of a fresh id whose mission or goal is there adds the item and any other insert does
-- nothing; an update of an id that is there replaces the item but for its id, its parent and its
-- time of creation, and of any other id does nothing. An answer leaves out the lists of children
-- and takes the count of retries or attempts as a byte; an id that is not there is not found.
pub execute_all-found :
    {V : Type 0} (j : Json V) (y : IsJson j) (qs : List (Statement V)) (k : ℕ)
    → (get_mission k (execute_all j qs empty_database)
        ≡ found
            (text "mission")
            k
            (mapped seen_mission ((store_statements qs empty_store).missions k)))
      × (get_goal j k (execute_all j qs empty_database)
          ≡ found (text "goal") k (mapped seen_goal ((store_statements qs empty_store).goals k)))
      × (get_task j k (execute_all j qs empty_database)
          ≡ found (text "task") k (mapped seen_task ((store_statements qs empty_store).tasks k)))
execute_all-found j y qs k =
    let h = execute_all-Refines j qs empty_database empty_store (empty-Refines j) in
    let db = execute_all j qs empty_database in
    let st = store_statements qs empty_store in
    (
      get_mission-found j k db (st.missions k) (h.missions k),
      get_goal-found j k db (st.goals k) y (h.goals k),
      get_task-found j k db (st.tasks k) y (h.tasks k),
    )
