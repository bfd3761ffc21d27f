-- ===== src/Persistence/Tables.antt =====
-- crates/forge-persistence/src/sqlite.rs: the tables of missions, goals, tasks and reflections with
-- their repositories. A table is its rows in the order of insertion; ids and times are kept as the
-- numbers that stand for them. serde_json is an argument, and the clock of `insert` of a reflection.
pub mod Keyed
pub mod Work
pub mod Store
use forge_os.Prelude.{
  ℕ, ◌%◌, Text, String, Bool, true, false, not, ◌&&◌, ◌||◌, Option, none, some, List, [], ◌∷◌, ◌++◌,
  map, keep_if, any, Result, ok, err, if◌then◌else◌, ◌==◌, leb, text, text_eq,
}
use forge_os.Domain.Mission.{Mission}
use forge_os.Domain.Goal.{Goal}
use forge_os.Domain.Task.{Task}
use forge_os.Persistence.Status.{
  mission_status_str, parse_mission_status, goal_status_str, parse_goal_status, task_status_str,
  parse_task_status,
}
use forge_os.Persistence.Tables.Keyed.{find_key, has_key, insert_row, update_key}
use forge_os.Skills.Sort.{sort_by}

-- `Sql` stands for a constraint that the statement breaks.
pub data PersistenceError : Type 0 where
  sql json : PersistenceError
  not_found : Text → ℕ → PersistenceError

pub record MissionRow : Type 0 where
  pub id : ℕ
  pub title : Text
  pub description : Text
  pub status : String
  pub created_at : ℕ
  pub updated_at : ℕ

pub record GoalRow : Type 0 where
  pub id : ℕ
  pub mission_id : ℕ
  pub title : Text
  pub description : Text
  pub status : String
  pub depends_on_json : Text
  pub confidence : ℕ
  pub priority : ℕ
  pub retries_remaining : ℕ

pub record TaskRow : Type 0 where
  pub id : ℕ
  pub goal_id : ℕ
  pub tool : Text
  pub input : Text
  pub status : String
  pub result : Option Text
  pub error : Option Text
  pub attempts : ℕ

pub record ReflectionRecord : Type 0 where
  pub mission_id : ℕ
  pub created_at : ℕ
  pub outcome : Text
  pub payload : Text

pub record Database : Type 0 where
  pub missions : List MissionRow
  pub goals : List GoalRow
  pub tasks : List TaskRow
  pub reflections : List ReflectionRecord

-- What the code uses of serde_json.
pub record Json (V : Type 0) : Type 0 where
  pub ids_to_string : List ℕ → Text
  pub ids_from_str : Text → Option (List ℕ)
  pub to_string : V → Text
  pub from_str : Text → Option V

-- A statement that inserts a row that is there, or refers to one that is not, breaks a constraint.
abbrev pub checked : {A : Type 0} → Bool → A → Result PersistenceError A
checked false x = err sql
checked true x = ok x

abbrev pub mission_row : Mission → MissionRow
mission_row m = record {
  id = m.id;
  title = m.title;
  description = m.description;
  status = mission_status_str m.status;
  created_at = m.created_at;
  updated_at = m.updated_at;
}

abbrev pub parse_mission_row : MissionRow → Mission
parse_mission_row r = record {
  id = r.id;
  title = r.title;
  description = r.description;
  status = parse_mission_status r.status;
  created_at = r.created_at;
  updated_at = r.updated_at;
  goals = [];
}

-- The columns that `update` sets.
abbrev pub set_mission : Mission → MissionRow → MissionRow
set_mission m r = record r {
  title = m.title;
  description = m.description;
  status = mission_status_str m.status;
  updated_at = m.updated_at;
}

abbrev pub mission_id_of : MissionRow → ℕ
mission_id_of r = r.id

abbrev pub goal_id_of : GoalRow → ℕ
goal_id_of r = r.id

abbrev pub task_id_of : TaskRow → ℕ
task_id_of r = r.id

unfoldable pub insert_mission : Mission → Database → Result PersistenceError Database
insert_mission m db =
    checked (not (has_key mission_id_of m.id db.missions))
      (record db { missions = insert_row (mission_row m) db.missions })

unfoldable pub update_mission : Mission → Database → Database
update_mission m db = record db {
  missions = update_key mission_id_of m.id (set_mission m) db.missions;
}

unfoldable pub get_mission : ℕ → Database → Result PersistenceError Mission
get_mission id db = elim (find_key mission_id_of id db.missions) [
  | none ↦ err (not_found (text "mission") id)
  | some r ↦ ok (parse_mission_row r)
]

-- `ORDER BY created_at DESC`
unfoldable pub list_missions : Database → List Mission
unfolding sort_by
list_missions db =
    map parse_mission_row (sort_by (λ a b. leb b.created_at a.created_at) db.missions)

unfoldable pub insert_reflection : ℕ → ℕ → Text → Text → Database → Result PersistenceError Database
insert_reflection now mission_id outcome payload db =
    checked
      (not (any (λ r. r.mission_id == mission_id && r.created_at == now) db.reflections)
        && has_key mission_id_of mission_id db.missions)
      (record db {
        reflections =
            insert_row
              (record {
                mission_id = mission_id;
                created_at = now;
                outcome = outcome;
                payload = payload;
              })
              db.reflections;
      })

unfoldable pub reflections_for_mission : ℕ → Database → List ReflectionRecord
unfolding sort_by
reflections_for_mission mission_id db =
    sort_by (λ a b. leb a.created_at b.created_at)
      (keep_if (λ r. r.mission_id == mission_id) db.reflections)
