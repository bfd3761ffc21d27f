-- ===== src/Tests/Tables.antt =====
-- The repositories of crates/forge-persistence/src/sqlite.rs on small tables.
use forge_os.Prelude.{ℕ, ◌≡◌, refl, text, Option, none, some, List, [], ◌∷◌, ok, map}
use forge_os.Domain.Mission.{Mission, new_draft, completed}
use forge_os.Domain.Goal.{Goal, new as new_goal}
use forge_os.Domain.Task.{Task, new as new_task}
use forge_os.Persistence.Status.{
  mission_status_str, parse_mission_status, goal_status_str, parse_goal_status, task_status_str,
  parse_task_status,
}
use forge_os.Skills.Sort.{insert, sort_by}
use forge_os.Persistence.Tables.{
  Json, insert_mission, update_mission, get_mission, list_missions, insert_reflection,
  reflections_for_mission,
}
use forge_os.Persistence.Tables.Work.{
  collect_rows, insert_goal, update_goal, get_goal, list_for_mission, insert_task, update_task,
  get_task, list_for_goal,
}
use forge_os.Persistence.Tables.Keyed.{mapped, find_key, update_key}
use forge_os.Persistence.Tables.Store.{
  Statement, add_mission, change_mission, add_goal, change_goal, add_task, change_task,
  add_reflection, execute_statement,
}
use forge_os.Persistence.Tables.Store.Answers.{
  IsJson, found, seen_mission, seen_goal, seen_task, empty_database, empty_store, store_statements,
  execute_all, execute_all-found,
}

opened : Unit {0}
unfolding new_draft mission_status_str parse_mission_status goal_status_str parse_goal_status
    task_status_str parse_task_status insert sort_by insert_mission update_mission get_mission
    list_missions insert_reflection reflections_for_mission collect_rows insert_goal update_goal
    get_goal list_for_mission insert_task update_task get_task list_for_goal find_key update_key
    execute_statement execute_all new_goal new_task
opened = tt

abbrev one_value : List ℕ → Option ℕ
one_value (v ∷ []) = some v
one_value _ = none

abbrev json : Json ℕ
json = record {
  ids_to_string = λ xs. xs;
  ids_from_str = λ s. some s;
  to_string = λ v. v ∷ [];
  from_str = one_value;
}

json-IsJson : IsJson json
json-IsJson = record { ids = λ xs. refl; value = λ v. refl }

abbrev mission : Mission
mission = new_draft 1 100 (text "m") (text "d")

abbrev goal : Goal
goal = new_goal 5 1 (text "g") (text "d") (4 ∷ [])

abbrev task : Task ℕ
task = new_task 7 5 (text "fs.read") 42

-- The goal of another mission is refused, the second goal with the same id too.
abbrev statements : List (Statement ℕ)
statements =
    add_goal goal
    ∷ add_mission mission
    ∷ add_goal goal
    ∷ add_goal (record goal { title = text "again" })
    ∷ add_task task
    ∷ change_goal (record goal { mission_id = 9; title = text "later" })
    ∷ change_mission (record mission { status = completed; created_at = 0; updated_at = 130 })
    ∷ change_task (record task { result = some 3; attempts = 1 })
    ∷ add_reflection 140 1 (text "completed") (text "{}")
    ∷ add_reflection 140 1 (text "failed") (text "{}")
    ∷ []

execute_all-found_example :
    (get_mission 5 (execute_all json statements empty_database)
      ≡ found
          (text "mission")
          5
          (mapped seen_mission ((store_statements statements empty_store).missions 5)))
    × (get_goal json 5 (execute_all json statements empty_database)
        ≡ found
            (text "goal")
            5
            (mapped seen_goal ((store_statements statements empty_store).goals 5)))
    × (get_task json 5 (execute_all json statements empty_database)
        ≡ found
            (text "task")
            5
            (mapped seen_task ((store_statements statements empty_store).tasks 5)))
execute_all-found_example = execute_all-found json json-IsJson statements 5

goal_kept_its_mission :
    get_goal json 5 (execute_all json statements empty_database)
    ≡ ok (record goal { title = text "later" })
unfolding opened
goal_kept_its_mission = refl

mission_kept_its_start :
    list_missions (execute_all json statements empty_database)
    ≡ record mission { status = completed; updated_at = 130 } ∷ []
unfolding opened
mission_kept_its_start = refl

one_reflection :
    map (λ r. r.outcome) (reflections_for_mission 1 (execute_all json statements empty_database))
    ≡ text "completed" ∷ []
unfolding opened
one_reflection = refl

tasks_of_goal :
    list_for_goal json 5 (execute_all json statements empty_database)
    ≡ ok (record task { result = some 3; attempts = 1 } ∷ [])
unfolding opened
tasks_of_goal = refl
