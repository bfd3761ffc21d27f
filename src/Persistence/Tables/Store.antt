-- ===== src/Persistence/Tables/Store.antt =====
-- The repositories of crates/forge-persistence/src/sqlite.rs against a store of missions, goals and
-- tasks by their ids: sequences of statements, those that fail included.
pub mod Answers
use forge_os.Prelude.{and-eq-true}
use mathlib.Core.Path.{ap₂}
use forge_os.Prelude.{
  ℕ, ◌%◌, ◌≡◌, refl, sym, ap, ◌∙◌, subst, Text, text, Bool, true, false, not, ◌&&◌, Option, none,
  some, List, [], ◌∷◌, Result, ok, err, if◌then◌else◌, ◌==◌, arith, Bool-cases, Option-cases, inl,
  inr,
}
use forge_os.Domain.Mission.{Mission}
use forge_os.Domain.Goal.{Goal}
use forge_os.Domain.Task.{Task}
use forge_os.Persistence.Tables.{
  Database, Json, PersistenceError, mission_row, set_mission, mission_id_of, goal_id_of, task_id_of,
  insert_mission, update_mission, insert_reflection, checked,
}
use forge_os.Persistence.Tables.Work.{
  goal_row, set_goal, insert_goal, update_goal, task_row, set_task, insert_task, update_task,
}
use forge_os.Persistence.Tables.Keyed.{
  is_there, mapped, find_key, has_key, insert_row, update_key, find_key-insert_row,
  find_key-update_key,
}

pub record Store (V : Type 0) : Type 0 where
  pub missions : ℕ → Option Mission
  pub goals : ℕ → Option Goal
  pub tasks : ℕ → Option (Task V)

pub data Statement (V : Type 0) : Type 0 where
  add_mission change_mission : Mission → Statement V
  add_goal change_goal : Goal → Statement V
  add_task change_task : Task V → Statement V
  add_reflection : ℕ → ℕ → Text → Text → Statement V

abbrev pub put_at : {A : Type 0} → ℕ → A → (ℕ → Option A) → ℕ → Option A
put_at id x f k = if id == k then some x else f k

abbrev pub change_at : {A : Type 0} → ℕ → (A → A) → (ℕ → Option A) → ℕ → Option A
change_at id g f k = if id == k then mapped g (f k) else f k

-- An update keeps the id, what a goal or task belongs to, and the time of creation.
abbrev pub renewed_mission : Mission → Mission → Mission
renewed_mission m old = record m { id = old.id; created_at = old.created_at }

abbrev pub renewed_goal : Goal → Goal → Goal
renewed_goal g old = record g { id = old.id; mission_id = old.mission_id }

abbrev pub renewed_task : {V : Type 0} → Task V → Task V → Task V
renewed_task t old = record t { id = old.id; goal_id = old.goal_id }

abbrev pub if_allowed : {A : Type 0} → Bool → A → A → A
if_allowed b new old = if b then new else old

-- What a statement means for the store.
abbrev pub store_statement : {V : Type 0} → Statement V → Store V → Store V
store_statement (add_mission m) st =
    if_allowed (not (is_there (st.missions m.id)))
      (record st { missions = put_at m.id m st.missions }) st
store_statement (change_mission m) st = record st {
  missions = change_at m.id (renewed_mission m) st.missions;
}
store_statement (add_goal g) st =
    if_allowed (not (is_there (st.goals g.id)) && is_there (st.missions g.mission_id))
      (record st { goals = put_at g.id g st.goals }) st
store_statement (change_goal g) st = record st { goals = change_at g.id (renewed_goal g) st.goals }
store_statement (add_task t) st =
    if_allowed (not (is_there (st.tasks t.id)) && is_there (st.goals t.goal_id))
      (record st { tasks = put_at t.id t st.tasks }) st
store_statement (change_task t) st = record st { tasks = change_at t.id (renewed_task t) st.tasks }
store_statement (add_reflection now m outcome payload) st = st

-- The database after a statement: as before, if it failed.
abbrev pub settled : Database → Result PersistenceError Database → Database
settled db (err e) = db
settled db (ok db') = db'

module _ {V : Type 0} (j : Json V) where
  unfoldable pub execute_statement : Statement V → Database → Database
  execute_statement (add_mission m) db = settled db (insert_mission m db)
  execute_statement (change_mission m) db = update_mission m db
  execute_statement (add_goal g) db = settled db (insert_goal j g db)
  execute_statement (change_goal g) db = update_goal j g db
  execute_statement (add_task t) db = settled db (insert_task j t db)
  execute_statement (change_task t) db = update_task j t db
  execute_statement (add_reflection now m outcome payload) db =
      settled db (insert_reflection now m outcome payload db)

  -- The rows are those of the store.
  pub record Refines (db : Database) (st : Store V) : Type 0 where
    pub missions :
        (k : ℕ) → find_key mission_id_of k db.missions ≡ mapped mission_row (st.missions k)
    pub goals : (k : ℕ) → find_key goal_id_of k db.goals ≡ mapped (goal_row j) (st.goals k)
    pub tasks : (k : ℕ) → find_key task_id_of k db.tasks ≡ mapped (task_row j) (st.tasks k)

module _ {R S : Type 0} (key : R → ℕ) (row : S → R) (rs : List R) (st : ℕ → Option S)
    (same : (k : ℕ) → find_key key k rs ≡ mapped row (st k)) where
  has_key_mapped : (k : ℕ) → has_key key k rs ≡ is_there (st k)
  has_key_mapped k = ap is_there (same k) ∙ is_there_mapped (st k)
    where
      is_there_mapped : (o : Option S) → is_there (mapped row o) ≡ is_there o
      is_there_mapped none = refl
      is_there_mapped (some s) = refl

  put_at_row :
      (s : S) (k : ℕ)
      → is_there (st (key (row s))) ≡ false
      → find_key key k (insert_row (row s) rs) ≡ mapped row (put_at (key (row s)) s st k)
  put_at_row s k fresh =
      find_key-insert_row key k (row s) rs (same (key (row s)) ∙ absent (st (key (row s))) fresh)
      ∙ chosen
    where
      absent : (o : Option S) → is_there o ≡ false → mapped row o ≡ none
      absent none h = refl
      absent (some s) h = absurd (ground (arith, h))

      chosen :
          (if key (row s) == k then some (row s) else find_key key k rs)
          ≡ mapped row (put_at (key (row s)) s st k)
      chosen = elim (Bool-cases (key (row s) == k)) [
        | inl here ↦ rw here refl
        | inr other ↦ rw other (same k)
      ]

  change_at_row :
      (f : R → R) (g : S → S) (k' k : ℕ)
      → ((r : R) → key (f r) ≡ key r)
      → ((s : S) → f (row s) ≡ row (g s))
      → find_key key k (update_key key k' f rs) ≡ mapped row (change_at k' g st k)
  change_at_row f g k' k keeps agree = find_key-update_key key k k' f rs keeps ∙ chosen
    where
      moved : (o : Option S) → mapped f (mapped row o) ≡ mapped row (mapped g o)
      moved none = refl
      moved (some s) = ap some (agree s)

      chosen :
          (if k' == k then mapped f (find_key key k rs) else find_key key k rs)
          ≡ mapped row (change_at k' g st k)
      chosen = elim (Bool-cases (k' == k)) [
        | inl here ↦ rw here (ap (mapped f) (same k) ∙ moved (st k))
        | inr other ↦ rw other (same k)
      ]

not-true : (b : Bool) → not b ≡ true → b ≡ false
not-true b h = ground (arith, h)

module _ {V : Type 0} (j : Json V) where
  settled-checked :
      (b b' : Bool) (db db' : Database) (st st' : Store V)
      → b ≡ b'
      → Refines j db st
      → (b' ≡ true → Refines j db' st')
      → Refines j (settled db (checked b db')) (if_allowed b' st' st)
  settled-checked b false db db' st st' e old new =
      subst (λ c. Refines j (settled db (checked c db')) st) (sym e) old
  settled-checked b true db db' st st' e old new =
      subst (λ c. Refines j (settled db (checked c db')) st') (sym e) (new refl)

  reflection-Refines :
      (b : Bool) (db db' : Database) (st : Store V)
      → Refines j db st
      → Refines j db' st
      → Refines j (settled db (checked b db')) st
  reflection-Refines false db db' st old new = old
  reflection-Refines true db db' st old new = new

  pub execute_statement-Refines :
      (q : Statement V) (db : Database) (st : Store V)
      → Refines j db st
      → Refines j (execute_statement j q db) (store_statement q st)
  unfolding execute_statement insert_mission update_mission insert_goal update_goal insert_task
      update_task insert_reflection
  execute_statement-Refines (add_mission m) db st h =
      let known =
        has_key_mapped mission_id_of mission_row db.missions st.missions h.missions m.id in
      settled-checked _ _ db _ st _ (ap not known) h (λ allowed. record {
        missions = λ k.
            put_at_row mission_id_of mission_row db.missions st.missions h.missions m k
              (not-true (is_there (st.missions m.id)) allowed);
        goals = h.goals;
        tasks = h.tasks;
      })
  execute_statement-Refines (change_mission m) db st h = record {
    missions = λ k.
        change_at_row mission_id_of mission_row db.missions st.missions h.missions (set_mission m)
          (renewed_mission m) m.id k (λ r. refl) (λ s. refl);
    goals = h.goals;
    tasks = h.tasks;
  }
  execute_statement-Refines (add_goal g) db st h =
      let known = has_key_mapped goal_id_of (goal_row j) db.goals st.goals h.goals g.id in
      let owner =
        has_key_mapped mission_id_of mission_row db.missions st.missions h.missions g.mission_id in
      settled-checked _ _ db _ st _ (ap₂ (λ a b. not a && b) known owner) h (λ allowed. record {
        missions = h.missions;
        goals = λ k.
            put_at_row goal_id_of (goal_row j) db.goals st.goals h.goals g k
              (not-true (is_there (st.goals g.id)) (and-eq-true _ _ allowed).0);
        tasks = h.tasks;
      })
  execute_statement-Refines (change_goal g) db st h = record {
    missions = h.missions;
    goals = λ k.
        change_at_row goal_id_of (goal_row j) db.goals st.goals h.goals (set_goal j g)
          (renewed_goal g) g.id k (λ r. refl) (λ s. refl);
    tasks = h.tasks;
  }
  execute_statement-Refines (add_task t) db st h =
      let known = has_key_mapped task_id_of (task_row j) db.tasks st.tasks h.tasks t.id in
      let owner = has_key_mapped goal_id_of (goal_row j) db.goals st.goals h.goals t.goal_id in
      settled-checked _ _ db _ st _ (ap₂ (λ a b. not a && b) known owner) h (λ allowed. record {
        missions = h.missions;
        goals = h.goals;
        tasks = λ k.
            put_at_row task_id_of (task_row j) db.tasks st.tasks h.tasks t k
              (not-true (is_there (st.tasks t.id)) (and-eq-true _ _ allowed).0);
      })
  execute_statement-Refines (change_task t) db st h = record {
    missions = h.missions;
    goals = h.goals;
    tasks = λ k.
        change_at_row task_id_of (task_row j) db.tasks st.tasks h.tasks (set_task j t)
          (renewed_task t) t.id k (λ r. refl) (λ s. refl);
  }
  execute_statement-Refines (add_reflection now m outcome payload) db st h =
      reflection-Refines _ db _ st h
        (record { missions = h.missions; goals = h.goals; tasks = h.tasks })
