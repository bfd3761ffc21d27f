-- ===== src/Service/Plan/Inserts.antt =====
-- One insertion of `persist_new_goal` or `persist_new_task` of crates/forge-mission/src/lib.rs, and
-- what is told of many.
use forge_os.Prelude.{
  if◌then◌else◌, ==_iff, ℕ, ◌≡◌, refl, sym, ap, ◌∙◌, Bool, true, false, not, ◌&&◌, List, [], ◌∷◌,
  ◌++◌, all, mem, Result, ok, err, append-nil, ◌==◌, arith, ◌⊎◌,
}
use forge_os.Domain.Goal.{Goal}
use forge_os.Domain.Task.{Task}
use forge_os.Domain.Event.{goal_created, task_created}
use forge_os.Domain.Event.Moves.{IsTrace, IsTrace-append}
use forge_os.Service.{
  World, MissionError, persistence, publish, persist_new_goal, persist_new_task, goal_ids, task_ids,
}
use forge_os.Service.Plan.Notes.{Notes}

-- None of the new ids is known, and no two are the same.
abbrev pub fresh_ids : List ℕ → List ℕ → Bool
fresh_ids known [] = true
fresh_ids known (x ∷ xs) = not (mem x known) && (not (mem x xs) && fresh_ids known xs)

mem-snoc : (x y : ℕ) (xs : List ℕ) → mem y (xs ++ x ∷ []) ≡ (if x == y then true else mem y xs)
mem-snoc x y [] = ground arith
mem-snoc x y (z ∷ zs) = ground (arith, mem-snoc x y zs)

pub fresh_ids-snoc :
    (known : List ℕ) (x : ℕ) (xs : List ℕ)
    → fresh_ids (known ++ x ∷ []) xs ≡ (not (mem x xs) && fresh_ids known xs)
fresh_ids-snoc known x [] = refl
fresh_ids-snoc known x (y ∷ ys) =
    ground (arith, mem-snoc x y known, fresh_ids-snoc known x ys, ==_iff x y, ==_iff y x)

pub nothing : (xs ys : List Goal) → [] ≡ xs ++ ys → xs ≡ []
nothing [] ys h = refl
nothing (x ∷ xs) ys h = cc

pub whole :
    (made rest more gs : List Goal)
    → gs ≡ made ++ rest
    → rest ≡ []
    → more ≡ []
    → gs ≡ (made ++ more) ++ []
whole made rest more gs split done no_more =
    split ∙ ap (λ l. made ++ l) (done ∙ sym no_more) ∙ sym (append-nil (made ++ more))

module _ {V : Type 0} where
  -- Every new task has a new id and belongs to a goal that is there.
  abbrev pub fit_tasks : List Goal → List (Task V) → List (Task V) → Bool
  fit_tasks gs ts us =
      fresh_ids (task_ids ts) (task_ids us) && all (λ u. mem u.goal_id (goal_ids gs)) us

  -- The rows are all there, or those before one that the tables refuse.
  pub record Persisted (good : Bool) (gs : List Goal) (w : World V)
      (p : World V × Result MissionError (Unit {0})) : Type 0 where
    pub made : List Goal
    pub rest : List Goal
    pub split : gs ≡ made ++ rest
    pub notes : Notes made w p.0
    pub outcome :
        ((good ≡ true) × (p.1 ≡ ok tt) × (rest ≡ []))
        ⊎ ((good ≡ false) × (row : ℕ) × (p.1 ≡ err (persistence row)))

  abbrev pub with_goal : Goal → World V → World V
  with_goal g w =
      publish (goal_created g.id w.mission.id g.title g.depends_on)
        (record w { goals = w.goals ++ g ∷ [] })

  abbrev pub with_task : Task V → World V → World V
  with_task u w =
      publish (task_created u.id u.goal_id u.tool) (record w { tasks = w.tasks ++ u ∷ [] })

  pub goal-Notes : (g : Goal) (w : World V) → Notes (g ∷ []) w (with_goal g w)
  goal-Notes g w = record {
    mission = refl;
    goals = refl;
    trace = λ s h. IsTrace-append w.log _ h (IsTrace.other _ _ _ [] refl (IsTrace.here _));
  }

  pub stopped :
      (g : Goal) (w : World V)
      → mem g.id (goal_ids w.goals) ≡ true
      → ((persist_new_goal g w).0 ≡ w) × ((persist_new_goal g w).1 ≡ err (persistence g.id))
  unfolding persist_new_goal
  stopped g w old = rw (old, persist_new_goal) (refl, refl)

  pub added :
      (g : Goal) (w : World V)
      → mem g.id (goal_ids w.goals) ≡ false
      → ((persist_new_goal g w).0 ≡ with_goal g w) × ((persist_new_goal g w).1 ≡ ok tt)
  unfolding persist_new_goal
  added g w new = rw (new, persist_new_goal) (refl, refl)

  pub task_stopped :
      (u : Task V) (w : World V)
      → (not (mem u.id (task_ids w.tasks)) && mem u.goal_id (goal_ids w.goals)) ≡ false
      → ((persist_new_task u w).0 ≡ w) × ((persist_new_task u w).1 ≡ err (persistence u.id))
  unfolding persist_new_task
  task_stopped u w bad = rw (bad, persist_new_task) (refl, refl)

  pub task_added :
      (u : Task V) (w : World V)
      → (not (mem u.id (task_ids w.tasks)) && mem u.goal_id (goal_ids w.goals)) ≡ true
      → ((persist_new_task u w).0 ≡ with_task u w) × ((persist_new_task u w).1 ≡ ok tt)
  unfolding persist_new_task
  task_added u w good = rw (good, persist_new_task) (refl, refl)
