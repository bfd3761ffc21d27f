-- ===== src/Planner/Build.antt =====
-- The goals and tasks that the loops of `materialize` and `materialize_delta` of
-- crates/forge-planner/src/lib.rs make of the raw goals.
use forge_os.Prelude.{
  ℕ, suc, ◌+◌, ◌≡◌, refl, ap, subst, Text, text_eq, text_eq_iff, Bool, true, false, ◌&&◌, ◌||◌,
  Option, some, List, [], ◌∷◌, ◌++◌, map, All, length, arith, ◌==◌, ==_iff, Bool-cases, inl, inr,
}
use forge_os.Domain.Goal.{Goal, pending}
use forge_os.Domain.Goal
use forge_os.Domain.Task.{Task}
use forge_os.Domain.Task
use forge_os.Service.Plan.{Plan}
use forge_os.Planner.{
  RawGoal, RawTask, has, ids_of, tools_of, new_tasks, new_goal, task_ids, build, resolve,
}

module _ {V : Type 0} where
  -- A goal with id `v` is the one made of a raw goal with name `d`.
  abbrev pub stands_for : Text → ℕ → List (RawGoal V) → List Goal → Bool
  stands_for d v (r ∷ rs) (g ∷ gs) = (text_eq r.id d && g.id == v) || stands_for d v rs gs
  stands_for d v _ _ = false

  -- A goal and its tasks against the raw goal; `D` is what is asked of the dependencies.
  pub record MadeOf (D : List Text → List ℕ → Type 0) (mission_id : ℕ) (r : RawGoal V) (g : Goal)
      (ts : List (Task V)) : Type 0 where
    pub title : g.title ≡ r.title
    pub description : g.description ≡ r.description
    pub mission : g.mission_id ≡ mission_id
    pub confidence : g.confidence ≡ r.confidence
    pub fresh : g.status ≡ pending
    pub depends_on : D r.depends_on g.depends_on
    pub tasks : g.tasks ≡ task_ids ts
    pub tools : map (λ t. t.tool) ts ≡ tools_of r
    pub inputs : map (λ t. t.input) ts ≡ map (λ t. t.input) r.tasks
    pub owner : All (λ t. t.goal_id ≡ g.id) ts

  -- Goal by goal, with the tasks in the goals' order.
  pub data Made (D : List Text → List ℕ → Type 0) (mission_id : ℕ)
      : List (RawGoal V) → List Goal → List (Task V) → Type 0 where
    nil : Made D mission_id [] [] []
    cons :
        (r : RawGoal V) (rs : List (RawGoal V)) (g : Goal) (gs : List Goal) (ts us : List (Task V))
        → MadeOf D mission_id r g ts
        → Made D mission_id rs gs us
        → Made D mission_id (r ∷ rs) (g ∷ gs) (ts ++ us)

  new_tasks-tools :
      (gid n : ℕ) (ts : List (RawTask V))
      → map (λ t. t.tool) (new_tasks gid n ts) ≡ map (λ t. t.tool) ts
  unfolding new_tasks Task.new
  new_tasks-tools gid n [] = refl
  new_tasks-tools gid n (t ∷ ts) = ap (λ l. t.tool ∷ l) (new_tasks-tools gid (suc n) ts)

  new_tasks-inputs :
      (gid n : ℕ) (ts : List (RawTask V))
      → map (λ t. t.input) (new_tasks gid n ts) ≡ map (λ t. t.input) ts
  unfolding new_tasks Task.new
  new_tasks-inputs gid n [] = refl
  new_tasks-inputs gid n (t ∷ ts) = ap (λ l. t.input ∷ l) (new_tasks-inputs gid (suc n) ts)

  new_tasks-owner :
      (gid n : ℕ) (ts : List (RawTask V)) → All (λ t. t.goal_id ≡ gid) (new_tasks gid n ts)
  unfolding new_tasks Task.new
  new_tasks-owner gid n [] = tt
  new_tasks-owner gid n (t ∷ ts) = (refl, new_tasks-owner gid (suc n) ts)

module _ {V : Type 0} (ids f : Text → Option ℕ) (mission_id : ℕ) where
  pub data Built : ℕ → List (RawGoal V) → Plan V → Type 0 where
    nil : (n : ℕ) → Built n [] (record { goals = []; tasks = [] })
    cons :
        (n gid : ℕ) (g : RawGoal V) (gs : List (RawGoal V)) (p : Plan V)
        → ids g.id ≡ some gid
        → Built (suc n + length g.tasks) gs p
        → Built n (g ∷ gs) (record {
          goals = new_goal f mission_id gid n g ∷ p.goals;
          tasks = new_tasks gid (suc n) g.tasks ++ p.tasks;
        })

  -- Where each raw goal has an id, the loop makes a plan.
  pub build-Built :
      (n : ℕ) (gs : List (RawGoal V))
      → All (λ g. (v : ℕ) × (ids g.id ≡ some v)) gs
      → (p : Plan V) × (build ids f mission_id n gs ≡ some p) × Built n gs p
  unfolding build
  build-Built n [] all = (_, refl, Built.nil n)
  build-Built n (g ∷ gs) ((gid, e), all) =
      let (p, q, b) = build-Built (suc n + length g.tasks) gs all in
      (_, rw (e, build) (rw q refl), Built.cons n gid g gs p e b)

  -- The id of a name that the raw goals have is that of the goal made of it.
  pub Built-stands_for :
      (n : ℕ) (gs : List (RawGoal V)) (p : Plan V) (d : Text) (v : ℕ)
      → Built n gs p
      → has d (ids_of gs) ≡ true
      → ids d ≡ some v
      → stands_for d v gs p.goals ≡ true
  unfolding new_goal
  Built-stands_for n _ _ d v (nil _) known e = known
  Built-stands_for n _ _ d v (cons _ gid g gs p q b) known e = elim (Bool-cases (text_eq g.id d)) [
    | inl same ↦
        let one : ids d ≡ some gid =
          subst (λ t. ids t ≡ some gid) ((text_eq_iff g.id d).0 same) q in
        ground (arith, one, e, ==_iff gid v, same)
    | inr other ↦
        let rest =
          Built-stands_for (suc n + length g.tasks) gs p d v b (ground (arith, known, other)) e in
        ground (arith, rest)
  ]

  pub Built-Made :
      (D : List Text → List ℕ → Type 0) (n : ℕ) (gs : List (RawGoal V)) (p : Plan V)
      → Built n gs p
      → All (λ g. D g.depends_on (resolve f g.depends_on)) gs
      → Made D mission_id gs p.goals p.tasks
  unfolding new_goal Goal.new
  Built-Made D n _ _ (nil _) h = Made.nil
  Built-Made D n _ _ (cons _ gid g gs p q b) h =
      Made.cons g gs (new_goal f mission_id gid n g) p.goals (new_tasks gid (suc n) g.tasks) p.tasks
        (record {
          title = refl;
          description = refl;
          mission = refl;
          confidence = refl;
          fresh = refl;
          depends_on = h.0;
          tasks = refl;
          tools = new_tasks-tools gid (suc n) g.tasks;
          inputs = new_tasks-inputs gid (suc n) g.tasks;
          owner = new_tasks-owner gid (suc n) g.tasks;
        })
        (Built-Made D (suc n + length g.tasks) gs p b h.1)
