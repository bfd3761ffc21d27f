-- ===== src/Planner/Delta.antt =====
-- `materialize_delta` of crates/forge-planner/src/lib.rs: where the dependencies of added goals go.
use forge_os.Prelude.{
  ℕ, ◌+◌, ◌≡◌, refl, Text, true, false, Option, none, some, List, [], ◌∷◌, All, length, Bool-cases,
  Option-cases, inl, inr,
}
use forge_os.Domain.Goal.{Goal}
use forge_os.Service.Replan.{PlanDelta}
use forge_os.Planner.{RawGoal, RawDelta, has, ids_of, resolve, materialize_delta, sibling_or}
use forge_os.Planner.Ids.{named, named-some, named-none}
use forge_os.Planner.Sound.{ids_of-known}
use forge_os.Planner.Build.{stands_for, build-Built, Built-stands_for, Made, Built-Made}

module _ {V : Type 0} (from_str : Text → Option ℕ) (raws : List (RawGoal V)) where
  -- What becomes of each dependency: a goal's id is kept, the name of a goal of the same answer is
  -- turned into that goal's id, and anything else is left out.
  pub data Linked (goals : List Goal) : List Text → List ℕ → Type 0 where
    nil : Linked goals [] []
    existing :
        (d : Text) (v : ℕ) (ds : List Text) (vs : List ℕ)
        → from_str d ≡ some v
        → Linked goals ds vs
        → Linked goals (d ∷ ds) (v ∷ vs)
    sibling :
        (d : Text) (v : ℕ) (ds : List Text) (vs : List ℕ)
        → from_str d ≡ none
        → stands_for d v raws goals ≡ true
        → Linked goals ds vs
        → Linked goals (d ∷ ds) (v ∷ vs)
    dropped :
        (d : Text) (ds : List Text) (vs : List ℕ)
        → from_str d ≡ none
        → has d (ids_of raws) ≡ false
        → Linked goals ds vs
        → Linked goals (d ∷ ds) vs

  resolve-Linked :
      (ids : Text → Option ℕ) (goals : List Goal) (ds : List Text)
      → ((d : Text)
          → has d (ids_of raws) ≡ true
          → (v : ℕ) × (ids d ≡ some v) × (stands_for d v raws goals ≡ true))
      → ((d : Text) → has d (ids_of raws) ≡ false → ids d ≡ none)
      → Linked goals ds (resolve (sibling_or from_str ids) ds)
  unfolding resolve
  resolve-Linked ids goals [] h k = Linked.nil
  resolve-Linked ids goals (d ∷ ds) h k =
      let rest = resolve-Linked ids goals ds h k in
      elim (Option-cases (from_str d)) [
        | inr (v, e) ↦ rw (e, resolve) (Linked.existing d v ds _ e rest)
        | inl e ↦ elim (Bool-cases (has d (ids_of raws))) [
          | inl known ↦
              let (v, q, stands) = h d known in
              rw (e, resolve) (rw q (Linked.sibling d v ds _ e stands rest))
          | inr unknown ↦ rw (e, resolve) (rw (k d unknown) (Linked.dropped d ds _ e unknown rest))
        ]
      ]

  resolve-all :
      (ids : Text → Option ℕ) (goals : List Goal) (gs : List (RawGoal V))
      → ((d : Text)
          → has d (ids_of raws) ≡ true
          → (v : ℕ) × (ids d ≡ some v) × (stands_for d v raws goals ≡ true))
      → ((d : Text) → has d (ids_of raws) ≡ false → ids d ≡ none)
      → All (λ g. Linked goals g.depends_on (resolve (sibling_or from_str ids) g.depends_on)) gs
  resolve-all ids goals [] h k = tt
  resolve-all ids goals (g ∷ gs) h k =
      (resolve-Linked ids goals g.depends_on h k, resolve-all ids goals gs h k)

module _ {V : Type 0} where
  pub record IsDeltaOf (from_str : Text → Option ℕ) (mission_id : ℕ) (raw : RawDelta V)
      (p : PlanDelta V) : Type 0 where
    pub made :
        Made
          (Linked from_str raw.added_goals p.added_goals)
          mission_id
          raw.added_goals
          p.added_goals
          p.added_tasks
    pub terminate : p.terminate ≡ raw.terminate
    pub reason : p.reason ≡ raw.reason

  -- A revision of the plan never fails to be made, whatever names the model used. Each added goal
  -- has the title, the tools and the inputs of its raw goal, in order, and waits for just these:
  -- the goals whose ids it wrote out and the added goals whose names it wrote. Names that are
  -- neither are left out.
  pub materialize_delta-IsDeltaOf :
      (from_str : Text → Option ℕ) (mission_id n : ℕ) (raw : RawDelta V)
      → (p : PlanDelta V) × (materialize_delta from_str mission_id n raw ≡ some p)
        × IsDeltaOf from_str mission_id raw p
  unfolding materialize_delta
  materialize_delta-IsDeltaOf from_str mission_id n raw =
      let gs = raw.added_goals in
      let ids = named n gs in
      let f = sibling_or from_str ids in
      let (p, e, b) =
        build-Built ids f mission_id (n + length gs) gs
          (ids_of-known ids (ids_of gs) gs (named-some n gs) (λ d k. k)) in
      let stands : (d : Text)
          → has d (ids_of gs) ≡ true
          → (v : ℕ) × (ids d ≡ some v) × (stands_for d v gs p.goals ≡ true) =
        λ d k.
          let (v, q) = named-some n gs d k in
          (v, q, Built-stands_for ids f mission_id _ gs p d v b k q) in
      (
        record {
          added_goals = p.goals;
          added_tasks = p.tasks;
          terminate = raw.terminate;
          reason = raw.reason;
        },
        rw (e, materialize_delta) refl,
        record {
          made =
              Built-Made ids f mission_id (Linked from_str gs p.goals) _ gs p b
                (resolve-all from_str gs ids p.goals gs stands (named-none n gs));
          terminate = refl;
          reason = refl;
        },
      )
