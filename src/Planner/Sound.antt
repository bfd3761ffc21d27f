-- ===== src/Planner/Sound.antt =====
-- `materialize` of crates/forge-planner/src/lib.rs after `parse_and_validate`: what the goals and
-- tasks of a plan have to do with the raw plan.
use forge_os.Prelude.{
  ℕ, ◌+◌, ◌≡◌, ◌≤◌, refl, sym, subst, Text, text, text_eq_iff, true, false, Option, none, some,
  List, [], ◌∷◌, map, All, All-append, length, arith, ◌==◌, Option-cases, inl, inr, ok,
}
use forge_os.Domain.Goal.{Goal}
use forge_os.Domain.Task.{Task}
use forge_os.Service.Plan.{Plan}
use forge_os.Planner.{
  RawGoal, RawPlan, has, first_unknown, ids_of, tools_of, unknown_tool, unknown_dependency,
  validate, validate_delta, RawDelta, resolve, materialize,
}
use forge_os.Planner.Ids.{named, named-some}
use forge_os.Planner.Build.{stands_for, build-Built, Built-stands_for, Made, Built-Made}

abbrev pub Known : List Text → List Text → Type 0
Known known = All (λ x. has x known ≡ true)

first_unknown-Known : (known xs : List Text) → first_unknown known xs ≡ none → Known known xs
unfolding first_unknown
first_unknown-Known known [] h = tt
first_unknown-Known known (x ∷ xs) h =
    let fact : has x known ≡ true = ground (arith, h) in
    let rest : first_unknown known xs ≡ none = ground (arith, h) in
    (fact, first_unknown-Known known xs rest)

module _ {V : Type 0} where
  unknown_tool-Known :
      (who : Text) (tools : List Text) (gs : List (RawGoal V))
      → unknown_tool who tools gs ≡ none
      → All (λ g. Known tools (tools_of g)) gs
  unfolding unknown_tool
  unknown_tool-Known who tools [] h = tt
  unknown_tool-Known who tools (g ∷ gs) h = elim (Option-cases (first_unknown tools (tools_of g))) [
    | inr (t, e) ↦ absurd (let q = rw (e, unknown_tool) at h in ground (arith, q))
    | inl e ↦ (
      first_unknown-Known tools (tools_of g) e,
      unknown_tool-Known who tools gs (rw (e, unknown_tool) at h),
    )
  ]

  unknown_dependency-Known :
      (ids : List Text) (gs : List (RawGoal V))
      → unknown_dependency ids gs ≡ none
      → All (λ g. Known ids g.depends_on) gs
  unfolding unknown_dependency
  unknown_dependency-Known ids [] h = tt
  unknown_dependency-Known ids (g ∷ gs) h = elim (Option-cases (first_unknown ids g.depends_on)) [
    | inr (t, e) ↦ absurd (let q = rw (e, unknown_dependency) at h in ground (arith, q))
    | inl e ↦ (
      first_unknown-Known ids g.depends_on e,
      unknown_dependency-Known ids gs (rw (e, unknown_dependency) at h),
    )
  ]

  record IsValid (tools : List Text) (raw : RawPlan V) : Type 0 where
    some_goal : (length raw.goals == 0) ≡ false
    known_tools : All (λ g. Known tools (tools_of g)) raw.goals
    known_ids : All (λ g. Known (ids_of raw.goals) g.depends_on) raw.goals

  validate-IsValid :
      (tools : List Text) (raw good : RawPlan V)
      → validate tools raw ≡ ok good
      → (good ≡ raw) × IsValid tools raw
  unfolding validate
  validate-IsValid tools raw good h =
      let some_goal : (length raw.goals == 0) ≡ false = ground (arith, h) in
      let h₁ = rw (some_goal, validate) at h in
      elim (Option-cases (unknown_tool (text "goal ") tools raw.goals)) [
        | inr (e, q) ↦ absurd (let k = rw q at h₁ in ground (arith, k))
        | inl q ↦
            let h₂ = rw q at h₁ in
            elim (Option-cases (unknown_dependency (ids_of raw.goals) raw.goals)) [
              | inr (e, r) ↦ absurd (let k = rw r at h₂ in ground (arith, k))
              | inl r ↦
                  let h₃ = rw r at h₂ in
                  (
                    cc,
                    record {
                      some_goal = some_goal;
                      known_tools = unknown_tool-Known (text "goal ") tools raw.goals q;
                      known_ids = unknown_dependency-Known (ids_of raw.goals) raw.goals r;
                    },
                  )
            ]
      ]

  pub validate_delta-Known :
      (tools : List Text) (raw good : RawDelta V)
      → validate_delta tools raw ≡ ok good
      → (good ≡ raw) × All (λ g. Known tools (tools_of g)) raw.added_goals
  unfolding validate_delta
  validate_delta-Known tools raw good h =
      elim (Option-cases (unknown_tool (text "replanned goal ") tools raw.added_goals)) [
        | inr (e, q) ↦ absurd (let k = rw (q, validate_delta) at h in ground (arith, k))
        | inl q ↦
            let k = rw (q, validate_delta) at h in
            (cc, unknown_tool-Known (text "replanned goal ") tools raw.added_goals q)
      ]

  -- Each dependency is the id of the goal that is made of the raw goal with that name.
  abbrev pub Stand : List (RawGoal V) → List Goal → List Text → List ℕ → Type 0
  Stand raws goals [] [] = Unit
  Stand raws goals (d ∷ ds) (v ∷ vs) = (stands_for d v raws goals ≡ true) × Stand raws goals ds vs
  Stand raws goals _ _ = ⊥

  Known-Stand :
      (f : Text → Option ℕ) (raws : List (RawGoal V)) (goals : List Goal) (ds : List Text)
      → ((d : Text)
          → has d (ids_of raws) ≡ true
          → (v : ℕ) × (f d ≡ some v) × (stands_for d v raws goals ≡ true))
      → Known (ids_of raws) ds
      → Stand raws goals ds (resolve f ds)
  unfolding resolve
  Known-Stand f raws goals [] h known = tt
  Known-Stand f raws goals (d ∷ ds) h known =
      let (v, e, stands) = h d known.0 in
      rw (e, resolve) (stands, Known-Stand f raws goals ds h known.1)

  All-Stand :
      (f : Text → Option ℕ) (raws gs : List (RawGoal V)) (goals : List Goal)
      → ((d : Text)
          → has d (ids_of raws) ≡ true
          → (v : ℕ) × (f d ≡ some v) × (stands_for d v raws goals ≡ true))
      → All (λ g. Known (ids_of raws) g.depends_on) gs
      → All (λ g. Stand raws goals g.depends_on (resolve f g.depends_on)) gs
  All-Stand f raws [] goals h known = tt
  All-Stand f raws (g ∷ gs) goals h known =
      (Known-Stand f raws goals g.depends_on h known.0, All-Stand f raws gs goals h known.1)

  Known-tasks :
      (tools : List Text) (ts : List (Task V))
      → Known tools (map (λ t. t.tool) ts)
      → All (λ t. has t.tool tools ≡ true) ts
  Known-tasks tools [] h = tt
  Known-tasks tools (t ∷ ts) h = (h.0, Known-tasks tools ts h.1)

  pub Made-tools :
      (tools : List Text) (D : List Text → List ℕ → Type 0) (mission_id : ℕ) (rs : List (RawGoal V))
      (gs : List Goal) (ts : List (Task V))
      → Made D mission_id rs gs ts
      → All (λ g. Known tools (tools_of g)) rs
      → All (λ t. has t.tool tools ≡ true) ts
  Made-tools tools D m _ _ _ Made.nil known = tt
  Made-tools tools D m _ _ _ (Made.cons r rs g gs ts us made rest) known =
      All-append _ ts us (Known-tasks tools ts (subst (Known tools) (sym made.tools) known.0))
        (Made-tools tools D m rs gs us rest known.1)

  pub record IsPlanOf (tools : List Text) (mission_id : ℕ) (raw : RawPlan V) (p : Plan V)
      : Type 0 where
    pub made : Made (Stand raw.goals p.goals) mission_id raw.goals p.goals p.tasks
    pub some_goal : 1 ≤ length raw.goals
    pub known_tools : All (λ t. has t.tool tools ≡ true) p.tasks

  pub ids_of-known :
      (f : Text → Option ℕ) (known : List Text) (gs : List (RawGoal V))
      → ((d : Text) → has d known ≡ true → (v : ℕ) × (f d ≡ some v))
      → ((d : Text) → has d (ids_of gs) ≡ true → has d known ≡ true)
      → All (λ g. (v : ℕ) × (f g.id ≡ some v)) gs
  ids_of-known f known [] h sub = tt
  ids_of-known f known (g ∷ gs) h sub = (
    h g.id (sub g.id (ground (arith, (text_eq_iff g.id g.id).1 refl))),
    ids_of-known f known gs h (λ d k. sub d (ground (arith, k))),
  )

  pub materialize-IsPlanOf :
      (tools : List Text) (mission_id n : ℕ) (raw good : RawPlan V)
      → validate tools raw ≡ ok good
      → (p : Plan V) × (materialize mission_id n good ≡ some p) × IsPlanOf tools mission_id raw p
  unfolding materialize
  materialize-IsPlanOf tools mission_id n raw good h =
      let (same, valid) = validate-IsValid tools raw good h in
      let ids = named n raw.goals in
      let (p, e, b) =
        build-Built ids ids mission_id (n + length raw.goals) raw.goals
          (ids_of-known ids (ids_of raw.goals) raw.goals (named-some n raw.goals) (λ d k. k)) in
      let stands : (d : Text)
          → has d (ids_of raw.goals) ≡ true
          → (v : ℕ) × (ids d ≡ some v) × (stands_for d v raw.goals p.goals ≡ true) =
        λ d k.
          let (v, q) = named-some n raw.goals d k in
          (v, q, Built-stands_for ids ids mission_id _ raw.goals p d v b k q) in
      let made =
        Built-Made ids ids mission_id (Stand raw.goals p.goals) _ raw.goals p b
          (All-Stand ids raw.goals raw.goals p.goals stands valid.known_ids) in
      (
        p,
        rw same e,
        record {
          made = made;
          some_goal = ground (arith, valid.some_goal);
          known_tools = Made-tools tools _ mission_id _ _ _ made valid.known_tools;
        },
      )
