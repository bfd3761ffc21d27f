-- ===== src/Planner/Faults.antt =====
-- What can be wrong with an answer of the model: the errors of `parse_and_validate` and
-- `parse_replan` of crates/forge-planner/src/lib.rs, spelled apart from the code.
use forge_os.Prelude.{
  Stands, ◌≡◌, Text, text, true, false, some, List, [], ◌∷◌, ◌++◌, ok, err, refl, subst, ap,
  Result-cases, Bool-cases, Option-cases, inl, inr, length, ◌==◌, arith,
}
use forge_os.Planner.{
  PlannerError, parse_json, invalid, empty, RawGoal, RawPlan, RawDelta, has, quoted, tools_of,
  ids_of, first_unknown, unknown_tool, unknown_dependency, validate, validate_delta,
}
use forge_os.Planner.Fences.{clean}
use forge_os.Planner.Calls.{Desk, parse_and_validate, parse_replan}

pub record IsUnknown (known xs : List Text) (x : Text) : Type 0 where
  pub stands : Stands x xs
  pub unknown : has x known ≡ false

first_unknown-IsUnknown :
    (known xs : List Text) (x : Text) → first_unknown known xs ≡ some x → IsUnknown known xs x
unfolding first_unknown
first_unknown-IsUnknown known [] x h = absurd (ground (arith, h))
first_unknown-IsUnknown known (y ∷ xs) x h = elim (Bool-cases (has y known)) [
  | inl e ↦
      let k = first_unknown-IsUnknown known xs x (rw (e, first_unknown) at h) in
      record { stands = Stands.there y xs k.stands; unknown = k.unknown }
  | inr e ↦
      let same : y ≡ x = ground (arith, h, e) in
      record {
        stands = subst (λ z. Stands z (y ∷ xs)) same (Stands.here xs);
        unknown = subst (λ z. has z known ≡ false) same e;
      }
]

module _ {V : Type 0} where
  -- A goal names a tool that is not there, and the error says which goal and which tool.
  pub record ToolFault (who : Text) (tools : List Text) (gs : List (RawGoal V)) (e : PlannerError)
      : Type 0 where
    pub goal : RawGoal V
    pub tool : Text
    pub stands : Stands goal gs
    pub unknown : IsUnknown tools (tools_of goal) tool
    pub said :
        e ≡ invalid (who ++ quoted goal.id ++ text " references unknown tool " ++ quoted tool)

  -- A goal depends on a name that no goal has.
  pub record NameFault (ids : List Text) (gs : List (RawGoal V)) (e : PlannerError) : Type 0 where
    pub goal : RawGoal V
    pub name : Text
    pub stands : Stands goal gs
    pub unknown : IsUnknown ids goal.depends_on name
    pub said :
        e ≡ invalid (text "goal " ++ quoted goal.id ++ text " depends on unknown " ++ quoted name)

  unknown_tool-ToolFault :
      (who : Text) (tools : List Text) (gs : List (RawGoal V)) (e : PlannerError)
      → unknown_tool who tools gs ≡ some e
      → ToolFault who tools gs e
  unfolding unknown_tool
  unknown_tool-ToolFault who tools [] e h = absurd (ground (arith, h))
  unknown_tool-ToolFault who tools (g ∷ gs) e h =
      elim (Option-cases (first_unknown tools (tools_of g))) [
        | inl q ↦
            let k = unknown_tool-ToolFault who tools gs e (rw (q, unknown_tool) at h) in
            record {
              goal = k.goal;
              tool = k.tool;
              stands = Stands.there g gs k.stands;
              unknown = k.unknown;
              said = k.said;
            }
        | inr (t, q) ↦
            let k = rw (q, unknown_tool) at h in
            record {
              goal = g;
              tool = t;
              stands = Stands.here gs;
              unknown = first_unknown-IsUnknown tools (tools_of g) t q;
              said = ground (arith, k);
            }
      ]

  unknown_dependency-NameFault :
      (ids : List Text) (gs : List (RawGoal V)) (e : PlannerError)
      → unknown_dependency ids gs ≡ some e
      → NameFault ids gs e
  unfolding unknown_dependency
  unknown_dependency-NameFault ids [] e h = absurd (ground (arith, h))
  unknown_dependency-NameFault ids (g ∷ gs) e h =
      elim (Option-cases (first_unknown ids g.depends_on)) [
        | inl q ↦
            let k = unknown_dependency-NameFault ids gs e (rw (q, unknown_dependency) at h) in
            record {
              goal = k.goal;
              name = k.name;
              stands = Stands.there g gs k.stands;
              unknown = k.unknown;
              said = k.said;
            }
        | inr (t, q) ↦
            let k = rw (q, unknown_dependency) at h in
            record {
              goal = g;
              name = t;
              stands = Stands.here gs;
              unknown = first_unknown-IsUnknown ids g.depends_on t q;
              said = ground (arith, k);
            }
      ]

  pub data PlanFault (tools : List Text) (raw : RawPlan V) : PlannerError → Type 0 where
    no_goal : raw.goals ≡ [] → PlanFault tools raw empty
    no_tool :
        (e : PlannerError) → ToolFault (text "goal ") tools raw.goals e → PlanFault tools raw e
    no_name : (e : PlannerError) → NameFault (ids_of raw.goals) raw.goals e → PlanFault tools raw e

  length-nil : (gs : List (RawGoal V)) → (length gs == 0) ≡ true → gs ≡ []
  length-nil [] h = refl
  length-nil (g ∷ gs) h = absurd (ground (arith, h))

  validate-PlanFault :
      (tools : List Text) (raw : RawPlan V) (e : PlannerError)
      → validate tools raw ≡ err e
      → PlanFault tools raw e
  unfolding validate
  validate-PlanFault tools raw e h = elim (Bool-cases (length raw.goals == 0)) [
    | inl z ↦
        let k = rw (z, validate) at h in
        subst (PlanFault tools raw) (ground (arith, k)) (PlanFault.no_goal (length-nil raw.goals z))
    | inr z ↦
        let h₁ = rw (z, validate) at h in
        elim (Option-cases (unknown_tool (text "goal ") tools raw.goals)) [
          | inr (f, q) ↦
              let k = rw q at h₁ in
              let same : f ≡ e = ground (arith, k) in
              PlanFault.no_tool e
                (unknown_tool-ToolFault (text "goal ") tools raw.goals e (rw q (ap some same)))
          | inl q ↦
              let h₂ = rw q at h₁ in
              elim (Option-cases (unknown_dependency (ids_of raw.goals) raw.goals)) [
                | inr (f, r) ↦
                    let k = rw r at h₂ in
                    let same : f ≡ e = ground (arith, k) in
                    PlanFault.no_name e (
                      unknown_dependency-NameFault (ids_of raw.goals) raw.goals e
                        (rw r (ap some same)))
                | inl r ↦ absurd (let k = rw r at h₂ in ground (arith, k))
              ]
        ]
  ]

  validate_delta-ToolFault :
      (tools : List Text) (raw : RawDelta V) (e : PlannerError)
      → validate_delta tools raw ≡ err e
      → ToolFault (text "replanned goal ") tools raw.added_goals e
  unfolding validate_delta
  validate_delta-ToolFault tools raw e h =
      elim (Option-cases (unknown_tool (text "replanned goal ") tools raw.added_goals)) [
        | inr (f, q) ↦
            let k = rw (q, validate_delta) at h in
            let same : f ≡ e = ground (arith, k) in
            unknown_tool-ToolFault _ tools raw.added_goals e (rw q (ap some same))
        | inl q ↦ absurd (let k = rw (q, validate_delta) at h in ground (arith, k))
      ]

module _ {V : Type 0} (desk : Desk V) where
  -- What is wrong with an answer as a plan.
  pub data AnswerFault (content : Text) : PlannerError → Type 0 where
    unreadable :
        (e : Text) → desk.plan_from_str (clean content) ≡ err e → AnswerFault content (parse_json e)
    unfit :
        (raw : RawPlan V) (e : PlannerError)
        → desk.plan_from_str (clean content) ≡ ok raw
        → PlanFault desk.tools raw e
        → AnswerFault content e

  -- What is wrong with an answer as a revision.
  pub data RevisionFault (content : Text) : PlannerError → Type 0 where
    unreadable :
        (e : Text)
        → desk.delta_from_str (clean content) ≡ err e
        → RevisionFault content (parse_json e)
    unfit :
        (raw : RawDelta V) (e : PlannerError)
        → desk.delta_from_str (clean content) ≡ ok raw
        → ToolFault (text "replanned goal ") desk.tools raw.added_goals e
        → RevisionFault content e

  pub parse_and_validate-AnswerFault :
      (content : Text) (e : PlannerError)
      → parse_and_validate desk content ≡ err e
      → AnswerFault content e
  unfolding parse_and_validate
  parse_and_validate-AnswerFault content e h =
      elim (Result-cases (desk.plan_from_str (clean content))) [
        | inr (f, q) ↦
            let k = rw (q, parse_and_validate) at h in
            subst (AnswerFault content) (ground (arith, k)) (AnswerFault.unreadable f q)
        | inl (raw, q) ↦
            AnswerFault.unfit raw e q
              (validate-PlanFault desk.tools raw e (rw (q, parse_and_validate) at h))
      ]

  pub parse_replan-RevisionFault :
      (content : Text) (e : PlannerError)
      → parse_replan desk content ≡ err e
      → RevisionFault content e
  unfolding parse_replan
  parse_replan-RevisionFault content e h =
      elim (Result-cases (desk.delta_from_str (clean content))) [
        | inr (f, q) ↦
            let k = rw (q, parse_replan) at h in
            subst (RevisionFault content) (ground (arith, k)) (RevisionFault.unreadable f q)
        | inl (raw, q) ↦
            RevisionFault.unfit raw e q
              (validate_delta-ToolFault desk.tools raw e (rw (q, parse_replan) at h))
      ]
