-- ===== src/Planner/Ends.antt =====
-- How a call of the planner ends: `Planner::plan` and `Planner::replan` of
-- crates/forge-planner/src/lib.rs.
use forge_os.Prelude.{
  true, ℕ, zero, suc, ◌+◌, ◌≡◌, ◌≤◌, refl, subst, Text, Option, none, some, List, ◌++◌, Result, ok,
  err, Result-cases, arith, All, inl, inr,
}
use forge_os.Domain.Mission.{Mission}
use forge_os.Service.Plan.{Plan}
use forge_os.Service.Replan.{PlanDelta}
use forge_os.Llm.{ChatMessage}
use forge_os.Planner.{
  PlannerError, llm, invalid, planner_error_display, RawPlan, RawDelta, validate, has, tools_of,
}
use forge_os.Planner.Fences.{clean}
use forge_os.Planner.Faults.{
  AnswerFault, RevisionFault, parse_and_validate-AnswerFault, parse_replan-RevisionFault,
}
use forge_os.Planner.Sound.{IsPlanOf, materialize-IsPlanOf, Known, validate_delta-Known, Made-tools}
use forge_os.Planner.Delta.{IsDeltaOf, materialize_delta-IsDeltaOf}
use forge_os.Planner.Calls.{
  Desk, build_user_prompt, correction, parse_and_validate, parse_replan, attempt, opening, plan,
  replan,
}

module _ {V : Type 0} (desk : Desk V) where
  -- The messages after so many answers that were refused, and the last refusal.
  pub data Asked (first : List ChatMessage) : ℕ → List ChatMessage → Option Text → Type 0 where
    once : Asked first 0 first none
    again :
        (k : ℕ) (messages : List ChatMessage) (last : Option Text) (content : Text)
        (e : PlannerError)
        → Asked first k messages last
        → desk.answer messages ≡ ok content
        → AnswerFault desk content e
        → Asked first (suc k) (messages ++ correction content e) (some (planner_error_display e))

  pub data PlanEnd (first : List ChatMessage) : Option (Result PlannerError (Plan V)) → Type 0 where
    accepted :
        (k : ℕ) (messages : List ChatMessage) (last : Option Text) (content : Text)
        (raw : RawPlan V) (p : Plan V)
        → Asked first k messages last
        → k ≤ 1
        → desk.answer messages ≡ ok content
        → desk.plan_from_str (clean content) ≡ ok raw
        → IsPlanOf desk.tools desk.mission_id raw p
        → PlanEnd first (some (ok p))
    unanswered :
        (k : ℕ) (messages : List ChatMessage) (last : Option Text) (e : Text)
        → Asked first k messages last
        → k ≤ 1
        → desk.answer messages ≡ err e
        → PlanEnd first (some (err (llm e)))
    refused :
        (messages : List ChatMessage) (last : Text)
        → Asked first 2 messages (some last)
        → PlanEnd first (some (err (invalid last)))

  parse_and_validate-ok :
      (content : Text) (good : RawPlan V)
      → parse_and_validate desk content ≡ ok good
      → (raw : RawPlan V) × (desk.plan_from_str (clean content) ≡ ok raw)
        × (validate desk.tools raw ≡ ok good)
  unfolding parse_and_validate
  parse_and_validate-ok content good h = elim (Result-cases (desk.plan_from_str (clean content))) [
    | inr (e, q) ↦ absurd (let k = rw (q, parse_and_validate) at h in ground (arith, k))
    | inl (raw, q) ↦ (raw, q, rw (q, parse_and_validate) at h)
  ]

  Asked-none :
      (first : List ChatMessage) (k : ℕ) (messages : List ChatMessage)
      → Asked first k messages none
      → k ≡ 0
  Asked-none first _ _ once = refl

  attempt-PlanEnd :
      (first : List ChatMessage) (left k : ℕ) (messages : List ChatMessage) (last : Option Text)
      → suc k + left ≡ 3
      → Asked first k messages last
      → PlanEnd first (attempt desk left messages last)
  unfolding attempt
  attempt-PlanEnd first zero k messages none size asked =
      absurd (omega (arith, size, Asked-none first k messages asked))
  attempt-PlanEnd first zero k messages (some last) size asked =
      PlanEnd.refused messages last
        (subst (λ n. Asked first n messages (some last)) (omega (arith, size)) asked)
  attempt-PlanEnd first (suc left) k messages last size asked =
      elim (Result-cases (desk.answer messages)) [
        | inr (e, q) ↦
            rw (q, attempt) (PlanEnd.unanswered k messages last e asked (omega (arith, size)) q)
        | inl (content, q) ↦ elim (Result-cases (parse_and_validate desk content)) [
          | inr (e, r) ↦
              rw (q, attempt)
                (rw r (
                  attempt-PlanEnd first left (suc k) _ _ (omega (arith, size)) (
                    Asked.again k messages last content e asked q
                      (parse_and_validate-AnswerFault desk content e r))))
          | inl (good, r) ↦
              let (raw, s, v) = parse_and_validate-ok content good r in
              let (p, made, sound) =
                materialize-IsPlanOf desk.tools desk.mission_id desk.next_id raw good v in
              rw (q, attempt)
                (rw r (
                  rw made (
                    PlanEnd.accepted k messages last content raw p asked (omega (arith, size)) q s
                      sound)))
        ]
      ]

  parse_replan-ok :
      (content : Text) (good : RawDelta V)
      → parse_replan desk content ≡ ok good
      → (desk.delta_from_str (clean content) ≡ ok good)
        × All (λ g. Known desk.tools (tools_of g)) good.added_goals
  unfolding parse_replan
  parse_replan-ok content good h = elim (Result-cases (desk.delta_from_str (clean content))) [
    | inr (e, q) ↦ absurd (let k = rw (q, parse_replan) at h in ground (arith, k))
    | inl (raw, q) ↦
        let (same, known) = validate_delta-Known desk.tools raw good (rw (q, parse_replan) at h) in
        (rw same q, rw same known)
  ]

  -- What a revision can come to.
  pub data ReplanEnd (first : List ChatMessage)
      : Option (Result PlannerError (PlanDelta V)) → Type 0 where
    revised :
        (content : Text) (raw : RawDelta V) (p : PlanDelta V)
        → desk.answer first ≡ ok content
        → desk.delta_from_str (clean content) ≡ ok raw
        → IsDeltaOf desk.id_from_str desk.mission_id raw p
        → All (λ t. has t.tool desk.tools ≡ true) p.added_tasks
        → ReplanEnd first (some (ok p))
    refused :
        (content : Text) (e : PlannerError)
        → desk.answer first ≡ ok content
        → RevisionFault desk content e
        → ReplanEnd first (some (err e))
    unanswered : (e : Text) → desk.answer first ≡ err e → ReplanEnd first (some (err (llm e)))

  -- A call of the planner asks the model once or twice and always returns. It returns a plan only
  -- if one of these answers, taken out of its fences, reads as a plan with at least one goal that
  -- names no tool but the given ones and no goal but its own. Then, goal by goal in the answer's
  -- order, the plan has a pending goal with that title, description and confidence, whose
  -- dependencies are, one by one, the ids of the goals made of those named, and one task for each
  -- task named, with its tool and input, that belongs to the goal. The second request has the first
  -- answer and the fault that was found in it after the first messages. If the model fails, so does
  -- the call, at once; if the second answer is refused too, the error says what was wrong with it.
  -- An answer is refused only for a true fault, and the error names it: the text does not read as a
  -- plan, the plan has no goal, one of its goals names a tool that is not given, or one of its goals
  -- depends on a name that no goal has.
  pub plan-PlanEnd :
      (system : Text) (m : Mission)
      → PlanEnd (opening system (build_user_prompt m)) (plan desk system m)
  unfolding plan
  plan-PlanEnd system m = attempt-PlanEnd _ 2 0 _ none refl Asked.once

  -- A revision asks the model once and always returns. If the answer, taken out of its fences,
  -- reads as a revision that names no tool but the given ones, it is made: each added goal has the
  -- title, the tools and the inputs of its raw goal, in order, and waits for just these: the goals
  -- whose ids it wrote out, and the added goals whose names it wrote. Names that are neither are
  -- left out. Else the error is the model's, or it names a true fault of the answer: it does not
  -- read as a revision, or one of its goals names a tool that is not given.
  pub replan-ReplanEnd :
      (system user : Text) → ReplanEnd (opening system user) (replan desk system user)
  unfolding replan
  replan-ReplanEnd system user = elim (Result-cases (desk.answer (opening system user))) [
    | inr (e, q) ↦ rw (q, replan) (ReplanEnd.unanswered e q)
    | inl (content, q) ↦ elim (Result-cases (parse_replan desk content)) [
      | inr (e, r) ↦
          rw (q, replan)
            (rw r (ReplanEnd.refused content e q (parse_replan-RevisionFault desk content e r)))
      | inl (good, r) ↦
          let (s, known) = parse_replan-ok content good r in
          let (p, made, d) =
            materialize_delta-IsDeltaOf desk.id_from_str desk.mission_id desk.next_id good in
          rw (q, replan)
            (rw r (
              rw made (
                ReplanEnd.revised content good p q s d
                  (Made-tools desk.tools _ desk.mission_id _ _ _ d.made known))))
    ]
  ]
