-- ===== src/Tests/Planner.antt =====
-- Answers of the model to the planner of crates/forge-planner.
use forge_os.Prelude.{
  is_whitespace, trim_start, trim_end, trim, ◌≡◌, refl, Text, text, text_eq, false, some, none,
  List, [], ◌∷◌, ◌++◌, ok, err, if◌then◌else◌, length, map, mem,
}
use forge_os.Domain.Mission.{Mission, new_draft}
use forge_os.Domain.Goal
use forge_os.Domain.Task
use forge_os.Service.Plan.{Plan}
use forge_os.Planner.{
  RawGoal, RawPlan, validate, validate_delta, materialize, materialize_delta, first_unknown,
  unknown_tool, unknown_dependency, planner_error_display, ids_of, assign, get, resolve, new_tasks,
  new_goal, build,
}
use forge_os.Planner.Calls.{
  Desk, build_user_prompt, correction, parse_and_validate, parse_replan, attempt, opening, plan,
  replan,
}
use forge_os.Planner.Distinct.{distinct_ids, distinct_names, materialize-distinct_ids}
use forge_os.Planner.Ends.{PlanEnd, plan-PlanEnd, ReplanEnd, replan-ReplanEnd}
use forge_os.Planner.Fences.{
  json_block, fence, clean, clean-wrap, strip_prefix, strip_open, strip_close,
}
use forge_os.Planner.Inputs.{arrange, Arranged, blank, fill, place_all, read_all, duplicate_error}
use forge_os.Planner.Inputs.Outcome.{arrange-Arranged}

opened : Unit {0}
unfolding new_draft text_eq Goal.new Task.new planner_error_display first_unknown unknown_tool
    unknown_dependency validate validate_delta assign get resolve new_tasks new_goal build
    materialize materialize_delta is_whitespace trim_start trim_end trim strip_prefix strip_open
    strip_close clean build_user_prompt correction parse_and_validate parse_replan attempt plan
    replan blank fill place_all read_all arrange
opened = tt

abbrev raw_goal : Text → List Text → Text → RawGoal Text
raw_goal id deps tool = record {
  id = id;
  title = id;
  description = [];
  depends_on = deps;
  tasks = record { tool = tool; input = text "x" } ∷ [];
  confidence = 60;
}

abbrev chain : RawPlan Text
chain = record {
  goals =
      raw_goal (text "g1") [] (text "echo")
      ∷ raw_goal (text "g2") (text "g1" ∷ []) (text "echo")
      ∷ [];
}

abbrev twins : RawPlan Text
twins = record {
  goals = raw_goal (text "g1") [] (text "echo") ∷ raw_goal (text "g1") [] (text "echo") ∷ [];
}

-- A cycle passes the check.
abbrev cycle : RawPlan Text
cycle = record { goals = raw_goal (text "g1") (text "g1" ∷ []) (text "echo") ∷ [] }

cycle_validates : validate (text "echo" ∷ []) cycle ≡ ok cycle
unfolding opened
cycle_validates = refl

twins_share_an_id :
    (validate (text "echo" ∷ []) twins ≡ ok twins)
    × (elim (materialize 7 10 twins) [ none ↦ [] | some p ↦ map (λ g. g.id) p.goals ]
        ≡ 11 ∷ 11 ∷ [])
unfolding opened
twins_share_an_id = (refl, refl)

materialize-distinct_ids_example :
    (p : Plan Text) × (materialize 7 10 twins ≡ some p)
    × (distinct_ids (map (λ g. g.id) p.goals) ≡ distinct_names (ids_of twins.goals))
materialize-distinct_ids_example = materialize-distinct_ids 7 10 twins

-- The first answer is no JSON, the second one is the chain.
abbrev desk : Desk Text
desk = record {
  answer = λ messages. if mem (length messages) (2 ∷ []) then ok (text "no") else ok (text "yes");
  plan_from_str = λ s. if text_eq s (text "yes") then ok chain else err (text "expected value");
  delta_from_str = λ s. ok (record {
    terminate = false;
    reason = [];
    added_goals = raw_goal (text "g9") (text "4" ∷ text "g9" ∷ text "g1" ∷ []) (text "echo") ∷ [];
  });
  id_from_str = λ s. if text_eq s (text "4") then some 4 else none;
  tools = text "echo" ∷ [];
  mission_id = 7;
  next_id = 10;
}

abbrev mission : Mission
mission = new_draft 7 0 (text "m") (text "d")

second_answer :
    elim (plan desk (text "s") mission) [ some (ok p) ↦ map (λ g. g.depends_on) p.goals | _ ↦ [] ]
    ≡ [] ∷ (10 ∷ []) ∷ []
unfolding opened
second_answer = refl

revision :
    elim (replan desk (text "s") (text "u")) [
      | some (ok p) ↦ map (λ g. g.depends_on) p.added_goals
      | _ ↦ []
    ]
    ≡ (4 ∷ 10 ∷ []) ∷ []
unfolding opened
revision = refl

plan-PlanEnd_example :
    PlanEnd desk (opening (text "s") (build_user_prompt mission)) (plan desk (text "s") mission)
plan-PlanEnd_example = plan-PlanEnd desk (text "s") mission

replan-ReplanEnd_example :
    ReplanEnd desk (opening (text "s") (text "u")) (replan desk (text "s") (text "u"))
replan-ReplanEnd_example = replan-ReplanEnd desk (text "s") (text "u")

arrange-Arranged_example :
    Arranged 2 ((1, text "b") ∷ (0, text "a") ∷ []) (arrange 2 ((1, text "b") ∷ (0, text "a") ∷ []))
arrange-Arranged_example = arrange-Arranged 2 ((1, text "b") ∷ (0, text "a") ∷ [])

swapped : arrange 2 ((1, text "b") ∷ (0, text "a") ∷ []) ≡ ok (text "a" ∷ text "b" ∷ [])
unfolding opened
swapped = refl

twice : arrange 2 ((1, text "b") ∷ (1, text "a") ∷ []) ≡ err (duplicate_error 1)
unfolding opened
twice = refl

clean-wrap_example :
    clean (
      (32 ∷ [])
      ++ ((fence ++ text "json" ++ ((10 ∷ []) ++ (text "{}" ++ (10 ∷ []))) ++ fence) ++ []))
    ≡ text "{}"
unfolding is_whitespace
clean-wrap_example =
    clean-wrap json_block (10 ∷ []) (10 ∷ []) (32 ∷ []) [] [] (refl, tt) (refl, tt) (refl, tt) tt
