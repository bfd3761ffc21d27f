-- ===== src/Planner/Calls.antt =====
-- `Planner::plan`, `Planner::replan` and `Planner::materialize_task_inputs` of
-- crates/forge-planner/src/lib.rs. The model's answers to a list of messages, the system prompt, the
-- JSON parsers and the ids' parser are arguments.
use forge_os.Prelude.{
  ℕ, zero, suc, Text, text, Option, none, some, List, [], ◌∷◌, ◌++◌, Result, ok, err,
}
use forge_os.Domain.Mission.{Mission}
use forge_os.Service.Plan.{Plan}
use forge_os.Service.Replan.{PlanDelta}
use forge_os.Llm.{ChatMessage}
use forge_os.Planner.{
  PlannerError, llm, parse_json, invalid, planner_error_display, RawPlan, RawDelta, validate,
  validate_delta, materialize, materialize_delta,
}
use forge_os.Planner.Fences.{clean}

abbrev pub message : Text → Text → ChatMessage
message role content = record { role = role; content = content }

unfoldable pub build_user_prompt : Mission → Text
build_user_prompt m =
    text "Mission title: "
    ++ m.title
    ++ (10 ∷ 10 ∷ text "Mission description:")
    ++ (10 ∷ m.description)

-- What the second attempt adds to the messages.
unfoldable pub correction : Text → PlannerError → List ChatMessage
unfolding planner_error_display
correction content e =
    message (text "assistant") content
    ∷ message (text "user") (
        text "Your previous plan was invalid: "
        ++ planner_error_display e
        ++ text ". Return ONLY a JSON object matching the schema. Do not add prose.")
    ∷ []

abbrev parsed {ℓ κ} :
    {A : Type ℓ} {B : Type κ} → Result Text A → (A → Result PlannerError B) → Result PlannerError B
parsed (err e) f = err (parse_json e)
parsed (ok a) f = f a

abbrev why : Option Text → Text
why (some e) = e
why none = text "unknown"

abbrev returned {ℓ} : {A : Type ℓ} → Option A → Option (Result PlannerError A)
returned (some a) = some (ok a)
returned none = none

-- What the planner works with: the model, the parsers, the tools' names, the mission's id and the
-- first id to draw.
pub record Desk (V : Type 0) : Type 0 where
  pub answer : List ChatMessage → Result Text Text
  pub plan_from_str : Text → Result Text (RawPlan V)
  pub delta_from_str : Text → Result Text (RawDelta V)
  pub id_from_str : Text → Option ℕ
  pub tools : List Text
  pub mission_id : ℕ
  pub next_id : ℕ

abbrev pub opening : Text → Text → List ChatMessage
opening system user = message (text "system") system ∷ message (text "user") user ∷ []

module _ {V : Type 0} (desk : Desk V) where
  unfoldable pub parse_and_validate : Text → Result PlannerError (RawPlan V)
  unfolding clean validate
  parse_and_validate content = parsed (desk.plan_from_str (clean content)) (validate desk.tools)

  unfoldable pub parse_replan : Text → Result PlannerError (RawDelta V)
  unfolding clean validate_delta
  parse_replan content = parsed (desk.delta_from_str (clean content)) (validate_delta desk.tools)

  -- The attempts that are left, the messages and the last error; `none` would be a panic.
  unfoldable pub attempt :
      ℕ → List ChatMessage → Option Text → Option (Result PlannerError (Plan V))
  unfolding parse_and_validate materialize correction planner_error_display
  attempt zero messages last = some (err (invalid (why last)))
  attempt (suc left) messages last = elim (desk.answer messages) [
    | err e ↦ some (err (llm e))
    | ok content ↦ elim (parse_and_validate content) [
      | ok raw ↦ returned (materialize desk.mission_id desk.next_id raw)
      | err e ↦ attempt left (messages ++ correction content e) (some (planner_error_display e))
    ]
  ]

  unfoldable pub plan : Text → Mission → Option (Result PlannerError (Plan V))
  unfolding attempt build_user_prompt
  plan system m = attempt 2 (opening system (build_user_prompt m)) none

  unfoldable pub replan : Text → Text → Option (Result PlannerError (PlanDelta V))
  unfolding parse_replan materialize_delta
  replan system user = elim (desk.answer (opening system user)) [
    | err e ↦ some (err (llm e))
    | ok content ↦ elim (parse_replan content) [
      | err e ↦ some (err e)
      | ok raw ↦ returned (materialize_delta desk.id_from_str desk.mission_id desk.next_id raw)
    ]
  ]
