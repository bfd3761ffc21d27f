-- ===== src/Service/Plan.antt =====
-- `plan_only`, `plan_and_run_sync` and `extend` of crates/forge-mission/src/lib.rs. The skills, the
-- recalled blocks and the planner's answer are arguments.
pub mod Notes
pub mod Inserts
pub mod Rows
pub mod Path
use forge_os.Prelude.{
  ℕ, Text, text, Bool, true, false, not, Option, none, some, List, [], ◌∷◌, ◌++◌, Result, ok, err,
  if◌then◌else◌, length, take,
}
use forge_os.Domain.Mission.{
  Mission, MissionStatus, draft, planning, ready, running, failed, can_transition, is_terminal,
  transition_to,
}
use forge_os.Domain.Goal.{Goal}
use forge_os.Domain.Task.{Task}
use forge_os.Domain.Event.{
  mission_planning_started, mission_planning_completed, mission_planning_failed, skills_selected,
  episodic_recall_surfaced, org_memory_recalled, mission_status_changed,
}
use forge_os.Service.{World, MissionError, planner, state, publish, set_status, persist_rows}

pub record RecallSurface : Type 0 where
  pub block : Text
  pub keywords : List Text
  pub prior_count : ℕ

-- crates/forge-planner/src/lib.rs
pub record Plan (V : Type 0) : Type 0 where
  pub goals : List Goal
  pub tasks : List (Task V)

-- What a planning meets: the names of the matching skills, the best first, the blocks that are
-- recalled, the project's memory, and the planner's answer for a memory.
pub record Advice (V : Type 0) : Type 0 where
  pub matches : List Text
  pub recall : Option RecallSurface
  pub org_memory : Option Text
  pub project_memory : Option Text
  pub answer : Option Text → Result Text (Plan V)

abbrev pub block_of : Option RecallSurface → Option Text
block_of none = none
block_of (some r) = some r.block

abbrev pub push_some : Option Text → List Text → List Text
push_some none parts = parts
push_some (some m) parts = m ∷ parts

-- `parts.join("\n\n---\n\n")`
unfoldable pub join_parts : List Text → Text
join_parts [] = []
join_parts (p ∷ []) = p
join_parts (p ∷ q ∷ ps) = p ++ (10 ∷ 10 ∷ text "---" ++ 10 ∷ 10 ∷ join_parts (q ∷ ps))

unfoldable pub combined_memory : Option Text → Option Text → Option Text → Option Text
unfolding join_parts
combined_memory org recall project =
    elim (push_some org (push_some recall (push_some project []))) [
      | [] ↦ none
      | p ∷ ps ↦ some (join_parts (p ∷ ps))
    ]

module _ {V : Type 0} where
  abbrev pub announce_skills : List Text → World V → World V
  announce_skills [] w = w
  announce_skills (s ∷ ss) w = publish (skills_selected w.mission.id (s ∷ ss)) w

  abbrev pub announce_recall : Option RecallSurface → World V → World V
  announce_recall none w = w
  announce_recall (some r) w =
      publish (episodic_recall_surfaced w.mission.id r.keywords r.prior_count (take 300 r.block)) w

  abbrev pub announce_memory : Option Text → World V → World V
  announce_memory none w = w
  announce_memory (some block) w = publish (org_memory_recalled w.mission.id (take 240 block)) w

  -- Steps 2 and 3 up to the planner: the events of what was selected and recalled.
  unfoldable pub announce : Advice V → World V → World V
  announce adv w =
      announce_memory adv.org_memory
        (announce_recall adv.recall (announce_skills (take 4 adv.matches) w))

  -- The update and the event follow whatever becomes of the transition.
  unfoldable pub fail_planning : ℕ → Text → World V → World V
  unfolding transition_to
  fail_planning now e w =
      let m : Mission = elim (transition_to now failed w.mission) [
        | ok m' ↦ m'
        | err _ ↦ w.mission
      ] in
      publish (mission_status_changed w.mission.id w.mission.status failed)
        (publish (mission_planning_failed w.mission.id e) (record w { mission = m }))

  -- Planning → Ready → Running.
  unfoldable pub start_running : ℕ → World V → World V × Result MissionError (Unit {0})
  unfolding set_status
  start_running now w = elim (set_status now ready w) [
    | err e ↦ (w, err e)
    | ok w' ↦ elim (set_status now running w') [ err e ↦ (w', err e) | ok w'' ↦ (w'', ok tt) ]
  ]

  -- From the planner's answer on.
  unfoldable pub accept_plan :
      ℕ → Result Text (Plan V) → World V → World V × Result MissionError (Unit {0})
  unfolding fail_planning start_running
  accept_plan now (err e) w = (fail_planning now e w, err (planner e))
  accept_plan now (ok plan) w =
      let (w', r) = persist_rows plan.goals plan.tasks w in
      elim r [
        | err e ↦ (w', err e)
        | ok _ ↦
            start_running now
              (publish (mission_planning_completed w'.mission.id (length plan.goals)) w')
      ]

  unfoldable pub plan_only : ℕ → Advice V → World V → World V × Result MissionError (Unit {0})
  unfolding set_status announce accept_plan
  plan_only now adv w = elim (set_status now planning w) [
    | err e ↦ (w, err e)
    | ok w₁ ↦
        let w₂ = announce adv (publish (mission_planning_started w.mission.id) w₁) in
        let memory = combined_memory adv.org_memory (block_of adv.recall) adv.project_memory in
        accept_plan now (adv.answer memory) w₂
  ]

  -- The description with the follow-up request after it.
  abbrev pub with_prompt : Text → World V → World V
  with_prompt prompt w =
      let separator = 10 ∷ 10 ∷ text "---" ++ 10 ∷ 10 ∷ text "### Follow-up request" ++ 10 ∷ [] in
      record w {
        mission = record w.mission { description = w.mission.description ++ separator ++ prompt };
      }

  -- `extend` up to the new planning; the argument is `prompt.trim()`.
  unfoldable pub reopen : ℕ → Text → World V → Result MissionError (World V)
  unfolding set_status
  reopen now prompt w =
      if is_terminal w.mission.status
      then set_status now draft (with_prompt prompt w)
      else err (state w.mission.status)
