-- ===== src/Tests/Service.antt =====
-- Runs of the mission service of crates/forge-mission.
use forge_os.Prelude.{
  ◌≤◌, ◌++◌, ◌⊎◌, take, ℕ, ◌+◌, ◌≡◌, refl, subst, inl, Text, text, true, false, some, none, List,
  [], ◌∷◌, Result, ok, err, arith, length,
}
use forge_os.Domain.Mission.{
  Mission, draft, planning, running, can_transition, transition_to, new_draft,
}
use forge_os.Domain.Goal.{Goal, GoalStatus}
use forge_os.Domain.Goal
use forge_os.Domain.Event.{ForgeEvent}
use forge_os.Domain.Event.Moves.{IsTrace}
use forge_os.Service.{
  World, Executor, persistence, create, set_status, persist_rows, persist_goals, persist_tasks,
  persist_new_goal,
}
use forge_os.Service.Plan.{Advice, announce, accept_plan, plan_only, combined_memory}
use forge_os.Service.Plan.Notes.{IsTraced}
use forge_os.Execution.Tasks.Summary.{is_char_boundary}
use forge_os.Service.Truncate.{truncate, cut_at, truncate-cut}
use forge_os.Service.Lifetime.{plan_and_run_sync, extend, extend-IsTraced}
use forge_os.Service.Replan.{
  PlanDelta, run_with_replan_loop, replan_rounds, replan_round, run_wave, ask_planner, apply_delta,
  final_drain, give_up, final_status,
}
use forge_os.Service.Replan.Sound.{IsWave, IsExecutor, IsSound}
use forge_os.Service.Replan.Verdict.{IsFinished, IsEnd, run_with_replan_loop-IsEnd}

abbrev g : ℕ → Goal
g id = forge_os.Domain.Goal.new id 1 (text "g") [] []

abbrev advice : Advice Text
advice = record {
  matches = text "python" ∷ [];
  recall = none;
  org_memory = none;
  project_memory = some (text "notes");
  answer = λ memory. ok (record { goals = g 1 ∷ g 2 ∷ []; tasks = [] });
}

abbrev fresh : World Text
fresh = create 1 10 (text "m") []

fresh-IsTraced : IsTraced draft fresh
unfolding create
fresh-IsTraced = IsTrace.other _ _ _ [] refl (IsTrace.here draft)

service : Unit {0}
unfolding run_with_replan_loop replan_rounds replan_round run_wave ask_planner apply_delta
    final_drain give_up final_status persist_rows persist_goals persist_new_goal persist_tasks
    set_status transition_to new_draft can_transition
service = tt

-- A plan with two goals of one id: the second insertion fails and the mission stays in planning.
abbrev twins : Advice Text
twins = record advice { answer = λ memory. ok (record { goals = g 1 ∷ g 1 ∷ []; tasks = [] }) }

twins_stall :
    ((plan_only 11 twins fresh).1 ≡ err (persistence 1))
    × ((plan_only 11 twins fresh).0.mission.status ≡ planning)
    × (length (plan_only 11 twins fresh).0.goals ≡ 1)
unfolding service plan_only accept_plan create announce combined_memory Goal.new
twins_stall = (refl, refl, refl)

-- An executor whose waves change nothing.
abbrev idle : Executor
idle = record { wave = λ n m gs. ok (m, gs, []) }

idle-IsExecutor : IsExecutor idle
idle-IsExecutor n m m' gs gs' log e =
    let before : Mission × List Goal × List ForgeEvent = (m, gs, []) in
    let same : before ≡ (m', gs', log) = cc e in
    subst (λ p. IsWave m gs p.0 p.1 p.2) same
      (record { size = refl; trace = IsTrace.here m.status; going = inl refl })

-- A planner that adds one goal each time.
abbrev eager : ℕ → World Text → Result Text (PlanDelta Text)
eager k w =
    ok (record { added_goals = g (10 + k) ∷ []; added_tasks = []; terminate = false; reason = [] })

abbrev busy : World Text
busy = record {
  mission = record (new_draft 1 10 (text "m") []) { status = running };
  goals = g 1 ∷ [];
  tasks = [];
  log = [];
}

busy-IsSound : IsSound 30 running busy
busy-IsSound = record { bound = omega arith; trace = IsTrace.here running; going = tt }

busy_ok : (run_with_replan_loop idle eager 20 busy).1 ≡ ok tt
unfolding service Goal.new
busy_ok = refl

-- Five plans are asked for.
busy_goals : length (run_with_replan_loop idle eager 20 busy).0.goals ≡ 6
unfolding service Goal.new
busy_goals = refl

run_with_replan_loop-IsEnd_example :
    IsEnd 30 running (run_with_replan_loop idle eager 20 busy).0
    × IsFinished idle (run_with_replan_loop idle eager 20 busy).0
run_with_replan_loop-IsEnd_example =
    run_with_replan_loop-IsEnd idle eager idle-IsExecutor 20 busy (omega arith) busy-IsSound busy_ok

extend-IsTraced_example :
    IsTraced draft (plan_and_run_sync idle eager 11 advice fresh).0
    × IsTraced draft (extend idle eager 11 (text "again") advice fresh).0
extend-IsTraced_example =
    extend-IsTraced idle eager idle-IsExecutor 11 (text "again") advice fresh fresh-IsTraced

-- `aé`, cut at two bytes.
abbrev accented : Text
accented = 97 ∷ 195 ∷ 169 ∷ []

accented_cut : truncate accented 2 ≡ 97 ∷ 226 ∷ 128 ∷ 166 ∷ []
unfolding truncate cut_at is_char_boundary
accented_cut = refl

accented_start : is_char_boundary accented 1 ≡ true
unfolding is_char_boundary
accented_start = refl

truncate-cut_example :
    (length accented ≤ 2) × (truncate accented 2 ≡ accented)
    ⊎ ((3 ≤ length accented)
        × (cut : ℕ) × (truncate accented 2 ≡ take cut accented ++ (226 ∷ 128 ∷ 166 ∷ []))
        × ((cut ≡ 0) ⊎ (is_char_boundary accented cut ≡ true))
        × (1 ≤ cut)
        × (cut ≤ 2)
        × (length (truncate accented 2) ≤ 2 + 3))
truncate-cut_example = truncate-cut accented 2 1 accented_start (omega arith)
