-- ===== src/Tests/Schedule.antt =====
-- Runs of the scheduling loop of crates/forge-execution.
use forge_os.Prelude.{
  ℕ, zero, suc, not, if◌then◌else◌, Bool-cases, inl, inr, ◌≡◌, refl, text, true, false, Bool, some,
  List, [], ◌∷◌, ◌++◌, map, none, err, All, ok, arith,
}
use forge_os.Domain.Goal.{Goal, GoalStatus, pending}
use forge_os.Domain.Mission.{Mission, MissionStatus, transition_to, can_transition}
use forge_os.Service.Replan.Sound.{IsWave}
use forge_os.Service.Waves.{run_mission-IsWave}
use forge_os.Execution.{is_deterministic, cancelled}
use forge_os.Domain.Event.{ForgeEvent, goal_status_changed, mission_status_changed}
use forge_os.Execution.Schedule.{
  is_nil, Run, Env, run_mission, flip, next_status, start, run_loop, launch, launch_pass, settle,
  settle_at, collect, transition_goal,
}
use forge_os.Execution.Schedule.Sync.{IsSynced}
use forge_os.Execution.Schedule.Loop.{IsStartable, run_loop-IsSynced}
use forge_os.Execution.Schedule.Measure.{IsPrompt, Ends, any_finished, run_loop-Ends}
use forge_os.Execution.Schedule.Quiescent.{is_over}
use forge_os.Execution.Schedule.Rest.{IsPlanned, run_loop_rests}

abbrev goal : ℕ → List ℕ → Goal
goal id deps = record {
  id = id;
  mission_id = 1;
  title = text "g";
  description = [];
  status = pending;
  depends_on = deps;
  confidence = 50;
  priority = 0;
  retries_remaining = 2;
  tasks = [];
}

abbrev chain : List Goal
chain = goal 1 [] ∷ goal 2 (1 ∷ []) ∷ []

-- Every goal that runs finishes at once.
abbrev env : Env
env = record { is_cancelled = λ _. false; poll = λ n gid. some (ok tt); is_cancelled_after = false }

chain-IsStartable : IsStartable chain
chain-IsStartable = record {
  distinct = (refl, (refl, tt));
  closed = ((λ h. refl), ((λ h. cc), tt));
}

-- The goals that run finish in every second round.
abbrev is_even : ℕ → Bool
is_even zero = true
is_even (suc n) = not (is_even n)

abbrev slow_env : Env
slow_env = record {
  is_cancelled = λ _. false;
  poll = λ n gid. if is_even n then none else some (ok tt);
  is_cancelled_after = false;
}

found_when_odd :
    (n : ℕ) (xs : List ℕ)
    → is_nil xs ≡ false
    → is_even n ≡ false
    → any_finished (slow_env.poll n) xs ≡ true
found_when_odd n [] h odd = absurd (ground (arith, h))
found_when_odd n (x ∷ xs) h odd = rw odd refl

slow_env-IsPrompt :
    (left fuel n : ℕ) (gs : List Goal) (s : Run)
    → (is_even n ≡ true → left ≡ 1)
    → IsPrompt slow_env 1 left fuel n gs s
slow_env-IsPrompt left zero n gs s even = tt
slow_env-IsPrompt left (suc fuel) n gs s even = λ on busy. (
  λ found. slow_env-IsPrompt 1 fuel (suc n) _ _ (λ h. refl),
  λ waits. elim (Bool-cases (is_even n)) [
    | inl e ↦ (0, even e, slow_env-IsPrompt 0 fuel (suc n) _ _ (λ h. absurd (ground (arith, e, h))))
    | inr odd ↦
        let found = found_when_odd n (launch_pass gs s).1.active busy odd in
        absurd (ground (arith, found, waits))
  ],
)

loop : Unit {0}
unfolding run_loop launch_pass launch settle_at settle collect transition_goal is_deterministic
loop = tt

abbrev finished : GoalStatus → ℕ → List ℕ → Goal
finished status id deps = record (goal id deps) { status = status }

abbrev chain_done : List Goal
chain_done = finished GoalStatus.completed 1 [] ∷ finished GoalStatus.completed 2 (1 ∷ []) ∷ []

abbrev chain_run : Run
chain_run = record {
  active = [];
  done = 2 ∷ 1 ∷ [];
  lost = [];
  log =
      goal_status_changed 1 pending GoalStatus.ready
      ∷ goal_status_changed 1 GoalStatus.ready GoalStatus.completed
      ∷ goal_status_changed 2 pending GoalStatus.ready
      ∷ goal_status_changed 2 GoalStatus.ready GoalStatus.completed
      ∷ [];
}

chain_runs : run_loop env 9 0 chain (start chain) ≡ some (chain_done, chain_run, false)
unfolding loop
chain_runs = refl

run_loop-IsSynced_example : All (IsSynced chain_run) chain_done
run_loop-IsSynced_example =
    run_loop-IsSynced env 9 chain chain_done chain_run false chain-IsStartable chain_runs

run_loop-Ends_example : Ends slow_env 20 0 chain (start chain)
run_loop-Ends_example =
    run_loop-Ends slow_env 1 20 chain (slow_env-IsPrompt 1 20 0 chain (start chain) (λ h. refl))
      chain-IsStartable (omega arith)

chain-IsPlanned : IsPlanned [] chain
chain-IsPlanned = (refl, (refl, (refl, tt)))

run_loop_rests_example :
    (gs' : List Goal) × (s' : Run) × (run_loop slow_env 20 0 chain (start chain)
      ≡ some (gs', s', false))
    × All (λ g. is_over g ≡ true) gs'
run_loop_rests_example =
    run_loop_rests slow_env 1 20 chain (slow_env-IsPrompt 1 20 0 chain (start chain) (λ h. refl))
      chain-IsStartable chain-IsPlanned (λ k. refl) (omega arith)

abbrev mission : Mission
mission = record {
  id = 1;
  title = text "m";
  description = [];
  status = MissionStatus.running;
  created_at = 3;
  updated_at = 4;
  goals = [];
}

abbrev mission_done : Mission
mission_done = record mission { status = MissionStatus.completed; updated_at = 5 }

abbrev mission_log : List ForgeEvent
mission_log =
    chain_run.log ++ mission_status_changed 1 MissionStatus.running MissionStatus.completed ∷ []

mission_runs : run_mission env 9 5 mission chain ≡ some (mission_done, chain_done, mission_log)
unfolding run_mission loop flip next_status transition_to can_transition
mission_runs = refl

run_mission-IsWave_example : IsWave mission chain mission_done chain_done mission_log
run_mission-IsWave_example =
    run_mission-IsWave env 9 5 mission mission_done chain chain_done mission_log mission_runs

-- The goals of a chain, the last one first, and a failure of the first.
abbrev backwards : List Goal
backwards = goal 3 (2 ∷ []) ∷ goal 2 (1 ∷ []) ∷ record (goal 1 []) { retries_remaining = 0 } ∷ []

abbrev failing_env : Env
failing_env = record {
  is_cancelled = λ _. false;
  poll = λ n gid. some (err cancelled);
  is_cancelled_after = false;
}

-- Goal 2 is skipped in the pass after goal 3 was looked at, and no round is left to skip goal 3.
backwards_stalls :
    map
      (λ g. g.status)
      (elim (run_loop failing_env 9 0 backwards (start backwards)) [
        | none ↦ []
        | some (gs, _, _) ↦ gs
      ])
    ≡ pending ∷ GoalStatus.skipped ∷ GoalStatus.failed ∷ []
unfolding loop
backwards_stalls = refl
