-- ===== src/Execution/Schedule.antt =====
-- `ExecutionEngine::run_mission` of crates/forge-execution/src/lib.rs. The goals are one list: the
-- engine writes each change of its copy to the goals table. Which spawned goals have finished, and
-- whether the token is cancelled, is the environment's answer in each round of the loop; goals that
-- finish are looked at in the order of the `running` list.
pub mod Frame
pub mod Sync
pub mod Rounds
pub mod Invariant
pub mod Loop
pub mod Measure
pub mod Quiescent
pub mod Rest
use forge_os.Prelude.{
  ℕ, zero, suc, ◌-◌, Bool, true, false, not, ◌&&◌, ◌||◌, Option, none, some, List, [], ◌∷◌, ◌++◌,
  Result, ok, err, map, ltb, ◌==◌, if◌then◌else◌, length, any, all, mem, set_insert, set_remove,
}
use forge_os.Domain.Goal.{Goal, GoalStatus, pending, ready, running, completed, failed, skipped}
use forge_os.Domain.Mission.{MissionStatus, Mission, can_transition, transition_to}
use forge_os.Domain.Event.{ForgeEvent, goal_status_changed, mission_status_changed}
use forge_os.Execution.{ExecutionError, is_deterministic}

abbrev pub status_eq : GoalStatus → GoalStatus → Bool
status_eq pending pending = true
status_eq ready ready = true
status_eq running running = true
status_eq completed completed = true
status_eq failed failed = true
status_eq skipped skipped = true
status_eq _ _ = false

-- The local variables of the loop beside the goals: three sets of goal ids, and the events.
pub record Run : Type 0 where
  pub active : List ℕ
  pub done : List ℕ
  pub lost : List ℕ
  pub log : List ForgeEvent

unfoldable pub transition_goal : GoalStatus → Goal → List ForgeEvent → Goal × List ForgeEvent
transition_goal next g log =
    if status_eq g.status next
    then (g, log)
    else (record g { status = next }, log ++ goal_status_changed g.id g.status next ∷ [])

abbrev pub is_completed : Goal → Bool
is_completed g = status_eq g.status completed

abbrev pub is_lost : Goal → Bool
is_lost g = status_eq g.status failed || status_eq g.status skipped

-- `Pending` or `Ready`
abbrev pub is_open : Goal → Bool
is_open g = status_eq g.status pending || status_eq g.status ready

abbrev pub all_done : Run → List ℕ → Bool
all_done s deps = all (λ d. mem d s.done) deps

abbrev pub any_lost : Run → List ℕ → Bool
any_lost s deps = any (λ d. mem d s.lost) deps

-- The body of the `for` loop that looks for newly ready goals.
unfoldable pub launch : Goal → Run → Goal × Run
unfolding transition_goal
launch g s =
    if not (is_open g) || mem g.id s.active
    then (g, s)
    else if not (all_done s g.depends_on)
    then (if any_lost s g.depends_on
        then (let (g', log') = transition_goal skipped g s.log in
            (g', record s { lost = set_insert g.id s.lost; log = log' }))
        else (g, s))
    else (let (g', log') = transition_goal ready g s.log in
        (g', record s { active = set_insert g.id s.active; log = log' }))

unfoldable pub launch_pass : List Goal → Run → List Goal × Run
launch_pass [] s = ([], s)
launch_pass (g ∷ gs) s =
    let (g', s') = launch g s in let (gs', s'') = launch_pass gs s' in (g' ∷ gs', s'')

abbrev pub Outcome : Type 0
Outcome = Result ExecutionError (Unit {0})

-- The `match result` on a goal that finished.
unfoldable pub settle : Outcome → Goal → Run → Goal × Run
unfolding transition_goal
settle (ok _) g s =
    let (g', log') = transition_goal completed g s.log in
    (g', record s { done = set_insert g.id s.done; log = log' })
settle (err e) g s =
    if not (is_deterministic e) && ltb 0 g.retries_remaining
    then (let retried = record g { retries_remaining = g.retries_remaining - 1 } in
        let (g', log') = transition_goal pending retried s.log in (g', record s { log = log' }))
    else (let (g', log') = transition_goal failed g s.log in
        (g', record s { lost = set_insert g.id s.lost; log = log' }))

-- `goals[goal_index[&gid]]`: the ids are unique, a primary key of the table.
unfoldable pub settle_at : ℕ → Outcome → List Goal → Run → List Goal × Run
settle_at gid r [] s = ([], s)
settle_at gid r (g ∷ gs) s =
    if g.id == gid
    then (let (g', s') = settle r g s in (g' ∷ gs, s'))
    else (let (gs', s') = settle_at gid r gs s in (g ∷ gs', s'))

-- The handles that have finished are taken out and settled.
unfoldable pub collect : (ℕ → Option Outcome) → List ℕ → List Goal → Run → List Goal × Run
collect poll [] gs s = (gs, s)
collect poll (gid ∷ ids) gs s = elim (poll gid) [
  | none ↦ collect poll ids gs s
  | some r ↦
      let (gs', s') = settle_at gid r gs (record s { active = set_remove gid s.active }) in
      collect poll ids gs' s'
]

-- The environment: in each round, whether the mission is cancelled, and which goals have finished.
pub record Env : Type 0 where
  pub is_cancelled : ℕ → Bool
  pub poll : ℕ → ℕ → Option Outcome
  pub is_cancelled_after : Bool

abbrev pub is_nil : List ℕ → Bool
is_nil [] = true
is_nil (_ ∷ _) = false

-- The loop, on fuel. The last component tells whether it ended by cancellation.
unfoldable pub run_loop : Env → ℕ → ℕ → List Goal → Run → Option (List Goal × Run × Bool)
run_loop env zero round gs s = none
run_loop env (suc fuel) round gs s =
    let (gs', s') = launch_pass gs s in
    let (gs'', s'') = collect (env.poll round) s'.active gs' s' in
    let rest = run_loop env fuel (suc round) gs'' s'' in
    if env.is_cancelled round
    then some (gs, s, true)
    else if is_nil s'.active
    then some (gs', s', false)
    else rest

-- `goals.iter().filter(p).map(|g| g.id).collect()` into a set.
abbrev pub id_set : (Goal → Bool) → List Goal → List ℕ
id_set p [] = []
id_set p (g ∷ gs) = let rest = id_set p gs in if p g then set_insert g.id rest else rest

abbrev pub start : List Goal → Run
start gs = record { active = []; done = id_set is_completed gs; lost = id_set is_lost gs; log = [] }

-- The status that the mission is flipped to once the loop is over.
unfoldable pub next_status : Bool → List Goal → Run → Option MissionStatus
next_status is_cancelled gs s =
    if is_cancelled
    then some MissionStatus.cancelled
    else if is_nil s.lost && (length s.done == length gs)
    then some MissionStatus.completed
    else none

-- The flip itself: the mission is saved and the event published only if the table allows it.
unfoldable pub flip :
    ℕ → Option MissionStatus → Mission → List ForgeEvent → Mission × List ForgeEvent
flip now none m log = (m, log)
flip now (some next) m log = elim (transition_to now next m) [
  | ok m' ↦ (m', log ++ mission_status_changed m.id m.status next ∷ [])
  | err _ ↦ (m, log)
]

unfoldable pub run_mission :
    Env → ℕ → ℕ → Mission → List Goal → Option (Mission × List Goal × List ForgeEvent)
run_mission env fuel now m gs = elim (run_loop env fuel 0 gs (start gs)) [
  | none ↦ none
  | some (gs', s, broke) ↦
      let (m', log') = flip now (next_status (broke || env.is_cancelled_after) gs' s) m s.log in
      some (m', gs', log')
]
