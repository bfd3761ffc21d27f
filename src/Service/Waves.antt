-- ===== src/Service/Waves.antt =====
-- The loop of crates/forge-execution/src/lib.rs as the executor of crates/forge-mission/src/lib.rs.
use forge_os.Prelude.{
  ℕ, suc, ◌≡◌, refl, sym, ◌∙◌, ap, subst, subst₂, Bool, true, false, ◌||◌, not, ◌&&◌, ltb, ◌-◌,
  Option, none, some, List, [], ◌∷◌, ok, err, length, All, All-append, mem, set_remove, ◌==◌,
  Bool-cases, Option-cases, inl, inr,
}
use forge_os.Domain.Goal.{Goal, GoalStatus}
use forge_os.Domain.Mission.{Mission, MissionStatus, transition_to, can_transition}
use forge_os.Domain.Event.{ForgeEvent}
use forge_os.Domain.Event.Moves.{move, IsTrace, IsTrace-append}
use forge_os.Execution.Schedule.{
  Run, Outcome, Env, transition_goal, launch, launch_pass, settle, settle_at, collect, run_loop,
  start, next_status, flip, run_mission, is_nil, is_open, all_done, any_lost, status_eq,
}
use forge_os.Execution.Schedule.Loop.{Ended, by_cancel, at_rest, run_loop_ind, round}
use forge_os.Execution.{is_deterministic}
use forge_os.Service.Replan.Sound.{IsWave, IsGoing}

abbrev Quiet : List ForgeEvent → Type 0
Quiet = All (λ e. move e ≡ none)

-- The goals keep their number, and the log records no move of the mission.
record Keeps (gs : List Goal) (gs' : List Goal) (s' : Run) : Type 0 where
  size : length gs' ≡ length gs
  quiet : Quiet s'.log

transition_goal-Quiet :
    (next : GoalStatus) (g : Goal) (log : List ForgeEvent)
    → Quiet log
    → Quiet (transition_goal next g log).1
unfolding transition_goal
transition_goal-Quiet next g log q = elim (Bool-cases (status_eq g.status next)) [
  | inl same ↦ rw (same, transition_goal) q
  | inr other ↦ rw (other, transition_goal) (All-append (λ e. move e ≡ none) log _ q (refl, tt))
]

launch-Quiet : (g : Goal) (s : Run) → Quiet s.log → Quiet (launch g s).1.log
unfolding launch
launch-Quiet g s q = elim (Bool-cases (not (is_open g) || mem g.id s.active)) [
  | inl pass ↦ rw (pass, launch) q
  | inr free ↦ elim (Bool-cases (not (all_done s g.depends_on))) [
    | inr all_met ↦
        rw (free, launch) (rw all_met (transition_goal-Quiet GoalStatus.ready g s.log q))
    | inl waits ↦ elim (Bool-cases (any_lost s g.depends_on)) [
      | inl drop ↦
          rw (free, launch)
            (rw waits (rw drop (transition_goal-Quiet GoalStatus.skipped g s.log q)))
      | inr hold ↦ rw (free, launch) (rw waits (rw hold q))
    ]
  ]
]

settle-Quiet : (r : Outcome) (g : Goal) (s : Run) → Quiet s.log → Quiet (settle r g s).1.log
unfolding settle
settle-Quiet (ok _) g s q = transition_goal-Quiet GoalStatus.completed g s.log q
settle-Quiet (err e) g s q =
    elim (Bool-cases (not (is_deterministic e) && ltb 0 g.retries_remaining)) [
      | inl again ↦
          let retried = record g { retries_remaining = g.retries_remaining - 1 } in
          rw (again, settle) (transition_goal-Quiet GoalStatus.pending retried s.log q)
      | inr over ↦ rw (over, settle) (transition_goal-Quiet GoalStatus.failed g s.log q)
    ]

Quiet-IsTrace : (m : MissionStatus) (log : List ForgeEvent) → Quiet log → IsTrace m log m
Quiet-IsTrace m [] q = IsTrace.here m
Quiet-IsTrace m (e ∷ log) q = IsTrace.other m m e log q.0 (Quiet-IsTrace m log q.1)

launch_pass-Keeps :
    (gs : List Goal) (s : Run) → Quiet s.log → Keeps gs (launch_pass gs s).0 (launch_pass gs s).1
unfolding launch_pass
launch_pass-Keeps [] s q = record { size = refl; quiet = q }
launch_pass-Keeps (g ∷ gs) s q =
    let rest = launch_pass-Keeps gs (launch g s).1 (launch-Quiet g s q) in
    record { size = ap suc rest.size; quiet = rest.quiet }

settle_at-Keeps :
    (gid : ℕ) (r : Outcome) (gs : List Goal) (s : Run)
    → Quiet s.log
    → Keeps gs (settle_at gid r gs s).0 (settle_at gid r gs s).1
unfolding settle_at
settle_at-Keeps gid r [] s q = record { size = refl; quiet = q }
settle_at-Keeps gid r (g ∷ gs) s q = elim (Bool-cases (g.id == gid)) [
  | inl hit ↦ rw (hit, settle_at) (record { size = refl; quiet = settle-Quiet r g s q })
  | inr miss ↦
      let rest = settle_at-Keeps gid r gs s q in
      rw (miss, settle_at) (record { size = ap suc rest.size; quiet = rest.quiet })
]

collect-Keeps :
    (poll : ℕ → Option Outcome) (ids : List ℕ) (gs : List Goal) (s : Run)
    → Quiet s.log
    → Keeps gs (collect poll ids gs s).0 (collect poll ids gs s).1
unfolding collect
collect-Keeps poll [] gs s q = record { size = refl; quiet = q }
collect-Keeps poll (gid ∷ ids) gs s q = elim (Option-cases (poll gid)) [
  | inl busy ↦ rw (busy, collect) (collect-Keeps poll ids gs s q)
  | inr (r, over) ↦
      let released = record s { active = set_remove gid s.active } in
      let first = settle_at-Keeps gid r gs released q in
      let (gs', s') = settle_at gid r gs released in
      let rest = collect-Keeps poll ids gs' s' first.quiet in
      rw (over, collect) (record { size = rest.size ∙ first.size; quiet = rest.quiet })
]

-- The invariant of the loop: a number of goals and a log without moves.
record Kept (n : ℕ) (gs : List Goal) (s : Run) : Type 0 where
  size : length gs ≡ n
  quiet : Quiet s.log

launch_pass-Kept :
    {n : ℕ} (gs : List Goal) (s : Run)
    → Kept n gs s
    → Kept n (launch_pass gs s).0 (launch_pass gs s).1
launch_pass-Kept gs s k =
    let first = launch_pass-Keeps gs s k.quiet in
    record { size = first.size ∙ k.size; quiet = first.quiet }

round-Kept :
    {n : ℕ} (poll : ℕ → Option Outcome) (gs : List Goal) (s : Run)
    → Kept n gs s
    → Kept n (round poll gs s).0 (round poll gs s).1
round-Kept poll gs s k =
    let (gs', s') = launch_pass gs s in
    let first = launch_pass-Kept gs s k in
    let rest = collect-Keeps poll s'.active gs' s' first.quiet in
    record { size = rest.size ∙ first.size; quiet = rest.quiet }

Ended-Kept :
    {n : ℕ} {gs : List Goal} {s : Run} {broke : Bool} → Ended (Kept n) gs s broke → Kept n gs s
Ended-Kept (by_cancel v _) = v
Ended-Kept {n} (at_rest gs s v eg es _ _) =
    subst₂ (Kept n) (sym eg) (sym es) (launch_pass-Kept gs s v)

-- The flips that the executor makes.
abbrev IsFlip : Option MissionStatus → Type 0
IsFlip none = Unit
IsFlip (some next) = IsGoing next

next_status-IsFlip : (stop : Bool) (gs : List Goal) (s : Run) → IsFlip (next_status stop gs s)
unfolding next_status
next_status-IsFlip true gs s = tt
next_status-IsFlip false gs s = elim (Bool-cases (is_nil s.lost && (length s.done == length gs))) [
  | inl over ↦ rw (over, next_status) tt
  | inr open_goals ↦ rw (open_goals, next_status) tt
]

flip-IsWave :
    (now : ℕ) (next : Option MissionStatus) (m : Mission) (gs gs' : List Goal)
    (log : List ForgeEvent)
    → IsFlip next
    → length gs' ≡ length gs
    → Quiet log
    → IsWave m gs (flip now next m log).0 gs' (flip now next m log).1
unfolding flip transition_to
flip-IsWave now none m gs gs' log f size q = record {
  size = size;
  trace = Quiet-IsTrace m.status log q;
  going = inl refl;
}
flip-IsWave now (some next) m gs gs' log f size q =
    elim (Bool-cases (can_transition m.status next)) [
      | inr barred ↦
          rw (barred, flip)
            (record { size = size; trace = Quiet-IsTrace m.status log q; going = inl refl })
      | inl row ↦
          rw (row, flip)
            (record {
              size = size;
              trace =
                  IsTrace-append log _ (Quiet-IsTrace m.status log q)
                    (IsTrace.moves m.id m.status next next [] row (IsTrace.here next));
              going = inr f;
            })
    ]

-- Whatever the goals do and however long the loop takes: a run of the executor keeps the number of
-- goals, its log moves the mission only by rows of the table from the status that it had to the
-- one it has now, and that is the same, or running, completed or cancelled. So the executor
-- is one that the mission service can rely on.
pub run_mission-IsWave :
    (env : Env) (fuel now : ℕ) (m m' : Mission) (gs gs' : List Goal) (log : List ForgeEvent)
    → run_mission env fuel now m gs ≡ some (m', gs', log)
    → IsWave m gs m' gs' log
unfolding run_mission
run_mission-IsWave env fuel now m m' gs gs' log e =
    elim (Option-cases (run_loop env fuel 0 gs (start gs))) [
      | inl dry ↦
          let e' : ◌≡◌ {A = Option (Mission × List Goal × List ForgeEvent)} none
              (some (m', gs', log)) =
            rw (dry, run_mission) at e in
          cc
      | inr ((gs₁, s, broke), over) ↦
          let next = next_status (broke || env.is_cancelled_after) gs₁ s in
          let kept = Ended-Kept (
            run_loop_ind (Kept (length gs)) env round-Kept fuel 0 gs (start gs) gs₁ s broke
              (record { size = refl; quiet = tt }) over) in
          let e' : some ((flip now next m s.log).0, gs₁, (flip now next m s.log).1)
              ≡ some (m', gs', log) =
            rw (over, run_mission) at e in
          let after : Mission × List Goal × List ForgeEvent =
            ((flip now next m s.log).0, gs₁, (flip now next m s.log).1) in
          let same : after ≡ (m', gs', log) = cc e' in
          subst (λ p. IsWave m gs p.0 p.1 p.2) same
            (flip-IsWave now next m gs gs₁ s.log
              (next_status-IsFlip (broke || env.is_cancelled_after) gs₁ s) kept.size kept.quiet)
    ]
