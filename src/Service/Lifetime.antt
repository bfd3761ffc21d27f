-- ===== src/Service/Lifetime.antt =====
-- A mission from its planning to the end of its loop, and its extension
-- (crates/forge-mission/src/lib.rs).
use forge_os.Prelude.{
  ℕ, ◌+◌, ◌≤◌, ◌≡◌, sym, subst, ◌∙◌, Text, Bool, true, false, List, Result, ok, err, length, arith,
  Bool-cases, Result-cases, inl, inr,
}
use forge_os.Domain.Mission.{MissionStatus, draft, planning, running, can_transition, is_terminal}
use forge_os.Service.{World, Executor, MissionError, persistence, set_status, state}
use forge_os.Domain.Goal.{Goal}
use forge_os.Service.Plan.Rows.{fits}
use forge_os.Service.Plan.{Advice, Plan, plan_only, reopen, with_prompt}
use forge_os.Service.Plan.Notes.{IsTraced}
use forge_os.Service.Plan.Path.{
  Accepted, Planned, plan_only-Planned, set_status-Moved, set_status-refused,
}
use forge_os.Service.Replan.{PlanDelta, run_wave, replan_rounds, final_drain, run_with_replan_loop}
use forge_os.Service.Replan.Sound.{
  IsExecutor, IsGoing, IsSound, Flow-cases, run_wave-IsSound, replan_rounds-IsSound,
}
use forge_os.Service.Replan.Verdict.{give_up-IsEnd}

Accepted-running :
    {V : Type 0} (b : Bool) (plan : Plan V) (gs : List Goal) (w : World V)
    (r : Result MissionError (Unit {0}))
    → Accepted b plan gs w r
    → r ≡ ok tt
    → w.mission.status ≡ running
Accepted-running true plan gs w r h e = h.1
Accepted-running false plan gs w r (row, made, rest, refused, more, split, goals) e =
    let both : ◌≡◌ {A = Result MissionError (Unit {0})} (err (persistence row)) (ok tt) =
      sym refused ∙ e in
    cc

Planned-running :
    {V : Type 0} (b : Bool) (answer : Result Text (Plan V)) (w : World V)
    (p : World V × Result MissionError (Unit {0}))
    → Planned b answer w p
    → p.1 ≡ ok tt
    → p.0.mission.status ≡ running
Planned-running false answer w p h e = cc
Planned-running true (err x) w p h e = cc
Planned-running true (ok plan) w p h e =
    Accepted-running (fits w.goals w.tasks plan.goals plan.tasks) plan w.goals p.0 p.1 h e

module _ {V : Type 0} (ex : Executor) (replan : ℕ → World V → Result Text (PlanDelta V)) where
  -- `plan_and_run_sync`, up to the reflection: an error of the loop is only logged.
  unfoldable pub plan_and_run_sync :
      ℕ → Advice V → World V → World V × Result MissionError (Unit {0})
  plan_and_run_sync now adv w =
      let (w', r) = plan_only now adv w in
      elim r [ err e ↦ (w', err e) | ok _ ↦ ((run_with_replan_loop ex replan now w').0, ok tt) ]

  -- The new run goes on in the background.
  unfoldable pub extend : ℕ → Text → Advice V → World V → World V × Result MissionError (Unit {0})
  unfolding plan_and_run_sync
  extend now prompt adv w = elim (reopen now prompt w) [
    | err e ↦ (w, err e)
    | ok w' ↦ plan_and_run_sync now adv w'
  ]

  module _ (is : IsExecutor ex) where
    final_drain-IsTraced :
        {n : ℕ} {s₀ : MissionStatus} (now : ℕ) (w : World V)
        → IsSound n s₀ w
        → IsTraced s₀ (final_drain ex replan now w).0
    unfolding final_drain
    final_drain-IsTraced now w h = elim (Result-cases (run_wave ex replan 6 w)) [
      | inr (x, bad) ↦ rw (bad, final_drain) h.trace
      | inl (w', good) ↦
          let end = give_up-IsEnd now w' (run_wave-IsSound ex replan is 6 w w' good h) in
          rw (good, final_drain) end.trace
    ]

    run_with_replan_loop-IsTraced :
        {n : ℕ} {s₀ : MissionStatus} (now : ℕ) (w : World V)
        → 30 ≤ n
        → IsSound n s₀ w
        → IsTraced s₀ (run_with_replan_loop ex replan now w).0
    unfolding run_with_replan_loop
    run_with_replan_loop-IsTraced now w cap h =
        let (sound, _) = replan_rounds-IsSound ex replan is 5 1 w cap h in
        let rounds = replan_rounds ex replan 5 1 w in
        elim (Flow-cases rounds.1) [
          | inl on ↦ rw (on, run_with_replan_loop) (final_drain-IsTraced now rounds.0 sound)
          | inr (inl stop) ↦
              rw (stop, run_with_replan_loop) (final_drain-IsTraced now rounds.0 sound)
          | inr (inr (r, out)) ↦ rw (out, run_with_replan_loop) sound.trace
        ]

    plan_and_run_sync-IsTraced :
        {s₀ : MissionStatus} (now : ℕ) (adv : Advice V) (w : World V)
        → IsTraced s₀ w
        → IsTraced s₀ (plan_and_run_sync now adv w).0
    unfolding plan_and_run_sync
    plan_and_run_sync-IsTraced now adv w h =
        let (planned, traced) = plan_only-Planned now adv w h in
        elim (Result-cases (plan_only now adv w).1) [
          | inr (e, bad) ↦ rw (bad, plan_and_run_sync) traced
          | inl (x, good) ↦
              let w' = (plan_only now adv w).0 in
              let status : w'.mission.status ≡ running =
                Planned-running (can_transition w.mission.status planning) _ w (plan_only now adv w)
                  planned good in
              rw (good, plan_and_run_sync)
                (run_with_replan_loop-IsTraced {n = 30 + length w'.goals} now w' (omega arith)
                  (record {
                    bound = omega arith;
                    trace = traced;
                    going = subst IsGoing (sym status) tt;
                  }))
        ]

    reopen-IsTraced :
        {s₀ : MissionStatus} (now : ℕ) (prompt : Text) (w w' : World V)
        → reopen now prompt w ≡ ok w'
        → IsTraced s₀ w
        → IsTraced s₀ w'
    unfolding reopen
    reopen-IsTraced {s₀} now prompt w w' e h = elim (Bool-cases (is_terminal w.mission.status)) [
      | inr alive ↦
          let e' : ◌≡◌ {A = Result MissionError (World V)} (err (state w.mission.status)) (ok w') =
            rw (alive, reopen) at e in
          cc
      | inl over ↦
          let e' : set_status now draft (with_prompt prompt w) ≡ ok w' = rw (over, reopen) at e in
          elim (Bool-cases (can_transition w.mission.status draft)) [
            | inr barred ↦
                let e'' : ◌≡◌ {A = Result MissionError (World V)} (err (state w.mission.status))
                    (ok w') =
                  sym (set_status-refused now draft (with_prompt prompt w) barred) ∙ e' in
                cc
            | inl row ↦
                let (v, is_v, moved) = set_status-Moved now draft (with_prompt prompt w) row in
                let both : ◌≡◌ {A = Result MissionError (World V)} (ok v) (ok w') = sym is_v ∙ e' in
                let same : v ≡ w' = cc both in subst (λ u. IsTraced s₀ u) same (moved.trace s₀ h)
          ]
    ]

    -- Planning, running or extending a mission keeps its log truthful: if the moves that the log
    -- records led, row by row of the table, from some status to that of the mission, they do so
    -- after its plan, all its waves and re-plans and the final flip, on every branch, errors
    -- included. This holds for an executor whose waves do so.
    pub extend-IsTraced :
        {s₀ : MissionStatus} (now : ℕ) (prompt : Text) (adv : Advice V) (w : World V)
        → IsTraced s₀ w
        → IsTraced s₀ (plan_and_run_sync now adv w).0 × IsTraced s₀ (extend now prompt adv w).0
    unfolding extend
    extend-IsTraced now prompt adv w h = (
      plan_and_run_sync-IsTraced now adv w h,
      elim (Result-cases (reopen now prompt w)) [
        | inr (e, bad) ↦ rw (bad, extend) h
        | inl (w', good) ↦
            rw (good, extend)
              (plan_and_run_sync-IsTraced now adv w' (reopen-IsTraced now prompt w w' good h))
      ],
    )
