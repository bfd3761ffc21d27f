-- ===== src/Service/Replan/Verdict.antt =====
-- The end of `run_with_replan_loop` of crates/forge-mission/src/lib.rs.
use forge_os.Prelude.{
  ℕ, ◌≤◌, ◌≡◌, refl, sym, subst, ap, ◌∙◌, Text, true, false, List, [], Result, ok, err, length, all,
  Bool-cases, Result-cases, ◌⊎◌, inl, inr,
}
use forge_os.Domain.Mission.{
  MissionStatus, running, completed, failed, cancelled, can_transition, transition_to,
}
use forge_os.Domain.Goal.{Goal}
use forge_os.Domain.Event.Moves.{IsTrace, IsTrace-append}
use forge_os.Service.{World, Executor, MissionError, execution, set_status}
use forge_os.Service.Replan.{
  PlanDelta, returns, is_ended, is_running, run_wave, replan_rounds, has_failed, is_settled,
  final_status, give_up, final_drain, run_with_replan_loop,
}
use forge_os.Service.Replan.Sound.{
  FromWave, run_wave-FromWave, IsExecutor, IsGoing, IsSound, IsLeft, Flow-cases, run_wave-IsSound,
  replan_rounds-IsSound,
}

is_running-true : (s : MissionStatus) → is_running s ≡ true → s ≡ running
is_running-true running e = refl
is_running-true MissionStatus.draft e = cc
is_running-true MissionStatus.planning e = cc
is_running-true MissionStatus.ready e = cc
is_running-true MissionStatus.paused e = cc
is_running-true completed e = cc
is_running-true failed e = cc
is_running-true cancelled e = cc

ended_stops : (s : MissionStatus) → is_ended s ≡ true → is_running s ≡ false
ended_stops running e = cc
ended_stops MissionStatus.draft e = refl
ended_stops MissionStatus.planning e = refl
ended_stops MissionStatus.ready e = refl
ended_stops MissionStatus.paused e = refl
ended_stops completed e = refl
ended_stops failed e = refl
ended_stops cancelled e = refl

-- What the status of the mission says about its goals.
abbrev pub IsVerdict : MissionStatus → List Goal → Type 0
IsVerdict running gs = (has_failed gs ≡ false) × (all is_settled gs ≡ false)
IsVerdict failed gs = has_failed gs ≡ true
IsVerdict _ gs = Unit

going-IsVerdict :
    (s : MissionStatus) (gs : List Goal) → is_running s ≡ false → IsGoing s → IsVerdict s gs
going-IsVerdict running gs e h = cc
going-IsVerdict completed gs e h = tt
going-IsVerdict cancelled gs e h = tt
going-IsVerdict failed gs e h = absurd h
going-IsVerdict MissionStatus.draft gs e h = tt
going-IsVerdict MissionStatus.planning gs e h = tt
going-IsVerdict MissionStatus.ready gs e h = tt
going-IsVerdict MissionStatus.paused gs e h = tt

failed-completed : failed ≡ completed → ⊥
failed-completed e = cc

running-completed : running ≡ completed → ⊥
running-completed e = cc

module _ {V : Type 0} where
  -- The parts of the end.
  pub record IsEnd (n : ℕ) (s₀ : MissionStatus) (w : World V) : Type 0 where
    pub bound : length w.goals ≤ n
    pub trace : IsTrace s₀ w.log w.mission.status
    pub verdict : IsVerdict w.mission.status w.goals

  set_status-IsEnd :
      {n : ℕ} {s₀ : MissionStatus} (now : ℕ) (next : MissionStatus) (w : World V)
      → can_transition w.mission.status next ≡ true
      → IsVerdict next w.goals
      → IsSound n s₀ w
      → IsEnd n s₀ (elim (set_status now next w) [ ok w' ↦ w' | err _ ↦ w ])
  unfolding set_status transition_to
  set_status-IsEnd now next w row v h = rw row (record {
    bound = h.bound;
    trace =
        IsTrace-append w.log _ h.trace
          (IsTrace.moves w.mission.id w.mission.status next next [] row (IsTrace.here next));
    verdict = v;
  })

  pub give_up-IsEnd :
      {n : ℕ} {s₀ : MissionStatus} (now : ℕ) (w : World V)
      → IsSound n s₀ w
      → IsEnd n s₀ (give_up now w)
  unfolding give_up final_status can_transition
  give_up-IsEnd now w h = elim (Bool-cases (is_running w.mission.status)) [
    | inr other ↦
        rw (other, give_up)
          (record {
            bound = h.bound;
            trace = h.trace;
            verdict = going-IsVerdict w.mission.status w.goals other h.going;
          })
    | inl run ↦
        let e = is_running-true w.mission.status run in
        elim (Bool-cases (has_failed w.goals)) [
          | inl bad ↦
              rw (run, give_up)
                (rw bad (
                  set_status-IsEnd now failed w
                    (subst (λ s. can_transition s failed ≡ true) (sym e) refl) bad h))
          | inr good ↦ elim (Bool-cases (all is_settled w.goals)) [
            | inl settled ↦
                rw (run, give_up)
                  (rw good (
                    rw settled (
                      set_status-IsEnd now completed w
                        (subst (λ s. can_transition s completed ≡ true) (sym e) refl) tt h)))
            | inr unsettled ↦
                rw (run, give_up)
                  (rw good (
                    rw unsettled (record {
                      bound = h.bound;
                      trace = h.trace;
                      verdict = subst (λ s. IsVerdict s w.goals) (sym e) (good, unsettled);
                    })))
          ]
        ]
  ]

  -- A completed mission has nothing but completed and skipped goals, or a wave left it completed.
  abbrev pub IsFinished : Executor → World V → Type 0
  IsFinished ex w = w.mission.status ≡ completed → (all is_settled w.goals ≡ true) ⊎ FromWave ex w

  give_up-IsFinished :
      (ex : Executor) (now : ℕ) (w : World V) → FromWave ex w → IsFinished ex (give_up now w)
  unfolding give_up final_status can_transition set_status transition_to
  give_up-IsFinished ex now w from = elim (Bool-cases (is_running w.mission.status)) [
    | inr other ↦ rw (other, give_up) (λ e. inr from)
    | inl run ↦
        let e = is_running-true w.mission.status run in
        elim (Bool-cases (has_failed w.goals)) [
          | inl bad ↦
              let row : can_transition w.mission.status failed ≡ true =
                subst (λ s. can_transition s failed ≡ true) (sym e) refl in
              rw (run, give_up) (rw bad (rw row (λ q. absurd (failed-completed q))))
          | inr good ↦ elim (Bool-cases (all is_settled w.goals)) [
            | inl settled ↦
                let row : can_transition w.mission.status completed ≡ true =
                  subst (λ s. can_transition s completed ≡ true) (sym e) refl in
                rw (run, give_up) (rw good (rw settled (rw row (λ q. inl settled))))
            | inr unsettled ↦
                rw (run, give_up)
                  (rw good (rw unsettled (λ q. absurd (running-completed (sym e ∙ q)))))
          ]
        ]
  ]

  module _ (ex : Executor) (replan : ℕ → World V → Result Text (PlanDelta V))
      (is : IsExecutor ex) where
    final_drain-IsEnd :
        {n : ℕ} {s₀ : MissionStatus} (now : ℕ) (w : World V)
        → IsSound n s₀ w
        → (final_drain ex replan now w).1 ≡ ok tt
        → IsEnd n s₀ (final_drain ex replan now w).0 × IsFinished ex (final_drain ex replan now w).0
    unfolding final_drain
    final_drain-IsEnd now w h e = elim (Result-cases (run_wave ex replan 6 w)) [
      | inr (x, bad) ↦
          let e' : ◌≡◌ {A = Result MissionError (Unit {0})} (err (execution x)) (ok tt) =
            rw (bad, final_drain) at e in
          cc
      | inl (w', good) ↦
          rw (good, final_drain)
            (
              give_up-IsEnd now w' (run_wave-IsSound ex replan is 6 w w' good h),
              give_up-IsFinished ex now w' (run_wave-FromWave ex replan is 6 w w' good),
            )
    ]

    ended-IsEnd :
        {n : ℕ} {s₀ : MissionStatus} (w : World V)
        → (is_ended w.mission.status ≡ true) × FromWave ex w
        → IsSound n s₀ w
        → IsEnd n s₀ w × IsFinished ex w
    ended-IsEnd w (e, from) h = (
      record {
        bound = h.bound;
        trace = h.trace;
        verdict = going-IsVerdict w.mission.status w.goals (ended_stops w.mission.status e) h.going;
      },
      λ q. inr from,
    )

    -- Let n be 30 or more. Let a mission be running, completed or cancelled with at most n goals,
    -- its log telling how it came there from some status. Let the executor's waves keep the number
    -- of goals, log every move of the status by a row of the table, and leave the status or make it
    -- running, completed or cancelled. If the loop of waves and re-plans returns without an error
    -- then, whatever the planner answered: there are at most n goals; the whole log is again such a
    -- trace; a mission that has failed has a failed goal; one that is still running has no failed
    -- goal and a goal that is neither completed nor skipped; and one that is completed has only
    -- completed and skipped goals, or it and its goals are just as a wave of the executor left them.
    pub run_with_replan_loop-IsEnd :
        {n : ℕ} {s₀ : MissionStatus} (now : ℕ) (w : World V)
        → 30 ≤ n
        → IsSound n s₀ w
        → (run_with_replan_loop ex replan now w).1 ≡ ok tt
        → IsEnd n s₀ (run_with_replan_loop ex replan now w).0
          × IsFinished ex (run_with_replan_loop ex replan now w).0
    unfolding run_with_replan_loop
    run_with_replan_loop-IsEnd now w cap h e =
        let (sound, gone) = replan_rounds-IsSound ex replan is 5 1 w cap h in
        let rounds = replan_rounds ex replan 5 1 w in
        elim (Flow-cases rounds.1) [
          | inl on ↦
              rw (on, run_with_replan_loop)
                (final_drain-IsEnd now rounds.0 sound (rw (on, run_with_replan_loop) at e))
          | inr (inl stop) ↦
              rw (stop, run_with_replan_loop)
                (final_drain-IsEnd now rounds.0 sound (rw (stop, run_with_replan_loop) at e))
          | inr (inr (r, out)) ↦
              let good : r ≡ ok tt = rw (out, run_with_replan_loop) at e in
              rw (out, run_with_replan_loop)
                (ended-IsEnd rounds.0
                  (subst (λ f. IsLeft ex f rounds.0) (out ∙ ap returns good) gone) sound)
        ]
