-- ===== src/Service/Replan/Sound.antt =====
-- What holds throughout `run_with_replan_loop` of crates/forge-mission/src/lib.rs.
use forge_os.Prelude.{
  ℕ, zero, suc, ◌+◌, ◌≤◌, ◌≡◌, ◌⊎◌, refl, sym, ap, ◌∙◌, subst, Text, true, none, List, [], ◌∷◌,
  ◌++◌, Result, ok, err, ltb, ◌==◌, length, length-append, arith, Bool-cases, Result-cases, inl,
  inr,
}
use forge_os.Domain.Mission.{Mission, MissionStatus, running, completed, cancelled}
use forge_os.Domain.Goal.{Goal}
use forge_os.Domain.Task.{Task}
use forge_os.Domain.Event.{ForgeEvent, replan_requested, plan_revised}
use forge_os.Domain.Event.Moves.{IsTrace, move, IsTrace-append}
use forge_os.Service.{World, Executor, MissionError, publish, persist_rows}
use forge_os.Service.Plan.Rows.{persist_rows-Persisted}
use forge_os.Service.Replan.{
  PlanDelta, Flow, continues, breaks, returns, is_ended, run_wave, apply_delta, ask_planner,
  replan_round, replan_rounds,
}

-- The statuses that a mission which was running has after a wave.
abbrev pub IsGoing : MissionStatus → Type 0
IsGoing running = Unit
IsGoing completed = Unit
IsGoing cancelled = Unit
IsGoing _ = ⊥

-- What the service relies on in a wave of the executor.
pub record IsWave (m : Mission) (gs : List Goal) (m' : Mission) (gs' : List Goal)
    (log : List ForgeEvent) : Type 0 where
  pub size : length gs' ≡ length gs
  pub trace : IsTrace m.status log m'.status
  pub going : (m'.status ≡ m.status) ⊎ IsGoing m'.status

abbrev pub IsExecutor : Executor → Type 0
IsExecutor ex =
    (n : ℕ) (m m' : Mission) (gs gs' : List Goal) (log : List ForgeEvent)
    → ex.wave n m gs ≡ ok (m', gs', log)
    → IsWave m gs m' gs' log

pub Flow-cases :
    (f : Flow)
    → (f ≡ continues) ⊎ (f ≡ breaks) ⊎ ((r : Result MissionError (Unit {0})) × (f ≡ returns r))
Flow-cases continues = inl refl
Flow-cases breaks = inr (inl refl)
Flow-cases (returns r) = inr (inr (r, refl))

module _ {V : Type 0} where
  pub record IsSound (n : ℕ) (s₀ : MissionStatus) (w : World V) : Type 0 where
    pub bound : length w.goals ≤ n
    pub trace : IsTrace s₀ w.log w.mission.status
    pub going : IsGoing w.mission.status

  publish-IsSound :
      {n : ℕ} {s₀ : MissionStatus} (e : ForgeEvent) (w : World V)
      → move e ≡ none
      → IsSound n s₀ w
      → IsSound n s₀ (publish e w)
  publish-IsSound e w quiet h = record {
    bound = h.bound;
    trace = IsTrace-append w.log (e ∷ []) h.trace (IsTrace.other _ _ e [] quiet (IsTrace.here _));
    going = h.going;
  }

  loosen : {m n : ℕ} {s₀ : MissionStatus} (w : World V) → m ≤ n → IsSound m s₀ w → IsSound n s₀ w
  loosen w le h = record { bound = omega (arith, le, h.bound); trace = h.trace; going = h.going }

  persist_rows-IsSound :
      {n : ℕ} {s₀ : MissionStatus} (gs : List Goal) (us : List (Task V)) (w : World V)
      → length w.goals + length gs ≤ n
      → IsSound n s₀ w
      → IsSound n s₀ (persist_rows gs us w).0
  persist_rows-IsSound {n} {s₀} gs us w room h =
      let k = persist_rows-Persisted gs us w in
      let w' = (persist_rows gs us w).0 in
      let split : length gs ≡ length k.made + length k.rest =
        ap length k.split ∙ length-append k.made k.rest in
      let size : length w'.goals ≡ length w.goals + length k.made =
        ap length k.notes.goals ∙ length-append w.goals k.made in
      record {
        bound = omega (arith, room, split, size);
        trace =
            subst (λ m. IsTrace s₀ w'.log m.status) (sym k.notes.mission)
              (k.notes.trace s₀ h.trace);
        going = subst (λ m. IsGoing m.status) (sym k.notes.mission) h.going;
      }

  -- The mission and its goals are as a wave of the executor left them.
  abbrev pub FromWave : Executor → World V → Type 0
  FromWave ex w =
      (n : ℕ) × (m : Mission) × (gs : List Goal) × (log : List ForgeEvent) × (ex.wave n m gs
        ≡ ok (w.mission, w.goals, log))

  -- Where a round leaves the function, its wave has ended the mission or it reports an error.
  abbrev pub IsLeft : Executor → Flow → World V → Type 0
  IsLeft ex (returns (ok _)) w = (is_ended w.mission.status ≡ true) × FromWave ex w
  IsLeft ex _ w = Unit

  module _ (ex : Executor) (replan : ℕ → World V → Result Text (PlanDelta V))
      (is : IsExecutor ex) where
    pub run_wave-IsSound :
        {n : ℕ} {s₀ : MissionStatus} (k : ℕ) (w w' : World V)
        → run_wave ex replan k w ≡ ok w'
        → IsSound n s₀ w
        → IsSound n s₀ w'
    unfolding run_wave
    run_wave-IsSound {n} {s₀} k w w' e h = elim (Result-cases (ex.wave k w.mission w.goals)) [
      | inr (x, bad) ↦
          let e' : ◌≡◌ {A = Result Text (World V)} (err x) (ok w') = rw (bad, run_wave) at e in cc
      | inl ((m, gs, log), good) ↦
          let laws = is k w.mission m w.goals gs log good in
          let after : World V = record w { mission = m; goals = gs; log = w.log ++ log } in
          let e' : ◌≡◌ {A = Result Text (World V)} (ok after) (ok w') = rw (good, run_wave) at e in
          let same : after ≡ w' = cc in
          subst (λ v. IsSound n s₀ v) same
            (record {
              bound = omega (arith, laws.size, h.bound);
              trace = IsTrace-append w.log log h.trace laws.trace;
              going = elim laws.going [
                | inl same_status ↦ subst IsGoing (sym same_status) h.going
                | inr going ↦ going
              ];
            })
    ]

    pub run_wave-FromWave :
        (k : ℕ) (w w' : World V) → run_wave ex replan k w ≡ ok w' → FromWave ex w'
    unfolding run_wave
    run_wave-FromWave k w w' e = elim (Result-cases (ex.wave k w.mission w.goals)) [
      | inr (x, bad) ↦
          let e' : ◌≡◌ {A = Result Text (World V)} (err x) (ok w') = rw (bad, run_wave) at e in cc
      | inl ((m, gs, log), good) ↦
          let after : World V = record w { mission = m; goals = gs; log = w.log ++ log } in
          let e' : ◌≡◌ {A = Result Text (World V)} (ok after) (ok w') = rw (good, run_wave) at e in
          let same : after ≡ w' = cc in subst (FromWave ex) same (k, w.mission, w.goals, log, good)
    ]

    apply_delta-IsSound :
        {n : ℕ} {s₀ : MissionStatus} (k : ℕ) (delta : PlanDelta V) (w : World V)
        → 30 ≤ n
        → IsSound n s₀ w
        → IsSound n s₀ (apply_delta ex replan k delta w).0
          × IsLeft ex (apply_delta ex replan k delta w).1 (apply_delta ex replan k delta w).0
    unfolding apply_delta
    apply_delta-IsSound k delta w cap h = elim (Bool-cases delta.terminate) [
      | inl stop ↦ rw (stop, apply_delta) (publish-IsSound _ w refl h, tt)
      | inr on ↦ elim (Bool-cases (ltb 30 (length w.goals + length delta.added_goals))) [
        | inl over ↦ rw (on, apply_delta) (rw over (publish-IsSound _ w refl h, tt))
        | inr fits ↦ elim (Bool-cases (length delta.added_goals == 0)) [
          | inl none_added ↦
              rw (on, apply_delta) (rw fits (rw none_added (publish-IsSound _ w refl h, tt)))
          | inr some_added ↦
              let rows = persist_rows delta.added_goals delta.added_tasks w in
              let kept =
                persist_rows-IsSound delta.added_goals delta.added_tasks w
                  (ground (arith, fits, cap)) h in
              let revised =
                publish-IsSound (plan_revised w.mission.id k (length delta.added_goals)) rows.0 refl
                  kept in
              elim (Result-cases rows.1) [
                | inr (e, refused) ↦
                    rw (on, apply_delta) (rw fits (rw some_added (rw refused (kept, tt))))
                | inl (x, fine) ↦ elim (Bool-cases (k == 5)) [
                  | inl last ↦
                      rw (on, apply_delta)
                        (rw fits (
                          rw some_added (rw fine (rw last (publish-IsSound _ _ refl revised, tt)))))
                  | inr more ↦
                      rw (on, apply_delta)
                        (rw fits (rw some_added (rw fine (rw more (revised, tt)))))
                ]
              ]
        ]
      ]
    ]

    ask_planner-IsSound :
        {n : ℕ} {s₀ : MissionStatus} (k : ℕ) (w : World V)
        → 30 ≤ n
        → FromWave ex w
        → IsSound n s₀ w
        → IsSound n s₀ (ask_planner ex replan k w).0
          × IsLeft ex (ask_planner ex replan k w).1 (ask_planner ex replan k w).0
    unfolding ask_planner
    ask_planner-IsSound k w cap from h = elim (Bool-cases (is_ended w.mission.status)) [
      | inl over ↦ rw (over, ask_planner) (h, (over, from))
      | inr on ↦
          let w' = publish (replan_requested w.mission.id k) w in
          let h' = publish-IsSound (replan_requested w.mission.id k) w refl h in
          elim (Result-cases (replan k w')) [
            | inr (e, bad) ↦ rw (on, ask_planner) (rw bad (publish-IsSound _ w' refl h', tt))
            | inl (delta, good) ↦
                rw (on, ask_planner) (rw good (apply_delta-IsSound k delta w' cap h'))
          ]
    ]

    replan_round-IsSound :
        {n : ℕ} {s₀ : MissionStatus} (k : ℕ) (w : World V)
        → 30 ≤ n
        → IsSound n s₀ w
        → IsSound n s₀ (replan_round ex replan k w).0
          × IsLeft ex (replan_round ex replan k w).1 (replan_round ex replan k w).0
    unfolding replan_round
    replan_round-IsSound k w cap h = elim (Result-cases (run_wave ex replan k w)) [
      | inr (e, bad) ↦ rw (bad, replan_round) (h, tt)
      | inl (w', good) ↦
          rw (good, replan_round)
            (ask_planner-IsSound k w' cap (run_wave-FromWave k w w' good)
              (run_wave-IsSound k w w' good h))
    ]

    pub replan_rounds-IsSound :
        {n : ℕ} {s₀ : MissionStatus} (left k : ℕ) (w : World V)
        → 30 ≤ n
        → IsSound n s₀ w
        → IsSound n s₀ (replan_rounds ex replan left k w).0
          × IsLeft ex (replan_rounds ex replan left k w).1 (replan_rounds ex replan left k w).0
    unfolding replan_rounds
    replan_rounds-IsSound zero k w cap h = (h, tt)
    replan_rounds-IsSound (suc left) k w cap h =
        let (sound, gone) = replan_round-IsSound k w cap h in
        let round = replan_round ex replan k w in
        elim (Flow-cases round.1) [
          | inl on ↦ rw (on, replan_rounds) (replan_rounds-IsSound left (suc k) round.0 cap sound)
          | inr (inl stop) ↦ rw (stop, replan_rounds) (sound, tt)
          | inr (inr (r, out)) ↦
              rw (out, replan_rounds) (sound, subst (λ f. IsLeft ex f round.0) out gone)
        ]
