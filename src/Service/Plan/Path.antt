-- ===== src/Service/Plan/Path.antt =====
-- What `plan_only` of crates/forge-mission/src/lib.rs leaves behind on each of its branches.
use forge_os.Prelude.{
  Option, none, some, subst₂, take, ℕ, ◌≡◌, refl, sym, subst, ap, ◌∙◌, Text, Bool, true, false,
  List, [], ◌∷◌, ◌++◌, append-nil, Result, ok, err, length, Bool-cases, inl, inr,
}
use forge_os.Domain.Mission.{
  MissionStatus, planning, ready, running, failed, can_transition, transition_to,
}
use forge_os.Domain.Goal.{Goal}
use forge_os.Domain.Task.{Task}
use forge_os.Domain.Event.{
  mission_status_changed, mission_planning_started, mission_planning_completed,
  mission_planning_failed,
}
use forge_os.Domain.Event.Moves.{IsTrace, IsTrace-append}
use forge_os.Service.{
  World, MissionError, planner, persistence, state, publish, set_status, persist_rows,
}
use forge_os.Service.Plan.{
  RecallSurface, announce_skills, announce_recall, announce_memory, Plan, Advice, block_of,
  combined_memory, announce, fail_planning, start_running, accept_plan, plan_only,
}
use forge_os.Service.Plan.Notes.{IsTraced, Notes, Notes-trans, publish-Notes, announce-Notes}
use forge_os.Service.Plan.Rows.{fits, persist_rows-Persisted}

module _ {V : Type 0} where
  Notes-IsTraced :
      (gs : List Goal) (w w' : World V) (s₀ : MissionStatus)
      → Notes gs w w'
      → IsTraced s₀ w
      → IsTraced s₀ w'
  Notes-IsTraced gs w w' s₀ n h =
      subst (λ m. IsTrace s₀ w'.log m.status) (sym n.mission) (n.trace s₀ h)

  -- A move of the mission by a row of the table, and nothing else.
  pub record Moved (next : MissionStatus) (w w' : World V) : Type 0 where
    pub status : w'.mission.status ≡ next
    pub goals : w'.goals ≡ w.goals
    pub tasks : w'.tasks ≡ w.tasks
    pub trace : (s₀ : MissionStatus) → IsTraced s₀ w → IsTraced s₀ w'

  pub set_status-Moved :
      (now : ℕ) (next : MissionStatus) (w : World V)
      → can_transition w.mission.status next ≡ true
      → (w' : World V) × (set_status now next w ≡ ok w') × Moved next w w'
  unfolding set_status transition_to
  set_status-Moved now next w row = (
    publish (mission_status_changed w.mission.id w.mission.status next)
        (record w { mission = record w.mission { status = next; updated_at = now } }),
    rw (row, set_status) refl,
    record {
      status = refl;
      goals = refl;
      tasks = refl;
      trace = λ s h.
          IsTrace-append w.log _ h
            (IsTrace.moves w.mission.id w.mission.status next next [] row (IsTrace.here next));
    },
  )

  pub set_status-refused :
      (now : ℕ) (next : MissionStatus) (w : World V)
      → can_transition w.mission.status next ≡ false
      → set_status now next w ≡ err (state w.mission.status)
  unfolding set_status transition_to
  set_status-refused now next w barred = rw (barred, set_status) refl

  -- What becomes of a plan, by whether its rows can all be inserted.
  abbrev pub Accepted :
      Bool → Plan V → List Goal → World V → Result MissionError (Unit {0}) → Type 0
  Accepted true plan gs w' r =
      (r ≡ ok tt) × (w'.mission.status ≡ running) × (w'.goals ≡ gs ++ plan.goals)
  Accepted false plan gs w' r =
      (row : ℕ) × (made : List Goal) × (rest : List Goal) × (r ≡ err (persistence row))
      × (w'.mission.status ≡ planning)
      × (plan.goals ≡ made ++ rest)
      × (w'.goals ≡ gs ++ made)

  -- What an answer of the planner makes of the mission.
  abbrev pub Answered :
      Result Text (Plan V)
      → List Goal
      → List (Task V)
      → World V
      → Result MissionError (Unit {0})
      → Type 0
  Answered (err e) gs ts w' r =
      (r ≡ err (planner e)) × (w'.mission.status ≡ failed) × (w'.goals ≡ gs)
  Answered (ok plan) gs ts w' r = Accepted (fits gs ts plan.goals plan.tasks) plan gs w' r

  abbrev Lands : Result Text (Plan V) → World V → World V × Result MissionError (Unit {0}) → Type 0
  Lands answer w (w', r) =
      Answered answer w.goals w.tasks w' r × ((s₀ : MissionStatus) → IsTraced s₀ w → IsTraced s₀ w')

  fail_planning-Lands :
      (now : ℕ) (e : Text) (w : World V)
      → w.mission.status ≡ planning
      → Lands (err e) w (fail_planning now e w, err (planner e))
  unfolding fail_planning transition_to can_transition
  fail_planning-Lands now e w at_planning =
      let row : can_transition w.mission.status failed ≡ true =
        subst (λ s. can_transition s failed ≡ true) (sym at_planning) refl in
      rw (row, fail_planning)
        (
          (refl, refl, refl),
          λ s h.
              IsTrace-append (w.log ++ mission_planning_failed w.mission.id e ∷ []) _
                (IsTrace-append w.log _ h (IsTrace.other _ _ _ [] refl (IsTrace.here _)))
                (IsTrace.moves w.mission.id w.mission.status failed failed [] row
                  (IsTrace.here failed)),
        )

  start_running-Moved :
      (now : ℕ) (w : World V)
      → w.mission.status ≡ planning
      → ((start_running now w).1 ≡ ok tt) × Moved running w (start_running now w).0
  unfolding start_running can_transition
  start_running-Moved now w at_planning =
      let (w₁, e₁, a) =
        set_status-Moved now ready w
          (subst (λ s. can_transition s ready ≡ true) (sym at_planning) refl) in
      let (w₂, e₂, b) =
        set_status-Moved now running w₁
          (subst (λ s. can_transition s running ≡ true) (sym a.status) refl) in
      rw (e₁, start_running)
        (rw e₂ (
          refl,
          record {
            status = b.status;
            goals = b.goals ∙ a.goals;
            tasks = b.tasks ∙ a.tasks;
            trace = λ s h. b.trace s (a.trace s h);
          },
        ))

  accept_plan-Lands :
      (now : ℕ) (answer : Result Text (Plan V)) (w : World V)
      → w.mission.status ≡ planning
      → Lands answer w (accept_plan now answer w)
  unfolding accept_plan
  accept_plan-Lands now (err e) w at_planning = fail_planning-Lands now e w at_planning
  accept_plan-Lands now (ok plan) w at_planning =
      let k = persist_rows-Persisted plan.goals plan.tasks w in
      let w₁ = (persist_rows plan.goals plan.tasks w).0 in
      let done = publish (mission_planning_completed w₁.mission.id (length plan.goals)) w₁ in
      let goes : w₁.mission.status ≡ planning = ap (λ m. m.status) k.notes.mission ∙ at_planning in
      elim k.outcome [
        | inr (bad, row, e) ↦
            rw (e, accept_plan)
              (
                subst (λ b. Accepted b plan w.goals w₁ (err (persistence row))) (sym bad)
                    (row, k.made, k.rest, refl, goes, k.split, k.notes.goals),
                λ s h. Notes-IsTraced k.made w w₁ s k.notes h,
              )
        | inl (good, e, all_made) ↦
            let (fine, moved) = start_running-Moved now done goes in
            let noted = Notes-trans k.made [] w w₁ done k.notes (
              publish-Notes (mission_planning_completed w₁.mission.id (length plan.goals)) w₁
                refl) in
            let all : k.made ≡ plan.goals =
              sym (append-nil k.made) ∙ ap (λ l. k.made ++ l) (sym all_made) ∙ sym k.split in
            rw (e, accept_plan)
              (
                subst
                    (λ b.
                      Accepted b plan w.goals (start_running now done).0 (start_running now done).1)
                    (sym good)
                    (fine, moved.status, moved.goals ∙ k.notes.goals ∙ ap (λ l. w.goals ++ l) all),
                λ s h. moved.trace s (Notes-IsTraced (k.made ++ []) w done s noted h),
              )
      ]

  -- What a planning ends with, by whether the table lets the mission into planning.
  abbrev pub Planned :
      Bool → Result Text (Plan V) → World V → World V × Result MissionError (Unit {0}) → Type 0
  Planned false answer w (w', r) = (w' ≡ w) × (r ≡ err (state w.mission.status))
  Planned true answer w (w', r) = Answered answer w.goals w.tasks w' r

  announce-tasks : (adv : Advice V) (w : World V) → (announce adv w).tasks ≡ w.tasks
  unfolding announce
  announce-tasks adv w =
      let w₁ = announce_skills (take 4 adv.matches) w in
      let w₂ = announce_recall adv.recall w₁ in
      memory adv.org_memory w₂ ∙ recall adv.recall w₁ ∙ skills (take 4 adv.matches) w
    where
      skills : (ss : List Text) (v : World V) → (announce_skills ss v).tasks ≡ v.tasks
      skills [] v = refl
      skills (s ∷ ss) v = refl

      recall : (r : Option RecallSurface) (v : World V) → (announce_recall r v).tasks ≡ v.tasks
      recall none v = refl
      recall (some r) v = refl

      memory : (m : Option Text) (v : World V) → (announce_memory m v).tasks ≡ v.tasks
      memory none v = refl
      memory (some m) v = refl

  pub plan_only-Planned :
      {s₀ : MissionStatus} (now : ℕ) (adv : Advice V) (w : World V)
      → IsTraced s₀ w
      → Planned
          (can_transition w.mission.status planning)
          (adv.answer (combined_memory adv.org_memory (block_of adv.recall) adv.project_memory))
          w
          (plan_only now adv w)
        × IsTraced s₀ (plan_only now adv w).0
  unfolding plan_only
  plan_only-Planned {s₀} now adv w h =
      elim (Bool-cases (can_transition w.mission.status planning)) [
        | inr barred ↦
            rw (set_status-refused now planning w barred, plan_only) (rw barred ((refl, refl), h))
        | inl row ↦
            let (w₁, e, moved) = set_status-Moved now planning w row in
            let w₂ = publish (mission_planning_started w.mission.id) w₁ in
            let w₃ = announce adv w₂ in
            let memory = combined_memory adv.org_memory (block_of adv.recall) adv.project_memory in
            let noted =
              Notes-trans [] [] w₁ w₂ w₃
                (publish-Notes (mission_planning_started w.mission.id) w₁ refl)
                (announce-Notes adv w₂) in
            let (answered, traced) =
              accept_plan-Lands now (adv.answer memory) w₃
                (ap (λ m. m.status) noted.mission ∙ moved.status) in
            rw (e, plan_only)
              (rw row (
                subst₂
                    (λ gs ts.
                      Answered (adv.answer memory) gs ts (accept_plan now (adv.answer memory) w₃).0
                        (accept_plan now (adv.answer memory) w₃).1)
                    (noted.goals ∙ append-nil w₁.goals ∙ moved.goals)
                    (announce-tasks adv w₂ ∙ moved.tasks) answered,
                traced s₀ (Notes-IsTraced [] w₁ w₃ s₀ noted (moved.trace s₀ h)),
              ))
      ]
