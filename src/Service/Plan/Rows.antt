-- ===== src/Service/Plan/Rows.antt =====
-- What `persist_new_goal` and `persist_new_task` of crates/forge-mission/src/lib.rs leave behind when
-- they run over the rows of a plan.
use forge_os.Prelude.{
  ◌≡◌, refl, sym, ap, subst₂, ◌∙◌, Bool, not, ◌&&◌, List, [], ◌∷◌, ◌++◌, all, mem, Result, ok, err,
  append-nil, arith, Bool-cases, inl, inr,
}
use mathlib.Core.List.{map-append}
use forge_os.Domain.Goal.{Goal}
use forge_os.Domain.Task.{Task}
use forge_os.Domain.Event.Moves.{IsTrace, IsTrace-append}
use forge_os.Service.{
  World, MissionError, persistence, persist_goals, persist_tasks, persist_rows, goal_ids, task_ids,
}
use forge_os.Service.Plan.Notes.{Notes-refl, Notes-trans}
use forge_os.Service.Plan.Inserts.{
  fresh_ids, fresh_ids-snoc, nothing, whole, fit_tasks, Persisted, with_goal, with_task, goal-Notes,
  stopped, added, task_stopped, task_added,
}

module _ {V : Type 0} where
  persist_goals-tasks : (gs : List Goal) (w : World V) → (persist_goals gs w).0.tasks ≡ w.tasks
  unfolding persist_goals
  persist_goals-tasks [] w = refl
  persist_goals-tasks (g ∷ gs) w = elim (Bool-cases (mem g.id (goal_ids w.goals))) [
    | inl old ↦ rw ((stopped g w old).1, persist_goals) (rw ((stopped g w old).0) refl)
    | inr new ↦
        rw ((added g w new).1, persist_goals)
          (rw ((added g w new).0) (persist_goals-tasks gs (with_goal g w)))
  ]

  persist_goals-Persisted :
      (gs : List Goal) (w : World V)
      → Persisted (fresh_ids (goal_ids w.goals) (goal_ids gs)) gs w (persist_goals gs w)
  unfolding persist_goals
  persist_goals-Persisted [] w = record {
    made = [];
    rest = [];
    split = refl;
    notes = Notes-refl w;
    outcome = inl (refl, refl, refl);
  }
  persist_goals-Persisted (g ∷ gs) w =
      let known = goal_ids w.goals in
      elim (Bool-cases (mem g.id known)) [
        | inl old ↦
            rw ((stopped g w old).1, persist_goals)
              (rw ((stopped g w old).0) (record {
                made = [];
                rest = g ∷ gs;
                split = refl;
                notes = Notes-refl w;
                outcome = inr (ground (arith, old), g.id, refl);
              }))
        | inr new ↦
            let w' = with_goal g w in
            let k = persist_goals-Persisted gs w' in
            let same : fresh_ids (goal_ids w'.goals) (goal_ids gs)
                ≡ (not (mem g.id (goal_ids gs)) && fresh_ids known (goal_ids gs)) =
              ap (λ l. fresh_ids l (goal_ids gs)) (map-append (λ h. h.id) w.goals (g ∷ []))
              ∙ fresh_ids-snoc known g.id (goal_ids gs) in
            let all_fresh : fresh_ids known (goal_ids (g ∷ gs))
                ≡ fresh_ids (goal_ids w'.goals) (goal_ids gs) =
              ground (arith, new, same) in
            rw ((added g w new).1, persist_goals)
              (rw ((added g w new).0) (record {
                made = g ∷ k.made;
                rest = k.rest;
                split = ap (λ l. g ∷ l) k.split;
                notes =
                    Notes-trans (g ∷ []) k.made w w' (persist_goals gs w').0 (goal-Notes g w)
                      k.notes;
                outcome = elim k.outcome [
                  | inl (a, b, c) ↦ inl (all_fresh ∙ a, b, c)
                  | inr (a, row, b) ↦ inr (all_fresh ∙ a, row, b)
                ];
              }))
      ]

  persist_tasks-Persisted :
      (us : List (Task V)) (w : World V)
      → Persisted (fit_tasks w.goals w.tasks us) [] w (persist_tasks us w)
  unfolding persist_tasks
  persist_tasks-Persisted [] w = record {
    made = [];
    rest = [];
    split = refl;
    notes = Notes-refl w;
    outcome = inl (refl, refl, refl);
  }
  persist_tasks-Persisted (u ∷ us) w =
      let known = task_ids w.tasks in
      let goals = goal_ids w.goals in
      elim (Bool-cases (not (mem u.id known) && mem u.goal_id goals)) [
        | inr bad ↦
            rw ((task_stopped u w bad).1, persist_tasks)
              (rw ((task_stopped u w bad).0) (record {
                made = [];
                rest = [];
                split = refl;
                notes = Notes-refl w;
                outcome = inr (ground (arith, bad), u.id, refl);
              }))
        | inl good ↦
            let w' = with_task u w in
            let k = persist_tasks-Persisted us w' in
            let same : fresh_ids (task_ids w'.tasks) (task_ids us)
                ≡ (not (mem u.id (task_ids us)) && fresh_ids known (task_ids us)) =
              ap (λ l. fresh_ids l (task_ids us)) (map-append (λ t. t.id) w.tasks (u ∷ []))
              ∙ fresh_ids-snoc known u.id (task_ids us) in
            let all_fit : fit_tasks w.goals w.tasks (u ∷ us) ≡ fit_tasks w.goals w'.tasks us =
              ground (arith, good, same) in
            rw ((task_added u w good).1, persist_tasks)
              (rw ((task_added u w good).0) (record {
                made = k.made;
                rest = k.rest;
                split = k.split;
                notes =
                    Notes-trans [] k.made w w' (persist_tasks us w').0
                      (record {
                        mission = refl;
                        goals = sym (append-nil w.goals);
                        trace = λ s h.
                            IsTrace-append w.log _ h (IsTrace.other _ _ _ [] refl (IsTrace.here _));
                      })
                      k.notes;
                outcome = elim k.outcome [
                  | inl (a, b, c) ↦ inl (all_fit ∙ a, b, c)
                  | inr (a, row, b) ↦ inr (all_fit ∙ a, row, b)
                ];
              }))
      ]

  persist_goals-goals :
      (gs : List Goal) (w : World V)
      → (persist_goals gs w).1 ≡ ok tt
      → (persist_goals gs w).0.goals ≡ w.goals ++ gs
  persist_goals-goals gs w h =
      let k = persist_goals-Persisted gs w in
      elim k.outcome [
        | inl (a, b, c) ↦
            k.notes.goals
            ∙ ap (λ l. w.goals ++ l)
                (sym (append-nil k.made) ∙ ap (λ l. k.made ++ l) (sym c) ∙ sym k.split)
        | inr (a, row, b) ↦
            let both : ◌≡◌ {A = Result MissionError (Unit {0})} (err (persistence row)) (ok tt) =
              sym b ∙ h in
            cc
      ]

  -- The plan's goals and tasks can all be inserted next to the rows that are there.
  abbrev pub fits : List Goal → List (Task V) → List Goal → List (Task V) → Bool
  fits gs ts new_goals new_tasks =
      fresh_ids (goal_ids gs) (goal_ids new_goals)
      && (fresh_ids (task_ids ts) (task_ids new_tasks)
          && all (λ u. mem u.goal_id (goal_ids (gs ++ new_goals))) new_tasks)

  pub persist_rows-Persisted :
      (gs : List Goal) (us : List (Task V)) (w : World V)
      → Persisted (fits w.goals w.tasks gs us) gs w (persist_rows gs us w)
  unfolding persist_rows
  persist_rows-Persisted gs us w =
      let a = persist_goals-Persisted gs w in
      let w₁ = (persist_goals gs w).0 in
      elim a.outcome [
        | inr (bad, row, e) ↦
            rw (e, persist_rows)
              (record {
                made = a.made;
                rest = a.rest;
                split = a.split;
                notes = a.notes;
                outcome = inr (rw bad refl, row, refl);
              })
        | inl (good, e, all_made) ↦
            let b = persist_tasks-Persisted us w₁ in
            let same : fits w.goals w.tasks gs us ≡ fit_tasks w₁.goals w₁.tasks us = rw good (
              subst₂ (λ l ts. fit_tasks (w.goals ++ gs) w.tasks us ≡ fit_tasks l ts us)
                (sym (persist_goals-goals gs w e)) (sym (persist_goals-tasks gs w)) refl) in
            rw (e, persist_rows)
              (record {
                made = a.made ++ b.made;
                rest = [];
                split =
                    whole a.made a.rest b.made gs a.split all_made (nothing b.made b.rest b.split);
                notes = Notes-trans a.made b.made w w₁ (persist_tasks us w₁).0 a.notes b.notes;
                outcome = elim b.outcome [
                  | inl (x, y, z) ↦ inl (same ∙ x, y, refl)
                  | inr (x, row, y) ↦ inr (same ∙ x, row, y)
                ];
              })
      ]
