-- ===== src/Service/Plan/Notes.antt =====
-- The steps of `plan_only` in crates/forge-mission/src/lib.rs that leave the mission's row alone.
use forge_os.Prelude.{
  ◌≡◌, refl, sym, subst, ap, ◌∙◌, Text, Option, none, some, List, [], ◌∷◌, ◌++◌, append_assoc,
  append-nil, take,
}
use forge_os.Domain.Mission.{MissionStatus}
use forge_os.Domain.Goal.{Goal}
use forge_os.Domain.Event.{ForgeEvent}
use forge_os.Domain.Event.Moves.{IsTrace, move, IsTrace-append}
use forge_os.Service.{World, publish}
use forge_os.Service.Plan.{
  Advice, RecallSurface, announce, announce_skills, announce_recall, announce_memory,
}

module _ {V : Type 0} where
  abbrev pub IsTraced : MissionStatus → World V → Type 0
  IsTraced s₀ w = IsTrace s₀ w.log w.mission.status

  -- A step that leaves the mission alone, appends goals, and logs no move.
  pub record Notes (gs : List Goal) (w w' : World V) : Type 0 where
    pub mission : w'.mission ≡ w.mission
    pub goals : w'.goals ≡ w.goals ++ gs
    pub trace :
        (s₀ : MissionStatus)
        → IsTrace s₀ w.log w.mission.status
        → IsTrace s₀ w'.log w.mission.status

  pub Notes-refl : (w : World V) → Notes [] w w
  Notes-refl w = record { mission = refl; goals = sym (append-nil w.goals); trace = λ s h. h }

  pub Notes-trans :
      (gs hs : List Goal) (w w' w'' : World V)
      → Notes gs w w'
      → Notes hs w' w''
      → Notes (gs ++ hs) w w''
  Notes-trans gs hs w w' w'' a b = record {
    mission = b.mission ∙ a.mission;
    goals = b.goals ∙ ap (λ l. l ++ hs) a.goals ∙ append_assoc w.goals gs hs;
    trace = λ s h.
        subst (λ m. IsTrace s w''.log m.status) a.mission
          (b.trace s (subst (λ m. IsTrace s w'.log m.status) (sym a.mission) (a.trace s h)));
  }

  pub publish-Notes : (e : ForgeEvent) (w : World V) → move e ≡ none → Notes [] w (publish e w)
  publish-Notes e w quiet = record {
    mission = refl;
    goals = sym (append-nil w.goals);
    trace = λ s h. IsTrace-append w.log (e ∷ []) h (IsTrace.other _ _ e [] quiet (IsTrace.here _));
  }

  pub announce-Notes : (adv : Advice V) (w : World V) → Notes [] w (announce adv w)
  unfolding announce
  announce-Notes adv w =
      let w₁ = announce_skills (take 4 adv.matches) w in
      let w₂ = announce_recall adv.recall w₁ in
      Notes-trans [] [] w w₁ _ (skills (take 4 adv.matches) w)
        (Notes-trans [] [] w₁ w₂ _ (recall adv.recall w₁) (memory adv.org_memory w₂))
    where
      skills : (ss : List Text) (v : World V) → Notes [] v (announce_skills ss v)
      skills [] v = Notes-refl v
      skills (s ∷ ss) v = publish-Notes _ v refl

      recall : (r : Option RecallSurface) (v : World V) → Notes [] v (announce_recall r v)
      recall none v = Notes-refl v
      recall (some r) v = publish-Notes _ v refl

      memory : (m : Option Text) (v : World V) → Notes [] v (announce_memory m v)
      memory none v = Notes-refl v
      memory (some m) v = publish-Notes _ v refl
