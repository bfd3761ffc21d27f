-- ===== src/Domain/Mission/Lifecycle.antt =====
-- The status machine of crates/forge-domain/src/mission.rs as a relation, and its paths.
use forge_os.Prelude.{ℕ, ◌≡◌, refl, ◌≢◌, ◌⊎◌, inl, inr, true, false, ok, err, arith}
use forge_os.Domain.Mission.{
  MissionStatus, draft, planning, ready, running, paused, completed, failed, cancelled,
  can_transition, is_terminal, Mission, transition_to, invalid_transition,
}

-- A run of accepted transitions.
infix 40 ◌⟶*◌
pub data ◌⟶*◌ (s : MissionStatus) : MissionStatus → Type 0 where
  here : s ⟶* s
  then : {t u : MissionStatus} → s ⟶* t → can_transition t u ≡ true → s ⟶* u

-- `transition_to` moves the status exactly along the table, stamps the clock, keeps every other
-- field, and on a refused move reports both statuses.
pub transition_to_cases :
    (now : ℕ) (next : MissionStatus) (m : Mission)
    → (can_transition m.status next ≡ true)
        × (transition_to now next m ≡ ok (record m { status = next; updated_at = now }))
      ⊎ (can_transition m.status next ≡ false)
        × (transition_to now next m ≡ err (invalid_transition m.status next))
unfolding transition_to
transition_to_cases now next m = ground arith

-- A terminal mission can only be re-opened to `draft`, and only a terminal one can.
pub terminal_only_reopens :
    (s t : MissionStatus)
    → can_transition s t ≡ true
    → ((is_terminal s ≡ true) × (t ≡ draft)) ⊎ ((is_terminal s ≡ false) × (t ≢ draft))
unfolding can_transition is_terminal
terminal_only_reopens s t h = ground arith

-- A mission completes only out of `running`.
completed_from_running : (s : MissionStatus) → can_transition s completed ≡ true → s ≡ running
unfolding can_transition
completed_from_running s h = ground arith

running_from_live :
    (s : MissionStatus) → can_transition s running ≡ true → (s ≡ ready) ⊎ (s ≡ paused)
unfolding can_transition
running_from_live s h = ground arith

-- The statuses that `run` visits in order, `s` included.
abbrev pub Visits : MissionStatus → {s t : MissionStatus} → s ⟶* t → Type 0
Visits v {s} here = v ≡ s
Visits v (then {u = u} r h) = (v ≡ u) ⊎ Visits v r

-- What a run that starts at `draft` must have visited by the time it is at a status.
abbrev History : (t : MissionStatus) → draft ⟶* t → Type 0
History planning r = Visits planning r
History ready r = Visits planning r × Visits ready r
History running r = Visits planning r × Visits ready r × Visits running r
History paused r = Visits planning r × Visits ready r × Visits running r
History completed r = Visits planning r × Visits ready r × Visits running r
History _ r = Unit

History-then :
    (t u : MissionStatus) (r : draft ⟶* t) (h : can_transition t u ≡ true)
    → History t r
    → History u (then r h)
unfolding can_transition
History-then draft planning r h past = inl refl
History-then planning ready r h past = (inr past, inl refl)
History-then planning failed r h past = tt
History-then planning cancelled r h past = tt
History-then ready running r h past = (inr past.0, inr past.1, inl refl)
History-then ready cancelled r h past = tt
History-then running paused r h past = (inr past.0, inr past.1, inr past.2)
History-then running completed r h past = (inr past.0, inr past.1, inr past.2)
History-then running failed r h past = tt
History-then running cancelled r h past = tt
History-then paused running r h past = (inr past.0, inr past.1, inl refl)
History-then paused cancelled r h past = tt
History-then completed draft r h past = tt
History-then failed draft r h past = tt
History-then cancelled draft r h past = tt
History-then _ _ r h past = cc

run-History : {t : MissionStatus} (r : draft ⟶* t) → History t r
run-History here = tt
run-History (then {t = t} {u = u} r h) = History-then t u r h (run-History r)

-- No mission is completed without having been planned, made ready and run.
pub completed-Visits :
    (r : draft ⟶* completed) → Visits planning r × Visits ready r × Visits running r
completed-Visits r = run-History r
