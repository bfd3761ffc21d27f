-- ===== src/Domain/Event/Moves.antt =====
-- The moves of a mission's status that a log records (crates/forge-domain/src/event.rs and
-- mission.rs).
use forge_os.Prelude.{ℕ, ◌≡◌, true, Option, none, some, List, [], ◌∷◌, ◌++◌}
use forge_os.Domain.Mission.{MissionStatus, can_transition}
use forge_os.Domain.Event.{ForgeEvent, mission_status_changed}

abbrev pub move : ForgeEvent → Option (MissionStatus × MissionStatus)
move (mission_status_changed _ from to) = some (from, to)
move _ = none

-- The moves of the log lead from the one status to the other, each by a row of the table and each
-- from where the last one ended.
pub data IsTrace : MissionStatus → List ForgeEvent → MissionStatus → Type 0 where
  here : (s : MissionStatus) → IsTrace s [] s
  other :
      (s t : MissionStatus) (e : ForgeEvent) (log : List ForgeEvent)
      → move e ≡ none
      → IsTrace s log t
      → IsTrace s (e ∷ log) t
  moves :
      (id : ℕ) (s u t : MissionStatus) (log : List ForgeEvent)
      → can_transition s u ≡ true
      → IsTrace u log t
      → IsTrace s (mission_status_changed id s u ∷ log) t

pub IsTrace-append :
    {s t u : MissionStatus} (log more : List ForgeEvent)
    → IsTrace s log t
    → IsTrace t more u
    → IsTrace s (log ++ more) u
IsTrace-append _ more (here s) b = b
IsTrace-append _ more (other s t e log quiet a) b =
    other s _ e (log ++ more) quiet (IsTrace-append log more a b)
IsTrace-append _ more (moves id s v t log row a) b =
    moves id s v _ (log ++ more) row (IsTrace-append log more a b)
