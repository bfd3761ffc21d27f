-- ===== src/Domain/Mission.antt =====
-- crates/forge-domain/src/mission.rs: the mission aggregate and its status machine. Ids are UUIDs
-- and timestamps are clock readings, both plain numbers here.
pub mod Lifecycle
use forge_os.Prelude.{ℕ, Text, Bool, true, false, List, [], Result, ok, err, if◌then◌else◌}

pub data MissionStatus : Type 0 where
  draft planning ready running paused completed failed cancelled : MissionStatus

pub MissionStatus-discrete : Discrete MissionStatus
MissionStatus-discrete = hlevel

-- The rows of the `matches!` in `can_transition`.
unfoldable pub can_transition : MissionStatus → MissionStatus → Bool
can_transition draft planning = true
can_transition planning ready = true
can_transition planning failed = true
can_transition planning cancelled = true
can_transition ready running = true
can_transition ready cancelled = true
can_transition running paused = true
can_transition running completed = true
can_transition running failed = true
can_transition running cancelled = true
can_transition paused running = true
can_transition paused cancelled = true
can_transition completed draft = true
can_transition failed draft = true
can_transition cancelled draft = true
can_transition _ _ = false

unfoldable pub is_terminal : MissionStatus → Bool
is_terminal completed = true
is_terminal failed = true
is_terminal cancelled = true
is_terminal _ = false

pub record Mission : Type 0 where
  pub id : ℕ
  pub title : Text
  pub description : Text
  pub status : MissionStatus
  pub created_at : ℕ
  pub updated_at : ℕ
  pub goals : List ℕ

-- The errors of crates/forge-domain/src/lib.rs. The source keeps the two statuses printed.
pub data DomainError : Type 0 where
  invalid_transition : MissionStatus → MissionStatus → DomainError
  dependency_cycle : ℕ → DomainError
  unknown_goal : ℕ → DomainError

-- The fresh id and the clock reading are arguments.
unfoldable pub new_draft : ℕ → ℕ → Text → Text → Mission
new_draft id now title description = record {
  id = id;
  title = title;
  description = description;
  status = draft;
  created_at = now;
  updated_at = now;
  goals = [];
}

unfoldable pub transition_to : ℕ → MissionStatus → Mission → Result DomainError Mission
unfolding can_transition
transition_to now next m =
    if can_transition m.status next
    then ok (record m { status = next; updated_at = now })
    else err (invalid_transition m.status next)
