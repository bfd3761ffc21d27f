-- ===== src/SkillOps/Runs.antt =====
-- The operations of crates/forge-runtime/src/skills_ops.rs, run one after another.
use forge_os.Prelude.{ℕ, Text, Bool, true, Option, none, some, List, [], ◌∷◌}
use forge_os.SkillOps.{path_for_returns, SkillTools, SkillWorld, Outcome}
use forge_os.SkillOps.Promote.{promote_from_proposal}
use forge_os.SkillOps.Rollback.{retire, roll_back, seed_missing_history}

pub data SkillRequest : Type 0 where
  promoting : Text → Option ℕ → SkillRequest
  retiring : Text → Text → SkillRequest
  rolling_back : Text → Text → Option Text → SkillRequest
  seeding : SkillRequest

abbrev pub world_of : {A : Type 0} → Outcome A → Option SkillWorld
world_of none = none
world_of (some (w, _)) = some w

-- A rollback names a hash that `path_for` can cut after its third byte.
abbrev pub can_cut : SkillRequest → Bool
can_cut (promoting file mission) = true
can_cut (retiring name reason) = true
can_cut (rolling_back name sha reason) = path_for_returns sha
can_cut seeding = true

module _ (t : SkillTools) where
  unfoldable pub perform : ℕ → SkillRequest → SkillWorld → Option SkillWorld
  perform now (promoting file mission) w = world_of (promote_from_proposal t now file mission w)
  perform now (retiring name reason) w = world_of (retire t now name reason w)
  perform now (rolling_back name sha reason) w = world_of (roll_back t now name sha reason w)
  perform now seeding w = some (seed_missing_history t now w).0

  unfoldable pub run_requests : List (ℕ × SkillRequest) → SkillWorld → Option SkillWorld
  unfolding perform
  run_requests [] w = some w
  run_requests ((now, q) ∷ qs) w = elim (perform now q w) [
    | none ↦ none
    | some w' ↦ run_requests qs w'
  ]
