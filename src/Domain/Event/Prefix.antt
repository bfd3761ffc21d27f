-- ===== src/Domain/Event/Prefix.antt =====
-- How the aggregate type and the aggregate id of crates/forge-domain/src/event.rs agree.
use forge_os.Prelude.{ℕ, ◌≡◌, refl, Text, text, starts_with, Bool, true, false}
use forge_os.Domain.Event.{
  ForgeEvent, AggregateKind, mission, goal, task, llm, plugin, skill, mission_created,
  checkpoint_created, checkpoint_skipped,
}
use forge_os.Domain.Event.Aggregate.{aggregate_id, kind}

abbrev pub kind_prefix : AggregateKind → Text
kind_prefix mission = text "msn_"
kind_prefix goal = text "gol_"
kind_prefix task = text "tsk_"
kind_prefix llm = text "llm_"
kind_prefix plugin = text "mcp_"
kind_prefix skill = text "skill_"

abbrev pub is_checkpoint : ForgeEvent → Bool
is_checkpoint (checkpoint_created _ _ _ _ _ _) = true
is_checkpoint (checkpoint_skipped _ _ _ _) = true
is_checkpoint _ = false

-- Of every event but the two checkpoint events, the aggregate id carries the prefix of the
-- aggregate type under which the event is stored.
pub aggregate_id_prefix :
    (uuid_display : ℕ → Text) (e : ForgeEvent)
    → is_checkpoint e ≡ false
    → starts_with (aggregate_id uuid_display e) (kind_prefix (kind e)) ≡ true
unfolding aggregate_id kind starts_with
aggregate_id_prefix u (checkpoint_created _ _ _ _ _ _) h = cc
aggregate_id_prefix u (checkpoint_skipped _ _ _ _) h = cc
aggregate_id_prefix u (mission_created _ _) h = refl
aggregate_id_prefix u _ h = refl
