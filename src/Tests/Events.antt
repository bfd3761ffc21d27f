-- ===== src/Tests/Events.antt =====
-- Runs of the event store of crates/forge-persistence.
use forge_os.Prelude.{ℕ, ◌≡◌, refl, some, List, [], ◌∷◌, arith, take}
use forge_os.Domain.Event.{ForgeEvent, task_started}
use forge_os.Persistence.Events.{
  EventStore, envelope, append, publish, publish_all, read_since, replay_since,
  replay_since-publish_all,
}

abbrev seen_one : EventStore
seen_one = record { rows = envelope 1 100 (task_started 7) ∷ []; next_seq = 2 }

abbrev two_events : List (ℕ × ForgeEvent)
two_events = (101, task_started 8) ∷ (102, task_started 9) ∷ []

caught_up :
    replay_since (some 1) (publish_all two_events seen_one).0
    ≡ envelope 2 101 (task_started 8) ∷ envelope 3 102 (task_started 9) ∷ []
unfolding replay_since read_since publish_all publish append
caught_up = refl

replay_since-publish_all_example :
    replay_since (some 1) (publish_all two_events seen_one).0
    ≡ take 5000 (publish_all two_events seen_one).1
replay_since-publish_all_example =
    replay_since-publish_all 1 two_events seen_one (omega arith, tt) (omega arith)
