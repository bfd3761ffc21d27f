-- ===== src/Tests/Workers.antt =====
-- Runs of the worker pool of crates/forge-runtime.
use forge_os.Prelude.{ℕ, ◌≡◌, ◌≤◌, refl, text, text_eq, List, [], ◌∷◌}
use forge_os.Persistence.Queue.{
  begin_enqueue, end_enqueue, select_active, insert_queued, claim_next, heartbeat, finish,
  requeue_stale,
}
use forge_os.Persistence.Queue.Invariant.{empty-IsValid}
use forge_os.Workers.{
  WorkerPool, Act, ask, submit, look, beat, sweep, step, steps, look_for_work, end_job,
}
use forge_os.Workers.Jobs.{Distinct}
use forge_os.Workers.Exclusive.{IsTimely, held_rows, steps-exclusive}

abbrev idle_pool : WorkerPool
idle_pool = record {
  queue = record { rows = []; next_id = 1 };
  waiting = [];
  jobs = [];
  stale_after_secs = 60;
}

abbrev history : List (ℕ × Act)
history =
    (10, ask 7)
    ∷ (10, submit 7)
    ∷ (11, look (text "w0"))
    ∷ (12, look (text "w1"))
    ∷ (50, beat (text "w0"))
    ∷ (90, sweep)
    ∷ (91, look (text "w1"))
    ∷ []

pool : Unit {0}
unfolding steps step look_for_work end_job begin_enqueue end_enqueue select_active insert_queued
    claim_next heartbeat finish requeue_stale text_eq
pool = tt

history-IsTimely : IsTimely history idle_pool
unfolding pool
history-IsTimely = (refl, (tt, (tt, (tt, (tt, ((refl, tt), (tt, tt)))))))

held_once : held_rows 7 (steps history idle_pool) ≡ 1
unfolding pool
held_once = refl

steps-exclusive_example :
    Distinct (steps history idle_pool).jobs × (held_rows 7 (steps history idle_pool) ≤ 1)
steps-exclusive_example =
    steps-exclusive history idle_pool 7 empty-IsValid refl refl history-IsTimely

-- With no heartbeat in time, the sweep gives the mission to a second worker.
abbrev silent : List (ℕ × Act)
silent =
    (10, ask 7)
    ∷ (10, submit 7)
    ∷ (11, look (text "w0"))
    ∷ (90, sweep)
    ∷ (91, look (text "w1"))
    ∷ []

silent_twice : Distinct (steps silent idle_pool).jobs → ⊥
unfolding pool
silent_twice d = cc (d.0)

-- Two submissions of one mission that both look before either inserts: two workers run it.
abbrev race : List (ℕ × Act)
race =
    (10, ask 7)
    ∷ (10, ask 7)
    ∷ (10, submit 7)
    ∷ (10, submit 7)
    ∷ (11, look (text "w0"))
    ∷ (12, look (text "w1"))
    ∷ []

race_twice : held_rows 7 (steps race idle_pool) ≡ 2
unfolding pool
race_twice = refl
