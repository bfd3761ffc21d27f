-- ===== src/Workers.antt =====
-- crates/forge-runtime/src/worker_pool.rs: the workers and the janitor as clients of the mission
-- queue, one step at a time. How a claimed mission ends is an argument.
pub mod Jobs
pub mod Covers
pub mod Exclusive
use forge_os.Prelude.{
  ℕ, Text, text_eq, Bool, true, false, Option, none, some, List, [], ◌∷◌, Result, ok, err, ◌==◌,
  any, if◌then◌else◌,
}
use forge_os.Persistence.Queue.{
  Queue, Row, begin_enqueue, end_enqueue, claim_next, heartbeat, finish, requeue_stale,
}

-- A worker inside `run_claimed`.
pub record Job : Type 0 where
  pub worker : Text
  pub queue_id : ℕ

pub record WorkerPool : Type 0 where
  pub queue : Queue
  pub waiting : List ℕ
  pub jobs : List Job
  pub stale_after_secs : ℕ

abbrev pub holds : ℕ → List Job → Bool
holds id jobs = any (λ j. j.queue_id == id) jobs

abbrev pub find_job : Text → List Job → Option ℕ
find_job worker [] = none
find_job worker (j ∷ js) =
    let rest = find_job worker js in if text_eq j.worker worker then some j.queue_id else rest

abbrev pub drop_job : Text → List Job → List Job
drop_job worker [] = []
drop_job worker (j ∷ js) =
    let rest = drop_job worker js in if text_eq j.worker worker then js else j ∷ rest

-- What happens next: a submission looks whether its mission is active; one that has looked inserts
-- its row (`waiting` has the missions of those that found none); an idle worker looks for work; a busy worker's timer
-- fires, or its mission ends; the janitor sweeps.
pub data Act : Type 0 where
  ask : (mission_id : ℕ) → Act
  submit : (mission_id : ℕ) → Act
  look : (worker : Text) → Act
  beat : (worker : Text) → Act
  report : (worker : Text) (outcome : Result Text (Unit {0})) → Act
  sweep : Act

-- What the answer of the queue makes of the worker.
abbrev pub place : Text → Queue × Option Row → WorkerPool → WorkerPool
place worker (q, none) p = record p { queue = q }
place worker (q, some r) p = record p {
  queue = q;
  jobs = record { worker = worker; queue_id = r.id } ∷ p.jobs;
}

-- A round of `worker_loop`.
unfoldable pub look_for_work : ℕ → Text → WorkerPool → WorkerPool
look_for_work now worker p = place worker (claim_next worker now p.queue) p

-- The end of `run_claimed`.
unfoldable pub end_job : ℕ → Text → ℕ → Result Text (Unit {0}) → WorkerPool → WorkerPool
end_job now worker id (ok _) p = record p {
  queue = finish now id true none p.queue;
  jobs = drop_job worker p.jobs;
}
end_job now worker id (err e) p = record p {
  queue = finish now id false (some e) p.queue;
  jobs = drop_job worker p.jobs;
}

unfoldable pub step : ℕ → Act → WorkerPool → WorkerPool
unfolding look_for_work end_job
step now (ask m) p = record p { waiting = begin_enqueue m p.queue p.waiting }
step now (submit m) p =
    let (queue', waiting') = end_enqueue now m p.queue p.waiting in
    record p { queue = queue'; waiting = waiting' }
step now (look worker) p = elim (find_job worker p.jobs) [
  | some _ ↦ p
  | none ↦ look_for_work now worker p
]
step now (beat worker) p = elim (find_job worker p.jobs) [
  | some id ↦ record p { queue = heartbeat now id p.queue }
  | none ↦ p
]
step now (report worker outcome) p = elim (find_job worker p.jobs) [
  | some id ↦ end_job now worker id outcome p
  | none ↦ p
]
step now sweep p = record p { queue = (requeue_stale now p.stale_after_secs p.queue).0 }

-- A history of the pool: what happens, and when.
unfoldable pub steps : List (ℕ × Act) → WorkerPool → WorkerPool
unfolding step
steps [] p = p
steps ((now, a) ∷ acts) p = steps acts (step now a p)
