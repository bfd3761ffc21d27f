-- ===== src/Workers/Exclusive.antt =====
-- No mission is run by two workers of crates/forge-runtime/src/worker_pool.rs at once.
use forge_os.Prelude.{
  ℕ, suc, ◌≤◌, ◌<◌, ◌≡◌, refl, sym, subst, Text, Bool, true, false, ◌&&◌, Option, none, some, List,
  [], ◌∷◌, Result, ok, err, ◌==◌, arith, All, All-append, count_if, mem, Bool-cases, Option-cases,
  inl, inr,
}
use forge_os.Persistence.Queue.{
  Queue, Row, is_queued, find_first, update_where, end_enqueue, insert_queued, claim, claim_next,
  heartbeat, finish, requeue_stale, is_queued_id, is_stale,
}
use forge_os.Persistence.Queue.Invariant.{IsValid}
use forge_os.Persistence.Queue.Lone.{
  IsGuarded, begin_enqueue-IsGuarded, end_enqueue-IsGuarded, claim_next-IsGuarded,
  heartbeat-IsGuarded, finish-IsGuarded, requeue_stale-IsGuarded,
}
use forge_os.Persistence.Queue.Claim.{claimed_row}
use forge_os.Workers.{
  Job, WorkerPool, holds, find_job, drop_job, Act, ask, submit, look, beat, report, sweep, place,
  look_for_work, end_job, step, steps,
}
use forge_os.Workers.Jobs.{
  Distinct, unheld, known_later, drop_job-holds, drop_job-Distinct, drop_job-known, drop_job-free,
}
use forge_os.Workers.Covers.{
  covers, covers-fewer, covers-claim, heartbeat-covers, finish-covers, requeue_stale-covers,
  find_first-lt, queued-unheld, all_covered, held_rows-le,
}

pub record IsExclusive (p : WorkerPool) : Type 0 where
  pub valid : IsGuarded p.waiting p.queue
  pub covered : All (λ r. covers p.jobs r ≡ true) p.queue.rows
  pub known : All (λ j. j.queue_id < p.queue.next_id) p.jobs
  pub distinct : Distinct p.jobs

-- At a sweep, no row that a worker holds is stale: the timers fire in time. A submission looks only
-- when no other one of its mission has looked and not inserted yet.
abbrev IsTimelyAt : ℕ → Act → WorkerPool → Type 0
IsTimelyAt now sweep p =
    All (λ r. (holds r.id p.jobs && is_stale now p.stale_after_secs r) ≡ false) p.queue.rows
IsTimelyAt now (ask m) p = mem m p.waiting ≡ false
IsTimelyAt now _ p = Unit

abbrev pub IsTimely : List (ℕ × Act) → WorkerPool → Type 0
IsTimely [] p = Unit
IsTimely ((now, a) ∷ acts) p = IsTimelyAt now a p × IsTimely acts (step now a p)

submit-IsExclusive :
    (now m : ℕ) (p : WorkerPool) → IsExclusive p → IsExclusive (step now (submit m) p)
unfolding step end_enqueue insert_queued
submit-IsExclusive now m p h = elim (Bool-cases (mem m p.waiting)) [
  | inr out ↦ rw (out, end_enqueue) h
  | inl there ↦
      rw (there, end_enqueue)
        (record {
          valid =
              rw (there, end_enqueue) at (end_enqueue-IsGuarded now m p.queue p.waiting h.valid);
          covered =
              All-append (λ r. covers p.jobs r ≡ true) p.queue.rows _ h.covered
                (rw (unheld p.queue.next_id p.jobs h.known) refl, tt);
          known = known_later p.queue.next_id (suc p.queue.next_id) p.jobs (omega arith) h.known;
          distinct = h.distinct;
        })
]

beat-IsExclusive :
    (now : ℕ) (worker : Text) (p : WorkerPool)
    → IsExclusive p
    → IsExclusive (step now (beat worker) p)
unfolding step heartbeat
beat-IsExclusive now worker p h = elim (Option-cases (find_job worker p.jobs)) [
  | inl idle ↦ rw (idle, step) h
  | inr (id, busy) ↦
      rw (busy, step)
        (record {
          valid = heartbeat-IsGuarded now id p.waiting p.queue h.valid;
          covered = heartbeat-covers now id p.jobs p.queue h.covered;
          known = h.known;
          distinct = h.distinct;
        })
]

finished :
    (now : ℕ) (worker : Text) (id : ℕ) (success : Bool) (error : Option Text) (p : WorkerPool)
    → find_job worker p.jobs ≡ some id
    → IsExclusive p
    → IsExclusive
        (record p { queue = finish now id success error p.queue; jobs = drop_job worker p.jobs })
unfolding finish
finished now worker id success error p busy h = record {
  valid = finish-IsGuarded now id success error p.waiting p.queue h.valid;
  covered =
      finish-covers now id success error (drop_job worker p.jobs) p.queue
        (drop_job-free worker id p.jobs h.distinct busy)
        (covers-fewer p.jobs (drop_job worker p.jobs) p.queue.rows (drop_job-holds worker p.jobs)
          h.covered);
  known = drop_job-known worker p.queue.next_id p.jobs h.known;
  distinct = drop_job-Distinct worker p.jobs h.distinct;
}

end_job-IsExclusive :
    (now : ℕ) (worker : Text) (id : ℕ) (outcome : Result Text (Unit {0})) (p : WorkerPool)
    → find_job worker p.jobs ≡ some id
    → IsExclusive p
    → IsExclusive (end_job now worker id outcome p)
unfolding end_job
end_job-IsExclusive now worker id (ok _) p busy h = finished now worker id true none p busy h
end_job-IsExclusive now worker id (err e) p busy h = finished now worker id false (some e) p busy h

look_for_work-IsExclusive :
    (now : ℕ) (worker : Text) (p : WorkerPool)
    → IsExclusive p
    → IsExclusive (look_for_work now worker p)
unfolding look_for_work claim_next
look_for_work-IsExclusive now worker p h = elim (Option-cases (find_first is_queued p.queue.rows)) [
  | inl absent ↦
      let same : claim_next worker now p.queue ≡ (p.queue, none) = rw (absent, claim_next) refl in
      subst (λ c. IsExclusive (place worker c p)) (sym same) h
  | inr (r, found) ↦
      let (guarded, read_back) =
        claimed_row worker now 1 p.queue.next_id p.queue.rows r h.valid.valid.in_range found in
      let rows' = update_where (is_queued_id r.id) (claim worker now) p.queue.rows in
      let result : Queue × Option Row =
        (record p.queue { rows = rows' }, some (claim worker now r)) in
      let same : claim_next worker now p.queue ≡ result =
        rw (found, claim_next) (rw guarded (rw read_back refl)) in
      let job : Job = record { worker = worker; queue_id = r.id } in
      subst (λ c. IsExclusive (place worker c p)) (sym same)
        (record {
          valid =
              subst (λ c. IsGuarded p.waiting c.0) same
                (claim_next-IsGuarded worker now p.waiting p.queue h.valid);
          covered =
              covers-claim worker now 1 p.queue.next_id p.jobs job p.queue.rows r
                h.valid.valid.in_range found refl h.covered;
          known = (
            find_first-lt 1 p.queue.next_id p.queue.rows r h.valid.valid.in_range found,
            h.known,
          );
          distinct = (queued-unheld p.jobs p.queue.rows r found h.covered, h.distinct);
        })
]

step-IsExclusive :
    (now : ℕ) (a : Act) (p : WorkerPool)
    → IsTimelyAt now a p
    → IsExclusive p
    → IsExclusive (step now a p)
unfolding step requeue_stale end_job
step-IsExclusive now (ask m) p t h = record {
  valid = begin_enqueue-IsGuarded m p.queue p.waiting t h.valid;
  covered = h.covered;
  known = h.known;
  distinct = h.distinct;
}
step-IsExclusive now (submit m) p t h = submit-IsExclusive now m p h
step-IsExclusive now (beat worker) p t h = beat-IsExclusive now worker p h
step-IsExclusive now (look worker) p t h = elim (Option-cases (find_job worker p.jobs)) [
  | inr (id, busy) ↦ rw (busy, step) h
  | inl idle ↦ rw (idle, step) (look_for_work-IsExclusive now worker p h)
]
step-IsExclusive now (report worker outcome) p t h = elim (Option-cases (find_job worker p.jobs)) [
  | inl idle ↦ rw (idle, step) h
  | inr (id, busy) ↦ rw (busy, step) (end_job-IsExclusive now worker id outcome p busy h)
]
step-IsExclusive now sweep p t h = record {
  valid = requeue_stale-IsGuarded now p.stale_after_secs p.waiting p.queue h.valid;
  covered = requeue_stale-covers now p.stale_after_secs p.jobs p.queue.rows t h.covered;
  known = h.known;
  distinct = h.distinct;
}

steps-keep :
    (acts : List (ℕ × Act)) (p : WorkerPool)
    → IsTimely acts p
    → IsExclusive p
    → IsExclusive (steps acts p)
unfolding steps
steps-keep [] p t h = h
steps-keep ((now, a) ∷ acts) p t h =
    steps-keep acts (step now a p) t.1 (step-IsExclusive now a p t.0 h)

idle-IsExclusive : (p : WorkerPool) → IsValid p.queue → p.waiting ≡ [] → p.jobs ≡ [] → IsExclusive p
idle-IsExclusive p v lone idle = record {
  valid = record { valid = v; room = λ m. rw lone (omega (arith, v.one_active m)) };
  covered =
      subst (λ js. All (λ r. covers js r ≡ true) p.queue.rows) (sym idle)
        (all_covered p.queue.rows);
  known = subst (λ js. All (λ j. j.queue_id < p.queue.next_id) js) (sym idle) tt;
  distinct = subst Distinct (sym idle) tt;
}

-- How many rows of a mission are held.
abbrev pub held_rows : ℕ → WorkerPool → ℕ
held_rows m p = count_if (λ r. (r.mission_id == m) && holds r.id p.jobs) p.queue.rows

-- Let a pool start with no worker busy, no submission under way and a valid queue; let no row that a
-- worker holds be stale when the janitor sweeps, and let no submission look for its mission while
-- another one of the same mission has looked and not inserted its row yet. Then at every moment no two busy workers hold the same row of the
-- queue, and no mission has more than one row that is held: it is run by one worker at most,
-- however the statements of submissions, claims, heartbeats, ends and sweeps follow one another.
pub steps-exclusive :
    (acts : List (ℕ × Act)) (p : WorkerPool) (m : ℕ)
    → IsValid p.queue
    → p.waiting ≡ []
    → p.jobs ≡ []
    → IsTimely acts p
    → Distinct (steps acts p).jobs × (held_rows m (steps acts p) ≤ 1)
steps-exclusive acts p m v lone idle t =
    let h = steps-keep acts p t (idle-IsExclusive p v lone idle) in
    (
      h.distinct,
      omega (
        arith,
        h.valid.valid.one_active m,
        held_rows-le m (steps acts p).jobs (steps acts p).queue.rows h.covered,
      ),
    )
