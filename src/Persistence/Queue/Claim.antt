-- ===== src/Persistence/Queue/Claim.antt =====
-- What the statements of the mission queue of crates/forge-persistence/src/sqlite.rs promise to the
-- worker pool: first in, first out, one row per request, and recovery of stale claims.
use forge_os.Prelude.{
  ℕ, suc, ◌+◌, ◌≤◌, ◌<◌, ltb, if◌then◌else◌, ◌≡◌, refl, Text, Bool, true, false, none, some, List,
  [], ◌∷◌, ◌++◌, arith, ◌==◌, Bool-cases, Option-cases, ◌⊎◌, inl, inr, All, count_if, ==-refl,
}
use forge_os.Persistence.Queue.{
  Row, Queue, QueueStatus, queued, claimed, done, failed, is_queued, is_claimed, is_active_for,
  find_first, update_where, new_row, enqueue, claim, claim_next, release, requeue_stale,
  is_queued_id, is_stale, depth,
}
use forge_os.Persistence.Queue.Rows.{
  InRange, find_first-eq-none, find_first-eq-some, find_first-least,
}
use forge_os.Persistence.Queue.Invariant.{IsValid}

pub find_first-ge :
    (p : Row → Bool) (lo hi : ℕ) (rs : List Row) (r : Row)
    → InRange lo hi rs
    → find_first p rs ≡ some r
    → lo ≤ r.id
find_first-ge p lo hi [] r h e = cc
find_first-ge p lo hi (s ∷ rs) r h e = elim (Bool-cases (p s)) [
  | inl hit ↦ let same : s.id ≡ r.id = ground arith in omega arith
  | inr miss ↦ omega (arith, find_first-ge p (suc s.id) hi rs r h.1 (ground arith))
]

-- The guarded update finds its row, and the row is read back as it was written.
pub claimed_row :
    (worker : Text) (now lo hi : ℕ) (rs : List Row) (r : Row)
    → InRange lo hi rs
    → find_first is_queued rs ≡ some r
    → ((count_if (is_queued_id r.id) rs == 0) ≡ false)
      × (find_first (λ s. s.id == r.id) (update_where (is_queued_id r.id) (claim worker now) rs)
          ≡ some (claim worker now r))
claimed_row worker now lo hi [] r h e = cc
claimed_row worker now lo hi (s ∷ rs) r h e = elim (Bool-cases (is_queued s)) [
  | inl hit ↦
      let same : s ≡ r = ground arith in
      (ground (arith, ==-refl r.id), ground (arith, ==-refl r.id))
  | inr miss ↦
      let later : find_first is_queued rs ≡ some r = ground arith in
      let ge = find_first-ge is_queued (suc s.id) hi rs r h.1 later in
      let ih = claimed_row worker now (suc s.id) hi rs r h.1 later in (ground arith, ground arith)
]

-- On a valid table `claim_next` either finds no queued row and changes nothing, or it claims the
-- queued row with the least id, and only that row, for the worker, and returns it as claimed.
pub claim_next_fifo :
    (worker : Text) (now : ℕ) (q : Queue)
    → IsValid q
    → (count_if is_queued q.rows ≡ 0) × (claim_next worker now q ≡ (q, none))
      ⊎ ((r : Row) × (is_queued r ≡ true)
          × All (λ s. is_queued s ≡ true → r.id ≤ s.id) q.rows
          × (claim_next worker now q ≡ (
            record q { rows = update_where (is_queued_id r.id) (claim worker now) q.rows },
            some (claim worker now r),
          )))
unfolding claim_next
claim_next_fifo worker now q v = elim (Option-cases (find_first is_queued q.rows)) [
  | inl absent ↦ inl (find_first-eq-none is_queued q.rows absent, rw (absent, claim_next))
  | inr (r, found) ↦
      let (guarded, read_back) = claimed_row worker now 1 q.next_id q.rows r v.in_range found in
      inr (
        r,
        (find_first-eq-some is_queued q.rows r found).0,
        find_first-least is_queued 1 q.next_id q.rows r v.in_range found,
        rw (found, claim_next) (rw guarded (rw read_back)),
      )
]

find_first-snoc :
    (p : Row → Bool) (rs : List Row) (r : Row)
    → find_first p rs ≡ none
    → p r ≡ true
    → find_first p (rs ++ r ∷ []) ≡ some r
find_first-snoc p [] r e h = ground arith
find_first-snoc p (s ∷ rs) r e h = ground (arith, find_first-snoc p rs r)

-- Enqueueing a mission again, at any time, changes nothing and returns the same row id.
pub enqueue-enqueue :
    (now later m : ℕ) (q : Queue) → enqueue later m (enqueue now m q).0 ≡ enqueue now m q
unfolding enqueue
enqueue-enqueue now later m q = elim (Option-cases (find_first (is_active_for m) q.rows)) [
  | inl absent ↦
      ground (arith, find_first-snoc (is_active_for m) q.rows (new_row q.next_id m now), ==-refl m)
  | inr (row, found) ↦ ground arith
]

status_claimed : (s : QueueStatus) → (elim s [ claimed ↦ true | _ ↦ false ]) ≡ true → s ≡ claimed
status_claimed queued h = absurd (ground (arith, h))
status_claimed claimed h = refl
status_claimed done h = absurd (ground (arith, h))
status_claimed failed h = absurd (ground (arith, h))

module _ (now secs : ℕ) where
  released_queued :
      (rs : List Row)
      → count_if is_queued (update_where (is_stale now secs) release rs)
        ≡ count_if is_queued rs + count_if (is_stale now secs) rs
  released_queued [] = refl
  released_queued (r ∷ rs) = ground (arith, released_queued rs)

  released_claimed :
      (rs : List Row)
      → count_if is_claimed (update_where (is_stale now secs) release rs)
          + count_if (is_stale now secs) rs
        ≡ count_if is_claimed rs
  released_claimed [] = refl
  released_claimed (r ∷ rs) = ground (arith, released_claimed rs)

  released_stale :
      (rs : List Row)
      → count_if (is_stale now secs) (update_where (is_stale now secs) release rs) ≡ 0
  released_stale [] = refl
  released_stale (r ∷ rs) = ground (arith, released_stale rs)

  -- What a sweep makes of a row: a claim without a heartbeat, or with one that is more than `secs`
  -- seconds old, goes back to the queue with no worker, no claim and no heartbeat; any other row
  -- stays.
  pub data IsSwept (r : Row) : Row → Type 0 where
    no_heartbeat :
        r.status ≡ claimed
        → r.heartbeat_at ≡ none
        → IsSwept r (record r {
          status = queued;
          claimed_by = none;
          claimed_at = none;
          heartbeat_at = none;
        })
    too_old :
        (t : ℕ)
        → r.status ≡ claimed
        → r.heartbeat_at ≡ some t
        → t + secs < now
        → IsSwept r (record r {
          status = queued;
          claimed_by = none;
          claimed_at = none;
          heartbeat_at = none;
        })
    fresh : (t : ℕ) → r.heartbeat_at ≡ some t → now ≤ t + secs → IsSwept r r
    not_claimed : is_claimed r ≡ false → IsSwept r r

  abbrev pub AllSwept : List Row → List Row → Type 0
  AllSwept [] [] = Unit
  AllSwept (r ∷ rs) (s ∷ ss) = IsSwept r s × AllSwept rs ss
  AllSwept _ _ = ⊥

  swept : (r : Row) → IsSwept r (if is_stale now secs r then release r else r)
  swept r = elim (Bool-cases (is_claimed r)) [
    | inr idle ↦
        let same : is_stale now secs r ≡ false = rw idle refl in rw same (IsSwept.not_claimed idle)
    | inl busy ↦ elim (Option-cases r.heartbeat_at) [
      | inl e ↦
          let same : is_stale now secs r ≡ true = rw (busy, e) refl in
          rw same (IsSwept.no_heartbeat (status_claimed r.status busy) e)
      | inr (t, e) ↦ elim (Bool-cases (ltb (t + secs) now)) [
        | inl old ↦
            let same : is_stale now secs r ≡ true = rw (busy, e) old in
            rw same (IsSwept.too_old t (status_claimed r.status busy) e (ground (arith, old)))
        | inr new ↦
            let same : is_stale now secs r ≡ false = rw (busy, e) new in
            rw same (IsSwept.fresh t e (ground (arith, new)))
      ]
    ]
  ]

  all_swept : (rs : List Row) → AllSwept rs (update_where (is_stale now secs) release rs)
  all_swept [] = tt
  all_swept (r ∷ rs) = (swept r, all_swept rs)

  -- Requeueing turns exactly the claims that have no heartbeat, or none in the last `secs` seconds,
  -- into queued rows with no worker, claim or heartbeat, however new a claim without a heartbeat is,
  -- and keeps every other row. It moves exactly the reported number of rows from claimed to queued,
  -- so no mission is lost, and leaves no stale claim behind.
  pub requeue_stale-depth :
      (q : Queue)
      → let (q', n) = requeue_stale now secs q in
        AllSwept q.rows q'.rows
        × ((depth q').0 ≡ (depth q).0 + n)
        × ((depth q').1 + n ≡ (depth q).1)
        × (count_if (is_stale now secs) q'.rows ≡ 0)
  unfolding requeue_stale depth
  requeue_stale-depth q =
      (all_swept q.rows, released_queued q.rows, released_claimed q.rows, released_stale q.rows)
