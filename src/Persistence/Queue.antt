-- ===== src/Persistence/Queue.antt =====
-- crates/forge-persistence: the mission queue table and `SqliteMissionQueueRepository`. The table
-- is its rows by ascending id with the next id of AUTOINCREMENT; a query runs on it as SQLite
-- documents. Timestamps are seconds. A statement that fails changes nothing and is not modelled.
pub mod Rows
pub mod Invariant
pub mod Claim
pub mod Lone
use forge_os.Prelude.{
  ℕ, suc, ◌+◌, Text, Bool, true, false, ◌&&◌, ◌||◌, Option, none, some, List, [], ◌∷◌, ◌++◌, map,
  ltb, ◌==◌, if◌then◌else◌, take, keep_if, count_if, mem,
}
use mathlib.Core.List.{reverse}

pub data QueueStatus : Type 0 where
  queued claimed done failed : QueueStatus

pub record Row : Type 0 where
  pub id : ℕ
  pub mission_id : ℕ
  pub status : QueueStatus
  pub claimed_by : Option Text
  pub claimed_at : Option ℕ
  pub heartbeat_at : Option ℕ
  pub finished_at : Option ℕ
  pub error : Option Text
  pub enqueued_at : ℕ

pub record Queue : Type 0 where
  pub rows : List Row
  pub next_id : ℕ

abbrev pub is_queued : Row → Bool
is_queued r = elim r.status [ queued ↦ true | _ ↦ false ]

abbrev pub is_claimed : Row → Bool
is_claimed r = elim r.status [ claimed ↦ true | _ ↦ false ]

-- `mission_id=?1 AND status IN ('queued','claimed')`
abbrev pub is_active_for : ℕ → Row → Bool
is_active_for m r = (r.mission_id == m) && (is_queued r || is_claimed r)

-- `SELECT … WHERE p ORDER BY id ASC LIMIT 1`
abbrev pub find_first : (Row → Bool) → List Row → Option Row
find_first p [] = none
find_first p (r ∷ rs) = let rest = find_first p rs in if p r then some r else rest

-- `UPDATE … SET f WHERE p`
abbrev pub update_where : (Row → Bool) → (Row → Row) → List Row → List Row
update_where p f [] = []
update_where p f (r ∷ rs) = (if p r then f r else r) ∷ update_where p f rs

abbrev pub new_row : ℕ → ℕ → ℕ → Row
new_row id mission_id now = record {
  id = id;
  mission_id = mission_id;
  status = queued;
  claimed_by = none;
  claimed_at = none;
  heartbeat_at = none;
  finished_at = none;
  error = none;
  enqueued_at = now;
}

-- The first statement of `enqueue`: the id of the mission's active row.
unfoldable pub select_active : ℕ → Queue → Option ℕ
select_active mission_id q = elim (find_first (is_active_for mission_id) q.rows) [
  | some row ↦ some row.id
  | none ↦ none
]

-- The second one, an insertion that no constraint of the table stops.
unfoldable pub insert_queued : ℕ → ℕ → Queue → Queue × ℕ
insert_queued now mission_id q = (
  record { rows = q.rows ++ new_row q.next_id mission_id now ∷ []; next_id = suc q.next_id },
  q.next_id,
)

-- An `enqueue` with no other statement between its two.
unfoldable pub enqueue : ℕ → ℕ → Queue → Queue × ℕ
unfolding select_active insert_queued
enqueue now mission_id q = elim (select_active mission_id q) [
  | some id ↦ (q, id)
  | none ↦ insert_queued now mission_id q
]

-- There is no transaction around the two, and other statements can run between them. `waiting` has
-- the missions of the calls of `enqueue` that found no row and have not inserted one yet.
unfoldable pub begin_enqueue : ℕ → Queue → List ℕ → List ℕ
unfolding select_active
begin_enqueue mission_id q waiting = elim (select_active mission_id q) [
  | some _ ↦ waiting
  | none ↦ mission_id ∷ waiting
]

abbrev pub drop_one : ℕ → List ℕ → List ℕ
drop_one m [] = []
drop_one m (x ∷ xs) = let rest = drop_one m xs in if x == m then xs else x ∷ rest

unfoldable pub end_enqueue : ℕ → ℕ → Queue → List ℕ → Queue × List ℕ
unfolding insert_queued
end_enqueue now mission_id q waiting =
    if mem mission_id waiting
    then ((insert_queued now mission_id q).0, drop_one mission_id waiting)
    else (q, waiting)

abbrev pub claim : Text → ℕ → Row → Row
claim worker_id now r = record r {
  status = claimed;
  claimed_by = some worker_id;
  claimed_at = some now;
  heartbeat_at = some now;
}

-- `WHERE id=?3 AND status='queued'`
abbrev pub is_queued_id : ℕ → Row → Bool
is_queued_id id r = (r.id == id) && is_queued r

-- The transaction of `claim_next`: select, update under the guard, and give up on no rows affected.
unfoldable pub claim_next : Text → ℕ → Queue → Queue × Option Row
claim_next worker_id now q = elim (find_first is_queued q.rows) [
  | none ↦ (q, none)
  | some row ↦
      let rows' = update_where (is_queued_id row.id) (claim worker_id now) q.rows in
      if count_if (is_queued_id row.id) q.rows == 0
      then (q, none)
      else (record q { rows = rows' }, find_first (λ r. r.id == row.id) rows')
]

unfoldable pub heartbeat : ℕ → ℕ → Queue → Queue
heartbeat now id q = record q {
  rows =
      update_where (λ r. (r.id == id) && is_claimed r) (λ r. record r { heartbeat_at = some now })
        q.rows;
}

-- There is no guard on the row's status or on the worker.
unfoldable pub finish : ℕ → ℕ → Bool → Option Text → Queue → Queue
finish now id success error q = record q {
  rows =
      update_where (λ r. r.id == id)
        (λ r. record r {
          status = if success then done else failed;
          finished_at = some now;
          error = error;
        })
        q.rows;
}

-- `heartbeat_at IS NULL OR heartbeat_at < cutoff`, with `cutoff = now - stale_after_secs`.
abbrev pub is_stale : ℕ → ℕ → Row → Bool
is_stale now stale_after_secs r =
    is_claimed r && (elim r.heartbeat_at [ none ↦ true | some t ↦ ltb (t + stale_after_secs) now ])

abbrev pub release : Row → Row
release r = record r { status = queued; claimed_by = none; claimed_at = none; heartbeat_at = none }

unfoldable pub requeue_stale : ℕ → ℕ → Queue → Queue × ℕ
requeue_stale now stale_after_secs q = (
  record q { rows = update_where (is_stale now stale_after_secs) release q.rows },
  count_if (is_stale now stale_after_secs) q.rows,
)

-- How many rows are queued, and how many are claimed.
unfoldable pub depth : Queue → ℕ × ℕ
depth q = (count_if is_queued q.rows, count_if is_claimed q.rows)

unfoldable pub recent : ℕ → Queue → List Row
recent limit q = take limit (reverse q.rows)
