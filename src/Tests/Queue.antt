-- ===== src/Tests/Queue.antt =====
-- Runs of the mission queue of crates/forge-persistence.
use forge_os.Prelude.{
  ◌+◌, ◌≤◌, ◌≡◌, refl, text, true, none, some, List, [], ◌∷◌, ◌⊎◌, All, count_if,
}
use forge_os.Persistence.Queue.{
  Row, Queue, claimed, new_row, is_active_for, begin_enqueue, end_enqueue, select_active,
  insert_queued, claim, claim_next, requeue_stale, depth, is_queued, is_queued_id, is_stale,
  update_where, heartbeat, finish,
}
use forge_os.Persistence.Queue.Invariant.{IsValid, empty-IsValid}
use forge_os.Persistence.Queue.Lone.{
  Op, select_op, insert_op, claim_op, heartbeat_op, finish_op, requeue_op, run, NoOverlap,
  run-IsValid,
}
use forge_os.Persistence.Queue.Claim.{AllSwept, claim_next_fifo, requeue_stale-depth}

abbrev empty : Queue
empty = record { rows = []; next_id = 1 }

-- The two statements of two calls of `enqueue` are mixed.
abbrev script : List Op
script =
    select_op 7
    ∷ select_op 8
    ∷ insert_op 10 7
    ∷ insert_op 11 8
    ∷ select_op 7
    ∷ claim_op (text "w0") 12
    ∷ heartbeat_op 20 1
    ∷ requeue_op 100 30
    ∷ claim_op (text "w1") 101
    ∷ finish_op 130 1 true none
    ∷ []

opened : Unit {0}
unfolding begin_enqueue end_enqueue select_active insert_queued claim_next requeue_stale depth
    heartbeat finish
opened = tt

script-depth : depth (run script empty []).0 ≡ (1, 0)
unfolding opened
script-depth = refl

script-NoOverlap : NoOverlap script empty []
unfolding opened
script-NoOverlap = (refl, (refl, (refl, tt)))

run-IsValid_example : IsValid (run script empty []).0
run-IsValid_example = run-IsValid script empty script-NoOverlap empty-IsValid

-- Two calls for one mission that both look before either inserts: it has two active rows, and two
-- workers claim them.
abbrev race : List Op
race = select_op 7 ∷ select_op 7 ∷ insert_op 10 7 ∷ insert_op 10 7 ∷ []

race_doubles : count_if (is_active_for 7) (run race empty []).0.rows ≡ 2
unfolding opened
race_doubles = refl

claim_next_fifo_example :
    (count_if is_queued empty.rows ≡ 0) × (claim_next (text "w0") 12 empty ≡ (empty, none))
    ⊎ ((r : Row) × (is_queued r ≡ true)
        × All (λ s. is_queued s ≡ true → r.id ≤ s.id) empty.rows
        × (claim_next (text "w0") 12 empty ≡ (
          record empty {
            rows = update_where (is_queued_id r.id) (claim (text "w0") 12) empty.rows;
          },
          some (claim (text "w0") 12 r),
        )))
claim_next_fifo_example = claim_next_fifo (text "w0") 12 empty empty-IsValid

abbrev claimed_long_ago : Queue
claimed_long_ago = (run (select_op 7 ∷ insert_op 10 7 ∷ claim_op (text "w0") 12 ∷ []) empty []).0

-- A claim of this second that has no heartbeat.
abbrev silent_claim : Queue
silent_claim = record {
  rows =
      record (new_row 1 7 99) {
        status = claimed;
        claimed_by = some (text "w0");
        claimed_at = some 100;
      }
      ∷ [];
  next_id = 2;
}

fresh_claim_requeued : depth (requeue_stale 100 30 silent_claim).0 ≡ (1, 0)
unfolding opened
fresh_claim_requeued = refl

requeue_stale-depth_example :
    let (q', n) = requeue_stale 100 30 claimed_long_ago in
    AllSwept 100 30 claimed_long_ago.rows q'.rows
    × ((depth q').0 ≡ (depth claimed_long_ago).0 + n)
    × ((depth q').1 + n ≡ (depth claimed_long_ago).1)
    × (count_if (is_stale 100 30) q'.rows ≡ 0)
requeue_stale-depth_example = requeue_stale-depth 100 30 claimed_long_ago
