-- ===== src/Persistence/Queue/Lone.antt =====
-- The statements of the mission queue of crates/forge-persistence/src/sqlite.rs in any order, with
-- the two of `enqueue` apart.
use forge_os.Prelude.{
  ℕ, suc, ◌+◌, ◌≤◌, ◌≡◌, refl, subst, Text, Bool, true, false, Option, some, List, [], ◌∷◌, arith,
  ◌==◌, ==_iff, if◌then◌else◌, Bool-cases, Option-cases, inl, inr, count_if, mem, ◌&&◌,
}
use forge_os.Persistence.Queue.{
  Queue, done, failed, is_queued, is_claimed, is_active_for, find_first, new_row, select_active,
  insert_queued, begin_enqueue, end_enqueue, drop_one, claim, claim_next, heartbeat, finish,
  release, requeue_stale, is_queued_id, is_stale,
}
use forge_os.Persistence.Queue.Rows.{find_first-eq-none, count_if-update_where-le}
use forge_os.Persistence.Queue.Invariant.{
  IsValid, insert_queued-IsValid, count_if-snoc, claim_next-IsValid, heartbeat-IsValid,
  finish-IsValid, requeue_stale-IsValid,
}

-- How many calls of `enqueue` are about to insert a row of a mission.
abbrev pub waits : ℕ → List ℕ → ℕ
waits m = count_if (λ x. x == m)

-- The table is valid, and each mission has one row that is active or about to be inserted, or none.
pub record IsGuarded (waiting : List ℕ) (q : Queue) : Type 0 where
  pub valid : IsValid q
  pub room : (m : ℕ) → count_if (is_active_for m) q.rows + waits m waiting ≤ 1

waits-zero : (m : ℕ) (xs : List ℕ) → mem m xs ≡ false → waits m xs ≡ 0
waits-zero m [] h = refl
waits-zero m (x ∷ xs) h = ground (arith, waits-zero m xs)

waits-drop_one :
    (m k : ℕ) (xs : List ℕ)
    → mem m xs ≡ true
    → waits k (drop_one m xs) + (if m == k then 1 else 0) ≡ waits k xs
waits-drop_one m k [] h = absurd (ground (arith, h))
waits-drop_one m k (x ∷ xs) h = elim (Bool-cases (x == m)) [
  | inl e ↦ let same = (==_iff x m).0 e in ground (arith, e, same)
  | inr n ↦
      let h' : mem m xs ≡ true = rw n at h in
      let ih = waits-drop_one m k xs h' in ground (arith, n, ih)
]

-- A statement that makes no row active.
kept :
    (waiting : List ℕ) (q q' : Queue)
    → IsValid q'
    → ((m : ℕ) → count_if (is_active_for m) q'.rows ≤ count_if (is_active_for m) q.rows)
    → IsGuarded waiting q
    → IsGuarded waiting q'
kept waiting q q' v le g = record { valid = v; room = λ m. omega (arith, le m, g.room m) }

pub begin_enqueue-IsGuarded :
    (m : ℕ) (q : Queue) (waiting : List ℕ)
    → mem m waiting ≡ false
    → IsGuarded waiting q
    → IsGuarded (begin_enqueue m q waiting) q
unfolding begin_enqueue select_active
begin_enqueue-IsGuarded m q waiting free g =
    elim (Option-cases (find_first (is_active_for m) q.rows)) [
      | inr (row, found) ↦ rw (found, begin_enqueue) g
      | inl absent ↦
          rw (absent, begin_enqueue)
            (record {
              valid = g.valid;
              room = λ k. elim (Bool-cases (m == k)) [
                | inl e ↦
                    let same = (==_iff m k).0 e in
                    let none_active = find_first-eq-none (is_active_for m) q.rows absent in
                    let none_waits = waits-zero m waiting free in
                    rw e (
                      subst (λ j. count_if (is_active_for j) q.rows + suc (waits j waiting) ≤ 1)
                        same (omega (arith, none_active, none_waits)))
                | inr n ↦ rw n (g.room k)
              ];
            })
    ]

pub end_enqueue-IsGuarded :
    (now m : ℕ) (q : Queue) (waiting : List ℕ)
    → IsGuarded waiting q
    → let (q', waiting') = end_enqueue now m q waiting in IsGuarded waiting' q'
unfolding end_enqueue insert_queued
end_enqueue-IsGuarded now m q waiting g = elim (Bool-cases (mem m waiting)) [
  | inr out ↦ rw (out, end_enqueue) g
  | inl there ↦
      let free : count_if (is_active_for m) q.rows ≡ 0 =
        let w = waits-drop_one m m waiting there in
        ground (arith, w, g.room m, (==_iff m m).1 refl) in
      rw (there, end_enqueue)
        (record {
          valid = insert_queued-IsValid now m q g.valid free;
          room = λ k. ground (
            arith,
            count_if-snoc (is_active_for k) q.rows (new_row q.next_id m now),
            waits-drop_one m k waiting there,
            g.room k,
          );
        })
]

pub claim_next-IsGuarded :
    (worker : Text) (now : ℕ) (waiting : List ℕ) (q : Queue)
    → IsGuarded waiting q
    → IsGuarded waiting (claim_next worker now q).0
unfolding claim_next
claim_next-IsGuarded worker now waiting q g =
    kept waiting q _ (claim_next-IsValid worker now q g.valid)
      (λ m. elim (Option-cases (find_first is_queued q.rows)) [
        | inl absent ↦ rw (absent, claim_next) (omega arith)
        | inr (row, found) ↦
            rw (found, claim_next)
              (elim (Bool-cases (count_if (is_queued_id row.id) q.rows == 0)) [
                | inl lost ↦ rw lost (omega arith)
                | inr won ↦ rw won (
                    count_if-update_where-le (is_queued_id row.id) (claim worker now)
                      (is_active_for m) (λ r h. ground arith) q.rows)
              ])
      ])
      g

pub heartbeat-IsGuarded :
    (now id : ℕ) (waiting : List ℕ) (q : Queue)
    → IsGuarded waiting q
    → IsGuarded waiting (heartbeat now id q)
unfolding heartbeat
heartbeat-IsGuarded now id waiting q g =
    kept waiting q _ (heartbeat-IsValid now id q g.valid)
      (λ m.
        count_if-update_where-le (λ r. (r.id == id) && is_claimed r)
          (λ r. record r { heartbeat_at = some now }) (is_active_for m) (λ r h k. k) q.rows)
      g

pub finish-IsGuarded :
    (now id : ℕ) (success : Bool) (error : Option Text) (waiting : List ℕ) (q : Queue)
    → IsGuarded waiting q
    → IsGuarded waiting (finish now id success error q)
unfolding finish
finish-IsGuarded now id success error waiting q g =
    kept waiting q _ (finish-IsValid now id success error q g.valid)
      (λ m.
        count_if-update_where-le (λ r. r.id == id)
          (λ r. record r {
            status = if success then done else failed;
            finished_at = some now;
            error = error;
          })
          (is_active_for m) (λ r h. ground arith) q.rows)
      g

pub requeue_stale-IsGuarded :
    (now secs : ℕ) (waiting : List ℕ) (q : Queue)
    → IsGuarded waiting q
    → IsGuarded waiting (requeue_stale now secs q).0
unfolding requeue_stale
requeue_stale-IsGuarded now secs waiting q g =
    kept waiting q _ (requeue_stale-IsValid now secs q g.valid)
      (λ m.
        count_if-update_where-le (is_stale now secs) release (is_active_for m) (λ r h. ground arith)
          q.rows)
      g

-- What any process does to the table.
pub data Op : Type 0 where
  select_op : (mission_id : ℕ) → Op
  insert_op : (now mission_id : ℕ) → Op
  claim_op : (worker : Text) (now : ℕ) → Op
  heartbeat_op : (now id : ℕ) → Op
  finish_op : (now id : ℕ) (success : Bool) (error : Option Text) → Op
  requeue_op : (now stale_after_secs : ℕ) → Op

abbrev pub run : List Op → Queue → List ℕ → Queue × List ℕ
run [] q ws = (q, ws)
run (select_op m ∷ ops) q ws = run ops q (begin_enqueue m q ws)
run (insert_op now m ∷ ops) q ws = let (q', ws') = end_enqueue now m q ws in run ops q' ws'
run (claim_op worker now ∷ ops) q ws = run ops (claim_next worker now q).0 ws
run (heartbeat_op now id ∷ ops) q ws = run ops (heartbeat now id q) ws
run (finish_op now id success error ∷ ops) q ws = run ops (finish now id success error q) ws
run (requeue_op now secs ∷ ops) q ws = run ops (requeue_stale now secs q).0 ws

-- No call of `enqueue` looks for a row while another call for the same mission is between its two
-- statements.
abbrev pub NoOverlap : List Op → Queue → List ℕ → Type 0
NoOverlap [] q ws = Unit
NoOverlap (select_op m ∷ ops) q ws = (mem m ws ≡ false) × NoOverlap ops q (begin_enqueue m q ws)
NoOverlap (insert_op now m ∷ ops) q ws =
    let (q', ws') = end_enqueue now m q ws in NoOverlap ops q' ws'
NoOverlap (claim_op worker now ∷ ops) q ws = NoOverlap ops (claim_next worker now q).0 ws
NoOverlap (heartbeat_op now id ∷ ops) q ws = NoOverlap ops (heartbeat now id q) ws
NoOverlap (finish_op now id success error ∷ ops) q ws =
    NoOverlap ops (finish now id success error q) ws
NoOverlap (requeue_op now secs ∷ ops) q ws = NoOverlap ops (requeue_stale now secs q).0 ws

run-IsGuarded :
    (ops : List Op) (q : Queue) (ws : List ℕ)
    → NoOverlap ops q ws
    → IsGuarded ws q
    → let (q', ws') = run ops q ws in IsGuarded ws' q'
run-IsGuarded [] q ws lone g = g
run-IsGuarded (select_op m ∷ ops) q ws lone g =
    run-IsGuarded ops q _ lone.1 (begin_enqueue-IsGuarded m q ws lone.0 g)
run-IsGuarded (insert_op now m ∷ ops) q ws lone g =
    run-IsGuarded ops _ _ lone (end_enqueue-IsGuarded now m q ws g)
run-IsGuarded (claim_op worker now ∷ ops) q ws lone g =
    run-IsGuarded ops _ ws lone (claim_next-IsGuarded worker now ws q g)
run-IsGuarded (heartbeat_op now id ∷ ops) q ws lone g =
    run-IsGuarded ops _ ws lone (heartbeat-IsGuarded now id ws q g)
run-IsGuarded (finish_op now id success error ∷ ops) q ws lone g =
    run-IsGuarded ops _ ws lone (finish-IsGuarded now id success error ws q g)
run-IsGuarded (requeue_op now secs ∷ ops) q ws lone g =
    run-IsGuarded ops _ ws lone (requeue_stale-IsGuarded now secs ws q g)

-- From a valid table, with no call of `enqueue` under way, let statements run in any order, those of
-- several calls mixed, except that no `enqueue` looks for a row of its mission while another one for
-- the same mission has looked and not inserted yet. Then, in the end: ids ascend below the next id,
-- each mission has at most one queued or claimed row, a queued row names no worker, and a claimed
-- row names one and has a heartbeat.
pub run-IsValid :
    (ops : List Op) (q : Queue) → NoOverlap ops q [] → IsValid q → IsValid (run ops q []).0
run-IsValid ops q lone v =
    let g : IsGuarded [] q = record { valid = v; room = λ m. omega (arith, v.one_active m) } in
    (run-IsGuarded ops q [] lone g).valid
