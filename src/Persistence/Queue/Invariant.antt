-- ===== src/Persistence/Queue/Invariant.antt =====
-- The invariant of the mission queue of crates/forge-persistence/src/sqlite.rs, kept by every
-- statement that writes to it, an insertion where the mission has no active row.
use forge_os.Prelude.{
  ℕ, ◌+◌, ◌≤◌, ◌≡◌, refl, Text, Bool, true, false, Option, none, some, List, [], ◌∷◌, ◌++◌, arith,
  ◌==◌, if◌then◌else◌, Bool-cases, Option-cases, inl, inr, All, count_if, ==_iff, ◌&&◌, not,
}
use forge_os.Persistence.Queue.{
  Row, Queue, queued, claimed, done, failed, is_queued, is_claimed, is_active_for, find_first,
  update_where, new_row, insert_queued, claim, claim_next, heartbeat, finish, release,
  requeue_stale, is_queued_id, is_stale,
}
use forge_os.Persistence.Queue.Rows.{
  InRange, InRange-append, InRange-update_where, count_if-update_where-le, All-update_where,
}

abbrev is_some {ℓ} : {A : Type ℓ} → Option A → Bool
is_some none = false
is_some (some _) = true

-- A queued row names no worker, and a claimed row names one and has a heartbeat.
abbrev pub is_consistent : Row → Bool
is_consistent r = elim r.status [
  | queued ↦ not (is_some r.claimed_by) && not (is_some r.heartbeat_at)
  | claimed ↦ is_some r.claimed_by && is_some r.heartbeat_at
  | _ ↦ true
]

pub record IsValid (q : Queue) : Type 0 where
  pub in_range : InRange 1 q.next_id q.rows
  pub one_active : (m : ℕ) → count_if (is_active_for m) q.rows ≤ 1
  pub consistent : All (λ r. is_consistent r ≡ true) q.rows

pub empty-IsValid : IsValid (record { rows = []; next_id = 1 })
empty-IsValid = record { in_range = omega arith; one_active = λ m. omega arith; consistent = tt }

module _ (p : Row → Bool) (f : Row → Row) where
  pub update_where-IsValid :
      (q : Queue)
      → ((r : Row) → p r ≡ true → (f r).id ≡ r.id)
      → ((m : ℕ) (r : Row) → p r ≡ true → is_active_for m (f r) ≡ true → is_active_for m r ≡ true)
      → ((r : Row) → p r ≡ true → is_consistent r ≡ true → is_consistent (f r) ≡ true)
      → IsValid q
      → IsValid (record q { rows = update_where p f q.rows })
  update_where-IsValid q same active keeps v = record {
    in_range = InRange-update_where p f same 1 q.next_id q.rows v.in_range;
    one_active = λ m.
        omega
          (arith, v.one_active m, count_if-update_where-le p f (is_active_for m) (active m) q.rows);
    consistent = All-update_where p f (λ r. is_consistent r ≡ true) keeps q.rows v.consistent;
  }

All-append {ℓ κ} :
    {A : Type ℓ} (P : A → Type κ) (xs : List A) (y : A) → All P xs → P y → All P (xs ++ y ∷ [])
All-append P [] y h k = (k, tt)
All-append P (x ∷ xs) y h k = (h.0, All-append P xs y h.1 k)

pub count_if-snoc :
    (p : Row → Bool) (rs : List Row) (r : Row)
    → count_if p (rs ++ r ∷ []) ≡ count_if p rs + (if p r then 1 else 0)
count_if-snoc p [] r = ground arith
count_if-snoc p (s ∷ rs) r = ground (arith, count_if-snoc p rs r)

pub insert_queued-IsValid :
    (now m : ℕ) (q : Queue)
    → IsValid q
    → count_if (is_active_for m) q.rows ≡ 0
    → IsValid (insert_queued now m q).0
unfolding insert_queued
insert_queued-IsValid now m q v free = record {
  in_range = InRange-append 1 q.next_id q.rows (new_row q.next_id m now) refl v.in_range;
  one_active = λ k. ground (
    arith,
    count_if-snoc (is_active_for k) q.rows (new_row q.next_id m now),
    v.one_active k,
    ==_iff m k,
  );
  consistent =
      All-append (λ r. is_consistent r ≡ true) q.rows (new_row q.next_id m now) v.consistent refl;
}

pub claim_next-IsValid :
    (worker : Text) (now : ℕ) (q : Queue) → IsValid q → IsValid (claim_next worker now q).0
unfolding claim_next
claim_next-IsValid worker now q v = elim (Option-cases (find_first is_queued q.rows)) [
  | inl absent ↦ rw (absent, claim_next) v
  | inr (row, found) ↦
      rw (found, claim_next)
        (elim (Bool-cases (count_if (is_queued_id row.id) q.rows == 0)) [
          | inl lost ↦ rw lost v
          | inr won ↦ rw won (
              update_where-IsValid (is_queued_id row.id) (claim worker now) q (λ r h. refl)
                (λ m r h. ground arith) (λ r h k. refl) v)
        ])
]

pub heartbeat-IsValid : (now id : ℕ) (q : Queue) → IsValid q → IsValid (heartbeat now id q)
unfolding heartbeat
heartbeat-IsValid now id q v =
    update_where-IsValid (λ r. (r.id == id) && is_claimed r)
      (λ r. record r { heartbeat_at = some now }) q (λ r h. refl) (λ m r h k. k)
      (λ r h k. ground arith) v

pub finish-IsValid :
    (now id : ℕ) (success : Bool) (error : Option Text) (q : Queue)
    → IsValid q
    → IsValid (finish now id success error q)
unfolding finish
finish-IsValid now id success error q v =
    update_where-IsValid (λ r. r.id == id)
      (λ r. record r {
        status = if success then done else failed;
        finished_at = some now;
        error = error;
      })
      q (λ r h. refl) (λ m r h k. ground arith) (λ r h k. ground arith) v

pub requeue_stale-IsValid :
    (now secs : ℕ) (q : Queue) → IsValid q → IsValid (requeue_stale now secs q).0
unfolding requeue_stale
requeue_stale-IsValid now secs q v =
    update_where-IsValid (is_stale now secs) release q (λ r h. refl) (λ m r h k. ground arith)
      (λ r h k. refl) v
