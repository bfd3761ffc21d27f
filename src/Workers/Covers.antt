-- ===== src/Workers/Covers.antt =====
-- The rows that the workers of crates/forge-runtime/src/worker_pool.rs hold.
use forge_os.Prelude.{
  ℕ, suc, ◌≤◌, ◌<◌, ◌≡◌, refl, sym, ap, ◌∙◌, subst, Text, Bool, true, false, not, ◌&&◌, ◌||◌,
  Option, some, List, [], ◌∷◌, ◌==◌, ==_iff, if◌then◌else◌, arith, All, count_if, Bool-cases, inl,
  inr,
}
use forge_os.Persistence.Queue.{
  Queue, Row, is_queued, is_claimed, is_active_for, find_first, update_where, claim, heartbeat,
  finish, is_queued_id, is_stale, release,
}
use forge_os.Persistence.Queue.Rows.{InRange, InRange-le, All-update_where}
use forge_os.Persistence.Queue.Claim.{find_first-ge}
use forge_os.Workers.{Job, holds}

-- A row that a worker holds is claimed.
abbrev pub covers : List Job → Row → Bool
covers jobs r = not (holds r.id jobs) || is_claimed r

-- Every held row stays covered where jobs are dropped.
pub covers-fewer :
    (jobs fewer : List Job) (rs : List Row)
    → ((x : ℕ) → holds x fewer ≡ true → holds x jobs ≡ true)
    → All (λ r. covers jobs r ≡ true) rs
    → All (λ r. covers fewer r ≡ true) rs
covers-fewer jobs fewer [] sub h = tt
covers-fewer jobs fewer (r ∷ rs) sub h =
    (ground (arith, sub r.id, h.0), covers-fewer jobs fewer rs sub h.1)

-- A row with another id stays as it is.
covers-far :
    (worker : Text) (now : ℕ) (jobs : List Job) (j : Job) (r : Row)
    → (r.id == j.queue_id) ≡ false
    → covers jobs r ≡ true
    → covers (j ∷ jobs) (if is_queued_id j.queue_id r then claim worker now r else r) ≡ true
covers-far worker now jobs j r far h =
    let same : (if is_queued_id j.queue_id r then claim worker now r else r) ≡ r = rw far refl in
    let far' : (j.queue_id == r.id) ≡ false = ground (arith, far) in
    subst (λ v. covers (j ∷ jobs) v ≡ true) (sym same) (rw far' h)

covers-above :
    (worker : Text) (now lo hi : ℕ) (jobs : List Job) (j : Job) (rs : List Row)
    → InRange lo hi rs
    → j.queue_id < lo
    → All (λ r. covers jobs r ≡ true) rs
    → All
        (λ r. covers (j ∷ jobs) r ≡ true)
        (update_where (is_queued_id j.queue_id) (claim worker now) rs)
covers-above worker now lo hi jobs j [] range lt h = tt
covers-above worker now lo hi jobs j (r ∷ rs) range lt h =
    let far : (r.id == j.queue_id) ≡ false = ground (arith, range.0) in
    (
      covers-far worker now jobs j r far h.0,
      covers-above worker now (suc r.id) hi jobs j rs range.1 (omega (arith, range.0)) h.1,
    )

-- The oldest queued row, claimed and held.
pub covers-claim :
    (worker : Text) (now lo hi : ℕ) (jobs : List Job) (j : Job) (rs : List Row) (r : Row)
    → InRange lo hi rs
    → find_first is_queued rs ≡ some r
    → j.queue_id ≡ r.id
    → All (λ s. covers jobs s ≡ true) rs
    → All
        (λ s. covers (j ∷ jobs) s ≡ true)
        (update_where (is_queued_id j.queue_id) (claim worker now) rs)
covers-claim worker now lo hi jobs j [] r range e same h = tt
covers-claim worker now lo hi jobs j (s ∷ rs) r range e same h = elim (Bool-cases (is_queued s)) [
  | inl hit ↦
      let head : s ≡ r = ground (arith, e) in
      let here : s.id ≡ j.queue_id = ap (λ x. x.id) head ∙ sym same in
      let taken : (if is_queued_id j.queue_id s then claim worker now s else s)
          ≡ claim worker now s =
        rw ((==_iff s.id j.queue_id).1 here) (rw hit refl) in
      (
        subst (λ v. covers (j ∷ jobs) v ≡ true) (sym taken) (ground arith),
        covers-above worker now (suc s.id) hi jobs j rs range.1 (omega (arith, here)) h.1,
      )
  | inr miss ↦
      let later : find_first is_queued rs ≡ some r = ground arith in
      let ge = find_first-ge is_queued (suc s.id) hi rs r range.1 later in
      let far : (s.id == j.queue_id) ≡ false = ground (arith, ge, same) in
      (
        covers-far worker now jobs j s far h.0,
        covers-claim worker now (suc s.id) hi jobs j rs r range.1 later same h.1,
      )
]

pub heartbeat-covers :
    (now id : ℕ) (jobs : List Job) (q : Queue)
    → All (λ r. covers jobs r ≡ true) q.rows
    → All (λ r. covers jobs r ≡ true) (heartbeat now id q).rows
unfolding heartbeat
heartbeat-covers now id jobs q h =
    All-update_where (λ r. (r.id == id) && is_claimed r) (λ r. record r { heartbeat_at = some now })
      (λ r. covers jobs r ≡ true) (λ r hit c. c) q.rows h

pub finish-covers :
    (now id : ℕ) (success : Bool) (error : Option Text) (jobs : List Job) (q : Queue)
    → holds id jobs ≡ false
    → All (λ r. covers jobs r ≡ true) q.rows
    → All (λ r. covers jobs r ≡ true) (finish now id success error q).rows
unfolding finish
finish-covers now id success error jobs q free h =
    All-update_where (λ r. r.id == id) _ (λ r. covers jobs r ≡ true)
      (λ r hit c. rw (subst (λ x. holds x jobs ≡ false) (sym ((==_iff r.id id).0 hit)) free) refl)
      q.rows h

pub requeue_stale-covers :
    (now secs : ℕ) (jobs : List Job) (rs : List Row)
    → All (λ r. (holds r.id jobs && is_stale now secs r) ≡ false) rs
    → All (λ r. covers jobs r ≡ true) rs
    → All (λ r. covers jobs r ≡ true) (update_where (is_stale now secs) release rs)
requeue_stale-covers now secs jobs [] t h = tt
requeue_stale-covers now secs jobs (r ∷ rs) t h = elim (Bool-cases (is_stale now secs r)) [
  | inl old ↦
      let free : holds r.id jobs ≡ false = ground (arith, rw old at t.0) in
      rw old (rw free refl, requeue_stale-covers now secs jobs rs t.1 h.1)
  | inr fresh ↦ rw fresh (h.0, requeue_stale-covers now secs jobs rs t.1 h.1)
]

pub find_first-lt :
    (lo hi : ℕ) (rs : List Row) (r : Row)
    → InRange lo hi rs
    → find_first is_queued rs ≡ some r
    → r.id < hi
find_first-lt lo hi [] r h e = cc
find_first-lt lo hi (s ∷ rs) r h e = elim (Bool-cases (is_queued s)) [
  | inl hit ↦
      let same : s.id ≡ r.id = ground arith in omega (arith, InRange-le (suc s.id) hi rs h.1)
  | inr miss ↦ find_first-lt (suc s.id) hi rs r h.1 (ground arith)
]

pub queued-unheld :
    (jobs : List Job) (rs : List Row) (r : Row)
    → find_first is_queued rs ≡ some r
    → All (λ s. covers jobs s ≡ true) rs
    → holds r.id jobs ≡ false
queued-unheld jobs [] r e h = cc
queued-unheld jobs (s ∷ rs) r e h = elim (Bool-cases (is_queued s)) [
  | inl hit ↦
      let head : s ≡ r = ground (arith, e) in
      subst (λ x. holds x.id jobs ≡ false) head (ground (arith, h.0, hit))
  | inr miss ↦ queued-unheld jobs rs r (ground arith) h.1
]

pub all_covered : (rs : List Row) → All (λ r. covers [] r ≡ true) rs
all_covered [] = tt
all_covered (r ∷ rs) = (refl, all_covered rs)

pub held_rows-le :
    (m : ℕ) (jobs : List Job) (rs : List Row)
    → All (λ r. covers jobs r ≡ true) rs
    → count_if (λ r. (r.mission_id == m) && holds r.id jobs) rs ≤ count_if (is_active_for m) rs
held_rows-le m jobs [] h = omega arith
held_rows-le m jobs (r ∷ rs) h = ground (arith, held_rows-le m jobs rs h.1, h.0)
