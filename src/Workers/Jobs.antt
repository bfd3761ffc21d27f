-- ===== src/Workers/Jobs.antt =====
-- The busy workers of crates/forge-runtime/src/worker_pool.rs.
use forge_os.Prelude.{
  ℕ, ◌≤◌, ◌<◌, ◌≡◌, refl, sym, subst, Text, text_eq, true, false, Option, some, List, [], ◌∷◌, ◌==◌,
  ==_iff, arith, All, Bool-cases, inl, inr,
}
use forge_os.Workers.{Job, holds, find_job, drop_job}

abbrev pub Distinct : List Job → Type 0
Distinct [] = Unit
Distinct (j ∷ js) = (holds j.queue_id js ≡ false) × Distinct js

pub unheld : (n : ℕ) (jobs : List Job) → All (λ j. j.queue_id < n) jobs → holds n jobs ≡ false
unheld n [] h = refl
unheld n (j ∷ js) h = ground (arith, unheld n js h.1, ==_iff j.queue_id n)

pub known_later :
    (m n : ℕ) (jobs : List Job)
    → m ≤ n
    → All (λ j. j.queue_id < m) jobs
    → All (λ j. j.queue_id < n) jobs
known_later m n [] le h = tt
known_later m n (j ∷ js) le h = (omega (arith, h.0), known_later m n js le h.1)

pub drop_job-holds :
    (worker : Text) (jobs : List Job) (x : ℕ)
    → holds x (drop_job worker jobs) ≡ true
    → holds x jobs ≡ true
drop_job-holds worker [] x h = h
drop_job-holds worker (j ∷ js) x h = ground (arith, drop_job-holds worker js x)

pub drop_job-Distinct :
    (worker : Text) (jobs : List Job) → Distinct jobs → Distinct (drop_job worker jobs)
drop_job-Distinct worker [] d = tt
drop_job-Distinct worker (j ∷ js) d = elim (Bool-cases (text_eq j.worker worker)) [
  | inl hit ↦ rw hit d.1
  | inr miss ↦
      rw miss
        (ground (arith, drop_job-holds worker js j.queue_id, d.0), drop_job-Distinct worker js d.1)
]

pub drop_job-known :
    (worker : Text) (n : ℕ) (jobs : List Job)
    → All (λ j. j.queue_id < n) jobs
    → All (λ j. j.queue_id < n) (drop_job worker jobs)
drop_job-known worker n [] h = tt
drop_job-known worker n (j ∷ js) h = elim (Bool-cases (text_eq j.worker worker)) [
  | inl hit ↦ rw hit h.1
  | inr miss ↦ rw miss (h.0, drop_job-known worker n js h.1)
]

find_job-holds :
    (worker : Text) (id : ℕ) (jobs : List Job)
    → find_job worker jobs ≡ some id
    → holds id jobs ≡ true
find_job-holds worker id [] e = cc
find_job-holds worker id (j ∷ js) e = elim (Bool-cases (text_eq j.worker worker)) [
  | inl hit ↦
      let e' : ◌≡◌ {A = Option ℕ} (some j.queue_id) (some id) = rw hit at e in
      let same : j.queue_id ≡ id = cc in ground (arith, ==_iff j.queue_id id)
  | inr miss ↦
      let e' : find_job worker js ≡ some id = rw miss at e in
      ground (arith, find_job-holds worker id js e')
]

-- The dropped job's row is held no longer.
pub drop_job-free :
    (worker : Text) (id : ℕ) (jobs : List Job)
    → Distinct jobs
    → find_job worker jobs ≡ some id
    → holds id (drop_job worker jobs) ≡ false
drop_job-free worker id [] d e = refl
drop_job-free worker id (j ∷ js) d e = elim (Bool-cases (text_eq j.worker worker)) [
  | inl hit ↦
      let e' : ◌≡◌ {A = Option ℕ} (some j.queue_id) (some id) = rw hit at e in
      let same : j.queue_id ≡ id = cc in rw hit (subst (λ x. holds x js ≡ false) same d.0)
  | inr miss ↦
      let e' : find_job worker js ≡ some id = rw miss at e in
      elim (Bool-cases (j.queue_id == id)) [
        | inl same ↦
            let there : holds j.queue_id js ≡ true =
              subst (λ x. holds x js ≡ true) (sym ((==_iff j.queue_id id).0 same))
                (find_job-holds worker id js e') in
            absurd (ground (arith, there, d.0))
        | inr other ↦ rw miss (rw other (drop_job-free worker id js d.1 e'))
      ]
]
