-- ===== src/Execution/Schedule/Quiescent.antt =====
-- When the loop of `run_mission` in crates/forge-execution/src/lib.rs comes to rest, and what the
-- mission's status is flipped to.
use forge_os.Prelude.{
  ℕ, ◌≡◌, refl, ◌∙◌, subst, Bool, true, false, not, ◌||◌, List, [], ◌∷◌, ◌==◌, arith, All, all, mem,
  set_insert, ==_iff, ==-refl, Bool-cases, ◌⊎◌, inl, inr, and-eq-true, ok, err, mem-set_insert,
}
use forge_os.Domain.Goal.{Goal, running}
use forge_os.Execution.Schedule.{
  Run, Outcome, launch, launch_pass, settle, is_completed, is_lost, status_eq, is_nil, all_done,
  any_lost,
}
use forge_os.Execution.Schedule.Sync.{IsSynced, ids, Nodup}
use forge_os.Execution.Schedule.Invariant.{active-launch}
use forge_os.Execution.Schedule.Rounds.{All-frame}
use forge_os.Execution.Schedule.Frame.{launch-Touches}

-- Each goal depends only on `seen` and on goals before it.
abbrev pub IsOrdered : List ℕ → List Goal → Type 0
IsOrdered seen [] = Unit
IsOrdered seen (g ∷ gs) = (all (λ d. mem d seen) g.depends_on ≡ true) × IsOrdered (g.id ∷ seen) gs

-- The engine's copy of a goal is never `Running`: only the event log says so.
abbrev pub no_running : List Goal → Bool
no_running gs = all (λ g. not (status_eq g.status running)) gs

abbrev pub is_over : Goal → Bool
is_over g = is_completed g || is_lost g

abbrev Known : Run → List ℕ → Type 0
Known s seen = All (λ d. (mem d s.done || mem d s.lost) ≡ true) seen

Known-dep :
    (s : Run) (seen : List ℕ) (d : ℕ)
    → Known s seen
    → mem d seen ≡ true
    → (mem d s.done || mem d s.lost) ≡ true
Known-dep s [] d k m = cc
Known-dep s (x ∷ seen) d k m = elim (Bool-cases (x == d)) [
  | inl same ↦ subst (λ i. (mem i s.done || mem i s.lost) ≡ true) ((==_iff x d).0 same) k.0
  | inr other ↦ Known-dep s seen d k.1 (rw other at m)
]

-- With all dependencies completed or lost, one is lost unless all are completed.
deps_decided :
    (s : Run) (seen deps : List ℕ)
    → Known s seen
    → all (λ d. mem d seen) deps ≡ true
    → (all_done s deps ≡ true) ⊎ (any_lost s deps ≡ true)
deps_decided s seen [] k a = inl refl
deps_decided s seen (d ∷ deps) k a =
    let (m, rest) = and-eq-true (mem d seen) (all (λ x. mem x seen) deps) a in
    ground (arith, Known-dep s seen d k m, deps_decided s seen deps k rest)

launch_grows :
    (g : Goal) (s : Run) (i : ℕ)
    → (mem i s.done || mem i s.lost) ≡ true
    → (mem i (launch g s).1.done || mem i (launch g s).1.lost) ≡ true
unfolding launch
launch_grows g s i h = ground (arith, mem-set_insert g.id i s.lost)

Known-launch : (g : Goal) (s : Run) (seen : List ℕ) → Known s seen → Known (launch g s).1 seen
Known-launch g s [] k = tt
Known-launch g s (d ∷ seen) k = (launch_grows g s d k.0, Known-launch g s seen k.1)

not_nil_of_mem : (x : ℕ) (xs : List ℕ) → mem x xs ≡ true → is_nil xs ≡ false
not_nil_of_mem x [] m = cc
not_nil_of_mem x (y ∷ ys) m = refl

is_nil-set_insert : (x : ℕ) (xs : List ℕ) → is_nil (set_insert x xs) ≡ false
is_nil-set_insert x xs =
    not_nil_of_mem x (set_insert x xs) (mem-set_insert x x xs ∙ ground (arith, ==-refl x))

is_nil-launch : (g : Goal) (s : Run) → is_nil (launch g s).1.active ≡ true → is_nil s.active ≡ true
is_nil-launch g s h = elim (active-launch g s) [
  | inl same ↦ rw same at h
  | inr more ↦ cc (is_nil-set_insert g.id s.active)
]

is_nil-launch_pass :
    (gs : List Goal) (s : Run) → is_nil (launch_pass gs s).1.active ≡ true → is_nil s.active ≡ true
unfolding launch_pass
is_nil-launch_pass [] s h = h
is_nil-launch_pass (g ∷ gs) s h = is_nil-launch g s (is_nil-launch_pass gs (launch g s).1 h)

-- With nothing launched, a synced goal whose dependencies are decided is over.
launch_over :
    (g : Goal) (s : Run)
    → IsSynced s g
    → status_eq g.status running ≡ false
    → (all_done s g.depends_on ≡ true) ⊎ (any_lost s g.depends_on ≡ true)
    → is_nil (launch g s).1.active ≡ true
    → (is_over (launch g s).0 ≡ true)
      × ((mem g.id (launch g s).1.done || mem g.id (launch g s).1.lost) ≡ true)
unfolding launch
launch_over g s v nr d nil = ground (
  arith,
  v.done,
  v.lost,
  is_nil-set_insert g.id s.active,
  not_nil_of_mem g.id s.active,
  mem-set_insert g.id g.id s.lost,
  ==-refl g.id,
)

pub launch_pass_over :
    (gs : List Goal) (s : Run) (seen : List ℕ)
    → Nodup (ids gs)
    → All (IsSynced s) gs
    → no_running gs ≡ true
    → IsOrdered seen gs
    → Known s seen
    → is_nil (launch_pass gs s).1.active ≡ true
    → All (λ g. is_over g ≡ true) (launch_pass gs s).0
unfolding launch_pass
launch_pass_over [] s seen n v nr o k nil = tt
launch_pass_over (g ∷ gs) s seen n v nr o k nil =
    let (nr0, nrs) = and-eq-true (not (status_eq g.status running)) (no_running gs) nr in
    let nil1 = is_nil-launch_pass gs (launch g s).1 nil in
    let (over, known) =
      launch_over g s v.0 (ground arith) (deps_decided s seen g.depends_on k o.0) nil1 in
    (
      over,
      launch_pass_over gs (launch g s).1 (g.id ∷ seen) n.1
          (All-frame gs (launch-Touches g s) n.0 v.1) nrs o.1 (known, Known-launch g s seen k) nil,
    )

pub launch-not_running :
    (g : Goal) (s : Run)
    → not (status_eq g.status running) ≡ true
    → not (status_eq (launch g s).0.status running) ≡ true
unfolding launch
launch-not_running g s h = ground arith

pub deps-launch : (g : Goal) (s : Run) → (launch g s).0.depends_on ≡ g.depends_on
unfolding launch
deps-launch g s = ground arith

pub settle-not_running :
    (r : Outcome) (g : Goal) (s : Run) → not (status_eq (settle r g s).0.status running) ≡ true
unfolding settle
settle-not_running (ok _) g s = ground arith
settle-not_running (err e) g s = ground arith

pub deps-settle : (r : Outcome) (g : Goal) (s : Run) → (settle r g s).0.depends_on ≡ g.depends_on
unfolding settle
deps-settle (ok _) g s = ground arith
deps-settle (err e) g s = ground arith
