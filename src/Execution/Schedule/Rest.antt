-- ===== src/Execution/Schedule/Rest.antt =====
-- The end of `run_mission` in crates/forge-execution/src/lib.rs: which goals are left, and which
-- status the mission gets.
use forge_os.Execution.Schedule.Measure.{IsPrompt, total, run_loop-Ends}
use forge_os.Prelude.{
  ◌+◌, ◌*◌, suc, ◌<◌, ℕ, ◌≡◌, refl, sym, subst, Bool, true, false, not, Option, some, List, [], ◌∷◌,
  ◌==◌, arith, All, all, mem, set_remove, Bool-cases, Option-cases, inl, inr, and-eq-true,
}
use forge_os.Domain.Goal.{Goal, running}
use forge_os.Execution.Schedule.{
  Run, Outcome, Env, launch, launch_pass, settle, settle_at, collect, run_loop, status_eq, start,
  is_nil,
}
use forge_os.Execution.Schedule.Rounds.{id-launch, id-settle}
use forge_os.Execution.Schedule.Invariant.{Inv, round-Inv}
use forge_os.Execution.Schedule.Loop.{
  IsStartable, start-Inv, Ended, by_cancel, at_rest, run_loop_ind, round,
}
use forge_os.Execution.Schedule.Quiescent.{
  IsOrdered, no_running, is_over, launch_pass_over, launch-not_running, deps-launch,
  settle-not_running, deps-settle,
}

-- The goals are in dependency order after `seen`, and none has the status `Running`.
abbrev pub IsPlanned : List ℕ → List Goal → Type 0
IsPlanned seen gs = (no_running gs ≡ true) × IsOrdered seen gs

IsPlanned-cons :
    (seen : List ℕ) (g h : Goal) (gs hs : List Goal)
    → h.id ≡ g.id
    → h.depends_on ≡ g.depends_on
    → not (status_eq h.status running) ≡ true
    → IsPlanned seen (g ∷ gs)
    → (IsPlanned (g.id ∷ seen) gs → IsPlanned (g.id ∷ seen) hs)
    → IsPlanned seen (h ∷ hs)
IsPlanned-cons seen g h gs hs same_id same_deps calm p keep =
    let (nr0, nrs) = and-eq-true (not (status_eq g.status running)) (no_running gs) p.0 in
    let p' = keep (nrs, p.1.1) in
    (
      ground (arith, p'.0),
      (
        subst (λ deps. all (λ d. mem d seen) deps ≡ true) (sym same_deps) p.1.0,
        subst (λ i. IsOrdered (i ∷ seen) hs) (sym same_id) p'.1,
      ),
    )

launch_pass-IsPlanned :
    (seen : List ℕ) (gs : List Goal) (s : Run)
    → IsPlanned seen gs
    → IsPlanned seen (launch_pass gs s).0
unfolding launch_pass
launch_pass-IsPlanned seen [] s p = p
launch_pass-IsPlanned seen (g ∷ gs) s p =
    let (nr0, nrs) = and-eq-true (not (status_eq g.status running)) (no_running gs) p.0 in
    IsPlanned-cons seen g (launch g s).0 gs (launch_pass gs (launch g s).1).0 (id-launch g s)
      (deps-launch g s) (launch-not_running g s nr0) p
      (launch_pass-IsPlanned (g.id ∷ seen) gs (launch g s).1)

settle_at-IsPlanned :
    (seen : List ℕ) (gid : ℕ) (r : Outcome) (gs : List Goal) (s : Run)
    → IsPlanned seen gs
    → IsPlanned seen (settle_at gid r gs s).0
unfolding settle_at
settle_at-IsPlanned seen gid r [] s p = p
settle_at-IsPlanned seen gid r (g ∷ gs) s p =
    let (nr0, nrs) = and-eq-true (not (status_eq g.status running)) (no_running gs) p.0 in
    elim (Bool-cases (g.id == gid)) [
      | inl same ↦
          rw (same, settle_at)
            (IsPlanned-cons seen g (settle r g s).0 gs gs (id-settle r g s) (deps-settle r g s)
              (settle-not_running r g s) p (λ q. q))
      | inr other ↦
          rw (other, settle_at)
            (IsPlanned-cons seen g g gs (settle_at gid r gs s).0 refl refl nr0 p
              (settle_at-IsPlanned (g.id ∷ seen) gid r gs s))
    ]

collect-IsPlanned :
    (seen : List ℕ) (poll : ℕ → Option Outcome) (todo : List ℕ) (gs : List Goal) (s : Run)
    → IsPlanned seen gs
    → IsPlanned seen (collect poll todo gs s).0
unfolding collect
collect-IsPlanned seen poll [] gs s p = p
collect-IsPlanned seen poll (gid ∷ todo) gs s p = elim (Option-cases (poll gid)) [
  | inl waits ↦ rw (waits, collect) (collect-IsPlanned seen poll todo gs s p)
  | inr (r, finished) ↦
      let released = record s { active = set_remove gid s.active } in
      rw (finished, collect)
        (collect-IsPlanned seen poll todo (settle_at gid r gs released).0
          (settle_at gid r gs released).1 (settle_at-IsPlanned seen gid r gs released p))
]

abbrev Tidy : List Goal → Run → Type 0
Tidy gs s = Inv gs s × IsPlanned [] gs

round-Tidy :
    (poll : ℕ → Option Outcome) (gs : List Goal) (s : Run)
    → Tidy gs s
    → Tidy (round poll gs s).0 (round poll gs s).1
round-Tidy poll gs s (v, p) = (
  round-Inv poll gs s v,
  collect-IsPlanned [] poll (launch_pass gs s).1.active (launch_pass gs s).0 (launch_pass gs s).1
      (launch_pass-IsPlanned [] gs s p),
)

Ended-over :
    {gs : List Goal} {s : Run} {broke : Bool}
    → Ended Tidy gs s broke
    → broke ≡ false
    → All (λ g. is_over g ≡ true) gs
Ended-over (by_cancel v b) e = cc
Ended-over (at_rest gs s (v, p) eg es nil b) e = subst (All (λ g. is_over g ≡ true)) (sym eg) (
    launch_pass_over gs s [] v.distinct v.synced p.0 p.1 tt
      (subst (λ t. is_nil t.active ≡ true) es nil))

run_loop_over :
    (env : Env) (fuel : ℕ) (gs : List Goal) (gs' : List Goal) (s' : Run)
    → IsStartable gs
    → IsPlanned [] gs
    → run_loop env fuel 0 gs (start gs) ≡ some (gs', s', false)
    → All (λ g. is_over g ≡ true) gs'
run_loop_over env fuel gs gs' s' v p e =
    Ended-over
      (run_loop_ind Tidy env round-Tidy fuel 0 gs (start gs) gs' s' false (start-Inv gs v, p) e)
      refl

-- Let the goals be listed in dependency order, the loop never be cancelled, and no more than d
-- rounds in a row only sleep. Then, with a round for each of at most d sleeps before every finish of
-- a goal, the loop comes to rest by itself, and every goal is completed, failed or skipped.
pub run_loop_rests :
    (env : Env) (d fuel : ℕ) (gs : List Goal)
    → IsPrompt env d d fuel 0 gs (start gs)
    → IsStartable gs
    → IsPlanned [] gs
    → ((k : ℕ) → env.is_cancelled k ≡ false)
    → total gs * suc d + d < fuel
    → (gs' : List Goal) × (s' : Run) × (run_loop env fuel 0 gs (start gs) ≡ some (gs', s', false))
      × All (λ g. is_over g ≡ true) gs'
run_loop_rests env d fuel gs prompt v p never lt =
    let (gs', s', broke, e, free) = run_loop-Ends env d fuel gs prompt v lt in
    let done : run_loop env fuel 0 gs (start gs) ≡ some (gs', s', false) =
      subst (λ b. run_loop env fuel 0 gs (start gs) ≡ some (gs', s', b)) (free never) e in
    (gs', s', done, run_loop_over env fuel gs gs' s' v p done)
