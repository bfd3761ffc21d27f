-- ===== src/Execution/Schedule/Measure.antt =====
-- The loop of `run_mission` in crates/forge-execution/src/lib.rs ends: each goal that finishes uses
-- up one of its attempts.
use forge_os.Prelude.{
  ℕ, zero, suc, ◌+◌, ◌*◌, ◌≤◌, ◌<◌, ◌≡◌, ◌∙◌, refl, sym, subst, Bool, true, false, ◌||◌, Option,
  none, some, List, [], ◌∷◌, ok, err, ◌==◌, if◌then◌else◌, arith, All, all, any, mem, set_remove,
  ==_iff, Bool-cases, Option-cases, inl, inr, and-eq-true,
}
use forge_os.Domain.Goal.{Goal, ready}
use forge_os.Execution.Schedule.{
  Run, Outcome, Env, launch, launch_pass, settle, settle_at, collect, run_loop, is_completed,
  is_lost, start, is_nil,
}
use forge_os.Execution.Schedule.Sync.{IsSynced, ids, Nodup}
use forge_os.Execution.Schedule.Invariant.{
  Inv, launch_pass-Inv, round-Inv, settle_at-Inv, after, all_active_after, all-mem_self,
}
use forge_os.Execution.Schedule.Loop.{IsStartable, start-Inv}

-- How often a goal may still finish.
abbrev pub attempts_left : Goal → ℕ
attempts_left g = if is_completed g || is_lost g then 0 else suc g.retries_remaining

abbrev pub total : List Goal → ℕ
total [] = 0
total (g ∷ gs) = attempts_left g + total gs

launch-le : (g : Goal) (s : Run) → attempts_left (launch g s).0 ≤ attempts_left g
unfolding launch
launch-le g s = ground arith

launch_pass-le : (gs : List Goal) (s : Run) → total (launch_pass gs s).0 ≤ total gs
unfolding launch_pass
launch_pass-le [] s = omega arith
launch_pass-le (g ∷ gs) s = omega (arith, launch-le g s, launch_pass-le gs (launch g s).1)

settle-lt :
    (r : Outcome) (g : Goal) (s : Run)
    → g.status ≡ ready
    → suc (attempts_left (settle r g s).0) ≤ attempts_left g
unfolding settle
settle-lt (ok _) g s h = ground arith
settle-lt (err e) g s h = ground arith

settle_at-lt :
    (gid : ℕ) (r : Outcome) (gs : List Goal) (s s' : Run)
    → All (IsSynced s) gs
    → mem gid s.active ≡ true
    → mem gid (ids gs) ≡ true
    → suc (total (settle_at gid r gs s').0) ≤ total gs
unfolding settle_at
settle_at-lt gid r [] s s' v a known = cc
settle_at-lt gid r (g ∷ gs) s s' v a known = elim (Bool-cases (g.id == gid)) [
  | inl same ↦
      let e : gid ≡ g.id = sym ((==_iff g.id gid).0 same) in
      let is_ready = v.0.active (subst (λ i. mem i s.active ≡ true) e a) in
      rw (same, settle_at) (omega (arith, settle-lt r g s' is_ready))
  | inr other ↦
      rw (other, settle_at) (omega (arith, settle_at-lt gid r gs s s' v.1 a (rw other at known)))
]

abbrev pub is_some {ℓ} : {A : Type ℓ} → Option A → Bool
is_some none = false
is_some (some _) = true

abbrev pub any_finished : (ℕ → Option Outcome) → List ℕ → Bool
any_finished poll todo = any (λ i. is_some (poll i)) todo

collect-le :
    (poll : ℕ → Option Outcome) (todo : List ℕ) (gs : List Goal) (s : Run)
    → Inv gs s
    → Nodup todo
    → all (λ i. mem i s.active) todo ≡ true
    → total (collect poll todo gs s).0 + (if any_finished poll todo then 1 else 0) ≤ total gs
unfolding collect
collect-le poll [] gs s v n a = omega arith
collect-le poll (gid ∷ todo) gs s v n a =
    let (a0, rest) = and-eq-true (mem gid s.active) (all (λ i. mem i s.active) todo) a in
    elim (Option-cases (poll gid)) [
      | inl waits ↦ rw (waits, collect) (collect-le poll todo gs s v n.1 rest)
      | inr (r, finished) ↦
          rw (finished, collect)
            (ground (
              arith,
              settle_at-lt gid r gs s (record s { active = set_remove gid s.active }) v.synced a0
                  (v.active_known gid a0),
              collect-le poll todo (after gid r gs s).0 (after gid r gs s).1
                  (settle_at-Inv gid r gs s v a0) n.1 (all_active_after gid r gs s todo n.0 rest),
            ))
    ]

scaled-le : (d a b : ℕ) → a ≤ b → a * suc d ≤ b * suc d
scaled-le d zero b le = omega arith
scaled-le d (suc a) zero le = absurd (omega (arith, le))
scaled-le d (suc a) (suc b) le = omega (arith, scaled-le d a b (omega (arith, le)))

-- In the rounds that are run from round `n` on, no more than `d` in a row wait without a goal that
-- has finished, and the first such stretch is no longer than `left`.
abbrev pub IsPrompt : Env → ℕ → ℕ → ℕ → ℕ → List Goal → Run → Type 0
IsPrompt env d left zero n gs s = Unit
IsPrompt env d left (suc fuel) n gs s =
    let (gs1, s1) = launch_pass gs s in
    let (gs2, s2) = collect (env.poll n) s1.active gs1 s1 in
    env.is_cancelled n ≡ false
    → is_nil s1.active ≡ false
    → (any_finished (env.poll n) s1.active ≡ true → IsPrompt env d d fuel (suc n) gs2 s2)
      × (any_finished (env.poll n) s1.active ≡ false
          → (less : ℕ) × (left ≡ suc less) × IsPrompt env d less fuel (suc n) gs2 s2)

abbrev pub Ends : Env → ℕ → ℕ → List Goal → Run → Type 0
Ends env fuel n gs s =
    (gs' : List Goal) × (s' : Run) × (broke : Bool) × (run_loop env fuel n gs s
      ≡ some (gs', s', broke))
    × (((k : ℕ) → env.is_cancelled k ≡ false) → broke ≡ false)

rounds_ahead-Ends :
    (env : Env) (d left fuel n : ℕ) (gs : List Goal) (s : Run)
    → Inv gs s
    → IsPrompt env d left fuel n gs s
    → total gs * suc d + left < fuel
    → Ends env fuel n gs s
unfolding run_loop
rounds_ahead-Ends env d left zero n gs s v prompt lt = absurd (omega arith)
rounds_ahead-Ends env d left (suc fuel) n gs s v prompt lt =
    elim (Bool-cases (env.is_cancelled n)) [
      | inl stop ↦ (gs, s, true, rw (stop, run_loop) refl, λ never. sym stop ∙ never n)
      | inr on ↦ elim (Bool-cases (is_nil (launch_pass gs s).1.active)) [
        | inl idle ↦ (
          (launch_pass gs s).0,
          (launch_pass gs s).1,
          false,
          rw (on, run_loop) (rw idle refl),
          λ never. refl,
        )
        | inr busy ↦
            let (gs1, s1) = launch_pass gs s in
            let v1 = launch_pass-Inv gs s v in
            let (gs2, s2) = collect (env.poll n) s1.active gs1 s1 in
            let less =
              collect-le (env.poll n) s1.active gs1 s1 v1 v1.active_nodup
                (all-mem_self s1.active s1.active (λ i m. m)) in
            let before = scaled-le d (total gs1) (total gs) (launch_pass-le gs s) in
            let go : Ends env fuel (suc n) gs2 s2 =
              elim (Bool-cases (any_finished (env.poll n) s1.active)) [
                | inl found ↦
                    let fewer : suc (total gs2) ≤ total gs1 = omega (arith, rw found at less) in
                    rounds_ahead-Ends env d d fuel (suc n) gs2 s2 (round-Inv (env.poll n) gs s v)
                      ((prompt on busy).0 found)
                      (omega (arith, before, scaled-le d (suc (total gs2)) (total gs1) fewer, lt))
                | inr waits ↦
                    let (rest, e, more) = (prompt on busy).1 waits in
                    let fewer : total gs2 ≤ total gs1 = omega (arith, rw waits at less) in
                    rounds_ahead-Ends env d rest fuel (suc n) gs2 s2 (round-Inv (env.poll n) gs s v)
                      more (omega (arith, before, scaled-le d (total gs2) (total gs1) fewer, lt, e))
              ] in
            let (gs', s', broke, e, free) = go in
            (gs', s', broke, rw (on, run_loop) (rw busy e), free)
      ]
    ]

-- Let no more than d rounds of the loop in a row only sleep, with no running goal that has finished.
-- Then the loop ends on its own, cancelled or not, in at most d rounds and d + 1 more for each
-- attempt that the unfinished goals have left in total, each retry counted, and one round to see
-- that nothing runs; and it has not broken off if it is never cancelled.
pub run_loop-Ends :
    (env : Env) (d fuel : ℕ) (gs : List Goal)
    → IsPrompt env d d fuel 0 gs (start gs)
    → IsStartable gs
    → total gs * suc d + d < fuel
    → Ends env fuel 0 gs (start gs)
run_loop-Ends env d fuel gs prompt v lt =
    rounds_ahead-Ends env d d fuel 0 gs (start gs) (start-Inv gs v) prompt lt
