-- ===== src/Execution/Schedule/Loop.antt =====
-- The loop of `run_mission` in crates/forge-execution/src/lib.rs from start to end.
use forge_os.Prelude.{
  ℕ, zero, suc, ◌≡◌, refl, sym, subst, subst₂, Bool, true, false, Option, some, List, [], ◌∷◌,
  if◌then◌else◌, arith, All, mem, set_insert, mem-set_insert, ==_iff, ==-refl, Bool-cases, inl, inr,
}
use forge_os.Domain.Goal.{Goal}
use forge_os.Execution.Schedule.{
  Run, Outcome, Env, launch_pass, collect, run_loop, is_completed, is_lost, id_set, start, is_nil,
  all_done,
}
use forge_os.Execution.Schedule.Sync.{IsSynced, ids, Nodup}
use forge_os.Execution.Schedule.Invariant.{Inv, launch_pass-Inv, round-Inv}

-- How a run of the loop ends from states that satisfy `P`.
pub data Ended (P : List Goal → Run → Type 0) (gs' : List Goal) (s' : Run) (broke : Bool)
    : Type 0 where
  by_cancel : P gs' s' → broke ≡ true → Ended P gs' s' broke
  at_rest :
      (gs : List Goal) (s : Run)
      → P gs s
      → gs' ≡ (launch_pass gs s).0
      → s' ≡ (launch_pass gs s).1
      → is_nil s'.active ≡ true
      → broke ≡ false
      → Ended P gs' s' broke

abbrev pub round : (ℕ → Option Outcome) → List Goal → Run → List Goal × Run
round poll gs s = let (gs', s') = launch_pass gs s in collect poll s'.active gs' s'

-- One rule for every property of the loop.
pub run_loop_ind :
    (P : List Goal → Run → Type 0) (env : Env)
    → ((poll : ℕ → Option Outcome) (gs : List Goal) (s : Run)
        → P gs s
        → P (round poll gs s).0 (round poll gs s).1)
    → (fuel n : ℕ) (gs : List Goal) (s : Run) (gs' : List Goal) (s' : Run) (broke : Bool) → P gs s
    → run_loop env fuel n gs s ≡ some (gs', s', broke)
    → Ended P gs' s' broke
unfolding run_loop
run_loop_ind P env keep zero n gs s gs' s' broke v e = cc
run_loop_ind P env keep (suc fuel) n gs s gs' s' broke v e =
    elim (Bool-cases (env.is_cancelled n)) [
      | inl stop ↦
          let e' : some (gs, s, true) ≡ some (gs', s', broke) = rw (stop, run_loop) at e in
          by_cancel (subst₂ P (cc e') (cc e') v) (cc e')
      | inr on ↦ elim (Bool-cases (is_nil (launch_pass gs s).1.active)) [
        | inl idle ↦
            let e' : some ((launch_pass gs s).0, (launch_pass gs s).1, false)
                ≡ some (gs', s', broke) =
              rw idle at (rw (on, run_loop) at e) in
            at_rest gs s v (cc e') (cc e')
              (subst (λ t. is_nil t.active ≡ true) (let p : (launch_pass gs s).1 ≡ s' = cc e' in p)
                idle)
              (cc e')
        | inr busy ↦
            run_loop_ind P env keep fuel (suc n) (round (env.poll n) gs s).0
              (round (env.poll n) gs s).1 gs' s' broke (keep (env.poll n) gs s v)
              (rw busy at (rw (on, run_loop) at e))
      ]
    ]

-- The invariant holds however the loop ends.
pub Ended-Inv : {gs : List Goal} {s : Run} {broke : Bool} → Ended Inv gs s broke → Inv gs s
Ended-Inv (by_cancel v _) = v
Ended-Inv (at_rest gs s v eg es _ _) = subst₂ Inv (sym eg) (sym es) (launch_pass-Inv gs s v)

id_set-other :
    (p : Goal → Bool) (i : ℕ) (gs : List Goal)
    → mem i (ids gs) ≡ false
    → mem i (id_set p gs) ≡ false
id_set-other p i [] absent = refl
id_set-other p i (g ∷ gs) absent =
    ground (arith, id_set-other p i gs, mem-set_insert g.id i (id_set p gs))

id_set-mem :
    (p : Goal → Bool) (gs : List Goal) → Nodup (ids gs) → All (λ g. mem g.id (id_set p gs) ≡ p g) gs
id_set-mem p [] n = tt
id_set-mem p (g ∷ gs) n = (
  ground (arith, id_set-other p g.id gs n.0, mem-set_insert g.id g.id (id_set p gs), ==-refl g.id),
  later gs n.0 (id_set-mem p gs n.1),
)
  where
    later :
        (hs : List Goal)
        → mem g.id (ids hs) ≡ false
        → All (λ h. mem h.id (id_set p gs) ≡ p h) hs
        → All (λ h. mem h.id (if p g then set_insert g.id (id_set p gs) else id_set p gs) ≡ p h) hs
    later [] absent v = tt
    later (h ∷ hs) absent v = (
      ground
          (arith, v.0, mem-set_insert g.id h.id (id_set p gs), ==_iff g.id h.id, ==_iff h.id g.id),
      later hs (ground arith) v.1,
    )

-- The goals as the table holds them before a run: unique ids, and no goal completed before its
-- dependencies.
pub record IsStartable (gs : List Goal) : Type 0 where
  pub distinct : Nodup (ids gs)
  pub closed : All (λ g. is_completed g ≡ true → all_done (start gs) g.depends_on ≡ true) gs

pub start-Inv : (gs : List Goal) → IsStartable gs → Inv gs (start gs)
start-Inv gs v = record {
  synced =
      each gs (id_set-mem is_completed gs v.distinct) (id_set-mem is_lost gs v.distinct) v.closed;
  distinct = v.distinct;
  active_nodup = tt;
  active_known = λ i m. cc;
}
  where
    each :
        (hs : List Goal)
        → All (λ h. mem h.id (id_set is_completed gs) ≡ is_completed h) hs
        → All (λ h. mem h.id (id_set is_lost gs) ≡ is_lost h) hs
        → All (λ h. is_completed h ≡ true → all_done (start gs) h.depends_on ≡ true) hs
        → All (IsSynced (start gs)) hs
    each [] d l c = tt
    each (h ∷ hs) d l c = (
      record { done = d.0; lost = l.0; active = λ m. cc; active_deps = λ m. cc; done_deps = c.0 },
      each hs d.1 l.1 c.1,
    )

-- However long the loop runs and whatever the spawned goals return: when it ends, the sets of
-- completed and of lost goals agree with the statuses, and every completed goal, like every goal
-- still running, has all its dependencies completed.
pub run_loop-IsSynced :
    (env : Env) (fuel : ℕ) (gs : List Goal) (gs' : List Goal) (s' : Run) (broke : Bool)
    → IsStartable gs
    → run_loop env fuel 0 gs (start gs) ≡ some (gs', s', broke)
    → All (IsSynced s') gs'
run_loop-IsSynced env fuel gs gs' s' broke v e =
    let ended =
      run_loop_ind Inv env round-Inv fuel 0 gs (start gs) gs' s' broke (start-Inv gs v) e in
    let inv = Ended-Inv ended in inv.synced
