-- ===== src/Execution/Schedule/Invariant.antt =====
-- The loop invariant of `run_mission` in crates/forge-execution/src/lib.rs, over whole runs.
use forge_os.Prelude.{
  ℕ, ◌≡◌, refl, sym, ◌∙◌, ap, subst, true, false, ◌||◌, Option, List, [], ◌∷◌, ok, err, ◌==◌,
  if◌then◌else◌, arith, All, all, mem, set_insert, set_remove, mem-set_insert, mem-set_remove,
  ==_iff, ==-refl, Bool-cases, Option-cases, ◌⊎◌, inl, inr, and-eq-true,
}
use forge_os.Domain.Goal.{Goal}
use forge_os.Execution.Schedule.{Run, Outcome, launch, launch_pass, settle, settle_at, collect}
use forge_os.Execution.Schedule.Sync.{IsSynced, ids, Nodup}
use forge_os.Execution.Schedule.Rounds.{
  Nodup-set_insert, Nodup-set_remove, ids-launch_pass, ids-settle_at, launch_pass-IsSynced,
  settle_at-IsSynced,
}

pub record Inv (gs : List Goal) (s : Run) : Type 0 where
  pub synced : All (IsSynced s) gs
  pub distinct : Nodup (ids gs)
  pub active_nodup : Nodup s.active
  pub active_known : (i : ℕ) → mem i s.active ≡ true → mem i (ids gs) ≡ true

pub active-launch :
    (g : Goal) (s : Run)
    → ((launch g s).1.active ≡ s.active) ⊎ ((launch g s).1.active ≡ set_insert g.id s.active)
unfolding launch
active-launch g s = ground arith

launch_active-Nodup : (g : Goal) (s : Run) → Nodup s.active → Nodup (launch g s).1.active
launch_active-Nodup g s n = elim (active-launch g s) [
  | inl same ↦ subst Nodup (sym same) n
  | inr more ↦ subst Nodup (sym more) (Nodup-set_insert g.id s.active n)
]

pub launch_pass-Nodup :
    (gs : List Goal) (s : Run) → Nodup s.active → Nodup (launch_pass gs s).1.active
unfolding launch_pass
launch_pass-Nodup [] s n = n
launch_pass-Nodup (g ∷ gs) s n = launch_pass-Nodup gs (launch g s).1 (launch_active-Nodup g s n)

launch_active :
    (g : Goal) (s : Run) (i : ℕ)
    → mem i (launch g s).1.active ≡ true
    → (g.id == i || mem i s.active) ≡ true
launch_active g s i m = elim (active-launch g s) [
  | inl same ↦ let m' : mem i s.active ≡ true = rw same at m in ground arith
  | inr more ↦
      let m' : mem i (set_insert g.id s.active) ≡ true = rw more at m in
      ground (arith, mem-set_insert g.id i s.active)
]

launch_pass_active :
    (gs : List Goal) (s : Run) (i : ℕ)
    → mem i (launch_pass gs s).1.active ≡ true
    → (mem i (ids gs) || mem i s.active) ≡ true
unfolding launch_pass
launch_pass_active [] s i m = m
launch_pass_active (g ∷ gs) s i m =
    ground (arith, launch_active g s i, launch_pass_active gs (launch g s).1 i m)

pub launch_pass-Inv :
    (gs : List Goal) (s : Run) → Inv gs s → Inv (launch_pass gs s).0 (launch_pass gs s).1
launch_pass-Inv gs s v = record {
  synced = launch_pass-IsSynced gs s v.distinct v.synced;
  distinct = subst Nodup (sym (ids-launch_pass gs s)) v.distinct;
  active_nodup = launch_pass-Nodup gs s v.active_nodup;
  active_known = λ i m.
      rw (ids-launch_pass gs s) (ground (arith, launch_pass_active gs s i m, v.active_known i));
}

active-settle : (r : Outcome) (g : Goal) (s : Run) → (settle r g s).1.active ≡ s.active
unfolding settle
active-settle (ok _) g s = ground arith
active-settle (err e) g s = ground arith

pub active-settle_at :
    (gid : ℕ) (r : Outcome) (gs : List Goal) (s : Run) → (settle_at gid r gs s).1.active ≡ s.active
unfolding settle_at
active-settle_at gid r [] s = refl
active-settle_at gid r (g ∷ gs) s = elim (Bool-cases (g.id == gid)) [
  | inl same ↦ rw (same, settle_at) (active-settle r g s)
  | inr other ↦ rw (other, settle_at) (active-settle_at gid r gs s)
]

module _ (gid : ℕ) (r : Outcome) (gs : List Goal) (s : Run) where
  abbrev pub after : List Goal × Run
  after = settle_at gid r gs (record s { active = set_remove gid s.active })

  pub mem-active_after :
      (i : ℕ) → mem i after.1.active ≡ (if gid == i then false else mem i s.active)
  mem-active_after i =
      ap (mem i) (active-settle_at gid r gs (record s { active = set_remove gid s.active }))
      ∙ mem-set_remove gid i s.active

  pub settle_at-Inv : Inv gs s → mem gid s.active ≡ true → Inv after.0 after.1
  settle_at-Inv v a =
      let released = record s { active = set_remove gid s.active } in
      record {
        synced = settle_at-IsSynced gid r s a gs v.distinct v.synced;
        distinct = subst Nodup (sym (ids-settle_at gid r gs released)) v.distinct;
        active_nodup =
            subst Nodup (sym (active-settle_at gid r gs released))
              (Nodup-set_remove gid s.active v.active_nodup);
        active_known = λ i m.
            rw (ids-settle_at gid r gs released)
              (v.active_known i (ground (arith, mem-active_after i)));
      }

-- The ids still to be looked at keep running while another one is settled.
pub all_active_after :
    (gid : ℕ) (r : Outcome) (gs : List Goal) (s : Run) (ids' : List ℕ)
    → mem gid ids' ≡ false
    → all (λ i. mem i s.active) ids' ≡ true
    → all (λ i. mem i (after gid r gs s).1.active) ids' ≡ true
all_active_after gid r gs s [] absent h = refl
all_active_after gid r gs s (i ∷ rest) absent h = ground (
  arith,
  mem-active_after gid r gs s i,
  ==_iff gid i,
  ==_iff i gid,
  all_active_after gid r gs s rest,
)

pub collect-Inv :
    (poll : ℕ → Option Outcome) (todo : List ℕ) (gs : List Goal) (s : Run)
    → Inv gs s
    → Nodup todo
    → all (λ i. mem i s.active) todo ≡ true
    → Inv (collect poll todo gs s).0 (collect poll todo gs s).1
unfolding collect
collect-Inv poll [] gs s v n a = v
collect-Inv poll (gid ∷ todo) gs s v n a =
    let (a0, rest) = and-eq-true (mem gid s.active) (all (λ i. mem i s.active) todo) a in
    elim (Option-cases (poll gid)) [
      | inl waits ↦ rw (waits, collect) (collect-Inv poll todo gs s v n.1 rest)
      | inr (r, finished) ↦
          rw (finished, collect)
            (collect-Inv poll todo (after gid r gs s).0 (after gid r gs s).1
              (settle_at-Inv gid r gs s v a0) n.1 (all_active_after gid r gs s todo n.0 rest))
    ]

pub all-mem_self :
    (xs ys : List ℕ) → ((i : ℕ) → mem i xs ≡ true → mem i ys ≡ true) → all (λ i. mem i ys) xs ≡ true
all-mem_self [] ys h = refl
all-mem_self (x ∷ xs) ys h =
    let here : mem x ys ≡ true = h x (ground (arith, ==-refl x)) in
    ground (arith, all-mem_self xs ys (λ i m. h i (ground arith)))

pub round-Inv :
    (poll : ℕ → Option Outcome) (gs : List Goal) (s : Run)
    → Inv gs s
    → let (gs', s') = launch_pass gs s in
      Inv (collect poll s'.active gs' s').0 (collect poll s'.active gs' s').1
round-Inv poll gs s v =
    let v' = launch_pass-Inv gs s v in
    let (gs', s') = launch_pass gs s in
    collect-Inv poll s'.active gs' s' v' v'.active_nodup
      (all-mem_self s'.active s'.active (λ i m. m))
