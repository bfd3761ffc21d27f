-- ===== src/Execution/Schedule/Sync.antt =====
-- The invariant of the loop of `run_mission` in crates/forge-execution/src/lib.rs: the three sets
-- agree with the statuses, and what runs or is completed has its dependencies completed.
use forge_os.Prelude.{
  ℕ, ◌≡◌, ◌≢◌, refl, sym, ◌∙◌, true, false, List, [], ◌∷◌, ok, err, arith, mem, set_insert,
  set_remove, mem-set_insert, mem-set_remove, ==-refl,
}
use forge_os.Domain.Goal.{Goal, ready}
use forge_os.Execution.Schedule.{Run, Outcome, launch, settle, all_done, is_completed, is_lost}
use forge_os.Execution.Schedule.Frame.{Touches}

pub record IsSynced (s : Run) (g : Goal) : Type 0 where
  pub done : mem g.id s.done ≡ is_completed g
  pub lost : mem g.id s.lost ≡ is_lost g
  pub active : mem g.id s.active ≡ true → g.status ≡ ready
  pub active_deps : mem g.id s.active ≡ true → all_done s g.depends_on ≡ true
  pub done_deps : is_completed g ≡ true → all_done s g.depends_on ≡ true

abbrev pub ids : List Goal → List ℕ
ids [] = []
ids (g ∷ gs) = g.id ∷ ids gs

abbrev pub Nodup : List ℕ → Type 0
Nodup [] = Unit
Nodup (x ∷ xs) = (mem x xs ≡ false) × Nodup xs

pub all_done_mono :
    (s t : Run) (deps : List ℕ)
    → ((y : ℕ) → mem y s.done ≡ true → mem y t.done ≡ true)
    → all_done s deps ≡ true
    → all_done t deps ≡ true
all_done_mono s t [] grows h = refl
all_done_mono s t (d ∷ deps) grows h = ground (arith, grows d, all_done_mono s t deps grows)

-- A step at `x` keeps every other goal synced.
pub Touches-IsSynced :
    {x : ℕ} {s t : Run} (h : Goal) → Touches x s t → h.id ≢ x → IsSynced s h → IsSynced t h
Touches-IsSynced {s} {t} h touch ne v = record {
  done = touch.done h.id ne ∙ v.done;
  lost = touch.lost h.id ne ∙ v.lost;
  active = λ a. v.active (sym (touch.active h.id ne) ∙ a);
  active_deps = λ a.
      all_done_mono s t h.depends_on touch.grows (v.active_deps (sym (touch.active h.id ne) ∙ a));
  done_deps = λ c. all_done_mono s t h.depends_on touch.grows (v.done_deps c);
}

pub launch-IsSynced : (g : Goal) (s : Run) → IsSynced s g → IsSynced (launch g s).1 (launch g s).0
unfolding launch
launch-IsSynced g s v = record {
  done = ground (arith, v.done);
  lost = ground (arith, v.lost, mem-set_insert g.id g.id s.lost, ==-refl g.id);
  active = ground (arith, v.active, mem-set_insert g.id g.id s.active, ==-refl g.id);
  active_deps = ground (arith, v.active_deps, mem-set_insert g.id g.id s.active, ==-refl g.id);
  done_deps = ground (arith, v.done_deps);
}

-- Settling a goal that was running, its handle taken out.
pub settle-IsSynced :
    (r : Outcome) (g : Goal) (s : Run)
    → IsSynced s g
    → mem g.id s.active ≡ true
    → let s' = record s { active = set_remove g.id s.active } in
      IsSynced (settle r g s').1 (settle r g s').0
unfolding settle
settle-IsSynced (ok _) g s v a =
    let deps = v.active_deps a in
    let s' = record s { done = set_insert g.id s.done } in
    let kept : all_done s' g.depends_on ≡ true =
      all_done_mono s s' g.depends_on (λ y h. mem-set_insert g.id y s.done ∙ ground arith) deps in
    record {
      done = ground (arith, v.active a, mem-set_insert g.id g.id s.done, ==-refl g.id);
      lost = ground (arith, v.active a, v.lost);
      active = ground (arith, mem-set_remove g.id g.id s.active, ==-refl g.id);
      active_deps = ground (arith, mem-set_remove g.id g.id s.active, ==-refl g.id);
      done_deps = λ _. ground arith;
    }
settle-IsSynced (err e) g s v a = record {
  done = ground (arith, v.active a, v.done);
  lost = ground (arith, v.active a, v.lost, mem-set_insert g.id g.id s.lost, ==-refl g.id);
  active = ground (arith, mem-set_remove g.id g.id s.active, ==-refl g.id);
  active_deps = ground (arith, mem-set_remove g.id g.id s.active, ==-refl g.id);
  done_deps = ground (arith, v.active a);
}
