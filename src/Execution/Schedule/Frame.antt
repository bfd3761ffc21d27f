-- ===== src/Execution/Schedule/Frame.antt =====
-- What one step of `run_mission` in crates/forge-execution/src/lib.rs leaves alone.
use forge_os.Prelude.{
  ℕ, ◌≡◌, ◌≢◌, refl, ◌∙◌, subst, true, List, [], ◌∷◌, ok, err, ◌==◌, arith, mem, set_insert,
  set_remove, mem-set_insert, mem-set_remove, ==_iff, Bool-cases, inl, inr,
}
use forge_os.Domain.Goal.{Goal}
use forge_os.Execution.Schedule.{Run, Outcome, launch, settle, settle_at}

-- The step from `s` to `t` changes the three sets at `x` only, and never forgets a completed goal.
pub record Touches (x : ℕ) (s t : Run) : Type 0 where
  pub active : (y : ℕ) → y ≢ x → mem y t.active ≡ mem y s.active
  pub done : (y : ℕ) → y ≢ x → mem y t.done ≡ mem y s.done
  pub lost : (y : ℕ) → y ≢ x → mem y t.lost ≡ mem y s.lost
  pub grows : (y : ℕ) → mem y s.done ≡ true → mem y t.done ≡ true

insert_other : (x y : ℕ) (xs : List ℕ) → y ≢ x → mem y (set_insert x xs) ≡ mem y xs
insert_other x y xs ne = mem-set_insert x y xs ∙ ground (arith, ==_iff x y)

insert_grows : (x y : ℕ) (xs : List ℕ) → mem y xs ≡ true → mem y (set_insert x xs) ≡ true
insert_grows x y xs h = mem-set_insert x y xs ∙ ground arith

remove_other : (x y : ℕ) (xs : List ℕ) → y ≢ x → mem y (set_remove x xs) ≡ mem y xs
remove_other x y xs ne = mem-set_remove x y xs ∙ ground (arith, ==_iff x y)

pub launch-Touches : (g : Goal) (s : Run) → Touches g.id s (launch g s).1
unfolding launch
launch-Touches g s = record {
  active = λ y ne. ground (arith, insert_other g.id y s.active ne);
  done = λ y ne. ground arith;
  lost = λ y ne. ground (arith, insert_other g.id y s.lost ne);
  grows = λ y h. ground arith;
}

pub settle-Touches : (r : Outcome) (g : Goal) (s : Run) → Touches g.id s (settle r g s).1
unfolding settle
settle-Touches (ok _) g s = record {
  active = λ y ne. ground arith;
  done = λ y ne. ground (arith, insert_other g.id y s.done ne);
  lost = λ y ne. ground arith;
  grows = λ y h. ground (arith, insert_grows g.id y s.done h);
}
settle-Touches (err e) g s = record {
  active = λ y ne. ground arith;
  done = λ y ne. ground arith;
  lost = λ y ne. ground (arith, insert_other g.id y s.lost ne);
  grows = λ y h. ground arith;
}

Touches-refl : (x : ℕ) (s : Run) → Touches x s s
Touches-refl x s = record {
  active = λ y ne. refl;
  done = λ y ne. refl;
  lost = λ y ne. refl;
  grows = λ y h. h;
}

pub Touches-trans : {x : ℕ} {s t u : Run} → Touches x s t → Touches x t u → Touches x s u
Touches-trans a b = record {
  active = λ y ne. b.active y ne ∙ a.active y ne;
  done = λ y ne. b.done y ne ∙ a.done y ne;
  lost = λ y ne. b.lost y ne ∙ a.lost y ne;
  grows = λ y h. b.grows y (a.grows y h);
}

pub release-Touches : (x : ℕ) (s : Run) → Touches x s (record s { active = set_remove x s.active })
release-Touches x s = record {
  active = λ y ne. remove_other x y s.active ne;
  done = λ y ne. refl;
  lost = λ y ne. refl;
  grows = λ y h. h;
}

pub settle_at-Touches :
    (gid : ℕ) (r : Outcome) (gs : List Goal) (s : Run) → Touches gid s (settle_at gid r gs s).1
unfolding settle_at
settle_at-Touches gid r [] s = Touches-refl gid s
settle_at-Touches gid r (g ∷ gs) s = elim (Bool-cases (g.id == gid)) [
  | inl same ↦
      let e : g.id ≡ gid = (==_iff g.id gid).0 same in
      rw (same, settle_at) (subst (λ x. Touches x s (settle r g s).1) e (settle-Touches r g s))
  | inr other ↦ rw (other, settle_at) (settle_at-Touches gid r gs s)
]
