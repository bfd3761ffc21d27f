-- ===== src/Planner/Distinct.antt =====
-- Whether the goals that `materialize` of crates/forge-planner/src/lib.rs makes have ids of their
-- own: the primary key of the goals table.
use forge_os.Prelude.{
  ℕ, suc, ◌+◌, ◌≡◌, refl, subst, Text, text_eq, text_eq_iff, Bool, true, not, ◌&&◌, ◌==◌, ==_iff,
  Option, some, List, [], ◌∷◌, length, map, mem, arith, Bool-cases, inl, inr,
}
use forge_os.Domain.Goal.{Goal}
use forge_os.Service.Plan.{Plan}
use forge_os.Planner.{RawGoal, RawPlan, has, ids_of, materialize, new_goal}
use forge_os.Planner.Ids.{named, named-some, named-one}
use forge_os.Planner.Sound.{ids_of-known}
use forge_os.Planner.Build.{Built, build-Built}

abbrev pub distinct_ids : List ℕ → Bool
distinct_ids [] = true
distinct_ids (x ∷ xs) = not (mem x xs) && distinct_ids xs

abbrev pub distinct_names : List Text → Bool
distinct_names [] = true
distinct_names (x ∷ xs) = not (has x xs) && distinct_names xs

abbrev goal_ids : List Goal → List ℕ
goal_ids = map (λ g. g.id)

-- No two names have one id.
abbrev Separates : (Text → Option ℕ) → Type 0
Separates ids = (d e : Text) (v : ℕ) → ids d ≡ some v → ids e ≡ some v → d ≡ e

module _ {V : Type 0} (ids f : Text → Option ℕ) (mission_id : ℕ) where
  Built-mem :
      Separates ids
      → (n : ℕ) (gs : List (RawGoal V)) (p : Plan V) (d : Text) (v : ℕ)
      → Built ids f mission_id n gs p
      → ids d ≡ some v
      → mem v (goal_ids p.goals) ≡ has d (ids_of gs)
  unfolding new_goal
  Built-mem sep n _ _ d v (Built.nil _) e = refl
  Built-mem sep n _ _ d v (Built.cons _ gid g gs p q b) e =
      let rest = Built-mem sep (suc n + length g.tasks) gs p d v b e in
      elim (Bool-cases (text_eq g.id d)) [
        | inl same ↦
            let one : ids d ≡ some gid =
              subst (λ t. ids t ≡ some gid) ((text_eq_iff g.id d).0 same) q in
            ground (arith, one, e, ==_iff gid v, same)
        | inr other ↦ elim (Bool-cases (gid == v)) [
          | inr differ ↦ ground (arith, other, differ, rest)
          | inl equal ↦
              let at_v = subst (λ x. ids g.id ≡ some x) ((==_iff gid v).0 equal) q in
              absurd (ground (arith, other, (text_eq_iff g.id d).1 (sep g.id d v at_v e)))
        ]
      ]

  Built-distinct :
      Separates ids
      → (n : ℕ) (gs : List (RawGoal V)) (p : Plan V) → Built ids f mission_id n gs p
      → distinct_ids (goal_ids p.goals) ≡ distinct_names (ids_of gs)
  unfolding new_goal
  Built-distinct sep n _ _ (Built.nil _) = refl
  Built-distinct sep n _ _ (Built.cons _ gid g gs p q b) = ground (
    arith,
    Built-distinct sep (suc n + length g.tasks) gs p b,
    Built-mem sep (suc n + length g.tasks) gs p g.id gid b q,
  )

module _ {V : Type 0} where
  -- A plan is always made, also from an answer that gives two goals one name; its goals have ids
  -- of their own if and only if the answer's goals have names of their own.
  pub materialize-distinct_ids :
      (mission_id n : ℕ) (raw : RawPlan V)
      → (p : Plan V) × (materialize mission_id n raw ≡ some p)
        × (distinct_ids (map (λ g. g.id) p.goals) ≡ distinct_names (ids_of raw.goals))
  unfolding materialize
  materialize-distinct_ids mission_id n raw =
      let gs = raw.goals in
      let ids = named n gs in
      let (p, e, b) =
        build-Built ids ids mission_id (n + length gs) gs
          (ids_of-known ids (ids_of gs) gs (named-some n gs) (λ d k. k)) in
      (p, e, Built-distinct ids ids mission_id (named-one n gs) (n + length gs) gs p b)
