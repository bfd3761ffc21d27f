-- ===== src/Planner/Ids.antt =====
-- The map from the planner's own names to goal ids in `materialize` and `materialize_delta` of
-- crates/forge-planner/src/lib.rs.
use forge_os.Prelude.{
  ℕ, suc, ◌≤◌, ◌≡◌, refl, ◌∙◌, subst, Text, text_eq, text_eq_iff, true, false, Option, none, some,
  List, [], ◌∷◌, ◌⊎◌, inl, inr, Bool-cases, arith,
}
use forge_os.Planner.{RawGoal, has, ids_of, assign, get}

module _ {V : Type 0} where
  -- The goal at number `v`, counted from `n`, is called `d`.
  pub data Names : ℕ → List (RawGoal V) → Text → ℕ → Type 0 where
    here : (n : ℕ) (g : RawGoal V) (gs : List (RawGoal V)) → Names n (g ∷ gs) g.id n
    there :
        (n : ℕ) (g : RawGoal V) (gs : List (RawGoal V)) (d : Text) (v : ℕ)
        → Names (suc n) gs d v
        → Names n (g ∷ gs) d v

  Names-le : (n : ℕ) (gs : List (RawGoal V)) (d : Text) (v : ℕ) → Names n gs d v → n ≤ v
  Names-le n _ _ _ (here _ g gs) = omega arith
  Names-le n _ _ _ (there _ g gs d v h) = omega (arith, Names-le (suc n) gs d v h)

  -- A number is that of one goal.
  pub Names-one :
      (n : ℕ) (gs : List (RawGoal V)) (d e : Text) (v w : ℕ)
      → Names n gs d v
      → Names n gs e w
      → v ≡ w
      → d ≡ e
  Names-one n _ _ _ _ _ (here _ g gs) (here _ _ _) same = refl
  Names-one n _ _ _ _ _ (here _ g gs) (there _ _ _ e w h) same =
      absurd (omega (arith, same, Names-le (suc n) gs e w h))
  Names-one n _ _ _ _ _ (there _ g gs d v h) (here _ _ _) same =
      absurd (omega (arith, same, Names-le (suc n) gs d v h))
  Names-one n _ _ _ _ _ (there _ g gs d v h) (there _ _ _ e w k) same =
      Names-one (suc n) gs d e v w h k same

  Names-has :
      (n : ℕ) (gs : List (RawGoal V)) (d : Text) (v : ℕ) → Names n gs d v → has d (ids_of gs) ≡ true
  Names-has n _ _ _ (here _ g gs) = ground (arith, (text_eq_iff g.id g.id).1 refl)
  Names-has n _ _ _ (there _ g gs d v h) = ground (arith, Names-has (suc n) gs d v h)

  abbrev Found : ℕ → List (RawGoal V) → List (Text × ℕ) → Text → Option ℕ → Type 0
  Found n gs m d o =
      ((v : ℕ) × (o ≡ some v) × Names n gs d v) ⊎ ((has d (ids_of gs) ≡ false) × (o ≡ get d m))

  assign-Found :
      (n : ℕ) (gs : List (RawGoal V)) (m : List (Text × ℕ)) (d : Text)
      → Found n gs m d (get d (assign n gs m))
  unfolding assign get
  assign-Found n [] m d = inr (refl, refl)
  assign-Found n (g ∷ gs) m d = elim (assign-Found (suc n) gs ((g.id, n) ∷ m) d) [
    | inl (v, e, h) ↦ inl (v, e, Names.there n g gs d v h)
    | inr (missing, e) ↦ elim (Bool-cases (text_eq g.id d)) [
      | inl same ↦ inl (
        n,
        e ∙ (rw same refl),
        subst (λ t. Names n (g ∷ gs) t n) ((text_eq_iff g.id d).0 same) (Names.here n g gs),
      )
      | inr other ↦ inr (rw other missing, e ∙ (rw other refl))
    ]
  ]

  abbrev pub named : ℕ → List (RawGoal V) → Text → Option ℕ
  named n gs d = get d (assign n gs [])

  -- A name of the plan has an id.
  pub named-some :
      (n : ℕ) (gs : List (RawGoal V)) (d : Text)
      → has d (ids_of gs) ≡ true
      → (v : ℕ) × (named n gs d ≡ some v)
  unfolding get
  named-some n gs d known = elim (assign-Found n gs [] d) [
    | inl (v, e, h) ↦ (v, e)
    | inr (missing, e) ↦ absurd (ground (arith, known, missing))
  ]

  -- Two names with one id are one name.
  pub named-one :
      (n : ℕ) (gs : List (RawGoal V)) (d e : Text) (v : ℕ)
      → named n gs d ≡ some v
      → named n gs e ≡ some v
      → d ≡ e
  unfolding get
  named-one n gs d e v h k = elim (assign-Found n gs [] d) [
    | inr (_, q) ↦ absurd (ground (arith, h, q))
    | inl (a, q, x) ↦ elim (assign-Found n gs [] e) [
      | inr (_, r) ↦ absurd (ground (arith, k, r))
      | inl (b, r, y) ↦ Names-one n gs d e a b x y (ground (arith, h, k, q, r))
    ]
  ]

  pub named-none :
      (n : ℕ) (gs : List (RawGoal V)) (d : Text) → has d (ids_of gs) ≡ false → named n gs d ≡ none
  unfolding get
  named-none n gs d missing = elim (assign-Found n gs [] d) [
    | inl (v, e, h) ↦ absurd (ground (arith, missing, Names-has n gs d v h))
    | inr (_, e) ↦ e
  ]
