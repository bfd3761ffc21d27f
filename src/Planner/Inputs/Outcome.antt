-- ===== src/Planner/Inputs/Outcome.antt =====
-- What `parse_materialize` of crates/forge-planner/src/lib.rs returns for each answer.
use forge_os.Prelude.{
  ℕ, zero, suc, ◌+◌, ◌≡◌, ◌≤◌, refl, Option, none, some, List, [], ◌∷◌, Result, ok, err, ltb, ◌==◌,
  ==_iff, length, arith, All, inl, inr, Bool-cases, Option-cases, ◌∙◌,
}
use forge_os.Planner.{PlannerError}
use forge_os.Planner.Inputs.{
  bounds_error, duplicate_error, slot, fill, blank, place_all, read_all, arrange, uses, nth,
  Arranged, read_placed,
}
use forge_os.Planner.Inputs.Slots.{
  filled, filled_at, Kept, Filled, fill-Filled, length-blank, filled-blank, slot-blank, filled-le,
}

module _ {V : Type 0} where
  -- How the loop ends, from any slots.
  data Placed (n : ℕ) (es : List (ℕ × V)) (out : List (Option V))
      : Result PlannerError (List (Option V)) → Type 0 where
    placed :
        (out' : List (Option V))
        → length out' ≡ length out
        → filled out' ≡ filled out + length es
        → Kept out out'
        → All (λ e. slot e.0 out' ≡ some e.1) es
        → Placed n es out (ok out')
    out_of_bounds : (i : ℕ) → 1 ≤ uses i es → n ≤ i → Placed n es out (err (bounds_error i))
    duplicate :
        (i : ℕ) → 2 ≤ uses i es + filled_at i out → Placed n es out (err (duplicate_error i))

  Placed-cons :
      (n i : ℕ) (v : V) (es : List (ℕ × V)) (out out₁ : List (Option V))
      (r : Result PlannerError (List (Option V)))
      → Filled i v out out₁
      → Placed n es out₁ r
      → Placed n ((i, v) ∷ es) out r
  Placed-cons n i v es out out₁ _ f (placed out' size count kept all) =
      Placed.placed out' (size ∙ f.size) (omega (arith, count, f.count))
        (λ j w e. kept j w (f.kept j w e)) (kept i v f.here, all)
  Placed-cons n i v es out out₁ _ f (out_of_bounds j used over) =
      Placed.out_of_bounds j (ground (arith, used)) over
  Placed-cons n i v es out out₁ _ f (duplicate j twice) =
      Placed.duplicate j (ground (arith, twice, f.each j))

  place_all-Placed :
      (n : ℕ) (es : List (ℕ × V)) (out : List (Option V))
      → length out ≡ n
      → Placed n es out (place_all n es out)
  unfolding place_all
  place_all-Placed n [] out size = Placed.placed out refl (omega arith) (λ j w e. e) tt
  place_all-Placed n ((i, v) ∷ es) out size = elim (Bool-cases (ltb i n)) [
    | inr over ↦ rw (over, place_all) (Placed.out_of_bounds i (ground arith) (ground (arith, over)))
    | inl within ↦ elim (Option-cases (slot i out)) [
      | inr (w, taken) ↦
          rw (within, place_all) (rw taken (Placed.duplicate i (ground (arith, taken))))
      | inl empty ↦
          let f = fill-Filled i v out (ground (arith, within, size)) empty in
          rw (within, place_all)
            (rw empty (
              Placed-cons n i v es out (fill i v out) _ f
                (place_all-Placed n es (fill i v out) (f.size ∙ size))))
    ]
  ]

  abbrev Reads : List (Option V) → Result PlannerError (List V) → Type 0
  Reads out r =
      (vs : List V) × (r ≡ ok vs)
      × (length vs ≡ length out)
      × ((i : ℕ) (v : V) → slot i out ≡ some v → nth i vs ≡ some v)

  -- Slots that are all filled are read.
  read_all-Reads :
      (i : ℕ) (out : List (Option V)) → filled out ≡ length out → Reads out (read_all i out)
  unfolding read_all
  read_all-Reads i [] full = ([], refl, refl, λ j v e. e)
  read_all-Reads i (none ∷ os) full = absurd (omega (arith, full, filled-le os))
  read_all-Reads i (some w ∷ os) full =
      let (vs, e, size, same) = read_all-Reads (suc i) os (omega (arith, full)) in
      (w ∷ vs, rw e refl, omega (arith, size), λ j v q. nth_cons vs same j v q)
    where
      nth_cons :
          (vs : List V)
          → ((i : ℕ) (v : V) → slot i os ≡ some v → nth i vs ≡ some v)
          → (j : ℕ) (v : V) → slot j (some w ∷ os) ≡ some v
          → nth j (w ∷ vs) ≡ some v
      nth_cons vs same zero v q = q
      nth_cons vs same (suc j) v q = same j v q

  All-nth :
      (es : List (ℕ × V)) (out : List (Option V)) (vs : List V)
      → ((i : ℕ) (v : V) → slot i out ≡ some v → nth i vs ≡ some v)
      → All (λ e. slot e.0 out ≡ some e.1) es
      → All (λ e. nth e.0 vs ≡ some e.1) es
  All-nth [] out vs same h = tt
  All-nth (e ∷ es) out vs same h = (same e.0 e.1 h.0, All-nth es out vs same h.1)

  Placed-Arranged :
      (n : ℕ) (raw : List (ℕ × V)) (r : Result PlannerError (List (Option V)))
      → length raw ≡ n
      → Placed n raw (blank n) r
      → Arranged n raw (read_placed r)
  Placed-Arranged n raw _ size (placed out' same count kept all) =
      let (vs, e, long, at) =
        read_all-Reads 0 out'
          (omega (arith, count, same, size, filled-blank V n, length-blank V n)) in
      rw e (Arranged.arranged vs size (long ∙ same ∙ length-blank V n) (All-nth raw out' vs at all))
  Placed-Arranged n raw _ size (out_of_bounds i used over) = Arranged.out_of_bounds i used over
  Placed-Arranged n raw _ size (duplicate i twice) =
      Arranged.duplicate i (ground (arith, twice, slot-blank V n i))

  -- The inputs that the model rewrote are taken only if there are as many of them as tasks and each
  -- index is that of a task and stands once: then each input is at its index of the result. Else
  -- the error tells a true fault of the answer: the wrong number, an index past the tasks, or one
  -- that stands twice. That an index is missing is never reported.
  pub arrange-Arranged : (n : ℕ) (raw : List (ℕ × V)) → Arranged n raw (arrange n raw)
  unfolding arrange
  arrange-Arranged n raw = elim (Bool-cases (length raw == n)) [
    | inr other ↦
        rw (other, arrange)
          (Arranged.wrong_count (λ e. ground (arith, ==_iff (length raw) n, other, e)))
    | inl same ↦
        rw (same, arrange)
          (Placed-Arranged n raw _ (ground (arith, same))
            (place_all-Placed n raw (blank n) (length-blank V n)))
  ]
