-- ===== src/Planner/Inputs.antt =====
-- `parse_materialize` of crates/forge-planner/src/lib.rs, on the list of indexed inputs that the
-- JSON parser gives.
pub mod Slots
pub mod Outcome
use forge_os.Prelude.{
  ℕ, zero, suc, ◌+◌, ◌≡◌, ◌≤◌, ◌<◌, refl, Text, text, decimal, Bool, true, false, Option, none,
  some, List, [], ◌∷◌, ◌++◌, Result, ok, err, if◌then◌else◌, ltb, ◌==◌, length, arith, ◌≢◌, All,
  count_if,
}
use forge_os.Planner.{PlannerError, invalid}

abbrev pub count_error : ℕ → ℕ → PlannerError
count_error got n =
    invalid (text "materializer returned " ++ decimal got ++ text " inputs, expected " ++ decimal n)

abbrev pub bounds_error : ℕ → PlannerError
bounds_error i = invalid (text "materializer index " ++ decimal i ++ text " out of bounds")

abbrev pub duplicate_error : ℕ → PlannerError
duplicate_error i = invalid (text "materializer produced duplicate index " ++ decimal i)

abbrev pub missed_error : ℕ → PlannerError
missed_error i = invalid (text "materializer missed index " ++ decimal i)

module _ {V : Type 0} where
  -- `vec![None; n]`
  unfoldable pub blank : ℕ → List (Option V)
  blank zero = []
  blank (suc n) = none ∷ blank n

  -- The slot at an index, out of range none.
  abbrev pub slot : ℕ → List (Option V) → Option V
  slot i [] = none
  slot zero (o ∷ os) = o
  slot (suc i) (o ∷ os) = slot i os

  unfoldable pub fill : ℕ → V → List (Option V) → List (Option V)
  fill i v [] = []
  fill zero v (o ∷ os) = some v ∷ os
  fill (suc i) v (o ∷ os) = o ∷ fill i v os

  -- The loop over the entries.
  unfoldable pub place_all :
      ℕ → List (ℕ × V) → List (Option V) → Result PlannerError (List (Option V))
  unfolding fill
  place_all n [] out = ok out
  place_all n (e ∷ es) out = elim (ltb e.0 n) [
    | false ↦ err (bounds_error e.0)
    | true ↦ elim (slot e.0 out) [
      | some _ ↦ err (duplicate_error e.0)
      | none ↦ place_all n es (fill e.0 e.1 out)
    ]
  ]

  abbrev pub push_ok : V → Result PlannerError (List V) → Result PlannerError (List V)
  push_ok v (ok vs) = ok (v ∷ vs)
  push_ok v (err e) = err e

  -- The slots from index `i` on, none of which may be empty.
  unfoldable pub read_all : ℕ → List (Option V) → Result PlannerError (List V)
  read_all i [] = ok []
  read_all i (none ∷ os) = err (missed_error i)
  read_all i (some v ∷ os) = push_ok v (read_all (suc i) os)

  abbrev pub read_placed : Result PlannerError (List (Option V)) → Result PlannerError (List V)
  read_placed (ok out) = read_all 0 out
  read_placed (err e) = err e

  unfoldable pub arrange : ℕ → List (ℕ × V) → Result PlannerError (List V)
  unfolding blank place_all read_all
  arrange n raw =
      if length raw == n
      then read_placed (place_all n raw (blank n))
      else err (count_error (length raw) n)

  abbrev pub uses : ℕ → List (ℕ × V) → ℕ
  uses i = count_if (λ e. e.0 == i)

  -- The value at an index.
  abbrev pub nth : ℕ → List V → Option V
  nth i [] = none
  nth zero (v ∷ vs) = some v
  nth (suc i) (v ∷ vs) = nth i vs

  -- What the answer of the model can come to.
  pub data Arranged (n : ℕ) (raw : List (ℕ × V)) : Result PlannerError (List V) → Type 0 where
    arranged :
        (out : List V)
        → length raw ≡ n
        → length out ≡ n
        → All (λ e. nth e.0 out ≡ some e.1) raw
        → Arranged n raw (ok out)
    wrong_count : length raw ≢ n → Arranged n raw (err (count_error (length raw) n))
    out_of_bounds : (i : ℕ) → 1 ≤ uses i raw → n ≤ i → Arranged n raw (err (bounds_error i))
    duplicate : (i : ℕ) → 2 ≤ uses i raw → Arranged n raw (err (duplicate_error i))
