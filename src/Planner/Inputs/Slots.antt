-- ===== src/Planner/Inputs/Slots.antt =====
-- The slots that `parse_materialize` of crates/forge-planner/src/lib.rs fills, and how many are.
use forge_os.Prelude.{
  ℕ, zero, suc, ◌+◌, ◌≡◌, ◌<◌, ◌≤◌, refl, Option, none, some, List, [], ◌∷◌, if◌then◌else◌, ◌==◌,
  length, arith,
}
use forge_os.Planner.Inputs.{slot, fill, blank}

module _ {V : Type 0} where
  abbrev pub filled : List (Option V) → ℕ
  filled [] = 0
  filled (none ∷ os) = filled os
  filled (some v ∷ os) = suc (filled os)

  abbrev pub filled_at : ℕ → List (Option V) → ℕ
  filled_at i out = elim (slot i out) [ none ↦ 0 | some _ ↦ 1 ]

  -- What is in a slot stays there.
  abbrev pub Kept : List (Option V) → List (Option V) → Type 0
  Kept out out' = (i : ℕ) (v : V) → slot i out ≡ some v → slot i out' ≡ some v

  pub record Filled (i : ℕ) (v : V) (out out' : List (Option V)) : Type 0 where
    pub size : length out' ≡ length out
    pub count : filled out' ≡ suc (filled out)
    pub here : slot i out' ≡ some v
    pub kept : Kept out out'
    pub each : (j : ℕ) → filled_at j out' ≡ filled_at j out + (if i == j then 1 else 0)

  Kept-first : (v : V) (os : List (Option V)) → Kept (none ∷ os) (some v ∷ os)
  Kept-first v os zero w e = ground (arith, e)
  Kept-first v os (suc j) w e = e

  filled_at-first :
      (v : V) (os : List (Option V)) (j : ℕ)
      → filled_at j (some v ∷ os) ≡ filled_at j (none ∷ os) + (if 0 == j then 1 else 0)
  filled_at-first v os zero = refl
  filled_at-first v os (suc j) = ground arith

  Kept-later : (o : Option V) (os os' : List (Option V)) → Kept os os' → Kept (o ∷ os) (o ∷ os')
  Kept-later o os os' h zero w e = e
  Kept-later o os os' h (suc j) w e = h j w e

  filled-later :
      (o : Option V) (os os' : List (Option V))
      → filled os' ≡ suc (filled os)
      → filled (o ∷ os') ≡ suc (filled (o ∷ os))
  filled-later none os os' h = h
  filled-later (some v) os os' h = omega (arith, h)

  filled_at-later :
      (i : ℕ) (o : Option V) (os os' : List (Option V))
      → ((j : ℕ) → filled_at j os' ≡ filled_at j os + (if i == j then 1 else 0))
      → (j : ℕ) → filled_at j (o ∷ os') ≡ filled_at j (o ∷ os) + (if suc i == j then 1 else 0)
  filled_at-later i o os os' h zero = ground arith
  filled_at-later i o os os' h (suc j) = ground (arith, h j)

  pub fill-Filled :
      (i : ℕ) (v : V) (out : List (Option V))
      → i < length out
      → slot i out ≡ none
      → Filled i v out (fill i v out)
  unfolding fill
  fill-Filled i v [] h e = absurd (omega (arith, h))
  fill-Filled zero v (some x ∷ os) h e = ground (arith, e)
  fill-Filled zero v (none ∷ os) h e = record {
    size = refl;
    count = refl;
    here = refl;
    kept = Kept-first v os;
    each = filled_at-first v os;
  }
  fill-Filled (suc i) v (o ∷ os) h e =
      let rest = fill-Filled i v os (omega (arith, h)) e in
      record {
        size = omega (arith, rest.size);
        count = filled-later o os _ rest.count;
        here = rest.here;
        kept = Kept-later o os _ rest.kept;
        each = filled_at-later i o os _ rest.each;
      }

  pub filled-le : (out : List (Option V)) → filled out ≤ length out
  filled-le [] = omega arith
  filled-le (none ∷ os) = omega (arith, filled-le os)
  filled-le (some v ∷ os) = omega (arith, filled-le os)

pub length-blank : (V : Type 0) (n : ℕ) → length (blank {V = V} n) ≡ n
unfolding blank
length-blank V zero = refl
length-blank V (suc n) = omega (arith, length-blank V n)

pub filled-blank : (V : Type 0) (n : ℕ) → filled (blank {V = V} n) ≡ 0
unfolding blank
filled-blank V zero = refl
filled-blank V (suc n) = filled-blank V n

pub slot-blank : (V : Type 0) (n i : ℕ) → slot i (blank {V = V} n) ≡ none
unfolding blank
slot-blank V zero i = refl
slot-blank V (suc n) zero = refl
slot-blank V (suc n) (suc i) = slot-blank V n i
