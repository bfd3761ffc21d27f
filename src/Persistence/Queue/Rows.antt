-- ===== src/Persistence/Queue/Rows.antt =====
-- Lemmas on the queries of crates/forge-persistence/src/sqlite.rs over the rows of the queue.
use forge_os.Prelude.{
  ℕ, suc, ◌≤◌, ◌<◌, ◌≡◌, refl, Bool, true, none, some, List, [], ◌∷◌, ◌++◌, arith, ◌==◌, Bool-cases,
  inl, inr, All, count_if, ◌&&◌,
}
use forge_os.Persistence.Queue.{Row, find_first, update_where}

-- Ids ascend from `lo` and stay below `hi`.
abbrev pub InRange : ℕ → ℕ → List Row → Type 0
InRange lo hi [] = lo ≤ hi
InRange lo hi (r ∷ rs) = (lo ≤ r.id) × InRange (suc r.id) hi rs

pub InRange-append :
    (lo hi : ℕ) (rs : List Row) (r : Row)
    → r.id ≡ hi
    → InRange lo hi rs
    → InRange lo (suc hi) (rs ++ r ∷ [])
InRange-append lo hi [] r e h = omega arith
InRange-append lo hi (s ∷ rs) r e h = (h.0, InRange-append (suc s.id) hi rs r e h.1)

pub InRange-le : (lo hi : ℕ) (rs : List Row) → InRange lo hi rs → lo ≤ hi
InRange-le lo hi [] h = h
InRange-le lo hi (r ∷ rs) h = omega (arith, InRange-le (suc r.id) hi rs h.1)

-- In an ascending list, an id below the bound is absent.
pub count_id_below :
    (lo hi id : ℕ) (p : Row → Bool) (rs : List Row)
    → InRange lo hi rs
    → id < lo
    → count_if (λ r. (r.id == id) && p r) rs ≡ 0
count_id_below lo hi id p [] h lt = refl
count_id_below lo hi id p (r ∷ rs) h lt = ground (arith, count_id_below (suc r.id) hi id p rs h.1)

module _ (p : Row → Bool) where
  pub find_first-eq-none : (rs : List Row) → find_first p rs ≡ none → count_if p rs ≡ 0
  find_first-eq-none [] e = refl
  find_first-eq-none (r ∷ rs) e = ground (arith, find_first-eq-none rs)

  pub find_first-eq-some :
      (rs : List Row) (r : Row) → find_first p rs ≡ some r → (p r ≡ true) × (1 ≤ count_if p rs)
  find_first-eq-some [] r e = cc
  find_first-eq-some (s ∷ rs) r e = ground (arith, find_first-eq-some rs r)

module _ (p : Row → Bool) where
  ids_above :
      (lo hi id : ℕ) (rs : List Row)
      → InRange lo hi rs
      → id ≤ lo
      → All (λ s. p s ≡ true → id ≤ s.id) rs
  ids_above lo hi id [] h le = tt
  ids_above lo hi id (r ∷ rs) h le =
      ((λ _. omega arith), ids_above (suc r.id) hi id rs h.1 (omega arith))

  -- The row that is found has the least id among those that pass.
  pub find_first-least :
      (lo hi : ℕ) (rs : List Row) (r : Row)
      → InRange lo hi rs
      → find_first p rs ≡ some r
      → All (λ s. p s ≡ true → r.id ≤ s.id) rs
  find_first-least lo hi [] r h e = tt
  find_first-least lo hi (s ∷ rs) r h e = elim (Bool-cases (p s)) [
    | inl hit ↦
        let same : s.id ≡ r.id = ground arith in
        ((λ _. omega arith), ids_above (suc s.id) hi r.id rs h.1 (omega arith))
    | inr miss ↦ ((λ hit. cc), find_first-least (suc s.id) hi rs r h.1 (ground arith))
  ]

module _ (p : Row → Bool) (f : Row → Row) where
  pub InRange-update_where :
      (same : (r : Row) → p r ≡ true → (f r).id ≡ r.id) (lo hi : ℕ) (rs : List Row)
      → InRange lo hi rs
      → InRange lo hi (update_where p f rs)
  InRange-update_where same lo hi [] h = h
  InRange-update_where same lo hi (r ∷ rs) h = elim (Bool-cases (p r)) [
    | inl hit ↦ rw (hit, same r hit) (h.0, InRange-update_where same (suc r.id) hi rs h.1)
    | inr miss ↦ rw miss (h.0, InRange-update_where same (suc r.id) hi rs h.1)
  ]

  pub count_if-update_where-le :
      (c : Row → Bool) (no_new : (r : Row) → p r ≡ true → c (f r) ≡ true → c r ≡ true)
      (rs : List Row)
      → count_if c (update_where p f rs) ≤ count_if c rs
  count_if-update_where-le c no_new [] = omega arith
  count_if-update_where-le c no_new (r ∷ rs) =
      ground (arith, no_new r, count_if-update_where-le c no_new rs)

  pub All-update_where :
      (P : Row → Type 0) (kept : (r : Row) → p r ≡ true → P r → P (f r)) (rs : List Row)
      → All P rs
      → All P (update_where p f rs)
  All-update_where P kept [] h = tt
  All-update_where P kept (r ∷ rs) h = elim (Bool-cases (p r)) [
    | inl hit ↦ rw hit (kept r hit h.0, All-update_where P kept rs h.1)
    | inr miss ↦ rw miss (h.0, All-update_where P kept rs h.1)
  ]
