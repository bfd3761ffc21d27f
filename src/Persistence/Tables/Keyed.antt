-- ===== src/Persistence/Tables/Keyed.antt =====
-- Tables with a primary key, as crates/forge-persistence/src/sqlite.rs uses them.
use forge_os.Prelude.{
  ℕ, ◌≡◌, refl, sym, ap, ◌∙◌, Bool, true, false, Option, none, some, List, [], ◌∷◌, ◌++◌, map,
  if◌then◌else◌, ◌==◌, arith, Bool-cases, inl, inr,
}

-- `INSERT`, behind the rows that are there.
abbrev pub insert_row : {R : Type 0} → R → List R → List R
insert_row r rs = rs ++ r ∷ []

abbrev pub is_there : {R : Type 0} → Option R → Bool
is_there none = false
is_there (some _) = true

abbrev pub mapped : {R S : Type 0} → (R → S) → Option R → Option S
mapped f none = none
mapped f (some r) = some (f r)

module _ {R : Type 0} (key : R → ℕ) where
  -- `WHERE id=?1`
  unfoldable pub find_key : ℕ → List R → Option R
  find_key k [] = none
  find_key k (r ∷ rs) = let rest = find_key k rs in if key r == k then some r else rest

  abbrev pub has_key : ℕ → List R → Bool
  has_key k rs = is_there (find_key k rs)

  -- `UPDATE … WHERE id=?1`
  unfoldable pub update_key : ℕ → (R → R) → List R → List R
  update_key k f rs = map (λ r. if key r == k then f r else r) rs

  find_key_here : (k : ℕ) (r : R) (rs : List R) → (key r == k) ≡ true → find_key k (r ∷ rs) ≡ some r
  unfolding find_key
  find_key_here k r rs h = rw (h, find_key) refl

  find_key_later :
      (k : ℕ) (r : R) (rs : List R) → (key r == k) ≡ false → find_key k (r ∷ rs) ≡ find_key k rs
  unfolding find_key
  find_key_later k r rs h = rw (h, find_key) refl

  pub find_key-insert_row :
      (k : ℕ) (r : R) (rs : List R)
      → find_key (key r) rs ≡ none
      → find_key k (insert_row r rs) ≡ (if key r == k then some r else find_key k rs)
  unfolding find_key
  find_key-insert_row k r [] fresh = refl
  find_key-insert_row k r (x ∷ rs) fresh = elim (Bool-cases (key x == key r)) [
    | inl same ↦ absurd (let h = rw (same, find_key) at fresh in ground (arith, h))
    | inr other ↦
        let rest = find_key-insert_row k r rs (rw (other, find_key) at fresh) in
        elim (Bool-cases (key x == k)) [
          | inl here ↦
              let apart : (key r == k) ≡ false = ground (arith, here, other) in
              rw (here, find_key) (rw apart refl)
          | inr later ↦ rw (later, find_key) rest
        ]
  ]

  pub find_key-update_key :
      (k k' : ℕ) (f : R → R) (rs : List R)
      → ((r : R) → key (f r) ≡ key r)
      → find_key k (update_key k' f rs)
        ≡ (if k' == k then mapped f (find_key k rs) else find_key k rs)
  unfolding find_key update_key
  find_key-update_key k k' f [] keeps = elim (Bool-cases (k' == k)) [
    | inl same ↦ rw (same, find_key) refl
    | inr other ↦ rw (other, find_key) refl
  ]
  find_key-update_key k k' f (x ∷ rs) keeps =
      let rest = find_key-update_key k k' f rs keeps in
      elim (Bool-cases (key x == k')) [
        | inl hit ↦ elim (Bool-cases (key x == k)) [
          | inl here ↦
              let same : (k' == k) ≡ true = ground (arith, hit, here) in
              rw hit (
                rw same (
                  find_key_here k (f x) _ (ap (λ n. n == k) (keeps x) ∙ here)
                  ∙ sym (ap (mapped f) (find_key_here k x rs here))))
          | inr later ↦
              let apart : (k' == k) ≡ false = ground (arith, hit, later) in
              rw hit (
                rw apart (
                  find_key_later k (f x) _ (ap (λ n. n == k) (keeps x) ∙ later)
                  ∙ (rw apart at rest)
                  ∙ sym (find_key_later k x rs later)))
        ]
        | inr missed ↦ elim (Bool-cases (key x == k)) [
          | inl here ↦
              let apart : (k' == k) ≡ false = ground (arith, missed, here) in
              rw missed (rw apart (find_key_here k x _ here ∙ sym (find_key_here k x rs here)))
          | inr later ↦ rw missed (
              find_key_later k x _ later
              ∙ rest
              ∙ sym (ap (λ o. if k' == k then mapped f o else o) (find_key_later k x rs later)))
        ]
      ]
