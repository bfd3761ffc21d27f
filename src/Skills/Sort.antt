-- ===== src/Skills/Sort.antt =====
-- `slice::sort_by` on small lists: insertion from the back, which keeps the order of equals.
use forge_os.Prelude.{
  not, ◌&&◌, all, Stands, all-Stands, All-Stands, ◌≡◌, ◌∙◌, refl, ap, Bool, true, false, ◌||◌, List,
  [], ◌∷◌, All, any, arith, Bool-cases, inl, inr, if◌then◌else◌,
}

module _ {ℓ} {A : Type ℓ} (le : A → A → Bool) where
  unfoldable pub insert : A → List A → List A
  insert x [] = x ∷ []
  insert x (y ∷ ys) = let rest = insert x ys in if le x y then x ∷ y ∷ ys else y ∷ rest

  unfoldable pub sort_by : List A → List A
  unfolding insert
  sort_by [] = []
  sort_by (x ∷ xs) = insert x (sort_by xs)

  any-insert : (p : A → Bool) (x : A) (ys : List A) → any p (insert x ys) ≡ (p x || any p ys)
  unfolding insert
  any-insert p x [] = refl
  any-insert p x (y ∷ ys) = elim (Bool-cases (le x y)) [
    | inl first ↦ rw (first, insert) refl
    | inr later ↦
        rw (later, insert) (ap (λ b. p y || b) (any-insert p x ys) ∙ or_swap (p y) (p x) (any p ys))
  ]
    where
      or_swap : (a b c : Bool) → (a || (b || c)) ≡ (b || (a || c))
      or_swap a b c = ground arith

  -- Sorting neither adds nor drops anything.
  pub any-sort_by : (p : A → Bool) (xs : List A) → any p (sort_by xs) ≡ any p xs
  unfolding sort_by
  any-sort_by p [] = refl
  any-sort_by p (x ∷ xs) = any-insert p x (sort_by xs) ∙ ap (λ b. p x || b) (any-sort_by p xs)

  All-insert {κ} : (P : A → Type κ) (x : A) (ys : List A) → P x → All P ys → All P (insert x ys)
  unfolding insert
  All-insert P x [] h hs = (h, tt)
  All-insert P x (y ∷ ys) h hs = elim (Bool-cases (le x y)) [
    | inl first ↦ rw (first, insert) (h, hs)
    | inr later ↦ rw (later, insert) (hs.0, All-insert P x ys h hs.1)
  ]

  pub All-sort_by {κ} : (P : A → Type κ) (xs : List A) → All P xs → All P (sort_by xs)
  unfolding sort_by
  All-sort_by P [] hs = tt
  All-sort_by P (x ∷ xs) hs = All-insert P x (sort_by xs) hs.0 (All-sort_by P xs hs.1)

  -- Each is related to all that follow.
  abbrev pub Sorted {κ} : (A → A → Type κ) → List A → Type (ℓ ⊔ κ)
  Sorted R [] = Unit
  Sorted R (x ∷ xs) = All (R x) xs × Sorted R xs

  module _ {κ} (R : A → A → Type κ) (trans : (x y z : A) → R x y → R y z → R x z)
      (yes : (x y : A) → le x y ≡ true → R x y) (other : (x y : A) → le x y ≡ false → R y x) where
    All-trans : (x y : A) (zs : List A) → R x y → All (R y) zs → All (R x) zs
    All-trans x y [] h hs = tt
    All-trans x y (z ∷ zs) h hs = (trans x y z h hs.0, All-trans x y zs h hs.1)

    insert-Sorted : (x : A) (ys : List A) → Sorted R ys → Sorted R (insert x ys)
    unfolding insert
    insert-Sorted x [] s = (tt, tt)
    insert-Sorted x (y ∷ ys) s = elim (Bool-cases (le x y)) [
      | inl first ↦ rw (first, insert) ((yes x y first, All-trans x y ys (yes x y first) s.0), s)
      | inr later ↦
          rw (later, insert) (All-insert (R y) x ys (other x y later) s.0, insert-Sorted x ys s.1)
    ]

    pub sort_by-Sorted : (xs : List A) → Sorted R (sort_by xs)
    unfolding sort_by
    sort_by-Sorted [] = tt
    sort_by-Sorted (x ∷ xs) = insert-Sorted x (sort_by xs) (sort_by-Sorted xs)

  -- On these values the order is total: two are in order one way or the other, and what stands
  -- before something stands before what follows it.
  unfoldable pub is_total : List A → Bool
  is_total xs =
      all (λ x. all (λ y. (le x y || le y x) && all (λ z. not (le x y && le y z) || le x z) xs) xs)
        xs

  -- On such values the sorted list has each before all that follow.
  abbrev pub InOrder : List A → Type ℓ
  InOrder [] = Unit
  InOrder (x ∷ xs) = All (λ y. le x y ≡ true) xs × InOrder xs

  in_order :
      (xs : List A) (x y : A)
      → is_total xs ≡ true
      → Stands x xs
      → Stands y xs
      → le x y ≡ false
      → le y x ≡ true
  unfolding is_total
  in_order xs x y total sx sy h =
      let row = all-Stands _ x xs total sx in
      let one = all-Stands _ y xs row sy in ground (arith, one, h)

  chained :
      (xs : List A) (x y z : A)
      → is_total xs ≡ true
      → Stands x xs
      → Stands y xs
      → Stands z xs
      → le x y ≡ true
      → le y z ≡ true
      → le x z ≡ true
  unfolding is_total
  chained xs x y z total sx sy sz h k =
      let row = all-Stands _ x xs total sx in
      let one = all-Stands _ y xs row sy in
      let rest : all (λ z. not (le x y && le y z) || le x z) xs ≡ true = ground (arith, one) in
      let last = all-Stands _ z xs rest sz in ground (arith, last, h, k)

  module _ (all_of : List A) (total : is_total all_of ≡ true) where
    all_chained :
        (x y : A) (zs : List A)
        → Stands x all_of
        → Stands y all_of
        → All (λ z. Stands z all_of) zs
        → le x y ≡ true
        → All (λ z. le y z ≡ true) zs
        → All (λ z. le x z ≡ true) zs
    all_chained x y [] sx sy sz h k = tt
    all_chained x y (z ∷ zs) sx sy sz h k =
        (chained all_of x y z total sx sy sz.0 h k.0, all_chained x y zs sx sy sz.1 h k.1)

    insert-InOrder :
        (x : A) (ys : List A)
        → Stands x all_of
        → All (λ y. Stands y all_of) ys
        → InOrder ys
        → InOrder (insert x ys)
    unfolding insert
    insert-InOrder x [] sx sy s = (tt, tt)
    insert-InOrder x (y ∷ ys) sx sy s = elim (Bool-cases (le x y)) [
      | inl first ↦ rw (first, insert) ((first, all_chained x y ys sx sy.0 sy.1 first s.0), s)
      | inr later ↦
          rw (later, insert)
            (
              All-insert (λ v. le y v ≡ true) x ys (in_order all_of x y total sx sy.0 later) s.0,
              insert-InOrder x ys sx sy.1 s.1,
            )
    ]

    sort_part-InOrder : (xs : List A) → All (λ x. Stands x all_of) xs → InOrder (sort_by xs)
    unfolding sort_by
    sort_part-InOrder [] sx = tt
    sort_part-InOrder (x ∷ xs) sx =
        insert-InOrder x (sort_by xs) sx.0 (All-sort_by (λ v. Stands v all_of) xs sx.1)
          (sort_part-InOrder xs sx.1)

    pub sort_by-InOrder : InOrder (sort_by all_of)
    sort_by-InOrder = sort_part-InOrder all_of (All-Stands (λ x. Stands x all_of) all_of (λ x s. s))

    pub is_total_refl : (x : A) → Stands x all_of → le x x ≡ true
    is_total_refl x sx = elim (Bool-cases (le x x)) [
      | inl there ↦ there
      | inr not_there ↦ in_order all_of x x total sx sx not_there
    ]
