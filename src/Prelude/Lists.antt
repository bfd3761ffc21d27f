-- ===== src/Prelude/Lists.antt =====
-- Lists over the native numbers: measures, Boolean quantifiers and finite sets kept as lists.
use Prim.Native.Nat.{ℕ, zero, suc, ◌+◌, ◌≤◌}
use mathlib.Core.Path.{◌≡◌, refl}
use mathlib.Core.Logic.{inl, inr}
use mathlib.Core.Bool.{Bool, true, false, ◌&&◌, ◌||◌}
use mathlib.Core.List.{List, [], ◌∷◌, ◌++◌, map}
use native.Mathlib.Omega.{arith}
use forge_os.Prelude.Tests.{◌==◌, if◌then◌else◌, ==_iff, Bool-cases}

module _ {ℓ} {A : Type ℓ} where
  abbrev pub length : List A → ℕ
  length [] = 0
  length (x ∷ xs) = suc (length xs)

  abbrev pub take : ℕ → List A → List A
  take zero xs = []
  take (suc n) [] = []
  take (suc n) (x ∷ xs) = x ∷ take n xs

  abbrev pub any : (A → Bool) → List A → Bool
  any p [] = false
  any p (x ∷ xs) = p x || any p xs

  abbrev pub all : (A → Bool) → List A → Bool
  all p [] = true
  all p (x ∷ xs) = p x && all p xs

  -- How many elements pass the test.
  abbrev pub count_if : (A → Bool) → List A → ℕ
  count_if p [] = 0
  count_if p (x ∷ xs) = let rest = count_if p xs in if p x then suc rest else rest

  abbrev pub keep_if : (A → Bool) → List A → List A
  keep_if p [] = []
  keep_if p (x ∷ xs) = let rest = keep_if p xs in if p x then x ∷ rest else rest

  abbrev pub All {κ} : (A → Type κ) → List A → Type κ
  All P [] = Unit
  All P (x ∷ xs) = P x × All P xs

  pub keep_if-kept :
      (p : A → Bool) (x : A) (xs : List A) → p x ≡ true → keep_if p (x ∷ xs) ≡ x ∷ keep_if p xs
  keep_if-kept p x xs h = rw (h, keep_if) refl

  pub keep_if-left :
      (p : A → Bool) (x : A) (xs : List A) → p x ≡ false → keep_if p (x ∷ xs) ≡ keep_if p xs
  keep_if-left p x xs h = rw (h, keep_if) refl

  pub length-append : (xs ys : List A) → length (xs ++ ys) ≡ length xs + length ys
  length-append [] ys = omega arith
  length-append (x ∷ xs) ys = omega (arith, length-append xs ys)

  pub count_if-le : (p : A → Bool) (xs : List A) → count_if p xs ≤ length xs
  count_if-le p [] = omega arith
  count_if-le p (x ∷ xs) = ground (arith, count_if-le p xs)

pub length-map {ℓ κ} :
    {A : Type ℓ} {B : Type κ} (f : A → B) (xs : List A) → length (map f xs) ≡ length xs
length-map f [] = refl
length-map f (x ∷ xs) = omega (arith, length-map f xs)

pub All-append {ℓ κ} :
    {A : Type ℓ} (P : A → Type κ) (xs ys : List A) → All P xs → All P ys → All P (xs ++ ys)
All-append P [] ys hx hy = hy
All-append P (x ∷ xs) ys hx hy = (hx.0, All-append P xs ys hx.1 hy)

-- Membership in a set of ids.
abbrev pub mem : ℕ → List ℕ → Bool
mem x = any (λ y. y == x)

-- `HashSet::insert`.
abbrev pub set_insert : ℕ → List ℕ → List ℕ
set_insert x xs = if mem x xs then xs else x ∷ xs

-- `HashMap::remove` of a key.
abbrev pub set_remove : ℕ → List ℕ → List ℕ
set_remove x [] = []
set_remove x (y ∷ ys) = let rest = set_remove x ys in if y == x then rest else y ∷ rest

pub mem-set_insert :
    (x y : ℕ) (xs : List ℕ) → mem y (set_insert x xs) ≡ (if x == y then true else mem y xs)
mem-set_insert x y xs = elim (Bool-cases (mem x xs)) [
  | inl old ↦ elim (Bool-cases (x == y)) [
    | inl e ↦ ground (arith, ==_iff x y)
    | inr n ↦ ground arith
  ]
  | inr new ↦ ground arith
]

pub mem-set_remove :
    (x y : ℕ) (xs : List ℕ) → mem y (set_remove x xs) ≡ (if x == y then false else mem y xs)
mem-set_remove x y [] = ground arith
mem-set_remove x y (z ∷ zs) = ground (arith, mem-set_remove x y zs)

-- A value that stands in a list.
pub data Stands {ℓ} {A : Type ℓ} (x : A) : List A → Type ℓ where
  here : (xs : List A) → Stands x (x ∷ xs)
  there : (y : A) (xs : List A) → Stands x xs → Stands x (y ∷ xs)

pub all-Stands {ℓ} :
    {A : Type ℓ} (p : A → Bool) (x : A) (xs : List A) → all p xs ≡ true → Stands x xs → p x ≡ true
all-Stands p x _ h (Stands.here xs) = ground (arith, h)
all-Stands p x _ h (Stands.there y xs s) = all-Stands p x xs (ground (arith, h)) s

pub All-Stands {ℓ κ} :
    {A : Type ℓ} (P : A → Type κ) (xs : List A) → ((x : A) → Stands x xs → P x) → All P xs
All-Stands P [] h = tt
All-Stands P (x ∷ xs) h = (h x (Stands.here xs), All-Stands P xs (λ y s. h y (Stands.there x xs s)))
