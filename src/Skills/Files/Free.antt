-- ===== src/Skills/Files/Free.antt =====
-- The loop of `retire_active_skill` in crates/forge-skills/src/proposal.rs that looks for a free name.
use forge_os.Prelude.{
  ℕ, zero, suc, ◌≡◌, ◌≤◌, ◌<◌, refl, sym, ap, ◌∙◌, subst, Text, text_eq, text_eq_iff, decimal,
  decimal_injective, true, false, some, List, [], ◌∷◌, length, length-append, arith, Bool-cases,
  inl, inr, if◌then◌else◌, ◌||◌, ◌≢◌,
}
use mathlib.Core.List.{append_cancel_right}
use forge_os.Planner.{has}
use forge_os.Skills.Files.{candidate, next_free}

candidate_longer : (file : Text) (n : ℕ) → candidate file 0 ≢ candidate file (suc n)
unfolding candidate
candidate_longer file n h = omega (arith, ap length h, length-append (decimal (suc n)) (45 ∷ file))

candidate_injective : (file : Text) (m n : ℕ) → candidate file m ≡ candidate file n → m ≡ n
unfolding candidate
candidate_injective file zero zero h = refl
candidate_injective file zero (suc n) h = absurd (candidate_longer file n h)
candidate_injective file (suc m) zero h = absurd (candidate_longer file m (sym h))
candidate_injective file (suc m) (suc n) h =
    decimal_injective (suc m) (suc n)
      (append_cancel_right (decimal (suc m)) (decimal (suc n)) (45 ∷ file) h)

-- The names but the first that is `x`.
abbrev drop_name : Text → List Text → List Text
drop_name x [] = []
drop_name x (y ∷ ys) = let rest = drop_name x ys in if text_eq y x then ys else y ∷ rest

drop_name-length :
    (x : Text) (ys : List Text) → has x ys ≡ true → suc (length (drop_name x ys)) ≡ length ys
drop_name-length x [] h = absurd (ground (arith, h))
drop_name-length x (y ∷ ys) h = elim (Bool-cases (text_eq y x)) [
  | inl same ↦ rw (same, drop_name) refl
  | inr other ↦
      rw (other, drop_name) (ground (arith, drop_name-length x ys (ground (arith, h, other))))
]

has-drop_name :
    (x z : Text) (ys : List Text) → text_eq x z ≡ false → has z (drop_name x ys) ≡ has z ys
has-drop_name x z [] h = refl
has-drop_name x z (y ∷ ys) h = elim (Bool-cases (text_eq y x)) [
  | inl same ↦
      let e : text_eq y z ≡ false =
        subst (λ t. text_eq t z ≡ false) (sym ((text_eq_iff y x).0 same)) h in
      rw (same, drop_name) (rw e refl)
  | inr other ↦ rw (other, drop_name) (ap (λ b. text_eq y z || b) (has-drop_name x z ys h))
]

-- The names of two numbers are told apart.
candidate-text_eq :
    (file : Text) (m n : ℕ) → m < n → text_eq (candidate file m) (candidate file n) ≡ false
candidate-text_eq file m n h = elim (Bool-cases (text_eq (candidate file m) (candidate file n))) [
  | inr differ ↦ differ
  | inl same ↦ absurd (
      omega (
        arith,
        h,
        candidate_injective file m n ((text_eq_iff (candidate file m) (candidate file n)).0 same),
      ))
]

next_free-taken :
    (fuel n : ℕ) (file : Text) (xs : List Text)
    → has (candidate file n) xs ≡ true
    → next_free (suc fuel) n file xs ≡ next_free fuel (suc n) file xs
unfolding next_free
next_free-taken fuel n file xs taken = rw (taken, next_free) refl

next_free-free :
    (fuel n : ℕ) (file : Text) (xs : List Text)
    → has (candidate file n) xs ≡ false
    → next_free (suc fuel) n file xs ≡ some (candidate file n)
unfolding next_free
next_free-free fuel n file xs free = rw (free, next_free) refl

-- Names that no candidate from `n` on has make no difference.
next_free-agree :
    (fuel n : ℕ) (file : Text) (xs ys : List Text)
    → ((j : ℕ) → n ≤ j → has (candidate file j) xs ≡ has (candidate file j) ys)
    → next_free fuel n file xs ≡ next_free fuel n file ys
unfolding next_free
next_free-agree zero n file xs ys same = refl
next_free-agree (suc fuel) n file xs ys same = elim (Bool-cases (has (candidate file n) ys)) [
  | inr free ↦
      next_free-free fuel n file xs (same n (omega arith) ∙ free)
      ∙ sym (next_free-free fuel n file ys free)
  | inl taken ↦
      next_free-taken fuel n file xs (same n (omega arith) ∙ taken)
      ∙ next_free-agree fuel (suc n) file xs ys (λ j h. same j (omega (arith, h)))
      ∙ sym (next_free-taken fuel n file ys taken)
]

-- With one more try than there are names a free one is found.
pub next_free_found :
    (fuel n : ℕ) (file : Text) (taken : List Text)
    → length taken < fuel
    → (j : ℕ) × (n ≤ j)
      × (next_free fuel n file taken ≡ some (candidate file j))
      × (has (candidate file j) taken ≡ false)
unfolding next_free
next_free_found zero n file taken h = absurd (omega (arith, h))
next_free_found (suc fuel) n file taken h = elim (Bool-cases (has (candidate file n) taken)) [
  | inr free ↦ (n, omega arith, rw (free, next_free) refl, free)
  | inl found ↦
      let fewer = drop_name (candidate file n) taken in
      let size = drop_name-length (candidate file n) taken found in
      let (j, le, e, free) = next_free_found fuel (suc n) file fewer (omega (arith, h, size)) in
      let same : (i : ℕ) → suc n ≤ i → has (candidate file i) fewer ≡ has (candidate file i) taken =
        λ i k.
          has-drop_name (candidate file n) (candidate file i) taken
            (candidate-text_eq file n i (omega (arith, k))) in
      (
        j,
        omega (arith, le),
        rw (found, next_free) (sym (next_free-agree fuel (suc n) file fewer taken same) ∙ e),
        sym (same j le) ∙ free,
      )
]
