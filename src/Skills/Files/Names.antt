-- ===== src/Skills/Files/Names.antt =====
-- Lists of distinct file names, and files that are taken out of a folder.
use forge_os.Prelude.{
  Bool, any, keep_if, subst, ◌≡◌, refl, sym, ap, ◌∙◌, Text, text_eq, text_eq_iff, true, false, ◌||◌,
  and-eq-true, or-eq-false, not, List, [], ◌∷◌, ◌++◌, arith, Bool-cases, inl, inr,
}
use mathlib.Core.List.{map-append}
use forge_os.Planner.{has}
use forge_os.Planner.Distinct.{distinct_names}
use forge_os.Skills.Files.{replace, write, exists, Folder, file_names, remove}

pub has-append : (x : Text) (xs ys : List Text) → has x (xs ++ ys) ≡ (has x xs || has x ys)
has-append x [] ys = refl
has-append x (y ∷ xs) ys = ground (arith, has-append x xs ys)

pub distinct_names-concat :
    (xs : List Text) (x : Text)
    → distinct_names xs ≡ true
    → has x xs ≡ false
    → distinct_names (xs ++ x ∷ []) ≡ true
distinct_names-concat [] x h free = refl
distinct_names-concat (y ∷ ys) x h free =
    let (first, rest) = and-eq-true (not (has y ys)) (distinct_names ys) h in
    let (differ, later) = or-eq-false (text_eq y x) (has x ys) free in
    let swapped : text_eq x y ≡ false = elim (Bool-cases (text_eq x y)) [
      | inr e ↦ e
      | inl e ↦ absurd (ground (arith, differ, (text_eq_iff y x).1 (sym ((text_eq_iff x y).0 e))))
    ] in
    ground (arith, first, has-append y ys (x ∷ []), swapped, distinct_names-concat ys x rest later)

-- Leaving one out.
distinct_names-middle :
    (xs : List Text) (y : Text) (ys : List Text)
    → distinct_names (xs ++ y ∷ ys) ≡ true
    → distinct_names (xs ++ ys) ≡ true
distinct_names-middle [] y ys h = (and-eq-true (not (has y ys)) (distinct_names ys) h).1
distinct_names-middle (x ∷ xs) y ys h =
    let (first, rest) =
      and-eq-true (not (has x (xs ++ y ∷ ys))) (distinct_names (xs ++ y ∷ ys)) h in
    ground (
      arith,
      first,
      has-append x xs (y ∷ ys),
      has-append x xs ys,
      distinct_names-middle xs y ys rest,
    )

remove-absent : (f : Text) (d : Folder) → has f (file_names d) ≡ false → remove f d ≡ d
unfolding remove
remove-absent f [] h = refl
remove-absent f (e ∷ d) h =
    let (differ, later) = or-eq-false (text_eq e.0 f) (has f (file_names d)) h in
    rw (differ, remove) (ap (λ l. e ∷ l) (remove-absent f d later))

-- A file that stands once is taken out of its place.
pub remove-middle :
    (f c : Text) (before after : Folder)
    → distinct_names (file_names (before ++ (f, c) ∷ after)) ≡ true
    → remove f (before ++ (f, c) ∷ after) ≡ before ++ after
unfolding remove
remove-middle f c [] after h =
    let (first, rest) =
      and-eq-true (not (has f (file_names after))) (distinct_names (file_names after)) h in
    rw ((text_eq_iff f f).1 refl, remove) (remove-absent f after (ground (arith, first)))
remove-middle f c (e ∷ before) after h =
    let others = file_names (before ++ (f, c) ∷ after) in
    let (first, rest) = and-eq-true (not (has e.0 others)) (distinct_names others) h in
    let there : has e.0 others
        ≡ (has e.0 (file_names before) || (text_eq f e.0 || has e.0 (file_names after))) =
      ap (has e.0) (map-append (λ x. x.0) before ((f, c) ∷ after))
      ∙ has-append e.0 (file_names before) (f ∷ file_names after) in
    let differ : text_eq e.0 f ≡ false = elim (Bool-cases (text_eq e.0 f)) [
      | inr n ↦ n
      | inl same ↦
          absurd
            (ground (arith, first, there, (text_eq_iff f e.0).1 (sym ((text_eq_iff e.0 f).0 same))))
    ] in
    rw (differ, remove) (ap (λ l. e ∷ l) (remove-middle f c before after rest))

pub distinct_files-middle :
    (before : Folder) (e : Text × Text) (after : Folder)
    → distinct_names (file_names (before ++ e ∷ after)) ≡ true
    → distinct_names (file_names (before ++ after)) ≡ true
distinct_files-middle before e after h =
    subst (λ l. distinct_names l ≡ true) (sym (map-append (λ x. x.0) before after))
      (distinct_names-middle (file_names before) e.0 (file_names after)
        (subst (λ l. distinct_names l ≡ true) (map-append (λ x. x.0) before (e ∷ after)) h))

pub distinct_files-concat :
    (d : Folder) (e : Text × Text)
    → distinct_names (file_names d) ≡ true
    → has e.0 (file_names d) ≡ false
    → distinct_names (file_names (d ++ e ∷ [])) ≡ true
distinct_files-concat d e h free =
    subst (λ l. distinct_names l ≡ true) (sym (map-append (λ x. x.0) d (e ∷ [])))
      (distinct_names-concat (file_names d) e.0 h free)

has-keep_if :
    (q : Text × Text → Bool) (x : Text) (d : Folder)
    → has x (file_names d) ≡ false
    → has x (file_names (keep_if q d)) ≡ false
has-keep_if q x [] h = refl
has-keep_if q x (e ∷ d) h =
    let (differ, rest) = or-eq-false (text_eq e.0 x) (has x (file_names d)) h in
    let later = has-keep_if q x d rest in
    elim (Bool-cases (q e)) [
      | inl kept ↦ rw (kept, keep_if) (rw (differ, any) later)
      | inr left ↦ rw (left, keep_if) later
    ]

pub distinct_files-keep_if :
    (q : Text × Text → Bool) (d : Folder)
    → distinct_names (file_names d) ≡ true
    → distinct_names (file_names (keep_if q d)) ≡ true
distinct_files-keep_if q [] h = refl
distinct_files-keep_if q (e ∷ d) h =
    let (first, rest) =
      and-eq-true (not (has e.0 (file_names d))) (distinct_names (file_names d)) h in
    let later = distinct_files-keep_if q d rest in
    elim (Bool-cases (q e)) [
      | inl kept ↦
          let free = has-keep_if q e.0 d (ground (arith, first)) in
          rw (kept, keep_if) (rw (free, any) later)
      | inr left ↦ rw (left, keep_if) later
    ]

replace-names : (f c : Text) (d : Folder) → file_names (replace f c d) ≡ file_names d
replace-names f c [] = refl
replace-names f c (e ∷ d) = elim (Bool-cases (text_eq e.0 f)) [
  | inl same ↦ rw same (
      ap (λ l. f ∷ l) (replace-names f c d)
      ∙ ap (λ t. t ∷ file_names d) (sym ((text_eq_iff e.0 f).0 same)))
  | inr other ↦ rw other (ap (λ l. e.0 ∷ l) (replace-names f c d))
]

pub distinct_files-write :
    (f c : Text) (d : Folder)
    → distinct_names (file_names d) ≡ true
    → distinct_names (file_names (write f c d)) ≡ true
unfolding write
distinct_files-write f c d h = elim (Bool-cases (exists f d)) [
  | inl old ↦ rw (old, write) (subst (λ l. distinct_names l ≡ true) (sym (replace-names f c d)) h)
  | inr fresh ↦ rw (fresh, write) (distinct_files-concat d (f, c) h fresh)
]
