-- ===== src/Policy/Literal.antt =====
-- The patterns that the policy files of crates/forge-policy use: `^(one|two)\b` over plain words.
use mathlib.Core.List.{reverse, reverse-append, reverse-reverse}
use forge_os.Prelude.{
  ℕ, ◌≡◌, refl, ap, Text, Bool, true, false, not, ◌&&◌, List, [], ◌∷◌, ◌++◌, ok, ◌==◌, arith, all,
  any, and-eq-true, ◌∙◌,
}
use forge_os.Policy.Regex.{
  compile, trim_start, trim_end, trim_start_pairs, split, is_metachar, strip_group,
}

-- No parenthesis and no character that `compile` refuses.
abbrev is_inner : ℕ → Bool
is_inner c = not (is_metachar c) && not (c == b'(') && not (c == b')')

abbrev pub is_plain : ℕ → Bool
is_plain c = is_inner c && not (c == b'|')

abbrev pub join : Text → List Text → Text
join w [] = w
join w (v ∷ ws) = w ++ b'|' ∷ join v ws

-- The pattern that stands for a choice of words at the start of the text.
abbrev pub alternatives : Text → List Text → Text
alternatives w ws = b'^' ∷ b'(' ∷ (join w ws ++ b')' ∷ 92 ∷ b'b' ∷ [])

all-append {ℓ} :
    {A : Type ℓ} (p : A → Bool) (xs ys : List A) → all p (xs ++ ys) ≡ (all p xs && all p ys)
all-append p [] ys = refl
all-append p (x ∷ xs) ys = ground (arith, all-append p xs ys)

all-reverse {ℓ} : {A : Type ℓ} (p : A → Bool) (xs : List A) → all p (reverse xs) ≡ all p xs
all-reverse p [] = refl
all-reverse p (x ∷ xs) =
    rw (reverse-append (x ∷ []) xs)
      (rw (all-append p (reverse xs) (x ∷ [])) (ground (arith, all-reverse p xs)))

all_weaken {ℓ} :
    {A : Type ℓ} (p q : A → Bool) (xs : List A)
    → ((x : A) → p x ≡ true → q x ≡ true)
    → all p xs ≡ true
    → all q xs ≡ true
all_weaken p q [] h a = refl
all_weaken p q (x ∷ xs) h a = ground (arith, h x, all_weaken p q xs h)

trim_start_absent : (k : ℕ) (s : Text) → all (λ c. not (c == k)) s ≡ true → trim_start k s ≡ s
unfolding trim_start
trim_start_absent k [] a = refl
trim_start_absent k (c ∷ s) a = ground arith

trim_start_once : (k : ℕ) (s : Text) → all (λ c. not (c == k)) s ≡ true → trim_start k (k ∷ s) ≡ s
unfolding trim_start
trim_start_once k s a = ground (arith, trim_start_absent k s a)

trim_end_once : (k : ℕ) (s : Text) → all (λ c. not (c == k)) s ≡ true → trim_end k (s ++ k ∷ []) ≡ s
unfolding trim_end
trim_end_once k s a =
    rw (reverse-append s (k ∷ [])) (
      rw (trim_start_once k (reverse s) (all-reverse (λ c. not (c == k)) s ∙ a))
        (reverse-reverse s))

any_of_all :
    (p q : ℕ → Bool) (s : Text)
    → ((c : ℕ) → p c ≡ true → q c ≡ false)
    → all p s ≡ true
    → any q s ≡ false
any_of_all p q [] h a = refl
any_of_all p q (c ∷ s) h a = ground (arith, h c, any_of_all p q s h)

-- The inner text of the group has no parenthesis and no metacharacter.
join-inner :
    (w : Text) (ws : List Text)
    → all is_plain w ≡ true
    → all (all is_plain) ws ≡ true
    → all is_inner (join w ws) ≡ true
join-inner w [] a as_ = all_weaken is_plain is_inner w (λ c h. ground arith) a
join-inner w (v ∷ ws) a as_ =
    rw (all-append is_inner w (b'|' ∷ join v ws))
      (ground (arith, all_weaken is_plain is_inner w (λ c h. ground arith) a, join-inner v ws))

split_plain : (s : Text) → all is_plain s ≡ true → split b'|' s ≡ s ∷ []
unfolding split
split_plain [] a = refl
split_plain (c ∷ s) a = ground (arith, split_plain s)

split_bar : (s t : Text) → all is_plain s ≡ true → split b'|' (s ++ b'|' ∷ t) ≡ s ∷ split b'|' t
unfolding split
split_bar [] t a = refl
split_bar (c ∷ s) t a = ground (arith, split_bar s t)

split-join :
    (w : Text) (ws : List Text)
    → all is_plain w ≡ true
    → all (all is_plain) ws ≡ true
    → split b'|' (join w ws) ≡ w ∷ ws
split-join w [] a as_ = split_plain w a
split-join w (v ∷ ws) a as_ =
    let (av, aws) = and-eq-true (all is_plain v) (all (all is_plain) ws) as_ in
    rw (split_bar w (join v ws) a) (rw (split-join v ws av aws))

trim_pairs_group : (s : Text) → trim_start_pairs (b'b' ∷ 92 ∷ b')' ∷ s) ≡ b')' ∷ s
unfolding trim_start_pairs
trim_pairs_group [] = refl
trim_pairs_group (c ∷ s) = ground arith

-- What is left of the pattern once the caret and the trailing `\b` are gone.
trim_tail :
    (s : Text) → reverse (trim_start_pairs (reverse (s ++ b')' ∷ 92 ∷ b'b' ∷ []))) ≡ s ++ b')' ∷ []
trim_tail s = rw (reverse-append s (b')' ∷ 92 ∷ b'b' ∷ [])) (
    rw (trim_pairs_group (reverse s))
      (reverse-append (b')' ∷ []) (reverse s) ∙ ap (λ t. t ++ b')' ∷ []) (reverse-reverse s)))

module _ (w : Text) (ws : List Text) (a : all is_plain w ≡ true)
    (as_ : all (all is_plain) ws ≡ true) where
  strip_group-join : strip_group (b'(' ∷ (join w ws ++ b')' ∷ [])) ≡ join w ws
  strip_group-join =
      let inner = join-inner w ws a as_ in
      rw
        (trim_start_once b'(' (join w ws ++ b')' ∷ []) (
          all-append (λ c. not (c == b'(')) (join w ws) (b')' ∷ [])
          ∙ ground (
            arith,
            all_weaken is_inner (λ c. not (c == b'(')) (join w ws) (λ c h. ground arith) inner,
          )))
        (trim_end_once b')' (join w ws)
          (all_weaken is_inner (λ c. not (c == b')')) (join w ws) (λ c h. ground arith) inner))

  no_metachar : any is_metachar (join w ws) ≡ false
  no_metachar =
      any_of_all is_inner is_metachar (join w ws) (λ c h. ground arith) (join-inner w ws a as_)

-- `^(w|…)\b`, where the words have no special character, compiles to exactly these words, anchored:
-- the group and the bars are taken apart, and the `\b` is dropped. So no end of a word is asked for.
pub compile-alternatives :
    (w : Text) (ws : List Text)
    → all is_plain w ≡ true
    → all (all is_plain) ws ≡ true
    → compile (alternatives w ws) ≡ ok (record { anchored = true; alts = w ∷ ws })
unfolding compile
compile-alternatives w ws a as_ =
    rw (trim_tail (b'(' ∷ join w ws))
      (rw (strip_group-join w ws a as_) (rw (no_metachar w ws a as_) (rw (split-join w ws a as_))))
