-- ===== src/Skills/Registry/Words.antt =====
-- `word_present` of crates/forge-skills/src/registry.rs against a search that tries every place.
use forge_os.Prelude.{
  ℕ, zero, suc, ◌≡◌, ◌≤◌, ◌∙◌, sym, ap, refl, Text, starts_with, Bool, true, false, not, ◌&&◌, ◌||◌,
  Option, none, some, [], ◌∷◌, all, ◌==◌, ==_iff, length, arith, Bool-cases, inl, inr, and-eq-true,
  subst,
}
use forge_os.Skills.Registry.{
  is_ascii_alphanumeric, before_ok, after_ok, drop, word_from, word_present,
}

-- The needle stands here, between characters that are no letters or digits.
abbrev pub stands_here : Text → Option ℕ → Text → Bool
stands_here needle prev s =
    starts_with s needle && (before_ok prev && after_ok (drop (length needle) s))

-- It does so here or further on.
abbrev pub occurs : Text → Option ℕ → Text → Bool
occurs needle prev [] = false
occurs needle prev (c ∷ s) = stands_here needle prev (c ∷ s) || occurs needle (some c) s

-- The next so many characters are letters or digits.
abbrev run : ℕ → Text → Bool
run zero s = true
run (suc k) [] = true
run (suc k) (c ∷ s) = is_ascii_alphanumeric c && run k s

starts_with-run :
    (s needle : Text)
    → starts_with s needle ≡ true
    → all is_ascii_alphanumeric needle ≡ true
    → run (length needle) s ≡ true
unfolding starts_with
starts_with-run s [] h good = refl
starts_with-run [] (b ∷ t) h good = refl
starts_with-run (a ∷ s) (b ∷ t) h good =
    let (same, rest) = and-eq-true (a == b) (starts_with s t) h in
    let (first, others) =
      and-eq-true (is_ascii_alphanumeric b) (all is_ascii_alphanumeric t) good in
    let alike : is_ascii_alphanumeric a ≡ true =
      subst (λ c. is_ascii_alphanumeric c ≡ true) (sym ((==_iff a b).0 same)) first in
    ap (λ b. b && run (length t) s) alike ∙ starts_with-run s t rest others

-- Nothing can stand where characters of a refused match are passed over.
abbrev Ready : ℕ → Option ℕ → Text → Type 0
Ready zero prev s = Unit
Ready (suc k) prev s = (before_ok prev ≡ false) × (run (suc k) s ≡ true)

Ready-next :
    (k c : ℕ) (s : Text) → is_ascii_alphanumeric c ≡ true → run k s ≡ true → Ready k (some c) s
Ready-next zero c s h r = tt
Ready-next (suc k) c s h r = (ap not h, r)

both_true : (a b : Bool) → a ≡ true → b ≡ true → (a && b) ≡ true
both_true a b h k = ground arith

second_false : (a b : Bool) → b ≡ false → (a && b) ≡ false
second_false a b h = ground arith

module _ (x : ℕ) (rest : Text) where
  abbrev needle : Text
  needle = x ∷ rest

  closed_here :
      (prev : Option ℕ) (s : Text) → before_ok prev ≡ false → stands_here needle prev s ≡ false
  closed_here prev s closed = closed_and (starts_with s needle) (before_ok prev) _ closed
    where
      closed_and : (a b c : Bool) → b ≡ false → (a && (b && c)) ≡ false
      closed_and a b c h = ground arith

  word_from-passes :
      (prev : Option ℕ) (c : ℕ) (s : Text)
      → starts_with (c ∷ s) needle ≡ false
      → word_from needle prev 0 (c ∷ s) ≡ word_from needle (some c) 0 s
  unfolding word_from
  word_from-passes prev c s no_match = rw (no_match, word_from) refl

  word_from-refuses :
      (prev : Option ℕ) (c : ℕ) (s : Text)
      → starts_with (c ∷ s) needle ≡ true
      → (before_ok prev && after_ok (drop (length needle) (c ∷ s))) ≡ false
      → word_from needle prev 0 (c ∷ s) ≡ word_from needle (some c) (length rest) s
  unfolding word_from
  word_from-refuses prev c s found joined =
      rw (found, word_from) (rw joined (ap (λ k. word_from needle (some c) k s) (omega arith)))

  word_from-finds :
      (prev : Option ℕ) (c : ℕ) (s : Text)
      → starts_with (c ∷ s) needle ≡ true
      → (before_ok prev && after_ok (drop (length needle) (c ∷ s))) ≡ true
      → word_from needle prev 0 (c ∷ s) ≡ true
  unfolding word_from
  word_from-finds prev c s found apart = rw (found, word_from) (rw apart refl)

  word_from-occurs :
      (prev : Option ℕ) (k : ℕ) (s : Text)
      → all is_ascii_alphanumeric needle ≡ true
      → Ready k prev s
      → word_from needle prev k s ≡ occurs needle prev s
  unfolding word_from
  word_from-occurs prev zero [] good ready = refl
  word_from-occurs prev (suc k) [] good ready = refl
  word_from-occurs prev (suc k) (c ∷ s) good (closed, r) =
      let (letter, more) = and-eq-true (is_ascii_alphanumeric c) (run k s) r in
      word_from-occurs (some c) k s good (Ready-next k c s letter more)
      ∙ ap (λ b. b || occurs needle (some c) s) (sym (closed_here prev (c ∷ s) closed))
  word_from-occurs prev zero (c ∷ s) good ready = elim (Bool-cases (starts_with (c ∷ s) needle)) [
    | inr no_match ↦
        word_from-passes prev c s no_match
        ∙ word_from-occurs (some c) 0 s good tt
        ∙ ap
            (λ b.
              (b && (before_ok prev && after_ok (drop (length needle) (c ∷ s))))
              || occurs needle (some c) s)
            (sym no_match)
    | inl found ↦
        let whole = starts_with-run (c ∷ s) needle found good in
        let (letter, more) = and-eq-true (is_ascii_alphanumeric c) (run (length rest) s) whole in
        elim (Bool-cases (before_ok prev && after_ok (drop (length needle) (c ∷ s)))) [
          | inl apart ↦
              word_from-finds prev c s found apart
              ∙ sym (ap (λ b. b || occurs needle (some c) s) (both_true _ _ found apart))
          | inr joined ↦
              word_from-refuses prev c s found joined
              ∙ word_from-occurs (some c) (length rest) s good
                  (Ready-next (length rest) c s letter more)
              ∙ sym (
                  ap (λ b. b || occurs needle (some c) s)
                    (second_false (starts_with (c ∷ s) needle) _ joined))
        ]
  ]

-- For a keyword of letters and digits the search that jumps over refused matches finds just what
-- trying every place finds: whether the keyword stands somewhere in the text with no letter or digit
-- on either side.
pub word_present-occurs :
    (haystack needle : Text)
    → 1 ≤ length needle
    → all is_ascii_alphanumeric needle ≡ true
    → word_present haystack needle ≡ occurs needle none haystack
unfolding word_present
word_present-occurs haystack [] long good = absurd (omega (arith, long))
word_present-occurs haystack (x ∷ rest) long good = word_from-occurs x rest none 0 haystack good tt
