-- ===== src/Skills/Registry.antt =====
-- crates/forge-skills/src/registry.rs: which skills a mission's planner is shown. Texts are compared
-- as code points, which for whole characters is the same as on bytes; the Unicode table of
-- `to_lowercase` is an argument.
pub mod Words
use forge_os.Prelude.{
  ℕ, zero, suc, ◌+◌, ◌-◌, ◌≡◌, ◌≤◌, ◌∙◌, ap, refl, Text, text_eq, starts_with, Bool, true, false,
  not, ◌&&◌, ◌||◌, Option, none, some, List, [], ◌∷◌, ◌++◌, map, any, All, if◌then◌else◌, leb, ltb,
  ◌==◌, length, arith, Bool-cases, inl, inr,
}
use Prim.Native.Nat.{compare, Ordering}
use forge_os.Planner.{has}
use forge_os.Skills.{Skill, SkillTrigger}
use forge_os.Skills.Load.{name_of}
use forge_os.Skills.Sort.{Sorted, sort_by, any-sort_by, All-sort_by, sort_by-Sorted}
use forge_os.Skills.Version.{is_le, text_cmp}

abbrev pub is_ascii_alphanumeric : ℕ → Bool
is_ascii_alphanumeric c =
    (leb 48 c && leb c 57) || (leb 65 c && leb c 90) || (leb 97 c && leb c 122)

-- No letter or digit stands before the text, or at its head.
abbrev pub before_ok : Option ℕ → Bool
before_ok none = true
before_ok (some c) = not (is_ascii_alphanumeric c)

abbrev pub after_ok : Text → Bool
after_ok [] = true
after_ok (c ∷ s) = not (is_ascii_alphanumeric c)

abbrev pub drop : ℕ → Text → Text
drop zero s = s
drop (suc n) [] = []
drop (suc n) (c ∷ s) = drop n s

-- The search from a place on: the character before it, and how many characters of a match that was
-- refused are still to be passed over.
unfoldable pub word_from : Text → Option ℕ → ℕ → Text → Bool
word_from needle prev skip [] = false
word_from needle prev (suc k) (c ∷ s) = word_from needle (some c) k s
word_from needle prev zero (c ∷ s) = elim (starts_with (c ∷ s) needle) [
  | false ↦ word_from needle (some c) 0 s
  | true ↦ elim (before_ok prev && after_ok (drop (length needle) (c ∷ s))) [
    | true ↦ true
    | false ↦ word_from needle (some c) (length needle - 1) s
  ]
]

unfoldable pub word_present : Text → Text → Bool
unfolding word_from
word_present haystack needle = word_from needle none 0 haystack

module _ (to_lowercase : Text → Text) where
  abbrev pub keyword_score : Text → Text → Text → ℕ
  keyword_score title desc kw =
      if length kw == 0
      then 0
      else (if word_present title kw then 2 else 0) + (if word_present desc kw then 1 else 0)

  abbrev keywords_score : Text → Text → List Text → ℕ
  keywords_score title desc [] = 0
  keywords_score title desc (k ∷ ks) =
      keyword_score title desc (to_lowercase k) + keywords_score title desc ks

  unfoldable pub trigger_score : SkillTrigger → Text → Text → ℕ
  unfolding word_present
  trigger_score t title desc = keywords_score title desc t.keywords

-- A u32 in the program; no list of keywords comes near its end.
pub record SkillMatch : Type 0 where
  pub skill : Skill
  pub score : ℕ

-- The higher score first, then the name.
unfoldable pub by_score : SkillMatch → SkillMatch → Bool
unfolding text_cmp
by_score a b =
    ltb b.score a.score
    || (b.score == a.score && is_le (text_cmp (name_of a.skill) (name_of b.skill)))

module _ (to_lowercase : Text → Text) where
  unfoldable pub scored_matches : Text → Text → List Skill → List SkillMatch
  unfolding trigger_score
  scored_matches title desc [] = []
  scored_matches title desc (s ∷ ss) =
      let score = trigger_score to_lowercase s.front.triggers title desc in
      let rest = scored_matches title desc ss in
      if ltb 0 score then record { skill = s; score = score } ∷ rest else rest

  unfoldable pub select_for_mission : Text → Text → List Skill → List SkillMatch
  unfolding scored_matches sort_by by_score
  select_for_mission title desc skills =
      sort_by by_score (scored_matches (to_lowercase title) (to_lowercase desc) skills)

  -- The score that a mission gives to a skill.
  abbrev pub score_of : Text → Text → Skill → ℕ
  score_of title desc s =
      trigger_score to_lowercase s.front.triggers (to_lowercase title) (to_lowercase desc)

  pub record IsSelection (title desc : Text) (skills : List Skill) (out : List SkillMatch)
      : Type 0 where
    pub scores : All (λ m. (m.score ≡ score_of title desc m.skill) × (1 ≤ m.score)) out
    pub order : Sorted by_score (λ a b. b.score ≤ a.score) out
    pub all_scoring :
        (p : Skill → Bool)
        → any (λ m. p m.skill) out ≡ any (λ s. ltb 0 (score_of title desc s) && p s) skills

  scored_matches-scores :
      (title desc : Text) (skills : List Skill)
      → All
          (λ m.
            (m.score ≡ trigger_score to_lowercase m.skill.front.triggers title desc)
            × (1 ≤ m.score))
          (scored_matches title desc skills)
  unfolding scored_matches
  scored_matches-scores title desc [] = tt
  scored_matches-scores title desc (s ∷ ss) =
      elim (Bool-cases (ltb 0 (trigger_score to_lowercase s.front.triggers title desc))) [
        | inl scored ↦
            rw (scored, scored_matches)
              ((refl, ground (arith, scored)), scored_matches-scores title desc ss)
        | inr not_scored ↦ rw (not_scored, scored_matches) (scored_matches-scores title desc ss)
      ]

  scored_matches-any :
      (title desc : Text) (p : Skill → Bool) (skills : List Skill)
      → any (λ m. p m.skill) (scored_matches title desc skills)
        ≡ any (λ s. ltb 0 (trigger_score to_lowercase s.front.triggers title desc) && p s) skills
  unfolding scored_matches
  scored_matches-any title desc p [] = refl
  scored_matches-any title desc p (s ∷ ss) =
      elim (Bool-cases (ltb 0 (trigger_score to_lowercase s.front.triggers title desc))) [
        | inl scored ↦
            rw (scored, scored_matches) (ap (λ b. p s || b) (scored_matches-any title desc p ss))
        | inr not_scored ↦ rw (not_scored, scored_matches) (scored_matches-any title desc p ss)
      ]

  by_score-le : (a b : SkillMatch) → by_score a b ≡ true → b.score ≤ a.score
  unfolding by_score
  by_score-le a b h = ground (arith, h)

  by_score-lt : (a b : SkillMatch) → by_score a b ≡ false → a.score ≤ b.score
  unfolding by_score
  by_score-lt a b h = ground (arith, h)

  -- A mission is shown just the skills that score for it, each with its score, and none before one
  -- that scores higher.
  pub select_for_mission-IsSelection :
      (title desc : Text) (skills : List Skill)
      → IsSelection title desc skills (select_for_mission title desc skills)
  unfolding select_for_mission
  select_for_mission-IsSelection title desc skills =
      let found = scored_matches (to_lowercase title) (to_lowercase desc) skills in
      record {
        scores =
            All-sort_by by_score _ found
              (scored_matches-scores (to_lowercase title) (to_lowercase desc) skills);
        order =
            sort_by-Sorted by_score (λ a b. b.score ≤ a.score) (λ a b c h k. omega (arith, h, k))
              by_score-le by_score-lt found;
        all_scoring = λ p.
            any-sort_by by_score (λ m. p m.skill) found
            ∙ scored_matches-any (to_lowercase title) (to_lowercase desc) p skills;
      }
