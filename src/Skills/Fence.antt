-- ===== src/Skills/Fence.antt =====
-- What `parse_skill` of crates/forge-skills/src/format.rs reads out of a document that
-- `write_proposal` or `approve_proposal_detail` wrote.
use forge_os.Prelude.{
  ℕ, ◌≡◌, refl, sym, ap, ◌∙◌, Text, text, text_eq, true, false, Option, none, some, [], ◌∷◌, ◌++◌,
  ok, err, if◌then◌else◌, ◌==◌, ==_iff, Bool-cases, inl, inr, trim, arith, append_assoc, append-nil,
  trim-append, is_whitespace,
}
use forge_os.Planner.Fences.{strip_prefix}
use forge_os.Skills.{
  split_front, parse_lines, SkillFrontMatter, missing_field, Yaml, unix_lines, strip_bom, dashes,
  before, fence_from, split_at_fence, is_blank, check_front, read_front, parse_skill, parse_lines,
  ends_line, end_line, document,
}

before-before : (a b : Text) (o : Option (Text × Text)) → before a (before b o) ≡ before (a ++ b) o
before-before a b none = refl
before-before a b (some (h, t)) = ap (λ l. some (l, t)) (sym (append_assoc a b h))

before-none : (a : Text) (o : Option (Text × Text)) → before a o ≡ none → o ≡ none
before-none a none h = refl
before-none a (some p) h = absurd (ground (arith, h))

fence_from-inside :
    (line : Text) (c : ℕ) (s : Text)
    → (c == 10) ≡ false
    → fence_from line (c ∷ s) ≡ fence_from (line ++ c ∷ []) s
unfolding fence_from
fence_from-inside line c s other = rw (other, fence_from) refl

fence_from-newline :
    (line : Text) (c : ℕ) (s : Text)
    → (c == 10) ≡ true
    → text_eq line dashes ≡ false
    → fence_from line (c ∷ s) ≡ before (line ++ c ∷ []) (fence_from [] s)
unfolding fence_from
fence_from-newline line c s newline plain =
    rw (newline, fence_from)
      (rw plain
        (ap (λ d. before (line ++ d ∷ []) (fence_from [] s)) (sym ((==_iff c 10).0 newline))))

fence_from-fence :
    (line : Text) (c : ℕ) (s : Text)
    → (c == 10) ≡ true
    → text_eq line dashes ≡ true
    → fence_from line (c ∷ s) ≡ some ([], s)
unfolding fence_from
fence_from-fence line c s newline fence = rw (newline, fence_from) (rw fence refl)

-- A line that ends is no fence if none is found.
not_fence :
    (line : Text) (c : ℕ) (s : Text)
    → (c == 10) ≡ true
    → fence_from line (c ∷ s) ≡ none
    → text_eq line dashes ≡ false
not_fence line c s newline quiet = elim (Bool-cases (text_eq line dashes)) [
  | inr plain ↦ plain
  | inl fence ↦ absurd (ground (arith, quiet, fence_from-fence line c s newline fence))
]

-- Whole lines without a fence are passed over.
fence_from-lines :
    (line y s : Text)
    → fence_from line y ≡ none
    → ends_line y ≡ true
    → fence_from line (y ++ s) ≡ before (line ++ y) (fence_from [] s)
fence_from-lines line [] s quiet whole = absurd (ground (arith, whole))
fence_from-lines line (c ∷ []) s quiet newline =
    fence_from-newline line c s newline (not_fence line c [] newline quiet)
fence_from-lines line (c ∷ d ∷ y) s quiet whole = elim (Bool-cases (c == 10)) [
  | inr other ↦
      fence_from-inside line c (d ∷ y ++ s) other
      ∙ fence_from-lines (line ++ c ∷ []) (d ∷ y) s
          (sym (fence_from-inside line c (d ∷ y) other) ∙ quiet) whole
      ∙ ap (λ l. before l (fence_from [] s)) (append_assoc line (c ∷ []) (d ∷ y))
  | inl newline ↦
      let plain = not_fence line c (d ∷ y) newline quiet in
      let rest =
        before-none (line ++ c ∷ []) _
          (sym (fence_from-newline line c (d ∷ y) newline plain) ∙ quiet) in
      fence_from-newline line c (d ∷ y ++ s) newline plain
      ∙ ap (before (line ++ c ∷ [])) (fence_from-lines [] (d ∷ y) s rest whole)
      ∙ before-before (line ++ c ∷ []) (d ∷ y) (fence_from [] s)
      ∙ ap (λ l. before l (fence_from [] s)) (append_assoc line (c ∷ []) (d ∷ y))
]

-- What serde_yaml writes for front matter: whole lines without a fence, that it reads back.
pub record IsYaml (yaml : Yaml) (front : SkillFrontMatter) : Type 0 where
  pub read_back : yaml.from_str (end_line (yaml.to_string front)) ≡ ok front
  pub no_fence : split_at_fence (end_line (yaml.to_string front)) ≡ none
  pub whole : ends_line (end_line (yaml.to_string front)) ≡ true

check_front-trim :
    (front : SkillFrontMatter) (a b : Text)
    → trim a ≡ trim b
    → check_front front a ≡ check_front front b
unfolding check_front
check_front-trim front a b same =
    ap
      (λ t.
        if is_blank front.name
        then err (missing_field (text "name"))
        else if is_blank front.version
        then err (missing_field (text "version"))
        else if is_blank front.description
        then err (missing_field (text "description"))
        else ok (record { front = front; body = t; source_path = [] }))
      same

module _ (yaml : Yaml) (front : SkillFrontMatter) (body : Text) where
  abbrev pub written : Text
  written = document (yaml.to_string front) body

  -- A document is read back as the skill with that front matter, and the body without the blanks
  -- around it.
  pub parse_skill-document :
      IsYaml yaml front
      → unix_lines written ≡ written
      → parse_skill yaml written ≡ check_front front body
  unfolding parse_skill parse_lines strip_bom strip_prefix split_at_fence is_whitespace split_front
      read_front
  parse_skill-document y unix =
      let head = end_line (yaml.to_string front) in
      let tail = body ++ 10 ∷ [] in
      let split : split_at_fence (head ++ (dashes ++ 10 ∷ tail)) ≡ some (head, tail) =
        fence_from-lines [] head (dashes ++ 10 ∷ tail) y.no_fence y.whole
        ∙ ap (λ l. some (l, tail)) (append-nil head) in
      ap (parse_lines yaml) unix
      ∙ ap (split_front yaml) split
      ∙ ap (λ r. read_front r tail) y.read_back
      ∙ check_front-trim front tail body (trim-append body (10 ∷ []) (refl, tt))
