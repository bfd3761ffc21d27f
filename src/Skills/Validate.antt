-- ===== src/Skills/Validate.antt =====
-- crates/forge-skills/src/validate.rs: the gate that a proposed skill passes before it is promoted.
use forge_os.Prelude.{
  ℕ, ◌+◌, Text, text, text_eq, starts_with, decimal, Bool, true, false, not, ◌&&◌, ◌||◌, Option,
  none, some, List, [], ◌∷◌, ◌++◌, map, ok, err, if◌then◌else◌, leb, ltb, ◌==◌, length, keep_if,
  count_if, all, any, is_whitespace,
}
use forge_os.Planner.{has, quoted}
use forge_os.Skills.{
  Skill, SkillError, malformed, missing_front_matter, yaml, missing_field, Yaml, parse_skill,
}
use forge_os.Skills.Version.{version_less}

pub data Severity : Type 0 where
  hard soft : Severity

pub record ValidationCheck : Type 0 where
  pub id : Text
  pub severity : Severity
  pub passed : Bool
  pub message : Text

pub record ValidationReport : Type 0 where
  pub ok : Bool
  pub checks : List ValidationCheck

pub record ActiveSkillSummary : Type 0 where
  pub name : Text
  pub version : Text
  pub keywords : List Text

pub record ValidatorContext : Type 0 where
  pub known_tools : List Text
  pub active_skills : List ActiveSkillSummary

abbrev pub is_soft : Severity → Bool
is_soft soft = true
is_soft hard = false

-- `iter().all(|c| c.passed || c.severity == Severity::Soft)`
abbrev pub harmless : ValidationCheck → Bool
harmless c = c.passed || is_soft c.severity

abbrev pub report_of : List ValidationCheck → ValidationReport
report_of checks = record { ok = all harmless checks; checks = checks }

unfoldable pub failed : ValidationReport → List Text
failed r = map (λ c. c.id) (keep_if (λ c. not c.passed) r.checks)

unfoldable pub hard_failures : ValidationReport → List Text
hard_failures r = map (λ c. c.id) (keep_if (λ c. not c.passed && not (is_soft c.severity)) r.checks)

-- `pass` or `fail`.
abbrev pub check : Text → Severity → Bool → Text → ValidationCheck
check id severity good message = record {
  id = id;
  severity = severity;
  passed = good;
  message = if good then [] else message;
}

abbrev pub utf8_len : ℕ → ℕ
utf8_len c = if ltb c 128 then 1 else if ltb c 2048 then 2 else if ltb c 65536 then 3 else 4

-- `split_whitespace().map(str::len).sum()`, in bytes.
unfoldable pub body_len : Text → ℕ
unfolding is_whitespace
body_len [] = 0
body_len (c ∷ s) = (if is_whitespace c then 0 else utf8_len c) + body_len s

-- `join(", ")`
unfoldable pub join_comma : List Text → Text
join_comma [] = []
join_comma (x ∷ []) = x
join_comma (x ∷ y ∷ ys) = x ++ (text ", " ++ join_comma (y ∷ ys))

unfoldable pub resolves : ValidatorContext → Text → Bool
unfolding text_eq starts_with
resolves ctx t = has t ctx.known_tools || starts_with t (text "mcp:")

unfoldable pub overlap : Skill → ActiveSkillSummary → ℕ
unfolding text_eq
overlap s other = count_if (λ k. has k s.front.triggers.keywords) other.keywords

unfoldable pub collisions : Skill → List ActiveSkillSummary → List ActiveSkillSummary
unfolding overlap text_eq
collisions s = keep_if (λ other. not (text_eq other.name s.front.name) && leb 3 (overlap s other))

-- The first active skill with that name.
unfoldable pub previous : Text → List ActiveSkillSummary → Option Text
unfolding text_eq
previous name [] = none
previous name (a ∷ more) =
    let rest = previous name more in if text_eq a.name name then some a.version else rest

abbrev pub regresses : Text → Option Text → Bool
regresses version none = false
regresses version (some prev) = version_less version prev

abbrev pub or_empty : Option Text → Text
or_empty none = []
or_empty (some s) = s

abbrev pub is_ascii_uppercase : ℕ → Bool
is_ascii_uppercase c = leb 65 c && leb c 90

abbrev pub is_empty {ℓ} : {A : Type ℓ} → List A → Bool
is_empty l = length l == 0

abbrev pub has_trigger : Skill → Bool
has_trigger s =
    not (is_empty s.front.triggers.keywords) || not (is_empty s.front.triggers.file_globs)

abbrev pub unresolved : Skill → ValidatorContext → List Text
unresolved s ctx = keep_if (λ t. not (resolves ctx t)) s.front.tools

abbrev pub loud : Skill → List Text
loud s = keep_if (λ k. any is_ascii_uppercase k) s.front.triggers.keywords

unfoldable pub checks_of : Skill → ValidatorContext → List ValidationCheck
unfolding body_len join_comma collisions previous
checks_of s ctx =
    let prev = previous s.front.name ctx.active_skills in
    let clashes = collisions s ctx.active_skills in
    check (text "parses") hard true []
    ∷ check (text "body_length") hard (leb 40 (body_len s.body)) (
        text "body has only "
        ++ decimal (body_len s.body)
        ++ text " non-whitespace chars; expected ≥ 40")
    ∷ check (text "has_trigger") hard (has_trigger s)
        (text "must declare at least one keyword or file_glob")
    ∷ check (text "tools_declared") hard (not (is_empty s.front.tools))
        (text "must declare at least one tool")
    ∷ check (text "tools_resolvable") hard (is_empty (unresolved s ctx)) (
        text "unknown tool(s): "
        ++ join_comma (unresolved s ctx)
        ++ text " — declare them in the tool registry or prefix with `mcp:`")
    ∷ check (text "no_name_collision") soft (is_empty clashes) (
        text "shares ≥3 keywords with: "
        ++ join_comma (
            map (λ o. quoted o.name ++ (text " (" ++ (decimal (overlap s o) ++ text " kw)")))
              clashes))
    ∷ check (text "version_monotonic") soft (not (regresses s.front.version prev)) (
        text "proposed version " ++ s.front.version ++ text " < currently-active " ++ or_empty prev)
    ∷ check (text "keywords_normalised") soft (is_empty (loud s))
        (text "keyword(s) contain uppercase — matcher is case-insensitive: " ++ join_comma (loud s))
    ∷ []

unfoldable pub validate_skill : Skill → ValidatorContext → ValidationReport
unfolding checks_of
validate_skill s ctx = report_of (checks_of s ctx)

unfoldable pub skill_error_display : SkillError → Text
skill_error_display (malformed name reason) =
    text "skill " ++ (quoted name ++ (text " is malformed: " ++ reason))
skill_error_display missing_front_matter =
    text "skill file has no YAML front-matter (expected leading `---` fence)"
skill_error_display (yaml e) = text "skill front-matter YAML: " ++ e
skill_error_display (missing_field f) = text "skill missing required field " ++ quoted f

unfoldable pub validate_bytes : Yaml → Text → ValidatorContext → ValidationReport
unfolding validate_skill skill_error_display parse_skill
validate_bytes y raw ctx = elim (parse_skill y raw) [
  | ok s ↦ validate_skill s ctx
  | err e ↦ record {
    ok = false;
    checks =
        check (text "parses") hard false
          (text "front-matter parse error: " ++ skill_error_display e)
        ∷ [];
  }
]
