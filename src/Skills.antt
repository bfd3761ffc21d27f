-- ===== src/Skills.antt =====
-- crates/forge-skills/src/format.rs: a skill, and its `SKILL.md` file. `from_str` and `to_string` of
-- the serde_yaml crate are arguments; a text is a list of code points.
pub mod Version
pub mod Sort
pub mod Validate
pub mod Verdict
pub mod Load
pub mod Registry
pub mod Fence
pub mod Files
use forge_os.Prelude.{
  ℕ, ◌≡◌, Text, text, text_eq, Bool, true, false, ◌&&◌, not, Option, none, some, List, [], ◌∷◌,
  ◌++◌, Result, ok, err, if◌then◌else◌, ◌==◌, length, trim,
}
use forge_os.Planner.Fences.{strip_prefix}

pub data SkillStatus : Type 0 where
  active pending_review archived : SkillStatus

pub record SkillTrigger : Type 0 where
  pub keywords : List Text
  pub file_globs : List Text

pub record SkillIo : Type 0 where
  pub name : Text
  pub ty : Text
  pub description : Text

pub record SkillFrontMatter : Type 0 where
  pub name : Text
  pub version : Text
  pub description : Text
  pub status : SkillStatus
  pub tools : List Text
  pub triggers : SkillTrigger
  pub inputs : List SkillIo
  pub outputs : List SkillIo

pub record Skill : Type 0 where
  pub front : SkillFrontMatter
  pub body : Text
  pub source_path : Text

-- `io` errors are left out: the disk works.
pub data SkillError : Type 0 where
  malformed : Text → Text → SkillError
  missing_front_matter : SkillError
  yaml : Text → SkillError
  missing_field : Text → SkillError

-- The serde_yaml crate on front matter.
pub record Yaml : Type 0 where
  pub from_str : Text → Result Text SkillFrontMatter
  pub to_string : SkillFrontMatter → Text

abbrev at_line_end : Text → Bool
at_line_end [] = false
at_line_end (c ∷ s) = c == 10

-- `replace("\r\n", "\n")`
unfoldable pub unix_lines : Text → Text
unix_lines [] = []
unix_lines (c ∷ s) = let rest = unix_lines s in if c == 13 && at_line_end s then rest else c ∷ rest

-- `trim_start_matches('\u{feff}')`
unfoldable pub strip_bom : Text → Text
strip_bom [] = []
strip_bom (c ∷ s) = let rest = strip_bom s in if c == 65279 then rest else c ∷ s

abbrev pub dashes : Text
dashes = 45 ∷ 45 ∷ 45 ∷ []

abbrev pub before : Text → Option (Text × Text) → Option (Text × Text)
before s none = none
before s (some (head, body)) = some (s ++ head, body)

-- The lines before and after the fence, when `line` is read already.
unfoldable pub fence_from : Text → Text → Option (Text × Text)
unfolding text_eq
fence_from line [] = if text_eq line dashes then some ([], []) else none
fence_from line (c ∷ s) = elim (c == 10) [
  | false ↦ fence_from (line ++ c ∷ []) s
  | true ↦ elim (text_eq line dashes) [
    | true ↦ some ([], s)
    | false ↦ before (line ++ 10 ∷ []) (fence_from [] s)
  ]
]

unfoldable pub split_at_fence : Text → Option (Text × Text)
unfolding fence_from
split_at_fence s = fence_from [] s

abbrev pub is_blank : Text → Bool
is_blank s = length (trim s) == 0

-- The checks on the front matter.
unfoldable pub check_front : SkillFrontMatter → Text → Result SkillError Skill
unfolding trim
check_front front body =
    if is_blank front.name
    then err (missing_field (text "name"))
    else if is_blank front.version
    then err (missing_field (text "version"))
    else if is_blank front.description
    then err (missing_field (text "description"))
    else ok (record { front = front; body = trim body; source_path = [] })

unfoldable pub read_front : Result Text SkillFrontMatter → Text → Result SkillError Skill
unfolding check_front
read_front (err e) body = err (SkillError.yaml e)
read_front (ok front) body = check_front front body

module _ (yaml : Yaml) where
  unfoldable pub split_front : Option (Text × Text) → Result SkillError Skill
  unfolding read_front
  split_front none =
      err (malformed (text "<unknown>") (text "no closing `---` fence for front-matter"))
  split_front (some (head, body)) = read_front (yaml.from_str head) body

  -- From the text with plain line endings on.
  unfoldable pub parse_lines : Text → Result SkillError Skill
  unfolding strip_bom strip_prefix split_at_fence split_front
  parse_lines s = elim (strip_prefix (dashes ++ 10 ∷ []) (strip_bom s)) [
    | none ↦ err missing_front_matter
    | some after_open ↦ split_front (split_at_fence after_open)
  ]

  unfoldable pub parse_skill : Text → Result SkillError Skill
  unfolding unix_lines parse_lines
  parse_skill source = parse_lines (unix_lines source)

abbrev pub ends_line : Text → Bool
ends_line [] = false
ends_line (c ∷ []) = c == 10
ends_line (c ∷ d ∷ s) = ends_line (d ∷ s)

abbrev pub end_line : Text → Text
end_line s = if ends_line s then s else s ++ 10 ∷ []

-- The document that `write_proposal` and `approve_proposal_detail` write.
abbrev pub document : Text → Text → Text
document head body = dashes ++ 10 ∷ (end_line head ++ (dashes ++ 10 ∷ (body ++ 10 ∷ [])))
