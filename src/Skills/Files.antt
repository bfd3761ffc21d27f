-- ===== src/Skills/Files.antt =====
-- crates/forge-skills/src/proposal.rs: the folders of the skills, and what moves files between them.
-- A folder is a list of files in the order in which it is read; the disk works. The time of day,
-- the hash of the sha2 crate and the serde_yaml crate are arguments.
pub mod Free
pub mod Reads
pub mod Names
pub mod Retire
pub mod Restore
pub mod Approve
use forge_os.Prelude.{
  ℕ, zero, suc, ◌+◌, Text, text, text_eq, decimal, Bool, true, false, not, ◌&&◌, ◌||◌, Option, none,
  some, List, [], ◌∷◌, ◌++◌, map, Result, ok, err, if◌then◌else◌, leb, ltb, ◌==◌, length, keep_if,
  trim, any,
}
use mathlib.Core.List.{reverse}
use forge_os.Planner.{has}
use forge_os.Planner.Fences.{strip_prefix}
use forge_os.Skills.{
  Skill, SkillFrontMatter, SkillTrigger, SkillError, malformed, Yaml, active, pending_review,
  parse_skill, document,
}

abbrev pub Folder : Type 0
Folder = List (Text × Text)

pub record Folders : Type 0 where
  pub proposed : Folder
  pub active : Folder
  pub archived : Folder

pub record SuggestedSkill : Type 0 where
  pub name : Text
  pub description : Text
  pub tools : List Text
  pub keywords : List Text
  pub body : Text
  pub origin_mission_id : Text

abbrev pub file_names : Folder → List Text
file_names = map (λ e. e.0)

abbrev pub exists : Text → Folder → Bool
exists f d = has f (file_names d)

unfoldable pub read : Text → Folder → Option Text
unfolding text_eq
read f [] = none
read f (e ∷ d) = let rest = read f d in if text_eq e.0 f then some e.1 else rest

unfoldable pub remove : Text → Folder → Folder
unfolding text_eq
remove f = keep_if (λ e. not (text_eq e.0 f))

abbrev pub replace : Text → Text → Folder → Folder
replace f contents = map (λ e. if text_eq e.0 f then (f, contents) else e)

-- `std::fs::write`: over an old file, or as a new one.
unfoldable pub write : Text → Text → Folder → Folder
unfolding text_eq
write f contents d = if exists f d then replace f contents d else d ++ (f, contents) ∷ []

abbrev pub is_found : Option Text → Bool
is_found none = false
is_found (some _) = true

-- The extension is `md`.
unfoldable pub is_md : Text → Bool
unfolding strip_prefix
is_md f = ltb 3 (length f) && is_found (strip_prefix (text "dm.") (reverse f))

abbrev is_kept : ℕ → Bool
is_kept c =
    (leb 48 c && leb c 57)
    || (leb 65 c && leb c 90)
    || (leb 97 c && leb c 122)
    || c == 45
    || c == 95

unfoldable pub sanitize : Text → Text
sanitize = map (λ c. if is_kept c then c else 45)

-- The names that the loop of `retire_active_skill` tries.
unfoldable pub candidate : Text → ℕ → Text
unfolding decimal
candidate file zero = file
candidate file (suc n) = decimal (suc n) ++ (45 ∷ file)

-- The first free one from number `n` on.
unfoldable pub next_free : ℕ → ℕ → Text → List Text → Option Text
unfolding candidate
next_free zero n file taken = none
next_free (suc fuel) n file taken = elim (has (candidate file n) taken) [
  | false ↦ some (candidate file n)
  | true ↦ next_free fuel (suc n) file taken
]

abbrev proposal_front : SuggestedSkill → SkillFrontMatter
proposal_front s = record {
  name = s.name;
  version = text "0.1.0";
  description = s.description;
  status = pending_review;
  tools = s.tools;
  triggers = record { keywords = s.keywords; file_globs = [] };
  inputs = [];
  outputs = [];
}

abbrev origin_note : SuggestedSkill → Text
origin_note s =
    if length s.origin_mission_id == 0
    then []
    else text "<!-- proposed from mission "
      ++ (s.origin_mission_id ++ (text " -->" ++ 10 ∷ 10 ∷ []))

pub record Approved : Type 0 where
  pub file : Text
  pub sha : Text
  pub name : Text
  pub version : Text

module _ (yaml : Yaml) where
  -- `ts` is the time, with dashes for its colons.
  unfoldable pub write_proposal : Text → SuggestedSkill → Folders → Folders × Text
  unfolding write sanitize trim
  write_proposal ts s d =
      let file = sanitize s.name ++ (45 ∷ (ts ++ text ".md")) in
      (
        record d {
          proposed =
              write file
                (document (yaml.to_string (proposal_front s)) (origin_note s ++ trim s.body))
                d.proposed;
        },
        file,
      )

  abbrev pub activated : Skill → SkillFrontMatter
  activated s = record s.front { status = active }

  abbrev pub approve_skill :
      (Text → Text) → Text → Skill → Folders → Result SkillError (Folders × Approved)
  approve_skill hash file s d =
      let doc = document (yaml.to_string (activated s)) s.body in
      ok (
        record d { proposed = remove file d.proposed; active = write file doc d.active },
        record { file = file; sha = hash doc; name = s.front.name; version = s.front.version },
      )

  unfoldable pub approve_proposal_detail :
      (Text → Text) → Text → Folders → Result SkillError (Folders × Approved)
  approve_proposal_detail hash file d = elim (read file d.proposed) [
    | none ↦ err (malformed file (text "no such proposal"))
    | some raw ↦ elim (parse_skill yaml raw) [ err e ↦ err e | ok s ↦ approve_skill hash file s d ]
  ]

  unfoldable pub reject_proposal : Text → Folders → Folders
  unfolding remove
  reject_proposal file d = record d { proposed = remove file d.proposed }

  abbrev pub has_name : Text → Result SkillError Skill → Bool
  has_name name (ok s) = text_eq s.front.name name
  has_name name (err e) = false

  -- A file that holds the skill.
  unfoldable pub holds_skill : Text → Text × Text → Bool
  unfolding is_md parse_skill text_eq
  holds_skill name e = is_md e.0 && has_name name (parse_skill yaml e.1)

  -- One file out of `active` into `archived`.
  unfoldable pub archive_file : Text × Text → Folders → Option Folders
  archive_file e d = elim (next_free (suc (length d.archived)) 0 e.0 (file_names d.archived)) [
    | none ↦ none
    | some dst ↦
        some (record d { active = remove e.0 d.active; archived = d.archived ++ (dst, e.1) ∷ [] })
  ]

  -- The loop over the files that were read; `none` where no free name is found.
  unfoldable pub retire_files : Text → Folder → Folders → ℕ → Option (Folders × ℕ)
  retire_files name [] d moved = some (d, moved)
  retire_files name (e ∷ es) d moved = elim (holds_skill name e) [
    | false ↦ retire_files name es d moved
    | true ↦ elim (archive_file e d) [ none ↦ none | some d' ↦ retire_files name es d' (suc moved) ]
  ]

  unfoldable pub retire_active_skill : Text → Folders → Option (Folders × ℕ)
  retire_active_skill name d = retire_files name d.active d 0

  unfoldable pub restore_from_bytes : Text → Text → Folders → Option (Folders × Text)
  restore_from_bytes name bytes d = elim (retire_active_skill name d) [
    | none ↦ none
    | some (d', _) ↦
        let file = sanitize name ++ text ".md" in
        some (record d' { active = write file bytes d'.active }, file)
  ]
