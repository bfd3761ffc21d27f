-- ===== src/Tests/Skills.antt =====
-- Skill files, the gate, the loader and the registry of crates/forge-skills.
use forge_os.Prelude.{
  List, ℕ, ◌≡◌, refl, Text, text, text_eq, starts_with, decimal, true, false, some, none, [], ◌∷◌,
  ok, err, if◌then◌else◌, map, keep_if, is_whitespace, trim_start, trim_end, trim, arith,
}
use Prim.Native.Nat.{Ordering}
use forge_os.Planner.Fences.{strip_prefix}
use forge_os.Skills.{
  SkillFrontMatter, Skill, Yaml, active, pending_review, unix_lines, strip_bom, fence_from,
  split_at_fence, check_front, read_front, split_front, parse_lines, parse_skill,
}
use forge_os.Skills.Fence.{IsYaml}
use forge_os.Skills.Files.{
  Folders, Approved, file_names, read, remove, write, is_md, sanitize, candidate, next_free,
  write_proposal, activated, approve_proposal_detail, reject_proposal, holds_skill, archive_file,
  retire_files, retire_active_skill, restore_from_bytes,
}
use forge_os.Skills.Files.Approve.{IsApproved, approve_proposal_detail-IsApproved}
use forge_os.Skills.Files.Retire.{Moves, retire_active_skill-Moves}
use forge_os.Skills.Files.Restore.{restore_from_bytes-holds_skill}
use forge_os.Skills.Load.{
  Entries, file, dir, more, load_all, permitted, walk, is_skipped, by_version, dedupe, name_of,
}
use forge_os.Skills.Load.Best.{IsLoaded, load_all-IsLoaded}
use forge_os.Skills.Load
use forge_os.Skills.Registry.{
  IsSelection, word_from, word_present, trigger_score, by_score, scored_matches, select_for_mission,
  select_for_mission-IsSelection,
}
use forge_os.Skills.Registry.Words.{occurs, word_present-occurs}
use forge_os.Skills.Sort.{insert, is_total, sort_by}
use forge_os.Skills.Validate.{
  ValidatorContext, is_empty, failed, hard_failures, body_len, join_comma, resolves, overlap,
  collisions, previous, checks_of, validate_skill, validate_bytes, skill_error_display,
}
use forge_os.Skills.Verdict.{Verdict, validate_bytes-Verdict}
use forge_os.Skills.Version.{split_on, parse_u64, parse3, version_less, text_cmp, version_cmp}

opened : Unit {0}
unfolding text_eq starts_with decimal is_whitespace trim_start trim_end trim strip_prefix unix_lines
    strip_bom fence_from split_at_fence check_front read_front split_front parse_lines parse_skill
    read remove write is_md sanitize candidate next_free write_proposal approve_proposal_detail
    reject_proposal holds_skill archive_file retire_files retire_active_skill restore_from_bytes
    walk is_skipped by_version dedupe load_all word_from word_present trigger_score by_score
    scored_matches select_for_mission insert sort_by is_total failed hard_failures body_len
    join_comma resolves overlap collisions previous checks_of validate_skill validate_bytes
    skill_error_display split_on parse_u64 parse3 version_less text_cmp version_cmp
opened = tt

-- Front matter written as its name alone.
abbrev front : SkillFrontMatter
front = record {
  name = text "echo";
  version = text "1.0.0";
  description = text "d";
  status = active;
  tools = text "fs.read" ∷ [];
  triggers = record { keywords = text "echo" ∷ []; file_globs = [] };
  inputs = [];
  outputs = [];
}

abbrev yaml_line : Yaml
yaml_line = record {
  from_str = λ s. if text_eq s (text "name: echo\n") then ok front else err (text "bad");
  to_string = λ f. text "name: echo\n";
}

abbrev skill : Skill
skill = record {
  front = record front { status = pending_review };
  body = text "b";
  source_path = [];
}

-- One that reads proposals as pending.
abbrev yaml_two : Yaml
yaml_two = record {
  from_str = λ s. if text_eq s (text "name: echo\n") then ok front else ok skill.front;
  to_string = λ f. text "name: echo\n";
}

abbrev raw : Text
raw = text "---\nstatus: pending_review\n---\nb\n"

abbrev stored : Text
stored = text "---\nname: echo\n---\nb\n"

abbrev folders : Folders
folders = record {
  proposed = (text "p.md", raw) ∷ [];
  active = (text "e.md", stored) ∷ (text "echo.md", stored) ∷ (text "x.txt", stored) ∷ [];
  archived = (text "e.md", []) ∷ (text "1-e.md", []) ∷ [];
}

echo_IsYaml : IsYaml yaml_two (activated yaml_two skill)
unfolding opened
echo_IsYaml = record { read_back = refl; no_fence = refl; whole = refl }

approve_proposal_detail-IsApproved_example :
    (d' : Folders) × (a : Approved) × (approve_proposal_detail yaml_two
        (λ s. s)
        (text "p.md")
        folders
      ≡ ok (d', a))
    × IsApproved yaml_two (λ s. s) (text "p.md") skill folders d' a
unfolding opened
approve_proposal_detail-IsApproved_example =
    approve_proposal_detail-IsApproved yaml_two (λ s. s) (text "p.md") raw skill folders refl refl
      echo_IsYaml refl

retire_active_skill-Moves_example :
    (d' : Folders) × (moved : ℕ) × (retire_active_skill yaml_line (text "echo") folders
      ≡ some (d', moved))
    × Moves yaml_line (text "echo") [] folders.active folders d' 0 moved
unfolding text_eq
retire_active_skill-Moves_example =
    retire_active_skill-Moves yaml_line (text "echo") folders refl refl

retired :
    elim (retire_active_skill yaml_line (text "echo") folders) [
      | none ↦ []
      | some (d, _) ↦ file_names d.archived
    ]
    ≡ text "e.md" ∷ text "1-e.md" ∷ text "2-e.md" ∷ text "echo.md" ∷ []
unfolding opened
retired = refl

restore_from_bytes-holds_skill_example :
    (d' : Folders) × (f : Text) × (restore_from_bytes yaml_line (text "echo") stored folders
      ≡ some (d', f))
    × (read f d'.active ≡ some stored)
    × (keep_if (holds_skill yaml_line (text "echo")) d'.active ≡ (f, stored) ∷ [])
unfolding opened
restore_from_bytes-holds_skill_example =
    restore_from_bytes-holds_skill yaml_line (text "echo") stored folders refl (omega arith) refl
      refl

-- Two names with one file: rolling one skill back writes over the other.
one_file : sanitize (text "a b") ≡ sanitize (text "a-b")
unfolding opened
one_file = refl

abbrev ctx : ValidatorContext
ctx = record { known_tools = text "fs.read" ∷ []; active_skills = [] }

validate_bytes-Verdict_example :
    Verdict ctx (parse_skill yaml_line stored) (validate_bytes yaml_line stored ctx)
    × (is_empty (hard_failures (validate_bytes yaml_line stored ctx))
        ≡ (validate_bytes yaml_line stored ctx).ok)
validate_bytes-Verdict_example = validate_bytes-Verdict yaml_line stored ctx

too_short : hard_failures (validate_bytes yaml_line stored ctx) ≡ text "body_length" ∷ []
unfolding opened
too_short = refl

-- Fourteen characters of three bytes each are long enough.
wide_body : body_len (text "日本語日本語日本語日本語日本") ≡ 42
unfolding opened
wide_body = refl

-- The order of versions goes round.
version_cmp_cycle :
    (version_cmp (text "9") (text "10") ≡ Ordering.lt)
    × (version_cmp (text "10") (text "1x") ≡ Ordering.lt)
    × (version_cmp (text "1x") (text "9") ≡ Ordering.lt)
unfolding opened
version_cmp_cycle = (refl, refl, refl)

abbrev at_version : Text → Skill
at_version v = record { front = record front { version = v }; body = []; source_path = [] }

-- On such versions loading has no order to go by.
cycle_unordered :
    is_total by_version
      (at_version (text "9") ∷ at_version (text "10") ∷ at_version (text "1x") ∷ [])
    ≡ false
unfolding opened
cycle_unordered = refl

abbrev tree : Entries
tree = more (file (text "a.md") stored) (
    more (dir (text "archived") (more (file (text "b.md") stored) Load.no_more))
      (more (file (text "c.md") stored) Load.no_more))

loaded_once :
    (elim (load_all yaml_line false (text "skills") tree) [ none ↦ [] | some ss ↦ map name_of ss ])
    ≡ text "echo" ∷ []
unfolding opened
loaded_once = refl

tree-is_total : is_total by_version (permitted yaml_line false (text "skills") tree) ≡ true
unfolding opened
tree-is_total = refl

load_all-IsLoaded_example :
    (out : List Skill) × (load_all yaml_line false (text "skills") tree ≡ some out)
    × IsLoaded false (walk yaml_line false (text "skills") tree) out
load_all-IsLoaded_example = load_all-IsLoaded yaml_line false (text "skills") tree tree-is_total

select_for_mission-IsSelection_example :
    IsSelection
      (λ s. s)
      (text "run echo")
      (text "d")
      (skill ∷ [])
      (select_for_mission (λ s. s) (text "run echo") (text "d") (skill ∷ []))
select_for_mission-IsSelection_example =
    select_for_mission-IsSelection (λ s. s) (text "run echo") (text "d") (skill ∷ [])

word_present-occurs_example :
    word_present (text "trust rust") (text "rust") ≡ occurs (text "rust") none (text "trust rust")
word_present-occurs_example =
    word_present-occurs (text "trust rust") (text "rust") (omega arith) refl

-- A keyword that overlaps itself is missed behind a match that was refused.
missed_word :
    (word_present (text "ba a a") (text "a a") ≡ false)
    × (occurs (text "a a") none (text "ba a a") ≡ true)
unfolding opened
missed_word = (refl, refl)
