-- ===== src/Tests/SkillOps.antt =====
-- The operations of crates/forge-runtime/src/skills_ops.rs on a small folder.
use forge_os.Prelude.{
  ℕ, ◌≡◌, refl, Text, text, text_eq, starts_with, decimal, is_whitespace, trim_start, trim_end,
  trim, true, false, Option, none, some, List, [], ◌∷◌, ok, map, arith, if◌then◌else◌,
}
use forge_os.Planner.Fences.{strip_prefix}
use forge_os.Persistence.SkillHistory.{SkillVersionRecord, is_live, promote, newest, retire_active}
use forge_os.Skills.{
  SkillFrontMatter, Yaml, active, pending_review, unix_lines, strip_bom, fence_from, split_at_fence,
  check_front, read_front, split_front, parse_lines, parse_skill,
}
use forge_os.Skills.Files.{
  file_names, read, remove, write, is_md, sanitize, candidate, next_free, approve_proposal_detail,
  holds_skill, archive_file, retire_files, retire_active_skill, restore_from_bytes,
}
use forge_os.Skills.Sort.{insert, sort_by}
use forge_os.Skills.Validate.{
  failed, hard_failures, body_len, join_comma, resolves, overlap, collisions, previous, checks_of,
  validate_skill, validate_bytes, skill_error_display,
}
use forge_os.Skills.Version.{split_on, parse_u64, parse3, version_less, text_cmp, version_cmp}
use forge_os.SkillOps.{
  is_char_boundary, path_for_returns, SkillTools, SkillWorld, put, record_version,
}
use forge_os.SkillOps.Promote.{
  keywords_of, active_summaries, record_promotion, promote_from_proposal,
}
use forge_os.SkillOps.Rollback.{retire, restore, roll_back, seed, seed_files, seed_missing_history}
use forge_os.SkillOps.Consistent.{IsConsistent}
use forge_os.SkillOps.Runs.{
  SkillRequest, promoting, retiring, rolling_back, seeding, perform, run_requests,
}
use forge_os.SkillOps.Restored.{RolledBack, roll_back-RolledBack}

opened : Unit {0}
unfolding is_char_boundary text_eq starts_with decimal is_whitespace trim_start trim_end trim
    strip_prefix unix_lines strip_bom fence_from split_at_fence check_front read_front split_front
    parse_lines parse_skill read remove write is_md sanitize candidate next_free
    approve_proposal_detail holds_skill archive_file retire_files retire_active_skill
    restore_from_bytes insert sort_by failed hard_failures body_len join_comma resolves overlap
    collisions previous checks_of validate_skill validate_bytes skill_error_display split_on
    parse_u64 parse3 version_less text_cmp version_cmp is_live promote newest retire_active put
    record_version keywords_of active_summaries record_promotion promote_from_proposal retire
    restore roll_back seed seed_files seed_missing_history perform run_requests
opened = tt

abbrev front : SkillFrontMatter
front = record {
  name = text "echo";
  version = text "1.0.0";
  description = text "d";
  status = active;
  tools = text "fs.read" ∷ [];
  triggers = record { keywords = text "echo" ∷ []; file_globs = [] };
  inputs = [];
  outputs = [];
}

-- The front matter is its version alone.
abbrev yaml : Yaml
yaml = record {
  from_str = λ s.
      if text_eq s (text "one\n")
      then ok front
      else ok (record front { version = text "2.0.0"; status = pending_review });
  to_string = λ f. if text_eq f.version (text "1.0.0") then text "one\n" else text "two\n";
}

abbrev sha : Text → Text
sha s = 48 ∷ 49 ∷ 50 ∷ s

sha_cut : (s : Text) → path_for_returns (sha s) ≡ true
unfolding opened
sha_cut s = refl

abbrev tools : SkillTools
tools = record { yaml = yaml; hash = sha; hash_cut = sha_cut; known_tools = text "fs.read" ∷ [] }

abbrev first : Text
first = text "---\none\n---\nSays again what it was told, word for word, and aloud.\n"

abbrev second : Text
second = text "---\ntwo\n---\nSays again what it was told, word for word, and aloud.\n"

abbrev world : SkillWorld
world = record {
  files = record {
    proposed = (text "p.md", second) ∷ [];
    active = (text "echo.md", first) ∷ [];
    archived = [];
  };
  history = record { rows = []; next_id = 1 };
  store = (sha first, first) ∷ [];
  log = [];
}

world-IsConsistent : IsConsistent tools world
unfolding opened
world-IsConsistent = record {
  one = λ name. omega arith;
  stored = (refl, tt);
  kept = tt;
  active_distinct = refl;
  archived_distinct = refl;
}

abbrev requests : List (ℕ × SkillRequest)
requests =
    (1, seeding)
    ∷ (2, promoting (text "p.md") none)
    ∷ (3, promoting (text "p.md") none)
    ∷ (4, rolling_back (text "echo") (sha first) none)
    ∷ (5, retiring (text "echo") (text "unused"))
    ∷ []

roll_back-RolledBack_example :
    (w' : SkillWorld) × (r : SkillVersionRecord) × (roll_back tools 4
        (text "echo")
        (sha first)
        none
        world
      ≡ some (w', ok r))
    × RolledBack tools (text "echo") (sha first) first world w' r
unfolding opened
roll_back-RolledBack_example =
    roll_back-RolledBack tools 4 (sha first) first none
      (record {
        front = front;
        body = text "Says again what it was told, word for word, and aloud.";
        source_path = [];
      })
      world world-IsConsistent refl refl

-- A rollback to a name of two characters of two bytes, which byte 3 is inside, is a panic.
cut_inside :
    (elim (roll_back tools 4 (text "echo") (233 ∷ 233 ∷ []) none world) [
      | none ↦ true
      | some _ ↦ false
    ])
    ≡ true
unfolding opened
cut_inside = refl

abbrev after : List (ℕ × SkillRequest) → Option (List Text × List Text)
after qs = elim (run_requests tools qs world) [
  | none ↦ none
  | some w ↦ some (map (λ r. r.sha) w.history.rows, file_names w.files.active)
]

ran : after requests ≡ some ((sha first) ∷ (sha second) ∷ (sha first) ∷ [], [])
unfolding opened
ran = refl

-- Two active files of one skill: each start of the program retires and records both once more.
abbrev twice : SkillWorld
twice = record world {
  files = record world.files { active = (text "echo.md", first) ∷ (text "p.md", second) ∷ [] };
}

seeds_again :
    map
      (λ r. r.sha)
      (seed_missing_history tools 2 (seed_missing_history tools 1 twice).0).0.history.rows
    ≡ (sha first) ∷ (sha second) ∷ (sha first) ∷ (sha second) ∷ []
unfolding opened
seeds_again = refl

-- A promotion leaves the older file of the skill among the active ones.
stale_file :
    after ((1, seeding) ∷ (2, promoting (text "p.md") none) ∷ [])
    ≡ some ((sha first) ∷ (sha second) ∷ [], text "echo.md" ∷ text "p.md" ∷ [])
unfolding opened
stale_file = refl
