-- ===== src/SkillOps.antt =====
-- crates/forge-runtime/src/skills_ops.rs: promotion, retirement, rollback and seeding of skills over
-- their files, the table `skills_history` and the content store of
-- crates/forge-skills/src/versions.rs, which is a map from hashes to texts. `none` is a panic.
pub mod Promote
pub mod Rollback
pub mod Tidy
pub mod Consistent
pub mod Undone
pub mod Runs
pub mod Restored
use forge_os.Prelude.{
  ℕ, ◌+◌, ◌≡◌, ◌-◌, leb, zero, suc, Text, text, text_eq, Bool, true, false, not, ◌&&◌, Option, none,
  some, List, [], ◌∷◌, ◌++◌, map, keep_if, Result, ok, err, if◌then◌else◌,
}
use forge_os.Domain.Event.{
  ForgeEvent, skill_promoted, skill_rolled_back, skill_retired, skill_validation_passed,
  skill_validation_failed,
}
use forge_os.Persistence.SkillHistory.{
  SkillHistory, SkillVersionRecord, SkillOrigin, NewSkillVersion, handcrafted, proposal, rollback,
  active_row, promote, retire_active, list_active,
}
use forge_os.Skills.{Skill, SkillError, malformed, Yaml, parse_skill}
use forge_os.Skills.Files.{
  Folder, Folders, Approved, read, exists, has_name, holds_skill, is_md, approve_proposal_detail,
  retire_active_skill, restore_from_bytes,
}
use forge_os.Skills.Validate.{
  utf8_len, ActiveSkillSummary, ValidatorContext, ValidationReport, is_soft, hard_failures,
  validate_bytes,
}

pub data SkillOpsError : Type 0 where
  skill : SkillError → SkillOpsError
  sha_missing : Text → Text → SkillOpsError
  proposal_missing : Text → SkillOpsError
  validation_failed : Text → List Text → SkillOpsError

-- Whether byte `n` of a text, or its end, is the start of a character: only there a slice of it may
-- end.
unfoldable pub is_char_boundary : ℕ → Text → Bool
is_char_boundary zero s = true
is_char_boundary (suc n) [] = true
is_char_boundary (suc n) (c ∷ s) =
    let rest = is_char_boundary (suc n - utf8_len c) s in
    if leb (utf8_len c) (suc n) then rest else false

-- `&sha[..3.min(sha.len())]` of `path_for` is a panic otherwise.
abbrev pub path_for_returns : Text → Bool
path_for_returns = is_char_boundary 3

-- `SkillOps`: the crates it stands on, and the tools that the runtime knows. A hash is written in
-- hexadecimal digits, so that it can be cut anywhere.
pub record SkillTools : Type 0 where
  pub yaml : Yaml
  pub hash : Text → Text
  pub hash_cut : (s : Text) → path_for_returns (hash s) ≡ true
  pub known_tools : List Text

pub record SkillWorld : Type 0 where
  pub files : Folders
  pub history : SkillHistory
  pub store : Folder
  pub log : List ForgeEvent

abbrev pub note : ForgeEvent → SkillWorld → SkillWorld
note e w = record w { log = w.log ++ e ∷ [] }

-- `SkillVersionStore::contains`, `get` and `put` where `path_for` returns; `put` is called with a hash
-- alone.
abbrev pub contains_sha : Text → Folder → Bool
contains_sha sha store = exists sha store

unfoldable pub put : Text → Text → Folder → Folder
put sha bytes store = if contains_sha sha store then store else store ++ (sha, bytes) ∷ []

abbrev pub sha_of : Option SkillVersionRecord → Option Text
sha_of none = none
sha_of (some r) = some r.sha

-- An active row is retired before another takes its place.
abbrev pub retire_some : Option SkillVersionRecord → ℕ → Text → Text → SkillHistory → SkillHistory
retire_some none now name reason h = h
retire_some (some _) now name reason h = retire_active now name reason h

abbrev pub Outcome : Type 0 → Type 0
Outcome A = Option (SkillWorld × Result SkillOpsError A)

-- The row that was promoted just now is asked for again, with `expect`.
abbrev pub answer_active : Text → SkillWorld → Outcome SkillVersionRecord
answer_active name w = elim (active_row name w.history) [ none ↦ none | some r ↦ some (w, ok r) ]

-- The row of a version, after that of the version that it replaces is retired.
unfoldable pub record_version :
    ℕ
    → Text
    → Option ℕ
    → SkillOrigin
    → Text
    → Text
    → Text
    → Option Text
    → Option Text
    → SkillHistory
    → SkillHistory
unfolding promote retire_active
record_version now why origin_mission_id origin name sha version parent_sha reason h =
    promote now
      (record {
        name = name;
        sha = sha;
        version = version;
        origin = origin;
        origin_mission_id = origin_mission_id;
        parent_sha = parent_sha;
        reason = reason;
      })
      (retire_some (active_row name h) now name why h)
