-- ===== src/SkillOps/Promote.antt =====
-- `validate_proposal` and `promote_from_proposal` of crates/forge-runtime/src/skills_ops.rs.
use forge_os.Prelude.{
  ℕ, Text, text, true, false, not, ◌&&◌, Option, none, some, List, [], ◌∷◌, map, keep_if, Result,
  ok, err, if◌then◌else◌,
}
use forge_os.Domain.Event.{skill_promoted, skill_validation_passed, skill_validation_failed}
use forge_os.Persistence.SkillHistory.{SkillVersionRecord, proposal, active_row, list_active}
use forge_os.Skills.{Skill, SkillError, parse_skill}
use forge_os.Skills.Files.{Folder, Approved, read, holds_skill, approve_proposal_detail}
use forge_os.Skills.Validate.{
  ActiveSkillSummary, ValidationReport, is_soft, hard_failures, validate_bytes,
}
use forge_os.SkillOps.{
  SkillOpsError, skill, proposal_missing, validation_failed, SkillTools, SkillWorld, note, put,
  sha_of, Outcome, answer_active, record_version,
}

module _ (t : SkillTools) where
  abbrev keywords_in : Text → Result SkillError Skill → List Text
  keywords_in name (ok s) = s.front.triggers.keywords
  keywords_in name (err e) = []

  -- The keywords of the first active file with that name.
  unfoldable pub keywords_of : Text → Folder → List Text
  unfolding holds_skill parse_skill
  keywords_of name [] = []
  keywords_of name (e ∷ es) =
      let rest = keywords_of name es in
      if holds_skill t.yaml name e then keywords_in name (parse_skill t.yaml e.1) else rest

  unfoldable pub active_summaries : SkillWorld → List ActiveSkillSummary
  unfolding keywords_of list_active
  active_summaries w =
      map
        (λ r. record {
          name = r.name;
          version = r.version;
          keywords = keywords_of r.name w.files.active;
        })
        (list_active w.history)

  abbrev pub report_on : Text → SkillWorld → ValidationReport
  report_on raw w =
      validate_bytes t.yaml raw
        (record { known_tools = t.known_tools; active_skills = active_summaries w })

  unfoldable pub validate_proposal : Text → SkillWorld → Result SkillOpsError ValidationReport
  unfolding read validate_bytes active_summaries
  validate_proposal file w = elim (read file w.files.proposed) [
    | none ↦ err (proposal_missing file)
    | some raw ↦ ok (report_on raw w)
  ]

  abbrev pub declared_name : Result SkillError Skill → Text
  declared_name (ok s) = s.front.name
  declared_name (err e) = text "<unparsed>"

  abbrev pub soft_failures : ValidationReport → List Text
  soft_failures r = map (λ c. c.id) (keep_if (λ c. not c.passed && is_soft c.severity) r.checks)

  -- After the file has become active.
  unfoldable pub record_promotion :
      ℕ → Option ℕ → Approved → Text → SkillWorld → Outcome SkillVersionRecord
  unfolding put record_version
  record_promotion now origin_mission_id a bytes w = answer_active a.name (
      note
        (skill_promoted a.name a.sha a.version (text "proposal")
          (sha_of (active_row a.name w.history)) origin_mission_id)
        (record w {
          store = put a.sha bytes w.store;
          history =
              record_version now (text "replaced by newer promotion") origin_mission_id proposal
                a.name a.sha a.version (sha_of (active_row a.name w.history)) none w.history;
        }))

  abbrev pub promote_file : ℕ → Text → Option ℕ → SkillWorld → Outcome SkillVersionRecord
  promote_file now file origin_mission_id w =
      elim (approve_proposal_detail t.yaml t.hash file w.files) [
        | err e ↦ some (w, err (skill e))
        | ok (d, a) ↦ elim (read a.file d.active) [
          | none ↦ none
          | some bytes ↦ record_promotion now origin_mission_id a bytes (record w { files = d })
        ]
      ]

  abbrev pub judge :
      ℕ → Text → Option ℕ → Text → ValidationReport → SkillWorld → Outcome SkillVersionRecord
  judge now file origin_mission_id name report w = elim report.ok [
    | false ↦ some (
      note (skill_validation_failed file name (hard_failures report)) w,
      err (validation_failed file (hard_failures report)),
    )
    | true ↦
        promote_file now file origin_mission_id
          (note (skill_validation_passed file name (soft_failures report)) w)
  ]

  unfoldable pub promote_from_proposal :
      ℕ → Text → Option ℕ → SkillWorld → Outcome SkillVersionRecord
  unfolding read approve_proposal_detail record_promotion hard_failures
  promote_from_proposal now file origin_mission_id w = elim (read file w.files.proposed) [
    | none ↦ some (w, err (proposal_missing file))
    | some raw ↦
        judge now file origin_mission_id (declared_name (parse_skill t.yaml raw)) (report_on raw w)
          w
  ]
