-- ===== src/SkillOps/Rollback.antt =====
-- `retire`, `rollback` and `seed_missing_history` of crates/forge-runtime/src/skills_ops.rs.
use forge_os.Prelude.{
  ℕ, suc, Text, text, text_eq, Bool, true, false, Option, none, some, [], ◌∷◌, ◌++◌, Result, ok,
  err, if◌then◌else◌,
}
use forge_os.Domain.Event.{skill_rolled_back, skill_retired}
use forge_os.Persistence.SkillHistory.{
  SkillVersionRecord, handcrafted, rollback, active_row, retire_active,
}
use forge_os.Skills.{Skill, SkillError, malformed, parse_skill}
use forge_os.Skills.Files.{Folder, read, is_md, retire_active_skill, restore_from_bytes}
use forge_os.SkillOps.{
  is_char_boundary, path_for_returns, skill, sha_missing, SkillTools, SkillWorld, note, put, sha_of,
  Outcome, answer_active, record_version,
}

module _ (t : SkillTools) where
  unfoldable pub retire : ℕ → Text → Text → SkillWorld → Outcome (Option Text)
  unfolding retire_active_skill retire_active
  retire now name reason w = elim (active_row name w.history) [
    | none ↦ some (w, ok none)
    | some r ↦ elim (retire_active_skill t.yaml name w.files) [
      | none ↦ none
      | some (d, _) ↦ some (
        note (skill_retired name r.sha reason)
            (record w { files = d; history = retire_active now name reason w.history }),
        ok (some r.sha),
      )
    ]
  ]

  abbrev pub foreign : Text → Text → Text → SkillError
  foreign name sha owner = malformed name (
      text "sha "
      ++ sha
      ++ text " belongs to skill `"
      ++ owner
      ++ text "`, not `"
      ++ name
      ++ text "`")

  -- The bytes are a skill of that name.
  unfoldable pub restore :
      ℕ → Text → Text → Option Text → Text → Text → SkillWorld → Outcome SkillVersionRecord
  unfolding restore_from_bytes record_version
  restore now name sha reason version bytes w =
      elim (restore_from_bytes t.yaml name bytes w.files) [
        | none ↦ none
        | some (d, _) ↦ answer_active name (
            note (skill_rolled_back name (sha_of (active_row name w.history)) sha reason)
              (record w {
                files = d;
                history =
                    record_version now (text "rolled back") none rollback name sha version
                      (sha_of (active_row name w.history)) reason w.history;
              }))
      ]

  abbrev pub restore_parsed :
      ℕ
      → Text
      → Text
      → Option Text
      → Text
      → SkillWorld
      → Result SkillError Skill
      → Outcome SkillVersionRecord
  restore_parsed now name sha reason bytes w (err e) = some (w, err (skill e))
  restore_parsed now name sha reason bytes w (ok s) = elim (text_eq s.front.name name) [
    | false ↦ some (w, err (skill (foreign name sha s.front.name)))
    | true ↦ restore now name sha reason s.front.version bytes w
  ]

  unfoldable pub roll_back : ℕ → Text → Text → Option Text → SkillWorld → Outcome SkillVersionRecord
  unfolding is_char_boundary read restore
  roll_back now name sha reason w =
      if path_for_returns sha
      then (elim (read sha w.store) [
        | none ↦ some (w, err (sha_missing sha name))
        | some bytes ↦ restore_parsed now name sha reason bytes w (parse_skill t.yaml bytes)
      ])
      else none

  abbrev pub is_sha : Option SkillVersionRecord → Text → Bool
  is_sha none sha = false
  is_sha (some r) sha = text_eq r.sha sha

  -- An active file that the history does not know in this form.
  unfoldable pub seed : ℕ → Text → Skill → SkillWorld → SkillWorld
  unfolding put record_version
  seed now bytes s w = record w {
    store = put (t.hash bytes) bytes w.store;
    history =
        record_version now (text "on-disk edit detected") none handcrafted s.front.name
          (t.hash bytes) s.front.version none (some (text "seeded from on-disk active/")) w.history;
  }

  abbrev pub seed_parsed : ℕ → Text → Result SkillError Skill → SkillWorld × ℕ → SkillWorld × ℕ
  seed_parsed now bytes (err e) (w, n) = (w, n)
  seed_parsed now bytes (ok s) (w, n) =
      if is_sha (active_row s.front.name w.history) (t.hash bytes)
      then (w, n)
      else (seed now bytes s w, suc n)

  -- The loop over the active files.
  unfoldable pub seed_files : ℕ → Folder → SkillWorld × ℕ → SkillWorld × ℕ
  unfolding is_md parse_skill seed
  seed_files now [] state = state
  seed_files now (e ∷ es) state =
      seed_files now es
        (if is_md e.0 then seed_parsed now e.1 (parse_skill t.yaml e.1) state else state)

  unfoldable pub seed_missing_history : ℕ → SkillWorld → SkillWorld × ℕ
  unfolding seed_files
  seed_missing_history now w = seed_files now w.files.active (w, 0)
